-- ===== src/Mikrotik/Download.antt =====
-- internal/mikrotik/client.go: the resumable download of the archive, and the small requests. The
-- server's answers and the outcomes of the file operations are arguments.
pub mod Resume
pub mod Rounds
use install_mikrotik_chr_scr.Common.{
  ℕ, zero, suc, ◌+◌, ◌-◌, ◌*◌, ◌≤◌, ◌≡◌, Bool, true, false, not, ◌&&◌, ◌||◌, List, [], ◌∷◌, ◌++◌,
  Option, none, some, min, ltb, leb, ◌==◌, if◌then◌else◌, length, take, Result, ok, err, ◌>>=◌,
  ◌>>◌, refuse_if,
}
use install_mikrotik_chr_scr.Common.Text.{Bytes}
use install_mikrotik_chr_scr.Common.Int.{ℤ, pos, negsuc, ltb_ℤ, leb_ℤ}
use install_mikrotik_chr_scr.Mikrotik.Range.{ContentRange, parse_content_range}

-- A response: `body` are the bytes that it delivers, after which it ends or, if `broken`, fails.
pub record Response : Type 0 where
  pub status : ℕ
  pub content_length : ℤ
  pub content_range : Bytes
  pub body : Bytes
  pub broken : Bool

-- What `Lstat` says of the partial file.
pub data PartialFile : Type 0 where
  absent irregular unreadable : PartialFile
  regular : Bytes → PartialFile

pub data DownloadError : Type 0 where
  not_regular partial_too_large lstat_failed no_response bad_content_range wrong_start bad_status :
      DownloadError
  over_limit open_failed seek_failed interrupted sync_failed close_failed truncated : DownloadError
  incomplete rename_failed cancelled attempts_exhausted : DownloadError

-- The outcomes of the operations on the partial file. It takes `room` more bytes.
pub record FileCalls : Type 0 where
  pub opens : Bool
  pub seeks : Bool
  pub room : ℕ
  pub syncs : Bool
  pub closes : Bool
  pub renames : Bool

abbrev pub content : PartialFile → Bytes
content (regular b) = b
content absent = []
content irregular = []
content unreadable = []

-- The offset at which the download goes on.
pub resume_offset : PartialFile → ℕ → Result DownloadError ℕ
resume_offset absent maximum = ok 0
resume_offset irregular maximum = err not_regular
resume_offset unreadable maximum = err lstat_failed
resume_offset (regular b) maximum = do
  refuse_if (ltb maximum (length b)) partial_too_large
  ok (length b)

-- Where the response goes, and the total that it promises, -1 where it promises none.
pub record Placed : Type 0 where
  pub offset : ℕ
  pub expected : ℤ

abbrev pub place_range : ℕ → Option ContentRange → Result DownloadError Placed
place_range offset none = err bad_content_range
place_range offset (some r) = do
  refuse_if (not (r.start == offset)) wrong_start
  ok (record { offset = offset; expected = pos r.total })

-- The `switch` over the status.
pub place : ℕ → Response → Result DownloadError Placed
place offset r =
    if r.status == 200
    then ok (record { offset = 0; expected = r.content_length })
    else if r.status == 206
    then place_range offset (parse_content_range r.content_range)
    else err bad_status

-- What `io.Copy` reads through the `LimitReader`, and what the file takes of it.
abbrev pub received : ℕ → Response → Bytes
received limit r = take (min limit (length r.body)) r.body

abbrev pub stored : ℕ → Response → FileCalls → Bytes
stored limit r f = take (min f.room (length (received limit r))) (received limit r)

abbrev pub copy_fails : ℕ → Response → FileCalls → Bool
copy_fails limit r f =
    ltb f.room (length (received limit r)) || (r.broken && ltb (length r.body) limit)

-- The file after the copy: `O_TRUNC` where the offset is 0, and otherwise a write behind its end.
abbrev pub appended : Placed → PartialFile → Bytes → Bytes
appended p file bytes = if p.offset == 0 then bytes else content file ++ bytes

-- `value >= 0 && actual != value`.
abbrev pub breaks_promise : ℤ → ℕ → Bool
breaks_promise (pos n) actual = not (actual == n)
breaks_promise (negsuc n) actual = false

-- How an attempt ends: the partial file, the destination if it was renamed, and the result.
pub record Attempt : Type 0 where
  pub file : PartialFile
  pub destination : Option Bytes
  pub result : Result DownloadError (Unit {0})

abbrev pub stopped : PartialFile → DownloadError → Attempt
stopped file e = record { file = file; destination = none; result = err e }

-- The checks after the copy.
pub check_copy : ℕ → Placed → Response → FileCalls → Result DownloadError (Unit {0})
check_copy maximum p r f =
    let written = length (stored (maximum - p.offset + 1) r f) in
    do
      refuse_if (copy_fails (maximum - p.offset + 1) r f) interrupted
      refuse_if (not f.syncs) sync_failed
      refuse_if (not f.closes) close_failed
      refuse_if (ltb maximum (p.offset + written)) over_limit
      refuse_if (breaks_promise r.content_length written) truncated
      refuse_if (breaks_promise p.expected (p.offset + written)) incomplete
      refuse_if (not f.renames) rename_failed

abbrev pub finish : Bytes → Result DownloadError (Unit {0}) → Attempt
finish bytes (ok u) = record { file = absent; destination = some bytes; result = ok tt }
finish bytes (err e) = stopped (regular bytes) e

-- The checks before the copy, once the response is placed.
pub check_limits : ℕ → Placed → Response → FileCalls → Result DownloadError (Unit {0})
check_limits maximum p r f = do
  refuse_if (ltb_ℤ (pos maximum) p.expected || ltb_ℤ (pos (maximum - p.offset)) r.content_length)
      over_limit
  refuse_if (not f.opens) open_failed
  refuse_if (ltb 0 p.offset && not f.seeks) seek_failed

abbrev pub transfer :
    ℕ → PartialFile → Response → FileCalls → Placed → Result DownloadError (Unit {0}) → Attempt
transfer maximum file r f p (err e) = stopped file e
transfer maximum file r f p (ok u) =
    finish (appended p file (stored (maximum - p.offset + 1) r f)) (check_copy maximum p r f)

abbrev pub store : ℕ → PartialFile → Response → FileCalls → Result DownloadError Placed → Attempt
store maximum file r f (err e) = stopped file e
store maximum file r f (ok p) = transfer maximum file r f p (check_limits maximum p r f)

abbrev pub receive : ℕ → PartialFile → FileCalls → ℕ → Option Response → Attempt
receive maximum file f offset none = stopped file no_response
receive maximum file f offset (some r) = store maximum file r f (place offset r)

abbrev pub resume :
    ℕ → PartialFile → (ℕ → Option Response) → FileCalls → Result DownloadError ℕ → Attempt
resume maximum file server f (err e) = stopped file e
resume maximum file server f (ok offset) = receive maximum file f offset (server offset)

-- `downloadOnce`. The server answers a request for the bytes from an offset on.
pub download_once : ℕ → PartialFile → (ℕ → Option Response) → FileCalls → Attempt
download_once maximum file server f = resume maximum file server f (resume_offset file maximum)

-- What one attempt of `download` meets; `cancelled` is that the context ends before the next.
pub record Round : Type 0 where
  pub server : ℕ → Option Response
  pub calls : FileCalls
  pub cancelled : Bool

abbrev pub is_ok : Result DownloadError (Unit {0}) → Bool
is_ok (ok u) = true
is_ok (err e) = false

-- `download`, over the rounds that are left.
pub download_rounds : ℕ → PartialFile → List Round → Attempt
download_rounds maximum file [] = stopped file attempts_exhausted
download_rounds maximum file (r ∷ rs) =
    let a = download_once maximum file r.server r.calls in
    let rest = download_rounds maximum a.file rs in
    if is_ok a.result
    then a
    else if r.cancelled && not (length rs == 0)
    then stopped a.file DownloadError.cancelled
    else rest

-- The five attempts.
pub download : ℕ → PartialFile → Round → Round → Round → Round → Round → Attempt
download maximum file r1 r2 r3 r4 r5 = download_rounds maximum file (r1 ∷ r2 ∷ r3 ∷ r4 ∷ r5 ∷ [])
