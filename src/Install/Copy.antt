-- ===== src/Install/Copy.antt =====
-- internal/install/write.go: `CopyImage` and `HashPrefix`. The progress callback, which only
-- prints, is left out.
pub mod Loop
pub mod Image
pub mod Readback
use install_mikrotik_chr_scr.Common.{
  ℕ, zero, suc, ◌+◌, ◌-◌, ◌*◌, ◌≡◌, Bool, true, false, not, ◌&&◌, List, [], ◌∷◌, ◌++◌, Option, none,
  some, ltb, leb, ◌==◌, if◌then◌else◌, length, take, drop, min, Result, ok, err, is_none,
}
use install_mikrotik_chr_scr.Common.Text.{Bytes}

-- `4*1024*1024`, the size of the buffer. It is shut: the proofs use that it is not zero.
unfoldable pub buffer_size : ℕ
buffer_size = 4 * 1024 * 1024

-- An `io.Reader`: the bytes that it will still deliver, and whether it then fails or ends.
pub record Source : Type 0 where
  pub rest : Bytes
  pub broken : Bool

-- The errors of `io.ReadFull`: none, `io.EOF`, `io.ErrUnexpectedEOF` and any other.
pub data ReadEnd : Type 0 where
  full eof unexpected_eof read_error : ReadEnd

pub record Read : Type 0 where
  pub part : Bytes
  pub ended : ReadEnd
  pub source : Source

abbrev read_end : Source → ℕ → ReadEnd
read_end s n =
    if leb n (length s.rest)
    then full
    else if s.broken
    then read_error
    else if length s.rest == 0
    then eof
    else unexpected_eof

-- `io.ReadFull` of `n` bytes.
abbrev pub read_full : Source → ℕ → Read
read_full s n = record {
  part = take (min n (length s.rest)) s.rest;
  ended = read_end s n;
  source = record s { rest = drop (min n (length s.rest)) s.rest };
}

-- An `io.Writer`, by its contract: `write` takes a prefix of what it is given, says how long that
-- prefix is, and whether it failed.
pub record Writer (W : Type 0) : Type 0 where
  pub write : W → Bytes → W
  pub count : W → Bytes → ℕ
  pub fails : W → Bytes → Bool
  pub received : W → Bytes
  pub takes : (w : W) (p : Bytes) → received (write w p) ≡ received w ++ take (count w p) p

pub data CopyError : Type 0 where
  invalid_size out_of_fuel short_source short_write write_failed : CopyError
  read_failed : ReadEnd → CopyError

-- `readErr != nil && readErr != io.ErrUnexpectedEOF`.
abbrev pub read_stops : ReadEnd → Bool
read_stops full = false
read_stops unexpected_eof = false
read_stops eof = true
read_stops read_error = true

abbrev pub is_unexpected : ReadEnd → Bool
is_unexpected unexpected_eof = true
is_unexpected _ = false

-- The variables of the loop of `CopyImage`; `hashed` is all that the hash was given.
pub record CopyState (W : Type 0) : Type 0 where
  pub source : Source
  pub target : W
  pub hashed : Bytes
  pub written : ℕ

-- The state after a round or a loop, with the error that ended it.
pub record Outcome (S : Type 0) : Type 0 where
  pub state : S
  pub error : Option CopyError

abbrev fail : {S : Type 0} → S → CopyError → Outcome S
fail s e = record { state = s; error = some e }

-- `buffer`, or its beginning where less remains.
abbrev pub chunk_length : ℕ → ℕ → ℕ
chunk_length total written = min buffer_size (total - written)

module _ {W : Type 0} (writer : Writer W) where
  open writer use {write, count, fails}

  abbrev written_state : CopyState W → Read → CopyState W
  written_state s r = record {
    source = r.source;
    target = write s.target r.part;
    hashed = s.hashed ++ r.part;
    written = s.written + length r.part;
  }

  -- What follows a read that did not stop the loop.
  abbrev write_part : ℕ → CopyState W → Read → Outcome (CopyState W)
  write_part total s r =
      let s' = written_state s r in
      if length r.part == 0
      then fail (record s { source = r.source }) short_source
      else if fails s.target r.part
      then fail s' write_failed
      else if not (count s.target r.part == length r.part)
      then fail s' short_write
      else if is_unexpected r.ended && not (s'.written == total)
      then fail s' short_source
      else record { state = s'; error = none }

  -- The body of the loop of `CopyImage`.
  unfoldable pub copy_round : ℕ → CopyState W → Outcome (CopyState W)
  copy_round total s =
      let r = read_full s.source (chunk_length total s.written) in
      if read_stops r.ended
      then fail (record s { source = r.source }) (read_failed r.ended)
      else write_part total s r

  -- The loop, on fuel.
  unfoldable pub copy_loop : ℕ → ℕ → CopyState W → Outcome (CopyState W)
  copy_loop zero total s = fail s out_of_fuel
  copy_loop (suc fuel) total s =
      let o = copy_round total s in
      let rest = copy_loop fuel total o.state in
      if ltb s.written total
      then (if is_none o.error then rest else o)
      else record { state = s; error = none }

  -- `CopyImage`. Each round writes a byte at least, so `total + 1` rounds are enough.
  unfoldable pub copy_image : Source → W → ℕ → Outcome (CopyState W)
  copy_image src w total =
      let start : CopyState W = record { source = src; target = w; hashed = []; written = 0 } in
      if total == 0 then fail start invalid_size else copy_loop (total + 1) total start

-- The variables of the loop of `HashPrefix`.
pub record HashState : Type 0 where
  pub source : Source
  pub hashed : Bytes
  pub read : ℕ

abbrev hash_part : ℕ → HashState → Read → Outcome HashState
hash_part size s r =
    let s' : HashState = record {
      source = r.source;
      hashed = s.hashed ++ r.part;
      read = s.read + length r.part;
    } in
    if length r.part == 0
    then fail (record s { source = r.source }) short_source
    else if is_unexpected r.ended && not (s'.read == size)
    then fail s' short_source
    else record { state = s'; error = none }

unfoldable pub hash_round : ℕ → HashState → Outcome HashState
hash_round size s =
    let r = read_full s.source (chunk_length size s.read) in
    if read_stops r.ended
    then fail (record s { source = r.source }) (read_failed r.ended)
    else hash_part size s r

unfoldable pub hash_loop : ℕ → ℕ → HashState → Outcome HashState
hash_loop zero size s = fail s out_of_fuel
hash_loop (suc fuel) size s =
    let o = hash_round size s in
    let rest = hash_loop fuel size o.state in
    if ltb s.read size
    then (if is_none o.error then rest else o)
    else record { state = s; error = none }

unfoldable pub hash_prefix : Source → ℕ → Outcome HashState
hash_prefix src size =
    let start : HashState = record { source = src; hashed = []; read = 0 } in
    if size == 0 then fail start invalid_size else hash_loop (size + 1) size start
