-- ===== src/Mikrotik/Download/Resume.antt =====
-- The resumed download against the resource that an honest server holds.
use install_mikrotik_chr_scr.Common.{
  ℕ, ◌+◌, ◌-◌, ◌≤◌, ◌<◌, Bool, ◌&&◌, length-take-min, or_false, ◌≡◌, ◌≢◌, refl, sym, ◌∙◌, ap, subst,
  ◌⊎◌, inl, inr, true, false, not, [], ◌∷◌, ◌++◌, Option, none, some, ltb, ◌==◌, length, take, drop,
  Result, ok, err, ◌>>◌, refuse_if, arith, Bool-cases, length-append, append_assoc, append-nil,
  take-append_drop,
}
use install_mikrotik_chr_scr.Common.Text.{Bytes}
use install_mikrotik_chr_scr.Common.Int.{ℤ, pos, negsuc}
use install_mikrotik_chr_scr.Mikrotik.Range.{ContentRange, parse_content_range}
use install_mikrotik_chr_scr.Mikrotik.Download.{
  Response, PartialFile, absent, irregular, unreadable, regular, FileCalls, content, resume_offset,
  Placed, received, place_range, place, stored, copy_fails, appended, breaks_promise, Attempt,
  check_copy, finish, check_limits, transfer, store, receive, resume, download_once, DownloadError,
  is_ok,
}

-- `b` is the beginning of `whole`.
abbrev pub IsPrefix : Bytes → Bytes → Type 0
IsPrefix b whole = (rest : Bytes) × (whole ≡ b ++ rest)

ok-inj : {A : Type 0} {a b : A} (r : Result DownloadError A) → r ≡ ok a → r ≡ ok b → a ≡ b
ok-inj r g h = cc

drop_prefix : (a b : Bytes) → drop (length a) (a ++ b) ≡ b
drop_prefix [] b = refl
drop_prefix (x ∷ a) b = drop_prefix a b

take-IsPrefix : (n : ℕ) (b whole : Bytes) → IsPrefix b whole → IsPrefix (take n b) whole
take-IsPrefix n b whole (rest, e) = (
  drop n b ++ rest,
  e ∙ ap (λ t. t ++ rest) (sym (take-append_drop n b)) ∙ append_assoc (take n b) (drop n b) rest,
)

join-IsPrefix :
    (a b whole : Bytes) (rest : Bytes)
    → whole ≡ a ++ rest
    → IsPrefix b rest
    → IsPrefix (a ++ b) whole
join-IsPrefix a b whole rest e (more, f) =
    (more, e ∙ ap (λ t. a ++ t) f ∙ sym (append_assoc a b more))

-- What a response with status 200 tells of the end of `whole`: its `Content-Length` is the length of
-- `whole`, or it has none, and then its reader fails where the body ends before `whole` does.
abbrev pub TellsEnd : Bytes → Response → Type 0
TellsEnd whole r =
    (r.content_length ≡ pos (length whole))
    ⊎ ((n : ℕ) × (r.content_length ≡ negsuc n) × ((r.broken ≡ true) ⊎ (r.body ≡ whole)))

-- The response delivers the bytes of `whole` from where it says: the start of `whole` with status
-- 200, and with status 206 from the start of its `Content-Range`, whose total is the length of
-- `whole`. Each may break off anywhere.
pub record IsHonest (whole : Bytes) (r : Response) : Type 0 where
  pub from_start : r.status ≡ 200 → IsPrefix r.body whole × TellsEnd whole r
  pub from_range :
      (c : ContentRange)
      → parse_content_range r.content_range ≡ some c
      → IsPrefix r.body (drop c.start whole) × (c.total ≡ length whole)

abbrev pub IsHonestServer : Bytes → (ℕ → Option Response) → Type 0
IsHonestServer whole server = (n : ℕ) (r : Response) → server n ≡ some r → IsHonest whole r

-- The bytes belong at the start of `whole`, or behind the partial file.
abbrev Fits : Bytes → PartialFile → ℕ → Bytes → Type 0
Fits whole file offset bytes =
    ((offset ≡ 0) × IsPrefix bytes whole)
    ⊎ ((offset ≡ length (content file)) × IsPrefix bytes (drop (length (content file)) whole))

-- What is known of the end when the response is placed.
abbrev Ends : Bytes → Response → Placed → Type 0
Ends whole r p =
    (p.expected ≡ pos (length whole)) ⊎ ((p.offset ≡ 0) × ((r.broken ≡ true) ⊎ (r.body ≡ whole)))

TellsEnd-Ends :
    (whole : Bytes) (r : Response)
    → TellsEnd whole r
    → Ends whole r (record { offset = 0; expected = r.content_length })
TellsEnd-Ends whole r (inl e) = inl e
TellsEnd-Ends whole r (inr (n, e, d)) = inr (refl, d)

place_range_lem :
    (whole : Bytes) (file : PartialFile) (r : Response) (p : Placed) (o : Option ContentRange)
    → ((c : ContentRange)
        → o ≡ some c
        → IsPrefix r.body (drop c.start whole) × (c.total ≡ length whole))
    → place_range (length (content file)) o ≡ ok p
    → Ends whole r p × Fits whole file p.offset r.body
place_range_lem whole file r p none honest h = cc
place_range_lem whole file r p (some c) honest h =
    let (pre, total) = honest c refl in
    let (start, offset, expected) : (c.start ≡ length (content file))
        × (p.offset ≡ length (content file))
        × (p.expected ≡ pos c.total) =
      ground (arith, h) in
    (
      inl (expected ∙ ap pos total),
      inr (offset, subst (λ n. IsPrefix r.body (drop n whole)) start pre),
    )

place_lem :
    (whole : Bytes) (file : PartialFile) (r : Response) (p : Placed)
    → IsHonest whole r
    → place (length (content file)) r ≡ ok p
    → Ends whole r p × Fits whole file p.offset r.body
unfolding place
place_lem whole file r p honest h = elim (Bool-cases (r.status == 200)) [
  | inl e ↦
      let (pre, tells) = honest.from_start (ground (arith, e)) in
      let is : record { offset = 0; expected = r.content_length } ≡ p =
        ok-inj (ok _) refl (rw e at h) in
      (
        subst (Ends whole r) is (TellsEnd-Ends whole r tells),
        inl (ap (λ q. q.offset) (sym is), pre),
      )
  | inr e ↦ elim (Bool-cases (r.status == 206)) [
    | inl f ↦
        place_range_lem whole file r p (parse_content_range r.content_range) honest.from_range
          (rw (e, f) at h)
    | inr f ↦ absurd (ground (arith, h, e, f))
  ]
]

appended_lem :
    (whole : Bytes) (file : PartialFile) (p : Placed) (b : Bytes)
    → IsPrefix (content file) whole
    → Fits whole file p.offset b
    → IsPrefix (appended p file b) whole
appended_lem whole file p b (rest, known) fits = elim (Bool-cases (p.offset == 0)) [
  | inl e ↦ rw e (at_start (ground (arith, e)) fits)
  | inr e ↦ rw e (behind (λ z. absurd (ground (arith, e, z))) fits)
]
  where
    at_start : p.offset ≡ 0 → Fits whole file p.offset b → IsPrefix b whole
    at_start q (inl (z, pre)) = pre
    at_start q (inr (z, pre)) =
        let n : length (content file) ≡ 0 = omega arith in
        subst (λ k. IsPrefix b (drop k whole)) n pre

    behind : p.offset ≢ 0 → Fits whole file p.offset b → IsPrefix (content file ++ b) whole
    behind q (inl (z, pre)) = absurd (q z)
    behind q (inr (z, pre)) = join-IsPrefix (content file) b whole rest known (
        subst (IsPrefix b)
          (ap (drop (length (content file))) known ∙ drop_prefix (content file) rest) pre)

-- Nothing of the file changes, or it holds what was appended; only a copy that passed every check
-- is renamed.
pub data IsEnd (whole : Bytes) (file : PartialFile) (a : Attempt) : Type 0 where
  same : a.file ≡ file → a.destination ≡ none → is_ok a.result ≡ false → IsEnd whole file a
  more :
      (b : Bytes)
      → IsPrefix b whole
      → a.file ≡ regular b
      → a.destination ≡ none
      → is_ok a.result ≡ false
      → IsEnd whole file a
  done : a.file ≡ absent → a.destination ≡ some whole → is_ok a.result ≡ true → IsEnd whole file a

whole_of : (b whole : Bytes) → IsPrefix b whole → length b ≡ length whole → whole ≡ b
whole_of b whole ([], e) h = e ∙ append-nil b
whole_of b whole (c ∷ cs, e) h =
    let n : length whole ≡ length b + length (c ∷ cs) = ap length e ∙ length-append b (c ∷ cs) in
    absurd (ground (arith, n, h))

check_copy-expected :
    (maximum : ℕ) (p : Placed) (r : Response) (f : FileCalls) (n : ℕ)
    → p.expected ≡ pos n
    → check_copy maximum p r f ≡ ok tt
    → p.offset + length (stored (maximum - p.offset + 1) r f) ≡ n
unfolding check_copy
check_copy-expected maximum p r f n e h = tests _ (p.expected) e h
  where
    tests :
        (written : ℕ) (z : ℤ)
        → z ≡ pos n
        → (do
          refuse_if (copy_fails (maximum - p.offset + 1) r f) DownloadError.interrupted
          refuse_if (not f.syncs) DownloadError.sync_failed
          refuse_if (not f.closes) DownloadError.close_failed
          refuse_if (ltb maximum (p.offset + written)) DownloadError.over_limit
          refuse_if (breaks_promise r.content_length written) DownloadError.truncated
          refuse_if (breaks_promise z (p.offset + written)) DownloadError.incomplete
          refuse_if (not f.renames) DownloadError.rename_failed)
          ≡ ok tt
        → p.offset + written ≡ n
    tests written (pos k) e h = ground (arith, e, h)
    tests written (negsuc k) e h = cc

-- What two of the checks leave.
check_copy-kept :
    (maximum : ℕ) (p : Placed) (r : Response) (f : FileCalls)
    → check_copy maximum p r f ≡ ok tt
    → (copy_fails (maximum - p.offset + 1) r f ≡ false)
      × (p.offset + length (stored (maximum - p.offset + 1) r f) ≤ maximum)
unfolding check_copy
check_copy-kept maximum p r f h =
    tests (copy_fails (maximum - p.offset + 1) r f) _ (breaks_promise r.content_length _)
      (breaks_promise p.expected _) h
  where
    tests :
        (fails : Bool) (written : ℕ) (y z : Bool)
        → (do
          refuse_if fails DownloadError.interrupted
          refuse_if (not f.syncs) DownloadError.sync_failed
          refuse_if (not f.closes) DownloadError.close_failed
          refuse_if (ltb maximum (p.offset + written)) DownloadError.over_limit
          refuse_if y DownloadError.truncated
          refuse_if z DownloadError.incomplete
          refuse_if (not f.renames) DownloadError.rename_failed)
          ≡ ok tt
        → (fails ≡ false) × (p.offset + written ≤ maximum)
    tests true written y z h = cc h
    tests false written y z h = (refl, ground (arith, h))

-- A copy that passes its checks under the limit has taken the whole body and met no read error.
copied_body :
    (limit : ℕ) (r : Response) (f : FileCalls)
    → copy_fails limit r f ≡ false
    → length (stored limit r f) < limit
    → (r.broken ≡ false) × (length (stored limit r f) ≡ length r.body)
copied_body limit r f h k =
    let a = length-take-min limit r.body in
    let b = length-take-min f.room (received limit r) in
    let (x, y) = or_false (ltb f.room (length (received limit r))) _ h in
    let room : length (received limit r) ≤ f.room = ground (arith, x) in
    let all : length (stored limit r f) ≡ length r.body = omega (arith, a, b, k, room) in
    let less : ltb (length r.body) limit ≡ true = ground (arith, all, k) in
    (unbroken r.broken (ltb (length r.body) limit) y less, all)
  where
    unbroken : (a b : Bool) → (a && b) ≡ false → b ≡ true → a ≡ false
    unbroken true b h k = cc (h, k)
    unbroken false b h k = refl

check_copy-body :
    (maximum : ℕ) (p : Placed) (r : Response) (f : FileCalls) (whole : Bytes)
    → (r.broken ≡ true) ⊎ (r.body ≡ whole)
    → check_copy maximum p r f ≡ ok tt
    → length (stored (maximum - p.offset + 1) r f) ≡ length whole
check_copy-body maximum p r f whole d h =
    let (fails, below) = check_copy-kept maximum p r f h in
    let (unbroken, all) = copied_body (maximum - p.offset + 1) r f fails (omega (arith, below)) in
    elim d [ inl e ↦ cc (e, unbroken) | inr e ↦ all ∙ ap length e ]

offset_lem :
    (file : PartialFile) (maximum o : ℕ)
    → resume_offset file maximum ≡ ok o
    → o ≡ length (content file)
unfolding resume_offset
offset_lem absent m o h = sym (ok-inj _ refl h)
offset_lem irregular m o h = cc
offset_lem unreadable m o h = cc
offset_lem (regular b) m o h = ground (arith, h)

length-appended :
    (whole : Bytes) (file : PartialFile) (p : Placed) (b : Bytes)
    → Fits whole file p.offset b
    → length (appended p file b) ≡ p.offset + length b
length-appended whole file p b (inl (z, pre)) = ground (arith, z)
length-appended whole file p b (inr (z, pre)) = elim (Bool-cases (p.offset == 0)) [
  | inl e ↦ rw e (ground (arith, e))
  | inr e ↦ rw e (omega (arith, z, length-append (content file) b))
]

module _ (whole : Bytes) (maximum : ℕ) (file : PartialFile)
    (known : IsPrefix (content file) whole) where
  finish-IsEnd :
      (r : Response) (f : FileCalls) (p : Placed)
      → Ends whole r p
      → Fits whole file p.offset (stored (maximum - p.offset + 1) r f)
      → IsEnd whole file (
          finish (appended p file (stored (maximum - p.offset + 1) r f)) (check_copy maximum p r f))
  finish-IsEnd r f p ends fits = go (check_copy maximum p r f) refl
    where
      pre : IsPrefix (appended p file (stored (maximum - p.offset + 1) r f)) whole
      pre = appended_lem whole file p _ known fits

      copied_all :
          Ends whole r p
          → check_copy maximum p r f ≡ ok tt
          → p.offset + length (stored (maximum - p.offset + 1) r f) ≡ length whole
      copied_all (inl e) q = check_copy-expected maximum p r f (length whole) e q
      copied_all (inr (o, d)) q = omega (arith, o, check_copy-body maximum p r f whole d q)

      go :
          (c : Result DownloadError (Unit {0}))
          → check_copy maximum p r f ≡ c
          → IsEnd whole file (finish (appended p file (stored (maximum - p.offset + 1) r f)) c)
      go (err e) q = more (appended p file (stored (maximum - p.offset + 1) r f)) pre refl refl refl
      go (ok u) q =
          let n = copied_all ends q in
          let m = length-appended whole file p (stored (maximum - p.offset + 1) r f) fits in
          done refl (ap some (sym (whole_of _ whole pre (m ∙ n)))) refl

  store-IsEnd :
      (r : Response) (f : FileCalls)
      → IsHonest whole r
      → IsEnd whole file (store maximum file r f (place (length (content file)) r))
  store-IsEnd r f honest = go (place (length (content file)) r) refl
    where
      stored_fits :
          (p : Placed)
          → Fits whole file p.offset r.body
          → Fits whole file p.offset (stored (maximum - p.offset + 1) r f)
      stored_fits p (inl (z, pre)) = inl (z, take-IsPrefix _ _ _ (take-IsPrefix _ _ _ pre))
      stored_fits p (inr (z, pre)) = inr (z, take-IsPrefix _ _ _ (take-IsPrefix _ _ _ pre))

      allowed :
          (p : Placed) (c : Result DownloadError (Unit {0}))
          → Ends whole r p
          → Fits whole file p.offset r.body
          → IsEnd whole file (transfer maximum file r f p c)
      allowed p (err e) expected fits = same refl refl refl
      allowed p (ok u) expected fits = finish-IsEnd r f p expected (stored_fits p fits)

      go :
          (o : Result DownloadError Placed)
          → place (length (content file)) r ≡ o
          → IsEnd whole file (store maximum file r f o)
      go (err e) q = same refl refl refl
      go (ok p) q =
          let (expected, fits) = place_lem whole file r p honest q in
          allowed p (check_limits maximum p r f) expected fits

  pub once-IsEnd :
      (server : ℕ → Option Response) (f : FileCalls)
      → IsHonestServer whole server
      → IsEnd whole file (download_once maximum file server f)
  unfolding download_once
  once-IsEnd server f honest = go (resume_offset file maximum) refl
    where
      answer :
          (o : Option Response)
          → ((r : Response) → o ≡ some r → IsHonest whole r)
          → IsEnd whole file (receive maximum file f (length (content file)) o)
      answer none h = same refl refl refl
      answer (some r) h = store-IsEnd r f (h r refl)

      go :
          (o : Result DownloadError ℕ)
          → resume_offset file maximum ≡ o
          → IsEnd whole file (resume maximum file server f o)
      go (err e) q = same refl refl refl
      go (ok n) q =
          subst (λ k. IsEnd whole file (receive maximum file f k (server k)))
            (sym (offset_lem file maximum n q))
            (answer (server (length (content file))) (honest (length (content file))))
