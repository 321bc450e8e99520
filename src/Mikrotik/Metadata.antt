-- ===== src/Mikrotik/Metadata.antt =====
-- internal/mikrotik/client.go: the small requests for the version and the checksum, with their
-- retries. The server's answers are arguments.
use install_mikrotik_chr_scr.Common.{
  ℕ, ◌*◌, ◌≤◌, ◌≡◌, refl, inl, inr, Bool, true, false, not, ◌&&◌, ◌||◌, List, [], ◌∷◌, Option, none,
  some, ltb, leb, ◌==◌, if◌then◌else◌, length, arith, Bool-cases,
}
use install_mikrotik_chr_scr.Common.Text.{Bytes, to_lower}
use install_mikrotik_chr_scr.Common.Int.{pos, ltb_ℤ}
use install_mikrotik_chr_scr.Install.Manifest.{hex_decodes}
use install_mikrotik_chr_scr.Install.Resources.{fields}
use install_mikrotik_chr_scr.Mikrotik.Download.{Response}

abbrev pub max_metadata_bytes : ℕ
max_metadata_bytes = 64 * 1024

-- How one request ends: a body, a failure that is worth another try, or one that is not.
pub data Once : Type 0 where
  body : Bytes → Once
  retry give_up : Once

-- What one request meets: whether it can be made, the response unless the transport fails, and
-- whether the caller's context has ended then; `cancelled` is that it ends during the pause.
pub record Exchange : Type 0 where
  pub can_request : Bool
  pub response : Option Response
  pub context_ended : Bool
  pub cancelled : Bool

abbrev pub is_retryable : ℕ → Bool
is_retryable status = status == 408 || status == 429 || leb 500 status

-- `getSmallOnce` once there is a response.
unfoldable pub read_body : Response → Once
read_body r =
    if not (r.status == 200)
    then (if is_retryable r.status then retry else give_up)
    else if ltb_ℤ (pos max_metadata_bytes) r.content_length
    then give_up
    else if r.broken && leb (length r.body) max_metadata_bytes
    then retry
    else if ltb max_metadata_bytes (length r.body)
    then give_up
    else body r.body

abbrev pub answer_of : Bool → Option Response → Once
answer_of ended none = if ended then give_up else retry
answer_of ended (some r) = read_body r

unfoldable pub get_small_once : Exchange → Once
get_small_once x = if x.can_request then answer_of x.context_ended x.response else give_up

-- What follows an attempt: `rest` is the loop's next round, and the last attempt has none.
abbrev pub after_attempt : Exchange → Bool → Once → Option Bytes → Option Bytes
after_attempt x last (body b) rest = some b
after_attempt x last give_up rest = none
after_attempt x last retry rest = if last then none else if x.cancelled then none else rest

abbrev pub no_more : List Exchange → Bool
no_more [] = true
no_more (x ∷ xs) = false

-- The loop of `getSmall`; `none` is an error.
unfoldable pub get_small_rounds : List Exchange → Option Bytes
get_small_rounds [] = none
get_small_rounds (x ∷ xs) = after_attempt x (no_more xs) (get_small_once x) (get_small_rounds xs)

-- The four attempts.
unfoldable pub get_small : Exchange → Exchange → Exchange → Exchange → Option Bytes
get_small x1 x2 x3 x4 = get_small_rounds (x1 ∷ x2 ∷ x3 ∷ x4 ∷ [])

abbrev pub first_field : List Bytes → Option Bytes
first_field [] = none
first_field (f ∷ fs) = if length f == 64 && hex_decodes f then some (to_lower f) else none

abbrev pub checksum_in : Option Bytes → Option Bytes
checksum_in none = none
checksum_in (some b) = first_field (fields b)

-- `fetchChecksum`, on the outcome of `getSmall`.
pub fetch_checksum : Exchange → Exchange → Exchange → Exchange → Option Bytes
fetch_checksum x1 x2 x3 x4 = checksum_in (get_small x1 x2 x3 x4)

-- One of the exchanges gave the body: a complete response with status 200 and no more bytes than the
-- limit; each exchange before it failed in a way that is worth another try.
pub data IsSmall (b : Bytes) : List Exchange → Type 0 where
  here :
      (x : Exchange) (xs : List Exchange) (r : Response)
      → x.response ≡ some r
      → r.status ≡ 200
      → r.broken ≡ false
      → r.body ≡ b
      → length b ≤ max_metadata_bytes
      → IsSmall b (x ∷ xs)
  later :
      (x : Exchange) (xs : List Exchange)
      → get_small_once x ≡ retry
      → x.cancelled ≡ false
      → IsSmall b xs
      → IsSmall b (x ∷ xs)

read_body-body :
    (r : Response) (b : Bytes)
    → read_body r ≡ body b
    → (r.status ≡ 200) × (r.broken ≡ false) × (r.body ≡ b) × (length b ≤ max_metadata_bytes)
unfolding read_body
read_body-body r b h =
    let (s, k, e, l) : (r.status ≡ 200)
        × (r.broken ≡ false)
        × (body r.body ≡ body b)
        × (length r.body ≤ max_metadata_bytes) =
      ground (arith, h) in
    let same : r.body ≡ b = cc in (s, k, same, rw (← same) l)

once-body :
    (x : Exchange) (xs : List Exchange) (b : Bytes) → get_small_once x ≡ body b → IsSmall b (x ∷ xs)
unfolding get_small_once
once-body x xs b h = elim (Bool-cases x.can_request) [
  | inl e ↦ go x.response refl (rw e at h)
  | inr e ↦ absurd (ground (arith, h, e))
]
  where
    go :
        (o : Option Response)
        → x.response ≡ o
        → answer_of x.context_ended o ≡ body b
        → IsSmall b (x ∷ xs)
    go none q k = absurd (ground (arith, k))
    go (some r) q k = let (s, n, e, l) = read_body-body r b k in here x xs r q s n e l

rounds-IsSmall : (xs : List Exchange) (b : Bytes) → get_small_rounds xs ≡ some b → IsSmall b xs
unfolding get_small_rounds
rounds-IsSmall [] b h = cc
rounds-IsSmall (x ∷ xs) b h = go (get_small_once x) refl h (rounds-IsSmall xs b)
  where
    go :
        (o : Once)
        → get_small_once x ≡ o
        → after_attempt x (no_more xs) o (get_small_rounds xs) ≡ some b
        → (get_small_rounds xs ≡ some b → IsSmall b xs)
        → IsSmall b (x ∷ xs)
    go (body c) q k ih = let same : c ≡ b = cc in once-body x xs b (rw (← same) q)
    go give_up q k ih = cc
    go retry q k ih =
        let (going, next) : (x.cancelled ≡ false) × (get_small_rounds xs ≡ some b) =
          ground (arith, k) in
        later x xs q going (ih next)

-- A body that the small request returns comes from one of at most four exchanges, in which the
-- server answered with status 200, completely, and with no more than 64 KiB; every exchange before
-- it failed in a way that allows another try, and the caller did not cancel.
pub get_small-IsSmall :
    (x1 x2 x3 x4 : Exchange) (b : Bytes)
    → get_small x1 x2 x3 x4 ≡ some b
    → IsSmall b (x1 ∷ x2 ∷ x3 ∷ x4 ∷ [])
unfolding get_small
get_small-IsSmall x1 x2 x3 x4 b h = rounds-IsSmall (x1 ∷ x2 ∷ x3 ∷ x4 ∷ []) b h
