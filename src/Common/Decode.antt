-- ===== src/Common/Decode.antt =====
-- `strconv.ParseUint` in base ten, `encoding/hex` and `unicode/utf8` on byte lists.
use install_mikrotik_chr_scr.Common.{
  ℕ, zero, suc, ◌+◌, ◌-◌, ◌*◌, ◌/◌, ◌%◌, ◌^◌, ◌≤◌, ◌<◌, ◌≡◌, refl, Bool, true, false, not, ◌&&◌,
  ◌||◌, [], ◌∷◌, Option, none, some, ltb, leb, ◌==◌, if◌then◌else◌, arith,
}
use install_mikrotik_chr_scr.Common.Text.{Bytes}

abbrev pub max_u64 : ℕ
max_u64 = 2 ^ 64 - 1

-- The digits read so far spell `n`; a byte that is no digit and a value above the bound are errors.
unfoldable pub scan_digits : Bytes → ℕ → Option ℕ
scan_digits [] n = some n
scan_digits (c ∷ cs) n =
    let m = n * 10 + (c - b'0') in
    if ltb c b'0' || ltb b'9' c then none else if ltb max_u64 m then none else scan_digits cs m

unfoldable pub parse_uint : Bytes → Option ℕ
unfolding scan_digits
parse_uint [] = none
parse_uint (c ∷ cs) = scan_digits (c ∷ cs) 0

-- The value of `strconv.ParseUint` in base 10, that of a failed parse included: 0 for a text that is
-- no number, and the bound at the first digit that passes it.
abbrev pub is_digit : ℕ → Bool
is_digit c = leb b'0' c && leb c b'9'

abbrev pub scan_value : Bytes → ℕ → ℕ
scan_value [] n = n
scan_value (c ∷ s) n =
    let rest = scan_value s (n * 10 + (c - b'0')) in
    if not (is_digit c) then 0 else if ltb max_u64 (n * 10 + (c - b'0')) then max_u64 else rest

unfoldable pub parse_uint_value : Bytes → ℕ
parse_uint_value s = scan_value s 0

pub scan_digits-le : (s : Bytes) (n m : ℕ) → n ≤ max_u64 → scan_digits s n ≡ some m → m ≤ max_u64
unfolding scan_digits
scan_digits-le [] n m h e = ground arith
scan_digits-le (c ∷ cs) n m h e = ground (arith, scan_digits-le cs (n * 10 + (c - b'0')) m)

pub parse_uint-le : (s : Bytes) {m : ℕ} → parse_uint s ≡ some m → m ≤ max_u64
unfolding parse_uint
parse_uint-le [] e = cc
parse_uint-le (c ∷ cs) {m} e = scan_digits-le (c ∷ cs) 0 m (omega arith) e

abbrev pub hex_digit : ℕ → ℕ
hex_digit n = if ltb n 10 then b'0' + n else b'a' + (n - 10)

-- `hex.EncodeToString`.
abbrev pub hex_encode : Bytes → Bytes
hex_encode [] = []
hex_encode (b ∷ bs) = hex_digit (b / 16) ∷ hex_digit (b % 16) ∷ hex_encode bs

abbrev pub hex_value : ℕ → Option ℕ
hex_value c =
    if leb b'0' c && leb c b'9'
    then some (c - b'0')
    else if leb b'a' c && leb c b'f'
    then some (c - b'a' + 10)
    else if leb b'A' c && leb c b'F'
    then some (c - b'A' + 10)
    else none

abbrev join_nibbles : Option ℕ → Option ℕ → Option Bytes → Option Bytes
join_nibbles (some h) (some l) (some bs) = some ((h * 16 + l) ∷ bs)
join_nibbles _ _ _ = none

-- `hex.DecodeString`.
abbrev pub hex_decode : Bytes → Option Bytes
hex_decode [] = some []
hex_decode (h ∷ []) = none
hex_decode (h ∷ l ∷ r) = join_nibbles (hex_value h) (hex_value l) (hex_decode r)

-- `utf8.ValidString`: `n` continuation bytes are still due, the next of them from `lo` to `hi`.
abbrev pub utf8_from : ℕ → ℕ → ℕ → Bytes → Bool
utf8_from zero lo hi [] = true
utf8_from (suc n) lo hi [] = false
utf8_from (suc n) lo hi (c ∷ cs) = leb lo c && leb c hi && utf8_from n 0x80 0xbf cs
utf8_from zero lo hi (c ∷ cs) =
    let none_due = utf8_from 0 0x80 0xbf cs in
    let one_due = utf8_from 1 0x80 0xbf cs in
    let two_due = λ (a b : ℕ). utf8_from 2 a b cs in
    let three_due = λ (a b : ℕ). utf8_from 3 a b cs in
    if ltb c 0x80
    then none_due
    else if leb 0xc2 c && leb c 0xdf
    then one_due
    else if c == 0xe0
    then two_due 0xa0 0xbf
    else if c == 0xed
    then two_due 0x80 0x9f
    else if leb 0xe1 c && leb c 0xef
    then two_due 0x80 0xbf
    else if c == 0xf0
    then three_due 0x90 0xbf
    else if c == 0xf4
    then three_due 0x80 0x8f
    else if leb 0xf1 c && leb c 0xf3
    then three_due 0x80 0xbf
    else false

abbrev pub valid_utf8 : Bytes → Bool
valid_utf8 = utf8_from 0 0x80 0xbf

hex_nibble : (n : ℕ) → n < 16 → hex_value (hex_digit n) ≡ some n
hex_nibble n h = ground arith

-- Decoding what was encoded gives the bytes back.
abbrev AllBytes : Bytes → Type 0
AllBytes [] = Unit
AllBytes (b ∷ bs) = (b < 256) × AllBytes bs

pub hex_decode-encode : (bs : Bytes) → AllBytes bs → hex_decode (hex_encode bs) ≡ some bs
hex_decode-encode [] h = refl
hex_decode-encode (b ∷ bs) (lt, h) =
    let whole : b / 16 * 16 + b % 16 ≡ b = omega arith in
    rw (
      hex_nibble (b / 16) (omega arith),
      hex_nibble (b % 16) (omega arith),
      hex_decode-encode bs h,
      whole,
    )
