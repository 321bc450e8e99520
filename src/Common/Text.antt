-- ===== src/Common/Text.antt =====
-- Go strings and byte slices as lists of byte values, and what the program uses of `strings`.
-- Letters and white space are the ASCII ones.
use Prim.Native.Nat.{ℕ, zero, suc, ◌+◌, ◌-◌, ◌/◌, ◌%◌}
use Prim.Native.Char.{code}
use Prim.Native.String.{String}
use mathlib.Core.Bool.{Bool, true, false, ◌&&◌, ◌||◌}
use mathlib.Core.List.{List, [], ◌∷◌, reverse}
use mathlib.Core.Path.{◌≡◌, refl}
use mathlib.Core.Option.{Option, none, some}
use native.Mathlib.Omega.{arith}
use install_mikrotik_chr_scr.Common.Tests.{ltb, leb, ◌==◌, ==_iff, if◌then◌else◌, and-eq-true}

abbrev pub Bytes : Type 0
Bytes = List ℕ

-- The bytes of an ASCII literal.
abbrev pub text : String → Bytes
text String.[] = []
text (String.◌∷◌ c s) = code c ∷ text s

-- `==` on strings.
abbrev pub same : Bytes → Bytes → Bool
same [] [] = true
same (x ∷ xs) (y ∷ ys) = x == y && same xs ys
same _ _ = false

abbrev pub is_empty : Bytes → Bool
is_empty [] = true
is_empty (x ∷ xs) = false

abbrev pub is_space : ℕ → Bool
is_space c = c == b' ' || (leb 9 c && leb c 13)

-- Drops the leading bytes for which the test holds.
abbrev pub trim_left : (ℕ → Bool) → Bytes → Bytes
trim_left p [] = []
trim_left p (c ∷ cs) = let rest = trim_left p cs in if p c then rest else c ∷ cs

-- `strings.TrimFunc`, and `strings.TrimSpace`.
abbrev pub trim : (ℕ → Bool) → Bytes → Bytes
trim p s = reverse (trim_left p (reverse (trim_left p s)))

abbrev pub trim_space : Bytes → Bytes
trim_space = trim is_space

abbrev pub lower_byte : ℕ → ℕ
lower_byte c = if leb b'A' c && leb c b'Z' then c + 32 else c

-- `strings.ToLower`.
abbrev pub to_lower : Bytes → Bytes
to_lower [] = []
to_lower (c ∷ cs) = lower_byte c ∷ to_lower cs

-- `strings.HasPrefix` and `strings.CutPrefix`: what follows the prefix.
abbrev pub cut_prefix : Bytes → Bytes → Option Bytes
cut_prefix [] s = some s
cut_prefix (p ∷ ps) [] = none
cut_prefix (p ∷ ps) (c ∷ cs) = let rest = cut_prefix ps cs in if p == c then rest else none

abbrev pub has_prefix : Bytes → Bytes → Bool
has_prefix p s = elim (cut_prefix p s) [ none ↦ false | some _ ↦ true ]

-- `strings.TrimPrefix`.
abbrev pub trim_prefix : Bytes → Bytes → Bytes
trim_prefix p s = elim (cut_prefix p s) [ none ↦ s | some r ↦ r ]

-- Removes every byte for which the test holds.
abbrev pub remove : (ℕ → Bool) → Bytes → Bytes
remove p [] = []
remove p (c ∷ cs) = if p c then remove p cs else c ∷ remove p cs

-- `strings.Cut` at one byte.
abbrev cons_before : ℕ → Option (Bytes × Bytes) → Option (Bytes × Bytes)
cons_before c none = none
cons_before c (some (before, after)) = some (c ∷ before, after)

unfoldable pub cut_at : ℕ → Bytes → Option (Bytes × Bytes)
cut_at sep [] = none
cut_at sep (c ∷ cs) =
    let rest = cut_at sep cs in if c == sep then some ([], cs) else cons_before c rest

-- `strings.Contains`.
unfoldable pub contains : Bytes → Bytes → Bool
contains part [] = has_prefix part []
contains part (c ∷ cs) = has_prefix part (c ∷ cs) || contains part cs

-- `strings.EqualFold`, on ASCII.
abbrev pub same_fold : Bytes → Bytes → Bool
same_fold a b = same (to_lower a) (to_lower b)

-- What follows the last slash.
abbrev last_run : Bytes → Bytes
last_run [] = []
last_run (c ∷ s) =
    let rest = last_run s in if contains (b'/' ∷ []) s then rest else if c == b'/' then s else c ∷ s

abbrev base_of : Bytes → Bytes
base_of [] = b'/' ∷ []
base_of (c ∷ s) = last_run (c ∷ s)

-- `filepath.Base`: trailing slashes are removed first.
pub last_element : Bytes → Bytes
last_element [] = b'.' ∷ []
last_element (c ∷ s) = base_of (reverse (trim_left (λ d. d == b'/') (reverse (c ∷ s))))

-- Whether a string is among those of a list, as the key of a set or a case of a `switch`.
abbrev pub has : Bytes → List Bytes → Bool
has s [] = false
has s (t ∷ ts) = same s t || has s ts

-- `<=` on strings, byte by byte.
abbrev pub at_most : Bytes → Bytes → Bool
at_most [] t = true
at_most (c ∷ s) [] = false
at_most (c ∷ s) (d ∷ t) = ltb c d || (c == d && at_most s t)

-- `sort.Strings`.
unfoldable pub insert_text : Bytes → List Bytes → List Bytes
insert_text s [] = s ∷ []
insert_text s (t ∷ ts) = let rest = insert_text s ts in if at_most s t then s ∷ t ∷ ts else t ∷ rest

unfoldable pub sort_texts : List Bytes → List Bytes
sort_texts [] = []
sort_texts (s ∷ ss) = insert_text s (sort_texts ss)

-- A driver's name in the form in which drivers are compared.
abbrev underscored : Bytes → Bytes
underscored [] = []
underscored (c ∷ s) = (if c == b'-' then b'_' else c) ∷ underscored s

abbrev pub canonical_driver : Bytes → Bytes
canonical_driver driver = underscored (to_lower (trim_space driver))

-- `strings.ToUpper`.
abbrev pub to_upper : Bytes → Bytes
to_upper [] = []
to_upper (c ∷ s) = (if leb b'a' c && leb c b'z' then c - 32 else c) ∷ to_upper s

-- The decimal digits of a number below 10 ^ 20.
abbrev pub decimal_from : ℕ → ℕ → Bytes → Bytes
decimal_from zero n digits = digits
decimal_from (suc fuel) n digits =
    let more = decimal_from fuel (n / 10) ((b'0' + n % 10) ∷ digits) in
    if ltb n 10 then (b'0' + n) ∷ digits else more

abbrev pub decimal : ℕ → Bytes
decimal n = decimal_from 20 n []

pub same_refl : (s : Bytes) → same s s ≡ true
same_refl [] = refl
same_refl (c ∷ cs) = ground (arith, same_refl cs)

pub same→eq : (s t : Bytes) → same s t ≡ true → s ≡ t
same→eq [] [] h = refl
same→eq [] (y ∷ ys) h = cc
same→eq (x ∷ xs) [] h = cc
same→eq (x ∷ xs) (y ∷ ys) h =
    let (p, q) = and-eq-true (x == y) (same xs ys) h in cc (same→eq xs ys q, (==_iff x y).0 p)

insert_text-has :
    (k s : Bytes) (ts : List Bytes) → has k (insert_text s ts) ≡ (same k s || has k ts)
unfolding insert_text
insert_text-has k s [] = refl
insert_text-has k s (t ∷ ts) = ground (arith, insert_text-has k s ts)

-- Sorting keeps the strings of a list.
pub sort_texts-has : (k : Bytes) (ts : List Bytes) → has k (sort_texts ts) ≡ has k ts
unfolding sort_texts
sort_texts-has k [] = refl
sort_texts-has k (t ∷ ts) = ground (arith, insert_text-has k t (sort_texts ts), sort_texts-has k ts)
