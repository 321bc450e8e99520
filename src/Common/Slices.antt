-- ===== src/Common/Slices.antt =====
-- Reads of a slice as Go does them: an index or a bound out of range is a panic.
use install_mikrotik_chr_scr.Common.{
  ℕ, zero, suc, ◌+◌, ◌-◌, ◌*◌, ◌≤◌, ◌<◌, ◌≡◌, refl, ◌&&◌, [], ◌∷◌, ltb, leb, if◌then◌else◌, length,
  get_or, take, drop, arith, ◌∙◌, ap, ◌≢◌, take-of_length, length-drop,
}
use install_mikrotik_chr_scr.Common.Text.{Bytes}

pub data Run {ℓ} (A : Type ℓ) : Type ℓ where
  value : A → Run A
  panic : Run A

infixl 5 ◌>>=◌
abbrev pub ◌>>=◌ {ℓ κ} : {A : Type ℓ} {B : Type κ} → Run A → (A → Run B) → Run B
value a >>= f = f a
panic >>= f = panic

-- `data[i]`.
unfoldable pub at : Bytes → ℕ → Run ℕ
at b i = if ltb i (length b) then value (get_or b i 0) else panic

-- `data[lo:hi]`.
unfoldable pub slice : Bytes → ℕ → ℕ → Run Bytes
slice b lo hi = if leb lo hi && leb hi (length b) then value (take (hi - lo) (drop lo b)) else panic

-- `binary.BigEndian.Uint16(data[i:i+2])`.
unfoldable pub u16_be : Bytes → ℕ → Run ℕ
u16_be b i = do w ← slice b i (i + 2); value (256 * get_or w 0 0 + get_or w 1 0)

pub at-value : (b : Bytes) (i : ℕ) → i < length b → at b i ≡ value (get_or b i 0)
unfolding at
at-value b i h = ground arith

pub slice-value :
    (b : Bytes) (lo hi : ℕ)
    → lo ≤ hi
    → hi ≤ length b
    → slice b lo hi ≡ value (take (hi - lo) (drop lo b))
unfolding slice
slice-value b lo hi h k = ground arith

two_bytes : (n : ℕ) → n ≡ 2 → (xs : Bytes) → get_or (take n xs) 0 0 ≡ get_or xs 0 0
two_bytes zero e xs = absurd (omega arith)
two_bytes (suc n) e [] = refl
two_bytes (suc n) e (x ∷ xs) = refl

second_byte : (n : ℕ) → n ≡ 2 → (xs : Bytes) → get_or (take n xs) 1 0 ≡ get_or xs 1 0
second_byte zero e xs = absurd (omega arith)
second_byte (suc zero) e xs = absurd (omega arith)
second_byte (suc (suc n)) e [] = refl
second_byte (suc (suc n)) e (x ∷ []) = refl
second_byte (suc (suc n)) e (x ∷ y ∷ xs) = refl

pub get_or-drop : (n i : ℕ) (xs : Bytes) → get_or (drop n xs) i 0 ≡ get_or xs (n + i) 0
get_or-drop zero i xs = let e : zero + i ≡ i = omega arith in rw e
get_or-drop (suc n) i [] = refl
get_or-drop (suc n) i (x ∷ xs) =
    let e : suc n + i ≡ suc (n + i) = omega arith in rw e (get_or-drop n i xs)

pub u16_be-value :
    (b : Bytes) (i : ℕ)
    → i + 2 ≤ length b
    → u16_be b i ≡ value (256 * get_or b i 0 + get_or b (i + 1) 0)
unfolding u16_be
u16_be-value b i h =
    let z : i + 0 ≡ i = omega arith in
    rw (slice-value b i (i + 2) (omega arith) h) (
      rw (
        two_bytes (i + 2 - i) (omega arith) (drop i b),
        second_byte (i + 2 - i) (omega arith) (drop i b),
        get_or-drop i 0 b,
        get_or-drop i 1 b,
        z,
      ))

pub slice-value_to_end :
    (b : Bytes) (lo : ℕ) → lo ≤ length b → slice b lo (length b) ≡ value (drop lo b)
slice-value_to_end b lo h =
    slice-value b lo (length b) h (omega arith)
    ∙ ap value (take-of_length (length b - lo) (drop lo b) (omega (arith, length-drop lo b)))

pub Run-cases {ℓ} : {A : Type ℓ} (r : Run A) → r ≢ panic → (a : A) × (r ≡ value a)
Run-cases (value a) h = (a, refl)
Run-cases panic h = absurd (h refl)
