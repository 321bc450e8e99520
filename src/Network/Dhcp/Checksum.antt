-- ===== src/Network/Dhcp/Checksum.antt =====
-- The Internet checksum of the IPv4 header.
use install_mikrotik_chr_scr.Common.{
  ℕ, zero, suc, ◌+◌, ◌-◌, ◌/◌, ◌%◌, ◌^◌, ◌≤◌, ◌<◌, ◌≡◌, ◌≢◌, refl, [], ◌∷◌, ◌++◌, length, ◌∙◌,
  arith,
}
use install_mikrotik_chr_scr.Common.Text.{Bytes}
use install_mikrotik_chr_scr.Network.Dhcp.{word_sum, fold_carries, checksum, put_u16}

fold-mod : (f s : ℕ) → fold_carries f s % 65535 ≡ s % 65535
unfolding fold_carries
fold-mod zero s = refl
fold-mod (suc f) s = ground (arith, fold-mod f (s % 65536 + s / 65536))

fold-ne-zero : (f s : ℕ) → s ≢ 0 → fold_carries f s ≢ 0
unfolding fold_carries
fold-ne-zero zero s h = h
fold-ne-zero (suc f) s h = ground (arith, fold-ne-zero f (s % 65536 + s / 65536) (omega arith))

fold_last : (f s : ℕ) → s < 65536 → fold_carries f s ≡ s
unfolding fold_carries
fold_last zero s h = refl
fold_last (suc f) s h = ground arith

fold_second : (f s : ℕ) → s ≤ 131070 → fold_carries (suc f) s < 65536
unfolding fold_carries
fold_second f s h = ground (arith, fold_last f (s % 65536 + s / 65536))

-- One round leaves at most 131070 of a uint32, and a second leaves 16 bits: three are enough.
fold-lt : (f s : ℕ) → s < 2 ^ 32 → fold_carries (suc (suc f)) s < 65536
unfolding fold_carries
fold-lt f s h = ground (arith, fold_second f (s % 65536 + s / 65536))

second_fuel : (f g s : ℕ) → s ≤ 131070 → fold_carries (suc f) s ≡ fold_carries (suc g) s
unfolding fold_carries
second_fuel f g s h =
    ground (arith, fold_last f (s % 65536 + s / 65536), fold_last g (s % 65536 + s / 65536))

-- The rounds of `checksum` are enough: more of them fold a uint32 to the same value, and that
-- value has no carry left.
pub fold_carries_fuel :
    (f s : ℕ)
    → s < 2 ^ 32
    → (fold_carries (suc (suc (suc f))) s ≡ fold_carries 3 s) × (fold_carries 3 s / 65536 ≡ 0)
unfolding fold_carries
fold_carries_fuel f s h =
    (ground (arith, second_fuel (suc f) 1 (s % 65536 + s / 65536)), omega (arith, fold-lt 1 s h))

-- An even number of bytes.
abbrev pub IsEven : Bytes → Type 0
IsEven b = length b % 2 ≡ 0

word_sum-append : (xs ys : Bytes) → IsEven xs → word_sum (xs ++ ys) ≡ word_sum xs + word_sum ys
word_sum-append [] ys h = omega arith
word_sum-append (x ∷ []) ys h = absurd (omega arith)
word_sum-append (x ∷ y ∷ r) ys h = omega (arith, word_sum-append r ys (omega arith))

checksum_range : (b : Bytes) → checksum b < 65536
unfolding checksum
checksum_range b = omega arith

-- The complement of a folded sum brings the sum to a positive multiple of 65535.
complement_folds :
    (s r t : ℕ)
    → r < 65536
    → r % 65535 ≡ s % 65535
    → (s ≡ 0 → r ≡ 0)
    → (s ≢ 0 → r ≢ 0)
    → t < 65536
    → t % 65535 ≡ (s + (65535 - r)) % 65535
    → (s + (65535 - r) ≢ 0 → t ≢ 0)
    → 65535 - t ≡ 0
complement_folds s r t rl rm rn rz tl tm tz =
    let m : (s + (65535 - r)) % 65535 ≡ 0 = omega arith in
    let z : s + (65535 - r) ≢ 0 = ground arith in let nz : t ≢ 0 = tz z in omega arith

-- Where the sum of the words stays below a uint32, the header that carries the checksum of its
-- form with a zero field has the checksum zero: the receiver's test passes.
pub checksum_verifies :
    (pre post : Bytes)
    → IsEven pre
    → word_sum pre + word_sum post + 65535 < 2 ^ 32
    → checksum (pre ++ (put_u16 (checksum (pre ++ (put_u16 0 ++ post))) ++ post)) ≡ 0
unfolding checksum
checksum_verifies pre post even small =
    let s : ℕ = word_sum pre + word_sum post in
    let r : ℕ = fold_carries 3 s in
    let zeroed : word_sum (pre ++ (put_u16 0 ++ post)) % 2 ^ 32 ≡ s =
      omega (arith, word_sum-append pre (put_u16 0 ++ post) even) in
    let c : ℕ = 65535 - r in
    let filled : word_sum (pre ++ (put_u16 c ++ post)) % 2 ^ 32 ≡ s + c =
      omega (arith, word_sum-append pre (put_u16 c ++ post) even) in
    rw (zeroed, filled)
      (complement_folds s r (fold_carries 3 (s + c)) (fold-lt 1 s (omega arith)) (fold-mod 3 s)
        (λ e. fold_last 3 s (omega arith) ∙ e) (fold-ne-zero 3 s) (fold-lt 1 (s + c) (omega arith))
        (fold-mod 3 (s + c)) (fold-ne-zero 3 (s + c)))
