-- ===== src/Disk/Vpd/Page.antt =====
-- The descriptors of a page, one after the other, and that the loop collects the identities of all.
use install_mikrotik_chr_scr.Common.{
  ℕ, zero, suc, ◌+◌, ◌-◌, ◌/◌, ◌%◌, ◌≤◌, ◌≡◌, ◌≢◌, sym, ◌∙◌, subst, ◌⊎◌, inl, inr, List, [], ◌∷◌,
  ◌++◌, Option, none, some, ltb, ◌==◌, length, get_or, take, drop, arith, Bool-cases, append_assoc,
  append-nil,
}
use install_mikrotik_chr_scr.Common.Text.{Bytes}
use install_mikrotik_chr_scr.Common.Slices.{value, at-value, slice-value, Run-cases}
use install_mikrotik_chr_scr.Disk.Vpd.{
  VpdIdentity, descriptor_identity, descriptor_at, vpd_loop, append_identity,
}
use install_mikrotik_chr_scr.Disk.Vpd.Safe.{descriptor_at-ne-panic, vpd_step, vpd_round}

-- The length of the payload at an offset, and the whole descriptor.
abbrev pub payload_size : Bytes → ℕ → ℕ
payload_size b o = get_or b (o + 3) 0

abbrev pub descriptor_bytes : Bytes → ℕ → Bytes
descriptor_bytes b o = take (4 + payload_size b o) (drop o b)

-- It has a payload, and the two bits of its association are zero.
abbrev pub IsOfUnit : Bytes → ℕ → Type 0
IsOfUnit b o = (payload_size b o ≢ 0) × (get_or b (o + 1) 0 / 16 % 4 ≡ 0)

-- The identities of the descriptors from an offset to the end, in the order of the page.
pub data Descriptors (b : Bytes) (end : ℕ) : ℕ → List VpdIdentity → Type 0 where
  at_end : {o : ℕ} → end ≤ o → Descriptors b end o []
  of_other :
      {o : ℕ} {ids : List VpdIdentity}
      → o + 4 + payload_size b o ≤ end
      → (IsOfUnit b o → ⊥)
      → Descriptors b end (o + 4 + payload_size b o) ids
      → Descriptors b end o ids
  without_identity :
      {o : ℕ} {ids : List VpdIdentity}
      → o + 4 + payload_size b o ≤ end
      → IsOfUnit b o
      → descriptor_identity (descriptor_bytes b o) ≡ value none
      → Descriptors b end (o + 4 + payload_size b o) ids
      → Descriptors b end o ids
  with_identity :
      {o : ℕ} {i : VpdIdentity} {ids : List VpdIdentity}
      → o + 4 + payload_size b o ≤ end
      → IsOfUnit b o
      → descriptor_identity (descriptor_bytes b o) ≡ value (some i)
      → Descriptors b end (o + 4 + payload_size b o) ids
      → Descriptors b end o (i ∷ ids)

-- What `descriptor_at` found is that of the descriptor.
abbrev IsFound : Bytes → ℕ → Option VpdIdentity → Type 0
IsFound b o found =
    ((IsOfUnit b o → ⊥) × (found ≡ none))
    ⊎ (IsOfUnit b o × (descriptor_identity (descriptor_bytes b o) ≡ value found))

descriptor_at-IsFound :
    (b : Bytes) (o : ℕ) (found : Option VpdIdentity)
    → o + 4 + payload_size b o ≤ length b
    → descriptor_at b o (payload_size b o) (o + 4 + payload_size b o) ≡ value found
    → IsFound b o found
unfolding descriptor_at
descriptor_at-IsFound b o found h e = elim (Bool-cases (ltb 0 (payload_size b o))) [
  | inr z ↦ inl (λ u. u.0 (ground (arith, z)), ground (arith, e, z))
  | inl z ↦ elim (Bool-cases (get_or b (o + 1) 0 / 16 % 4 == 0)) [
    | inr a ↦
        inl (λ u. absurd (ground (arith, a, u.1)), ground (arith, e, z, a, at-value b (o + 1)))
    | inl a ↦
        let w : o + 4 + payload_size b o - o ≡ 4 + payload_size b o = omega arith in
        let i : descriptor_identity (take (o + 4 + payload_size b o - o) (drop o b)) ≡ value found =
          ground (arith, e, z, a, at-value b (o + 1), slice-value b o (o + 4 + payload_size b o)) in
        inr (
          (λ q. absurd (ground (arith, z, q)), ground (arith, a)),
          subst (λ n. descriptor_identity (take n (drop o b)) ≡ value found) w i,
        )
  ]
]

collects :
    (fuel : ℕ) (b : Bytes) (end o : ℕ) (acc ids : List VpdIdentity)
    → end ≤ length b
    → end ≤ o + fuel
    → vpd_loop fuel b end o acc ≡ value (some ids)
    → (new : List VpdIdentity) × Descriptors b end o new × (ids ≡ acc ++ new)
collects zero b end o acc ids k h e =
    let q : acc ≡ ids = unfold vpd_loop in cc e in
    ([], at_end (omega arith), sym q ∙ sym (append-nil acc))
collects (suc fuel) b end o acc ids k h e = elim (vpd_round fuel b end o acc k) [
  | inr (inl stop) ↦ cc (stop fuel, e)
  | inr (inr (past, stop)) ↦
      let q : acc ≡ ids = cc (stop (suc fuel), e) in ([], at_end past, sym q ∙ sym (append-nil acc))
  | inl room ↦
      let size : ℕ = payload_size b o in
      let (found, f) = Run-cases _ (descriptor_at-ne-panic b o size (omega arith)) in
      go found (descriptor_at-IsFound b o found (omega arith) f)
        (collects fuel b end (o + 4 + size) (append_identity acc found) ids k (omega arith)
          (sym (vpd_step fuel b end o acc found room k f) ∙ e))
        room
]
  where
    go :
        (found : Option VpdIdentity)
        → IsFound b o found
        → (new : List VpdIdentity) × Descriptors b end (o + 4 + payload_size b o) new
          × (ids ≡ append_identity acc found ++ new)
        → o + 4 + payload_size b o ≤ end
        → (new : List VpdIdentity) × Descriptors b end o new × (ids ≡ acc ++ new)
    go none (inl (other, q)) (new, d, s) room = (new, of_other room other d, s)
    go none (inr (unit, q)) (new, d, s) room = (new, without_identity room unit q d, s)
    go (some i) (inl (other, q)) (new, d, s) room = cc q
    go (some i) (inr (unit, q)) (new, d, s) room =
        (i ∷ new, with_identity room unit q d, s ∙ append_assoc acc (i ∷ []) new)

-- The loop collects the identities of the page's descriptors.
pub vpd_loop-Descriptors :
    (b : Bytes) (size : ℕ) (ids : List VpdIdentity)
    → 4 + size ≤ length b
    → vpd_loop size b (4 + size) 4 [] ≡ value (some ids)
    → Descriptors b (4 + size) 4 ids
vpd_loop-Descriptors b size ids h e =
    let (new, d, q) = collects size b (4 + size) 4 [] ids h (omega arith) e in
    subst (Descriptors b (4 + size) 4) (sym q) d
