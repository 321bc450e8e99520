-- ===== src/Disk/Vpd/Safe.antt =====
-- The VPD parsers on any bytes: no read is out of range, and the loop ends before its fuel.
use install_mikrotik_chr_scr.Common.{
  ℕ, zero, suc, ◌+◌, ◌-◌, ◌*◌, ◌≤◌, ◌≡◌, ◌≢◌, refl, sym, ◌∙◌, inl, inr, ◌⊎◌, false, List, [],
  Option, none, some, ltb, length, get_or, take, drop, arith, Bool-cases,
}
use install_mikrotik_chr_scr.Common.Text.{Bytes}
use install_mikrotik_chr_scr.Common.Slices.{
  value, panic, at-value, slice-value, slice-value_to_end, u16_be-value, Run-cases,
}
use install_mikrotik_chr_scr.Disk.Vpd.{
  VpdIdentity, descriptor_identity, descriptor_at, vpd_loop, append_identity, parse_vpd83,
  parse_vpd80,
}

pub descriptor_identity-ne-panic : (d : Bytes) → descriptor_identity d ≢ panic
unfolding descriptor_identity
descriptor_identity-ne-panic d =
    ground (arith, at-value d 0, at-value d 1, at-value d 3, slice-value_to_end d 4)

pub descriptor_at-ne-panic :
    (b : Bytes) (offset size : ℕ)
    → offset + 4 + size ≤ length b
    → descriptor_at b offset size (offset + 4 + size) ≢ panic
unfolding descriptor_at
descriptor_at-ne-panic b offset size h =
    let d : Bytes = take (offset + 4 + size - offset) (drop offset b) in
    ground (
      arith,
      at-value b (offset + 1),
      slice-value b offset (offset + 4 + size),
      descriptor_identity-ne-panic d,
    )

-- One round past the two tests, with what the descriptor gave.
pub vpd_step :
    (fuel : ℕ) (b : Bytes) (end offset : ℕ) (ids : List VpdIdentity) (found : Option VpdIdentity)
    → offset + 4 + get_or b (offset + 3) 0 ≤ end
    → end ≤ length b
    → descriptor_at b offset (get_or b (offset + 3) 0) (offset + 4 + get_or b (offset + 3) 0)
      ≡ value found
    → vpd_loop (suc fuel) b end offset ids
      ≡ vpd_loop fuel b end (offset + 4 + get_or b (offset + 3) 0) (append_identity ids found)
unfolding vpd_loop
vpd_step fuel b end offset ids found h k e = ground (arith, at-value b (offset + 3), e)

-- The round ends the loop, or there is room for the descriptor.
pub vpd_round :
    (fuel : ℕ) (b : Bytes) (end offset : ℕ) (ids : List VpdIdentity)
    → end ≤ length b
    → (offset + 4 + get_or b (offset + 3) 0 ≤ end)
      ⊎ (((fuel' : ℕ) → vpd_loop (suc fuel') b end offset ids ≡ value none)
          ⊎ ((end ≤ offset) × ((fuel' : ℕ) → vpd_loop fuel' b end offset ids ≡ value (some ids))))
unfolding vpd_loop
vpd_round fuel b end offset ids k = elim (Bool-cases (ltb offset end)) [
  | inr past ↦ inr (inr (ground arith, stop past))
  | inl before ↦ elim (Bool-cases (ltb (end - offset) 4)) [
    | inl short ↦ inr (inl (λ f. ground (arith, before, short)))
    | inr long ↦ elim (Bool-cases (ltb end (offset + 4 + get_or b (offset + 3) 0))) [
      | inl over ↦ inr (inl (λ f. ground (arith, before, long, over, at-value b (offset + 3))))
      | inr room ↦ inl (ground arith)
    ]
  ]
]
  where
    stop : ltb offset end ≡ false → (fuel' : ℕ) → vpd_loop fuel' b end offset ids ≡ value (some ids)
    stop past zero = refl
    stop past (suc f) = ground (arith, past)

vpd_loop-ne-panic :
    (fuel : ℕ) (b : Bytes) (end offset : ℕ) (ids : List VpdIdentity)
    → end ≤ length b
    → vpd_loop fuel b end offset ids ≢ panic
vpd_loop-ne-panic zero b end offset ids k = unfold vpd_loop in λ e. cc
vpd_loop-ne-panic (suc fuel) b end offset ids k = elim (vpd_round fuel b end offset ids k) [
  | inr (inl stop) ↦ rw (stop fuel) (λ e. cc)
  | inr (inr (past, stop)) ↦ rw (stop (suc fuel)) (λ e. cc)
  | inl room ↦
      let size : ℕ = get_or b (offset + 3) 0 in
      let (found, e) = Run-cases _ (descriptor_at-ne-panic b offset size (omega arith)) in
      rw (vpd_step fuel b end offset ids found room k e)
        (vpd_loop-ne-panic fuel b end (offset + 4 + size) (append_identity ids found) k)
]

loop_past :
    (f : ℕ) (b : Bytes) (end offset : ℕ) (ids : List VpdIdentity)
    → end ≤ offset
    → vpd_loop f b end offset ids ≡ value (some ids)
unfolding vpd_loop
loop_past zero b end offset ids h = refl
loop_past (suc f) b end offset ids h = ground arith

pub vpd_loop_fuel :
    (f g : ℕ) (b : Bytes) (end offset : ℕ) (ids : List VpdIdentity)
    → end ≤ length b
    → end ≤ offset + f
    → end ≤ offset + g
    → vpd_loop f b end offset ids ≡ vpd_loop g b end offset ids
vpd_loop_fuel zero g b end offset ids k hf hg =
    loop_past zero b end offset ids (omega arith) ∙ sym (loop_past g b end offset ids (omega arith))
vpd_loop_fuel (suc f) zero b end offset ids k hf hg =
    loop_past (suc f) b end offset ids (omega arith)
    ∙ sym (loop_past zero b end offset ids (omega arith))
vpd_loop_fuel (suc f) (suc g) b end offset ids k hf hg = elim (vpd_round f b end offset ids k) [
  | inr (inr (past, stop)) ↦ stop (suc f) ∙ sym (stop (suc g))
  | inr (inl stop) ↦ stop f ∙ sym (stop g)
  | inl room ↦
      let size : ℕ = get_or b (offset + 3) 0 in
      let (found, e) = Run-cases _ (descriptor_at-ne-panic b offset size (omega arith)) in
      vpd_step f b end offset ids found room k e
      ∙ vpd_loop_fuel f g b end (offset + 4 + size) (append_identity ids found) k (omega arith)
          (omega arith)
      ∙ sym (vpd_step g b end offset ids found room k e)
]

-- Both statements below in one.
vpd_pages_safe :
    (b : Bytes)
    → (parse_vpd83 b ≢ panic)
      × (parse_vpd80 b ≢ panic)
      × ((size more : ℕ)
          → 4 + size ≤ length b
          → vpd_loop (size + more) b (4 + size) 4 [] ≡ vpd_loop size b (4 + size) 4 [])
unfolding parse_vpd83 parse_vpd80
vpd_pages_safe b =
    let size : ℕ = 256 * get_or b 2 0 + get_or b (2 + 1) 0 in
    (
      ground (arith, at-value b 1, u16_be-value b 2, vpd_loop-ne-panic size b (4 + size) 4 []),
      ground (arith, at-value b 1, u16_be-value b 2, slice-value b 4 (4 + size)),
      λ size more h.
          vpd_loop_fuel (size + more) size b (4 + size) 4 [] h (omega arith) (omega arith),
    )

-- No page, however malformed, makes the two parsers read out of range.
pub vpd_pages-ne-panic : (b : Bytes) → (parse_vpd83 b ≢ panic) × (parse_vpd80 b ≢ panic)
vpd_pages-ne-panic b = let (p, q, r) = vpd_pages_safe b in (p, q)

-- For a page whose length fits the data, as many rounds of the loop over the descriptors as the page
-- has bytes are enough: more rounds give the same.
pub vpd_loop_more :
    (b : Bytes) (size more : ℕ)
    → 4 + size ≤ length b
    → vpd_loop (size + more) b (4 + size) 4 [] ≡ vpd_loop size b (4 + size) 4 []
vpd_loop_more b size more h = let (p, q, r) = vpd_pages_safe b in r size more h
