-- ===== src/Network/Dhcp/Options.antt =====
-- `parseDHCPOptions` on any bytes, and on options written as RFC 2132 has them.
use install_mikrotik_chr_scr.Common.{
  ℕ, zero, suc, ◌+◌, ◌-◌, ◌≤◌, ◌<◌, ◌≡◌, ◌≢◌, refl, sym, ◌∙◌, ap, [], ◌∷◌, ◌++◌, append_assoc,
  length, length-append, get_or, take, drop, All, arith, take-append_left, get_or-append,
  drop-append,
}
use install_mikrotik_chr_scr.Common.Text.{Bytes}
use install_mikrotik_chr_scr.Common.Slices.{value, panic, at-value, slice-value}
use install_mikrotik_chr_scr.Network.Dhcp.{OptionMap, options_loop, parse_dhcp_options}

options_loop-ne-panic :
    (fuel : ℕ) (b : Bytes) (offset : ℕ) (m : OptionMap) → options_loop fuel b offset m ≢ panic
unfolding options_loop
options_loop-ne-panic zero b offset m e = cc
options_loop-ne-panic (suc fuel) b offset m e =
    let code : ℕ = get_or b offset 0 in
    let size : ℕ = get_or b (offset + 1) 0 in
    let v : Bytes = take (offset + 2 + size - (offset + 2)) (drop (offset + 2) b) in
    ground (
      arith,
      at-value b offset,
      at-value b (offset + 1),
      slice-value b (offset + 2) (offset + 2 + size),
      options_loop-ne-panic fuel b (offset + 1) m,
      options_loop-ne-panic fuel b (offset + 2 + size) ((code, v) ∷ m),
    )

-- The fuel is enough: more of it changes nothing.
options_loop_fuel :
    (f g : ℕ) (b : Bytes) (offset : ℕ) (m : OptionMap)
    → length b ≤ offset + f
    → length b ≤ offset + g
    → options_loop f b offset m ≡ options_loop g b offset m
unfolding options_loop
options_loop_fuel zero zero b offset m hf hg = refl
options_loop_fuel zero (suc g) b offset m hf hg = ground arith
options_loop_fuel (suc f) zero b offset m hf hg = ground arith
options_loop_fuel (suc f) (suc g) b offset m hf hg =
    let code : ℕ = get_or b offset 0 in
    let size : ℕ = get_or b (offset + 1) 0 in
    let v : Bytes = take (offset + 2 + size - (offset + 2)) (drop (offset + 2) b) in
    ground (
      arith,
      at-value b offset,
      at-value b (offset + 1),
      slice-value b (offset + 2) (offset + 2 + size),
      options_loop_fuel f g b (offset + 1) m,
      options_loop_fuel f g b (offset + 2 + size) ((code, v) ∷ m),
    )

-- Whatever the bytes, no read of the option parser is out of range, and its loop ends before its
-- fuel does: any larger fuel gives the same options.
pub parse_dhcp_options_total :
    (b : Bytes)
    → (parse_dhcp_options b ≢ panic)
      × ((more : ℕ) → options_loop (length b + more) b 0 [] ≡ parse_dhcp_options b)
unfolding parse_dhcp_options
parse_dhcp_options_total b = (
  options_loop-ne-panic (length b) b 0 [],
  λ more. options_loop_fuel (length b + more) (length b) b 0 [] (omega arith) (omega arith),
)

-- An option on the wire: its code, the length of its value, the value.
abbrev pub encode_options : OptionMap → Bytes
encode_options [] = []
encode_options ((c, v) ∷ os) = c ∷ length v ∷ (v ++ encode_options os)

abbrev pub IsOption : ℕ × Bytes → Type 0
IsOption o = (o.0 ≢ 0) × (o.0 ≢ 255)

-- The options in the order in which the parser stores them, newest first.
abbrev pub stored_onto : OptionMap → OptionMap → OptionMap
stored_onto [] m = m
stored_onto (o ∷ os) m = stored_onto os (o ∷ m)

option_step :
    (f c : ℕ) (pre v rest : Bytes) (m : OptionMap)
    → c ≢ 0
    → c ≢ 255
    → options_loop (suc f) (pre ++ (c ∷ length v ∷ (v ++ rest))) (length pre) m
      ≡ options_loop f
          (pre ++ (c ∷ length v ∷ (v ++ rest)))
          (length pre + 2 + length v)
          ((c, v) ∷ m)
unfolding options_loop
option_step f c pre v rest m nz ne =
    let b : Bytes = pre ++ (c ∷ length v ∷ (v ++ rest)) in
    let z : length pre + 0 ≡ length pre = omega arith in
    let k : length pre + 2 + length v - (length pre + 2) ≡ length v = omega arith in
    ground (
      arith,
      at-value b (length pre),
      at-value b (length pre + 1),
      slice-value b (length pre + 2) (length pre + 2 + length v),
      ap (λ i. get_or b i 0) z,
      get_or-append pre (c ∷ length v ∷ (v ++ rest)) 0 0,
      get_or-append pre (c ∷ length v ∷ (v ++ rest)) 1 0,
      length-append pre (c ∷ length v ∷ (v ++ rest)),
      length-append v rest,
      drop-append pre (c ∷ length v ∷ (v ++ rest)) 2,
      ap (λ i. take i (v ++ rest)) k,
      take-append_left (length v) v rest refl,
    )

end_step :
    (f : ℕ) (pre rest : Bytes) (m : OptionMap)
    → options_loop (suc f) (pre ++ (255 ∷ rest)) (length pre) m ≡ value m
unfolding options_loop
end_step f pre rest m =
    let b : Bytes = pre ++ (255 ∷ rest) in
    let z : length pre + 0 ≡ length pre = omega arith in
    ground (
      arith,
      at-value b (length pre),
      ap (λ i. get_or b i 0) z,
      get_or-append pre (255 ∷ rest) 0 0,
      length-append pre (255 ∷ rest),
    )

options_loop-encode :
    (os : OptionMap) (f : ℕ) (pre rest : Bytes) (m : OptionMap)
    → All IsOption os
    → length os < f
    → options_loop f (pre ++ (encode_options os ++ (255 ∷ rest))) (length pre) m
      ≡ value (stored_onto os m)
options_loop-encode os zero pre rest m h k = absurd (omega arith)
options_loop-encode [] (suc f) pre rest m h k = end_step f pre rest m
options_loop-encode ((c, v) ∷ os) (suc f) pre rest m (h, hs) k =
    let tail : Bytes = encode_options os ++ (255 ∷ rest) in
    let front : Bytes = c ∷ length v ∷ v in
    let regroup : encode_options ((c, v) ∷ os) ++ (255 ∷ rest) ≡ c ∷ length v ∷ (v ++ tail) =
      ap (λ t. c ∷ length v ∷ t) (append_assoc v (encode_options os) (255 ∷ rest)) in
    let moved : pre ++ (c ∷ length v ∷ (v ++ tail)) ≡ (pre ++ front) ++ tail =
      sym (append_assoc pre front tail) in
    let at_end : length pre + 2 + length v ≡ length (pre ++ front) =
      omega (arith, length-append pre front) in
    ap (λ t. options_loop (suc f) (pre ++ t) (length pre) m) regroup
    ∙ option_step f c pre v tail m h.0 h.1
    ∙ ap (λ t. options_loop f t (length pre + 2 + length v) ((c, v) ∷ m)) moved
    ∙ ap (λ n. options_loop f ((pre ++ front) ++ tail) n ((c, v) ∷ m)) at_end
    ∙ options_loop-encode os f (pre ++ front) rest ((c, v) ∷ m) hs (omega arith)

length-encode : (os : OptionMap) → length os ≤ length (encode_options os)
length-encode [] = omega arith
length-encode ((c, v) ∷ os) = omega (arith, length-encode os, length-append v (encode_options os))

-- Options written by code, length and value and closed by the end mark are read back whatever
-- follows the mark, if no code is the pad or the end mark. Where a code stands twice the later
-- value wins, since the newest entry stands first.
pub parse_dhcp_options-encode :
    (os : OptionMap) (rest : Bytes)
    → All IsOption os
    → parse_dhcp_options (encode_options os ++ (255 ∷ rest)) ≡ value (stored_onto os [])
unfolding parse_dhcp_options
parse_dhcp_options-encode os rest h =
    options_loop-encode os (length (encode_options os ++ (255 ∷ rest))) [] rest [] h
      (omega (arith, length-append (encode_options os) (255 ∷ rest), length-encode os))
