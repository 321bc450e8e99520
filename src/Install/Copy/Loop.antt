-- ===== src/Install/Copy/Loop.antt =====
-- The loop of `CopyImage`: what a round keeps, and how it advances.
use install_mikrotik_chr_scr.Common.{
  ℕ, zero, suc, ◌+◌, ◌-◌, ◌≤◌, ◌<◌, ◌≡◌, ◌≢◌, sym, ◌∙◌, ap, ◌⊎◌, inl, inr, false, ◌++◌,
  append_assoc, none, length, take, drop, min, length-take-min, take-take, take-add, drop-drop,
  length-drop, arith, Bool-cases, ltb, ltb→lt, Option-cases,
}
use install_mikrotik_chr_scr.Common.Text.{Bytes}
use install_mikrotik_chr_scr.Install.Copy.{
  buffer_size, Read, read_full, Writer, CopyState, copy_round, copy_loop, chunk_length,
  written_state,
}

pub chunk-pos : (total written : ℕ) → written < total → 0 < chunk_length total written
unfolding buffer_size
chunk-pos total written h = omega arith

module _ {W : Type 0} (writer : Writer W) (initial before : Bytes) (total : ℕ) where
  open writer use {write, count, fails, received, takes}

  -- After `written` bytes of the source, at the head of the loop.
  pub record CopyInv (s : CopyState W) : Type 0 where
    pub rest_is : s.source.rest ≡ drop s.written initial
    pub received_is : received s.target ≡ before ++ take s.written initial
    pub hashed_is : s.hashed ≡ take s.written initial
    pub in_total : s.written ≤ total
    pub in_source : s.written ≤ length initial

  -- At any moment: the target holds a prefix of the source, no longer than the image.
  pub record HoldsPrefix (w : W) : Type 0 where
    pub count : ℕ
    pub in_total : count ≤ total
    pub received_is : received w ≡ before ++ take count initial

  CopyInv-HoldsPrefix : (s : CopyState W) → CopyInv s → HoldsPrefix s.target
  CopyInv-HoldsPrefix s v = record {
    count = s.written;
    in_total = v.in_total;
    received_is = v.received_is;
  }

  abbrev round_read : CopyState W → Read
  round_read s = read_full s.source (chunk_length total s.written)

  round-eq-none :
      (s : CopyState W)
      → (copy_round writer total s).error ≡ none
      → ((copy_round writer total s).state ≡ written_state writer s (round_read s))
        × (length (round_read s).part ≢ 0)
        × (count s.target (round_read s).part ≡ length (round_read s).part)
  unfolding copy_round
  round-eq-none s h = ground arith

  round_target :
      (s : CopyState W)
      → ((copy_round writer total s).state.target ≡ s.target)
        ⊎ ((copy_round writer total s).state.target ≡ write s.target (round_read s).part)
  unfolding copy_round
  round_target s = ground arith

  -- Writing any part of what is left keeps the target a prefix.
  write-HoldsPrefix :
      (s : CopyState W) → CopyInv s → HoldsPrefix (write s.target (round_read s).part)
  write-HoldsPrefix s v =
      let n : ℕ = min (chunk_length total s.written) (length s.source.rest) in
      let c : ℕ = count s.target (take n s.source.rest) in
      record {
        count = s.written + min c n;
        in_total = ground (arith, v.in_total);
        received_is =
            takes s.target (take n s.source.rest)
            ∙ ap (λ t. t ++ take c (take n s.source.rest)) v.received_is
            ∙ ap (λ t. (before ++ take s.written initial) ++ t)
                (take-take c n s.source.rest ∙ ap (take (min c n)) v.rest_is)
            ∙ append_assoc before (take s.written initial) (take (min c n) (drop s.written initial))
            ∙ ap (λ t. before ++ t) (sym (take-add s.written (min c n) initial));
      }

  copy_round-CopyInv :
      (s : CopyState W)
      → CopyInv s
      → s.written < total
      → (copy_round writer total s).error ≡ none
      → CopyInv (copy_round writer total s).state
        × (s.written < (copy_round writer total s).state.written)
  copy_round-CopyInv s v lt h =
      let (e, pos, all) = round-eq-none s h in
      let m : ℕ = min (chunk_length total s.written) (length s.source.rest) in
      let len : length (round_read s).part ≡ m =
        length-take-min (chunk_length total s.written) s.source.rest in
      let whole : take (length (round_read s).part) (round_read s).part ≡ (round_read s).part =
        ap (λ t. take t (take m s.source.rest)) len
        ∙ take-take m m s.source.rest
        ∙ ap (λ t. take t s.source.rest) (omega arith) in
      let left : length s.source.rest ≡ length initial - s.written =
        ap length v.rest_is ∙ length-drop s.written initial in
      let grown : take (s.written + length (round_read s).part) initial
          ≡ take s.written initial ++ (round_read s).part =
        ap (λ t. take (s.written + t) initial) len
        ∙ take-add s.written m initial
        ∙ ap (λ t. take s.written initial ++ take m t) (sym v.rest_is) in
      rw e (
        record {
          rest_is =
              ap (drop m) v.rest_is
              ∙ drop-drop s.written m initial
              ∙ ap (λ t. drop (s.written + t) initial) (sym len);
          received_is =
              takes s.target (round_read s).part
              ∙ ap (λ t. received s.target ++ take t (round_read s).part) all
              ∙ ap (λ t. received s.target ++ t) whole
              ∙ ap (λ t. t ++ (round_read s).part) v.received_is
              ∙ append_assoc before (take s.written initial) (round_read s).part
              ∙ ap (λ t. before ++ t) (sym grown);
          hashed_is = ap (λ t. t ++ (round_read s).part) v.hashed_is ∙ sym grown;
          in_total = omega (arith, len);
          in_source = omega (arith, len, left, v.in_source);
        },
        omega (arith, len),
      )

  copy_round-HoldsPrefix :
      (s : CopyState W) → CopyInv s → HoldsPrefix (copy_round writer total s).state.target
  copy_round-HoldsPrefix s v = elim (round_target s) [
    | inl e ↦ rw e (CopyInv-HoldsPrefix s v)
    | inr e ↦ rw e (write-HoldsPrefix s v)
  ]

  pub copy_loop-HoldsPrefix :
      (fuel : ℕ) (s : CopyState W)
      → CopyInv s
      → HoldsPrefix (copy_loop writer fuel total s).state.target
  unfolding copy_loop
  copy_loop-HoldsPrefix zero s v = CopyInv-HoldsPrefix s v
  copy_loop-HoldsPrefix (suc fuel) s v = elim (Bool-cases (ltb s.written total)) [
    | inr e ↦ rw e (CopyInv-HoldsPrefix s v)
    | inl e ↦ elim (Option-cases (copy_round writer total s).error) [
      | inl n ↦
          let (v', lt) = copy_round-CopyInv s v (ltb→lt _ _ e) n in
          rw (e, n) (copy_loop-HoldsPrefix fuel (copy_round writer total s).state v')
      | inr (x, n) ↦ rw (e, n) (copy_round-HoldsPrefix s v)
    ]
  ]

  -- When the loop ends without an error, the whole of the image has been copied.
  pub copy_loop_ok :
      (fuel : ℕ) (s : CopyState W)
      → CopyInv s
      → (copy_loop writer fuel total s).error ≡ none
      → CopyInv (copy_loop writer fuel total s).state
        × ((copy_loop writer fuel total s).state.written ≡ total)
  unfolding copy_loop
  copy_loop_ok zero s v h = cc
  copy_loop_ok (suc fuel) s v h = elim (Bool-cases (ltb s.written total)) [
    | inr e ↦ rw e (v, ground (arith, v.in_total))
    | inl e ↦ elim (Option-cases (copy_round writer total s).error) [
      | inl n ↦
          let (v', lt) = copy_round-CopyInv s v (ltb→lt _ _ e) n in
          rw (e, n) (copy_loop_ok fuel (copy_round writer total s).state v' (rw (e, n) at h))
      | inr (x, n) ↦ absurd (ground (arith, h, e, n))
    ]
  ]

  -- A writer that takes all it is given, and a source with the whole image.
  module _ (counts : (w : W) (p : Bytes) → count w p ≡ length p)
      (works : (w : W) (p : Bytes) → fails w p ≡ false) (enough : total ≤ length initial) where
    copy_round_works :
        (s : CopyState W) → CopyInv s → s.written < total → (copy_round writer total s).error ≡ none
    unfolding copy_round
    copy_round_works s v lt =
        let left : length s.source.rest ≡ length initial - s.written =
          ap length v.rest_is ∙ length-drop s.written initial in
        let len : length (round_read s).part
            ≡ min (chunk_length total s.written) (length s.source.rest) =
          length-take-min (chunk_length total s.written) s.source.rest in
        let fits : chunk_length total s.written ≤ length s.source.rest = omega (arith, left) in
        ground (
          arith,
          fits,
          len,
          chunk-pos total s.written lt,
          counts s.target (round_read s).part,
          works s.target (round_read s).part,
        )

    pub copy_loop_works :
        (fuel : ℕ) (s : CopyState W)
        → CopyInv s
        → total < fuel + s.written
        → (copy_loop writer fuel total s).error ≡ none
    unfolding copy_loop
    copy_loop_works zero s v h = absurd (omega (arith, v.in_total))
    copy_loop_works (suc fuel) s v h = elim (Bool-cases (ltb s.written total)) [
      | inr e ↦ rw e
      | inl e ↦
          let n = copy_round_works s v (ltb→lt _ _ e) in
          let (v', lt) = copy_round-CopyInv s v (ltb→lt _ _ e) n in
          rw (e, n) (copy_loop_works fuel (copy_round writer total s).state v' (omega arith))
    ]
