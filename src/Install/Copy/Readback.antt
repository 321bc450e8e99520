-- ===== src/Install/Copy/Readback.antt =====
-- `HashPrefix`, and the read-back of what `CopyImage` wrote.
use install_mikrotik_chr_scr.Common.{
  ℕ, zero, suc, ◌+◌, ◌-◌, ◌≤◌, ◌<◌, ◌≡◌, ◌≢◌, refl, sym, ◌∙◌, ap, inl, inr, [], ◌++◌, none, length,
  take, drop, min, length-take-min, length-drop, take-add, drop-drop, ltb, ltb→lt, ◌==◌, arith,
  Bool-cases, Option-cases, take-append_left, length-append, length-take,
}
use install_mikrotik_chr_scr.Common.Text.{Bytes}
use install_mikrotik_chr_scr.Install.Copy.{
  Source, Read, read_full, Writer, HashState, hash_round, hash_loop, hash_prefix, chunk_length,
  copy_image,
}
use install_mikrotik_chr_scr.Install.Copy.Loop.{chunk-pos}
use install_mikrotik_chr_scr.Install.Copy.Image.{copy_image_ok}

module _ (initial : Bytes) (size : ℕ) where
  record HashInv (s : HashState) : Type 0 where
    rest_is : s.source.rest ≡ drop s.read initial
    hashed_is : s.hashed ≡ take s.read initial
    in_size : s.read ≤ size
    in_source : s.read ≤ length initial

  abbrev round_read : HashState → Read
  round_read s = read_full s.source (chunk_length size s.read)

  abbrev next_state : HashState → HashState
  next_state s = record {
    source = (round_read s).source;
    hashed = s.hashed ++ (round_read s).part;
    read = s.read + length (round_read s).part;
  }

  round-eq-none :
      (s : HashState)
      → (hash_round size s).error ≡ none
      → ((hash_round size s).state ≡ next_state s) × (length (round_read s).part ≢ 0)
  unfolding hash_round
  round-eq-none s h = ground arith

  hash_round-HashInv :
      (s : HashState)
      → HashInv s
      → s.read < size
      → (hash_round size s).error ≡ none
      → HashInv (hash_round size s).state × (s.read < (hash_round size s).state.read)
  hash_round-HashInv s v lt h =
      let (e, pos) = round-eq-none s h in
      let m : ℕ = min (chunk_length size s.read) (length s.source.rest) in
      let len : length (round_read s).part ≡ m =
        length-take-min (chunk_length size s.read) s.source.rest in
      let left : length s.source.rest ≡ length initial - s.read =
        ap length v.rest_is ∙ length-drop s.read initial in
      rw e (
        record {
          rest_is =
              ap (drop m) v.rest_is
              ∙ drop-drop s.read m initial
              ∙ ap (λ t. drop (s.read + t) initial) (sym len);
          hashed_is =
              ap (λ t. t ++ (round_read s).part) v.hashed_is
              ∙ ap (λ t. take s.read initial ++ take m t) v.rest_is
              ∙ sym (take-add s.read m initial)
              ∙ ap (λ t. take (s.read + t) initial) (sym len);
          in_size = omega (arith, len);
          in_source = omega (arith, len, left, v.in_source);
        },
        omega (arith, len),
      )

  hash_loop_ok :
      (fuel : ℕ) (s : HashState)
      → HashInv s
      → (hash_loop fuel size s).error ≡ none
      → HashInv (hash_loop fuel size s).state × ((hash_loop fuel size s).state.read ≡ size)
  unfolding hash_loop
  hash_loop_ok zero s v h = cc
  hash_loop_ok (suc fuel) s v h = elim (Bool-cases (ltb s.read size)) [
    | inr e ↦ rw e (v, ground (arith, v.in_size))
    | inl e ↦ elim (Option-cases (hash_round size s).error) [
      | inl n ↦
          let (v', lt) = hash_round-HashInv s v (ltb→lt _ _ e) n in
          rw (e, n) (hash_loop_ok fuel (hash_round size s).state v' (rw (e, n) at h))
      | inr (x, n) ↦ absurd (ground (arith, h, e, n))
    ]
  ]

  module _ (enough : size ≤ length initial) where
    hash_round_works :
        (s : HashState) → HashInv s → s.read < size → (hash_round size s).error ≡ none
    unfolding hash_round
    hash_round_works s v lt =
        let left : length s.source.rest ≡ length initial - s.read =
          ap length v.rest_is ∙ length-drop s.read initial in
        let len : length (round_read s).part
            ≡ min (chunk_length size s.read) (length s.source.rest) =
          length-take-min (chunk_length size s.read) s.source.rest in
        let fits : chunk_length size s.read ≤ length s.source.rest = omega (arith, left) in
        ground (arith, fits, len, chunk-pos size s.read lt)

    hash_loop_works :
        (fuel : ℕ) (s : HashState)
        → HashInv s
        → size < fuel + s.read
        → (hash_loop fuel size s).error ≡ none
    unfolding hash_loop
    hash_loop_works zero s v h = absurd (omega (arith, v.in_size))
    hash_loop_works (suc fuel) s v h = elim (Bool-cases (ltb s.read size)) [
      | inr e ↦ rw e
      | inl e ↦
          let n = hash_round_works s v (ltb→lt _ _ e) in
          let (v', lt) = hash_round-HashInv s v (ltb→lt _ _ e) n in
          rw (e, n) (hash_loop_works fuel (hash_round size s).state v' (omega arith))
    ]

module _ (src : Source) (size : ℕ) where
  abbrev start : HashState
  start = record { source = src; hashed = []; read = 0 }

  start-HashInv : HashInv src.rest size start
  start-HashInv = record {
    rest_is = refl;
    hashed_is = refl;
    in_size = omega arith;
    in_source = omega arith;
  }

  -- When `HashPrefix` reports no error, the size was not zero, the source had at least `size`
  -- bytes, and the hash was given exactly the first `size` of them.
  pub hash_prefix_ok :
      (hash_prefix src size).error ≡ none
      → (1 ≤ size)
        × (size ≤ length src.rest)
        × ((hash_prefix src size).state.hashed ≡ take size src.rest)
  unfolding hash_prefix
  hash_prefix_ok h = elim (Bool-cases (size == 0)) [
    | inl e ↦ absurd (ground (arith, h, e))
    | inr e ↦
        let (v, all) = hash_loop_ok src.rest size (size + 1) start start-HashInv (rw e at h) in
        rw e (
          ground (arith, e),
          omega (arith, v.in_source),
          v.hashed_is ∙ ap (λ n. take n src.rest) all,
        )
  ]

  -- A source with enough bytes makes the hashing of a positive size succeed; the loop does not run
  -- out of rounds.
  pub hash_prefix_works : 1 ≤ size → size ≤ length src.rest → (hash_prefix src size).error ≡ none
  unfolding hash_prefix
  hash_prefix_works pos enough = elim (Bool-cases (size == 0)) [
    | inl e ↦ absurd (ground (arith, e, pos))
    | inr e ↦
        rw e (hash_loop_works src.rest size enough (size + 1) start start-HashInv (omega arith))
  ]

-- After an error-free `CopyImage` onto an empty target, `HashPrefix` over a device that holds what
-- the target received, and anything behind it, ends without an error and hashes the bytes that
-- `CopyImage` hashed.
pub hash_prefix-copy_image :
    {W : Type 0} (writer : Writer W) (src : Source) (w : W) (total : ℕ) (device : Source)
    (behind : Bytes)
    → writer.received w ≡ []
    → (copy_image writer src w total).error ≡ none
    → device.rest ≡ writer.received (copy_image writer src w total).state.target ++ behind
    → ((hash_prefix device total).error ≡ none)
      × ((hash_prefix device total).state.hashed ≡ (copy_image writer src w total).state.hashed)
hash_prefix-copy_image writer src w total device behind empty copied holds =
    let (pos, enough, got, hashed) = copy_image_ok writer src w total copied in
    let same : device.rest ≡ take total src.rest ++ behind =
      holds ∙ ap (λ t. t ++ behind) (got ∙ ap (λ t. t ++ take total src.rest) empty) in
    let long : length (take total src.rest) ≡ total = omega (arith, length-take total src.rest) in
    let fits : total ≤ length device.rest =
      rw same (omega (arith, length-append (take total src.rest) behind, long)) in
    let works = hash_prefix_works device total pos fits in
    let (_, _, read) = hash_prefix_ok device total works in
    (
      works,
      read
          ∙ ap (take total) same
          ∙ take-append_left total (take total src.rest) behind long
          ∙ sym hashed,
    )
