-- ===== src/Install/Copy/Image.antt =====
-- `CopyImage` as a whole: what reaches the target, on every outcome.
use install_mikrotik_chr_scr.Common.{
  ℕ, ◌+◌, ◌≤◌, ◌≡◌, refl, sym, ◌∙◌, ap, false, [], ◌++◌, append-nil, none, length, take, ◌==◌,
  arith, Bool-cases, inl, inr,
}
use install_mikrotik_chr_scr.Common.Text.{Bytes}
use install_mikrotik_chr_scr.Install.Copy.{Source, Writer, CopyState, copy_image}
use install_mikrotik_chr_scr.Install.Copy.Loop.{
  CopyInv, HoldsPrefix, copy_loop-HoldsPrefix, copy_loop_ok, copy_loop_works,
}

module _ {W : Type 0} (writer : Writer W) (src : Source) (w : W) (total : ℕ) where
  open writer use {write, count, fails, received}

  abbrev start : CopyState W
  start = record { source = src; target = w; hashed = []; written = 0 }

  start-CopyInv : CopyInv writer src.rest (received w) total start
  start-CopyInv = record {
    rest_is = refl;
    received_is = sym (append-nil (received w));
    hashed_is = refl;
    in_total = omega arith;
    in_source = omega arith;
  }

  -- However the copy ends, the target has received a prefix of the source, and never more than
  -- `total` bytes of it.
  pub copy_image_prefix :
      HoldsPrefix writer src.rest (received w) total (copy_image writer src w total).state.target
  unfolding copy_image
  copy_image_prefix = elim (Bool-cases (total == 0)) [
    | inl e ↦
        rw e (record {
          count = 0;
          in_total = omega arith;
          received_is = sym (append-nil (received w));
        })
    | inr e ↦
        rw e
          (copy_loop-HoldsPrefix writer src.rest (received w) total (total + 1) start start-CopyInv)
  ]

  -- When `CopyImage` reports no error, the size was not zero, the source had at least `total`
  -- bytes, the target received exactly the first `total` of them, and the hash was given the same
  -- bytes.
  pub copy_image_ok :
      (copy_image writer src w total).error ≡ none
      → (1 ≤ total)
        × (total ≤ length src.rest)
        × (received (copy_image writer src w total).state.target
            ≡ received w ++ take total src.rest)
        × ((copy_image writer src w total).state.hashed ≡ take total src.rest)
  unfolding copy_image
  copy_image_ok h = elim (Bool-cases (total == 0)) [
    | inl e ↦ absurd (ground (arith, h, e))
    | inr e ↦
        let (v, all) =
          copy_loop_ok writer src.rest (received w) total (total + 1) start start-CopyInv
            (rw e at h) in
        rw e (
          ground (arith, e),
          omega (arith, v.in_source),
          v.received_is ∙ ap (λ n. received w ++ take n src.rest) all,
          v.hashed_is ∙ ap (λ n. take n src.rest) all,
        )
  ]

  -- A source with enough bytes and a target that accepts every write make the copy succeed; the
  -- loop does not run out of rounds.
  pub copy_image_works :
      1 ≤ total
      → total ≤ length src.rest
      → ((v : W) (p : Bytes) → count v p ≡ length p)
      → ((v : W) (p : Bytes) → fails v p ≡ false)
      → (copy_image writer src w total).error ≡ none
  unfolding copy_image
  copy_image_works pos enough counts works = elim (Bool-cases (total == 0)) [
    | inl e ↦ absurd (ground (arith, e, pos))
    | inr e ↦ rw e (
        copy_loop_works writer src.rest (received w) total counts works enough (total + 1) start
          start-CopyInv (omega arith))
  ]
