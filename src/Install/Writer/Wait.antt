-- ===== src/Install/Writer/Wait.antt =====
-- `waitForFingerprint` finds the disk if it appears in time.
use install_mikrotik_chr_scr.Common.{
  ◌≡◌, refl, sym, ◌∙◌, ap, subst, ◌⊎◌, inl, inr, ◌∈◌, List, [], ◌∷◌, Option, none, some, Result, ok,
  err, Result-cases,
}
use install_mikrotik_chr_scr.Model.{DiskFingerprint}
use install_mikrotik_chr_scr.Disk.Match.{select_authorized_fingerprint}
use install_mikrotik_chr_scr.Disk.Match.Select.{PolicyAllows, IsSoleMatch, select_authorized_iff}
use install_mikrotik_chr_scr.Install.Writer.{
  WriterError, keep_disk, find_fingerprint, or_else, wait_for_fingerprint,
}

-- The scan works and shows the disk as the only one that is authorized.
abbrev pub Shows : DiskFingerprint → DiskFingerprint → Option (List DiskFingerprint) → Type 0
Shows e d scan =
    (fs : List DiskFingerprint) × (scan ≡ some fs) × PolicyAllows e fs × IsSoleMatch e d fs

keep_disk-select :
    (e d : DiskFingerprint) (fs : List DiskFingerprint)
    → keep_disk (select_authorized_fingerprint e fs) ≡ ok d
    → select_authorized_fingerprint e fs ≡ ok d
keep_disk-select e d fs h = go (Result-cases (select_authorized_fingerprint e fs))
  where
    go :
        ((f : DiskFingerprint) × (select_authorized_fingerprint e fs ≡ ok f))
          ⊎ ((r : _) × (select_authorized_fingerprint e fs ≡ err r))
        → select_authorized_fingerprint e fs ≡ ok d
    go (inl (f, q)) = cc (q, ap keep_disk q, h)
    go (inr (r, q)) = absurd (cc (ap keep_disk q, h))

find_fingerprint-Shows :
    (e d : DiskFingerprint) (scan : Option (List DiskFingerprint))
    → find_fingerprint e scan ≡ ok d
    → Shows e d scan
unfolding find_fingerprint
find_fingerprint-Shows e d none h = cc
find_fingerprint-Shows e d (some fs) h =
    let (p, s) = (select_authorized_iff e d fs).0 (keep_disk-select e d fs h) in (fs, refl, p, s)

shown :
    (e d : DiskFingerprint) (scan : Option (List DiskFingerprint))
    → Shows e d scan
    → find_fingerprint e scan ≡ ok d
unfolding find_fingerprint
shown e d none (fs, q, p, s) = cc
shown e d (some gs) (fs, q, p, s) =
    let r : gs ≡ fs = cc q in
    subst (λ t. keep_disk (select_authorized_fingerprint e t) ≡ ok d) (sym r)
      (ap keep_disk ((select_authorized_iff e d fs).1 (p, s)))

abbrev Found :
    DiskFingerprint → Option (List DiskFingerprint) → List (Option (List DiskFingerprint)) → Type 0
Found e first later =
    (found : DiskFingerprint) × (shot : Option (List DiskFingerprint)) × (wait_for_fingerprint e
        first later
      ≡ ok found)
    × (shot ∈ (first ∷ later))
    × Shows e found shot

-- If one of the scans shows an authorized disk, waiting ends with a disk, and one of the scans shows
-- that disk as the only authorized one.
pub wait_for_fingerprint_finds :
    (e d : DiskFingerprint) (scan first : Option (List DiskFingerprint))
    (later : List (Option (List DiskFingerprint)))
    → scan ∈ (first ∷ later)
    → Shows e d scan
    → (found : DiskFingerprint) × (shot : Option (List DiskFingerprint)) × (wait_for_fingerprint e
          first later
        ≡ ok found)
      × (shot ∈ (first ∷ later))
      × Shows e found shot
unfolding wait_for_fingerprint
wait_for_fingerprint_finds e d scan first [] (inl q) v =
    (d, scan, ap (find_fingerprint e) (sym q) ∙ shown e d scan v, inl q, v)
wait_for_fingerprint_finds e d scan first [] (inr i) v = absurd i
wait_for_fingerprint_finds e d scan first (s ∷ ss) i v =
    go (find_fingerprint e first) refl (λ j. wait_for_fingerprint_finds e d scan s ss j v)
  where
    later_one :
        scan ∈ (first ∷ s ∷ ss)
        → (r : WriterError) → find_fingerprint e first ≡ err r
        → scan ∈ (s ∷ ss)
    later_one (inl q) r h = absurd (cc (ap (find_fingerprint e) q, shown e d scan v, h))
    later_one (inr j) r h = j

    go :
        (r : Result WriterError DiskFingerprint)
        → find_fingerprint e first ≡ r
        → (scan ∈ (s ∷ ss) → Found e s ss)
        → (found : DiskFingerprint) × (shot : Option (List DiskFingerprint)) × (or_else r
              (wait_for_fingerprint e s ss)
            ≡ ok found)
          × (shot ∈ (first ∷ s ∷ ss))
          × Shows e found shot
    go (ok f) h below = (f, first, refl, inl refl, find_fingerprint-Shows e f first h)
    go (err r) h below = let (f, shot, w, j, x) = below (later_one i r h) in (f, shot, w, inr j, x)
