-- ===== src/Disk/Sysfs/Whole.antt =====
-- The list of the physical disks is computed on any sysfs, and what every disk in it is.
use install_mikrotik_chr_scr.Common.{
  ℕ, ◌%◌, ◌^◌, ◌<◌, ◌≡◌, ◌≢◌, refl, sym, ◌∙◌, ap, ◌⊎◌, inl, inr, true, false, List, [], ◌∷◌, Option,
  none, some, ◌==◌, arith, Bool-cases, if-true, if-false, and-eq-true, subst, not, ◌||◌, ◌&&◌,
}
use mathlib.Core.List.{Perm}
use mathlib.Core.List.Perm
use install_mikrotik_chr_scr.Common.Text.{Bytes, text, same, same→eq, is_empty, at_most}
use install_mikrotik_chr_scr.Common.Slices.{Run, value, panic, ◌>>=◌, Run-cases}
use install_mikrotik_chr_scr.Model.{DiskFingerprint}
use install_mikrotik_chr_scr.Disk.Vpd.{VpdIdentity, parse_vpd83, parse_vpd80}
use install_mikrotik_chr_scr.Disk.Vpd.Safe.{vpd_pages-ne-panic}
use install_mikrotik_chr_scr.Disk.Sysfs.{
  BlockDir, read_trim, read_size, base_fingerprint, page_of, after_page80, after_wwid, after_page83,
  fingerprint_from_sysfs, is_candidate, keep_sized, collect_disks, insert_fingerprint,
  sort_fingerprints, sysfs_disks, with_entry,
}

-- A number of whole sectors that fits 64 bits.
abbrev pub IsSize : ℕ → Type 0
IsSize n = (n < 2 ^ 64) × (n % 512 ≡ 0)

read_size-IsSize : (f : Option Bytes) → IsSize (read_size f)
unfolding read_size
read_size-IsSize f = ground arith

-- The fingerprint has the name, and the size that sysfs gives.
abbrev pub IsOfEntry : Bytes → BlockDir → DiskFingerprint → Type 0
IsOfEntry name d f = (f.kernel_name ≡ name) × (f.size_bytes ≡ read_size d.size)

page_works :
    {A : Type 0} (parse : Bytes → Run (Option A))
    → ((b : Bytes) → parse b ≢ panic)
    → (o : Option Bytes) → (r : Option A) × (page_of parse o ≡ value r)
page_works parse safe none = (none, refl)
page_works parse safe (some b) = Run-cases (parse b) (safe b)

after_page80_lem :
    (name : Bytes) (d : BlockDir) (o : Option Bytes)
    → IsOfEntry name d (after_page80 d (base_fingerprint name d) o)
after_page80_lem name d none = (refl, refl)
after_page80_lem name d (some v) = (refl, refl)

after_wwid_works :
    (name : Bytes) (d : BlockDir) (o : Option Bytes)
    → (f : DiskFingerprint) × (after_wwid d (base_fingerprint name d) o ≡ value f)
      × IsOfEntry name d f
after_wwid_works name d (some v) = (_, refl, (refl, refl))
after_wwid_works name d none =
    let (r, e) = page_works parse_vpd80 (λ b. (vpd_pages-ne-panic b).1) d.page80 in
    (
      after_page80 d (base_fingerprint name d) r,
      ap (λ t. t >>= λ o. value (after_page80 d (base_fingerprint name d) o)) e,
      after_page80_lem name d r,
    )

after_page83_works :
    (name : Bytes) (d : BlockDir) (o : Option VpdIdentity)
    → (f : DiskFingerprint) × (after_page83 d (base_fingerprint name d) o ≡ value f)
      × IsOfEntry name d f
after_page83_works name d (some i) = (_, refl, (refl, refl))
after_page83_works name d none = after_wwid_works name d _

pub fingerprint_works :
    (name : Bytes) (d : BlockDir)
    → (f : DiskFingerprint) × (fingerprint_from_sysfs name d ≡ value f) × IsOfEntry name d f
unfolding fingerprint_from_sysfs
fingerprint_works name d =
    let (r, e) = page_works parse_vpd83 (λ b. (vpd_pages-ne-panic b).0) d.page83 in
    let (f, g, h) = after_page83_works name d r in
    (f, ap (λ t. t >>= after_page83 d (base_fingerprint name d)) e ∙ g, h)

-- The entry is a disk: it is no partition, has a device, is no SCSI device of another type than that
-- of a disk, and has a size.
pub record IsDisk (d : BlockDir) : Type 0 where
  pub whole : d.is_partition ≡ false
  pub attached : d.has_device ≡ true
  pub direct_access : (read_trim d.device_type ≡ []) ⊎ (read_trim d.device_type ≡ text "0")
  pub sized : read_size d.size ≢ 0

-- Entry by entry: those that are no disks are passed over, and each that is one gives one element.
pub data Lists : List (Bytes × BlockDir) → List DiskFingerprint → Type 0 where
  none_left : Lists [] []
  passed :
      {name : Bytes} {d : BlockDir} {entries : List (Bytes × BlockDir)} {fs : List DiskFingerprint}
      → (IsDisk d → ⊥)
      → Lists entries fs
      → Lists ((name, d) ∷ entries) fs
  listed :
      {name : Bytes} {d : BlockDir} {f : DiskFingerprint} {entries : List (Bytes × BlockDir)}
      {fs : List DiskFingerprint}
      → IsDisk d
      → fingerprint_from_sysfs name d ≡ value f
      → IsOfEntry name d f
      → IsSize f.size_bytes
      → Lists entries fs
      → Lists ((name, d) ∷ entries) (f ∷ fs)

abbrev pub IsListing : List (Bytes × BlockDir) → List DiskFingerprint → Type 0
IsListing entries fs = (gs : List DiskFingerprint) × Lists entries gs × Perm fs gs

candidate_tests :
    (d : BlockDir)
    → is_candidate d ≡ true
    → (d.is_partition ≡ false)
      × (d.has_device ≡ true)
      × ((read_trim d.device_type ≡ []) ⊎ (read_trim d.device_type ≡ text "0"))
candidate_tests d c =
    let (a, t) = and-eq-true (not d.is_partition && d.has_device) _ c in
    let (p, q) = and-eq-true (not d.is_partition) d.has_device a in
    (ground (arith, p), q, kind (read_trim d.device_type) t)
  where
    kind : (t : Bytes) → (is_empty t || same t (text "0")) ≡ true → (t ≡ []) ⊎ (t ≡ text "0")
    kind [] h = inl refl
    kind (x ∷ t) h = inr (same→eq (x ∷ t) (text "0") h)

IsDisk-is_candidate : (d : BlockDir) → IsDisk d → is_candidate d ≡ true
IsDisk-is_candidate d v = elim v.direct_access [
  | inl e ↦ rw (v.whole, v.attached, e) refl
  | inr e ↦ rw (v.whole, v.attached, e) refl
]

collect_works :
    (entries : List (Bytes × BlockDir))
    → (fs : List DiskFingerprint) × (collect_disks entries ≡ value fs) × Lists entries fs
unfolding collect_disks
collect_works [] = ([], refl, none_left)
collect_works ((name, d) ∷ entries) =
    let (fs, e, l) = collect_works entries in
    elim (Bool-cases (is_candidate d)) [
      | inr x ↦ (fs, rw x e, passed (λ v. clash (IsDisk-is_candidate d v) x) l)
      | inl x ↦
          let (f, g, o) = fingerprint_works name d in
          elim (Bool-cases (f.size_bytes == 0)) [
            | inl z ↦ (
              fs,
              works fs x g e (if-true _ _ z),
              passed (λ v. v.sized (sym o.1 ∙ ground (arith, z))) l,
            )
            | inr z ↦ (
              f ∷ fs,
              works fs x g e (if-false _ _ z),
              listed (disk f x o z) g o (subst IsSize (sym o.1) (read_size-IsSize d.size)) l,
            )
          ]
    ]
  where
    clash : is_candidate d ≡ true → is_candidate d ≡ false → ⊥
    clash x y = cc (x, y)

    disk :
        (f : DiskFingerprint)
        → is_candidate d ≡ true
        → IsOfEntry name d f
        → (f.size_bytes == 0) ≡ false
        → IsDisk d
    disk f x o z =
        let (p, q, r) = candidate_tests d x in
        record {
          whole = p;
          attached = q;
          direct_access = r;
          sized = λ e. absurd (ground (arith, z, o.1, e));
        }

    works :
        {f : DiskFingerprint} (fs : List DiskFingerprint) {gs : List DiskFingerprint}
        → is_candidate d ≡ true
        → fingerprint_from_sysfs name d ≡ value f
        → collect_disks entries ≡ value fs
        → keep_sized f fs ≡ gs
        → with_entry (is_candidate d) (fingerprint_from_sysfs name d) (collect_disks entries)
          ≡ value gs
    works fs x g e k = rw (x, g, e) (ap value k)

insert_fingerprint-Perm :
    (f : DiskFingerprint) (fs : List DiskFingerprint) → Perm (insert_fingerprint f fs) (f ∷ fs)
unfolding insert_fingerprint
insert_fingerprint-Perm f [] = Perm.refl (f ∷ [])
insert_fingerprint-Perm f (g ∷ gs) = elim (Bool-cases (at_most f.kernel_name g.kernel_name)) [
  | inl e ↦ subst (λ t. Perm t (f ∷ g ∷ gs)) (sym (if-true _ _ e)) (Perm.refl (f ∷ g ∷ gs))
  | inr e ↦
      subst (λ t. Perm t (f ∷ g ∷ gs)) (sym (if-false _ _ e))
        (Perm.trans (Perm.cons g (insert_fingerprint-Perm f gs)) (Perm.swap f g gs))
]

sort_fingerprints-Perm : (fs : List DiskFingerprint) → Perm (sort_fingerprints fs) fs
unfolding sort_fingerprints
sort_fingerprints-Perm [] = Perm.refl []
sort_fingerprints-Perm (f ∷ fs) =
    Perm.trans (insert_fingerprint-Perm f (sort_fingerprints fs))
      (Perm.cons f (sort_fingerprints-Perm fs))

-- Whatever the files of sysfs hold, `SysfsDisks` returns a list: up to its order, one element for each
-- entry of the directory that is no partition, has a device, is no SCSI device of another type than a
-- disk and has a size, and none for the others; the element is the entry's fingerprint, with its name
-- and size, a whole number of sectors below 2 ^ 64.
pub sysfs_disks-IsListing :
    (entries : List (Bytes × BlockDir))
    → (fs : List DiskFingerprint) × (sysfs_disks (some entries) ≡ value (some fs))
      × IsListing entries fs
unfolding sysfs_disks
sysfs_disks-IsListing entries =
    let (fs, e, l) = collect_works entries in
    (
      sort_fingerprints fs,
      ap (λ t. t >>= λ gs. value (some (sort_fingerprints gs))) e,
      (fs, l, sort_fingerprints-Perm fs),
    )
