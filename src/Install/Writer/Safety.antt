-- ===== src/Install/Writer/Safety.antt =====
-- What must hold before the target is opened, and what holds after a run that reports success.
use install_mikrotik_chr_scr.Common.{
  ℕ, ◌≤◌, ◌≡◌, refl, sym, ◌∙◌, ap, ◌⊎◌, inl, inr, true, false, not, ◌||◌, List, [], ◌∷◌, ◌++◌,
  Option, none, some, length, take, Result, ok, err, ◌>>◌, refuse_if, is_none, refuse_if-eq-ok,
  >>=-eq-ok, arith, subst,
}
use install_mikrotik_chr_scr.Common.Text.{Bytes, same, same→eq}
use install_mikrotik_chr_scr.Common.Int.{ℤ, pos, negsuc, pos_part}
use install_mikrotik_chr_scr.Model.{DiskFingerprint}
use install_mikrotik_chr_scr.Disk.Match.{SelectError}
use install_mikrotik_chr_scr.Disk.Match.Select.{PolicyAllows, IsSoleMatch, select_authorized_iff}
use install_mikrotik_chr_scr.Install.Copy.{
  Source, Writer, Outcome, CopyState, HashState, copy_image, hash_prefix,
}
use install_mikrotik_chr_scr.Install.Copy.Image.{copy_image_ok}
use install_mikrotik_chr_scr.Install.Copy.Readback.{hash_prefix_ok}
use install_mikrotik_chr_scr.Install.Manifest.{Manifest, ManifestError, validate_manifest}
use install_mikrotik_chr_scr.Install.Manifest.Valid.{IsAuthorization, validate_manifest_iff}
use install_mikrotik_chr_scr.Install.Writer.{
  WriterError, Calls, keep_manifest, keep_disk, or_else, from_option, checked, same_ℤ,
  find_fingerprint, wait_for_fingerprint, Opened, open_authorized, check_written, check_readback,
  unreadable_manifest, image_unreadable, image_changed, still_mounted, no_target, not_a_device,
  source_unreadable, target_unwritable, no_readback, flush_failed, readback_failed,
  checksum_mismatch,
}

from_option-ok :
    {A : Type 0} (e : WriterError) (o : Option A) {a : A} → from_option e o ≡ ok a → o ≡ some a
from_option-ok e none h = cc
from_option-ok e (some a) h = cc

same_ℤ-eq : (a b : ℤ) → same_ℤ a b ≡ true → a ≡ b
same_ℤ-eq (pos n) (pos k) h = let e : n ≡ k = ground arith in ap pos e
same_ℤ-eq (pos n) (negsuc k) h = absurd (ground arith)
same_ℤ-eq (negsuc n) (pos k) h = absurd (ground arith)
same_ℤ-eq (negsuc n) (negsuc k) h = let e : n ≡ k = ground arith in ap negsuc e

ok-inj : {A : Type 0} {a b : A} (r : Result WriterError A) → r ≡ ok a → r ≡ ok b → a ≡ b
ok-inj r g h = cc

keep_manifest-ok :
    (m : Manifest) (r : Result ManifestError (Unit {0})) {m' : Manifest}
    → keep_manifest m r ≡ ok m'
    → (m ≡ m') × (r ≡ ok tt)
keep_manifest-ok m (ok u) h = (cc, refl)
keep_manifest-ok m (err e) h = cc

keep_disk-ok :
    (r : Result SelectError DiskFingerprint) {d : DiskFingerprint} → keep_disk r ≡ ok d → r ≡ ok d
keep_disk-ok (ok x) h = let t : x ≡ _ = ok-inj (ok x) refl h in ap ok t
keep_disk-ok (err x) h = cc

or_else-ok :
    (r s : Result WriterError DiskFingerprint) {d : DiskFingerprint}
    → or_else r s ≡ ok d
    → (r ≡ ok d) ⊎ (s ≡ ok d)
or_else-ok (ok x) s h = inl h
or_else-ok (err x) s h = inr h

-- One of the scans saw the disk as the only one that the manifest authorizes.
pub record IsAuthorizedDisk (e d : DiskFingerprint) (scans : List (Option (List DiskFingerprint)))
    : Type 0 where
  pub earlier : List (Option (List DiskFingerprint))
  pub later : List (Option (List DiskFingerprint))
  pub visible : List DiskFingerprint
  pub splits : scans ≡ earlier ++ (some visible ∷ later)
  pub policy : PolicyAllows e visible
  pub sole : IsSoleMatch e d visible

find_lem :
    (e d : DiskFingerprint) (o : Option (List DiskFingerprint))
    (later : List (Option (List DiskFingerprint)))
    → find_fingerprint e o ≡ ok d
    → IsAuthorizedDisk e d (o ∷ later)
unfolding find_fingerprint
find_lem e d none later h = cc
find_lem e d (some cs) later h =
    let (p, s) = (select_authorized_iff e d cs).0 (keep_disk-ok _ h) in
    record { earlier = []; later = later; visible = cs; splits = refl; policy = p; sole = s }

wait_lem :
    (e d : DiskFingerprint) (o : Option (List DiskFingerprint))
    (more : List (Option (List DiskFingerprint)))
    → wait_for_fingerprint e o more ≡ ok d
    → IsAuthorizedDisk e d (o ∷ more)
unfolding wait_for_fingerprint
wait_lem e d o [] h = find_lem e d o [] h
wait_lem e d o (s ∷ ss) h =
    elim (or_else-ok (find_fingerprint e o) (wait_for_fingerprint e s ss) h) [
      | inl q ↦ find_lem e d o (s ∷ ss) q
      | inr q ↦
          let a : IsAuthorizedDisk e d (s ∷ ss) = wait_lem e d s ss q in
          record {
            earlier = o ∷ a.earlier;
            later = a.later;
            visible = a.visible;
            splits = ap (λ t. o ∷ t) a.splits;
            policy = a.policy;
            sole = a.sole;
          }
    ]

module _ {W : Type 0} (calls : Calls W) (writer : Writer W) where
  open calls use {
    ip, clock, digest, first_scan, later_scans, unmounted, is_device, open_target, sync_works,
    close_works, readback, flush_works, reboot_works,
  }

  -- The conditions under which the writer opens a target.
  pub record MayWrite (opened : Opened W) : Type 0 where
    pub authorized : IsAuthorization ip clock opened.manifest
    pub is_manifest : calls.manifest ≡ some opened.manifest
    pub bytes : Bytes
    pub image : calls.image ≡ some bytes
    pub image_hash : digest bytes ≡ opened.manifest.image_sha256
    pub image_size : pos (length bytes) ≡ opened.manifest.image_size
    pub disk : IsAuthorizedDisk opened.manifest.disk opened.disk (first_scan ∷ later_scans)
    pub not_mounted : unmounted opened.disk.path ≡ true
    pub device : is_device opened.disk.path ≡ some true
    pub source : calls.source ≡ some opened.source
    pub target : open_target opened.disk.path ≡ some opened.target

  image_tests :
      (b : Bytes) (m : Manifest)
      → (not (same (digest b) m.image_sha256) || not (same_ℤ (pos (length b)) m.image_size)) ≡ false
      → (digest b ≡ m.image_sha256) × (pos (length b) ≡ m.image_size)
  image_tests b m h =
      let s : same (digest b) m.image_sha256 ≡ true = ground (arith, h) in
      let z : same_ℤ (pos (length b)) m.image_size ≡ true = ground (arith, h) in
      (same→eq _ _ s, same_ℤ-eq _ _ z)

  -- The writer opens a target for writing only if the manifest is an authorization at its clock, the
  -- image has the manifest's hash and size, some scan saw the disk as the only authorized one, and
  -- the disk is unmounted and a device.
  pub open_authorized-MayWrite :
      (opened : Opened W) → open_authorized calls writer ≡ ok opened → MayWrite opened
  unfolding open_authorized
  open_authorized-MayWrite opened h =
      let (m, e1, h1) = >>=-eq-ok (from_option unreadable_manifest calls.manifest) _ h in
      let (m', e2, h2) = >>=-eq-ok (checked ip clock m) _ h1 in
      let (b, e3, h3) = >>=-eq-ok (from_option image_unreadable calls.image) _ h2 in
      let (e4, h4) = refuse_if-eq-ok _ image_changed _ h3 in
      let (d, e5, h5) = >>=-eq-ok (wait_for_fingerprint m'.disk first_scan later_scans) _ h4 in
      let (e6, h6) = refuse_if-eq-ok (not (unmounted d.path)) still_mounted _ h5 in
      let (v, e7, h7) = >>=-eq-ok (from_option no_target (is_device d.path)) _ h6 in
      let (e8, h8) = refuse_if-eq-ok (not v) not_a_device _ h7 in
      let (s, e9, h9) = >>=-eq-ok (from_option source_unreadable calls.source) _ h8 in
      let (t, e10, h10) = >>=-eq-ok (from_option target_unwritable (open_target d.path)) _ h9 in
      let is : record { manifest = m'; disk = d; source = s; target = t } ≡ opened =
        ok-inj (ok _) refl h10 in
      let (same_m, valid) = keep_manifest-ok m (validate_manifest ip clock m) e2 in
      let (hash, size) = image_tests b m' e4 in
      let is_true : v ≡ true = ground (arith, e8) in
      subst MayWrite is (record {
        authorized = (validate_manifest_iff ip clock m').0 (rw (← same_m) valid);
        is_manifest = from_option-ok _ _ e1 ∙ ap some same_m;
        bytes = b;
        image = from_option-ok _ _ e3;
        image_hash = hash;
        image_size = size;
        disk = wait_lem m'.disk d first_scan later_scans e5;
        not_mounted = ground (arith, e6);
        device = from_option-ok _ _ e7 ∙ ap some is_true;
        source = from_option-ok _ _ e9;
        target = from_option-ok _ _ e10;
      })

  -- What a run has established when it reports success: `target` received exactly the image's bytes,
  -- which have the manifest's hash, and so have the bytes that were read back from it.
  pub record IsVerified (opened : Opened W) (target : W) : Type 0 where
    pub size : ℕ
    pub size_is : opened.manifest.image_size ≡ pos size
    pub enough : size ≤ length opened.source.rest
    pub received_is :
        writer.received target ≡ writer.received opened.target ++ take size opened.source.rest
    pub hash_is : digest (take size opened.source.rest) ≡ opened.manifest.image_sha256
    pub device : Source
    pub reads : readback target ≡ some device
    pub holds : size ≤ length device.rest
    pub readback_is : digest (take size device.rest) ≡ opened.manifest.image_sha256

  check_written-ok :
      (m : Manifest) (o : Outcome (CopyState W))
      → check_written calls writer m o ≡ ok tt
      → (o.error ≡ none) × (same (digest o.state.hashed) m.image_sha256 ≡ true)
  unfolding check_written
  check_written-ok m o h = ground (arith, h)

  readback_tests :
      (m : Manifest) (r : Outcome HashState)
      → (refuse_if (not flush_works) flush_failed
          >> (refuse_if (not (is_none r.error)) readback_failed
              >> refuse_if (not (same (digest r.state.hashed) m.image_sha256)) checksum_mismatch))
        ≡ ok tt
      → (r.error ≡ none) × (same (digest r.state.hashed) m.image_sha256 ≡ true)
  readback_tests m r h = ground (arith, h)

  check_readback-ok :
      (m : Manifest) (target : W)
      → check_readback calls writer m target ≡ ok tt
      → (device : Source) × (readback target ≡ some device)
        × ((hash_prefix device (pos_part m.image_size)).error ≡ none)
        × (same (digest (hash_prefix device (pos_part m.image_size)).state.hashed) m.image_sha256
            ≡ true)
  unfolding check_readback
  check_readback-ok m target h =
      let (device, e, k) = >>=-eq-ok (from_option no_readback (readback target)) _ h in
      let (error, hash) = readback_tests m (hash_prefix device (pos_part m.image_size)) k in
      (device, from_option-ok _ _ e, error, hash)

  pub verified :
      (opened : Opened W)
      → IsAuthorization ip clock opened.manifest
      → (check_written calls writer opened.manifest
            (copy_image writer opened.source opened.target (pos_part opened.manifest.image_size))
          >> check_readback calls writer opened.manifest
              (copy_image writer opened.source opened.target
                (pos_part opened.manifest.image_size)).state.target)
        ≡ ok tt
      → IsVerified opened
          (copy_image writer opened.source opened.target
            (pos_part opened.manifest.image_size)).state.target
  verified opened a h =
      let size = pos_part opened.manifest.image_size in
      let o = copy_image writer opened.source opened.target size in
      let (u, first, second) = >>=-eq-ok (check_written calls writer opened.manifest o) _ h in
      let (copied, hash) = check_written-ok opened.manifest o first in
      let (device, reads, error, again) = check_readback-ok opened.manifest o.state.target second in
      let (positive, enough, received, hashed) =
        copy_image_ok writer opened.source opened.target size copied in
      let (positive', holds, read) = hash_prefix_ok device size error in
      record {
        size = size;
        size_is = a.image_size ∙ ap (λ z. pos (pos_part z)) (sym a.image_size);
        enough = enough;
        received_is = received;
        hash_is = ap digest (sym hashed) ∙ same→eq _ _ hash;
        device = device;
        reads = reads;
        holds = holds;
        readback_is = ap digest (sym read) ∙ same→eq _ _ again;
      }
