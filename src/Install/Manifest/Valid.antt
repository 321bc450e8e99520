-- ===== src/Install/Manifest/Valid.antt =====
-- What `Manifest.Validate` accepts, stated without its order of tests.
use install_mikrotik_chr_scr.Common.{
  ℕ, ◌≤◌, ◌<◌, ◌≡◌, ◌≢◌, refl, ◌⊎◌, ◌↔◌, true, false, ◌&&◌, [], ◌∷◌, ◌==◌, length, ok, arith,
}
use install_mikrotik_chr_scr.Common.Text.{Bytes, is_empty}
use install_mikrotik_chr_scr.Common.Int.{ℤ, pos, negsuc, leb_ℤ}
use install_mikrotik_chr_scr.Network.Address.{NetIp}
use install_mikrotik_chr_scr.Network.Validate.{validate}
use install_mikrotik_chr_scr.Network.Validate.Spec.{IsValidPlan, validate_iff}
use install_mikrotik_chr_scr.Install.Manifest.{
  Manifest, manifest_schema, hex_decodes, exceeds, adjusted_clock, validate_manifest,
  validate_timestamp,
}
use install_mikrotik_chr_scr.Install.Manifest.Clock.{
  InWindow, OffsetIsUsable, validate_timestamp_iff,
}

empty_iff : (s : Bytes) → (is_empty s ≡ false) ↔ (s ≢ [])
empty_iff [] = (λ h. cc, λ h. absurd (h refl))
empty_iff (c ∷ cs) = (λ h e. cc, λ h. refl)

module _ (ip : NetIp) where
  -- A manifest that authorizes the write of an image of `bytes` bytes.
  pub record IsAuthorization (clock : ℤ) (m : Manifest) : Type 0 where
    pub bytes : ℕ
    pub schema_is : m.schema ≡ manifest_schema
    pub disk_path : m.disk.path ≢ []
    pub disk_name : m.disk.kernel_name ≢ []
    pub identity : (m.disk.wwn ≢ []) ⊎ ((m.disk.serial ≢ []) ⊎ (m.disk.major_minor ≢ []))
    pub image_path : m.image_path ≢ []
    pub checksum : (length m.image_sha256 ≡ 64) × (hex_decodes m.image_sha256 ≡ true)
    pub image_size : m.image_size ≡ pos bytes
    pub not_empty : 0 < bytes
    pub fits : bytes ≤ m.disk.size_bytes
    pub release : m.release.version ≢ []
    pub network : IsValidPlan ip m.network
    pub made : m.created_at ≢ pos 0
    pub fresh :
        InWindow m.created_at clock
        ⊎ (OffsetIsUsable m.rtc_offset × InWindow m.created_at (adjusted_clock m clock))

  -- The tests of `Validate`, each with its outcome.
  record Tests (clock : ℤ) (m : Manifest) : Type 0 where
    schema_is : m.schema ≡ 1
    disk_path : is_empty m.disk.path ≡ false
    disk_name : is_empty m.disk.kernel_name ≡ false
    disk_size : (m.disk.size_bytes == 0) ≡ false
    identity :
        (is_empty m.disk.wwn && is_empty m.disk.serial && is_empty m.disk.major_minor) ≡ false
    image_path : is_empty m.image_path ≡ false
    digits : length m.image_sha256 ≡ 64
    positive : leb_ℤ m.image_size (pos 0) ≡ false
    decodes : hex_decodes m.image_sha256 ≡ true
    fits : exceeds m.image_size m.disk.size_bytes ≡ false
    release : is_empty m.release.version ≡ false
    network : validate ip m.network ≡ ok tt
    fresh : validate_timestamp m clock ≡ ok tt

  validate_manifest-Tests :
      (clock : ℤ) (m : Manifest) → validate_manifest ip clock m ≡ ok tt → Tests clock m
  unfolding validate_manifest
  validate_manifest-Tests clock m h = ground arith

  Tests-validate_manifest :
      (clock : ℤ) (m : Manifest) → Tests clock m → validate_manifest ip clock m ≡ ok tt
  unfolding validate_manifest
  Tests-validate_manifest clock m t = ground arith

  identity_iff :
      (a b c : Bytes)
      → ((is_empty a && is_empty b && is_empty c) ≡ false) ↔ ((a ≢ []) ⊎ ((b ≢ []) ⊎ (c ≢ [])))
  identity_iff a b c = (
    λ h. ground (arith, h, empty_iff a, empty_iff b, empty_iff c),
    λ h. ground (arith, h, empty_iff a, empty_iff b, empty_iff c),
  )

  size_of :
      (size : ℤ) (limit : ℕ)
      → leb_ℤ size (pos 0) ≡ false
      → exceeds size limit ≡ false
      → (n : ℕ) × (size ≡ pos n) × (0 < n) × (n ≤ limit)
  size_of (pos n) limit p e = (n, refl, ground arith, ground arith)
  size_of (negsuc n) limit p e = absurd (ground arith)

  -- `Manifest.Validate` passes exactly the manifests of the known schema that name a disk and one of
  -- its identities, an image with a path, a checksum of 64 hexadecimal digits and a positive size
  -- that the disk can hold, a release, a valid network plan, and a timestamp whose window has the
  -- writer's clock, as it stands or corrected by a usable offset.
  pub validate_manifest_iff :
      (clock : ℤ) (m : Manifest) → (validate_manifest ip clock m ≡ ok tt) ↔ IsAuthorization clock m
  validate_manifest_iff clock m = (λ h. there (validate_manifest-Tests clock m h), back)
    where
      there : Tests clock m → IsAuthorization clock m
      there t =
          let (n, is, low, high) = size_of m.image_size m.disk.size_bytes t.positive t.fits in
          let (made, fresh) = (validate_timestamp_iff m clock).0 t.fresh in
          record {
            bytes = n;
            schema_is = t.schema_is;
            disk_path = (empty_iff _).0 t.disk_path;
            disk_name = (empty_iff _).0 t.disk_name;
            identity = (identity_iff _ _ _).0 t.identity;
            image_path = (empty_iff _).0 t.image_path;
            checksum = (t.digits, t.decodes);
            image_size = is;
            not_empty = low;
            fits = high;
            release = (empty_iff _).0 t.release;
            network = (validate_iff ip m.network).0 t.network;
            made = made;
            fresh = fresh;
          }

      back : IsAuthorization clock m → validate_manifest ip clock m ≡ ok tt
      back a = Tests-validate_manifest clock m (record {
        schema_is = a.schema_is;
        disk_path = (empty_iff _).1 a.disk_path;
        disk_name = (empty_iff _).1 a.disk_name;
        disk_size = ground (arith, a.not_empty, a.fits);
        identity = (identity_iff _ _ _).1 a.identity;
        image_path = (empty_iff _).1 a.image_path;
        digits = a.checksum.0;
        positive = rw (a.image_size) (ground (arith, a.not_empty));
        decodes = a.checksum.1;
        fits = rw (a.image_size) (ground (arith, a.fits));
        release = (empty_iff _).1 a.release;
        network = (validate_iff ip m.network).1 a.network;
        fresh = (validate_timestamp_iff m clock).1 (a.made, a.fresh);
      })
