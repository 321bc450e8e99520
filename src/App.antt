-- ===== src/App.antt =====
-- internal/app/app.go: whether the report lets the installation begin, and whether the disk found
-- again after the review is still the reviewed one.
use install_mikrotik_chr_scr.Common.{
  ◌≡◌, ◌≢◌, refl, Bool, true, false, not, ◌&&◌, arith, and-eq-true,
}
use install_mikrotik_chr_scr.Model.{
  Disk, InstallMethod, direct, kexec, grub, unset, Preflight, blocked,
}
use install_mikrotik_chr_scr.Disk.Match.{fingerprints_match}
use install_mikrotik_chr_scr.Disk.Match.Policy.{
  IdentityAgrees, DriverAgrees, fingerprints_match_iff,
}

abbrev pub same_method : InstallMethod → InstallMethod → Bool
same_method direct direct = true
same_method kexec kexec = true
same_method grub grub = true
same_method unset unset = true
same_method _ _ = false

abbrev pub same_bool : Bool → Bool → Bool
same_bool true b = b
same_bool false b = not b

pub ready_for_install : Preflight → Bool
ready_for_install p = not (blocked p)

unfoldable pub same_install_target : Disk → Disk → Bool
same_install_target before after =
    same_bool before.root_backed after.root_backed
    && same_method before.method after.method
    && fingerprints_match before.fingerprint after.fingerprint

same_bool_lem : (a b : Bool) → same_bool a b ≡ true → a ≡ b
same_bool_lem true b h = cc
same_bool_lem false true h = cc
same_bool_lem false false h = refl

same_method_lem : (a b : InstallMethod) → same_method a b ≡ true → a ≡ b
same_method_lem direct direct h = refl
same_method_lem kexec kexec h = refl
same_method_lem grub grub h = refl
same_method_lem unset unset h = refl
same_method_lem _ _ h = cc

-- A disk that passes the revalidation is backed like the reviewed one and is installed by the same
-- method; the reviewed size is not zero and has not changed, and the recorded identity and driver
-- agree.
pub same_install_target-agrees :
    (before after : Disk)
    → same_install_target before after ≡ true
    → (before.root_backed ≡ after.root_backed)
      × (before.method ≡ after.method)
      × (before.fingerprint.size_bytes ≢ 0)
      × (before.fingerprint.size_bytes ≡ after.fingerprint.size_bytes)
      × IdentityAgrees before.fingerprint after.fingerprint
      × DriverAgrees before.fingerprint after.fingerprint
unfolding same_install_target
same_install_target-agrees before after h =
    let (ab, c) : ((same_bool before.root_backed after.root_backed
            && same_method before.method after.method)
          ≡ true)
        × (fingerprints_match before.fingerprint after.fingerprint ≡ true) =
      ground (arith, h) in
    let (a, b) = and-eq-true _ _ ab in
    let (z, s, i, d) = (fingerprints_match_iff before.fingerprint after.fingerprint).0 c in
    (same_bool_lem _ _ a, same_method_lem _ _ b, z, s, i, d)
