-- ===== src/Disk/Match.antt =====
-- internal/disk/fingerprint.go: which of the visible disks the manifest authorizes.
pub mod Select
pub mod Policy
use install_mikrotik_chr_scr.Common.{
  ℕ, zero, suc, Bool, true, false, not, ◌&&◌, ◌||◌, List, [], ◌∷◌, ◌++◌, Option, none, some, ◌==◌,
  if◌then◌else◌, length, Result, ok, err, ◌>>=◌, ◌>>◌, refuse_if,
}
use install_mikrotik_chr_scr.Common.Text.{
  Bytes, text, same, is_empty, trim_space, to_lower, trim_prefix, remove,
}
use install_mikrotik_chr_scr.Model.{DiskFingerprint}

-- `strings.TrimSpace(s) == ""`.
abbrev pub is_blank : Bytes → Bool
is_blank s = is_empty (trim_space s)

-- `normalizeIdentity`: the three prefixes are removed one after the other.
unfoldable pub normalize_identity : Bytes → Bytes
normalize_identity v =
    let lowered = to_lower (trim_space v) in
    remove (λ c. c == b'-')
      (trim_prefix (text "0x") (trim_prefix (text "eui.") (trim_prefix (text "naa.") lowered)))

-- `strings.EqualFold` on ASCII.
abbrev pub equal_fold : Bytes → Bytes → Bool
equal_fold a b = same (to_lower a) (to_lower b)

unfoldable pub has_stable_identity : DiskFingerprint → Bool
has_stable_identity d = not (is_blank d.wwn) || not (is_blank d.serial)

-- The recorded identity, where there is one, against the candidate's.
abbrev pub identity_differs : Bytes → Bytes → Bool
identity_differs expected candidate =
    is_blank candidate || not (same (normalize_identity expected) (normalize_identity candidate))

abbrev pub fallback_differs : DiskFingerprint → DiskFingerprint → Bool
fallback_differs e c =
    is_empty e.kernel_name
    || is_empty e.major_minor
    || is_empty e.driver
    || not (same e.kernel_name c.kernel_name)
    || not (same e.major_minor c.major_minor)

-- The chain of identity tests: a recorded WWN, else a recorded serial, else the kernel's names.
abbrev pub identity_fails : DiskFingerprint → DiskFingerprint → Bool
identity_fails e c =
    if not (is_blank e.wwn)
    then identity_differs e.wwn c.wwn
    else if not (is_blank e.serial)
    then identity_differs e.serial c.serial
    else fallback_differs e c

abbrev pub driver_agrees : DiskFingerprint → DiskFingerprint → Bool
driver_agrees e c =
    if not (is_blank e.driver)
    then not (is_blank c.driver) && equal_fold (trim_space e.driver) (trim_space c.driver)
    else true

unfoldable pub fingerprints_match : DiskFingerprint → DiskFingerprint → Bool
fingerprints_match e c =
    if e.size_bytes == 0 || not (e.size_bytes == c.size_bytes)
    then false
    else if identity_fails e c
    then false
    else driver_agrees e c

pub data SelectError : Type 0 where
  needs_single_disk matched : ℕ → SelectError

-- The loop that collects the matches.
unfoldable pub matching : DiskFingerprint → List DiskFingerprint → List DiskFingerprint
matching e [] = []
matching e (c ∷ cs) = let rest = matching e cs in if fingerprints_match e c then c ∷ rest else rest

abbrev pub sole : List DiskFingerprint → Result SelectError DiskFingerprint
sole [] = err (matched 0)
sole (d ∷ []) = ok d
sole (d ∷ d' ∷ ds) = err (matched (length (d ∷ d' ∷ ds)))

unfoldable pub select_authorized_fingerprint :
    DiskFingerprint → List DiskFingerprint → Result SelectError DiskFingerprint
select_authorized_fingerprint e cs = do
  refuse_if (not (has_stable_identity e) && not (length cs == 1)) (needs_single_disk (length cs))
  sole (matching e cs)
