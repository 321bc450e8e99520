-- ===== src/Disk/Match/Policy.antt =====
-- `FingerprintsMatch` without its order of tests.
use install_mikrotik_chr_scr.Common.{
  ◌≡◌, ◌≢◌, refl, ◌⊎◌, inl, inr, ◌↔◌, Bool, true, false, not, ◌&&◌, ◌||◌, [], ◌∷◌, ◌==◌,
  if◌then◌else◌, arith, Bool-cases,
}
use install_mikrotik_chr_scr.Common.Text.{
  Bytes, same, same→eq, same_refl, is_empty, trim_space, to_lower,
}
use install_mikrotik_chr_scr.Model.{DiskFingerprint}
use install_mikrotik_chr_scr.Disk.Match.{
  is_blank, normalize_identity, fingerprints_match, identity_fails, identity_differs,
  fallback_differs, driver_agrees,
}

-- A recorded identity stays what decides: the candidate has one too, with the same normal form.
abbrev pub SameIdentity : Bytes → Bytes → Type 0
SameIdentity e c = (is_blank c ≡ false) × (normalize_identity e ≡ normalize_identity c)

-- Without an identity the kernel's name, the device number and the driver are recorded, and the
-- first two are the candidate's.
abbrev pub SameNames : DiskFingerprint → DiskFingerprint → Type 0
SameNames e c =
    (e.kernel_name ≢ [])
    × (e.major_minor ≢ [])
    × (e.driver ≢ [])
    × (e.kernel_name ≡ c.kernel_name)
    × (e.major_minor ≡ c.major_minor)

abbrev pub IdentityAgrees : DiskFingerprint → DiskFingerprint → Type 0
IdentityAgrees e c =
    ((is_blank e.wwn ≡ false) × SameIdentity e.wwn c.wwn)
    ⊎ (((is_blank e.wwn ≡ true) × (is_blank e.serial ≡ false) × SameIdentity e.serial c.serial)
        ⊎ ((is_blank e.wwn ≡ true) × (is_blank e.serial ≡ true) × SameNames e c))

abbrev pub DriverAgrees : DiskFingerprint → DiskFingerprint → Type 0
DriverAgrees e c =
    (is_blank e.driver ≡ true)
    ⊎ ((is_blank c.driver ≡ false)
        × (to_lower (trim_space e.driver) ≡ to_lower (trim_space c.driver)))

same_iff : (s t : Bytes) → (same s t ≡ true) ↔ (s ≡ t)
same_iff s t = (same→eq s t, λ e. rw e (same_refl t))

is_empty_iff : (s : Bytes) → (is_empty s ≡ false) ↔ (s ≢ [])
is_empty_iff [] = (λ h. cc, λ h. absurd (h refl))
is_empty_iff (c ∷ cs) = (λ h e. cc, λ h. refl)

identity_differs_iff : (e c : Bytes) → (identity_differs e c ≡ false) ↔ SameIdentity e c
identity_differs_iff e c = (
  λ h. (
    ground (arith, h),
    (same_iff (normalize_identity e) (normalize_identity c)).0 (ground (arith, h)),
  ),
  λ h. rw (h.0, (same_iff (normalize_identity e) (normalize_identity c)).1 h.1),
)

names-Bool :
    (a b c d e : Bool)
    → (a || b || c || not d || not e) ≡ false
    → (a ≡ false) × (b ≡ false) × (c ≡ false) × (d ≡ true) × (e ≡ true)
names-Bool a b c d e h = ground arith

fallback_differs_iff : (e c : DiskFingerprint) → (fallback_differs e c ≡ false) ↔ SameNames e c
fallback_differs_iff e c = (
  λ h.
      let (a, b, d, n, m) =
        names-Bool _ _ _ (same e.kernel_name c.kernel_name) (same e.major_minor c.major_minor) h in
      (
        (is_empty_iff e.kernel_name).0 a,
        (is_empty_iff e.major_minor).0 b,
        (is_empty_iff e.driver).0 d,
        (same_iff e.kernel_name c.kernel_name).0 n,
        (same_iff e.major_minor c.major_minor).0 m,
      ),
  λ h. rw (
    (is_empty_iff e.kernel_name).1 h.0,
    (is_empty_iff e.major_minor).1 h.1,
    (is_empty_iff e.driver).1 h.2,
    (same_iff e.kernel_name c.kernel_name).1 h.3,
    (same_iff e.major_minor c.major_minor).1 h.4,
  ),
)

ladder_iff :
    {P Q R : Type 0} (w s x y z : Bool)
    → (x ≡ false) ↔ P
    → (y ≡ false) ↔ Q
    → (z ≡ false) ↔ R
    → ((if not w then x else if not s then y else z) ≡ false)
      ↔ (((w ≡ false) × P) ⊎ (((w ≡ true) × (s ≡ false) × Q) ⊎ ((w ≡ true) × (s ≡ true) × R)))
ladder_iff false s x y z p q r = (
  λ h. inl (refl, p.0 h),
  λ h. elim h [ inl a ↦ p.1 a.1 | inr b ↦ elim b [ inl a ↦ cc (a.0) | inr a ↦ cc (a.0) ] ],
)
ladder_iff true false x y z p q r = (
  λ h. inr (inl (refl, refl, q.0 h)),
  λ h. elim h [ inl a ↦ cc (a.0) | inr b ↦ elim b [ inl a ↦ q.1 a.2 | inr a ↦ cc (a.1) ] ],
)
ladder_iff true true x y z p q r = (
  λ h. inr (inr (refl, refl, r.0 h)),
  λ h. elim h [ inl a ↦ cc (a.0) | inr b ↦ elim b [ inl a ↦ cc (a.1) | inr a ↦ r.1 a.2 ] ],
)

identity_iff : (e c : DiskFingerprint) → (identity_fails e c ≡ false) ↔ IdentityAgrees e c
identity_iff e c =
    ladder_iff (is_blank e.wwn) (is_blank e.serial) _ _ _ (identity_differs_iff e.wwn c.wwn)
      (identity_differs_iff e.serial c.serial) (fallback_differs_iff e c)

driver_Bool :
    {P : Type 0} (d c f : Bool)
    → (f ≡ true) ↔ P
    → ((if not d then not c && f else true) ≡ true) ↔ ((d ≡ true) ⊎ ((c ≡ false) × P))
driver_Bool true c f p = (λ h. inl refl, λ h. refl)
driver_Bool false true f p = (λ h. cc, λ h. elim h [ inl a ↦ cc | inr a ↦ cc (a.0) ])
driver_Bool false false f p = (λ h. inr (refl, p.0 h), λ h. elim h [ inl a ↦ cc | inr a ↦ p.1 a.1 ])

driver_iff : (e c : DiskFingerprint) → (driver_agrees e c ≡ true) ↔ DriverAgrees e c
driver_iff e c =
    driver_Bool (is_blank e.driver) (is_blank c.driver) _
      (same_iff (to_lower (trim_space e.driver)) (to_lower (trim_space c.driver)))

match_Bool :
    (size : Bool) (fails agrees : Bool)
    → ((if size then false else if fails then false else agrees) ≡ true)
      ↔ ((size ≡ false) × (fails ≡ false) × (agrees ≡ true))
match_Bool size fails agrees = (λ h. ground arith, λ h. rw (h.0, h.1, h.2))

-- A candidate matches a recorded fingerprint exactly when the recorded size is not zero and is the
-- candidate's; the recorded WWN, or else the recorded serial, is not blank in the candidate and has
-- the same normal form, or, where neither is recorded, name, device number and driver are recorded
-- and the first two are the same; and a recorded driver is the candidate's, but for case.
pub fingerprints_match_iff :
    (e c : DiskFingerprint)
    → (fingerprints_match e c ≡ true)
      ↔ ((e.size_bytes ≢ 0) × (e.size_bytes ≡ c.size_bytes) × IdentityAgrees e c × DriverAgrees e c)
unfolding fingerprints_match
fingerprints_match_iff e c = (
  λ h.
      let (z, f, a) = (match_Bool _ (identity_fails e c) (driver_agrees e c)).0 h in
      (ground (arith, z), ground (arith, z), (identity_iff e c).0 f, (driver_iff e c).0 a),
  λ h.
      (match_Bool _ (identity_fails e c) (driver_agrees e c)).1
        (size_Bool e c h.0 h.1, (identity_iff e c).1 h.2, (driver_iff e c).1 h.3),
)
  where
    size_Bool :
        (e c : DiskFingerprint)
        → e.size_bytes ≢ 0
        → e.size_bytes ≡ c.size_bytes
        → (e.size_bytes == 0 || not (e.size_bytes == c.size_bytes)) ≡ false
    size_Bool e c n q = ground arith

-- A fingerprint with a size, and with an identity or the kernel's names, matches itself: nothing
-- but a change refuses the authorized disk.
pub fingerprints_match_self :
    (d : DiskFingerprint)
    → d.size_bytes ≢ 0
    → (is_blank d.wwn ≡ false)
      ⊎ ((is_blank d.serial ≡ false)
          ⊎ ((d.kernel_name ≢ []) × (d.major_minor ≢ []) × (d.driver ≢ [])))
    → fingerprints_match d d ≡ true
fingerprints_match_self d size known = (fingerprints_match_iff d d).1 (size, refl, agrees, driver)
  where
    names :
        is_blank d.wwn ≡ true
        → is_blank d.serial ≡ true
        → (is_blank d.wwn ≡ false)
          ⊎ ((is_blank d.serial ≡ false)
              ⊎ ((d.kernel_name ≢ []) × (d.major_minor ≢ []) × (d.driver ≢ [])))
        → SameNames d d
    names w s (inl a) = cc
    names w s (inr (inl a)) = cc
    names w s (inr (inr (n, m, v))) = (n, m, v, refl, refl)

    driver : DriverAgrees d d
    driver = elim (Bool-cases (is_blank d.driver)) [ inl y ↦ inl y | inr n ↦ inr (n, refl) ]

    agrees : IdentityAgrees d d
    agrees = elim (Bool-cases (is_blank d.wwn)) [
      | inr w ↦ inl (w, (w, refl))
      | inl w ↦ elim (Bool-cases (is_blank d.serial)) [
        | inr s ↦ inr (inl (w, s, (s, refl)))
        | inl s ↦ inr (inr (w, s, names w s known))
      ]
    ]
