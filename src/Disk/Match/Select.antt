-- ===== src/Disk/Match/Select.antt =====
-- `SelectAuthorizedFingerprint`: at most one disk is ever authorized, and which.
use install_mikrotik_chr_scr.Common.{
  ◌≡◌, refl, ◌∙◌, ap, ◌⊎◌, inl, inr, ◌↔◌, true, false, not, ◌&&◌, List, [], ◌∷◌, ◌++◌, ◌==◌, length,
  All, ok, refuse_if-eq-ok, arith, Bool-cases,
}
use install_mikrotik_chr_scr.Model.{DiskFingerprint}
use install_mikrotik_chr_scr.Disk.Match.{
  fingerprints_match, has_stable_identity, matching, sole, select_authorized_fingerprint,
}

abbrev NoMatch : DiskFingerprint → DiskFingerprint → Type 0
NoMatch e c = fingerprints_match e c ≡ false

-- `d` is the only one of the candidates that matches.
pub record IsSoleMatch (e d : DiskFingerprint) (cs : List DiskFingerprint) : Type 0 where
  pub earlier : List DiskFingerprint
  pub later : List DiskFingerprint
  pub splits : cs ≡ earlier ++ (d ∷ later)
  pub matches : fingerprints_match e d ≡ true
  pub none_earlier : All (NoMatch e) earlier
  pub none_later : All (NoMatch e) later

matching-nil :
    (e : DiskFingerprint) (cs : List DiskFingerprint) → matching e cs ≡ [] → All (NoMatch e) cs
unfolding matching
matching-nil e [] h = tt
matching-nil e (c ∷ cs) h = elim (Bool-cases (fingerprints_match e c)) [
  | inl y ↦ absurd (ground (arith, h, y))
  | inr n ↦ (n, matching-nil e cs (rw n at h))
]

nil-matching :
    (e : DiskFingerprint) (cs : List DiskFingerprint) → All (NoMatch e) cs → matching e cs ≡ []
unfolding matching
nil-matching e [] h = refl
nil-matching e (c ∷ cs) (n, h) = rw n (nil-matching e cs h)

matching-one :
    (e d : DiskFingerprint) (cs : List DiskFingerprint)
    → matching e cs ≡ d ∷ []
    → IsSoleMatch e d cs
unfolding matching
matching-one e d [] h = absurd (cc)
matching-one e d (c ∷ cs) h = elim (Bool-cases (fingerprints_match e c)) [
  | inl y ↦
      let q : c ∷ matching e cs ≡ d ∷ [] = rw y at h in
      let same : c ≡ d = cc in
      record {
        earlier = [];
        later = cs;
        splits = ap (λ x. x ∷ cs) same;
        matches = rw (← same) y;
        none_earlier = tt;
        none_later = matching-nil e cs (cc);
      }
  | inr n ↦
      let s : IsSoleMatch e d cs = matching-one e d cs (rw n at h) in
      record {
        earlier = c ∷ s.earlier;
        later = s.later;
        splits = ap (λ t. c ∷ t) s.splits;
        matches = s.matches;
        none_earlier = (n, s.none_earlier);
        none_later = s.none_later;
      }
]

one-matching :
    (e d : DiskFingerprint) (earlier later : List DiskFingerprint)
    → fingerprints_match e d ≡ true
    → All (NoMatch e) earlier
    → All (NoMatch e) later
    → matching e (earlier ++ (d ∷ later)) ≡ d ∷ []
unfolding matching
one-matching e d [] later m h k = rw m (ap (λ t. d ∷ t) (nil-matching e later k))
one-matching e d (c ∷ cs) later m (n, h) k = rw n (one-matching e d cs later m h k)

sole-ok : (ds : List DiskFingerprint) (d : DiskFingerprint) → sole ds ≡ ok d → ds ≡ d ∷ []
sole-ok [] d h = cc
sole-ok (x ∷ []) d h = cc
sole-ok (x ∷ y ∷ ds) d h = cc

-- A fallback identity is accepted only where the candidates are a single disk.
abbrev pub PolicyAllows : DiskFingerprint → List DiskFingerprint → Type 0
PolicyAllows e cs = (has_stable_identity e ≡ true) ⊎ (length cs ≡ 1)

policy_iff :
    (e : DiskFingerprint) (cs : List DiskFingerprint)
    → ((not (has_stable_identity e) && not (length cs == 1)) ≡ false) ↔ PolicyAllows e cs
policy_iff e cs = elim (Bool-cases (has_stable_identity e)) [
  | inl y ↦ rw y (λ h. inl refl, λ h. refl)
  | inr n ↦ rw n (λ h. inr (ground arith), λ h. ground (arith, h))
]

-- The selection authorizes a disk exactly when it is the only candidate that matches the recorded
-- fingerprint and, where that has neither WWN nor serial, the only disk that is visible.
pub select_authorized_iff :
    (e d : DiskFingerprint) (cs : List DiskFingerprint)
    → (select_authorized_fingerprint e cs ≡ ok d) ↔ (PolicyAllows e cs × IsSoleMatch e d cs)
unfolding select_authorized_fingerprint
select_authorized_iff e d cs = (
  λ h.
      let (p, s) =
        refuse_if-eq-ok (not (has_stable_identity e) && not (length cs == 1)) _
          (sole (matching e cs)) h in
      ((policy_iff e cs).0 p, matching-one e d cs (sole-ok (matching e cs) d s)),
  λ h.
      let m : matching e cs ≡ d ∷ [] =
        ap (matching e) h.1.splits
        ∙ one-matching e d h.1.earlier h.1.later h.1.matches h.1.none_earlier h.1.none_later in
      rw ((policy_iff e cs).1 h.0, m),
)
