-- ===== src/Network/Plan/Modes.antt =====
-- The modes, the evidence and the gateways of the plans of the two families.
use install_mikrotik_chr_scr.Common.{
  ◌≡◌, refl, ◌⊎◌, inl, inr, Bool, true, false, List, [], ◌∷◌, Option, none, some,
}
use install_mikrotik_chr_scr.Common.Text.{Bytes, text, same}
use install_mikrotik_chr_scr.Model.{verified}
use install_mikrotik_chr_scr.Network.Address.{NetIp, NetTools}
use install_mikrotik_chr_scr.Network.Routes.{Route}
use install_mikrotik_chr_scr.Network.Sources.{SourceEvidence}
use install_mikrotik_chr_scr.Network.Plan.{Addresses, is_mixed, v4_mode, plan_v4, plan_v6}

clash : {b : Bool} → b ≡ true → b ≡ false → ⊥
clash x y = cc (x, y)

pub v4_mode_lem :
    (s : Addresses) (e : SourceEvidence)
    → is_mixed s ≡ false
    → ((v4_mode s e).evidence ≡ verified) ⊎ (same (v4_mode s e).mode (text "dhcp") ≡ true)
v4_mode_lem s e c = go s.v4_dynamic s.v4_static e.dhcp4 refl refl refl
  where
    go :
        (d t : List Bytes) (b : Bool)
        → s.v4_dynamic ≡ d
        → s.v4_static ≡ t
        → e.dhcp4 ≡ b
        → ((v4_mode s e).evidence ≡ verified) ⊎ (same (v4_mode s e).mode (text "dhcp") ≡ true)
    go (x ∷ d) (y ∷ t) b p q r = let z : is_mixed s ≡ true = rw (p, q) refl in absurd (clash z c)
    go (x ∷ d) [] b p q r = rw (p, q) (inl refl)
    go [] (y ∷ t) b p q r = rw (p, q) (inl refl)
    go [] [] true p q r = rw (p, q, r) (inr refl)
    go [] [] false p q r = rw (p, q, r) (inl refl)

module _ (ip : NetIp) (tools : NetTools ip) where
  pub plan_v4_lem :
      (s : Addresses) (e : SourceEvidence) (d : Option Route)
      → ((plan_v4 ip tools s e d).evidence ≡ (v4_mode s e).evidence)
        × ((plan_v4 ip tools s e d).mode ≡ (v4_mode s e).mode)
  plan_v4_lem s e none = (refl, refl)
  plan_v4_lem s e (some r) = (refl, refl)

  pub plan_v4-gateway :
      (s : Addresses) (e : SourceEvidence) (o : Option Route) (d : Route)
      → o ≡ some d
      → (plan_v4 ip tools s e o).gateway ≡ d.gateway
  plan_v4-gateway s e none d q = cc
  plan_v4-gateway s e (some r) d q = cc q

  pub plan_v6-gateway :
      (s : Addresses) (e : SourceEvidence) (o : Option Route) (d : Route)
      → o ≡ some d
      → (plan_v6 ip tools s e o).gateway ≡ d.gateway
  unfolding plan_v6
  plan_v6-gateway s e none d q = cc
  plan_v6-gateway s e (some r) d q = cc q
