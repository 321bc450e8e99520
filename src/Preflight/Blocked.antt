-- ===== src/Preflight/Blocked.antt =====
-- When the report blocks the installation.
use install_mikrotik_chr_scr.Common.{
  ◌≡◌, ◌≢◌, refl, ◌↔◌, ◌⊎◌, Bool, true, false, ◌||◌, List, ◌++◌, Result, ok, err, arith,
}
use install_mikrotik_chr_scr.Common.Text.{Bytes, text, same→eq, same_refl}
use install_mikrotik_chr_scr.Model.{
  Issue, Host, Disk, NetworkPlan, Release, any_blocker, any_blocker-++, blocked,
}
use install_mikrotik_chr_scr.Preflight.{
  required_tools, required_tool_issues, assess_release, release_issues, run_preflight,
}

-- The release resolved, and it boots the host: a host booted by UEFI needs a release that does.
pub record IsBootable (host : Host) (release : Result Bytes Release) : Type 0 where
  pub found : Release
  pub resolved : release ≡ ok found
  pub boots : (host.firmware ≢ text "UEFI") ⊎ (found.uefi_boot ≡ true)

IsBootable-iff :
    (host : Host) (release : Result Bytes Release)
    → (any_blocker (release_issues host release) ≡ false) ↔ IsBootable host release
unfolding any_blocker assess_release
IsBootable-iff host (err e) = (λ h. cc, λ b. cc (b.resolved))
IsBootable-iff host (ok r) = (
  λ h. record { found = r; resolved = refl; boots = ground (arith, h, same_refl host.firmware) },
  λ b. ground (arith, b.resolved, b.boots, same→eq host.firmware (text "UEFI")),
)

tools_iff :
    (found : Bytes → Bool)
    → (any_blocker (required_tool_issues found required_tools) ≡ false)
      ↔ ((found (text "mount") ≡ true) × (found (text "umount") ≡ true))
unfolding any_blocker required_tool_issues
tools_iff found = (λ h. ground (arith, h), λ h. ground (arith, h))

parts_iff :
    {P Q R : Type 0} (a t d n r : Bool)
    → (t ≡ false) ↔ (P × Q)
    → (r ≡ false) ↔ R
    → (((((a || t) || d) || n) || r) ≡ false)
      ↔ ((a ≡ false) × (d ≡ false) × (n ≡ false) × P × Q × R)
parts_iff false false false false false f g =
    (λ h. (refl, refl, refl, (f.0 refl).0, (f.0 refl).1, g.0 refl), λ h. refl)
parts_iff true t d n r f g = (λ h. cc, λ h. cc (h.0))
parts_iff false true d n r f g = (λ h. cc, λ (x, y, z, p, q, s). cc (f.1 (p, q)))
parts_iff false false true n r f g = (λ h. cc, λ (x, y, z, p, q, s). cc y)
parts_iff false false false true r f g = (λ h. cc, λ (x, y, z, p, q, s). cc z)
parts_iff false false false false true f g = (λ h. cc, λ (x, y, z, p, q, s). cc (g.1 s))

-- The report does not block the installation exactly when no detector found a blocker, both tools
-- are on the path, and the release resolved and boots the host's firmware.
pub run_preflight-blocked_iff :
    (host : Host × List Issue) (found : Bytes → Bool) (disk : Disk × List Issue)
    (plan : NetworkPlan × List Issue) (release : Result Bytes Release)
    → (blocked (run_preflight host found disk plan release) ≡ false) ↔ (
        (any_blocker host.1 ≡ false)
        × (any_blocker disk.1 ≡ false)
        × (any_blocker plan.1 ≡ false)
        × (found (text "mount") ≡ true)
        × (found (text "umount") ≡ true)
        × IsBootable host.0 release)
unfolding run_preflight blocked
run_preflight-blocked_iff (host, hs) found (disk, ds) (plan, ns) release =
    let tools = required_tool_issues found required_tools in
    let rel = release_issues host release in
    rw
      (
        any_blocker-++ (((hs ++ tools) ++ ds) ++ ns) rel,
        any_blocker-++ ((hs ++ tools) ++ ds) ns,
        any_blocker-++ (hs ++ tools) ds,
        any_blocker-++ hs tools,
      )
      (parts_iff (any_blocker hs) (any_blocker tools) (any_blocker ds) (any_blocker ns)
        (any_blocker rel) (tools_iff found) (IsBootable-iff host release))
