-- ===== src/Preflight.antt =====
-- internal/preflight/preflight.go: the report that decides whether an installation may go on. What
-- the detectors of the host, the disk and the network find, and whether a tool is on the path or the
-- release resolves, are arguments.
pub mod Blocked
use install_mikrotik_chr_scr.Common.{
  ℕ, Bool, true, false, not, ◌&&◌, List, [], ◌∷◌, ◌++◌, Option, none, some, if◌then◌else◌, Result,
  ok, err,
}
use install_mikrotik_chr_scr.Common.Text.{Bytes, text, same}
use install_mikrotik_chr_scr.Model.{
  Issue, Severity, blocker, warning, Host, Disk, NetworkPlan, Release, Preflight, Evidence, unset,
}

abbrev pub required_tools : List Bytes
required_tools = text "mount" ∷ text "umount" ∷ []

-- `requiredToolIssues`, with `LookPath` as a test.
pub required_tool_issues : (Bytes → Bool) → List Bytes → List Issue
required_tool_issues found [] = []
required_tool_issues found (t ∷ ts) =
    let rest = required_tool_issues found ts in
    let missing : Issue = record {
      severity = blocker;
      code = text "required-tool";
      message = text "required command " ++ (t ++ text " is unavailable");
    } in
    if found t then rest else missing ∷ rest

abbrev uefi_message : Release → Bytes
uefi_message r =
    text "the official CHR "
    ++ (r.version
        ++ text
            " raw image has not passed native UEFI boot validation; v1 refuses to erase this UEFI-booted host")

abbrev untested_message : Release → Bytes
untested_message r =
    text "RouterOS "
    ++ (r.version
        ++ text
            " has not completed this installer's QEMU test matrix; its image structure will be checked before confirmation")

pub assess_release : Host → Release → List Issue
assess_release host r =
    (if same host.firmware (text "UEFI") && not r.uefi_boot
      then record { severity = blocker; code = text "uefi-boot"; message = uefi_message r } ∷ []
      else [])
    ++ (if not r.tested
        then record {
          severity = warning;
          code = text "untested-release";
          message = untested_message r;
        }
          ∷ []
        else [])

abbrev no_release_found : Release
no_release_found = record {
  version = [];
  image_url = [];
  checksum_url = [];
  checksum = [];
  tested = false;
  uefi_boot = false;
  compatibility = [];
}

abbrev release_of : Result Bytes Release → Release
release_of (ok r) = r
release_of (err e) = no_release_found

abbrev pub release_issues : Host → Result Bytes Release → List Issue
release_issues host (ok r) = assess_release host r
release_issues host (err e) =
    record { severity = blocker; code = text "mikrotik-release"; message = e } ∷ []

-- `Run`. The time at which it ran is not modelled.
pub run_preflight :
    Host × List Issue
    → (Bytes → Bool)
    → Disk × List Issue
    → NetworkPlan × List Issue
    → Result Bytes Release
    → Preflight
run_preflight (host, hs) found (disk, ds) (plan, ns) release = record {
  host = host;
  disk = disk;
  network = plan;
  release = release_of release;
  issues =
      (((hs ++ required_tool_issues found required_tools) ++ ds) ++ ns)
      ++ release_issues host release;
}
