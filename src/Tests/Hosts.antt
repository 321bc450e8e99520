-- ===== src/Tests/Hosts.antt =====
-- The host, the wait for the disk and the quoting on concrete inputs.
use install_mikrotik_chr_scr.Common.{
  ◌≡◌, ◌≤◌, ◌∙◌, sym, Bool-cases, if-false, if◌then◌else◌, refl, inl, inr, ◌∈◌, true, false, List,
  [], ◌∷◌, Option, none, some, ok,
}
use install_mikrotik_chr_scr.Common.Text.{Bytes, text, same, cut_at}
use install_mikrotik_chr_scr.Common.Decode.{parse_uint_value}
use install_mikrotik_chr_scr.Model.{DiskFingerprint, NetworkPlan, any_blocker, issues_of}
use install_mikrotik_chr_scr.Network.Validate.{fields_from}
use install_mikrotik_chr_scr.Disk.Match.{
  fingerprints_match, has_stable_identity, normalize_identity,
}
use install_mikrotik_chr_scr.Install.Writer.{wait_for_fingerprint}
use install_mikrotik_chr_scr.Install.Writer.Wait.{Shows, wait_for_fingerprint_finds}
use install_mikrotik_chr_scr.Install.Initramfs.{
  shell_quote, shell_word, outside, shell_word-shell_quote,
}
use install_mikrotik_chr_scr.Platform.{
  PlatformHost, is_supported, parse_memory_bytes, detect_console, parse_os_release, detect_host,
  smallest_memory, detect, detect_supports,
}
use install_mikrotik_chr_scr.Network.Validate.{
  validate, check_mode, check_v4_prefixes, check_v6_prefixes, check_server, check_servers,
}
use install_mikrotik_chr_scr.Network.Address.{NetIp}
use install_mikrotik_chr_scr.Network.RouterOs.{Printer, join_lines, script_lines, router_os_script}
use install_mikrotik_chr_scr.Network.RouterOs.Lines.{
  one_line, lines_of, Documented, IsTrimmed, router_os_script_lines,
}
use install_mikrotik_chr_scr.Tests.Plans.{target, plan, any_text}

shell_word-shell_quote_example : shell_word outside (shell_quote (text "it's")) ≡ some (text "it's")
shell_word-shell_quote_example = shell_word-shell_quote (text "it's")

abbrev no_unquote : Bytes → Option Bytes
no_unquote s = none

abbrev debian_host : PlatformHost
debian_host = record {
  architecture = text "amd64";
  os_release = some (text "# system" ∷ text "ID=Debian" ∷ text "VERSION_ID='12'" ∷ []);
  kernel_release = some (text "6.1.0\n");
  has_efi = true;
  cmdline = some (text "quiet console=tty0 console=ttyS0,115200");
  meminfo = some (text "MemTotal:  1048576 kB" ∷ []);
}

no_blockers : any_blocker (detect no_unquote debian_host).1 ≡ false
unfolding any_blocker issues_of cut_at fields_from is_supported parse_uint_value parse_memory_bytes
    detect_console parse_os_release detect_host detect
no_blockers = refl

detect_supports_example :
    ((detect no_unquote debian_host).0.supported ≡ true)
    × (same (detect no_unquote debian_host).0.architecture (text "amd64") ≡ true)
    × (is_supported
          (detect no_unquote debian_host).0.distribution
          (detect no_unquote debian_host).0.version
        ≡ true)
    × (smallest_memory ≤ (detect no_unquote debian_host).0.memory_bytes)
detect_supports_example = detect_supports no_unquote debian_host no_blockers

target_matches : fingerprints_match target target ≡ true
unfolding fingerprints_match has_stable_identity normalize_identity
target_matches = refl

target_has_identity : has_stable_identity target ≡ true
unfolding has_stable_identity normalize_identity
target_has_identity = refl

-- The first scan fails and the second one shows the disk.
abbrev second_scan : Option (List DiskFingerprint)
second_scan = some (target ∷ [])

second-Shows : Shows target target second_scan
second-Shows = (
  target ∷ [],
  refl,
  inl target_has_identity,
  record {
    earlier = [];
    later = [];
    splits = refl;
    matches = target_matches;
    none_earlier = tt;
    none_later = tt;
  },
)

wait_for_fingerprint_finds_example :
    (found : DiskFingerprint) × (shot : Option (List DiskFingerprint)) × (wait_for_fingerprint
        target none
        (second_scan ∷ [])
      ≡ ok found)
    × (shot ∈ (none ∷ second_scan ∷ []))
    × Shows target found shot
wait_for_fingerprint_finds_example =
    wait_for_fingerprint_finds target target second_scan none (second_scan ∷ []) (inr (inl refl))
      second-Shows

-- A printer of texts that are addresses already.
abbrev printer : Printer
printer = record {
  mac_text = λ s. text "02:00:00:00:00:01";
  prefix_text = λ s. text "192.0.2.10/24";
  address_text = λ s. text "192.0.2.53";
  has_zone = λ s. false;
  is_link_local = λ s. false;
}

-- A parser that takes any line for an address without a zone.
abbrev any_line : NetIp
any_line = record any_text { parse_addr = λ s. if one_line s then some s else none }

parse_addr-one_line :
    (s a : Bytes) → (if one_line s then some s else none) ≡ some a → one_line s ≡ true
parse_addr-one_line s a h = elim (Bool-cases (one_line s)) [
  | inl e ↦ e
  | inr e ↦ cc (sym (if-false (some s) none e) ∙ h)
]

documented : Documented any_line printer
documented = record {
  mac = λ s. refl;
  prefix = λ s. refl;
  address = λ s. refl;
  plain = λ s a h z. parse_addr-one_line s a h;
  zone4 = λ a h. refl;
  zone6 = λ s a h. refl;
  zoned = λ s a h z. refl;
}

abbrev static_plan : NetworkPlan
static_plan = record plan {
  ipv4 = record plan.ipv4 {
    mode = text "static";
    addresses = text "192.0.2.10/24" ∷ [];
    gateway = text "192.0.2.1";
  };
}

trimmed : IsTrimmed static_plan
trimmed = record { gateway4 = refl; gateway6 = refl; servers = (refl, tt) }

script_is_made :
    router_os_script printer any_line static_plan
    ≡ ok (join_lines (script_lines printer static_plan))
unfolding router_os_script validate check_mode check_v4_prefixes check_v6_prefixes check_server
    check_servers
script_is_made = refl

router_os_script_lines_example :
    lines_of (join_lines (script_lines printer static_plan)) ≡ script_lines printer static_plan
router_os_script_lines_example =
    router_os_script_lines any_line printer documented static_plan
      (join_lines (script_lines printer static_plan)) trimmed script_is_made
