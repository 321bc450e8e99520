-- ===== src/Tests/Plans.antt =====
-- The network plan, the manifest and the report on concrete inputs.
use install_mikrotik_chr_scr.Common.{
  ◌*◌, ◌≡◌, ◌≢◌, ◌↔◌, ◌⊎◌, refl, Bool, true, false, not, [], ◌∷◌, Option, none, some, ◌==◌,
  if◌then◌else◌, length, replicate, ok, arith,
}
use install_mikrotik_chr_scr.Common.Text.{Bytes, text, is_empty, has_prefix}
use install_mikrotik_chr_scr.Common.Int.{ℤ, pos, ◌-ℤ◌, ◌+ℤ◌, ◌*ℤ◌}
use install_mikrotik_chr_scr.Model.{
  verified, unset, Host, Disk, DiskFingerprint, InstallMethod, Ipv4Plan, Ipv6Plan, NetworkPlan,
  Release, any_blocker, blocked,
}
use install_mikrotik_chr_scr.Network.Address.{NetIp}
use install_mikrotik_chr_scr.Network.Validate.{validate}
use install_mikrotik_chr_scr.Network.Validate.Spec.{IsValidPlan, validate_iff}
use install_mikrotik_chr_scr.Install.Manifest.{
  Manifest, validate_manifest, validate_timestamp, measured_rtc_offset, second, adjusted_clock,
}
use install_mikrotik_chr_scr.Install.Manifest.Clock.{
  InWindow, OffsetIsUsable, validate_timestamp_iff, skewed_clock_passes,
}
use install_mikrotik_chr_scr.Install.Manifest.Valid.{IsAuthorization, validate_manifest_iff}
use install_mikrotik_chr_scr.Preflight.{run_preflight}
use install_mikrotik_chr_scr.App.{same_install_target, same_install_target-agrees}
use install_mikrotik_chr_scr.Disk.Match.{fingerprints_match, normalize_identity}
use install_mikrotik_chr_scr.Disk.Match.Policy.{IdentityAgrees, DriverAgrees}
use install_mikrotik_chr_scr.Preflight.Blocked.{IsBootable, run_preflight-blocked_iff}

abbrev has_colon : Bytes → Bool
has_colon [] = false
has_colon (c ∷ cs) = if c == b':' then true else has_colon cs

abbrev non_empty : Bytes → Option Bytes
non_empty s = if is_empty s then none else some s

-- A parser that takes any text for an address, of version 6 if it has a colon.
abbrev pub any_text : NetIp
any_text = record {
  Addr = Bytes;
  parse_addr = non_empty;
  parse_prefix = non_empty;
  is4 = λ a. not (has_colon a);
  is6 = has_colon;
  is_link_local = has_prefix (text "fe80");
  zone = λ a. [];
  parse_mac = λ s. if length s == 17 then some (replicate 6 0) else none;
}

abbrev dhcp_plan : Ipv4Plan
dhcp_plan = record {
  mode = text "dhcp";
  addresses = [];
  gateway = [];
  gateway_on_link = false;
  use_peer_dns = true;
  evidence = verified;
}

abbrev no_ipv6 : Ipv6Plan
no_ipv6 = record {
  slaac = false;
  dhcp = false;
  addresses = [];
  gateway = [];
  gateway_on_link = false;
  use_peer_dns = false;
  evidence = unset;
}

abbrev pub plan : NetworkPlan
plan = record {
  interface_name = text "eth0";
  mac = text "02:00:00:00:00:01";
  driver = text "virtio_net";
  mtu = 1500;
  ipv4 = dhcp_plan;
  ipv6 = no_ipv6;
  dns = text "192.0.2.53" ∷ [];
  dhcp_probe = record {
    attempted = false;
    offered = false;
    address = [];
    server = [];
    message = [];
  };
  evidence = verified;
  sources = [];
}

abbrev pub target : DiskFingerprint
target = record {
  path = text "/dev/sda";
  kernel_name = text "sda";
  major_minor = text "8:0";
  size_bytes = 4;
  model = text "disk";
  serial = text "serial-1";
  wwn = [];
  transport = [];
  driver = text "sd";
}

abbrev pub release : Release
release = record {
  version = text "7.21.5";
  image_url = text "url";
  checksum_url = text "url.sha256";
  checksum = text "0";
  tested = true;
  uefi_boot = false;
  compatibility = [];
}

-- A manifest made at 10 ^ 18 nanoseconds, when the RTC was two hours behind the clock.
abbrev pub manifest : Manifest
manifest = record {
  schema = 1;
  created_at = pos 1_000_000_000_000_000_000;
  rtc_offset = pos 7200;
  disk = target;
  image_path = text "/chr-install/chr.img";
  image_sha256 = replicate 64 b'3';
  image_size = pos 3;
  release = release;
  network = plan;
}

validate_iff_example : (validate any_text plan ≡ ok tt) ↔ IsValidPlan any_text plan
validate_iff_example = validate_iff any_text plan

abbrev pub now : ℤ
now = pos 1_000_000_000_000_000_100

validate_manifest_iff_example :
    (validate_manifest any_text now manifest ≡ ok tt) ↔ IsAuthorization any_text now manifest
validate_manifest_iff_example = validate_manifest_iff any_text now manifest

validate_timestamp_iff_example : (validate_timestamp manifest now ≡ ok tt) ↔ (
    (manifest.created_at ≢ pos 0)
    × (InWindow manifest.created_at now
        ⊎ (OffsetIsUsable manifest.rtc_offset
            × InWindow manifest.created_at (adjusted_clock manifest now))))
validate_timestamp_iff_example = validate_timestamp_iff manifest now

-- The time that the writer reads from the RTC, a minute after the manifest was made.
abbrev skewed_clock : ℤ
skewed_clock = manifest.created_at -ℤ (pos 7200 -ℤ pos 0) *ℤ pos second +ℤ pos (60 * second)

skewed_clock_passes_example : validate_timestamp manifest skewed_clock ≡ ok tt
unfolding ◌-ℤ◌ measured_rtc_offset
skewed_clock_passes_example =
    skewed_clock_passes manifest (pos 7200) (pos 0) skewed_clock (60 * second) (λ e. cc) refl
      (omega arith) (omega arith) (omega arith) refl

abbrev host : Host
host = record {
  distribution = text "debian";
  version = text "12";
  architecture = text "amd64";
  kernel = text "6.1";
  firmware = text "BIOS";
  console = [];
  memory_bytes = 2_000_000_000;
  supported = true;
}

abbrev disk : Disk
disk = record {
  fingerprint = target;
  root_backed = true;
  mounted = true;
  method = InstallMethod.kexec;
  kernel_path = text "/boot/vmlinuz-6.1";
  initrd_path = text "/boot/initrd.img-6.1";
  has_kexec = true;
  has_grub = false;
}

run_preflight-blocked_iff_example :
    (blocked (run_preflight (host, []) (λ t. true) (disk, []) (plan, []) (ok release)) ≡ false) ↔ (
      (any_blocker [] ≡ false)
      × (any_blocker [] ≡ false)
      × (any_blocker [] ≡ false)
      × (true ≡ true)
      × (true ≡ true)
      × IsBootable host (ok release))
run_preflight-blocked_iff_example =
    run_preflight-blocked_iff (host, []) (λ t. true) (disk, []) (plan, []) (ok release)

same_target : same_install_target disk disk ≡ true
unfolding same_install_target fingerprints_match normalize_identity
same_target = refl

same_install_target-agrees_example :
    (true ≡ true)
    × (disk.method ≡ disk.method)
    × (target.size_bytes ≢ 0)
    × (target.size_bytes ≡ target.size_bytes)
    × IdentityAgrees target target
    × DriverAgrees target target
same_install_target-agrees_example = same_install_target-agrees disk disk same_target
