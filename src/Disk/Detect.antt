-- ===== src/Disk/Detect.antt =====
-- internal/disk/detect.go: the choice of the disk that is written, and of the way to boot the writer.
-- The root directory is `/`.
pub mod Fit
pub mod Target
use install_mikrotik_chr_scr.Common.{
  ℕ, zero, suc, ◌+◌, ◌*◌, ◌^◌, Bool, true, false, not, ◌&&◌, ◌||◌, List, [], ◌∷◌, ◌++◌, Option,
  none, some, ltb, leb, ◌==◌, if◌then◌else◌, length, get_or, Answer, failed, garbled, decoded,
}
use install_mikrotik_chr_scr.Common.Text.{
  Bytes, text, same, is_empty, trim_space, to_lower, has_prefix, contains, same_fold, has,
  canonical_driver,
}
use install_mikrotik_chr_scr.Common.Decode.{parse_uint_value}
use install_mikrotik_chr_scr.Common.Slices.{Run, value, panic, ◌>>=◌}
use install_mikrotik_chr_scr.Model.{
  DiskFingerprint, Disk, InstallMethod, direct, kexec, grub, unset, Severity, info, warning,
  blocker, Issue, note, Check, blocks_if, notes_if, issues_of,
}
use install_mikrotik_chr_scr.Disk.Graph.{
  BlockNode, Forest, DiskGraph, parse_graph, lookup_node, backing_disks, has_mounted_descendant,
}
use install_mikrotik_chr_scr.Disk.Sysfs.{BlockDir, fingerprint_from_sysfs}

-- What the host answers: the commands, the files, and the order in which Go goes through the map of
-- the nodes.
pub record DiskHost : Type 0 where
  pub findmnt : Answer (List (Bytes × Bytes))
  pub readlink : Bytes → Option Bytes
  pub lsblk : Answer Forest
  pub map_order : List (Bytes × BlockNode) → List BlockNode
  pub sysfs : Bytes → BlockDir
  pub uname : Option Bytes
  pub is_file : Bytes → Bool
  pub on_path : Bytes → Bool
  pub secure_boot_files : List (Option Bytes)
  pub kexec_load_disabled : Option Bytes
  pub grub_probe : Bytes → Option Bytes

-- `fingerprint`.
pub target_fingerprint : DiskHost → BlockNode → Run DiskFingerprint
target_fingerprint h n = do
  f ← fingerprint_from_sysfs n.kname (h.sysfs n.kname)
  value (record f {
    path = if is_empty n.path then text "/dev/" ++ n.kname else n.path;
    transport = trim_space n.transport;
  })

pub supported_storage_driver : Bytes → Bool
supported_storage_driver driver = has (canonical_driver driver) (
    text "sd"
    ∷ text "virtio_blk"
    ∷ text "virtio_scsi"
    ∷ text "nvme"
    ∷ text "xen_blkfront"
    ∷ text "hv_storvsc"
    ∷ text "ata_piix"
    ∷ text "ahci"
    ∷ text "mptspi"
    ∷ text "mptsas"
    ∷ text "vmw_pvscsi"
    ∷ text "pvscsi"
    ∷ [])

pub supported_kernel_name : Bytes → Bool
unfolding contains
supported_kernel_name name =
    has_prefix (text "sd") name
    || has_prefix (text "vd") name
    || has_prefix (text "xvd") name
    || (has_prefix (text "nvme") name && not (contains (text "p") name))

pub is_live_filesystem : Bytes → Bytes → Bool
is_live_filesystem source kind =
    not (has_prefix (text "/dev/") source)
    && has (to_lower kind)
        (text "overlay" ∷ text "squashfs" ∷ text "tmpfs" ∷ text "ramfs" ∷ text "rootfs" ∷ [])

-- `inspectGRUBEnvironment`, without the reason.
abbrev probe_is : Bytes → Option Bytes → Bool
probe_is wanted none = false
probe_is wanted (some out) = same (trim_space out) wanted

pub inspect_grub_environment : DiskHost → Bool
inspect_grub_environment h =
    probe_is (text "ext2") (h.grub_probe (text "fs"))
    && probe_is [] (h.grub_probe (text "abstraction"))

-- `secureBootEnabled`: one of the files that can be read has 1 at its fifth byte.
pub secure_boot_enabled : List (Option Bytes) → Bool
secure_boot_enabled [] = false
secure_boot_enabled (none ∷ files) = secure_boot_enabled files
secure_boot_enabled (some d ∷ files) =
    (leb 5 (length d) && get_or d 4 0 == 1) || secure_boot_enabled files

-- Whether `strconv.Atoi` gives a value other than 0: it reads what follows one sign like
-- `strconv.ParseUint`, and gives the nearest bound for a number that is out of range.
abbrev without_sign : Bytes → Bytes
without_sign [] = []
without_sign (c ∷ s) = if c == b'-' || c == b'+' then s else c ∷ s

abbrev is_nonzero_number : Bytes → Bool
unfolding parse_uint_value
is_nonzero_number s = not (parse_uint_value (without_sign s) == 0)

pub kexec_disabled : Option Bytes → Bool
kexec_disabled none = false
kexec_disabled (some d) = is_nonzero_number (trim_space d)

-- `configureStaging`: the disk with what was found, and the issues that are added.
abbrev pub chosen_method : InstallMethod → Bool → Bool → InstallMethod
chosen_method m true has_grub = kexec
chosen_method m false true = grub
chosen_method m false false = m

abbrev severity_if : Bool → Severity
severity_if true = warning
severity_if false = blocker

abbrev pub kexec_usable : DiskHost → Bool
kexec_usable h =
    h.on_path (text "kexec")
    && not (secure_boot_enabled h.secure_boot_files)
    && not (kexec_disabled h.kexec_load_disabled)

abbrev pub grub_tools : DiskHost → Bool
grub_tools h =
    h.on_path (text "grub-reboot")
    && h.on_path (text "update-grub")
    && h.on_path (text "grub-probe")
    && h.on_path (text "grub-editenv")

abbrev pub kernel_of : Bytes → Bytes
kernel_of release = text "/boot/vmlinuz-" ++ trim_space release

abbrev pub initrd_of : Bytes → Bytes
initrd_of release = text "/boot/initrd.img-" ++ trim_space release

abbrev pub staging_for : DiskHost → Disk → Option Bytes → Disk × List Issue
staging_for h d none = (d, note blocker (text "kernel") ∷ [])
staging_for h d (some release) =
    let has_kexec = kexec_usable h in
    let environment = inspect_grub_environment h in
    let has_grub = grub_tools h && environment in
    (
      record d {
        kernel_path = kernel_of release;
        initrd_path = initrd_of release;
        has_kexec = has_kexec;
        has_grub = has_grub;
        method = chosen_method d.method has_kexec has_grub;
      },
      issues_of (
          blocks_if (not (h.is_file (kernel_of release))) (text "kernel")
          ∷ blocks_if (not (h.is_file (initrd_of release))) (text "initramfs")
          ∷ blocks_if (not (h.on_path (text "mkinitramfs"))) (text "initramfs-builder")
          ∷ blocks_if (not (h.on_path (text "lsinitramfs"))) (text "initramfs-inspector")
          ∷ notes_if (grub_tools h && not environment) (severity_if has_kexec)
              (text "grub-one-shot")
          ∷ blocks_if (not (has_kexec || has_grub)) (text "staging")
          ∷ []),
    )

pub configure_staging : DiskHost → Disk → Disk × List Issue
configure_staging h d = staging_for h d h.uname

abbrev pub smallest_disk : ℕ
smallest_disk = 256 * 1024 * 1024

-- The issues of the chosen disk, in their order.
abbrev pub target_checks : DiskGraph → BlockNode → DiskFingerprint → Bool → List Check
target_checks g n f backed =
    let no_identity = is_empty f.serial && is_empty f.wwn in
    blocks_if (f.size_bytes == 0) (text "disk-metadata")
    ∷ blocks_if (not (f.size_bytes == 0) && not (n.size == 0) && not (n.size == f.size_bytes))
        (text "disk-metadata")
    ∷ blocks_if (is_empty f.major_minor) (text "disk-metadata")
    ∷ blocks_if
        (not (is_empty f.major_minor)
          && not (is_empty n.major_minor)
          && not (same n.major_minor f.major_minor))
        (text "disk-metadata")
    ∷ blocks_if (ltb f.size_bytes smallest_disk) (text "disk-size")
    ∷ blocks_if (not (supported_kernel_name n.kname)) (text "disk-driver")
    ∷ blocks_if (is_empty f.driver) (text "disk-driver")
    ∷ blocks_if (not (is_empty f.driver) && not (supported_storage_driver f.driver))
        (text "disk-driver")
    ∷ blocks_if (no_identity && not (length g.disks == 1)) (text "disk-identity")
    ∷ notes_if (no_identity && length g.disks == 1) warning (text "disk-identity")
    ∷ notes_if (ltb 1 (length g.disks) && backed) warning (text "extra-disks")
    ∷ []

pub target_issues : DiskGraph → BlockNode → DiskFingerprint → Bool → List Issue
unfolding issues_of
target_issues g n f backed = issues_of (target_checks g n f backed)

abbrev pub no_fingerprint : DiskFingerprint
no_fingerprint = record {
  path = [];
  kernel_name = [];
  major_minor = [];
  size_bytes = 0;
  model = [];
  serial = [];
  wwn = [];
  transport = [];
  driver = [];
}

abbrev pub no_disk : Disk
no_disk = record {
  fingerprint = no_fingerprint;
  root_backed = false;
  mounted = false;
  method = unset;
  kernel_path = [];
  initrd_path = [];
  has_kexec = false;
  has_grub = false;
}

-- What follows the choice of the disk. The disk is never nil there.
abbrev pub with_issues : List Issue → Disk × List Issue → Disk × List Issue
with_issues is (d, more) = (d, is ++ more)

abbrev pub stage_if_backed : DiskHost → Bool → Disk → List Issue → Disk × List Issue
stage_if_backed h true d is = with_issues is (configure_staging h d)
stage_if_backed h false d is = (d, is)

pub inspect_target : DiskHost → DiskGraph → Disk → List Issue → BlockNode → Run (Disk × List Issue)
inspect_target h g d is n = do
  f ← target_fingerprint h n
  value (
      stage_if_backed h d.root_backed (record d { fingerprint = f })
        (is ++ target_issues g n f d.root_backed))

-- The disks that a rescue system can write.
abbrev pub is_rescue_target : DiskGraph → BlockNode → Bool
is_rescue_target g n = not n.read_only && not n.removable && not (has_mounted_descendant g n)

pub rescue_targets : DiskGraph → List BlockNode → List BlockNode
rescue_targets g [] = []
rescue_targets g (n ∷ ns) =
    let rest = rescue_targets g ns in if is_rescue_target g n then n ∷ rest else rest

-- A blocker that ends the detection.
abbrev pub give_up : List Issue → Bytes → Run (Disk × List Issue)
give_up is code = value (no_disk, is ++ note blocker code ∷ [])

abbrev pub inspect_sole :
    DiskHost → DiskGraph → Disk → List Issue → List Issue → List BlockNode → Run (Disk × List Issue)
inspect_sole h g d is more [] = give_up is (text "disk-ambiguity")
inspect_sole h g d is more (n ∷ []) = inspect_target h g d (is ++ more) n
inspect_sole h g d is more (n ∷ m ∷ ns) = give_up is (text "disk-ambiguity")

abbrev pub any_text : List Bytes → Bool
any_text [] = false
any_text (t ∷ ts) = true

-- The two ways in which the target is found: below the root, or as the only disk that can be
-- written.
pub find_target :
    DiskHost → DiskGraph → List Issue → Bytes → Bytes → Option BlockNode → Run (Disk × List Issue)
find_target h g is source kind (some n) =
    let (disks, kinds) = backing_disks g n in
    inspect_sole h g (record no_disk { root_backed = true; mounted = true })
      (is ++ issues_of (blocks_if (any_text kinds) (text "disk-stack") ∷ [])) [] disks
find_target h g is source kind none =
    if is_live_filesystem source kind
    then inspect_sole h g (record no_disk { method = direct }) is (note info (text "rescue") ∷ [])
        (rescue_targets g g.disks)
    else give_up is (text "root-device")

abbrev pub resolved : Bytes → Option Bytes → Bytes
resolved source none = source
resolved source (some out) = trim_space out

pub resolve_source : DiskHost → Bytes → Bytes
resolve_source h source =
    if has_prefix (text "/dev/") source then resolved source (h.readlink source) else source

abbrev pub with_devices :
    DiskHost → List Issue → Bytes → Bytes → Answer Forest → Run (Disk × List Issue)
with_devices h is source kind failed = give_up [] (text "block-devices")
with_devices h is source kind garbled = give_up [] (text "block-devices")
with_devices h is source kind (decoded devices) =
    let g = parse_graph devices h.map_order in find_target h g is source kind (lookup_node g source)

abbrev pub with_mounts : DiskHost → Answer (List (Bytes × Bytes)) → Run (Disk × List Issue)
with_mounts h failed = give_up [] (text "root-device")
with_mounts h garbled = give_up [] (text "root-device")
with_mounts h (decoded []) = give_up [] (text "root-device")
with_mounts h (decoded ((source, kind) ∷ [])) =
    with_devices h (issues_of (blocks_if (same_fold kind (text "btrfs")) (text "disk-stack") ∷ []))
      (resolve_source h source) kind h.lsblk
with_mounts h (decoded (m ∷ n ∷ ms)) = give_up [] (text "root-device")

-- `Detect`.
pub detect : DiskHost → Run (Disk × List Issue)
detect h = with_mounts h h.findmnt
