-- ===== src/Disk/Detect/Target.antt =====
-- What a detection without a blocker has found.
use install_mikrotik_chr_scr.Common.{
  ◌≡◌, ◌⊎◌, ◌∈◌, true, false, List, [], ◌∷◌, ◌++◌, none, some, decoded,
}
use install_mikrotik_chr_scr.Common.Text.{Bytes, text, has}
use install_mikrotik_chr_scr.Common.Slices.{Run, value}
use install_mikrotik_chr_scr.Model.{
  DiskFingerprint, Disk, direct, kexec, grub, Issue, blocks_if, issues_of, any_blocker,
}
use install_mikrotik_chr_scr.Disk.Graph.{
  BlockNode, Forest, DiskGraph, parse_graph, lookup_node, is_disk, safe_kinds,
}
use install_mikrotik_chr_scr.Disk.Graph.Closure.{Above}
use install_mikrotik_chr_scr.Disk.Graph.Listing.{OneKind}
use install_mikrotik_chr_scr.Disk.Detect.Fit.{IsFit}
use install_mikrotik_chr_scr.Disk.Sysfs.{read_size}
use install_mikrotik_chr_scr.Disk.Detect.{
  DiskHost, inspect_grub_environment, kexec_usable, grub_tools, target_issues, no_disk,
  stage_if_backed, is_rescue_target, any_text,
}

-- The target holds the root file system: the disks above the root's device are this one alone, all
-- the layers between are of supported types, and the writer can be built and booted.
pub record IsRootDisk (h : DiskHost) (g : DiskGraph) (source : Bytes) (n : BlockNode) (d : Disk)
    : Type 0 where
  pub root : BlockNode
  pub holds_root : lookup_node g source ≡ some root
  pub above : Above g.parents root n × (is_disk n ≡ true)
  pub sole : (m : BlockNode) → Above g.parents root m → is_disk m ≡ true → m.kname ≡ n.kname
  pub layers : (m : BlockNode) → Above g.parents root m → has m.kind safe_kinds ≡ true
  pub kernel : h.is_file d.kernel_path ≡ true
  pub initrd : h.is_file d.initrd_path ≡ true
  pub builder : (h.on_path (text "mkinitramfs") ≡ true) × (h.on_path (text "lsinitramfs") ≡ true)
  pub method :
      ((d.method ≡ kexec) × (kexec_usable h ≡ true))
      ⊎ ((d.method ≡ grub) × (grub_tools h ≡ true) × (inspect_grub_environment h ≡ true))

-- The target is the only disk of a rescue system that can be written: no other one is writable, not
-- removable and without a mounted node.
pub record IsRescueDisk (g : DiskGraph) (source : Bytes) (n : BlockNode) (d : Disk) : Type 0 where
  pub no_root : lookup_node g source ≡ none
  pub candidate : (n ∈ g.disks) × (is_rescue_target g n ≡ true)
  pub sole : (m : BlockNode) → m ∈ g.disks → is_rescue_target g m ≡ true → m ≡ n
  pub method : d.method ≡ direct

pub record IsTarget (h : DiskHost) (g : DiskGraph) (d : Disk) : Type 0 where
  pub source : Bytes
  pub node : BlockNode
  pub named : d.fingerprint.kernel_name ≡ node.kname
  pub sized : d.fingerprint.size_bytes ≡ read_size (h.sysfs node.kname).size
  pub fit : IsFit g node d.fingerprint
  pub way : IsRootDisk h g source node d ⊎ IsRescueDisk g source node d

-- The detection returns, and without a blocker it has found a target.
abbrev Finds : DiskHost → DiskGraph → Run (Disk × List Issue) → Type 0
Finds h g r =
    (d : Disk) × (is : List Issue) × (r ≡ value (d, is)) × (any_blocker is ≡ false → IsTarget h g d)

abbrev inspected :
    DiskHost → DiskGraph → Disk → List Issue → BlockNode → DiskFingerprint → Disk × List Issue
inspected h g d is n f =
    stage_if_backed h d.root_backed (record d { fingerprint = f })
      (is ++ target_issues g n f d.root_backed)

abbrev root_disk : Disk
root_disk = record no_disk { root_backed = true; mounted = true }

abbrev stack_issues : List Issue → List Bytes → List Issue
stack_issues is kinds =
    (is ++ issues_of (blocks_if (any_text kinds) (text "disk-stack") ∷ [])) ++ []

-- The nodes of one kernel name in the listing have one type.
abbrev pub HasOneKind : DiskHost → Type 0
HasOneKind h = (devices : Forest) → h.lsblk ≡ decoded devices → OneKind devices

abbrev FindsIn : DiskHost → Run (Disk × List Issue) → Type 0
FindsIn h r =
    (d : Disk) × (is : List Issue) × (r ≡ value (d, is))
    × (any_blocker is ≡ false
        → (devices : Forest) × (h.lsblk ≡ decoded devices)
          × IsTarget h (parse_graph devices h.map_order) d)
