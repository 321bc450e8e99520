-- ===== src/Tests/Disks.antt =====
-- The detection of the disks on a concrete host: one disk, of which a partition holds the root.
use install_mikrotik_chr_scr.Common.{
  ◌≡◌, ◌≢◌, refl, sym, ap, ◌∙◌, ◌⊎◌, inl, inr, true, false, List, [], ◌∷◌, none, some, decoded, map,
}
use install_mikrotik_chr_scr.Common.Text.{Bytes, text, cut_at}
use install_mikrotik_chr_scr.Common.Slices.{value}
use install_mikrotik_chr_scr.Model.{DiskFingerprint, Disk}
use install_mikrotik_chr_scr.Disk.Graph.{
  BlockNode, Forest, tree, leaf, grow, parse_graph, lookup_node, link_parents, walk, enter_node,
  connect, append_unique, backing_disks,
}
use install_mikrotik_chr_scr.Disk.Graph.Sole.{IsBacking, backing_disks-IsBacking}
use install_mikrotik_chr_scr.Disk.Graph.Listing.{InTree, InForest, OneKind, lookup_node-SameKinds}
use install_mikrotik_chr_scr.Disk.Sysfs.{BlockDir, sysfs_disks}
use install_mikrotik_chr_scr.Disk.Sysfs.Whole.{IsListing, sysfs_disks-IsListing}
use install_mikrotik_chr_scr.Disk.Detect.{DiskHost}

abbrev sda : BlockNode
sda = record {
  name = text "sda";
  kname = text "sda";
  path = text "/dev/sda";
  kind = text "disk";
  pkname = [];
  size = 1073741824;
  transport = text "sata";
  major_minor = text "8:0";
  read_only = false;
  removable = false;
  mountpoints = none ∷ [];
}

abbrev sda1 : BlockNode
sda1 = record {
  name = text "sda1";
  kname = text "sda1";
  path = text "/dev/sda1";
  kind = text "part";
  pkname = text "sda";
  size = 1072693248;
  transport = [];
  major_minor = text "8:1";
  read_only = false;
  removable = false;
  mountpoints = some (text "/") ∷ [];
}

abbrev devices : Forest
devices = grow (tree sda (grow (tree sda1 leaf) leaf)) leaf

abbrev values : List (Bytes × BlockNode) → List BlockNode
values m = map (λ p. p.1) m

abbrev sda_dir : BlockDir
sda_dir = record {
  is_partition = false;
  has_device = true;
  size = some (text "2097152\n");
  dev = some (text "8:0\n");
  device_type = some (text "0\n");
  device_model = some (text "QEMU HARDDISK   ");
  driver_links = none ∷ some (text "sd") ∷ [];
  driver_file = none;
  page83 = none;
  page80 = none;
  wwid = none;
  device_wwid = none;
  device_serial = some (text "S1\n");
  serial = none;
}

abbrev partition_dir : BlockDir
partition_dir = record sda_dir { is_partition = true }

abbrev host : DiskHost
host = record {
  findmnt = decoded ((text "/dev/sda1", text "ext4") ∷ []);
  readlink = λ s. some s;
  lsblk = decoded devices;
  map_order = values;
  sysfs = λ s. sda_dir;
  uname = some (text "6.1.0\n");
  is_file = λ s. true;
  on_path = λ s. true;
  secure_boot_files = [];
  kexec_load_disabled = none;
  grub_probe = λ s. none;
}

in_devices : (n : BlockNode) → InForest n devices → (n ≡ sda) ⊎ (n ≡ sda1)
unfolding InTree InForest
in_devices n (inl (inl a)) = inl a
in_devices n (inl (inr (inl (inl a)))) = inr a
in_devices n (inl (inr (inl (inr a)))) = absurd a
in_devices n (inl (inr (inr a))) = absurd a
in_devices n (inr a) = absurd a

one_kind : OneKind devices
one_kind n m i j e = go (in_devices n i) (in_devices m j)
  where
    differ : text "sda" ≢ text "sda1"
    differ q = cc q

    go : (n ≡ sda) ⊎ (n ≡ sda1) → (m ≡ sda) ⊎ (m ≡ sda1) → n.kind ≡ m.kind
    go (inl a) (inl b) = cc (a, b)
    go (inr a) (inr b) = cc (a, b)
    go (inl a) (inr b) = absurd (differ (sym (ap (λ t. t.kname) a) ∙ e ∙ ap (λ t. t.kname) b))
    go (inr a) (inl b) = absurd (differ (sym (ap (λ t. t.kname) b) ∙ sym e ∙ ap (λ t. t.kname) a))

found : lookup_node (parse_graph devices values) (text "/dev/sda1") ≡ some sda1
unfolding lookup_node parse_graph link_parents walk enter_node connect append_unique cut_at
found = refl

backing_disks-IsBacking_example :
    IsBacking
      (parse_graph devices values)
      sda1
      (lookup_node-SameKinds devices values (text "/dev/sda1") sda1 one_kind found)
      (backing_disks (parse_graph devices values) sda1).0
      (backing_disks (parse_graph devices values) sda1).1
backing_disks-IsBacking_example =
    backing_disks-IsBacking (parse_graph devices values) sda1
      (lookup_node-SameKinds devices values (text "/dev/sda1") sda1 one_kind found)

abbrev entries : List (Bytes × BlockDir)
entries = (text "sda", sda_dir) ∷ (text "sda1", partition_dir) ∷ []

sysfs_disks-IsListing_example :
    (fs : List DiskFingerprint) × (sysfs_disks (some entries) ≡ value (some fs))
    × IsListing entries fs
sysfs_disks-IsListing_example = sysfs_disks-IsListing entries
