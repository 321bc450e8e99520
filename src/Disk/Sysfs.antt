-- ===== src/Disk/Sysfs.antt =====
-- internal/disk/fingerprint.go: the identity of a disk from the files of sysfs, and the list of the
-- physical disks.
pub mod Whole
use install_mikrotik_chr_scr.Common.{
  ℕ, zero, suc, ◌+◌, ◌-◌, ◌*◌, ◌/◌, ◌%◌, ◌^◌, Bool, true, false, not, ◌&&◌, ◌||◌, List, [], ◌∷◌,
  ◌++◌, Option, none, some, ltb, leb, ◌==◌, if◌then◌else◌,
}
use install_mikrotik_chr_scr.Common.Text.{Bytes, text, same, is_empty, trim_space, at_most}
use install_mikrotik_chr_scr.Common.Decode.{parse_uint}
use install_mikrotik_chr_scr.Common.Slices.{Run, value, panic, ◌>>=◌}
use install_mikrotik_chr_scr.Model.{DiskFingerprint}
use install_mikrotik_chr_scr.Disk.Vpd.{
  VpdIdentity, parse_vpd83, parse_vpd80, canonical_wwn, text_identifier,
}

-- What the operating system says of an entry of /sys/class/block: the contents of its files, `none`
-- for one that cannot be read, and for the device's directory and each above it, up to the root,
-- the last element of what its link `driver` resolves to.
pub record BlockDir : Type 0 where
  pub is_partition : Bool
  pub has_device : Bool
  pub size : Option Bytes
  pub dev : Option Bytes
  pub device_type : Option Bytes
  pub device_model : Option Bytes
  pub driver_links : List (Option Bytes)
  pub driver_file : Option Bytes
  pub page83 : Option Bytes
  pub page80 : Option Bytes
  pub wwid : Option Bytes
  pub device_wwid : Option Bytes
  pub device_serial : Option Bytes
  pub serial : Option Bytes

abbrev pub read_trim : Option Bytes → Bytes
read_trim none = []
read_trim (some b) = trim_space b

abbrev identifier_or_empty : Option Bytes → Bytes
identifier_or_empty none = []
identifier_or_empty (some v) = v

-- `readIdentityText`.
pub read_identity_text : Option Bytes → Bytes
read_identity_text none = []
read_identity_text (some b) = identifier_or_empty (text_identifier b)

-- `driverFromSysfsDevice`: the loop over at most 16 directories.
abbrev driver_or : Option Bytes → Bytes → Bytes
driver_or none rest = rest
driver_or (some name) rest = if same name (text "driver") then rest else name

pub driver_from_links : ℕ → List (Option Bytes) → Bytes
driver_from_links zero links = []
driver_from_links (suc depth) [] = []
driver_from_links (suc depth) (l ∷ links) = driver_or l (driver_from_links depth links)

-- The sectors; a text that is no number gives 0 and one out of range a number that is too large.
abbrev sectors_of : Option ℕ → ℕ
sectors_of none = 0
sectors_of (some n) = n

abbrev pub size_from_sectors : ℕ → ℕ
size_from_sectors n = if leb n ((2 ^ 64 - 1) / 512) then n * 512 % 2 ^ 64 else 0

pub read_size : Option Bytes → ℕ
read_size f = size_from_sectors (sectors_of (parse_uint (read_trim f)))

abbrev pub read_driver : BlockDir → Bytes
read_driver d =
    let found = driver_from_links 16 d.driver_links in
    if is_empty found then read_identity_text d.driver_file else found

-- The fields that do not depend on the identity.
abbrev pub base_fingerprint : Bytes → BlockDir → DiskFingerprint
base_fingerprint name d = record {
  path = text "/dev/" ++ name;
  kernel_name = name;
  major_minor = read_trim d.dev;
  size_bytes = read_size d.size;
  model = read_identity_text d.device_model;
  serial = [];
  wwn = [];
  transport = [];
  driver = read_driver d;
}

abbrev pub page_of : {A : Type 0} → (Bytes → Run (Option A)) → Option Bytes → Run (Option A)
page_of parse none = value none
page_of parse (some page) = parse page

abbrev pub or_next : Option Bytes → Option Bytes → Option Bytes
or_next none rest = rest
or_next (some v) rest = some v

abbrev unless_empty : Bytes → Option Bytes
unless_empty [] = none
unless_empty (c ∷ s) = some (c ∷ s)

-- The last loop: the first serial that is not empty.
abbrev pub with_serial_file : BlockDir → DiskFingerprint → DiskFingerprint
with_serial_file d f = record f {
  serial = identifier_or_empty (
      or_next (unless_empty (read_identity_text d.device_serial))
        (unless_empty (read_identity_text d.serial)));
}

abbrev pub after_page80 : BlockDir → DiskFingerprint → Option Bytes → DiskFingerprint
after_page80 d f (some v) = record f { serial = v }
after_page80 d f none = with_serial_file d f

-- What follows the loop over the two `wwid` files.
abbrev pub after_wwid : BlockDir → DiskFingerprint → Option Bytes → Run DiskFingerprint
after_wwid d f (some v) = value (record f { wwn = v })
after_wwid d f none = do serial ← page_of parse_vpd80 d.page80; value (after_page80 d f serial)

-- What follows page 0x83.
abbrev pub after_page83 : BlockDir → DiskFingerprint → Option VpdIdentity → Run DiskFingerprint
after_page83 d f (some i) = value (record f { serial = i.serial; wwn = i.wwn })
after_page83 d f none = after_wwid d f (
    or_next (canonical_wwn (read_identity_text d.wwid))
      (canonical_wwn (read_identity_text d.device_wwid)))

pub fingerprint_from_sysfs : Bytes → BlockDir → Run DiskFingerprint
fingerprint_from_sysfs name d = do
  identity ← page_of parse_vpd83 d.page83
  after_page83 d (base_fingerprint name d) identity

-- The tests of the loop of `SysfsDisks` before the fingerprint is taken.
abbrev pub is_candidate : BlockDir → Bool
is_candidate d =
    not d.is_partition
    && d.has_device
    && (is_empty (read_trim d.device_type) || same (read_trim d.device_type) (text "0"))

abbrev pub keep_sized : DiskFingerprint → List DiskFingerprint → List DiskFingerprint
keep_sized f fs = if f.size_bytes == 0 then fs else f ∷ fs

-- The fingerprint of an entry that passes them is taken before the rest is read.
abbrev pub with_entry :
    Bool → Run DiskFingerprint → Run (List DiskFingerprint) → Run (List DiskFingerprint)
with_entry false fingerprint rest = rest
with_entry true fingerprint rest = do f ← fingerprint; fs ← rest; value (keep_sized f fs)

pub collect_disks : List (Bytes × BlockDir) → Run (List DiskFingerprint)
collect_disks [] = value []
collect_disks ((name, d) ∷ entries) =
    with_entry (is_candidate d) (fingerprint_from_sysfs name d) (collect_disks entries)

-- `sort.Slice` by the kernel name.
pub insert_fingerprint : DiskFingerprint → List DiskFingerprint → List DiskFingerprint
insert_fingerprint f [] = f ∷ []
insert_fingerprint f (g ∷ gs) =
    let rest = insert_fingerprint f gs in
    if at_most f.kernel_name g.kernel_name then f ∷ g ∷ gs else g ∷ rest

pub sort_fingerprints : List DiskFingerprint → List DiskFingerprint
sort_fingerprints [] = []
sort_fingerprints (f ∷ fs) = insert_fingerprint f (sort_fingerprints fs)

-- `SysfsDisks`, of the entries of the directory if it can be read.
pub sysfs_disks : Option (List (Bytes × BlockDir)) → Run (Option (List DiskFingerprint))
sysfs_disks none = value none
sysfs_disks (some entries) = do fs ← collect_disks entries; value (some (sort_fingerprints fs))
