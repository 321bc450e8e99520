-- ===== src/Mikrotik/Mbr.antt =====
-- internal/mikrotik/image.go, `Inspect`: the partition table of the raw CHR image.
pub mod Sound
pub mod Complete
pub mod Sort
use install_mikrotik_chr_scr.Common.{
  ℕ, zero, suc, ◌+◌, ◌*◌, Bool, true, false, not, ◌&&◌, ◌||◌, List, [], ◌∷◌, ◌++◌, Option, none,
  some, ltb, leb, ◌==◌, if◌then◌else◌, length, get_or, Result, ok, err, ◌>>=◌, ◌>>◌, refuse_if,
}
use install_mikrotik_chr_scr.Common.Text.{Bytes}

abbrev pub sector_size : ℕ
sector_size = 512

pub record Partition : Type 0 where
  pub index : ℕ
  pub type_id : ℕ
  pub bootable : Bool
  pub start_sector : ℕ
  pub sectors : ℕ
  pub offset_bytes : ℕ
  pub size_bytes : ℕ

pub record Layout : Type 0 where
  pub partitions : List Partition
  pub autorun_partition : ℕ

pub data InspectError : Type 0 where
  open_failed stat_failed short_read no_signature no_partitions : InspectError
  bad_boot_flag outside_image : ℕ → InspectError
  overlap : ℕ → ℕ → InspectError

-- What the operating system gives for the path: `os.Open` or `Stat` fails, or a regular file.
pub data ImageFile : Type 0 where
  no_open no_stat : ImageFile
  file : Bytes → ImageFile

-- `binary.LittleEndian.Uint32(sector[at:at+4])`.
abbrev pub u32_le : Bytes → ℕ → ℕ
u32_le b i =
    get_or b i 0
    + 256 * get_or b (i + 1) 0
    + 65536 * get_or b (i + 2) 0
    + 16777216 * get_or b (i + 3) 0

abbrev pub entry_offset : ℕ → ℕ
entry_offset i = 446 + i * 16

-- The partition that the entry describes, once its checks have passed.
abbrev pub entry_partition : Bytes → ℕ → Partition
entry_partition b i = record {
  index = i + 1;
  type_id = get_or b (entry_offset i + 4) 0;
  bootable = get_or b (entry_offset i) 0 == 128;
  start_sector = u32_le b (entry_offset i + 8);
  sectors = u32_le b (entry_offset i + 12);
  offset_bytes = u32_le b (entry_offset i + 8) * sector_size;
  size_bytes = u32_le b (entry_offset i + 12) * sector_size;
}

-- `partitionType == 0 || sectors == 0`.
abbrev pub is_unused : Partition → Bool
is_unused p = p.type_id == 0 || p.sectors == 0

abbrev pub flag_is_bad : ℕ → Bool
flag_is_bad flag = not (flag == 0) && not (flag == 128)

abbrev pub is_outside : Partition → ℕ → Bool
is_outside p size = ltb p.offset_bytes sector_size || ltb size (p.offset_bytes + p.size_bytes)

-- One round of the loop over the four entries: `none` is `continue`.
unfoldable pub read_entry : Bytes → ℕ → ℕ → Result InspectError (Option Partition)
read_entry b size i =
    let p = entry_partition b i in
    if is_unused p
    then ok none
    else if flag_is_bad (get_or b (entry_offset i) 0)
    then err (bad_boot_flag (i + 1))
    else if is_outside p size
    then err (outside_image p.index)
    else ok (some p)

abbrev pub append_entry : List Partition → Option Partition → List Partition
append_entry ps none = ps
append_entry ps (some p) = ps ++ p ∷ []

-- The loop, with the number of rounds left.
unfoldable pub read_entries :
    Bytes → ℕ → ℕ → ℕ → List Partition → Result InspectError (List Partition)
read_entries b size zero i ps = ok ps
read_entries b size (suc n) i ps = do
  p ← read_entry b size i
  read_entries b size n (i + 1) (append_entry ps p)

-- `sort.Slice` by the offset.
unfoldable pub insert_by_offset : Partition → List Partition → List Partition
insert_by_offset p [] = p ∷ []
insert_by_offset p (q ∷ qs) =
    let rest = insert_by_offset p qs in
    if leb p.offset_bytes q.offset_bytes then p ∷ q ∷ qs else q ∷ rest

unfoldable pub sort_by_offset : List Partition → List Partition
sort_by_offset [] = []
sort_by_offset (p ∷ ps) = insert_by_offset p (sort_by_offset ps)

-- The loop over neighbours in the sorted copy.
unfoldable pub check_neighbours : List Partition → Result InspectError (Unit {0})
check_neighbours [] = ok tt
check_neighbours (p ∷ []) = ok tt
check_neighbours (p ∷ q ∷ qs) = do
  refuse_if (ltb q.offset_bytes (p.offset_bytes + p.size_bytes)) (overlap p.index q.index)
  check_neighbours (q ∷ qs)

abbrev pub none_read : List Partition → Bool
none_read [] = true
none_read (p ∷ ps) = false

unfoldable pub inspect : ImageFile → Result InspectError Layout
inspect no_open = err open_failed
inspect no_stat = err stat_failed
inspect (file b) = do
  refuse_if (ltb (length b) sector_size) short_read
  refuse_if (not (get_or b 510 0 == 0x55) || not (get_or b 511 0 == 0xaa)) no_signature
  ps ← read_entries b (length b) 4 0 []
  refuse_if (none_read ps) no_partitions
  check_neighbours (sort_by_offset ps)
  ok (record { partitions = ps; autorun_partition = 0 })
