-- ===== src/Install/Resources.antt =====
-- internal/install/resources.go: the space that staging needs on disk and in memory. Numbers of 64
-- bits are ℕ with their wrap-around written out. What the operating system and `lsinitramfs` say is
-- an argument.
pub mod Bounds
use install_mikrotik_chr_scr.Common.{
  ℕ, zero, suc, ◌+◌, ◌-◌, ◌*◌, ◌/◌, ◌%◌, ◌^◌, Bool, true, false, not, ◌&&◌, ◌||◌, List, [], ◌∷◌,
  ◌++◌, Option, none, some, ltb, leb, ◌==◌, if◌then◌else◌, length, Result, ok, err, ◌>>=◌, ◌>>◌,
  refuse_if,
}
use install_mikrotik_chr_scr.Common.Text.{Bytes, is_space}
use install_mikrotik_chr_scr.Common.Decode.{parse_uint}
use install_mikrotik_chr_scr.Common.Int.{ℤ, pos, negsuc, pos_part, leb_ℤ, ltb_ℤ}
use install_mikrotik_chr_scr.Network.Validate.{fields_from}

-- `math.MaxUint64`.
abbrev pub max_uint64 : ℕ
max_uint64 = 2 ^ 64 - 1

abbrev pub writer_memory_spare : ℕ
writer_memory_spare = 384 * 1024 * 1024

-- The two fields of `syscall.Statfs_t` that are read, their signs kept.
pub record Statfs : Type 0 where
  pub bavail : ℤ
  pub bsize : ℤ

pub data ResourceError : Type 0 where
  statfs_failed invalid_metadata overflowing_metadata no_space : ResourceError
  no_memory_metadata listing_failed incomplete_listing stat_failed : ResourceError
  estimate_overflow too_little_memory bad_size total_overflow no_files : ResourceError

pub ensure_filesystem_space : Option Statfs → ℕ → Result ResourceError (Unit {0})
ensure_filesystem_space none required = err statfs_failed
ensure_filesystem_space (some s) required = do
  refuse_if (ltb_ℤ s.bavail (pos 0) || leb_ℤ s.bsize (pos 0)) invalid_metadata
  let blocks = pos_part s.bavail in
      let size = pos_part s.bsize in
      do
        refuse_if (ltb (max_uint64 / size) blocks) overflowing_metadata
        refuse_if (ltb (blocks * size % 2 ^ 64) required) no_space

-- `strings.Split(s, "\n")`.
abbrev pub add_to_first : ℕ → List Bytes → List Bytes
add_to_first c [] = (c ∷ []) ∷ []
add_to_first c (l ∷ ls) = (c ∷ l) ∷ ls

unfoldable pub split_lines : Bytes → List Bytes
split_lines [] = [] ∷ []
split_lines (c ∷ cs) =
    let rest = split_lines cs in if c == b'\n' then [] ∷ rest else add_to_first c rest

-- `strings.Fields`.
abbrev pub fields : Bytes → List Bytes
fields s = fields_from is_space [] s

-- The text of the size of a line that lists a regular file: `fields[4]`.
abbrev pub starts_with_dash : Bytes → Bool
starts_with_dash [] = false
starts_with_dash (c ∷ cs) = c == b'-'

unfoldable pub size_field : List Bytes → Option Bytes
size_field (kind ∷ f1 ∷ f2 ∷ f3 ∷ size ∷ f5 ∷ more) =
    if starts_with_dash kind then some size else none
size_field _ = none

-- One round of the loop: the new total, given the size that was parsed.
abbrev pub add_size : ℕ → Option ℕ → Result ResourceError ℕ
add_size total none = err bad_size
add_size total (some size) = do
  refuse_if (ltb (max_uint64 - size) total) total_overflow
  ok ((total + size) % 2 ^ 64)

unfoldable pub add_line : ℕ → Option Bytes → Result ResourceError ℕ
add_line total none = ok total
add_line total (some digits) = add_size total (parse_uint digits)

abbrev pub counts : Option Bytes → ℕ
counts none = 0
counts (some digits) = 1

-- The loop over the lines, with the total and the number of regular files so far.
unfoldable pub listing_loop : List Bytes → ℕ → ℕ → Result ResourceError ℕ
listing_loop [] total files = do refuse_if (files == 0) no_files; ok total
listing_loop (l ∷ ls) total files = do
  total' ← add_line total (size_field (fields l))
  listing_loop ls total' (files + counts (size_field (fields l)))

unfoldable pub parse_initramfs_listing : Bytes → Result ResourceError ℕ
parse_initramfs_listing data_bytes = listing_loop (split_lines data_bytes) 0 0

abbrev from_listing : Option Bytes → Result ResourceError ℕ
from_listing none = err listing_failed
from_listing (some output) = parse_initramfs_listing output

-- `memoryBytes < required` and the tests before it, once the size of the file is known.
abbrev pub check_estimate : ℕ → ℕ → Option ℕ → Result ResourceError (Unit {0})
check_estimate memory unpacked none = err stat_failed
check_estimate memory unpacked (some compressed) = do
  refuse_if
      (ltb (max_uint64 - writer_memory_spare) compressed
        || ltb (max_uint64 - compressed - writer_memory_spare) unpacked)
      estimate_overflow
  refuse_if (ltb memory ((unpacked + compressed + writer_memory_spare) % 2 ^ 64)) too_little_memory

-- `validateInitramfsMemory`, with the output of `lsinitramfs` and the size that `os.Stat` reports.
unfoldable pub validate_initramfs_memory :
    Option Bytes → Option ℕ → ℕ → ℤ → Result ResourceError (Unit {0})
validate_initramfs_memory output compressed memory image_size = do
  refuse_if (memory == 0) no_memory_metadata
  unpacked ← from_listing output
  refuse_if (leb_ℤ image_size (pos 0) || ltb unpacked (pos_part image_size)) incomplete_listing
  check_estimate memory unpacked compressed
