-- ===== src/Tests/Images.antt =====
-- Runs of the image checks and of the copy.
use install_mikrotik_chr_scr.Common.{
  ◌≡◌, ◌≤◌, refl, sym, ap, inl, inr, false, [], ◌∷◌, ◌++◌, none, length, replicate, ok, arith,
  take-of_length,
}
use install_mikrotik_chr_scr.Common.Text.{Bytes}
use install_mikrotik_chr_scr.Mikrotik.Mbr.{
  Layout, file, inspect, read_entries, read_entry, insert_by_offset, sort_by_offset,
  check_neighbours, entry_partition,
}
use install_mikrotik_chr_scr.Mikrotik.Mbr.Sound.{Accepted, inspect-Accepted}
use install_mikrotik_chr_scr.Mikrotik.Mbr.Complete.{inspect_complete}
use install_mikrotik_chr_scr.Install.Copy.{
  Source, Writer, copy_image, copy_loop, copy_round, hash_prefix, hash_loop, hash_round,
  buffer_size,
}
use install_mikrotik_chr_scr.Install.Copy.Image.{copy_image_ok, copy_image_works}
use install_mikrotik_chr_scr.Install.Copy.Readback.{hash_prefix_works, hash_prefix-copy_image}

-- A bootable Linux partition of two sectors behind the boot sector.
abbrev disk_image : Bytes
disk_image =
    replicate 446 0
    ++ ((0x80 ∷ 0 ∷ 0 ∷ 0 ∷ 0x83 ∷ 0 ∷ 0 ∷ 0 ∷ 1 ∷ 0 ∷ 0 ∷ 0 ∷ 2 ∷ 0 ∷ 0 ∷ 0 ∷ [])
        ++ (replicate 48 0 ++ (0x55 ∷ 0xaa ∷ replicate 1024 0)))

abbrev disk_layout : Layout
disk_layout = record { partitions = entry_partition disk_image 0 ∷ []; autorun_partition = 0 }

inspect-Accepted_example : Accepted disk_image disk_layout
unfolding inspect read_entries read_entry insert_by_offset sort_by_offset check_neighbours
inspect-Accepted_example = inspect-Accepted disk_image disk_layout refl

inspect_complete_example : inspect (file disk_image) ≡ ok disk_layout
inspect_complete_example =
    inspect_complete disk_image (omega arith) refl refl
      (inr (refl, omega arith, omega arith), (inl refl, (inl refl, (inl refl, tt)))) (λ e. cc)
      (tt, tt)

-- A target in memory that takes every write.
abbrev pub memory_writer : Writer Bytes
memory_writer = record {
  write = λ w p. w ++ p;
  count = λ w p. length p;
  fails = λ w p. false;
  received = λ w. w;
  takes = λ w p. ap (λ t. w ++ t) (sym (take-of_length (length p) p (omega arith)));
}

abbrev pub three_bytes : Source
three_bytes = record { rest = 1 ∷ 2 ∷ 3 ∷ []; broken = false }

abbrev pub longer_device : Source
longer_device = record { rest = 1 ∷ 2 ∷ 3 ∷ 0 ∷ []; broken = false }

copy_image_works_example : (copy_image memory_writer three_bytes [] 3).error ≡ none
copy_image_works_example =
    copy_image_works memory_writer three_bytes [] 3 (omega arith) (omega arith) (λ v p. refl)
      (λ v p. refl)

copied : (copy_image memory_writer three_bytes [] 3).error ≡ none
unfolding copy_image copy_loop copy_round buffer_size
copied = refl

copy_image_ok_example :
    (1 ≤ 3)
    × (3 ≤ 3)
    × ((copy_image memory_writer three_bytes [] 3).state.target ≡ 1 ∷ 2 ∷ 3 ∷ [])
    × ((copy_image memory_writer three_bytes [] 3).state.hashed ≡ 1 ∷ 2 ∷ 3 ∷ [])
copy_image_ok_example = copy_image_ok memory_writer three_bytes [] 3 copied

hash_prefix_works_example : (hash_prefix longer_device 3).error ≡ none
hash_prefix_works_example = hash_prefix_works longer_device 3 (omega arith) (omega arith)

read_back : (hash_prefix longer_device 3).error ≡ none
unfolding hash_prefix hash_loop hash_round buffer_size
read_back = refl

device_holds :
    longer_device.rest ≡ (copy_image memory_writer three_bytes [] 3).state.target ++ (0 ∷ [])
unfolding copy_image copy_loop copy_round buffer_size
device_holds = refl

hash_prefix-copy_image_example :
    ((hash_prefix longer_device 3).error ≡ none)
    × ((hash_prefix longer_device 3).state.hashed
        ≡ (copy_image memory_writer three_bytes [] 3).state.hashed)
hash_prefix-copy_image_example =
    hash_prefix-copy_image memory_writer three_bytes [] 3 longer_device (0 ∷ []) refl copied
      device_holds
