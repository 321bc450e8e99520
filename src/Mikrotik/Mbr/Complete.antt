-- ===== src/Mikrotik/Mbr/Complete.antt =====
-- Which images `inspect` accepts: no sound partition table is refused.
use install_mikrotik_chr_scr.Common.{
  ℕ, zero, suc, ◌+◌, ◌≤◌, ◌≡◌, ◌≢◌, refl, ◌∙◌, ap, ◌⊎◌, inl, inr, true, false, List, [], ◌∷◌, ◌++◌,
  append_assoc, append-nil, Option, none, some, if◌then◌else◌, length, get_or, All, Pairwise, ok,
  arith, Bool-cases,
}
use install_mikrotik_chr_scr.Common.Text.{Bytes}
use install_mikrotik_chr_scr.Mikrotik.Mbr.{
  Partition, file, sector_size, entry_partition, entry_offset, read_entry, read_entries,
  append_entry, sort_by_offset, check_neighbours, none_read, inspect, is_unused, flag_is_bad,
}
use install_mikrotik_chr_scr.Mikrotik.Mbr.Sort.{NotAfter, sort-IsSorted, Pairwise-sort, All-sort}
use install_mikrotik_chr_scr.Mikrotik.Mbr.Sound.{Disjoint, Disjoint-symm}

abbrev HasBytes : Partition → Type 0
HasBytes p = 1 ≤ p.size_bytes

check_complete :
    (ps : List Partition)
    → Pairwise NotAfter ps
    → Pairwise Disjoint ps
    → All HasBytes ps
    → check_neighbours ps ≡ ok tt
unfolding check_neighbours
check_complete [] s d h = refl
check_complete (p ∷ []) s d h = refl
check_complete (p ∷ q ∷ qs) (s, ss) (d, ds) (hp, hs) =
    ground (arith, check_complete (q ∷ qs) ss ds hs, s.0, d.0, hs.0)

-- The entries that the table uses, from number `i` on, for `n` entries.
abbrev pub used_entries : Bytes → ℕ → ℕ → List Partition
used_entries b zero i = []
used_entries b (suc n) i =
    let rest = used_entries b n (i + 1) in
    if is_unused (entry_partition b i) then rest else entry_partition b i ∷ rest

-- An entry is unused, or has a boot flag of 0 or 0x80 and a range behind the boot sector and
-- inside the file.
abbrev pub EntryIsGood : Bytes → ℕ → ℕ → Type 0
EntryIsGood b size i =
    (is_unused (entry_partition b i) ≡ true)
    ⊎ ((flag_is_bad (get_or b (entry_offset i) 0) ≡ false)
        × (sector_size ≤ (entry_partition b i).offset_bytes)
        × ((entry_partition b i).offset_bytes + (entry_partition b i).size_bytes ≤ size))

abbrev pub EntriesAreGood : Bytes → ℕ → ℕ → ℕ → Type 0
EntriesAreGood b size zero i = Unit
EntriesAreGood b size (suc n) i = EntryIsGood b size i × EntriesAreGood b size n (i + 1)

abbrev entry_option : Bytes → ℕ → Option Partition
entry_option b i = if is_unused (entry_partition b i) then none else some (entry_partition b i)

read_entry-good :
    (b : Bytes) (size i : ℕ) → EntryIsGood b size i → read_entry b size i ≡ ok (entry_option b i)
unfolding read_entry
read_entry-good b size i (inl e) = rw e
read_entry-good b size i (inr (f, lo, hi)) = ground arith

read_entries-good :
    (b : Bytes) (size n i : ℕ) (ps : List Partition)
    → EntriesAreGood b size n i
    → read_entries b size n i ps ≡ ok (ps ++ used_entries b n i)
unfolding read_entries
read_entries-good b size zero i ps g = rw append-nil
read_entries-good b size (suc n) i ps (g, gs) = rw (read_entry-good b size i g) (
    read_entries-good b size n (i + 1) (append_entry ps (entry_option b i)) gs
    ∙ ap ok (elim (Bool-cases (is_unused (entry_partition b i))) [
      | inl e ↦ rw e
      | inr e ↦ rw e (append_assoc ps (entry_partition b i ∷ []) (used_entries b n (i + 1)))
    ]))

used-HasBytes : (b : Bytes) (n i : ℕ) → All HasBytes (used_entries b n i)
used-HasBytes b zero i = tt
used-HasBytes b (suc n) i = elim (Bool-cases (is_unused (entry_partition b i))) [
  | inl e ↦ rw e (used-HasBytes b n (i + 1))
  | inr e ↦ rw e (ground arith, used-HasBytes b n (i + 1))
]

ne-nil-none_read : (ps : List Partition) → ps ≢ [] → none_read ps ≡ false
ne-nil-none_read [] h = absurd (h refl)
ne-nil-none_read (p ∷ ps) h = refl

-- A file with a whole signed boot sector, whose four entries are each unused or well placed, with
-- at least one used and no two overlapping, is accepted, and the layout lists the used entries.
pub inspect_complete :
    (b : Bytes)
    → sector_size ≤ length b
    → get_or b 510 0 ≡ 0x55
    → get_or b 511 0 ≡ 0xaa
    → EntriesAreGood b (length b) 4 0
    → used_entries b 4 0 ≢ []
    → Pairwise Disjoint (used_entries b 4 0)
    → inspect (file b) ≡ ok (record { partitions = used_entries b 4 0; autorun_partition = 0 })
unfolding inspect
inspect_complete b long s1 s2 good some_used apart =
    let us : List Partition = used_entries b 4 0 in
    let swap = λ (p q : Partition) (h : Disjoint p q). Disjoint-symm p q h in
    let c : check_neighbours (sort_by_offset us) ≡ ok tt =
      check_complete (sort_by_offset us) (sort-IsSorted us) (Pairwise-sort Disjoint swap us apart)
        (All-sort HasBytes us (used-HasBytes b 4 0)) in
    ground (arith, read_entries-good b (length b) 4 0 [] good, ne-nil-none_read us some_used, c)
