-- ===== src/Mikrotik/Mbr/Sound.antt =====
-- What an accepted image guarantees.
use install_mikrotik_chr_scr.Common.{
  ℕ, zero, suc, ◌+◌, ◌*◌, ◌≤◌, ◌<◌, ◌≡◌, ◌≢◌, ◌⊎◌, inl, inr, false, List, [], ◌∷◌, Option, none,
  some, length, get_or, All, Pairwise, All-append, All-map, ok, >>=-eq-ok, refuse_if-eq-ok, arith,
  subst,
}
use install_mikrotik_chr_scr.Common.Text.{Bytes}
use install_mikrotik_chr_scr.Mikrotik.Mbr.{
  Partition, Layout, file, sector_size, read_entry, read_entries, append_entry, sort_by_offset,
  check_neighbours, none_read, inspect,
}
use install_mikrotik_chr_scr.Mikrotik.Mbr.Sort.{Pairwise-of_sort}

-- A partition that the writer can use: it lies behind the boot sector and inside the image.
pub record IsInside (size : ℕ) (p : Partition) : Type 0 where
  pub index_low : 1 ≤ p.index
  pub index_high : p.index ≤ 4
  pub has_type : p.type_id ≢ 0
  pub has_sectors : 1 ≤ p.sectors
  pub offset_is : p.offset_bytes ≡ p.start_sector * 512
  pub size_is : p.size_bytes ≡ p.sectors * 512
  pub after_mbr : 512 ≤ p.offset_bytes
  pub fits : p.offset_bytes + p.size_bytes ≤ size

-- No byte belongs to both.
abbrev pub Disjoint : Partition → Partition → Type 0
Disjoint p q =
    (p.offset_bytes + p.size_bytes ≤ q.offset_bytes)
    ⊎ (q.offset_bytes + q.size_bytes ≤ p.offset_bytes)

abbrev EntryIsInside : ℕ → Option Partition → Type 0
EntryIsInside size none = Unit
EntryIsInside size (some p) = IsInside size p

read_entry-IsInside :
    (b : Bytes) (size i : ℕ) {o : Option Partition}
    → i < 4
    → read_entry b size i ≡ ok o
    → EntryIsInside size o
unfolding read_entry
read_entry-IsInside b size i {o = none} lt h = tt
read_entry-IsInside b size i {o = some p} lt h = ground arith

append_entry-IsInside :
    (size : ℕ) (ps : List Partition) (o : Option Partition)
    → All (IsInside size) ps
    → EntryIsInside size o
    → All (IsInside size) (append_entry ps o)
append_entry-IsInside size ps none a h = a
append_entry-IsInside size ps (some p) a h = All-append (IsInside size) ps (p ∷ []) a (h, tt)

pub read_entries-IsInside :
    (b : Bytes) (size n i : ℕ) (ps : List Partition) {qs : List Partition}
    → i + n ≤ 4
    → All (IsInside size) ps
    → read_entries b size n i ps ≡ ok qs
    → All (IsInside size) qs
unfolding read_entries
read_entries-IsInside b size zero i ps le a h = subst (All (IsInside size)) (cc) a
read_entries-IsInside b size (suc n) i ps le a h =
    let (o, r, s) = >>=-eq-ok (read_entry b size i) _ h in
    read_entries-IsInside b size n (i + 1) (append_entry ps o) (omega arith)
      (append_entry-IsInside size ps o a (read_entry-IsInside b size i (omega arith) r)) s

-- The neighbours of a list that passes the check bound all of it from below.
check-All-after :
    (p : Partition) (ps : List Partition)
    → check_neighbours (p ∷ ps) ≡ ok tt
    → All (λ q. p.offset_bytes + p.size_bytes ≤ q.offset_bytes) ps
unfolding check_neighbours
check-All-after p [] h = tt
check-All-after p (q ∷ qs) h =
    let (c, k) = refuse_if-eq-ok _ _ (check_neighbours (q ∷ qs)) h in
    let le : p.offset_bytes + p.size_bytes ≤ q.offset_bytes = ground arith in
    (le, All-map _ _ (λ x g. omega arith) qs (check-All-after q qs k))

check-Pairwise : (ps : List Partition) → check_neighbours ps ≡ ok tt → Pairwise Disjoint ps
unfolding check_neighbours
check-Pairwise [] h = tt
check-Pairwise (p ∷ []) h = (tt, tt)
check-Pairwise (p ∷ q ∷ qs) h =
    let (c, k) = refuse_if-eq-ok _ _ (check_neighbours (q ∷ qs)) h in
    (All-map _ _ (λ x g. inl g) (q ∷ qs) (check-All-after p (q ∷ qs) h), check-Pairwise (q ∷ qs) k)

pub Disjoint-symm : (p q : Partition) → Disjoint p q → Disjoint q p
Disjoint-symm p q (inl h) = inr h
Disjoint-symm p q (inr h) = inl h

-- Every part of the test that `inspect` makes of a file, from its success.
pub record Accepted (b : Bytes) (l : Layout) : Type 0 where
  pub long_enough : sector_size ≤ length b
  pub signed : (get_or b 510 0 ≡ 0x55) × (get_or b 511 0 ≡ 0xaa)
  pub some_partition : l.partitions ≢ []
  pub inside : All (IsInside (length b)) l.partitions
  pub disjoint : Pairwise Disjoint l.partitions
  pub no_autorun : l.autorun_partition ≡ 0

none_read-ne-nil : (ps : List Partition) → none_read ps ≡ false → ps ≢ []
none_read-ne-nil [] h = cc
none_read-ne-nil (p ∷ ps) h = λ e. cc

pub inspect_inversion :
    (b : Bytes) (l : Layout)
    → inspect (file b) ≡ ok l
    → (sector_size ≤ length b)
      × (get_or b 510 0 ≡ 0x55)
      × (get_or b 511 0 ≡ 0xaa)
      × (read_entries b (length b) 4 0 [] ≡ ok l.partitions)
      × (none_read l.partitions ≡ false)
      × (check_neighbours (sort_by_offset l.partitions) ≡ ok tt)
      × (l.autorun_partition ≡ 0)
unfolding inspect
inspect_inversion b l h = ground arith

-- A layout that `inspect` returns describes the file: the file holds a whole boot sector with its
-- signature; there is at least one partition; each has a type and sectors, its byte range is its
-- sector range, starts behind the boot sector and ends inside the file; and no two overlap.
pub inspect-Accepted : (b : Bytes) (l : Layout) → inspect (file b) ≡ ok l → Accepted b l
inspect-Accepted b l h =
    let (long, s1, s2, r, c, k, z) = inspect_inversion b l h in
    record {
      long_enough = long;
      signed = (s1, s2);
      some_partition = none_read-ne-nil l.partitions c;
      inside = read_entries-IsInside b (length b) 4 0 [] (omega arith) tt r;
      disjoint = Pairwise-of_sort Disjoint Disjoint-symm l.partitions (check-Pairwise _ k);
      no_autorun = z;
    }
