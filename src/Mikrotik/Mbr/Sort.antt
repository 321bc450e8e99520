-- ===== src/Mikrotik/Mbr/Sort.antt =====
-- The sorted copy holds the same partitions, in the order of their offsets.
use install_mikrotik_chr_scr.Common.{
  ◌≤◌, inl, inr, List, [], ◌∷◌, leb, All, Pairwise, All-map, arith, Bool-cases,
}
use install_mikrotik_chr_scr.Mikrotik.Mbr.{Partition, insert_by_offset, sort_by_offset}

module _ {κ} (P : Partition → Type κ) where
  pub All-insert :
      (p : Partition) (qs : List Partition) → P p → All P qs → All P (insert_by_offset p qs)
  unfolding insert_by_offset
  All-insert p [] hp h = (hp, tt)
  All-insert p (q ∷ qs) hp h = elim (Bool-cases (leb p.offset_bytes q.offset_bytes)) [
    | inl e ↦ rw e (hp, h)
    | inr e ↦ rw e (h.0, All-insert p qs hp h.1)
  ]

  pub All-of_insert :
      (p : Partition) (qs : List Partition) → All P (insert_by_offset p qs) → P p × All P qs
  unfolding insert_by_offset
  All-of_insert p [] h = (h.0, tt)
  All-of_insert p (q ∷ qs) h = elim (Bool-cases (leb p.offset_bytes q.offset_bytes)) [
    | inl e ↦ rw e at h
    | inr e ↦ let g = rw e at h in let (a, b) = All-of_insert p qs g.1 in (a, (g.0, b))
  ]

  pub All-sort : (ps : List Partition) → All P ps → All P (sort_by_offset ps)
  unfolding sort_by_offset
  All-sort [] h = tt
  All-sort (p ∷ ps) h = All-insert p (sort_by_offset ps) h.0 (All-sort ps h.1)

  pub All-of_sort : (ps : List Partition) → All P (sort_by_offset ps) → All P ps
  unfolding sort_by_offset
  All-of_sort [] h = tt
  All-of_sort (p ∷ ps) h =
      let (a, b) = All-of_insert p (sort_by_offset ps) h in (a, All-of_sort ps b)

-- A symmetric relation holds between all pairs of the sorted list when it does in the list.
module _ {κ} (R : Partition → Partition → Type κ) (swap : (p q : Partition) → R p q → R q p) where
  Pairwise-insert :
      (p : Partition) (qs : List Partition)
      → All (R p) qs
      → Pairwise R qs
      → Pairwise R (insert_by_offset p qs)
  unfolding insert_by_offset
  Pairwise-insert p [] a h = (tt, tt)
  Pairwise-insert p (q ∷ qs) a h = elim (Bool-cases (leb p.offset_bytes q.offset_bytes)) [
    | inl e ↦ rw e (a, h)
    | inr e ↦ rw e (All-insert (R q) p qs (swap p q a.0) h.0, Pairwise-insert p qs a.1 h.1)
  ]

  Pairwise-of_insert :
      (p : Partition) (qs : List Partition)
      → Pairwise R (insert_by_offset p qs)
      → All (R p) qs × Pairwise R qs
  unfolding insert_by_offset
  Pairwise-of_insert p [] h = (tt, tt)
  Pairwise-of_insert p (q ∷ qs) h = elim (Bool-cases (leb p.offset_bytes q.offset_bytes)) [
    | inl e ↦ rw e at h
    | inr e ↦
        let g = rw e at h in
        let (a, b) = All-of_insert (R q) p qs g.0 in
        let (c, d) = Pairwise-of_insert p qs g.1 in ((swap q p a, c), (b, d))
  ]

  pub Pairwise-sort : (ps : List Partition) → Pairwise R ps → Pairwise R (sort_by_offset ps)
  unfolding sort_by_offset
  Pairwise-sort [] h = tt
  Pairwise-sort (p ∷ ps) h =
      Pairwise-insert p (sort_by_offset ps) (All-sort (R p) ps h.0) (Pairwise-sort ps h.1)

  pub Pairwise-of_sort : (ps : List Partition) → Pairwise R (sort_by_offset ps) → Pairwise R ps
  unfolding sort_by_offset
  Pairwise-of_sort [] h = tt
  Pairwise-of_sort (p ∷ ps) h =
      let (a, b) = Pairwise-of_insert p (sort_by_offset ps) h in
      (All-of_sort (R p) ps a, Pairwise-of_sort ps b)

abbrev pub NotAfter : Partition → Partition → Type 0
NotAfter p q = p.offset_bytes ≤ q.offset_bytes

NotAfter-insert :
    (p : Partition) (qs : List Partition)
    → Pairwise NotAfter qs
    → Pairwise NotAfter (insert_by_offset p qs)
unfolding insert_by_offset
NotAfter-insert p [] h = (tt, tt)
NotAfter-insert p (q ∷ qs) h = elim (Bool-cases (leb p.offset_bytes q.offset_bytes)) [
  | inl e ↦ rw e ((ground arith, All-map (NotAfter q) (NotAfter p) (λ x g. ground arith) qs h.0), h)
  | inr e ↦ rw e (All-insert (NotAfter q) p qs (ground arith) h.0, NotAfter-insert p qs h.1)
]

pub sort-IsSorted : (ps : List Partition) → Pairwise NotAfter (sort_by_offset ps)
unfolding sort_by_offset
sort-IsSorted [] = tt
sort-IsSorted (p ∷ ps) = NotAfter-insert p (sort_by_offset ps) (sort-IsSorted ps)
