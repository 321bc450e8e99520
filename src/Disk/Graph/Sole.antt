-- ===== src/Disk/Graph/Sole.antt =====
-- What `backingDisks` returns, and what it means that it returns a single disk.
use install_mikrotik_chr_scr.Common.{
  suc, ◌≡◌, refl, sym, ◌∙◌, ap, subst, inl, inr, ◌∈◌, true, false, List, [], ◌∷◌, length, arith,
  Bool-cases,
}
use install_mikrotik_chr_scr.Common.Text.{Bytes, text, same, same→eq, has, sort_texts-has}
use install_mikrotik_chr_scr.Disk.Graph.{
  BlockNode, nodes_at, DiskGraph, is_disk, Search, safe_kinds, names_in, distinct, search_up,
  backing_disks,
}
use install_mikrotik_chr_scr.Disk.Graph.Once.{
  DistinctNames, sort_nodes-DistinctNames, search_up-DistinctNames,
}
use install_mikrotik_chr_scr.Disk.Graph.Closure.{
  unseen, has_self, Above, here, climb, IsDone, Sound, Part,
}
use install_mikrotik_chr_scr.Disk.Graph.Backing.{has-names_in, visit-Visited, sort_nodes_iff}

has-distinct : (k : Bytes) (ts : List Bytes) → has k (distinct ts) ≡ has k ts
has-distinct k [] = refl
has-distinct k (t ∷ ts) = elim (Bool-cases (same k t)) [
  | inl e ↦ let q : k ≡ t = same→eq k t e in ground (arith, has-distinct k ts, e, q)
  | inr e ↦ ground (arith, has-distinct k ts, e)
]

unseen-none : (us : List Bytes) → unseen us [] ≡ length us
unseen-none [] = refl
unseen-none (u ∷ us) = ap suc (unseen-none us)

-- `lsblk` gives the same type to all the nodes of one kernel name.
abbrev pub SameKinds : DiskGraph → BlockNode → Type 0
SameKinds g start =
    (n m : BlockNode)
    → Above g.parents start n
    → Above g.parents start m
    → n.kname ≡ m.kname
    → n.kind ≡ m.kind

abbrev empty_search : Search
empty_search = record { seen = []; disks = []; unsafe_types = [] }

searched :
    (g : DiskGraph) (start : BlockNode)
    → Part g.parents start empty_search (search_up g start)
      × (has start.kname (search_up g start).seen ≡ true)
unfolding search_up
searched g start =
    let us = start.kname ∷ names_in g.parents in
    visit-Visited g.parents start us (λ k n i. ground (arith, has-names_in g.parents k n i))
      (suc (length (names_in g.parents))) start empty_search here (has_self start.kname _)
      (omega (arith, unseen-none us))

found-Sound : (g : DiskGraph) (start : BlockNode) → Sound g.parents start (search_up g start)
found-Sound g start =
    (searched g start).0.sound (record { disks = λ d i. absurd i; kinds = λ k h. cc })

module _ (g : DiskGraph) (start : BlockNode) (kinds : SameKinds g start) where
  IsDone-Above :
      (n : BlockNode)
      → Above g.parents start n
      → has n.kname (search_up g start).seen ≡ true
      → (m : BlockNode) × (m.kname ≡ n.kname)
        × (m.kind ≡ n.kind)
        × IsDone g.parents (search_up g start) m
  IsDone-Above n a h =
      let (m, above, e, d) = (searched g start).0.fresh n.kname h refl in
      (m, e, kinds m n above a e, d)

  all_seen : {n : BlockNode} → Above g.parents start n → has n.kname (search_up g start).seen ≡ true
  all_seen here = (searched g start).1
  all_seen (climb {n} {m} a d i) =
      let (n', e, k, done) = IsDone-Above n a (all_seen a) in
      done.higher (subst (λ t. same t (text "disk") ≡ false) (sym k) d) m
        (subst (λ t. m ∈ nodes_at t g.parents) (sym e) i)

  -- The disks and the unsupported types among the nodes from `start` upwards.
  pub record IsBacking (ds : List BlockNode) (ks : List Bytes) : Type 0 where
    pub only_disks : (d : BlockNode) → d ∈ ds → Above g.parents start d × (is_disk d ≡ true)
    pub all_disks :
        (n : BlockNode)
        → Above g.parents start n
        → is_disk n ≡ true
        → (d : BlockNode) × (d.kname ≡ n.kname) × (d ∈ ds)
    pub distinct_disks : DistinctNames ds
    pub only_kinds :
        (k : Bytes)
        → has k ks ≡ true
        → (n : BlockNode) × Above g.parents start n × (n.kind ≡ k) × (has k safe_kinds ≡ false)
    pub all_kinds :
        (n : BlockNode)
        → Above g.parents start n
        → has n.kind safe_kinds ≡ false
        → has n.kind ks ≡ true

  -- `backingDisks` returns exactly the disks that are reached from the node by following parents up
  -- to disks, each kernel name once, and exactly the unsupported types that are met on the way,
  -- in any graph, cyclic ones included, in which nodes of one kernel name have one type.
  pub backing_disks-IsBacking : IsBacking (backing_disks g start).0 (backing_disks g start).1
  unfolding backing_disks
  backing_disks-IsBacking =
      let t = search_up g start in
      let v = found-Sound g start in
      record {
        only_disks = λ d i. v.disks d ((sort_nodes_iff d t.disks).0 i);
        all_disks = λ n a d.
            let (m, e, k, done) = IsDone-Above n a (all_seen a) in
            (
              m,
              e,
              (sort_nodes_iff m t.disks).1
                  (done.disk (subst (λ x. same x (text "disk") ≡ true) (sym k) d)),
            );
        distinct_disks = sort_nodes-DistinctNames t.disks (search_up-DistinctNames g start);
        only_kinds =
            λ k h. v.kinds k (sym (has-distinct k t.unsafe_types) ∙ sym (sort_texts-has k _) ∙ h);
        all_kinds = λ n a h.
            let (m, e, k, done) = IsDone-Above n a (all_seen a) in
            sort_texts-has n.kind _
            ∙ has-distinct n.kind t.unsafe_types
            ∙ subst (λ x. has x t.unsafe_types ≡ true) k
                (done.kind (subst (λ x. has x safe_kinds ≡ false) (sym k) h));
      }
