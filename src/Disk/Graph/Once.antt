-- ===== src/Disk/Graph/Once.antt =====
-- No search lists two disks of one kernel name.
use install_mikrotik_chr_scr.Common.{
  ℕ, zero, suc, ◌≡◌, ◌≢◌, refl, sym, ◌∙◌, ap, subst, inl, inr, ◌∈◌, true, false, List, [], ◌∷◌,
  arith, Bool-cases, if-true, if-false,
}
use install_mikrotik_chr_scr.Common.Text.{has, at_most}
use install_mikrotik_chr_scr.Disk.Graph.{
  BlockNode, NodeMap, nodes_at, DiskGraph, is_disk, Search, safe_kinds, mark_kind, mark_seen,
  mark_disk, each, visit, insert_node, sort_nodes, search_up,
}
use install_mikrotik_chr_scr.Disk.Graph.Closure.{has_self}
use install_mikrotik_chr_scr.Disk.Graph.Backing.{insert_node_iff, sort_nodes_iff}

abbrev NewName : BlockNode → List BlockNode → Type 0
NewName n ns = (m : BlockNode) → m ∈ ns → m.kname ≢ n.kname

-- Each kernel name is that of one element at most.
abbrev pub DistinctNames : List BlockNode → Type 0
DistinctNames [] = Unit
DistinctNames (n ∷ ns) = ((m : BlockNode) → m ∈ ns → m.kname ≢ n.kname) × DistinctNames ns

insert_node-DistinctNames :
    (n : BlockNode) (ns : List BlockNode)
    → NewName n ns
    → DistinctNames ns
    → DistinctNames (insert_node n ns)
unfolding insert_node
insert_node-DistinctNames n [] new d = (new, tt)
insert_node-DistinctNames n (x ∷ ns) new (fresh, d) = elim (Bool-cases (at_most n.kname x.kname)) [
  | inl e ↦ subst DistinctNames (sym (if-true _ _ e)) (new, (fresh, d))
  | inr e ↦ subst DistinctNames (sym (if-false _ _ e)) (
    λ m i. others m ((insert_node_iff m n ns).0 i),
    insert_node-DistinctNames n ns (λ m i. new m (inr i)) d,
  )
]
  where
    others : (m : BlockNode) → m ∈ (n ∷ ns) → m.kname ≢ x.kname
    others m (inl q) h = new x (inl refl) (sym h ∙ ap (λ t. t.kname) q)
    others m (inr i) h = fresh m i h

pub sort_nodes-DistinctNames :
    (ns : List BlockNode) → DistinctNames ns → DistinctNames (sort_nodes ns)
unfolding sort_nodes
sort_nodes-DistinctNames [] d = tt
sort_nodes-DistinctNames (n ∷ ns) (new, d) =
    insert_node-DistinctNames n (sort_nodes ns) (λ m i. new m ((sort_nodes_iff m ns).0 i))
      (sort_nodes-DistinctNames ns d)

-- The disks of a search have distinct names, and all of them are seen.
record Once (s : Search) : Type 0 where
  distinct : DistinctNames s.disks
  known : (d : BlockNode) → d ∈ s.disks → has d.kname s.seen ≡ true

found-Once : (n : BlockNode) (s : Search) → Once s → Once (mark_kind n (mark_seen n s))
found-Once n s o = elim (Bool-cases (has n.kind safe_kinds)) [
  | inl e ↦ subst Once (sym (if-true _ _ e)) seen
  | inr e ↦
      subst Once (sym (if-false _ _ e)) record { distinct = seen.distinct; known = seen.known }
]
  where
    seen : Once (mark_seen n s)
    seen = record { distinct = o.distinct; known = λ d i. ground (arith, o.known d i) }

-- A node that is entered is seen.
found-has : (n : BlockNode) (s : Search) → has n.kname (mark_kind n (mark_seen n s)).seen ≡ true
found-has n s = elim (Bool-cases (has n.kind safe_kinds)) [
  | inl e ↦
      subst (λ (t : Search). has n.kname t.seen ≡ true) (sym (if-true _ _ e))
        (has_self n.kname s.seen)
  | inr e ↦
      subst (λ (t : Search). has n.kname t.seen ≡ true) (sym (if-false _ _ e))
        (has_self n.kname s.seen)
]

found-disks : (n : BlockNode) (s : Search) → (mark_kind n (mark_seen n s)).disks ≡ s.disks
found-disks n s = elim (Bool-cases (has n.kind safe_kinds)) [
  | inl e ↦ ap (λ (t : Search). t.disks) (if-true _ _ e)
  | inr e ↦ ap (λ (t : Search). t.disks) (if-false _ _ e)
]

disk-Once :
    (n : BlockNode) (s : Search)
    → has n.kname s.seen ≡ false
    → Once s
    → Once (mark_disk n (mark_kind n (mark_seen n s)))
disk-Once n s new o =
    let f = found-Once n s o in
    record {
      distinct = (λ m i h. clash m (subst (λ t. m ∈ t) (found-disks n s) i) h, f.distinct);
      known = λ d i. elim i [
        | inl q ↦
            subst (λ (t : BlockNode). has t.kname (mark_kind n (mark_seen n s)).seen ≡ true) (sym q)
              (found-has n s)
        | inr j ↦ f.known d j
      ];
    }
  where
    clash : (m : BlockNode) → m ∈ s.disks → m.kname ≡ n.kname → ⊥
    clash m i h = cc (subst (λ t. has t s.seen ≡ true) h (o.known m i), new)

each-Once :
    (f : BlockNode → Search → Search)
    → ((n : BlockNode) (s : Search) → Once s → Once (f n s))
    → (ns : List BlockNode) (s : Search) → Once s
    → Once (each f ns s)
each-Once f keep [] s o = o
each-Once f keep (n ∷ ns) s o = each-Once f keep ns (f n s) (keep n s o)

visit-Once :
    (up : NodeMap) (fuel : ℕ) (n : BlockNode) (s : Search) → Once s → Once (visit up fuel n s)
unfolding visit
visit-Once up zero n s o = o
visit-Once up (suc fuel) n s o = elim (Bool-cases (has n.kname s.seen)) [
  | inl y ↦ subst Once (sym (if-true _ _ y)) o
  | inr y ↦ elim (Bool-cases (is_disk n)) [
    | inl d ↦ subst Once (sym (if-false _ _ y ∙ if-true _ _ d)) (disk-Once n s y o)
    | inr d ↦
        subst Once (sym (if-false _ _ y ∙ if-false _ _ d)) (
          each-Once (visit up fuel) (visit-Once up fuel) (nodes_at n.kname up) _ (found-Once n s o))
  ]
]

pub search_up-DistinctNames :
    (g : DiskGraph) (start : BlockNode) → DistinctNames (search_up g start).disks
unfolding search_up
search_up-DistinctNames g start =
    (visit-Once g.parents _ start _ (record { distinct = tt; known = λ d i. absurd i })).distinct
