-- ===== src/Disk/Graph/Backing.antt =====
-- `backingDisks`: what it returns are the disks above the node, and no kind of node escapes it.
use install_mikrotik_chr_scr.Common.{
  ℕ, zero, suc, ◌≤◌, ◌≡◌, refl, sym, ◌∙◌, ap, subst, inl, inr, ◌∈◌, ◌↔◌, true, false, List, [], ◌∷◌,
  ◌++◌, arith, Bool-cases, if-true, if-false,
}
use install_mikrotik_chr_scr.Common.Text.{Bytes, same, same→eq, has, at_most}
use install_mikrotik_chr_scr.Disk.Graph.{
  BlockNode, NodeMap, nodes_at, is_disk, Search, mark_kind, mark_seen, mark_disk, each, visit,
  knames, names_in, insert_node, sort_nodes,
}
use install_mikrotik_chr_scr.Disk.Graph.Closure.{
  unseen, unseen-lt, unseen_mono, has_self, Above, climb, Part, Part-refl, Part-trans,
  marked-Extends, marked-seen, marked-kind, marked-Sound,
}

has-append_left : (k : Bytes) (us vs : List Bytes) → has k us ≡ true → has k (us ++ vs) ≡ true
has-append_left k [] vs h = cc
has-append_left k (u ∷ us) vs h = ground (arith, h, has-append_left k us vs)

has-append_right : (k : Bytes) (us vs : List Bytes) → has k vs ≡ true → has k (us ++ vs) ≡ true
has-append_right k [] vs h = h
has-append_right k (u ∷ us) vs h = ground (arith, has-append_right k us vs h)

has-knames : (n : BlockNode) (ns : List BlockNode) → n ∈ ns → has n.kname (knames ns) ≡ true
has-knames n [] h = absurd h
has-knames n (m ∷ ns) (inl e) =
    let same_name : n.kname ≡ m.kname = ap (λ x. x.kname) e in
    subst (λ k. has k (m.kname ∷ knames ns) ≡ true) (sym same_name) (has_self m.kname (knames ns))
has-knames n (m ∷ ns) (inr h) = ground (arith, has-knames n ns h)

pub has-names_in :
    (up : NodeMap) (k : Bytes) (n : BlockNode)
    → n ∈ nodes_at k up
    → has n.kname (names_in up) ≡ true
has-names_in [] k n h = absurd h
has-names_in ((key, ns) ∷ up) k n h = elim (Bool-cases (same key k)) [
  | inl e ↦ has-append_left n.kname (knames ns) (names_in up) (has-knames n ns (rw e at h))
  | inr e ↦ has-append_right n.kname (knames ns) (names_in up) (has-names_in up k n (rw e at h))
]

module _ (up : NodeMap) (start : BlockNode) (us : List Bytes)
    (all_named : (k : Bytes) (n : BlockNode) → n ∈ nodes_at k up → has n.kname us ≡ true) where
  -- What a search from the node leaves: a part of the search, in which the node is seen.
  abbrev Visited : BlockNode → Search → Search → Type 0
  Visited n s t = Part up start s t × (has n.kname t.seen ≡ true)

  abbrev AllVisited : List BlockNode → Search → Search → Type 0
  AllVisited ns s t = Part up start s t × ((m : BlockNode) → m ∈ ns → has m.kname t.seen ≡ true)

  each-AllVisited :
      (f : BlockNode → Search → Search) (fuel : ℕ)
      → ((n : BlockNode) (s : Search)
          → Above up start n
          → has n.kname us ≡ true
          → unseen us s.seen ≤ fuel
          → Visited n s (f n s))
      → (ns : List BlockNode) (s : Search)
      → ((m : BlockNode) → m ∈ ns → Above up start m × (has m.kname us ≡ true))
      → unseen us s.seen ≤ fuel
      → AllVisited ns s (each f ns s)
  each-AllVisited f fuel v [] s a h = (Part-refl up start s, λ m i. absurd i)
  each-AllVisited f fuel v (n ∷ ns) s a h =
      let (above, named) = a n (inl refl) in
      let (p, seen) = v n s above named h in
      let less : unseen us (f n s).seen ≤ unseen us s.seen =
        unseen_mono us s.seen _ p.extends.seen in
      let (q, others) = each-AllVisited f fuel v ns (f n s) (λ m i. a m (inr i)) (omega arith) in
      (
        Part-trans up start p q,
        λ m i. elim i [ inl e ↦ rw e (q.extends.seen n.kname seen) | inr j ↦ others m j ],
      )

  fresh_name :
      (n : BlockNode) (s : Search) (k : Bytes)
      → has k (mark_kind n (mark_seen n s)).seen ≡ true
      → has k s.seen ≡ false
      → k ≡ n.kname
  fresh_name n s k h new =
      let q : has k (n.kname ∷ s.seen) ≡ true = rw (marked-seen up start n s) at h in
      same→eq k n.kname (ground (arith, q, new))

  self_seen : (n : BlockNode) (s : Search) → has n.kname (mark_kind n (mark_seen n s)).seen ≡ true
  self_seen n s = rw (marked-seen up start n s) (has_self n.kname s.seen)

  disk-Visited :
      (n : BlockNode) (s : Search)
      → Above up start n
      → is_disk n ≡ true
      → Visited n s (mark_disk n (mark_kind n (mark_seen n s)))
  disk-Visited n s a d =
      let e = marked-Extends up start n s in
      (
        record {
          extends = record { seen = e.seen; disks = λ m h. inr (e.disks m h); kinds = e.kinds };
          fresh = λ k h new. (
            n,
            a,
            sym (fresh_name n s k h new),
            record {
              disk = λ _. inl refl;
              kind = marked-kind up start n s;
              higher = λ f m i. absurd (cc (d, f));
            },
          );
          sound = λ v.
              let w = marked-Sound up start n s a v in
              record {
                disks = λ m i. elim i [ inl q ↦ rw q (a, d) | inr j ↦ w.disks m j ];
                kinds = w.kinds;
              };
        },
        self_seen n s,
      )

  inner-Visited :
      (n : BlockNode) (s : Search)
      → Above up start n
      → is_disk n ≡ false
      → (t : Search) → AllVisited (nodes_at n.kname up) (mark_kind n (mark_seen n s)) t
      → Visited n s t
  inner-Visited n s a d t (p, higher) =
      let e = marked-Extends up start n s in
      (
        record {
          extends = record {
            seen = λ k h. p.extends.seen k (e.seen k h);
            disks = λ m h. p.extends.disks m (e.disks m h);
            kinds = λ k h. p.extends.kinds k (e.kinds k h);
          };
          fresh = λ k h new. elim (Bool-cases (has k (mark_kind n (mark_seen n s)).seen)) [
            | inl y ↦ (
              n,
              a,
              sym (fresh_name n s k y new),
              record {
                disk = λ f. absurd (cc (d, f));
                kind = λ f. p.extends.kinds n.kind (marked-kind up start n s f);
                higher = λ f m i. higher m i;
              },
            )
            | inr y ↦ p.fresh k h y
          ];
          sound = λ v. p.sound (marked-Sound up start n s a v);
        },
        p.extends.seen n.kname (self_seen n s),
      )

  pub visit-Visited :
      (fuel : ℕ) (n : BlockNode) (s : Search)
      → Above up start n
      → has n.kname us ≡ true
      → unseen us s.seen ≤ fuel
      → Visited n s (visit up fuel n s)
  unfolding visit
  visit-Visited zero n s a named h = elim (Bool-cases (has n.kname s.seen)) [
    | inl y ↦ (Part-refl up start s, y)
    | inr y ↦ absurd (let lt = unseen-lt us n.kname s.seen named y in omega arith)
  ]
  visit-Visited (suc fuel) n s a named h = elim (Bool-cases (has n.kname s.seen)) [
    | inl y ↦ rw y (Part-refl up start s, y)
    | inr y ↦
        let lt = unseen-lt us n.kname s.seen named y in
        elim (Bool-cases (is_disk n)) [
          | inl d ↦
              subst (Visited n s) (sym (if-false _ _ y ∙ if-true _ _ d)) (disk-Visited n s a d)
          | inr d ↦ subst (Visited n s) (sym (if-false _ _ y ∙ if-false _ _ d)) (
              inner-Visited n s a d
                (each (visit up fuel) (nodes_at n.kname up) (mark_kind n (mark_seen n s)))
                (each-AllVisited (visit up fuel) fuel (visit-Visited fuel) (nodes_at n.kname up)
                  (mark_kind n (mark_seen n s)) (λ m i. (climb a d i, all_named n.kname m i))
                  (rw (marked-seen up start n s) (omega arith))))
        ]
  ]

pub insert_node_iff :
    (d n : BlockNode) (ns : List BlockNode) → (d ∈ insert_node n ns) ↔ (d ∈ (n ∷ ns))
unfolding insert_node
insert_node_iff d n [] = (λ h. h, λ h. h)
insert_node_iff d n (m ∷ ms) = elim (Bool-cases (at_most n.kname m.kname)) [
  | inl e ↦ rw e (λ h. h, λ h. h)
  | inr e ↦ rw e (there (insert_node_iff d n ms), back (insert_node_iff d n ms))
]
  where
    there : (d ∈ insert_node n ms) ↔ (d ∈ (n ∷ ms)) → d ∈ (m ∷ insert_node n ms) → d ∈ (n ∷ m ∷ ms)
    there ih (inl q) = inr (inl q)
    there ih (inr h) = elim (ih.0 h) [ inl q ↦ inl q | inr i ↦ inr (inr i) ]

    back : (d ∈ insert_node n ms) ↔ (d ∈ (n ∷ ms)) → d ∈ (n ∷ m ∷ ms) → d ∈ (m ∷ insert_node n ms)
    back ih (inl q) = inr (ih.1 (inl q))
    back ih (inr (inl q)) = inl q
    back ih (inr (inr i)) = inr (ih.1 (inr i))

pub sort_nodes_iff : (d : BlockNode) (ns : List BlockNode) → (d ∈ sort_nodes ns) ↔ (d ∈ ns)
unfolding sort_nodes
sort_nodes_iff d [] = (λ h. h, λ h. h)
sort_nodes_iff d (n ∷ ns) = (there (sort_nodes_iff d ns), back (sort_nodes_iff d ns))
  where
    step : (d ∈ insert_node n (sort_nodes ns)) ↔ (d ∈ (n ∷ sort_nodes ns))
    step = insert_node_iff d n (sort_nodes ns)

    there : (d ∈ sort_nodes ns) ↔ (d ∈ ns) → d ∈ insert_node n (sort_nodes ns) → d ∈ (n ∷ ns)
    there ih h = elim (step.0 h) [ inl q ↦ inl q | inr i ↦ inr (ih.0 i) ]

    back : (d ∈ sort_nodes ns) ↔ (d ∈ ns) → d ∈ (n ∷ ns) → d ∈ insert_node n (sort_nodes ns)
    back ih (inl q) = step.1 (inl q)
    back ih (inr i) = step.1 (inr (ih.1 i))
