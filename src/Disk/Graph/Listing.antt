-- ===== src/Disk/Graph/Listing.antt =====
-- The nodes of the graph are those of the listing it is built from.
use install_mikrotik_chr_scr.Common.{
  ◌≡◌, refl, sym, ◌∙◌, subst, ◌⊎◌, inl, inr, ◌∈◌, ◌||◌, List, [], ◌∷◌, Option, none, some,
  Bool-cases, if-true, if-false,
}
use install_mikrotik_chr_scr.Common.Text.{Bytes, text, same, is_empty}
use install_mikrotik_chr_scr.Disk.Graph.{
  BlockNode, Tree, Forest, tree, leaf, grow, nodes_at, DiskGraph, node_at, append_unique, connect,
  connect_to, add_key, add_keys, node_keys, add_disk, enter_node, walk_tree, walk, empty_graph,
  or_base, lookup_key, lookup_node, link_parents, parse_graph,
}
use install_mikrotik_chr_scr.Disk.Graph.Closure.{Above, here, climb}
use install_mikrotik_chr_scr.Disk.Graph.Sole.{SameKinds}

-- A node is in a listing.
unfoldable mutual
  pub InTree : BlockNode → Tree → Type 0
  InTree n (tree m ts) = (n ≡ m) ⊎ InForest n ts

  pub InForest : BlockNode → Forest → Type 0
  InForest n leaf = ⊥
  InForest n (grow t ts) = InTree n t ⊎ InForest n ts

abbrev pub OneKind : Forest → Type 0
OneKind devices =
    (n m : BlockNode)
    → InForest n devices
    → InForest m devices
    → n.kname ≡ m.kname
    → n.kind ≡ m.kind

module _ (P : BlockNode → Type 0) where
  record IsFrom (g : DiskGraph) : Type 0 where
    keys : (k : Bytes) (n : BlockNode) → node_at k g.by_key ≡ some n → P n
    parents : (k : Bytes) (n : BlockNode) → n ∈ nodes_at k g.parents → P n

  append_unique_from :
      (ns : List BlockNode) (c n : BlockNode)
      → P c
      → ((m : BlockNode) → m ∈ ns → P m)
      → n ∈ append_unique ns c
      → P n
  unfolding append_unique
  append_unique_from [] c n p all (inl q) = subst P (sym q) p
  append_unique_from [] c n p all (inr i) = absurd i
  append_unique_from (x ∷ ns) c n p all i = elim (Bool-cases (same x.kname c.kname)) [
    | inl e ↦ all n (subst (λ t. n ∈ t) (if-true _ _ e) i)
    | inr e ↦ elim (subst (λ t. n ∈ t) (if-false _ _ e) i) [
      | inl q ↦ all n (inl q)
      | inr j ↦ append_unique_from ns c n p (λ m k. all m (inr k)) j
    ]
  ]

  connect-IsFrom :
      (parent node : BlockNode) (g : DiskGraph)
      → P parent
      → IsFrom g
      → IsFrom (connect parent node g)
  unfolding connect
  connect-IsFrom parent node g p v = record {
    keys = v.keys;
    parents = λ k n i. elim (Bool-cases (same node.kname k)) [
      | inl e ↦
          append_unique_from (nodes_at node.kname g.parents) parent n p (v.parents node.kname)
            (subst (λ t. n ∈ t) (if-true _ _ e) i)
      | inr e ↦ v.parents k n (subst (λ t. n ∈ t) (if-false _ _ e) i)
    ];
  }

  connect_to-IsFrom :
      (o : Option BlockNode) (node : BlockNode) (g : DiskGraph)
      → ((m : BlockNode) → o ≡ some m → P m)
      → IsFrom g
      → IsFrom (connect_to o node g)
  connect_to-IsFrom none node g p v = v
  connect_to-IsFrom (some m) node g p v = connect-IsFrom m node g (p m refl) v

  some_inj : (n m : BlockNode) → some n ≡ some m → P n → P m
  some_inj n m e p = let q : n ≡ m = cc e in subst (λ t. P t) q p

  add_key-IsFrom :
      (n : BlockNode) (key : Bytes) (g : DiskGraph) → P n → IsFrom g → IsFrom (add_key n key g)
  add_key-IsFrom n key g p v = elim (Bool-cases (is_empty key || same key (text "/dev/"))) [
    | inl e ↦ subst IsFrom (sym (if-true _ _ e)) v
    | inr e ↦ subst IsFrom (sym (if-false _ _ e)) record {
      keys = λ k m h. elim (Bool-cases (same key k)) [
        | inl q ↦ some_inj n m (sym (if-true _ _ q) ∙ h) p
        | inr q ↦ v.keys k m (sym (if-false _ _ q) ∙ h)
      ];
      parents = v.parents;
    }
  ]

  add_keys-IsFrom :
      (n : BlockNode) (keys : List Bytes) (g : DiskGraph)
      → P n
      → IsFrom g
      → IsFrom (add_keys n keys g)
  add_keys-IsFrom n [] g p v = v
  add_keys-IsFrom n (key ∷ keys) g p v =
      add_keys-IsFrom n keys (add_key n key g) p (add_key-IsFrom n key g p v)

  add_disk-IsFrom : (n : BlockNode) (g : DiskGraph) → IsFrom g → IsFrom (add_disk n g)
  add_disk-IsFrom n g v = elim (Bool-cases (same n.kind (text "disk"))) [
    | inl e ↦ subst IsFrom (sym (if-true _ _ e)) record { keys = v.keys; parents = v.parents }
    | inr e ↦ subst IsFrom (sym (if-false _ _ e)) v
  ]

  enter_node-IsFrom :
      (o : Option BlockNode) (n : BlockNode) (g : DiskGraph)
      → ((m : BlockNode) → o ≡ some m → P m)
      → P n
      → IsFrom g
      → IsFrom (enter_node o n g)
  unfolding enter_node
  enter_node-IsFrom o n g q p v =
      connect_to-IsFrom o n _ q (add_disk-IsFrom n _ (add_keys-IsFrom n (node_keys n) g p v))

  mutual
    unfolding walk_tree walk InTree InForest

    walk_tree-IsFrom :
        (t : Tree) (o : Option BlockNode) (g : DiskGraph)
        → ((n : BlockNode) → InTree n t → P n)
        → ((m : BlockNode) → o ≡ some m → P m)
        → IsFrom g
        → IsFrom (walk_tree t o g)
    walk_tree-IsFrom (tree n ts) o g all q v =
        walk-IsFrom ts (some n) (enter_node o n g) (λ m i. all m (inr i))
          (λ m e. some_inj n m e (all n (inl refl)))
          (enter_node-IsFrom o n g q (all n (inl refl)) v)

    walk-IsFrom :
        (ts : Forest) (o : Option BlockNode) (g : DiskGraph)
        → ((n : BlockNode) → InForest n ts → P n)
        → ((m : BlockNode) → o ≡ some m → P m)
        → IsFrom g
        → IsFrom (walk ts o g)
    walk-IsFrom leaf o g all q v = v
    walk-IsFrom (grow t ts) o g all q v =
        walk-IsFrom ts o (walk_tree t o g) (λ n i. all n (inr i)) q
          (walk_tree-IsFrom t o g (λ n i. all n (inl i)) q v)

  lookup_node_from :
      (g : DiskGraph) (key : Bytes) (n : BlockNode) → IsFrom g → lookup_node g key ≡ some n → P n
  unfolding lookup_node
  lookup_node_from g key n v h = go (node_at (lookup_key key) g.by_key) refl h
    where
      go :
          (o : Option BlockNode)
          → node_at (lookup_key key) g.by_key ≡ o
          → or_base (lookup_key key) g o ≡ some n
          → P n
      go none e q = v.keys _ n q
      go (some m) e q = v.keys _ n (e ∙ q)

  link_parents-IsFrom :
      (ns : List BlockNode) (g : DiskGraph) → IsFrom g → IsFrom (link_parents ns g)
  unfolding link_parents
  link_parents-IsFrom [] g v = v
  link_parents-IsFrom (n ∷ ns) g v =
      link_parents-IsFrom ns _ (elim (Bool-cases (is_empty n.pkname)) [
        | inl e ↦ subst IsFrom (sym (if-true _ _ e)) v
        | inr e ↦ subst IsFrom (sym (if-false _ _ e)) (
            connect_to-IsFrom (lookup_node g n.pkname) n g
              (λ m h. lookup_node_from g n.pkname m v h) v)
      ])

  above_from :
      (g : DiskGraph) (start n : BlockNode) → IsFrom g → P start → Above g.parents start n → P n
  above_from g start n v p here = p
  above_from g start n v p (climb {n = m} a d i) = v.parents m.kname n i

parse_graph-IsFrom :
    (devices : Forest) (order : List (Bytes × BlockNode) → List BlockNode)
    → IsFrom (λ n. InForest n devices) (parse_graph devices order)
unfolding parse_graph
parse_graph-IsFrom devices order = link_parents-IsFrom _ _ _ (
    walk-IsFrom _ devices none empty_graph (λ n i. i) (λ m e. cc)
      (record { keys = λ k n e. cc; parents = λ k n i. absurd i }))

-- In a listing in which the nodes of one kernel name have one type, so do the nodes above any node
-- that is looked up.
pub lookup_node-SameKinds :
    (devices : Forest) (order : List (Bytes × BlockNode) → List BlockNode) (key : Bytes)
    (start : BlockNode)
    → OneKind devices
    → lookup_node (parse_graph devices order) key ≡ some start
    → SameKinds (parse_graph devices order) start
lookup_node-SameKinds devices order key start one h n m a b =
    let v = parse_graph-IsFrom devices order in
    let p = lookup_node_from _ _ key start v h in
    one n m (above_from _ _ start n v p a) (above_from _ _ start m v p b)
