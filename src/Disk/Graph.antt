-- ===== src/Disk/Graph.antt =====
-- internal/disk/detect.go: the graph of the block devices that `lsblk` lists, and the two searches in
-- it. A pointer to a node is the node: nodes do not change once read, and the code tells them apart
-- by their kernel names.
pub mod Closure
pub mod Backing
pub mod Once
pub mod Sole
pub mod Listing
use install_mikrotik_chr_scr.Common.{
  ℕ, zero, suc, ◌+◌, Bool, true, false, not, ◌&&◌, ◌||◌, List, [], ◌∷◌, ◌++◌, Option, none, some,
  if◌then◌else◌, length,
}
use install_mikrotik_chr_scr.Common.Text.{
  Bytes, text, same, is_empty, trim_space, cut_at, has, at_most, insert_text, sort_texts,
  last_element,
}

-- A `blockNode` without its children. A mount point that is no string is `none`.
pub record BlockNode : Type 0 where
  pub name : Bytes
  pub kname : Bytes
  pub path : Bytes
  pub kind : Bytes
  pub pkname : Bytes
  pub size : ℕ
  pub transport : Bytes
  pub major_minor : Bytes
  pub read_only : Bool
  pub removable : Bool
  pub mountpoints : List (Option Bytes)

-- The nodes of the document, each with its children.
mutual
  pub data Tree : Type 0 where
    tree : BlockNode → Forest → Tree

  pub data Forest : Type 0 where
    leaf : Forest
    grow : Tree → Forest → Forest

-- A map from kernel names to lists of nodes: an entry holds what was appended last.
abbrev pub NodeMap : Type 0
NodeMap = List (Bytes × List BlockNode)

abbrev pub nodes_at : Bytes → NodeMap → List BlockNode
nodes_at k [] = []
nodes_at k ((key, ns) ∷ m) = let rest = nodes_at k m in if same key k then ns else rest

pub record DiskGraph : Type 0 where
  pub by_key : List (Bytes × BlockNode)
  pub parents : NodeMap
  pub children : NodeMap
  pub disks : List BlockNode

abbrev pub node_at : Bytes → List (Bytes × BlockNode) → Option BlockNode
node_at k [] = none
node_at k ((key, n) ∷ m) = let rest = node_at k m in if same key k then some n else rest

-- `appendUnique`.
unfoldable pub append_unique : List BlockNode → BlockNode → List BlockNode
append_unique [] c = c ∷ []
append_unique (n ∷ ns) c =
    let rest = append_unique ns c in if same n.kname c.kname then n ∷ ns else n ∷ rest

-- The two assignments that make `parent` a parent of `node`.
unfoldable pub connect : BlockNode → BlockNode → DiskGraph → DiskGraph
connect parent node g = record g {
  parents = (node.kname, append_unique (nodes_at node.kname g.parents) parent) ∷ g.parents;
  children = (parent.kname, append_unique (nodes_at parent.kname g.children) node) ∷ g.children;
}

abbrev pub connect_to : Option BlockNode → BlockNode → DiskGraph → DiskGraph
connect_to none node g = g
connect_to (some parent) node g = connect parent node g

-- The keys under which a node is found, without the two that are skipped.
abbrev pub add_key : BlockNode → Bytes → DiskGraph → DiskGraph
add_key n key g =
    if is_empty key || same key (text "/dev/") then g else record g { by_key = (key, n) ∷ g.by_key }

abbrev pub add_keys : BlockNode → List Bytes → DiskGraph → DiskGraph
add_keys n [] g = g
add_keys n (key ∷ keys) g = add_keys n keys (add_key n key g)

abbrev pub node_keys : BlockNode → List Bytes
node_keys n = n.name ∷ n.kname ∷ n.path ∷ (text "/dev/" ++ n.name) ∷ (text "/dev/" ++ n.kname) ∷ []

abbrev pub is_disk : BlockNode → Bool
is_disk n = same n.kind (text "disk")

abbrev pub add_disk : BlockNode → DiskGraph → DiskGraph
add_disk n g = if is_disk n then record g { disks = g.disks ++ n ∷ [] } else g

-- What `walk` does at a node, before its children.
unfoldable pub enter_node : Option BlockNode → BlockNode → DiskGraph → DiskGraph
enter_node parent n g = connect_to parent n (add_disk n (add_keys n (node_keys n) g))

unfoldable mutual
  pub walk_tree : Tree → Option BlockNode → DiskGraph → DiskGraph
  walk_tree (tree n children) parent g = walk children (some n) (enter_node parent n g)

  pub walk : Forest → Option BlockNode → DiskGraph → DiskGraph
  walk leaf parent g = g
  walk (grow t ts) parent g = walk ts parent (walk_tree t parent g)

abbrev pub empty_graph : DiskGraph
empty_graph = record { by_key = []; parents = []; children = []; disks = [] }

-- `lookup`: the key without the part from a bracket on, or else its last path element.
abbrev before_bracket : Bytes → Option (Bytes × Bytes) → Bytes
before_bracket key none = key
before_bracket key (some (base, rest)) = base

abbrev pub lookup_key : Bytes → Bytes
lookup_key key = before_bracket (trim_space key) (cut_at b'[' (trim_space key))

abbrev pub or_base : Bytes → DiskGraph → Option BlockNode → Option BlockNode
or_base key g none = node_at (last_element key) g.by_key
or_base key g (some n) = some n

unfoldable pub lookup_node : DiskGraph → Bytes → Option BlockNode
unfolding cut_at
lookup_node g key = or_base (lookup_key key) g (node_at (lookup_key key) g.by_key)

-- The loop over the map of the keys, whose nodes come in an order that Go leaves open.
unfoldable pub link_parents : List BlockNode → DiskGraph → DiskGraph
link_parents [] g = g
link_parents (n ∷ ns) g =
    link_parents ns (if is_empty n.pkname then g else connect_to (lookup_node g n.pkname) n g)

-- `parseGraph`, of the decoded document and the order in which Go goes through the map.
unfoldable pub parse_graph : Forest → (List (Bytes × BlockNode) → List BlockNode) → DiskGraph
parse_graph devices order = let g = walk devices none empty_graph in link_parents (order g.by_key) g

-- The three maps of `backingDisks`; those of knames to nodes and of types to `true` are lists.
pub record Search : Type 0 where
  pub seen : List Bytes
  pub disks : List BlockNode
  pub unsafe_types : List Bytes

abbrev pub safe_kinds : List Bytes
safe_kinds = text "disk" ∷ text "part" ∷ text "crypt" ∷ text "lvm" ∷ []

abbrev pub mark_kind : BlockNode → Search → Search
mark_kind n s =
    if has n.kind safe_kinds then s else record s { unsafe_types = n.kind ∷ s.unsafe_types }

abbrev pub mark_seen : BlockNode → Search → Search
mark_seen n s = record s { seen = n.kname ∷ s.seen }

abbrev pub mark_disk : BlockNode → Search → Search
mark_disk n s = record s { disks = n ∷ s.disks }

-- A loop that passes a state on.
abbrev pub each : {S : Type 0} → (BlockNode → S → S) → List BlockNode → S → S
each f [] s = s
each f (n ∷ ns) s = each f ns (f n s)

-- `visit`, on fuel.
pub visit : NodeMap → ℕ → BlockNode → Search → Search
visit up zero n s = s
visit up (suc fuel) n s =
    let found = mark_kind n (mark_seen n s) in
    let higher = each (visit up fuel) (nodes_at n.kname up) found in
    if has n.kname s.seen then s else if is_disk n then mark_disk n found else higher

abbrev pub knames : List BlockNode → List Bytes
knames [] = []
knames (n ∷ ns) = n.kname ∷ knames ns

-- The kernel names that a search can meet.
abbrev pub names_in : NodeMap → List Bytes
names_in [] = []
names_in ((key, ns) ∷ m) = knames ns ++ names_in m

-- `sort.Slice` by the kernel name.
pub insert_node : BlockNode → List BlockNode → List BlockNode
insert_node n [] = n ∷ []
insert_node n (m ∷ ms) =
    let rest = insert_node n ms in if at_most n.kname m.kname then n ∷ m ∷ ms else m ∷ rest

pub sort_nodes : List BlockNode → List BlockNode
sort_nodes [] = []
sort_nodes (n ∷ ns) = insert_node n (sort_nodes ns)

-- The keys of a set of strings.
abbrev pub distinct : List Bytes → List Bytes
distinct [] = []
distinct (t ∷ ts) = let rest = distinct ts in if has t ts then rest else t ∷ rest

-- `backingDisks`. The search enters no kernel name twice.
pub search_up : DiskGraph → BlockNode → Search
search_up g start =
    visit g.parents (suc (length (names_in g.parents))) start
      (record { seen = []; disks = []; unsafe_types = [] })

pub backing_disks : DiskGraph → BlockNode → List BlockNode × List Bytes
backing_disks g start =
    let s = search_up g start in (sort_nodes s.disks, sort_texts (distinct s.unsafe_types))

abbrev pub is_mounted : List (Option Bytes) → Bool
is_mounted [] = false
is_mounted (none ∷ ms) = is_mounted ms
is_mounted (some m ∷ ms) = not (is_empty (trim_space m)) || is_mounted ms

-- A loop that ends early once something is found.
abbrev pub until_found :
    (BlockNode → List Bytes → Bool × List Bytes) → List BlockNode → List Bytes → Bool × List Bytes
until_found f [] seen = (false, seen)
until_found f (n ∷ ns) seen =
    let rest = until_found f ns (f n seen).1 in if (f n seen).0 then (true, (f n seen).1) else rest

-- The search of `hasMountedDescendant`: what was found, and the map `seen`.
pub visit_down : NodeMap → ℕ → BlockNode → List Bytes → Bool × List Bytes
visit_down down zero n seen = (false, seen)
visit_down down (suc fuel) n seen =
    let below = until_found (visit_down down fuel) (nodes_at n.kname down) (n.kname ∷ seen) in
    if has n.kname seen
    then (false, seen)
    else if is_mounted n.mountpoints
    then (true, n.kname ∷ seen)
    else below

pub has_mounted_descendant : DiskGraph → BlockNode → Bool
has_mounted_descendant g start =
    (visit_down g.children (suc (length (names_in g.children))) start []).0
