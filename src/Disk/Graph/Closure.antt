-- ===== src/Disk/Graph/Closure.antt =====
-- The search among the parents: what it has seen, and that its fuel lasts.
use install_mikrotik_chr_scr.Common.{
  ◌∈◌, ℕ, suc, ◌≤◌, ◌<◌, ◌≡◌, refl, sym, inl, inr, true, false, List, [], ◌∷◌, if◌then◌else◌, arith,
  Bool-cases,
}
use install_mikrotik_chr_scr.Common.Text.{Bytes, same, same_refl, same→eq, has}
use install_mikrotik_chr_scr.Disk.Graph.{
  BlockNode, NodeMap, nodes_at, is_disk, Search, safe_kinds, mark_kind, mark_seen,
}

-- The number of the names that are not in a set; a name is counted as often as it stands there.
abbrev pub unseen : List Bytes → List Bytes → ℕ
unseen [] seen = 0
unseen (u ∷ us) seen = if has u seen then unseen us seen else suc (unseen us seen)

pub has_cons : (k n : Bytes) (seen : List Bytes) → has k seen ≡ true → has k (n ∷ seen) ≡ true
has_cons k n seen h = ground (arith, h)

pub has_self : (k : Bytes) (seen : List Bytes) → has k (k ∷ seen) ≡ true
has_self k seen = ground (arith, same_refl k)

unseen-le :
    (us : List Bytes) (n : Bytes) (seen : List Bytes) → unseen us (n ∷ seen) ≤ unseen us seen
unseen-le [] n seen = omega arith
unseen-le (u ∷ us) n seen = ground (arith, unseen-le us n seen)

pub unseen-lt :
    (us : List Bytes) (n : Bytes) (seen : List Bytes)
    → has n us ≡ true
    → has n seen ≡ false
    → unseen us (n ∷ seen) < unseen us seen
unseen-lt [] n seen h k = cc
unseen-lt (u ∷ us) n seen h k = elim (Bool-cases (same n u)) [
  | inl e ↦
      let eq : n ≡ u = same→eq n u e in
      ground (arith, unseen-le us n seen, eq, k, has_self n seen, same_refl n)
  | inr e ↦ ground (arith, unseen-lt us n seen, h, k, e, same_refl u)
]

-- The nodes from `start` upwards. The parents of a disk are not followed.
pub data Above (up : NodeMap) (start : BlockNode) : BlockNode → Type 0 where
  here : Above up start start
  climb :
      {n m : BlockNode}
      → Above up start n
      → is_disk n ≡ false
      → m ∈ nodes_at n.kname up
      → Above up start m

-- What a search that has seen the node holds of it.
pub record IsDone (up : NodeMap) (s : Search) (n : BlockNode) : Type 0 where
  pub disk : is_disk n ≡ true → n ∈ s.disks
  pub kind : has n.kind safe_kinds ≡ false → has n.kind s.unsafe_types ≡ true
  pub higher :
      is_disk n ≡ false → (m : BlockNode) → m ∈ nodes_at n.kname up → has m.kname s.seen ≡ true

pub record Sound (up : NodeMap) (start : BlockNode) (s : Search) : Type 0 where
  pub disks : (d : BlockNode) → d ∈ s.disks → Above up start d × (is_disk d ≡ true)
  pub kinds :
      (k : Bytes)
      → has k s.unsafe_types ≡ true
      → (n : BlockNode) × Above up start n × (n.kind ≡ k) × (has k safe_kinds ≡ false)

pub record Extends (s t : Search) : Type 0 where
  pub seen : (k : Bytes) → has k s.seen ≡ true → has k t.seen ≡ true
  pub disks : (d : BlockNode) → d ∈ s.disks → d ∈ t.disks
  pub kinds : (k : Bytes) → has k s.unsafe_types ≡ true → has k t.unsafe_types ≡ true

pub Extends-refl : (s : Search) → Extends s s
Extends-refl s = record { seen = λ k h. h; disks = λ d h. h; kinds = λ k h. h }

pub Extends-trans : {s t u : Search} → Extends s t → Extends t u → Extends s u
Extends-trans e f = record {
  seen = λ k h. f.seen k (e.seen k h);
  disks = λ d h. f.disks d (e.disks d h);
  kinds = λ k h. f.kinds k (e.kinds k h);
}

pub unseen_mono :
    (us : List Bytes) (s t : List Bytes)
    → ((k : Bytes) → has k s ≡ true → has k t ≡ true)
    → unseen us t ≤ unseen us s
unseen_mono [] s t h = omega arith
unseen_mono (u ∷ us) s t h = ground (arith, unseen_mono us s t h, h u)

module _ (up : NodeMap) (start : BlockNode) where
  pub IsDone-Extends : {s t : Search} (n : BlockNode) → Extends s t → IsDone up s n → IsDone up t n
  IsDone-Extends n e d = record {
    disk = λ h. e.disks n (d.disk h);
    kind = λ h. e.kinds n.kind (d.kind h);
    higher = λ h m i. e.seen m.kname (d.higher h m i);
  }

  -- A part of the search: what is new in `seen` is done at its end.
  pub record Part (s t : Search) : Type 0 where
    pub extends : Extends s t
    pub fresh :
        (k : Bytes)
        → has k t.seen ≡ true
        → has k s.seen ≡ false
        → (n : BlockNode) × Above up start n × (n.kname ≡ k) × IsDone up t n
    pub sound : Sound up start s → Sound up start t

  pub Part-refl : (s : Search) → Part s s
  Part-refl s = record { extends = Extends-refl s; fresh = λ k h n. absurd (cc); sound = λ h. h }

  pub Part-trans : {s t u : Search} → Part s t → Part t u → Part s u
  Part-trans {s} {t} {u} p q = record {
    extends = Extends-trans p.extends q.extends;
    fresh = λ k h n. elim (Bool-cases (has k t.seen)) [
      | inl y ↦ let (m, a, e, d) = p.fresh k y n in (m, a, e, IsDone-Extends m q.extends d)
      | inr y ↦ q.fresh k h y
    ];
    sound = λ h. q.sound (p.sound h);
  }

  pub marked-Extends : (n : BlockNode) (s : Search) → Extends s (mark_kind n (mark_seen n s))
  marked-Extends n s = elim (Bool-cases (has n.kind safe_kinds)) [
    | inl y ↦
        rw y
          (record { seen = λ k h. has_cons k n.kname s.seen h; disks = λ d h. h; kinds = λ k h. h })
    | inr y ↦ rw y (record {
      seen = λ k h. has_cons k n.kname s.seen h;
      disks = λ d h. h;
      kinds = λ k h. has_cons k n.kind s.unsafe_types h;
    })
  ]

  pub marked-seen :
      (n : BlockNode) (s : Search) → (mark_kind n (mark_seen n s)).seen ≡ n.kname ∷ s.seen
  marked-seen n s = elim (Bool-cases (has n.kind safe_kinds)) [
    | inl y ↦ rw y refl
    | inr y ↦ rw y refl
  ]

  pub marked-kind :
      (n : BlockNode) (s : Search)
      → has n.kind safe_kinds ≡ false
      → has n.kind (mark_kind n (mark_seen n s)).unsafe_types ≡ true
  marked-kind n s h = rw h (has_self n.kind s.unsafe_types)

  pub marked-Sound :
      (n : BlockNode) (s : Search)
      → Above up start n
      → Sound up start s
      → Sound up start (mark_kind n (mark_seen n s))
  marked-Sound n s a v = elim (Bool-cases (has n.kind safe_kinds)) [
    | inl y ↦ rw y (record { disks = v.disks; kinds = v.kinds })
    | inr y ↦ rw y (record {
      disks = v.disks;
      kinds = λ k h. elim (Bool-cases (same k n.kind)) [
        | inl e ↦ let eq : k ≡ n.kind = same→eq k n.kind e in (n, a, sym eq, rw eq y)
        | inr e ↦ v.kinds k (ground (arith, h, e))
      ];
    })
  ]
