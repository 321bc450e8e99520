-- ===== src/Disk/Vpd/Best.antt =====
-- Which identity of a page is chosen.
use install_mikrotik_chr_scr.Common.{
  ℕ, ◌+◌, ◌*◌, ◌≤◌, ◌<◌, ◌≡◌, ◌≢◌, refl, ap, inl, inr, ◌⊎◌, List, [], ◌∷◌, ◌++◌, Option, none, some,
  leb, length, get_or, All, All-map, arith, Bool-cases,
}
use install_mikrotik_chr_scr.Common.Text.{Bytes}
use install_mikrotik_chr_scr.Common.Slices.{Run, value, panic, ◌>>=◌, at-value, u16_be-value}
use install_mikrotik_chr_scr.Disk.Vpd.{
  VpdIdentity, insert_by_rank, sort_by_rank, first_of_sorted, best_of, parse_vpd83, vpd_loop,
}
use install_mikrotik_chr_scr.Disk.Vpd.Page.{Descriptors, vpd_loop-Descriptors}

-- `i` is in the list, before it all ranks are higher, and behind it none is lower.
pub record IsBest (i : VpdIdentity) (ids : List VpdIdentity) : Type 0 where
  pub earlier : List VpdIdentity
  pub later : List VpdIdentity
  pub splits : ids ≡ earlier ++ (i ∷ later)
  pub above : All (λ j. i.rank < j.rank) earlier
  pub not_below : All (λ j. i.rank ≤ j.rank) later

insert_first :
    (x : VpdIdentity) (js : List VpdIdentity) {i : VpdIdentity}
    → first_of_sorted (insert_by_rank x js) ≡ some i
    → ((x ≡ i) × ((j : VpdIdentity) → first_of_sorted js ≡ some j → x.rank ≤ j.rank))
      ⊎ ((first_of_sorted js ≡ some i) × (i.rank < x.rank))
unfolding insert_by_rank
insert_first x [] h = inl (cc, λ j e. cc)
insert_first x (j ∷ js) {i} h = elim (Bool-cases (leb x.rank j.rank)) [
  | inl le ↦
      let q : some x ≡ some i = rw le at h in
      inl (cc, λ k e. let same : j ≡ k = cc in rw (← same) (ground (arith, le)))
  | inr gt ↦
      let q : some j ≡ some i = rw gt at h in
      let same : j ≡ i = cc in inr (q, rw (← same) (ground (arith, gt)))
]

sort_nil : (ids : List VpdIdentity) → first_of_sorted (sort_by_rank ids) ≡ none → ids ≡ []
unfolding sort_by_rank
sort_nil [] h = refl
sort_nil (x ∷ ids) h = absurd (never x (sort_by_rank ids) h)
  where
    never : (x : VpdIdentity) (js : List VpdIdentity) → first_of_sorted (insert_by_rank x js) ≢ none
    never x [] = unfold insert_by_rank in λ e. cc
    never x (j ∷ js) =
        unfold insert_by_rank in
        elim (Bool-cases (leb x.rank j.rank)) [
          | inl le ↦ rw le (λ e. cc)
          | inr gt ↦ rw gt (λ e. cc)
        ]

All-not_below :
    (n : ℕ) (i : VpdIdentity) (ids : List VpdIdentity)
    → IsBest i ids
    → n ≤ i.rank
    → All (λ j. n ≤ j.rank) ids
All-not_below n i ids b h = rw b.splits (
    join b.earlier (All-map _ _ (λ j g. omega arith) b.earlier b.above)
      (h, All-map _ _ (λ j g. omega arith) b.later b.not_below))
  where
    join :
        (xs : List VpdIdentity)
        → All (λ j. n ≤ j.rank) xs
        → All (λ j. n ≤ j.rank) (i ∷ b.later)
        → All (λ j. n ≤ j.rank) (xs ++ (i ∷ b.later))
    join [] a c = c
    join (x ∷ xs) a c = (a.0, join xs a.1 c)

sort_first :
    (ids : List VpdIdentity) (i : VpdIdentity)
    → first_of_sorted (sort_by_rank ids) ≡ some i
    → IsBest i ids
unfolding sort_by_rank
sort_first [] i h = absurd (cc)
sort_first (x ∷ ids) i h = elim (insert_first x (sort_by_rank ids) h) [
  | inr (e, lt) ↦
      let b : IsBest i ids = sort_first ids i e in
      record {
        earlier = x ∷ b.earlier;
        later = b.later;
        splits = ap (λ t. x ∷ t) b.splits;
        above = (lt, b.above);
        not_below = b.not_below;
      }
  | inl (same, least) ↦ record {
    earlier = [];
    later = ids;
    splits = ap (λ t. t ∷ ids) same;
    above = tt;
    not_below =
        rest (first_of_sorted (sort_by_rank ids)) refl same least (λ j e. sort_first ids j e);
  }
]
  where
    rest :
        (o : Option VpdIdentity)
        → first_of_sorted (sort_by_rank ids) ≡ o
        → x ≡ i
        → ((j : VpdIdentity) → first_of_sorted (sort_by_rank ids) ≡ some j → x.rank ≤ j.rank)
        → ((j : VpdIdentity) → first_of_sorted (sort_by_rank ids) ≡ some j → IsBest j ids)
        → All (λ j. i.rank ≤ j.rank) ids
    rest none e same least ih = rw (sort_nil ids e) tt
    rest (some j) e same least ih = All-not_below i.rank j ids (ih j e) (rw (← same) (least j e))

-- What a page with an identity holds: it is page 0x83, its length fits the data and is made up of
-- descriptors, and the identity is the first of the lowest rank among theirs.
pub record IsBestOfPage (b : Bytes) (i : VpdIdentity) : Type 0 where
  pub size : ℕ
  pub page_is : get_or b 1 0 ≡ 0x83
  pub size_is : size ≡ 256 * get_or b 2 0 + get_or b 3 0
  pub fits : 4 + size ≤ length b
  pub found : List VpdIdentity
  pub descriptors : Descriptors b (4 + size) 4 found
  pub best : IsBest i found

page_outcome :
    (b : Bytes) (i : VpdIdentity)
    → parse_vpd83 b ≡ value (some i)
    → (get_or b 1 0 ≡ 0x83)
      × (4 + (256 * get_or b 2 0 + get_or b 3 0) ≤ length b)
      × ((vpd_loop
              (256 * get_or b 2 0 + get_or b 3 0)
              b
              (4 + (256 * get_or b 2 0 + get_or b 3 0))
              4
              []
            >>= λ ids. value (best_of ids))
          ≡ value (some i))
unfolding parse_vpd83
page_outcome b i h = ground (arith, h, at-value b 1, u16_be-value b 2)

chosen :
    (r : Run (Option (List VpdIdentity))) (i : VpdIdentity)
    → (r >>= λ ids. value (best_of ids)) ≡ value (some i)
    → (ids : List VpdIdentity) × (r ≡ value (some ids)) × IsBest i ids
chosen panic i h = cc
chosen (value none) i h = absurd (ground arith)
chosen (value (some ids)) i h = (ids, refl, sort_first ids i (ground arith))

-- An identity that `parseVPD83` returns comes from a page 0x83 whose length fits the data and which
-- descriptors, one behind the other, fill to its end; of the identities of all descriptors that have
-- a payload and describe the logical unit, in the order of the page, it is the first of the lowest
-- rank: those before it rank higher, none behind it ranks lower.
pub parse_vpd83-IsBestOfPage :
    (b : Bytes) (i : VpdIdentity) → parse_vpd83 b ≡ value (some i) → IsBestOfPage b i
parse_vpd83-IsBestOfPage b i h =
    let (page, fits, rest) = page_outcome b i h in
    let (ids, reads, best) = chosen _ i rest in
    record {
      size = 256 * get_or b 2 0 + get_or b 3 0;
      page_is = page;
      size_is = refl;
      fits = fits;
      found = ids;
      descriptors = vpd_loop-Descriptors b (256 * get_or b 2 0 + get_or b 3 0) ids fits reads;
      best = best;
    }
