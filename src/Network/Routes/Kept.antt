-- ===== src/Network/Routes/Kept.antt =====
-- What the routes and the rules are when their inspection finds no blocker.
use install_mikrotik_chr_scr.Common.{
  ◌≡◌, ◌==◌, refl, sym, ap, subst, ◌⊎◌, inl, inr, ◌∈◌, Bool, true, false, not, ◌&&◌, ◌||◌, List, [],
  ◌∷◌, Option, none, some, if◌then◌else◌, arith, Bool-cases, if-true, if-false, and-eq-true, Answer,
  failed, garbled, decoded,
}
use install_mikrotik_chr_scr.Common.Text.{Bytes, text, same, same→eq, is_empty}
use install_mikrotik_chr_scr.Common.Int.{ℤ, pos, negsuc, leb_ℤ}
use install_mikrotik_chr_scr.Model.{
  blocker, Issue, note, note_if, any_blocker, any_blocker-++_false,
}
use install_mikrotik_chr_scr.Network.Address.{NetIp, NetTools}
use install_mikrotik_chr_scr.Network.Routes.{
  Route, Family, is_default_route, default_routes, insert_route, sort_routes, same_hop,
  all_same_hop, pick_default, select_default, is_automatic, is_gateway_host_route, reaches_gateway,
  inspect_route, inspect_route_set, is_kernel_rule, inspect_priorities, inspect_rule_answer,
  inspect_rules, AddressInfo, DriverFile, is_other_uplink, other_uplinks,
  inspect_additional_physical_uplinks,
}

pub note_if-clear :
    (b : Bool) (code : Bytes) (rest : List Issue)
    → any_blocker (note_if b blocker code rest) ≡ false
    → (b ≡ false) × (any_blocker rest ≡ false)
unfolding any_blocker
note_if-clear true code rest h = cc
note_if-clear false code rest h = (refl, h)

in_default_routes :
    (r : Route) (rs : List Route)
    → r ∈ rs
    → is_default_route r.destination ≡ true
    → r ∈ default_routes rs
in_default_routes r [] i d = absurd i
in_default_routes r (x ∷ rs) (inl q) d =
    subst (λ t. r ∈ t) (sym (if-true _ _ (subst (λ t. is_default_route t.destination ≡ true) q d)))
      (inl q)
in_default_routes r (x ∷ rs) (inr i) d = elim (Bool-cases (is_default_route x.destination)) [
  | inl e ↦ subst (λ t. r ∈ t) (sym (if-true _ _ e)) (inr (in_default_routes r rs i d))
  | inr e ↦ subst (λ t. r ∈ t) (sym (if-false _ _ e)) (in_default_routes r rs i d)
]

in_insert_route : (r x : Route) (rs : List Route) → r ∈ (x ∷ rs) → r ∈ insert_route x rs
in_insert_route r x [] i = i
in_insert_route r x (y ∷ rs) i = elim (Bool-cases (leb_ℤ x.metric y.metric)) [
  | inl e ↦ subst (λ t. r ∈ t) (sym (if-true _ _ e)) i
  | inr e ↦ subst (λ t. r ∈ t) (sym (if-false _ _ e)) (deeper i (λ j. in_insert_route r x rs j))
]
  where
    deeper : r ∈ (x ∷ y ∷ rs) → (r ∈ (x ∷ rs) → r ∈ insert_route x rs) → r ∈ (y ∷ insert_route x rs)
    deeper (inl q) below = inr (below (inl q))
    deeper (inr (inl q)) below = inl q
    deeper (inr (inr j)) below = inr (below (inr j))

in_sort_routes : (r : Route) (rs : List Route) → r ∈ rs → r ∈ sort_routes rs
in_sort_routes r [] i = i
in_sort_routes r (x ∷ rs) (inl q) = in_insert_route r x _ (inl q)
in_sort_routes r (x ∷ rs) (inr i) = in_insert_route r x _ (inr (in_sort_routes r rs i))

in_same_hop :
    (s r : Route) (rs : List Route) → all_same_hop s rs ≡ true → r ∈ rs → same_hop r s ≡ true
in_same_hop s r [] h i = absurd i
in_same_hop s r (x ∷ rs) h (inl q) =
    subst (λ t. same_hop t s ≡ true) (sym q) (and-eq-true (same_hop x s) (all_same_hop s rs) h).0
in_same_hop s r (x ∷ rs) h (inr i) =
    in_same_hop s r rs (and-eq-true (same_hop x s) (all_same_hop s rs) h).1 i

abbrev pub SameHop : Option Route → Route → Type 0
SameHop default r =
    (d : Route) × (default ≡ some d) × (r.device ≡ d.device) × (r.gateway ≡ d.gateway)

pick_default-SameHop :
    (r : Route) (rs : List Route)
    → any_blocker (pick_default rs).1 ≡ false
    → r ∈ rs
    → SameHop (pick_default rs).0 r
unfolding any_blocker
pick_default-SameHop r [] c i = absurd i
pick_default-SameHop r (x ∷ rs) c (inl q) = (x, refl, ap (λ t. t.device) q, ap (λ t. t.gateway) q)
pick_default-SameHop r (x ∷ rs) c (inr i) =
    let (e, u) = note_if-clear (not (all_same_hop x rs)) _ [] c in
    let (d, g) = and-eq-true _ _ (in_same_hop x r rs (ground (arith, e)) i) in
    (x, refl, same→eq _ _ d, same→eq _ _ g)

-- Without a blocker, all default routes are the selected one's.
pub select_default-SameHop :
    (routes : List Route)
    → any_blocker (select_default routes).1 ≡ false
    → (r : Route) → r ∈ routes
    → is_default_route r.destination ≡ true
    → SameHop (select_default routes).0 r
unfolding select_default
select_default-SameHop routes c r i d =
    pick_default-SameHop r _ c (in_sort_routes r _ (in_default_routes r routes i d))

abbrev pub OnDevice : Bytes → Route → Type 0
OnDevice interface r = (is_empty r.device ≡ true) ⊎ (r.device ≡ interface)

abbrev pub HasKernelPriority : ℤ → Type 0
HasKernelPriority p = (p ≡ pos 0) ⊎ ((p ≡ pos 32766) ⊎ (p ≡ pos 32767))

abbrev pub AllKernelPriorities : Answer (List ℤ) → Type 0
AllKernelPriorities a = (ps : List ℤ) × (a ≡ decoded ps) × ((p : ℤ) → p ∈ ps → HasKernelPriority p)

is_kernel_rule-HasKernelPriority : (p : ℤ) → is_kernel_rule p ≡ true → HasKernelPriority p
is_kernel_rule-HasKernelPriority (pos n) h = elim (Bool-cases (n == 0)) [
  | inl e ↦ inl (ap pos (ground (arith, e)))
  | inr e ↦ elim (Bool-cases (n == 32766)) [
    | inl f ↦ inr (inl (ap pos (ground (arith, f))))
    | inr f ↦ inr (inr (ap pos (ground (arith, e, f, h))))
  ]
]
is_kernel_rule-HasKernelPriority (negsuc n) h = cc h

inspect_priorities-clear :
    (ps : List ℤ)
    → any_blocker (inspect_priorities ps) ≡ false
    → (p : ℤ) → p ∈ ps
    → HasKernelPriority p
inspect_priorities-clear [] c p i = absurd i
inspect_priorities-clear (q ∷ ps) c p i =
    let (e, rest) = note_if-clear (not (is_kernel_rule q)) _ _ c in
    elim i [
      | inl s ↦
          subst HasKernelPriority (sym s) (is_kernel_rule-HasKernelPriority q (ground (arith, e)))
      | inr j ↦ inspect_priorities-clear ps rest p j
    ]

inspect_rule_answer-clear :
    (a : Answer (List ℤ)) → any_blocker (inspect_rule_answer a) ≡ false → AllKernelPriorities a
unfolding any_blocker
inspect_rule_answer-clear failed c = cc
inspect_rule_answer-clear garbled c = cc
inspect_rule_answer-clear (decoded ps) c = (ps, refl, inspect_priorities-clear ps c)

pub inspect_rules-clear :
    (rules4 rules6 : Answer (List ℤ))
    → any_blocker (inspect_rules rules4 rules6) ≡ false
    → AllKernelPriorities rules4 × AllKernelPriorities rules6
unfolding inspect_rules
inspect_rules-clear rules4 rules6 c =
    let (a, b) = any_blocker-++_false (inspect_rule_answer rules4) _ c in
    (inspect_rule_answer-clear rules4 a, inspect_rule_answer-clear rules6 b)

other_uplinks-clear :
    (drivers : Bytes → DriverFile) (selected : Bytes) (is : List (Bytes × List AddressInfo))
    → any_blocker (other_uplinks drivers selected is) ≡ false
    → (i : Bytes × List AddressInfo) → i ∈ is
    → is_other_uplink drivers selected i ≡ false
other_uplinks-clear drivers selected [] c i m = absurd m
other_uplinks-clear drivers selected (x ∷ is) c i m =
    let (e, rest) = note_if-clear (is_other_uplink drivers selected x) _ _ c in
    elim m [
      | inl s ↦ subst (λ t. is_other_uplink drivers selected t ≡ false) (sym s) e
      | inr j ↦ other_uplinks-clear drivers selected is rest i j
    ]

-- No other interface with a driver has a global address.
abbrev pub IsAlone :
    (Bytes → DriverFile) → Bytes → Answer (List (Bytes × List AddressInfo)) → Type 0
IsAlone drivers selected a =
    (is : List (Bytes × List AddressInfo)) × (a ≡ decoded is)
    × ((i : Bytes × List AddressInfo) → i ∈ is → is_other_uplink drivers selected i ≡ false)

pub inspect_additional_physical_uplinks-clear :
    (drivers : Bytes → DriverFile) (selected : Bytes) (a : Answer (List (Bytes × List AddressInfo)))
    → any_blocker (inspect_additional_physical_uplinks drivers selected a) ≡ false
    → IsAlone drivers selected a
unfolding any_blocker inspect_additional_physical_uplinks
inspect_additional_physical_uplinks-clear drivers selected failed c = cc
inspect_additional_physical_uplinks-clear drivers selected garbled c = cc
inspect_additional_physical_uplinks-clear drivers selected (decoded is) c =
    (is, refl, other_uplinks-clear drivers selected is c)

pub on_device :
    (r : Route) (interface : Bytes)
    → (not (is_empty r.device) && not (same r.device interface)) ≡ false
    → OnDevice interface r
on_device r interface h = elim (Bool-cases (is_empty r.device)) [
  | inl e ↦ inl e
  | inr e ↦ inr (same→eq _ _ (ground (arith, h, e)))
]

three_tests :
    (a b c : Bool) (m u : List Issue)
    → any_blocker m ≡ true
    → any_blocker u ≡ true
    → any_blocker (if a then [] else if b then m else if c then [] else u) ≡ false
    → (a ≡ true) ⊎ ((b ≡ false) × (c ≡ true))
three_tests true b c m u x y h = inl refl
three_tests false true c m u x y h = cc
three_tests false false true m u x y h = inr (refl, refl)
three_tests false false false m u x y h = cc

either_test : (a b : Bool) → (a || b) ≡ true → (a ≡ true) ⊎ (b ≡ true)
either_test true b h = inl refl
either_test false b h = inr h

module _ (ip : NetIp) (tools : NetTools ip) where
  -- A route that need not be preserved, or that leads to the gateway on the uplink.
  abbrev pub IsKept : Family → Bytes → Option Route → Route → Type 0
  IsKept family interface default r =
      (is_default_route r.destination ≡ true)
      ⊎ (is_automatic family r ≡ true)
      ⊎ (OnDevice interface r
          × (d : Route) × (default ≡ some d)
          × (is_gateway_host_route ip tools r.destination d.gateway ≡ true))

  reaches_gateway-some :
      (r : Route) (default : Option Route)
      → reaches_gateway ip tools r default ≡ true
      → (d : Route) × (default ≡ some d)
        × (is_gateway_host_route ip tools r.destination d.gateway ≡ true)
  reaches_gateway-some r none h = cc
  reaches_gateway-some r (some d) h = (d, refl, (and-eq-true _ _ h).1)

  inspect_route-clear :
      (default : Option Route) (interface : Bytes) (family : Family) (r : Route)
      → any_blocker (inspect_route ip tools default interface family r) ≡ false
      → IsKept family interface default r
  unfolding any_blocker
  inspect_route-clear default interface family r c =
      elim (three_tests (is_default_route r.destination || is_automatic family r)
        (not (is_empty r.device) && not (same r.device interface))
        (reaches_gateway ip tools r default) (note blocker (text "multi-uplink") ∷ [])
        (note blocker (text "unsupported-route") ∷ []) refl refl c) [
          | inl e ↦ elim (either_test (is_default_route r.destination) (is_automatic family r) e) [
            | inl d ↦ inl d
            | inr a ↦ inr (inl a)
          ]
          | inr p ↦
              let (d, q, g) = reaches_gateway-some r default p.1 in
              inr (inr (on_device r interface p.0, d, q, g))
        ]

  pub inspect_route_set-clear :
      (routes : List Route) (default : Option Route) (interface : Bytes) (family : Family)
      → any_blocker (inspect_route_set ip tools routes default interface family) ≡ false
      → (r : Route) → r ∈ routes
      → IsKept family interface default r
  unfolding inspect_route_set
  inspect_route_set-clear [] default interface family c r i = absurd i
  inspect_route_set-clear (x ∷ rs) default interface family c r i =
      let (h, rest) =
        any_blocker-++_false (inspect_route ip tools default interface family x) _ c in
      elim i [
        | inl q ↦
            subst (IsKept family interface default) (sym q)
              (inspect_route-clear default interface family x h)
        | inr j ↦ inspect_route_set-clear rs default interface family rest r j
      ]
