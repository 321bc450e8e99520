-- ===== src/Network/Sources/Lease.antt =====
-- What the evidence of an IPv4 lease rests on.
use install_mikrotik_chr_scr.Common.{
  ℕ, ◌≡◌, refl, subst, or_cases, and-eq-true, ◌⊎◌, inl, inr, ◌∈◌, true, false, not, ◌||◌, List, [],
  ◌∷◌, Option, none, some, leb, Bool-cases, if-true, if-false,
}
use install_mikrotik_chr_scr.Common.Text.{
  Bytes, text, same, to_lower, contains, last_element, decimal,
}
use install_mikrotik_chr_scr.Network.Sources.{
  ConfigFile, SourceEvidence, no_evidence, any_part, hosts_of, is_relevant, note_file,
  largest_config, note_content, inspect_files, inspect_configuration,
}

-- The text speaks of the uplink: as the lease that systemd keeps under the interface's index, or by
-- the interface's name, its MAC or one of its addresses.
abbrev pub Concerns : Bytes → ℕ → Bytes → List Bytes → Bytes → Bytes → Type 0
Concerns interface index mac addresses path content =
    ((contains (text "/run/systemd/netif/leases/") path ≡ true)
      × (same (last_element path) (decimal index) ≡ true))
    ⊎ ((w : Bytes) × (w ∈ (to_lower interface ∷ to_lower mac ∷ hosts_of addresses))
        × (contains w content ≡ true))

-- The file is named after leases, speaks of the uplink and says which address was leased.
pub record IsLease (interface : Bytes) (index : ℕ) (mac : Bytes) (addresses : List Bytes)
    (f : ConfigFile) : Type 0 where
  pub content : Bytes
  pub readable : f.content ≡ some content
  pub named : contains (text "lease") (to_lower f.path) ≡ true
  pub concerns : Concerns interface index mac addresses f.path (to_lower content)
  pub leased :
      (contains (text "address=") (to_lower content) ≡ true)
      ⊎ (contains (text "fixed-address") (to_lower content) ≡ true)

no_truth : false ≡ true → ⊥
no_truth h = cc h

any_part-contains :
    (ps : List Bytes) (s : Bytes)
    → any_part ps s ≡ true
    → (w : Bytes) × (w ∈ ps) × (contains w s ≡ true)
unfolding any_part
any_part-contains [] s h = absurd (no_truth h)
any_part-contains (p ∷ ps) s h = elim (or_cases (contains p s) (any_part ps s) h) [
  | inl e ↦ (p, inl refl, e)
  | inr e ↦ let (w, i, c) = any_part-contains ps s e in (w, inr i, c)
]

module _ (interface : Bytes) (index : ℕ) (mac : Bytes) (addresses : List Bytes) where
  is_relevant-Concerns :
      (path content : Bytes)
      → is_relevant interface index mac addresses path content ≡ true
      → Concerns interface index mac addresses path content
  unfolding is_relevant
  is_relevant-Concerns path content h =
      elim (Bool-cases (contains (text "/run/systemd/netif/leases/") path)) [
        | inl e ↦ inl (e, subst (λ b. b ≡ true) (if-true _ _ e) h)
        | inr e ↦ inr (
            any_part-contains (to_lower interface ∷ to_lower mac ∷ hosts_of addresses) content
              (subst (λ b. b ≡ true) (if-false _ _ e) h))
      ]

  leased_parts :
      (s : Bytes)
      → any_part (text "address=" ∷ text "fixed-address" ∷ []) s ≡ true
      → (contains (text "address=") s ≡ true) ⊎ (contains (text "fixed-address") s ≡ true)
  unfolding any_part
  leased_parts s h = elim (or_cases (contains (text "address=") s) _ h) [
    | inl e ↦ inl e
    | inr e ↦ elim (or_cases (contains (text "fixed-address") s) false e) [
      | inl f ↦ inr f
      | inr f ↦ cc f
    ]
  ]

  note_content-IsLease :
      (f : ConfigFile) (o : Option Bytes) (e : SourceEvidence)
      → f.content ≡ o
      → (note_content interface index mac addresses f.path o e).lease4 ≡ true
      → (e.lease4 ≡ true) ⊎ IsLease interface index mac addresses f
  unfolding note_file
  note_content-IsLease f none e q h = inl h
  note_content-IsLease f (some c) e q h =
      elim (Bool-cases (is_relevant interface index mac addresses f.path (to_lower c))) [
        | inr r ↦ inl (subst (λ (t : SourceEvidence). t.lease4 ≡ true) (if-false _ _ r) h)
        | inl r ↦
            let k : (note_file f.path (to_lower c) e).lease4 ≡ true =
              subst (λ (t : SourceEvidence). t.lease4 ≡ true) (if-true _ _ r) h in
            elim (or_cases (e.lease4) _ k) [
              | inl x ↦ inl x
              | inr x ↦
                  let (n, l) = and-eq-true (contains (text "lease") (to_lower f.path)) _ x in
                  inr (record {
                    content = c;
                    readable = q;
                    named = n;
                    concerns = is_relevant-Concerns f.path (to_lower c) r;
                    leased = leased_parts (to_lower c) l;
                  })
            ]
      ]

  inspect_files-IsLease :
      (fs : List ConfigFile) (e : SourceEvidence)
      → (inspect_files interface index mac addresses fs e).lease4 ≡ true
      → (e.lease4 ≡ true) ⊎ ((f : ConfigFile) × (f ∈ fs) × IsLease interface index mac addresses f)
  unfolding inspect_files
  inspect_files-IsLease [] e h = inl h
  inspect_files-IsLease (f ∷ fs) e h = elim (inspect_files-IsLease fs _ h) [
    | inr (g, i, l) ↦ inr (g, inr i, l)
    | inl x ↦ elim (Bool-cases (f.is_dir || not (leb f.size largest_config))) [
      | inl d ↦ inl (subst (λ (t : SourceEvidence). t.lease4 ≡ true) (if-true _ _ d) x)
      | inr d ↦
          elim (note_content-IsLease f f.content e refl
            (subst (λ (t : SourceEvidence). t.lease4 ≡ true) (if-false _ _ d) x)) [
              | inl y ↦ inl y
              | inr l ↦ inr (f, inl refl, l)
            ]
    ]
  ]

  pub inspect_configuration-IsLease :
      (fs : List ConfigFile)
      → (inspect_configuration fs interface index mac addresses).lease4 ≡ true
      → (f : ConfigFile) × (f ∈ fs) × IsLease interface index mac addresses f
  unfolding inspect_configuration
  inspect_configuration-IsLease fs h = elim (inspect_files-IsLease fs no_evidence h) [
    | inl x ↦ cc x
    | inr l ↦ l
  ]
