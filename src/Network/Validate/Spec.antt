-- ===== src/Network/Validate/Spec.antt =====
-- What `Validate` accepts, stated without its order of tests.
use install_mikrotik_chr_scr.Common.{
  ◌≤◌, ◌≡◌, ◌≢◌, refl, ◌⊎◌, inl, inr, ◌↔◌, Bool, true, false, not, ◌&&◌, List, [], ◌∷◌, Option,
  none, some, length, All, ok, >>=-eq-ok, arith, Bool-cases,
}
use install_mikrotik_chr_scr.Common.Text.{
  Bytes, text, same, same_refl, same→eq, is_empty, trim_space,
}
use install_mikrotik_chr_scr.Model.{NetworkPlan, Ipv4Plan}
use install_mikrotik_chr_scr.Network.Address.{NetIp}
use install_mikrotik_chr_scr.Network.Validate.{
  validate, check_mode, check_v4_prefixes, check_v6_prefixes, check_server, check_servers,
  is_family, is_ethernet, no_items, before_byte, gateway4_is_bad, gateway6_is_bad, has_no_mode,
}

-- The IPv4 mode is one of the three, and a static plan has an address and a gateway.
abbrev pub ModeIsValid : Ipv4Plan → Type 0
ModeIsValid p =
    (p.mode ≡ text "dhcp")
    ⊎ (((p.mode ≡ text "static") × (p.addresses ≢ []) × (p.gateway ≢ [])) ⊎ (p.mode ≡ text "none"))

is_empty_iff : (s : Bytes) → (is_empty s ≡ false) ↔ (s ≢ [])
is_empty_iff [] = (λ h. cc, λ h. absurd (h refl))
is_empty_iff (c ∷ cs) = (λ h e. cc, λ h. refl)

no_items_iff : (s : List Bytes) → (no_items s ≡ false) ↔ (s ≢ [])
no_items_iff [] = (λ h. cc, λ h. absurd (h refl))
no_items_iff (c ∷ cs) = (λ h e. cc, λ h. refl)

same_iff : (s t : Bytes) → (same s t ≡ true) ↔ (s ≡ t)
same_iff s t = (same→eq s t, λ e. rw e (same_refl t))

check_mode_iff : (p : Ipv4Plan) → (check_mode p ≡ ok tt) ↔ ModeIsValid p
unfolding check_mode
check_mode_iff p = (sound, complete)
  where
    sound : check_mode p ≡ ok tt → ModeIsValid p
    sound h = ground (
      arith,
      same_iff p.mode (text "dhcp"),
      same_iff p.mode (text "static"),
      same_iff p.mode (text "none"),
      no_items_iff p.addresses,
      is_empty_iff p.gateway,
    )

    complete : ModeIsValid p → check_mode p ≡ ok tt
    complete (inl e) = rw e
    complete (inr (inl (e, a, g))) =
        rw (e, (no_items_iff p.addresses).1 a, (is_empty_iff p.gateway).1 g)
    complete (inr (inr e)) = rw e

module _ (ip : NetIp) where
  open ip use {Addr, parse_addr, parse_prefix, is4, is6, is_link_local, zone, parse_mac}

  abbrev pub IsPrefixOf : (Addr → Bool) → Bytes → Type 0
  IsPrefixOf f v = (a : Addr) × (parse_prefix (trim_space v) ≡ some a) × (f a ≡ true)

  -- A link-local server names the uplink as its zone.
  abbrev pub IsServer : Bytes → Bytes → Type 0
  IsServer interface v =
      (a : Addr) × (parse_addr (trim_space v) ≡ some a)
      × (is_link_local a ≡ true → zone a ≡ interface)

  pub record IsValidPlan (p : NetworkPlan) : Type 0 where
    pub named : trim_space p.interface_name ≢ []
    pub ethernet : (m : Bytes) × (parse_mac p.mac ≡ some m) × (length m ≡ 6)
    pub mtu_low : 576 ≤ p.mtu
    pub mtu_high : p.mtu ≤ 9216
    pub mode : ModeIsValid p.ipv4
    pub v4_prefixes : All (IsPrefixOf is4) p.ipv4.addresses
    pub v4_gateway :
        (p.ipv4.gateway ≡ [])
        ⊎ ((a : Addr) × (parse_addr (trim_space p.ipv4.gateway) ≡ some a) × (is4 a ≡ true))
    pub v6_prefixes : All (IsPrefixOf is6) p.ipv6.addresses
    pub v6_gateway :
        (p.ipv6.gateway ≡ [])
        ⊎ ((a : Addr) × (parse_addr (before_byte b'%' (trim_space p.ipv6.gateway)) ≡ some a)
            × (is6 a ≡ true))
    pub servers : All (IsServer p.interface_name) p.dns
    pub some_mode :
        (p.ipv4.mode ≢ text "none")
        ⊎ ((p.ipv6.slaac ≡ true) ⊎ ((p.ipv6.dhcp ≡ true) ⊎ (p.ipv6.addresses ≢ [])))

  is_family_iff :
      (f : Addr → Bool) (o : Option Addr)
      → (is_family ip f o ≡ true) ↔ ((a : Addr) × (o ≡ some a) × (f a ≡ true))
  is_family_iff f none = (λ h. cc, λ h. cc (h.1))
  is_family_iff f (some a) = (λ h. (a, refl, h), λ h. cc (h.1, h.2))

  is_ethernet_iff :
      (o : Option Bytes) → (is_ethernet ip o ≡ true) ↔ ((m : Bytes) × (o ≡ some m) × (length m ≡ 6))
  is_ethernet_iff none = (λ h. cc, λ h. cc (h.1))
  is_ethernet_iff (some m) = (λ h. (m, refl, ground arith), λ h. ground (arith, h.1, h.2))

  check_v4_iff : (vs : List Bytes) → (check_v4_prefixes ip vs ≡ ok tt) ↔ All (IsPrefixOf is4) vs
  unfolding check_v4_prefixes
  check_v4_iff [] = (λ h. tt, λ h. refl)
  check_v4_iff (v ∷ vs) = elim (Bool-cases (is_family ip is4 (parse_prefix (trim_space v)))) [
    | inl e ↦
        rw e (λ h. ((is_family_iff is4 _).0 e, (check_v4_iff vs).0 h), λ h. (check_v4_iff vs).1 h.1)
    | inr e ↦ rw e (λ h. cc, λ h. cc (e, (is_family_iff is4 _).1 h.0))
  ]

  check_v6_iff : (vs : List Bytes) → (check_v6_prefixes ip vs ≡ ok tt) ↔ All (IsPrefixOf is6) vs
  unfolding check_v6_prefixes
  check_v6_iff [] = (λ h. tt, λ h. refl)
  check_v6_iff (v ∷ vs) = elim (Bool-cases (is_family ip is6 (parse_prefix (trim_space v)))) [
    | inl e ↦
        rw e (λ h. ((is_family_iff is6 _).0 e, (check_v6_iff vs).0 h), λ h. (check_v6_iff vs).1 h.1)
    | inr e ↦ rw e (λ h. cc, λ h. cc (e, (is_family_iff is6 _).1 h.0))
  ]

  abbrev ServerParsed : Bytes → Option Addr → Type 0
  ServerParsed interface o =
      (a : Addr) × (o ≡ some a) × (is_link_local a ≡ true → zone a ≡ interface)

  check_server_sound :
      (interface v : Bytes) (o : Option Addr)
      → check_server ip interface v o ≡ ok tt
      → ServerParsed interface o
  unfolding check_server
  check_server_sound interface v none h = cc
  check_server_sound interface v (some a) h =
      (a, refl, λ l. ground (arith, h, l, same_iff (zone a) interface))

  check_server_complete :
      (interface v : Bytes) (o : Option Addr)
      → ServerParsed interface o
      → check_server ip interface v o ≡ ok tt
  unfolding check_server
  check_server_complete interface v none h = cc (h.1)
  check_server_complete interface v (some a) (b, e, z) =
      let q : a ≡ b = cc in
      let l : is_link_local a ≡ true → zone a ≡ interface = λ h. rw q (z (rw q at h)) in
      elim (Bool-cases (is_link_local a)) [
        | inl y ↦ rw (y, (same_iff (zone a) interface).1 (l y))
        | inr n ↦ rw n
      ]

  check_servers_iff :
      (interface : Bytes) (vs : List Bytes)
      → (check_servers ip interface vs ≡ ok tt) ↔ All (IsServer interface) vs
  unfolding check_servers
  check_servers_iff interface [] = (λ h. tt, λ h. refl)
  check_servers_iff interface (v ∷ vs) = (
    λ h.
        let (u, c, k) = >>=-eq-ok (check_server ip interface v (parse_addr (trim_space v))) _ h in
        (check_server_sound interface v _ c, (check_servers_iff interface vs).0 k),
    λ h. rw (check_server_complete interface v _ h.0) ((check_servers_iff interface vs).1 h.1),
  )

  gateway_iff :
      (g : Bytes) (f : Addr → Bool) (o : Option Addr)
      → ((not (is_empty g) && not (is_family ip f o)) ≡ false)
        ↔ ((g ≡ []) ⊎ ((a : Addr) × (o ≡ some a) × (f a ≡ true)))
  gateway_iff [] f o = (λ h. inl refl, λ h. refl)
  gateway_iff (c ∷ cs) f o = elim (Bool-cases (is_family ip f o)) [
    | inl e ↦ rw e (λ h. inr ((is_family_iff f o).0 e), λ h. refl)
    | inr e ↦ rw e (λ h. cc, λ h. elim h [ inl x ↦ cc | inr x ↦ cc (e, (is_family_iff f o).1 x) ])
  ]

  has_mode_iff :
      (p : NetworkPlan)
      → (has_no_mode ip p ≡ false) ↔ (
          (p.ipv4.mode ≢ text "none")
          ⊎ ((p.ipv6.slaac ≡ true) ⊎ ((p.ipv6.dhcp ≡ true) ⊎ (p.ipv6.addresses ≢ []))))
  has_mode_iff p = (
    λ h. ground (arith, same_iff p.ipv4.mode (text "none"), no_items_iff p.ipv6.addresses),
    λ h. ground (arith, same_iff p.ipv4.mode (text "none"), no_items_iff p.ipv6.addresses),
  )

  -- The tests of `Validate`, each with its outcome.
  record Tests (p : NetworkPlan) : Type 0 where
    named : is_empty (trim_space p.interface_name) ≡ false
    ethernet : is_ethernet ip (parse_mac p.mac) ≡ true
    mtu : (576 ≤ p.mtu) × (p.mtu ≤ 9216)
    mode : check_mode p.ipv4 ≡ ok tt
    v4_prefixes : check_v4_prefixes ip p.ipv4.addresses ≡ ok tt
    v4_gateway : gateway4_is_bad ip p.ipv4 ≡ false
    v6_prefixes : check_v6_prefixes ip p.ipv6.addresses ≡ ok tt
    v6_gateway : gateway6_is_bad ip p.ipv6 ≡ false
    servers : check_servers ip p.interface_name p.dns ≡ ok tt
    some_mode : has_no_mode ip p ≡ false

  validate-Tests : (p : NetworkPlan) → validate ip p ≡ ok tt → Tests p
  unfolding validate
  validate-Tests p h = ground arith

  Tests-validate : (p : NetworkPlan) → Tests p → validate ip p ≡ ok tt
  unfolding validate
  Tests-validate p t = ground arith

  Tests-IsValidPlan : (p : NetworkPlan) → Tests p → IsValidPlan p
  Tests-IsValidPlan p t = record {
    named = (is_empty_iff _).0 t.named;
    ethernet = (is_ethernet_iff _).0 t.ethernet;
    mtu_low = t.mtu.0;
    mtu_high = t.mtu.1;
    mode = (check_mode_iff p.ipv4).0 t.mode;
    v4_prefixes = (check_v4_iff p.ipv4.addresses).0 t.v4_prefixes;
    v4_gateway = (gateway_iff p.ipv4.gateway is4 _).0 t.v4_gateway;
    v6_prefixes = (check_v6_iff p.ipv6.addresses).0 t.v6_prefixes;
    v6_gateway = (gateway_iff p.ipv6.gateway is6 _).0 t.v6_gateway;
    servers = (check_servers_iff p.interface_name p.dns).0 t.servers;
    some_mode = (has_mode_iff p).0 t.some_mode;
  }

  IsValidPlan-Tests : (p : NetworkPlan) → IsValidPlan p → Tests p
  IsValidPlan-Tests p v = record {
    named = (is_empty_iff _).1 v.named;
    ethernet = (is_ethernet_iff _).1 v.ethernet;
    mtu = (v.mtu_low, v.mtu_high);
    mode = (check_mode_iff p.ipv4).1 v.mode;
    v4_prefixes = (check_v4_iff p.ipv4.addresses).1 v.v4_prefixes;
    v4_gateway = (gateway_iff p.ipv4.gateway is4 _).1 v.v4_gateway;
    v6_prefixes = (check_v6_iff p.ipv6.addresses).1 v.v6_prefixes;
    v6_gateway = (gateway_iff p.ipv6.gateway is6 _).1 v.v6_gateway;
    servers = (check_servers_iff p.interface_name p.dns).1 v.servers;
    some_mode = (has_mode_iff p).1 v.some_mode;
  }

  -- `Validate` passes exactly the plans that have a named uplink, a 6-byte MAC, an MTU from 576 to
  -- 9216, a known IPv4 mode with an address and a gateway where it is static, addresses, gateways
  -- and DNS servers that parse and are of their family, link-local servers zoned by the uplink, and
  -- at least one way to an address.
  pub validate_iff : (p : NetworkPlan) → (validate ip p ≡ ok tt) ↔ IsValidPlan p
  validate_iff p =
      (λ h. Tests-IsValidPlan p (validate-Tests p h), λ v. Tests-validate p (IsValidPlan-Tests p v))
