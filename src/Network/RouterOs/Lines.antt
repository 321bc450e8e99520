-- ===== src/Network/RouterOs/Lines.antt =====
-- The router reads the script as exactly the lines that the program writes.
use install_mikrotik_chr_scr.Common.{
  ℕ, zero, suc, ◌+◌, ◌/◌, ◌%◌, ◌≡◌, refl, sym, ◌∙◌, ap, subst, inl, inr, Bool, true, false, not,
  ◌&&◌, or_false, some, List, [], ◌∷◌, ◌++◌, ◌==◌, if◌then◌else◌, ltb, All, All-append, arith,
  Bool-cases, if-true, if-false, and-eq-true, ok, >>=-eq-ok,
}
use install_mikrotik_chr_scr.Common.Text.{
  Bytes, text, same, is_empty, trim_space, to_upper, at_most, insert_text, sort_texts, decimal,
  decimal_from,
}
use install_mikrotik_chr_scr.Model.{NetworkPlan, Ipv4Plan, Ipv6Plan}
use install_mikrotik_chr_scr.Network.Address.{NetIp}
use install_mikrotik_chr_scr.Network.Validate.{validate, before_byte, no_items}
use install_mikrotik_chr_scr.Network.Validate.Spec.{IsValidPlan, IsServer, validate_iff}
use install_mikrotik_chr_scr.Network.RouterOs.{
  Printer, ros_bool, removal_lines, comment, join_lines, join_servers, scope_text, head_lines,
  mtu_line, address4_lines, on_link4_lines, static4_lines, ipv4_lines, address6_lines, gateway6,
  is_recursive, on_link6_lines, route6_lines, dhcp6_lines, ipv6_lines, server_part, more_parts,
  dns_expression, any_zoned, dns_lines, script_lines, router_os_script,
}

-- No byte of the text ends a line.
abbrev pub one_line : Bytes → Bool
one_line [] = true
one_line (c ∷ s) = not (c == b'\n') && one_line s

abbrev pub OneLine : Bytes → Type 0
OneLine s = one_line s ≡ true

-- The lines of a text, each ended by a line feed.
abbrev cons_first : ℕ → List Bytes → List Bytes
cons_first c [] = (c ∷ []) ∷ []
cons_first c (l ∷ ls) = (c ∷ l) ∷ ls

abbrev pub lines_of : Bytes → List Bytes
lines_of [] = []
lines_of (c ∷ s) = let rest = lines_of s in if c == b'\n' then [] ∷ rest else cons_first c rest

first_line : (l r : Bytes) → OneLine l → lines_of (l ++ b'\n' ∷ r) ≡ l ∷ lines_of r
first_line [] r h = refl
first_line (c ∷ l) r h =
    let (a, b) = and-eq-true (not (c == b'\n')) (one_line l) h in
    let e : (c == b'\n') ≡ false = ground (arith, a) in
    if-false ([] ∷ lines_of (l ++ b'\n' ∷ r)) _ e ∙ ap (cons_first c) (first_line l r b)

lines_of-join_lines : (ls : List Bytes) → All OneLine ls → lines_of (join_lines ls) ≡ ls
lines_of-join_lines [] h = refl
lines_of-join_lines (l ∷ ls) (a, h) =
    first_line l (join_lines ls) a ∙ ap (λ t. l ∷ t) (lines_of-join_lines ls h)

-- Texts put together.
joined : (a b : Bytes) → OneLine a → OneLine b → OneLine (a ++ b)
joined [] b h k = k
joined (c ∷ a) b h k =
    let (x, y) = and-eq-true _ (one_line a) h in ground (arith, x, joined a b y k)

upper_OneLine : (s : Bytes) → OneLine s → OneLine (to_upper s)
upper_OneLine [] h = refl
upper_OneLine (c ∷ s) h =
    let (x, y) = and-eq-true _ (one_line s) h in ground (arith, x, upper_OneLine s y)

decimal_from-OneLine :
    (fuel n : ℕ) (digits : Bytes) → OneLine digits → OneLine (decimal_from fuel n digits)
decimal_from-OneLine zero n digits h = h
decimal_from-OneLine (suc fuel) n digits h =
    let deeper =
      decimal_from-OneLine fuel (n / 10) ((b'0' + n % 10) ∷ digits) (ground (arith, h)) in
    elim (Bool-cases (ltb n 10)) [
      | inl e ↦ subst OneLine (sym (if-true _ _ e)) (ground (arith, h))
      | inr e ↦ subst OneLine (sym (if-false _ _ e)) deeper
    ]

module _ (P : Bytes → Type 0) where
  insert_text-All : (s : Bytes) (ts : List Bytes) → P s → All P ts → All P (insert_text s ts)
  unfolding insert_text
  insert_text-All s [] h k = (h, tt)
  insert_text-All s (t ∷ ts) h (a, k) = elim (Bool-cases (at_most s t)) [
    | inl e ↦ subst (All P) (sym (if-true _ _ e)) (h, (a, k))
    | inr e ↦ subst (All P) (sym (if-false _ _ e)) (a, insert_text-All s ts h k)
  ]

  sort_texts-All : (ts : List Bytes) → All P ts → All P (sort_texts ts)
  unfolding sort_texts
  sort_texts-All [] h = tt
  sort_texts-All (t ∷ ts) (a, h) = insert_text-All t (sort_texts ts) a (sort_texts-All ts h)

-- Both branches of a test.
either :
    (b : Bool) (x y : List Bytes) → All OneLine x → All OneLine y → All OneLine (if b then x else y)
either true x y h k = h
either false x y h k = k

join_servers-OneLine : (ss : List Bytes) → All OneLine ss → OneLine (join_servers ss)
join_servers-OneLine [] h = refl
join_servers-OneLine (s ∷ []) h = h.0
join_servers-OneLine (s ∷ t ∷ ss) (a, h) = joined s _ a (join_servers-OneLine (t ∷ ss) h)

bool_OneLine : (b : Bool) → OneLine (ros_bool b)
bool_OneLine true = refl
bool_OneLine false = refl

scope_OneLine : (b : Bool) → OneLine (scope_text b)
scope_OneLine true = refl
scope_OneLine false = refl

-- A text between two that hold no line feed.
framed : (a m b : Bytes) → OneLine a → OneLine m → OneLine b → OneLine (a ++ (m ++ b))
framed a m b h k l = joined a _ h (joined m b k l)

-- What `net` and `net/netip` document. `String` of a MAC, a prefix and an address without its zone has
-- no line feed. `ParseAddr` takes hexadecimal digits, dots and colons before a zone, which begins at
-- the first `%` and only an IPv6 address has; the printer asks the same parser for the zone.
pub record Documented (ip : NetIp) (out : Printer) : Type 0 where
  pub mac : (s : Bytes) → OneLine (out.mac_text s)
  pub prefix : (s : Bytes) → OneLine (out.prefix_text s)
  pub address : (s : Bytes) → OneLine (out.address_text s)
  pub plain : (s : Bytes) (a : ip.Addr) → ip.parse_addr s ≡ some a → ip.zone a ≡ [] → OneLine s
  pub zone4 : (a : ip.Addr) → ip.is4 a ≡ true → ip.zone a ≡ []
  pub zone6 :
      (s : Bytes) (a : ip.Addr) → ip.parse_addr (before_byte b'%' s) ≡ some a → ip.zone a ≡ []
  pub zoned :
      (s : Bytes) (a : ip.Addr) → ip.parse_addr s ≡ some a → out.has_zone s ≡ false → ip.zone a ≡ []

-- No space surrounds a gateway or a DNS server: `Validate` trims them, and the script does not.
pub record IsTrimmed (p : NetworkPlan) : Type 0 where
  pub gateway4 : trim_space p.ipv4.gateway ≡ p.ipv4.gateway
  pub gateway6 : trim_space p.ipv6.gateway ≡ p.ipv6.gateway
  pub servers : All (λ s. trim_space s ≡ s) p.dns

-- The texts that the script takes from the plan as they are.
record HasLineTexts (out : Printer) (p : NetworkPlan) : Type 0 where
  gateway4 : OneLine p.ipv4.gateway
  gateway6 : OneLine (before_byte b'%' p.ipv6.gateway)
  servers : All (λ s. out.has_zone s ≡ false → OneLine s) p.dns

IsValidPlan-HasLineTexts :
    (ip : NetIp) (out : Printer) (p : NetworkPlan)
    → Documented ip out
    → IsTrimmed p
    → IsValidPlan ip p
    → HasLineTexts out p
IsValidPlan-HasLineTexts ip out p doc trimmed v = record {
  gateway4 = elim (v.v4_gateway) [
    | inl e ↦ subst OneLine (sym e) refl
    | inr (a, e, f) ↦
        subst OneLine (trimmed.gateway4) (doc.plain (trim_space p.ipv4.gateway) a e (doc.zone4 a f))
  ];
  gateway6 = elim (v.v6_gateway) [
    | inl e ↦ subst (λ g. OneLine (before_byte b'%' g)) (sym e) refl
    | inr (a, e, f) ↦
        subst (λ g. OneLine (before_byte b'%' g)) (trimmed.gateway6)
          (doc.plain (before_byte b'%' (trim_space p.ipv6.gateway)) a e
            (doc.zone6 (trim_space p.ipv6.gateway) a e))
  ];
  servers = each p.dns trimmed.servers v.servers;
}
  where
    each :
        (ss : List Bytes)
        → All (λ s. trim_space s ≡ s) ss
        → All (IsServer ip p.interface_name) ss
        → All (λ s. out.has_zone s ≡ false → OneLine s) ss
    each [] t h = tt
    each (s ∷ ss) (t, ts) ((a, e, f), h) = (
      λ z.
          let e' : ip.parse_addr s ≡ some a = ap ip.parse_addr (sym t) ∙ e in
          doc.plain s a e' (doc.zoned s a e' z),
      each ss ts h,
    )

any_zoned-All :
    (out : Printer) (ss : List Bytes)
    → All (λ s. out.has_zone s ≡ false → OneLine s) ss
    → any_zoned out ss ≡ false
    → All OneLine ss
any_zoned-All out [] h z = tt
any_zoned-All out (s ∷ ss) (f, h) z =
    let (a, b) = or_false (out.has_zone s) (any_zoned out ss) z in (f a, any_zoned-All out ss h b)

module _ (ip : NetIp) (out : Printer) (prints : Documented ip out) where
  address4_lines-OneLine : (as' : List Bytes) → All OneLine (address4_lines out as')
  address4_lines-OneLine [] = tt
  address4_lines-OneLine (a ∷ as') = (
    framed (text "/ip/address/add address=") (out.prefix_text a)
        (text " interface=$uplinkName" ++ comment) refl (prints.prefix a) refl,
    address4_lines-OneLine as',
  )

  address6_lines-OneLine : (as' : List Bytes) → All OneLine (address6_lines out as')
  address6_lines-OneLine [] = tt
  address6_lines-OneLine (a ∷ as') = (
    framed (text "/ipv6/address/add address=") (out.prefix_text a)
        (text " interface=$uplinkName advertise=no" ++ comment) refl (prints.prefix a) refl,
    address6_lines-OneLine as',
  )

  static4_lines-OneLine : (p : Ipv4Plan) → OneLine p.gateway → All OneLine (static4_lines out p)
  unfolding static4_lines
  static4_lines-OneLine p g =
      All-append OneLine (address4_lines out (sort_texts p.addresses)) _ (address4_lines-OneLine _)
        (All-append OneLine (on_link4_lines out p) _
          (either p.gateway_on_link _ _
            (
              framed (text "/ip/route/add dst-address=") p.gateway
                  (text "/32 gateway=$uplinkName scope=10" ++ comment) refl g refl,
              tt,
            )
            tt)
          (
            framed (text "/ip/route/add dst-address=0.0.0.0/0 gateway=") p.gateway
                (scope_text p.gateway_on_link ++ comment) refl g
                (joined (scope_text p.gateway_on_link) comment (scope_OneLine p.gateway_on_link)
                  refl),
            tt,
          ))

  ipv4_lines-OneLine : (p : Ipv4Plan) → OneLine p.gateway → All OneLine (ipv4_lines out p)
  ipv4_lines-OneLine p g =
      either (same p.mode (text "dhcp")) _ _
        (
          framed
              (text "/ip/dhcp-client/add interface=$uplinkName add-default-route=yes use-peer-dns=")
              (ros_bool p.use_peer_dns) (text " use-peer-ntp=no disabled=no" ++ comment) refl
              (bool_OneLine p.use_peer_dns) refl,
          tt,
        )
        (either (same p.mode (text "static")) _ _ (static4_lines-OneLine p g) tt)

  route6_lines-OneLine :
      (p : Ipv6Plan) → OneLine (before_byte b'%' p.gateway) → All OneLine (route6_lines out p)
  route6_lines-OneLine p g = either (is_empty p.gateway) _ _ tt (
      All-append OneLine (on_link6_lines out p) _
        (either (is_recursive out p) _ _
          (
            framed (text "/ipv6/route/add dst-address=") (gateway6 out p)
                (text "/128 gateway=$uplinkName scope=10" ++ comment) refl g refl,
            tt,
          )
          tt)
        (either (out.is_link_local (gateway6 out p)) _ _
          (
            framed (text ":local ipv6Gateway (\"") (gateway6 out p) (text "%\" . $uplinkName)") refl
                g refl,
            (refl, tt),
          )
          (
            framed (text "/ipv6/route/add dst-address=::/0 gateway=") (gateway6 out p)
                (scope_text (is_recursive out p) ++ comment) refl g
                (joined (scope_text (is_recursive out p)) comment
                  (scope_OneLine (is_recursive out p)) refl),
            tt,
          )))

  ipv6_lines-OneLine :
      (p : Ipv6Plan) → OneLine (before_byte b'%' p.gateway) → All OneLine (ipv6_lines out p)
  unfolding ipv6_lines
  ipv6_lines-OneLine p g = (
    joined (text "/ipv6/settings/set accept-router-advertisements=") (ros_bool p.slaac) refl
        (bool_OneLine p.slaac),
    All-append OneLine (dhcp6_lines out p) _
        (either p.dhcp _ _
          (
            framed
                (text
                  "/ipv6/dhcp-client/add interface=$uplinkName request=address add-default-route=yes use-peer-dns=")
                (ros_bool p.use_peer_dns) (text " disabled=no" ++ comment) refl
                (bool_OneLine p.use_peer_dns) refl,
            tt,
          )
          tt)
        (All-append OneLine (address6_lines out (sort_texts p.addresses)) _
          (address6_lines-OneLine _) (route6_lines-OneLine p g)),
  )

  server_part-OneLine : (s : Bytes) → OneLine (server_part out s)
  server_part-OneLine s = go (out.has_zone s)
    where
      go :
          (b : Bool)
          → OneLine (
              if b
              then text "\"" ++ (out.address_text s ++ text "%\" . $uplinkName")
              else text "\"" ++ (out.address_text s ++ text "\""))
      go true =
          framed (text "\"") (out.address_text s) (text "%\" . $uplinkName") refl (prints.address s)
            refl
      go false = framed (text "\"") (out.address_text s) (text "\"") refl (prints.address s) refl

  more_parts-OneLine : (ss : List Bytes) → OneLine (more_parts out ss)
  more_parts-OneLine [] = refl
  more_parts-OneLine (s ∷ ss) =
      framed (text " . \",\" . ") (server_part out s) (more_parts out ss) refl
        (server_part-OneLine s) (more_parts-OneLine ss)

  dns_expression-OneLine : (ss : List Bytes) → OneLine (dns_expression out ss)
  dns_expression-OneLine [] = refl
  dns_expression-OneLine (s ∷ ss) =
      joined (server_part out s) (more_parts out ss) (server_part-OneLine s) (more_parts-OneLine ss)

  dns_lines-OneLine :
      (ss : List Bytes)
      → All (λ s. out.has_zone s ≡ false → OneLine s) ss
      → All OneLine (dns_lines out ss)
  unfolding dns_lines
  dns_lines-OneLine ss h =
      let sorted = sort_texts ss in
      let same_texts = sort_texts-All (λ s. out.has_zone s ≡ false → OneLine s) ss h in
      either (no_items ss) _ _ (refl, tt)
        (elim (Bool-cases (any_zoned out sorted)) [
          | inl z ↦ subst (All OneLine) (sym (if-true _ _ z)) (
            framed (text ":local dnsServers (") (dns_expression out sorted) (text ")") refl
                (dns_expression-OneLine sorted) refl,
            (refl, tt),
          )
          | inr z ↦ subst (All OneLine) (sym (if-false _ _ z)) (
            framed (text "/ip/dns/set servers=\"") (join_servers sorted) (text "\"") refl
                (join_servers-OneLine sorted (any_zoned-All out sorted same_texts z)) refl,
            tt,
          )
        ])

  script_lines-OneLine : (p : NetworkPlan) → HasLineTexts out p → All OneLine (script_lines out p)
  unfolding script_lines
  script_lines-OneLine p v =
      let last : List Bytes = text ":log info \"chr-install: network plan applied\"" ∷ [] in
      let plan_lines : List Bytes =
        ipv4_lines out p.ipv4 ++ (ipv6_lines out p.ipv6 ++ (dns_lines out p.dns ++ last)) in
      let mac_line =
        framed (text ":local targetMac \"") (to_upper (out.mac_text p.mac)) (text "\"") refl
          (upper_OneLine (out.mac_text p.mac) (prints.mac p.mac)) refl in
      let mtu =
        joined (text "/interface/ethernet/set $uplink mtu=") (decimal p.mtu) refl
          (decimal_from-OneLine 20 p.mtu [] refl) in
      let removals : All OneLine removal_lines =
        (refl, (refl, (refl, (refl, (refl, (refl, (refl, (refl, (refl, tt))))))))) in
      let rest : All OneLine plan_lines =
        All-append OneLine (ipv4_lines out p.ipv4) _ (ipv4_lines-OneLine p.ipv4 v.gateway4) (
          All-append OneLine (ipv6_lines out p.ipv6) _ (ipv6_lines-OneLine p.ipv6 v.gateway6) (
            All-append OneLine (dns_lines out p.dns) last (dns_lines-OneLine p.dns v.servers)
              (refl, tt))) in
      All-append OneLine (head_lines out p) (mtu_line out p ∷ removal_lines ++ plan_lines)
        (refl, (mac_line, (refl, (refl, (refl, (refl, tt))))))
        (mtu, All-append OneLine removal_lines plan_lines removals rest)

  -- When the script is made, a reader that takes each line as a command gets exactly the lines that are
  -- listed for the plan: no text of the plan ends a line early or adds one. No space surrounds the
  -- gateways and the DNS servers of the plan, and the parser and the printer of addresses are as
  -- documented: what parses and has no zone holds no line feed, nor does a printed address.
  pub router_os_script_lines :
      (p : NetworkPlan) (script : Bytes)
      → IsTrimmed p
      → router_os_script out ip p ≡ ok script
      → lines_of script ≡ script_lines out p
  unfolding router_os_script
  router_os_script_lines p script trimmed h =
      let (u, e, k) = >>=-eq-ok (validate ip p) (λ t. ok (join_lines (script_lines out p))) h in
      let valid : validate ip p ≡ ok tt = cc e in
      let texts = IsValidPlan-HasLineTexts ip out p prints trimmed ((validate_iff ip p).0 valid) in
      let q : join_lines (script_lines out p) ≡ script = cc k in
      ap lines_of (sym q) ∙ lines_of-join_lines (script_lines out p) (script_lines-OneLine p texts)
