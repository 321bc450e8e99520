-- ===== src/Network/Dhcp/Offer.antt =====
-- `parseDHCPOffer` on any packet: it never reads out of range, and what it accepts is an offer.
use Prim.Native.Nat.{bit_and}
use install_mikrotik_chr_scr.Common.{
  ℕ, ◌+◌, ◌-◌, ◌*◌, ◌≤◌, ◌≡◌, ◌≢◌, refl, ◌∙◌, ap, Bool, true, false, not, ◌||◌, ltb, ◌==◌,
  if◌then◌else◌, length, length-drop, get_or, take, drop, drop-drop, arith, Bool-cases, inl, inr,
}
use install_mikrotik_chr_scr.Common.Text.{Bytes, same→eq}
use install_mikrotik_chr_scr.Common.Slices.{
  Run, value, panic, at, slice, at-value, slice-value, slice-value_to_end, u16_be-value,
  get_or-drop, Run-cases,
}
use install_mikrotik_chr_scr.Model.{DhcpProbe}
use install_mikrotik_chr_scr.Network.Dhcp.{
  OptionMap, option_at, parse_dhcp_options, parse_dhcp_offer, read_udp, read_message, is_offer,
  ip_text, magic_cookie, accept, refuse, read_offer, is_other_message, dhcp_client_port,
  dhcp_server_port, ether_type_ipv4,
}
use install_mikrotik_chr_scr.Network.Dhcp.Options.{parse_dhcp_options_total}

-- The fields of a BOOTP message that make it the offer that answers the transaction.
pub record IsOfferMessage (transaction source dhcp : Bytes) (p : DhcpProbe) : Type 0 where
  pub is_reply : get_or dhcp 0 0 ≡ 2
  pub same_transaction : take 4 (drop 4 dhcp) ≡ transaction
  pub has_cookie : take 4 (drop 236 dhcp) ≡ magic_cookie
  pub options : OptionMap
  pub options_are : parse_dhcp_options (drop 240 dhcp) ≡ value options
  pub offers : is_offer (option_at 53 options) ≡ true
  pub offered : p.offered ≡ true
  pub address_is : p.address ≡ ip_text (take 4 (drop 16 dhcp))
  pub server_is : length (option_at 54 options) ≡ 4 → p.server ≡ ip_text (option_at 54 options)
  pub server_else : length (option_at 54 options) ≢ 4 → p.server ≡ ip_text source

-- What the two branches of the server give.
abbrev offer_server : Bytes → OptionMap → Bytes
offer_server source options =
    if length (option_at 54 options) == 4 then option_at 54 options else source

offer_outcome :
    (packet dhcp address source : Bytes) (options : OptionMap)
    → slice dhcp 16 20 ≡ value address
    → slice packet 26 30 ≡ value source
    → read_offer packet dhcp options ≡ (
        if is_offer (option_at 53 options)
        then value (accept address (offer_server source options))
        else refuse)
unfolding read_offer
offer_outcome packet dhcp address source options a s =
    elim (Bool-cases (is_offer (option_at 53 options))) [
      | inr n ↦ ground (arith, n)
      | inl y ↦ elim (Bool-cases (length (option_at 54 options) == 4)) [
        | inl e ↦ ground (arith, y, e, a)
        | inr e ↦ ground (arith, y, e, a, s)
      ]
    ]

message_outcome :
    (packet transaction dhcp : Bytes) (op : ℕ) (xid cookie tail : Bytes) (options : OptionMap)
    → at dhcp 0 ≡ value op
    → slice dhcp 4 8 ≡ value xid
    → slice dhcp 236 240 ≡ value cookie
    → slice dhcp 240 (length dhcp) ≡ value tail
    → parse_dhcp_options tail ≡ value options
    → read_message packet transaction dhcp ≡ (
        if is_other_message op xid cookie transaction
        then refuse
        else read_offer packet dhcp options)
unfolding read_message
message_outcome packet transaction dhcp op xid cookie tail options a b c d e =
    ground (arith, a, b, c, d, e)

branches :
    (x y : Bool) (address server : Bytes)
    → let r : Run (DhcpProbe × Bool) =
        if x then refuse else (if y then value (accept address server) else refuse) in
      (r ≢ panic)
      × ((p : DhcpProbe)
          → r ≡ value (p, true)
          → (x ≡ false) × (y ≡ true) × (p ≡ (accept address server).0))
branches true y a s = (λ e. cc, λ p e. absurd (ground arith))
branches false true a s = (λ e. cc, λ p e. (refl, refl, ground arith))
branches false false a s = (λ e. cc, λ p e. absurd (ground arith))

other_is_false :
    (op : ℕ) (xid cookie transaction : Bytes)
    → is_other_message op xid cookie transaction ≡ false
    → (op ≡ 2) × (xid ≡ transaction) × (cookie ≡ magic_cookie)
other_is_false op xid cookie transaction h = (
  ground arith,
  same→eq xid transaction (ground arith),
  same→eq cookie magic_cookie (ground arith),
)

server_option :
    (source : Bytes) (options : OptionMap)
    → length (option_at 54 options) ≡ 4
    → ip_text (offer_server source options) ≡ ip_text (option_at 54 options)
server_option source options h = rw h

source_address :
    (source : Bytes) (options : OptionMap)
    → length (option_at 54 options) ≢ 4
    → ip_text (offer_server source options) ≡ ip_text source
source_address source options h = elim (Bool-cases (length (option_at 54 options) == 4)) [
  | inl e ↦ absurd (h (ground arith))
  | inr e ↦ rw e
]

module _ (packet transaction dhcp : Bytes) (long : 240 ≤ length dhcp)
    (frame : 30 ≤ length packet) where
  abbrev fields_refuse : Bool
  fields_refuse =
      is_other_message (get_or dhcp 0 0) (take 4 (drop 4 dhcp)) (take 4 (drop 236 dhcp)) transaction

  message_lem :
      (options : OptionMap)
      → parse_dhcp_options (drop 240 dhcp) ≡ value options
      → read_message packet transaction dhcp ≡ (
          if fields_refuse
          then refuse
          else (if is_offer (option_at 53 options)
              then value
                  (accept (take 4 (drop 16 dhcp)) (offer_server (take 4 (drop 26 packet)) options))
              else refuse))
  message_lem options e =
      message_outcome packet transaction dhcp (get_or dhcp 0 0) (take 4 (drop 4 dhcp))
        (take 4 (drop 236 dhcp)) (drop 240 dhcp) options (at-value dhcp 0 (omega arith))
        (slice-value dhcp 4 8 (omega arith) (omega arith))
        (slice-value dhcp 236 240 (omega arith) (omega arith))
        (slice-value_to_end dhcp 240 (omega arith)) e
      ∙ ap (λ r. if fields_refuse then refuse else r)
          (offer_outcome packet dhcp (take 4 (drop 16 dhcp)) (take 4 (drop 26 packet)) options
            (slice-value dhcp 16 20 (omega arith) (omega arith))
            (slice-value packet 26 30 (omega arith) (omega arith)))

  read_message_total :
      (read_message packet transaction dhcp ≢ panic)
      × ((p : DhcpProbe)
          → read_message packet transaction dhcp ≡ value (p, true)
          → IsOfferMessage transaction (take 4 (drop 26 packet)) dhcp p)
  read_message_total =
      let (options, e) =
        Run-cases (parse_dhcp_options (drop 240 dhcp))
          (parse_dhcp_options_total (drop 240 dhcp)).0 in
      let server : Bytes = offer_server (take 4 (drop 26 packet)) options in
      let (safe, sound) =
        branches fields_refuse (is_offer (option_at 53 options)) (take 4 (drop 16 dhcp)) server in
      rw (message_lem options e) (
        safe,
        λ p h.
            let (x, y, q) = sound p h in
            let (op, xid, cookie) =
              other_is_false (get_or dhcp 0 0) (take 4 (drop 4 dhcp)) (take 4 (drop 236 dhcp))
                transaction x in
            record {
              is_reply = op;
              same_transaction = xid;
              has_cookie = cookie;
              options = options;
              options_are = e;
              offers = y;
              offered = ap (λ d. d.offered) q;
              address_is = ap (λ d. d.address) q;
              server_is = λ four.
                  ap (λ d. d.server) q ∙ server_option (take 4 (drop 26 packet)) options four;
              server_else = λ other.
                  ap (λ d. d.server) q ∙ source_address (take 4 (drop 26 packet)) options other;
            },
      )

module _ (packet transaction : Bytes) (header : ℕ) (room : 14 + header + 248 ≤ length packet) where
  abbrev message : Bytes
  message = drop (14 + header + 8) packet

  long_message : (20 ≤ header) → (240 ≤ length message) × (30 ≤ length packet)
  long_message h = (omega (arith, length-drop (14 + header + 8) packet), omega arith)

  ports_refuse : Bool
  ports_refuse =
      let udp = drop (14 + header) packet in
      not (256 * get_or udp 0 0 + get_or udp 1 0 == dhcp_server_port)
      || not (256 * get_or udp 2 0 + get_or udp 3 0 == dhcp_client_port)

  udp_outcome :
      read_udp packet transaction header
      ≡ (if ports_refuse then refuse else read_message packet transaction message)
  unfolding read_udp ports_refuse
  udp_outcome =
      let udp : Bytes = drop (14 + header) packet in
      let len : length udp ≡ length packet - (14 + header) = length-drop (14 + header) packet in
      ground (
        arith,
        slice-value_to_end packet (14 + header) (omega arith),
        u16_be-value udp 0 (omega (arith, len)),
        u16_be-value udp 2 (omega (arith, len)),
        slice-value_to_end udp 8 (omega (arith, len)),
        drop-drop (14 + header) 8 packet,
      )

-- The frame carries an offer to this transaction: an IPv4 frame whose IP header has 20 bytes at
-- least and leaves room for a whole message, from the server's port to the client's.
pub record IsOffer (transaction packet : Bytes) (p : DhcpProbe) : Type 0 where
  pub header : ℕ
  pub header_is : header ≡ bit_and (get_or packet 14 0) 15 * 4
  pub is_ipv4 : 256 * get_or packet 12 0 + get_or packet 13 0 ≡ ether_type_ipv4
  pub header_low : 20 ≤ header
  pub room : 14 + header + 248 ≤ length packet
  pub from_server :
      256 * get_or packet (14 + header) 0 + get_or packet (14 + header + 1) 0 ≡ dhcp_server_port
  pub to_client :
      256 * get_or packet (14 + header + 2) 0 + get_or packet (14 + header + 3) 0 ≡ dhcp_client_port
  pub message :
      IsOfferMessage transaction (take 4 (drop 26 packet)) (drop (14 + header + 8) packet) p

module _ (packet transaction : Bytes) (header : ℕ) (room : 14 + header + 248 ≤ length packet)
    (low : 20 ≤ header) where
  udp_total :
      (read_udp packet transaction header ≢ panic)
      × ((p : DhcpProbe)
          → read_udp packet transaction header ≡ value (p, true)
          → (ports_refuse packet transaction header room ≡ false)
            × IsOfferMessage transaction
                (take 4 (drop 26 packet))
                (drop (14 + header + 8) packet)
                p)
  udp_total =
      let (long, frame) = long_message packet transaction header room low in
      let (safe, sound) =
        read_message_total packet transaction (drop (14 + header + 8) packet) long frame in
      rw (udp_outcome packet transaction header room)
        (elim (Bool-cases (ports_refuse packet transaction header room)) [
          | inl e ↦ rw e (λ q. cc, λ p q. absurd (ground arith))
          | inr e ↦ rw e (safe, λ p q. (refl, sound p q))
        ])

  ports_are :
      ports_refuse packet transaction header room ≡ false
      → (256 * get_or packet (14 + header) 0 + get_or packet (14 + header + 1) 0 ≡ dhcp_server_port)
        × (256 * get_or packet (14 + header + 2) 0 + get_or packet (14 + header + 3) 0
            ≡ dhcp_client_port)
  unfolding ports_refuse
  ports_are h =
      let z : 14 + header + 0 ≡ 14 + header = omega arith in
      ground (
        arith,
        h,
        get_or-drop (14 + header) 0 packet,
        ap (λ i. get_or packet i 0) z,
        get_or-drop (14 + header) 1 packet,
        get_or-drop (14 + header) 2 packet,
        get_or-drop (14 + header) 3 packet,
      )

module _ (packet transaction : Bytes) where
  abbrev header_of : ℕ
  header_of = bit_and (get_or packet 14 0) 15 * 4

  abbrev frame_refuse : Bool
  frame_refuse =
      ltb (length packet) 282
      || (not (256 * get_or packet 12 0 + get_or packet 13 0 == ether_type_ipv4)
          || (ltb header_of 20 || ltb (length packet) (14 + header_of + 248)))

  frame_outcome :
      parse_dhcp_offer packet transaction
      ≡ (if frame_refuse then refuse else read_udp packet transaction header_of)
  unfolding parse_dhcp_offer
  frame_outcome = elim (Bool-cases (ltb (length packet) 282)) [
    | inl e ↦ ground (arith, e)
    | inr e ↦ ground (
      arith,
      e,
      u16_be-value packet 12 (ground (arith, e)),
      at-value packet 14 (ground (arith, e)),
    )
  ]

  frame_fits :
      frame_refuse ≡ false
      → (14 + header_of + 248 ≤ length packet)
        × (20 ≤ header_of)
        × (256 * get_or packet 12 0 + get_or packet 13 0 ≡ ether_type_ipv4)
  frame_fits e = ground (arith, e)

  -- Both statements below in one.
  parse_dhcp_offer_sound :
      (parse_dhcp_offer packet transaction ≢ panic)
      × ((p : DhcpProbe)
          → parse_dhcp_offer packet transaction ≡ value (p, true)
          → IsOffer transaction packet p)
  parse_dhcp_offer_sound = rw frame_outcome (elim (Bool-cases frame_refuse) [
    | inl e ↦ rw e (λ q. cc, λ p q. absurd (ground arith))
    | inr e ↦
        let (room, low, kind) = frame_fits e in
        let (safe, sound) = udp_total packet transaction header_of room low in
        rw e (
          safe,
          λ p q.
              let (ports, m) = sound p q in
              let (from, to) = ports_are packet transaction header_of room low ports in
              record {
                header = header_of;
                header_is = refl;
                is_ipv4 = kind;
                header_low = low;
                room = room;
                from_server = from;
                to_client = to;
                message = m;
              },
        )
  ])

-- No packet makes the parser read out of range.
pub parse_dhcp_offer-ne-panic :
    (packet transaction : Bytes) → parse_dhcp_offer packet transaction ≢ panic
parse_dhcp_offer-ne-panic packet transaction = (parse_dhcp_offer_sound packet transaction).0

-- A packet that is accepted is a DHCP offer for the transaction: IPv4 with a header that fits, from
-- the server's port to the client's, a reply with the transaction and the magic cookie, whose
-- options hold the message type of an offer; the address and the server reported are its own.
pub parse_dhcp_offer-IsOffer :
    (packet transaction : Bytes) (p : DhcpProbe)
    → parse_dhcp_offer packet transaction ≡ value (p, true)
    → IsOffer transaction packet p
parse_dhcp_offer-IsOffer packet transaction p h = (parse_dhcp_offer_sound packet transaction).1 p h
