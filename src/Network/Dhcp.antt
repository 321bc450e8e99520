-- ===== src/Network/Dhcp.antt =====
-- internal/network/dhcp_linux.go: the packet of the DHCP probe, and the reading of the answer.
pub mod Options
pub mod Checksum
pub mod Offer
pub mod Discover
use Prim.Native.Nat.{bit_and}
use install_mikrotik_chr_scr.Common.{
  ℕ, zero, suc, ◌+◌, ◌-◌, ◌*◌, ◌/◌, ◌%◌, ◌^◌, Bool, true, false, not, ◌&&◌, ◌||◌, List, [], ◌∷◌,
  ◌++◌, Option, none, some, ltb, leb, ◌==◌, if◌then◌else◌, length, get_or, take, drop, replicate,
}
use install_mikrotik_chr_scr.Common.Text.{Bytes, text, same}
use install_mikrotik_chr_scr.Common.Slices.{Run, value, panic, ◌>>=◌, at, slice, u16_be}
use install_mikrotik_chr_scr.Model.{DhcpProbe}

abbrev pub ether_type_ipv4 : ℕ
ether_type_ipv4 = 0x0800

abbrev pub dhcp_client_port : ℕ
dhcp_client_port = 68

abbrev pub dhcp_server_port : ℕ
dhcp_server_port = 67

-- A map from option codes to values: the newest entry of a code stands first.
abbrev pub OptionMap : Type 0
OptionMap = List (ℕ × Bytes)

-- A missing code gives Go's nil slice.
abbrev pub option_at : ℕ → OptionMap → Bytes
option_at code [] = []
option_at code ((c, v) ∷ m) = let rest = option_at code m in if c == code then v else rest

-- The loop of `parseDHCPOptions` at `offset`, on fuel.
unfoldable pub options_loop : ℕ → Bytes → ℕ → OptionMap → Run OptionMap
options_loop zero b offset m = value m
options_loop (suc fuel) b offset m = elim (ltb offset (length b)) [
  | false ↦ value m
  | true ↦ do
    code ← at b offset
    elim (code == 0) [
      | true ↦ options_loop fuel b (offset + 1) m
      | false ↦ elim (code == 255 || leb (length b) (offset + 1)) [
        | true ↦ value m
        | false ↦ do
          size ← at b (offset + 1)
          elim (ltb (length b) (offset + 2 + size)) [
            | true ↦ value m
            | false ↦ do
              v ← slice b (offset + 2) (offset + 2 + size)
              options_loop fuel b (offset + 2 + size) ((code, v) ∷ m)
          ]
      ]
    ]
]

-- Each round moves on by a byte at least.
unfoldable pub parse_dhcp_options : Bytes → Run OptionMap
parse_dhcp_options b = options_loop (length b) b 0 []

-- The words of the data, a last odd byte padded by zero. The sum is a uint32.
abbrev pub word_sum : Bytes → ℕ
word_sum [] = 0
word_sum (x ∷ []) = x * 256
word_sum (x ∷ y ∷ r) = 256 * x + y + word_sum r

-- `for sum>>16 != 0`, on fuel.
unfoldable pub fold_carries : ℕ → ℕ → ℕ
fold_carries zero s = s
fold_carries (suc fuel) s =
    let rest = fold_carries fuel (s % 65536 + s / 65536) in if s / 65536 == 0 then s else rest

-- Three rounds are enough for a uint32.
unfoldable pub checksum : Bytes → ℕ
checksum b = 65535 - fold_carries 3 (word_sum b % 2 ^ 32)

-- `binary.BigEndian.PutUint16`: the two bytes.
abbrev pub put_u16 : ℕ → Bytes
put_u16 v = v / 256 % 256 ∷ v % 256 ∷ []

abbrev pub magic_cookie : Bytes
magic_cookie = 99 ∷ 130 ∷ 83 ∷ 99 ∷ []

abbrev pub discover_options : Bytes → Bytes
discover_options mac =
    (53 ∷ 1 ∷ 1 ∷ []) ++ ((61 ∷ 7 ∷ 1 ∷ []) ++ (mac ++ (55 ∷ 5 ∷ 1 ∷ 3 ∷ 6 ∷ 51 ∷ 54 ∷ 255 ∷ [])))

-- The BOOTP message and its options: op, htype, hlen and hops, the transaction, secs and the
-- broadcast flag, the four addresses, chaddr, sname and file, the cookie.
abbrev pub discover_message : Bytes → Bytes → Bytes
discover_message mac transaction =
    (1 ∷ 1 ∷ 6 ∷ 0 ∷ [])
    ++ (transaction
        ++ ((0 ∷ 0 ∷ [])
            ++ (put_u16 0x8000
                ++ (replicate 16 0
                    ++ (mac ++ (replicate 202 0 ++ (magic_cookie ++ discover_options mac)))))))

-- The IPv4 header with this checksum field.
abbrev pub ip_header : ℕ → ℕ → Bytes
ip_header ip_length sum =
    (0x45 ∷ 0 ∷ [])
    ++ (put_u16 ip_length
        ++ ((0 ∷ 0 ∷ 0 ∷ 0 ∷ 64 ∷ 17 ∷ [])
            ++ (put_u16 sum ++ (0 ∷ 0 ∷ 0 ∷ 0 ∷ 255 ∷ 255 ∷ 255 ∷ 255 ∷ []))))

-- The frame: Ethernet, IPv4 and UDP headers, and the message. `mac` has 6 bytes, `transaction` 4.
unfoldable pub build_dhcp_discover : Bytes → Bytes → Bytes
build_dhcp_discover mac transaction =
    let message = discover_message mac transaction in
    let udp_length = 8 + length message in
    let ip_length = 20 + udp_length in
    replicate 6 0xff
    ++ (mac
        ++ (put_u16 ether_type_ipv4
            ++ (ip_header ip_length (checksum (ip_header ip_length 0))
                ++ (put_u16 dhcp_client_port
                    ++ (put_u16 dhcp_server_port
                        ++ (put_u16 udp_length ++ ((0 ∷ 0 ∷ []) ++ message)))))))

-- A byte in decimal.
abbrev pub byte_text : ℕ → Bytes
byte_text n =
    if ltb n 10
    then (b'0' + n) ∷ []
    else if ltb n 100
    then (b'0' + n / 10) ∷ (b'0' + n % 10) ∷ []
    else (b'0' + n / 100) ∷ (b'0' + n / 10 % 10) ∷ (b'0' + n % 10) ∷ []

-- `net.IP.String` of four bytes.
abbrev pub ip_text : Bytes → Bytes
ip_text b =
    byte_text (get_or b 0 0)
    ++ (b'.'
        ∷ (byte_text (get_or b 1 0)
            ++ (b'.' ∷ (byte_text (get_or b 2 0) ++ (b'.' ∷ byte_text (get_or b 3 0))))))

abbrev pub attempted : DhcpProbe
attempted = record { attempted = true; offered = false; address = []; server = []; message = [] }

abbrev pub refuse : Run (DhcpProbe × Bool)
refuse = value (attempted, false)

-- `len(message) != 1 || message[0] != 2`, negated.
abbrev pub is_offer : Bytes → Bool
is_offer m = length m == 1 && get_or m 0 0 == 2

abbrev pub accept : Bytes → Bytes → DhcpProbe × Bool
accept address server = (
  record {
    attempted = true;
    offered = true;
    address = ip_text address;
    server = ip_text server;
    message = text "DHCPOFFER received";
  },
  true,
)

-- What follows the test of the message type: the address and the server.
unfoldable pub read_offer : Bytes → Bytes → OptionMap → Run (DhcpProbe × Bool)
read_offer packet dhcp options = elim (is_offer (option_at 53 options)) [
  | false ↦ refuse
  | true ↦ do
    address ← slice dhcp 16 20
    elim (length (option_at 54 options) == 4) [
      | true ↦ value (accept address (option_at 54 options))
      | false ↦ do source ← slice packet 26 30; value (accept address source)
    ]
]

abbrev pub is_other_message : ℕ → Bytes → Bytes → Bytes → Bool
is_other_message op xid cookie transaction =
    not (op == 2) || not (same xid transaction) || not (same cookie magic_cookie)

-- What follows the checks of the headers, at the UDP payload.
unfoldable pub read_message : Bytes → Bytes → Bytes → Run (DhcpProbe × Bool)
read_message packet transaction dhcp = do
  op ← at dhcp 0
  xid ← slice dhcp 4 8
  cookie ← slice dhcp 236 240
  elim (is_other_message op xid cookie transaction) [
    | true ↦ refuse
    | false ↦ do
      tail ← slice dhcp 240 (length dhcp)
      options ← parse_dhcp_options tail
      read_offer packet dhcp options
  ]

unfoldable pub read_udp : Bytes → Bytes → ℕ → Run (DhcpProbe × Bool)
read_udp packet transaction header = do
  udp ← slice packet (14 + header) (length packet)
  from ← u16_be udp 0
  to ← u16_be udp 2
  elim (not (from == dhcp_server_port) || not (to == dhcp_client_port)) [
    | true ↦ refuse
    | false ↦ do dhcp ← slice udp 8 (length udp); read_message packet transaction dhcp
  ]

-- `parseDHCPOffer`. The short-circuit of the first test keeps the read behind the length check.
unfoldable pub parse_dhcp_offer : Bytes → Bytes → Run (DhcpProbe × Bool)
parse_dhcp_offer packet transaction = elim (ltb (length packet) 282) [
  | true ↦ refuse
  | false ↦ do
    kind ← u16_be packet 12
    elim (kind == ether_type_ipv4) [
      | false ↦ refuse
      | true ↦ do
        first ← at packet 14
        let header = bit_and first 0x0f * 4
        elim (ltb header 20 || ltb (length packet) (14 + header + 248)) [
          | true ↦ refuse
          | false ↦ read_udp packet transaction header
        ]
    ]
]
