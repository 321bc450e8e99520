-- ===== src/Disk/Vpd.antt =====
-- internal/disk/fingerprint.go: the identity that a SCSI device reports in its VPD pages.
pub mod Safe
pub mod Page
pub mod Best
use install_mikrotik_chr_scr.Common.{
  ℕ, zero, suc, ◌+◌, ◌-◌, ◌*◌, ◌/◌, ◌%◌, Bool, true, false, not, ◌&&◌, ◌||◌, List, [], ◌∷◌, ◌++◌,
  Option, none, some, ltb, leb, ◌==◌, if◌then◌else◌, length, get_or,
}
use install_mikrotik_chr_scr.Common.Text.{
  Bytes, text, is_empty, trim, trim_space, to_lower, trim_prefix, cut_prefix, remove,
}
use install_mikrotik_chr_scr.Common.Slices.{Run, value, panic, ◌>>=◌, at, slice, u16_be}
use install_mikrotik_chr_scr.Common.Decode.{hex_encode, hex_decode, valid_utf8}

pub record VpdIdentity : Type 0 where
  pub serial : Bytes
  pub wwn : Bytes
  pub rank : ℕ

abbrev pub vpd_code_set_binary : ℕ
vpd_code_set_binary = 1

abbrev pub vpd_code_set_ascii : ℕ
vpd_code_set_ascii = 2

abbrev pub vpd_id_vendor_specific : ℕ
vpd_id_vendor_specific = 0

abbrev pub vpd_id_t10_vendor : ℕ
vpd_id_t10_vendor = 1

abbrev pub vpd_id_eui64 : ℕ
vpd_id_eui64 = 2

abbrev pub vpd_id_naa : ℕ
vpd_id_naa = 3

unfoldable pub all_zero : Bytes → Bool
all_zero [] = true
all_zero (c ∷ cs) = c == 0 && all_zero cs

-- The cutset "\x00 \t\r\n".
abbrev pub is_padding : ℕ → Bool
is_padding c = c == 0 || c == 32 || c == 9 || c == 13 || c == 10

-- The loop over the characters. Those of several bytes have none below 0x80.
abbrev pub has_control : Bytes → Bool
has_control [] = false
has_control (c ∷ cs) = ltb c 0x20 || c == 0x7f || has_control cs

unfoldable pub text_identifier : Bytes → Option Bytes
text_identifier d =
    let v = trim is_padding d in
    if is_empty v || not (valid_utf8 v) then none else if has_control v then none else some v

abbrev pub is_separator : ℕ → Bool
is_separator c = c == b'-' || c == b':' || c == b' '

-- The bytes in hexadecimal, and the NAA type, their first nibble, if there are any but zeros.
abbrev hex_of : Option Bytes → Option (Bytes × ℕ)
hex_of none = none
hex_of (some v) = if is_empty v || all_zero v then none else some (hex_encode v, get_or v 0 0 / 16)

-- What an ASCII identifier spells.
abbrev spelled : Option Bytes → Option Bytes
spelled none = none
spelled (some t) = hex_decode (
    remove is_separator (
      trim_prefix (text "0x") (trim_prefix (text "eui.") (trim_prefix (text "naa.") (to_lower t)))))

unfoldable pub descriptor_hex : Bytes → ℕ → Option (Bytes × ℕ)
unfolding all_zero
descriptor_hex payload code_set =
    hex_of
      (if code_set == vpd_code_set_binary then some payload else spelled (text_identifier payload))

abbrev pub naa_rank : ℕ → ℕ
naa_rank t = if t == 6 then 0 else if t == 5 then 2 else 4

-- The rank of a world wide name: its type's, and one more if it was spelled in ASCII.
abbrev pub wwn_rank : ℕ → ℕ → ℕ → ℕ
wwn_rank id_type code_set naa_type =
    (if id_type == vpd_id_naa then naa_rank naa_type else 6)
    + (if code_set == vpd_code_set_ascii then 1 else 0)

abbrev pub wwn_identity : ℕ → ℕ → Option (Bytes × ℕ) → Option VpdIdentity
wwn_identity id_type code_set none = none
wwn_identity id_type code_set (some (h, t)) = some (record {
  serial = [];
  wwn = (if id_type == vpd_id_eui64 then text "eui." else text "naa.") ++ h;
  rank = wwn_rank id_type code_set t;
})

abbrev pub serial_rank : ℕ → ℕ
serial_rank id_type = if id_type == vpd_id_vendor_specific then 10 else 8

abbrev pub ascii_serial : ℕ → Option Bytes → Option VpdIdentity
ascii_serial id_type none = none
ascii_serial id_type (some v) =
    some (record { serial = v; wwn = []; rank = serial_rank id_type + 1 })

abbrev pub binary_serial : ℕ → Bytes → Option VpdIdentity
binary_serial id_type payload =
    let label = if id_type == vpd_id_vendor_specific then text "vendor" else text "t10" in
    some (record {
      serial = text "vpd83-" ++ (label ++ (text "-" ++ hex_encode payload));
      wwn = [];
      rank = serial_rank id_type;
    })

-- `descriptorIdentity`, past its length check.
unfoldable pub identity_of : ℕ → ℕ → Bytes → Option VpdIdentity
unfolding descriptor_hex all_zero
identity_of code_set id_type payload =
    if not (code_set == vpd_code_set_binary) && not (code_set == vpd_code_set_ascii)
    then none
    else if ltb vpd_id_naa id_type
    then none
    else if id_type == vpd_id_naa || id_type == vpd_id_eui64
    then wwn_identity id_type code_set (descriptor_hex payload code_set)
    else if code_set == vpd_code_set_ascii
    then ascii_serial id_type (text_identifier payload)
    else if all_zero payload
    then none
    else binary_serial id_type payload

unfoldable pub descriptor_identity : Bytes → Run (Option VpdIdentity)
descriptor_identity d = elim (ltb (length d) 5) [
  | true ↦ value none
  | false ↦ do
    size ← at d 3
    elim (size + 4 == length d) [
      | false ↦ value none
      | true ↦ do
        first ← at d 0
        second ← at d 1
        payload ← slice d 4 (length d)
        value (identity_of (first % 16) (second % 16) payload)
    ]
]

abbrev pub append_identity : List VpdIdentity → Option VpdIdentity → List VpdIdentity
append_identity ids none = ids
append_identity ids (some i) = ids ++ i ∷ []

-- What one descriptor adds: it counts if it has a payload and describes the logical unit.
unfoldable pub descriptor_at : Bytes → ℕ → ℕ → ℕ → Run (Option VpdIdentity)
descriptor_at b offset size next = elim (ltb 0 size) [
  | false ↦ value none
  | true ↦ do
    second ← at b (offset + 1)
    elim (second / 16 % 4 == 0) [
      | false ↦ value none
      | true ↦ do d ← slice b offset next; descriptor_identity d
    ]
]

-- The loop over the descriptors, on fuel; `none` is `return vpdIdentity{}, false`.
unfoldable pub vpd_loop : ℕ → Bytes → ℕ → ℕ → List VpdIdentity → Run (Option (List VpdIdentity))
vpd_loop zero b end offset ids = value (some ids)
vpd_loop (suc fuel) b end offset ids = elim (ltb offset end) [
  | false ↦ value (some ids)
  | true ↦ elim (ltb (end - offset) 4) [
    | true ↦ value none
    | false ↦ do
      size ← at b (offset + 3)
      elim (ltb end (offset + 4 + size)) [
        | true ↦ value none
        | false ↦ do
          found ← descriptor_at b offset size (offset + 4 + size)
          vpd_loop fuel b end (offset + 4 + size) (append_identity ids found)
      ]
  ]
]

-- `sort.SliceStable` by rank: an identity goes before those of its own rank that follow it.
unfoldable pub insert_by_rank : VpdIdentity → List VpdIdentity → List VpdIdentity
insert_by_rank i [] = i ∷ []
insert_by_rank i (j ∷ js) =
    let rest = insert_by_rank i js in if leb i.rank j.rank then i ∷ j ∷ js else j ∷ rest

unfoldable pub sort_by_rank : List VpdIdentity → List VpdIdentity
sort_by_rank [] = []
sort_by_rank (i ∷ is) = insert_by_rank i (sort_by_rank is)

abbrev pub first_of_sorted : List VpdIdentity → Option VpdIdentity
first_of_sorted [] = none
first_of_sorted (i ∷ is) = some i

abbrev pub best_of : Option (List VpdIdentity) → Option VpdIdentity
best_of none = none
best_of (some ids) = first_of_sorted (sort_by_rank ids)

unfoldable pub parse_vpd83 : Bytes → Run (Option VpdIdentity)
parse_vpd83 b = elim (ltb (length b) 4) [
  | true ↦ value none
  | false ↦ do
    page ← at b 1
    elim (page == 0x83) [
      | false ↦ value none
      | true ↦ do
        size ← u16_be b 2
        elim (size == 0 || ltb (length b - 4) size) [
          | true ↦ value none
          | false ↦ do ids ← vpd_loop size b (4 + size) 4 []; value (best_of ids)
        ]
    ]
]

pub parse_vpd80 : Bytes → Run (Option Bytes)
parse_vpd80 b = elim (ltb (length b) 4) [
  | true ↦ value none
  | false ↦ do
    page ← at b 1
    elim (page == 0x80) [
      | false ↦ value none
      | true ↦ do
        size ← u16_be b 2
        elim (size == 0 || ltb (length b - 4) size) [
          | true ↦ value none
          | false ↦ do serial ← slice b 4 (4 + size); value (text_identifier serial)
        ]
    ]
]

abbrev canonical_hex : Bytes → Option Bytes → Option Bytes
canonical_hex prefix none = none
canonical_hex prefix (some v) =
    if is_empty v || all_zero v then none else some (prefix ++ hex_encode v)

-- The first of the prefixes that the text has, and what follows it.
abbrev pub first_prefix : List Bytes → Bytes → Option (Bytes × Bytes)
first_prefix [] s = none
first_prefix (p ∷ ps) s =
    let rest = first_prefix ps s in elim (cut_prefix p s) [ some r ↦ some (p, r) | none ↦ rest ]

abbrev canonical_of : Option (Bytes × Bytes) → Option Bytes
canonical_of none = none
canonical_of (some (p, r)) = canonical_hex p (hex_decode (remove is_separator r))

pub canonical_wwn : Bytes → Option Bytes
canonical_wwn v =
    canonical_of
      (first_prefix (text "naa." ∷ text "eui." ∷ text "0x" ∷ []) (to_lower (trim_space v)))
