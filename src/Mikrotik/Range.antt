-- ===== src/Mikrotik/Range.antt =====
-- internal/mikrotik/client.go, `parseContentRange`: the header of a resumed response.
use install_mikrotik_chr_scr.Common.{
  ℕ, ◌^◌, ◌||◌, [], ◌∷◌, Option, none, some, ltb, leb, ◌==◌, if◌then◌else◌,
}
use install_mikrotik_chr_scr.Common.Text.{Bytes, text, same, cut_prefix, cut_at}
use install_mikrotik_chr_scr.Common.Int.{ℤ, pos, minus, pos_part, ltb_ℤ, leb_ℤ}
use install_mikrotik_chr_scr.Common.Decode.{parse_uint}

abbrev positive_of : Option ℕ → Option ℤ
positive_of none = none
positive_of (some n) = if ltb n (2 ^ 63) then some (pos n) else none

abbrev negative_of : Option ℕ → Option ℤ
negative_of none = none
negative_of (some n) = if leb n (2 ^ 63) then some (minus n) else none

-- `strconv.ParseInt` in base ten, of 64 bits.
pub parse_int : Bytes → Option ℤ
parse_int [] = none
parse_int (c ∷ cs) =
    if c == b'+'
    then positive_of (parse_uint cs)
    else if c == b'-'
    then negative_of (parse_uint cs)
    else positive_of (parse_uint (c ∷ cs))

pub record ContentRange : Type 0 where
  pub start : ℕ
  pub end : ℕ
  pub total : ℕ

-- The three numbers, where they are in order.
abbrev pub ordered_range : Option ℤ → Option ℤ → Option ℤ → Option ContentRange
ordered_range (some s) (some e) (some t) =
    if ltb_ℤ s (pos 0) || ltb_ℤ e s || leb_ℤ t e
    then none
    else some (record { start = pos_part s; end = pos_part e; total = pos_part t })
ordered_range _ _ _ = none

abbrev range_of : Bytes → Option (Bytes × Bytes) → Option ContentRange
range_of total none = none
range_of total (some (first, last)) =
    ordered_range (parse_int first) (parse_int last) (parse_int total)

abbrev total_of : Option (Bytes × Bytes) → Option ContentRange
total_of none = none
total_of (some (range, total)) =
    if same total (text "*") then none else range_of total (cut_at b'-' range)

abbrev unit_of : Option Bytes → Option ContentRange
unit_of none = none
unit_of (some value) = total_of (cut_at b'/' value)

-- `none` is an error.
unfoldable pub parse_content_range : Bytes → Option ContentRange
unfolding cut_at
parse_content_range v = unit_of (cut_prefix (text "bytes ") v)
