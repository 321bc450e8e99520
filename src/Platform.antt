-- ===== src/Platform.antt =====
-- internal/platform/platform.go: the host's system and memory. Files are given by their contents or
-- their lines, `none` for one that cannot be read, and messages have no text.
use install_mikrotik_chr_scr.Common.{
  ℕ, ◌*◌, ◌%◌, ◌^◌, ◌≤◌, ◌≡◌, Bool, true, false, not, ◌&&◌, ◌||◌, List, [], ◌∷◌, Option, none, some,
  ltb, leb, ◌==◌, if◌then◌else◌, arith, length,
}
use mathlib.Core.List.{reverse}
use install_mikrotik_chr_scr.Common.Text.{
  Bytes, text, same, is_empty, is_space, trim_space, to_lower, has_prefix, cut_prefix, cut_at, has,
}
use install_mikrotik_chr_scr.Common.Decode.{parse_uint_value}
use install_mikrotik_chr_scr.Model.{
  Issue, Check, blocks_if, issues_of, issues_of-Clear, any_blocker, Host,
}
use install_mikrotik_chr_scr.Network.Validate.{fields_from}

-- `supported`.
abbrev pub versions_of : Bytes → List Bytes
versions_of distribution =
    if same distribution (text "debian")
    then text "12" ∷ text "13" ∷ []
    else if same distribution (text "ubuntu")
    then text "22.04" ∷ text "24.04" ∷ text "26.04" ∷ []
    else []

unfoldable pub is_supported : Bytes → Bytes → Bool
is_supported distribution version = has version (versions_of distribution)

abbrev pub fields : Bytes → List Bytes
unfolding fields_from
fields s = fields_from is_space [] s

abbrev pub memory_of : List Bytes → ℕ → ℕ
memory_of [] rest = rest
memory_of (w ∷ []) rest = rest
memory_of (w ∷ v ∷ ws) rest =
    if same w (text "MemTotal:") then parse_uint_value v * 1024 % 2 ^ 64 else rest

-- `ParseMemoryBytes`.
unfoldable pub parse_memory_bytes : List Bytes → ℕ
parse_memory_bytes [] = 0
parse_memory_bytes (line ∷ lines) = memory_of (fields line) (parse_memory_bytes lines)

abbrev pub before_comma : Bytes → Option (Bytes × Bytes) → Bytes
before_comma s none = s
before_comma s (some (before, after)) = before

abbrev pub console_device : Bytes → Bytes
unfolding cut_at
console_device value = before_comma value (cut_at b',' value)

abbrev pub is_console : Bytes → Bool
is_console d = has_prefix (text "ttyS") d || has_prefix (text "hvc") d || has_prefix (text "xvc") d

abbrev pub console_in : Option Bytes → Bytes → Bytes
console_in none rest = rest
console_in (some value) rest =
    if is_console (console_device value) then console_device value else rest

abbrev pub first_console : List Bytes → Bytes
first_console [] = text "not detected"
first_console (f ∷ fs) = console_in (cut_prefix (text "console=") f) (first_console fs)

abbrev pub content_or_empty : Option Bytes → Bytes
content_or_empty none = []
content_or_empty (some d) = d

-- `DetectConsole`.
unfoldable pub detect_console : Option Bytes → Bytes
detect_console cmdline = first_console (fields (content_or_empty cmdline))

-- A map of strings: the entry that was written last comes first.
abbrev pub value_at : Bytes → List (Bytes × Bytes) → Bytes
value_at k [] = []
value_at k ((key, v) ∷ m) = let rest = value_at k m in if same key k then v else rest

pub record PlatformHost : Type 0 where
  pub architecture : Bytes
  pub os_release : Option (List Bytes)
  pub kernel_release : Option Bytes
  pub has_efi : Bool
  pub cmdline : Option Bytes
  pub meminfo : Option (List Bytes)

abbrev pub smallest_memory : ℕ
smallest_memory = 512 * 1024 * 1024

-- `strconv.Unquote` is `unquote`.
module _ (unquote : Bytes → Option Bytes) where
  abbrev pub without_last : Bytes → Bytes
  without_last s = elim (reverse s) [ [] ↦ [] | c ∷ r ↦ reverse r ]

  abbrev pub is_quoted : Bytes → Bool
  is_quoted s = leb 2 (length s) && has_prefix (39 ∷ []) s && has_prefix (39 ∷ []) (reverse s)

  abbrev pub drop_first : Bytes → Bytes
  drop_first [] = []
  drop_first (c ∷ s) = s

  abbrev pub unquoted : Bytes → Option Bytes → Bytes
  unquoted s none = if is_quoted s then drop_first (without_last s) else s
  unquoted s (some v) = v

  abbrev pub add_line : Option (Bytes × Bytes) → List (Bytes × Bytes) → List (Bytes × Bytes)
  add_line none m = m
  add_line (some (key, value)) m =
      (trim_space key, unquoted (trim_space value) (unquote (trim_space value))) ∷ m

  abbrev pub is_comment : Bytes → Bool
  is_comment line = is_empty line || has_prefix (text "#") line

  abbrev pub read_line : Bytes → List (Bytes × Bytes) → List (Bytes × Bytes)
  unfolding cut_at
  read_line line m = if is_comment line then m else add_line (cut_at b'=' line) m

  -- `ParseOSRelease`, from the map of the lines read before.
  unfoldable pub parse_os_release : List Bytes → List (Bytes × Bytes) → List (Bytes × Bytes)
  parse_os_release [] m = m
  parse_os_release (line ∷ lines) m = parse_os_release lines (read_line (trim_space line) m)

  abbrev pub release_values : Option (List Bytes) → List (Bytes × Bytes)
  release_values none = []
  release_values (some lines) = parse_os_release lines []

  abbrev pub memory_in : Option (List Bytes) → ℕ
  memory_in none = 0
  memory_in (some lines) = parse_memory_bytes lines

  abbrev pub is_missing : Option (List Bytes) → Bool
  is_missing none = true
  is_missing (some lines) = false

  unfoldable pub detect_host : PlatformHost → Host
  detect_host h =
      let values = release_values h.os_release in
      let distribution = to_lower (value_at (text "ID") values) in
      let version = value_at (text "VERSION_ID") values in
      record {
        distribution = distribution;
        version = version;
        architecture = h.architecture;
        kernel = trim_space (content_or_empty h.kernel_release);
        firmware = if h.has_efi then text "UEFI" else text "BIOS";
        console = detect_console h.cmdline;
        memory_bytes = memory_in h.meminfo;
        supported = same h.architecture (text "amd64") && is_supported distribution version;
      }

  abbrev pub host_checks : PlatformHost → Host → List Check
  host_checks h host =
      blocks_if (is_missing h.os_release) (text "os-release")
      ∷ blocks_if (not (same host.architecture (text "amd64"))) (text "architecture")
      ∷ blocks_if (not (is_supported host.distribution host.version)) (text "distribution")
      ∷ blocks_if (host.memory_bytes == 0) (text "memory")
      ∷ blocks_if (not (host.memory_bytes == 0) && ltb host.memory_bytes smallest_memory)
          (text "memory")
      ∷ []

  -- `Detect`.
  unfoldable pub detect : PlatformHost → Host × List Issue
  unfolding issues_of
  detect h = (detect_host h, issues_of (host_checks h (detect_host h)))

  -- When `Detect` reports no blocker, the host counts as supported: its architecture is amd64, its
  -- system is one of the table, and it has 512 MiB of memory at least.
  pub detect_supports :
      (h : PlatformHost)
      → any_blocker (detect h).1 ≡ false
      → ((detect h).0.supported ≡ true)
        × (same (detect h).0.architecture (text "amd64") ≡ true)
        × (is_supported (detect h).0.distribution (detect h).0.version ≡ true)
        × (smallest_memory ≤ (detect h).0.memory_bytes)
  unfolding detect detect_host
  detect_supports h c =
      let (a, (b, (d, (e, (f, u))))) = issues_of-Clear (host_checks h (detect_host h)) c in
      (ground (arith, b, d), ground (arith, b), ground (arith, d), ground (arith, e, f))
