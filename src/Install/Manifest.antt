-- ===== src/Install/Manifest.antt =====
-- internal/install/manifest.go: the manifest that authorizes the write, its validation and its
-- clock. Times are nanoseconds since Go's zero time, durations and offsets are integers.
pub mod Clock
pub mod Valid
use install_mikrotik_chr_scr.Common.{
  ℕ, ◌*◌, Bool, true, false, not, ◌&&◌, ◌||◌, List, [], ◌∷◌, Option, none, some, ltb, leb, ◌==◌,
  ◌%◌, if◌then◌else◌, length, Result, ok, err, ◌>>=◌, ◌>>◌, refuse_if, is_none,
}
use install_mikrotik_chr_scr.Common.Text.{Bytes, is_empty}
use install_mikrotik_chr_scr.Common.Int.{
  ℤ, pos, negsuc, minus, pos_part, ◌+ℤ◌, ◌-ℤ◌, ◌*ℤ◌, ltb_ℤ, leb_ℤ,
}
use install_mikrotik_chr_scr.Model.{DiskFingerprint, Release, NetworkPlan}
use install_mikrotik_chr_scr.Network.Address.{NetIp}
use install_mikrotik_chr_scr.Network.Validate.{PlanError, validate}

abbrev pub manifest_schema : ℕ
manifest_schema = 1

abbrev pub second : ℕ
second = 1_000_000_000

-- 24 hours and 5 minutes, in nanoseconds.
abbrev pub manifest_max_age : ℤ
manifest_max_age = pos (24 * 3600 * second)

abbrev pub manifest_future_leeway : ℤ
manifest_future_leeway = pos (5 * 60 * second)

-- `int64(maxRTCOffset/time.Second)`.
abbrev pub max_rtc_seconds : ℕ
max_rtc_seconds = 24 * 3600

pub record Manifest : Type 0 where
  pub schema : ℕ
  pub created_at : ℤ
  pub rtc_offset : ℤ
  pub disk : DiskFingerprint
  pub image_path : Bytes
  pub image_sha256 : Bytes
  pub image_size : ℤ
  pub release : Release
  pub network : NetworkPlan

pub data ManifestError : Type 0 where
  bad_schema incomplete_disk no_identity incomplete_image bad_checksum : ManifestError
  image_too_large no_release no_timestamp outside_window : ManifestError
  bad_network : PlanError → ManifestError

abbrev pub is_hex : ℕ → Bool
is_hex c = (leb b'0' c && leb c b'9') || (leb b'a' c && leb c b'f') || (leb b'A' c && leb c b'F')

abbrev pub all_hex : Bytes → Bool
all_hex [] = true
all_hex (c ∷ cs) = is_hex c && all_hex cs

-- `hex.DecodeString` succeeds.
abbrev pub hex_decodes : Bytes → Bool
hex_decodes s = all_hex s && length s % 2 == 0

unfoldable pub timestamp_within_window : ℤ → ℤ → Bool
timestamp_within_window created current =
    let age = current -ℤ created in
    leb_ℤ (pos 0 -ℤ manifest_future_leeway) age && leb_ℤ age manifest_max_age

-- `RTCOffset != 0` and within a day either way.
abbrev pub offset_is_usable : ℤ → Bool
offset_is_usable o =
    not (leb_ℤ o (pos 0) && leb_ℤ (pos 0) o)
    && leb_ℤ (minus max_rtc_seconds) o
    && leb_ℤ o (pos max_rtc_seconds)

abbrev pub adjusted_clock : Manifest → ℤ → ℤ
adjusted_clock m clock = clock +ℤ m.rtc_offset *ℤ pos second

unfoldable pub validate_timestamp : Manifest → ℤ → Result ManifestError (Unit {0})
validate_timestamp m clock = do
  refuse_if (leb_ℤ m.created_at (pos 0) && leb_ℤ (pos 0) m.created_at) no_timestamp
  if timestamp_within_window m.created_at clock
      then ok tt
      else if offset_is_usable m.rtc_offset
          && timestamp_within_window m.created_at (adjusted_clock m clock)
      then ok tt
      else err outside_window

abbrev pub from_plan : Result PlanError (Unit {0}) → Result ManifestError (Unit {0})
from_plan (ok u) = ok u
from_plan (err e) = err (bad_network e)

-- `uint64(manifest.ImageSize) > manifest.Disk.SizeBytes`, where the size is not negative.
abbrev pub exceeds : ℤ → ℕ → Bool
exceeds size limit = ltb limit (pos_part size)

-- `manifest.Validate()` at the writer's clock.
unfoldable pub validate_manifest : NetIp → ℤ → Manifest → Result ManifestError (Unit {0})
validate_manifest ip clock m = do
  refuse_if (not (m.schema == manifest_schema)) bad_schema
  refuse_if (is_empty m.disk.path || is_empty m.disk.kernel_name || m.disk.size_bytes == 0)
      incomplete_disk
  refuse_if (is_empty m.disk.wwn && is_empty m.disk.serial && is_empty m.disk.major_minor)
      no_identity
  refuse_if
      (is_empty m.image_path || not (length m.image_sha256 == 64) || leb_ℤ m.image_size (pos 0))
      incomplete_image
  refuse_if (not (hex_decodes m.image_sha256)) bad_checksum
  refuse_if (exceeds m.image_size m.disk.size_bytes) image_too_large
  refuse_if (is_empty m.release.version) no_release
  from_plan (validate ip m.network)
  validate_timestamp m clock

-- `measuredRTCOffset`: the clock's Unix time against what the first field of the file says, if it
-- could be read and parsed.
unfoldable pub measured_rtc_offset : ℤ → Option ℤ → ℤ
measured_rtc_offset unix none = pos 0
measured_rtc_offset unix (some rtc) =
    let offset = unix -ℤ rtc in
    if ltb_ℤ offset (minus max_rtc_seconds) || ltb_ℤ (pos max_rtc_seconds) offset
    then pos 0
    else offset
