-- ===== src/Install/Writer.antt =====
-- internal/install/writer_linux.go: `RunWriter`, which waits for the authorized disk, writes the
-- image, reads it back and reboots. What each call of the operating system gives is an argument;
-- the messages on the console are left out.
pub mod Safety
pub mod Run
pub mod Wait
use install_mikrotik_chr_scr.Common.{
  ℕ, zero, suc, Bool, true, false, not, ◌&&◌, ◌||◌, List, [], ◌∷◌, Option, none, some, ltb, leb,
  ◌==◌, if◌then◌else◌, length, Result, ok, err, ◌>>=◌, ◌>>◌, refuse_if, is_none,
}
use install_mikrotik_chr_scr.Common.Text.{Bytes, same}
use install_mikrotik_chr_scr.Common.Int.{ℤ, pos, pos_part, leb_ℤ}
use install_mikrotik_chr_scr.Model.{DiskFingerprint}
use install_mikrotik_chr_scr.Network.Address.{NetIp}
use install_mikrotik_chr_scr.Disk.Match.{SelectError, select_authorized_fingerprint}
use install_mikrotik_chr_scr.Install.Copy.{
  Source, Writer, Outcome, CopyState, copy_image, hash_prefix,
}
use install_mikrotik_chr_scr.Install.Manifest.{Manifest, ManifestError, validate_manifest}

pub data WriterError : Type 0 where
  unreadable_manifest image_unreadable image_changed no_scan no_sole_match still_mounted :
      WriterError
  no_target not_a_device source_unreadable target_unwritable write_target_failed : WriterError
  close_failed source_changed no_readback flush_failed readback_failed : WriterError
  checksum_mismatch reboot_failed : WriterError
  invalid_manifest : ManifestError → WriterError

-- What the calls give. `scans` are the lists of disks that `SysfsDisks` reports, one for each try
-- until the deadline: a first one and those that follow.
pub record Calls (W : Type 0) : Type 1 where
  pub ip : NetIp
  pub clock : ℤ
  pub digest : Bytes → Bytes
  pub manifest : Option Manifest
  pub image : Option Bytes
  pub first_scan : Option (List DiskFingerprint)
  pub later_scans : List (Option (List DiskFingerprint))
  pub unmounted : Bytes → Bool
  pub is_device : Bytes → Option Bool
  pub source : Option Source
  pub open_target : Bytes → Option W
  pub sync_works : W → Bool
  pub close_works : W → Bool
  pub readback : W → Option Source
  pub flush_works : Bool
  pub reboot_works : Bool

abbrev pub from_option {ℓ} : {A : Type ℓ} → WriterError → Option A → Result WriterError A
from_option e none = err e
from_option e (some a) = ok a

abbrev pub keep_manifest : Manifest → Result ManifestError (Unit {0}) → Result WriterError Manifest
keep_manifest m (ok u) = ok m
keep_manifest m (err e) = err (invalid_manifest e)

-- `ReadManifest`, once the file is decoded.
abbrev pub checked : NetIp → ℤ → Manifest → Result WriterError Manifest
checked ip clock m = keep_manifest m (validate_manifest ip clock m)

abbrev pub same_ℤ : ℤ → ℤ → Bool
same_ℤ a b = leb_ℤ a b && leb_ℤ b a

abbrev pub keep_disk : Result SelectError DiskFingerprint → Result WriterError DiskFingerprint
keep_disk (ok d) = ok d
keep_disk (err e) = err no_sole_match

-- `findFingerprint`, on one scan.
unfoldable pub find_fingerprint :
    DiskFingerprint → Option (List DiskFingerprint) → Result WriterError DiskFingerprint
find_fingerprint e none = err no_scan
find_fingerprint e (some cs) = keep_disk (select_authorized_fingerprint e cs)

abbrev pub or_else :
    Result WriterError DiskFingerprint
    → Result WriterError DiskFingerprint
    → Result WriterError DiskFingerprint
or_else (ok d) rest = ok d
or_else (err e) rest = rest

-- `waitForFingerprint`.
unfoldable pub wait_for_fingerprint :
    DiskFingerprint
    → Option (List DiskFingerprint)
    → List (Option (List DiskFingerprint))
    → Result WriterError DiskFingerprint
wait_for_fingerprint e scan [] = find_fingerprint e scan
wait_for_fingerprint e scan (s ∷ ss) =
    or_else (find_fingerprint e scan) (wait_for_fingerprint e s ss)

-- What is known when the target has been opened.
pub record Opened (W : Type 0) : Type 0 where
  pub manifest : Manifest
  pub disk : DiskFingerprint
  pub source : Source
  pub target : W

-- How the writer ends: the target, if it was opened, whether the machine reboots, and the result.
pub record Ending (W : Type 0) : Type 0 where
  pub target : Option W
  pub rebooted : Bool
  pub result : Result WriterError (Unit {0})

module _ {W : Type 0} (calls : Calls W) (writer : Writer W) where
  open calls use {
    ip, clock, digest, first_scan, later_scans, unmounted, is_device, open_target, sync_works,
    close_works, readback, flush_works, reboot_works,
  }

  -- `RunWriter` up to the opening of the target.
  unfoldable pub open_authorized : Result WriterError (Opened W)
  open_authorized = do
    read ← from_option unreadable_manifest calls.manifest
    m ← checked ip clock read
    bytes ← from_option image_unreadable calls.image
    refuse_if
        (not (same (digest bytes) m.image_sha256) || not (same_ℤ (pos (length bytes)) m.image_size))
        image_changed
    disk ← wait_for_fingerprint m.disk first_scan later_scans
    refuse_if (not (unmounted disk.path)) still_mounted
    device ← from_option no_target (is_device disk.path)
    refuse_if (not device) not_a_device
    source ← from_option source_unreadable calls.source
    target ← from_option target_unwritable (open_target disk.path)
    ok (record { manifest = m; disk = disk; source = source; target = target })

  -- From `CopyImage` to the check of its hash.
  unfoldable pub check_written : Manifest → Outcome (CopyState W) → Result WriterError (Unit {0})
  check_written m o = do
    refuse_if (not (is_none o.error) || not (sync_works o.state.target)) write_target_failed
    refuse_if (not (close_works o.state.target)) close_failed
    refuse_if (not (same (digest o.state.hashed) m.image_sha256)) source_changed

  -- The read-back of the target.
  unfoldable pub check_readback : Manifest → W → Result WriterError (Unit {0})
  check_readback m target = do
    device ← from_option no_readback (readback target)
    refuse_if (not flush_works) flush_failed
    let r = hash_prefix device (pos_part m.image_size) in
        do
          refuse_if (not (is_none r.error)) readback_failed
          refuse_if (not (same (digest r.state.hashed) m.image_sha256)) checksum_mismatch

  abbrev pub reboot_ending : Bool → W → Ending W
  reboot_ending false target = record { target = some target; rebooted = false; result = ok tt }
  reboot_ending true target =
      if reboot_works
      then record { target = some target; rebooted = true; result = ok tt }
      else record { target = some target; rebooted = false; result = err reboot_failed }

  -- The end of a run whose target was opened.
  abbrev pub ending : Bool → W → Result WriterError (Unit {0}) → Ending W
  ending reboot target (err e) = record { target = some target; rebooted = false; result = err e }
  ending reboot target (ok u) = reboot_ending reboot target

  -- `RunWriter` from the write on.
  unfoldable pub write_and_verify : Bool → Opened W → Ending W
  write_and_verify reboot opened =
      let o = copy_image writer opened.source opened.target (pos_part opened.manifest.image_size) in
      ending reboot o.state.target
        (check_written opened.manifest o >> check_readback opened.manifest o.state.target)

  abbrev pub go_on : Bool → Result WriterError (Opened W) → Ending W
  go_on reboot (err e) = record { target = none; rebooted = false; result = err e }
  go_on reboot (ok opened) = write_and_verify reboot opened

  unfoldable pub run_writer : Bool → Ending W
  run_writer reboot = go_on reboot open_authorized
