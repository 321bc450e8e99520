-- ===== src/Tests/Writes.antt =====
-- A whole run of the writer on a concrete machine.
use install_mikrotik_chr_scr.Common.{
  ◌+◌, ◌≡◌, refl, inl, true, false, [], ◌∷◌, some, length, replicate, ok,
}
use install_mikrotik_chr_scr.Common.Text.{Bytes}
use install_mikrotik_chr_scr.Common.Int.{◌-ℤ◌, ◌+ℤ◌, ◌*ℤ◌}
use install_mikrotik_chr_scr.Disk.Match.{
  fingerprints_match, select_authorized_fingerprint, matching, has_stable_identity,
  normalize_identity,
}
use install_mikrotik_chr_scr.Network.Validate.{
  validate, check_mode, check_v4_prefixes, check_v6_prefixes, check_servers, check_server,
}
use install_mikrotik_chr_scr.Install.Copy.{
  copy_image, copy_loop, copy_round, hash_prefix, hash_loop, hash_round, buffer_size,
}
use install_mikrotik_chr_scr.Install.Manifest.{
  validate_manifest, validate_timestamp, timestamp_within_window,
}
use install_mikrotik_chr_scr.Install.Writer.{
  Calls, Opened, open_authorized, run_writer, write_and_verify, check_written, check_readback,
  find_fingerprint, wait_for_fingerprint,
}
use install_mikrotik_chr_scr.Install.Writer.Safety.{MayWrite, IsVerified, open_authorized-MayWrite}
use install_mikrotik_chr_scr.Install.Writer.Run.{
  IsSafeWrite, run_writer-IsSafeWrite, run_writer-IsVerified,
}
use install_mikrotik_chr_scr.Tests.Images.{memory_writer, three_bytes}
use install_mikrotik_chr_scr.Tests.Plans.{any_text, manifest, target, now}

-- A machine with the authorized disk alone. Its digest is the length of the data, written 64 times.
abbrev machine : Calls Bytes
machine = record {
  ip = any_text;
  clock = now;
  digest = λ b. replicate 64 (b'0' + length b);
  manifest = some manifest;
  image = some (1 ∷ 2 ∷ 3 ∷ []);
  first_scan = some (target ∷ []);
  later_scans = [];
  unmounted = λ p. true;
  is_device = λ p. some true;
  source = some three_bytes;
  open_target = λ p. some [];
  sync_works = λ w. true;
  close_works = λ w. true;
  readback = λ w. some (record { rest = w; broken = false });
  flush_works = true;
  reboot_works = true;
}

abbrev opened : Opened Bytes
opened = record { manifest = manifest; disk = target; source = three_bytes; target = [] }

opens : open_authorized machine memory_writer ≡ ok opened
unfolding open_authorized wait_for_fingerprint find_fingerprint select_authorized_fingerprint
    matching fingerprints_match has_stable_identity normalize_identity validate_manifest
    validate_timestamp timestamp_within_window validate check_mode check_v4_prefixes
    check_v6_prefixes check_servers check_server ◌-ℤ◌ ◌+ℤ◌ ◌*ℤ◌
opens = refl

open_authorized-MayWrite_example : MayWrite machine memory_writer opened
open_authorized-MayWrite_example = open_authorized-MayWrite machine memory_writer opened opens

abbrev written : Bytes
written = 1 ∷ 2 ∷ 3 ∷ []

writes :
    ((write_and_verify machine memory_writer true opened).target ≡ some written)
    × ((write_and_verify machine memory_writer true opened).rebooted ≡ true)
unfolding write_and_verify check_written check_readback copy_image copy_loop copy_round hash_prefix
    hash_loop hash_round buffer_size
writes = (refl, refl)

runs :
    ((run_writer machine memory_writer true).target ≡ some written)
    × ((run_writer machine memory_writer true).rebooted ≡ true)
unfolding run_writer
runs = rw opens writes

run_writer-IsSafeWrite_example : IsSafeWrite machine memory_writer written
run_writer-IsSafeWrite_example = run_writer-IsSafeWrite machine memory_writer true written runs.0

run_writer-IsVerified_example :
    (o : Opened Bytes) × (t : Bytes) × MayWrite machine memory_writer o
    × ((run_writer machine memory_writer true).target ≡ some t)
    × IsVerified machine memory_writer o t
run_writer-IsVerified_example = run_writer-IsVerified machine memory_writer true (inl runs.1)
