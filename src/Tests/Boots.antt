-- ===== src/Tests/Boots.antt =====
-- The writer, the download, the resources and the staged boot on concrete inputs.
use install_mikrotik_chr_scr.Common.{
  inl, ℕ, ◌^◌, ◌≡◌, ◌<◌, ◌↔◌, refl, true, false, [], ◌∷◌, Option, none, some, ok, err,
}
use install_mikrotik_chr_scr.Common.Text.{Bytes, text}
use install_mikrotik_chr_scr.Common.Int.{pos}
use install_mikrotik_chr_scr.Common.Decode.{parse_uint, scan_digits}
use install_mikrotik_chr_scr.Model.{InstallMethod}
use install_mikrotik_chr_scr.Network.Validate.{fields_from}
use install_mikrotik_chr_scr.Install.Resources.{
  Statfs, ensure_filesystem_space, parse_initramfs_listing, validate_initramfs_memory, listing_loop,
  add_line, size_field, split_lines,
}
use install_mikrotik_chr_scr.Install.Resources.Bounds.{
  HasSpace, ensure_filesystem_space_iff, sum_listed, parse_initramfs_listing-sum_listed, FitsMemory,
  validate_initramfs_memory-FitsMemory,
}
use install_mikrotik_chr_scr.Install.Stage.{
  Stage, World, action_failed, execute_grub, execute_kexec, before_arming,
}
use install_mikrotik_chr_scr.Install.Stage.Cleanup.{
  GrubCleaned, KexecUnloaded, execute_grub-GrubCleaned, execute_kexec-KexecUnloaded,
}
use install_mikrotik_chr_scr.Mikrotik.Metadata.{
  Exchange, get_small, get_small_rounds, get_small_once, read_body, IsSmall, get_small-IsSmall,
}
use install_mikrotik_chr_scr.Mikrotik.Range.{parse_content_range}
use install_mikrotik_chr_scr.Mikrotik.Download.{Response, regular, Round, download}
use install_mikrotik_chr_scr.Mikrotik.Download.Resume.{IsHonest}
use install_mikrotik_chr_scr.Mikrotik.Download.Rounds.{IsFaithful, download-IsFaithful}

abbrev some_space : Option Statfs
some_space = some (record { bavail = pos 100; bsize = pos 4096 })

ensure_filesystem_space_iff_example :
    (ensure_filesystem_space some_space 4096 ≡ ok tt) ↔ HasSpace some_space 4096
ensure_filesystem_space_iff_example = ensure_filesystem_space_iff some_space 4096

abbrev listing : Bytes
listing = text "-rw- 1 0 0 12 x\nd 1 0 0 99 y\n-rw- 1 0 0 30 z"

listing_is : parse_initramfs_listing listing ≡ ok 42
unfolding parse_initramfs_listing listing_loop add_line size_field split_lines fields_from
    parse_uint scan_digits
listing_is = refl

parse_initramfs_listing-sum_listed_example : (42 ≡ sum_listed (split_lines listing)) × (42 < 2 ^ 64)
parse_initramfs_listing-sum_listed_example = parse_initramfs_listing-sum_listed listing listing_is

memory_fits : validate_initramfs_memory (some listing) (some 8) 1_000_000_000 (pos 3) ≡ ok tt
unfolding validate_initramfs_memory parse_initramfs_listing listing_loop add_line size_field
    split_lines fields_from parse_uint scan_digits
memory_fits = refl

validate_initramfs_memory-FitsMemory_example :
    (d : Bytes) × (some listing ≡ some d)
    × FitsMemory (sum_listed (split_lines d)) 1_000_000_000 (pos 3) (some 8)
validate_initramfs_memory-FitsMemory_example =
    validate_initramfs_memory-FitsMemory (some listing) (some 8) 1_000_000_000 (pos 3) memory_fits

-- Every command fails.
abbrev dead_world : World
dead_world log a = none

abbrev stage : Stage
stage = record {
  method = InstallMethod.grub;
  kernel_path = text "/boot/vmlinuz-6.1";
  initrd_path = text "/boot/chr-install/initrd.img";
  cmdline = text "chr.install=1";
  grub_script = text "/etc/grub.d/42_chr_install";
  grub_config_path = text "/boot/grub/grub.cfg";
  grub_env_path = text "/boot/grub/grubenv";
  build_dir = text "/var/lib/chr-install";
  stage_dir = text "/boot/chr-install";
}

grub_fails : (execute_grub dead_world stage []).result ≡ err action_failed
unfolding execute_grub before_arming
grub_fails = refl

execute_grub-GrubCleaned_example :
    GrubCleaned dead_world stage action_failed
      (before_arming dead_world stage [])
      (execute_grub dead_world stage [])
execute_grub-GrubCleaned_example =
    execute_grub-GrubCleaned dead_world stage [] action_failed grub_fails

kexec_fails : (execute_kexec dead_world stage []).result ≡ err action_failed
unfolding execute_kexec
kexec_fails = refl

execute_kexec-KexecUnloaded_example :
    KexecUnloaded dead_world stage action_failed [] (execute_kexec dead_world stage [])
execute_kexec-KexecUnloaded_example =
    execute_kexec-KexecUnloaded dead_world stage [] action_failed kexec_fails

abbrev archive : Bytes
archive = 5 ∷ 6 ∷ 7 ∷ []

-- A server that ignores the range, and a file system that takes everything.
abbrev whole_response : Response
whole_response = record {
  status = 200;
  content_length = pos 3;
  content_range = [];
  body = archive;
  broken = false;
}

abbrev good_round : Round
good_round = record {
  server = λ n. some whole_response;
  calls = record {
    opens = true;
    seeks = true;
    room = 100;
    syncs = true;
    closes = true;
    renames = true;
  };
  cancelled = false;
}

no_range : parse_content_range [] ≡ none
unfolding parse_content_range
no_range = refl

honest : (n : ℕ) (r : Response) → some whole_response ≡ some r → IsHonest archive r
honest n r e = rw (← is) (record {
  from_start = λ s. (([], refl), inl refl);
  from_range = λ c q. absurd (cc (no_range, q));
})
  where
    is : whole_response ≡ r
    is = cc

download-IsFaithful_example :
    IsFaithful archive 10
      (download 10 (regular (5 ∷ [])) good_round good_round good_round good_round good_round)
download-IsFaithful_example =
    download-IsFaithful archive 10 (regular (5 ∷ [])) good_round good_round good_round good_round
      good_round (6 ∷ 7 ∷ [], refl) (honest, (honest, (honest, (honest, (honest, tt)))))

-- The transport fails once, and then the server answers.
abbrev lost : Exchange
lost = record { can_request = true; response = none; context_ended = false; cancelled = false }

abbrev answered_exchange : Exchange
answered_exchange = record {
  can_request = true;
  response = some whole_response;
  context_ended = false;
  cancelled = false;
}

metadata_read : get_small lost answered_exchange lost lost ≡ some archive
unfolding get_small get_small_rounds get_small_once read_body
metadata_read = refl

get_small-IsSmall_example : IsSmall archive (lost ∷ answered_exchange ∷ lost ∷ lost ∷ [])
get_small-IsSmall_example = get_small-IsSmall lost answered_exchange lost lost archive metadata_read
