-- ===== src/Install/Stage.antt =====
-- internal/install/stage.go: the boot of the staged writer by kexec or GRUB, and the cleanup. The
-- commands and file operations that a run performs are its log; the world answers each by what it
-- outputs, or by a failure.
pub mod Cleanup
use install_mikrotik_chr_scr.Common.{
  ℕ, Bool, true, false, not, ◌&&◌, ◌||◌, List, [], ◌∷◌, ◌++◌, Option, none, some, if◌then◌else◌,
  Result, ok, err,
}
use install_mikrotik_chr_scr.Common.Text.{Bytes, text, same, is_empty, trim_space, contains}
use install_mikrotik_chr_scr.Model.{InstallMethod}
use install_mikrotik_chr_scr.Install.Resources.{split_lines}

pub record Stage : Type 0 where
  pub method : InstallMethod
  pub kernel_path : Bytes
  pub initrd_path : Bytes
  pub cmdline : Bytes
  pub grub_script : Bytes
  pub grub_config_path : Bytes
  pub grub_env_path : Bytes
  pub build_dir : Bytes
  pub stage_dir : Bytes

-- `remove` and `remove_dir` fail only where the code does not pass over the error.
pub data Action : Type 0 where
  run : List Bytes → Action
  read_file : Bytes → Action
  remove : Bytes → Action
  remove_dir : Bytes → Action

pub data StageError : Type 0 where
  action_failed no_one_shot bad_filesystem bad_abstraction not_armed : StageError

abbrev pub Log : Type 0
Log = List Action

-- What the world answers to an action after those of the log; `none` is a failure.
abbrev pub World : Type 0
World = Log → Action → Option Bytes

-- A run that began with some log: the log when it ends, and its result.
pub record Ended (A : Type 0) : Type 0 where
  pub log : Log
  pub result : Result StageError A

abbrev pub Prog : Type 0 → Type 0
Prog A = Log → Ended A

abbrev pub then_run : {A B : Type 0} → Log → Result StageError A → (A → Prog B) → Ended B
then_run log (ok a) k = k a log
then_run log (err e) k = record { log = log; result = err e }

infixl 5 ◌>>=◌ ◌>>◌
abbrev pub ◌>>=◌ : {A B : Type 0} → Prog A → (A → Prog B) → Prog B
(m >>= k) log = then_run (m log).log (m log).result k

abbrev pub ◌>>◌ : {A B : Type 0} → Prog A → Prog B → Prog B
m >> k = m >>= λ _. k

abbrev pub pure : {A : Type 0} → A → Prog A
pure a log = record { log = log; result = ok a }

abbrev pub refuse : {A : Type 0} → StageError → Prog A
refuse e log = record { log = log; result = err e }

abbrev pub require : Bool → StageError → Prog (Unit {0})
require true e = pure tt
require false e = refuse e

abbrev pub answered : Option Bytes → Result StageError Bytes
answered none = err action_failed
answered (some output) = ok output

pub contains_all : List Bytes → Bytes → Bool
contains_all [] s = true
contains_all (p ∷ ps) s = contains p s && contains_all ps s

abbrev pub one_shot_parts : List Bytes
one_shot_parts =
    text "load_env next_entry"
    ∷ text "if [ \"${next_entry}\" = \"chr-install-writer\" ]; then"
    ∷ text "set default=\"chr-install-writer\""
    ∷ text "set next_entry="
    ∷ text "save_env next_entry"
    ∷ text "menuentry 'CHR Install Writer' --id 'chr-install-writer'"
    ∷ []

-- The loop over the lines of the armed environment.
pub is_armed : List Bytes → Bool
is_armed [] = false
is_armed (l ∷ ls) = same (trim_space l) (text "next_entry=chr-install-writer") || is_armed ls

abbrev pub command_update : Action
command_update = run (text "update-grub" ∷ [])

abbrev pub command_arm : Action
command_arm = run (text "grub-reboot" ∷ text "chr-install-writer" ∷ [])

abbrev pub command_probe : Bytes → Bytes → Action
command_probe target path = run (text "grub-probe" ∷ target ∷ path ∷ [])

abbrev pub command_list : Bytes → Action
command_list path = run (text "grub-editenv" ∷ path ∷ text "list" ∷ [])

abbrev pub command_unset : Bytes → Action
command_unset path = run (text "grub-editenv" ∷ path ∷ text "unset" ∷ text "next_entry" ∷ [])

abbrev pub command_load : Stage → Action
command_load s = run (
    text "kexec"
    ∷ text "-l"
    ∷ s.kernel_path
    ∷ (text "--initrd=" ++ s.initrd_path)
    ∷ (text "--append=" ++ s.cmdline)
    ∷ [])

abbrev pub command_unload : Action
command_unload = run (text "kexec" ∷ text "-u" ∷ [])

-- The actions of `cleanupStage`, which it performs whatever those before them answered.
abbrev pub remove_unless_empty : Bytes → List Action
remove_unless_empty path = if is_empty path then [] else remove path ∷ []

abbrev pub remove_dir_unless_none : Bytes → List Action
remove_dir_unless_none path =
    if same path (text ".") || is_empty path then [] else remove_dir path ∷ []

unfoldable pub cleanup_actions : Stage → Bool → Bool → List Action
cleanup_actions s clear refresh =
    (if clear && not (is_empty s.grub_env_path) then command_unset s.grub_env_path ∷ [] else [])
    ++ (remove_unless_empty s.grub_script
        ++ (remove_unless_empty s.initrd_path
            ++ (remove_dir_unless_none s.stage_dir
                ++ (remove_dir_unless_none s.build_dir
                    ++ (if refresh then command_update ∷ [] else [])))))

module _ (world : World) where
  abbrev pub act : Action → Prog Bytes
  act a log = record { log = log ++ a ∷ []; result = answered (world log a) }

  abbrev pub keep_error :
      Result StageError Bytes → Result StageError (Unit {0}) → Result StageError (Unit {0})
  keep_error (ok _) rest = rest
  keep_error (err e) rest = err e

  -- Performs all the actions; the result is an error if one of them fails.
  unfoldable pub perform_all : List Action → Prog (Unit {0})
  perform_all [] log = record { log = log; result = ok tt }
  perform_all (a ∷ more) log =
      let rest = perform_all more (log ++ a ∷ []) in
      record { log = rest.log; result = keep_error (answered (world log a)) rest.result }

  unfoldable pub cleanup_stage : Stage → Bool → Bool → Prog (Unit {0})
  cleanup_stage s clear refresh = perform_all (cleanup_actions s clear refresh)

  pub validate_grub_configuration : Bytes → Prog (Unit {0})
  validate_grub_configuration path = do
    configuration ← act (read_file path)
    require (contains_all one_shot_parts configuration) no_one_shot

  pub validate_grub_storage : Bytes → Prog (Unit {0})
  validate_grub_storage path = do
    filesystem ← act (command_probe (text "--target=fs") path)
    require (same (trim_space filesystem) (text "ext2")) bad_filesystem
    abstraction ← act (command_probe (text "--target=abstraction") path)
    require (is_empty (trim_space abstraction)) bad_abstraction

  pub verify_grub_next_entry : Bytes → Prog (Unit {0})
  verify_grub_next_entry path = do
    output ← act (command_list path)
    require (is_armed (split_lines output)) not_armed

  -- Runs the first action and, if it fails, the second.
  unfoldable pub either_of : Action → Action → Prog (Unit {0})
  either_of first second log = elim (world log first) [
    | some output ↦ record { log = log ++ first ∷ []; result = ok tt }
    | none ↦ (act second >> pure tt) (log ++ first ∷ [])
  ]

  -- `executeGRUB` up to the point where it sets `armAttempted`, and from there on.
  unfoldable pub before_arming : Stage → Prog (Unit {0})
  before_arming s = do
    act command_update
    validate_grub_configuration s.grub_config_path
    validate_grub_storage s.grub_env_path

  unfoldable pub from_arming : Stage → Prog (Unit {0})
  from_arming s = do
    act command_arm
    verify_grub_next_entry s.grub_env_path
    either_of (run (text "systemctl" ∷ text "reboot" ∷ [])) (run (text "reboot" ∷ []))

  -- A deferred function: an error is followed by the clean-up and stays an error.
  abbrev pub or_clean : Prog (Unit {0}) → Log → Result StageError (Unit {0}) → Ended (Unit {0})
  or_clean clean log (ok u) = record { log = log; result = ok tt }
  or_clean clean log (err e) = record { log = (clean log).log; result = err e }

  abbrev pub deferring : Prog (Unit {0}) → Prog (Unit {0}) → Prog (Unit {0})
  deferring clean body log = or_clean clean (body log).log (body log).result

  -- `executeGRUB`: what the cleanup does depends on how far the body came.
  abbrev pub arm_after : Stage → Log → Result StageError (Unit {0}) → Ended (Unit {0})
  arm_after s log (ok u) = deferring (cleanup_stage s true true) (from_arming s) log
  arm_after s log (err e) = or_clean (cleanup_stage s false true) log (err e)

  unfoldable pub execute_grub : Stage → Prog (Unit {0})
  execute_grub s log = arm_after s (before_arming s log).log (before_arming s log).result

  -- `executeKexec` once the image is loaded.
  unfoldable pub boot_loaded : Stage → Prog (Unit {0})
  boot_loaded s = do
    cleanup_stage s false false
    either_of (run (text "systemctl" ∷ text "kexec" ∷ [])) (run (text "kexec" ∷ text "-e" ∷ []))

  unfoldable pub execute_kexec : Stage → Prog (Unit {0})
  execute_kexec s = do
    act (command_load s)
    deferring (act command_unload >> pure tt) (boot_loaded s)
