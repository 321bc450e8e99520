-- ===== src/Install/Stage/Cleanup.antt =====
-- What is left in the log when a staged boot fails.
use install_mikrotik_chr_scr.Common.{
  ◌≡◌, refl, sym, ◌∙◌, ◌⊎◌, inl, inr, Bool, true, false, List, [], ◌∷◌, ◌++◌, Option, none, some,
  Result, ok, err, append_assoc, append-nil, ap, subst, not, ◌&&◌, ◌∈◌, if◌then◌else◌, if-true,
  if-false, arith, ◌||◌,
}
use install_mikrotik_chr_scr.Common.Text.{Bytes, text, same, is_empty}
use install_mikrotik_chr_scr.Install.Stage.{
  Stage, Action, StageError, Log, World, Ended, Prog, then_run, ◌>>◌, pure, answered, act,
  perform_all, cleanup_actions, cleanup_stage, before_arming, from_arming, or_clean, deferring,
  arm_after, execute_grub, boot_loaded, execute_kexec, run, remove, remove_dir, remove_unless_empty,
  remove_dir_unless_none, command_unset, command_update, command_load, command_unload,
}

-- The path is not empty; the directory `.` is none.
abbrev IsNamed : Bytes → Type 0
IsNamed path = is_empty path ≡ false

abbrev IsDir : Bytes → Type 0
IsDir path = (is_empty path ≡ false) × (same path (text ".") ≡ false)

-- What a cleanup after a failed boot by GRUB does; `armed` is that the next entry may be set.
pub record IsCleanup (s : Stage) (armed : Bool) (todo : List Action) : Type 0 where
  pub unset_first :
      armed ≡ true
      → IsNamed s.grub_env_path
      → (rest : List Action) × (todo
          ≡ run (text "grub-editenv" ∷ s.grub_env_path ∷ text "unset" ∷ text "next_entry" ∷ [])
            ∷ rest)
  pub update_last : (init : List Action) × (todo ≡ init ++ run (text "update-grub" ∷ []) ∷ [])
  pub script_removed : IsNamed s.grub_script → remove s.grub_script ∈ todo
  pub initrd_removed : IsNamed s.initrd_path → remove s.initrd_path ∈ todo
  pub stage_removed : IsDir s.stage_dir → remove_dir s.stage_dir ∈ todo
  pub build_removed : IsDir s.build_dir → remove_dir s.build_dir ∈ todo
  pub only_files :
      (path : Bytes) → remove path ∈ todo → (path ≡ s.grub_script) ⊎ (path ≡ s.initrd_path)
  pub only_dirs :
      (path : Bytes) → remove_dir path ∈ todo → (path ≡ s.stage_dir) ⊎ (path ≡ s.build_dir)

in_left : (a : Action) (xs ys : List Action) → a ∈ xs → a ∈ (xs ++ ys)
in_left a [] ys i = absurd i
in_left a (x ∷ xs) ys (inl q) = inl q
in_left a (x ∷ xs) ys (inr i) = inr (in_left a xs ys i)

in_right : (a : Action) (xs ys : List Action) → a ∈ ys → a ∈ (xs ++ ys)
in_right a [] ys i = i
in_right a (x ∷ xs) ys i = inr (in_right a xs ys i)

in_parts : (a : Action) (xs ys : List Action) → a ∈ (xs ++ ys) → (a ∈ xs) ⊎ (a ∈ ys)
in_parts a [] ys i = inr i
in_parts a (x ∷ xs) ys (inl q) = inl (inl q)
in_parts a (x ∷ xs) ys (inr i) = elim (in_parts a xs ys i) [ inl j ↦ inl (inr j) | inr j ↦ inr j ]

file_removed : (path : Bytes) → IsNamed path → remove path ∈ remove_unless_empty path
file_removed path h = subst (λ t. remove path ∈ t) (sym (if-false _ _ h)) (inl refl)

dir_removed : (path : Bytes) → IsDir path → remove_dir path ∈ remove_dir_unless_none path
dir_removed path (h, k) =
    let e : (same path (text ".") || is_empty path) ≡ false = ground (arith, h, k) in
    subst (λ t. remove_dir path ∈ t) (sym (if-false [] (remove_dir path ∷ []) e)) (inl refl)

-- The one action of a part, under its test.
sole_then : (b : Bool) (a x : Action) → a ∈ (if b then x ∷ [] else []) → a ≡ x
sole_then true a x (inl q) = q
sole_then true a x (inr i) = absurd i
sole_then false a x i = absurd i

sole_else : (b : Bool) (a x : Action) → a ∈ (if b then [] else x ∷ []) → a ≡ x
sole_else true a x i = absurd i
sole_else false a x (inl q) = q
sole_else false a x (inr i) = absurd i

abbrev OneOfSix : Stage → Action → Type 0
OneOfSix s a =
    (a ≡ command_unset s.grub_env_path)
    ⊎ (a ≡ remove s.grub_script)
    ⊎ (a ≡ remove s.initrd_path)
    ⊎ (a ≡ remove_dir s.stage_dir)
    ⊎ (a ≡ remove_dir s.build_dir)
    ⊎ (a ≡ command_update)

cleanup_actions-OneOfSix :
    (s : Stage) (armed : Bool) (a : Action) → a ∈ cleanup_actions s armed true → OneOfSix s a
unfolding cleanup_actions
cleanup_actions-OneOfSix s armed a i =
    elim (in_parts a
      (if armed && not (is_empty s.grub_env_path) then command_unset s.grub_env_path ∷ [] else []) _
      i) [
        | inl j ↦ inl (sole_then (armed && not (is_empty s.grub_env_path)) a _ j)
        | inr j ↦ elim (in_parts a (remove_unless_empty s.grub_script) _ j) [
          | inl k ↦ inr (inl (sole_else (is_empty s.grub_script) a _ k))
          | inr k ↦ elim (in_parts a (remove_unless_empty s.initrd_path) _ k) [
            | inl l ↦ inr (inr (inl (sole_else (is_empty s.initrd_path) a _ l)))
            | inr l ↦ elim (in_parts a (remove_dir_unless_none s.stage_dir) _ l) [
              | inl m ↦ inr (
                  inr (
                    inr (
                      inl (sole_else (same s.stage_dir (text ".") || is_empty s.stage_dir) a _ m))))
              | inr m ↦ elim (in_parts a (remove_dir_unless_none s.build_dir) _ m) [
                | inl n ↦ inr (
                    inr (
                      inr (
                        inr (
                          inl (
                            sole_else (same s.build_dir (text ".") || is_empty s.build_dir) a _
                              n)))))
                | inr n ↦ inr (inr (inr (inr (inr (sole_then true a _ n)))))
              ]
            ]
          ]
        ]
      ]

a_file :
    (s : Stage) (path : Bytes)
    → OneOfSix s (remove path)
    → (path ≡ s.grub_script) ⊎ (path ≡ s.initrd_path)
a_file s path (inl q) = cc
a_file s path (inr (inl q)) = inl cc
a_file s path (inr (inr (inl q))) = inr cc
a_file s path (inr (inr (inr (inl q)))) = cc
a_file s path (inr (inr (inr (inr (inl q))))) = cc
a_file s path (inr (inr (inr (inr (inr q))))) = cc

a_dir :
    (s : Stage) (path : Bytes)
    → OneOfSix s (remove_dir path)
    → (path ≡ s.stage_dir) ⊎ (path ≡ s.build_dir)
a_dir s path (inl q) = cc
a_dir s path (inr (inl q)) = cc
a_dir s path (inr (inr (inl q))) = cc
a_dir s path (inr (inr (inr (inl q)))) = inl cc
a_dir s path (inr (inr (inr (inr (inl q))))) = inr cc
a_dir s path (inr (inr (inr (inr (inr q))))) = cc

-- A list before one that ends with `u`.
before_last : (xs t ys u : List Action) → t ≡ ys ++ u → xs ++ t ≡ (xs ++ ys) ++ u
before_last xs t ys u e = ap (λ l. xs ++ l) e ∙ sym (append_assoc xs ys u)

cleanup_actions-IsCleanup :
    (s : Stage) (armed : Bool) → IsCleanup s armed (cleanup_actions s armed true)
unfolding cleanup_actions
cleanup_actions-IsCleanup s armed =
    let env =
      if armed && not (is_empty s.grub_env_path) then command_unset s.grub_env_path ∷ [] else [] in
    let script = remove_unless_empty s.grub_script in
    let initrd = remove_unless_empty s.initrd_path in
    let stage = remove_dir_unless_none s.stage_dir in
    let build = remove_dir_unless_none s.build_dir in
    record {
      unset_first = λ a h.
          let e : (armed && not (is_empty s.grub_env_path)) ≡ true = ground (arith, a, h) in
          let rest = script ++ (initrd ++ (stage ++ (build ++ command_update ∷ []))) in
          (rest, ap (λ t. t ++ rest) (if-true (command_unset s.grub_env_path ∷ []) [] e));
      update_last =
          let u : List Action = command_update ∷ [] in
          (
            env ++ (script ++ (initrd ++ (stage ++ build))),
            before_last env _ _ u (
                before_last script _ _ u
                  (before_last initrd _ _ u (before_last stage _ build u refl))),
          );
      script_removed = λ h. in_right _ env _ (in_left _ script _ (file_removed s.grub_script h));
      initrd_removed = λ h.
          in_right _ env _
            (in_right _ script _ (in_left _ initrd _ (file_removed s.initrd_path h)));
      stage_removed = λ h. in_right _ env _ (
          in_right _ script _
            (in_right _ initrd _ (in_left _ stage _ (dir_removed s.stage_dir h))));
      build_removed = λ h. in_right _ env _ (
          in_right _ script _ (
            in_right _ initrd _
              (in_right _ stage _ (in_left _ build _ (dir_removed s.build_dir h)))));
      only_files = λ path i. a_file s path (cleanup_actions-OneOfSix s armed (remove path) i);
      only_dirs = λ path i. a_dir s path (cleanup_actions-OneOfSix s armed (remove_dir path) i);
    }

module _ (world : World) where
  perform_all-log :
      (todo : List Action) (log : Log) → (perform_all world todo log).log ≡ log ++ todo
  unfolding perform_all
  perform_all-log [] log = sym (append-nil log)
  perform_all-log (a ∷ more) log =
      perform_all-log more (log ++ a ∷ []) ∙ append_assoc log (a ∷ []) more

  -- The cleanup performs each of its actions once and in order, whatever the world answers to those
  -- before.
  pub cleanup_stage-log :
      (s : Stage) (clear refresh : Bool) (log : Log)
      → (cleanup_stage world s clear refresh log).log ≡ log ++ cleanup_actions s clear refresh
  unfolding cleanup_stage
  cleanup_stage-log s clear refresh log = perform_all-log (cleanup_actions s clear refresh) log

  or_clean-err :
      (clean : Prog (Unit {0})) (log : Log) (r : Result StageError (Unit {0})) (e : StageError)
      → (or_clean world clean log r).result ≡ err e
      → (r ≡ err e) × ((or_clean world clean log r).log ≡ (clean log).log)
  or_clean-err clean log (ok u) e h = cc
  or_clean-err clean log (err x) e h = (h, refl)

  -- How a failed `executeGRUB` ends, given the end of what it did before arming: the log goes on with
  -- a cleanup.
  abbrev pub GrubCleaned : Stage → StageError → Ended (Unit {0}) → Ended (Unit {0}) → Type 0
  GrubCleaned s e first whole =
      ((first.result ≡ err e)
        × (todo : List Action) × (whole.log ≡ first.log ++ todo)
        × IsCleanup s false todo)
      ⊎ ((first.result ≡ ok tt)
          × ((from_arming world s first.log).result ≡ err e)
          × (todo : List Action) × (whole.log ≡ (from_arming world s first.log).log ++ todo)
          × IsCleanup s true todo)

  arm_after-err :
      (s : Stage) (log : Log) (r : Result StageError (Unit {0})) (e : StageError)
      → (arm_after world s log r).result ≡ err e
      → GrubCleaned s e (record { log = log; result = r }) (arm_after world s log r)
  arm_after-err s log (err x) e h =
      inl (h, _, cleanup_stage-log s false true log, cleanup_actions-IsCleanup s false)
  arm_after-err s log (ok u) e h =
      let (q, l) =
        or_clean-err (cleanup_stage world s true true) (from_arming world s log).log
          (from_arming world s log).result e h in
      inr (
        refl,
        q,
        _,
        l ∙ cleanup_stage-log s true true (from_arming world s log).log,
        cleanup_actions-IsCleanup s true,
      )

  -- When `executeGRUB` fails, the last thing it did is a cleanup, which ends with `update-grub`: the
  -- staged script and initramfs and the stage and build directories are removed where they are set,
  -- nothing else is removed, and if it came to arm GRUB's next entry, the cleanup begins with
  -- `grub-editenv unset next_entry`, where the environment's path is set.
  pub execute_grub-GrubCleaned :
      (s : Stage) (log : Log) (e : StageError)
      → (execute_grub world s log).result ≡ err e
      → GrubCleaned s e (before_arming world s log) (execute_grub world s log)
  unfolding execute_grub
  execute_grub-GrubCleaned s log e h =
      arm_after-err s (before_arming world s log).log (before_arming world s log).result e h

  -- How a failed `executeKexec` ends: the image was not loaded and nothing else was done, or it was
  -- and the last thing done is to unload it.
  abbrev pub KexecUnloaded : Stage → StageError → Log → Ended (Unit {0}) → Type 0
  KexecUnloaded s e log whole =
      ((world log (command_load s) ≡ none) × (whole.log ≡ log ++ command_load s ∷ []))
      ⊎ (((boot_loaded world s (log ++ command_load s ∷ [])).result ≡ err e)
          × (whole.log
              ≡ (boot_loaded world s (log ++ command_load s ∷ [])).log ++ command_unload ∷ []))

  -- When `executeKexec` fails, either the image could not be loaded and that was all it did, or it
  -- was loaded, booting it failed, and the last thing done is to unload it.
  pub execute_kexec-KexecUnloaded :
      (s : Stage) (log : Log) (e : StageError)
      → (execute_kexec world s log).result ≡ err e
      → KexecUnloaded s e log (execute_kexec world s log)
  unfolding execute_kexec
  execute_kexec-KexecUnloaded s log e h = loaded (world log (command_load s)) refl h
    where
      loaded :
          (o : Option Bytes)
          → world log (command_load s) ≡ o
          → (then_run (log ++ command_load s ∷ []) (answered o) (λ _.
              deferring world (act world command_unload >> pure tt) (boot_loaded world s))).result
            ≡ err e
          → KexecUnloaded s e log (
              then_run
                (log ++ command_load s ∷ [])
                (answered o)
                (λ _. deferring world (act world command_unload >> pure tt) (boot_loaded world s)))
      loaded none q k = inl (q, refl)
      loaded (some b) q k =
          let l = log ++ command_load s ∷ [] in
          let (r, t) =
            or_clean-err (act world command_unload >> pure tt) (boot_loaded world s l).log
              (boot_loaded world s l).result e k in
          inr (r, t ∙ unloaded (boot_loaded world s l).log (world _ command_unload))
        where
          unloaded :
              (l : Log) (o : Option Bytes)
              → (then_run (l ++ command_unload ∷ []) (answered o) (λ _. pure tt)).log
                ≡ l ++ command_unload ∷ []
          unloaded l none = refl
          unloaded l (some b) = refl
