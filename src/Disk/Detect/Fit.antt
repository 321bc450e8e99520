-- ===== src/Disk/Detect/Fit.antt =====
-- What the tests of the target and of the means to boot the writer leave.
use install_mikrotik_chr_scr.Common.{
  ◌≤◌, ◌≡◌, refl, sym, ap, subst, ◌⊎◌, inl, inr, ◌∈◌, ◌↔◌, Bool, true, false, not, ◌&&◌, ◌||◌, List,
  [], ◌∷◌, ◌++◌, Option, none, some, if◌then◌else◌, length, arith, Bool-cases, if-true, if-false,
}
use install_mikrotik_chr_scr.Common.Text.{Bytes, text, same→eq, is_empty, trim_space}
use install_mikrotik_chr_scr.Common.Slices.{Run, value, ◌>>=◌}
use install_mikrotik_chr_scr.Model.{
  DiskFingerprint, Disk, InstallMethod, kexec, grub, issues_of-Clear, any_blocker,
}
use install_mikrotik_chr_scr.Disk.Graph.{BlockNode, DiskGraph}
use install_mikrotik_chr_scr.Disk.Sysfs.{read_size}
use install_mikrotik_chr_scr.Disk.Sysfs.Whole.{fingerprint_works}
use install_mikrotik_chr_scr.Disk.Detect.{
  DiskHost, target_fingerprint, supported_storage_driver, supported_kernel_name,
  inspect_grub_environment, kexec_usable, grub_tools, staging_for, smallest_disk, target_checks,
  target_issues, is_rescue_target, rescue_targets, chosen_method,
}

-- The disk is large enough and of a kind that is supported, lsblk and sysfs agree about it, and it
-- can be told from others after a reboot.
pub record IsFit (g : DiskGraph) (n : BlockNode) (f : DiskFingerprint) : Type 0 where
  pub large : smallest_disk ≤ f.size_bytes
  pub same_size : (n.size ≡ 0) ⊎ (n.size ≡ f.size_bytes)
  pub numbered : is_empty f.major_minor ≡ false
  pub same_number : (is_empty n.major_minor ≡ true) ⊎ (n.major_minor ≡ f.major_minor)
  pub named : supported_kernel_name n.kname ≡ true
  pub driven : supported_storage_driver f.driver ≡ true
  pub identified : (is_empty f.serial ≡ false) ⊎ (is_empty f.wwn ≡ false) ⊎ (length g.disks ≡ 1)

pub target_issues-IsFit :
    (g : DiskGraph) (n : BlockNode) (f : DiskFingerprint) (backed : Bool)
    → any_blocker (target_issues g n f backed) ≡ false
    → IsFit g n f
unfolding target_issues
target_issues-IsFit g n f backed h =
    let (a, (b, (c, (d, (e, (i, (j, (k, (l, u))))))))) =
      issues_of-Clear (target_checks g n f backed) h in
    record {
      large = ground (arith, e);
      same_size = ground (arith, a, b);
      numbered = c;
      same_number = elim (Bool-cases (is_empty n.major_minor)) [
        | inl x ↦ inl x
        | inr x ↦ inr (same→eq n.major_minor f.major_minor (ground (arith, c, d, x)))
      ];
      named = ground (arith, i);
      driven = ground (arith, j, k);
      identified = ground (arith, l);
    }

pub target_fingerprint_works :
    (h : DiskHost) (n : BlockNode)
    → (f : DiskFingerprint) × (target_fingerprint h n ≡ value f)
      × (f.kernel_name ≡ n.kname)
      × (f.size_bytes ≡ read_size (h.sysfs n.kname).size)
unfolding target_fingerprint
target_fingerprint_works h n =
    let (f, e, o) = fingerprint_works n.kname (h.sysfs n.kname) in
    (_, ap (λ t. t >>= after) e, o.0, o.1)
  where
    after : DiskFingerprint → Run DiskFingerprint
    after f = value (record f {
      path = if is_empty n.path then text "/dev/" ++ n.kname else n.path;
      transport = trim_space n.transport;
    })

-- What `configureStaging` leaves when it adds no blocker.
pub record IsStaged (h : DiskHost) (d e : Disk) : Type 0 where
  pub same_disk : e.fingerprint ≡ d.fingerprint
  pub kernel : h.is_file e.kernel_path ≡ true
  pub initrd : h.is_file e.initrd_path ≡ true
  pub builder : (h.on_path (text "mkinitramfs") ≡ true) × (h.on_path (text "lsinitramfs") ≡ true)
  pub method :
      ((e.method ≡ kexec) × (kexec_usable h ≡ true))
      ⊎ ((e.method ≡ grub) × (grub_tools h ≡ true) × (inspect_grub_environment h ≡ true))

usable :
    (m : InstallMethod) (k t e : Bool)
    → not (k || (t && e)) ≡ false
    → ((chosen_method m k (t && e) ≡ kexec) × (k ≡ true))
      ⊎ ((chosen_method m k (t && e) ≡ grub) × (t ≡ true) × (e ≡ true))
usable m true t e h = inl (refl, refl)
usable m false true true h = inr (refl, refl, refl)
usable m false true false h = cc
usable m false false e h = cc

pub staging_for-IsStaged :
    (h : DiskHost) (d : Disk) (release : Option Bytes)
    → any_blocker (staging_for h d release).1 ≡ false
    → IsStaged h d (staging_for h d release).0
unfolding any_blocker
staging_for-IsStaged h d none c = cc
staging_for-IsStaged h d (some release) c =
    let (a, (b, (m, (l, (s, u))))) = issues_of-Clear _ c in
    record {
      same_disk = refl;
      kernel = ground (arith, a);
      initrd = ground (arith, b);
      builder = (ground (arith, m), ground (arith, l));
      method = usable d.method (kexec_usable h) (grub_tools h) (inspect_grub_environment h) s;
    }

pub rescue_targets_iff :
    (g : DiskGraph) (n : BlockNode) (ns : List BlockNode)
    → (n ∈ rescue_targets g ns) ↔ ((n ∈ ns) × (is_rescue_target g n ≡ true))
unfolding rescue_targets
rescue_targets_iff g n [] = (λ i. absurd i, λ p. absurd p.0)
rescue_targets_iff g n (m ∷ ns) = elim (Bool-cases (is_rescue_target g m)) [
  | inl e ↦
      subst (λ t. (n ∈ t) ↔ ((n ∈ (m ∷ ns)) × (is_rescue_target g n ≡ true))) (sym (if-true _ _ e))
        (
          λ i. elim i [
            | inl q ↦ (inl q, subst (λ t. is_rescue_target g t ≡ true) (sym q) e)
            | inr j ↦ let (k, f) = (rescue_targets_iff g n ns).0 j in (inr k, f)
          ],
          λ p. elim p.0 [ inl q ↦ inl q | inr k ↦ inr ((rescue_targets_iff g n ns).1 (k, p.1)) ],
        )
  | inr e ↦
      subst (λ t. (n ∈ t) ↔ ((n ∈ (m ∷ ns)) × (is_rescue_target g n ≡ true))) (sym (if-false _ _ e))
        (
          λ i. let (k, f) = (rescue_targets_iff g n ns).0 i in (inr k, f),
          λ p. elim p.0 [
            | inl q ↦ absurd (never p.1 q e)
            | inr k ↦ (rescue_targets_iff g n ns).1 (k, p.1)
          ],
        )
]
  where
    never : is_rescue_target g n ≡ true → n ≡ m → is_rescue_target g m ≡ false → ⊥
    never p q e = cc (p, ap (λ t. is_rescue_target g t) q, e)
