-- ===== src/Model.antt =====
-- internal/model/model.go: the data that the components exchange. Strings are byte lists.
use install_mikrotik_chr_scr.Common.{
  ◌≡◌, refl, ◌++◌, arith, ℕ, Bool, true, false, ◌||◌, List, [], ◌∷◌,
}
use install_mikrotik_chr_scr.Common.Text.{Bytes}

-- `verified`, `inferred`, `user-supplied`, and the empty string of a plan not yet filled in.
pub data Evidence : Type 0 where
  verified inferred user unset : Evidence

pub data Severity : Type 0 where
  info warning blocker : Severity

pub record Issue : Type 0 where
  pub severity : Severity
  pub code : Bytes
  pub message : Bytes

pub record Host : Type 0 where
  pub distribution : Bytes
  pub version : Bytes
  pub architecture : Bytes
  pub kernel : Bytes
  pub firmware : Bytes
  pub console : Bytes
  pub memory_bytes : ℕ
  pub supported : Bool

pub record DiskFingerprint : Type 0 where
  pub path : Bytes
  pub kernel_name : Bytes
  pub major_minor : Bytes
  pub size_bytes : ℕ
  pub model : Bytes
  pub serial : Bytes
  pub wwn : Bytes
  pub transport : Bytes
  pub driver : Bytes

-- `unset` is the empty string.
pub data InstallMethod : Type 0 where
  direct kexec grub unset : InstallMethod

pub record Disk : Type 0 where
  pub fingerprint : DiskFingerprint
  pub root_backed : Bool
  pub mounted : Bool
  pub method : InstallMethod
  pub kernel_path : Bytes
  pub initrd_path : Bytes
  pub has_kexec : Bool
  pub has_grub : Bool

pub record DhcpProbe : Type 0 where
  pub attempted : Bool
  pub offered : Bool
  pub address : Bytes
  pub server : Bytes
  pub message : Bytes

pub record Ipv4Plan : Type 0 where
  pub mode : Bytes
  pub addresses : List Bytes
  pub gateway : Bytes
  pub gateway_on_link : Bool
  pub use_peer_dns : Bool
  pub evidence : Evidence

pub record Ipv6Plan : Type 0 where
  pub slaac : Bool
  pub dhcp : Bool
  pub addresses : List Bytes
  pub gateway : Bytes
  pub gateway_on_link : Bool
  pub use_peer_dns : Bool
  pub evidence : Evidence

pub record NetworkPlan : Type 0 where
  pub interface_name : Bytes
  pub mac : Bytes
  pub driver : Bytes
  pub mtu : ℕ
  pub ipv4 : Ipv4Plan
  pub ipv6 : Ipv6Plan
  pub dns : List Bytes
  pub dhcp_probe : DhcpProbe
  pub evidence : Evidence
  pub sources : List Bytes

pub record Release : Type 0 where
  pub version : Bytes
  pub image_url : Bytes
  pub checksum_url : Bytes
  pub checksum : Bytes
  pub tested : Bool
  pub uefi_boot : Bool
  pub compatibility : Bytes

pub record Preflight : Type 0 where
  pub host : Host
  pub disk : Disk
  pub network : NetworkPlan
  pub release : Release
  pub issues : List Issue

abbrev pub is_blocker : Severity → Bool
is_blocker blocker = true
is_blocker _ = false

-- The loop of `Blocked`.
unfoldable pub any_blocker : List Issue → Bool
any_blocker [] = false
any_blocker (i ∷ is) = is_blocker i.severity || any_blocker is

unfoldable pub blocked : Preflight → Bool
unfolding any_blocker
blocked p = any_blocker p.issues

-- `any_blocker` of a list is decided part by part.
pub any_blocker-++ :
    (xs ys : List Issue) → any_blocker (xs ++ ys) ≡ (any_blocker xs || any_blocker ys)
unfolding any_blocker
any_blocker-++ [] ys = refl
any_blocker-++ (x ∷ xs) ys = ground (arith, any_blocker-++ xs ys)

-- An issue of a detector. The text of its message is left out.
abbrev pub note : Severity → Bytes → Issue
note s code = record { severity = s; code = code; message = [] }

-- Issues under conditions, one after the other: `blocks_if` for a blocker, `notes_if` for another.
pub data Check : Type 0 where
  blocks_if : Bool → Bytes → Check
  notes_if : Bool → Severity → Bytes → Check

abbrev pub note_if : Bool → Severity → Bytes → List Issue → List Issue
note_if true s code rest = note s code ∷ rest
note_if false s code rest = rest

unfoldable pub issues_of : List Check → List Issue
issues_of [] = []
issues_of (blocks_if b code ∷ cs) = note_if b blocker code (issues_of cs)
issues_of (notes_if b s code ∷ cs) = note_if b s code (issues_of cs)

-- No condition of a blocker holds.
abbrev pub Clear : List Check → Type 0
Clear [] = Unit
Clear (blocks_if b code ∷ cs) = (b ≡ false) × Clear cs
Clear (notes_if b s code ∷ cs) = Clear cs

pub issues_of-Clear : (cs : List Check) → any_blocker (issues_of cs) ≡ false → Clear cs
unfolding issues_of any_blocker
issues_of-Clear [] h = tt
issues_of-Clear (blocks_if true code ∷ cs) h = cc
issues_of-Clear (blocks_if false code ∷ cs) h = (refl, issues_of-Clear cs h)
issues_of-Clear (notes_if true info code ∷ cs) h = issues_of-Clear cs h
issues_of-Clear (notes_if true warning code ∷ cs) h = issues_of-Clear cs h
issues_of-Clear (notes_if true blocker code ∷ cs) h = cc
issues_of-Clear (notes_if false s code ∷ cs) h = issues_of-Clear cs h

-- A list without a blocker is one in each part.
pub any_blocker-++_false :
    (xs ys : List Issue)
    → any_blocker (xs ++ ys) ≡ false
    → (any_blocker xs ≡ false) × (any_blocker ys ≡ false)
any_blocker-++_false xs ys h = ground (arith, any_blocker-++ xs ys, h)
