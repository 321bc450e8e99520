-- ===== src/Install/Initramfs.antt =====
-- internal/install/initramfs.go: the quoting of a path in the hook that a shell runs. The files and the
-- commands around it are not modelled.
use install_mikrotik_chr_scr.Common.{
  ℕ, ◌≡◌, refl, sym, ◌∙◌, ap, Bool, ◌||◌, [], ◌∷◌, ◌++◌, Option, none, some, ◌==◌, if◌then◌else◌,
  Bool-cases, if-true, if-false, inl, inr, subst, ==_iff,
}
use install_mikrotik_chr_scr.Common.Text.{Bytes}

-- The two quotes.
abbrev pub quote : ℕ
quote = 39

abbrev pub double_quote : ℕ
double_quote = 34

-- `strings.ReplaceAll` of a quote by '"'"'.
pub escape_quotes : Bytes → Bytes
escape_quotes [] = []
escape_quotes (c ∷ s) =
    let rest = escape_quotes s in
    if c == quote then quote ∷ double_quote ∷ quote ∷ double_quote ∷ quote ∷ rest else c ∷ rest

-- `shellQuote`.
pub shell_quote : Bytes → Bytes
shell_quote v = quote ∷ (escape_quotes v ++ quote ∷ [])

-- How a shell reads a word that consists of quoted parts alone: the bytes that stand for themselves.
-- Between double quotes, `$`, the backquote and the backslash do not.
pub data Quoting : Type 0 where
  outside single double : Quoting

abbrev then_byte : ℕ → Option Bytes → Option Bytes
then_byte c none = none
then_byte c (some s) = some (c ∷ s)

abbrev is_expanded : ℕ → Bool
is_expanded c = c == b'$' || c == b'`' || c == 92

pub shell_word : Quoting → Bytes → Option Bytes
shell_word outside [] = some []
shell_word single [] = none
shell_word double [] = none
shell_word outside (c ∷ s) =
    let in_single = shell_word single s in
    let in_double = shell_word double s in
    if c == quote then in_single else if c == double_quote then in_double else none
shell_word single (c ∷ s) =
    let after = shell_word outside s in
    let rest = shell_word single s in if c == quote then after else then_byte c rest
shell_word double (c ∷ s) =
    let after = shell_word outside s in
    let rest = shell_word double s in
    if c == double_quote then after else if is_expanded c then none else then_byte c rest

quoted_part : (v : Bytes) → shell_word single (escape_quotes v ++ quote ∷ []) ≡ some v
unfolding shell_word escape_quotes
quoted_part [] = refl
quoted_part (c ∷ v) = elim (Bool-cases (c == quote)) [
  | inl e ↦
      subst (λ t. shell_word single (t ++ quote ∷ []) ≡ some (c ∷ v)) (sym (if-true _ _ e))
        (ap (then_byte quote) (quoted_part v) ∙ ap (λ t. some (t ∷ v)) (sym ((==_iff c quote).0 e)))
  | inr e ↦
      subst (λ t. shell_word single (t ++ quote ∷ []) ≡ some (c ∷ v)) (sym (if-false _ _ e))
        (if-false _ _ e ∙ ap (then_byte c) (quoted_part v))
]

-- A shell reads a quoted path as one word with exactly its bytes, whatever they are.
pub shell_word-shell_quote : (v : Bytes) → shell_word outside (shell_quote v) ≡ some v
unfolding shell_word shell_quote
shell_word-shell_quote v = quoted_part v
