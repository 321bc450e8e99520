-- ===== src/Install/Manifest/Clock.antt =====
-- The window of the manifest's timestamp, and the correction of a skewed clock.
use install_mikrotik_chr_scr.Common.{
  ℕ, zero, suc, ◌*◌, ◌≤◌, ◌≡◌, ◌≢◌, refl, ◌⊎◌, inl, inr, ◌↔◌, Bool, true, false, ◌&&◌, some,
  if◌then◌else◌, Result, ok, err, ◌>>◌, refuse_if, arith, ap, sym, ◌∙◌, subst,
}
use install_mikrotik_chr_scr.Common.Int.{
  ℤ, pos, negsuc, minus, ◌+ℤ◌, ◌-ℤ◌, ◌*ℤ◌, ◌≤ℤ◌, leb_ℤ, int_laws,
}
use install_mikrotik_chr_scr.Install.Manifest.{
  Manifest, ManifestError, second, manifest_max_age, manifest_future_leeway, max_rtc_seconds,
  no_timestamp, outside_window, timestamp_within_window, offset_is_usable, adjusted_clock,
  validate_timestamp, measured_rtc_offset,
}

-- `current` lies between five minutes before `created` and a day after it.
abbrev pub InWindow : ℤ → ℤ → Type 0
InWindow created current =
    (created ≤ℤ current +ℤ manifest_future_leeway) × (current ≤ℤ created +ℤ manifest_max_age)

pub window_iff :
    (created current : ℤ)
    → (timestamp_within_window created current ≡ true) ↔ InWindow created current
unfolding timestamp_within_window ◌-ℤ◌ ◌+ℤ◌
window_iff created current = (λ h. ground arith, λ h. ground arith)

-- The manifest's offset is not zero, and a day at most either way.
abbrev pub OffsetIsUsable : ℤ → Type 0
OffsetIsUsable o = (o ≢ pos 0) × (minus max_rtc_seconds ≤ℤ o) × (o ≤ℤ pos max_rtc_seconds)

offset_iff : (o : ℤ) → (offset_is_usable o ≡ true) ↔ OffsetIsUsable o
offset_iff (pos zero) = (λ h. cc, λ h. absurd (h.0 refl))
offset_iff (pos (suc n)) =
    (λ h. (λ e. cc, ground arith, ground arith), λ h. ground (arith, h.1, h.2))
offset_iff (negsuc n) = (λ h. (λ e. cc, ground arith, ground arith), λ h. ground (arith, h.1, h.2))

zero_iff : (t : ℤ) → ((leb_ℤ t (pos 0) && leb_ℤ (pos 0) t) ≡ false) ↔ (t ≢ pos 0)
zero_iff (pos zero) = (λ h. cc, λ h. absurd (h refl))
zero_iff (pos (suc n)) = (λ h e. cc, λ h. ground arith)
zero_iff (negsuc n) = (λ h e. cc, λ h. ground arith)

abbrev steps : Bool → Bool → Bool → Bool → Result ManifestError (Unit {0})
steps zeroed direct usable adjusted = do
  refuse_if zeroed no_timestamp
  if direct then ok tt else if usable && adjusted then ok tt else err outside_window

steps_sound :
    (zeroed direct usable adjusted : Bool)
    → steps zeroed direct usable adjusted ≡ ok tt
    → (zeroed ≡ false) × ((direct ≡ true) ⊎ ((usable ≡ true) × (adjusted ≡ true)))
steps_sound false true u a h = (refl, inl refl)
steps_sound false false true true h = (refl, inr (refl, refl))
steps_sound false false true false h = cc
steps_sound false false false a h = cc
steps_sound true d u a h = cc

steps_complete :
    (zeroed direct usable adjusted : Bool)
    → (zeroed ≡ false) × ((direct ≡ true) ⊎ ((usable ≡ true) × (adjusted ≡ true)))
    → steps zeroed direct usable adjusted ≡ ok tt
steps_complete z d u a (e, inl f) = rw (e, f)
steps_complete false false u a (e, inr (f, g)) = rw (f, g)
steps_complete false true u a (e, inr (f, g)) = refl
steps_complete true d u a (e, inr (f, g)) = cc

steps_iff :
    {P Q R S : Type 0} (zeroed direct usable adjusted : Bool)
    → (zeroed ≡ false) ↔ P
    → (direct ≡ true) ↔ Q
    → (usable ≡ true) ↔ R
    → (adjusted ≡ true) ↔ S
    → (steps zeroed direct usable adjusted ≡ ok tt) ↔ (P × (Q ⊎ (R × S)))
steps_iff {P} {Q} {R} {S} z d u a p q r s =
    (λ h. there (steps_sound z d u a h), λ h. steps_complete z d u a (back h))
  where
    there : (z ≡ false) × ((d ≡ true) ⊎ ((u ≡ true) × (a ≡ true))) → P × (Q ⊎ (R × S))
    there (x, inl y) = (p.0 x, inl (q.0 y))
    there (x, inr (y, w)) = (p.0 x, inr (r.0 y, s.0 w))

    back : P × (Q ⊎ (R × S)) → (z ≡ false) × ((d ≡ true) ⊎ ((u ≡ true) × (a ≡ true)))
    back (x, inl y) = (p.1 x, inl (q.1 y))
    back (x, inr (y, w)) = (p.1 x, inr (r.1 y, s.1 w))

-- The timestamp check passes exactly when the manifest has a timestamp and the writer's clock is
-- in the window, as it stands or, where the recorded offset is usable, corrected by that offset.
pub validate_timestamp_iff :
    (m : Manifest) (clock : ℤ)
    → (validate_timestamp m clock ≡ ok tt) ↔ (
        (m.created_at ≢ pos 0)
        × (InWindow m.created_at clock
            ⊎ (OffsetIsUsable m.rtc_offset × InWindow m.created_at (adjusted_clock m clock))))
unfolding validate_timestamp
validate_timestamp_iff m clock =
    steps_iff _ _ (offset_is_usable m.rtc_offset) _ (zero_iff m.created_at)
      (window_iff m.created_at clock) (offset_iff m.rtc_offset)
      (window_iff m.created_at (adjusted_clock m clock))

-- The recorded offset never exceeds a day.
pub measured_rtc_offset_bounds :
    (unix rtc : ℤ)
    → (minus max_rtc_seconds ≤ℤ measured_rtc_offset unix (some rtc))
      × (measured_rtc_offset unix (some rtc) ≤ℤ pos max_rtc_seconds)
unfolding measured_rtc_offset ◌-ℤ◌
measured_rtc_offset_bounds unix rtc = ground arith

measured_lem :
    (unix rtc : ℤ)
    → minus max_rtc_seconds ≤ℤ unix -ℤ rtc
    → unix -ℤ rtc ≤ℤ pos max_rtc_seconds
    → measured_rtc_offset unix (some rtc) ≡ unix -ℤ rtc
unfolding measured_rtc_offset
measured_lem unix rtc low high = ground arith

waited-InWindow :
    (created : ℤ) (waited : ℕ)
    → waited ≤ 24 * 3600 * second
    → InWindow created (created +ℤ pos waited)
waited-InWindow created waited soon = (omega int_laws, omega int_laws)

undo : (c z w : ℤ) → (c -ℤ z +ℤ w) +ℤ z ≡ c +ℤ w
undo c z w = omega int_laws

zero-*ℤ : (w : ℤ) → pos 0 *ℤ w ≡ pos 0
unfolding ◌*ℤ◌
zero-*ℤ w = ground arith

keep : (c w : ℤ) → c -ℤ pos 0 +ℤ w ≡ c +ℤ w
keep c w = omega int_laws

ℤ-zero_cases : (o : ℤ) → (o ≡ pos 0) ⊎ (o ≢ pos 0)
ℤ-zero_cases (pos zero) = inl refl
ℤ-zero_cases (pos (suc n)) = inr (λ e. cc)
ℤ-zero_cases (negsuc n) = inr (λ e. cc)

-- The correction that the offset is for. Let the RTC differ from the clock by a day at most when
-- the manifest is made. A writer that reads the RTC's time, `waited` nanoseconds later and a day at
-- most, passes the timestamp check.
pub skewed_clock_passes :
    (m : Manifest) (unix rtc clock : ℤ) (waited : ℕ)
    → m.created_at ≢ pos 0
    → m.rtc_offset ≡ measured_rtc_offset unix (some rtc)
    → minus max_rtc_seconds ≤ℤ unix -ℤ rtc
    → unix -ℤ rtc ≤ℤ pos max_rtc_seconds
    → waited ≤ 24 * 3600 * second
    → clock ≡ m.created_at -ℤ (unix -ℤ rtc) *ℤ pos second +ℤ pos waited
    → validate_timestamp m clock ≡ ok tt
skewed_clock_passes m unix rtc clock waited made measured low high soon reads =
    let offset : m.rtc_offset ≡ unix -ℤ rtc = measured ∙ measured_lem unix rtc low high in
    let late : InWindow m.created_at (m.created_at +ℤ pos waited) =
      waited-InWindow m.created_at waited soon in
    (validate_timestamp_iff m clock).1 (
      made,
      elim (ℤ-zero_cases (unix -ℤ rtc)) [
        | inl z ↦
            let straight : clock ≡ m.created_at +ℤ pos waited =
              reads
              ∙ ap (λ o. m.created_at -ℤ o *ℤ pos second +ℤ pos waited) z
              ∙ ap (λ o. m.created_at -ℤ o +ℤ pos waited) (zero-*ℤ (pos second))
              ∙ keep m.created_at (pos waited) in
            inl (subst (InWindow m.created_at) (sym straight) late)
        | inr n ↦
            let back : adjusted_clock m clock ≡ m.created_at +ℤ pos waited =
              ap (λ o. clock +ℤ o *ℤ pos second) offset
              ∙ ap (λ c. c +ℤ (unix -ℤ rtc) *ℤ pos second) reads
              ∙ undo m.created_at ((unix -ℤ rtc) *ℤ pos second) (pos waited) in
            inr (
              subst OffsetIsUsable (sym offset) (n, low, high),
              subst (InWindow m.created_at) (sym back) late,
            )
      ],
    )
