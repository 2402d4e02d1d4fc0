-- ===== src/Display/Countdown.antt =====
-- The countdown of a certificate: `useCertificateCountdown` of console/src/hooks/certificateDisplay.ts.
use nfx_edge.Common.{
  ℕ, ◌+◌, ◌-◌, ◌*◌, ◌/◌, ◌≤◌, ◌<◌, ◌≡◌, refl, ap, ◌∙◌, ◌⊎◌, inl, inr, Text, codes, true, false,
  Option, some, arith, leb, if◌then◌else◌, truthy,
}
use nfx_edge.Display.{parts, parts_text, update_countdown, countdown_to, certificate_countdown}

-- Days, hours, minutes and seconds make up the time.
pub IsTime : ℕ → ℕ × ℕ × ℕ × ℕ → Type 0
IsTime total (days, hours, minutes, seconds) =
    (hours < 24)
    × (minutes < 60)
    × (seconds < 60)
    × (((days * 24 + hours) * 60 + minutes) * 60 + seconds ≡ total)

parts-IsTime : (diff : ℕ) → IsTime (diff / 1000) (parts diff)
unfolding IsTime parts
parts-IsTime diff = (omega arith, omega arith, omega arith, omega arith)

updated :
    (now expiry : ℕ)
    → ((expiry ≤ now) × (update_countdown now expiry ≡ (codes "00:00:00:00", true)))
      ⊎ ((now < expiry)
          × (update_countdown now expiry ≡ (parts_text (parts (expiry - now)), false)))
unfolding update_countdown
updated now expiry = elim (le_or_gt expiry now) [
  | inl past ↦ inl (past, rw (leb_true past) refl)
  | inr left ↦ inr (left, rw (leb_false left) refl)
]
  where
    le_or_gt : (a b : ℕ) → a ≤ b ⊎ b < a
    le_or_gt a b = ground arith

    leb_true : {a b : ℕ} → a ≤ b → leb a b ≡ true
    leb_true h = ground arith

    leb_false : {a b : ℕ} → b < a → leb a b ≡ false
    leb_false h = ground arith

-- The countdown to a date that is given and read is either all zeros, and the certificate expired,
-- from that date on; or before it the days, hours, minutes and seconds whose sum is the whole seconds
-- that are left, with fewer than 24 hours, 60 minutes and 60 seconds, and the certificate is not
-- expired.
pub certificate_countdown_lem :
    (get_time : Text → Option ℕ) (now expiry : ℕ) (not_after : Text)
    → truthy not_after ≡ true
    → get_time not_after ≡ some expiry
    → ((expiry ≤ now)
        × (certificate_countdown get_time now (some not_after) ≡ (codes "00:00:00:00", true)))
      ⊎ ((now < expiry)
          × ((p : ℕ × ℕ × ℕ × ℕ) × (certificate_countdown get_time now (some not_after)
                ≡ (parts_text p, false))
              × IsTime ((expiry - now) / 1000) p))
certificate_countdown_lem get_time now expiry not_after h e =
    let shown : certificate_countdown get_time now (some not_after) ≡ update_countdown now expiry =
      unfold certificate_countdown in rw (h, if◌then◌else◌) (reached e) in
    elim (updated now expiry) [
      | inl (past, q) ↦ inl (past, shown ∙ q)
      | inr (left, q) ↦ inr (left, (parts (expiry - now), shown ∙ q, parts-IsTime (expiry - now)))
    ]
  where
    reached :
        get_time not_after ≡ some expiry
        → countdown_to now (get_time not_after) ≡ update_countdown now expiry
    reached e = unfold countdown_to in ap (countdown_to now) e
