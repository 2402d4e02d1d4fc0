-- ===== src/Display/Tests.antt =====
-- Runs of the countdown and of the summary.
use nfx_edge.Common.{
  ℕ, ◌+◌, ◌-◌, ◌/◌, ◌≤◌, ◌<◌, ◌≡◌, refl, ◌⊎◌, Text, codes, true, false, Option, some, List, [], ◌∷◌,
  filter, length, decimal,
}
use nfx_edge.Display.{
  ℤ, pos, negsuc, Cert, red, amber, green, summary, summary_rows, parts_text, certificate_countdown,
  format_time,
}
use nfx_edge.Display.Countdown.{IsTime, certificate_countdown_lem}
use nfx_edge.Display.Counts.{has_badge, is_twice, summary_lem}

-- A date that is read as one day, one hour, one minute and one second.
abbrev read : Text → Option ℕ
read date = some 90061000

a_day_left : certificate_countdown read 0 (some (codes "2026")) ≡ (codes "01:01:01:01", false)
unfolding certificate_countdown format_time decimal
a_day_left = refl

certificate_countdown_lem_example :
    ((90061000 ≤ 500)
      × (certificate_countdown read 500 (some (codes "2026")) ≡ (codes "00:00:00:00", true)))
    ⊎ ((500 < 90061000)
        × ((p : ℕ × ℕ × ℕ × ℕ) × (certificate_countdown read 500 (some (codes "2026"))
              ≡ (parts_text p, false))
            × IsTime ((90061000 - 500) / 1000) p))
certificate_countdown_lem_example =
    certificate_countdown_lem read 500 90061000 (codes "2026") refl refl

abbrev t : Text → Text
t key = key

abbrev remaining : ℤ → Text
remaining (pos n) = decimal n
remaining (negsuc n) = codes "-"

abbrev revoked : Cert
revoked = record { domain = codes "a.io"; is_valid = false; days_remaining = some (pos 10) }

abbrev certificates : List Cert
certificates =
    revoked
    ∷ record revoked { is_valid = true }
    ∷ record revoked { is_valid = true; days_remaining = some (pos 80) }
    ∷ []

-- One certificate of three counts as expired and as expiring soon.
counted_twice : ((summary certificates).expired ≡ 1) × ((summary certificates).expiring ≡ 2)
unfolding summary
counted_twice = (refl, refl)

summary_lem_example :
    let rows = summary_rows certificates in
    ((summary certificates).expired ≡ length (filter (has_badge t remaining red) rows))
    × ((summary certificates).expiring
        ≡ length (filter (has_badge t remaining amber) rows) + length (filter is_twice rows))
    × ((summary certificates).total
        ≡ length (filter (has_badge t remaining red) rows)
          + (length (filter (has_badge t remaining amber) rows)
              + length (filter (has_badge t remaining green) rows)))
summary_lem_example = summary_lem t remaining certificates
