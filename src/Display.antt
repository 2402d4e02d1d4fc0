-- ===== src/Display.antt =====
-- How long certificates are valid: console/src/hooks/certificateDisplay.ts, and the counts of
-- console/src/pages/Certs/Overview/index.tsx. The translations and the reading of a date are
-- arguments; times are in milliseconds, and days are whole numbers.
pub mod Countdown
pub mod Counts
mod Tests
use nfx_edge.Common.{
  ℕ, zero, suc, ◌-◌, ◌/◌, ◌%◌, Text, codes, Bool, true, false, not, ◌&&◌, ◌||◌, Option, none, some,
  List, [], ◌∷◌, ◌++◌, leb, ltb, if◌then◌else◌, filter, length, truthy, decimal,
}

pub data ℤ : Type 0 where
  pos : ℕ → ℤ
  negsuc : ℕ → ℤ

-- The fields of `CertificateInfo` that are shown.
pub record Cert : Type 0 where
  pub domain : Text
  pub is_valid : Bool
  pub days_remaining : Option ℤ

pub data Color : Type 0 where
  gray red amber green : Color

pub record TimeInfo : Type 0 where
  pub label : Text
  pub color : Color

-- `days !== undefined && days <= 0`
unfoldable pub is_over : Option ℤ → Bool
is_over none = false
is_over (some (pos n)) = leb n 0
is_over (some (negsuc n)) = true

-- A comparison with a number that is not negative.
unfoldable pub is_below : ℤ → ℕ → Bool
is_below (pos n) bound = ltb n bound
is_below (negsuc n) bound = true

unfoldable pub is_expired_cert : Cert → Bool
unfolding is_over
is_expired_cert cert = not cert.is_valid || is_over cert.days_remaining

-- The badge of a certificate that is not expired, by its days.
unfoldable pub days_info : (Text → Text) → (ℤ → Text) → Option ℤ → TimeInfo
unfolding is_below
days_info t remaining none = record { label = t (codes "status.valid"); color = green }
days_info t remaining (some days) =
    if is_below days 7
    then record {
      label = t (codes "status.expiringSoon") ++ codes " · " ++ remaining days;
      color = amber;
    }
    else record { label = remaining days; color = if is_below days 31 then amber else green }

unfoldable pub certificate_time : (Text → Text) → (ℤ → Text) → Option Cert → TimeInfo
unfolding is_expired_cert days_info
certificate_time t remaining none = record { label = t (codes "status.valid"); color = gray }
certificate_time t remaining (some cert) =
    if is_expired_cert cert
    then record { label = t (codes "status.expired"); color = red }
    else days_info t remaining cert.days_remaining

-- `value.toString().padStart(2, "0")`
unfoldable pub format_time : ℕ → Text
unfolding decimal
format_time value = if ltb value 10 then codes "0" ++ decimal value else decimal value

-- Days, hours, minutes and seconds.
unfoldable pub parts : ℕ → ℕ × ℕ × ℕ × ℕ
parts diff =
    (diff / 86400000, diff % 86400000 / 3600000, diff % 3600000 / 60000, diff % 60000 / 1000)

unfoldable pub parts_text : ℕ × ℕ × ℕ × ℕ → Text
unfolding format_time
parts_text (days, hours, minutes, seconds) =
    format_time days
    ++ codes ":"
    ++ format_time hours
    ++ codes ":"
    ++ format_time minutes
    ++ codes ":"
    ++ format_time seconds

-- `updateCountdown` for a date that is read; the second part says whether the certificate is expired.
unfoldable pub update_countdown : ℕ → ℕ → Text × Bool
unfolding parts parts_text
update_countdown now expiry =
    if leb expiry now
    then (codes "00:00:00:00", true)
    else (parts_text (parts (expiry - now)), false)

-- The countdown to a date as it was read; `none` is an invalid date, whose time is NaN.
unfoldable pub countdown_to : ℕ → Option ℕ → Text × Bool
unfolding update_countdown
countdown_to now none = (codes "NaN:NaN:NaN:NaN", false)
countdown_to now (some expiry) = update_countdown now expiry

-- `useCertificateCountdown` once the effect has run.
unfoldable pub certificate_countdown : (Text → Option ℕ) → ℕ → Option Text → Text × Bool
unfolding countdown_to
certificate_countdown get_time now none = ([], false)
certificate_countdown get_time now (some not_after) =
    if truthy not_after then countdown_to now (get_time not_after) else ([], false)

-- The certificates of the summary and of the list's count.
unfoldable pub summary_rows : List Cert → List Cert
summary_rows certificates = filter (λ cert. truthy cert.domain) certificates

unfoldable pub is_expiring : Cert → Bool
is_expiring cert = elim cert.days_remaining [
  | none ↦ false
  | some days ↦ elim days [ negsuc n ↦ false | pos n ↦ ltb 0 n && leb n 30 ]
]

pub record Summary : Type 0 where
  pub total : ℕ
  pub expiring : ℕ
  pub expired : ℕ

unfoldable pub summary : List Cert → Summary
unfolding summary_rows is_expired_cert is_expiring
summary certificates =
    let rows = summary_rows certificates in
    record {
      total = length rows;
      expiring = length (filter is_expiring rows);
      expired = length (filter is_expired_cert rows);
    }
