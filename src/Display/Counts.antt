-- ===== src/Display/Counts.antt =====
-- The summary of all certificates next to the badge of each: console/src/hooks/certificateDisplay.ts
-- and `CertSummary` of console/src/pages/Certs/Overview/index.tsx.
use nfx_edge.Common.{
  ℕ, ◌+◌, ◌≡◌, refl, sym, ap, ◌∙◌, Text, Bool, true, false, not, ◌&&◌, ◌||◌, Option, none, some,
  List, [], ◌∷◌, arith, filter, length,
}
use nfx_edge.Display.{
  ℤ, pos, negsuc, Cert, Color, gray, red, amber, green, is_over, is_below, is_expired_cert,
  days_info, certificate_time, summary_rows, is_expiring, summary,
}

abbrev pub color_eq : Color → Color → Bool
color_eq gray gray = true
color_eq red red = true
color_eq amber amber = true
color_eq green green = true
color_eq _ _ = false

-- Marked as not valid, though it has days left for which others are shown as expiring.
unfoldable pub is_twice : Cert → Bool
unfolding is_expiring
is_twice cert = not cert.is_valid && is_expiring cert

module _ (t : Text → Text) (remaining : ℤ → Text) where
  -- The badge of a certificate has the color.
  abbrev pub has_badge : Color → Cert → Bool
  has_badge color cert = color_eq (certificate_time t remaining (some cert)).color color

  red_badge : (cert : Cert) → has_badge red cert ≡ is_expired_cert cert
  red_badge cert = of_fields cert.domain cert.is_valid cert.days_remaining
    where
      of_fields :
          (d : Text) (v : Bool) (r : Option ℤ)
          → has_badge red (record { domain = d; is_valid = v; days_remaining = r })
            ≡ is_expired_cert (record { domain = d; is_valid = v; days_remaining = r })
      of_fields d false r = unfold certificate_time is_expired_cert in refl
      of_fields d true none = unfold certificate_time is_expired_cert days_info is_over in refl
      of_fields d true (some (pos n)) =
          unfold certificate_time is_expired_cert days_info is_below is_over in ground arith
      of_fields d true (some (negsuc n)) = unfold certificate_time is_expired_cert is_over in refl

  expiring_badge :
      (cert : Cert)
      → (is_expiring cert ≡ (has_badge amber cert || is_twice cert))
        × ((has_badge amber cert && is_twice cert) ≡ false)
  expiring_badge cert = of_fields cert.domain cert.is_valid cert.days_remaining
    where
      of_fields :
          (d : Text) (v : Bool) (r : Option ℤ)
          → let c : Cert = record { domain = d; is_valid = v; days_remaining = r } in
            (is_expiring c ≡ (has_badge amber c || is_twice c))
            × ((has_badge amber c && is_twice c) ≡ false)
      of_fields d false r = unfold certificate_time is_expired_cert is_twice in (refl, refl)
      of_fields d true none =
          unfold certificate_time is_expired_cert days_info is_over is_twice is_expiring in
          (refl, refl)
      of_fields d true (some (pos n)) =
          unfold certificate_time is_expired_cert days_info is_below is_over is_twice is_expiring in
          (ground arith, ground arith)
      of_fields d true (some (negsuc n)) =
          unfold certificate_time is_expired_cert is_over is_twice is_expiring in (refl, refl)

  -- The badge of a certificate is red, amber or green, and only one of these.
  one_badge :
      (cert : Cert)
      → (not (has_badge red cert) ≡ (has_badge amber cert || has_badge green cert))
        × ((has_badge amber cert && has_badge green cert) ≡ false)
  one_badge cert = of_fields cert.domain cert.is_valid cert.days_remaining
    where
      of_fields :
          (d : Text) (v : Bool) (r : Option ℤ)
          → let c : Cert = record { domain = d; is_valid = v; days_remaining = r } in
            (not (has_badge red c) ≡ (has_badge amber c || has_badge green c))
            × ((has_badge amber c && has_badge green c) ≡ false)
      of_fields d false r = unfold certificate_time is_expired_cert in (refl, refl)
      of_fields d true none =
          unfold certificate_time is_expired_cert days_info is_over in (refl, refl)
      of_fields d true (some (pos n)) =
          unfold certificate_time is_expired_cert days_info is_below is_over in
          (ground arith, ground arith)
      of_fields d true (some (negsuc n)) =
          unfold certificate_time is_expired_cert is_over in (refl, refl)

module _ {ℓ} {A : Type ℓ} where
  count : (A → Bool) → List A → ℕ
  count p xs = length (filter p xs)

  count_same : (p q : A → Bool) (xs : List A) → ((x : A) → p x ≡ q x) → count p xs ≡ count q xs
  unfolding count
  count_same p q [] h = refl
  count_same p q (x ∷ xs) h = ground (arith, h x, count_same p q xs h)

  count_either :
      (p q r : A → Bool) (xs : List A)
      → ((x : A) → (p x ≡ (q x || r x)) × ((q x && r x) ≡ false))
      → count p xs ≡ count q xs + count r xs
  unfolding count
  count_either p q r [] h = omega arith
  count_either p q r (x ∷ xs) h = ground (arith, (h x).0, (h x).1, count_either p q r xs h)

  count_rest : (p : A → Bool) (xs : List A) → length xs ≡ count p xs + count (λ x. not (p x)) xs
  unfolding count
  count_rest p [] = omega arith
  count_rest p (x ∷ xs) = ground (arith, count_rest p xs)

-- The summary of expired certificates counts those with a red badge; the summary of those that expire
-- soon counts those with an amber badge, and also every certificate with a red badge that is marked as
-- not valid and has 1 to 30 days left; and red, amber and green badges make up the total.
pub summary_lem :
    (t : Text → Text) (remaining : ℤ → Text) (certificates : List Cert)
    → let rows = summary_rows certificates in
      ((summary certificates).expired ≡ length (filter (has_badge t remaining red) rows))
      × ((summary certificates).expiring
          ≡ length (filter (has_badge t remaining amber) rows) + length (filter is_twice rows))
      × ((summary certificates).total
          ≡ length (filter (has_badge t remaining red) rows)
            + (length (filter (has_badge t remaining amber) rows)
                + length (filter (has_badge t remaining green) rows)))
unfolding summary count
summary_lem t remaining certificates =
    let rows = summary_rows certificates in
    (
      count_same is_expired_cert (has_badge t remaining red) rows
          (λ c. sym (red_badge t remaining c)),
      count_either is_expiring (has_badge t remaining amber) is_twice rows
          (expiring_badge t remaining),
      count_rest (has_badge t remaining red) rows
          ∙ ap (λ n. length (filter (has_badge t remaining red) rows) + n)
              (count_either (λ c. not (has_badge t remaining red c)) (has_badge t remaining amber)
                (has_badge t remaining green) rows (one_badge t remaining)),
    )
