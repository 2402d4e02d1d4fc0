-- ===== src/Analysis/Shown.antt =====
-- What the page of the analysis shows at once: console/src/pages/Analysis/Tls/index.tsx.
use nfx_edge.Common.{
  ◌≡◌, refl, sym, subst, ◌⊎◌, inl, inr, Text, Bool, true, false, not, ◌||◌, none, some, List, [],
  ◌∷◌, arith, if◌then◌else◌, trim, truthy,
}
use nfx_edge.Analysis.{
  Response, Page, first_page, Act, certificate_typed, key_typed, analyze_pressed, clear_pressed,
  answered, thrown, handle_analyze, handle_clear, act_on, act_all, specimen,
}

-- While an analysis is awaited nothing is shown; otherwise a specimen and an error are not shown at
-- once.
pub IsClear {ℓ} : {D : Type ℓ} → Page D → Type ℓ
IsClear page =
    (page.pending ≡ true → (page.result ≡ none) × (page.error ≡ none))
    × (specimen page ≡ none ⊎ page.error ≡ none)

module _ {ℓ} {D : Type ℓ} (need_certificate : Text) where
  waits_IsClear :
      (page : Page D) → IsClear (record page { error = none; result = none; pending = true })
  unfolding IsClear specimen
  waits_IsClear page = (λ p. (refl, refl), inr refl)

  answered-IsClear :
      (response : Response D) (page : Page D)
      → page.error ≡ none
      → IsClear (record page {
        pending = false;
        result = some response;
        error = if response.success then page.error else some response.message;
      })
  unfolding IsClear specimen
  answered-IsClear response page e = by_success response.success
    where
      by_success :
          (b : Bool)
          → (false ≡ true
              → (some response ≡ none) × ((if b then page.error else some response.message) ≡ none))
            × ((if b then some response.body else none) ≡ none
                ⊎ (if b then page.error else some response.message) ≡ none)
      by_success true = (λ p. absurd (cc), inr e)
      by_success false = (λ p. absurd (cc), inl refl)

  analyze_free :
      (page : Page D)
      → (not (truthy (trim page.certificate)) || page.pending) ≡ false
      → handle_analyze need_certificate page
        ≡ record page { error = none; result = none; pending = true }
  analyze_free page h =
      let (given, idle) = parts (not (truthy (trim page.certificate))) page.pending h in
      unfold handle_analyze in rw (idle, given, if◌then◌else◌)
    where
      parts : (a b : Bool) → (a || b) ≡ false → (a ≡ false) × (b ≡ false)
      parts a b h = ground (arith, h)

  thrown-IsClear :
      (message : Text) (page : Page D)
      → page.result ≡ none
      → IsClear (record page { error = some message; pending = false })
  unfolding IsClear specimen
  thrown-IsClear message page e = (λ p. absurd (cc), inl (rw e))

  if-IsClear :
      (b : Bool) (v w : Page D)
      → (b ≡ true → IsClear v)
      → (b ≡ false → IsClear w)
      → IsClear (if b then v else w)
  if-IsClear true v w h k = h refl
  if-IsClear false v w h k = k refl

  act_on-IsClear :
      (act : Act D) (page : Page D) → IsClear page → IsClear (act_on need_certificate act page)
  unfolding act_on
  act_on-IsClear (certificate_typed text) page h = unfold IsClear specimen in h
  act_on-IsClear (key_typed text) page h = unfold IsClear specimen in h
  act_on-IsClear analyze_pressed page h =
      if-IsClear (not (truthy (trim page.certificate)) || page.pending) page
        (handle_analyze need_certificate page) (λ disabled. h)
        (λ enabled. subst IsClear (sym (analyze_free page enabled)) (waits_IsClear page))
  act_on-IsClear clear_pressed page h =
      if-IsClear page.pending page (handle_clear page) (λ disabled. h)
        (λ enabled. unfold handle_clear IsClear specimen in (λ p. (refl, refl), inl refl))
  act_on-IsClear (answered response) page h =
      if-IsClear page.pending _ page
        (λ awaited. answered-IsClear response page (unfold IsClear in (h.0 awaited).1))
        (λ not_awaited. h)
  act_on-IsClear (thrown message) page h =
      if-IsClear page.pending _ page
        (λ awaited. thrown-IsClear message page (unfold IsClear in (h.0 awaited).0))
        (λ not_awaited. h)

  act_all-keeps :
      (acts : List (Act D)) (page : Page D)
      → IsClear page
      → IsClear (act_all need_certificate acts page)
  unfolding act_all
  act_all-keeps [] page h = h
  act_all-keeps (act ∷ acts) page h =
      act_all-keeps acts (act_on need_certificate act page) (act_on-IsClear act page h)

  -- Whatever is typed and pressed from the first render on, and whatever the server answers: while an
  -- analysis is awaited neither a certificate nor an error is shown, and they are never shown at once.
  pub act_all-IsClear :
      (acts : List (Act D)) → IsClear (act_all need_certificate acts (first_page D))
  act_all-IsClear acts =
      act_all-keeps acts (first_page D) (unfold IsClear specimen in (λ p. (refl, refl), inl refl))
