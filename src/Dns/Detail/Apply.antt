-- ===== src/Dns/Detail/Apply.antt =====
-- The certificate that the page of a domain goes to: `applyHost`, `goApply` and `goApplyApex` of
-- console/src/pages/Namecheap/Detail/Domains/Detail/index.tsx.
use nfx_edge.Common.{
  ◌≡◌, refl, sym, ap, ◌∙◌, subst, ◌⊎◌, inl, inr, Text, Bool, true, false, not, ◌&&◌, Option, none,
  some, List, [], ◌∷◌, map, arith, if◌then◌else◌, All, filter, All-filter, find, text_eq, lower,
  contains, truthy, is_empty, Bool-cases,
}
use nfx_edge.Dns.Hosts.{host_to_fqdn, unique_fqdns}
use nfx_edge.Dns.Hosts.Unique.{
  Distinct, Distinct-filter, contains-filter, clean, unique_fqdns_exact, and_comm,
}
use nfx_edge.Dns.Detail.{
  Host, Page, host_key, is_key, last, found_or, selected_hosts, apply_host, cn_of, apply_cn, fqdns,
  go_apply,
}

module _ {ℓ} {A : Type ℓ} where
  find_sound :
      (p q : A → Bool) (xs : List A) (x : A)
      → All (λ y. q y ≡ true) xs
      → find p xs ≡ some x
      → (q x ≡ true) × (p x ≡ true)
  find_sound p q [] x h e = absurd (cc)
  find_sound p q (y ∷ ys) x h e = elim (Bool-cases (p y)) [
    | inl hit ↦
        let same : y ≡ x =
          some_inj
            (sym (subst (λ b. (if b then some y else find p ys) ≡ some y) (sym hit) refl) ∙ e) in
        (subst (λ z. q z ≡ true) same h.0, subst (λ z. p z ≡ true) same hit)
    | inr miss ↦
        find_sound p q ys x h.1
          (sym (subst (λ b. (if b then some y else find p ys) ≡ find p ys) (sym miss) refl) ∙ e)
  ]
    where
      some_inj : {y x : A} → some y ≡ some x → y ≡ x
      some_inj e = cc

  find_complete : (p : A → Bool) (xs : List A) → find p xs ≡ none → All (λ y. p y ≡ false) xs
  find_complete p [] e = tt
  find_complete p (y ∷ ys) e = elim (Bool-cases (p y)) [
    | inl hit ↦ absurd (
        some_none
          (sym (subst (λ b. (if b then some y else find p ys) ≡ some y) (sym hit) refl) ∙ e))
    | inr miss ↦ (
      miss,
      find_complete p ys
          (sym (subst (λ b. (if b then some y else find p ys) ≡ find p ys) (sym miss) refl) ∙ e),
    )
  ]
    where
      some_none : {y : A} → ¬ (some y ≡ none)
      some_none e = cc

  last-All :
      (q : A → Bool) (xs : List A) (x : A)
      → All (λ y. q y ≡ true) xs
      → last xs ≡ some x
      → q x ≡ true
  last-All q [] x h e = absurd (cc)
  last-All q (y ∷ []) x h e = ground (arith, h.0, e)
  last-All q (y ∷ z ∷ ys) x h e = last-All q (z ∷ ys) x h.1 e

  -- An element is the one found, or the last of a list where none is found.
  find-last :
      (p q : A → Bool) (xs : List A) (x : A)
      → All (λ y. q y ≡ true) xs
      → found_or (find p xs) (last xs) ≡ some x
      → (q x ≡ true) × (p x ≡ true ⊎ All (λ y. p y ≡ false) xs)
  find-last p q xs x h e = by_result (find p xs) refl e
    where
      by_result :
          (r : Option A)
          → find p xs ≡ r
          → found_or r (last xs) ≡ some x
          → (q x ≡ true) × (p x ≡ true ⊎ All (λ y. p y ≡ false) xs)
      by_result none f g = (last-All q xs x h g, inr (find_complete p xs f))
      by_result (some y) f g = let found = find_sound p q xs x h (f ∙ g) in (found.0, inl found.1)

-- The record that a certificate is applied for is a picked one; it is one with the key that was
-- picked last, if a record with that key is there.
apply_host_lem :
    (hosts : List Host) (page : Page) (host : Host)
    → apply_host hosts page ≡ some host
    → (contains page.picked (host_key host) ≡ true)
      × (is_key page.apply_key (host_key host) ≡ true
          ⊎ All
              (λ other. is_key page.apply_key (host_key other) ≡ false)
              (selected_hosts hosts page))
unfolding apply_host selected_hosts
apply_host_lem hosts page host e =
    find-last (λ other. is_key page.apply_key (host_key other))
      (λ other. contains page.picked (host_key other)) _ host (All-filter _ hosts) e

go_some {ℓ} : {A : Type ℓ} (b : Bool) (x : A) → not b ≡ true → (if b then none else some x) ≡ some x
go_some true x h = absurd (cc)
go_some false x h = refl

module _ (domain : Text) (hosts : List Host) (page : Page) where
  -- If the record to apply for has a name, the page goes to a certificate for that name. Its other
  -- names are distinct, and they are exactly the names of the picked records, in lower case, that
  -- are not empty and not the name of the certificate.
  pub go_apply_lem :
      (host : Host)
      → apply_host hosts page ≡ some host
      → truthy (host_to_fqdn host.name domain) ≡ true
      → (sans : List Text) × (go_apply domain hosts page
          ≡ some (host_to_fqdn host.name domain, sans))
        × Distinct sans
        × ((t : Text)
            → contains sans t ≡ (
                not (text_eq t (lower (host_to_fqdn host.name domain)))
                && (truthy t && contains (map clean (fqdns domain (selected_hosts hosts page))) t)))
  go_apply_lem host e h =
      let cn : Text = host_to_fqdn host.name domain in
      let differs : Text → Bool = λ fqdn. not (text_eq fqdn (lower cn)) in
      let exact = unique_fqdns_exact (fqdns domain (selected_hosts hosts page)) in
      let same : apply_cn domain hosts page ≡ cn = unfold apply_cn cn_of in rw e in
      (
        filter differs (unique_fqdns (fqdns domain (selected_hosts hosts page))),
        (unfold go_apply in rw same (go_some (is_empty cn) _ h)),
        Distinct-filter differs _ exact.0,
        λ t.
            contains-filter differs _ t
            ∙ and_comm _ (differs t)
            ∙ ap (λ b. differs t && b) (exact.1 t),
      )
