-- ===== src/Dns/Detail/Opened.antt =====
-- From the page of a domain's records to the form for a new certificate: `goApply` of
-- console/src/pages/Namecheap/Detail/Domains/Detail/index.tsx, and
-- console/src/features/certificate/hooks/useInitApplyCertificateForm.ts.
use nfx_edge.Common.{
  ℕ, ◌≡◌, refl, sym, ap, ◌∙◌, subst, inl, inr, Text, codes, Bool, true, false, not, ◌&&◌, Option,
  some, List, [], ◌∷◌, ◌++◌, map, reverse, arith, ◌==◌, if◌then◌else◌, Bool-cases, &&-left,
  &&-right, All, text_eq, text_eq_iff, text_eq_refl, trim, trim_start, trim_end, lower, lower_char,
  is_space, contains, truthy, drop_while, drop_last_while,
}
use mathlib.Core.List.{map-append, reverse-cons}
use nfx_edge.Common.TextLaws.{trim_idem, All-drop_while, All-drop_last_while}
use nfx_edge.Common.Split.{HasNo}
use nfx_edge.Dns.Hosts.{host_to_fqdn}
use nfx_edge.Dns.Hosts.Unique.{clean}
use nfx_edge.Certs.Prefill.{Params, cert_add, build_cert_add_path, default_values}
use nfx_edge.Certs.Prefill.Path.{IsName, default_values_lem}
use nfx_edge.Dns.Detail.{Host, Page, selected_hosts, apply_host, fqdns, go_apply}
use nfx_edge.Dns.Detail.Apply.{go_apply_lem}

is_space_lower : (c : ℕ) → is_space (lower_char c) ≡ is_space c
unfolding is_space lower_char
is_space_lower c = ground arith

drop_while-lower :
    (s : Text) → drop_while is_space (map lower_char s) ≡ map lower_char (drop_while is_space s)
drop_while-lower [] = refl
drop_while-lower (c ∷ s) = elim (Bool-cases (is_space c)) [
  | inl space ↦ rw (is_space_lower c, space, if◌then◌else◌) (drop_while-lower s)
  | inr other ↦ rw (is_space_lower c, other, if◌then◌else◌)
]

comma_lower : (c : ℕ) → (c == b',') ≡ false → (lower_char c == b',') ≡ false
unfolding lower_char
comma_lower c h = ground (arith, h)

reverse_snoc :
    (s : Text) (c : ℕ) → map lower_char (s ++ c ∷ []) ≡ map lower_char s ++ lower_char c ∷ []
reverse_snoc s c = map-append lower_char s (c ∷ [])

reverse-lower : (s : Text) → reverse (map lower_char s) ≡ map lower_char (reverse s)
reverse-lower [] = refl
reverse-lower (c ∷ s) =
    reverse-cons (lower_char c) (map lower_char s)
    ∙ ap (λ t. t ++ lower_char c ∷ []) (reverse-lower s)
    ∙ sym (reverse_snoc (reverse s) c)
    ∙ ap (map lower_char) (sym (reverse-cons c s))

trim-lower : (s : Text) → trim (lower s) ≡ lower (trim s)
unfolding trim trim_start trim_end lower
trim-lower s =
    ap drop_end (drop_while-lower s)
    ∙ ap (λ t. reverse (drop_while is_space t)) (reverse-lower (drop_while is_space s))
    ∙ ap reverse (drop_while-lower (reverse (drop_while is_space s)))
    ∙ reverse-lower (drop_while is_space (reverse (drop_while is_space s)))
  where
    drop_end : Text → Text
    drop_end t = drop_last_while is_space t

trim-clean : (v : Text) → trim (clean v) ≡ clean v
trim-clean v = trim-lower (trim v) ∙ ap lower (trim_idem v)

module _ (P : Text → Type 0) where
  All_of_contains : (ts : List Text) → ((t : Text) → contains ts t ≡ true → P t) → All P ts
  unfolding contains
  All_of_contains [] h = tt
  All_of_contains (t ∷ ts) h =
      (h t (ground (arith, text_eq_refl t)), All_of_contains ts (λ u e. h u (ground (arith, e))))

  contains_All : (ts : List Text) (t : Text) → All P ts → contains ts t ≡ true → P t
  unfolding contains
  contains_All [] t h e = absurd (cc)
  contains_All (u ∷ ts) t h e = elim (Bool-cases (text_eq u t)) [
    | inl same ↦ subst P ((text_eq_iff u t).0 same) h.0
    | inr other ↦ contains_All ts t h.1 (ground (arith, other, e))
  ]

-- Lower case and trimming bring in no comma.
HasNo-clean : (v : Text) → HasNo b',' v → HasNo b',' (clean v)
HasNo-clean v h = lowered (trim v) (
    unfold trim trim_start trim_end in
    All-drop_last_while _ is_space _ (All-drop_while _ is_space v h))
  where
    lowered : (s : Text) → HasNo b',' s → HasNo b',' (lower s)
    lowered s h = unfold lower in mapped s h
      where
        mapped : (s : Text) → HasNo b',' s → HasNo b',' (map lower_char s)
        mapped [] h = tt
        mapped (c ∷ s) h = (comma_lower c h.0, mapped s h.1)

cleaned :
    (vs : List Text) → All (HasNo b',') vs → All (λ t. (trim t ≡ t) × HasNo b',' t) (map clean vs)
cleaned [] h = tt
cleaned (v ∷ vs) h = ((trim-clean v, HasNo-clean v h.0), cleaned vs h.1)

module _ (to_text : Params → Text) (search_params : Text → Params) where
  -- If the record to apply for has a name with no white space around it, no picked record has a comma in
  -- its name, and the router reads a query back, then the button goes to a form for that name, which
  -- opens with exactly the alternative names that the page chose.
  pub go_apply-default_values :
      (domain : Text) (hosts : List Host) (page : Page) (host : Host) (credential_id : Option Text)
      (emails : List (Text × Bool))
      → ((params : Params) → search_params (cert_add ++ codes "?" ++ to_text params) ≡ params)
      → apply_host hosts page ≡ some host
      → truthy (host_to_fqdn host.name domain) ≡ true
      → trim (host_to_fqdn host.name domain) ≡ host_to_fqdn host.name domain
      → All (HasNo b',') (fqdns domain (selected_hosts hosts page))
      → (sans : List Text) × (go_apply domain hosts page
          ≡ some (host_to_fqdn host.name domain, sans))
        × ((default_values
              (search_params
                (build_cert_add_path to_text (host_to_fqdn host.name domain) sans credential_id))
              emails).domain
            ≡ host_to_fqdn host.name domain)
        × ((default_values
              (search_params
                (build_cert_add_path to_text (host_to_fqdn host.name domain) sans credential_id))
              emails).sans
            ≡ some sans)
  go_apply-default_values domain hosts page host id emails reads e h t n =
      let (sans, goes, distinct, exact) = go_apply_lem domain hosts page host e h in
      let opened =
        default_values_lem to_text search_params (host_to_fqdn host.name domain) sans id emails
          reads t (All_of_contains IsName sans (λ s c. named s (sym (exact s) ∙ c))) in
      (sans, goes, opened.0, opened.1)
    where
      named :
          (s : Text)
          → (not (text_eq s (lower (host_to_fqdn host.name domain)))
              && (truthy s && contains (map clean (fqdns domain (selected_hosts hosts page))) s))
            ≡ true
          → IsName s
      named s c =
          let both = &&-right (not (text_eq s (lower (host_to_fqdn host.name domain)))) _ c in
          let plain =
            contains_All (λ u. (trim u ≡ u) × HasNo b',' u) _ s
              (cleaned (fqdns domain (selected_hosts hosts page)) n) (&&-right (truthy s) _ both) in
          unfold IsName in (plain.0, &&-left (truthy s) _ both, plain.1)
