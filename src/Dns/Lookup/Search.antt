-- ===== src/Dns/Lookup/Search.antt =====
-- What the domain lookup finds, and what it means that it finds nothing.
use nfx_edge.Common.{
  ◌≡◌, refl, sym, ap, ◌∙◌, subst, inl, inr, ◌⊎◌, Text, true, false, Option, none, some, List, [],
  ◌∷◌, Bool-cases, All, contains, lower, is_empty, trim,
}
use nfx_edge.Dns.Lookup.{
  Server, Outcome, failed, not_found, found, ordered, first_hit, detailed, result_or, visit,
  search_in, candidates, normalized, lookup,
}
use nfx_edge.Dns.Lookup.Dots.{candidates_iff}
use nfx_edge.Dns.Lookup.Order.{ordered_first}
use nfx_edge.Dns.Lookup.Hits.{Missed, Gave, Hit, first_hit_cases, search_ordered}
use nfx_edge.Dns.Lookup.Promise.{HasNone, HasDomain, Found, none_answers, named, apex_first}

module _ {Detail : Type 0} (server : Server Detail) (apex : Text) where
  HasNone-Missed : (id : Text) → Missed server (candidates apex) id → HasNone server apex id
  unfolding Missed HasNone
  HasNone-Missed id (names, q, all) = (names, q, none_answers apex names all)

  all-Missed :
      (ids : List Text) → All (Missed server (candidates apex)) ids → All (HasNone server apex) ids
  all-Missed [] h = tt
  all-Missed (id ∷ ids) h = (HasNone-Missed id h.0, all-Missed ids h.1)

  HasDomain-Gave :
      (id : Text) (detail : Option Detail)
      → Gave server (candidates apex) id detail
      → HasDomain server apex id detail
  unfolding Gave HasDomain candidates
  HasDomain-Gave id detail (names, name, q, hit, details) =
      let (there, listed) = named names (candidates apex) name hit in
      (
        names,
        name,
        q,
        there,
        (candidates_iff apex (lower name)).0 listed,
        apex_first apex _ names name hit,
        details,
      )

  detailed_id :
      (first id : Text) (detail : Detail) (o : Option Detail)
      → detailed server first o ≡ found id detail
      → id ≡ first
  detailed_id first id detail none q = absurd (cc)
  detailed_id first id detail (some other) q = cc

  -- The credential that is visited first is the one that is found, or it has no such domain.
  visit_first :
      (first id : Text) (detail : Detail) (answer : Option (List Text)) (later : Outcome Detail)
      → server.domains_of first ≡ answer
      → visit server first (candidates apex) answer later ≡ found id detail
      → (id ≡ first) ⊎ HasNone server apex first
  unfolding visit
  visit_first first id detail none later has q = absurd (cc)
  visit_first first id detail (some names) later has q =
      elim (first_hit_cases names (candidates apex)) [
        | inl (miss, all) ↦ inr (unfold HasNone in (names, has, none_answers apex names all))
        | inr (name, hit, there, listed) ↦
            let details = ap (λ o. result_or server first o later) (sym hit) ∙ q in
            inl (detailed_id first id detail (server.detail_of first name) details)
      ]

  first_visited :
      (first : Text) (rest : List Text) (id : Text) (detail : Detail)
      → search_in server (candidates apex) (first ∷ rest) ≡ found id detail
      → (id ≡ first) ⊎ HasNone server apex first
  unfolding search_in
  first_visited first rest id detail q =
      visit_first first id detail (server.domains_of first) _ refl q

  preferred_first :
      (preferred : Text) (items : List Text) (id : Text) (detail : Detail)
      → search_in server (candidates apex) (ordered preferred items) ≡ found id detail
      → (id ≡ preferred)
        ⊎ (preferred ≡ [])
        ⊎ (contains items preferred ≡ false)
        ⊎ HasNone server apex preferred
  preferred_first [] items id detail q = inr (inl refl)
  preferred_first (c ∷ p) items id detail q = elim (Bool-cases (contains items (c ∷ p))) [
    | inr absent ↦ inr (inr (inl absent))
    | inl there ↦
        let (rest, order) = ordered_first (c ∷ p) items refl there in
        let visited = ap (search_in server (candidates apex)) (sym order) ∙ q in
        elim (first_visited (c ∷ p) rest id detail visited) [
          | inl same ↦ inl same
          | inr nothing ↦ inr (inr (inr nothing))
        ]
  ]

  Found-Hit :
      (preferred : Text) (items : List Text) (o : Outcome Detail)
      → server.credentials ≡ some items
      → search_in server (candidates apex) (ordered preferred items) ≡ o
      → Hit server (candidates apex) items o
      → Found server apex preferred o
  unfolding Found Hit
  Found-Hit preferred items failed has q (id, there, inl broke) =
      inr (items, id, has, there, inl broke)
  Found-Hit preferred items failed has q (id, there, inr gave) =
      inr (items, id, has, there, inr (HasDomain-Gave id none gave))
  Found-Hit preferred items not_found has q h = (items, has, all-Missed items h)
  Found-Hit preferred items (found id detail) has q (there, gave) = (
    items,
    has,
    there,
    HasDomain-Gave id (some detail) gave,
    preferred_first preferred items id detail q,
  )

-- If the preferred credential is one of the credentials and has such a domain, it is the one found,
-- with the details of the domain that the search among its domains gives.
lookup-preferred :
    {Detail : Type 0} (server : Server Detail) (apex preferred name : Text) (detail : Detail)
    (items names : List Text)
    → server.credentials ≡ some items
    → is_empty preferred ≡ false
    → contains items preferred ≡ true
    → server.domains_of preferred ≡ some names
    → first_hit names (candidates (normalized apex)) ≡ some name
    → server.detail_of preferred name ≡ some detail
    → lookup server apex preferred ≡ found preferred detail
unfolding lookup search_in visit
lookup-preferred {Detail = Detail} server apex preferred name detail items names has full there own
      hit details =
    let (rest, order) = ordered_first preferred items full there in
    let searched = candidates (normalized apex) in
    let later = search_in server searched rest in
    ap
      (λ answer. elim answer as (λ a. Outcome Detail) [
        | none ↦ failed
        | some ids ↦ search_in server searched (ordered preferred ids)
      ])
      has
    ∙ ap (search_in server searched) order
    ∙ ap (λ answer. visit server preferred searched answer later) own
    ∙ ap (λ o. result_or server preferred o later) hit
    ∙ ap (detailed server preferred) details

-- The lookup gives a credential of the server's and the details of a domain of it, which in lower
-- case is the trimmed apex in lower case, or the rest of it behind a first label that is not empty,
-- if that rest has a dot. It gives the latter only if no domain of the credential is the apex
-- itself, and another credential than the preferred one only if none is preferred, that one is not
-- there, or it has no such domain. It finds nothing only if no credential has such a domain, and it
-- fails only if a call for the credentials, for the domains of one, or for the details of such a
-- domain throws.
pub lookup-Found :
    {Detail : Type 0} (server : Server Detail) (apex preferred : Text)
    → Found server (lower (trim apex)) preferred (lookup server apex preferred)
unfolding lookup normalized Found
lookup-Found {Detail = Detail} server apex preferred = go server.credentials refl
  where
    searched : Option (List Text) → Outcome Detail
    searched answer = elim answer [
      | none ↦ failed
      | some items ↦ search_in server (candidates (normalized apex)) (ordered preferred items)
    ]

    go :
        (answer : Option (List Text))
        → server.credentials ≡ answer
        → Found server (lower (trim apex)) preferred (lookup server apex preferred)
    go none q = subst (λ o. Found server (lower (trim apex)) preferred (searched o)) (sym q) (inl q)
    go (some items) q =
        subst (λ o. Found server (lower (trim apex)) preferred (searched o)) (sym q)
          (Found-Hit server (lower (trim apex)) preferred items _ q refl
            (search_ordered server (candidates (lower (trim apex))) preferred items))
