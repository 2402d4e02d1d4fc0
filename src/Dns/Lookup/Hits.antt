-- ===== src/Dns/Lookup/Hits.antt =====
-- The loops of the lookup of console/src/hooks/dns.ts, over a list of names that is searched for.
use nfx_edge.Common.{
  ◌≡◌, refl, sym, ap, ◌∙◌, subst, inl, inr, ◌⊎◌, Text, true, false, Option, none, some, List, [],
  ◌∷◌, arith, if◌then◌else◌, Bool-cases, All, find, text_eq, text_eq_refl, contains, lower,
}
use nfx_edge.Dns.Lookup.{
  Server, Outcome, failed, not_found, found, ordered, hit_or, first_hit, detailed, result_or, visit,
  search_in,
}
use nfx_edge.Dns.Lookup.Order.{All-ordered, contains-ordered}

pub find_cases :
    (candidate : Text) (names : List Text)
    → ((find (λ name. text_eq (lower name) candidate) names ≡ none)
        × All (λ name. text_eq (lower name) candidate ≡ false) names)
      ⊎ ((name : Text) × (find (λ name'. text_eq (lower name') candidate) names ≡ some name)
          × (contains names name ≡ true)
          × (text_eq (lower name) candidate ≡ true))
unfolding contains
find_cases candidate [] = inl (refl, tt)
find_cases candidate (name ∷ names) = elim (Bool-cases (text_eq (lower name) candidate)) [
  | inl hit ↦ inr (name, rw (hit, if◌then◌else◌) refl, rw (text_eq_refl name) refl, hit)
  | inr miss ↦ elim (find_cases candidate names) [
    | inl (q, all) ↦ inl (rw (miss, if◌then◌else◌) q, (miss, all))
    | inr (other, q, there, hit) ↦
        inr (other, rw (miss, if◌then◌else◌) q, ground (arith, there), hit)
  ]
]

text_eq_sym : (s t : Text) → text_eq s t ≡ text_eq t s
unfolding text_eq
text_eq_sym [] [] = refl
text_eq_sym [] (d ∷ t) = refl
text_eq_sym (c ∷ s) [] = refl
text_eq_sym (c ∷ s) (d ∷ t) = ground (arith, text_eq_sym s t)

-- No name is any of no candidates, and none is any of one more that none is.
none_contained : (names : List Text) → All (λ name. contains [] (lower name) ≡ false) names
unfolding contains
none_contained [] = tt
none_contained (name ∷ names) = (refl, none_contained names)

none_of_both :
    (candidate : Text) (rest names : List Text)
    → All (λ name. text_eq (lower name) candidate ≡ false) names
    → All (λ name. contains rest (lower name) ≡ false) names
    → All (λ name. contains (candidate ∷ rest) (lower name) ≡ false) names
unfolding contains
none_of_both candidate rest [] h k = tt
none_of_both candidate rest (name ∷ names) h k = (
  ground (arith, h.0, k.0, text_eq_sym candidate (lower name)),
  none_of_both candidate rest names h.1 k.1,
)

-- The result of the search among the names of one credential.
pub first_hit_cases :
    (names searched : List Text)
    → ((first_hit names searched ≡ none)
        × All (λ name. contains searched (lower name) ≡ false) names)
      ⊎ ((name : Text) × (first_hit names searched ≡ some name)
          × (contains names name ≡ true)
          × (contains searched (lower name) ≡ true))
unfolding first_hit contains
first_hit_cases names [] = inl (refl, none_contained names)
first_hit_cases names (candidate ∷ rest) = elim (find_cases candidate names) [
  | inr (name, q, there, hit) ↦ inr (
    name,
    ap (λ o. hit_or o (first_hit names rest)) q,
    there,
    ground (arith, hit, text_eq_sym candidate (lower name)),
  )
  | inl (q, all) ↦ elim (first_hit_cases names rest) [
    | inl (q', all') ↦ inl (
      ap (λ o. hit_or o (first_hit names rest)) q ∙ q',
      none_of_both candidate rest names all all',
    )
    | inr (name, q', there, hit) ↦
        inr (name, ap (λ o. hit_or o (first_hit names rest)) q ∙ q', there, ground (arith, hit))
  ]
]

module _ {Detail : Type 0} (server : Server Detail) (searched : List Text) where
  -- A credential has no domain that is searched for.
  unfoldable pub Missed : Text → Type 0
  Missed id =
      (names : List Text) × (server.domains_of id ≡ some names)
      × All (λ name. contains searched (lower name) ≡ false) names

  -- The details of the first of its domains that is searched for.
  unfoldable pub Gave : Text → Option Detail → Type 0
  Gave id detail =
      (names : List Text) × (name : Text) × (server.domains_of id ≡ some names)
      × (first_hit names searched ≡ some name)
      × (server.detail_of id name ≡ detail)

  -- A search visits credentials to the first that has a domain that is searched for, or to the first
  -- call that throws.
  unfoldable pub Hit : List Text → Outcome Detail → Type 0
  Hit ids failed =
      (id : Text) × (contains ids id ≡ true) × ((server.domains_of id ≡ none) ⊎ Gave id none)
  Hit ids not_found = All Missed ids
  Hit ids (found id detail) = (contains ids id ≡ true) × Gave id (some detail)

  one_more :
      (id : Text) (ids : List Text) (o : Outcome Detail) → Missed id → Hit ids o → Hit (id ∷ ids) o
  unfolding Hit contains
  one_more id ids failed h (failing, there, why) = (failing, ground (arith, there), why)
  one_more id ids not_found h k = (h, k)
  one_more id ids (found other detail) h (there, gave) = (ground (arith, there), gave)

  here : (id : Text) (ids : List Text) → contains (id ∷ ids) id ≡ true
  unfolding contains
  here id ids = rw (text_eq_refl id) refl

  Hit-detailed :
      (id : Text) (ids : List Text) (detail : Option Detail)
      → Gave id detail
      → Hit (id ∷ ids) (detailed server id detail)
  unfolding Hit
  Hit-detailed id ids none gave = (id, here id ids, inr gave)
  Hit-detailed id ids (some detail) gave = (here id ids, gave)

  Hit-visit :
      (id : Text) (ids : List Text) (answer : Option (List Text)) (later : Outcome Detail)
      → server.domains_of id ≡ answer
      → Hit ids later
      → Hit (id ∷ ids) (visit server id searched answer later)
  unfolding visit
  Hit-visit id ids none later q h = unfold Hit in (id, here id ids, inl q)
  Hit-visit id ids (some names) later q h = elim (first_hit_cases names searched) [
    | inl (miss, all) ↦
        subst (λ o. Hit (id ∷ ids) (result_or server id o later)) (sym miss)
          (one_more id ids later (unfold Missed in (names, q, all)) h)
    | inr (name, hit, there, listed) ↦
        subst (λ o. Hit (id ∷ ids) (result_or server id o later)) (sym hit)
          (Hit-detailed id ids (server.detail_of id name)
            (unfold Gave in (names, name, q, hit, refl)))
  ]

  search_in-Hit : (ids : List Text) → Hit ids (search_in server searched ids)
  unfolding search_in
  search_in-Hit [] = unfold Hit in tt
  search_in-Hit (id ∷ ids) =
      Hit-visit id ids (server.domains_of id) (search_in server searched ids) refl
        (search_in-Hit ids)

  Hit-ordered :
      (preferred : Text) (items : List Text) (o : Outcome Detail)
      → Hit (ordered preferred items) o
      → Hit items o
  unfolding Hit
  Hit-ordered preferred items failed (id, there, why) =
      (id, contains-ordered preferred items id there, why)
  Hit-ordered preferred items not_found h = All-ordered Missed preferred items h
  Hit-ordered preferred items (found id detail) (there, gave) =
      (contains-ordered preferred items id there, gave)

  pub search_ordered :
      (preferred : Text) (items : List Text)
      → Hit items (search_in server searched (ordered preferred items))
  search_ordered preferred items =
      Hit-ordered preferred items _ (search_in-Hit (ordered preferred items))
