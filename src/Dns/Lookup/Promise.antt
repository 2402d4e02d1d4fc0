-- ===== src/Dns/Lookup/Promise.antt =====
-- What the lookup of console/src/hooks/dns.ts promises, in the terms of names and domains alone.
use nfx_edge.Common.{
  ◌≡◌, ◌≢◌, sym, ap, ◌∙◌, subst, inl, inr, ◌⊎◌, Text, true, false, Option, none, some, List, [],
  ◌∷◌, All, text_eq, text_eq_iff, contains, lower,
}
use nfx_edge.Dns.Lookup.{Server, Outcome, failed, not_found, found, hit_or, first_hit, candidates}
use nfx_edge.Dns.Lookup.Dots.{Answers, candidates_iff}
use nfx_edge.Dns.Lookup.Hits.{find_cases, first_hit_cases}

-- No name of the list answers.
pub NoAnswer : Text → List Text → Type 0
NoAnswer apex names = All (λ name. ¬ Answers apex (lower name)) names

-- What the lookup of an apex promises of its result.
module _ {Detail : Type 0} (server : Server Detail) (apex : Text) where
  -- The domains of the credential arrive, and none of them answers.
  unfoldable pub HasNone : Text → Type 0
  HasNone id = (names : List Text) × (server.domains_of id ≡ some names) × NoAnswer apex names

  -- The domains of the credential arrive, one of them answers, the apex itself if it is there, and
  -- its details come to this.
  unfoldable pub HasDomain : Text → Option Detail → Type 0
  HasDomain id detail =
      (names : List Text) × (name : Text) × (server.domains_of id ≡ some names)
      × (contains names name ≡ true)
      × Answers apex (lower name)
      × ((lower name ≡ apex) ⊎ All (λ other. lower other ≢ apex) names)
      × (server.detail_of id name ≡ detail)

  unfoldable pub Found : Text → Outcome Detail → Type 0
  Found preferred failed =
      (server.credentials ≡ none)
      ⊎ ((items : List Text) × (id : Text) × (server.credentials ≡ some items)
          × (contains items id ≡ true)
          × ((server.domains_of id ≡ none) ⊎ HasDomain id none))
  Found preferred not_found =
      (items : List Text) × (server.credentials ≡ some items) × All HasNone items
  Found preferred (found id detail) =
      (items : List Text) × (server.credentials ≡ some items)
      × (contains items id ≡ true)
      × HasDomain id (some detail)
      × ((id ≡ preferred)
          ⊎ (preferred ≡ [])
          ⊎ (contains items preferred ≡ false)
          ⊎ HasNone preferred)

pub none_answers :
    (apex : Text) (names : List Text)
    → All (λ name. contains (candidates apex) (lower name) ≡ false) names
    → NoAnswer apex names
unfolding NoAnswer
none_answers apex [] h = tt
none_answers apex (name ∷ names) h = (
  λ a. absurd (let listed = (candidates_iff apex (lower name)).1 a in let unlisted = h.0 in cc),
  none_answers apex names h.1,
)

-- The domain that is found is the credential's, and is searched for.
pub named :
    (names searched : List Text) (name : Text)
    → first_hit names searched ≡ some name
    → (contains names name ≡ true) × (contains searched (lower name) ≡ true)
named names searched name first = elim (first_hit_cases names searched) [
  | inl (q, all) ↦ absurd (cc)
  | inr (other, q, there, listed) ↦
      let same : other ≡ name = cc in
      subst (λ n. (contains names n ≡ true) × (contains searched (lower n) ≡ true)) same
        (there, listed)
]

pub unequal :
    (apex : Text) (names : List Text)
    → All (λ name. text_eq (lower name) apex ≡ false) names
    → All (λ other. lower other ≢ apex) names
unequal apex [] h = tt
unequal apex (name ∷ names) h = (
  λ same. absurd (let equal = (text_eq_iff (lower name) apex).1 same in let differ = h.0 in cc),
  unequal apex names h.1,
)

-- A domain that is the apex is found before one that is below it.
pub apex_first :
    (apex : Text) (others names : List Text) (name : Text)
    → first_hit names (apex ∷ others) ≡ some name
    → (lower name ≡ apex) ⊎ All (λ other. lower other ≢ apex) names
unfolding first_hit
apex_first apex others names name hit = elim (find_cases apex names) [
  | inl (q, all) ↦ inr (unequal apex names all)
  | inr (other, q, there, same) ↦
      let head : some other ≡ some name =
        sym (ap (λ o. hit_or o (first_hit names others)) q) ∙ hit in
      let equal : other ≡ name = cc in
      inl (subst (λ n. lower n ≡ apex) equal ((text_eq_iff (lower other) apex).0 same))
]
