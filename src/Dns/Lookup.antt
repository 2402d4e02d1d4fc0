-- ===== src/Dns/Lookup.antt =====
-- `useNamecheapDomainLookup` of console/src/hooks/dns.ts: which credential holds the domain of an
-- apex. A credential is known by its identifier and a domain by its name; the server's answers are
-- a parameter.
pub mod Dots
pub mod Order
pub mod Hits
pub mod Promise
pub mod Search
mod Tests
use nfx_edge.Common.{
  ℕ, zero, suc, ◌+◌, Text, codes, Bool, true, false, not, Option, none, some, List, [], ◌∷◌, ◌++◌,
  if◌then◌else◌, filter, find, drop, text_eq, contains, includes, index_of, trim, lower, is_empty,
}

-- `apex.trim().toLowerCase()`
unfoldable pub normalized : Text → Text
unfolding trim lower
normalized apex = lower (trim apex)

-- The credentials in the order of the search: the preferred one first.
unfoldable pub ordered : Text → List Text → List Text
unfolding text_eq
ordered preferred items =
    if is_empty preferred
    then items
    else filter (λ id. text_eq id preferred) items
      ++ filter (λ id. not (text_eq id preferred)) items

-- The apex, and what is behind its first dot if that has a dot itself.
unfoldable pub candidates : Text → List Text
unfolding index_of includes
candidates apex = apex ∷ (elim (index_of apex b'.') [
  | none ↦ []
  | some zero ↦ []
  | some (suc i) ↦
      if includes (drop (suc i + 1) apex) (codes ".") then drop (suc i + 1) apex ∷ [] else []
])

-- A hit ends the loop over the candidates.
abbrev pub hit_or : Option Text → Option Text → Option Text
hit_or none later = later
hit_or (some name) later = some name

-- The first candidate that has a domain decides, by its first domain.
unfoldable pub first_hit : List Text → List Text → Option Text
unfolding text_eq lower
first_hit names [] = none
first_hit names (candidate ∷ rest) =
    let later = first_hit names rest in
    hit_or (find (λ name. text_eq (lower name) candidate) names) later

-- The server's answers: its credentials, the domains of one, and the details of a domain; `none` is
-- a call that throws. A list that is left out is an empty one.
pub record Server (Detail : Type 0) : Type 0 where
  pub credentials : Option (List Text)
  pub domains_of : Text → Option (List Text)
  pub detail_of : Text → Text → Option Detail

-- The query throws, or it resolves without a credential or with one and the details.
pub data Outcome (Detail : Type 0) : Type 0 where
  failed : Outcome Detail
  not_found : Outcome Detail
  found : Text → Detail → Outcome Detail

module _ {Detail : Type 0} (server : Server Detail) where
  -- The details of the hit
  abbrev pub detailed : Text → Option Detail → Outcome Detail
  detailed id none = failed
  detailed id (some detail) = found id detail

  -- A hit ends the loop over the credentials.
  abbrev pub result_or : Text → Option Text → Outcome Detail → Outcome Detail
  result_or id none later = later
  result_or id (some name) later = detailed id (server.detail_of id name)

  -- So does a call that throws.
  unfoldable pub visit : Text → List Text → Option (List Text) → Outcome Detail → Outcome Detail
  unfolding first_hit
  visit id searched none later = failed
  visit id searched (some names) later = result_or id (first_hit names searched) later

  -- The loop over the credentials
  unfoldable pub search_in : List Text → List Text → Outcome Detail
  unfolding visit
  search_in searched [] = not_found
  search_in searched (id ∷ ids) =
      let later = search_in searched ids in visit id searched (server.domains_of id) later

  -- The query function
  unfoldable pub lookup : Text → Text → Outcome Detail
  unfolding search_in ordered candidates normalized
  lookup apex preferred = elim server.credentials [
    | none ↦ failed
    | some items ↦ search_in (candidates (normalized apex)) (ordered preferred items)
  ]
