-- ===== src/Dns/Lookup/Tests.antt =====
-- Runs of the domain lookup over two credentials, and its theorems there.
use nfx_edge.Common.{
  ◌≡◌, refl, Text, codes, none, some, List, [], ◌∷◌, text_eq, contains, includes, index_of, trim,
  lower,
}
use nfx_edge.Dns.Lookup.{
  Server, failed, not_found, found, candidates, normalized, first_hit, lookup,
}
use nfx_edge.Dns.Lookup.Promise.{Found}
use nfx_edge.Dns.Lookup.Search.{lookup-Found}

lookup_open : Unit {0}
unfolding text_eq lower trim includes index_of lookup contains candidates normalized first_hit
lookup_open = tt

abbrev items : List Text
items = codes "1" ∷ codes "2" ∷ []

abbrev one_domain : List Text
one_domain = codes "other.org" ∷ codes "Example.org" ∷ []

-- Both credentials have the domain; its details are its name.
abbrev server : Server Text
server = record {
  credentials = some items;
  domains_of = λ id. some one_domain;
  detail_of = λ id name. some name;
}

from_subdomain :
    lookup server (codes " www.EXAMPLE.org ") [] ≡ found (codes "1") (codes "Example.org")
unfolding lookup_open
from_subdomain = refl

not_there : lookup server (codes "example.com") (codes "2") ≡ not_found
unfolding lookup_open
not_there = refl

-- The last label alone is not searched for.
bare_tld :
    lookup (record server { domains_of = λ id. some (codes "org" ∷ []) }) (codes "example.org") []
    ≡ not_found
unfolding lookup_open
bare_tld = refl

broken_list : lookup (record server { domains_of = λ id. none }) (codes "example.org") [] ≡ failed
unfolding lookup_open
broken_list = refl

lookup-Found_example :
    Found server
      (lower (trim (codes " www.EXAMPLE.org ")))
      (codes "2")
      (lookup server (codes " www.EXAMPLE.org ") (codes "2"))
lookup-Found_example = lookup-Found server (codes " www.EXAMPLE.org ") (codes "2")
