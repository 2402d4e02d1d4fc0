-- ===== src/Dns/Hosts/Sans.antt =====
-- The editor of a certificate's alternative names: `addPrefix`, `prefixFromHost` and
-- `fqdnFromPrefix` of console/src/features/certificate/controllers/SANsController/index.tsx.
use nfx_edge.Common.{
  ◌≡◌, refl, sym, ap, ◌∙◌, subst, inl, inr, Text, true, ◌||◌, Option, none, some, List, [], ◌∷◌,
  ◌++◌, map, arith, if◌then◌else◌, text_eq, text_eq_refl, lower, contains, any, Bool-cases,
}
use mathlib.Core.List.{map-append, append-nil}
use nfx_edge.Dns.Hosts.{fqdn_from_prefix, add_fqdn, add_prefix}
use nfx_edge.Dns.Hosts.Unique.{Distinct, Distinct-concat, contains-append, contains_one}

any-contains :
    (items : List Text) (t : Text)
    → any (λ item. text_eq (lower item) t) items ≡ contains (map lower items) t
unfolding contains
any-contains [] t = refl
any-contains (s ∷ items) t = ap (λ b. text_eq (lower s) t || b) (any-contains items t)

contains_last : (ts : List Text) (t : Text) → contains (ts ++ t ∷ []) t ≡ true
contains_last ts t = contains-append ts (t ∷ []) t ∙ ground (arith, contains_self t)
  where
    contains_self : (t : Text) → contains (t ∷ []) t ≡ true
    contains_self t = contains_one t t ∙ text_eq_refl t

add_fqdn-some :
    (items : List Text) (fqdn : Text)
    → add_fqdn (some fqdn) items
      ≡ (if contains (map lower items) (lower fqdn) then items else items ++ fqdn ∷ [])
unfolding add_fqdn
add_fqdn-some items fqdn = rw (any-contains items (lower fqdn))

add_fqdn_lem :
    (o : Option Text) (items : List Text)
    → Distinct (map lower items)
    → ((added : List Text) × (add_fqdn o items ≡ items ++ added))
      × Distinct (map lower (add_fqdn o items))
      × ((fqdn : Text)
          → o ≡ some fqdn
          → contains (map lower (add_fqdn o items)) (lower fqdn) ≡ true)
add_fqdn_lem none items d =
    let same : add_fqdn none items ≡ items = unfold add_fqdn in refl in
    rw same (([], sym (append-nil items)), d, λ fqdn f. cc)
add_fqdn_lem (some fqdn) items d = elim (Bool-cases (contains (map lower items) (lower fqdn))) [
  | inl there ↦
      rw (add_fqdn-some items fqdn, there, if◌then◌else◌)
        (
          ([], sym (append-nil items)),
          d,
          λ g f. subst (λ h. contains (map lower items) (lower h) ≡ true) (cc) there,
        )
  | inr new ↦
      rw (add_fqdn-some items fqdn, new, if◌then◌else◌, map-append lower items (fqdn ∷ []))
        (
          (fqdn ∷ [], refl),
          Distinct-concat (map lower items) (lower fqdn) d new,
          λ g f.
              subst (λ h. contains (map lower items ++ lower fqdn ∷ []) (lower h) ≡ true) (cc)
                (contains_last (map lower items) (lower fqdn)),
        )
]

-- Adding a prefix that stands for a name leaves the names that were there in their places and in
-- their spelling; names that are distinct up to case stay so; and the name is there
-- afterwards in some spelling.
pub add_prefix_lem :
    (apex value fqdn : Text) (items : List Text)
    → fqdn_from_prefix value apex ≡ some fqdn
    → Distinct (map lower items)
    → ((added : List Text) × (add_prefix apex value items ≡ items ++ added))
      × Distinct (map lower (add_prefix apex value items))
      × (contains (map lower (add_prefix apex value items)) (lower fqdn) ≡ true)
unfolding add_prefix
add_prefix_lem apex value fqdn items q d =
    let (kept, distinct, there) = add_fqdn_lem (fqdn_from_prefix value apex) items d in
    (kept, distinct, there fqdn q)
