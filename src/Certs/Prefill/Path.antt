-- ===== src/Certs/Prefill/Path.antt =====
-- The form for a new certificate opens with what the path to it was built from.
use nfx_edge.Common.{
  ◌≡◌, refl, ap, ◌∙◌, Text, codes, Bool, true, Option, none, some, List, [], ◌∷◌, ◌++◌, map, ◌==◌,
  All, filter, text_eq, trim, truthy, join, split,
}
use nfx_edge.Common.Split.{HasNo, split-join}
use nfx_edge.Common.TextLaws.{Lacks}
use nfx_edge.Certs.Prefill.{
  Params, set_param, get_param, domain_name, sans_name, cert_add_params, cert_add,
  build_cert_add_path, given_param, query_domain, query_sans, folder_name_from_domain,
  default_values,
}

-- A name that the form keeps as it is.
unfoldable pub IsName : Text → Type 0
IsName t = (trim t ≡ t) × (truthy t ≡ true) × Lacks (λ d. d == b',') t

kept_names : (ts : List Text) → All IsName ts → filter truthy (map trim ts) ≡ ts
unfolding IsName
kept_names [] h = refl
kept_names (t ∷ ts) h = rw (h.0.0, h.0.1, kept_names ts h.1)

get_domain :
    (domain : Text) (sans : List Text) (id : Option Text)
    → get_param domain_name (cert_add_params domain sans id) ≡ some domain
unfolding get_param set_param cert_add_params text_eq
get_domain domain [] none = refl
get_domain domain [] (some []) = refl
get_domain domain [] (some (c ∷ id)) = refl
get_domain domain (san ∷ sans) none = refl
get_domain domain (san ∷ sans) (some []) = refl
get_domain domain (san ∷ sans) (some (c ∷ id)) = refl

get_sans :
    (domain : Text) (sans : List Text) (id : Option Text)
    → given_param (get_param sans_name (cert_add_params domain sans id)) ≡ join (codes ",") sans
unfolding get_param set_param cert_add_params text_eq
get_sans domain [] none = refl
get_sans domain [] (some []) = refl
get_sans domain [] (some (c ∷ id)) = refl
get_sans domain (san ∷ sans) none = refl
get_sans domain (san ∷ sans) (some []) = refl
get_sans domain (san ∷ sans) (some (c ∷ id)) = refl

Lacks_of_names : (ts : List Text) → All IsName ts → All (HasNo b',') ts
Lacks_of_names [] h = tt
Lacks_of_names (t ∷ ts) h = (unfold IsName in h.0.2, Lacks_of_names ts h.1)

names_back :
    (ts : List Text)
    → All IsName ts
    → filter truthy (map trim (split (join (codes ",") ts) b',')) ≡ ts
names_back [] h = unfold split trim in refl
names_back (t ∷ ts) h =
    let names = Lacks_of_names (t ∷ ts) h in
    ap (λ parts. filter truthy (map trim parts)) (split-join b',' t ts names.0 names.1)
    ∙ kept_names (t ∷ ts) h

domain_back :
    (domain : Text) (sans : List Text) (id : Option Text)
    → trim domain ≡ domain
    → query_domain (cert_add_params domain sans id) ≡ domain
unfolding query_domain
domain_back domain sans id d = ap (λ o. trim (given_param o)) (get_domain domain sans id) ∙ d

sans_back :
    (domain : Text) (sans : List Text) (id : Option Text)
    → All IsName sans
    → query_sans (cert_add_params domain sans id) ≡ sans
unfolding query_sans
sans_back domain sans id n =
    ap (λ t. filter truthy (map trim (split t b','))) (get_sans domain sans id) ∙ names_back sans n

-- If the router reads the parameters of a query as they were written, the form that the page opens
-- with for a path to it has the domain of that path, if that has no white space around it, and
-- the alternative names of it in their order, if none is empty, has white space around it or has a
-- comma; the folder is the one named after the domain.
pub default_values_lem :
    (to_text : Params → Text) (search_params : Text → Params) (domain : Text) (sans : List Text)
    (credential_id : Option Text) (emails : List (Text × Bool))
    → ((params : Params) → search_params (cert_add ++ codes "?" ++ to_text params) ≡ params)
    → trim domain ≡ domain
    → All IsName sans
    → ((default_values
          (search_params (build_cert_add_path to_text domain sans credential_id))
          emails).domain
        ≡ domain)
      × ((default_values
            (search_params (build_cert_add_path to_text domain sans credential_id))
            emails).sans
          ≡ some sans)
      × ((default_values
            (search_params (build_cert_add_path to_text domain sans credential_id))
            emails).folder_name
          ≡ some (folder_name_from_domain domain))
default_values_lem to_text search_params domain sans credential_id emails reads d n =
    let back : search_params (build_cert_add_path to_text domain sans credential_id)
        ≡ cert_add_params domain sans credential_id =
      unfold build_cert_add_path in reads (cert_add_params domain sans credential_id) in
    let same = domain_back domain sans credential_id d in
    rw back (
      unfold default_values in
      (
        same,
        ap some (sans_back domain sans credential_id n),
        ap (λ t. some (folder_name_from_domain t)) same,
      ))
