-- ===== src/Sidebar/Lit.antt =====
-- The entry that is lit on a page of a credential: `namecheapCredentialIdFromPath` and the tests of
-- console/src/layouts/Sidebar/index.tsx.
use nfx_edge.Common.{
  ◌≡◌, refl, sym, ap, ◌∙◌, inl, inr, Text, codes, Bool, true, false, not, ◌&&◌, ◌||◌, List, [], ◌∷◌,
  ◌++◌, append_assoc, append-nil, arith, Bool-cases, filter, text_eq, text_eq_iff, starts_with,
  truthy, split,
}
use nfx_edge.Common.Split.{HasNo, split_whole, split_first}
use nfx_edge.Files.{segments}
use nfx_edge.Sidebar.{
  slash, replace, namecheap_overview, namecheap_new, Page, detail, edit, domains, bulk, ssl,
  credential_id_from_path, credential_id, is_under, page_path, Lights, lights,
}

-- What stands in a route behind the identifier.
abbrev pub suffix : Page → Text
suffix detail = []
suffix edit = codes "/edit"
suffix domains = codes "/domains"
suffix bulk = codes "/domains/bulk"
suffix ssl = codes "/ssl"

abbrev pub base : Text → Text
base id = codes "/namecheap/" ++ id

page_path-truthy :
    (fallback id : Text) (page : Page)
    → truthy id ≡ true
    → page_path fallback id page ≡ base id ++ suffix page
unfolding page_path replace starts_with
page_path-truthy fallback [] page h = absurd (cc)
page_path-truthy fallback (c ∷ id) detail h = refl
page_path-truthy fallback (c ∷ id) edit h = refl
page_path-truthy fallback (c ∷ id) domains h = refl
page_path-truthy fallback (c ∷ id) bulk h = refl
page_path-truthy fallback (c ∷ id) ssl h = refl

split_behind :
    (id : Text) (page : Page)
    → HasNo b'/' id
    → (more : List Text) × (split (id ++ suffix page) b'/' ≡ id ∷ more)
split_behind id detail h = ([], ap (λ t. split t b'/') (append-nil id) ∙ split_whole b'/' id h)
split_behind id edit h = (_, split_first b'/' id (codes "edit") h)
split_behind id domains h = (_, split_first b'/' id (codes "domains") h)
split_behind id bulk h = (_, split_first b'/' id (codes "domains/bulk") h)
split_behind id ssl h = (_, split_first b'/' id (codes "ssl") h)

segments_behind :
    (s : Text)
    → segments (codes "/namecheap/" ++ s) ≡ codes "namecheap" ∷ filter truthy (split s b'/')
unfolding segments split
segments_behind s = refl

-- An identifier that a path can carry.
unfoldable pub IsId : Text → Type 0
IsId id =
    (truthy id ≡ true)
    × HasNo b'/' id
    × (text_eq id (codes "new") ≡ false)
    × (text_eq id (codes "overview") ≡ false)

id_of_parts :
    (p id : Text) (more : List Text)
    → segments p ≡ codes "namecheap" ∷ id ∷ more
    → IsId id
    → credential_id_from_path p ≡ id
unfolding credential_id_from_path text_eq IsId
id_of_parts p [] more e h = absurd (cc)
id_of_parts p (c ∷ id) more e h = rw (e, h.2, h.3)

id_in_path :
    (id : Text) (page : Page) → IsId id → credential_id_from_path (base id ++ suffix page) ≡ id
id_in_path id page h =
    let (more, parts) = split_behind id page (unfold IsId in h.1) in
    let kept : filter truthy (id ∷ more) ≡ id ∷ filter truthy more = unfold IsId in rw h.0 in
    id_of_parts (base id ++ suffix page) id (filter truthy more)
      (ap segments (append_assoc (codes "/namecheap/") id (suffix page))
        ∙ segments_behind (id ++ suffix page)
        ∙ ap (λ ts. codes "namecheap" ∷ filter truthy ts) parts
        ∙ ap (λ ts. codes "namecheap" ∷ ts) kept)
      h

-- The entries that are lit where a path carries an identifier.
pub lights_at :
    (s : Bool) (ids : List Text) (p id : Text)
    → credential_id_from_path p ≡ id
    → truthy id ≡ true
    → lights s ids p ≡ (record {
      accounts_lit =
          text_eq p namecheap_overview
          || text_eq p namecheap_new
          || text_eq p (base id ++ suffix detail)
          || text_eq p (base id ++ suffix edit);
      domains_lit =
          not (is_under p (base id ++ suffix bulk)) && is_under p (base id ++ suffix domains);
      bulk_lit = is_under p (base id ++ suffix bulk);
      ssl_lit = is_under p (base id ++ suffix ssl);
    })
unfolding lights credential_id page_path replace starts_with
lights_at s ids p [] e h = absurd (cc)
lights_at s ids p (c ∷ id) e h = rw e

text_eq-append : (b s t : Text) → text_eq (b ++ s) (b ++ t) ≡ text_eq s t
unfolding text_eq
text_eq-append [] s t = refl
text_eq-append (c ∷ b) s t = ground (arith, text_eq-append b s t)

starts_with-same : (b s t : Text) → starts_with (b ++ s) (b ++ t) ≡ starts_with s t
unfolding starts_with
starts_with-same [] s t = refl
starts_with-same (c ∷ b) s t = ground (arith, starts_with-same b s t)

is_under-append : (b s t : Text) → is_under (b ++ s) (b ++ t) ≡ is_under s t
unfolding is_under
is_under-append b s t =
    rw (text_eq-append b s t, append_assoc b t slash, starts_with-same b s (t ++ slash))

-- A path that carries an identifier is not one of the two that do not.
pub other_path :
    (p id to : Text)
    → credential_id_from_path p ≡ id
    → truthy id ≡ true
    → credential_id_from_path to ≡ []
    → text_eq p to ≡ false
other_path p id to e h none_there = elim (Bool-cases (text_eq p to)) [
  | inl same ↦
      absurd (no_id (sym e ∙ ap credential_id_from_path ((text_eq_iff p to).0 same) ∙ none_there) h)
  | inr other ↦ other
]
  where
    no_id : id ≡ [] → ¬ (truthy id ≡ true)
    no_id q h = cc

pub overview_no_id : credential_id_from_path namecheap_overview ≡ []
unfolding credential_id_from_path segments split text_eq
overview_no_id = refl

pub new_no_id : credential_id_from_path namecheap_new ≡ []
unfolding credential_id_from_path segments split text_eq
new_no_id = refl

-- The entry of each page: the accounts, the domains, the bulk page, or the SSL page.
abbrev pub lit : Page → Lights
lit detail = record { accounts_lit = true; domains_lit = false; bulk_lit = false; ssl_lit = false }
lit edit = record { accounts_lit = true; domains_lit = false; bulk_lit = false; ssl_lit = false }
lit domains = record { accounts_lit = false; domains_lit = true; bulk_lit = false; ssl_lit = false }
lit bulk = record { accounts_lit = false; domains_lit = false; bulk_lit = true; ssl_lit = false }
lit ssl = record { accounts_lit = false; domains_lit = false; bulk_lit = false; ssl_lit = true }

by_suffix : (s : Text) → Lights
by_suffix s = record {
  accounts_lit = text_eq s [] || text_eq s (codes "/edit");
  domains_lit = not (is_under s (codes "/domains/bulk")) && is_under s (codes "/domains");
  bulk_lit = is_under s (codes "/domains/bulk");
  ssl_lit = is_under s (codes "/ssl");
}

by_suffix-lit : (page : Page) → by_suffix (suffix page) ≡ lit page
unfolding by_suffix is_under text_eq starts_with
by_suffix-lit detail = refl
by_suffix-lit edit = refl
by_suffix-lit domains = refl
by_suffix-lit bulk = refl
by_suffix-lit ssl = refl

lights-base :
    (s : Bool) (ids : List Text) (id : Text) (page : Page)
    → IsId id
    → lights s ids (base id ++ suffix page) ≡ by_suffix (suffix page)
unfolding by_suffix
lights-base s ids id page h =
    let there = id_in_path id page h in
    let some_id : truthy id ≡ true = unfold IsId in h.0 in
    lights_at s ids (base id ++ suffix page) id there some_id
    ∙ rw
        (
          other_path (base id ++ suffix page) id namecheap_overview there some_id overview_no_id,
          other_path (base id ++ suffix page) id namecheap_new there some_id new_no_id,
          text_eq-append (base id) (suffix page) [],
          text_eq-append (base id) (suffix page) (codes "/edit"),
          is_under-append (base id) (suffix page) (codes "/domains/bulk"),
          is_under-append (base id) (suffix page) (codes "/domains"),
          is_under-append (base id) (suffix page) (codes "/ssl"),
        )
        refl

-- On a page of a credential the entry of that page is lit and no other, whatever credentials there
-- are, if its identifier is not empty, has no slash, and is neither "new" nor "overview".
pub lights_lem :
    (is_success : Bool) (ids : List Text) (id : Text) (page : Page)
    → IsId id
    → lights is_success ids (page_path [] id page) ≡ lit page
lights_lem is_success ids id page h =
    ap (lights is_success ids) (page_path-truthy [] id page (unfold IsId in h.0))
    ∙ lights-base is_success ids id page h
    ∙ by_suffix-lit page
