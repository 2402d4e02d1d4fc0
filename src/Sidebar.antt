-- ===== src/Sidebar.antt =====
-- The entries of the sidebar that are lit: console/src/layouts/Sidebar/index.tsx, with the routes of
-- console/src/navigations/routes.ts. `replace` puts its text in as it is: an identifier has no "$".
pub mod Lit
pub mod Single
mod Tests
use nfx_edge.Common.{
  ℕ, zero, suc, Text, codes, Bool, true, false, not, ◌&&◌, ◌||◌, Option, none, some, List, [], ◌∷◌,
  ◌++◌, if◌then◌else◌, length, drop, get_elem?, text_eq, starts_with, truthy, is_empty, or_else,
  split,
}
use nfx_edge.Files.{segments}

abbrev pub slash : Text
slash = codes "/"

abbrev pub id_name : Text
id_name = codes ":credentialId"

-- The part of `replace` at each place: the pattern is not empty.
unfoldable pub replace : Text → Text → Text → Text
unfolding starts_with
replace pattern new [] = []
replace pattern new (c ∷ s) =
    let rest = replace pattern new s in
    if starts_with (c ∷ s) pattern then new ++ drop (length pattern) (c ∷ s) else c ∷ rest

abbrev pub namecheap_overview : Text
namecheap_overview = codes "/namecheap/overview"

abbrev pub namecheap_new : Text
namecheap_new = codes "/namecheap/new"

-- The pages of one credential.
pub data Page : Type 0 where
  detail : Page
  edit : Page
  domains : Page
  bulk : Page
  ssl : Page

abbrev pub route : Page → Text
route detail = codes "/namecheap/:credentialId"
route edit = codes "/namecheap/:credentialId/edit"
route domains = codes "/namecheap/:credentialId/domains"
route bulk = codes "/namecheap/:credentialId/domains/bulk"
route ssl = codes "/namecheap/:credentialId/ssl"

abbrev pub nth : List Text → ℕ → Text
nth [] i = []
nth (t ∷ ts) zero = t
nth (t ∷ ts) (suc i) = nth ts i

unfoldable pub credential_id_from_path : Text → Text
unfolding segments text_eq
credential_id_from_path pathname =
    let parts = segments pathname in
    let id = nth parts 1 in
    if not (text_eq (nth parts 0) (codes "namecheap"))
    then []
    else if is_empty id || text_eq id (codes "new") || text_eq id (codes "overview")
    then []
    else id

-- `credentials[0]?.id || ""`, of the identifiers
abbrev pub first_id : List Text → Text
first_id [] = []
first_id (id ∷ ids) = id

unfoldable pub credential_id : List Text → Text → Text
unfolding credential_id_from_path
credential_id ids pathname = or_else (credential_id_from_path pathname) (first_id ids)

-- `location.pathname === to || location.pathname.startsWith(`${to}/`)`
unfoldable pub is_under : Text → Text → Bool
unfolding text_eq starts_with
is_under pathname to = text_eq pathname to || starts_with pathname (to ++ slash)

-- The path of a page of the credential, or what stands in for it without one.
unfoldable pub page_path : Text → Text → Page → Text
unfolding replace
page_path fallback id page = if truthy id then replace id_name id (route page) else fallback

unfoldable pub namecheap_fallback : Bool → List Text → Text
namecheap_fallback is_success ids = elim ids [
  | [] ↦ if is_success then namecheap_new else namecheap_overview
  | _ ↦ namecheap_overview
]

-- Which entries of the Namecheap menu are lit.
pub record Lights : Type 0 where
  pub accounts_lit : Bool
  pub domains_lit : Bool
  pub bulk_lit : Bool
  pub ssl_lit : Bool

unfoldable pub lights : Bool → List Text → Text → Lights
unfolding credential_id credential_id_from_path is_under page_path namecheap_fallback text_eq
lights is_success ids pathname =
    let id = credential_id ids pathname in
    let in_path = truthy (credential_id_from_path pathname) in
    let fallback = namecheap_fallback is_success ids in
    let is_bulk = in_path && is_under pathname (page_path fallback id bulk) in
    record {
      accounts_lit =
          text_eq pathname namecheap_overview
          || text_eq pathname namecheap_new
          || text_eq pathname (page_path [] id detail)
          || text_eq pathname (page_path [] id edit);
      domains_lit = in_path && not is_bulk && is_under pathname (page_path fallback id domains);
      bulk_lit = is_bulk;
      ssl_lit = in_path && is_under pathname (page_path fallback id ssl);
    }

abbrev pub cert_add_route : Text
cert_add_route = codes "/certs/add"

unfoldable pub is_cert_add_active : Text → Bool
unfolding text_eq
is_cert_add_active pathname = text_eq pathname cert_add_route

unfoldable pub is_cert_list_active : Text → Bool
unfolding text_eq starts_with is_cert_add_active
is_cert_list_active pathname =
    text_eq pathname (codes "/certs/overview")
    || (starts_with pathname (codes "/certs/") && not (is_cert_add_active pathname))
