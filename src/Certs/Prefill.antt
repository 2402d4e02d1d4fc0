-- ===== src/Certs/Prefill.antt =====
-- The form that the page for a new certificate opens with: buildCertAddPath.ts and
-- folderNameFromDomain.ts of console/src/features/certificate/utils, useInitApplyCertificateForm.ts
-- and useLoginEmail.ts of console/src/features/certificate/hooks, and the rule for folder names of
-- console/src/features/certificate/schemas/certificateSchema.ts. The text of a query and its
-- reading by the router are parameters.
pub mod Path
pub mod Folder
pub mod Sample
mod Tests
use nfx_edge.Common.{
  ℕ, Text, codes, Bool, true, false, not, ◌&&◌, ◌||◌, Option, none, some, List, [], ◌∷◌, ◌++◌, map,
  ◌==◌, if◌then◌else◌, filter, find, text_eq, trim, lower, truthy, is_empty, drop_last_while, join,
  split, is_alnum,
}
use nfx_edge.Certs.Submit.{Values}

-- `URLSearchParams`: names with values, in order.
abbrev pub Params : Type 0
Params = List (Text × Text)

-- `params.set(name, value)`: the first value of the name is replaced, further ones go, and a new name
-- comes last.
unfoldable pub set_param : Text → Text → Params → Params
unfolding text_eq
set_param name value [] = (name, value) ∷ []
set_param name value ((other, old) ∷ params) =
    let rest = set_param name value params in
    if text_eq other name
    then (name, value) ∷ filter (λ p. not (text_eq p.0 name)) params
    else (other, old) ∷ rest

-- `params.get(name)`, where `none` is null
unfoldable pub get_param : Text → Params → Option Text
unfolding text_eq
get_param name [] = none
get_param name ((other, value) ∷ params) =
    let rest = get_param name params in if text_eq other name then some value else rest

abbrev pub domain_name : Text
domain_name = codes "domain"

abbrev pub sans_name : Text
sans_name = codes "sans"

abbrev pub credential_name : Text
credential_name = codes "credentialId"

abbrev pub comma : Text
comma = codes ","

-- `if (options.sans?.length) params.set(...)`
abbrev pub with_sans : List Text → Params → Params
with_sans [] params = params
with_sans (san ∷ sans) params = set_param sans_name (join comma (san ∷ sans)) params

-- `if (options.credentialId) params.set(...)`
abbrev pub with_credential : Option Text → Params → Params
with_credential none params = params
with_credential (some id) params =
    if is_empty id then params else set_param credential_name id params

unfoldable pub cert_add_params : Text → List Text → Option Text → Params
unfolding set_param
cert_add_params domain sans credential_id =
    with_credential credential_id (with_sans sans (set_param domain_name domain []))

abbrev pub cert_add : Text
cert_add = codes "/certs/add"

-- The text of the parameters is `to_text`'s.
unfoldable pub build_cert_add_path : (Params → Text) → Text → List Text → Option Text → Text
unfolding cert_add_params
build_cert_add_path to_text domain sans credential_id =
    cert_add ++ codes "?" ++ to_text (cert_add_params domain sans credential_id)

abbrev pub first : List Text → Text
first [] = []
first (t ∷ ts) = t

unfoldable pub folder_name_from_domain : Text → Text
unfolding trim lower split is_alnum
folder_name_from_domain domain =
    let label = first (split (drop_last_while (λ c. c == b'.') (lower (trim domain))) b'.') in
    filter is_alnum label

-- The rule for a folder name: empty, or of the characters `[a-zA-Z0-9_-]` only.
all_alnum : Text → Bool
unfolding is_alnum
all_alnum [] = true
all_alnum (c ∷ s) = is_alnum c && all_alnum s

unfoldable pub is_folder_name : Text → Bool
unfolding all_alnum
is_folder_name v = is_empty v || (truthy v && all_alnum v)

-- `(searchParams.get(name) ?? "")`
abbrev pub given_param : Option Text → Text
given_param none = []
given_param (some value) = value

unfoldable pub query_domain : Params → Text
unfolding get_param trim
query_domain params = trim (given_param (get_param domain_name params))

unfoldable pub query_sans : Params → List Text
unfolding get_param trim split
query_sans params = filter truthy (map trim (split (given_param (get_param sans_name params)) b','))

-- An address of the account: the text, and whether it is the primary one.
abbrev pub first_email : List (Text × Bool) → Text
first_email [] = []
first_email ((email, is_primary) ∷ items) = email

abbrev pub email_or : Option (Text × Bool) → Text → Text
email_or none fallback = fallback
email_or (some (email, is_primary)) fallback = email

unfoldable pub login_email : List (Text × Bool) → Text
login_email items = email_or (find (λ item. item.1) items) (first_email items)

unfoldable pub default_values : Params → List (Text × Bool) → Values
unfolding query_domain query_sans folder_name_from_domain login_email
default_values params emails = record {
  domain = query_domain params;
  folder_name = some (folder_name_from_domain (query_domain params));
  email = some (login_email emails);
  issuer = some (codes "Let's Encrypt");
  sans = some (query_sans params);
  force_renewal = some false;
  certificate = [];
  private_key = [];
}
