-- ===== src/Dns/Detail.antt =====
-- The page of a domain's host records:
-- console/src/pages/Namecheap/Detail/Domains/Detail/index.tsx. The records and the answers of the
-- server are arguments.
pub mod Anchor
pub mod Apply
pub mod Editing
pub mod Opened
mod Tests
use nfx_edge.Common.{
  ℕ, Text, codes, Bool, true, false, not, ◌&&◌, ◌||◌, Option, none, some, List, [], ◌∷◌, ◌++◌, map,
  ltb, if◌then◌else◌, filter, find, length, text_eq, contains, trim, lower, truthy, is_empty,
  or_else,
}
use nfx_edge.Dns.Hosts.{host_to_fqdn, unique_fqdns, hosts_to_sans}
use nfx_edge.Dns.Ttl.{automatic_ttl, ttl_select_value, has}
use nfx_edge.Dns.Bulk.{is_patch_keep, patch_keep}

pub record Draft : Type 0 where
  pub name : Text
  pub host_type : Text
  pub address : Text
  pub ttl : Text
  pub mx_pref : Text

abbrev pub empty_draft : Draft
empty_draft = record {
  name = codes "@";
  host_type = codes "A";
  address = [];
  ttl = automatic_ttl;
  mx_pref = codes "10";
}

-- The fields of `NamecheapHost` that the page uses.
pub record Host : Type 0 where
  pub host_id : Option Text
  pub name : Text
  pub host_type : Text
  pub address : Text
  pub mx_pref : Option Text
  pub ttl : Option Text

-- The state of the page.
pub record Page : Type 0 where
  pub draft : Draft
  pub editing : Option Text
  pub edit_draft : Draft
  pub picked : List Text
  pub apply_key : Option Text
  pub edit_min_height : ℕ
  pub patch_address : Text
  pub patch_ttl : Text
  pub patch_mx : Text

abbrev pub first_page : Page
first_page = record {
  draft = empty_draft;
  editing = none;
  edit_draft = empty_draft;
  picked = [];
  apply_key = none;
  edit_min_height = 0;
  patch_address = [];
  patch_ttl = patch_keep;
  patch_mx = [];
}

-- `value ?? ""`
abbrev pub text_of : Option Text → Text
text_of none = []
text_of (some t) = t

abbrev pub bar : Text
bar = codes "|"

unfoldable pub host_key : Host → Text
host_key host =
    or_else (text_of host.host_id) (host.name ++ bar ++ host.host_type ++ bar ++ host.address)

-- `anchor === key`
unfoldable pub is_key : Option Text → Text → Bool
unfolding text_eq
is_key none key = false
is_key (some anchor) key = text_eq anchor key

-- `xs[xs.length - 1]`, where `none` is undefined
abbrev pub last {ℓ} : {A : Type ℓ} → List A → Option A
last [] = none
last (x ∷ []) = some x
last (_ ∷ y ∷ xs) = last (y ∷ xs)

unfoldable pub selected_hosts : List Host → Page → List Host
unfolding host_key contains
selected_hosts hosts page = filter (λ host. contains page.picked (host_key host)) hosts

-- `found ?? fallback`
abbrev pub found_or {ℓ} : {A : Type ℓ} → Option A → Option A → Option A
found_or none fallback = fallback
found_or (some x) fallback = some x

unfoldable pub apply_host : List Host → Page → Option Host
unfolding selected_hosts host_key is_key
apply_host hosts page =
    let selected = selected_hosts hosts page in
    found_or (find (λ host. is_key page.apply_key (host_key host)) selected) (last selected)

unfoldable pub cn_of : Text → Option Host → Text
unfolding host_to_fqdn
cn_of domain none = []
cn_of domain (some host) = host_to_fqdn host.name domain

unfoldable pub apply_cn : Text → List Host → Page → Text
unfolding apply_host cn_of
apply_cn domain hosts page = cn_of domain (apply_host hosts page)

unfoldable pub fqdns : Text → List Host → List Text
unfolding host_to_fqdn
fqdns domain hosts = map (λ host. host_to_fqdn host.name domain) hosts

-- The domain and the names of the certificate that `goApply` goes to; `none` where it returns at
-- once.
unfoldable pub go_apply : Text → List Host → Page → Option (Text × List Text)
unfolding apply_cn unique_fqdns fqdns selected_hosts text_eq lower
go_apply domain hosts page =
    let cn = apply_cn domain hosts page in
    let sans =
      filter (λ fqdn. not (text_eq fqdn (lower cn)))
        (unique_fqdns (fqdns domain (selected_hosts hosts page))) in
    if is_empty cn then none else some (cn, sans)

unfoldable pub go_apply_apex : Text → List Host → Page → Text × List Text
unfolding selected_hosts hosts_to_sans
go_apply_apex domain hosts page =
    let selected = selected_hosts hosts page in
    let source = if ltb 0 (length selected) then selected else hosts in
    (domain, hosts_to_sans (map (λ host. host.name) source) domain)

unfoldable pub toggle_picked : Text → Page → Page
unfolding contains text_eq is_key
toggle_picked key page =
    let next = filter (λ row. not (text_eq row key)) page.picked in
    if contains page.picked key
    then record page {
      picked = next;
      apply_key = if is_key page.apply_key key then last next else page.apply_key;
    }
    else record page { picked = page.picked ++ key ∷ []; apply_key = some key }

-- A click on a row: it picks or drops the row, unless a record is edited.
unfoldable pub click_row : Text → Page → Page
unfolding toggle_picked
click_row key page = if has page.editing then page else toggle_picked key page

unfoldable pub start_edit : ℕ → Host → Page → Page
unfolding host_key ttl_select_value
start_edit height host page = record page {
  editing = some (host_key host);
  edit_min_height = height;
  edit_draft = record {
    name = host.name;
    host_type = host.host_type;
    address = host.address;
    ttl = ttl_select_value host.ttl;
    mx_pref = elim host.mx_pref [ none ↦ codes "10" | some pref ↦ pref ];
  };
}

unfoldable pub end_edit : Page → Page
end_edit page = record page { editing = none; edit_min_height = 0 }

unfoldable pub can_add : Bool → Page → Bool
unfolding trim
can_add pending page =
    truthy (trim page.draft.name) && truthy (trim page.draft.address) && not pending

-- The values of the patch: the address, the time to live, and the preference.
unfoldable pub patch_values : Page → Text × Text × Text
unfolding trim is_patch_keep
patch_values page = (
  trim page.patch_address,
  (if is_patch_keep page.patch_ttl then [] else page.patch_ttl),
  trim page.patch_mx,
)

unfoldable pub can_patch : Bool → List Host → Page → Bool
unfolding selected_hosts patch_values
can_patch pending hosts page =
    let values = patch_values page in
    ltb 0 (length (selected_hosts hosts page))
    && (truthy values.0 || truthy values.1 || truthy values.2)
    && not pending

-- What the page does, with the answers: whether the server accepted the record.
pub data Act : Type 0 where
  clicked : Text → Act
  drafted : Draft → Act
  add_answered : Bool → Act
  edit_pressed : ℕ → Host → Act
  edited : Draft → Act
  edit_cancelled : Act
  edit_answered : Bool → Act
  patch_typed : Text → Text → Text → Act

unfoldable pub act_on : Act → Page → Page
unfolding click_row start_edit end_edit
act_on (clicked key) page = click_row key page
act_on (drafted draft) page = record page { draft = draft }
act_on (add_answered success) page = if success then record page { draft = empty_draft } else page
act_on (edit_pressed height host) page = start_edit height host page
act_on (edited draft) page = record page { edit_draft = draft }
act_on edit_cancelled page = end_edit page
act_on (edit_answered success) page = if success then end_edit page else page
act_on (patch_typed address ttl mx_pref) page = record page {
  patch_address = address;
  patch_ttl = ttl;
  patch_mx = mx_pref;
}

unfoldable pub act_all : List Act → Page → Page
unfolding act_on
act_all [] page = page
act_all (act ∷ acts) page = act_all acts (act_on act page)
