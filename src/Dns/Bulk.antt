-- ===== src/Dns/Bulk.antt =====
-- The request of the bulk page of Namecheap hosts: console/src/features/dns/bulkFilter.ts, and the
-- form and `buildRequest` of console/src/pages/Namecheap/Detail/Domains/Bulk/index.tsx.
pub mod Page
pub mod Ready
pub mod Picked
pub mod Review
mod Tests
use nfx_edge.Common.{
  ℕ, ◌+◌, Text, codes, Bool, true, false, not, ◌&&◌, ◌||◌, Option, none, some, List, [], ◌∷◌, ◌++◌,
  map, ltb, if◌then◌else◌, filter, length, text_eq, contains, includes, trim, lower, truthy,
  is_empty,
}
use nfx_edge.Dns.Ttl.{automatic_ttl}

-- `NamecheapBulkHostActionEnum`
pub data Action : Type 0 where
  update : Action
  add : Action
  delete : Action

abbrev pub filter_all : Text
filter_all = codes "all"

abbrev pub patch_keep : Text
patch_keep = codes "keep"

unfoldable pub is_filter_all : Text → Bool
unfolding trim lower text_eq
is_filter_all value = let next = lower (trim value) in is_empty next || text_eq next filter_all

unfoldable pub is_patch_keep : Text → Bool
unfolding trim lower text_eq
is_patch_keep value = let next = lower (trim value) in is_empty next || text_eq next patch_keep

pub record AddDraft : Type 0 where
  pub name : Text
  pub host_type : Text
  pub address : Text
  pub ttl : Text
  pub mx_pref : Text
  pub address_self : Bool

abbrev pub empty_add : AddDraft
empty_add = record {
  name = codes "@";
  host_type = codes "A";
  address = [];
  ttl = automatic_ttl;
  mx_pref = codes "10";
  address_self = false;
}

-- `BulkNamecheapHostMatch`; a deletion sends the name and the type only.
pub record Match : Type 0 where
  pub name : Text
  pub host_type : Text
  pub address : Option Text
  pub ttl : Option Text
  pub mx_pref : Option Text

pub record Patch : Type 0 where
  pub address : Text
  pub ttl : Text
  pub mx_pref : Text
  pub address_self : Bool

pub record Request : Type 0 where
  pub action : Action
  pub domains : List Text
  pub match_on : Option Match
  pub patch : Option Patch
  pub adds : Option (List AddDraft)

pub record Snap : Type 0 where
  pub name : Text
  pub host_type : Text
  pub address : Text
  pub ttl : Option Text
  pub mx_pref : Option Text

pub record Change : Type 0 where
  pub before : Option Snap
  pub after : Option Snap

pub record Item : Type 0 where
  pub domain : Text
  pub status : Text
  pub message : Option Text
  pub changes : Option (List Change)

-- The state of the page; the stage is 1 or 2.
pub record Form : Type 0 where
  pub stage : ℕ
  pub query : Text
  pub selected : List Text
  pub action : Action
  pub filter_host : Text
  pub filter_type : Text
  pub filter_address : Text
  pub filter_ttl : Text
  pub filter_mx : Text
  pub patch_address : Text
  pub patch_ttl : Text
  pub patch_mx : Text
  pub patch_address_self : Bool
  pub adds : List AddDraft
  pub review : List Item

abbrev pub initial : Form
initial = record {
  stage = 1;
  query = [];
  selected = [];
  action = update;
  filter_host = [];
  filter_type = filter_all;
  filter_address = [];
  filter_ttl = filter_all;
  filter_mx = [];
  patch_address = [];
  patch_ttl = patch_keep;
  patch_mx = [];
  patch_address_self = false;
  adds = empty_add ∷ [];
  review = [];
}

-- The three values of the patch.
unfoldable pub patch_of : Form → Patch
unfolding trim is_patch_keep
patch_of form = record {
  address = if form.patch_address_self then [] else trim form.patch_address;
  ttl = if is_patch_keep form.patch_ttl then [] else form.patch_ttl;
  mx_pref = trim form.patch_mx;
  address_self = form.patch_address_self;
}

unfoldable pub update_ready : Form → Bool
unfolding patch_of
update_ready form =
    let patch = patch_of form in
    truthy patch.address || truthy patch.ttl || truthy patch.mx_pref || patch.address_self

unfoldable pub trim_add : AddDraft → AddDraft
unfolding trim
trim_add row = record {
  name = trim row.name;
  host_type = trim row.host_type;
  address = if row.address_self then [] else trim row.address;
  ttl = row.ttl;
  mx_pref = trim row.mx_pref;
  address_self = row.address_self;
}

unfoldable pub is_complete_add : AddDraft → Bool
is_complete_add row =
    truthy row.name && truthy row.host_type && (truthy row.address || row.address_self)

unfoldable pub complete_adds : Form → List AddDraft
unfolding trim_add is_complete_add
complete_adds form = filter is_complete_add (map trim_add form.adds)

unfoldable pub add_ready : Form → Bool
unfolding complete_adds
add_ready form = ltb 0 (length (complete_adds form))

unfoldable pub filter_ready : Form → Bool
unfolding is_filter_all
filter_ready form = not (is_filter_all form.filter_host) || not (is_filter_all form.filter_type)

unfoldable pub can_preview : Bool → Form → Bool
unfolding update_ready add_ready filter_ready
can_preview pending form = ltb 0 (length form.selected) && not pending && (elim form.action [
  | update ↦ update_ready form
  | add ↦ add_ready form
  | delete ↦ filter_ready form
])

unfoldable pub filter_name : Text → Text
unfolding is_filter_all trim
filter_name host = if is_filter_all host then filter_all else trim host

-- `buildRequest`, by the action.
unfoldable pub request_of : Action → Form → Request
unfolding complete_adds filter_name patch_of trim is_filter_all
request_of add form = record {
  action = add;
  domains = form.selected;
  match_on = none;
  patch = none;
  adds = some (complete_adds form);
}
request_of delete form = record {
  action = delete;
  domains = form.selected;
  match_on = some (record {
    name = filter_name form.filter_host;
    host_type = form.filter_type;
    address = none;
    ttl = none;
    mx_pref = none;
  });
  patch = none;
  adds = none;
}
request_of update form = record {
  action = update;
  domains = form.selected;
  match_on = some (record {
    name = filter_name form.filter_host;
    host_type = form.filter_type;
    address = some (trim form.filter_address);
    ttl = some (if is_filter_all form.filter_ttl then filter_all else form.filter_ttl);
    mx_pref = some (trim form.filter_mx);
  });
  patch = some (patch_of form);
  adds = none;
}

unfoldable pub build_request : Form → Request
unfolding request_of
build_request form = request_of form.action form
