-- ===== src/Dns/Hosts.antt =====
-- Host names and fully qualified names: console/src/features/dns/hostFqdn.ts, and the helpers of
-- console/src/features/certificate/controllers/SANsController/index.tsx.
pub mod Zone
pub mod Qualified
pub mod Unique
pub mod Sans
pub mod Label
mod Tests
use nfx_edge.Common.{
  ℕ, zero, suc, ◌-◌, Text, Bool, true, false, not, ◌&&◌, ◌||◌, Option, none, some, List, [], ◌∷◌,
  ◌++◌, map, ◌==◌, if◌then◌else◌, text_eq, trim, lower, ends_with, includes, contains, is_empty,
  drop_while, drop_last_while, length, take, filter, any,
}

abbrev pub is_dot : ℕ → Bool
is_dot c = c == b'.'

-- The text "@", the name of a zone's own host.
abbrev pub at_sign : Text
at_sign = b'@' ∷ []

-- `apex.trim().replace(/^\.+/, "").replace(/\.+$/, "").toLowerCase()`
unfoldable pub normalize_apex : Text → Text
unfolding trim lower
normalize_apex apex = lower (drop_last_while is_dot (drop_while is_dot (trim apex)))

-- `.${root}`
abbrev pub dotted : Text → Text
dotted root = b'.' ∷ root

-- The part of `hostToFqdn` behind the two early returns, for the label in lower case.
unfoldable pub qualify : Text → Text → Text
unfolding text_eq ends_with
qualify low root =
    if text_eq low root || ends_with low (dotted root) then low else low ++ dotted root

unfoldable pub host_to_fqdn : Text → Text → Text
unfolding normalize_apex qualify trim lower text_eq
host_to_fqdn host_name apex =
    let root = normalize_apex apex in
    let label = drop_last_while is_dot (trim host_name) in
    if is_empty root
    then lower label
    else if is_empty label || text_eq label at_sign
    then root
    else qualify (lower label) root

-- The loop of `uniqueFqdns`; the set `seen` has the elements of `out`.
unique_from : List Text → List Text → List Text
unfolding contains trim lower
unique_from out [] = out
unique_from out (value ∷ values) =
    let fqdn = lower (trim value) in
    unique_from (if is_empty fqdn || contains out fqdn then out else out ++ fqdn ∷ []) values

unfoldable pub unique_fqdns : List Text → List Text
unfolding unique_from
unique_fqdns values = unique_from [] values

-- A host is known by its name here.
unfoldable pub hosts_to_sans : List Text → Text → List Text
unfolding normalize_apex host_to_fqdn unique_fqdns text_eq
hosts_to_sans hosts apex =
    let cn = normalize_apex apex in
    filter (λ fqdn. not (text_eq fqdn cn)) (unique_fqdns (map (λ host. host_to_fqdn host cn) hosts))

-- `prefixFromHost` of SANsController
unfoldable pub prefix_from_host : Text → Text → Text
prefix_from_host host apex =
    let fqdn = drop_last_while is_dot (trim host) in
    let root = normalize_apex apex in
    if is_empty fqdn
    then []
    else if is_empty root
    then fqdn
    else if text_eq (lower fqdn) root
    then at_sign
    else if ends_with (lower fqdn) (dotted root)
    then take (length fqdn - length (dotted root)) fqdn
    else fqdn

-- `fqdnFromPrefix` of SANsController behind the tests on the prefix: the label is put before the
-- root; `none` is null.
unfoldable pub join_label : Text → Text → Option Text
join_label label root =
    if is_empty label || text_eq label at_sign
    then none
    else if text_eq (label ++ dotted root) root
    then none
    else some (label ++ dotted root)

unfoldable pub fqdn_from_prefix : Text → Text → Option Text
fqdn_from_prefix prefix apex =
    let root = normalize_apex apex in
    let raw = drop_last_while is_dot (drop_while is_dot (trim prefix)) in
    let low = lower raw in
    if is_empty raw
    then none
    else if is_empty root
    then (if includes low (b'.' ∷ []) then some low else none)
    else if text_eq low at_sign || text_eq low root
    then none
    else if includes low (b'.' ∷ [])
    then some low
    else join_label (prefix_from_host raw root) root

-- `addPrefix` of SANsController behind the call of `fqdnFromPrefix`.
unfoldable pub add_fqdn : Option Text → List Text → List Text
add_fqdn none current_items = current_items
add_fqdn (some fqdn) current_items =
    if any (λ item. text_eq (lower item) (lower fqdn)) current_items
    then current_items
    else current_items ++ fqdn ∷ []

-- `addPrefix` of SANsController, which closes over the form's domain.
unfoldable pub add_prefix : Text → Text → List Text → List Text
unfolding add_fqdn
add_prefix apex value current_items = add_fqdn (fqdn_from_prefix value apex) current_items

-- `handleRemoveItem` of SANsController: the filter by index.
unfoldable pub remove_item : ℕ → List Text → List Text
remove_item index [] = []
remove_item zero (item ∷ items) = items
remove_item (suc index) (item ∷ items) = item ∷ remove_item index items
