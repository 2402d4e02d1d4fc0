-- ===== src/Dns/Ttl.antt =====
-- The time to live of a host record: console/src/features/dns/ttl.ts, and the choice of
-- console/src/features/dns/TtlDropdown.tsx. An option is its value and its label.
pub mod Choice
mod Tests
use nfx_edge.Common.{
  ℕ, Text, codes, Bool, true, false, not, ◌&&◌, ◌||◌, Option, none, some, List, [], ◌∷◌, ◌++◌, map,
  if◌then◌else◌, text_eq, contains, trim, or_else, truthy, is_empty, all_digits,
}

abbrev pub automatic_ttl : Text
automatic_ttl = codes "1800"

abbrev pub preset_values : List Text
preset_values =
    codes "1800"
    ∷ codes "60"
    ∷ codes "300"
    ∷ codes "600"
    ∷ codes "1200"
    ∷ codes "3600"
    ∷ codes "7200"
    ∷ codes "14400"
    ∷ codes "86400"
    ∷ []

-- `(ttl ?? "").trim()`
unfoldable pub given : Option Text → Text
unfolding trim
given none = []
given (some ttl) = trim ttl

unfoldable pub is_automatic_ttl : Option Text → Bool
unfolding given text_eq
is_automatic_ttl ttl =
    is_empty (given ttl) || text_eq (given ttl) (codes "1799") || text_eq (given ttl) automatic_ttl

unfoldable pub ttl_select_value : Option Text → Text
unfolding is_automatic_ttl given
ttl_select_value ttl =
    if is_automatic_ttl ttl then automatic_ttl else or_else (given ttl) automatic_ttl

-- `/^\d+$/` matches texts of digits that are not empty.
unfoldable pub ttl_seconds_label : Text → Text
unfolding all_digits
ttl_seconds_label value = if truthy value && all_digits value then value ++ codes " s" else value

unfoldable pub preset_option : Text → Text → Text × Text
unfolding ttl_seconds_label text_eq
preset_option automatic_label value =
    (value, (if text_eq value automatic_ttl then automatic_label else ttl_seconds_label value))

abbrev pub values : List (Text × Text) → List Text
values options = map (λ o. o.0) options

unfoldable pub ttl_options : Text → Option Text → List (Text × Text)
unfolding preset_option ttl_seconds_label given contains
ttl_options automatic_label current =
    let options = map (preset_option automatic_label) preset_values in
    let extra = given current in
    if truthy extra && not (text_eq extra (codes "1799")) && not (contains (values options) extra)
    then options ++ (extra, ttl_seconds_label extra) ∷ []
    else options

unfoldable pub format_ttl : Option Text → Text → Text
unfolding is_automatic_ttl ttl_seconds_label given
format_ttl ttl automatic_label =
    if is_automatic_ttl ttl
    then automatic_label
    else if truthy (given ttl)
    then ttl_seconds_label (given ttl)
    else 0x2014 ∷ []

-- An optional text is truthy if it is there and not empty.
abbrev pub has : Option Text → Bool
has none = false
has (some t) = truthy t

-- `unsetValue && value === unsetValue`
abbrev pub is_unset : Option Text → Text → Bool
is_unset none value = false
is_unset (some unset) value = truthy unset && text_eq value unset

abbrev pub unset_option : Option Text → Option Text → List (Text × Text)
unset_option none label = []
unset_option (some unset) none = []
unset_option (some unset) (some label) =
    if truthy unset && truthy label then (unset, label) ∷ [] else []

-- The options and the chosen value of `TtlDropdown`.
unfoldable pub dropdown_options : Text → Text → Option Text → Option Text → List (Text × Text)
unfolding ttl_options text_eq
dropdown_options value automatic_label unset label =
    unset_option unset label
    ++ ttl_options automatic_label (if is_unset unset value then none else some value)

unfoldable pub dropdown_selected : Text → Option Text → Text
unfolding ttl_select_value text_eq
dropdown_selected value none = ttl_select_value (some value)
dropdown_selected value (some unset) =
    if truthy unset && (text_eq value unset || is_empty value)
    then unset
    else ttl_select_value (some value)
