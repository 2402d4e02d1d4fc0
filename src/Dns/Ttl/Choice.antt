-- ===== src/Dns/Ttl/Choice.antt =====
-- The chosen option of a TTL dropdown: it is there, under the label that the tables show.
use nfx_edge.Common.{
  ◌≡◌, refl, sym, ap, subst, inl, inr, Text, codes, Bool, true, false, not, ◌&&◌, ◌||◌, Option,
  none, some, List, [], ◌∷◌, ◌++◌, map, arith, if◌then◌else◌, any, text_eq, text_eq_refl,
  text_eq_iff, contains, truthy, is_empty, Bool-cases,
}
use nfx_edge.Dns.Ttl.{
  automatic_ttl, preset_values, given, is_automatic_ttl, ttl_select_value, ttl_seconds_label,
  preset_option, values, ttl_options, format_ttl, has, dropdown_options, dropdown_selected,
}

-- One of the options has this value and this label.
unfoldable pub offers : List (Text × Text) → Text → Text → Bool
unfolding text_eq
offers options value label = any (λ o. text_eq o.0 value && text_eq o.1 label) options

offers-append :
    (xs ys : List (Text × Text)) (v l : Text)
    → offers (xs ++ ys) v l ≡ (offers xs v l || offers ys v l)
unfolding offers
offers-append [] ys v l = refl
offers-append (x ∷ xs) ys v l = ground (arith, offers-append xs ys v l)

offers_self : (xs : List (Text × Text)) (v l : Text) → offers ((v, l) ∷ xs) v l ≡ true
unfolding offers
offers_self xs v l = rw (text_eq_refl v, text_eq_refl l) refl

offers_last : (xs : List (Text × Text)) (v l : Text) → offers (xs ++ (v, l) ∷ []) v l ≡ true
offers_last xs v l = ground (arith, offers-append xs ((v, l) ∷ []) v l, offers_self [] v l)

-- A value that is not the automatic one is among the presets under its own label.
offers_preset :
    (automatic_label v : Text) (ps : List Text)
    → text_eq v automatic_ttl ≡ false
    → contains (values (map (preset_option automatic_label) ps)) v ≡ true
    → offers (map (preset_option automatic_label) ps) v (ttl_seconds_label v) ≡ true
unfolding contains offers preset_option
offers_preset automatic_label v [] other h = h
offers_preset automatic_label v (p ∷ ps) other h = elim (Bool-cases (text_eq p v)) [
  | inl same ↦
      subst
        (λ q. offers (map (preset_option automatic_label) (q ∷ ps)) v (ttl_seconds_label v) ≡ true)
        (sym ((text_eq_iff p v).0 same))
        (ground (arith, other, text_eq_refl v, text_eq_refl (ttl_seconds_label v)))
  | inr differ ↦
      ground (arith, differ, h, offers_preset automatic_label v ps other (later differ h))
]
  where
    later : {a b : Bool} → a ≡ false → (a || b) ≡ true → b ≡ true
    later p q = ground (arith, p, q)

offers_added :
    (xs : List (Text × Text)) (v l : Text) (b : Bool)
    → (b ≡ false → offers xs v l ≡ true)
    → offers (if b then xs ++ (v, l) ∷ [] else xs) v l ≡ true
offers_added xs v l true h = offers_last xs v l
offers_added xs v l false h = h refl

options_lem :
    (automatic_label : Text) (current : Option Text)
    → text_eq (given current) (codes "1799") ≡ false
    → text_eq (given current) automatic_ttl ≡ false
    → truthy (given current) ≡ true
    → offers
        (ttl_options automatic_label current)
        (given current)
        (ttl_seconds_label (given current))
      ≡ true
unfolding ttl_options
options_lem automatic_label current other other' full =
    offers_added _ _ _ _
      (λ h. offers_preset automatic_label _ preset_values other' (must_be full other h))
  where
    must_be : {a b c : Bool} → a ≡ true → b ≡ false → (a && not b && not c) ≡ false → c ≡ true
    must_be p q r = ground (arith, p, q, r)

offers_either :
    (xs ys : List (Text × Text)) (v l : Text) (b : Bool)
    → offers xs v l ≡ true
    → offers (if b then xs ++ ys else xs) v l ≡ true
offers_either xs ys v l true h = rw (offers-append xs ys v l, h) refl
offers_either xs ys v l false h = h

options_automatic :
    (automatic_label : Text) (current : Option Text)
    → offers (ttl_options automatic_label current) automatic_ttl automatic_label ≡ true
unfolding ttl_options
options_automatic automatic_label current =
    offers_either (map (preset_option automatic_label) preset_values) _ _ _ _ first
  where
    first :
        offers (map (preset_option automatic_label) preset_values) automatic_ttl automatic_label
        ≡ true
    first = unfold preset_option text_eq in offers_self _ automatic_ttl automatic_label

other_ttl :
    (ttl : Option Text)
    → is_automatic_ttl ttl ≡ false
    → (is_empty (given ttl) ≡ false)
      × (text_eq (given ttl) (codes "1799") ≡ false)
      × (text_eq (given ttl) automatic_ttl ≡ false)
unfolding is_automatic_ttl
other_ttl ttl h = (ground (arith, h), ground (arith, h), ground (arith, h))

offers_full :
    (xs : List (Text × Text)) (v w l k : Text) (e : Bool)
    → e ≡ false
    → offers xs v l ≡ true
    → offers xs (if e then w else v) (if not e then l else k) ≡ true
offers_full xs v w l k true h o = absurd (cc)
offers_full xs v w l k false h o = o

offers_if :
    (xs : List (Text × Text)) (v w l k : Text) (b : Bool)
    → offers xs v l ≡ true
    → (b ≡ false → offers xs w k ≡ true)
    → offers xs (if b then v else w) (if b then l else k) ≡ true
offers_if xs v w l k true h o = h
offers_if xs v w l k false h o = o refl

options_select :
    (automatic_label : Text) (ttl : Option Text)
    → offers
        (ttl_options automatic_label ttl)
        (ttl_select_value ttl)
        (format_ttl ttl automatic_label)
      ≡ true
unfolding ttl_select_value format_ttl
options_select automatic_label ttl =
    offers_if _ _ _ _ _ (is_automatic_ttl ttl) (options_automatic automatic_label ttl) (λ other.
      let (full, one, two) = other_ttl ttl other in
      offers_full _ _ _ _ _ (is_empty (given ttl)) full
        (options_lem automatic_label ttl one two (ap not full)))

-- The choice with a value for "unset": `same` says that the value is that one, `blank` that it is empty.
offers_unset :
    (options : Option Text → List (Text × Text)) (value unset label v l : Text) (same blank : Bool)
    → offers (options (some value)) v l ≡ true
    → offers
        ((unset, label) ∷ options (if same then none else some value))
        (if same || blank then unset else v)
        (if same || blank then label else l)
      ≡ true
offers_unset options value unset label v l true blank h = offers_self _ unset label
offers_unset options value unset label v l false true h = offers_self _ unset label
offers_unset options value unset label v l false false h = unfold offers in ground (arith, h)

-- The label of the choice: that of "unset" for the empty text and the value that stands for it.
pub shown_label : Text → Text → Option Text → Option Text → Text
shown_label value automatic_label none label = format_ttl (some value) automatic_label
shown_label value automatic_label (some unset) none = format_ttl (some value) automatic_label
shown_label value automatic_label (some unset) (some label) =
    if truthy unset && (text_eq value unset || is_empty value)
    then label
    else format_ttl (some value) automatic_label

false-ne_true : false ≡ true → ⊥
false-ne_true e = cc

without_label :
    (value automatic_label unset : Text) (t : Bool)
    → (t ≡ true → false ≡ true)
    → offers
        (ttl_options automatic_label (if t && text_eq value unset then none else some value))
        (if t && (text_eq value unset || is_empty value)
          then unset
          else ttl_select_value (some value))
        (format_ttl (some value) automatic_label)
      ≡ true
without_label value automatic_label unset true h = absurd (false-ne_true (h refl))
without_label value automatic_label unset false h = options_select automatic_label (some value)

with_unset :
    (value automatic_label unset label : Text) (t u : Bool)
    → (t ≡ true → u ≡ true)
    → offers
        ((if t && u then (unset, label) ∷ [] else [])
          ++ ttl_options automatic_label (if t && text_eq value unset then none else some value))
        (if t && (text_eq value unset || is_empty value)
          then unset
          else ttl_select_value (some value))
        (if t && (text_eq value unset || is_empty value)
          then label
          else format_ttl (some value) automatic_label)
      ≡ true
with_unset value automatic_label unset label true true h =
    offers_unset (ttl_options automatic_label) value unset label _ _ (text_eq value unset)
      (is_empty value) (options_select automatic_label (some value))
with_unset value automatic_label unset label true false h = absurd (false-ne_true (h refl))
with_unset value automatic_label unset label false u h = options_select automatic_label (some value)

-- If a value for "unset" comes with a label, the dropdown offers its chosen value, whatever text
-- comes in: under the label of "unset" for the empty text and that value, and else under the
-- label that `formatNamecheapTtl` gives.
pub dropdown_lem :
    (value automatic_label : Text) (unset label : Option Text)
    → (has unset ≡ true → has label ≡ true)
    → offers
        (dropdown_options value automatic_label unset label)
        (dropdown_selected value unset)
        (shown_label value automatic_label unset label)
      ≡ true
unfolding dropdown_options dropdown_selected shown_label
dropdown_lem value automatic_label none label h = options_select automatic_label (some value)
dropdown_lem value automatic_label (some unset) (some label) h =
    with_unset value automatic_label unset label (truthy unset) (truthy label) h
dropdown_lem value automatic_label (some unset) none h =
    without_label value automatic_label unset (truthy unset) h
