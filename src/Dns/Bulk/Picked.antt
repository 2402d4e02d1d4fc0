-- ===== src/Dns/Bulk/Picked.antt =====
-- The choice of domains and the records to add on the bulk page.
use nfx_edge.Common.{
  ℕ, zero, suc, ◌≡◌, refl, ap, ◌∙◌, ◌⊎◌, inl, inr, ◌≤◌, ◌<◌, Text, Bool, true, false, not, ◌&&◌,
  ◌||◌, List, [], ◌∷◌, arith, ltb, ◌==◌, if◌then◌else◌, Bool-cases, filter, length, length-append,
  remove_at, contains, includes, trim, lower, is_empty,
}
use nfx_edge.Dns.Hosts.Unique.{Distinct, Distinct-concat, Distinct-filter, contains-filter}
use nfx_edge.Dns.Bulk.{AddDraft, empty_add, Form, Item, initial}
use nfx_edge.Dns.Bulk.Page.{
  is_available, available, add_domain, remove_domain, map_at, patch_add, append_add, remove_add,
  go_review, go_back, applied, is_failed, Act, picked, unpicked, typed, chose, patched, appended,
  removed, previewed, went_back, answered, step, run,
}

-- A name is on offer exactly when it is a domain, is not selected, and contains the query, up to
-- case and spaces around it.
available_exact :
    (form : Form) (domains : List Text) (name : Text)
    → contains (available form domains) name ≡ (
        contains domains name
        && not (contains form.selected name)
        && (is_empty (lower (trim form.query)) || includes (lower name) (lower (trim form.query))))
unfolding available
available_exact form domains name =
    contains-filter (is_available form) domains name
    ∙ (unfold is_available in regroup (contains domains name) (contains form.selected name) _)
  where
    regroup : (a b c : Bool) → (a && (if b then false else c)) ≡ (a && not b && c)
    regroup a true c = ground arith
    regroup a false c = ground arith

pub IsSound : Form → Type 0
IsSound form = Distinct form.selected × (0 < length form.adds) × (form.stage ≡ 1 ⊎ form.stage ≡ 2)

length-map_at :
    (i : ℕ) (f : AddDraft → AddDraft) (rows : List AddDraft)
    → length (map_at i f rows) ≡ length rows
length-map_at i f [] = refl
length-map_at zero f (row ∷ rows) = refl
length-map_at (suc i) f (row ∷ rows) = ap suc (length-map_at i f rows)

length-remove_at : (i : ℕ) (rows : List AddDraft) → length rows ≤ suc (length (remove_at i rows))
length-remove_at i [] = omega arith
length-remove_at zero (row ∷ rows) = omega arith
length-remove_at (suc i) (row ∷ rows) = omega (arith, length-remove_at i rows)

add_domain-Distinct :
    (name : Text) (form : Form) → Distinct form.selected → Distinct (add_domain name form).selected
unfolding add_domain
add_domain-Distinct name form d = elim (Bool-cases (contains form.selected name)) [
  | inl there ↦ rw (there, if◌then◌else◌) d
  | inr new ↦ rw (new, if◌then◌else◌) (Distinct-concat form.selected name d new)
]

remove_lem :
    (index : ℕ) (rows : List AddDraft)
    → 0 < length rows
    → 0 < length (if length rows == 1 then rows else remove_at index rows)
remove_lem index rows h = ground (arith, h, length-remove_at index rows)

module _ (items : List Item) (form : Form) where
  applied-same :
      ((applied items form).1.selected ≡ form.selected) × ((applied items form).1.adds ≡ form.adds)
  unfolding applied
  applied-same = elim (Bool-cases (ltb 0 (length (filter is_failed items)))) [
    | inl some_failed ↦ rw (some_failed, if◌then◌else◌) (refl, refl)
    | inr none_failed ↦ rw (none_failed, if◌then◌else◌) (refl, refl)
  ]

  applied-stage :
      form.stage ≡ 1 ⊎ form.stage ≡ 2
      → (applied items form).1.stage ≡ 1 ⊎ (applied items form).1.stage ≡ 2
  unfolding applied
  applied-stage s = elim (Bool-cases (ltb 0 (length (filter is_failed items)))) [
    | inl some_failed ↦ rw (some_failed, if◌then◌else◌) s
    | inr none_failed ↦ rw (none_failed, if◌then◌else◌) (inl refl)
  ]

step-IsSound : (act : Act) (form : Form) → IsSound form → IsSound (step act form)
unfolding step IsSound
step-IsSound (picked name) form (d, a, s) =
    (add_domain-Distinct name form d, unfold add_domain in a, unfold add_domain in s)
step-IsSound (unpicked name) form (d, a, s) = unfold remove_domain in (Distinct-filter _ _ d, a, s)
step-IsSound (typed text) form (d, a, s) = (d, a, s)
step-IsSound (chose action) form (d, a, s) = (d, a, s)
step-IsSound (patched index next) form (d, a, s) =
    unfold patch_add in (d, omega (arith, a, length-map_at index next form.adds), s)
step-IsSound appended form (d, a, s) =
    unfold append_add in (d, omega (arith, a, length-append form.adds (empty_add ∷ [])), s)
step-IsSound (removed index) form (d, a, s) =
    unfold remove_add in (d, remove_lem index form.adds a, s)
step-IsSound (previewed items) form (d, a, s) = unfold go_review in (d, a, inr refl)
step-IsSound went_back form (d, a, s) = unfold go_back in (d, a, inl refl)
step-IsSound (answered items) form (d, a, s) =
    (rw (applied-same items form).0 d, rw (applied-same items form).1 a, applied-stage items form s)

run-keeps : (acts : List Act) (form : Form) → IsSound form → IsSound (run acts form)
unfolding run
run-keeps [] form h = h
run-keeps (act ∷ acts) form h = run-keeps acts (step act form) (step-IsSound act form h)

-- From the first render on, whatever the user and the server do, no domain is selected twice, there
-- is a record to fill in, and the page is at stage 1 or 2.
pub run-IsSound : (acts : List Act) → IsSound (run acts initial)
run-IsSound acts = run-keeps acts initial (unfold IsSound in (tt, omega arith, inl refl))
