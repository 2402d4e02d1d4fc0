-- ===== src/Dns/Detail/Anchor.antt =====
-- Which records are picked, and which of them a certificate is applied for: `togglePicked` and
-- `applyHost` of console/src/pages/Namecheap/Detail/Domains/Detail/index.tsx.
use nfx_edge.Common.{
  ◌≡◌, refl, ap, ◌∙◌, inl, inr, Text, true, false, not, Option, none, some, List, [], ◌∷◌, ◌++◌,
  arith, if◌then◌else◌, filter, text_eq, text_eq_refl, contains, Bool-cases,
}
use nfx_edge.Dns.Ttl.{has}
use nfx_edge.Dns.Hosts.Unique.{
  Distinct, Distinct-concat, Distinct-filter, contains-filter, contains-append, contains_one,
}
use nfx_edge.Dns.Detail.{
  Page, first_page, is_key, last, toggle_picked, click_row, start_edit, end_edit, Act, clicked,
  drafted, add_answered, edit_pressed, edited, edit_cancelled, edit_answered, patch_typed, act_on,
  act_all,
}

-- The anchor is one of the picked keys; there is none only if nothing is picked.
pub IsAnchor : Option Text → List Text → Type 0
IsAnchor none keys = keys ≡ []
IsAnchor (some key) keys = contains keys key ≡ true

pub IsAnchored : Page → Type 0
IsAnchored page = Distinct page.picked × IsAnchor page.apply_key page.picked

contains_last : (first : List Text) (key : Text) → contains (first ++ key ∷ []) key ≡ true
contains_last first key =
    contains-append first (key ∷ []) key ∙ ground (arith, contains_one key key, text_eq_refl key)

behind :
    (anchor : Option Text) (key other : Text) (keys : List Text)
    → IsAnchor anchor (other ∷ keys)
    → IsAnchor anchor (key ∷ other ∷ keys)
unfolding IsAnchor contains
behind none key other keys h = ground (arith, h)
behind (some anchor) key other keys h = ground (arith, h)

-- The last key of a list is one of its keys.
last-IsAnchor : (keys : List Text) → IsAnchor (last keys) keys
last-IsAnchor [] = unfold IsAnchor in refl
last-IsAnchor (key ∷ []) = unfold IsAnchor contains in ground (arith, text_eq_refl key)
last-IsAnchor (key ∷ other ∷ keys) = behind _ key other keys (last-IsAnchor (other ∷ keys))

dropped :
    (anchor : Option Text) (key : Text) (keys : List Text)
    → contains keys key ≡ true
    → IsAnchor anchor keys
    → IsAnchor
        (if is_key anchor key then last (filter (λ row. not (text_eq row key)) keys) else anchor)
        (filter (λ row. not (text_eq row key)) keys)
dropped none key keys there h =
    unfold IsAnchor is_key in ap (filter (λ row. not (text_eq row key))) (unfold IsAnchor in h)
dropped (some anchor) key keys there h = elim (Bool-cases (text_eq anchor key)) [
  | inl same ↦ unfold is_key in rw (same, if◌then◌else◌) (last-IsAnchor _)
  | inr other ↦
      unfold is_key in
      rw (other, if◌then◌else◌)
        (unfold IsAnchor in contains-filter _ keys anchor ∙ ground (arith, other, h))
]

toggle_picked-IsAnchored :
    (key : Text) (page : Page) → IsAnchored page → IsAnchored (toggle_picked key page)
unfolding toggle_picked IsAnchored
toggle_picked-IsAnchored key page (d, a) = elim (Bool-cases (contains page.picked key)) [
  | inl there ↦
      rw (there, if◌then◌else◌)
        (Distinct-filter _ page.picked d, dropped page.apply_key key page.picked there a)
  | inr new ↦
      rw (new, if◌then◌else◌)
        (Distinct-concat page.picked key d new, unfold IsAnchor in contains_last page.picked key)
]

act_on-IsAnchored : (act : Act) (page : Page) → IsAnchored page → IsAnchored (act_on act page)
unfolding act_on IsAnchored
act_on-IsAnchored (clicked key) page h =
    unfold click_row in
    elim (Bool-cases (has page.editing)) [
      | inl busy ↦ rw (busy, if◌then◌else◌) h
      | inr free ↦
          rw (free, if◌then◌else◌) (unfold IsAnchored in toggle_picked-IsAnchored key page h)
    ]
act_on-IsAnchored (drafted draft) page h = h
act_on-IsAnchored (add_answered true) page h = h
act_on-IsAnchored (add_answered false) page h = h
act_on-IsAnchored (edit_pressed height host) page h = unfold start_edit in h
act_on-IsAnchored (edited draft) page h = h
act_on-IsAnchored edit_cancelled page h = unfold end_edit in h
act_on-IsAnchored (edit_answered true) page h = unfold end_edit in h
act_on-IsAnchored (edit_answered false) page h = h
act_on-IsAnchored (patch_typed address ttl mx_pref) page h = h

act_all-keeps : (acts : List Act) (page : Page) → IsAnchored page → IsAnchored (act_all acts page)
unfolding act_all
act_all-keeps [] page h = h
act_all-keeps (act ∷ acts) page h =
    act_all-keeps acts (act_on act page) (act_on-IsAnchored act page h)

-- Whatever is done on the page from its first render on, no record is picked twice, and the record
-- that a certificate is applied for is one of those picked; there is none only if nothing is
-- picked.
pub act_all-IsAnchored : (acts : List Act) → IsAnchored (act_all acts first_page)
act_all-IsAnchored acts = act_all-keeps acts first_page (unfold IsAnchored IsAnchor in (tt, refl))
