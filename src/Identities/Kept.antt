-- ===== src/Identities/Kept.antt =====
-- The profiles of a user: `handleSwitch`, `handleDelete` and the rows of `ProfilesSection` in
-- console/src/pages/User/Profile/Identities/index.tsx.
use nfx_edge.Common.{
  ◌≡◌, refl, ap, ◌∙◌, subst, inl, inr, Text, Bool, true, false, not, ◌&&◌, ◌||◌, Option, none, some,
  List, [], ◌∷◌, ◌++◌, arith, if◌then◌else◌, Bool-cases, &&-left, &&-right, filter, any, text_eq,
  text_eq_iff,
}
use nfx_edge.Dns.Hosts.Unique.{text_eq_symm}
use nfx_edge.Identities.{
  Kind, community, authority, Profile, kind_eq, profile_eq, Profiles, is_pending, is_text, is_shown,
  is_current, is_busy, at_floor, handle_switch, press_switch, switch_answered, can_delete,
  press_delete, delete_answered, Event, switched, switch_settled, deleted, delete_settled, created,
  step, run,
}

shown : List Profile → Profile → Bool
shown rows p = any (λ row. profile_eq row p) rows

-- A profile that is being deleted is not the current one, and one that is being selected is listed;
-- no more than one of these commands waits at a time.
pub IsSafe : List Profile → Profile → Option Profile → Option Profile → Type 0
IsSafe rows current none none = Unit
IsSafe rows current (some p) none = profile_eq p current ≡ false
IsSafe rows current none (some p) = shown rows p ≡ true
IsSafe rows current (some p) (some q) = ⊥

unfoldable pub IsKept : Profiles → Type 0
unfolding IsSafe shown
IsKept s = (shown s.rows s.current ≡ true) × IsSafe s.rows s.current s.deleting s.selecting

kind_eq_iff : (k l : Kind) → kind_eq k l ≡ true → k ≡ l
kind_eq_iff community community h = refl
kind_eq_iff authority authority h = refl
kind_eq_iff community authority h = absurd (cc)
kind_eq_iff authority community h = absurd (cc)

kind_eq_symm : (k l : Kind) → kind_eq k l ≡ kind_eq l k
kind_eq_symm community community = refl
kind_eq_symm authority authority = refl
kind_eq_symm community authority = refl
kind_eq_symm authority community = refl

profile_eq_symm : (p q : Profile) → profile_eq p q ≡ profile_eq q p
unfolding profile_eq
profile_eq_symm p q =
    ap (λ b. b && kind_eq p.kind q.kind) (text_eq_symm p.id q.id)
    ∙ ap (λ b. text_eq q.id p.id && b) (kind_eq_symm p.kind q.kind)

same_eq : (p q r : Profile) → profile_eq p q ≡ true → profile_eq p r ≡ profile_eq q r
unfolding profile_eq
same_eq p q r h =
    ap (λ t. text_eq t r.id && kind_eq p.kind r.kind)
      ((text_eq_iff p.id q.id).0 (&&-left (text_eq p.id q.id) (kind_eq p.kind q.kind) h))
    ∙ ap (λ k. text_eq q.id r.id && kind_eq k r.kind)
        (kind_eq_iff p.kind q.kind (&&-right (text_eq p.id q.id) (kind_eq p.kind q.kind) h))

shown-filter :
    (rows : List Profile) (p q : Profile)
    → profile_eq p q ≡ false
    → shown rows q ≡ true
    → shown (filter (λ row. not (profile_eq row p)) rows) q ≡ true
unfolding shown
shown-filter [] p q n h = h
shown-filter (row ∷ rows) p q n h = elim (Bool-cases (profile_eq row p)) [
  | inl dropped ↦
      rw (dropped, if◌then◌else◌) (shown-filter rows p q n (later (same_eq row p q dropped ∙ n) h))
  | inr kept ↦
      rw (kept, if◌then◌else◌)
        (elim (Bool-cases (profile_eq row q)) [
          | inl here ↦ rw here
          | inr there ↦ rw there (shown-filter rows p q n (later there h))
        ])
]
  where
    later : {a b : Bool} → a ≡ false → (a || b) ≡ true → b ≡ true
    later f t = ground (arith, f, t)

shown-append :
    (rows : List Profile) (p q : Profile) → shown rows q ≡ true → shown (rows ++ p ∷ []) q ≡ true
unfolding shown
shown-append [] p q h = absurd (cc)
shown-append (row ∷ rows) p q h = ground (arith, h, shown-append rows p q)

free_row : (a b c : Bool) → (a && not b && not c) ≡ true → (a ≡ true) × (b ≡ false) × (c ≡ false)
free_row a b c h = ground (arith, h)

idle_lem :
    (s : Profiles) (p : Profile)
    → is_busy s p ≡ false
    → (is_pending s.deleting ≡ false) × (is_pending s.selecting ≡ false)
idle_lem s p h =
    neither (is_text s.switching_id p.id) (is_pending s.deleting) (is_pending s.selecting)
      (unfold is_busy in h)
  where
    neither : (x y z : Bool) → (x || y || z) ≡ false → (y ≡ false) × (z ≡ false)
    neither x y z h = ground (arith, h)

can_delete_lem :
    (s : Profiles) (p : Profile) (b : Bool)
    → (can_delete s p && b) ≡ true
    → (is_current s p ≡ false) × (is_busy s p ≡ false)
can_delete_lem s p b h =
    parts (is_shown s p) (kind_eq p.kind community) (is_current s p) (at_floor s) (is_busy s p) b
      (unfold can_delete in h)
  where
    parts :
        (a k c f d b : Bool) → (a && k && not (c || f || d) && b) ≡ true → (c ≡ false) × (d ≡ false)
    parts a k c f d b h = ground (arith, h)

-- The steps on the fields of a state.
module _ (rows : List Profile) (current : Profile) (switching_id : Option Text) where
  state : Option Profile → Option Profile → Profiles
  state deleting selecting = record {
    rows = rows;
    current = current;
    deleting = deleting;
    selecting = selecting;
    switching_id = switching_id;
  }

  switch_answered_from :
      (b : Bool) (deleting selecting : Option Profile)
      → IsKept (state deleting selecting)
      → IsKept (switch_answered b (state deleting selecting))
  unfolding IsKept switch_answered state IsSafe
  switch_answered_from b deleting none h = h
  switch_answered_from b (some q) (some p) h = absurd h.1
  switch_answered_from true none (some p) h = (h.1, tt)
  switch_answered_from false none (some p) h = (h.0, tt)

  delete_answered_from :
      (b : Bool) (deleting selecting : Option Profile)
      → IsKept (state deleting selecting)
      → IsKept (delete_answered b (state deleting selecting))
  unfolding IsKept delete_answered state IsSafe
  delete_answered_from b none selecting h = h
  delete_answered_from b (some p) (some q) h = absurd h.1
  delete_answered_from true (some p) none h = (shown-filter rows p current h.1 h.0, tt)
  delete_answered_from false (some p) none h = (h.0, tt)

  -- A command that begins while no other waits.
  begins :
      (deleting selecting : Option Profile) (p : Profile)
      → is_pending deleting ≡ false
      → is_pending selecting ≡ false
      → IsKept (state deleting selecting)
      → (shown rows p ≡ true → IsKept (state deleting (some p)))
        × (profile_eq p current ≡ false → IsKept (state (some p) selecting))
  unfolding IsKept state IsSafe
  begins none none p d l h = (λ there. (h.0, there), λ other. (h.0, other))
  begins (some q) selecting p d l h = absurd (cc)
  begins none (some q) p d l h = absurd (cc)

  created_from :
      (deleting selecting : Option Profile) (p : Profile)
      → IsKept (state deleting selecting)
      → IsKept (record (state deleting selecting) { rows = rows ++ p ∷ [] })
  unfolding IsKept state IsSafe
  created_from none none p h = (shown-append rows p current h.0, tt)
  created_from (some q) none p h = (shown-append rows p current h.0, h.1)
  created_from none (some q) p h = (shown-append rows p current h.0, shown-append rows p q h.1)
  created_from (some q) (some r) p h = absurd h.1

press_switch-IsKept : (p : Profile) (s : Profiles) → IsKept s → IsKept (press_switch p s)
unfolding state
press_switch-IsKept p s h =
    elim (Bool-cases (is_shown s p && not (is_current s p) && not (is_busy s p))) [
      | inl free ↦ unfold press_switch in rw (free, if◌then◌else◌) (switches free)
      | inr not_free ↦ unfold press_switch in rw (not_free, if◌then◌else◌) h
    ]
  where
    switches :
        (is_shown s p && not (is_current s p) && not (is_busy s p)) ≡ true
        → IsKept (handle_switch p s)
    switches free =
        let (there, other, idle) = free_row (is_shown s p) (is_current s p) (is_busy s p) free in
        let waits = idle_lem s p idle in
        elim (Bool-cases (is_current s p || is_pending s.selecting)) [
          | inl same ↦ unfold handle_switch in rw (same, if◌then◌else◌) h
          | inr new ↦
              unfold handle_switch in
              rw (new, if◌then◌else◌)
                (unfold IsKept in
                  (begins s.rows s.current s.switching_id s.deleting s.selecting p waits.0 waits.1
                      h).0
                    (unfold shown is_shown in there))
        ]

press_delete-IsKept :
    (p : Profile) (b : Bool) (s : Profiles) → IsKept s → IsKept (press_delete p b s)
unfolding state
press_delete-IsKept p b s h = elim (Bool-cases (can_delete s p && b)) [
  | inl free ↦ unfold press_delete in rw (free, if◌then◌else◌) (deletes free)
  | inr not_free ↦ unfold press_delete in rw (not_free, if◌then◌else◌) h
]
  where
    deletes : (can_delete s p && b) ≡ true → IsKept (record s { deleting = some p })
    deletes free =
        let (other, idle) = can_delete_lem s p b free in
        let waits = idle_lem s p idle in
        unfold IsKept in
        (begins s.rows s.current s.switching_id s.deleting s.selecting p waits.0 waits.1 h).1
          (unfold is_current in other)

step-IsKept : (event : Event) (s : Profiles) → IsKept s → IsKept (step event s)
unfolding step state
step-IsKept (switched p) s h = press_switch-IsKept p s h
step-IsKept (switch_settled b) s h =
    switch_answered_from s.rows s.current s.switching_id b s.deleting s.selecting h
step-IsKept (deleted p b) s h = press_delete-IsKept p b s h
step-IsKept (delete_settled b) s h =
    delete_answered_from s.rows s.current s.switching_id b s.deleting s.selecting h
step-IsKept (created p) s h =
    created_from s.rows s.current s.switching_id s.deleting s.selecting p h

run-keeps : (events : List Event) (s : Profiles) → IsKept s → IsKept (run events s)
unfolding run
run-keeps [] s h = h
run-keeps (event ∷ events) s h = run-keeps events (step event s) (step-IsKept event s h)

deleted_from :
    (rows : List Profile) (current : Profile) (deleting selecting : Option Profile) (p : Profile)
    → IsSafe rows current deleting selecting
    → deleting ≡ some p
    → profile_eq p current ≡ false
unfolding IsSafe
deleted_from rows current none selecting p h e = absurd (cc)
deleted_from rows current (some q) none p h e = subst (λ r. profile_eq r current ≡ false) (cc) h
deleted_from rows current (some q) (some r) p h e = absurd h

deleted_other :
    (s : Profiles) (p : Profile) → IsKept s → s.deleting ≡ some p → is_current s p ≡ false
deleted_other s p h e =
    unfold is_current in
    deleted_from s.rows s.current s.deleting s.selecting p (unfold IsKept in h.1) e

-- If the current profile is listed at first and no command waits, then whatever is pressed and in
-- whatever order the answers come, the current profile stays listed, so that a profile is left; and
-- what is being deleted is never the current profile.
pub run-IsKept :
    (events : List Event) (s : Profiles)
    → is_shown s s.current ≡ true
    → s.deleting ≡ none
    → s.selecting ≡ none
    → (is_shown (run events s) (run events s).current ≡ true)
      × ((p : Profile) → (run events s).deleting ≡ some p → is_current (run events s) p ≡ false)
run-IsKept events s h d l =
    let kept = run-keeps events s (start h d l) in
    (unfold IsKept is_shown shown in kept.0, λ p e. deleted_other (run events s) p kept e)
  where
    start : is_shown s s.current ≡ true → s.deleting ≡ none → s.selecting ≡ none → IsKept s
    start h d l = unfold IsKept is_shown shown in (h, rw (d, l) (unfold IsSafe in tt))
