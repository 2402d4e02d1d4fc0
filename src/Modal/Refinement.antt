-- ===== src/Modal/Refinement.antt =====
-- The modal store against its abstract view, the set of open dialogs: each action of
-- console/src/stores/modal.ts on its own, and any history of actions.
use nfx_edge.Common.{
  ◌≡◌, refl, fun_ext, ◌≢◌, Bool, true, false, Option, none, some, List, [], ◌∷◌, arith,
  if◌then◌else◌,
}
use nfx_edge.Modal.Types.{ModalType, success, file, tooltip, Props, ModalState, initial_state}
use nfx_edge.Modal.Store.{show_modal, show_file_modal, show_tooltip_modal, hide_modal}
use nfx_edge.Modal.Slots.{
  Slot, base_slot, confirm_slot, search_slot, loading_slot, file_slot, tooltip_slot, slot_of,
  slot_eq, opened, Agree, IsTidyAt,
}

-- A call of one of the store's four actions.
pub data Action : Type 0 where
  show : ModalType → Props → Action
  show_file : Props → Action
  show_tooltip : Props → Action
  hide : Option ModalType → Action

unfoldable pub step : Action → ModalState → ModalState
unfolding show_modal show_file_modal show_tooltip_modal hide_modal
step (show t p) = show_modal t p
step (show_file p) = show_file_modal p
step (show_tooltip p) = show_tooltip_modal p
step (hide t) = hide_modal t

unfoldable pub run : List Action → ModalState → ModalState
unfolding step
run [] s = s
run (a ∷ rest) s = run rest (step a s)

-- What an action does to the set of open dialogs.
abbrev pub put : Slot → Bool → (Slot → Bool) → Slot → Bool
put k b open_set j = if slot_eq k j then b else open_set j

abbrev pub step_open : Action → (Slot → Bool) → Slot → Bool
step_open (show t p) = put (slot_of t) true
step_open (show_file p) = put file_slot true
step_open (show_tooltip p) = put tooltip_slot true
step_open (hide none) = λ open_set j. false
step_open (hide (some t)) = put (slot_of t) false

abbrev pub run_open : List Action → (Slot → Bool) → Slot → Bool
run_open [] open_set = open_set
run_open (a ∷ rest) open_set = run_open rest (step_open a open_set)

show-opened :
    (t : ModalType) (p : Props) (s : ModalState) (k : Slot)
    → opened (show_modal t p s) k ≡ put (slot_of t) true (opened s) k
unfolding show_modal
show-opened success p s k = ground arith
show-opened t p s k = ground arith

hide-opened :
    (t : ModalType) (s : ModalState) (k : Slot)
    → opened (hide_modal (some t) s) k ≡ put (slot_of t) false (opened s) k
unfolding hide_modal
hide-opened success s k = ground arith
hide-opened t s k = ground arith

step-opened :
    (a : Action) (s : ModalState) (k : Slot) → opened (step a s) k ≡ step_open a (opened s) k
unfolding step
step-opened (show t p) s k = show-opened t p s k
step-opened (show_file p) s k = show-opened file p s k
step-opened (show_tooltip p) s k = show-opened tooltip p s k
step-opened (hide none) s k = ground arith
step-opened (hide (some t)) s k = hide-opened t s k

-- Every history of actions opens and closes exactly the dialogs that the abstract view says:
-- showing a type opens its slot, hiding a type closes its slot, and hiding with no type closes all.
pub run-opened :
    (actions : List Action) (s : ModalState) → opened (run actions s) ≡ run_open actions (opened s)
unfolding run
run-opened [] s = refl
run-opened (a ∷ rest) s = rw (run-opened rest (step a s), fun_ext (step-opened a s))

-- An action leaves the props of every other dialog as they were: showing a type changes only the
-- slot of that type, and so does hiding a type.
step-Agree :
    (t : ModalType) (p : Props) (s : ModalState) (k : Slot)
    → slot_of t ≢ k
    → Agree k s (show_modal t p s) × Agree k s (hide_modal (some t) s)
unfolding show_modal hide_modal
step-Agree success p s k h = ground arith
step-Agree t p s k h = ground arith

abbrev pub IsTidy : ModalState → Type 0
IsTidy s = (k : Slot) → IsTidyAt k s

show-IsTidy : (t : ModalType) (p : Props) (s : ModalState) → IsTidy s → IsTidy (show_modal t p s)
unfolding show_modal
show-IsTidy success p s h k = ground (arith, h k)
show-IsTidy t p s h k = ground (arith, h k)

hide-IsTidy : (t : Option ModalType) (s : ModalState) → IsTidy s → IsTidy (hide_modal t s)
unfolding hide_modal
hide-IsTidy none s h k = ground (arith, h k)
hide-IsTidy (some success) s h k = ground (arith, h k)
hide-IsTidy (some t) s h k = ground (arith, h k)

step-IsTidy : (a : Action) (s : ModalState) → IsTidy s → IsTidy (step a s)
unfolding step
step-IsTidy (show t p) s h = show-IsTidy t p s h
step-IsTidy (show_file p) s h = show-IsTidy file p s h
step-IsTidy (show_tooltip p) s h = show-IsTidy tooltip p s h
step-IsTidy (hide t) s h = hide-IsTidy t s h

run_from-IsTidy : (actions : List Action) (s : ModalState) → IsTidy s → IsTidy (run actions s)
unfolding run
run_from-IsTidy [] s h = h
run_from-IsTidy (a ∷ rest) s h = run_from-IsTidy rest (step a s) (step-IsTidy a s h)

-- Whatever actions were called from the initial state on, a dialog that is not open holds its
-- default props: no message, callback or file of an earlier use is left in it.
pub run-IsTidy : (actions : List Action) → IsTidy (run actions initial_state)
run-IsTidy actions = run_from-IsTidy actions initial_state (λ k h. initial k)
  where
    initial : (k : Slot) → Agree k initial_state initial_state
    initial base_slot = refl
    initial confirm_slot = refl
    initial search_slot = refl
    initial loading_slot = refl
    initial file_slot = refl
    initial tooltip_slot = refl
