-- ===== src/Modal/Tests.antt =====
-- Runs of the modal store, and the theorems of this component at concrete states.
use nfx_edge.Common.{◌≡◌, refl, true, none, some, List, [], ◌∷◌, codes}
use nfx_edge.Modal.Types.{error, info, loading, ModalState, Props, no_props, initial_state}
use nfx_edge.Modal.Store.{show_modal, hide_modal}
use nfx_edge.Modal.Helpers.{show_error, hide_loading}
use nfx_edge.Modal.Slots.{opened, base_slot, Agree}
use nfx_edge.Modal.Refinement.{Action, show, hide, run, run_open, run-opened, IsTidy, run-IsTidy}
use nfx_edge.Modal.Dialogs.{shown_variant, hide-shown_variant}

abbrev failed : Props
failed = record no_props { message = some (codes "failed") }

abbrev history : List Action
history = show loading no_props ∷ show error failed ∷ hide (some loading) ∷ []

abbrev error_open : ModalState
error_open = show_modal error failed initial_state

-- `finally { hideModal("loading") }` after `showError`, as in useOperationCertificate.ts.
reapply_shows_info :
    shown_variant (hide_loading (show_error (codes "failed") none initial_state)) ≡ info
unfolding shown_variant hide_loading show_error
reapply_shows_info = refl

run-opened_example : opened (run history initial_state) ≡ run_open history (opened initial_state)
run-opened_example = run-opened history initial_state

run-IsTidy_example : IsTidy (run history initial_state)
run-IsTidy_example = run-IsTidy history

hide-shown_variant_example :
    (shown_variant (show_modal error failed initial_state) ≡ error)
    × (shown_variant (hide_modal (some loading) (show_modal error failed initial_state)) ≡ info)
    × Agree base_slot
        (show_modal error failed initial_state)
        (hide_modal (some loading) (show_modal error failed initial_state))
    × (opened (show_modal error failed initial_state) base_slot ≡ true)
hide-shown_variant_example = hide-shown_variant error loading failed initial_state refl (cc) refl
