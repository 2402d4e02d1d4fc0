-- ===== src/Modal/Dialogs.antt =====
-- The dialog components that read the store: console/src/providers/ModalProvider/components, Base
-- and ConfirmModal. A callback is known by its number: a handler returns those that it calls.
use nfx_edge.Common.{
  ◌≡◌, ap, ◌∙◌, ◌≢◌, ◌↔◌, Bool, true, false, Option, none, some, [], ◌∷◌, arith, Text, ltb, length,
  includes, ◌||◌,
}
use nfx_edge.Modal.Types.{Handler, ModalType, success, error, info, confirm, Props, ModalState}
use nfx_edge.Modal.Store.{show_modal, hide_modal}
use nfx_edge.Modal.Slots.{base_slot, slot_of, opened, Agree}

abbrev value_or {ℓ} : {A : Type ℓ} → Option A → A → A
value_or (some a) d = a
value_or none d = d

-- `state.baseModal.variant ?? state.modalType ?? "info"`
unfoldable pub shown_variant : ModalState → ModalType
shown_variant s = elim s.base_modal.variant [ some t ↦ t | none ↦ value_or s.modal_type info ]

pub data Tone : Type 0 where
  green red accent : Tone

-- `TYPE_CONFIG[variant] ?? TYPE_CONFIG.info`, its tone
unfoldable pub tone_of : ModalType → Tone
tone_of success = green
tone_of error = red
tone_of _ = accent

unfoldable pub is_long_message : Option Text → Bool
is_long_message none = false
is_long_message (some m) = ltb 180 (length m) || includes m (b'\n' ∷ [])

-- `handleClose` of Base: the store afterwards, and the callback that is called.
unfoldable pub close_base : ModalState → ModalState × Option Handler
unfolding shown_variant hide_modal
close_base s = (hide_modal (some (shown_variant s)) s, s.base_modal.on_click)

-- A call of `onConfirm`: the callback, and the options that it is given.
pub record ConfirmCall : Type 0 where
  pub callback : Handler
  pub force_renewal : Option Bool

-- What the body of a callback does to the store before it first waits.
abbrev pub Body : Type 0
Body = Handler → ModalState → ModalState

run_callback : Body → Option Handler → ModalState → ModalState
run_callback body none s = s
run_callback body (some h) s = body h s

-- `handleConfirm` of ConfirmModal, with the state of its switch.
unfoldable pub confirm_call : Bool → ModalState → Option ConfirmCall
confirm_call checked s = elim s.confirm_modal.on_confirm [
  | none ↦ none
  | some h ↦ elim s.confirm_modal.force_renewal_option [
    | some option ↦ some (record { callback = h; force_renewal = some checked })
    | none ↦ some (record { callback = h; force_renewal = none })
  ]
]

unfoldable pub handle_confirm : Body → ModalState → ModalState
unfolding run_callback hide_modal
handle_confirm body s = hide_modal (some confirm) (run_callback body s.confirm_modal.on_confirm s)

unfoldable pub handle_cancel : Body → ModalState → ModalState
unfolding run_callback hide_modal
handle_cancel body s = hide_modal (some confirm) (run_callback body s.confirm_modal.on_cancel s)

-- Closing the message dialog closes it exactly when the variant that it shows is one of its own
-- three types; the callback of the dialog is called either way.
close_base_iff :
    (s : ModalState)
    → s.base_modal.is_open ≡ true
    → (opened (close_base s).0 base_slot ≡ false) ↔ (slot_of (shown_variant s) ≡ base_slot)
unfolding close_base
close_base_iff s h = go (shown_variant s)
  where
    go :
        (t : ModalType)
        → (opened (hide_modal (some t) s) base_slot ≡ false) ↔ (slot_of t ≡ base_slot)
    go success = ground arith
    go t = ground arith

hide_other :
    (u : ModalType) (s : ModalState)
    → slot_of u ≢ base_slot
    → (shown_variant (hide_modal (some u) s) ≡ value_or s.base_modal.variant info)
      × Agree base_slot s (hide_modal (some u) s)
unfolding shown_variant hide_modal
hide_other success s h = ground arith
hide_other u s h = ground arith

show_base :
    (t : ModalType) (p : Props) (s : ModalState)
    → slot_of t ≡ base_slot
    → p.variant ≡ none
    → (shown_variant (show_modal t p s) ≡ t)
      × ((show_modal t p s).base_modal.is_open ≡ true)
      × ((show_modal t p s).base_modal.variant ≡ none)
unfolding shown_variant show_modal
show_base success p s h v = ground arith
show_base t p s h v = ground arith

-- A message dialog that gave no variant of its own shows as its type right after `showModal`, and
-- shows as "info" as soon as another dialog is hidden, though it stays open with the same props.
pub hide-shown_variant :
    (t u : ModalType) (p : Props) (s : ModalState)
    → slot_of t ≡ base_slot
    → slot_of u ≢ base_slot
    → p.variant ≡ none
    → (shown_variant (show_modal t p s) ≡ t)
      × (shown_variant (hide_modal (some u) (show_modal t p s)) ≡ info)
      × Agree base_slot (show_modal t p s) (hide_modal (some u) (show_modal t p s))
      × (opened (show_modal t p s) base_slot ≡ true)
hide-shown_variant t u p s h k v =
    let (shown, is_open, bare) = show_base t p s h v in
    let (after, same) = hide_other u (show_modal t p s) k in
    (shown, after ∙ ap (λ o. value_or o info) bare, same, is_open)
