-- ===== src/Modal/Slots.antt =====
-- The six dialogs of the store as slots: which slot an action of console/src/stores/modal.ts
-- opens or closes, and what it leaves alone.
use nfx_edge.Common.{◌≡◌, Bool, true, false}
use nfx_edge.Modal.Types.{
  ModalType, success, error, info, confirm, search, loading, file, tooltip, ModalState,
  initial_state,
}

pub data Slot : Type 0 where
  base_slot confirm_slot search_slot loading_slot file_slot tooltip_slot : Slot

abbrev pub slot_of : ModalType → Slot
slot_of success = base_slot
slot_of error = base_slot
slot_of info = base_slot
slot_of confirm = confirm_slot
slot_of search = search_slot
slot_of loading = loading_slot
slot_of file = file_slot
slot_of tooltip = tooltip_slot

abbrev pub slot_eq : Slot → Slot → Bool
slot_eq base_slot base_slot = true
slot_eq confirm_slot confirm_slot = true
slot_eq search_slot search_slot = true
slot_eq loading_slot loading_slot = true
slot_eq file_slot file_slot = true
slot_eq tooltip_slot tooltip_slot = true
slot_eq _ _ = false

-- The abstract view of the store: which dialogs are open.
abbrev pub opened : ModalState → Slot → Bool
opened s base_slot = s.base_modal.is_open
opened s confirm_slot = s.confirm_modal.is_open
opened s search_slot = s.search_modal.is_open
opened s loading_slot = s.loading_modal.is_open
opened s file_slot = s.file_modal.is_open
opened s tooltip_slot = s.tooltip_modal.is_open

-- Two states hold the same props in a slot.
abbrev pub Agree : Slot → ModalState → ModalState → Type 0
Agree base_slot s t = s.base_modal ≡ t.base_modal
Agree confirm_slot s t = s.confirm_modal ≡ t.confirm_modal
Agree search_slot s t = s.search_modal ≡ t.search_modal
Agree loading_slot s t = s.loading_modal ≡ t.loading_modal
Agree file_slot s t = s.file_modal ≡ t.file_modal
Agree tooltip_slot s t = s.tooltip_modal ≡ t.tooltip_modal

-- A slot that is not open holds its default props, as in the initial state.
abbrev pub IsTidyAt : Slot → ModalState → Type 0
IsTidyAt k s = opened s k ≡ false → Agree k s initial_state
