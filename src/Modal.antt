-- ===== src/Modal.antt =====
-- The console's modal dialogs: console/src/stores/modal.ts, and the dialog components of
-- console/src/providers/ModalProvider that read the store.
pub mod Types
pub mod Store
pub mod Helpers
pub mod Slots
pub mod Refinement
pub mod Dialogs
mod Tests
