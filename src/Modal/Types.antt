-- ===== src/Modal/Types.antt =====
-- The data of console/src/stores/modal.ts: modal types, the props of each dialog, the state of the
-- store and its default props. A closure is known by a number, `Handler`.
use nfx_edge.Common.{ℕ, Text, codes, Bool, false, Option, none, some}

abbrev pub Handler : Type 0
Handler = ℕ

pub data ModalType : Type 0 where
  success error info confirm search loading file tooltip : ModalType

pub record ForceRenewalOption : Type 0 where
  pub label : Text
  pub default_checked : Option Bool

pub record Position : Type 0 where
  pub x : ℕ
  pub y : ℕ

pub record BaseModalProps : Type 0 where
  pub is_open : Bool
  pub message : Option Text
  pub title : Option Text
  pub confirm_text : Option Text
  pub on_click : Option Handler
  pub variant : Option ModalType

pub record ConfirmModalProps : Type 0 where
  pub is_open : Bool
  pub message : Option Text
  pub title : Option Text
  pub on_confirm : Option Handler
  pub on_cancel : Option Handler
  pub confirm_text : Option Text
  pub cancel_text : Option Text
  pub force_renewal_option : Option ForceRenewalOption

pub record SearchModalProps : Type 0 where
  pub is_open : Bool
  pub title : Option Text

pub record LoadingModalProps : Type 0 where
  pub is_open : Bool
  pub message : Option Text
  pub title : Option Text

pub record FileModalProps : Type 0 where
  pub is_open : Bool
  pub store : Option Text
  pub folder_path : Option Text
  pub folder_name : Option Text
  pub file_path : Option Text
  pub file_name : Option Text

pub record TooltipModalProps : Type 0 where
  pub is_open : Bool
  pub message : Option Text
  pub error_time : Option Text
  pub position : Option Position

-- The object that a caller hands to `showModal`: the fields of all the props types, each of which
-- may be missing. A cast to one of the types keeps the fields that the type declares.
pub record Props : Type 0 where
  pub message : Option Text
  pub title : Option Text
  pub confirm_text : Option Text
  pub cancel_text : Option Text
  pub on_click : Option Handler
  pub on_confirm : Option Handler
  pub on_cancel : Option Handler
  pub variant : Option ModalType
  pub force_renewal_option : Option ForceRenewalOption
  pub store : Option Text
  pub folder_path : Option Text
  pub folder_name : Option Text
  pub file_path : Option Text
  pub file_name : Option Text
  pub error_time : Option Text
  pub position : Option Position

abbrev pub no_props : Props
no_props = record {
  message = none;
  title = none;
  confirm_text = none;
  cancel_text = none;
  on_click = none;
  on_confirm = none;
  on_cancel = none;
  variant = none;
  force_renewal_option = none;
  store = none;
  folder_path = none;
  folder_name = none;
  file_path = none;
  file_name = none;
  error_time = none;
  position = none;
}

-- `modalType` is `undefined` after a dialog was hidden.
pub record ModalState : Type 0 where
  pub modal_type : Option ModalType
  pub base_modal : BaseModalProps
  pub confirm_modal : ConfirmModalProps
  pub search_modal : SearchModalProps
  pub loading_modal : LoadingModalProps
  pub file_modal : FileModalProps
  pub tooltip_modal : TooltipModalProps

abbrev pub default_base_modal_props : BaseModalProps
default_base_modal_props = record {
  is_open = false;
  message = some (codes "No message");
  title = some (codes "No title");
  confirm_text = some (codes "Confirm");
  on_click = none;
  variant = none;
}

abbrev pub default_confirm_modal_props : ConfirmModalProps
default_confirm_modal_props = record {
  is_open = false;
  message = some (codes "");
  title = none;
  on_confirm = none;
  on_cancel = none;
  confirm_text = some (codes "Confirm");
  cancel_text = some (codes "Cancel");
  force_renewal_option = none;
}

abbrev pub default_search_modal_props : SearchModalProps
default_search_modal_props = record { is_open = false; title = some (codes "Search") }

abbrev pub default_loading_modal_props : LoadingModalProps
default_loading_modal_props = record { is_open = false; message = none; title = none }

abbrev pub default_file_modal_props : FileModalProps
default_file_modal_props = record {
  is_open = false;
  store = none;
  folder_path = none;
  folder_name = none;
  file_path = none;
  file_name = none;
}

abbrev pub default_tooltip_modal_props : TooltipModalProps
default_tooltip_modal_props = record {
  is_open = false;
  message = none;
  error_time = none;
  position = none;
}

-- The state that `createStore` starts from.
abbrev pub initial_state : ModalState
initial_state = record {
  modal_type = some info;
  base_modal = default_base_modal_props;
  confirm_modal = default_confirm_modal_props;
  search_modal = default_search_modal_props;
  loading_modal = default_loading_modal_props;
  file_modal = default_file_modal_props;
  tooltip_modal = default_tooltip_modal_props;
}
