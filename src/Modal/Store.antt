-- ===== src/Modal/Store.antt =====
-- The actions of `ModalStore` in console/src/stores/modal.ts. `set` merges the fields that it is
-- given into the state, so an action is a record update.
use nfx_edge.Common.{true, Option, none, some}
use nfx_edge.Modal.Types.{
  ModalType, success, error, info, confirm, search, loading, file, tooltip, BaseModalProps,
  ConfirmModalProps, SearchModalProps, LoadingModalProps, FileModalProps, TooltipModalProps, Props,
  ModalState, default_base_modal_props, default_confirm_modal_props, default_search_modal_props,
  default_loading_modal_props, default_file_modal_props, default_tooltip_modal_props,
}

-- `{ isOpen: true, ...restProps }` for each props type: a field that the caller leaves out is
-- undefined, it does not get its default.
abbrev pub open_base : Props → BaseModalProps
open_base p = record {
  is_open = true;
  message = p.message;
  title = p.title;
  confirm_text = p.confirm_text;
  on_click = p.on_click;
  variant = p.variant;
}

abbrev pub open_confirm : Props → ConfirmModalProps
open_confirm p = record {
  is_open = true;
  message = p.message;
  title = p.title;
  on_confirm = p.on_confirm;
  on_cancel = p.on_cancel;
  confirm_text = p.confirm_text;
  cancel_text = p.cancel_text;
  force_renewal_option = p.force_renewal_option;
}

abbrev pub open_search : Props → SearchModalProps
open_search p = record { is_open = true; title = p.title }

abbrev pub open_loading : Props → LoadingModalProps
open_loading p = record { is_open = true; message = p.message; title = p.title }

abbrev pub open_file : Props → FileModalProps
open_file p = record {
  is_open = true;
  store = p.store;
  folder_path = p.folder_path;
  folder_name = p.folder_name;
  file_path = p.file_path;
  file_name = p.file_name;
}

abbrev pub open_tooltip : Props → TooltipModalProps
open_tooltip p = record {
  is_open = true;
  message = p.message;
  error_time = p.error_time;
  position = p.position;
}

unfoldable pub show_modal : ModalType → Props → ModalState → ModalState
show_modal success p s = record s { modal_type = some success; base_modal = open_base p }
show_modal error p s = record s { modal_type = some error; base_modal = open_base p }
show_modal info p s = record s { modal_type = some info; base_modal = open_base p }
show_modal confirm p s = record s { modal_type = some confirm; confirm_modal = open_confirm p }
show_modal search p s = record s { modal_type = some search; search_modal = open_search p }
show_modal loading p s = record s { modal_type = some loading; loading_modal = open_loading p }
show_modal file p s = record s { modal_type = some file; file_modal = open_file p }
show_modal tooltip p s = record s { modal_type = some tooltip; tooltip_modal = open_tooltip p }

unfoldable pub show_file_modal : Props → ModalState → ModalState
show_file_modal p s = record s { modal_type = some file; file_modal = open_file p }

unfoldable pub show_tooltip_modal : Props → ModalState → ModalState
show_tooltip_modal p s = record s { modal_type = some tooltip; tooltip_modal = open_tooltip p }

unfoldable pub hide_modal : Option ModalType → ModalState → ModalState
hide_modal none s = record {
  modal_type = none;
  base_modal = default_base_modal_props;
  confirm_modal = default_confirm_modal_props;
  search_modal = default_search_modal_props;
  loading_modal = default_loading_modal_props;
  file_modal = default_file_modal_props;
  tooltip_modal = default_tooltip_modal_props;
}
hide_modal (some success) s = record s { modal_type = none; base_modal = default_base_modal_props }
hide_modal (some error) s = record s { modal_type = none; base_modal = default_base_modal_props }
hide_modal (some info) s = record s { modal_type = none; base_modal = default_base_modal_props }
hide_modal (some confirm) s = record s {
  modal_type = none;
  confirm_modal = default_confirm_modal_props;
}
hide_modal (some search) s = record s {
  modal_type = none;
  search_modal = default_search_modal_props;
}
hide_modal (some loading) s = record s {
  modal_type = none;
  loading_modal = default_loading_modal_props;
}
hide_modal (some file) s = record s { modal_type = none; file_modal = default_file_modal_props }
hide_modal (some tooltip) s = record s {
  modal_type = none;
  tooltip_modal = default_tooltip_modal_props;
}
