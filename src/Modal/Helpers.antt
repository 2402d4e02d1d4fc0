-- ===== src/Modal/Helpers.antt =====
-- The exported helpers of console/src/stores/modal.ts, which call the store's actions.
use nfx_edge.Common.{Text, Option, some}
use nfx_edge.Modal.Types.{
  Handler, ForceRenewalOption, Position, success, error, info, confirm, search, loading, tooltip,
  no_props, ModalState,
}
use nfx_edge.Modal.Store.{show_modal, show_tooltip_modal, hide_modal}

unfoldable pub show_info : Text → Option Text → ModalState → ModalState
unfolding show_modal
show_info message title =
    show_modal info (record no_props { message = some message; title = title })

-- The argument of `showSuccess`: a text, or an object.
pub data SuccessArg : Type 0 where
  plain : Text → SuccessArg
  full : (message : Text) (title : Option Text) (on_click : Option Handler) → SuccessArg

unfoldable pub show_success : SuccessArg → ModalState → ModalState
unfolding show_modal
show_success (plain m) = show_modal success (record no_props { message = some m })
show_success (full m t h) =
    show_modal success (record no_props { message = some m; title = t; on_click = h })

unfoldable pub show_error : Text → Option Text → ModalState → ModalState
unfolding show_modal
show_error message title =
    show_modal error (record no_props { message = some message; title = title })

pub record ShowConfirmProps : Type 0 where
  pub message : Text
  pub on_confirm : Handler
  pub on_cancel : Option Handler
  pub title : Option Text
  pub confirm_text : Option Text
  pub cancel_text : Option Text
  pub force_renewal_option : Option ForceRenewalOption

unfoldable pub show_confirm : ShowConfirmProps → ModalState → ModalState
unfolding show_modal
show_confirm p = show_modal confirm (record no_props {
  message = some p.message;
  title = p.title;
  on_confirm = some p.on_confirm;
  on_cancel = p.on_cancel;
  confirm_text = p.confirm_text;
  cancel_text = p.cancel_text;
  force_renewal_option = p.force_renewal_option;
})

unfoldable pub show_search : ModalState → ModalState
unfolding show_modal
show_search = show_modal search no_props

-- The two optional fields of `ShowLoadingProps`; `props?.` reads both as undefined if none is given.
unfoldable pub show_loading : Option Text → Option Text → ModalState → ModalState
unfolding show_modal
show_loading message title =
    show_modal loading (record no_props { message = message; title = title })

unfoldable pub hide_loading : ModalState → ModalState
unfolding hide_modal
hide_loading = hide_modal (some loading)

unfoldable pub show_tooltip : Text → Option Text → Position → ModalState → ModalState
unfolding show_tooltip_modal
show_tooltip message error_time position =
    show_tooltip_modal (record no_props {
      message = some message;
      error_time = error_time;
      position = some position;
    })

unfoldable pub hide_tooltip : ModalState → ModalState
unfolding hide_modal
hide_tooltip = hide_modal (some tooltip)
