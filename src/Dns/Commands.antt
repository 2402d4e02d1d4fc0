-- ===== src/Dns/Commands.antt =====
-- The mutations of Namecheap credentials and hosts in console/src/hooks/dns.ts: what they show and
-- which queries they make stale. The payload of a call makes no difference to either, so that a call
-- is its method.
pub mod Outcome
mod Tests
use nfx_edge.Common.{
  Text, Bool, true, false, Option, none, some, List, [], ◌∷◌, ◌++◌, if◌then◌else◌,
}
use nfx_edge.Modal.Types.{ModalState}
use nfx_edge.Modal.Helpers.{plain, show_error, show_success}
use nfx_edge.Query.{Event, invalidate_dns}
use nfx_edge.Certs.{Env, command_message}

pub data Method : Type 0 where
  create_credential update_credential delete_credential verify_credential : Method
  add_host update_host delete_host preview_hosts bulk_hosts : Method

-- `DnsCommandResult`
pub record CommandResult : Type 0 where
  pub success : Bool
  pub message : Text

-- What the server resolves with, by the types of `DnsRepository`: a credential and the result of a
-- bulk request are left out, since no handler reads them.
abbrev pub Reply : Method → Type 0
Reply create_credential = Unit
Reply update_credential = Unit
Reply delete_credential = CommandResult
Reply verify_credential = CommandResult
Reply add_host = CommandResult
Reply update_host = CommandResult
Reply delete_host = CommandResult
Reply preview_hosts = Unit
Reply bulk_hosts = Unit

-- The server resolves, or the call throws; then the text is what `getApiErrorMessage` makes of it.
pub data Answer (method : Method) : Type 0 where
  answered : Reply method → Answer method
  thrown : Text → Answer method

pub record World : Type 0 where
  pub modal : ModalState
  pub events : List Event

-- `dnsEventEmitter.invalidateDns()`
unfoldable pub emit_invalidate : World → World
emit_invalidate w = record w { events = w.events ++ invalidate_dns none ∷ [] }

-- `if (data.success) showSuccess(...) else showError(...)`
unfoldable pub show_report : Env → CommandResult → World → World
unfolding show_success show_error command_message
show_report env data' w = record w {
  modal =
      if data'.success
      then show_success (plain (command_message env data'.message [])) w.modal
      else show_error (command_message env data'.message []) none w.modal;
}

-- The `onSuccess` of each hook; the preview has none.
unfoldable pub on_success : Env → (method : Method) → Reply method → World → World
unfolding emit_invalidate show_report
on_success env create_credential reply w = emit_invalidate w
on_success env update_credential reply w = emit_invalidate w
on_success env delete_credential reply w = emit_invalidate (show_report env reply w)
on_success env verify_credential reply w = emit_invalidate (show_report env reply w)
on_success env add_host reply w = emit_invalidate (show_report env reply w)
on_success env update_host reply w = emit_invalidate (show_report env reply w)
on_success env delete_host reply w = emit_invalidate (show_report env reply w)
on_success env preview_hosts reply w = w
on_success env bulk_hosts reply w = emit_invalidate w

unfoldable pub settle : Env → (method : Method) → Answer method → World → World
unfolding on_success show_error
settle env method (thrown message) w = record w { modal = show_error message none w.modal }
settle env method (answered reply) w = on_success env method reply w
