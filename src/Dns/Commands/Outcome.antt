-- ===== src/Dns/Commands/Outcome.antt =====
-- What the user learns of a Namecheap command.
use nfx_edge.Common.{
  ◌≡◌, refl, sym, Text, Bool, true, false, not, ◌&&◌, ◌||◌, append-nil, Option, none, some, List,
  [], ◌∷◌, ◌++◌, arith, if◌then◌else◌, any,
}
use nfx_edge.Modal.Types.{ModalType, ModalState, success, error}
use nfx_edge.Modal.Store.{show_modal}
use nfx_edge.Modal.Helpers.{plain, show_error, show_success}
use nfx_edge.Modal.Slots.{opened, base_slot}
use nfx_edge.Query.{Event, invalidate_dns, dns, Key, is_stale}
use nfx_edge.Query.Stale.{in_domain, is_stale_lem}
use nfx_edge.Certs.{Env, command_message}
use nfx_edge.Dns.Commands.{
  Method, create_credential, update_credential, delete_credential, verify_credential, add_host,
  update_host, delete_host, preview_hosts, bulk_hosts, CommandResult, Reply, Answer, answered,
  thrown, World, emit_invalidate, show_report, on_success, settle,
}

abbrev pub is_answered : {method : Method} → Answer method → Bool
is_answered (answered reply) = true
is_answered (thrown message) = false

-- The one command that leaves the zone as it is.
abbrev pub is_preview : Method → Bool
is_preview preview_hosts = true
is_preview _ = false

-- The command result that a reply is, if it is one.
abbrev pub result_of : (method : Method) → Reply method → Option CommandResult
result_of create_credential reply = none
result_of update_credential reply = none
result_of delete_credential reply = some reply
result_of verify_credential reply = some reply
result_of add_host reply = some reply
result_of update_host reply = some reply
result_of delete_host reply = some reply
result_of preview_hosts reply = none
result_of bulk_hosts reply = none

-- Which dialog the user has to see, and its text.
abbrev pub verdict : Env → Option CommandResult → Option (ModalType × Text)
verdict env none = none
verdict env (some r) = some (if r.success then success else error, command_message env r.message [])

abbrev pub told : Env → (method : Method) → Answer method → Option (ModalType × Text)
told env method (answered reply) = verdict env (result_of method reply)
told env method (thrown message) = some (error, message)

-- The dialog is open with its text, or the dialogs are as they were.
pub Shows : Option (ModalType × Text) → ModalState → ModalState → Type 0
Shows none before after = after ≡ before
Shows (some (type, text)) before after =
    (opened after base_slot ≡ true)
    × (after.modal_type ≡ some type)
    × (after.base_modal.message ≡ some text)

-- The new events of a settled command, none or one that makes the DNS queries stale.
pub Stales : Bool → Key → List Event → List Event → Type 0
Stales b key before after =
    (new : List Event) × (after ≡ before ++ new)
    × (any (λ e. is_stale e key) new ≡ (b && in_domain dns key.family))

stale_all : (key : Key) (w : World) → Stales true key w.events (emit_invalidate w).events
unfolding Stales emit_invalidate
stale_all key w = (invalidate_dns none ∷ [], refl, or_nothing (is_stale_lem key key).0)
  where
    or_nothing : {a b : Bool} → a ≡ b → (a || false) ≡ (true && b)
    or_nothing q = ground (arith, q)

stale_none : (key : Key) (events : List Event) → Stales false key events events
unfolding Stales
stale_none key events = ([], sym (append-nil events), refl)

shown :
    (b : Bool) (text : Text) (modal : ModalState)
    → Shows
        (some (if b then success else error, text))
        modal
        (if b then show_success (plain text) modal else show_error text none modal)
unfolding Shows show_success show_error show_modal
shown true text modal = (refl, refl, refl)
shown false text modal = (refl, refl, refl)

-- A command without a result to report, and one with a result.
after_change :
    (env : Env) (key : Key) (w : World)
    → Stales true key w.events (emit_invalidate w).events
      × Shows (verdict env none) w.modal (emit_invalidate w).modal
unfolding emit_invalidate Shows
after_change env key w = (stale_all key w, refl)

after_report :
    (env : Env) (r : CommandResult) (key : Key) (w : World)
    → Stales true key w.events (emit_invalidate (show_report env r w)).events
      × Shows (verdict env (some r)) w.modal (emit_invalidate (show_report env r w)).modal
unfolding emit_invalidate show_report
after_report env r key w =
    (stale_all key w, shown r.success (command_message env r.message []) w.modal)

-- After a command the DNS queries are stale through it, and no other query is, if it was answered
-- and is no preview; otherwise no query is. If it threw, the error dialog is open with the text of
-- the exception; if it was answered with a command result, the success or the error dialog is, as
-- the result says, with the text of its message; otherwise the dialogs are as they were.
pub settle_lem :
    (env : Env) (method : Method) (a : Answer method) (w : World) (key : Key)
    → Stales (is_answered a && not (is_preview method)) key w.events (settle env method a w).events
      × Shows (told env method a) w.modal (settle env method a w).modal
unfolding settle on_success
settle_lem env method (thrown message) w key =
    (stale_none key w.events, shown false message w.modal)
settle_lem env create_credential (answered reply) w key = after_change env key w
settle_lem env update_credential (answered reply) w key = after_change env key w
settle_lem env delete_credential (answered reply) w key = after_report env reply key w
settle_lem env verify_credential (answered reply) w key = after_report env reply key w
settle_lem env add_host (answered reply) w key = after_report env reply key w
settle_lem env update_host (answered reply) w key = after_report env reply key w
settle_lem env delete_host (answered reply) w key = after_report env reply key w
settle_lem env preview_hosts (answered reply) w key =
    (stale_none key w.events, unfold Shows in refl)
settle_lem env bulk_hosts (answered reply) w key = after_change env key w
