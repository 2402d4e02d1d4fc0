-- ===== src/Certs.antt =====
-- Certificate commands of the console: the mutations of console/src/hooks/tls.ts and
-- console/src/hooks/file.ts, and console/src/utils/commandMessage.ts. The server answers by the calls
-- that it has got; the translations are a parameter.
pub mod Messages
pub mod Submit
pub mod Operate
pub mod Overwrite
pub mod Reapply
pub mod Prefill
mod Tests
use nfx_edge.Common.{
  ℕ, Text, codes, Bool, true, false, not, ◌&&◌, ◌||◌, Option, none, some, List, [], ◌∷◌, ◌++◌,
  if◌then◌else◌, text_eq, trim, or_else, truthy, is_empty,
}
use nfx_edge.Modal.Types.{ModalState}
use nfx_edge.Modal.Helpers.{show_error}
use nfx_edge.Query.{Key, tls_detail, Event, invalidate_tls, invalidate_directory}

pub record ApplyRequest : Type 0 where
  pub domain : Text
  pub email : Text
  pub sans : Option (List Text)
  pub folder_name : Option Text
  pub force_renewal : Option Bool

pub record CreateRequest : Type 0 where
  pub domain : Text
  pub certificate : Text
  pub private_key : Text
  pub sans : Option (List Text)
  pub folder_name : Option Text
  pub email : Option Text
  pub issuer : Option Text

pub record UpdateRequest : Type 0 where
  pub certificate_id : Text
  pub sans : Option (List Text)
  pub folder_name : Option Text
  pub email : Option Text

-- The calls of the repositories that change something.
pub data Call : Type 0 where
  apply : ApplyRequest → Call
  reapply : (certificate_id : Text) (force_renewal : Bool) → Call
  create : CreateRequest → Call
  update : UpdateRequest → Call
  delete : (certificate_id : Text) → Call
  export_single : (certificate_id : Text) → Call
  export_all : Call
  invalidate_cache : Call
  delete_path : (path : Text) → Call

-- `CertificateResponse`, the fields that the hooks read.
pub record Response : Type 0 where
  pub success : Bool
  pub message : Text
  pub rate_limit : Bool
  pub retry_after : Option Text

-- A call resolves with a response, or throws; then the text is what `getApiErrorMessage` makes of it.
pub data Answer : Type 0 where
  answered : Response → Answer
  thrown : Text → Answer

-- The closure that the open confirmation holds, by what it captured.
pub data Pending : Type 0 where
  overwrite : ApplyRequest → Pending
  reapplying : (certificate_id : Text) → Pending
  removing : (certificate_id : Text) → Pending
  removing_item : (certificate_id : Text) → Pending

pub record World : Type 0 where
  pub modal : ModalState
  pub pending : Option Pending
  pub navigated : List Text
  pub calls : List Call
  pub events : List Event

-- What the hooks read from outside: the translations of a key, alone and
-- (or the text written beside the key) with a domain put in, the two
-- names of bundles that nfx-ui fixes, and the server.
pub record Env : Type 0 where
  pub translate : Text → Text
  pub translate_for : Text → Text → Text
  pub messages_ns : Text
  pub errors_ns : Text
  pub bundle : Text → Text → Text
  pub server : List Call → Answer

-- `s.trim()` is not empty.
unfoldable pub present : Text → Bool
unfolding trim
present s = truthy (trim s)

-- `lookup`; the bundle gives the empty text, or the key, for what it does not have.
unfoldable pub lookup : Env → Text → Text → Text
unfolding present text_eq
lookup env ns key =
    let out = env.bundle ns key in
    if not (present out)
    then []
    else if text_eq out key || text_eq out (ns ++ codes ":" ++ key)
    then []
    else out

-- `getCommandMessage`
unfoldable pub command_message : Env → Text → Text → Text
unfolding lookup present trim
command_message env code fallback =
    let key = trim code in
    let body = lookup env env.messages_ns (key ++ codes ".body") in
    let title = lookup env env.messages_ns (key ++ codes ".title") in
    let err = lookup env env.errors_ns key in
    if not (present code) then fallback else or_else body (or_else title (or_else err fallback))

unfoldable pub send : Call → World → World
send call w = record w { calls = w.calls ++ call ∷ [] }

unfoldable pub emit : Event → World → World
emit event w = record w { events = w.events ++ event ∷ [] }

unfoldable pub fail : Text → World → World
unfolding show_error
fail message w = record w { modal = show_error message none w.modal }

-- `invalidateServerTlsCacheAfterIssueSuccess`; what its call answers makes no difference.
unfoldable pub invalidate_after_success : Response → World → World
unfolding send
invalidate_after_success response w = if response.success then send invalidate_cache w else w

-- What `onSuccess` of the mutation of a call does.
unfoldable pub on_success : Call → Response → World → World
unfolding invalidate_after_success emit
on_success (apply request) response w =
    emit (invalidate_tls none) (invalidate_after_success response w)
on_success (reapply id force) response w =
    emit (invalidate_tls none) (invalidate_after_success response w)
on_success (create request) response w = emit (invalidate_tls none) w
on_success (update request) response w =
    emit
      (invalidate_tls (
        if truthy request.certificate_id
        then some (record { family = tls_detail; item = request.certificate_id })
        else none))
      w
on_success (delete id) response w = emit (invalidate_tls none) w
on_success (export_single id) response w = emit invalidate_directory w
on_success export_all response w = emit invalidate_directory (emit (invalidate_tls none) w)
on_success invalidate_cache response w = emit (invalidate_tls none) w
on_success (delete_path path) response w = emit invalidate_directory w

unfoldable pub settle : Call → Answer → World → World
unfolding on_success fail
settle call (answered response) w = on_success call response w
settle call (thrown message) w = fail message w

-- `mutateAsync`: the answer, and the world once the mutation has settled.
unfoldable pub mutate : Env → Call → World → Answer × World
unfolding send settle
mutate env call w =
    let answer = env.server (w.calls ++ call ∷ []) in (answer, settle call answer (send call w))
