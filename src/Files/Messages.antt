-- ===== src/Files/Messages.antt =====
-- What the page of files shows after a deletion and after an export: `handleDelete` and
-- `handleExportAll` of console/src/pages/FileFolder/index.tsx.
use nfx_edge.Common.{
  ◌≡◌, refl, Text, Bool, true, false, none, some, List, [], ◌∷◌, ◌++◌, append-nil, sym, ◌∙◌,
  append_assoc, if◌then◌else◌,
}
use nfx_edge.Modal.Types.{ModalType, success, error}
use nfx_edge.Modal.Store.{show_modal}
use nfx_edge.Modal.Helpers.{show_error, show_success}
use nfx_edge.Modal.Slots.{opened, base_slot}
use nfx_edge.Query.{Event, invalidate_directory, invalidate_tls}
use nfx_edge.Certs.{
  Call, Response, Answer, answered, thrown, World, Env, delete_path, export_all, send, emit, fail,
  command_message, on_success, settle, mutate,
}
use nfx_edge.Certs.Submit.{succeed}
use nfx_edge.Files.{FileItem, show_outcome, delete_confirmed, handle_export_all}

-- Which dialog tells of an answer.
abbrev pub outcome_type : Answer → ModalType
outcome_type (answered response) = if response.success then success else error
outcome_type (thrown message) = error

-- The events of a mutation that emits these once it is answered.
abbrev pub events_after : Answer → List Event → List Event
events_after (answered response) events = events
events_after (thrown message) events = []

-- A dialog of the type is open, and these calls and events were made.
pub Ends : ModalType → List Call → List Event → World → Type 0
Ends t calls events w =
    (opened w.modal base_slot ≡ true)
    × (w.modal.modal_type ≡ some t)
    × (w.calls ≡ calls)
    × (w.events ≡ events)

message-Ends :
    (b : Bool) (ok failed : Text) (w : World)
    → Ends
        (if b then success else error)
        w.calls
        w.events
        (if b then succeed ok w else fail failed w)
unfolding Ends succeed show_success show_modal fail show_error
message-Ends true ok failed w = (refl, refl, refl, refl)
message-Ends false ok failed w = (refl, refl, refl, refl)

module _ (env : Env) (api_error : Text → Text → Text) (ok failed : Text) where
  show_outcome-Ends :
      (a : Answer) (w : World)
      → Ends (outcome_type a) w.calls w.events (show_outcome env api_error ok failed a w)
  unfolding show_outcome
  show_outcome-Ends (thrown message) w = message-Ends false [] (api_error message failed) w
  show_outcome-Ends (answered response) w =
      message-Ends response.success (command_message env response.message ok)
        (command_message env response.message failed) w

  -- A command whose success makes no call of its own and emits the events.
  command-Ends :
      (call : Call) (events : List Event)
      → ((response : Response) (v : World)
          → ((on_success call response v).calls ≡ v.calls)
            × ((on_success call response v).events ≡ v.events ++ events))
      → (a : Answer) (w : World)
      → Ends
          (outcome_type a)
          (w.calls ++ call ∷ [])
          (w.events ++ events_after a events)
          (show_outcome env api_error ok failed a (settle call a (send call w)))
  command-Ends call events emits (thrown message) w =
      let end = show_outcome-Ends (thrown message) (settle call (thrown message) (send call w)) in
      unfold Ends settle send fail in (end.0, end.1, end.2, end.3 ∙ sym (append-nil w.events))
  command-Ends call events emits (answered response) w =
      let end =
        show_outcome-Ends (answered response) (settle call (answered response) (send call w)) in
      let made = emits response (send call w) in
      unfold Ends settle send in (end.0, end.1, end.2 ∙ made.0, end.3 ∙ made.1)

-- A deletion that is confirmed sends one request, for the path of the item. Whatever the server
-- does, a message is open at the end, which tells of success exactly if the server answered with
-- success; the queries of directories are invalidated exactly if it answered.
pub delete_confirmed_lem :
    (env : Env) (api_error : Text → Text → Text) (item : FileItem) (w : World)
    → Ends
        (outcome_type (env.server (w.calls ++ delete_path item.path ∷ [])))
        (w.calls ++ delete_path item.path ∷ [])
        (w.events
          ++ events_after
              (env.server (w.calls ++ delete_path item.path ∷ []))
              (invalidate_directory ∷ []))
        (delete_confirmed env api_error item w)
delete_confirmed_lem env api_error item w =
    unfold delete_confirmed mutate in
    command-Ends env api_error _ _ (delete_path item.path) (invalidate_directory ∷ [])
      (λ response v. unfold on_success emit in (refl, refl)) _ w

-- The same of an export of all certificates, after which the TLS queries are invalidated as well.
handle_export_all_lem :
    (env : Env) (api_error : Text → Text → Text) (w : World)
    → Ends
        (outcome_type (env.server (w.calls ++ export_all ∷ [])))
        (w.calls ++ export_all ∷ [])
        (w.events
          ++ events_after
              (env.server (w.calls ++ export_all ∷ []))
              (invalidate_tls none ∷ invalidate_directory ∷ []))
        (handle_export_all env api_error w)
handle_export_all_lem env api_error w =
    unfold handle_export_all mutate in
    command-Ends env api_error _ _ export_all (invalidate_tls none ∷ invalidate_directory ∷ [])
      (λ response v.
        unfold on_success emit in
        (refl, append_assoc v.events (invalidate_tls none ∷ []) (invalidate_directory ∷ [])))
      _ w
