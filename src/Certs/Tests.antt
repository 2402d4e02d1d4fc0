-- ===== src/Certs/Tests.antt =====
-- Runs of the certificate commands against a server that knows one certificate, and their theorems there.
use nfx_edge.Common.{
  ◌≡◌, refl, ◌⊎◌, Text, codes, true, false, none, some, List, [], ◌∷◌, ◌++◌, if◌then◌else◌, text_eq,
  trim,
}
use nfx_edge.Modal.Types.{initial_state}
use nfx_edge.Modal.Slots.{opened, base_slot, confirm_slot}
use nfx_edge.Certs.{
  ApplyRequest, Call, apply, delete, Response, Answer, answered, thrown, overwrite, reapplying,
  World, Env, command_message, mutate,
}
use nfx_edge.Certs.Messages.{AddsStale, mutate_lem}
use nfx_edge.Certs.Submit.{Values, is_set, already_exists, submit, run_apply}
use nfx_edge.Certs.Operate.{confirmed, click_confirm}
use nfx_edge.Certs.Overwrite.{applications, forced, overwrite_lem}
use nfx_edge.Certs.Reapply.{IsSettled, confirmed-IsSettled}

abbrev accepted : Response
accepted = record { success = true; message = codes "OK"; rate_limit = false; retry_after = none }

abbrev exists_already : Response
exists_already = record accepted { success = false; message = already_exists }

-- The answer to the last call.
abbrev serve : List Call → Answer
serve [] = thrown (codes "offline")
serve (apply request ∷ []) =
    if is_set request.force_renewal then answered accepted else answered exists_already
serve (call ∷ []) = answered accepted
serve (call ∷ next ∷ calls) = serve (next ∷ calls)

abbrev env : Env
env = record {
  translate = λ key. key;
  translate_for = λ key domain. key ++ domain;
  messages_ns = codes "messages";
  errors_ns = codes "errors";
  bundle = λ ns key. [];
  server = serve;
}

abbrev w0 : World
w0 = record { modal = initial_state; pending = none; navigated = []; calls = []; events = [] }

abbrev payload : ApplyRequest
payload = record {
  domain = codes "a.example";
  email = codes "me@a.example";
  sans = none;
  folder_name = none;
  force_renewal = some false;
}

abbrev values : Values
values = record {
  domain = codes " a.example";
  folder_name = some (codes " ");
  email = some (codes "me@a.example ");
  issuer = none;
  sans = some [];
  force_renewal = some false;
  certificate = [];
  private_key = [];
}

certs_open : Unit {0}
unfolding submit click_confirm command_message trim text_eq
certs_open = tt

asks : (submit env values w0).pending ≡ some (overwrite (forced payload))
unfolding certs_open
asks = refl

arrives : (click_confirm env false (submit env values w0)).navigated ≡ codes "/certs/overview" ∷ []
unfolding certs_open
arrives = refl

no_address : (submit env (record values { email = none }) w0).calls ≡ []
unfolding certs_open
no_address = refl

mutate_lem_example :
    ((response : Response) × ((mutate env (delete (codes "1")) w0).0 ≡ answered response)
      × AddsStale (codes "page") w0 (mutate env (delete (codes "1")) w0).1)
    ⊎ ((message : Text) × ((mutate env (delete (codes "1")) w0).0 ≡ thrown message)
        × ((mutate env (delete (codes "1")) w0).1.events ≡ w0.events)
        × ((mutate env (delete (codes "1")) w0).1.modal.base_modal.message ≡ some message)
        × (opened (mutate env (delete (codes "1")) w0).1.modal base_slot ≡ true))
mutate_lem_example = mutate_lem env (delete (codes "1")) (codes "page") w0 refl

overwrite_lem_example :
    (applications (run_apply env payload w0).calls ≡ applications w0.calls ++ payload ∷ [])
    × (((run_apply env payload w0).pending ≡ none)
        ⊎ ((is_set payload.force_renewal ≡ false)
            × (opened (run_apply env payload w0).modal confirm_slot ≡ true)
            × ((click_confirm env true (run_apply env payload w0)).pending ≡ none)
            × (applications (click_confirm env true (run_apply env payload w0)).calls
                ≡ applications w0.calls ++ payload ∷ forced payload ∷ [])))
overwrite_lem_example = overwrite_lem env payload true w0 refl

confirmed-IsSettled_example : IsSettled (confirmed env true (reapplying (codes "1")) w0)
confirmed-IsSettled_example = confirmed-IsSettled env true (reapplying (codes "1")) w0 tt refl
