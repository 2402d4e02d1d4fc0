-- ===== src/Certs/Submit.antt =====
-- The forms for certificates: useSubmitCertificate.ts, useSubmitManualCertificate.ts and
-- useEditCertificate.ts of console/src/features/certificate/hooks.
use nfx_edge.Common.{
  Text, codes, Bool, true, false, not, ◌&&◌, Option, none, some, List, [], ◌∷◌, ◌++◌, if◌then◌else◌,
  text_eq, trim, truthy,
}
use nfx_edge.Modal.Helpers.{plain, show_success, show_confirm}
use nfx_edge.Certs.{
  ApplyRequest, CreateRequest, UpdateRequest, apply, create, update, Response, Answer, answered,
  thrown, Pending, overwrite, World, Env, command_message, fail, mutate,
}

-- `CertificateFormValues`; the first error of a validation is its message.
pub record Values : Type 0 where
  pub domain : Text
  pub folder_name : Option Text
  pub email : Option Text
  pub issuer : Option Text
  pub sans : Option (List Text)
  pub force_renewal : Option Bool
  pub certificate : Text
  pub private_key : Text

abbrev pub certs_overview : Text
certs_overview = codes "/certs/overview"

unfoldable pub succeed : Text → World → World
unfolding show_success
succeed message w = record w { modal = show_success (plain message) w.modal }

unfoldable pub navigate : Text → World → World
navigate to w = record w { navigated = w.navigated ++ to ∷ [] }

-- `showConfirm` with a callback that is known by what it captured.
unfoldable pub ask : Env → Text → Text → Text → Text → Pending → World → World
unfolding show_confirm
ask env title message confirm_text cancel_text closure w = record w {
  modal =
      show_confirm
        (record {
          message = message;
          on_confirm = 0;
          on_cancel = none;
          title = some title;
          confirm_text = some confirm_text;
          cancel_text = some cancel_text;
          force_renewal_option = none;
        })
        w.modal;
  pending = some closure;
}

-- `values?.trim() || undefined`
unfoldable pub trimmed : Option Text → Option Text
unfolding trim
trimmed none = none
trimmed (some text) = if truthy (trim text) then some (trim text) else none

-- `values.sans && values.sans.length > 0 ? values.sans : undefined`
abbrev pub some_sans : Option (List Text) → Option (List Text)
some_sans none = none
some_sans (some []) = none
some_sans (some (san ∷ sans)) = some (san ∷ sans)

-- Reads `undefined` as false.
abbrev pub is_set : Option Bool → Bool
is_set none = false
is_set (some b) = b

abbrev pub already_exists : Text
already_exists = codes "CERTIFICATE_ALREADY_EXISTS"

-- The message for a refusal, with the time to wait if the limit of the authority is reached.
unfoldable pub refusal : Env → Text → Response → Text
unfolding command_message
refusal env fallback response =
    let message = command_message env response.message (env.translate fallback) in
    elim response.retry_after [
      | none ↦ message
      | some time ↦
          if response.rate_limit && truthy time
          then message ++ codes " (retry after " ++ time ++ codes ")"
          else message
    ]

-- `run` of `useSubmitCertificate` once the answer is there.
unfoldable pub after_apply : Env → ApplyRequest → Answer → World → World
unfolding command_message refusal fail succeed navigate ask text_eq
after_apply env payload (thrown message) w = w
after_apply env payload (answered response) w =
    if response.success
    then navigate certs_overview (
        succeed
          (command_message env response.message
            (env.translate (codes "messages.certificateApplySuccess")))
          w)
    else if text_eq response.message already_exists && not (is_set payload.force_renewal)
    then ask env (env.translate (codes "overwrite.title"))
        (env.translate_for (codes "overwrite.message") payload.domain)
        (env.translate (codes "overwrite.confirm")) (env.translate (codes "overwrite.cancel"))
        (overwrite (record payload { force_renewal = some true })) w
    else fail (refusal env (codes "messages.certificateApplyFailed") response) w

unfoldable pub run_apply : Env → ApplyRequest → World → World
unfolding mutate after_apply
run_apply env payload w =
    let settled = mutate env (apply payload) w in after_apply env payload settled.0 settled.1

-- `onSubmit` of `useSubmitCertificate`
unfoldable pub submit : Env → Values → World → World
unfolding run_apply fail trimmed trim
submit env values w = elim (trimmed values.email) [
  | none ↦ fail (env.translate (codes "validation.emailRequired")) w
  | some email ↦
      run_apply env
        (record {
          domain = trim values.domain;
          email = email;
          sans = some_sans values.sans;
          folder_name = trimmed values.folder_name;
          force_renewal = values.force_renewal;
        })
        w
]

-- What the two other forms do with an answer.
unfoldable pub report : Env → Text → Text → Answer → World → World
unfolding command_message fail succeed navigate
report env done failed (thrown message) w = w
report env done failed (answered response) w =
    if response.success
    then navigate certs_overview
        (succeed (command_message env response.message (env.translate done)) w)
    else fail (command_message env response.message (env.translate failed)) w

-- `onSubmit` of `useSubmitManualCertificate`
unfoldable pub submit_manual : Env → Values → World → World
unfolding mutate report trimmed trim
submit_manual env values w =
    let request : CreateRequest = record {
      domain = trim values.domain;
      certificate = trim values.certificate;
      private_key = trim values.private_key;
      sans = some_sans values.sans;
      folder_name = trimmed values.folder_name;
      email = trimmed values.email;
      issuer = trimmed values.issuer;
    } in
    let settled = mutate env (create request) w in
    report env (codes "messages.certificateCreateSuccess")
      (codes "messages.certificateCreateFailed") settled.0 settled.1

abbrev pub value_or_empty : Option Text → Text
value_or_empty none = []
value_or_empty (some text) = text

-- `onSubmit` of `useEditCertificate`; an empty folder name is sent, an empty address is not.
unfoldable pub submit_edit : Env → Text → Values → World → World
unfolding mutate report trimmed trim fail
submit_edit env certificate_id values w =
    if truthy certificate_id
    then (let request : UpdateRequest = record {
      certificate_id = certificate_id;
      sans = some (elim values.sans [ none ↦ [] | some sans ↦ sans ]);
      folder_name = some (trim (value_or_empty values.folder_name));
      email = trimmed values.email;
    } in
        let settled = mutate env (update request) w in
        report env (codes "messages.certificateUpdateSuccess")
          (codes "messages.certificateUpdateFailed") settled.0 settled.1)
    else fail (env.translate (codes "messages.certificateIdMissing")) w

-- `onSubmitError` of the three forms.
unfoldable pub submit_error : Env → Option Text → World → World
unfolding fail
submit_error env first w = elim first [
  | none ↦ fail (env.translate (codes "messages.checkFormErrors")) w
  | some message ↦
      fail (if truthy message then message else env.translate (codes "messages.checkFormErrors")) w
]
