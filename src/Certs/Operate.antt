-- ===== src/Certs/Operate.antt =====
-- The commands on one certificate: useActionCertificateItem.ts, useOperationCertificate.ts and
-- useExportToFolder.ts of console/src/features/certificate/hooks, and what runs on a confirmation.
use nfx_edge.Common.{
  Text, codes, Bool, Option, none, some, ◌∷◌, ◌++◌, if◌then◌else◌, or_else, is_empty,
}
use nfx_edge.Modal.Types.{ModalType, confirm, loading}
use nfx_edge.Modal.Store.{hide_modal}
use nfx_edge.Modal.Helpers.{show_loading, show_confirm}
use nfx_edge.Certs.{
  reapply, delete, export_single, Answer, answered, thrown, Pending, overwrite, reapplying,
  removing, removing_item, World, Env, command_message, fail, mutate,
}
use nfx_edge.Certs.Submit.{certs_overview, succeed, navigate, ask, refusal, run_apply, is_set}

-- The fields of a certificate that the commands read.
pub record Certificate : Type 0 where
  pub id : Text
  pub domain : Text
  pub sans_changed : Option Bool

-- The path of a page with the identifier of a certificate filled in, `encodeURIComponent` applied.
pub record Paths : Type 0 where
  pub edit_path : Text → Text
  pub detail_path : Text → Text

unfoldable pub handle_edit : Paths → Text → World → World
unfolding navigate
handle_edit paths id w = if is_empty id then w else navigate (paths.edit_path id) w

unfoldable pub handle_view : Paths → Text → World → World
unfolding navigate
handle_view paths id w = if is_empty id then w else navigate (paths.detail_path id) w

-- The question before a deletion; the fallbacks stand for translations that are empty.
unfoldable pub ask_delete : Env → Text → Pending → World → World
unfolding ask
ask_delete env domain closure w =
    ask env (or_else (env.translate (codes "delete.confirm.title")) (codes "Delete Certificate"))
      (env.translate_for (codes "delete.confirm.message") domain)
      (or_else (env.translate (codes "delete.confirm.confirm")) (codes "Delete"))
      (or_else (env.translate (codes "delete.confirm.cancel")) (codes "Cancel")) closure w

-- `handleDelete` of `useActionCertificateItem`
unfoldable pub handle_delete_item : Env → Certificate → World → World
unfolding ask_delete
handle_delete_item env cert w =
    if is_empty cert.id then w else ask_delete env cert.domain (removing_item cert.id) w

-- `handleDelete` of `useOperationCertificate`
unfoldable pub handle_delete : Env → Text → Option Certificate → World → World
unfolding ask_delete
handle_delete env certificate_id none w = w
handle_delete env certificate_id (some cert) w =
    ask_delete env cert.domain (removing certificate_id) w

-- `handleReapply` of `useOperationCertificate`
unfoldable pub handle_reapply : Env → Text → Option Certificate → World → World
unfolding fail show_confirm
handle_reapply env certificate_id none w = fail (env.translate (codes "reapply.notLoaded")) w
handle_reapply env certificate_id (some cert) w = record w {
  modal =
      show_confirm
        (record {
          message =
              env.translate_for (codes "reapply.confirm") cert.domain
              ++ b'\n' ∷ b'\n' ∷ env.translate (codes "reapply.confirmDetail");
          on_confirm = 0;
          on_cancel = none;
          title = some (env.translate (codes "reapply.title"));
          confirm_text = some (env.translate (codes "reapply.confirmSubmit"));
          cancel_text = some (env.translate (codes "delete.confirm.cancel"));
          force_renewal_option = some (record {
            label = env.translate (codes "reapply.forceRenewal");
            default_checked = some (is_set cert.sans_changed);
          });
        })
        w.modal;
  pending = some (reapplying certificate_id);
}

unfoldable pub hide : ModalType → World → World
unfolding hide_modal
hide modal_type w = record w { modal = hide_modal (some modal_type) w.modal }

-- What the callback of a reapplication does once the answer is there, before `finally`.
unfoldable pub after_reapply : Env → Answer → World → World
unfolding command_message refusal fail succeed navigate
after_reapply env (thrown message) w = w
after_reapply env (answered response) w =
    if response.success
    then navigate certs_overview (
        succeed
          (command_message env response.message
            (env.translate (codes "messages.certificateApplySuccess")))
          w)
    else fail (refusal env (codes "messages.certificateApplyFailed") response) w

unfoldable pub after_delete : Env → Answer → World → World
unfolding command_message fail succeed navigate
after_delete env (thrown message) w = w
after_delete env (answered response) w =
    if response.success
    then navigate certs_overview
        (succeed (command_message env response.message (env.translate (codes "delete.success"))) w)
    else fail (env.translate (codes "delete.error")) w

unfoldable pub after_delete_item : Env → Answer → World → World
unfolding command_message fail succeed
after_delete_item env (thrown message) w = w
after_delete_item env (answered response) w =
    if response.success
    then succeed (command_message env response.message (env.translate (codes "delete.success"))) w
    else fail (command_message env response.message (env.translate (codes "delete.error"))) w

unfoldable pub start_loading : Env → World → World
unfolding show_loading
start_loading env w = record w {
  modal = show_loading (some (env.translate (codes "reapply.applying"))) none w.modal;
}

-- The callback of a confirmation: the part up to its first `await`, and then the dialog is
-- hidden, before the answer comes.
unfoldable pub confirmed : Env → Bool → Pending → World → World
unfolding run_apply mutate after_reapply after_delete after_delete_item start_loading hide
confirmed env checked (overwrite payload) w =
    run_apply env payload (hide confirm (record w { pending = none }))
confirmed env checked (reapplying id) w =
    let settled =
      mutate env (reapply id checked)
        (hide confirm (start_loading env (record w { pending = none }))) in
    hide loading (after_reapply env settled.0 settled.1)
confirmed env checked (removing id) w =
    let settled = mutate env (delete id) (hide confirm (record w { pending = none })) in
    after_delete env settled.0 settled.1
confirmed env checked (removing_item id) w =
    let settled = mutate env (delete id) (hide confirm (record w { pending = none })) in
    after_delete_item env settled.0 settled.1

-- The click on the button of the confirmation.
unfoldable pub click_confirm : Env → Bool → World → World
unfolding confirmed hide
click_confirm env checked w = elim w.pending [
  | none ↦ hide confirm w
  | some closure ↦ confirmed env checked closure w
]

-- `exportToWebsitesFolder`; an exception is shown twice, by the mutation and here.
unfoldable pub export_to_folder : Env → Option Text → World → World
unfolding mutate command_message fail succeed
export_to_folder env none w =
    fail
      (or_else (env.translate (codes "export.error.noCertificateId"))
        (codes "Certificate ID is required"))
      w
export_to_folder env (some id) w =
    if is_empty id
    then fail
        (or_else (env.translate (codes "export.error.noCertificateId"))
          (codes "Certificate ID is required"))
        w
    else (let failed =
          or_else (env.translate (codes "export.error.failed"))
            (codes "Failed to export certificate") in
        let settled = mutate env (export_single id) w in after_export failed settled.0 settled.1)
  where
    after_export : Text → Answer → World → World
    after_export failed (thrown message) v = fail failed v
    after_export failed (answered response) v =
        if response.success
        then succeed
            (command_message env response.message
              (env.translate (codes "export.success.websitesFolder")))
            v
        else fail (command_message env response.message failed) v
