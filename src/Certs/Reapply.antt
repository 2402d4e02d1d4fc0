-- ===== src/Certs/Reapply.antt =====
-- The dialogs around the commands that a confirmation starts: the hooks useOperationCertificate.ts and
-- useActionCertificateItem.ts of console/src/features/certificate/hooks.
use nfx_edge.Common.{
  ◌≡◌, refl, sym, ◌∙◌, subst, Text, Bool, true, false, not, ◌&&◌, none, [], ◌∷◌, ◌++◌,
  if◌then◌else◌, text_eq,
}
use nfx_edge.Modal.Types.{ModalState, confirm, loading}
use nfx_edge.Modal.Store.{hide_modal, show_modal}
use nfx_edge.Modal.Helpers.{show_error, show_success}
use nfx_edge.Modal.Slots.{opened, base_slot, confirm_slot, loading_slot}
use nfx_edge.Certs.{
  ApplyRequest, Call, apply, reapply, create, update, delete, export_single, export_all,
  invalidate_cache, delete_path, Response, Answer, answered, thrown, Pending, overwrite, reapplying,
  removing, removing_item, World, Env, send, emit, fail, invalidate_after_success, on_success,
  settle, mutate,
}
use nfx_edge.Certs.Submit.{succeed, navigate, is_set, already_exists, after_apply, run_apply}
use nfx_edge.Certs.Operate.{
  hide, after_reapply, after_delete, after_delete_item, start_loading, confirmed,
}

-- A message is shown; the confirmation and the loading dialog are as in the store before.
pub Shows : ModalState → World → Type 0
Shows m w =
    (opened w.modal base_slot ≡ true)
    × (opened w.modal confirm_slot ≡ opened m confirm_slot)
    × (opened w.modal loading_slot ≡ opened m loading_slot)

fail-Shows : (message : Text) (w : World) → Shows w.modal (fail message w)
unfolding fail show_error show_modal Shows
fail-Shows message w = (refl, refl, refl)

succeed-Shows : (message : Text) (w : World) → Shows w.modal (succeed message w)
unfolding succeed show_success show_modal Shows
succeed-Shows message w = (refl, refl, refl)

navigate-Shows : (m : ModalState) (to : Text) (w : World) → Shows m w → Shows m (navigate to w)
unfolding navigate Shows
navigate-Shows m to w h = h

if-Shows :
    (m : ModalState) (b : Bool) (v w : World) → Shows m v → Shows m w → Shows m (if b then v else w)
if-Shows m true v w h k = h
if-Shows m false v w h k = k

never-Shows :
    (m : ModalState) (b c : Bool) (v w : World)
    → c ≡ true
    → Shows m w
    → Shows m (if b && not c then v else w)
never-Shows m true true v w h k = k
never-Shows m false true v w h k = k
never-Shows m b false v w h k = absurd (cc)

invalidated_modal :
    (b : Bool) (w : World)
    → (if b then record w { calls = w.calls ++ invalidate_cache ∷ [] } else w).modal ≡ w.modal
invalidated_modal true w = refl
invalidated_modal false w = refl

on_success_modal :
    (call : Call) (response : Response) (w : World) → (on_success call response w).modal ≡ w.modal
unfolding on_success emit invalidate_after_success send
on_success_modal (apply request) response w = invalidated_modal response.success w
on_success_modal (reapply id force) response w = invalidated_modal response.success w
on_success_modal (create request) response w = refl
on_success_modal (update request) response w = refl
on_success_modal (delete id) response w = refl
on_success_modal (export_single id) response w = refl
on_success_modal export_all response w = refl
on_success_modal invalidate_cache response w = refl
on_success_modal (delete_path path) response w = refl

-- A hook that shows a message for each response, and leaves an exception to the mutation, shows one.
settled-Shows :
    (call : Call) (after : Answer → World → World)
    → ((message : Text) (v : World) → after (thrown message) v ≡ v)
    → ((response : Response) (v : World) → Shows v.modal (after (answered response) v))
    → (a : Answer) (w : World) → Shows w.modal (after a (settle call a (send call w)))
settled-Shows call after same shows (thrown message) w =
    subst (λ v. Shows w.modal v) (sym (same message _))
      (unfold settle send in fail-Shows message (record w { calls = w.calls ++ call ∷ [] }))
settled-Shows call after same shows (answered response) w =
    subst (λ m. Shows m (after (answered response) (settle call (answered response) (send call w))))
      modal (shows response (settle call (answered response) (send call w)))
  where
    modal : (settle call (answered response) (send call w)).modal ≡ w.modal
    modal =
        unfold settle send in
        on_success_modal call response (record w { calls = w.calls ++ call ∷ [] })

mutated-Shows :
    (env : Env) (call : Call) (after : Answer → World → World)
    → ((message : Text) (v : World) → after (thrown message) v ≡ v)
    → ((response : Response) (v : World) → Shows v.modal (after (answered response) v))
    → (w : World) → Shows w.modal (after (mutate env call w).0 (mutate env call w).1)
unfolding mutate
mutated-Shows env call after same shows w =
    settled-Shows call after same shows (env.server (w.calls ++ call ∷ [])) w

module _ (env : Env) where
  after_reapply-Shows :
      (response : Response) (v : World) → Shows v.modal (after_reapply env (answered response) v)
  unfolding after_reapply
  after_reapply-Shows response v =
      if-Shows v.modal response.success _ _ (navigate-Shows v.modal _ _ (succeed-Shows _ v))
        (fail-Shows _ v)

  after_delete-Shows :
      (response : Response) (v : World) → Shows v.modal (after_delete env (answered response) v)
  unfolding after_delete
  after_delete-Shows response v =
      if-Shows v.modal response.success _ _ (navigate-Shows v.modal _ _ (succeed-Shows _ v))
        (fail-Shows _ v)

  after_delete_item-Shows :
      (response : Response) (v : World)
      → Shows v.modal (after_delete_item env (answered response) v)
  unfolding after_delete_item
  after_delete_item-Shows response v =
      if-Shows v.modal response.success _ _ (succeed-Shows _ v) (fail-Shows _ v)

  after_apply-Shows :
      (payload : ApplyRequest)
      → is_set payload.force_renewal ≡ true
      → (response : Response) (v : World)
      → Shows v.modal (after_apply env payload (answered response) v)
  unfolding after_apply
  after_apply-Shows payload f response v =
      if-Shows v.modal response.success _ _ (navigate-Shows v.modal _ _ (succeed-Shows _ v)) (
        never-Shows v.modal (text_eq response.message already_exists) (is_set payload.force_renewal)
          _ _ f (fail-Shows _ v))

-- A closure that asks for no overwriting confirmation again: all those that the hooks hand over.
abbrev pub IsForced : Pending → Type 0
IsForced (overwrite payload) = is_set payload.force_renewal ≡ true
IsForced (reapplying id) = Unit
IsForced (removing id) = Unit
IsForced (removing_item id) = Unit

-- The message is open, and the two other dialogs are closed.
abbrev pub IsSettled : World → Type 0
IsSettled w =
    (opened w.modal base_slot ≡ true)
    × (opened w.modal confirm_slot ≡ false)
    × (opened w.modal loading_slot ≡ false)

-- The store once the confirmation is hidden.
hidden-IsSettled :
    (w u : World)
    → opened w.modal loading_slot ≡ false
    → Shows (hide confirm w).modal u
    → IsSettled u
unfolding Shows hide hide_modal
hidden-IsSettled w u h (base, question, busy) = (base, question, busy ∙ h)

hide_loading-IsSettled : (w u : World) → Shows (hide confirm w).modal u → IsSettled (hide loading u)
unfolding Shows hide hide_modal
hide_loading-IsSettled w u (base, question, busy) = (base, question, refl)

-- When a confirmation is clicked and no loading dialog was open, then once the answer has come,
-- whatever it is, a message is open, and neither the confirmation nor a loading dialog is.
pub confirmed-IsSettled :
    (env : Env) (checked : Bool) (closure : Pending) (w : World)
    → IsForced closure
    → opened w.modal loading_slot ≡ false
    → IsSettled (confirmed env checked closure w)
unfolding confirmed run_apply
confirmed-IsSettled env checked (overwrite payload) w f h =
    hidden-IsSettled (record w { pending = none }) _ h
      (mutated-Shows env (apply payload) (after_apply env payload)
        (λ m u. unfold after_apply in refl) (after_apply-Shows env payload f)
        (hide confirm (record w { pending = none })))
confirmed-IsSettled env checked (reapplying id) w f h =
    let v : World = start_loading env (record w { pending = none }) in
    hide_loading-IsSettled v _ (
      mutated-Shows env (reapply id checked) (after_reapply env)
        (λ m u. unfold after_reapply in refl) (after_reapply-Shows env) (hide confirm v))
confirmed-IsSettled env checked (removing id) w f h =
    hidden-IsSettled (record w { pending = none }) _ h
      (mutated-Shows env (delete id) (after_delete env) (λ m u. unfold after_delete in refl)
        (after_delete-Shows env) (hide confirm (record w { pending = none })))
confirmed-IsSettled env checked (removing_item id) w f h =
    hidden-IsSettled (record w { pending = none }) _ h
      (mutated-Shows env (delete id) (after_delete_item env)
        (λ m u. unfold after_delete_item in refl) (after_delete_item-Shows env)
        (hide confirm (record w { pending = none })))
