-- ===== src/Certs/Overwrite.antt =====
-- Applying for a certificate that exists: console/src/features/certificate/hooks/useSubmitCertificate.ts.
use nfx_edge.Common.{
  ◌≡◌, refl, ap, ◌∙◌, inl, inr, ◌⊎◌, Bool, true, false, not, ◌&&◌, none, some, List, [], ◌∷◌, ◌++◌,
  append_assoc, append-nil, arith, if◌then◌else◌, Bool-cases, text_eq,
}
use nfx_edge.Modal.Types.{confirm}
use nfx_edge.Modal.Store.{show_modal}
use nfx_edge.Modal.Helpers.{show_confirm}
use nfx_edge.Modal.Slots.{opened, confirm_slot}
use nfx_edge.Certs.{
  ApplyRequest, Call, apply, reapply, create, update, delete, export_single, export_all,
  invalidate_cache, delete_path, Answer, answered, thrown, overwrite, World, Env, send, emit, fail,
  invalidate_after_success, on_success, settle, mutate,
}
use nfx_edge.Certs.Submit.{succeed, navigate, ask, is_set, already_exists, after_apply, run_apply}
use nfx_edge.Certs.Operate.{hide, confirmed, click_confirm}

-- The applications among the calls.
pub applications : List Call → List ApplyRequest
applications [] = []
applications (apply request ∷ calls) = request ∷ applications calls
applications (_ ∷ calls) = applications calls

abbrev pub forced : ApplyRequest → ApplyRequest
forced payload = record payload { force_renewal = some true }

applications-append :
    (xs ys : List Call) → applications (xs ++ ys) ≡ applications xs ++ applications ys
unfolding applications
applications-append [] ys = refl
applications-append (apply request ∷ xs) ys = ap (λ l. request ∷ l) (applications-append xs ys)
applications-append (reapply id force ∷ xs) ys = applications-append xs ys
applications-append (create request ∷ xs) ys = applications-append xs ys
applications-append (update request ∷ xs) ys = applications-append xs ys
applications-append (delete id ∷ xs) ys = applications-append xs ys
applications-append (export_single id ∷ xs) ys = applications-append xs ys
applications-append (export_all ∷ xs) ys = applications-append xs ys
applications-append (invalidate_cache ∷ xs) ys = applications-append xs ys
applications-append (delete_path path ∷ xs) ys = applications-append xs ys

unforced : (a b : Bool) → (a && not b) ≡ true → b ≡ false
unforced a b h = ground (arith, h)

-- What an application leaves: the applications that were sent, and the confirmation that waits.
module _ (env : Env) (payload : ApplyRequest) where
  settle_keeps :
      (a : Answer) (w : World)
      → (applications (settle (apply payload) a w).calls ≡ applications w.calls)
        × ((settle (apply payload) a w).pending ≡ w.pending)
  unfolding settle on_success emit fail invalidate_after_success send
  settle_keeps (thrown message) w = (refl, refl)
  settle_keeps (answered response) w = by_success response.success
    where
      by_success :
          (b : Bool)
          → (applications
                (if b then record w { calls = w.calls ++ invalidate_cache ∷ [] } else w).calls
              ≡ applications w.calls)
            × ((if b then record w { calls = w.calls ++ invalidate_cache ∷ [] } else w).pending
                ≡ w.pending)
      by_success true = (
        applications-append w.calls (invalidate_cache ∷ []) ∙ (unfold applications in append-nil _),
        refl,
      )
      by_success false = (refl, refl)

  -- The answer leads to no question, or to the question about overwriting.
  after_apply_cases :
      (a : Answer) (w : World)
      → ((after_apply env payload a w).calls ≡ w.calls)
        × (((after_apply env payload a w).pending ≡ w.pending)
            ⊎ ((is_set payload.force_renewal ≡ false)
                × ((after_apply env payload a w).pending ≡ some (overwrite (forced payload)))
                × (opened (after_apply env payload a w).modal confirm_slot ≡ true)))
  unfolding after_apply
  after_apply_cases (thrown message) w = (refl, inl refl)
  after_apply_cases (answered response) w = elim (Bool-cases response.success) [
    | inl done ↦ rw (done, if◌then◌else◌) (unfold navigate succeed in (refl, inl refl))
    | inr refused ↦
        elim (Bool-cases
          (text_eq response.message already_exists && not (is_set payload.force_renewal))) [
            | inr other ↦ rw (refused, other, if◌then◌else◌) (unfold fail in (refl, inl refl))
            | inl there ↦
                rw (refused, there, if◌then◌else◌)
                  (unfold ask show_confirm show_modal in
                    (refl, inr (unforced _ _ there, refl, refl)))
          ]
  ]

  -- One application leaves, and then a question may wait, if the payload does not overwrite.
  run_apply_cases :
      (w : World)
      → (applications (run_apply env payload w).calls ≡ applications w.calls ++ payload ∷ [])
        × (((run_apply env payload w).pending ≡ w.pending)
            ⊎ ((is_set payload.force_renewal ≡ false)
                × ((run_apply env payload w).pending ≡ some (overwrite (forced payload)))
                × (opened (run_apply env payload w).modal confirm_slot ≡ true)))
  unfolding run_apply mutate
  run_apply_cases w =
      let a = env.server (w.calls ++ apply payload ∷ []) in
      let v = settle (apply payload) a (send (apply payload) w) in
      let (sent, kept) = settle_keeps a (send (apply payload) w) in
      let (same, question) = after_apply_cases a v in
      (
        ap applications same
            ∙ sent
            ∙ (unfold send applications in applications-append w.calls (apply payload ∷ [])),
        elim question [
          | inl quiet ↦ inl (quiet ∙ kept ∙ (unfold send in refl))
          | inr asked ↦ inr asked
        ],
      )

  click_overwrite :
      (checked : Bool) (w : World)
      → w.pending ≡ some (overwrite payload)
      → click_confirm env checked w
        ≡ run_apply env payload (hide confirm (record w { pending = none }))
  unfolding click_confirm confirmed
  click_overwrite checked w h = rw h refl

-- A payload that overwrites leaves no question.
no_question_left :
    (env : Env) (payload : ApplyRequest) (w : World)
    → w.pending ≡ none
    → is_set payload.force_renewal ≡ true
    → (run_apply env payload w).pending ≡ none
no_question_left env payload w h f = elim (run_apply_cases env payload w).1 [
  | inl quiet ↦ quiet ∙ h
  | inr (free, waits, shown) ↦ absurd (not_both f free)
]
  where
    not_both : {b : Bool} → b ≡ true → b ≡ false → ⊥
    not_both p q = cc

-- An application sends one request. If a question about overwriting comes then, the payload did not
-- ask for it, the confirmation is open, and its button sends the same payload once more, with
-- overwriting: after that, no question waits, whatever the server answers.
pub overwrite_lem :
    (env : Env) (payload : ApplyRequest) (checked : Bool) (w : World)
    → w.pending ≡ none
    → (applications (run_apply env payload w).calls ≡ applications w.calls ++ payload ∷ [])
      × (((run_apply env payload w).pending ≡ none)
          ⊎ ((is_set payload.force_renewal ≡ false)
              × (opened (run_apply env payload w).modal confirm_slot ≡ true)
              × ((click_confirm env checked (run_apply env payload w)).pending ≡ none)
              × (applications (click_confirm env checked (run_apply env payload w)).calls
                  ≡ applications w.calls ++ payload ∷ forced payload ∷ [])))
overwrite_lem env payload checked w h =
    let (sent, question) = run_apply_cases env payload w in
    (
      sent,
      elim question [
        | inl quiet ↦ inl (quiet ∙ h)
        | inr (free, waits, shown) ↦
            let v : World = hide confirm (record (run_apply env payload w) { pending = none }) in
            let hidden : applications v.calls ≡ applications (run_apply env payload w).calls =
              unfold hide in refl in
            let sent_again = (run_apply_cases env (forced payload) v).0 in
            let click =
              click_overwrite env (forced payload) checked (run_apply env payload w) waits in
            inr (
              free,
              shown,
              ap (λ u. u.pending) click
                  ∙ no_question_left env (forced payload) v (unfold hide in refl) refl,
              ap (λ u. applications u.calls) click
                  ∙ sent_again
                  ∙ ap (λ l. l ++ forced payload ∷ []) (hidden ∙ sent)
                  ∙ append_assoc (applications w.calls) (payload ∷ []) (forced payload ∷ []),
            )
      ],
    )
