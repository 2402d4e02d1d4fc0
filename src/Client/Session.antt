-- ===== src/Client/Session.antt =====
-- The end of a session: the logouts of `protectedClient` (console/src/apis/clients.ts), the token of
-- its second attempt, and console/src/utils/logoutSession.ts.
use nfx_edge.Common.{
  ℕ, zero, suc, ◌+◌, ◌≡◌, refl, ap, ◌∙◌, ◌⊎◌, inl, inr, Text, codes, Bool, true, false, Option,
  none, some, [], ◌∷◌, ◌++◌, append_assoc, arith, if◌then◌else◌, Bool-cases, is_empty,
}
use nfx_edge.Client.Retry.{prepare-retry, retry_sends, on_error-cases}
use nfx_edge.Client.{
  drop_content_type, Auth, Request, ApiError, Reply, ok, foreign, failed, World, Outcome, rejected,
  Host, attach_token, prepare, may_retry, emit_logout, after_refresh, on_error, on_reply, perform,
  logout_session,
}

may_retry-prepare :
    (auth : Auth) (req : Request) (error : ApiError)
    → may_retry (prepare auth req) error ≡ may_retry req error
unfolding may_retry
may_retry-prepare auth req error = rw (prepare-retry auth req) refl

module _ (host : Host) where
  second_attempt :
      (fuel : ℕ) (req : Request) (w : World) (error : ApiError) (auth : Auth)
      → host.server (w.sent ++ prepare w.auth req ∷ []) ≡ failed error
      → host.immediate_logout error ≡ false
      → may_retry req error ≡ true
      → host.refresh w.auth ≡ some (true, auth)
      → perform host (suc (suc fuel)) req w
        ≡ perform host
            (suc fuel)
            (record (prepare w.auth req) { retry = true })
            (record w {
              sent = w.sent ++ prepare w.auth req ∷ [];
              auth = auth;
              refreshes = w.refreshes + 1;
            })
  unfolding perform on_reply on_error after_refresh
  second_attempt fuel req w error auth answer wait may fresh =
      rw (answer, wait, may_retry-prepare w.auth req error, may, fresh) refl

prepare_with :
    (auth : Auth) (req : Request) (token : Text)
    → auth.access_token ≡ some token
    → is_empty token ≡ false
    → (prepare auth req).authorization ≡ some (codes "Bearer " ++ token)
unfolding prepare attach_token drop_content_type
prepare_with auth req token h k = rw (h, k) (either_form req.is_form)
  where
    either_form :
        (b : Bool)
        → (if b
            then record req { content_type = none; authorization = some (codes "Bearer " ++ token) }
            else record req { authorization = some (codes "Bearer " ++ token) }).authorization
          ≡ some (codes "Bearer " ++ token)
    either_form true = refl
    either_form false = refl

-- When the server answers 401 to a request that is no retry, the error does not end the session at
-- once, and the refresh gives a token, then exactly two requests leave: the request, and the same
-- request marked as a retry, which carries the new token.
pub perform-retries :
    (host : Host) (fuel : ℕ) (req : Request) (w : World) (error : ApiError) (auth : Auth)
    (token : Text)
    → host.server (w.sent ++ prepare w.auth req ∷ []) ≡ failed error
    → host.immediate_logout error ≡ false
    → may_retry req error ≡ true
    → host.refresh w.auth ≡ some (true, auth)
    → auth.access_token ≡ some token
    → is_empty token ≡ false
    → (again : Request) × ((perform host (suc (suc fuel)) req w).1.sent
        ≡ w.sent ++ prepare w.auth req ∷ again ∷ [])
      × (again.retry ≡ true)
      × (again.authorization ≡ some (codes "Bearer " ++ token))
perform-retries host fuel req w error auth token answer wait may fresh has full =
    let second : Request = record (prepare w.auth req) { retry = true } in
    let w' : World = record w {
      sent = w.sent ++ prepare w.auth req ∷ [];
      auth = auth;
      refreshes = w.refreshes + 1;
    } in
    (
      prepare auth second,
      rw (second_attempt host fuel req w error auth answer wait may fresh) (
          retry_sends host fuel second w' refl
          ∙ append_assoc w.sent (prepare w.auth req ∷ []) (prepare auth second ∷ [])),
      prepare-retry auth second,
      prepare_with auth second token has full,
    )

module _ (host : Host) (w : World) where
  emit_logout-over : w.auth.is_auth_valid ≡ false → emit_logout host w ≡ w
  unfolding emit_logout
  emit_logout-over h = simp (h, if◌then◌else◌)

  emit_logout-unselected :
      host.has_selected_profile w.auth.current_profile_id ≡ false → emit_logout host w ≡ w
  unfolding emit_logout
  emit_logout-unselected h = ground (arith, h)

  emit_logout-valid :
      w.auth.is_auth_valid ≡ true
      → host.has_selected_profile w.auth.current_profile_id ≡ true
      → emit_logout host w ≡ record w {
        logouts = w.logouts ++ w.auth.current_account_id ∷ [];
        auth = host.clear_auth w.auth;
      }
  unfolding emit_logout
  emit_logout-valid h k = simp (h, k, if◌then◌else◌)

  logout_session-none :
      w.auth.current_account_id ≡ none
      → w.auth.refresh_token ≡ none
      → logout_session host w ≡ ([], record w { auth = host.clear_auth w.auth })
  unfolding logout_session
  logout_session-none h k = simp (h, k, if◌then◌else◌)

-- No session has ended, or the request was rejected, one LOGOUT went out and the session is over.
pub Ended : World → Option Outcome × World → Type 0
Ended w (o, w') =
    (w'.logouts ≡ w.logouts)
    ⊎ ((reply : Reply) × (o ≡ some (rejected reply))
        × ((id : Option Text) × (w'.logouts ≡ w.logouts ++ id ∷ []))
        × (w'.auth.is_auth_valid ≡ false))

module _ (host : Host) (clears : (auth : Auth) → (host.clear_auth auth).is_auth_valid ≡ false) where
  emit_logout-Ended :
      (reply : Reply) (w : World) → Ended w (some (rejected reply), emit_logout host w)
  unfolding Ended
  emit_logout-Ended reply w = elim (Bool-cases w.auth.is_auth_valid) [
    | inr over ↦ inl (rw (emit_logout-over host w over) refl)
    | inl valid ↦ elim (Bool-cases (host.has_selected_profile w.auth.current_profile_id)) [
      | inr unselected ↦ inl (rw (emit_logout-unselected host w unselected) refl)
      | inl selected ↦ inr (
          rw (emit_logout-valid host w valid selected)
            (reply, refl, (w.auth.current_account_id, refl), clears w.auth))
    ]
  ]

  same_logouts :
      (w w' : World) (r : Option Outcome × World) → w'.logouts ≡ w.logouts → Ended w' r → Ended w r
  unfolding Ended
  same_logouts w w' r h (inl same) = inl (same ∙ h)
  same_logouts w w' r h (inr (reply, rej, (id, sent), over)) =
      inr (reply, rej, (id, sent ∙ ap (λ l. l ++ id ∷ []) h), over)

  module _ (again : Request → World → Option Outcome × World)
      (ends : (req : Request) (w : World) → Ended w (again req w)) where
    after_refresh-Ended :
        (o : Option (Bool × Auth)) (req : Request) (reply : Reply) (w : World)
        → Ended w (after_refresh host again o req reply w)
    unfolding after_refresh
    after_refresh-Ended none req reply w = emit_logout-Ended reply w
    after_refresh-Ended (some (false, auth)) req reply w =
        same_logouts w (record w { auth = auth }) _ refl
          (emit_logout-Ended reply (record w { auth = auth }))
    after_refresh-Ended (some (true, auth)) req reply w =
        same_logouts w (record w { auth = auth }) _ refl (ends req (record w { auth = auth }))

    on_reply-Ended :
        (reply : Reply) (req : Request) (w : World) → Ended w (on_reply host again reply req w)
    unfolding on_reply
    on_reply-Ended ok req w = unfold Ended in inl refl
    on_reply-Ended foreign req w = unfold Ended in inl refl
    on_reply-Ended (failed error) req w = elim (on_error-cases host again req error w) [
      | inl keep ↦ rw keep (unfold Ended in inl refl)
      | inr (inl out) ↦ rw out (emit_logout-Ended (failed error) w)
      | inr (inr (may, e)) ↦ rw e (
          same_logouts w (record w { refreshes = w.refreshes + 1 }) _ refl
            (after_refresh-Ended (host.refresh w.auth) (record req { retry = true }) (failed error)
              _))
    ]

-- When clearing the store makes the session invalid, a request emits no LOGOUT, or it is rejected,
-- emits exactly one, and leaves the session invalid, on whichever attempt it happens.
pub perform-logouts :
    (host : Host) (clears : (auth : Auth) → (host.clear_auth auth).is_auth_valid ≡ false) (fuel : ℕ)
    (req : Request) (w : World)
    → Ended w (perform host fuel req w)
unfolding perform
perform-logouts host clears zero req w = unfold Ended in inl refl
perform-logouts host clears (suc fuel) req w =
    same_logouts host clears w (record w { sent = w.sent ++ prepare w.auth req ∷ [] }) _ refl
      (on_reply-Ended host clears (λ q v. perform host fuel q v) (perform-logouts host clears fuel)
        _ (prepare w.auth req) _)

-- When clearing the store makes the session invalid and forgets the account and the tokens, leaving
-- a session that was left already revokes no token and emits nothing, and no request ends it again.
logout_session_twice :
    (host : Host) (clears : (auth : Auth) → (host.clear_auth auth).is_auth_valid ≡ false)
    (forgets : (auth : Auth)
      → ((host.clear_auth auth).current_account_id ≡ none)
        × ((host.clear_auth auth).refresh_token ≡ none))
    (w : World)
    → ((logout_session host (logout_session host w).1).0 ≡ [])
      × ((logout_session host (logout_session host w).1).1.logouts
          ≡ (logout_session host w).1.logouts)
      × (emit_logout host (logout_session host w).1 ≡ (logout_session host w).1)
logout_session_twice host clears forgets w =
    let w' = (logout_session host w).1 in
    let cleared : w'.auth ≡ host.clear_auth w.auth = unfold logout_session in refl in
    let again =
      logout_session-none host w' (rw cleared (forgets w.auth).0) (rw cleared (forgets w.auth).1) in
    (
      ap (λ r. r.0) again,
      ap (λ r. r.1.logouts) again,
      emit_logout-over host w' (rw cleared (clears w.auth)),
    )
