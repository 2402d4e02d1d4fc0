-- ===== src/Client/Retry.antt =====
-- Attempts of `protectedClient` (console/src/apis/clients.ts): how many requests leave, how often the
-- tokens are refreshed, and what the second attempt carries.
use nfx_edge.Common.{
  ℕ, suc, ◌+◌, ◌≡◌, refl, ◌≤◌, ◌⊎◌, inl, inr, Bool, true, false, Option, none, some, [], ◌∷◌, ◌++◌,
  arith, if◌then◌else◌, length, length-append, Bool-cases,
}
use nfx_edge.Client.{
  Auth, Request, ApiError, Reply, ok, foreign, failed, World, Outcome, resolved, rejected, Host,
  attach_token, drop_content_type, prepare, may_retry, emit_logout, after_refresh, on_error,
  on_reply, perform,
}

-- Between the two worlds the request has been answered, with at most so many requests and refreshes.
pub Settled : ℕ → ℕ → World → Option Outcome × World → Type 0
Settled requests refreshes w (o, w') =
    ((outcome : Outcome) × (o ≡ some outcome))
    × (length w'.sent ≤ length w.sent + requests)
    × (w'.refreshes ≤ w.refreshes + refreshes)

not_both : {b : Bool} → b ≡ true → b ≡ false → ⊥
not_both p q = cc

pub prepare-retry : (auth : Auth) (req : Request) → (prepare auth req).retry ≡ req.retry
unfolding prepare attach_token drop_content_type
prepare-retry auth req = elim auth.access_token [ none ↦ ground arith | some token ↦ ground arith ]

module _ (host : Host) where
  emit_logout_keeps :
      (w : World)
      → ((emit_logout host w).sent ≡ w.sent) × ((emit_logout host w).refreshes ≡ w.refreshes)
  unfolding emit_logout
  emit_logout_keeps w = ground arith

  may_retry-false :
      (req : Request) (error : ApiError) → req.retry ≡ true → may_retry req error ≡ false
  unfolding may_retry
  may_retry-false req error h = ground (arith, h)

  -- What the interceptor does with an error: it rejects, with or without a logout, or it refreshes.
  pub on_error-cases :
      (again : Request → World → Option Outcome × World) (req : Request) (error : ApiError)
      (w : World)
      → (on_error host again req error w ≡ (some (rejected (failed error)), w))
        ⊎ ((on_error host again req error w ≡ (some (rejected (failed error)), emit_logout host w))
            ⊎ ((may_retry req error ≡ true)
                × (on_error host again req error w
                    ≡ after_refresh host again
                        (host.refresh w.auth)
                        (record req { retry = true })
                        (failed error)
                        (record w { refreshes = w.refreshes + 1 }))))
  unfolding on_error
  on_error-cases again req error w = elim (Bool-cases (host.immediate_logout error)) [
    | inl now ↦ inr (inl (rw (now, if◌then◌else◌) refl))
    | inr wait ↦ elim (Bool-cases (may_retry req error)) [
      | inl may ↦ inr (inr (may, rw (wait, may, if◌then◌else◌) refl))
      | inr never ↦ elim (Bool-cases (host.logout_after_retry error)) [
        | inl after ↦ inr (inl (rw (wait, never, after, if◌then◌else◌) refl))
        | inr keep ↦ inl (rw (wait, never, keep, if◌then◌else◌) refl)
      ]
    ]
  ]

  rejects :
      (error : ApiError) (w w' : World)
      → (w'.sent ≡ w.sent)
      → (w'.refreshes ≡ w.refreshes)
      → Settled 0 0 w (some (rejected (failed error)), w')
  unfolding Settled
  rejects error w w' s r = ((rejected (failed error), refl), rw s (omega arith), omega arith)

  logs_out :
      (error : ApiError) (w : World)
      → Settled 0 0 w (some (rejected (failed error)), emit_logout host w)
  logs_out error w = let (s, r) = emit_logout_keeps w in rejects error w (emit_logout host w) s r

  last_attempt :
      (again : Request → World → Option Outcome × World) (reply : Reply) (req : Request) (w : World)
      → req.retry ≡ true
      → Settled 0 0 w (on_reply host again reply req w)
  unfolding on_reply
  last_attempt again ok req w h = unfold Settled in ((resolved, refl), omega arith, omega arith)
  last_attempt again foreign req w h =
      unfold Settled in ((rejected foreign, refl), omega arith, omega arith)
  last_attempt again (failed error) req w h = elim (on_error-cases again req error w) [
    | inl keep ↦ rw keep (rejects error w w refl refl)
    | inr (inl out) ↦ rw out (logs_out error w)
    | inr (inr (may, e)) ↦ absurd (not_both may (may_retry-false req error h))
  ]

  last_attempt_sends :
      (again : Request → World → Option Outcome × World) (reply : Reply) (req : Request) (w : World)
      → req.retry ≡ true
      → (on_reply host again reply req w).1.sent ≡ w.sent
  unfolding on_reply
  last_attempt_sends again ok req w h = refl
  last_attempt_sends again foreign req w h = refl
  last_attempt_sends again (failed error) req w h = elim (on_error-cases again req error w) [
    | inl keep ↦ rw keep refl
    | inr (inl out) ↦ rw out (emit_logout_keeps w).0
    | inr (inr (may, e)) ↦ absurd (not_both may (may_retry-false req error h))
  ]

  pub retry_sends :
      (fuel : ℕ) (req : Request) (w : World)
      → req.retry ≡ true
      → (perform host (suc fuel) req w).1.sent ≡ w.sent ++ prepare w.auth req ∷ []
  unfolding perform
  retry_sends fuel req w h =
      last_attempt_sends (λ q v. perform host fuel q v) _ (prepare w.auth req) _
        (rw (prepare-retry w.auth req) h)

  after_sending :
      (n m : ℕ) (out : Request) (w : World) (r : Option Outcome × World)
      → Settled n m (record w { sent = w.sent ++ out ∷ [] }) r
      → Settled (n + 1) m w r
  unfolding Settled
  after_sending n m out w r (o, s, f) = (o, omega (arith, s, length-append w.sent (out ∷ [])), f)

  retry_once :
      (fuel : ℕ) (req : Request) (w : World)
      → req.retry ≡ true
      → Settled 1 0 w (perform host (suc fuel) req w)
  unfolding perform
  retry_once fuel req w h =
      let out = prepare w.auth req in
      let w' : World = record w { sent = w.sent ++ out ∷ [] } in
      after_sending 0 0 out w _ (
        last_attempt (λ q v. perform host fuel q v) (host.server w'.sent) out w'
          (rw (prepare-retry w.auth req) h))

  counted :
      (n : ℕ) (auth : Auth) (w : World) (r : Option Outcome × World)
      → Settled n 0 (record w { auth = auth; refreshes = w.refreshes + 1 }) r
      → Settled n 1 w r
  unfolding Settled
  counted n auth w r (o, s, f) = (o, s, omega (arith, f))

  more :
      (n m : ℕ) (w : World) (r : Option Outcome × World)
      → Settled n m w r
      → Settled (n + 1) (m + 1) w r
  unfolding Settled
  more n m w r (o, s, f) = (o, omega (arith, s), omega (arith, f))

  counted_out :
      (auth : Auth) (error : ApiError) (w : World)
      → Settled 1 1 w (
        some (rejected (failed error)),
        emit_logout host (record w { auth = auth; refreshes = w.refreshes + 1 }),
      )
  unfolding Settled
  counted_out auth error w =
      let w' : World = record w { auth = auth; refreshes = w.refreshes + 1 } in
      let (o, s, f) = logs_out error w' in (o, omega (arith, s), omega (arith, f))

  refreshed_once :
      (fuel : ℕ) (o : Option (Bool × Auth)) (req : Request) (error : ApiError) (w : World)
      → Settled 1 1 w (
          after_refresh host
            (λ q v. perform host (suc fuel) q v)
            o
            (record req { retry = true })
            (failed error)
            (record w { refreshes = w.refreshes + 1 }))
  unfolding after_refresh
  refreshed_once fuel none req error w = counted_out w.auth error w
  refreshed_once fuel (some (false, auth)) req error w = counted_out auth error w
  refreshed_once fuel (some (true, auth)) req error w = counted 1 auth w _ (
      retry_once fuel (record req { retry = true })
        (record w { auth = auth; refreshes = w.refreshes + 1 }) refl)

  answered_once :
      (fuel : ℕ) (reply : Reply) (req : Request) (w : World)
      → Settled 1 1 w (on_reply host (λ q v. perform host (suc fuel) q v) reply req w)
  unfolding on_reply
  answered_once fuel ok req w = unfold Settled in ((resolved, refl), omega arith, omega arith)
  answered_once fuel foreign req w =
      unfold Settled in ((rejected foreign, refl), omega arith, omega arith)
  answered_once fuel (failed error) req w =
      elim (on_error-cases (λ q v. perform host (suc fuel) q v) req error w) [
        | inl keep ↦ rw keep (more 0 0 w _ (rejects error w w refl refl))
        | inr (inl out) ↦ rw out (more 0 0 w _ (logs_out error w))
        | inr (inr (may, e)) ↦ rw e (refreshed_once fuel (host.refresh w.auth) req error w)
      ]

either_way :
    (b : Bool) (w : World) (r : Option Outcome × World)
    → (b ≡ true → Settled 1 0 w r)
    → Settled 2 1 w r
    → Settled (if b then 1 else 2) (if b then 0 else 1) w r
either_way true w r again first = again refl
either_way false w r again first = first

-- With fuel for two attempts every request is answered, whatever the server and the refresh do: at
-- most two requests leave and the tokens are refreshed at most once; and a request that is a
-- retry already leaves once, with no refresh.
pub perform_lem :
    (host : Host) (fuel : ℕ) (req : Request) (w : World)
    → Settled
        (if req.retry then 1 else 2)
        (if req.retry then 0 else 1)
        w
        (perform host (suc (suc fuel)) req w)
perform_lem host fuel req w = either_way req.retry w _ (retry_once host (suc fuel) req w) first
  where
    first : Settled 2 1 w (perform host (suc (suc fuel)) req w)
    first =
        unfold perform in
        after_sending host 1 1 (prepare w.auth req) w _ (answered_once host fuel _ _ _)
