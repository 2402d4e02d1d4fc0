-- ===== src/Client.antt =====
-- The HTTP client of the console: the interceptors of `protectedClient` in
-- console/src/apis/clients.ts, and console/src/utils/logoutSession.ts. The server, and what nfx-ui
-- provides (the refresh of the tokens, `clearAuth`, and the two tests on an error), are parameters.
pub mod Session
pub mod Retry
mod Tests
use nfx_edge.Common.{
  ℕ, zero, suc, ◌+◌, Text, codes, Bool, true, false, not, ◌&&◌, Option, none, some, List, [], ◌∷◌,
  ◌++◌, ◌==◌, if◌then◌else◌, is_empty,
}

-- The part of `AuthStore` that the client reads.
pub record Auth : Type 0 where
  pub access_token : Option Text
  pub refresh_token : Option Text
  pub is_auth_valid : Bool
  pub current_profile_id : Option Text
  pub current_account_id : Option Text

-- The part of a request's configuration that the interceptors touch.
pub record Request : Type 0 where
  pub url : Text
  pub retry : Bool
  pub is_form : Bool
  pub content_type : Option Text
  pub authorization : Option Text

-- An `AxiosError`: the status of its response, its code, and if it has a configuration.
pub record ApiError : Type 0 where
  pub status : Option ℕ
  pub err_code : Text
  pub has_config : Bool

pub data Reply : Type 0 where
  ok : Reply
  foreign : Reply
  failed : ApiError → Reply

-- The store, and what went out: the requests, the LOGOUT events, the refreshes.
pub record World : Type 0 where
  pub auth : Auth
  pub sent : List Request
  pub logouts : List (Option Text)
  pub refreshes : ℕ

pub data Outcome : Type 0 where
  resolved : Outcome
  rejected : Reply → Outcome

-- A text is truthy if it is there and not empty.
abbrev pub present : Option Text → Bool
present none = false
present (some t) = not (is_empty t)

-- The two request interceptors; axios runs the one that was added last first.
unfoldable pub drop_content_type : Request → Request
drop_content_type req = if req.is_form then record req { content_type = none } else req

unfoldable pub attach_token : Option Text → Request → Request
attach_token none req = req
attach_token (some token) req =
    if is_empty token then req else record req { authorization = some (codes "Bearer " ++ token) }

unfoldable pub prepare : Auth → Request → Request
unfolding drop_content_type attach_token
prepare auth req = drop_content_type (attach_token auth.access_token req)

-- `error.response?.status === 401 && error.config && !error.config._retry`
unfoldable pub may_retry : Request → ApiError → Bool
may_retry req error =
    (elim error.status [ none ↦ false | some n ↦ n == 401 ]) && error.has_config && not req.retry

pub record Host : Type 0 where
  pub server : List Request → Reply
  pub refresh : Auth → Option (Bool × Auth)
  pub clear_auth : Auth → Auth
  pub has_selected_profile : Option Text → Bool
  pub immediate_logout : ApiError → Bool
  pub logout_after_retry : ApiError → Bool

module _ (host : Host) where
  -- `emitLogout`
  unfoldable pub emit_logout : World → World
  emit_logout w =
      if not w.auth.is_auth_valid
      then w
      else if not (host.has_selected_profile w.auth.current_profile_id)
      then w
      else record w {
        logouts = w.logouts ++ w.auth.current_account_id ∷ [];
        auth = host.clear_auth w.auth;
      }

  -- The part behind `await refreshAuthTokens("401")`, whose exception is `none`; `again` sends the
  -- request once more.
  unfoldable pub after_refresh :
      (Request → World → Option Outcome × World)
      → Option (Bool × Auth)
      → Request
      → Reply
      → World
      → Option Outcome × World
  unfolding emit_logout
  after_refresh again none req reply w = (some (rejected reply), emit_logout w)
  after_refresh again (some (false, auth)) req reply w =
      (some (rejected reply), emit_logout (record w { auth = auth }))
  after_refresh again (some (true, auth)) req reply w = again req (record w { auth = auth })

  -- The response interceptor on an error.
  unfoldable pub on_error :
      (Request → World → Option Outcome × World)
      → Request
      → ApiError
      → World
      → Option Outcome × World
  unfolding emit_logout after_refresh may_retry
  on_error again req error w =
      let reply = failed error in
      if host.immediate_logout error
      then (some (rejected reply), emit_logout w)
      else if may_retry req error
      then after_refresh again (host.refresh w.auth) (record req { retry = true }) reply
          (record w { refreshes = w.refreshes + 1 })
      else if host.logout_after_retry error
      then (some (rejected reply), emit_logout w)
      else (some (rejected reply), w)

  unfoldable pub on_reply :
      (Request → World → Option Outcome × World) → Reply → Request → World → Option Outcome × World
  unfolding on_error
  on_reply again ok req w = (some resolved, w)
  on_reply again foreign req w = (some (rejected foreign), w)
  on_reply again (failed error) req w = on_error again req error w

  -- `protectedClient.request`; the fuel counts the attempts, and `none` means that it ran out.
  unfoldable pub perform : ℕ → Request → World → Option Outcome × World
  unfolding prepare on_reply
  perform zero req w = (none, w)
  perform (suc fuel) req w =
      let out = prepare w.auth req in
      let w' = record w { sent = w.sent ++ out ∷ [] } in
      on_reply (λ r v. perform fuel r v) (host.server w'.sent) out w'

  -- `logoutSession`: the answer of the server to `Logout` makes no difference. The tokens that are
  -- revoked come first.
  unfoldable pub logout_session : World → List Text × World
  logout_session w =
      let w' : World =
        if present w.auth.current_account_id
        then record w { logouts = w.logouts ++ w.auth.current_account_id ∷ [] }
        else w in
      (
        (elim w.auth.refresh_token [
          | none ↦ []
          | some token ↦ if is_empty token then [] else token ∷ []
        ]),
        record w' { auth = host.clear_auth w.auth },
      )
