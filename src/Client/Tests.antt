-- ===== src/Client/Tests.antt =====
-- Runs of the HTTP client against a server that wants the token "new", and its theorems there.
use nfx_edge.Common.{
  ◌≡◌, refl, Text, codes, Bool, true, false, Option, none, some, List, [], ◌∷◌, ◌++◌, if◌then◌else◌,
  text_eq,
}
use nfx_edge.Client.{
  Auth, Request, ApiError, Reply, ok, failed, World, resolved, rejected, Host, prepare, may_retry,
  emit_logout, perform, logout_session, present,
}
use nfx_edge.Client.Retry.{Settled, perform_lem}
use nfx_edge.Client.Session.{Ended, perform-retries, perform-logouts}

abbrev unauthorized : ApiError
unauthorized = record { status = some 401; err_code = codes "EXPIRED"; has_config = true }

abbrev carries : Option Text → Text → Bool
carries none token = false
carries (some t) token = text_eq t (codes "Bearer " ++ token)

-- The answer to the last request.
abbrev serve : List Request → Reply
serve [] = ok
serve (r ∷ []) = if carries r.authorization (codes "new") then ok else failed unauthorized
serve (r ∷ s ∷ rs) = serve (s ∷ rs)

abbrev cleared : Auth → Auth
cleared auth = record {
  access_token = none;
  refresh_token = none;
  is_auth_valid = false;
  current_profile_id = none;
  current_account_id = none;
}

abbrev renewed : Auth
renewed = record {
  access_token = some (codes "new");
  refresh_token = some (codes "next");
  is_auth_valid = true;
  current_profile_id = some (codes "p");
  current_account_id = some (codes "a");
}

abbrev expired : Auth
expired = record renewed { access_token = some (codes "old") }

abbrev host : Host
host = record {
  server = serve;
  refresh = λ auth. some (true, renewed);
  clear_auth = cleared;
  has_selected_profile = present;
  immediate_logout = λ error. false;
  logout_after_retry = λ error. true;
}

abbrev no_refresh : Host
no_refresh = record host { refresh = λ auth. none }

abbrev get : Request
get = record {
  url = codes "/certs";
  retry = false;
  is_form = false;
  content_type = none;
  authorization = none;
}

abbrev w0 : World
w0 = record { auth = expired; sent = []; logouts = []; refreshes = 0 }

client_open : Unit {0}
unfolding text_eq perform may_retry emit_logout logout_session prepare
client_open = tt

second_try : (perform host 2 get w0).0 ≡ some resolved
unfolding client_open
second_try = refl

failed_refresh :
    ((perform no_refresh 2 get w0).0 ≡ some (rejected (failed unauthorized)))
    × ((perform no_refresh 2 get w0).1.logouts ≡ some (codes "a") ∷ [])
unfolding client_open
failed_refresh = (refl, refl)

revokes : (logout_session host w0).0 ≡ codes "next" ∷ []
unfolding client_open
revokes = refl

perform_lem_example :
    Settled (if get.retry then 1 else 2) (if get.retry then 0 else 1) w0 (perform host 2 get w0)
perform_lem_example = perform_lem host 0 get w0

perform-retries_example :
    (again : Request) × ((perform host 2 get w0).1.sent ≡ prepare expired get ∷ again ∷ [])
    × (again.retry ≡ true)
    × (again.authorization ≡ some (codes "Bearer " ++ codes "new"))
perform-retries_example =
    perform-retries host 0 get w0 unauthorized renewed (codes "new") answer refl may refl refl refl
  where
    answer : host.server (w0.sent ++ prepare expired get ∷ []) ≡ failed unauthorized
    answer = unfold client_open in refl

    may : may_retry get unauthorized ≡ true
    may = unfold may_retry in refl

perform-logouts_example : Ended w0 (perform no_refresh 2 get w0)
perform-logouts_example = perform-logouts no_refresh (λ auth. refl) 2 get w0
