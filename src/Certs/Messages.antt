-- ===== src/Certs/Messages.antt =====
-- What the messages of commands show, and what a mutation leaves stale.
use nfx_edge.Common.{
  ◌≡◌, refl, ap, inl, inr, ◌⊎◌, Text, codes, Bool, true, false, not, Option, none, some, List, [],
  ◌∷◌, ◌++◌, append_assoc, if◌then◌else◌, any, trim, or_else,
}
use nfx_edge.Modal.Store.{show_modal}
use nfx_edge.Modal.Helpers.{show_error}
use nfx_edge.Modal.Slots.{opened, base_slot}
use nfx_edge.Query.{
  Key, tls_list, Event, invalidate_tls, invalidate_directory, on_event, on_invalidate_tls, is_stale,
}
use nfx_edge.Certs.{
  Call, apply, reapply, create, update, delete, export_single, export_all, invalidate_cache,
  delete_path, Response, Answer, answered, thrown, World, Env, present, lookup, command_message,
  send, emit, fail, invalidate_after_success, on_success, settle, mutate,
}

-- A looked up text is empty, or it has a character that is no white space.
lookup_cases :
    (env : Env) (ns key : Text) → (lookup env ns key ≡ []) ⊎ (present (lookup env ns key) ≡ true)
unfolding lookup
lookup_cases env ns key = clip (present (env.bundle ns key)) _ (env.bundle ns key) refl
  where
    clip :
        (p b : Bool) (s : Text)
        → present s ≡ p
        → ((if not p then [] else (if b then [] else s)) ≡ [])
          ⊎ (present (if not p then [] else (if b then [] else s)) ≡ true)
    clip true true s h = inl refl
    clip true false s h = inr h
    clip false b s h = inl refl

if_present :
    (b : Bool) (s t : Text)
    → present s ≡ true
    → present t ≡ true
    → present (if b then s else t) ≡ true
if_present true s t h k = h
if_present false s t h k = k

or_else-present :
    (s t : Text) → (s ≡ []) ⊎ (present s ≡ true) → present t ≡ true → present (or_else s t) ≡ true
or_else-present [] t h k = k
or_else-present (c ∷ s) t (inl e) k = absurd (cc)
or_else-present (c ∷ s) t (inr h) k = h

-- With a fallback that is not blank, no command has a blank message, whatever the bundles hold.
command_message_lem :
    (env : Env) (code fallback : Text)
    → present fallback ≡ true
    → present (command_message env code fallback) ≡ true
unfolding command_message
command_message_lem env code fallback h =
    let key = trim code in
    if_present (not (present code)) fallback _ h (
      or_else-present _ _ (lookup_cases env env.messages_ns (key ++ codes ".body")) (
        or_else-present _ _ (lookup_cases env env.messages_ns (key ++ codes ".title"))
          (or_else-present _ _ (lookup_cases env env.errors_ns key) h)))

-- The TLS commands.
abbrev pub is_tls : Call → Bool
is_tls (export_single id) = false
is_tls (delete_path path) = false
is_tls _ = true

abbrev pub is_stale_in : List Event → Key → Bool
is_stale_in events key = any (λ event. is_stale event key) events

tls_event_stale :
    (key : Option Key) (item : Text)
    → is_stale (invalidate_tls key) (record { family = tls_list; item = item }) ≡ true
unfolding is_stale on_event on_invalidate_tls
tls_event_stale none item = refl
tls_event_stale (some key) item = refl

-- The events that were added make the certificate lists stale.
abbrev pub AddsStale : Text → World → World → Type 0
AddsStale item w w' =
    (new : List Event) × (w'.events ≡ w.events ++ new)
    × (is_stale_in new (record { family = tls_list; item = item }) ≡ true)

module _ (item : Text) (w : World) where
  invalidate_keeps : (response : Response) → (invalidate_after_success response w).events ≡ w.events
  unfolding invalidate_after_success send
  invalidate_keeps response = by_success response.success
    where
      by_success :
          (b : Bool)
          → (if b then record w { calls = w.calls ++ invalidate_cache ∷ [] } else w).events
            ≡ w.events
      by_success true = refl
      by_success false = refl

  emit-AddsStale :
      (key : Option Key) (v : World)
      → v.events ≡ w.events
      → AddsStale item w (emit (invalidate_tls key) v)
  unfolding emit
  emit-AddsStale key v same = (
    invalidate_tls key ∷ [],
    ap (λ events. events ++ invalidate_tls key ∷ []) same,
    rw (tls_event_stale key item) refl,
  )

  on_success-AddsStale :
      (call : Call) (response : Response)
      → is_tls call ≡ true
      → AddsStale item w (on_success call response w)
  unfolding on_success
  on_success-AddsStale (apply request) response h =
      emit-AddsStale none (invalidate_after_success response w) (invalidate_keeps response)
  on_success-AddsStale (reapply id force) response h =
      emit-AddsStale none (invalidate_after_success response w) (invalidate_keeps response)
  on_success-AddsStale (create request) response h = emit-AddsStale none w refl
  on_success-AddsStale (update request) response h = emit-AddsStale _ w refl
  on_success-AddsStale (delete id) response h = emit-AddsStale none w refl
  on_success-AddsStale invalidate_cache response h = emit-AddsStale none w refl
  on_success-AddsStale export_all response h = (
    invalidate_tls none ∷ invalidate_directory ∷ [],
    unfold emit in append_assoc w.events (invalidate_tls none ∷ []) (invalidate_directory ∷ []),
    rw (tls_event_stale none item) refl,
  )
  on_success-AddsStale (export_single id) response h = absurd (cc)
  on_success-AddsStale (delete_path path) response h = absurd (cc)

-- A TLS command that is answered, with success or not, makes every certificate list stale; one that
-- throws makes nothing stale, and opens the error dialog with the message of the exception.
pub mutate_lem :
    (env : Env) (call : Call) (item : Text) (w : World)
    → is_tls call ≡ true
    → ((response : Response) × ((mutate env call w).0 ≡ answered response)
        × AddsStale item w (mutate env call w).1)
      ⊎ ((message : Text) × ((mutate env call w).0 ≡ thrown message)
          × ((mutate env call w).1.events ≡ w.events)
          × ((mutate env call w).1.modal.base_modal.message ≡ some message)
          × (opened (mutate env call w).1.modal base_slot ≡ true))
unfolding mutate
mutate_lem env call item w h = by_answer (env.server (w.calls ++ call ∷ [])) refl
  where
    by_answer :
        (a : Answer)
        → env.server (w.calls ++ call ∷ []) ≡ a
        → ((response : Response) × (env.server (w.calls ++ call ∷ []) ≡ answered response)
            × AddsStale item w (settle call a (send call w)))
          ⊎ ((message : Text) × (env.server (w.calls ++ call ∷ []) ≡ thrown message)
              × ((settle call a (send call w)).events ≡ w.events)
              × ((settle call a (send call w)).modal.base_modal.message ≡ some message)
              × (opened (settle call a (send call w)).modal base_slot ≡ true))
    by_answer (answered response) q =
        inl (
          response,
          q,
          unfold settle send in on_success-AddsStale item (send call w) call response h,
        )
    by_answer (thrown message) q =
        inr (unfold settle send fail show_error show_modal in (message, q, refl, refl, refl))
