-- ===== src/Background/Numbered.antt =====
-- The sort orders of the drafts under every action of
-- console/src/pages/User/Profile/Edit/backgrounds/useUserProfileBackgroundUpload.ts, in any order
-- and with uploads in progress.
use nfx_edge.Common.{
  ℕ, suc, ◌-◌, ◌∙◌, ◌≡◌, refl, inl, inr, Text, Bool, true, false, ◌||◌, Option, none, some, List,
  [], ◌∷◌, map, arith, ◌==◌, length, take, Bool-cases, sort_by,
}
use nfx_edge.Background.Drafts.{Draft, File, Item}
use nfx_edge.Background.Sorting.{IsNumbered, number_from-IsNumbered, normalize-IsNumbered}
use nfx_edge.Background.Upload.{
  Hook, server_drafts, server_drafts_from, patch_draft, mark_preparing, mark_complete, mark_failed,
  upload_begin, upload_done, upload_fail, sync, upload_slot, item_le,
}
use nfx_edge.Background.Actions.{
  occupied, images_of, placeholders, Direction, Check, wait, rejected, send, accept_images,
  begin_upload, remove_target, remove_draft, move_between, move_at, move_found, move_draft,
  confirmed, after_check, is_fixed, shift,
}

map-IsNumbered :
    (f : Draft → Draft)
    → ((d : Draft) → (f d).sort_order ≡ d.sort_order)
    → (k : ℕ) (ds : List Draft) → IsNumbered k ds
    → IsNumbered k (map f ds)
map-IsNumbered f keeps k [] h = tt
map-IsNumbered f keeps k (d ∷ ds) h = (keeps d ∙ h.0, map-IsNumbered f keeps (suc k) ds h.1)

patch-IsNumbered :
    (local_id server_id : Text) (patch : Draft → Draft)
    → ((d : Draft) → (patch d).sort_order ≡ d.sort_order)
    → (ds : List Draft) → IsNumbered 0 ds
    → IsNumbered 0 (patch_draft local_id server_id patch ds)
unfolding patch_draft
patch-IsNumbered local_id server_id patch keeps ds h =
    map-IsNumbered _ (λ d. ground (arith, keeps d)) 0 ds h

server_drafts_from-IsNumbered :
    (image_url : Text → Text) (k : ℕ) (items : List Item)
    → IsNumbered k (server_drafts_from image_url k items)
unfolding server_drafts_from
server_drafts_from-IsNumbered image_url k [] = tt
server_drafts_from-IsNumbered image_url k (item ∷ items) =
    (refl, server_drafts_from-IsNumbered image_url (suc k) items)

-- What can happen to the hook: new server drafts, files, the steps of an upload and its end, and
-- the calls of the three other actions; `asked` and `answered` are the two halves of a confirmation.
pub data Event : Type 0 where
  synced : List Draft → Event
  added : (confirming : Bool) → List File → Event
  began : (local_id : Text) → Event
  got_slot : (local_id slot : Text) → Event
  finished : (local_id server_id : Text) → Event
  broke : (local_id server_id message : Text) → Event
  uploads_over : Event
  removed : Text → Event
  moved : Text → Direction → Event
  asked : Check → Event
  answered : Bool → Event

module _ (locale_le : Text → Text → Bool) (max_images : ℕ) where
  unfoldable pub step : Event → Hook → Hook
  step (synced server) h = sync locale_le server h
  step (added confirming files) h = (begin_upload locale_le max_images confirming files h).0
  step (began local_id) h = upload_begin local_id h
  step (got_slot local_id slot) h = upload_slot locale_le local_id slot h
  step (finished local_id server_id) h = upload_done local_id server_id h
  step (broke local_id server_id message) h = upload_fail local_id server_id message h
  step uploads_over h = record h { busy = false }
  step (removed id) h = remove_draft locale_le max_images id h
  step (moved id direction) h = move_draft locale_le max_images id direction h
  step (asked check) h = after_check locale_le max_images check false h
  step (answered true) h = confirmed locale_le max_images h
  step (answered false) h = h

  unfoldable pub run : List Event → Hook → Hook
  unfolding step
  run [] h = h
  run (e ∷ events) h = run events (step e h)

  accept-IsNumbered :
      (images : List File) (h : Hook)
      → IsNumbered 0 h.drafts
      → IsNumbered 0 (accept_images locale_le max_images images h).0.drafts
  unfolding accept_images
  accept-IsNumbered images h n =
      elim (Bool-cases (
        length (placeholders (length h.drafts) (take (max_images - occupied h.drafts) images))
        == 0)) [ inl e ↦ rw e n | inr e ↦ rw e (normalize-IsNumbered locale_le _) ]

  begin-IsNumbered :
      (confirming : Bool) (files : List File) (h : Hook)
      → IsNumbered 0 h.drafts
      → IsNumbered 0 (begin_upload locale_le max_images confirming files h).0.drafts
  unfolding begin_upload
  begin-IsNumbered confirming files h n = elim (Bool-cases (h.busy || confirming)) [
    | inl e ↦ rw e n
    | inr e ↦ elim (Bool-cases (length (images_of files) == 0)) [
      | inl f ↦ rw (e, f) n
      | inr f ↦ rw (e, f) (accept-IsNumbered (images_of files) h n)
    ]
  ]

  remove-IsNumbered :
      (id : Text) (o : Option Draft) (h : Hook)
      → IsNumbered 0 h.drafts
      → IsNumbered 0 (remove_target locale_le max_images id o h).drafts
  unfolding remove_target
  remove-IsNumbered id none h n = n
  remove-IsNumbered id (some target) h n = normalize-IsNumbered locale_le _

  between-IsNumbered :
      (index next : ℕ) (a b : Option Draft) (h : Hook)
      → IsNumbered 0 h.drafts
      → IsNumbered 0 (move_between locale_le max_images index next a b h).drafts
  unfolding move_between
  between-IsNumbered index next (some a) (some b) h n =
      elim (Bool-cases (is_fixed a || is_fixed b)) [
        | inl e ↦ rw e n
        | inr e ↦ rw e (number_from-IsNumbered 0 _)
      ]
  between-IsNumbered index next (some a) none h n = n
  between-IsNumbered index next none b h n = n

  move-IsNumbered :
      (o : Option ℕ) (direction : Direction) (h : Hook)
      → IsNumbered 0 h.drafts
      → IsNumbered 0 (move_found locale_le max_images o direction h).drafts
  unfolding move_found
  move-IsNumbered none direction h n = n
  move-IsNumbered (some index) direction h n = at (shift index direction)
    where
      at : (next : Option ℕ) → IsNumbered 0 (move_at locale_le max_images index next h).drafts
      at none = n
      at (some next) = between-IsNumbered index next _ _ h n

  check-IsNumbered :
      (check : Check) (h : Hook)
      → IsNumbered 0 h.drafts
      → IsNumbered 0 (after_check locale_le max_images check false h).drafts
  unfolding after_check
  check-IsNumbered wait h n = n
  check-IsNumbered (rejected message) h n = n
  check-IsNumbered (send items) h n = n

  step-IsNumbered : (e : Event) (h : Hook) → IsNumbered 0 h.drafts → IsNumbered 0 (step e h).drafts
  unfolding step sync upload_slot upload_begin upload_done upload_fail remove_draft move_draft
  step-IsNumbered (synced server) h n = normalize-IsNumbered locale_le _
  step-IsNumbered (added confirming files) h n = begin-IsNumbered confirming files h n
  step-IsNumbered (began local_id) h n =
      patch-IsNumbered local_id local_id mark_preparing (λ d. refl) h.drafts n
  step-IsNumbered (got_slot local_id slot) h n = normalize-IsNumbered locale_le _
  step-IsNumbered (finished local_id server_id) h n =
      patch-IsNumbered local_id server_id mark_complete (λ d. refl) h.drafts n
  step-IsNumbered (broke local_id server_id message) h n =
      patch-IsNumbered local_id server_id (mark_failed message) (λ d. refl) h.drafts n
  step-IsNumbered uploads_over h n = n
  step-IsNumbered (removed id) h n = remove-IsNumbered id _ h n
  step-IsNumbered (moved id direction) h n = move-IsNumbered _ direction h n
  step-IsNumbered (asked check) h n = check-IsNumbered check h n
  step-IsNumbered (answered true) h n = unfold confirmed in normalize-IsNumbered locale_le _
  step-IsNumbered (answered false) h n = n

  run_from-IsNumbered :
      (events : List Event) (h : Hook) → IsNumbered 0 h.drafts → IsNumbered 0 (run events h).drafts
  unfolding run
  run_from-IsNumbered [] h n = n
  run_from-IsNumbered (e ∷ events) h n =
      run_from-IsNumbered events (step e h) (step-IsNumbered e h n)

-- The hook as it is first rendered.
unfoldable pub initial : List Draft → Hook
initial server = record {
  drafts = server;
  image_error = none;
  busy = false;
  dirty = false;
  deleted = [];
  revoked = [];
  shown = [];
}

-- From the first render on, whatever happens in whatever order, also while uploads wait for the
-- server: the drafts stand in the order of their sort orders, which are 0, 1, 2 and so on.
pub run-IsNumbered :
    (locale_le : Text → Text → Bool) (max_images : ℕ) (image_url : Text → Text) (items : List Item)
    (events : List Event)
    → IsNumbered 0
        (run locale_le max_images events (initial (server_drafts locale_le image_url items))).drafts
unfolding server_drafts initial
run-IsNumbered locale_le max_images image_url items events =
    run_from-IsNumbered locale_le max_images events
      (initial (server_drafts locale_le image_url items))
      (server_drafts_from-IsNumbered image_url 0 (sort_by (item_le locale_le) items))
