-- ===== src/Background/Actions.antt =====
-- The actions that console/src/pages/User/Profile/Edit/backgrounds/useUserProfileBackgroundUpload.ts
-- returns, and its cleanup: adding files, removing, moving and confirming drafts.
use nfx_edge.Common.{
  ℕ, zero, suc, ◌-◌, Text, codes, Bool, true, false, not, ◌&&◌, ◌||◌, Option, none, some, List, [],
  ◌∷◌, ◌++◌, map, ◌==◌, ltb, if◌then◌else◌, filter, find, any, length, take, get_elem?, find_index,
  remove_at, insert_at, text_eq, starts_with,
}
use nfx_edge.Background.Drafts.{
  Draft, File, Item, is_true, status_is_active, is_failed, apply_sort_orders, normalize_sort_orders,
  create_placeholder, is_busy, drafts_to_items, revoke_preview_url,
}
use nfx_edge.Background.Upload.{
  Message, invalid_type, limit_reached, wait_for_uploads, Hook, Outcome, upload_all,
}

-- How many places of the gallery are taken: the drafts that did not fail.
abbrev pub occupied : List Draft → ℕ
occupied ds = length (filter (λ d. not (is_failed d)) ds)

unfoldable pub images_of : List File → List File
unfolding starts_with
images_of files = filter (λ file. starts_with file.mime_type (codes "image/")) files

-- `accepted.map((file, index) => createPlaceholder(file, startOrder + index))`
unfoldable pub placeholders : ℕ → List File → List Draft
unfolding create_placeholder
placeholders order [] = []
placeholders order (file ∷ files) = create_placeholder file order ∷ placeholders (suc order) files

-- `uploading` of the hook
unfoldable pub uploading_now : Hook → Bool
unfolding is_busy
uploading_now h = h.busy || any is_busy h.drafts

-- `isUploadActive(status) || pending || status === "failed"`: a draft that is not moved.
unfoldable pub is_fixed : Draft → Bool
is_fixed d = status_is_active d.status || is_true d.pending || is_failed d

pub data Direction : Type 0 where
  back forward : Direction

-- `index + direction`; `none` is -1.
abbrev pub shift : ℕ → Direction → Option ℕ
shift zero back = none
shift (suc i) back = some i
shift i forward = some (suc i)

-- What `confirmDrafts` does before it calls the server.
pub data Check : Type 0 where
  wait : Check
  rejected : Message → Check
  send : List Item → Check

module _ (locale_le : Text → Text → Bool) (max_images : ℕ) where
  -- `uploadFiles` with images to add, up to the first upload: the state and the tasks.
  unfoldable pub accept_images : List File → Hook → Hook × List Draft
  accept_images images h =
      let room = max_images - occupied h.drafts in
      let tasks = placeholders (length h.drafts) (take room images) in
      let limit_error : Option Message =
        if ltb room (length images) then some (limit_reached max_images) else none in
      (
        record h {
          drafts =
              if length tasks == 0
              then h.drafts
              else normalize_sort_orders locale_le (h.drafts ++ tasks);
          image_error = limit_error;
          busy = if length tasks == 0 then h.busy else true;
        },
        tasks,
      )

  -- `uploadFiles` up to the first upload; `confirming` is `confirmBackgrounds.isPending`.
  unfoldable pub begin_upload : Bool → List File → Hook → Hook × List Draft
  unfolding accept_images images_of
  begin_upload confirming files h =
      if h.busy || confirming
      then (h, [])
      else if length (images_of files) == 0
      then (record h { image_error = some invalid_type }, [])
      else accept_images (images_of files) h

  -- `uploadFiles` whole, if nothing else happens while it waits.
  unfoldable pub upload_files : Bool → List File → (Draft → Outcome) → Hook → Hook
  unfolding begin_upload upload_all
  upload_files confirming files server h =
      let (h', tasks) = begin_upload confirming files h in
      if length tasks == 0
      then h'
      else record (upload_all locale_le tasks server h') { busy = false }

  -- `removeDraft` behind `find`: revoke, delete a temporary asset, drop the draft.
  unfoldable pub drop_draft : Text → Draft → Hook → Hook
  unfolding revoke_preview_url
  drop_draft image_id target h = record h {
    drafts =
        normalize_sort_orders locale_le (filter (λ d. not (text_eq d.image_id image_id)) h.drafts);
    revoked = h.revoked ++ revoke_preview_url target.preview_url;
    deleted =
        if not (is_true target.committed) && is_true target.has_tmp_asset
        then h.deleted ++ image_id ∷ []
        else h.deleted;
  }

  unfoldable pub remove_target : Text → Option Draft → Hook → Hook
  unfolding drop_draft
  remove_target image_id none h = h
  remove_target image_id (some target) h = drop_draft image_id target h

  unfoldable pub remove_draft : Text → Hook → Hook
  unfolding remove_target
  remove_draft image_id h =
      record (remove_target image_id (find (λ d. text_eq d.image_id image_id) h.drafts) h) {
        dirty = true;
        image_error = none;
      }

  -- `moveDraft` behind the tests on the two drafts: two calls of `splice`.
  unfoldable pub splice_drafts : ℕ → ℕ → Draft → List Draft → List Draft
  unfolding apply_sort_orders
  splice_drafts index next active ds =
      apply_sort_orders (insert_at next active (remove_at index ds))

  -- `moveDraft` with the two places and the drafts that stand in them.
  unfoldable pub move_between : ℕ → ℕ → Option Draft → Option Draft → Hook → Hook
  unfolding splice_drafts is_fixed
  move_between index next (some active) (some over) h =
      if is_fixed active || is_fixed over
      then h
      else record h { drafts = splice_drafts index next active h.drafts; dirty = true }
  move_between index next _ _ h = h

  unfoldable pub move_at : ℕ → Option ℕ → Hook → Hook
  unfolding move_between
  move_at index none h = h
  move_at index (some next) h =
      move_between index next (get_elem? h.drafts index) (get_elem? h.drafts next) h

  unfoldable pub move_found : Option ℕ → Direction → Hook → Hook
  unfolding move_at
  move_found none direction h = h
  move_found (some index) direction h = move_at index (shift index direction) h

  unfoldable pub move_draft : Text → Direction → Hook → Hook
  unfolding move_found
  move_draft image_id direction h =
      move_found (find_index (λ d. text_eq d.image_id image_id) h.drafts) direction h

  -- `confirmDrafts` up to the call of the server; `problem` is the first issue of the schema.
  unfoldable pub confirm_check : (List Item → Option Message) → Hook → Check
  confirm_check problem h =
      let images = take max_images (drafts_to_items h.drafts) in
      if uploading_now h
      then wait
      else elim (problem images) [ some message ↦ rejected message | none ↦ send images ]

  abbrev pub commit : Draft → Draft
  commit d = record d { committed = some (not (is_failed d)); has_tmp_asset = some false }

  -- `confirmDrafts` behind the answer of the server.
  unfoldable pub confirmed : Hook → Hook
  confirmed h = record h {
    drafts = normalize_sort_orders locale_le (map commit h.drafts);
    dirty = false;
    image_error = none;
  }

  -- `confirmDrafts` whole; `answer` says if the server accepts. If it does not, the call throws.
  unfoldable pub after_check : Check → Bool → Hook → Hook
  unfolding confirmed
  after_check wait answer h = record h { image_error = some wait_for_uploads }
  after_check (rejected message) answer h = record h {
    image_error = some message;
    shown = h.shown ++ message ∷ [];
  }
  after_check (send items) true h = confirmed h
  after_check (send items) false h = h

-- The cleanup of the hook: every preview is revoked, and temporary assets are deleted.
unfoldable pub unmount_from : List Draft → Hook → Hook
unfolding revoke_preview_url
unmount_from [] h = h
unmount_from (d ∷ ds) h = unmount_from ds (record h {
  revoked = h.revoked ++ revoke_preview_url d.preview_url;
  deleted =
      if not (is_true d.committed) && is_true d.has_tmp_asset
      then h.deleted ++ d.image_id ∷ []
      else h.deleted;
})

unfoldable pub unmount : Hook → Hook
unfolding unmount_from
unmount h = unmount_from h.drafts h
