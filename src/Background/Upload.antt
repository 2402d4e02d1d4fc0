-- ===== src/Background/Upload.antt =====
-- The state and the operations of
-- console/src/pages/User/Profile/Edit/backgrounds/useUserProfileBackgroundUpload.ts. The calls of
-- the server are known by what they give back; `deleted` and `revoked` record the calls of
-- `deleteImage` and of `URL.revokeObjectURL`, `shown` the errors that are raised.
use nfx_edge.Common.{
  ℕ, suc, ◌+◌, Text, codes, Bool, true, false, not, ◌&&◌, ◌||◌, Option, none, some, List, [], ◌∷◌,
  ◌++◌, map, ◌==◌, ltb, if◌then◌else◌, filter, length, text_eq, contains, sort_by, decimal,
}
use nfx_edge.Background.Drafts.{
  preparing, uploading, complete, failed, Draft, Item, is_true, normalize_sort_orders,
}

-- What the hook shows: a translated key, or the text of an error of the API.
pub data Message : Type 0 where
  invalid_type : Message
  limit_reached : ℕ → Message
  wait_for_uploads : Message
  plain : Text → Message

pub record Hook : Type 0 where
  pub drafts : List Draft
  pub image_error : Option Message
  pub busy : Bool
  pub dirty : Bool
  pub deleted : List Text
  pub revoked : List Text
  pub shown : List Message

-- `getServerBackgroundDrafts`, of a sorted list, from an index on; `image_url` is `buildImageUrl`.
unfoldable pub server_draft : (Text → Text) → ℕ → Item → Draft
server_draft image_url index item = record {
  image_id = item.image_id;
  preview_url = image_url item.image_id;
  sort_order = index;
  file_name = some (codes "Background " ++ decimal (index + 1));
  file_size = none;
  progress = some 100;
  status = some complete;
  error = none;
  pending = some false;
  is_uploading = some false;
  has_tmp_asset = some false;
  committed = some true;
}

unfoldable pub server_drafts_from : (Text → Text) → ℕ → List Item → List Draft
unfolding server_draft
server_drafts_from image_url index [] = []
server_drafts_from image_url index (item ∷ items) =
    server_draft image_url index item ∷ server_drafts_from image_url (suc index) items

abbrev pub item_le : (Text → Text → Bool) → Item → Item → Bool
item_le locale_le a b =
    ltb a.sort_order b.sort_order
    || (a.sort_order == b.sort_order && locale_le a.image_id b.image_id)

unfoldable pub server_drafts : (Text → Text → Bool) → (Text → Text) → List Item → List Draft
unfolding server_drafts_from sort_by
server_drafts locale_le image_url items =
    server_drafts_from image_url 0 (sort_by (item_le locale_le) items)

-- `patchDraft`: the patch is applied to the drafts with one of two identifiers.
unfoldable pub patch_draft : Text → Text → (Draft → Draft) → List Draft → List Draft
patch_draft local_id server_id patch drafts =
    map (λ d. if text_eq d.image_id local_id || text_eq d.image_id server_id then patch d else d)
      drafts

abbrev pub mark_preparing : Draft → Draft
mark_preparing d = record d {
  pending = some false;
  is_uploading = some true;
  status = some preparing;
  progress = some 20;
  error = none;
}

abbrev pub mark_uploading : Text → Draft → Draft
mark_uploading id d = record d {
  image_id = id;
  has_tmp_asset = some true;
  committed = some false;
  is_uploading = some true;
  status = some uploading;
  progress = some 50;
}

abbrev pub mark_complete : Draft → Draft
mark_complete d = record d {
  pending = some false;
  is_uploading = some false;
  status = some complete;
  progress = some 100;
  error = none;
}

abbrev pub mark_failed : Text → Draft → Draft
mark_failed message d = record d {
  pending = some false;
  is_uploading = some false;
  status = some failed;
  progress = some 100;
  error = some message;
}

-- `uploadOne` up to its first wait.
unfoldable pub upload_begin : Text → Hook → Hook
unfolding patch_draft
upload_begin local_id h = record h {
  drafts = patch_draft local_id local_id mark_preparing h.drafts;
}

-- The upload is stored.
unfoldable pub upload_done : Text → Text → Hook → Hook
unfolding patch_draft
upload_done local_id server_id h = record h {
  drafts = patch_draft local_id server_id mark_complete h.drafts;
  dirty = true;
}

-- The handler of `uploadOne`, with the message of the error.
unfoldable pub upload_fail : Text → Text → Text → Hook → Hook
unfolding patch_draft text_eq
upload_fail local_id server_id message h = record h {
  drafts = patch_draft local_id server_id (mark_failed message) h.drafts;
  deleted = if text_eq server_id local_id then h.deleted else h.deleted ++ server_id ∷ [];
  image_error = some (plain message);
}

-- What the server answers to one upload: no slot, a slot whose upload fails, or a stored upload.
pub data Outcome : Type 0 where
  no_slot : (message : Text) → Outcome
  put_failed : (slot message : Text) → Outcome
  stored : (slot : Text) → Outcome

module _ (locale_le : Text → Text → Bool) where
  -- The effect on new server drafts: local drafts are kept behind them.
  unfoldable pub local_drafts : List Draft → List Draft → List Draft
  local_drafts server current =
      filter
        (λ d. not (is_true d.committed) && not (contains (map (λ s. s.image_id) server) d.image_id))
        current

  unfoldable pub sync : List Draft → Hook → Hook
  unfolding local_drafts
  sync server h =
      let kept = local_drafts server h.drafts in
      record h {
        drafts = normalize_sort_orders locale_le (server ++ kept);
        dirty = if ltb 0 (length kept) then h.dirty else false;
      }

  -- The slot that the server prepared replaces the draft's identifier.
  unfoldable pub upload_slot : Text → Text → Hook → Hook
  upload_slot local_id slot h = record h {
    drafts =
        normalize_sort_orders locale_le
          (map (λ d. if text_eq d.image_id local_id then mark_uploading slot d else d) h.drafts);
  }

  -- `uploadOne`, if nothing else happens while it waits.
  unfoldable pub upload_one : Draft → Outcome → Hook → Hook
  unfolding upload_begin upload_slot upload_done upload_fail
  upload_one draft (no_slot message) h =
      upload_fail draft.image_id draft.image_id message (upload_begin draft.image_id h)
  upload_one draft (put_failed slot message) h =
      upload_fail draft.image_id slot message
        (upload_slot draft.image_id slot (upload_begin draft.image_id h))
  upload_one draft (stored slot) h =
      upload_done draft.image_id slot
        (upload_slot draft.image_id slot (upload_begin draft.image_id h))

  unfoldable pub upload_all : List Draft → (Draft → Outcome) → Hook → Hook
  unfolding upload_one
  upload_all [] server h = h
  upload_all (task ∷ tasks) server h = upload_all tasks server (upload_one task (server task) h)
