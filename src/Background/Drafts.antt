-- ===== src/Background/Drafts.antt =====
-- console/src/pages/User/Profile/Edit/backgrounds/drafts.ts: drafts of background images, their
-- order, and what is sent of them. Sort orders are natural numbers. `localeCompare` of the host is
-- the parameter `locale_le`, true where it returns 0 or less; a file's identifier and object URL,
-- which the browser draws, come with the file.
use nfx_edge.Common.{
  ℕ, suc, Text, codes, Bool, true, false, not, ◌&&◌, ◌||◌, Option, none, some, List, [], ◌∷◌, map,
  ◌==◌, ltb, if◌then◌else◌, filter, starts_with, sort_by,
}

pub data UploadStatus : Type 0 where
  queued compressing preparing uploading complete failed : UploadStatus

pub record Draft : Type 0 where
  pub image_id : Text
  pub preview_url : Text
  pub sort_order : ℕ
  pub file_name : Option Text
  pub file_size : Option ℕ
  pub progress : Option ℕ
  pub status : Option UploadStatus
  pub error : Option Text
  pub pending : Option Bool
  pub is_uploading : Option Bool
  pub has_tmp_asset : Option Bool
  pub committed : Option Bool

-- A `File`, with the identifier and the object URL that a draft of it gets.
pub record File : Type 0 where
  pub name : Text
  pub mime_type : Text
  pub size : ℕ
  pub new_id : Text
  pub object_url : Text

-- `Pick<UserProfileBackgroundDraft, "imageId" | "sortOrder">`
pub record Item : Type 0 where
  pub image_id : Text
  pub sort_order : ℕ

-- A missing flag is falsy.
abbrev pub is_true : Option Bool → Bool
is_true none = false
is_true (some b) = b

abbrev pub status_is_active : Option UploadStatus → Bool
status_is_active (some queued) = true
status_is_active (some compressing) = true
status_is_active (some preparing) = true
status_is_active (some uploading) = true
status_is_active (some complete) = false
status_is_active (some failed) = false
status_is_active none = false

abbrev pub is_failed : Draft → Bool
is_failed d = elim d.status [ some failed ↦ true | _ ↦ false ]

-- `map((item, index) => ({ ...item, sortOrder: index }))`, from an index on.
unfoldable pub number_from : ℕ → List Draft → List Draft
number_from k [] = []
number_from k (d ∷ ds) = record d { sort_order = k } ∷ number_from (suc k) ds

unfoldable pub apply_sort_orders : List Draft → List Draft
unfolding number_from
apply_sort_orders ds = number_from 0 ds

module _ (locale_le : Text → Text → Bool) where
  -- `a.sortOrder - b.sortOrder || a.imageId.localeCompare(b.imageId)`, not above 0.
  abbrev pub draft_le : Draft → Draft → Bool
  draft_le a b =
      ltb a.sort_order b.sort_order
      || (a.sort_order == b.sort_order && locale_le a.image_id b.image_id)

  unfoldable pub normalize_sort_orders : List Draft → List Draft
  unfolding sort_by number_from
  normalize_sort_orders ds = number_from 0 (sort_by draft_le ds)

unfoldable pub create_placeholder : File → ℕ → Draft
create_placeholder file order = record {
  image_id = file.new_id;
  preview_url = file.object_url;
  sort_order = order;
  file_name = some file.name;
  file_size = some file.size;
  progress = some 0;
  status = some queued;
  error = none;
  pending = some true;
  is_uploading = none;
  has_tmp_asset = none;
  committed = some false;
}

unfoldable pub is_busy : Draft → Bool
is_busy d = is_true d.pending || is_true d.is_uploading || status_is_active d.status

unfoldable pub is_complete : Draft → Bool
unfolding is_busy
is_complete d = not (is_busy d) && not (is_failed d)

unfoldable pub drafts_to_items : List Draft → List Item
unfolding is_complete
drafts_to_items ds =
    map (λ d. record { image_id = d.image_id; sort_order = d.sort_order }) (filter is_complete ds)

-- `revokeUserProfileBackgroundPreviewUrl`: the URLs that are revoked.
unfoldable pub revoke_preview_url : Text → List Text
unfolding starts_with
revoke_preview_url url = if starts_with url (codes "blob:") then url ∷ [] else []
