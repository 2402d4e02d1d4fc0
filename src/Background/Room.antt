-- ===== src/Background/Room.antt =====
-- How many files are accepted: `uploadFiles` of
-- console/src/pages/User/Profile/Edit/backgrounds/useUserProfileBackgroundUpload.ts.
use Prim.Native.Nat.{min, max}
use nfx_edge.Common.{
  ℕ, suc, ◌+◌, ◌-◌, ◌≤◌, ◌∙◌, ◌≡◌, refl, ap, inl, inr, Text, Bool, false, not, ◌||◌, none, some,
  List, [], ◌∷◌, ◌++◌, arith, ◌==◌, if◌then◌else◌, filter, length, length-append, take, length-take,
  filter-append, ltb, ==_iff, ◌<◌, Bool-cases, insert_by, sort_by,
}
use nfx_edge.Background.Drafts.{
  Draft, File, number_from, normalize_sort_orders, draft_le, is_failed,
}
use nfx_edge.Background.Upload.{Hook, limit_reached}
use nfx_edge.Background.Actions.{occupied, images_of, placeholders, accept_images, begin_upload}

occupied-insert :
    (le : Draft → Draft → Bool) (d : Draft) (ds : List Draft)
    → occupied (insert_by le d ds) ≡ occupied (d ∷ ds)
unfolding insert_by
occupied-insert le d [] = refl
occupied-insert le d (e ∷ es) = elim (Bool-cases (le d e)) [
  | inl q ↦ rw q
  | inr q ↦ rw q (ground (arith, occupied-insert le d es))
]

occupied-sort :
    (le : Draft → Draft → Bool) (ds : List Draft) → occupied (sort_by le ds) ≡ occupied ds
unfolding sort_by
occupied-sort le [] = refl
occupied-sort le (d ∷ ds) =
    occupied-insert le d (sort_by le ds) ∙ ground (arith, occupied-sort le ds)

occupied-number_from : (k : ℕ) (ds : List Draft) → occupied (number_from k ds) ≡ occupied ds
unfolding number_from
occupied-number_from k [] = refl
occupied-number_from k (d ∷ ds) = ground (arith, occupied-number_from (suc k) ds)

pub occupied-normalize :
    (locale_le : Text → Text → Bool) (ds : List Draft)
    → occupied (normalize_sort_orders locale_le ds) ≡ occupied ds
unfolding normalize_sort_orders
occupied-normalize locale_le ds =
    occupied-number_from 0 (sort_by (draft_le locale_le) ds) ∙ occupied-sort (draft_le locale_le) ds

occupied-append : (ds es : List Draft) → occupied (ds ++ es) ≡ occupied ds + occupied es
occupied-append ds es =
    ap length (filter-append (λ d. not (is_failed d)) ds es)
    ∙ length-append (filter (λ d. not (is_failed d)) ds) _

placeholders_lem :
    (order : ℕ) (files : List File)
    → (occupied (placeholders order files) ≡ length files)
      × (length (placeholders order files) ≡ length files)
unfolding placeholders
placeholders_lem order [] = (refl, refl)
placeholders_lem order (file ∷ files) = ground (arith, placeholders_lem (suc order) files)

module _ (locale_le : Text → Text → Bool) (max_images : ℕ) where
  -- What `accept_images` adds.
  abbrev room_tasks : List File → Hook → List Draft
  room_tasks images h =
      placeholders (length h.drafts) (take (max_images - occupied h.drafts) images)

  accept_drafts :
      (images : List File) (h : Hook)
      → occupied (accept_images locale_le max_images images h).0.drafts
        ≡ occupied h.drafts + length (room_tasks images h)
  unfolding accept_images
  accept_drafts images h = elim (Bool-cases (length (room_tasks images h) == 0)) [
    | inl e ↦ rw e (omega (arith, (==_iff (length (room_tasks images h)) 0).0 e))
    | inr e ↦ rw e (
        occupied-normalize locale_le (h.drafts ++ room_tasks images h)
        ∙ omega (
          arith,
          occupied-append h.drafts (room_tasks images h),
          placeholders_lem (length h.drafts) (take (max_images - occupied h.drafts) images),
        ))
  ]

  accept_tasks :
      (images : List File) (h : Hook)
      → length (room_tasks images h) ≡ min (max_images - occupied h.drafts) (length images)
  accept_tasks images h = omega (
    arith,
    placeholders_lem (length h.drafts) (take (max_images - occupied h.drafts) images),
    length-take (max_images - occupied h.drafts) images,
  )

pos_test : (n : ℕ) → 0 < n → (n == 0) ≡ false
pos_test n h = ground arith

module _ (locale_le : Text → Text → Bool) (max_images : ℕ) (confirming : Bool) (files : List File)
    (h : Hook) where
  begin_accepts :
      (h.busy || confirming) ≡ false
      → (length (images_of files) == 0) ≡ false
      → begin_upload locale_le max_images confirming files h
        ≡ accept_images locale_le max_images (images_of files) h
  unfolding begin_upload
  begin_accepts free some_image = rw (free, some_image)

-- Outside an upload and a confirmation, files with an image among them add as many drafts as there
-- are images and free places, the smaller number; the places that are taken grow by just that
-- number, and the limit is reported exactly when there are more images than free places.
pub begin_upload_lem :
    (locale_le : Text → Text → Bool) (max_images : ℕ) (confirming : Bool) (files : List File)
    (h : Hook)
    → (h.busy || confirming) ≡ false
    → 0 < length (images_of files)
    → (length (begin_upload locale_le max_images confirming files h).1
        ≡ min (max_images - occupied h.drafts) (length (images_of files)))
      × (occupied (begin_upload locale_le max_images confirming files h).0.drafts
          ≡ occupied h.drafts + length (begin_upload locale_le max_images confirming files h).1)
      × ((begin_upload locale_le max_images confirming files h).0.image_error ≡ (
          if ltb (max_images - occupied h.drafts) (length (images_of files))
          then some (limit_reached max_images)
          else none))
unfolding accept_images placeholders
begin_upload_lem locale_le max_images confirming files h free some_image =
    let images = images_of files in
    rw (begin_accepts locale_le max_images confirming files h free (pos_test _ some_image)) (
      unfold accept_images in accept_tasks locale_le max_images images h,
      accept_drafts locale_le max_images images h,
      unfold accept_images in refl,
    )

-- Adding files never takes more places than the gallery has, unless that many were taken before.
begin_upload-bound :
    (locale_le : Text → Text → Bool) (max_images : ℕ) (confirming : Bool) (files : List File)
    (h : Hook)
    → occupied (begin_upload locale_le max_images confirming files h).0.drafts
      ≤ max max_images (occupied h.drafts)
begin_upload-bound locale_le max_images confirming files h =
    elim (Bool-cases (h.busy || confirming)) [
      | inl e ↦ unfold begin_upload in rw e (omega arith)
      | inr e ↦ elim (Bool-cases (length (images_of files) == 0)) [
        | inl f ↦ unfold begin_upload in rw (e, f) (omega arith)
        | inr f ↦ rw (begin_accepts locale_le max_images confirming files h e f) (
            omega (
              arith,
              accept_drafts locale_le max_images (images_of files) h,
              accept_tasks locale_le max_images (images_of files) h,
            ))
      ]
    ]
