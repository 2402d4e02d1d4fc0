-- ===== src/Background/Confirm.antt =====
-- What `confirmDrafts` sends and leaves, and what the cleanup deletes afterwards:
-- console/src/pages/User/Profile/Edit/backgrounds/useUserProfileBackgroundUpload.ts.
use nfx_edge.Common.{
  ℕ, suc, ◌≤◌, ◌∙◌, ◌≡◌, refl, sym, ap, inl, inr, Text, Bool, false, not, Option, none, some, List,
  [], ◌∷◌, map, arith, filter, any, length, take, length-take, Bool-cases, Option-cases, All,
  insert_by, sort_by, find, subst,
}
use nfx_edge.Background.Drafts.{
  Draft, Item, number_from, normalize_sort_orders, draft_le, is_failed, is_busy, is_complete,
  drafts_to_items, is_true,
}
use nfx_edge.Background.Upload.{Hook, Message}
use nfx_edge.Background.Actions.{
  uploading_now, wait, rejected, send, confirm_check, confirmed, commit, unmount_from, unmount,
  remove_target, remove_draft,
}

any-All : (p : Draft → Bool) (ds : List Draft) → any p ds ≡ false → All (λ d. p d ≡ false) ds
any-All p [] h = tt
any-All p (d ∷ ds) h = ground (arith, any-All p ds)

filter_complete :
    (ds : List Draft)
    → All (λ d. is_busy d ≡ false) ds
    → filter is_complete ds ≡ filter (λ d. not (is_failed d)) ds
unfolding is_complete
filter_complete [] h = refl
filter_complete (d ∷ ds) h = ground (arith, filter_complete ds h.1, h.0)

-- What is sent of drafts.
abbrev pub item_of : Draft → Item
item_of d = record { image_id = d.image_id; sort_order = d.sort_order }

-- The drafts that did not fail, as they are sent.
abbrev pub sound_items : List Draft → List Item
sound_items ds = map item_of (filter (λ d. not (is_failed d)) ds)

idle_items :
    (ds : List Draft) → All (λ d. is_busy d ≡ false) ds → drafts_to_items ds ≡ sound_items ds
unfolding drafts_to_items
idle_items ds h = ap (map item_of) (filter_complete ds h)

module _ (locale_le : Text → Text → Bool) (max_images : ℕ) (problem : List Item → Option Message)
    (h : Hook) where
  sent_items : List Item
  sent_items = take max_images (drafts_to_items h.drafts)

  check_sends :
      (items : List Item)
      → confirm_check locale_le max_images problem h ≡ send items
      → (uploading_now h ≡ false) × (problem sent_items ≡ none) × (items ≡ sent_items)
  unfolding confirm_check sent_items
  check_sends items e = elim (Bool-cases (uploading_now h)) [
    | inl q ↦ absurd (wait-ne_send items (rw q at e))
    | inr q ↦ elim (Option-cases (problem (take max_images (drafts_to_items h.drafts)))) [
      | inl p ↦ (q, p, same_items (rw (q, p) at e))
      | inr (message, p) ↦ absurd (rejected-ne_send (rw (q, p) at e))
    ]
  ]
    where
      wait-ne_send : (items : List Item) → wait ≡ send items → ⊥
      wait-ne_send items f = cc

      rejected-ne_send : {message : Message} {items : List Item} → rejected message ≡ send items → ⊥
      rejected-ne_send f = cc

      same_items : {these those : List Item} → send these ≡ send those → those ≡ these
      same_items f = cc

idle_drafts :
    (h : Hook) → uploading_now h ≡ false → (h.busy ≡ false) × All (λ d. is_busy d ≡ false) h.drafts
unfolding uploading_now
idle_drafts h q = (ground arith, any-All is_busy h.drafts (ground arith))

length-take_le : (n : ℕ) (items : List Item) → length (take n items) ≤ n
length-take_le n items = omega (arith, length-take n items)

-- If a confirmation sends something, then no upload is under way and no draft is busy, and it sends
-- the drafts that did not fail, in their order, up to the number of places; the schema found no
-- issue in them.
pub confirm_check_lem :
    (locale_le : Text → Text → Bool) (max_images : ℕ) (problem : List Item → Option Message)
    (h : Hook) (items : List Item)
    → confirm_check locale_le max_images problem h ≡ send items
    → (h.busy ≡ false)
      × All (λ d. is_busy d ≡ false) h.drafts
      × (items ≡ take max_images (sound_items h.drafts))
      × (length items ≤ max_images)
      × (problem items ≡ none)
confirm_check_lem locale_le max_images problem h items e =
    let (idle, fine, same) = check_sends locale_le max_images problem h items e in
    let (free, calm) = idle_drafts h idle in
    let named : items ≡ take max_images (sound_items h.drafts) =
      same ∙ (unfold sent_items in ap (take max_images) (idle_items h.drafts calm)) in
    (
      free,
      calm,
      named,
      subst (λ (l : List Item). length l ≤ max_images) (sym same)
          (unfold sent_items in length-take_le max_images (drafts_to_items h.drafts)),
      ap problem same ∙ fine,
    )

-- The draft keeps nothing that the cleanup deletes.
abbrev pub HasNoTmp : Draft → Type 0
HasNoTmp d = is_true d.has_tmp_asset ≡ false

unmount_from-deleted :
    (ds : List Draft) (h : Hook) → All HasNoTmp ds → (unmount_from ds h).deleted ≡ h.deleted
unfolding unmount_from
unmount_from-deleted [] h k = refl
unmount_from-deleted (d ∷ ds) h k = unmount_from-deleted ds _ k.1 ∙ ground (arith, k.0)

insert-HasNoTmp :
    (le : Draft → Draft → Bool) (d : Draft) (ds : List Draft)
    → HasNoTmp d
    → All HasNoTmp ds
    → All HasNoTmp (insert_by le d ds)
unfolding insert_by
insert-HasNoTmp le d [] h k = (h, tt)
insert-HasNoTmp le d (e ∷ es) h k = elim (Bool-cases (le d e)) [
  | inl q ↦ rw q (h, k)
  | inr q ↦ rw q (k.0, insert-HasNoTmp le d es h k.1)
]

number_from-HasNoTmp : (k : ℕ) (ds : List Draft) → All HasNoTmp ds → All HasNoTmp (number_from k ds)
unfolding number_from
number_from-HasNoTmp k [] h = tt
number_from-HasNoTmp k (d ∷ ds) h = (h.0, number_from-HasNoTmp (suc k) ds h.1)

find-HasNoTmp :
    (p : Draft → Bool) (ds : List Draft) (d : Draft)
    → All HasNoTmp ds
    → find p ds ≡ some d
    → HasNoTmp d
find-HasNoTmp p [] d h e = cc
find-HasNoTmp p (f ∷ fs) d h e = elim (Bool-cases (p f)) [
  | inl q ↦ subst HasNoTmp (same (rw q at e)) h.0
  | inr q ↦ find-HasNoTmp p fs d h.1 (rw q at e)
]
  where
    same : {a b : Draft} → some a ≡ some b → a ≡ b
    same f = cc

module _ (locale_le : Text → Text → Bool) (max_images : ℕ) where
  sort-HasNoTmp :
      (ds : List Draft)
      → All HasNoTmp (sort_by (draft_le locale_le) (map (commit locale_le max_images) ds))
  unfolding sort_by
  sort-HasNoTmp [] = tt
  sort-HasNoTmp (d ∷ ds) = insert-HasNoTmp (draft_le locale_le) _ _ refl (sort-HasNoTmp ds)

  confirmed-HasNoTmp : (h : Hook) → All HasNoTmp (confirmed locale_le max_images h).drafts
  unfolding confirmed normalize_sort_orders
  confirmed-HasNoTmp h = number_from-HasNoTmp 0 _ (sort-HasNoTmp h.drafts)

  confirmed-deleted : (h : Hook) → (confirmed locale_le max_images h).deleted ≡ h.deleted
  unfolding confirmed
  confirmed-deleted h = refl

  remove_target-deleted :
      (id : Text) (o : Option Draft) (h : Hook)
      → ((d : Draft) → o ≡ some d → HasNoTmp d)
      → (remove_target locale_le max_images id o h).deleted ≡ h.deleted
  unfolding remove_target
  remove_target-deleted id none h k = refl
  remove_target-deleted id (some d) h k = ground (arith, k d refl)

-- Once the server has accepted a confirmation, neither removing any one of the drafts nor leaving
-- the page deletes an image on the server.
confirmed_keeps_images :
    (locale_le : Text → Text → Bool) (max_images : ℕ) (id : Text) (h : Hook)
    → ((remove_draft locale_le max_images id (confirmed locale_le max_images h)).deleted
        ≡ h.deleted)
      × ((unmount (confirmed locale_le max_images h)).deleted ≡ h.deleted)
unfolding remove_draft unmount
confirmed_keeps_images locale_le max_images id h =
    let h' = confirmed locale_le max_images h in
    let bare = confirmed-HasNoTmp locale_le max_images h in
    (
      remove_target-deleted locale_le max_images id _ h' (λ d e. find-HasNoTmp _ h'.drafts d bare e)
          ∙ confirmed-deleted locale_le max_images h,
      unmount_from-deleted h'.drafts h' bare ∙ confirmed-deleted locale_le max_images h,
    )
