-- ===== src/Background/Moving.antt =====
-- `moveDraft` of
-- console/src/pages/User/Profile/Edit/backgrounds/useUserProfileBackgroundUpload.ts.
use mathlib.Core.Option
use nfx_edge.Common.{
  ℕ, suc, ◌≡◌, refl, ap, ◌∙◌, Text, Bool, true, false, ◌||◌, some, List, [], ◌∷◌, ◌++◌, arith, All,
  length, get_elem?, find_index, remove_at, insert_at, text_eq, text_eq_iff,
}
use nfx_edge.Background.Drafts.{Draft, number_from}
use nfx_edge.Background.Upload.{Hook}
use nfx_edge.Background.Actions.{is_fixed, back, forward, move_between, move_draft}

find_index-append :
    (p : Draft → Bool) (pre : List Draft) (d : Draft) (post : List Draft)
    → All (λ e. p e ≡ false) pre
    → p d ≡ true
    → find_index p (pre ++ d ∷ post) ≡ some (length pre)
find_index-append p [] d post h k = rw k
find_index-append p (e ∷ pre) d post h k =
    rw h.0 (ap (Option.map suc) (find_index-append p pre d post h.1 k))

find_index-append_suc :
    (p : Draft → Bool) (pre : List Draft) (d e : Draft) (post : List Draft)
    → All (λ f. p f ≡ false) pre
    → p d ≡ false
    → p e ≡ true
    → find_index p (pre ++ d ∷ e ∷ post) ≡ some (suc (length pre))
find_index-append_suc p [] d e post h k l = rw (k, l)
find_index-append_suc p (f ∷ pre) d e post h k l =
    rw h.0 (ap (Option.map suc) (find_index-append_suc p pre d e post h.1 k l))

get_elem?-append :
    (pre : List Draft) (d : Draft) (post : List Draft)
    → get_elem? (pre ++ d ∷ post) (length pre) ≡ some d
get_elem?-append [] d post = refl
get_elem?-append (e ∷ pre) d post = get_elem?-append pre d post

get_elem?-append_suc :
    (pre : List Draft) (d e : Draft) (post : List Draft)
    → get_elem? (pre ++ d ∷ e ∷ post) (suc (length pre)) ≡ some e
get_elem?-append_suc [] d e post = refl
get_elem?-append_suc (f ∷ pre) d e post = get_elem?-append_suc pre d e post

splice_forward :
    (pre : List Draft) (d e : Draft) (post : List Draft)
    → insert_at (suc (length pre)) d (remove_at (length pre) (pre ++ d ∷ e ∷ post))
      ≡ pre ++ e ∷ d ∷ post
splice_forward [] d e post = refl
splice_forward (f ∷ pre) d e post = ap (λ l. f ∷ l) (splice_forward pre d e post)

splice_back :
    (pre : List Draft) (d e : Draft) (post : List Draft)
    → insert_at (length pre) e (remove_at (suc (length pre)) (pre ++ d ∷ e ∷ post))
      ≡ pre ++ e ∷ d ∷ post
splice_back [] d e post = refl
splice_back (f ∷ pre) d e post = ap (λ l. f ∷ l) (splice_back pre d e post)

module _ (locale_le : Text → Text → Bool) (max_images : ℕ) (pre : List Draft) (d e : Draft)
    (post : List Draft) (h : Hook) where
  -- The drafts with the two neighbours exchanged, and numbered.
  abbrev pub exchanged : List Draft
  exchanged = number_from 0 (pre ++ e ∷ d ∷ post)

  between_forward :
      h.drafts ≡ pre ++ d ∷ e ∷ post
      → (is_fixed d || is_fixed e) ≡ false
      → (move_between locale_le max_images
          (length pre)
          (suc (length pre))
          (some d)
          (some e)
          h).drafts
        ≡ exchanged
  unfolding move_between
  between_forward q free = rw (free, q) (ap (number_from 0) (splice_forward pre d e post))

  between_back :
      h.drafts ≡ pre ++ d ∷ e ∷ post
      → (is_fixed e || is_fixed d) ≡ false
      → (move_between locale_le max_images
          (suc (length pre))
          (length pre)
          (some e)
          (some d)
          h).drafts
        ≡ exchanged
  unfolding move_between
  between_back q free = rw (free, q) (ap (number_from 0) (splice_back pre d e post))

  abbrev named : Text → Draft → Bool
  named id c = text_eq c.image_id id

  found_forward :
      (id : Text)
      → h.drafts ≡ pre ++ d ∷ e ∷ post
      → All (λ c. named id c ≡ false) pre
      → d.image_id ≡ id
      → (find_index (named id) h.drafts ≡ some (length pre))
        × (get_elem? h.drafts (length pre) ≡ some d)
        × (get_elem? h.drafts (suc (length pre)) ≡ some e)
  found_forward id q other same = (
    ap (find_index (named id)) q
        ∙ find_index-append (named id) pre d (e ∷ post) other ((text_eq_iff _ _).1 same),
    ap (λ l. get_elem? l (length pre)) q ∙ get_elem?-append pre d (e ∷ post),
    ap (λ l. get_elem? l (suc (length pre))) q ∙ get_elem?-append_suc pre d e post,
  )

  move_forward :
      (id : Text)
      → h.drafts ≡ pre ++ d ∷ e ∷ post
      → All (λ c. named id c ≡ false) pre
      → d.image_id ≡ id
      → (is_fixed d || is_fixed e) ≡ false
      → (move_draft locale_le max_images id forward h).drafts ≡ exchanged
  unfolding move_draft
  move_forward id q other same free =
      let (found, this, next) = found_forward id q other same in
      rw (found, this, next) (between_forward q free)

  move_back :
      (id : Text)
      → h.drafts ≡ pre ++ d ∷ e ∷ post
      → All (λ c. named id c ≡ false) pre
      → named id d ≡ false
      → e.image_id ≡ id
      → (is_fixed e || is_fixed d) ≡ false
      → (move_draft locale_le max_images id back h).drafts ≡ exchanged
  unfolding move_draft
  move_back id q other not_d same free =
      let found : find_index (named id) h.drafts ≡ some (suc (length pre)) =
        ap (find_index (named id)) q
        ∙ find_index-append_suc (named id) pre d e post other not_d ((text_eq_iff _ _).1 same) in
      let this : get_elem? h.drafts (suc (length pre)) ≡ some e =
        ap (λ l. get_elem? l (suc (length pre))) q ∙ get_elem?-append_suc pre d e post in
      let next : get_elem? h.drafts (length pre) ≡ some d =
        ap (λ l. get_elem? l (length pre)) q ∙ get_elem?-append pre d (e ∷ post) in
      rw (found, this, next) (between_back q free)

-- Of two neighbours that are neither uploading nor failed, with identifiers of their own, moving
-- the first one forward and moving the second one back do the same: the two are exchanged, the
-- other drafts keep their places, and the sort orders are numbered anew.
pub move_draft_lem :
    (locale_le : Text → Text → Bool) (max_images : ℕ) (pre : List Draft) (d e : Draft)
    (post : List Draft) (h : Hook)
    → h.drafts ≡ pre ++ d ∷ e ∷ post
    → All (λ c. text_eq c.image_id d.image_id ≡ false) pre
    → All (λ c. text_eq c.image_id e.image_id ≡ false) pre
    → text_eq d.image_id e.image_id ≡ false
    → is_fixed d ≡ false
    → is_fixed e ≡ false
    → ((move_draft locale_le max_images d.image_id forward h).drafts
        ≡ number_from 0 (pre ++ e ∷ d ∷ post))
      × ((move_draft locale_le max_images e.image_id back h).drafts
          ≡ number_from 0 (pre ++ e ∷ d ∷ post))
move_draft_lem locale_le max_images pre d e post h q other_d other_e differ free_d free_e = (
  move_forward locale_le max_images pre d e post h d.image_id q other_d refl
      (ground (arith, free_d, free_e)),
  move_back locale_le max_images pre d e post h e.image_id q other_e differ refl
      (ground (arith, free_d, free_e)),
)
