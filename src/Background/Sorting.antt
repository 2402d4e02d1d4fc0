-- ===== src/Background/Sorting.antt =====
-- The order of drafts: `normalizeUserProfileBackgroundSortOrders` and
-- `applyUserProfileBackgroundSortOrders` of
-- console/src/pages/User/Profile/Edit/backgrounds/drafts.ts.
use mathlib.Core.List.{Perm}
use mathlib.Core.List.Perm
use nfx_edge.Common.{
  ℕ, suc, ◌≡◌, refl, subst, sym, ap, ◌∙◌, inl, inr, Text, Bool, true, false, List, [], ◌∷◌, map,
  arith, Bool-cases, insert_by, sort_by,
}
use nfx_edge.Background.Drafts.{Draft, number_from, draft_le, normalize_sort_orders}

-- The sort orders are consecutive from `k` on.
abbrev pub IsNumbered : ℕ → List Draft → Type 0
IsNumbered k [] = Unit
IsNumbered k (d ∷ ds) = (d.sort_order ≡ k) × IsNumbered (suc k) ds

-- A draft up to its place.
abbrev pub unplaced : Draft → Draft
unplaced d = record d { sort_order = 0 }

pub number_from-IsNumbered : (k : ℕ) (ds : List Draft) → IsNumbered k (number_from k ds)
unfolding number_from
number_from-IsNumbered k [] = tt
number_from-IsNumbered k (d ∷ ds) = (refl, number_from-IsNumbered (suc k) ds)

pub unplaced-number_from :
    (k : ℕ) (ds : List Draft) → map unplaced (number_from k ds) ≡ map unplaced ds
unfolding number_from
unplaced-number_from k [] = refl
unplaced-number_from k (d ∷ ds) = ap (λ l. unplaced d ∷ l) (unplaced-number_from (suc k) ds)

number_from_of_IsNumbered : (k : ℕ) (ds : List Draft) → IsNumbered k ds → number_from k ds ≡ ds
unfolding number_from
number_from_of_IsNumbered k [] h = refl
number_from_of_IsNumbered k (d ∷ ds) h = ground (arith, number_from_of_IsNumbered (suc k) ds h.1)

module _ (locale_le : Text → Text → Bool) where
  insert-perm : (d : Draft) (ds : List Draft) → Perm (insert_by (draft_le locale_le) d ds) (d ∷ ds)
  unfolding insert_by
  insert-perm d [] = Perm.refl _
  insert-perm d (e ∷ es) = elim (Bool-cases (draft_le locale_le d e)) [
    | inl q ↦ rw q (Perm.refl _)
    | inr q ↦ rw q (Perm.trans (Perm.cons e (insert-perm d es)) (Perm.swap d e es))
  ]

  sort-perm : (ds : List Draft) → Perm (sort_by (draft_le locale_le) ds) ds
  unfolding sort_by
  sort-perm [] = Perm.refl _
  sort-perm (d ∷ ds) =
      Perm.trans (insert-perm d (sort_by (draft_le locale_le) ds)) (Perm.cons d (sort-perm ds))

  -- Each draft is not behind the next.
  abbrev pub IsHead : Draft → List Draft → Type 0
  IsHead d [] = Unit
  IsHead d (e ∷ es) = draft_le locale_le d e ≡ true

  abbrev pub IsOrdered : List Draft → Type 0
  IsOrdered [] = Unit
  IsOrdered (d ∷ ds) = IsHead d ds × IsOrdered ds

  insert_numbered :
      (d : Draft) (ds : List Draft)
      → IsNumbered (suc d.sort_order) ds
      → insert_by (draft_le locale_le) d ds ≡ d ∷ ds
  unfolding insert_by
  insert_numbered d [] h = refl
  insert_numbered d (e ∷ es) h = ground (arith, h.0)

  sort_numbered : (k : ℕ) (ds : List Draft) → IsNumbered k ds → sort_by (draft_le locale_le) ds ≡ ds
  unfolding sort_by
  sort_numbered k [] h = refl
  sort_numbered k (d ∷ ds) h =
      rw (sort_numbered (suc k) ds h.1)
        (insert_numbered d ds (subst (λ n. IsNumbered (suc n) ds) (sym h.0) h.1))

  -- Drafts whose sort orders are consecutive already are left alone.
  pub normalize_of_IsNumbered :
      (ds : List Draft) → IsNumbered 0 ds → normalize_sort_orders locale_le ds ≡ ds
  unfolding normalize_sort_orders
  normalize_of_IsNumbered ds h =
      ap (number_from 0) (sort_numbered 0 ds h) ∙ number_from_of_IsNumbered 0 ds h

  pub normalize-IsNumbered : (ds : List Draft) → IsNumbered 0 (normalize_sort_orders locale_le ds)
  unfolding normalize_sort_orders
  normalize-IsNumbered ds = number_from-IsNumbered 0 (sort_by (draft_le locale_le) ds)

  module _ (total : (a b : Text) → locale_le a b ≡ false → locale_le b a ≡ true) where
    draft_le_total : (d e : Draft) → draft_le locale_le d e ≡ false → draft_le locale_le e d ≡ true
    draft_le_total d e h = ground (arith, total d.image_id e.image_id)

    insert-IsHead :
        (e d : Draft) (ds : List Draft)
        → draft_le locale_le e d ≡ true
        → IsHead e ds
        → IsHead e (insert_by (draft_le locale_le) d ds)
    unfolding insert_by
    insert-IsHead e d [] h k = h
    insert-IsHead e d (f ∷ fs) h k = elim (Bool-cases (draft_le locale_le d f)) [
      | inl q ↦ rw q h
      | inr q ↦ rw q k
    ]

    insert-IsOrdered :
        (d : Draft) (ds : List Draft)
        → IsOrdered ds
        → IsOrdered (insert_by (draft_le locale_le) d ds)
    unfolding insert_by
    insert-IsOrdered d [] h = (tt, tt)
    insert-IsOrdered d (e ∷ es) h = elim (Bool-cases (draft_le locale_le d e)) [
      | inl q ↦ rw q (q, h)
      | inr q ↦ rw q (insert-IsHead e d es (draft_le_total d e q) h.0, insert-IsOrdered d es h.1)
    ]

    sort-IsOrdered : (ds : List Draft) → IsOrdered (sort_by (draft_le locale_le) ds)
    unfolding sort_by
    sort-IsOrdered [] = tt
    sort-IsOrdered (d ∷ ds) =
        insert-IsOrdered d (sort_by (draft_le locale_le) ds) (sort-IsOrdered ds)

-- If the host's comparison of texts is total, normalising puts the drafts into the order of their
-- sort orders, and of their identifiers where these agree, loses and adds none, and then numbers
-- them from 0 on and changes nothing else in them.
normalize_lem :
    (locale_le : Text → Text → Bool)
    → ((a b : Text) → locale_le a b ≡ false → locale_le b a ≡ true)
    → (ds : List Draft)
    → (sorted : List Draft) × IsOrdered locale_le sorted
      × Perm sorted ds
      × IsNumbered 0 (normalize_sort_orders locale_le ds)
      × (map unplaced (normalize_sort_orders locale_le ds) ≡ map unplaced sorted)
unfolding normalize_sort_orders
normalize_lem locale_le total ds = (
  sort_by (draft_le locale_le) ds,
  sort-IsOrdered locale_le total ds,
  sort-perm locale_le ds,
  number_from-IsNumbered 0 (sort_by (draft_le locale_le) ds),
  unplaced-number_from 0 (sort_by (draft_le locale_le) ds),
)
