-- ===== src/Dns/Bulk/Review.antt =====
-- The answer to a submission on the bulk page: what is shown, and what can be submitted next.
use nfx_edge.Common.{
  ℕ, suc, ◌≡◌, refl, sym, ap, ◌∙◌, subst, ◌⊎◌, inl, inr, Text, codes, Bool, true, false, List, [],
  ◌∷◌, ◌++◌, map, append_assoc, append-nil, arith, ltb, if◌then◌else◌, Bool-cases, All, filter,
  length, includes, starts_with,
}
use nfx_edge.Common.TextLaws.{starts_with-append}
use nfx_edge.Dns.Bulk.{Item, Form}
use nfx_edge.Dns.Bulk.Page.{
  affected_count, can_submit, is_failed, failure_line, join_lines, shown_error, shown_success,
  applied,
}

includes_of_starts_with : (s t : Text) → starts_with s t ≡ true → includes s t ≡ true
unfolding includes
includes_of_starts_with [] t h = h
includes_of_starts_with (c ∷ s) t h = ground (arith, h)

includes-append_left : (u s t : Text) → includes s t ≡ true → includes (u ++ s) t ≡ true
unfolding includes
includes-append_left [] s t h = h
includes-append_left (c ∷ u) s t h = ground (arith, includes-append_left u s t h)

includes_here : (s t : Text) → includes (s ++ t) s ≡ true
includes_here s t = includes_of_starts_with (s ++ t) s (starts_with-append s t)

includes_after : (s t u : Text) (c : ℕ) → includes u t ≡ true → includes (s ++ c ∷ u) t ≡ true
includes_after s t u c h = includes-append_left s (c ∷ u) t (includes-append_left (c ∷ []) u t h)

failure_line-starts : (item : Item) → (tail : Text) × (failure_line item ≡ item.domain ++ tail)
unfolding failure_line
failure_line-starts item = (_, append_assoc item.domain (codes ": ") _)

failure_line-includes :
    (item : Item) (rest : Text) → includes (failure_line item ++ rest) item.domain ≡ true
failure_line-includes item rest =
    let (tail, starts) = failure_line-starts item in
    subst (λ s. includes s item.domain ≡ true)
      (sym (ap (λ s. s ++ rest) starts ∙ append_assoc item.domain tail rest))
      (includes_here item.domain (tail ++ rest))

All-imp :
    {P Q : Item → Type 0} (items : List Item)
    → ((item : Item) → P item → Q item)
    → All P items
    → All Q items
All-imp [] f h = tt
All-imp (item ∷ items) f h = (f item h.0, All-imp items f h.1)

join_lines-includes :
    (items : List Item)
    → All (λ item. includes (join_lines (map failure_line items)) item.domain ≡ true) items
unfolding join_lines
join_lines-includes [] = tt
join_lines-includes (item ∷ []) = (
  subst (λ s. includes s item.domain ≡ true) (append-nil (failure_line item))
      (failure_line-includes item []),
  tt,
)
join_lines-includes (item ∷ next ∷ items) = (
  failure_line-includes item _,
  All-imp (next ∷ items)
      (λ other.
        includes_after (failure_line item) other.domain
          (join_lines (map failure_line (next ∷ items))) 10)
      (join_lines-includes (next ∷ items)),
)

no_elements : (items : List Item) → ltb 0 (length items) ≡ false → items ≡ []
no_elements [] h = refl
no_elements (item ∷ items) h = absurd (positive h)
  where
    positive : ltb 0 (suc (length items)) ≡ false → ⊥
    positive k = ground (arith, k)

can_submit-first : (pending : Bool) (form : Form) → form.stage ≡ 1 → can_submit pending form ≡ false
unfolding can_submit
can_submit-first pending form h = ground (arith, h)

-- If no item failed, the count of the reviewed changes is shown, the page goes back to stage 1 and
-- nothing can be submitted; else an error is shown in which every domain that failed is named, the
-- stage stays, and the answer is the new review.
pub applied_lem :
    (items : List Item) (pending : Bool) (form : Form)
    → ((filter is_failed items ≡ [])
        × ((applied items form).0 ≡ shown_success (affected_count form.review))
        × ((applied items form).1.stage ≡ 1)
        × (can_submit pending (applied items form).1 ≡ false))
      ⊎ ((message : Text) × ((applied items form).0 ≡ shown_error message)
          × All (λ item. includes message item.domain ≡ true) (filter is_failed items)
          × ((applied items form).1.stage ≡ form.stage)
          × ((applied items form).1.review ≡ items))
unfolding applied
applied_lem items pending form = elim (Bool-cases (ltb 0 (length (filter is_failed items)))) [
  | inl some_failed ↦
      rw (some_failed, if◌then◌else◌)
        (inr (
          join_lines (map failure_line (filter is_failed items)),
          refl,
          join_lines-includes _,
          refl,
          refl,
        ))
  | inr none_failed ↦
      rw (none_failed, if◌then◌else◌)
        (inl (
          no_elements _ none_failed,
          refl,
          refl,
          can_submit-first pending (record form { stage = 1; review = [] }) refl,
        ))
]
