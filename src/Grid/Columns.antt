-- ===== src/Grid/Columns.antt =====
-- How many columns the list has: `resolveColumnCount` and `useResponsiveColumns` of
-- console/src/components/VirtuosoList/index.tsx.
use Prim.Native.Nat.{min, max}
use nfx_edge.Common.{
  ℕ, zero, suc, ◌+◌, ◌*◌, ◌/◌, ◌≤◌, ◌<◌, ◌≡◌, refl, sym, subst, ◌⊎◌, inl, inr, none, some, List, [],
  ◌∷◌, ◌++◌, arith,
}
use nfx_edge.Grid.{
  resolve_column_count, effective_min_item_width, measure, used_columns, measures, column_count,
}

-- The number of columns is the greatest one that gives each its least width, between 1 and the
-- most.
pub IsFitting : ℕ → ℕ → ℕ → ℕ → Type 0
IsFitting min_item_width max_columns width n =
    (1 ≤ n)
    × (n ≤ max_columns)
    × (n ≡ 1 ⊎ n * min_item_width ≤ width)
    × (n ≡ max_columns ⊎ width < (n + 1) * min_item_width)

div_low : (x w : ℕ) → x / w * w ≤ x
div_low x w = grind arith

div_high : (x w : ℕ) → 0 < w → x < (x / w + 1) * w
div_high x w h = grind arith

times_mono : (m n w : ℕ) → m ≤ n → m * w ≤ n * w
times_mono m n w h = grind arith

clamped-IsFitting :
    (w m x q : ℕ) → 1 ≤ m → q * w ≤ x → x < (q + 1) * w → IsFitting w m x (min m (max 1 q))
unfolding IsFitting
clamped-IsFitting w m x zero hm lo hi =
    let same : min m (max 1 0) ≡ 1 = omega arith in
    rw same (omega arith, hm, inl refl, inr (omega (arith, hi)))
clamped-IsFitting w m x (suc q) hm lo hi = elim (le_or_lt m (suc q)) [
  | inl small ↦
      let same : min m (max 1 (suc q)) ≡ m = omega arith in
      rw same (hm, omega arith, inr (omega (arith, times_mono m (suc q) w small, lo)), inl refl)
  | inr large ↦
      let same : min m (max 1 (suc q)) ≡ suc q = omega arith in
      rw same (omega arith, omega arith, inr lo, inr hi)
]
  where
    le_or_lt : (a b : ℕ) → a ≤ b ⊎ b < a
    le_or_lt a b = ground arith

resolve_column_count-IsFitting :
    (w m x : ℕ) → 0 < w → 1 ≤ m → IsFitting w m x (resolve_column_count x w m)
unfolding resolve_column_count
resolve_column_count-IsFitting w m x hw hm =
    clamped-IsFitting w m x (x / w) hm (div_low x w) (div_high x w hw)

measures_last :
    (w m x n : ℕ) (widths : List ℕ)
    → measures none (some w) m (widths ++ x ∷ []) n ≡ resolve_column_count x w m
unfolding measures measure
measures_last w m x n [] = refl
measures_last w m x n (width ∷ widths) =
    measures_last w m x (measure none (some w) m width n) widths

-- Once a list with items of a least width, which is not 0, has been measured, its number of columns
-- is from 1 to the most, every column has the least width unless there is one column, and one
-- column more would not fit unless there are the most already. It depends on the last width only.
pub column_count_lem :
    (min_item_width max_columns width : ℕ) (widths : List ℕ)
    → 0 < min_item_width
    → 1 ≤ max_columns
    → IsFitting min_item_width max_columns width
        (column_count none (some min_item_width) max_columns (widths ++ width ∷ []))
unfolding column_count effective_min_item_width used_columns
column_count_lem w m x widths hw hm =
    subst (IsFitting w m x) (sym (measures_last w m x 1 widths))
      (resolve_column_count-IsFitting w m x hw hm)
