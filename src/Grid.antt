-- ===== src/Grid.antt =====
-- The list in columns: console/src/components/VirtuosoList/index.tsx. The width of an item is at
-- least 1, as every caller has it; the width of the list is a whole number of pixels.
pub mod Rows
pub mod Columns
mod Tests
use Prim.Native.Nat.{min, max}
use nfx_edge.Common.{
  ℕ, zero, suc, ◌+◌, ◌/◌, Text, codes, Bool, true, false, not, ◌&&◌, Option, none, some, List, [],
  ◌∷◌, ◌++◌, map, ltb, leb, if◌then◌else◌, truthy, is_empty, all_digits, join, length, take, drop,
}

pub record Row {ℓ} (A : Type ℓ) : Type ℓ where
  pub key : Text
  pub items : List A

unfoldable pub resolve_gap_token : Option Text → Text → Text
unfolding all_digits
resolve_gap_token none fallback = fallback
resolve_gap_token (some gap) fallback =
    if is_empty gap
    then fallback
    else if truthy gap && all_digits gap
    then codes "var(--space-" ++ gap ++ codes ")"
    else gap

unfoldable pub resolve_column_count : ℕ → ℕ → ℕ → ℕ
resolve_column_count width min_item_width max_columns =
    let count = width / min_item_width in min max_columns (max 1 count)

-- `columns == null && minItemWidth == null ? undefined : (minItemWidth ?? DEFAULT_MIN_ITEM_WIDTH)`
unfoldable pub effective_min_item_width : Option ℕ → Option ℕ → Option ℕ
effective_min_item_width none none = none
effective_min_item_width (some columns) none = some 340
effective_min_item_width _ (some min_item_width) = some min_item_width

-- The effect of `useResponsiveColumns` at a width: the next `autoColumns`.
unfoldable pub measure : Option ℕ → Option ℕ → ℕ → ℕ → ℕ → ℕ
unfolding resolve_column_count
measure (some columns) min_item_width max_columns width auto_columns = auto_columns
measure none none max_columns width auto_columns = auto_columns
measure none (some min_item_width) max_columns width auto_columns =
    resolve_column_count width min_item_width max_columns

-- What `useResponsiveColumns` returns.
unfoldable pub used_columns : Option ℕ → Option ℕ → ℕ → ℕ
used_columns (some columns) min_item_width auto_columns = columns
used_columns none none auto_columns = 1
used_columns none (some min_item_width) auto_columns = auto_columns

-- The number of columns after the list has had some widths, from the first render on.
measures : Option ℕ → Option ℕ → ℕ → List ℕ → ℕ → ℕ
unfolding measure
measures columns min_item_width max_columns [] auto_columns = auto_columns
measures columns min_item_width max_columns (width ∷ widths) auto_columns =
    measures columns min_item_width max_columns widths
      (measure columns min_item_width max_columns width auto_columns)

unfoldable pub column_count : Option ℕ → Option ℕ → ℕ → List ℕ → ℕ
unfolding measures used_columns effective_min_item_width
column_count columns min_item_width max_columns widths =
    let effective = effective_min_item_width columns min_item_width in
    used_columns columns effective (measures columns effective max_columns widths 1)

module _ {ℓ} {A : Type ℓ} (get_item_key : A → ℕ → Text) where
  -- The branch of `chunkRows` for one column.
  single_rows : ℕ → List A → List (Row A)
  single_rows index [] = []
  single_rows index (item ∷ items) =
      (record { key = get_item_key item index; items = item ∷ [] }) ∷ single_rows (index + 1) items

  -- The keys of a row whose first item has the index.
  item_keys : ℕ → List A → List Text
  item_keys index [] = []
  item_keys index (item ∷ items) = get_item_key item index ∷ item_keys (index + 1) items

  row_at : ℕ → List A → Row A
  unfolding item_keys
  row_at i items_in_row = record {
    key = join (codes "|") (item_keys i items_in_row);
    items = items_in_row;
  }

  -- The loop of `chunkRows` at `i`, on fuel.
  rows_from : ℕ → ℕ → List A → ℕ → List (Row A)
  unfolding row_at
  rows_from zero column_count items i = []
  rows_from (suc fuel) column_count items i =
      let rest = rows_from fuel column_count items (i + column_count) in
      if ltb i (length items) then row_at i (take column_count (drop i items)) ∷ rest else []

  -- Every turn of the loop goes on by at least two items, so that as much fuel as there are items
  -- is enough.
  unfoldable pub chunk_rows : List A → ℕ → List (Row A)
  unfolding single_rows rows_from
  chunk_rows items column_count =
      if leb column_count 1
      then single_rows 0 items
      else rows_from (length items) column_count items 0

-- Whether the end of the list asks for the next page.
unfoldable pub handle_end_reached : Bool → Bool → Bool
handle_end_reached has_next_page is_fetching_next_page = has_next_page && not is_fetching_next_page
