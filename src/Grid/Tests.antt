-- ===== src/Grid/Tests.antt =====
-- Runs of the list in columns.
use Prim.Native.Nat.{max}
use nfx_edge.Common.{
  ℕ, ◌+◌, ◌*◌, ◌<◌, ◌≡◌, refl, Text, codes, none, some, List, [], ◌∷◌, ◌++◌, arith, All, get_elem?,
  decimal, all_digits,
}
use nfx_edge.Grid.{chunk_rows, resolve_gap_token, column_count}
use nfx_edge.Grid.Rows.{all_items, IsFull, cell, chunk_rows_lem}
use nfx_edge.Grid.Columns.{IsFitting, column_count_lem}

abbrev five : List ℕ
five = 10 ∷ 11 ∷ 12 ∷ 13 ∷ 14 ∷ []

abbrev own_key : ℕ → ℕ → Text
own_key item index = decimal item

two_rows :
    chunk_rows own_key (10 ∷ 11 ∷ 12 ∷ []) 2
    ≡ (record { key = codes "10|11"; items = 10 ∷ 11 ∷ [] })
      ∷ (record { key = codes "12"; items = 12 ∷ [] })
      ∷ []
unfolding chunk_rows decimal
two_rows = refl

third_gap : resolve_gap_token (some (codes "3")) (codes "0") ≡ codes "var(--space-3)"
unfolding resolve_gap_token all_digits
third_gap = refl

chunk_rows_lem_example :
    (all_items (chunk_rows own_key five 2) ≡ five)
    × All (IsFull (max 1 2)) (chunk_rows own_key five 2)
    × ((r j : ℕ)
        → j < max 1 2
        → cell (chunk_rows own_key five 2) r j ≡ get_elem? five (r * max 1 2 + j))
chunk_rows_lem_example = chunk_rows_lem own_key five 2

column_count_lem_example :
    IsFitting 340 3 1000 (column_count none (some 340) 3 ((200 ∷ []) ++ 1000 ∷ []))
column_count_lem_example = column_count_lem 340 3 1000 (200 ∷ []) (omega arith) (omega arith)
