-- ===== src/Grid/Rows.antt =====
-- The rows of the list: `chunkRows` of console/src/components/VirtuosoList/index.tsx.
use Prim.Native.Nat.{max}
use nfx_edge.Common.{
  ℕ, zero, suc, ◌+◌, ◌-◌, ◌*◌, ◌≤◌, ◌<◌, ◌≡◌, refl, sym, ap, subst, ◌∙◌, ◌⊎◌, inl, inr, Text, true,
  false, Option, none, List, [], ◌∷◌, ◌++◌, arith, leb, if◌then◌else◌, All, length, length-take,
  take, drop, get_elem?,
}
use nfx_edge.Grid.{Row, single_rows, row_at, rows_from, chunk_rows}

lt_or_le : (a b : ℕ) → a < b ⊎ b ≤ a
lt_or_le a b = ground arith

module _ {ℓ} {A : Type ℓ} where
  take-drop : (n : ℕ) (xs : List A) → take n xs ++ drop n xs ≡ xs
  take-drop zero xs = refl
  take-drop (suc n) [] = refl
  take-drop (suc n) (x ∷ xs) = ap (λ ys. x ∷ ys) (take-drop n xs)

  drop_all : (i : ℕ) (xs : List A) → length xs ≤ i → drop i xs ≡ []
  drop_all zero [] h = refl
  drop_all zero (x ∷ xs) h = absurd (omega arith)
  drop_all (suc i) [] h = refl
  drop_all (suc i) (x ∷ xs) h = drop_all i xs (omega arith)

  drop-drop : (i n : ℕ) (xs : List A) → drop n (drop i xs) ≡ drop (i + n) xs
  drop-drop zero n xs = grind arith
  drop-drop (suc i) n [] = drop_all n [] (omega arith) ∙ sym (drop_all (suc i + n) [] (omega arith))
  drop-drop (suc i) n (x ∷ xs) = drop-drop i n xs ∙ ap (λ k. drop k (x ∷ xs)) (suc_add i n)
    where
      suc_add : (i n : ℕ) → suc (i + n) ≡ suc i + n
      suc_add i n = omega arith

  get_elem?-drop : (i j : ℕ) (xs : List A) → get_elem? (drop i xs) j ≡ get_elem? xs (i + j)
  get_elem?-drop zero j xs = grind arith
  get_elem?-drop (suc i) j [] = grind arith
  get_elem?-drop (suc i) j (x ∷ xs) = grind (arith, get_elem?-drop i j xs)

  get_elem?-take : (n j : ℕ) (xs : List A) → j < n → get_elem? (take n xs) j ≡ get_elem? xs j
  get_elem?-take zero j xs h = absurd (omega arith)
  get_elem?-take (suc n) j [] h = refl
  get_elem?-take (suc n) zero (x ∷ xs) h = refl
  get_elem?-take (suc n) (suc j) (x ∷ xs) h = get_elem?-take n j xs (omega arith)

  get_elem?_beyond : (i : ℕ) (xs : List A) → length xs ≤ i → get_elem? xs i ≡ none
  get_elem?_beyond i [] h = refl
  get_elem?_beyond zero (x ∷ xs) h = absurd (omega arith)
  get_elem?_beyond (suc i) (x ∷ xs) h = get_elem?_beyond i xs (omega arith)

  length-drop : (i : ℕ) (xs : List A) → length (drop i xs) ≡ length xs - i
  length-drop zero xs = omega arith
  length-drop (suc i) [] = omega arith
  length-drop (suc i) (x ∷ xs) = omega (arith, length-drop i xs)

  -- A row has an item, and at most as many as there are columns.
  pub IsFull : ℕ → Row A → Type 0
  IsFull c row = (0 < length row.items) × (length row.items ≤ c)

  -- The item in a row and a column.
  pub cell : List (Row A) → ℕ → ℕ → Option A
  cell [] r j = none
  cell (row ∷ rows) zero j = get_elem? row.items j
  cell (row ∷ rows) (suc r) j = cell rows r j

  pub all_items : List (Row A) → List A
  all_items [] = []
  all_items (row ∷ rows) = row.items ++ all_items rows

module _ {ℓ} {A : Type ℓ} (get_item_key : A → ℕ → Text) (c : ℕ) (items : List A) where
  loop : ℕ → ℕ → List (Row A)
  loop fuel i = rows_from get_item_key fuel c items i

  loop_on :
      (fuel i : ℕ)
      → i < length items
      → loop (suc fuel) i ≡ row_at get_item_key i (take c (drop i items)) ∷ loop fuel (i + c)
  unfolding loop rows_from
  loop_on fuel i h = ground (arith, h)

  loop_end : (fuel i : ℕ) → length items ≤ i → loop fuel i ≡ []
  unfolding loop rows_from
  loop_end zero i h = refl
  loop_end (suc fuel) i h = ground (arith, h)

  module _ (hc : 0 < c) where
    all_items-loop : (fuel i : ℕ) → length items ≤ i + fuel → all_items (loop fuel i) ≡ drop i items
    unfolding all_items
    all_items-loop zero i h =
        rw (loop_end zero i (omega (arith, h))) (sym (drop_all i items (omega arith)))
    all_items-loop (suc fuel) i h = elim (lt_or_le i (length items)) [
      | inl more ↦
          rw (loop_on fuel i more, all_items-loop fuel (i + c) (omega arith))
            (unfold row_at in
              ap (λ rest. take c (drop i items) ++ rest) (sym (drop-drop i c items))
              ∙ take-drop c (drop i items))
      | inr done ↦ rw (loop_end (suc fuel) i done) (sym (drop_all i items done))
    ]

    cell-loop :
        (r fuel i j : ℕ)
        → j < c
        → length items ≤ i + fuel
        → cell (loop fuel i) r j ≡ get_elem? items (i + (r * c + j))
    unfolding cell
    cell-loop r zero i j hj h =
        rw (loop_end zero i (omega (arith, h))) (sym (get_elem?_beyond _ items (omega arith)))
    cell-loop zero (suc fuel) i j hj h = elim (lt_or_le i (length items)) [
      | inl more ↦ rw (loop_on fuel i more) (
          unfold row_at in
          get_elem?-take c j (drop i items) hj
          ∙ get_elem?-drop i j items
          ∙ ap (get_elem? items) (omega arith))
      | inr done ↦
          rw (loop_end (suc fuel) i done) (sym (get_elem?_beyond _ items (omega (arith, done))))
    ]
    cell-loop (suc r) (suc fuel) i j hj h = elim (lt_or_le i (length items)) [
      | inl more ↦
          rw (loop_on fuel i more)
            (cell-loop r fuel (i + c) j hj (omega arith) ∙ ap (get_elem? items) (next_index i r j))
      | inr done ↦
          rw (loop_end (suc fuel) i done) (sym (get_elem?_beyond _ items (omega (arith, done))))
    ]
      where
        next_index : (i r j : ℕ) → i + c + (r * c + j) ≡ i + (suc r * c + j)
        next_index i r j = grind arith

    row_at-IsFull :
        (i : ℕ) → i < length items → IsFull c (row_at get_item_key i (take c (drop i items)))
    unfolding IsFull row_at
    row_at-IsFull i h =
        let size = length-take c (drop i items) in
        let left = length-drop i items in (omega (arith, size, left, hc, h), omega (arith, size))

    All-loop : (fuel i : ℕ) → All (IsFull c) (loop fuel i)
    All-loop zero i = rw (loop_none i) tt
      where
        loop_none : (i : ℕ) → loop zero i ≡ []
        loop_none i = unfold loop rows_from in refl
    All-loop (suc fuel) i = elim (lt_or_le i (length items)) [
      | inl more ↦ rw (loop_on fuel i more) (row_at-IsFull i more, All-loop fuel (i + c))
      | inr done ↦ rw (loop_end (suc fuel) i done) tt
    ]

module _ {ℓ} {A : Type ℓ} (get_item_key : A → ℕ → Text) where
  all_items-single_rows :
      (items : List A) (i : ℕ) → all_items (single_rows get_item_key i items) ≡ items
  unfolding all_items single_rows
  all_items-single_rows [] i = refl
  all_items-single_rows (x ∷ xs) i = ap (λ rest. x ∷ rest) (all_items-single_rows xs (i + 1))

  All-single_rows : (items : List A) (i : ℕ) → All (IsFull 1) (single_rows get_item_key i items)
  unfolding IsFull single_rows
  All-single_rows [] i = tt
  All-single_rows (x ∷ xs) i = ((omega arith, omega arith), All-single_rows xs (i + 1))

  cell-single_rows :
      (items : List A) (i r : ℕ) → cell (single_rows get_item_key i items) r 0 ≡ get_elem? items r
  unfolding cell single_rows
  cell-single_rows [] i r = refl
  cell-single_rows (x ∷ xs) i zero = refl
  cell-single_rows (x ∷ xs) i (suc r) = cell-single_rows xs (i + 1) r

  -- The rows hold the items in their order, each once; every row has an item, and at most as many
  -- as there are columns, of which there is at least one; and the item in a row and a column is
  -- the one whose index is the number of that row times the number of columns, and that column.
  pub chunk_rows_lem :
      (items : List A) (column_count : ℕ)
      → (all_items (chunk_rows get_item_key items column_count) ≡ items)
        × All (IsFull (max 1 column_count)) (chunk_rows get_item_key items column_count)
        × ((r j : ℕ)
            → j < max 1 column_count
            → cell (chunk_rows get_item_key items column_count) r j
              ≡ get_elem? items (r * max 1 column_count + j))
  unfolding chunk_rows loop
  chunk_rows_lem items c = elim (lt_or_le 1 c) [
    | inl many ↦
        let top : max 1 c ≡ c = omega (arith, many) in
        rw (leb_false many, top, if◌then◌else◌)
          (
            all_items-loop get_item_key c items (omega (arith, many)) (length items) 0
                (omega arith),
            All-loop get_item_key c items (omega (arith, many)) (length items) 0,
            λ r j hj.
                cell-loop get_item_key c items (omega (arith, many)) r (length items) 0 j hj
                  (omega arith)
                ∙ ap (get_elem? items) (omega arith),
          )
    | inr one ↦
        let top : max 1 c ≡ 1 = omega (arith, one) in
        rw (leb_true one, top, if◌then◌else◌)
          (
            all_items-single_rows items 0,
            All-single_rows items 0,
            λ r j hj.
                subst
                  (λ k. cell (single_rows get_item_key 0 items) r k ≡ get_elem? items (r * 1 + k))
                  (first_column j hj)
                  (cell-single_rows items 0 r ∙ ap (get_elem? items) (omega arith)),
          )
  ]
    where
      leb_true : {n : ℕ} → n ≤ 1 → leb n 1 ≡ true
      leb_true h = ground arith

      leb_false : {n : ℕ} → 1 < n → leb n 1 ≡ false
      leb_false h = ground arith

      first_column : (j : ℕ) → j < 1 → 0 ≡ j
      first_column j h = omega arith
