-- ===== src/Dns/Lookup/Order.antt =====
-- The order of the search of console/src/hooks/dns.ts changes which credential comes first, and not
-- which there are.
use nfx_edge.Common.{
  ◌≡◌, refl, sym, ap, ◌∙◌, inl, inr, Text, Bool, true, false, not, ◌||◌, List, [], ◌∷◌, ◌++◌, arith,
  if◌then◌else◌, Bool-cases, All, filter, text_eq, contains, text_eq_iff, is_empty,
}
use nfx_edge.Dns.Hosts.Unique.{contains-append}
use nfx_edge.Dns.Lookup.{ordered}

module _ (p : Text → Bool) where
  All-of_parts :
      (P : Text → Type 0) (ts : List Text)
      → All P (filter p ts)
      → All P (filter (λ t. not (p t)) ts)
      → All P ts
  All-of_parts P [] h k = tt
  All-of_parts P (t ∷ ts) h k =
      elim (p t)
          as (λ b.
            All P (if b then t ∷ filter p ts else filter p ts)
            → All P (if not b then t ∷ filter (λ u. not (p u)) ts else filter (λ u. not (p u)) ts)
            → All P (t ∷ ts)) [
              | true ↦ λ h k. (h.0, All-of_parts P ts h.1 k)
              | false ↦ λ h k. (k.0, All-of_parts P ts h k.1)
            ]
        h k

  contains-filter_le :
      (ts : List Text) (t : Text) → contains (filter p ts) t ≡ true → contains ts t ≡ true
  unfolding contains
  contains-filter_le [] t h = h
  contains-filter_le (s ∷ ts) t h =
      elim (p s)
          as (λ b.
            contains (if b then s ∷ filter p ts else filter p ts) t ≡ true
            → (text_eq s t || contains ts t) ≡ true) [
              | true ↦ λ k. or_right (text_eq s t) _ _ (contains-filter_le ts t) k
              | false ↦ λ k. ground (arith, contains-filter_le ts t k)
            ]
        h
    where
      or_right : (a b c : Bool) → (b ≡ true → c ≡ true) → (a || b) ≡ true → (a || c) ≡ true
      or_right true b c f k = refl
      or_right false b c f k = f k

All-halves : (P : Text → Type 0) (xs ys : List Text) → All P (xs ++ ys) → All P xs × All P ys
All-halves P [] ys h = (tt, h)
All-halves P (x ∷ xs) ys h = let (first, later) = All-halves P xs ys h.1 in ((h.0, first), later)

either : (a b c : Bool) → (a ≡ true → c ≡ true) → (b ≡ true → c ≡ true) → (a || b) ≡ true → c ≡ true
either true b c f g h = f refl
either false b c f g h = g h

pub All-ordered :
    (P : Text → Type 0) (preferred : Text) (items : List Text)
    → All P (ordered preferred items)
    → All P items
unfolding ordered
All-ordered P [] items h = h
All-ordered P (c ∷ preferred) items h =
    let (first, later) = All-halves P (filter (λ id. text_eq id (c ∷ preferred)) items) _ h in
    All-of_parts (λ id. text_eq id (c ∷ preferred)) P items first later

pub contains-ordered :
    (preferred : Text) (items : List Text) (id : Text)
    → contains (ordered preferred items) id ≡ true
    → contains items id ≡ true
unfolding ordered
contains-ordered [] items id h = h
contains-ordered (c ∷ preferred) items id h =
    either _ _ _ (contains-filter_le (λ id'. text_eq id' (c ∷ preferred)) items id)
      (contains-filter_le (λ id'. not (text_eq id' (c ∷ preferred))) items id)
      (sym (contains-append (filter (λ id'. text_eq id' (c ∷ preferred)) items) _ id) ∙ h)

filter_first :
    (preferred : Text) (items : List Text)
    → contains items preferred ≡ true
    → (rest : List Text) × (filter (λ id. text_eq id preferred) items ≡ preferred ∷ rest)
unfolding contains
filter_first preferred [] h = absurd (cc)
filter_first preferred (id ∷ items) h = elim (Bool-cases (text_eq id preferred)) [
  | inl same ↦ (
    filter (λ id'. text_eq id' preferred) items,
    rw (same, if◌then◌else◌)
        (ap (λ t. t ∷ filter (λ id'. text_eq id' preferred) items)
          ((text_eq_iff id preferred).0 same)),
  )
  | inr differ ↦
      let (rest, q) = filter_first preferred items (ground (arith, h, differ)) in
      (rest, rw (differ, if◌then◌else◌) q)
]

-- The preferred credential comes first, if it is there.
pub ordered_first :
    (preferred : Text) (items : List Text)
    → is_empty preferred ≡ false
    → contains items preferred ≡ true
    → (rest : List Text) × (ordered preferred items ≡ preferred ∷ rest)
unfolding ordered
ordered_first [] items full there = absurd (cc)
ordered_first (c ∷ preferred) items full there =
    let others = filter (λ id. not (text_eq id (c ∷ preferred))) items in
    let (rest, q) = filter_first (c ∷ preferred) items there in
    (rest ++ others, ap (λ ids. ids ++ others) q)
