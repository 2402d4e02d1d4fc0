-- ===== src/Dns/Lookup/Dots.antt =====
-- The names that the lookup of console/src/hooks/dns.ts searches for, described by their text alone:
-- the apex, and the text that is left of it without its first label.
use nfx_edge.Common.{
  ◌≡◌, refl, sym, ap, ◌∙◌, ◌↔◌, ◌⊎◌, inl, inr, ℕ, zero, suc, ◌+◌, Text, codes, Bool, true, false,
  none, some, List, [], ◌∷◌, ◌++◌, arith, if◌then◌else◌, ◌==◌, Bool-cases, any, drop, subst,
  text_eq, text_eq_iff, contains, includes, index_of, starts_with, is_empty,
}
use nfx_edge.Dns.Lookup.{candidates}

abbrev pub is_dot : ℕ → Bool
is_dot c = c == b'.'

-- `domain` is `apex` without a first label, which is not empty, and it has a dot itself.
pub Below : Text → Text → Type 0
Below apex domain =
    (label : Text) × (apex ≡ label ++ b'.' ∷ domain)
    × (any is_dot label ≡ false)
    × (is_empty label ≡ false)
    × (any is_dot domain ≡ true)

pub Answers : Text → Text → Type 0
Answers apex domain = (domain ≡ apex) ⊎ Below apex domain

includes_dot : (s : Text) → includes s (codes ".") ≡ any is_dot s
unfolding includes starts_with
includes_dot [] = refl
includes_dot (c ∷ s) = ground (arith, includes_dot s)

-- `index_of` cuts a text at its first dot.
index_of_dot :
    (s : Text)
    → ((index_of s b'.' ≡ none) × (any is_dot s ≡ false))
      ⊎ ((i : ℕ) × (label : Text) × (index_of s b'.' ≡ some i)
          × (s ≡ label ++ b'.' ∷ drop (suc i) s)
          × (any is_dot label ≡ false)
          × (is_empty label ≡ (i == 0)))
unfolding index_of
index_of_dot [] = inl (refl, refl)
index_of_dot (c ∷ s) = elim (Bool-cases (is_dot c)) [
  | inl dot ↦
      inr (0, [], rw (dot, if◌then◌else◌) refl, ap (λ d. d ∷ s) (ground (arith, dot)), refl, refl)
  | inr other ↦ elim (index_of_dot s) [
    | inl (q, free) ↦ inl (rw (other, q, if◌then◌else◌) refl, ground (arith, free, other))
    | inr (i, label, q, cut, free, empty) ↦ inr (
      suc i,
      c ∷ label,
      rw (other, q, if◌then◌else◌) refl,
      ap (λ t. c ∷ t) cut,
      ground (arith, free, other),
      ground (arith),
    )
  ]
]

-- A text has one first dot.
after_dot :
    (l m s t : Text)
    → any is_dot l ≡ false
    → any is_dot m ≡ false
    → l ++ b'.' ∷ s ≡ m ++ b'.' ∷ t
    → (l ≡ m) × (s ≡ t)
after_dot [] [] s t h k q = (refl, cc)
after_dot [] (d ∷ m) s t h k q = let same : b'.' ≡ d = cc in absurd (ground (arith, k, same))
after_dot (c ∷ l) [] s t h k q = let same : b'.' ≡ c = cc in absurd (ground (arith, h, same))
after_dot (c ∷ l) (d ∷ m) s t h k q =
    let (same, left) = after_dot l m s t (grind arith) (grind arith) (cc) in (cc, left)

dot_taken : (label t : Text) → any is_dot (label ++ b'.' ∷ t) ≡ true
dot_taken [] t = refl
dot_taken (c ∷ label) t = ground (arith, dot_taken label t)

-- The rest of an apex is what stands behind a first label, and there is one first label.
one_cut :
    (apex label rest domain : Text)
    → apex ≡ label ++ b'.' ∷ rest
    → any is_dot label ≡ false
    → Below apex domain
    → (is_empty label ≡ false) × (domain ≡ rest) × (any is_dot rest ≡ true)
unfolding Below
one_cut apex label rest domain cut free (label', cut', free', full, dotted) =
    let (same, left) = after_dot label label' rest domain free free' (sym cut ∙ cut') in
    (cc, sym left, cc)

undotted : (apex domain : Text) → any is_dot apex ≡ false → ¬ Below apex domain
unfolding Below
undotted apex domain free (label, cut, free', full, dotted') =
    let dotted : any is_dot apex ≡ true = ap (any is_dot) cut ∙ dot_taken label domain in
    absurd (ground (arith, free, dotted))

-- The second candidate, where the first dot is not the first character.
rest_if :
    (apex : Text) (i : ℕ)
    → index_of apex b'.' ≡ some (suc i)
    → candidates apex
      ≡ apex ∷ (if any is_dot (drop (suc (suc i)) apex) then drop (suc (suc i)) apex ∷ [] else [])
unfolding candidates
rest_if apex i q =
    let shift : suc i + 1 ≡ suc (suc i) = omega arith in rw (q, shift, includes_dot) refl

-- The candidates are the apex, and the one name below it if there is one.
candidates_cases :
    (apex : Text)
    → ((candidates apex ≡ apex ∷ []) × ((domain : Text) → ¬ Below apex domain))
      ⊎ ((rest : Text) × (candidates apex ≡ apex ∷ rest ∷ []) × Below apex rest)
unfolding candidates
candidates_cases apex = elim (index_of_dot apex) [
  | inl (q, free) ↦ inl (rw q refl, λ domain below. undotted apex domain free below)
  | inr (zero, label, q, cut, free, empty) ↦ inl (
    rw q refl,
    λ domain below. absurd (let full = (one_cut apex label _ domain cut free below).0 in cc),
  )
  | inr (suc i, label, q, cut, free, empty) ↦
      elim (Bool-cases (any is_dot (drop (suc (suc i)) apex))) [
        | inl dotted ↦ inr (
          drop (suc (suc i)) apex,
          rest_if apex i q ∙ rw (dotted, if◌then◌else◌) refl,
          unfold Below in (label, cut, free, ground (arith, empty), dotted),
        )
        | inr undotted' ↦ inl (
          rest_if apex i q ∙ rw (undotted', if◌then◌else◌) refl,
          λ domain below.
              absurd (let dotted = (one_cut apex label _ domain cut free below).2 in cc),
        )
      ]
]

listed_iff :
    (first : Text) (others : List Text) (domain : Text)
    → (contains (first ∷ others) domain ≡ true)
      ↔ ((domain ≡ first) ⊎ (contains others domain ≡ true))
unfolding contains
listed_iff first others domain = (λ h. to h, λ s. from s)
  where
    to :
        contains (first ∷ others) domain ≡ true → (domain ≡ first) ⊎ (contains others domain ≡ true)
    to h = elim (Bool-cases (text_eq first domain)) [
      | inl same ↦ inl (sym ((text_eq_iff first domain).0 same))
      | inr differ ↦ inr (ground (arith, h, differ))
    ]

    from :
        (domain ≡ first) ⊎ (contains others domain ≡ true) → contains (first ∷ others) domain ≡ true
    from (inl same) = ground (arith, (text_eq_iff first domain).1 (sym same))
    from (inr there) = ground (arith, there)

listed_one : (rest domain : Text) → (contains (rest ∷ []) domain ≡ true) → domain ≡ rest
unfolding contains
listed_one rest domain h = sym ((text_eq_iff rest domain).0 (ground (arith, h)))

only_one : (apex rest domain : Text) → Below apex rest → Below apex domain → domain ≡ rest
unfolding Below
only_one apex rest domain (label, cut, free, full, dotted) below =
    (one_cut apex label rest domain cut free below).1

-- The apex, and others that are what is below it.
with_apex :
    (apex : Text) (others : List Text) (domain : Text)
    → (contains others domain ≡ true → Below apex domain)
    → (Below apex domain → contains others domain ≡ true)
    → (contains (apex ∷ others) domain ≡ true) ↔ Answers apex domain
unfolding Answers
with_apex apex others domain to from =
    (λ h. there ((listed_iff apex others domain).0 h), λ a. back a)
  where
    there : (domain ≡ apex) ⊎ (contains others domain ≡ true) → Answers apex domain
    there (inl same) = inl same
    there (inr listed) = inr (to listed)

    back : Answers apex domain → contains (apex ∷ others) domain ≡ true
    back (inl same) = (listed_iff apex others domain).1 (inl same)
    back (inr below) = (listed_iff apex others domain).1 (inr (from below))

none_listed : (domain : Text) → contains [] domain ≡ false
unfolding contains
none_listed domain = refl

-- `candidates` lists exactly the names that answer.
pub candidates_iff :
    (apex domain : Text) → (contains (candidates apex) domain ≡ true) ↔ Answers apex domain
candidates_iff apex domain = elim (candidates_cases apex) [
  | inl (q, nothing) ↦ rw q (
      with_apex apex [] domain (λ h. absurd (let n = none_listed domain in cc))
        (λ below. absurd (nothing domain below)))
  | inr (rest, q, below) ↦ rw q (
      with_apex apex (rest ∷ []) domain
        (λ h. subst (Below apex) (sym (listed_one rest domain h)) below)
        (λ below'. (listed_iff rest [] domain).1 (inl (only_one apex rest domain below below'))))
]
