-- ===== src/Common/TextLaws.antt =====
-- Laws of the text operations: what `trim`, the dot strippers and `lower` leave, when they change
-- nothing, and what `starts_with` and `ends_with` find.
use Prim.Native.Nat.{ℕ, suc, ◌+◌, ◌≤◌}
use mathlib.Core.Path.{◌≡◌, refl, sym, ap, ◌∙◌}
use mathlib.Core.Bool.{Bool, true, false}
use mathlib.Core.List.{
  [], ◌∷◌, ◌++◌, reverse, reverse-append, reverse-reverse, reverse-cons, map-append,
}
use native.Mathlib.Omega.{arith}
use mathlib.Core.Logic.{inl, inr}
use nfx_edge.Common.Tests.{Bool-cases, if◌then◌else◌}
use nfx_edge.Common.Lists.{All, All-append, length, take}
use nfx_edge.Common.JsText.{
  Text, is_space, drop_while, drop_last_while, trim_start, trim_end, trim, lower_char, lower,
  starts_with, ends_with,
}

-- Every code unit fails the test.
abbrev pub Lacks : (ℕ → Bool) → Text → Type 0
Lacks p s = All (λ c. p c ≡ false) s

abbrev pub HasNoSpace : Text → Type 0
HasNoSpace = Lacks is_space

module _ {κ} (P : ℕ → Type κ) where
  pub All-reverse : (s : Text) → All P s → All P (reverse s)
  All-reverse [] h = tt
  All-reverse (c ∷ s) h =
      rw (reverse-cons c s) (All-append P (reverse s) (c ∷ []) (All-reverse s h.1) (h.0, tt))

  pub All-drop_while : (p : ℕ → Bool) (s : Text) → All P s → All P (drop_while p s)
  All-drop_while p [] h = tt
  All-drop_while p (c ∷ s) h = ground (arith, All-drop_while p s h.1)

  pub All-drop_last_while : (p : ℕ → Bool) (s : Text) → All P s → All P (drop_last_while p s)
  All-drop_last_while p s h =
      All-reverse (drop_while p (reverse s)) (All-drop_while p (reverse s) (All-reverse s h))

pub drop_while_of_Lacks : (p : ℕ → Bool) (s : Text) → Lacks p s → drop_while p s ≡ s
drop_while_of_Lacks p [] h = refl
drop_while_of_Lacks p (c ∷ s) h = rw h.0

pub drop_last_while_of_Lacks : (p : ℕ → Bool) (s : Text) → Lacks p s → drop_last_while p s ≡ s
drop_last_while_of_Lacks p s h =
    rw (drop_while_of_Lacks p (reverse s) (All-reverse _ s h)) (reverse-reverse s)

pub drop_while_idem : (p : ℕ → Bool) (s : Text) → drop_while p (drop_while p s) ≡ drop_while p s
drop_while_idem p [] = refl
drop_while_idem p (c ∷ s) = ground (arith, drop_while_idem p s)

pub drop_last_while_idem :
    (p : ℕ → Bool) (s : Text) → drop_last_while p (drop_last_while p s) ≡ drop_last_while p s
drop_last_while_idem p s =
    ap reverse (
      ap (drop_while p) (reverse-reverse (drop_while p (reverse s)))
      ∙ drop_while_idem p (reverse s))

-- A text that ends in a code unit that fails the test loses nothing at its end.
pub drop_last_while_concat :
    (p : ℕ → Bool) (s : Text) (c : ℕ) → p c ≡ false → drop_last_while p (s ++ c ∷ []) ≡ s ++ c ∷ []
drop_last_while_concat p s c h =
    rw (reverse-append s (c ∷ []), h) (rw (reverse-cons c (reverse s), reverse-reverse s))

pub trim_of_HasNoSpace : (s : Text) → HasNoSpace s → trim s ≡ s
unfolding trim trim_start trim_end
trim_of_HasNoSpace s h =
    rw (drop_while_of_Lacks is_space s h) (drop_last_while_of_Lacks is_space s h)

pub trim-HasNoSpace : (s : Text) → HasNoSpace s → HasNoSpace (trim s)
trim-HasNoSpace s h = rw (trim_of_HasNoSpace s h) h

pub lower_char_idem : (c : ℕ) → lower_char (lower_char c) ≡ lower_char c
unfolding lower_char
lower_char_idem c = ground arith

pub lower_idem : (s : Text) → lower (lower s) ≡ lower s
unfolding lower
lower_idem [] = refl
lower_idem (c ∷ s) = rw (lower_char_idem c) (ap (λ t. lower_char c ∷ t) (lower_idem s))

pub lower-append : (s t : Text) → lower (s ++ t) ≡ lower s ++ lower t
unfolding lower
lower-append s t = map-append lower_char s t

is_space_below : (c : ℕ) → b'A' ≤ c → c ≤ b'Z' → is_space c ≡ false
unfolding is_space
is_space_below c h k = ground arith

is_space_low : (c : ℕ) → b'a' ≤ c → c ≤ b'z' → is_space c ≡ false
unfolding is_space
is_space_low c h k = ground arith

pub is_space-lower_char : (c : ℕ) → is_space c ≡ false → is_space (lower_char c) ≡ false
unfolding lower_char
is_space-lower_char c h = ground (arith, is_space_low (c + 32))

pub lower-HasNoSpace : (s : Text) → HasNoSpace s → HasNoSpace (lower s)
unfolding lower
lower-HasNoSpace [] h = tt
lower-HasNoSpace (c ∷ s) h = (is_space-lower_char c h.0, lower-HasNoSpace s h.1)

pub starts_with-append : (s t : Text) → starts_with (s ++ t) s ≡ true
unfolding starts_with
starts_with-append [] [] = refl
starts_with-append [] (c ∷ t) = refl
starts_with-append (c ∷ s) t = ground (arith, starts_with-append s t)

pub ends_with-append : (s t : Text) → ends_with (s ++ t) t ≡ true
unfolding ends_with
ends_with-append s t = rw (reverse-append s t) (starts_with-append (reverse t) (reverse s))

pub starts_with_sound : (s t : Text) → starts_with s t ≡ true → (u : Text) × (s ≡ t ++ u)
unfolding starts_with
starts_with_sound [] [] h = ([], refl)
starts_with_sound (c ∷ s) [] h = (c ∷ s, refl)
starts_with_sound [] (d ∷ t) h = cc
starts_with_sound (c ∷ s) (d ∷ t) h =
    let (u, e) = starts_with_sound s t (ground arith) in (u, ground arith)

-- A text that ends in another is that one behind some first part.
pub ends_with_sound : (s t : Text) → ends_with s t ≡ true → (u : Text) × (s ≡ u ++ t)
unfolding ends_with
ends_with_sound s t h =
    let (u, e) = starts_with_sound (reverse s) (reverse t) h in
    (
      reverse u,
      sym (reverse-reverse s)
          ∙ ap reverse e
          ∙ reverse-append (reverse t) u
          ∙ ap (λ v. reverse u ++ v) (reverse-reverse t),
    )

pub take-append : (s t : Text) → take (length s) (s ++ t) ≡ s
take-append [] t = refl
take-append (c ∷ s) t = ap (λ u. c ∷ u) (take-append s t)

pub length-lower : (s : Text) → length (lower s) ≡ length s
unfolding lower
length-lower [] = refl
length-lower (c ∷ s) = ap suc (length-lower s)

drop_while_concat :
    (p : ℕ → Bool) (s : Text) (c : ℕ)
    → p c ≡ false
    → drop_while p (s ++ c ∷ []) ≡ drop_while p s ++ c ∷ []
drop_while_concat p [] c h = rw h refl
drop_while_concat p (d ∷ s) c h = ground (arith, drop_while_concat p s c h)

drop_last_while_cons :
    (p : ℕ → Bool) (c : ℕ) (s : Text)
    → p c ≡ false
    → drop_last_while p (c ∷ s) ≡ c ∷ drop_last_while p s
drop_last_while_cons p c s h =
    rw (reverse-cons c s, drop_while_concat p (reverse s) c h)
      (reverse-append (drop_while p (reverse s)) (c ∷ []))

drop_both :
    (p : ℕ → Bool) (s : Text)
    → drop_while p (drop_last_while p (drop_while p s)) ≡ drop_last_while p (drop_while p s)
drop_both p [] = refl
drop_both p (c ∷ s) = elim (Bool-cases (p c)) [
  | inl space ↦ rw (space, if◌then◌else◌) (drop_both p s)
  | inr other ↦
      rw (other, if◌then◌else◌, drop_last_while_cons p c s other) (rw (other, if◌then◌else◌) refl)
]

pub trim_idem : (s : Text) → trim (trim s) ≡ trim s
unfolding trim trim_start trim_end
trim_idem s =
    ap (drop_last_while is_space) (drop_both is_space s)
    ∙ drop_last_while_idem is_space (drop_while is_space s)
