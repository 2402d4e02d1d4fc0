-- ===== src/Account/Initials.antt =====
-- The initials of a user: console/src/utils/userInitials.ts.
use Prim.Native.Nat.{min}
use nfx_edge.Common.{
  ℕ, ◌≤◌, ◌≡◌, ◌∙◌, refl, ◌⊎◌, inl, inr, Text, true, false, [], ◌∷◌, ◌++◌, arith, leb, ◌==◌,
  if◌then◌else◌, length, length-map, length-take, length-append, take, trim, split,
}
use nfx_edge.Account.{upper, question, first_letter, first_part, local_initials, initials_from}

-- One or two code units.
abbrev IsShort : Text → Type 0
IsShort s = (1 ≤ length s) × (length s ≤ 2)

length-upper : (s : Text) → length (upper s) ≡ length s
unfolding upper
length-upper s = length-map _ s

two_letters : (s : Text) → 2 ≤ length s → IsShort (upper (take 2 s))
two_letters s h =
    let size : length (upper (take 2 s)) ≡ min 2 (length s) =
      length-upper (take 2 s) ∙ length-take 2 s in
    (omega (arith, size, h), omega (arith, size))

one_more : (s t : Text) → length s ≡ 1 → length t ≡ 1 → IsShort (upper s ++ t)
one_more s t h k =
    let size = length-append (upper s) t in
    let same = length-upper s in (omega (arith, size, same, h, k), omega (arith, size, same, h, k))

length-first_letter : (email : Text) → length (upper (first_letter email)) ≡ 1
length-first_letter [] = length-upper question ∙ refl
length-first_letter (c ∷ s) = length-upper (c ∷ []) ∙ refl

by_length :
    (n : ℕ)
    → (leb 2 n ≡ true × 2 ≤ n)
      ⊎ (leb 2 n ≡ false × ((n == 1) ≡ true) × n ≡ 1)
      ⊎ (leb 2 n ≡ false × ((n == 1) ≡ false))
by_length n = ground arith

local_initials-IsShort : (s : Text) → IsShort (local_initials s)
unfolding local_initials
local_initials-IsShort s = elim (by_length (length s)) [
  | inl (long, h) ↦ rw (long, if◌then◌else◌) (two_letters s h)
  | inr (inl (short, one, h)) ↦ rw (short, one, if◌then◌else◌) (one_more s question h refl)
  | inr (inr (short, more)) ↦ rw (short, more, if◌then◌else◌) (omega arith, omega arith)
]

-- Whatever name and address an account has, its initials are one or two characters.
length-initials_from :
    (display_name email : Text)
    → (1 ≤ length (initials_from display_name email))
      × (length (initials_from display_name email) ≤ 2)
unfolding initials_from
length-initials_from display_name email =
    let n = trim display_name in
    elim (by_length (length n)) [
      | inl (long, h) ↦ rw (long, if◌then◌else◌) (two_letters n h)
      | inr (inl (short, one, h)) ↦
          rw (short, one, if◌then◌else◌)
            (one_more n (upper (first_letter email)) h (length-first_letter email))
      | inr (inr (short, more)) ↦
          rw (short, more, if◌then◌else◌) (local_initials-IsShort (first_part (split email b'@')))
    ]
