-- ===== src/Build/Precedence.antt =====
-- Which setting counts: `loadNfxConsoleEnv` of console/vite.nfx-ui.ts.
use nfx_edge.Common.{
  ◌≡◌, refl, sym, ap, ◌∙◌, subst, inl, inr, Text, codes, Bool, true, false, Option, none, some,
  List, [], ◌∷◌, arith, if◌then◌else◌, Bool-cases, text_eq, text_eq_refl, text_eq_iff, starts_with,
}
use nfx_edge.Build.{Bindings, assign, value_of, parse_lines, override, vite_only, load_console_env}

abbrev pub first_of : Option Text → Option Text → Option Text
first_of none other = other
first_of (some value) other = some value

-- The value of the last binding of a key.
unfoldable pub last_value : Text → Bindings → Option Text
unfolding text_eq
last_value key [] = none
last_value key ((k, v) ∷ rest) =
    first_of (last_value key rest) (if text_eq k key then some v else none)

text_eq_common : (s t u : Text) → text_eq s u ≡ true → text_eq t u ≡ true → text_eq s t ≡ true
text_eq_common s t u h k = (text_eq_iff s t).1 ((text_eq_iff s u).0 h ∙ sym ((text_eq_iff t u).0 k))

value_of-assign :
    (key k v : Text) (a : Bindings)
    → value_of key (assign k v a) ≡ (if text_eq k key then some v else value_of key a)
unfolding value_of assign
value_of-assign key k v [] = refl
value_of-assign key k v ((j, u) ∷ a) = elim (Bool-cases (text_eq j k)) [
  | inl same ↦
      subst
        (λ i.
          value_of key (assign k v ((i, u) ∷ a))
          ≡ (if text_eq k key then some v else value_of key ((i, u) ∷ a)))
        (sym ((text_eq_iff j k).0 same)) (ground (arith, text_eq_refl k))
  | inr differ ↦ ground (arith, differ, value_of-assign key k v a, text_eq_common j k key)
]

first_of_assoc : (o p q : Option Text) → first_of (first_of o p) q ≡ first_of o (first_of p q)
first_of_assoc none p q = refl
first_of_assoc (some u) p q = refl

value_of-override :
    (key : Text) (a b : Bindings)
    → value_of key (override a b) ≡ first_of (last_value key b) (value_of key a)
unfolding override last_value
value_of-override key a [] = refl
value_of-override key a ((k, v) ∷ b) =
    value_of-override key (assign k v a) b
    ∙ ap (first_of (last_value key b)) (value_of-assign key k v a ∙ one_binding (text_eq k key))
    ∙ sym (first_of_assoc (last_value key b) _ _)
  where
    one_binding :
        (c : Bool)
        → (if c then some v else value_of key a)
          ≡ first_of (if c then some v else none) (value_of key a)
    one_binding true = refl
    one_binding false = refl

last_value_if :
    (key k v : Text) (rest : Bindings) (c : Bool)
    → last_value key (if c then (k, v) ∷ rest else rest) ≡ (
        if c
        then first_of (last_value key rest) (if text_eq k key then some v else none)
        else last_value key rest)
unfolding last_value
last_value_if key k v rest true = refl
last_value_if key k v rest false = refl

kept_or_not :
    (c d e : Bool) (o p : Option Text) (v : Text)
    → o ≡ (if d then p else none)
    → (e ≡ true → c ≡ d)
    → (if c then first_of o (if e then some v else none) else o)
      ≡ (if d then first_of p (if e then some v else none) else none)
kept_or_not true true e o p v q h = ap (λ r. first_of r (if e then some v else none)) q
kept_or_not true false true o p v q h = absurd (true-ne_false (h refl))
  where
    true-ne_false : true ≡ false → ⊥
    true-ne_false r = cc
kept_or_not true false false o p v q h = ap (λ r. first_of r none) q
kept_or_not false true true o p v q h = absurd (false-ne_true (h refl))
  where
    false-ne_true : false ≡ true → ⊥
    false-ne_true r = cc
kept_or_not false true false o p v q h = q ∙ first_of_none p
  where
    first_of_none : (r : Option Text) → r ≡ first_of r none
    first_of_none none = refl
    first_of_none (some u) = refl
kept_or_not false false e o p v q h = q

last_value-vite_only :
    (key : Text) (b : Bindings)
    → last_value key (vite_only b)
      ≡ (if starts_with key (codes "VITE_") then last_value key b else none)
unfolding last_value vite_only
last_value-vite_only key [] = ground arith
last_value-vite_only key ((k, v) ∷ b) =
    last_value_if key k v (vite_only b) (starts_with k (codes "VITE_"))
    ∙ kept_or_not (starts_with k (codes "VITE_")) (starts_with key (codes "VITE_")) (text_eq k key)
        _ _ v (last_value-vite_only key b)
        (λ h. ap (λ s. starts_with s (codes "VITE_")) ((text_eq_iff k key).0 h))

-- A setting has the last value that the process gives it, if its name starts with VITE_; else the last
-- one that the console's own file gives it, and else the one of the product's file.
load_console_env_lem :
    (product console : List Text) (process : Bindings) (key : Text)
    → value_of key (load_console_env product console process)
      ≡ first_of (if starts_with key (codes "VITE_") then last_value key process else none) (
          first_of
            (last_value key (parse_lines console []))
            (value_of key (parse_lines product [])))
unfolding load_console_env
load_console_env_lem product console process key =
    value_of-override key (override (parse_lines product []) (parse_lines console []))
      (vite_only process)
    ∙ ap
        (λ o.
          first_of o (value_of key (override (parse_lines product []) (parse_lines console []))))
        (last_value-vite_only key process)
    ∙ ap (first_of _) (value_of-override key (parse_lines product []) (parse_lines console []))
