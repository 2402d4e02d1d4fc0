-- ===== src/Common/Split.antt =====
-- `split` at a code unit, and `join` with it.
use Prim.Native.Nat.{ℕ}
use mathlib.Core.Path.{◌≡◌, refl, ap, ◌∙◌}
use mathlib.Core.Logic.{inl, inr}
use mathlib.Core.Bool.{false}
use mathlib.Core.List.{List, [], ◌∷◌, ◌++◌, append_assoc}
use native.Mathlib.Omega.{arith}
use nfx_edge.Common.Tests.{◌==◌, if◌then◌else◌, Bool-cases}
use nfx_edge.Common.Lists.{All}
use nfx_edge.Common.JsText.{Text, put_first, split, join}
use nfx_edge.Common.TextLaws.{Lacks}

module _ (c : ℕ) where
  abbrev pub HasNo : Text → Type 0
  HasNo = Lacks (λ d. d == c)

  pub split_whole : (t : Text) → HasNo t → split t c ≡ t ∷ []
  unfolding split
  split_whole [] h = refl
  split_whole (d ∷ t) h = rw (h.0, split_whole t h.1)

  pub split_first : (t s : Text) → HasNo t → split (t ++ c ∷ s) c ≡ t ∷ split s c
  unfolding split
  split_first [] s h = ground arith
  split_first (d ∷ t) s h = rw (h.0, split_first t s h.1)

  pub split-join :
      (t : Text) (ts : List Text)
      → HasNo t
      → All HasNo ts
      → split (join (c ∷ []) (t ∷ ts)) c ≡ t ∷ ts
  split-join t [] h hs = split_whole t h
  split-join t (u ∷ ts) h hs =
      ap (λ s. split s c) (append_assoc t (c ∷ []) (join (c ∷ []) (u ∷ ts)))
      ∙ split_first t (join (c ∷ []) (u ∷ ts)) h
      ∙ ap (λ rest. t ∷ rest) (split-join u ts hs.0 hs.1)

  -- No part of a text holds the code unit that it is split at.
  pub split-HasNo : (s : Text) → All HasNo (split s c)
  unfolding split
  split-HasNo [] = (tt, tt)
  split-HasNo (d ∷ s) = elim (Bool-cases (d == c)) [
    | inl cut ↦ rw (cut, if◌then◌else◌) (tt, split-HasNo s)
    | inr kept ↦ rw (kept, if◌then◌else◌) (put_first-HasNo d (split s c) kept (split-HasNo s))
  ]
    where
      put_first-HasNo :
          (d : ℕ) (ps : List Text) → (d == c) ≡ false → All HasNo ps → All HasNo (put_first d ps)
      put_first-HasNo d [] k h = ((k, tt), tt)
      put_first-HasNo d (p ∷ ps) k h = ((k, h.0), h.1)
