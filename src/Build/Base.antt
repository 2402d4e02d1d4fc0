-- ===== src/Build/Base.antt =====
-- The base path of the console's build, `nfxConsoleBase` of console/vite.nfx-ui.ts.
use nfx_edge.Common.{
  ◌≡◌, refl, Text, codes, Bool, true, false, none, some, [], ◌∷◌, ◌++◌, if◌then◌else◌, starts_with,
  ends_with, trim, or_else,
}
use nfx_edge.Common.TextLaws.{ends_with-append}
use nfx_edge.Build.{Bindings, value_of, console_base}

starts_slash :
    (s t : Text) → starts_with s (codes "/") ≡ true → starts_with (s ++ t) (codes "/") ≡ true
unfolding starts_with
starts_slash [] t h = absurd (cc)
starts_slash (c ∷ s) t h = h

rooted_starts :
    (s : Text) (b : Bool)
    → starts_with s (codes "/") ≡ b
    → starts_with (if b then s else codes "/" ++ s) (codes "/") ≡ true
rooted_starts s true h = h
rooted_starts s false h = unfold starts_with in refl

closed_both :
    (s : Text) (b : Bool)
    → ends_with s (codes "/") ≡ b
    → starts_with s (codes "/") ≡ true
    → (starts_with (if b then s else s ++ codes "/") (codes "/") ≡ true)
      × (ends_with (if b then s else s ++ codes "/") (codes "/") ≡ true)
closed_both s true h k = (k, h)
closed_both s false h k = (starts_slash s (codes "/") k, ends_with-append s (codes "/"))

base_lem :
    (base : Text)
    → let rooted = if starts_with base (codes "/") then base else codes "/" ++ base in
      (starts_with
          (if ends_with rooted (codes "/") then rooted else rooted ++ codes "/")
          (codes "/")
        ≡ true)
      × (ends_with
            (if ends_with rooted (codes "/") then rooted else rooted ++ codes "/")
            (codes "/")
          ≡ true)
base_lem base =
    let rooted = if starts_with base (codes "/") then base else codes "/" ++ base in
    closed_both rooted (ends_with rooted (codes "/")) refl
      (rooted_starts base (starts_with base (codes "/")) refl)

-- Whatever the environment says, the base path starts and ends with a slash.
console_base_lem :
    (env : Bindings)
    → (starts_with (console_base env) (codes "/") ≡ true)
      × (ends_with (console_base env) (codes "/") ≡ true)
unfolding console_base
console_base_lem env =
    let raw : Text = elim (value_of (codes "VITE_BASE") env) [
      | none ↦ codes "/"
      | some v ↦ or_else v (codes "/")
    ] in
    base_lem (or_else (trim raw) (codes "/"))
