-- ===== src/Build.antt =====
-- The settings of the console's build: `nfxConsoleBase`, the environment files, and the choice of a
-- file of console/vite.nfx-ui.ts. The file system and the variables of the process are parameters.
pub mod Base
pub mod Precedence
mod Tests
use nfx_edge.Common.{
  ℕ, zero, suc, ◌+◌, Text, codes, Bool, true, false, not, ◌&&◌, ◌||◌, Option, none, some, List, [],
  ◌∷◌, ◌++◌, map, if◌then◌else◌, find, take, drop, drop_last_while, text_eq, trim, starts_with,
  ends_with, index_of, or_else, is_empty, truthy,
}

abbrev pub Bindings : Type 0
Bindings = List (Text × Text)

-- `out[key] = val`; the last value of a key counts.
unfoldable pub assign : Text → Text → Bindings → Bindings
unfolding text_eq
assign key value [] = (key, value) ∷ []
assign key value ((k, v) ∷ rest) =
    let later = assign key value rest in
    if text_eq k key then (key, value) ∷ rest else (k, v) ∷ later

unfoldable pub value_of : Text → Bindings → Option Text
unfolding text_eq
value_of key [] = none
value_of key ((k, v) ∷ rest) =
    let later = value_of key rest in if text_eq k key then some v else later

-- `val.slice(1, -1)`
abbrev pub inner : Text → Text
inner [] = []
inner (c ∷ s) = take_but_last s
  where
    take_but_last : Text → Text
    take_but_last [] = []
    take_but_last (d ∷ []) = []
    take_but_last (d ∷ e ∷ t) = d ∷ take_but_last (e ∷ t)

abbrev pub quoted : ℕ → Text → Bool
quoted q value = starts_with value (q ∷ []) && ends_with value (q ∷ [])

unfoldable pub unquote : Text → Text
unfolding starts_with ends_with
unquote value = if quoted 34 value || quoted 39 value then inner value else value

-- One line of `parseEnvFile`.
unfoldable pub parse_line : Text → Option (Text × Text)
unfolding trim starts_with index_of unquote
parse_line line =
    let s = trim line in
    if is_empty s || starts_with s (codes "#") then none else (elim (index_of s b'=') [
      | none ↦ none
      | some eq ↦ some (trim (take eq s), unquote (trim (drop (eq + 1) s)))
    ])

unfoldable pub parse_lines : List Text → Bindings → Bindings
unfolding parse_line assign
parse_lines [] out = out
parse_lines (line ∷ lines) out = elim (parse_line line) [
  | none ↦ parse_lines lines out
  | some binding ↦ parse_lines lines (assign binding.0 binding.1 out)
]

-- `{ ...a, ...b }`, and the loop over the variables of the process.
unfoldable pub override : Bindings → Bindings → Bindings
unfolding assign
override a [] = a
override a ((k, v) ∷ b) = override (assign k v a) b

unfoldable pub vite_only : Bindings → Bindings
unfolding starts_with
vite_only [] = []
vite_only ((k, v) ∷ b) =
    let rest = vite_only b in if starts_with k (codes "VITE_") then (k, v) ∷ rest else rest

-- `loadNfxConsoleEnv`, from the lines of the two files.
unfoldable pub load_console_env : List Text → List Text → Bindings → Bindings
unfolding parse_lines override vite_only
load_console_env product console process =
    override (override (parse_lines product []) (parse_lines console [])) (vite_only process)

-- `nfxConsoleBase`
unfoldable pub console_base : Bindings → Text
unfolding value_of trim starts_with ends_with
console_base env =
    let raw : Text = elim (value_of (codes "VITE_BASE") env) [
      | none ↦ codes "/"
      | some v ↦ or_else v (codes "/")
    ] in
    let base = or_else (trim raw) (codes "/") in
    let rooted = if starts_with base (codes "/") then base else codes "/" ++ base in
    if ends_with rooted (codes "/") then rooted else rooted ++ codes "/"

-- `resolveUnder`: the first candidate that is a file.
unfoldable pub resolve_under : (Text → Bool) → Text → Text → Option Text
resolve_under is_file base index = find is_file (
    base
    ∷ (base ++ codes ".ts")
    ∷ (base ++ codes ".tsx")
    ∷ (base ++ codes ".js")
    ∷ (index ++ codes ".ts")
    ∷ (index ++ codes ".tsx")
    ∷ (index ++ codes ".js")
    ∷ [])
