-- ===== src/Build/Tests.antt =====
-- The settings that two small environment files give.
use nfx_edge.Common.{
  ◌≡◌, refl, Text, codes, some, List, [], ◌∷◌, text_eq, trim, starts_with, ends_with, index_of,
}
use nfx_edge.Build.{value_of, load_console_env, console_base, resolve_under}
use nfx_edge.Build.Precedence.{last_value}

build_open : Unit {0}
unfolding text_eq trim starts_with ends_with index_of load_console_env console_base resolve_under
    last_value
build_open = tt

abbrev product : List Text
product = codes "# product" ∷ codes "VITE_BASE = \"tool\"" ∷ codes "NAME='x'" ∷ []

abbrev console : List Text
console = codes "" ∷ codes "NAME=y" ∷ []

from_product : console_base (load_console_env product console []) ≡ codes "/tool/"
unfolding build_open
from_product = refl

over_product :
    value_of (codes "NAME") (load_console_env product console ((codes "NAME", codes "z") ∷ []))
    ≡ some (codes "y")
unfolding build_open
over_product = refl

found_second :
    resolve_under (λ file. text_eq file (codes "a.ts")) (codes "a") (codes "a/index")
    ≡ some (codes "a.ts")
unfolding build_open
found_second = refl
