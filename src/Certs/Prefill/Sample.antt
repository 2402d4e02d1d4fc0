-- ===== src/Certs/Prefill/Sample.antt =====
-- A text of parameters that can be read back, for the runs: every code unit is one more, and 0 ends a
-- name or a value.
use nfx_edge.Common.{
  zero, suc, ◌≡◌, refl, ap, ◌∙◌, sym, Text, codes, Option, none, some, [], ◌∷◌, ◌++◌, append_assoc,
  append-nil, drop,
}
use nfx_edge.Certs.Prefill.{Params, cert_add}

unfoldable pub ended : Text → Text
ended [] = 0 ∷ []
ended (c ∷ s) = suc c ∷ ended s

unfoldable pub to_text : Params → Text
unfolding ended
to_text [] = []
to_text ((name, value) ∷ params) = ended name ++ (ended value ++ to_text params)

unfoldable pub read : Option Text → Text → Text → Params
read name cur [] = []
read none cur (zero ∷ s) = read (some cur) [] s
read (some name) cur (zero ∷ s) = (name, cur) ∷ read none [] s
read name cur (suc c ∷ s) = read name (cur ++ c ∷ []) s

-- Behind "/certs/add?".
unfoldable pub search_params : Text → Params
unfolding read
search_params url = read none [] (drop 11 url)

read-ended :
    (name : Option Text) (cur t s : Text)
    → read name cur (ended t ++ s) ≡ read name (cur ++ t) (0 ∷ s)
unfolding read ended
read-ended name cur [] s = ap (λ u. read name u (0 ∷ s)) (sym (append-nil cur))
read-ended name cur (c ∷ t) s =
    read-ended name (cur ++ c ∷ []) t s
    ∙ ap (λ u. read name u (0 ∷ s)) (append_assoc cur (c ∷ []) t)

first_end : (cur s : Text) → read none cur (0 ∷ s) ≡ read (some cur) [] s
unfolding read
first_end cur s = refl

second_end : (name cur s : Text) → read (some name) cur (0 ∷ s) ≡ (name, cur) ∷ read none [] s
unfolding read
second_end name cur s = refl

read-to_text : (params : Params) → read none [] (to_text params) ≡ params
unfolding to_text
read-to_text [] = unfold read in refl
read-to_text ((name, value) ∷ params) =
    read-ended none [] name (ended value ++ to_text params)
    ∙ first_end name (ended value ++ to_text params)
    ∙ read-ended (some name) [] value (to_text params)
    ∙ second_end name value (to_text params)
    ∙ ap (λ rest. (name, value) ∷ rest) (read-to_text params)

pub reads : (params : Params) → search_params (cert_add ++ codes "?" ++ to_text params) ≡ params
unfolding search_params
reads params = read-to_text params
