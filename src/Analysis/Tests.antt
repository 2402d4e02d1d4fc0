-- ===== src/Analysis/Tests.antt =====
-- Runs of the page that analyses a certificate.
use nfx_edge.Common.{◌≡◌, refl, codes, Bool, true, some, List, [], ◌∷◌, trim}
use nfx_edge.Analysis.{
  Response, first_page, Act, certificate_typed, analyze_pressed, clear_pressed, answered, act_all,
  specimen,
}
use nfx_edge.Analysis.Shown.{IsClear, act_all-IsClear}

abbrev ok : Response Bool
ok = record { success = true; message = codes "OK"; body = true }

abbrev acts : List (Act Bool)
acts = certificate_typed (codes "PEM") ∷ analyze_pressed ∷ clear_pressed ∷ answered ok ∷ []

analysed : specimen (act_all (codes "need") acts (first_page Bool)) ≡ some true
unfolding specimen act_all trim
analysed = refl

act_all-IsClear_example : IsClear (act_all (codes "need") acts (first_page Bool))
act_all-IsClear_example = act_all-IsClear (codes "need") acts
