-- ===== src/Account/Tests.antt =====
-- Runs of the rules of the account pages.
use nfx_edge.Common.{
  ◌≡◌, refl, codes, true, false, none, some, [], ◌∷◌, trim, lower, text_eq, split,
}
use nfx_edge.Account.{
  ticks, can_resend, initials_from, upper, items, edge_api_error_message, is_namecheap_flag,
  resolve_avatar_src, default_avatar,
}

half_way : can_resend (ticks 30 60) ≡ false
unfolding can_resend ticks
half_way = refl

no_name : initials_from [] (codes "lu@x.io") ≡ codes "LU"
unfolding initials_from upper trim split
no_name = refl

two_details :
    edge_api_error_message
      (some (some (codes " "), items (codes "a" ∷ [] ∷ codes "b" ∷ [])))
      (codes "failed")
    ≡ codes "a; b"
unfolding edge_api_error_message trim
two_details = refl

yes_flag : is_namecheap_flag (some (codes "YES")) ≡ true
unfolding is_namecheap_flag lower text_eq
yes_flag = refl

no_avatar : resolve_avatar_src (λ id. id) none ≡ default_avatar
unfolding resolve_avatar_src
no_avatar = refl
