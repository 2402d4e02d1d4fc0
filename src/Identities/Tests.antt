-- ===== src/Identities/Tests.antt =====
-- Runs of the page of identities.
use nfx_edge.Common.{◌≡◌, refl, codes, true, false, none, some, List, [], ◌∷◌, All, text_eq, trim}
use nfx_edge.Identities.{
  Contact, first_row, Press, update, next_typed, edit_toggled, update_pressed, email_rule, commands,
  Profile, community, Profiles, is_shown, is_current, Event, switched, switch_settled, deleted,
  delete_settled, run, profile_eq,
}
use nfx_edge.Identities.Contacts.{IsProper, commands-IsProper}
use nfx_edge.Identities.Kept.{run-IsKept}

abbrev address : Contact
address = record { id = codes "1"; address = codes "a@x.io"; is_primary = true; verified = false }

abbrev renamed : List Press
renamed = edit_toggled ∷ next_typed (codes " b@x.io ") ∷ update_pressed ∷ []

renamed_sends :
    commands email_rule address renamed (first_row address)
    ≡ update (codes "1") (codes "b@x.io") ∷ []
unfolding commands trim text_eq
renamed_sends = refl

commands-IsProper_example :
    All (IsProper email_rule address) (commands email_rule address renamed (first_row address))
commands-IsProper_example = commands-IsProper email_rule address renamed

abbrev mine : Profile
mine = record { id = codes "1"; kind = community }

abbrev other : Profile
other = record { id = codes "2"; kind = community }

abbrev two : Profiles
two = record {
  rows = mine ∷ other ∷ [];
  current = mine;
  deleting = none;
  selecting = none;
  switching_id = none;
}

abbrev events : List Event
events =
    switched other
    ∷ deleted mine true
    ∷ switch_settled true
    ∷ deleted mine true
    ∷ delete_settled true
    ∷ []

-- The deletion waits until the other profile is the current one.
mine_gone : (run events two).rows ≡ other ∷ []
unfolding run
mine_gone = refl

run-IsKept_example :
    (is_shown (run events two) (run events two).current ≡ true)
    × ((p : Profile) → (run events two).deleting ≡ some p → is_current (run events two) p ≡ false)
run-IsKept_example = run-IsKept events two (unfold is_shown profile_eq text_eq in refl) refl refl
