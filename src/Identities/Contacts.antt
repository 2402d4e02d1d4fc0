-- ===== src/Identities/Contacts.antt =====
-- What the rows of addresses send: `EmailRow` and `PhoneRow` of
-- console/src/pages/User/Profile/Identities/index.tsx.
use nfx_edge.Common.{
  ◌≡◌, refl, Text, Bool, true, false, not, ◌&&◌, ◌||◌, List, [], ◌∷◌, arith, All, All-append,
  text_eq, trim, truthy, &&-left, &&-right,
}
use nfx_edge.Common.TextLaws.{trim_idem}
use nfx_edge.Identities.{
  Contact, ContactRow, first_row, Command, send_code, set_primary, update, remove, verify, CodeRule,
  Press, code_typed, next_typed, edit_toggled, send_pressed, primary_pressed, remove_pressed,
  update_pressed, verify_pressed, updated, verified_now, can_update, send_if, press, commands,
}

-- A command that makes sense for the address: a new address is given and is another one, only an
-- address that is not verified is verified, with a complete code, and only another than the primary
-- one is made primary.
unfoldable pub IsProper : CodeRule → Contact → Command → Type 0
IsProper rule item (send_code id) = (id ≡ item.id) × (item.verified ≡ false)
IsProper rule item (set_primary id) = (id ≡ item.id) × (item.is_primary ≡ false)
IsProper rule item (update id address) =
    (id ≡ item.id)
    × (truthy address ≡ true)
    × (trim address ≡ address)
    × (text_eq address item.address ≡ false)
IsProper rule item (remove id) = id ≡ item.id
IsProper rule item (verify id code) =
    (id ≡ item.id)
    × (item.verified ≡ false)
    × ((typed : Text) × (code ≡ rule.normalize typed) × (rule.accepts typed ≡ true))

module _ (rule : CodeRule) (item : Contact) where
  send_if-IsProper :
      (b : Bool) (command : Command)
      → (b ≡ true → IsProper rule item command)
      → All (IsProper rule item) (send_if b command)
  send_if-IsProper true command h = (h refl, tt)
  send_if-IsProper false command h = tt

  refuted : (b : Bool) → not b ≡ true → b ≡ false
  refuted b h = ground (arith, h)

  can_update_lem :
      (row : ContactRow)
      → can_update item row ≡ true
      → (truthy (trim row.next) ≡ true) × (text_eq (trim row.next) item.address ≡ false)
  unfolding can_update
  can_update_lem row h = both (truthy (trim row.next)) (text_eq (trim row.next) item.address) h
    where
      both : (a b : Bool) → not (not a || b) ≡ true → (a ≡ true) × (b ≡ false)
      both a b h = ground (arith, h)

  press-IsProper :
      (p : Press) (row : ContactRow) → All (IsProper rule item) (press rule item p row).1
  unfolding press
  press-IsProper (code_typed text) row = tt
  press-IsProper (next_typed text) row = tt
  press-IsProper edit_toggled row = tt
  press-IsProper send_pressed row =
      send_if-IsProper (not item.verified) (send_code item.id)
        (λ h. unfold IsProper in (refl, refuted item.verified h))
  press-IsProper primary_pressed row =
      send_if-IsProper (not item.is_primary) (set_primary item.id)
        (λ h. unfold IsProper in (refl, refuted item.is_primary h))
  press-IsProper remove_pressed row = (unfold IsProper in refl, tt)
  press-IsProper update_pressed row =
      send_if-IsProper (row.editing && can_update item row) (update item.id (trim row.next)) (λ h.
        let new = can_update_lem row (&&-right row.editing (can_update item row) h) in
        unfold IsProper in (refl, new.0, trim_idem row.next, new.1))
  press-IsProper verify_pressed row =
      send_if-IsProper (not item.verified && rule.accepts row.code)
        (verify item.id (rule.normalize row.code))
        (λ h.
          unfold IsProper in
          (
            refl,
            refuted item.verified (&&-left (not item.verified) (rule.accepts row.code) h),
            (row.code, refl, &&-right (not item.verified) (rule.accepts row.code) h),
          ))
  press-IsProper updated row = tt
  press-IsProper verified_now row = tt

  commands_from :
      (presses : List Press) (row : ContactRow)
      → All (IsProper rule item) (commands rule item presses row)
  unfolding commands
  commands_from [] row = tt
  commands_from (p ∷ presses) row =
      All-append (IsProper rule item) (press rule item p row).1
        (commands rule item presses (press rule item p row).0) (press-IsProper p row)
        (commands_from presses (press rule item p row).0)

  -- Whatever is typed and pressed on the row of an address, every command that it sends is about that
  -- address: an update gives a new address that is not empty, is trimmed and is not the old one; a code
  -- is asked for or sent only while the address is not verified, and sent only if complete; and it is
  -- made the primary one only if it is not.
  pub commands-IsProper :
      (presses : List Press)
      → All (IsProper rule item) (commands rule item presses (first_row item))
  commands-IsProper presses = commands_from presses (first_row item)
