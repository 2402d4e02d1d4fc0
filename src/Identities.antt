-- ===== src/Identities.antt =====
-- The page of a user's identities: console/src/pages/User/Profile/Identities/index.tsx. The rows of
-- email addresses and of phone numbers do the same; a row is told whether the server accepted its
-- command. The confirmation of a deletion covers the page until it is answered.
pub mod Contacts
pub mod Kept
mod Tests
use nfx_edge.Common.{
  ℕ, Text, codes, Bool, true, false, not, ◌&&◌, ◌||◌, Option, none, some, List, [], ◌∷◌, ◌++◌, leb,
  ltb, if◌then◌else◌, filter, length, any, text_eq, trim, truthy, is_empty,
}

-- An email address or a phone number of the account.
pub record Contact : Type 0 where
  pub id : Text
  pub address : Text
  pub is_primary : Bool
  pub verified : Bool

-- The state of `EmailRow` and of `PhoneRow`.
pub record ContactRow : Type 0 where
  pub code : Text
  pub next : Text
  pub editing : Bool

abbrev pub first_row : Contact → ContactRow
first_row item = record { code = []; next = item.address; editing = false }

pub data Command : Type 0 where
  send_code : (id : Text) → Command
  set_primary : (id : Text) → Command
  update : (id address : Text) → Command
  remove : (id : Text) → Command
  verify : (id code : Text) → Command

-- When a code is complete, and how it is sent: trimmed for an email address; for a phone number as
-- nfx-ui has it.
pub record CodeRule : Type 0 where
  pub accepts : Text → Bool
  pub normalize : Text → Text

unfoldable pub email_rule : CodeRule
unfolding trim
email_rule = record { accepts = λ code. truthy (trim code); normalize = trim }

-- What is done on a row: its buttons and fields, and the success of an update and of a verification.
pub data Press : Type 0 where
  code_typed : Text → Press
  next_typed : Text → Press
  edit_toggled send_pressed primary_pressed remove_pressed update_pressed verify_pressed : Press
  updated verified_now : Press

-- The update is enabled: `disabled={!next.trim() || next.trim() === item.address}`.
unfoldable pub can_update : Contact → ContactRow → Bool
unfolding trim text_eq
can_update item row = not (not (truthy (trim row.next)) || text_eq (trim row.next) item.address)

abbrev pub send_if : Bool → Command → List Command
send_if true command = command ∷ []
send_if false command = []

-- The row afterwards, and the command that is sent.
unfoldable pub press : CodeRule → Contact → Press → ContactRow → ContactRow × List Command
unfolding can_update trim
press rule item (code_typed text) row = (record row { code = text }, [])
press rule item (next_typed text) row = (record row { next = text }, [])
press rule item edit_toggled row = (record row { editing = not row.editing }, [])
press rule item send_pressed row = (row, send_if (not item.verified) (send_code item.id))
press rule item primary_pressed row = (row, send_if (not item.is_primary) (set_primary item.id))
press rule item remove_pressed row = (row, remove item.id ∷ [])
press rule item update_pressed row =
    (row, send_if (row.editing && can_update item row) (update item.id (trim row.next)))
press rule item verify_pressed row = (
  row,
  send_if (not item.verified && rule.accepts row.code) (verify item.id (rule.normalize row.code)),
)
press rule item updated row = (record row { editing = false }, [])
press rule item verified_now row = (record row { code = [] }, [])

-- The commands of a row.
unfoldable pub commands : CodeRule → Contact → List Press → ContactRow → List Command
unfolding press
commands rule item [] row = []
commands rule item (p ∷ presses) row =
    (press rule item p row).1 ++ commands rule item presses (press rule item p row).0

pub data Kind : Type 0 where
  community authority : Kind

pub record Profile : Type 0 where
  pub id : Text
  pub kind : Kind

abbrev pub kind_eq : Kind → Kind → Bool
kind_eq community community = true
kind_eq authority authority = true
kind_eq _ _ = false

unfoldable pub profile_eq : Profile → Profile → Bool
unfolding text_eq
profile_eq p q = text_eq p.id q.id && kind_eq p.kind q.kind

-- `ProfilesSection`: the rows, the current profile, and the commands that wait for an answer.
pub record Profiles : Type 0 where
  pub rows : List Profile
  pub current : Profile
  pub deleting : Option Profile
  pub selecting : Option Profile
  pub switching_id : Option Text

abbrev pub is_pending : Option Profile → Bool
is_pending none = false
is_pending (some p) = true

abbrev pub is_text : Option Text → Text → Bool
is_text none t = false
is_text (some s) t = text_eq s t

unfoldable pub is_shown : Profiles → Profile → Bool
unfolding profile_eq
is_shown s p = any (λ row. profile_eq row p) s.rows

unfoldable pub is_current : Profiles → Profile → Bool
unfolding profile_eq
is_current s p = profile_eq p s.current

unfoldable pub is_busy : Profiles → Profile → Bool
unfolding text_eq
is_busy s p = is_text s.switching_id p.id || is_pending s.deleting || is_pending s.selecting

unfoldable pub at_floor : Profiles → Bool
at_floor s = leb (length s.rows) 1

-- `handleSwitch` up to its `await`
unfoldable pub handle_switch : Profile → Profiles → Profiles
unfolding is_current
handle_switch p s =
    if is_current s p || is_pending s.selecting
    then s
    else record s { switching_id = some p.id; selecting = some p }

-- The button of a row that is shown and not the current one.
unfoldable pub press_switch : Profile → Profiles → Profiles
unfolding is_shown is_current is_busy handle_switch
press_switch p s =
    if is_shown s p && not (is_current s p) && not (is_busy s p) then handle_switch p s else s

unfoldable pub switch_answered : Bool → Profiles → Profiles
switch_answered success s = elim s.selecting [
  | none ↦ s
  | some p ↦ record s {
    current = if success then p else s.current;
    selecting = none;
    switching_id = none;
  }
]

unfoldable pub can_delete : Profiles → Profile → Bool
unfolding is_shown is_current at_floor is_busy
can_delete s p =
    is_shown s p && kind_eq p.kind community && not (is_current s p || at_floor s || is_busy s p)

-- The button for a deletion, with the answer to its confirmation.
unfoldable pub press_delete : Profile → Bool → Profiles → Profiles
unfolding can_delete
press_delete p confirmed s =
    if can_delete s p && confirmed then record s { deleting = some p } else s

-- The answer to the deletion; the list is fetched again after a success.
unfoldable pub delete_answered : Bool → Profiles → Profiles
unfolding profile_eq
delete_answered success s = elim s.deleting [
  | none ↦ s
  | some p ↦ record s {
    deleting = none;
    rows = if success then filter (λ row. not (profile_eq row p)) s.rows else s.rows;
  }
]

pub data Event : Type 0 where
  switched : Profile → Event
  switch_settled : Bool → Event
  deleted : Profile → Bool → Event
  delete_settled : Bool → Event
  created : Profile → Event

unfoldable pub step : Event → Profiles → Profiles
unfolding press_switch switch_answered press_delete delete_answered
step (switched p) s = press_switch p s
step (switch_settled success) s = switch_answered success s
step (deleted p confirmed) s = press_delete p confirmed s
step (delete_settled success) s = delete_answered success s
step (created p) s = record s { rows = s.rows ++ p ∷ [] }

unfoldable pub run : List Event → Profiles → Profiles
unfolding step
run [] s = s
run (event ∷ events) s = run events (step event s)
