-- ===== src/Background/Tests.antt =====
-- Runs of the background gallery, and its theorems at concrete drafts. Identifiers are compared by
-- their code units here.
use Prim.Native.Nat.{min}
use nfx_edge.Common.{
  ◌+◌, ◌-◌, ◌≡◌, refl, ◌≤◌, ◌<◌, Text, codes, Bool, true, false, not, ◌||◌, Option, none, some,
  List, [], ◌∷◌, ◌++◌, map, arith, ltb, if◌then◌else◌, take, All, length, text_eq, starts_with,
  decimal,
}
use nfx_edge.Background.Drafts.{
  Draft, File, Item, number_from, normalize_sort_orders, is_busy, drafts_to_items,
}
use nfx_edge.Background.Sorting.{IsNumbered}
use nfx_edge.Background.Upload.{
  Hook, Message, limit_reached, stored, put_failed, server_drafts, upload_all,
}
use nfx_edge.Background.Actions.{
  placeholders, occupied, images_of, begin_upload, upload_files, remove_draft, forward, back,
  move_draft, send, confirm_check, confirmed, unmount, uploading_now, is_fixed,
}
use nfx_edge.Background.Numbered.{
  Event, added, began, got_slot, moved, run, initial, run-IsNumbered,
}
use nfx_edge.Background.Room.{begin_upload_lem}
use nfx_edge.Background.Confirm.{confirm_check_lem, sound_items}
use nfx_edge.Background.Moving.{move_draft_lem}

gallery_open : Unit {0}
unfolding normalize_sort_orders drafts_to_items server_drafts upload_all begin_upload upload_files
    remove_draft move_draft confirm_check confirmed unmount uploading_now is_fixed initial run
    starts_with text_eq images_of decimal placeholders
gallery_open = tt

-- Texts by their first code unit.
abbrev head_le : Text → Text → Bool
head_le [] t = true
head_le (c ∷ s) [] = false
head_le (c ∷ s) (d ∷ t) = not (ltb d c)

head_le_total : (a b : Text) → head_le a b ≡ false → head_le b a ≡ true
head_le_total [] b h = absurd (true-ne_false h)
  where
    true-ne_false : true ≡ false → ⊥
    true-ne_false e = cc
head_le_total (c ∷ s) [] h = refl
head_le_total (c ∷ s) (d ∷ t) h = ground arith

abbrev image_url : Text → Text
image_url id = codes "/asset/" ++ id

abbrev saved : List Item
saved =
    record { image_id = codes "a"; sort_order = 4 }
    ∷ record { image_id = codes "b"; sort_order = 2 }
    ∷ []

abbrev photo : File
photo = record {
  name = codes "p.png";
  mime_type = codes "image/png";
  size = 7;
  new_id = codes "x";
  object_url = codes "blob:1";
}

abbrev note : File
note = record photo { mime_type = codes "text/plain"; new_id = codes "y" }

abbrev start : Hook
start = initial (server_drafts head_le image_url saved)

order_of_start : map (λ d. d.image_id) start.drafts ≡ codes "b" ∷ codes "a" ∷ []
unfolding gallery_open
order_of_start = refl

one_upload :
    map
      (λ d. d.image_id)
      (upload_files head_le 3 false
        (note ∷ photo ∷ photo ∷ [])
        (λ d. stored (codes "c"))
        start).drafts
    ≡ codes "b" ∷ codes "a" ∷ codes "c" ∷ []
unfolding gallery_open
one_upload = refl

-- A failed upload whose slot was prepared is deleted when it fails and once more when it is removed.
deleted_twice :
    (remove_draft head_le 3 (codes "c") (
      upload_files head_le 3 false
        (photo ∷ [])
        (λ d. put_failed (codes "c") (codes "no"))
        start)).deleted
    ≡ codes "c" ∷ codes "c" ∷ []
unfolding gallery_open
deleted_twice = refl

start-IsNumbered : IsNumbered 0 start.drafts
unfolding gallery_open
start-IsNumbered = (refl, (refl, tt))

abbrev busy_day : List Event
busy_day =
    added false (photo ∷ [])
    ∷ began (codes "x")
    ∷ moved (codes "b") forward
    ∷ got_slot (codes "x") (codes "c")
    ∷ []

run-IsNumbered_example : IsNumbered 0 (run head_le 3 busy_day start).drafts
run-IsNumbered_example = run-IsNumbered head_le 3 image_url saved busy_day

begin_upload_lem_example :
    (length (begin_upload head_le 3 false (photo ∷ photo ∷ []) start).1
      ≡ min (3 - occupied start.drafts) (length (images_of (photo ∷ photo ∷ []))))
    × (occupied (begin_upload head_le 3 false (photo ∷ photo ∷ []) start).0.drafts
        ≡ occupied start.drafts
          + length (begin_upload head_le 3 false (photo ∷ photo ∷ []) start).1)
    × ((begin_upload head_le 3 false (photo ∷ photo ∷ []) start).0.image_error ≡ (
        if ltb (3 - occupied start.drafts) (length (images_of (photo ∷ photo ∷ [])))
        then some (limit_reached 3)
        else none))
begin_upload_lem_example =
    begin_upload_lem head_le 3 false (photo ∷ photo ∷ []) start start_free two_images
  where
    start_free : (start.busy || false) ≡ false
    start_free = unfold initial in refl

    two_images : 0 < length (images_of (photo ∷ photo ∷ []))
    two_images = unfold images_of starts_with in omega arith

abbrev no_problem : List Item → Option Message
no_problem items = none

abbrev start_items : List Item
start_items =
    record { image_id = codes "b"; sort_order = 0 }
    ∷ record { image_id = codes "a"; sort_order = 1 }
    ∷ []

start_sends : confirm_check head_le 3 no_problem start ≡ send start_items
unfolding gallery_open
start_sends = refl

confirm_check_lem_example :
    (start.busy ≡ false)
    × All (λ d. is_busy d ≡ false) start.drafts
    × (start_items ≡ take 3 (sound_items start.drafts))
    × (length start_items ≤ 3)
    × (no_problem start_items ≡ none)
confirm_check_lem_example = confirm_check_lem head_le 3 no_problem start start_items start_sends

abbrev first : Draft
first = record {
  image_id = codes "b";
  preview_url = image_url (codes "b");
  sort_order = 0;
  file_name = none;
  file_size = none;
  progress = none;
  status = none;
  error = none;
  pending = none;
  is_uploading = none;
  has_tmp_asset = none;
  committed = some true;
}

abbrev second : Draft
second = record first { image_id = codes "a"; sort_order = 1 }

abbrev pair : Hook
pair = initial (first ∷ second ∷ [])

move_draft_lem_example :
    ((move_draft head_le 3 first.image_id forward pair).drafts
      ≡ number_from 0 (second ∷ first ∷ []))
    × ((move_draft head_le 3 second.image_id back pair).drafts
        ≡ number_from 0 (second ∷ first ∷ []))
unfolding initial text_eq is_fixed
move_draft_lem_example = move_draft_lem head_le 3 [] first second [] pair refl tt tt refl refl refl
