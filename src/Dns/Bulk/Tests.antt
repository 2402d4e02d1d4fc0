-- ===== src/Dns/Bulk/Tests.antt =====
-- Runs of the bulk page, and its theorems at concrete forms and answers.
use nfx_edge.Common.{
  ◌≡◌, refl, ◌⊎◌, ◌<◌, Text, codes, true, false, none, List, [], ◌∷◌, All, filter, length, text_eq,
  trim, lower, contains, includes, starts_with,
}
use nfx_edge.Dns.Bulk.{
  delete, is_filter_all, is_patch_keep, Item, Form, initial, can_preview, request_of, build_request,
}
use nfx_edge.Dns.Bulk.Page.{
  available, is_failed, applied, affected_count, can_submit, shown_error, shown_success,
  change_marked, is_block, Act, picked, appended, removed, run,
}
use nfx_edge.Dns.Bulk.Ready.{IsUsable, can_preview_lem}
use nfx_edge.Dns.Bulk.Picked.{IsSound, run-IsSound}
use nfx_edge.Dns.Bulk.Review.{applied_lem}

bulk_open : Unit {0}
unfolding trim lower text_eq contains includes starts_with is_filter_all is_patch_keep can_preview
    build_request request_of available applied affected_count can_submit change_marked is_block run
    is_failed
bulk_open = tt

abbrev domains : List Text
domains = codes "one.example" ∷ codes "two.example" ∷ codes "three.example" ∷ []

abbrev acts : List Act
acts = picked (codes "one.example") ∷ picked (codes "one.example") ∷ appended ∷ removed 0 ∷ []

abbrev cleaning : Form
cleaning = record initial {
  selected = codes "one.example" ∷ [];
  action = delete;
  query = codes " TW ";
  filter_host = codes " www ";
}

selected_once : (run acts initial).selected ≡ codes "one.example" ∷ []
unfolding bulk_open
selected_once = refl

on_offer : available cleaning domains ≡ codes "two.example" ∷ []
unfolding bulk_open
on_offer = refl

keeps_all : is_filter_all (codes " ALL ") ≡ true
unfolding bulk_open
keeps_all = refl

cleaning_ready : can_preview false cleaning ≡ true
unfolding bulk_open
cleaning_ready = refl

not_ready : can_preview false initial ≡ false
unfolding bulk_open
not_ready = refl

can_preview_lem_example :
    ((build_request cleaning).action ≡ delete)
    × ((build_request cleaning).domains ≡ codes "one.example" ∷ [])
    × (0 < length (build_request cleaning).domains)
    × IsUsable delete (build_request cleaning)
can_preview_lem_example = can_preview_lem false cleaning cleaning_ready

run-IsSound_example : IsSound (run acts initial)
run-IsSound_example = run-IsSound acts

abbrev refused : Item
refused = record {
  domain = codes "one.example";
  status = codes "failed";
  message = none;
  changes = none;
}

abbrev done : Item
done = record refused { status = codes "deleted" }

one_failure : (applied (done ∷ refused ∷ []) cleaning).0 ≡ shown_error (codes "one.example: failed")
unfolding bulk_open
one_failure = refl

applied_lem_example :
    ((filter is_failed (done ∷ refused ∷ []) ≡ [])
      × ((applied (done ∷ refused ∷ []) cleaning).0
          ≡ shown_success (affected_count cleaning.review))
      × ((applied (done ∷ refused ∷ []) cleaning).1.stage ≡ 1)
      × (can_submit false (applied (done ∷ refused ∷ []) cleaning).1 ≡ false))
    ⊎ ((message : Text) × ((applied (done ∷ refused ∷ []) cleaning).0 ≡ shown_error message)
        × All (λ item. includes message item.domain ≡ true) (filter is_failed (done ∷ refused ∷ []))
        × ((applied (done ∷ refused ∷ []) cleaning).1.stage ≡ cleaning.stage)
        × ((applied (done ∷ refused ∷ []) cleaning).1.review ≡ done ∷ refused ∷ []))
applied_lem_example = applied_lem (done ∷ refused ∷ []) false cleaning
