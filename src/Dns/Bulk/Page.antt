-- ===== src/Dns/Bulk/Page.antt =====
-- The actions of the bulk page: console/src/pages/Namecheap/Detail/Domains/Bulk/index.tsx. The
-- answers of the server come with the actions; a domain is known by its name.
use nfx_edge.Common.{
  ℕ, zero, suc, ◌+◌, Text, codes, Bool, true, false, not, ◌&&◌, ◌||◌, Option, none, some, List, [],
  ◌∷◌, ◌++◌, map, ltb, ◌==◌, if◌then◌else◌, filter, length, text_eq, contains, includes, trim,
  lower, is_empty, or_else, remove_at,
}
use nfx_edge.Dns.Bulk.{Action, AddDraft, empty_add, Snap, Change, Item, Form}

unfoldable pub is_available : Form → Text → Bool
unfolding contains includes lower trim
is_available form name =
    let needle = lower (trim form.query) in
    if contains form.selected name then false else is_empty needle || includes (lower name) needle

unfoldable pub available : Form → List Text → List Text
unfolding is_available
available form domains = filter (is_available form) domains

unfoldable pub add_domain : Text → Form → Form
unfolding contains
add_domain name form = record form {
  selected = if contains form.selected name then form.selected else form.selected ++ name ∷ [];
}

unfoldable pub remove_domain : Text → Form → Form
unfolding text_eq
remove_domain name form = record form {
  selected = filter (λ row. not (text_eq row name)) form.selected;
}

-- `current.map((row, i) => (i === index ? next(row) : row))`
abbrev pub map_at : ℕ → (AddDraft → AddDraft) → List AddDraft → List AddDraft
map_at i f [] = []
map_at zero f (row ∷ rows) = f row ∷ rows
map_at (suc i) f (row ∷ rows) = row ∷ map_at i f rows

unfoldable pub patch_add : ℕ → (AddDraft → AddDraft) → Form → Form
patch_add index next form = record form { adds = map_at index next form.adds }

unfoldable pub append_add : Form → Form
append_add form = record form { adds = form.adds ++ empty_add ∷ [] }

unfoldable pub remove_add : ℕ → Form → Form
remove_add index form = record form {
  adds = if length form.adds == 1 then form.adds else remove_at index form.adds;
}

-- `goReview` once the preview has come.
unfoldable pub go_review : List Item → Form → Form
go_review items form = record form { review = items; stage = 2 }

unfoldable pub go_back : Form → Form
go_back form = record form { stage = 1 }

unfoldable pub change_count : Item → ℕ
change_count item = elim item.changes [ none ↦ 0 | some changes ↦ length changes ]

unfoldable pub affected_count : List Item → ℕ
unfolding change_count
affected_count [] = 0
affected_count (item ∷ items) = change_count item + affected_count items

unfoldable pub can_submit : Bool → Form → Bool
unfolding affected_count
can_submit pending form = form.stage == 2 && ltb 0 (affected_count form.review) && not pending

unfoldable pub is_failed : Item → Bool
unfolding text_eq
is_failed item = text_eq item.status (codes "failed")

unfoldable pub failure_line : Item → Text
failure_line item =
    let message : Text = elim item.message [
      | none ↦ item.status
      | some text ↦ or_else text item.status
    ] in
    item.domain ++ codes ": " ++ message

-- `join("\n")`
unfoldable pub join_lines : List Text → Text
join_lines [] = []
join_lines (line ∷ []) = line
join_lines (line ∷ next ∷ lines) = line ++ b'\n' ∷ join_lines (next ∷ lines)

-- What the page shows: an error, or the number of records that were changed.
pub data Notice : Type 0 where
  shown_error : Text → Notice
  shown_success : ℕ → Notice

-- `submit` once the server has answered.
unfoldable pub applied : List Item → Form → Notice × Form
unfolding is_failed failure_line join_lines affected_count
applied items form =
    let failed = filter is_failed items in
    if ltb 0 (length failed)
    then (shown_error (join_lines (map failure_line failed)), record form { review = items })
    else (shown_success (affected_count form.review), record form { stage = 1; review = [] })

unfoldable pub snap_eq : Snap → Snap → Bool
unfolding text_eq
snap_eq before after =
    text_eq before.address after.address
    && optional_eq before.ttl after.ttl
    && optional_eq before.mx_pref after.mx_pref
  where
    optional_eq : Option Text → Option Text → Bool
    optional_eq none none = true
    optional_eq none (some t) = false
    optional_eq (some s) none = false
    optional_eq (some s) (some t) = text_eq s t

-- `changeMarked`
unfoldable pub change_marked : Change → Bool
unfolding snap_eq
change_marked change = elim change.before [
  | none ↦ true
  | some before ↦ elim change.after [ none ↦ true | some after ↦ not (snap_eq before after) ]
]

-- The items of the review that a pane shows.
unfoldable pub is_block : Item → Bool
unfolding is_failed change_count
is_block item = ltb 0 (change_count item) || is_failed item

pub data Act : Type 0 where
  picked : Text → Act
  unpicked : Text → Act
  typed : Text → Act
  chose : Action → Act
  patched : ℕ → (AddDraft → AddDraft) → Act
  appended : Act
  removed : ℕ → Act
  previewed : List Item → Act
  went_back : Act
  answered : List Item → Act

unfoldable pub step : Act → Form → Form
unfolding add_domain remove_domain patch_add append_add remove_add go_review go_back applied
step (picked name) form = add_domain name form
step (unpicked name) form = remove_domain name form
step (typed text) form = record form { query = text }
step (chose action) form = record form { action = action }
step (patched index next) form = patch_add index next form
step appended form = append_add form
step (removed index) form = remove_add index form
step (previewed items) form = go_review items form
step went_back form = go_back form
step (answered items) form = (applied items form).1

unfoldable pub run : List Act → Form → Form
unfolding step
run [] form = form
run (act ∷ acts) form = run acts (step act form)
