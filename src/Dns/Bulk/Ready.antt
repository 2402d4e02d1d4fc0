-- ===== src/Dns/Bulk/Ready.antt =====
-- What the button for the preview promises of the request that it sends.
use nfx_edge.Common.{
  ◌≡◌, refl, ◌∙◌, ◌<◌, Text, Bool, true, false, not, ◌&&◌, ◌||◌, some, List, [], ◌∷◌, map, arith,
  ltb, ltb→lt, if◌then◌else◌, &&-left, &&-right, All, All-filter, All-filter_of_All, length,
  text_eq, trim, lower, truthy,
}
use nfx_edge.Common.TextLaws.{trim_idem}
use nfx_edge.Dns.Bulk.{
  Action, update, add, delete, filter_all, is_filter_all, AddDraft, Match, Patch, Request, Form,
  patch_of, update_ready, trim_add, is_complete_add, complete_adds, add_ready, filter_ready,
  can_preview, filter_name, request_of, build_request,
}

-- A patch that changes something, and an address of its own or one given.
pub IsChange : Patch → Type 0
IsChange p =
    ((truthy p.address || truthy p.ttl || truthy p.mx_pref || p.address_self) ≡ true)
    × ((p.address_self && truthy p.address) ≡ false)

-- A host record with a name, a type, and one of the two addresses.
pub IsRecord : AddDraft → Type 0
IsRecord row = (is_complete_add row ≡ true) × ((row.address_self && truthy row.address) ≡ false)

pub IsUsable : Action → Request → Type 0
IsUsable update req = (p : Patch) × (req.patch ≡ some p) × IsChange p
IsUsable add req =
    (rows : List AddDraft) × (req.adds ≡ some rows) × (0 < length rows) × All IsRecord rows
IsUsable delete req =
    (m : Match) × (req.match_on ≡ some m)
    × ((is_filter_all m.name && is_filter_all m.host_type) ≡ false)

never_both : (b : Bool) (t : Text) → (b && truthy (if b then [] else t)) ≡ false
never_both true t = refl
never_both false t = refl

All-trim_add :
    (rows : List AddDraft)
    → All (λ row. (row.address_self && truthy row.address) ≡ false) (map trim_add rows)
unfolding trim_add
All-trim_add [] = tt
All-trim_add (row ∷ rows) = (never_both row.address_self (trim row.address), All-trim_add rows)

All-pair :
    (P Q : AddDraft → Type 0) (rows : List AddDraft)
    → All P rows
    → All Q rows
    → All (λ row. P row × Q row) rows
All-pair P Q [] p q = tt
All-pair P Q (row ∷ rows) p q = ((p.0, q.0), All-pair P Q rows p.1 q.1)

complete_adds-IsRecord : (form : Form) → All IsRecord (complete_adds form)
unfolding complete_adds IsRecord
complete_adds-IsRecord form = All-pair _ _ _ (All-filter is_complete_add (map trim_add form.adds)) (
    All-filter_of_All (λ row. (row.address_self && truthy row.address) ≡ false) is_complete_add _
      (All-trim_add form.adds))

is_filter_all-trim : (host : Text) → is_filter_all (trim host) ≡ is_filter_all host
unfolding is_filter_all
is_filter_all-trim host = rw (trim_idem host) refl

filter_all_stays : is_filter_all filter_all ≡ true
unfolding is_filter_all trim lower text_eq
filter_all_stays = refl

is_filter_all-filter_name : (host : Text) → is_filter_all (filter_name host) ≡ is_filter_all host
unfolding filter_name
is_filter_all-filter_name host = by_case (is_filter_all host) refl
  where
    by_case :
        (b : Bool)
        → is_filter_all host ≡ b
        → is_filter_all (if b then filter_all else trim host) ≡ b
    by_case true h = filter_all_stays
    by_case false h = is_filter_all-trim host ∙ h

patch_of-IsChange : (form : Form) → update_ready form ≡ true → IsChange (patch_of form)
unfolding update_ready patch_of IsChange
patch_of-IsChange form h = (h, never_both form.patch_address_self (trim form.patch_address))

filter_name_ready :
    (form : Form)
    → filter_ready form ≡ true
    → (is_filter_all (filter_name form.filter_host) && is_filter_all form.filter_type) ≡ false
unfolding filter_ready
filter_name_ready form h = rw (is_filter_all-filter_name form.filter_host) (not_both _ _ h)
  where
    not_both : (a b : Bool) → (not a || not b) ≡ true → (a && b) ≡ false
    not_both a b k = ground (arith, k)

request-IsUsable :
    (action : Action) (form : Form)
    → (elim action [
      | update ↦ update_ready form
      | add ↦ add_ready form
      | delete ↦ filter_ready form
    ])
      ≡ true
    → IsUsable action (request_of action form)
unfolding request_of IsUsable
request-IsUsable update form h = (patch_of form, refl, patch_of-IsChange form h)
request-IsUsable add form h =
    (complete_adds form, refl, unfold add_ready in ltb→lt _ _ h, complete_adds-IsRecord form)
request-IsUsable delete form h = (_, refl, filter_name_ready form h)

request_of_same :
    (action : Action) (form : Form)
    → ((request_of action form).action ≡ action)
      × ((request_of action form).domains ≡ form.selected)
unfolding request_of
request_of_same update form = (refl, refl)
request_of_same add form = (refl, refl)
request_of_same delete form = (refl, refl)

-- If the preview is offered, the request has the action of the form and its domains, at least one;
-- an update changes something; an addition has at least one record, and each has a name, a type and
-- either an address or the domain's own; a deletion has a filter that does not match all records.
pub can_preview_lem :
    (pending : Bool) (form : Form)
    → can_preview pending form ≡ true
    → ((build_request form).action ≡ form.action)
      × ((build_request form).domains ≡ form.selected)
      × (0 < length (build_request form).domains)
      × IsUsable form.action (build_request form)
unfolding build_request can_preview
can_preview_lem pending form h =
    let (same, domains) = request_of_same form.action form in
    (
      same,
      domains,
      rw domains (
          ltb→lt _ _ (
            &&-left (ltb 0 (length form.selected)) (not pending)
              (&&-left (ltb 0 (length form.selected) && not pending) _ h))),
      request-IsUsable form.action form
          (&&-right (ltb 0 (length form.selected) && not pending) _ h),
    )
