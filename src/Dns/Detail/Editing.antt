-- ===== src/Dns/Detail/Editing.antt =====
-- Editing a record in place: `saveEdit` and the row's buttons of
-- console/src/pages/Namecheap/Detail/Domains/Detail/index.tsx.
use nfx_edge.Common.{
  ℕ, ◌≡◌, refl, Text, Bool, true, false, Option, List, [], ◌∷◌, if◌then◌else◌, truthy, All, ◌++◌,
  or_else,
}
use nfx_edge.Dns.Ttl.{has}
use nfx_edge.Dns.Detail.{
  Host, Page, host_key, text_of, bar, click_row, start_edit, Act, clicked, drafted, add_answered,
  edit_pressed, edited, edit_cancelled, edit_answered, patch_typed, act_on, act_all,
}

-- An action that ends the editing.
abbrev pub ends : Act → Bool
ends edit_cancelled = true
ends (edit_answered success) = success
ends _ = false

truthy-or_else : (s t : Text) → truthy t ≡ true → truthy (or_else s t) ≡ true
truthy-or_else [] t h = h
truthy-or_else (c ∷ s) t h = refl

truthy-append : (s t : Text) → truthy t ≡ true → truthy (s ++ t) ≡ true
truthy-append [] t h = h
truthy-append (c ∷ s) t h = refl

truthy_before : (s t : Text) → truthy s ≡ true → truthy (s ++ t) ≡ true
truthy_before [] t h = absurd (cc)
truthy_before (c ∷ s) t h = refl

truthy-host_key : (host : Host) → truthy (host_key host) ≡ true
unfolding host_key
truthy-host_key host = truthy-or_else (text_of host.host_id) _ (
    truthy_before _ host.address
      (truthy_before _ bar (truthy_before _ host.host_type (truthy-append host.name bar refl))))

IsEditing : List Text → Option Text → Page → Type 0
IsEditing keys anchor page =
    (has page.editing ≡ true) × (page.picked ≡ keys) × (page.apply_key ≡ anchor)

module _ (keys : List Text) (anchor : Option Text) where
  act_on-IsEditing :
      (act : Act) (page : Page)
      → ends act ≡ false
      → IsEditing keys anchor page
      → IsEditing keys anchor (act_on act page)
  unfolding act_on IsEditing
  act_on-IsEditing (clicked key) page e h = unfold click_row in rw (h.0, if◌then◌else◌) h
  act_on-IsEditing (drafted draft) page e h = h
  act_on-IsEditing (add_answered true) page e h = h
  act_on-IsEditing (add_answered false) page e h = h
  act_on-IsEditing (edit_pressed height host) page e h =
      unfold start_edit in (truthy-host_key host, h.1, h.2)
  act_on-IsEditing (edited draft) page e h = h
  act_on-IsEditing edit_cancelled page e h = absurd (cc)
  act_on-IsEditing (edit_answered true) page e h = absurd (cc)
  act_on-IsEditing (edit_answered false) page e h = h
  act_on-IsEditing (patch_typed address ttl mx_pref) page e h = h

  act_all-IsEditing :
      (acts : List Act) (page : Page)
      → All (λ act. ends act ≡ false) acts
      → IsEditing keys anchor page
      → IsEditing keys anchor (act_all acts page)
  unfolding act_all
  act_all-IsEditing [] page e h = h
  act_all-IsEditing (act ∷ acts) page e h =
      act_all-IsEditing acts (act_on act page) e.1 (act_on-IsEditing act page e.0 h)

-- Once a record is edited, and until the editing is cancelled or the server accepts it, a row
-- stays open for editing, and no click picks or drops a record.
start_edit_lem :
    (height : ℕ) (host : Host) (acts : List Act) (page : Page)
    → All (λ act. ends act ≡ false) acts
    → (has (act_all acts (start_edit height host page)).editing ≡ true)
      × ((act_all acts (start_edit height host page)).picked ≡ page.picked)
      × ((act_all acts (start_edit height host page)).apply_key ≡ page.apply_key)
start_edit_lem height host acts page e =
    let begun : IsEditing page.picked page.apply_key (start_edit height host page) =
      unfold IsEditing start_edit in (truthy-host_key host, refl, refl) in
    unfold IsEditing in
    act_all-IsEditing page.picked page.apply_key acts (start_edit height host page) e begun
