-- ===== src/Sidebar/Single.antt =====
-- No two entries of one menu are lit at once: the tests of console/src/layouts/Sidebar/index.tsx.
use nfx_edge.Common.{
  ℕ, ◌≡◌, refl, sym, ap, ◌∙◌, subst, ◌⊎◌, inl, inr, Text, codes, Bool, true, false, not, ◌&&◌, ◌||◌,
  List, [], ◌∷◌, ◌++◌, append_assoc, append-nil, arith, Bool-cases, &&-right, length, drop, text_eq,
  text_eq_iff, starts_with, truthy,
}
use nfx_edge.Common.TextLaws.{starts_with_sound}
use nfx_edge.Sidebar.{
  slash, namecheap_overview, namecheap_new, detail, edit, domains, bulk, ssl,
  credential_id_from_path, is_under, Lights, lights, cert_add_route, is_cert_add_active,
  is_cert_list_active,
}
use nfx_edge.Sidebar.Lit.{base, suffix, lights_at, other_path, overview_no_id, new_no_id}

-- The second code unit, or 0.
abbrev second : Text → ℕ
second [] = 0
second (c ∷ []) = 0
second (c ∷ d ∷ s) = d

drop-append : (b s : Text) → drop (length b) (b ++ s) ≡ s
drop-append [] s = refl
drop-append (c ∷ b) s = drop-append b s

-- What is behind the identifier tells the pages apart by its second code unit.
tag : Text → Text → ℕ
tag id p = second (drop (length (base id)) p)

tag-base : (id s : Text) → tag id (base id ++ s) ≡ second s
unfolding tag
tag-base id s = ap second (drop-append (base id) s)

under_sound : (p to : Text) → is_under p to ≡ true → (u : Text) × (p ≡ to ++ u)
unfolding is_under
under_sound p to h = elim (Bool-cases (text_eq p to)) [
  | inl same ↦ ([], (text_eq_iff p to).0 same ∙ sym (append-nil to))
  | inr other ↦
      let (u, e) = starts_with_sound p (to ++ slash) (behind other h) in
      (slash ++ u, e ∙ append_assoc to slash u)
]
  where
    behind : {a b : Bool} → a ≡ false → (a || b) ≡ true → b ≡ true
    behind q h = ground (arith, q, h)

tag_under : (p id s : Text) (c d : ℕ) → is_under p (base id ++ (c ∷ d ∷ s)) ≡ true → tag id p ≡ d
tag_under p id s c d h =
    let (u, e) = under_sound p (base id ++ (c ∷ d ∷ s)) h in
    ap (tag id) (e ∙ append_assoc (base id) (c ∷ d ∷ s) u) ∙ tag-base id (c ∷ d ∷ (s ++ u))

tag_equal : (p id s : Text) → text_eq p (base id ++ s) ≡ true → tag id p ≡ second s
tag_equal p id s h = ap (tag id) ((text_eq_iff p (base id ++ s)).0 h) ∙ tag-base id s

-- Of the four entries at most one is lit.
pub IsSingle : Lights → Type 0
IsSingle l =
    ((l.accounts_lit && l.domains_lit) ≡ false)
    × ((l.accounts_lit && l.bulk_lit) ≡ false)
    × ((l.accounts_lit && l.ssl_lit) ≡ false)
    × ((l.domains_lit && l.bulk_lit) ≡ false)
    × ((l.domains_lit && l.ssl_lit) ≡ false)
    × ((l.bulk_lit && l.ssl_lit) ≡ false)

exclude :
    {P Q : Type 0} (a b : Bool) → (a ≡ true → P) → (b ≡ true → Q) → (P → Q → ⊥) → (a && b) ≡ false
exclude true true h k clash = absurd (clash (h refl) (k refl))
exclude true false h k clash = refl
exclude false b h k clash = refl

and_false : (a : Bool) → (a && false) ≡ false
and_false true = refl
and_false false = refl

not_both : (a b : Bool) → ((not a && b) && a) ≡ false
not_both true b = refl
not_both false b = and_false b

-- Four tests, of which the second gives way to the third, that tell the values of a number apart.
IsSingle-of :
    (a d b l : Bool) (n : ℕ)
    → (a ≡ true → n ≡ 0 ⊎ n ≡ b'e')
    → (d ≡ true → n ≡ b'd')
    → (b ≡ true → n ≡ b'd')
    → (l ≡ true → n ≡ b's')
    → IsSingle (record { accounts_lit = a; domains_lit = not b && d; bulk_lit = b; ssl_lit = l })
unfolding IsSingle
IsSingle-of a d b l n ha hd hb hl = (
  exclude a (not b && d) ha (λ q. hd (&&-right (not b) d q)) (λ u v. omega (arith, u, v)),
  exclude a b ha hb (λ u v. omega (arith, u, v)),
  exclude a l ha hl (λ u v. omega (arith, u, v)),
  not_both b d,
  exclude (not b && d) l (λ q. hd (&&-right (not b) d q)) hl (λ u v. omega (arith, u, v)),
  exclude b l hb hl (λ u v. omega (arith, u, v)),
)

module _ (s : Bool) (ids : List Text) (p : Text) where
  -- Without an identifier in the path, only the accounts can be lit.
  lights_without :
      credential_id_from_path p ≡ []
      → ((lights s ids p).domains_lit ≡ false)
        × ((lights s ids p).bulk_lit ≡ false)
        × ((lights s ids p).ssl_lit ≡ false)
  unfolding lights
  lights_without e = rw e (refl, refl, refl)

  IsSingle-without : credential_id_from_path p ≡ [] → IsSingle (lights s ids p)
  unfolding IsSingle
  IsSingle-without e =
      let (d, b, l) = lights_without e in
      rw (d, b, l) (and_false _, and_false _, and_false _, refl, refl, refl)

  module _ (id : Text) (e : credential_id_from_path p ≡ id) (h : truthy id ≡ true) where
    is_accounts : Bool
    is_accounts =
        text_eq p namecheap_overview
        || text_eq p namecheap_new
        || text_eq p (base id ++ suffix detail)
        || text_eq p (base id ++ suffix edit)

    accounts_tag : is_accounts ≡ true → tag id p ≡ 0 ⊎ tag id p ≡ b'e'
    unfolding is_accounts
    accounts_tag g =
        one_of (text_eq p (base id ++ suffix detail)) (text_eq p (base id ++ suffix edit))
          (tag_equal p id (suffix detail)) (tag_equal p id (suffix edit))
          (sym (
              rw
                (
                  other_path p id namecheap_overview e h overview_no_id,
                  other_path p id namecheap_new e h new_no_id,
                )
                refl)
            ∙ g)
      where
        one_of :
            {A B : Type 0} (a b : Bool) → (a ≡ true → A) → (b ≡ true → B) → (a || b) ≡ true → A ⊎ B
        one_of true b f g q = inl (f refl)
        one_of false b f g q = inr (g q)

    IsSingle-with : IsSingle (lights s ids p)
    unfolding text_eq is_accounts
    IsSingle-with = subst IsSingle (sym (lights_at s ids p id e h)) (
        IsSingle-of is_accounts (is_under p (base id ++ suffix domains))
          (is_under p (base id ++ suffix bulk)) (is_under p (base id ++ suffix ssl)) (tag id p)
          accounts_tag (tag_under p id (codes "omains") b'/' b'd')
          (tag_under p id (codes "omains/bulk") b'/' b'd') (tag_under p id (codes "sl") b'/' b's'))

cert_entries : (p : Text) → (is_cert_list_active p && is_cert_add_active p) ≡ false
cert_entries p = elim (Bool-cases (is_cert_add_active p)) [
  | inl add ↦
      ap (λ q. is_cert_list_active q && is_cert_add_active q)
        ((text_eq_iff p cert_add_route).0 (unfold is_cert_add_active in add))
      ∙ add_only
  | inr list ↦ ap (λ b. is_cert_list_active p && b) list ∙ and_false (is_cert_list_active p)
]
  where
    add_only : (is_cert_list_active cert_add_route && is_cert_add_active cert_add_route) ≡ false
    add_only = unfold is_cert_list_active is_cert_add_active text_eq starts_with in refl

-- Whatever path is shown and whatever credentials there are, at most one of the four entries of the
-- Namecheap menu is lit, and at most one of the two of the certificates.
pub lights-IsSingle :
    (is_success : Bool) (ids : List Text) (pathname : Text)
    → IsSingle (lights is_success ids pathname)
      × ((is_cert_list_active pathname && is_cert_add_active pathname) ≡ false)
lights-IsSingle is_success ids pathname =
    (by_id (credential_id_from_path pathname) refl, cert_entries pathname)
  where
    by_id :
        (id : Text)
        → credential_id_from_path pathname ≡ id
        → IsSingle (lights is_success ids pathname)
    by_id [] e = IsSingle-without is_success ids pathname e
    by_id (c ∷ id) e = IsSingle-with is_success ids pathname (c ∷ id) e refl
