-- ===== src/Dns/Hosts/Zone.antt =====
-- `normalizeApex` and `hostToFqdn` of console/src/features/dns/hostFqdn.ts: every name lands in its
-- zone, and qualifying twice is qualifying once.
use mathlib.Core.List.{reverse, reverse-append, reverse-cons, reverse-reverse}
use nfx_edge.Common.{
  ℕ, ◌≡◌, refl, sym, ap, ◌∙◌, ◌≢◌, ◌⊎◌, inl, inr, Text, Bool, true, false, [], ◌∷◌, ◌++◌, arith,
  if◌then◌else◌, text_eq, text_eq_iff, trim, lower, lower_char, ends_with, is_empty, drop_while,
  drop_last_while, Bool-cases, ◌||◌, length, ◌≤◌, ◌≡⟨◌⟩◌, ◌∎,
}
use nfx_edge.Common.TextLaws.{
  HasNoSpace, All-drop_while, All-drop_last_while, drop_while_idem, drop_last_while_idem,
  trim_of_HasNoSpace, lower_idem, lower-append, lower-HasNoSpace, ends_with-append,
}
use nfx_edge.Dns.Hosts.{is_dot, at_sign, normalize_apex, dotted, qualify, host_to_fqdn}

pub is_dot-lower_char : (c : ℕ) → is_dot (lower_char c) ≡ is_dot c
unfolding lower_char
is_dot-lower_char c = ground arith

drop_while-lower : (s : Text) → drop_while is_dot (lower s) ≡ lower (drop_while is_dot s)
unfolding lower
drop_while-lower [] = refl
drop_while-lower (c ∷ s) = elim (Bool-cases (is_dot c)) [
  | inl e ↦ rw (is_dot-lower_char c, e) (drop_while-lower s)
  | inr e ↦ rw (is_dot-lower_char c, e)
]

reverse-lower : (s : Text) → reverse (lower s) ≡ lower (reverse s)
unfolding lower
reverse-lower [] = refl
reverse-lower (c ∷ s) = simp (reverse-cons, reverse-lower s, lower-append)

pub drop_last_while-lower :
    (s : Text) → drop_last_while is_dot (lower s) ≡ lower (drop_last_while is_dot s)
drop_last_while-lower s =
    ap reverse (ap (drop_while is_dot) (reverse-lower s) ∙ drop_while-lower (reverse s))
    ∙ reverse-lower (drop_while is_dot (reverse s))

pub length-drop_while-le : (p : ℕ → Bool) (s : Text) → length (drop_while p s) ≤ length s
length-drop_while-le p [] = omega arith
length-drop_while-le p (c ∷ s) = ground (arith, length-drop_while-le p s)

drop_while_prefix :
    (p : ℕ → Bool) (s t : Text) → drop_while p (s ++ t) ≡ s ++ t → drop_while p s ≡ s
drop_while_prefix p [] t h = refl
drop_while_prefix p (c ∷ s) t h = elim (Bool-cases (p c)) [
  | inl e ↦ absurd (omega (arith, length-drop_while-le p (s ++ t), ap length (rw e at h)))
  | inr e ↦ rw e
]

drop_while_split : (p : ℕ → Bool) (s : Text) → (u : Text) × (s ≡ u ++ drop_while p s)
drop_while_split p [] = ([], refl)
drop_while_split p (c ∷ s) = elim (Bool-cases (p c)) [
  | inl e ↦ let (u, q) = drop_while_split p s in (c ∷ u, rw e (ap (λ v. c ∷ v) q))
  | inr e ↦ ([], rw e)
]

drop_last_while_split : (p : ℕ → Bool) (s : Text) → (u : Text) × (s ≡ drop_last_while p s ++ u)
drop_last_while_split p s =
    let (u, q) = drop_while_split p (reverse s) in
    (reverse u, sym (reverse-reverse s) ∙ ap reverse q ∙ reverse-append u _)

-- Stripping the dots at the end keeps a text that does not begin with a dot so.
strip_stable :
    (s : Text)
    → drop_while is_dot (drop_last_while is_dot (drop_while is_dot s))
      ≡ drop_last_while is_dot (drop_while is_dot s)
strip_stable s =
    let z = drop_while is_dot s in
    let (u, q) = drop_last_while_split is_dot z in
    drop_while_prefix is_dot (drop_last_while is_dot z) u (rw (← q) (drop_while_idem is_dot s))

pub normalize_apex-HasNoSpace : (apex : Text) → HasNoSpace apex → HasNoSpace (normalize_apex apex)
unfolding normalize_apex
normalize_apex-HasNoSpace apex h = rw (trim_of_HasNoSpace apex h) (
    lower-HasNoSpace _
      (All-drop_last_while _ is_dot (drop_while is_dot apex) (All-drop_while _ is_dot apex h)))

pub normalize_apex_lem :
    (apex : Text)
    → HasNoSpace apex
    → normalize_apex apex ≡ lower (drop_last_while is_dot (drop_while is_dot apex))
unfolding normalize_apex
normalize_apex_lem apex h = rw (trim_of_HasNoSpace apex h)

-- For an apex without white space, normalising twice is normalising once.
pub normalize_apex_idem :
    (apex : Text) → HasNoSpace apex → normalize_apex (normalize_apex apex) ≡ normalize_apex apex
normalize_apex_idem apex h =
    let z = drop_while is_dot apex in
    let y = drop_last_while is_dot z in
    normalize_apex (normalize_apex apex)
    ≡⟨ normalize_apex_lem (normalize_apex apex) (normalize_apex-HasNoSpace apex h) ⟩
      lower (drop_last_while is_dot (drop_while is_dot (normalize_apex apex)))
    ≡⟨ ap (λ t. lower (drop_last_while is_dot (drop_while is_dot t))) (normalize_apex_lem apex h) ⟩
      lower (drop_last_while is_dot (drop_while is_dot (lower y)))
    ≡⟨ ap (λ t. lower (drop_last_while is_dot t))
        (drop_while-lower y ∙ ap lower (strip_stable apex)) ⟩
      lower (drop_last_while is_dot (lower y))
    ≡⟨ ap lower (drop_last_while-lower y ∙ ap lower (drop_last_while_idem is_dot z)) ⟩
      lower (lower y)
    ≡⟨ lower_idem y ∙ sym (normalize_apex_lem apex h) ⟩ normalize_apex apex ∎

-- What `host_to_fqdn` promises: the apex itself, or a name below it.
abbrev pub InZone : Text → Text → Type 0
InZone fqdn root = (fqdn ≡ root) ⊎ (ends_with fqdn (dotted root) ≡ true)

qualify-InZone : (low root : Text) → InZone (qualify low root) root
unfolding qualify
qualify-InZone low root = elim (Bool-cases (text_eq low root)) [
  | inl e ↦ rw (e, if◌then◌else◌) (inl ((text_eq_iff low root).0 e))
  | inr e ↦ elim (Bool-cases (ends_with low (dotted root))) [
    | inl f ↦ rw (e, f) (inr f)
    | inr f ↦ rw (e, f) (inr (ends_with-append low (dotted root)))
  ]
]

pub is_empty_of_ne : (s : Text) → s ≢ [] → is_empty s ≡ false
is_empty_of_ne [] h = absurd (h refl)
is_empty_of_ne (c ∷ s) h = refl

-- The host's label, with no dots at its end.
abbrev pub label_of : Text → Text
label_of host = drop_last_while is_dot (trim host)

pub host_to_fqdn_root :
    (host apex : Text)
    → normalize_apex apex ≢ []
    → (is_empty (label_of host) || text_eq (label_of host) at_sign) ≡ true
    → host_to_fqdn host apex ≡ normalize_apex apex
unfolding host_to_fqdn
host_to_fqdn_root host apex h e = rw (is_empty_of_ne (normalize_apex apex) h, e)

pub host_to_fqdn_label :
    (host apex : Text)
    → normalize_apex apex ≢ []
    → (is_empty (label_of host) || text_eq (label_of host) at_sign) ≡ false
    → host_to_fqdn host apex ≡ qualify (lower (label_of host)) (normalize_apex apex)
unfolding host_to_fqdn
host_to_fqdn_label host apex h e = rw (is_empty_of_ne (normalize_apex apex) h, e)

-- With an apex that is not empty once normalised, every host name becomes the apex or a name that
-- ends in a dot and the apex.
pub host_to_fqdn-InZone :
    (host apex : Text)
    → normalize_apex apex ≢ []
    → InZone (host_to_fqdn host apex) (normalize_apex apex)
host_to_fqdn-InZone host apex h =
    elim (Bool-cases (is_empty (label_of host) || text_eq (label_of host) at_sign)) [
      | inl e ↦ inl (host_to_fqdn_root host apex h e)
      | inr e ↦
          rw (host_to_fqdn_label host apex h e)
            (qualify-InZone (lower (label_of host)) (normalize_apex apex))
    ]
