-- ===== src/Dns/Hosts/Qualified.antt =====
-- Qualifying a host name a second time: `hostToFqdn` of console/src/features/dns/hostFqdn.ts.
use mathlib.Core.List.{reverse, reverse-append, reverse-reverse}
use nfx_edge.Common.{
  ℕ, ◌<◌, ◌≤◌, ◌≡◌, refl, sym, ap, ◌∙◌, ◌≢◌, inl, inr, Text, Bool, true, false, [], ◌∷◌, ◌++◌,
  arith, text_eq, text_eq_iff, trim, lower, ends_with, is_empty, drop_while, drop_last_while,
  Bool-cases, All-append, ◌||◌, length, length-append, is_space,
}
use nfx_edge.Common.TextLaws.{
  HasNoSpace, All-drop_last_while, trim_of_HasNoSpace, lower_idem, lower-append, lower-HasNoSpace,
  ends_with_sound, drop_last_while_idem, trim-HasNoSpace,
}
use nfx_edge.Dns.Hosts.{is_dot, at_sign, normalize_apex, dotted, qualify, host_to_fqdn}
use nfx_edge.Dns.Hosts.Zone.{
  normalize_apex_lem, normalize_apex-HasNoSpace, drop_last_while-lower, length-drop_while-le,
  InZone, label_of, host_to_fqdn_root, host_to_fqdn_label, host_to_fqdn-InZone,
}

drop_while_extend :
    (p : ℕ → Bool) (s t : Text) → s ≢ [] → drop_while p s ≡ s → drop_while p (s ++ t) ≡ s ++ t
drop_while_extend p [] t h e = absurd (h refl)
drop_while_extend p (c ∷ s) t h e = elim (Bool-cases (p c)) [
  | inl q ↦ absurd (omega (arith, length-drop_while-le p s, ap length (rw q at e)))
  | inr q ↦ rw q
]

reverse-ne-nil : (s : Text) → s ≢ [] → reverse s ≢ []
reverse-ne-nil s h e = h (sym (reverse-reverse s) ∙ ap reverse e)

pub dot_no_space : is_space b'.' ≡ false
unfolding is_space
dot_no_space = refl

-- A text that keeps its end keeps it behind any other text.
pub drop_last_while_extend :
    (p : ℕ → Bool) (s t : Text)
    → t ≢ []
    → drop_last_while p t ≡ t
    → drop_last_while p (s ++ t) ≡ s ++ t
drop_last_while_extend p s t h e =
    let kept : drop_while p (reverse t) ≡ reverse t =
      sym (reverse-reverse (drop_while p (reverse t))) ∙ ap reverse e in
    ap (λ u. reverse (drop_while p u)) (reverse-append s t)
    ∙ ap reverse (drop_while_extend p (reverse t) (reverse s) (reverse-ne-nil t h) kept)
    ∙ ap reverse (sym (reverse-append s t))
    ∙ reverse-reverse (s ++ t)

module _ (apex : Text) (plain : HasNoSpace apex) where
  pub root_keeps_end : drop_last_while is_dot (normalize_apex apex) ≡ normalize_apex apex
  root_keeps_end =
      let z = drop_while is_dot apex in
      let e = normalize_apex_lem apex plain in
      ap (drop_last_while is_dot) e
      ∙ drop_last_while-lower (drop_last_while is_dot z)
      ∙ ap lower (drop_last_while_idem is_dot z)
      ∙ sym e

  pub root_lower : lower (normalize_apex apex) ≡ normalize_apex apex
  root_lower = let e = normalize_apex_lem apex plain in ap lower e ∙ lower_idem _ ∙ sym e

  InZone-keeps_end :
      (fqdn : Text)
      → normalize_apex apex ≢ []
      → InZone fqdn (normalize_apex apex)
      → drop_last_while is_dot fqdn ≡ fqdn
  InZone-keeps_end fqdn h (inl e) = rw e root_keeps_end
  InZone-keeps_end fqdn h (inr e) =
      let (u, q) = ends_with_sound fqdn (dotted (normalize_apex apex)) e in
      rw q (
        drop_last_while_extend is_dot u (dotted (normalize_apex apex)) (cc)
          (drop_last_while_extend is_dot (b'.' ∷ []) (normalize_apex apex) h root_keeps_end))

pub lower-dotted : (root : Text) → lower root ≡ root → lower (dotted root) ≡ dotted root
unfolding lower
lower-dotted root f = ap (λ t. b'.' ∷ t) f

qualify-lower :
    (low root : Text)
    → lower low ≡ low
    → lower root ≡ root
    → lower (qualify low root) ≡ qualify low root
unfolding qualify
qualify-lower low root e f = elim (Bool-cases (text_eq low root || ends_with low (dotted root))) [
  | inl q ↦ rw q e
  | inr q ↦ rw q (lower-append low (dotted root) ∙ cc (lower-dotted root f))
]

qualify-HasNoSpace :
    (low root : Text) → HasNoSpace low → HasNoSpace root → HasNoSpace (qualify low root)
unfolding qualify
qualify-HasNoSpace low root h k =
    elim (Bool-cases (text_eq low root || ends_with low (dotted root))) [
      | inl q ↦ rw q h
      | inr q ↦ rw q (All-append _ low (dotted root) h (dot_no_space, k))
    ]

-- A name of the zone in lower case is qualified already.
qualify_of_InZone : (fqdn root : Text) → InZone fqdn root → qualify fqdn root ≡ fqdn
unfolding qualify
qualify_of_InZone fqdn root (inl e) = rw ((text_eq_iff fqdn root).1 e)
qualify_of_InZone fqdn root (inr e) = elim (Bool-cases (text_eq fqdn root)) [
  | inl q ↦ rw q
  | inr q ↦ rw (q, e)
]

module _ (host apex : Text) (some_root : normalize_apex apex ≢ []) (plain : HasNoSpace apex) where
  host_to_fqdn-lower : lower (host_to_fqdn host apex) ≡ host_to_fqdn host apex
  host_to_fqdn-lower =
      elim (Bool-cases (is_empty (label_of host) || text_eq (label_of host) at_sign)) [
        | inl e ↦ rw (host_to_fqdn_root host apex some_root e) (root_lower apex plain)
        | inr e ↦ rw (host_to_fqdn_label host apex some_root e) (
            qualify-lower (lower (label_of host)) (normalize_apex apex) (lower_idem _)
              (root_lower apex plain))
      ]

  host_to_fqdn-HasNoSpace : HasNoSpace host → HasNoSpace (host_to_fqdn host apex)
  host_to_fqdn-HasNoSpace h =
      elim (Bool-cases (is_empty (label_of host) || text_eq (label_of host) at_sign)) [
        | inl e ↦
            rw (host_to_fqdn_root host apex some_root e) (normalize_apex-HasNoSpace apex plain)
        | inr e ↦ rw (host_to_fqdn_label host apex some_root e) (
            qualify-HasNoSpace (lower (label_of host)) (normalize_apex apex)
              (lower-HasNoSpace _
                (All-drop_last_while _ is_dot (trim host) (trim-HasNoSpace host h)))
              (normalize_apex-HasNoSpace apex plain))
      ]

pub length-pos : (s : Text) → s ≢ [] → 0 < length s
length-pos [] h = absurd (h refl)
length-pos (c ∷ s) h = omega arith

not_short : (fqdn u root : Text) → root ≢ [] → fqdn ≡ u ++ dotted root → 1 < length fqdn
not_short fqdn u root h q =
    omega (arith, ap length q, length-append u (dotted root), length-pos root h)

length_short : (s : Text) → (is_empty s || text_eq s at_sign) ≡ true → length s ≤ 1
length_short [] e = omega arith
length_short (c ∷ s) e = omega (arith, ap length ((text_eq_iff (c ∷ s) at_sign).0 e))

-- Of the names of a zone only the apex can be "@".
short_InZone :
    (fqdn root : Text)
    → root ≢ []
    → InZone fqdn root
    → (is_empty fqdn || text_eq fqdn at_sign) ≡ true
    → root ≡ fqdn
short_InZone fqdn root h (inl e) short = sym e
short_InZone fqdn root h (inr e) short =
    let (u, q) = ends_with_sound fqdn (dotted root) e in
    absurd (omega (arith, not_short fqdn u root h q, length_short fqdn short))

-- A name that is qualified already stays as it is.
host_to_fqdn_stable :
    (fqdn apex : Text)
    → normalize_apex apex ≢ []
    → InZone fqdn (normalize_apex apex)
    → lower fqdn ≡ fqdn
    → label_of fqdn ≡ fqdn
    → host_to_fqdn fqdn apex ≡ fqdn
host_to_fqdn_stable fqdn apex h zone low label =
    elim (Bool-cases (is_empty (label_of fqdn) || text_eq (label_of fqdn) at_sign)) [
      | inl e ↦
          host_to_fqdn_root fqdn apex h e
          ∙ short_InZone fqdn (normalize_apex apex) h zone (rw label at e)
      | inr e ↦
          host_to_fqdn_label fqdn apex h e
          ∙ ap (λ t. qualify t (normalize_apex apex)) (ap lower label ∙ low)
          ∙ qualify_of_InZone fqdn (normalize_apex apex) zone
    ]

-- With an apex that is not empty once normalised, and no white space in the two texts, qualifying
-- the qualified name again gives the same name.
pub host_to_fqdn_idem :
    (host apex : Text)
    → normalize_apex apex ≢ []
    → HasNoSpace apex
    → HasNoSpace host
    → host_to_fqdn (host_to_fqdn host apex) apex ≡ host_to_fqdn host apex
host_to_fqdn_idem host apex h plain bare =
    let fqdn = host_to_fqdn host apex in
    let zone = host_to_fqdn-InZone host apex h in
    host_to_fqdn_stable fqdn apex h zone (host_to_fqdn-lower host apex h plain) (
      ap (drop_last_while is_dot)
        (trim_of_HasNoSpace fqdn (host_to_fqdn-HasNoSpace host apex h plain bare))
      ∙ InZone-keeps_end apex plain fqdn h zone)
