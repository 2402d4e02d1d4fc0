-- ===== src/Dns/Hosts/Unique.antt =====
-- `uniqueFqdns` and `hostsToSans` of console/src/features/dns/hostFqdn.ts: which names they return,
-- each of them once.
use nfx_edge.Common.{
  ◌≡◌, refl, ap, ◌∙◌, inl, inr, Text, Bool, true, false, not, ◌&&◌, ◌||◌, List, [], ◌∷◌, ◌++◌, map,
  arith, if◌then◌else◌, subst, sym, text_eq, text_eq_iff, text_eq_refl, trim, lower, contains,
  is_empty, truthy, filter, Bool-cases,
}
use nfx_edge.Dns.Hosts.{normalize_apex, host_to_fqdn, unique_from, unique_fqdns, hosts_to_sans}

-- No text stands in the list twice.
abbrev pub Distinct : List Text → Type 0
Distinct [] = Unit
Distinct (t ∷ ts) = (contains ts t ≡ false) × Distinct ts

pub contains-append :
    (ss ts : List Text) (t : Text) → contains (ss ++ ts) t ≡ (contains ss t || contains ts t)
unfolding contains
contains-append [] ts t = refl
contains-append (s ∷ ss) ts t = ground (arith, contains-append ss ts t)

pub text_eq_symm : (s t : Text) → text_eq s t ≡ text_eq t s
text_eq_symm s t = ground (arith, text_eq_iff s t, text_eq_iff t s)

pub contains_one : (s t : Text) → contains (s ∷ []) t ≡ text_eq s t
unfolding contains
contains_one s t = ground arith

pub Distinct-concat :
    (ts : List Text) (t : Text) → Distinct ts → contains ts t ≡ false → Distinct (ts ++ t ∷ [])
unfolding contains
Distinct-concat [] t d h = (refl, tt)
Distinct-concat (s ∷ ts) t d h = (
  contains-append ts (t ∷ []) s ∙ ground (arith, contains_one t s, text_eq_symm s t, d.0),
  Distinct-concat ts t d.1 (ground arith),
)

-- What `uniqueFqdns` compares and returns of a value.
abbrev pub clean : Text → Text
clean value = lower (trim value)

unique_from-Distinct : (values out : List Text) → Distinct out → Distinct (unique_from out values)
unfolding unique_from
unique_from-Distinct [] out d = d
unique_from-Distinct (value ∷ values) out d =
    elim (Bool-cases (is_empty (clean value) || contains out (clean value))) [
      | inl e ↦ rw e (unique_from-Distinct values out d)
      | inr e ↦ rw e (
          unique_from-Distinct values (out ++ clean value ∷ [])
            (Distinct-concat out (clean value) d (ground arith)))
    ]

skip_value :
    (rest : Bool) (v t : Text) (out : List Text)
    → (is_empty v || contains out v) ≡ true
    → (contains out t || (truthy t && rest))
      ≡ (contains out t || (truthy t && (text_eq v t || rest)))
skip_value rest v t out e = elim (Bool-cases (text_eq v t)) [
  | inl q ↦ rw (← (text_eq_iff v t).0 q) (ground arith)
  | inr q ↦ rw q
]

keep_value :
    (rest : Bool) (v t : Text) (out : List Text)
    → (is_empty v || contains out v) ≡ false
    → (contains (out ++ v ∷ []) t || (truthy t && rest))
      ≡ (contains out t || (truthy t && (text_eq v t || rest)))
keep_value rest v t out e =
    rw (contains-append out (v ∷ []) t, contains_one v t)
      (elim (Bool-cases (text_eq v t)) [
        | inl q ↦ rw (q, ← (text_eq_iff v t).0 q) (ground arith)
        | inr q ↦ rw q (ground arith)
      ])

unique_from-contains :
    (values out : List Text) (t : Text)
    → contains (unique_from out values) t
      ≡ (contains out t || (truthy t && contains (map clean values) t))
unfolding unique_from contains
unique_from-contains [] out t = ground arith
unique_from-contains (value ∷ values) out t =
    elim (Bool-cases (is_empty (clean value) || contains out (clean value))) [
      | inl e ↦ rw e (
          unique_from-contains values out t
          ∙ skip_value (contains (map clean values) t) (clean value) t out e)
      | inr e ↦ rw e (
          unique_from-contains values (out ++ clean value ∷ []) t
          ∙ keep_value (contains (map clean values) t) (clean value) t out e)
    ]

-- The result holds no name twice, and it holds a name exactly when the name is not empty and is
-- one of the values once trimmed and in lower case.
pub unique_fqdns_exact :
    (values : List Text)
    → Distinct (unique_fqdns values)
      × ((t : Text)
          → contains (unique_fqdns values) t ≡ (truthy t && contains (map clean values) t))
unfolding unique_fqdns contains
unique_fqdns_exact values =
    (unique_from-Distinct values [] tt, λ t. unique_from-contains values [] t)

pub contains-filter :
    (p : Text → Bool) (ts : List Text) (t : Text)
    → contains (filter p ts) t ≡ (contains ts t && p t)
unfolding contains
contains-filter p [] t = refl
contains-filter p (s ∷ ts) t = elim (Bool-cases (text_eq s t)) [
  | inl same ↦
      subst (λ r. contains (filter p (r ∷ ts)) t ≡ ((text_eq r t || contains ts t) && p t))
        (sym ((text_eq_iff s t).0 same)) (ground (arith, text_eq_refl t, contains-filter p ts t))
  | inr differ ↦ ground (arith, differ, contains-filter p ts t)
]

pub Distinct-filter : (p : Text → Bool) (ts : List Text) → Distinct ts → Distinct (filter p ts)
Distinct-filter p [] d = tt
Distinct-filter p (t ∷ ts) d = elim (Bool-cases (p t)) [
  | inl kept ↦
      rw (kept, if◌then◌else◌)
        (contains-filter p ts t ∙ ap (λ b. b && p t) d.0, Distinct-filter p ts d.1)
  | inr dropped ↦ rw (dropped, if◌then◌else◌) (Distinct-filter p ts d.1)
]

pub and_comm : (a b : Bool) → (a && b) ≡ (b && a)
and_comm true b = ground arith
and_comm false b = ground arith

-- The alternative names of a certificate hold no name twice, and they hold exactly the names of
-- the hosts, trimmed and in lower case, that are not empty and not the apex itself.
pub hosts_to_sans_exact :
    (hosts : List Text) (apex : Text)
    → Distinct (hosts_to_sans hosts apex)
      × ((t : Text)
          → contains (hosts_to_sans hosts apex) t ≡ (
              not (text_eq t (normalize_apex apex))
              && (truthy t
                  && contains
                      (map clean (map (λ host. host_to_fqdn host (normalize_apex apex)) hosts))
                      t)))
unfolding hosts_to_sans
hosts_to_sans_exact hosts apex =
    let cn = normalize_apex apex in
    let names = map (λ (host : Text). host_to_fqdn host cn) hosts in
    let exact = unique_fqdns_exact names in
    (
      Distinct-filter (λ fqdn. not (text_eq fqdn cn)) (unique_fqdns names) exact.0,
      λ t.
          contains-filter (λ fqdn. not (text_eq fqdn cn)) (unique_fqdns names) t
          ∙ and_comm (contains (unique_fqdns names) t) (not (text_eq t cn))
          ∙ ap (λ b. not (text_eq t cn) && b) (exact.1 t),
    )
