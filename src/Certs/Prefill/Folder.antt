-- ===== src/Certs/Prefill/Folder.antt =====
-- The folder that a certificate is put in unless the user names one: folderNameFromDomain.ts of
-- console/src/features/certificate/utils.
use nfx_edge.Common.{
  ℕ, ◌≡◌, refl, inl, inr, Text, true, false, [], ◌∷◌, arith, ◌==◌, if◌then◌else◌, Bool-cases,
  filter, All, trim, lower, split, drop_last_while, is_alnum, is_space,
}
use nfx_edge.Common.TextLaws.{trim_of_HasNoSpace}
use nfx_edge.Certs.Prefill.{first, folder_name_from_domain, all_alnum, is_folder_name}

is_space_alnum : (c : ℕ) → is_alnum c ≡ true → is_space c ≡ false
unfolding is_alnum is_space
is_space_alnum c h = ground (arith, h)

all_alnum-filter : (s : Text) → all_alnum (filter is_alnum s) ≡ true
unfolding all_alnum
all_alnum-filter [] = refl
all_alnum-filter (c ∷ s) = elim (Bool-cases (is_alnum c)) [
  | inl kept ↦ rw (kept, if◌then◌else◌) (ground (arith, kept, all_alnum-filter s))
  | inr dropped ↦ rw (dropped, if◌then◌else◌) (all_alnum-filter s)
]

HasNoSpace-filter : (s : Text) → All (λ c. is_space c ≡ false) (filter is_alnum s)
HasNoSpace-filter [] = tt
HasNoSpace-filter (c ∷ s) = elim (Bool-cases (is_alnum c)) [
  | inl kept ↦ rw (kept, if◌then◌else◌) (is_space_alnum c kept, HasNoSpace-filter s)
  | inr dropped ↦ rw (dropped, if◌then◌else◌) (HasNoSpace-filter s)
]

rule_holds : (s : Text) → all_alnum s ≡ true → is_folder_name s ≡ true
unfolding is_folder_name
rule_holds [] h = refl
rule_holds (c ∷ s) h = h

-- The folder named after a domain, whatever text that is, passes the rule for folder names, and the
-- trimming before the rule leaves it as it is.
folder_name_from_domain_lem :
    (domain : Text)
    → (is_folder_name (folder_name_from_domain domain) ≡ true)
      × (trim (folder_name_from_domain domain) ≡ folder_name_from_domain domain)
unfolding folder_name_from_domain
folder_name_from_domain_lem domain =
    let label = first (split (drop_last_while (λ c. c == b'.') (lower (trim domain))) b'.') in
    let folder = filter is_alnum label in
    (
      rule_holds folder (all_alnum-filter label),
      trim_of_HasNoSpace folder (HasNoSpace-filter label),
    )
