-- ===== src/Query/Stale.antt =====
-- Which queries an event makes stale.
use nfx_edge.Common.{◌≡◌, refl, Text, Bool, true, false, ◌||◌, none, some, arith}
use nfx_edge.Query.{
  Family, dns_credential_list, dns_credential, dns_balances, dns_domain_list, dns_domain,
  dns_ssl_list, dns_outbound_ip, dns_domain_lookup, tls_list, tls_detail, file_directory,
  file_content, Domain, dns, tls, file, domain_of, family_eq, Key, invalidate_dns, invalidate_tls,
  invalidate_directory, on_event, on_invalidate_dns, on_invalidate_tls, on_invalidate_directory,
  key_eq, is_stale,
}

-- The two tests on a domain.
abbrev pub in_domain : Domain → Family → Bool
in_domain dns f = elim (domain_of f) [ dns ↦ true | tls ↦ false | file ↦ false ]
in_domain tls f = elim (domain_of f) [ dns ↦ false | tls ↦ true | file ↦ false ]
in_domain file f = elim (domain_of f) [ dns ↦ false | tls ↦ false | file ↦ true ]

stale_by :
    (f : Family) (item : Text)
    → (is_stale (invalidate_dns none) (record { family = f; item = item }) ≡ in_domain dns f)
      × (is_stale invalidate_directory (record { family = f; item = item }) ≡ in_domain file f)
      × (is_stale (invalidate_tls none) (record { family = f; item = item }) ≡ in_domain tls f)
unfolding is_stale on_event on_invalidate_dns on_invalidate_tls on_invalidate_directory
stale_by dns_credential_list item = (refl, refl, refl)
stale_by dns_credential item = (refl, refl, refl)
stale_by dns_balances item = (refl, refl, refl)
stale_by dns_domain_list item = (refl, refl, refl)
stale_by dns_domain item = (refl, refl, refl)
stale_by dns_ssl_list item = (refl, refl, refl)
stale_by dns_outbound_ip item = (refl, refl, refl)
stale_by dns_domain_lookup item = (refl, refl, refl)
stale_by tls_list item = (refl, refl, refl)
stale_by tls_detail item = (refl, refl, refl)
stale_by file_directory item = (refl, refl, refl)
stale_by file_content item = (refl, refl, refl)

-- A DNS event without a key reaches exactly the DNS queries, a directory event exactly the file
-- queries, a TLS event without a key exactly the TLS queries, and one with a key the list and the
-- query of that key.
pub is_stale_lem :
    (key other : Key)
    → (is_stale (invalidate_dns none) key ≡ in_domain dns key.family)
      × (is_stale invalidate_directory key ≡ in_domain file key.family)
      × (is_stale (invalidate_tls none) key ≡ in_domain tls key.family)
      × (is_stale (invalidate_tls (some other)) key
          ≡ (family_eq key.family tls_list || key_eq key other))
unfolding is_stale on_event on_invalidate_tls
is_stale_lem key other =
    let (by_dns, by_directory, by_tls) = stale_by key.family key.item in
    (by_dns, by_directory, by_tls, or_false _ _)
  where
    or_false : (a b : Bool) → (a || (b || false)) ≡ (a || b)
    or_false a b = ground arith
