-- ===== src/Query.antt =====
-- The query cache of the console: the keys of console/src/constants, the events of console/src/events
-- and what the hooks of console/src/providers/QueryProvider/hooks make stale. A key is known by its
-- family, and by its item if it is an item key; the cache itself belongs to the query library.
pub mod Stale
mod Tests
use nfx_edge.Common.{
  Text, Bool, true, false, ◌&&◌, Option, none, some, List, [], ◌∷◌, ◌++◌, any, text_eq,
}

-- The families of keys.
pub data Family : Type 0 where
  dns_credential_list dns_credential dns_balances dns_domain_list dns_domain : Family
  dns_ssl_list dns_outbound_ip dns_domain_lookup : Family
  tls_list tls_detail file_directory file_content : Family

pub data Domain : Type 0 where
  dns tls file : Domain

abbrev pub domain_of : Family → Domain
domain_of tls_list = tls
domain_of tls_detail = tls
domain_of file_directory = file
domain_of file_content = file
domain_of _ = dns

abbrev pub family_eq : Family → Family → Bool
family_eq dns_credential_list dns_credential_list = true
family_eq dns_credential dns_credential = true
family_eq dns_balances dns_balances = true
family_eq dns_domain_list dns_domain_list = true
family_eq dns_domain dns_domain = true
family_eq dns_ssl_list dns_ssl_list = true
family_eq dns_outbound_ip dns_outbound_ip = true
family_eq dns_domain_lookup dns_domain_lookup = true
family_eq tls_list tls_list = true
family_eq tls_detail tls_detail = true
family_eq file_directory file_directory = true
family_eq file_content file_content = true
family_eq _ _ = false

pub record Key : Type 0 where
  pub family : Family
  pub item : Text

-- A call of `invalidateQueries`: by the prefix of a family, or by one key.
pub data Invalidation : Type 0 where
  by_prefix : Family → Invalidation
  exactly : Key → Invalidation

pub data Event : Type 0 where
  invalidate_dns : Option Key → Event
  invalidate_tls : Option Key → Event
  invalidate_directory : Event

-- `if (detailQueryKey)`
abbrev pub detail : Option Key → List Invalidation
detail none = []
detail (some key) = exactly key ∷ []

unfoldable pub on_invalidate_dns : Option Key → List Invalidation
on_invalidate_dns key =
    by_prefix dns_credential_list
    ∷ by_prefix dns_credential
    ∷ by_prefix dns_balances
    ∷ by_prefix dns_domain_list
    ∷ by_prefix dns_domain
    ∷ by_prefix dns_ssl_list
    ∷ by_prefix dns_outbound_ip
    ∷ by_prefix dns_domain_lookup
    ∷ detail key

unfoldable pub on_invalidate_tls : Option Key → List Invalidation
on_invalidate_tls none = by_prefix tls_list ∷ by_prefix tls_detail ∷ []
on_invalidate_tls (some key) = by_prefix tls_list ∷ exactly key ∷ []

unfoldable pub on_invalidate_directory : List Invalidation
on_invalidate_directory = by_prefix file_directory ∷ by_prefix file_content ∷ []

-- What the listeners do on an event.
unfoldable pub on_event : Event → List Invalidation
unfolding on_invalidate_dns on_invalidate_tls on_invalidate_directory
on_event (invalidate_dns key) = on_invalidate_dns key
on_event (invalidate_tls key) = on_invalidate_tls key
on_event invalidate_directory = on_invalidate_directory

unfoldable pub key_eq : Key → Key → Bool
unfolding text_eq
key_eq a b = family_eq a.family b.family && text_eq a.item b.item

abbrev pub reaches : Key → Invalidation → Bool
reaches key (by_prefix family) = family_eq key.family family
reaches key (exactly other) = key_eq key other

-- The event makes the query of the key stale.
unfoldable pub is_stale : Event → Key → Bool
unfolding on_event key_eq
is_stale event key = any (reaches key) (on_event event)
