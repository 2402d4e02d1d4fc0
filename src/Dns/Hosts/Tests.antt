-- ===== src/Dns/Hosts/Tests.antt =====
-- Runs of the host name functions on names that the console shows, and the theorems about them at
-- concrete names.
use nfx_edge.Common.{
  ◌≡◌, refl, ◌≢◌, Text, codes, true, not, ◌&&◌, some, List, [], ◌∷◌, ◌++◌, map, arith, text_eq,
  trim, lower, ends_with, includes, contains, truthy,
}
use nfx_edge.Common.TextLaws.{HasNoSpace}
use nfx_edge.Dns.Hosts.{
  normalize_apex, host_to_fqdn, unique_fqdns, hosts_to_sans, prefix_from_host, join_label,
  fqdn_from_prefix, add_prefix, remove_item,
}
use nfx_edge.Dns.Hosts.Zone.{InZone, host_to_fqdn-InZone}
use nfx_edge.Dns.Hosts.Qualified.{host_to_fqdn_idem}
use nfx_edge.Dns.Hosts.Unique.{Distinct, clean, hosts_to_sans_exact}
use nfx_edge.Dns.Hosts.Sans.{add_prefix_lem}

hosts_open : Unit {0}
unfolding normalize_apex host_to_fqdn unique_fqdns hosts_to_sans prefix_from_host join_label
    fqdn_from_prefix add_prefix trim lower text_eq ends_with includes contains
hosts_open = tt

abbrev zone : Text
zone = codes "Example.com."

qualified : host_to_fqdn (codes " WWW. ") zone ≡ codes "www.example.com"
unfolding hosts_open
qualified = refl

apex_host : host_to_fqdn (codes "@") zone ≡ codes "example.com"
unfolding hosts_open
apex_host = refl

sans :
    hosts_to_sans (codes "@" ∷ codes "www" ∷ codes "WWW." ∷ codes "mail.example.com" ∷ []) zone
    ≡ codes "www.example.com" ∷ codes "mail.example.com" ∷ []
unfolding hosts_open
sans = refl

spelling : fqdn_from_prefix (codes "Mail") zone ≡ some (codes "Mail.example.com")
unfolding hosts_open
spelling = refl

added_once :
    add_prefix zone (codes "MAIL") (codes "mail.example.com" ∷ []) ≡ codes "mail.example.com" ∷ []
unfolding hosts_open
added_once = refl

removed : remove_item 1 (codes "a" ∷ codes "b" ∷ []) ≡ codes "a" ∷ []
unfolding remove_item
removed = refl

zone_ne : normalize_apex zone ≢ []
unfolding hosts_open
zone_ne = cc

zone_plain : HasNoSpace zone
unfolding hosts_open
zone_plain = ground arith

www_plain : HasNoSpace (codes "WWW")
unfolding hosts_open
www_plain = ground arith

host_to_fqdn-InZone_example : InZone (host_to_fqdn (codes "WWW") zone) (normalize_apex zone)
host_to_fqdn-InZone_example = host_to_fqdn-InZone (codes "WWW") zone zone_ne

host_to_fqdn_idem_example :
    host_to_fqdn (host_to_fqdn (codes "WWW") zone) zone ≡ host_to_fqdn (codes "WWW") zone
host_to_fqdn_idem_example = host_to_fqdn_idem (codes "WWW") zone zone_ne zone_plain www_plain

hosts_to_sans_exact_example :
    Distinct (hosts_to_sans (codes "@" ∷ codes "www" ∷ []) zone)
    × ((t : Text)
        → contains (hosts_to_sans (codes "@" ∷ codes "www" ∷ []) zone) t ≡ (
            not (text_eq t (normalize_apex zone))
            && (truthy t
                && contains
                    (map clean (
                      map
                        (λ host. host_to_fqdn host (normalize_apex zone))
                        (codes "@" ∷ codes "www" ∷ [])))
                    t)))
hosts_to_sans_exact_example = hosts_to_sans_exact (codes "@" ∷ codes "www" ∷ []) zone

one-Distinct : Distinct (map lower (codes "mail.example.com" ∷ []))
unfolding hosts_open
one-Distinct = ground arith

add_prefix_lem_example :
    ((added : List Text) × (add_prefix zone (codes "www") (codes "mail.example.com" ∷ [])
        ≡ (codes "mail.example.com" ∷ []) ++ added))
    × Distinct (map lower (add_prefix zone (codes "www") (codes "mail.example.com" ∷ [])))
    × (contains
          (map lower (add_prefix zone (codes "www") (codes "mail.example.com" ∷ [])))
          (lower (codes "www.example.com"))
        ≡ true)
add_prefix_lem_example =
    add_prefix_lem zone (codes "www") (codes "www.example.com") (codes "mail.example.com" ∷ [])
      stands one-Distinct
  where
    stands : fqdn_from_prefix (codes "www") zone ≡ some (codes "www.example.com")
    stands = unfold hosts_open in refl
