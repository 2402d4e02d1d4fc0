-- ===== src/Dns/Hosts/Label.antt =====
-- `prefixFromHost` against `fqdnFromPrefix`, both of
-- console/src/features/certificate/controllers/SANsController/index.tsx.
use nfx_edge.Common.{◌≢◌, Text, [], lower}
use nfx_edge.Common.TextLaws.{Lacks, HasNoSpace}
use nfx_edge.Dns.Hosts.{is_dot, at_sign}

-- A label as a user types it for a host below the apex.
pub record IsLabel (label root : Text) : Type 0 where
  pub not_empty : label ≢ []
  pub bare : HasNoSpace label
  pub no_dot : Lacks is_dot label
  pub not_at : lower label ≢ at_sign
  pub not_root : lower label ≢ root
