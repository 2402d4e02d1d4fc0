-- ===== src/Api/Routes.antt =====
-- A table of the server's routes, with what stands in the places of a path, and its reading.
use nfx_edge.Common.{
  Text, codes, Bool, true, false, Option, none, some, List, [], ◌∷◌, ◌++◌, if◌then◌else◌, text_eq,
}
use nfx_edge.Api.{
  Method, get, post, put, patch, delete, Call, list_credentials, create_credential, outbound_ip,
  get_credential, update_credential, delete_credential, verify_credential, get_balances,
  list_domains, list_ssl, get_domain, add_host, update_host, delete_host, bulk_hosts, preview_hosts,
  dns_errors, dns_messages, list_certificates, apply, reapply, create, update_manual,
  delete_certificate, invalidate_cache, search, parse_preview, get_certificate, tls_errors,
  tls_messages, list_directory, export_all, export_single, download, file_content, delete_path,
  file_errors, file_messages, analyze_tls, analysis_errors, analysis_messages,
}

pub record Route : Type 0 where
  pub method : Method
  pub words : List Text
  pub build : List Text → Option Call

-- A place in a route that takes any text; a route spells it as the empty text.
abbrev hole : Text
hole = []

abbrev dns : List Text → List Text
dns words = codes "edge" ∷ codes "dns" ∷ words

abbrev tls : List Text → List Text
tls words = codes "edge" ∷ codes "tls" ∷ words

abbrev file : List Text → List Text
file words = codes "edge" ∷ codes "file" ∷ words

abbrev analysis : List Text → List Text
analysis words = codes "edge" ∷ codes "analysis" ∷ words

abbrev credential : List Text → List Text
credential words = dns (codes "credentials" ∷ hole ∷ words)

abbrev plain : Method → List Text → Call → Route
plain m ws call = record { method = m; words = ws; build = λ places. some call }

abbrev only : (Text → Call) → List Text → Option Call
only call [] = none
only call (place ∷ places) = some (call place)

abbrev both : (Text → Text → Call) → List Text → Option Call
both call [] = none
both call (place ∷ []) = none
both call (place ∷ other ∷ places) = some (call place other)

abbrev with_one : Method → List Text → (Text → Call) → Route
with_one m ws call = record { method = m; words = ws; build = only call }

module _ (decode : Text → Text) where
  dns_routes : List Route
  dns_routes =
      plain get (dns (codes "credentials" ∷ [])) list_credentials
      ∷ plain post (dns (codes "credentials" ∷ [])) create_credential
      ∷ plain get (dns (codes "outbound-ip" ∷ [])) outbound_ip
      ∷ with_one get (credential []) get_credential
      ∷ with_one put (credential []) update_credential
      ∷ with_one delete (credential []) delete_credential
      ∷ with_one post (credential (codes "verify" ∷ [])) verify_credential
      ∷ with_one get (credential (codes "balances" ∷ [])) get_balances
      ∷ with_one get (credential (codes "domains" ∷ [])) list_domains
      ∷ with_one get (credential (codes "ssl" ∷ [])) list_ssl
      ∷ (record {
        method = get;
        words = credential (codes "domains" ∷ hole ∷ []);
        build = both (λ id domain. get_domain id (decode domain));
      })
      ∷ with_one post (credential (codes "hosts" ∷ [])) add_host
      ∷ with_one patch (credential (codes "hosts" ∷ [])) update_host
      ∷ with_one delete (credential (codes "hosts" ∷ [])) delete_host
      ∷ with_one post (credential (codes "hosts" ∷ codes "bulk" ∷ [])) bulk_hosts
      ∷ with_one post (credential (codes "hosts" ∷ codes "bulk" ∷ codes "preview" ∷ []))
          preview_hosts
      ∷ with_one get (dns (codes "locales" ∷ hole ∷ [])) dns_errors
      ∷ with_one get (dns (codes "messages" ∷ hole ∷ [])) dns_messages
      ∷ []

  tls_routes : List Route
  tls_routes =
      plain get (tls (codes "check" ∷ [])) list_certificates
      ∷ plain post (tls (codes "apply" ∷ [])) apply
      ∷ plain post (tls (codes "reapply" ∷ [])) reapply
      ∷ plain post (tls (codes "create" ∷ [])) create
      ∷ plain put (tls (codes "update" ∷ codes "manual-add" ∷ [])) update_manual
      ∷ plain delete (tls (codes "delete" ∷ [])) delete_certificate
      ∷ plain post (tls (codes "invalidate-cache" ∷ [])) invalidate_cache
      ∷ plain post (tls (codes "search" ∷ [])) search
      ∷ plain post (tls (codes "parse-preview" ∷ [])) parse_preview
      ∷ with_one get (tls (codes "detail-by-id" ∷ hole ∷ [])) get_certificate
      ∷ with_one get (tls (codes "locales" ∷ hole ∷ [])) tls_errors
      ∷ with_one get (tls (codes "messages" ∷ hole ∷ [])) tls_messages
      ∷ []

  other_routes : List Route
  other_routes =
      plain get (file (codes "list" ∷ [])) list_directory
      ∷ plain post (file (codes "export" ∷ [])) export_all
      ∷ plain post (file (codes "export-single" ∷ [])) export_single
      ∷ plain get (file (codes "download" ∷ [])) download
      ∷ plain get (file (codes "content" ∷ [])) file_content
      ∷ plain delete (file (codes "delete" ∷ [])) delete_path
      ∷ with_one get (file (codes "locales" ∷ hole ∷ [])) file_errors
      ∷ with_one get (file (codes "messages" ∷ hole ∷ [])) file_messages
      ∷ plain post (analysis (codes "tls" ∷ [])) analyze_tls
      ∷ with_one get (analysis (codes "locales" ∷ hole ∷ [])) analysis_errors
      ∷ with_one get (analysis (codes "messages" ∷ hole ∷ [])) analysis_messages
      ∷ []

abbrev method_eq : Method → Method → Bool
method_eq get get = true
method_eq post post = true
method_eq put put = true
method_eq patch patch = true
method_eq delete delete = true
method_eq _ _ = false

abbrev put_place : Text → Option (List Text) → Option (List Text)
put_place place none = none
put_place place (some places) = some (place ∷ places)

-- What stands in the places of a route for the segments of a path, if they fit it.
fits : List Text → List Text → Option (List Text)
unfolding text_eq
fits [] [] = some []
fits [] (t ∷ ts) = none
fits (w ∷ ws) [] = none
fits ([] ∷ ws) (t ∷ ts) = put_place t (fits ws ts)
fits ((c ∷ w) ∷ ws) (t ∷ ts) = let rest = fits ws ts in if text_eq (c ∷ w) t then rest else none

abbrev built : (List Text → Option Call) → Option (List Text) → Option Call
built build none = none
built build (some places) = build places

abbrev or_call : Option Call → Option Call → Option Call
or_call none later = later
or_call (some call) later = some call

-- The call of the first route that fits.
unfoldable pub dispatch : List Route → Method → List Text → Option Call
unfolding fits
dispatch [] method ts = none
dispatch (route ∷ routes) method ts =
    let later = dispatch routes method ts in
    if method_eq route.method method
    then or_call (built route.build (fits route.words ts)) later
    else later

unfoldable pub server_routes : (Text → Text) → List Route
unfolding dns_routes tls_routes other_routes
server_routes decode = dns_routes decode ++ tls_routes decode ++ other_routes decode
