-- ===== src/Api.antt =====
-- The calls of the server: console/src/apis/ip.ts, dns.api.ts, tls.api.ts, file.api.ts and
-- analysis.api.ts of console/src/apis. A call is known by what it puts in its path; bodies and timeouts
-- are left out. The paths of a module under its base, which nfx-ui makes, and the encoding in a URL are
-- arguments.
pub mod Routes
pub mod Dispatch
mod Tests
use nfx_edge.Common.{
  ℕ, Text, codes, Bool, true, false, Option, none, some, List, [], ◌∷◌, ◌++◌, if◌then◌else◌, length,
  truthy,
}

pub data Method : Type 0 where
  get post put patch delete : Method

-- The functions that send a request, with what they put in its path.
pub data Call : Type 0 where
  list_credentials create_credential outbound_ip : Call
  get_credential update_credential delete_credential verify_credential : (id : Text) → Call
  get_balances list_domains list_ssl : (id : Text) → Call
  get_domain : (id domain : Text) → Call
  add_host update_host delete_host bulk_hosts preview_hosts : (id : Text) → Call
  dns_errors dns_messages : (lang : Text) → Call
  list_certificates apply reapply create update_manual delete_certificate : Call
  invalidate_cache search parse_preview : Call
  get_certificate : (certificate_id : Text) → Call
  tls_errors tls_messages : (lang : Text) → Call
  list_directory export_all export_single download file_content delete_path : Call
  file_errors file_messages : (lang : Text) → Call
  analyze_tls : Call
  analysis_errors analysis_messages : (lang : Text) → Call

abbrev pub tls_base : Text
tls_base = codes "/edge/tls"

abbrev pub file_base : Text
file_base = codes "/edge/file"

abbrev pub analysis_base : Text
analysis_base = codes "/edge/analysis"

abbrev pub dns_base : Text
dns_base = codes "/edge/dns"

abbrev pub credential_path : Text → Text → Text
credential_path id rest = codes "/credentials/" ++ (id ++ rest)

abbrev pub locales_path : Text → Text
locales_path lang = codes "/locales/" ++ lang

abbrev pub messages_path : Text → Text
messages_path lang = codes "/messages/" ++ lang

unfoldable pub method_of : Call → Method
method_of create_credential = post
method_of (update_credential id) = put
method_of (delete_credential id) = delete
method_of (verify_credential id) = post
method_of (add_host id) = post
method_of (update_host id) = patch
method_of (delete_host id) = delete
method_of (bulk_hosts id) = post
method_of (preview_hosts id) = post
method_of apply = post
method_of reapply = post
method_of create = post
method_of update_manual = put
method_of delete_certificate = delete
method_of invalidate_cache = post
method_of search = post
method_of parse_preview = post
method_of export_all = post
method_of export_single = post
method_of delete_path = delete
method_of analyze_tls = post
method_of _ = get

-- `URL_PATHS`: the base of the module, and the path under it.
unfoldable pub place_of : (Text → Text) → Call → Text × Text
place_of encode list_credentials = (dns_base, codes "/credentials")
place_of encode create_credential = (dns_base, codes "/credentials")
place_of encode outbound_ip = (dns_base, codes "/outbound-ip")
place_of encode (get_credential id) = (dns_base, credential_path id [])
place_of encode (update_credential id) = (dns_base, credential_path id [])
place_of encode (delete_credential id) = (dns_base, credential_path id [])
place_of encode (verify_credential id) = (dns_base, credential_path id (codes "/verify"))
place_of encode (get_balances id) = (dns_base, credential_path id (codes "/balances"))
place_of encode (list_domains id) = (dns_base, credential_path id (codes "/domains"))
place_of encode (list_ssl id) = (dns_base, credential_path id (codes "/ssl"))
place_of encode (get_domain id domain) =
    (dns_base, credential_path id (codes "/domains/" ++ encode domain))
place_of encode (add_host id) = (dns_base, credential_path id (codes "/hosts"))
place_of encode (update_host id) = (dns_base, credential_path id (codes "/hosts"))
place_of encode (delete_host id) = (dns_base, credential_path id (codes "/hosts"))
place_of encode (bulk_hosts id) = (dns_base, credential_path id (codes "/hosts/bulk"))
place_of encode (preview_hosts id) = (dns_base, credential_path id (codes "/hosts/bulk/preview"))
place_of encode (dns_errors lang) = (dns_base, locales_path lang)
place_of encode (dns_messages lang) = (dns_base, messages_path lang)
place_of encode list_certificates = (tls_base, codes "/check")
place_of encode apply = (tls_base, codes "/apply")
place_of encode reapply = (tls_base, codes "/reapply")
place_of encode create = (tls_base, codes "/create")
place_of encode update_manual = (tls_base, codes "/update/manual-add")
place_of encode delete_certificate = (tls_base, codes "/delete")
place_of encode invalidate_cache = (tls_base, codes "/invalidate-cache")
place_of encode search = (tls_base, codes "/search")
place_of encode parse_preview = (tls_base, codes "/parse-preview")
place_of encode (get_certificate id) = (tls_base, codes "/detail-by-id/" ++ id)
place_of encode (tls_errors lang) = (tls_base, locales_path lang)
place_of encode (tls_messages lang) = (tls_base, messages_path lang)
place_of encode list_directory = (file_base, codes "/list")
place_of encode export_all = (file_base, codes "/export")
place_of encode export_single = (file_base, codes "/export-single")
place_of encode download = (file_base, codes "/download")
place_of encode file_content = (file_base, codes "/content")
place_of encode delete_path = (file_base, codes "/delete")
place_of encode (file_errors lang) = (file_base, locales_path lang)
place_of encode (file_messages lang) = (file_base, messages_path lang)
place_of encode analyze_tls = (analysis_base, codes "/tls")
place_of encode (analysis_errors lang) = (analysis_base, locales_path lang)
place_of encode (analysis_messages lang) = (analysis_base, messages_path lang)

unfoldable pub path_of : (Text → Text → Text) → (Text → Text) → Call → Text
unfolding place_of
path_of under encode call = let place = place_of encode call in under place.0 place.1
