-- ===== src/Api/Dispatch.antt =====
-- The server's routes find every call of console/src/apis again.
use nfx_edge.Common.{
  All, ◌≡◌, refl, ap, ◌∙◌, Text, codes, true, Option, some, List, [], ◌∷◌, ◌++◌, append-nil, filter,
  text_eq, truthy, split,
}
use nfx_edge.Common.Split.{HasNo, split_whole, split_first}
use nfx_edge.Files.{segments}
use nfx_edge.Api.{
  Method, get, post, put, patch, delete, Call, list_credentials, create_credential, outbound_ip,
  get_credential, update_credential, delete_credential, verify_credential, get_balances,
  list_domains, list_ssl, get_domain, add_host, update_host, delete_host, bulk_hosts, preview_hosts,
  dns_errors, dns_messages, list_certificates, apply, reapply, create, update_manual,
  delete_certificate, invalidate_cache, search, parse_preview, get_certificate, tls_errors,
  tls_messages, list_directory, export_all, export_single, download, file_content, delete_path,
  file_errors, file_messages, analyze_tls, analysis_errors, analysis_messages, method_of, place_of,
  path_of,
}
use nfx_edge.Api.Routes.{dispatch, server_routes}

-- A text that stands in one place of a path.
unfoldable pub IsPlace : Text → Type 0
IsPlace t = (truthy t ≡ true) × HasNo b'/' t

last_place : (t : Text) → IsPlace t → segments t ≡ t ∷ []
unfolding IsPlace segments
last_place t h = ap (filter truthy) (split_whole b'/' t h.1) ∙ rw h.0

next_place : (t s : Text) → IsPlace t → segments (t ++ b'/' ∷ s) ≡ t ∷ segments s
unfolding IsPlace segments
next_place t s h = ap (filter truthy) (split_first b'/' t s h.1) ∙ rw h.0

-- What a call puts in the places of its path.
unfoldable pub places : (Text → Text) → Call → List Text
places encode (get_credential place) = place ∷ []
places encode (update_credential place) = place ∷ []
places encode (delete_credential place) = place ∷ []
places encode (verify_credential place) = place ∷ []
places encode (get_balances place) = place ∷ []
places encode (list_domains place) = place ∷ []
places encode (list_ssl place) = place ∷ []
places encode (add_host place) = place ∷ []
places encode (update_host place) = place ∷ []
places encode (delete_host place) = place ∷ []
places encode (bulk_hosts place) = place ∷ []
places encode (preview_hosts place) = place ∷ []
places encode (get_certificate place) = place ∷ []
places encode (dns_errors place) = place ∷ []
places encode (dns_messages place) = place ∷ []
places encode (tls_errors place) = place ∷ []
places encode (tls_messages place) = place ∷ []
places encode (file_errors place) = place ∷ []
places encode (file_messages place) = place ∷ []
places encode (analysis_errors place) = place ∷ []
places encode (analysis_messages place) = place ∷ []
places encode (get_domain id domain) = id ∷ encode domain ∷ []
places encode _ = []

-- A domain in a path is read back.
abbrev pub ReadsBack : (Text → Text) → (Text → Text) → Call → Type 0
ReadsBack encode decode (get_domain id domain) = decode (encode domain) ≡ domain
ReadsBack encode decode _ = Unit

-- The segments of a place with a base, and the call that the routes find for them.
module _ (encode decode : Text → Text) where
  at : Call → Text
  unfolding place_of
  at call = (place_of encode call).0 ++ (place_of encode call).1

  found : Method → List Text → Option Call
  found m ts = dispatch (server_routes decode) m ts

  -- A path that ends with a place, and one that goes on behind it.
  module _ (prefix : Text) (before : List Text → List Text) (m : Method) (call : Call) where
    found_last :
        (t : Text)
        → ((s : Text) → segments (prefix ++ s) ≡ before (segments s))
        → IsPlace t
        → found m (before (t ∷ [])) ≡ some call
        → found m (segments (prefix ++ t)) ≡ some call
    found_last t splits h e = ap (found m) (splits t ∙ ap before (last_place t h)) ∙ e

    found_next :
        (t s : Text)
        → ((s' : Text) → segments (prefix ++ s') ≡ before (segments s'))
        → IsPlace t
        → found m (before (t ∷ segments s)) ≡ some call
        → found m (segments (prefix ++ (t ++ b'/' ∷ s))) ≡ some call
    found_next t s splits h e =
        ap (found m) (splits (t ++ b'/' ∷ s) ∙ ap before (next_place t s h)) ∙ e

  below : Text → Text → List Text → List Text
  below base word ts = codes "edge" ∷ base ∷ word ∷ ts

  behind_domains : (t : Text) → segments (codes "domains/" ++ t) ≡ codes "domains" ∷ segments t
  behind_domains t = unfold segments split in refl

  found-at :
      (call : Call)
      → All IsPlace (places encode call)
      → ReadsBack encode decode call
      → found (method_of call) (segments (at call)) ≡ some call
  unfolding found at below places method_of place_of server_routes dispatch text_eq
  found-at list_credentials h k = unfold segments split in refl
  found-at create_credential h k = unfold segments split in refl
  found-at outbound_ip h k = unfold segments split in refl
  found-at list_certificates h k = unfold segments split in refl
  found-at apply h k = unfold segments split in refl
  found-at reapply h k = unfold segments split in refl
  found-at create h k = unfold segments split in refl
  found-at update_manual h k = unfold segments split in refl
  found-at delete_certificate h k = unfold segments split in refl
  found-at invalidate_cache h k = unfold segments split in refl
  found-at search h k = unfold segments split in refl
  found-at parse_preview h k = unfold segments split in refl
  found-at list_directory h k = unfold segments split in refl
  found-at export_all h k = unfold segments split in refl
  found-at export_single h k = unfold segments split in refl
  found-at download h k = unfold segments split in refl
  found-at file_content h k = unfold segments split in refl
  found-at delete_path h k = unfold segments split in refl
  found-at analyze_tls h k = unfold segments split in refl
  found-at (get_credential id) h k =
      ap (λ t. found get (segments (codes "/edge/dns/credentials/" ++ t))) (append-nil id)
      ∙ found_last (codes "/edge/dns/credentials/") (below (codes "dns") (codes "credentials")) get
          (get_credential id) id (λ s. unfold segments split in refl) h.0 refl
  found-at (update_credential id) h k =
      ap (λ t. found put (segments (codes "/edge/dns/credentials/" ++ t))) (append-nil id)
      ∙ found_last (codes "/edge/dns/credentials/") (below (codes "dns") (codes "credentials")) put
          (update_credential id) id (λ s. unfold segments split in refl) h.0 refl
  found-at (delete_credential id) h k =
      ap (λ t. found delete (segments (codes "/edge/dns/credentials/" ++ t))) (append-nil id)
      ∙ found_last (codes "/edge/dns/credentials/") (below (codes "dns") (codes "credentials"))
          delete (delete_credential id) id (λ s. unfold segments split in refl) h.0 refl
  found-at (verify_credential id) h k =
      found_next (codes "/edge/dns/credentials/") (below (codes "dns") (codes "credentials")) post
        (verify_credential id) id (codes "verify") (λ s. unfold segments split in refl) h.0
        (unfold segments split in refl)
  found-at (get_balances id) h k =
      found_next (codes "/edge/dns/credentials/") (below (codes "dns") (codes "credentials")) get
        (get_balances id) id (codes "balances") (λ s. unfold segments split in refl) h.0
        (unfold segments split in refl)
  found-at (list_domains id) h k =
      found_next (codes "/edge/dns/credentials/") (below (codes "dns") (codes "credentials")) get
        (list_domains id) id (codes "domains") (λ s. unfold segments split in refl) h.0
        (unfold segments split in refl)
  found-at (list_ssl id) h k =
      found_next (codes "/edge/dns/credentials/") (below (codes "dns") (codes "credentials")) get
        (list_ssl id) id (codes "ssl") (λ s. unfold segments split in refl) h.0
        (unfold segments split in refl)
  found-at (add_host id) h k =
      found_next (codes "/edge/dns/credentials/") (below (codes "dns") (codes "credentials")) post
        (add_host id) id (codes "hosts") (λ s. unfold segments split in refl) h.0
        (unfold segments split in refl)
  found-at (update_host id) h k =
      found_next (codes "/edge/dns/credentials/") (below (codes "dns") (codes "credentials")) patch
        (update_host id) id (codes "hosts") (λ s. unfold segments split in refl) h.0
        (unfold segments split in refl)
  found-at (delete_host id) h k =
      found_next (codes "/edge/dns/credentials/") (below (codes "dns") (codes "credentials")) delete
        (delete_host id) id (codes "hosts") (λ s. unfold segments split in refl) h.0
        (unfold segments split in refl)
  found-at (bulk_hosts id) h k =
      found_next (codes "/edge/dns/credentials/") (below (codes "dns") (codes "credentials")) post
        (bulk_hosts id) id (codes "hosts/bulk") (λ s. unfold segments split in refl) h.0
        (unfold segments split in refl)
  found-at (preview_hosts id) h k =
      found_next (codes "/edge/dns/credentials/") (below (codes "dns") (codes "credentials")) post
        (preview_hosts id) id (codes "hosts/bulk/preview") (λ s. unfold segments split in refl) h.0
        (unfold segments split in refl)
  found-at (get_domain id domain) h k =
      found_next (codes "/edge/dns/credentials/") (below (codes "dns") (codes "credentials")) get
        (get_domain id domain) id (codes "domains/" ++ encode domain)
        (λ s. unfold segments split in refl) h.0
        (ap (λ ts. found get (below (codes "dns") (codes "credentials") (id ∷ ts)))
            (behind_domains (encode domain)
              ∙ ap (λ ts. codes "domains" ∷ ts) (last_place (encode domain) h.1.0))
          ∙ ap (λ d. some (get_domain id d)) k)
  found-at (get_certificate place) h k =
      found_last (codes "/edge/tls/detail-by-id/") (below (codes "tls") (codes "detail-by-id")) get
        (get_certificate place) place (λ s. unfold segments split in refl) h.0 refl
  found-at (dns_errors place) h k =
      found_last (codes "/edge/dns/locales/") (below (codes "dns") (codes "locales")) get
        (dns_errors place) place (λ s. unfold segments split in refl) h.0 refl
  found-at (dns_messages place) h k =
      found_last (codes "/edge/dns/messages/") (below (codes "dns") (codes "messages")) get
        (dns_messages place) place (λ s. unfold segments split in refl) h.0 refl
  found-at (tls_errors place) h k =
      found_last (codes "/edge/tls/locales/") (below (codes "tls") (codes "locales")) get
        (tls_errors place) place (λ s. unfold segments split in refl) h.0 refl
  found-at (tls_messages place) h k =
      found_last (codes "/edge/tls/messages/") (below (codes "tls") (codes "messages")) get
        (tls_messages place) place (λ s. unfold segments split in refl) h.0 refl
  found-at (file_errors place) h k =
      found_last (codes "/edge/file/locales/") (below (codes "file") (codes "locales")) get
        (file_errors place) place (λ s. unfold segments split in refl) h.0 refl
  found-at (file_messages place) h k =
      found_last (codes "/edge/file/messages/") (below (codes "file") (codes "messages")) get
        (file_messages place) place (λ s. unfold segments split in refl) h.0 refl
  found-at (analysis_errors place) h k =
      found_last (codes "/edge/analysis/locales/") (below (codes "analysis") (codes "locales")) get
        (analysis_errors place) place (λ s. unfold segments split in refl) h.0 refl
  found-at (analysis_messages place) h k =
      found_last (codes "/edge/analysis/messages/") (below (codes "analysis") (codes "messages"))
        get (analysis_messages place) place (λ s. unfold segments split in refl) h.0 refl

  -- If nfx-ui puts the base of a module before its paths, the server's routes find every call again
  -- from its method and path, provided that each text in a place of the path is not empty and has no
  -- slash, and that a domain is read back as it was encoded. So no two calls are taken for each other.
  pub dispatch-path_of :
      (under : Text → Text → Text) (call : Call)
      → ((base path : Text) → under base path ≡ base ++ path)
      → All IsPlace (places encode call)
      → ReadsBack encode decode call
      → dispatch (server_routes decode) (method_of call) (segments (path_of under encode call))
        ≡ some call
  unfolding path_of
  dispatch-path_of under call joins h k =
      ap (λ path. dispatch (server_routes decode) (method_of call) (segments path))
        (joins (place_of encode call).0 (place_of encode call).1)
      ∙ (unfold found at in found-at call h k)
