-- ===== src/Dns/Detail/Tests.antt =====
-- Runs of the page of a domain's records.
use nfx_edge.Common.{
  ◌≡◌, refl, Text, codes, not, ◌&&◌, none, some, List, [], ◌∷◌, map, ◌++◌, text_eq, lower, contains,
  truthy, trim,
}
use nfx_edge.Dns.Hosts.{host_to_fqdn}
use nfx_edge.Dns.Hosts.Unique.{Distinct, clean}
use nfx_edge.Dns.Detail.{
  Host, Page, first_page, selected_hosts, apply_host, fqdns, go_apply, Act, clicked, act_all,
}
use nfx_edge.Dns.Detail.Anchor.{IsAnchored, act_all-IsAnchored}
use nfx_edge.Certs.Prefill.{build_cert_add_path, default_values}
use nfx_edge.Certs.Prefill.Sample.{to_text, search_params, reads}
use nfx_edge.Dns.Detail.Opened.{go_apply-default_values}
use nfx_edge.Dns.Detail.Apply.{go_apply_lem}

abbrev www : Host
www = record {
  host_id = some (codes "7");
  name = codes "www";
  host_type = codes "A";
  address = codes "1.2.3.4";
  mx_pref = none;
  ttl = none;
}

abbrev mail : Host
mail = record www { host_id = none; name = codes "Mail" }

abbrev hosts : List Host
hosts = www ∷ mail ∷ []

abbrev two_clicks : List Act
two_clicks = clicked (codes "7") ∷ clicked (codes "Mail|A|1.2.3.4") ∷ []

abbrev both : Page
both = act_all two_clicks first_page

both_apply : go_apply (codes "x.io") hosts both ≡ some (codes "mail.x.io", codes "www.x.io" ∷ [])
unfolding go_apply act_all
both_apply = refl

dropped_anchor :
    (act_all (two_clicks ++ clicked (codes "Mail|A|1.2.3.4") ∷ []) first_page).apply_key
    ≡ some (codes "7")
unfolding act_all
dropped_anchor = refl

act_all-IsAnchored_example : IsAnchored (act_all two_clicks first_page)
act_all-IsAnchored_example = act_all-IsAnchored two_clicks

go_apply_lem_example :
    (sans : List Text) × (go_apply (codes "x.io") hosts both
      ≡ some (host_to_fqdn mail.name (codes "x.io"), sans))
    × Distinct sans
    × ((t : Text)
        → contains sans t ≡ (
            not (text_eq t (lower (host_to_fqdn mail.name (codes "x.io"))))
            && (truthy t
                && contains (map clean (fqdns (codes "x.io") (selected_hosts hosts both))) t)))
go_apply_lem_example =
    go_apply_lem (codes "x.io") hosts both mail (unfold apply_host act_all in refl)
      (unfold host_to_fqdn in refl)

go_apply-default_values_example :
    (sans : List Text) × (go_apply (codes "x.io") hosts both
      ≡ some (host_to_fqdn mail.name (codes "x.io"), sans))
    × ((default_values
          (search_params
            (build_cert_add_path to_text (host_to_fqdn mail.name (codes "x.io")) sans none))
          []).domain
        ≡ host_to_fqdn mail.name (codes "x.io"))
    × ((default_values
          (search_params
            (build_cert_add_path to_text (host_to_fqdn mail.name (codes "x.io")) sans none))
          []).sans
        ≡ some sans)
go_apply-default_values_example =
    go_apply-default_values to_text search_params (codes "x.io") hosts both mail none [] reads
      (unfold apply_host act_all in refl) (unfold host_to_fqdn in refl)
      (unfold host_to_fqdn trim in refl)
      (unfold fqdns selected_hosts act_all in
        (
          (refl, (refl, (refl, (refl, (refl, (refl, (refl, (refl, tt)))))))),
          ((refl, (refl, (refl, (refl, (refl, (refl, (refl, (refl, (refl, tt))))))))), tt),
        ))
