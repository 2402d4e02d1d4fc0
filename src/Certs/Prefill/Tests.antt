-- ===== src/Certs/Prefill/Tests.antt =====
-- Runs of the form for a new certificate.
use nfx_edge.Common.{
  ◌≡◌, refl, Text, codes, Bool, true, false, some, List, [], ◌∷◌, trim, split, lower, is_alnum,
}
use nfx_edge.Certs.Submit.{Values}
use nfx_edge.Certs.Prefill.{
  build_cert_add_path, folder_name_from_domain, default_values, login_email,
}
use nfx_edge.Certs.Prefill.Sample.{to_text, search_params, reads}
use nfx_edge.Certs.Prefill.Path.{IsName, default_values_lem}

abbrev names : List Text
names = codes "a.x.io" ∷ codes "b.x.io" ∷ []

abbrev accounts : List (Text × Bool)
accounts = (codes "a@x.io", false) ∷ (codes "b@x.io", true) ∷ []

abbrev opened : Values
opened =
    default_values
      (search_params (build_cert_add_path to_text (codes "x.io") names (some (codes "7")))) accounts

opened_email : opened.email ≡ some (codes "b@x.io")
unfolding default_values login_email
opened_email = refl

wildcard_folder : folder_name_from_domain (codes " My-Site.example.com. ") ≡ codes "my-site"
unfolding folder_name_from_domain trim lower split is_alnum
wildcard_folder = refl

default_values_lem_example :
    (opened.domain ≡ codes "x.io")
    × (opened.sans ≡ some names)
    × (opened.folder_name ≡ some (folder_name_from_domain (codes "x.io")))
default_values_lem_example =
    default_values_lem to_text search_params (codes "x.io") names (some (codes "7")) accounts reads
      (unfold trim in refl)
      (unfold IsName trim in
        (
          (refl, refl, (refl, (refl, (refl, (refl, (refl, (refl, tt))))))),
          ((refl, refl, (refl, (refl, (refl, (refl, (refl, (refl, tt))))))), tt),
        ))
