-- ===== src/Sidebar/Tests.antt =====
-- Runs of the sidebar on paths of its own.
use nfx_edge.Common.{◌≡◌, refl, codes, true, false, ◌&&◌, [], ◌∷◌, text_eq, starts_with, split}
use nfx_edge.Files.{segments}
use nfx_edge.Sidebar.{
  bulk, lights, page_path, replace, credential_id_from_path, is_cert_add_active,
  is_cert_list_active,
}
use nfx_edge.Sidebar.Lit.{IsId, lit, lights_lem}
use nfx_edge.Sidebar.Single.{IsSingle, lights-IsSingle}

seven_bulk : page_path [] (codes "7") bulk ≡ codes "/namecheap/7/domains/bulk"
unfolding page_path replace starts_with
seven_bulk = refl

new_page : credential_id_from_path (codes "/namecheap/new") ≡ []
unfolding credential_id_from_path segments split text_eq
new_page = refl

lights_lem_example : lights true (codes "9" ∷ []) (page_path [] (codes "7") bulk) ≡ lit bulk
lights_lem_example =
    lights_lem true (codes "9" ∷ []) (codes "7") bulk
      (unfold IsId text_eq in (refl, (refl, tt), refl, refl))

lights-IsSingle_example :
    IsSingle (lights true (codes "9" ∷ []) (codes "/certs/add"))
    × ((is_cert_list_active (codes "/certs/add") && is_cert_add_active (codes "/certs/add"))
        ≡ false)
lights-IsSingle_example = lights-IsSingle true (codes "9" ∷ []) (codes "/certs/add")
