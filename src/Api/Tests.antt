-- ===== src/Api/Tests.antt =====
-- The routes at one call.
use nfx_edge.Common.{◌≡◌, refl, Text, codes, some, ◌++◌}
use nfx_edge.Files.{segments}
use nfx_edge.Api.{get_domain, method_of, path_of, place_of}
use nfx_edge.Api.Routes.{dispatch, server_routes}
use nfx_edge.Api.Dispatch.{IsPlace, places, dispatch-path_of}

abbrev join : Text → Text → Text
join base path = base ++ path

abbrev same : Text → Text
same t = t

one_path :
    path_of join same (get_domain (codes "7") (codes "x.io"))
    ≡ codes "/edge/dns/credentials/7/domains/x.io"
unfolding path_of place_of
one_path = refl

dispatch-path_of_example :
    dispatch
      (server_routes same)
      (method_of (get_domain (codes "7") (codes "x.io")))
      (segments (path_of join same (get_domain (codes "7") (codes "x.io"))))
    ≡ some (get_domain (codes "7") (codes "x.io"))
dispatch-path_of_example =
    dispatch-path_of same same join (get_domain (codes "7") (codes "x.io")) (λ base path. refl)
      (unfold places IsPlace in
        ((refl, (refl, tt)), ((refl, (refl, (refl, (refl, (refl, tt))))), tt)))
      refl
