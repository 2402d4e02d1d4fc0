-- ===== src/Query/Tests.antt =====
-- What is stale after an event, at concrete keys.
use nfx_edge.Common.{◌≡◌, refl, codes, false, some, text_eq}
use nfx_edge.Query.{tls_detail, Key, invalidate_tls, key_eq, is_stale}

abbrev one : Key
one = record { family = tls_detail; item = codes "1" }

abbrev two : Key
two = record { family = tls_detail; item = codes "2" }

query_open : Unit {0}
unfolding is_stale key_eq text_eq
query_open = tt

other_detail : is_stale (invalidate_tls (some one)) two ≡ false
unfolding query_open
other_detail = refl
