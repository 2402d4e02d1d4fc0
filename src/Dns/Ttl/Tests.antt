-- ===== src/Dns/Ttl/Tests.antt =====
-- Runs of the TTL dropdown, and its theorem at a value of its own.
use nfx_edge.Common.{
  ◌≡◌, refl, Text, codes, true, none, some, text_eq, trim, is_digit, all_digits, contains,
}
use nfx_edge.Dns.Ttl.{dropdown_options, dropdown_selected, format_ttl}
use nfx_edge.Dns.Ttl.Choice.{offers, shown_label, dropdown_lem}

ttl_open : Unit {0}
unfolding dropdown_options dropdown_selected format_ttl trim is_digit text_eq contains all_digits
ttl_open = tt

abbrev automatic : Text
automatic = codes "Automatic"

own_value : dropdown_selected (codes " 45 ") none ≡ codes "45"
unfolding ttl_open
own_value = refl

own_label : format_ttl (some (codes "45")) automatic ≡ codes "45 s"
unfolding ttl_open
own_label = refl

near_automatic : format_ttl (some (codes "1799")) automatic ≡ automatic
unfolding ttl_open
near_automatic = refl

dropdown_lem_example :
    offers
      (dropdown_options (codes "45") automatic (some (codes "all")) (some (codes "Any")))
      (dropdown_selected (codes "45") (some (codes "all")))
      (shown_label (codes "45") automatic (some (codes "all")) (some (codes "Any")))
    ≡ true
dropdown_lem_example =
    dropdown_lem (codes "45") automatic (some (codes "all")) (some (codes "Any")) (λ h. refl)
