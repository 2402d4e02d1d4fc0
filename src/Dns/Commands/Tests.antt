-- ===== src/Dns/Commands/Tests.antt =====
-- A Namecheap command whose server refuses, and the theorem on commands there.
use nfx_edge.Common.{◌≡◌, refl, codes, false, not, ◌&&◌, some, []}
use nfx_edge.Modal.Types.{error, initial_state}
use nfx_edge.Query.{dns_domain, Key}
use nfx_edge.Certs.{Env, thrown}
use nfx_edge.Dns.Commands.{add_host, answered, CommandResult, World, settle}
use nfx_edge.Dns.Commands.Outcome.{is_answered, is_preview, told, Stales, Shows, settle_lem}

abbrev env : Env
env = record {
  translate = λ key. key;
  translate_for = λ key domain. key;
  messages_ns = codes "messages";
  errors_ns = codes "errors";
  bundle = λ ns key. [];
  server = λ calls. thrown [];
}

abbrev w0 : World
w0 = record { modal = initial_state; events = [] }

abbrev domain_key : Key
domain_key = record { family = dns_domain; item = codes "1:a.example" }

abbrev refused_result : CommandResult
refused_result = record { success = false; message = codes "NO" }

refused_host : (settle env add_host (answered refused_result) w0).modal.modal_type ≡ some error
unfolding settle
refused_host = refl

settle_lem_example :
    Stales
      (is_answered {method = add_host} (answered refused_result) && not (is_preview add_host))
      domain_key
      w0.events
      (settle env add_host (answered refused_result) w0).events
    × Shows
        (told env add_host (answered refused_result))
        w0.modal
        (settle env add_host (answered refused_result) w0).modal
settle_lem_example = settle_lem env add_host (answered refused_result) w0 domain_key
