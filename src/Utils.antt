-- ===== src/Utils.antt =====
-- controllers/internal/utils: the helpers that the operator uses.
pub mod Annotations
pub mod Result
pub mod FakeDns
pub mod Yaml
use k8gb.Prelude.{String, List, [], ◌∷◌, ◌==◌, if◌then◌else◌}
use k8gb.Prelude.Sort.{sort}
use k8gb.Prelude.Text.{ltb_text}
use k8gb.Effect.{errorf, Run, pure, raise, handle}
use k8gb.Cluster.{DnsClient}

module _ {W : Type 0} (dns : DnsClient W) where
  -- `Dig`: the addresses of a name, sorted. The text of the inner error is left out.
  unfoldable pub dig : String → String → Run W (List String)
  dig edge_dns_server fqdn =
      if edge_dns_server == ""
      then raise (errorf "empty edgeDNSServer" [])
      else handle (dns.set_dns edge_dns_server)
          (λ _.
            handle (dns.dig_a edge_dns_server fqdn) (λ ips. pure (sort ltb_text ips))
              (λ _. raise (errorf "dig error: can't dig fqdn(%s) with error(%s)" (fqdn ∷ []))))
          (λ _.
            raise
              (errorf "dig error: can't set query dns (%s) with error(%s)" (edge_dns_server ∷ [])))
