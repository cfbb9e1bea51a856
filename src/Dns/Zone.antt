-- ===== src/Dns/Zone.antt =====
-- The name servers of a delegated zone: infoblox-sort.go, and the pure methods of
-- controllers/providers/dns/infoblox.go and infoblox-ibclient.go.
pub mod Converge
use k8gb.Prelude.{String, Bool, true, false, not, ◌&&◌, List, [], ◌∷◌, ◌++◌, ◌==◌, filter}
use k8gb.Prelude.Sort.{sort}
use k8gb.Prelude.Text.{ltb_text}

-- infobloxopen's name server.
pub record NameServer : Type 0 where
  pub address : String
  pub name : String

-- `Less` of `byAddress`.
unfoldable pub by_address : NameServer → NameServer → Bool
by_address a b = ltb_text a.address b.address

unfoldable pub sort_zones : List NameServer → List NameServer
unfolding by_address
sort_zones = sort by_address

unfoldable pub filter_out_delegate_to : List NameServer → String → List NameServer
filter_out_delegate_to delegate_to fqdn = filter (λ v. not (v.name == fqdn)) delegate_to

-- `own` is the name of this cluster's name server.
unfoldable pub sanitize_delegate_zone : String → List NameServer → List NameServer → List NameServer
unfolding sort_zones filter_out_delegate_to
sanitize_delegate_zone own local upstream =
    sort_zones (local ++ filter_out_delegate_to upstream own)

-- `reflect.DeepEqual` on the two lists.
unfoldable pub same_servers : List NameServer → List NameServer → Bool
same_servers [] [] = true
same_servers [] (b ∷ bs) = false
same_servers (a ∷ as') [] = false
same_servers (a ∷ as') (b ∷ bs) = a.address == b.address && a.name == b.name && same_servers as' bs
