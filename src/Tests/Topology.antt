-- ===== src/Tests/Topology.antt =====
-- Links between three devices: go/nl6/topology.go.
use nl.Prelude.{ℕ, ◌≡◌, refl, ◌↔◌, Option, some, List, [], ◌∷◌, inl}
use nl.Prelude.Bytes.{Bytes, bytes_eq}
use nl.Topology.{
  LinkEndpoint, TopoLink, LocalLink, new_topology, add_links, norm_links, norm_link, norm_endpoint,
  same_endpoint, admit_links, validate_against_links, index_links, index_link, append_local,
  remove_link, without_link, joins, rebuild_adj,
}
use nl.Topology.Links.{Proper}
use nl.Topology.Index.{In, Seen, link_between}
use nl.Topology.Calls.{
  Call, adding, removing, calls, Batch, new_topology-Proper, new_topology_symmetric,
  add_links-Batch,
}

-- Every text is an address in canonical form.
abbrev canonical : Bytes → Option Bytes
canonical ip = some ip

abbrev port : ℕ → ℕ → LinkEndpoint
port device i = record { ip = device ∷ []; if_index = i }

abbrev joined_ports : List TopoLink
joined_ports =
    record { a = port 65 1; b = port 66 2 } ∷ record { a = port 66 3; b = port 67 4 } ∷ []

abbrev run : List Call
run = adding joined_ports ∷ removing (port 67 4) (port 66 3) ∷ []

new_topology-Proper_example :
    Proper (calls canonical new_topology run).links
    × ((ip : Bytes) (e : LocalLink)
        → In e ((calls canonical new_topology run).adj ip)
          ↔ Seen (calls canonical new_topology run).links ip e)
new_topology-Proper_example = new_topology-Proper canonical run

is_linked : In (link_between 1 (66 ∷ []) 2) ((calls canonical new_topology run).adj (65 ∷ []))
unfolding add_links norm_links norm_link norm_endpoint same_endpoint admit_links
    validate_against_links index_links index_link append_local remove_link without_link joins
    rebuild_adj bytes_eq
is_linked = inl refl

new_topology_symmetric_example :
    In (link_between 2 (65 ∷ []) 1) ((calls canonical new_topology run).adj (66 ∷ []))
    × ((q' : Bytes) (j' : ℕ)
        → In (link_between 1 q' j') ((calls canonical new_topology run).adj (65 ∷ []))
        → link_between 1 (66 ∷ []) 2 ≡ link_between 1 q' j')
new_topology_symmetric_example =
    new_topology_symmetric canonical run (65 ∷ []) 1 (66 ∷ []) 2 is_linked

add_links-Batch_example :
    Batch canonical new_topology joined_ports (add_links canonical new_topology joined_ports)
add_links-Batch_example = add_links-Batch canonical new_topology joined_ports
