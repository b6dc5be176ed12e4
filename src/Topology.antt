-- ===== src/Topology.antt =====
-- The links between the simulated devices: go/nl6/topology.go. The map of local links is a function
-- that is empty at a missing key; `canonical` is `net.ParseIP(ip).To4().String()`, none where the text is no
-- IPv4 address. The lock makes each method one step. Reading a file is not modelled.
pub mod Links
pub mod Index
pub mod Unique
pub mod Calls
use nl.Prelude.{
  ℕ, ◌+◌, ◌^◌, ◌%◌, Bool, true, false, not, ◌&&◌, ◌||◌, Option, none, some, List, [], ◌∷◌, ◌++◌,
  ltb, ◌==◌, if◌then◌else◌, length, map,
}
use nl.Prelude.Bytes.{Bytes, bytes_eq}

pub record LinkEndpoint : Type 0 where
  pub ip : Bytes
  pub if_index : ℕ

pub record TopoLink : Type 0 where
  pub a : LinkEndpoint
  pub b : LinkEndpoint

pub record LocalLink : Type 0 where
  pub local_if_index : ℕ
  pub peer_ip : Bytes
  pub peer_if_index : ℕ

abbrev pub Adjacency : Type 0
Adjacency = Bytes → List LocalLink

pub record Topology : Type 0 where
  pub links : List TopoLink
  pub adj : Adjacency
  pub gen : ℕ

pub data LinkError : Type 0 where
  invalid_ip : LinkError
  bad_if_index : LinkError
  self_loop : LinkError
  duplicate_link : LinkError
  port_linked : LinkError

-- A value or an error.
pub data Checked {ℓ} (A : Type ℓ) : Type ℓ where
  ok : A → Checked A
  refused : LinkError → Checked A

abbrev pub and_then {ℓ κ} : {A : Type ℓ} {B : Type κ} → Checked A → (A → Checked B) → Checked B
and_then (ok a) f = f a
and_then (refused e) f = refused e

abbrev pub no_links : Adjacency
no_links ip = []

abbrev pub new_topology : Topology
new_topology = record { links = []; adj = no_links; gen = 0 }

-- `t.gen.Add(1)`
abbrev pub bump_gen : ℕ → ℕ
bump_gen gen = (gen + 1) % 2 ^ 64

-- `t.adj[ip] = append(t.adj[ip], l)`
unfoldable pub append_local : Adjacency → Bytes → LocalLink → Adjacency
append_local adj ip l key = if bytes_eq key ip then adj key ++ (l ∷ []) else adj key

-- A link as its first end sees it, and as its second does.
abbrev pub from_a : TopoLink → LocalLink
from_a l = record { local_if_index = l.a.if_index; peer_ip = l.b.ip; peer_if_index = l.b.if_index }

abbrev pub from_b : TopoLink → LocalLink
from_b l = record { local_if_index = l.b.if_index; peer_ip = l.a.ip; peer_if_index = l.a.if_index }

unfoldable pub index_link : Adjacency → TopoLink → Adjacency
index_link adj l = append_local (append_local adj l.a.ip (from_a l)) l.b.ip (from_b l)

unfoldable pub index_links : Adjacency → List TopoLink → Adjacency
index_links adj [] = adj
index_links adj (l ∷ links) = index_links (index_link adj l) links

unfoldable pub rebuild_adj : List TopoLink → Adjacency
rebuild_adj links = index_links no_links links

unfoldable pub same_endpoint : LinkEndpoint → LinkEndpoint → Bool
same_endpoint d e = bytes_eq d.ip e.ip && d.if_index == e.if_index

-- The loop over the links that are there.
unfoldable pub validate_against_links : TopoLink → List TopoLink → Checked TopoLink
validate_against_links nl [] = ok nl
validate_against_links nl (l ∷ links) =
    let rest = validate_against_links nl links in
    if (same_endpoint l.a nl.a && same_endpoint l.b nl.b)
      || (same_endpoint l.a nl.b && same_endpoint l.b nl.a)
    then refused duplicate_link
    else if same_endpoint l.a nl.a || same_endpoint l.b nl.a
    then refused port_linked
    else if same_endpoint l.a nl.b || same_endpoint l.b nl.b
    then refused port_linked
    else rest

-- The links with the pending ones behind them, each checked against all in front of it.
unfoldable pub admit_links : List TopoLink → List TopoLink → Checked (List TopoLink)
admit_links links [] = ok links
admit_links links (nl ∷ pending) =
    let rest = admit_links (links ++ (nl ∷ [])) pending in
    and_then (validate_against_links nl links) (λ l. rest)

abbrev pub batch_added :
    Topology → List TopoLink → Checked (List TopoLink) → Topology × Option LinkError
batch_added t pending (refused e) = (t, some e)
batch_added t pending (ok links) =
    (record { links = links; adj = index_links t.adj pending; gen = bump_gen t.gen }, none)

abbrev pub add_pending : Topology → Checked (List TopoLink) → Topology × Option LinkError
add_pending t (refused e) = (t, some e)
add_pending t (ok pending) = batch_added t pending (admit_links t.links pending)

unfoldable pub joins : LinkEndpoint → LinkEndpoint → TopoLink → Bool
joins d e l =
    (same_endpoint l.a d && same_endpoint l.b e) || (same_endpoint l.a e && same_endpoint l.b d)

abbrev pub behind_first : TopoLink → Option (List TopoLink) → Option (List TopoLink)
behind_first l none = none
behind_first l (some links) = some (l ∷ links)

-- The links without the first that joins the two ends, or none where no link does.
unfoldable pub without_link : LinkEndpoint → LinkEndpoint → List TopoLink → Option (List TopoLink)
without_link d e [] = none
without_link d e (l ∷ links) =
    let rest = behind_first l (without_link d e links) in if joins d e l then some links else rest

abbrev pub removed : Topology → Option (List TopoLink) → Topology × Bool
removed t none = (t, false)
removed t (some links) =
    (record { links = links; adj = rebuild_adj links; gen = bump_gen t.gen }, true)

abbrev pub remove_between : Topology → Checked LinkEndpoint → Checked LinkEndpoint → Topology × Bool
remove_between t (ok d) (ok e) = removed t (without_link d e t.links)
remove_between t (ok d) (refused r) = (t, false)
remove_between t (refused r) e = (t, false)

unfoldable pub links_without : Bytes → List TopoLink → List TopoLink
links_without ip [] = []
links_without ip (l ∷ links) =
    let kept = links_without ip links in
    if bytes_eq l.a.ip ip || bytes_eq l.b.ip ip then kept else l ∷ kept

abbrev pub prune_at : Topology → Option Bytes → Topology
prune_at t none = t
prune_at t (some ip) =
    let kept = links_without ip t.links in
    record { links = kept; adj = rebuild_adj kept; gen = bump_gen t.gen }

abbrev pub local_links :
    (List LocalLink → List LocalLink) → Topology → Option Bytes → List LocalLink
local_links sort t none = []
local_links sort t (some ip) = if length (t.adj ip) == 0 then [] else sort (t.adj ip)

abbrev pub endpoint_at : ℕ → Option Bytes → Checked LinkEndpoint
endpoint_at if_index none = refused invalid_ip
endpoint_at if_index (some ip) =
    if ltb if_index 1 then refused bad_if_index else ok (record { ip = ip; if_index = if_index })

module _ (canonical : Bytes → Option Bytes) where
  unfoldable pub norm_endpoint : LinkEndpoint → Checked LinkEndpoint
  norm_endpoint e = endpoint_at e.if_index (canonical e.ip)

  -- One round of the loop over a batch.
  unfoldable pub norm_link : TopoLink → Checked TopoLink
  norm_link l = and_then (norm_endpoint l.a) (λ a.
      and_then (norm_endpoint l.b)
        (λ b. if same_endpoint a b then refused self_loop else ok (record { a = a; b = b })))

  unfoldable pub norm_links : List TopoLink → Checked (List TopoLink)
  norm_links [] = ok []
  norm_links (l ∷ links) =
      and_then (norm_link l) (λ nl. and_then (norm_links links) (λ pending. ok (nl ∷ pending)))

  unfoldable pub add_links : Topology → List TopoLink → Topology × Option LinkError
  add_links t links = add_pending t (norm_links links)

  unfoldable pub add_link : Topology → LinkEndpoint → LinkEndpoint → Topology × Option LinkError
  add_link t a b = add_links t (record { a = a; b = b } ∷ [])

  unfoldable pub remove_link : Topology → LinkEndpoint → LinkEndpoint → Topology × Bool
  remove_link t a b = remove_between t (norm_endpoint a) (norm_endpoint b)

  unfoldable pub prune_device : Topology → Bytes → Topology
  prune_device t ip = prune_at t (canonical ip)

  -- `sort` is `sort.Slice` by the local ifIndex.
  unfoldable pub links_for : (List LocalLink → List LocalLink) → Topology → Bytes → List LocalLink
  links_for sort t ip = local_links sort t (canonical ip)

unfoldable pub clear : Topology → Topology
clear t = record { links = []; adj = no_links; gen = bump_gen t.gen }
