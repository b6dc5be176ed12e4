-- ===== src/Topology/Calls.antt =====
-- What holds of a topology after any calls of its methods.
use nl.Prelude.{
  ℕ, ◌≡◌, ◌⊎◌, ◌↔◌, refl, sym, ap, ◌∙◌, subst, inl, inr, Option, none, some, List, [], ◌∷◌, ◌++◌,
  append-nil, append_assoc,
}
use nl.Prelude.Bytes.{Bytes}
use nl.Topology.{
  LinkEndpoint, TopoLink, LocalLink, Topology, LinkError, Checked, ok, refused, new_topology,
  bump_gen, validate_against_links, admit_links, index_links, rebuild_adj, without_link,
  norm_endpoint, norm_links, batch_added, add_pending, add_links, removed, remove_between,
  remove_link, prune_at, prune_device, clear,
}
use nl.Topology.Links.{
  Proper, AllJoinTwo, admit_links-Proper, norm_links-AllJoinTwo, links_without-Proper,
  without_link-Proper, and_then-ok,
}
use nl.Topology.Index.{
  In, Seen, rebuild_adj-In, rebuild_adj_turned, link_between, index_links-append,
}
use nl.Topology.Unique.{Seen-unique}

-- The links are proper, and the map is that of the links.
pub record IsSound (t : Topology) : Type 0 where
  pub proper : Proper t.links
  pub map_of_links : t.adj ≡ rebuild_adj t.links

admit_links-append :
    (links pending result : List TopoLink)
    → admit_links links pending ≡ ok result
    → result ≡ links ++ pending
unfolding admit_links
admit_links-append links [] result h = let e : result ≡ links = cc h in e ∙ sym (append-nil links)
admit_links-append links (nl ∷ pending) result h =
    let (m, v, rest) = and_then-ok (validate_against_links nl links) _ result h in
    admit_links-append (links ++ (nl ∷ [])) pending result rest
    ∙ append_assoc links (nl ∷ []) pending

pub data Call : Type 0 where
  adding : List TopoLink → Call
  removing : LinkEndpoint → LinkEndpoint → Call
  clearing : Call
  pruning : Bytes → Call

module _ (canonical : Bytes → Option Bytes) where
  abbrev pub call : Topology → Call → Topology
  call t (adding links) = (add_links canonical t links).0
  call t (removing a b) = (remove_link canonical t a b).0
  call t clearing = clear t
  call t (pruning ip) = prune_device canonical t ip

  abbrev pub calls : Topology → List Call → Topology
  calls t [] = t
  calls t (c ∷ cs) = calls (call t c) cs

  add_pending-IsSound :
      (t : Topology) (pending : Checked (List TopoLink))
      → ((ls : List TopoLink) → pending ≡ ok ls → AllJoinTwo ls)
      → IsSound t
      → IsSound (add_pending t pending).0
  add_pending-IsSound t (refused e) j s = s
  add_pending-IsSound t (ok pending) j s = admitted (admit_links t.links pending) refl
    where
      admitted :
          (r : Checked (List TopoLink))
          → admit_links t.links pending ≡ r
          → IsSound (batch_added t pending r).0
      admitted (refused e) h = s
      admitted (ok links) h = record {
        proper = admit_links-Proper t.links pending links s.proper (j pending refl) h;
        map_of_links =
            ap (λ m. index_links m pending) s.map_of_links
            ∙ unfold rebuild_adj in
              (index_links-append _ t.links pending)
              ∙ ap rebuild_adj (sym (admit_links-append t.links pending links h));
      }

  removed-IsSound :
      (t : Topology) (rest : Option (List TopoLink))
      → ((ls : List TopoLink) → rest ≡ some ls → Proper ls)
      → IsSound t
      → IsSound (removed t rest).0
  removed-IsSound t none h s = s
  removed-IsSound t (some links) h s = record { proper = h links refl; map_of_links = refl }

  remove_between-IsSound :
      (t : Topology) (a b : Checked LinkEndpoint) → IsSound t → IsSound (remove_between t a b).0
  remove_between-IsSound t (ok d) (ok e) s =
      removed-IsSound t (without_link d e t.links)
        (λ ls h. without_link-Proper d e t.links ls h s.proper) s
  remove_between-IsSound t (ok d) (refused r) s = s
  remove_between-IsSound t (refused r) b s = s

  prune_at-IsSound : (t : Topology) (ip : Option Bytes) → IsSound t → IsSound (prune_at t ip)
  prune_at-IsSound t none s = s
  prune_at-IsSound t (some ip) s = record {
    proper = links_without-Proper ip t.links s.proper;
    map_of_links = refl;
  }

  call-IsSound : (t : Topology) (c : Call) → IsSound t → IsSound (call t c)
  unfolding add_links remove_link prune_device clear rebuild_adj index_links
  call-IsSound t (adding links) s =
      add_pending-IsSound t (norm_links canonical links) (norm_links-AllJoinTwo canonical links) s
  call-IsSound t (removing a b) s =
      remove_between-IsSound t (norm_endpoint canonical a) (norm_endpoint canonical b) s
  call-IsSound t clearing s = record { proper = tt; map_of_links = refl }
  call-IsSound t (pruning ip) s = prune_at-IsSound t (canonical ip) s

  calls-IsSound : (cs : List Call) (t : Topology) → IsSound t → IsSound (calls t cs)
  calls-IsSound [] t s = s
  calls-IsSound (c ∷ cs) t s = calls-IsSound cs (call t c) (call-IsSound t c s)

  new_topology-IsSound : IsSound new_topology
  unfolding rebuild_adj index_links
  new_topology-IsSound = record { proper = tt; map_of_links = refl }

  -- After any calls of AddLinks, RemoveLink, Clear and PruneDevice on a new topology: no link joins a
  -- port with itself, no port is in two links, and the map of local links holds for each device
  -- exactly the links as it sees them.
  pub new_topology-Proper :
      (cs : List Call)
      → Proper (calls new_topology cs).links
        × ((ip : Bytes) (e : LocalLink)
            → In e ((calls new_topology cs).adj ip) ↔ Seen (calls new_topology cs).links ip e)
  new_topology-Proper cs =
      let s = calls-IsSound cs new_topology new_topology-IsSound in
      (
        s.proper,
        λ ip e.
            subst (λ adj. In e (adj ip) ↔ Seen (calls new_topology cs).links ip e)
              (sym s.map_of_links) (rebuild_adj-In (calls new_topology cs).links ip e),
      )

  -- After any such calls a device that has a port linked to a peer's port stands in the peer's local
  -- links under that port, with its own, and a port has one peer at most.
  pub new_topology_symmetric :
      (cs : List Call) (p : Bytes) (i : ℕ) (q : Bytes) (j : ℕ)
      → In (link_between i q j) ((calls new_topology cs).adj p)
      → In (link_between j p i) ((calls new_topology cs).adj q)
        × ((q' : Bytes) (j' : ℕ)
            → In (link_between i q' j') ((calls new_topology cs).adj p)
            → link_between i q j ≡ link_between i q' j')
  new_topology_symmetric cs p i q j h =
      let t = calls new_topology cs in
      let s = calls-IsSound cs new_topology new_topology-IsSound in
      let there = subst (λ adj. In (link_between i q j) (adj p)) s.map_of_links h in
      (
        subst (λ adj. In (link_between j p i) (adj q)) (sym s.map_of_links)
            (rebuild_adj_turned t.links p i q j there),
        λ q' j' k.
            let other = subst (λ adj. In (link_between i q' j') (adj p)) s.map_of_links k in
            Seen-unique t.links p i q q' j j' s.proper
              ((rebuild_adj-In t.links p (link_between i q j)).0 there)
              ((rebuild_adj-In t.links p (link_between i q' j')).0 other),
      )

  -- What a batch of links becomes: nothing, or the ends of all of them in canonical form behind the
  -- links that were there.
  abbrev pub Batch : Topology → List TopoLink → Topology × Option LinkError → Type 0
  Batch t links r =
      ((r.0 ≡ t) × ((e : LinkError) × (r.1 ≡ some e)))
      ⊎ ((pending : List TopoLink) × (norm_links canonical links ≡ ok pending)
          × (r.1 ≡ none)
          × (r.0.links ≡ t.links ++ pending)
          × (r.0.gen ≡ bump_gen t.gen))

  Batch-admitted :
      (t : Topology) (links pending : List TopoLink) (r : Checked (List TopoLink))
      → norm_links canonical links ≡ ok pending
      → admit_links t.links pending ≡ r
      → Batch t links (batch_added t pending r)
  Batch-admitted t links pending (refused e) n h = inl (refl, (e, refl))
  Batch-admitted t links pending (ok all) n h =
      inr (pending, n, refl, admit_links-append t.links pending all h, refl)

  Batch-pending :
      (t : Topology) (links : List TopoLink) (r : Checked (List TopoLink))
      → norm_links canonical links ≡ r
      → Batch t links (add_pending t r)
  Batch-pending t links (refused e) n = inl (refl, (e, refl))
  Batch-pending t links (ok pending) n =
      Batch-admitted t links pending (admit_links t.links pending) n refl

  -- AddLinks is all or nothing: it reports an error and the topology is as it was, or it reports none
  -- the links of the batch, in canonical form and in their order, stand behind those that were there,
  -- and the generation counts one more.
  pub add_links-Batch :
      (t : Topology) (links : List TopoLink) → Batch t links (add_links canonical t links)
  unfolding add_links
  add_links-Batch t links = Batch-pending t links (norm_links canonical links) refl
