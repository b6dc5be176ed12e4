-- ===== src/Tests/IpAlloc.antt =====
-- Addresses of go/nl6/ipalloc.go at the end of a subnet.
use nl.Prelude.{◌-◌, ◌^◌, [], ◌∷◌}
use nl.Prelude.Go.{Returns}
use nl.IpAlloc.{parse_prefix, next_host}
use nl.IpAlloc.Hosts.{FirstHost, next_host-FirstHost}

-- 10.0.255.254 in a /16: the next is 10.1.0.1.
next_host-FirstHost_example :
    Returns
      (next_host 167837694 (parse_prefix (49 ∷ 54 ∷ [])))
      (FirstHost 167837694 (2 ^ (32 - parse_prefix (49 ∷ 54 ∷ []))))
next_host-FirstHost_example = next_host-FirstHost 167837694 (49 ∷ 54 ∷ [])
