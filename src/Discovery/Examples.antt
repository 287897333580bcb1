-- ===== src/Discovery/Examples.antt =====
-- The theorems on internal/discovery/scanner.go at concrete inputs.
use new_era.Prelude.{◌+◌, ◌-◌, ◌^◌, ◌≡◌, take, arith}
use new_era.Discovery.{hosts_from_prefix}
use new_era.Discovery.Hosts.{addresses, hosts_from_prefix_lem}

-- 192.168.1.0/24 with room for three hosts.
hosts_from_prefix_lem_example :
    hosts_from_prefix 3232235776 24 3 ≡ take 3 (addresses (2 ^ (32 - 24) - 2) (3232235776 + 1))
hosts_from_prefix_lem_example = hosts_from_prefix_lem 3232235776 24 2 (ground arith) (ground arith)
