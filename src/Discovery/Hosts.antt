-- ===== src/Discovery/Hosts.antt =====
-- The addresses that hostsFromPrefix of internal/discovery/scanner.go lists.
use new_era.Prelude.{
  ℕ, zero, suc, ◌+◌, ◌-◌, ◌%◌, ◌^◌, ◌≤◌, ◌<◌, ◌≡◌, refl, ap, ◌∙◌, Bool, true, false, List, [], ◌∷◌,
  if◌then◌else◌, take, leb, leb→le, arith,
}
use new_era.Prelude.Bits.{holds_below, holds_at}
use new_era.Discovery.{host_loop, hosts_from_prefix}

-- `count` addresses from one on.
pub addresses : ℕ → ℕ → List ℕ
addresses zero ip = []
addresses (suc count) ip = ip ∷ addresses count (ip + 1)

-- The loop lists the addresses to the last one, or as many as there is room for.
host_loop_lem :
    (fuel ip last count room : ℕ)
    → count < fuel
    → last + 1 ≡ ip + count
    → last + 1 < 2 ^ 32
    → host_loop fuel ip last (suc room) ≡ take (suc room) (addresses count ip)
unfolding host_loop addresses
host_loop_lem zero ip last count room f e h = absurd (omega arith)
host_loop_lem (suc fuel) ip last zero room f e h = ground arith
host_loop_lem (suc fuel) ip last (suc count) zero f e h = ground arith
host_loop_lem (suc fuel) ip last (suc count) (suc room) f e h =
    let next : (ip + 1) % 2 ^ 32 ≡ ip + 1 = omega arith in
    let low : leb ip last ≡ true = ground arith in
    let roomy : leb (suc (suc room)) 1 ≡ false = ground arith in
    let fewer : suc (suc room) - 1 ≡ suc room = omega arith in
    ap
      (λ (b : Bool).
        if b
        then (if leb (suc (suc room)) 1
            then ip ∷ []
            else ip ∷ host_loop fuel ((ip + 1) % 2 ^ 32) last (suc (suc room) - 1))
        else [])
      low
    ∙ ap
        (λ (b : Bool).
          if b then ip ∷ [] else ip ∷ host_loop fuel ((ip + 1) % 2 ^ 32) last (suc (suc room) - 1))
        roomy
    ∙ (λ i. ip ∷ host_loop fuel (next i) last (fewer i))
    ∙ ap (λ hosts. ip ∷ hosts)
        (host_loop_lem fuel (ip + 1) last count room (omega arith) (omega arith) h)

four_addresses : (bits : ℕ) → bits ≤ 30 → 4 ≤ 2 ^ (32 - bits)
four_addresses bits high =
    leb→le 4 (2 ^ (32 - bits))
      (holds_at (λ b. leb 4 (2 ^ (32 - b))) 31 (unfold holds_below in refl) bits (omega arith))

-- For a network of at most 30 bits whose addresses end below 2 ^ 32, and a limit of 1 or more,
-- hostsFromPrefix lists in order the addresses between the network's first and last one, cut off at
-- the limit.
pub hosts_from_prefix_lem :
    (net_ip bits room : ℕ)
    → bits ≤ 30
    → net_ip + 2 ^ (32 - bits) ≤ 2 ^ 32
    → hosts_from_prefix net_ip bits (suc room)
      ≡ take (suc room) (addresses (2 ^ (32 - bits) - 2) (net_ip + 1))
unfolding hosts_from_prefix
hosts_from_prefix_lem net_ip bits room high fits =
    let count = 2 ^ (32 - bits) in
    let enough : 4 ≤ count = four_addresses bits high in
    let listed =
      host_loop count ((net_ip + 1) % 2 ^ 32) ((net_ip + (count - 2)) % 2 ^ 32) (suc room) in
    let narrow : leb 31 bits ≡ false = ground arith in
    let many : leb count 2 ≡ false = ground (arith, enough) in
    let first : (net_ip + 1) % 2 ^ 32 ≡ net_ip + 1 = omega (arith, enough) in
    let last : (net_ip + (count - 2)) % 2 ^ 32 ≡ net_ip + (count - 2) = omega (arith, enough) in
    ap (λ (b : Bool). if b then [] else if leb count 2 then [] else listed) narrow
    ∙ ap (λ (b : Bool). if b then [] else listed) many
    ∙ (λ i. host_loop count (first i) (last i) (suc room))
    ∙ host_loop_lem count (net_ip + 1) (net_ip + (count - 2)) (count - 2) room (omega arith)
        (omega arith) (omega arith)
