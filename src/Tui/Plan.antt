-- ===== src/Tui/Plan.antt =====
-- The order in which internal/tui/update.go tries the endpoints: preferredCandidateIndex,
-- candidateConnectOrder, mergePortOrder and buildConnectPlan.
use new_era.Prelude.{
  ℕ, zero, suc, ◌+◌, ◌≡◌, ◌↔◌, Bool, true, false, ◌&&◌, ◌||◌, Option, none, some, List, [], ◌∷◌,
  ◌++◌, if◌then◌else◌, ltb, ◌==◌, length, arith,
}
use new_era.Prelude.Int.{ℤ, pos, negsuc, leb_ℤ}
use new_era.Prelude.Keys.{Eq, nat_eq, same, unseen}
use new_era.Prelude.Text.{Text, text_eq, is_empty, trim_space}

-- discovery.Candidate, without the texts that are only shown.
pub record Candidate : Type 0 where
  pub host : Text
  pub port : ℤ
  pub verified : Bool

pub record Endpoint : Type 0 where
  pub host : Text
  pub port : ℤ

abbrev pub int_beq : ℤ → ℤ → Bool
int_beq (pos a) (pos b) = a == b
int_beq (pos a) (negsuc b) = false
int_beq (negsuc a) (pos b) = false
int_beq (negsuc a) (negsuc b) = a == b

pub int_beq_iff : (a b : ℤ) → (int_beq a b ≡ true) ↔ (a ≡ b)
int_beq_iff (pos a) (pos b) = ground arith
int_beq_iff (pos a) (negsuc b) = (λ h. cc, λ h. cc)
int_beq_iff (negsuc a) (pos b) = (λ h. cc, λ h. cc)
int_beq_iff (negsuc a) (negsuc b) = ground arith

instance abbrev pub int_eq : Eq ℤ
int_eq = record { beq = int_beq; beq_iff = int_beq_iff }

-- Endpoints are told apart by their address, that is by host and port.
abbrev pub endpoint_beq : Endpoint → Endpoint → Bool
endpoint_beq a b = same a.host b.host && int_beq a.port b.port

pub endpoint_beq_iff : (a b : Endpoint) → (endpoint_beq a b ≡ true) ↔ (a ≡ b)
endpoint_beq_iff a b = ground (arith, text_eq.beq_iff a.host b.host, int_beq_iff a.port b.port)

instance abbrev pub endpoint_eq : Eq Endpoint
endpoint_eq = record { beq = endpoint_beq; beq_iff = endpoint_beq_iff }

-- The loops that count or find; an index counts from the place of the first candidate.
unfoldable pub find_verified : ℕ → List Candidate → Option ℕ
find_verified i [] = none
find_verified i (candidate ∷ candidates) =
    let rest = find_verified (i + 1) candidates in if candidate.verified then some i else rest

unfoldable pub preferred_verified_candidate_index : List Candidate → Option ℕ
unfolding find_verified
preferred_verified_candidate_index candidates = find_verified 0 candidates

-- `none` is -1.
unfoldable pub preferred_candidate_index : List Candidate → Option ℕ
unfolding preferred_verified_candidate_index
preferred_candidate_index [] = none
preferred_candidate_index (candidate ∷ candidates) =
    elim (preferred_verified_candidate_index (candidate ∷ candidates)) [
      | some idx ↦ some idx
      | none ↦ some 0
    ]

unfoldable pub count_verified_candidates : List Candidate → ℕ
count_verified_candidates [] = 0
count_verified_candidates (candidate ∷ candidates) =
    let rest = count_verified_candidates candidates in if candidate.verified then rest + 1 else rest

-- 0, 1, … below `total`, from `i` on.
unfoldable pub indices : ℕ → ℕ → List ℕ
indices zero i = []
indices (suc left) i = i ∷ indices left (i + 1)

-- appendIndex skips an index out of range and one that it has seen; `preferred` is not negative.
unfoldable pub candidate_connect_order : ℕ → ℕ → List ℕ
unfolding indices
candidate_connect_order total preferred =
    let all = indices total 0 in unseen [] (if ltb preferred total then preferred ∷ all else all)

unfoldable pub valid_ports : List ℤ → List ℤ
valid_ports [] = []
valid_ports (port ∷ ports) =
    let rest = valid_ports ports in if leb_ℤ port (pos 0) then rest else port ∷ rest

unfoldable pub merge_port_order : List ℤ → List ℤ → List ℤ
unfolding valid_ports
merge_port_order primary fallback = unseen [] (valid_ports (primary ++ fallback))

abbrev pub port_fallback : List ℤ
port_fallback = pos 2022 ∷ pos 5000 ∷ pos 27011 ∷ pos 6000 ∷ pos 4001 ∷ pos 10001 ∷ []

-- What addEndpoint is given for one host: nothing, if the host is blank or a port is not positive.
unfoldable pub endpoints_at : Text → List ℤ → List Endpoint
endpoints_at host [] = []
endpoints_at host (port ∷ ports) =
    let rest = endpoints_at host ports in
    if is_empty (trim_space host) || leb_ℤ port (pos 0)
    then rest
    else record { host = host; port = port } ∷ rest

abbrev pub candidate_endpoints : List ℤ → Candidate → List Endpoint
candidate_endpoints scan_ports candidate =
    endpoints_at candidate.host (merge_port_order (candidate.port ∷ scan_ports) port_fallback)

abbrev pub candidate_at : List Candidate → ℕ → Option Candidate
candidate_at [] i = none
candidate_at (c ∷ cs) zero = some c
candidate_at (c ∷ cs) (suc i) = candidate_at cs i

-- The loop over the order. An index is always in range, so that the source's access does not panic.
unfoldable pub plan_loop : List ℤ → List Candidate → List ℕ → List Endpoint
unfolding merge_port_order endpoints_at
plan_loop scan_ports candidates [] = []
plan_loop scan_ports candidates (idx ∷ order) =
    let rest = plan_loop scan_ports candidates order in
    elim (candidate_at candidates idx) [
      | none ↦ rest
      | some candidate ↦ candidate_endpoints scan_ports candidate ++ rest
    ]

-- addEndpoint keeps the first of equal endpoints.
unfoldable pub build_connect_plan : List Candidate → ℕ → List ℤ → List Endpoint
unfolding candidate_connect_order plan_loop
build_connect_plan candidates preferred_index scan_ports =
    unseen [] (
      plan_loop scan_ports candidates (candidate_connect_order (length candidates) preferred_index))
