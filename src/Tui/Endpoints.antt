-- ===== src/Tui/Endpoints.antt =====
-- The connection plan of internal/tui/update.go: which endpoints it has, each once, and its first one.
use new_era.Prelude.{
  ℕ, zero, suc, ◌+◌, ◌<◌, ◌≡◌, ◌↔◌, ◌⊎◌, inl, inr, refl, ap, sym, ◌∙◌, Bool, true, false, not, ◌&&◌,
  ◌||◌, Bool-cases, Option, none, some, List, [], ◌∷◌, ◌++◌, if◌then◌else◌, ltb, leb, length, arith,
}
use new_era.Prelude.Int.{ℤ, pos, leb_ℤ}
use new_era.Prelude.Keys.{
  Eq, nat_eq, same, same→eq, contains, unseen, Distinct, unseen-Distinct, contains-unseen,
}
use new_era.Prelude.Text.{Text, is_empty, trim_space, text_eq}
use new_era.Tui.Plan.{
  Candidate, Endpoint, int_eq, int_beq_iff, endpoint_eq, indices, candidate_connect_order,
  valid_ports, merge_port_order, port_fallback, endpoints_at, candidate_endpoints, candidate_at,
  plan_loop, build_connect_plan,
}

contains-append :
    {A : Type 0} ⦃e : Eq A⦄ (a : A) (xs ys : List A)
    → contains a (xs ++ ys) ≡ (contains a xs || contains a ys)
unfolding contains
contains-append a [] ys = refl
contains-append a (x ∷ xs) ys = ground (arith, contains-append a xs ys)

contains-indices :
    (i left from : ℕ) → contains i (indices left from) ≡ (leb from i && ltb i (from + left))
unfolding contains indices
contains-indices i zero from = ground arith
contains-indices i (suc left) from = ground (arith, contains-indices i left (from + 1))

-- The order has every index below the total, and no other.
contains-candidate_connect_order :
    (i total preferred : ℕ) → contains i (candidate_connect_order total preferred) ≡ ltb i total
unfolding candidate_connect_order contains
contains-candidate_connect_order i total preferred = ground (
  arith,
  contains-indices i total 0,
  contains-unseen i []
      (if ltb preferred total then preferred ∷ indices total 0 else indices total 0),
)

contains-valid_ports :
    (port : ℤ) (ports : List ℤ)
    → contains port (valid_ports ports) ≡ (not (leb_ℤ port (pos 0)) && contains port ports)
unfolding contains valid_ports
contains-valid_ports port [] = ground arith
contains-valid_ports port (p ∷ ports) =
    ground (arith, contains-valid_ports port ports, int_beq_iff port p)

contains-merge_port_order :
    (port : ℤ) (primary fallback : List ℤ)
    → contains port (merge_port_order primary fallback)
      ≡ (not (leb_ℤ port (pos 0)) && contains port (primary ++ fallback))
unfolding merge_port_order contains
contains-merge_port_order port primary fallback =
    contains-unseen port [] (valid_ports (primary ++ fallback))
    ∙ contains-valid_ports port (primary ++ fallback)

contains-endpoints_at :
    (e : Endpoint) (host : Text) (ports : List ℤ)
    → contains e (endpoints_at host ports) ≡ (
        same e.host host
        && not (is_empty (trim_space host))
        && not (leb_ℤ e.port (pos 0))
        && contains e.port ports)
unfolding contains endpoints_at
contains-endpoints_at e host [] = ground arith
contains-endpoints_at e host (p ∷ ports) =
    ground (arith, contains-endpoints_at e host ports, int_beq_iff e.port p)

-- The endpoints that a candidate offers.
unfoldable pub offers : List ℤ → Candidate → Endpoint → Bool
offers scan_ports c e =
    same e.host c.host
    && not (is_empty (trim_space c.host))
    && not (leb_ℤ e.port (pos 0))
    && contains e.port ((c.port ∷ scan_ports) ++ port_fallback)

contains-candidate_endpoints :
    (scan_ports : List ℤ) (c : Candidate) (e : Endpoint)
    → contains e (candidate_endpoints scan_ports c) ≡ offers scan_ports c e
unfolding offers
contains-candidate_endpoints scan_ports c e = ground (
  arith,
  contains-endpoints_at e c.host (merge_port_order (c.port ∷ scan_ports) port_fallback),
  contains-merge_port_order e.port (c.port ∷ scan_ports) port_fallback,
)

-- A candidate that the list has at an index.
abbrev At : List Candidate → ℕ → Candidate → Type 0
At candidates i c = candidate_at candidates i ≡ some c

index_below : (cs : List Candidate) (i : ℕ) (c : Candidate) → At cs i c → i < length cs
index_below [] i c h = absurd (cc)
index_below (x ∷ cs) zero c h = ground arith
index_below (x ∷ cs) (suc i) c h = let l = index_below cs i c h in ground arith

-- One round of the loop.
abbrev round : List ℤ → Option Candidate → List Endpoint → List Endpoint
round scan_ports o rest = elim o [
  | none ↦ rest
  | some candidate ↦ candidate_endpoints scan_ports candidate ++ rest
]

in_round :
    (scan_ports : List ℤ) (e : Endpoint) (o : Option Candidate) (c : Candidate)
    (rest : List Endpoint)
    → o ≡ some c
    → (offers scan_ports c e || contains e rest) ≡ true
    → contains e (round scan_ports o rest) ≡ true
in_round scan_ports e none c rest h k = absurd (cc)
in_round scan_ports e (some d) c rest h k =
    let same_one : d ≡ c = ap (λ (x : Option Candidate). elim x [ none ↦ d | some y ↦ y ]) h in
    ground (
      arith,
      contains-append e (candidate_endpoints scan_ports d) rest,
      contains-candidate_endpoints scan_ports d e,
      ap (λ (x : Candidate). offers scan_ports x e) same_one,
    )

keeps_rest :
    (scan_ports : List ℤ) (e : Endpoint) (o : Option Candidate) (rest : List Endpoint)
    → contains e rest ≡ true
    → contains e (round scan_ports o rest) ≡ true
keeps_rest scan_ports e none rest h = h
keeps_rest scan_ports e (some d) rest h =
    ground (arith, contains-append e (candidate_endpoints scan_ports d) rest)

in_loop :
    (scan_ports : List ℤ) (cs : List Candidate) (order : List ℕ) (e : Endpoint) (i : ℕ)
    (c : Candidate)
    → contains i order ≡ true
    → At cs i c
    → offers scan_ports c e ≡ true
    → contains e (plan_loop scan_ports cs order) ≡ true
unfolding plan_loop contains
in_loop scan_ports cs [] e i c h a o = absurd (ground arith)
in_loop scan_ports cs (idx ∷ order) e i c h a o = elim (Bool-cases (same i idx)) [
  | inl here ↦
      (let p : candidate_at cs idx ≡ some c = ap (candidate_at cs) (sym (same→eq i idx here)) ∙ a in
        in_round scan_ports e (candidate_at cs idx) c (plan_loop scan_ports cs order) p
          (ground arith))
  | inr other ↦
      keeps_rest scan_ports e (candidate_at cs idx) (plan_loop scan_ports cs order)
        (in_loop scan_ports cs order e i c (ground arith) a o)
]

-- Some candidate of the list offers the endpoint.
abbrev pub IsOffered : List ℤ → List Candidate → Endpoint → Type 0
IsOffered scan_ports cs e =
    (i : ℕ) × (c : Candidate) × (candidate_at cs i ≡ some c) × (offers scan_ports c e ≡ true)

out_of_round :
    (scan_ports : List ℤ) (cs : List Candidate) (e : Endpoint) (i : ℕ) (o : Option Candidate)
    (rest : List Endpoint)
    → candidate_at cs i ≡ o
    → contains e (round scan_ports o rest) ≡ true
    → IsOffered scan_ports cs e ⊎ (contains e rest ≡ true)
out_of_round scan_ports cs e i none rest a h = inr h
out_of_round scan_ports cs e i (some c) rest a h = elim (Bool-cases (offers scan_ports c e)) [
  | inl offered ↦ inl (i, c, a, offered)
  | inr not_offered ↦ inr (
      ground (
        arith,
        contains-append e (candidate_endpoints scan_ports c) rest,
        contains-candidate_endpoints scan_ports c e,
      ))
]

out_of_loop :
    (scan_ports : List ℤ) (cs : List Candidate) (order : List ℕ) (e : Endpoint)
    → contains e (plan_loop scan_ports cs order) ≡ true
    → IsOffered scan_ports cs e
unfolding plan_loop contains
out_of_loop scan_ports cs [] e h = absurd (ground arith)
out_of_loop scan_ports cs (idx ∷ order) e h =
    elim (out_of_round scan_ports cs e idx (candidate_at cs idx) (plan_loop scan_ports cs order)
      refl h) [ inl offered ↦ offered | inr later ↦ out_of_loop scan_ports cs order e later ]

-- The plan has exactly the endpoints of the candidates with a host that is not blank, at a positive
-- port that is the candidate's own, one of the scan or one of the fallback ports; each of them once.
pub build_connect_plan_lem :
    (candidates : List Candidate) (preferred : ℕ) (scan_ports : List ℤ)
    → Distinct (build_connect_plan candidates preferred scan_ports)
      × ((e : Endpoint)
          → (contains e (build_connect_plan candidates preferred scan_ports) ≡ true)
            ↔ IsOffered scan_ports candidates e)
unfolding build_connect_plan contains
build_connect_plan_lem candidates preferred scan_ports =
    let order = candidate_connect_order (length candidates) preferred in
    let plan = plan_loop scan_ports candidates order in
    (
      unseen-Distinct [] plan,
      λ e. (
        λ h. out_of_loop scan_ports candidates order e (ground (arith, contains-unseen e [] plan)),
        λ (i, c, a, o). ground (
          arith,
          contains-unseen e [] plan,
          in_loop scan_ports candidates order e i c
              (contains-candidate_connect_order i (length candidates) preferred
                ∙ (ground (arith, index_below candidates i c a)))
              a o,
        ),
      ),
    )

order_first :
    (i total : ℕ) → i < total → (rest : List ℕ) × (candidate_connect_order total i ≡ i ∷ rest)
unfolding candidate_connect_order unseen contains
order_first i total h =
    let below : ltb i total ≡ true = ground arith in
    let all = indices total 0 in (_, λ k. unseen [] (if below k then i ∷ all else all))

ports_first :
    (port : ℤ) (ports fallback : List ℤ)
    → leb_ℤ port (pos 0) ≡ false
    → (rest : List ℤ) × (merge_port_order (port ∷ ports) fallback ≡ port ∷ rest)
unfolding merge_port_order valid_ports unseen contains
ports_first port ports fallback h =
    let others = valid_ports (ports ++ fallback) in
    (_, λ k. unseen [] (if h k then others else port ∷ others))

endpoints_first :
    (host : Text) (port : ℤ) (ports : List ℤ)
    → is_empty (trim_space host) ≡ false
    → leb_ℤ port (pos 0) ≡ false
    → endpoints_at host (port ∷ ports)
      ≡ record { host = host; port = port } ∷ endpoints_at host ports
unfolding endpoints_at
endpoints_first host port ports b p =
    let first : Endpoint = record { host = host; port = port } in
    let skipped : (is_empty (trim_space host) || leb_ℤ port (pos 0)) ≡ false =
      ground (arith, b, p) in
    let rest = endpoints_at host ports in
    ap (λ (x : Bool). if x then rest else first ∷ rest) skipped

-- If the preferred index has a candidate whose host is not blank and whose port is positive, the
-- plan begins with that host and port.
build_connect_plan_first :
    (candidates : List Candidate) (preferred : ℕ) (scan_ports : List ℤ) (c : Candidate)
    → candidate_at candidates preferred ≡ some c
    → is_empty (trim_space c.host) ≡ false
    → leb_ℤ c.port (pos 0) ≡ false
    → (rest : List Endpoint) × (build_connect_plan candidates preferred scan_ports
        ≡ record { host = c.host; port = c.port } ∷ rest)
unfolding build_connect_plan plan_loop unseen contains
build_connect_plan_first candidates preferred scan_ports c a b p =
    let (order, first) =
      order_first preferred (length candidates) (index_below candidates preferred c a) in
    let (ports, port) = ports_first c.port scan_ports port_fallback p in
    let later = plan_loop scan_ports candidates order in
    (
      _,
      (λ k. unseen [] (plan_loop scan_ports candidates (first k)))
          ∙ (λ k. unseen [] (round scan_ports (a k) later))
          ∙ (λ k. unseen [] (endpoints_at c.host (port k) ++ later))
          ∙ (λ k. unseen [] (endpoints_first c.host c.port ports b p k ++ later)),
    )
