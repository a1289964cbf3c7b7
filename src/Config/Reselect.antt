-- ===== src/Config/Reselect.antt =====
-- mstp.c, MSTP_IN_set_cist_port_config and MSTP_IN_set_msti_port_config: on the new selection of roles
-- that they ask for.
use mstpd.Prelude.{
  ℕ, ◌+◌, ◌*◌, ◌%◌, ◌/◌, ◌^◌, ◌≡◌, ◌≢◌, ◌⊎◌, inl, inr, refl, sym, ◌∙◌, Bool, true, false, not, ◌||◌,
  ◌&&◌, Option, none, some, arith, Bool-cases, ◌==◌, if◌then◌else◌,
}
use mstpd.Types.{Port, PerTreePort, PortNode}
use mstpd.EdgeDetection
use mstpd.Config.Bridge.{Call, Outcome, ask_reselect}
use mstpd.Config.Port.{
  CistPortConfig, MstiPortConfig, call_if, cost_of, cost_allowed, priority_allowed,
  port_priority_of, set_port_priority, set_admin_internal_cost, set_msti_port_config,
  set_external_cost, set_admin_p2p, set_admin_edge, set_flags, apply_port_config,
  set_cist_port_config,
}

-- The inputs of the role selection that a configuration writes differ.
abbrev pub Differs : PerTreePort → PerTreePort → Type 0
Differs p q = (q.internal_port_path_cost ≢ p.internal_port_path_cost) ⊎ (q.port_id ≢ p.port_id)

abbrev pub SameWish : PerTreePort → PerTreePort → Type 0
SameWish p q = (q.reselect ≡ p.reselect) × (q.selected ≡ p.selected)

abbrev pub IsAsking : PerTreePort → Type 0
IsAsking q = (q.reselect ≡ true) × (q.selected ≡ false)

-- At an entry of a port that is up a new selection is asked for, and the machines run, exactly if an
-- input differs; at a port that is down never.
pub record Asks (up : Bool) (p : PerTreePort) (o : Outcome PerTreePort) : Type 0 where
  pub asks : up ≡ true → Differs p o.state → IsAsking o.state × (o.call ≡ Call.run)
  pub keeps :
      o.state.internal_port_path_cost ≡ p.internal_port_path_cost
      → o.state.port_id ≡ p.port_id
      → SameWish p o.state × (o.call ≡ Call.nothing)
  pub down : up ≡ false → SameWish p o.state × (o.call ≡ Call.nothing)

-- At a port the entry in the CIST asks exactly if the external path cost differs.
pub record AsksCist (n : PortNode) (o : Outcome PortNode) : Type 0 where
  pub asks :
      o.state.port.external_port_path_cost ≢ n.port.external_port_path_cost
      → IsAsking o.state.cist × (n.port.port_enabled ≡ true → o.call ≡ Call.run)
  pub keeps :
      o.state.port.external_port_path_cost ≡ n.port.external_port_path_cost → o.state.cist ≡ n.cist

set_port_priority-differs :
    (o : Option ℕ) (p : PerTreePort)
    → ((set_port_priority o p).1 ≡ true → (set_port_priority o p).0.port_id ≢ p.port_id)
      × ((set_port_priority o p).1 ≡ false → (set_port_priority o p).0.port_id ≡ p.port_id)
      × ((set_port_priority o p).0.internal_port_path_cost ≡ p.internal_port_path_cost)
      × SameWish p (set_port_priority o p).0
unfolding set_port_priority
set_port_priority-differs none p = (λ e. cc, λ e. refl, refl, (refl, refl))
set_port_priority-differs (some k) p =
    elim (Bool-cases (port_priority_of p.port_id == k * 16 % 256)) [
      | inl e ↦ rw (e, set_port_priority) (λ b. cc, λ b. refl, refl, (refl, refl))
      | inr e ↦
          rw (e, set_port_priority) (λ b c. other k p.port_id e c, λ b. cc, refl, (refl, refl))
    ]
  where
    other :
        (k id : ℕ)
        → (port_priority_of id == k * 16 % 256) ≡ false
        → k * 16 % 256 / 16 % 16 * 2 ^ 12 + id % 2 ^ 12 ≢ id
    other k id e c =
        let same : port_priority_of id ≡ k * 16 % 256 = omega (arith, c) in ground (arith, e, same)

set_admin_internal_cost-differs :
    (o : Option ℕ) (speed : ℕ) (p : PerTreePort)
    → let r = set_admin_internal_cost o speed p in
      (r.1 ≡ true → r.0.internal_port_path_cost ≢ p.internal_port_path_cost)
      × (r.1 ≡ false → r.0.internal_port_path_cost ≡ p.internal_port_path_cost)
      × (r.0.port_id ≡ p.port_id)
      × SameWish p r.0
unfolding set_admin_internal_cost
set_admin_internal_cost-differs none speed p = (λ e. cc, λ e. refl, refl, (refl, refl))
set_admin_internal_cost-differs (some c) speed p =
    (λ e. ground (arith, e), λ e. ground (arith, e), refl, (refl, refl))

-- What the two tests say of the entry that they are computed with.
record Written (p q : PerTreePort) (b : Bool) : Type 0 where
  differs : b ≡ true → Differs p q
  same :
      b ≡ false → (q.internal_port_path_cost ≡ p.internal_port_path_cost) × (q.port_id ≡ p.port_id)
  wish : SameWish p q

written :
    (o c : Option ℕ) (speed : ℕ) (p : PerTreePort)
    → let a = set_port_priority o p in
      let b = set_admin_internal_cost c speed a.0 in Written p b.0 (a.1 || b.1)
written o c speed p =
    let a = set_port_priority o p in
    let b = set_admin_internal_cost c speed a.0 in
    let (x, y, z, w) = set_port_priority-differs o p in
    let (x', y', z', w') = set_admin_internal_cost-differs c speed a.0 in
    record {
      differs = λ e. elim (Bool-cases a.1) [
        | inl f ↦ inr (λ g. x f (sym z' ∙ g))
        | inr f ↦ inl (λ g. x' (ground (arith, e, f)) (g ∙ sym z))
      ];
      same = λ e. (y' (ground (arith, e)) ∙ z, z' ∙ y (ground (arith, e)));
      wish = (w'.0 ∙ w.0, w'.1 ∙ w.1);
    }

asking-Asks :
    (up b : Bool) (p q : PerTreePort)
    → Written p q b
    → Asks up p (record {
      accepted = true;
      state = if b && up then ask_reselect q else q;
      call = call_if (b && up);
    })
asking-Asks true true p q h = record {
  asks = λ u d. ((refl, refl), refl);
  keeps = λ c i. absurd (either (h.differs refl) c i);
  down = λ u. cc;
}
  where
    either :
        Differs p q
        → q.internal_port_path_cost ≡ p.internal_port_path_cost
        → q.port_id ≡ p.port_id
        → ⊥
    either (inl d) c i = d c
    either (inr d) c i = d i
asking-Asks false true p q h = record {
  asks = λ u. cc;
  keeps = λ c i. (h.wish, refl);
  down = λ u. (h.wish, refl);
}
asking-Asks up false p q h = record {
  asks = λ u d. absurd (either (h.same refl) d);
  keeps = λ c i. (h.wish, refl);
  down = λ u. (h.wish, refl);
}
  where
    either :
        (q.internal_port_path_cost ≡ p.internal_port_path_cost) × (q.port_id ≡ p.port_id)
        → Differs p q
        → ⊥
    either (c, i) (inl d) = d c
    either (c, i) (inr d) = d i

set_msti_port_config-Asks :
    (cfg : MstiPortConfig) (speed : ℕ) (prt : Port) (p : PerTreePort)
    → Asks prt.port_enabled p (set_msti_port_config cfg speed prt p)
unfolding set_msti_port_config
set_msti_port_config-Asks cfg speed prt p =
    elim (Bool-cases (
      not (priority_allowed cfg.port_priority)
      || not (cost_allowed cfg.admin_internal_port_path_cost))) [
        | inl e ↦
            rw (e, set_msti_port_config)
              (record {
                asks = λ u d. absurd (unchanged d);
                keeps = λ c i. ((refl, refl), refl);
                down = λ u. ((refl, refl), refl);
              })
        | inr e ↦
            rw (e, set_msti_port_config)
              (asking-Asks prt.port_enabled _ p _
                (written cfg.port_priority cfg.admin_internal_port_path_cost speed p))
      ]
  where
    unchanged : Differs p p → ⊥
    unchanged (inl d) = d refl
    unchanged (inr d) = d refl

-- The other members of the configuration leave the external path cost alone.
rest_of_port :
    (cfg : CistPortConfig) (duplex : Bool) (prt : Port)
    → (set_flags cfg (
        set_admin_edge cfg.admin_edge_port
          (set_admin_p2p cfg.admin_p2p duplex prt).0)).external_port_path_cost
      ≡ prt.external_port_path_cost
unfolding set_flags set_admin_edge set_admin_p2p EdgeDetection.begin EdgeDetection.to_edge
    EdgeDetection.to_not_edge
rest_of_port cfg duplex prt = ground arith

-- What is written of the external path cost, and the test whether it changes.
record CostWritten (n m : PortNode) (b : Bool) : Type 0 where
  asks :
      m.port.external_port_path_cost ≢ n.port.external_port_path_cost → IsAsking m.cist × (b ≡ true)
  keeps : m.port.external_port_path_cost ≡ n.port.external_port_path_cost → m.cist ≡ n.cist

set_external_cost-CostWritten :
    (o : Option ℕ) (speed : ℕ) (n : PortNode)
    → let r = set_external_cost o speed n in CostWritten n r.0 r.1
unfolding set_external_cost
set_external_cost-CostWritten none speed n = record {
  asks = λ d. absurd (d refl);
  keeps = λ e. refl;
}
set_external_cost-CostWritten (some c) speed n =
    elim (Bool-cases (n.port.external_port_path_cost == cost_of c speed)) [
      | inl e ↦
          rw (e, set_external_cost) (record { asks = λ d. absurd (d refl); keeps = λ e. refl })
      | inr e ↦
          rw (e, set_external_cost)
            (record {
              asks = λ d. ((refl, refl), refl);
              keeps = λ f. absurd (ground (arith, e, f));
            })
    ]

set_cist_port_config-AsksCist :
    (cfg : CistPortConfig) (speed : ℕ) (duplex : Bool) (n : PortNode)
    → AsksCist n (set_cist_port_config cfg speed duplex n)
unfolding set_cist_port_config apply_port_config
set_cist_port_config-AsksCist cfg speed duplex n =
    elim (Bool-cases (cost_allowed cfg.admin_external_port_path_cost)) [
      | inr e ↦
          rw (e, set_cist_port_config) (record { asks = λ d. absurd (d refl); keeps = λ e. refl })
      | inl e ↦
          let c = set_external_cost cfg.admin_external_port_path_cost speed n in
          let k = set_external_cost-CostWritten cfg.admin_external_port_path_cost speed n in
          let r = rest_of_port cfg duplex c.0.port in
          rw (e, set_cist_port_config)
            (record {
              asks = λ d. let (a, b) = k.asks (λ f. d (r ∙ f)) in (a, λ u. rw (b, u) refl);
              keeps = λ f. k.keeps (sym r ∙ f);
            })
    ]

-- Setting the parameters of a port asks for a new selection of roles in the CIST if the external path
-- cost in use changes, and then runs the machines if the port is up; otherwise the entry in the CIST
-- stays as it was. Setting those of an entry of a port asks for a new selection and runs the machines
-- if the port is up and the internal path cost in use or the port identifier changes; otherwise it
-- leaves the request for a selection as it was and runs nothing. This holds whether the parameters
-- are accepted or refused.
pub port_configs_ask_selection :
    (c : CistPortConfig) (m : MstiPortConfig) (speed : ℕ) (duplex : Bool) (n : PortNode)
    (p : PerTreePort)
    → AsksCist n (set_cist_port_config c speed duplex n)
      × Asks n.port.port_enabled p (set_msti_port_config m speed n.port p)
port_configs_ask_selection c m speed duplex n p =
    (set_cist_port_config-AsksCist c speed duplex n, set_msti_port_config-Asks m speed n.port p)
