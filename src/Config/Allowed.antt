-- ===== src/Config/Allowed.antt =====
-- mstp.c: on the configurations that are accepted and those that are refused.
use mstpd.Prelude.{
  ℕ, ◌+◌, ◌*◌, ◌≤◌, ◌≡◌, ◌↔◌, ◌⊎◌, inl, inr, refl, Bool, true, false, not, ◌&&◌, ◌||◌, Option, none,
  some, arith, Bool-cases, is_some, ◌==◌, if◌then◌else◌,
}
use mstpd.Enums.{proto_stp, proto_rstp}
use mstpd.Types.{Bridge, Port, PerTreePort, PortNode}
use mstpd.Station.Grid.{Station}
use mstpd.Config.Bridge.{
  Call, Outcome, CistBridgeConfig, or_else, within, known_version, times_fit, accepts,
  set_cist_bridge_config, reject,
}
use mstpd.Config.Port.{
  CistPortConfig, MstiPortConfig, cost_allowed, priority_allowed, set_cist_port_config,
  set_msti_port_config, max_path_cost,
}

-- A value that is set lies in the range.
abbrev pub InRange : ℕ → ℕ → Option ℕ → Type 0
InRange low high none = Unit
InRange low high (some n) = (low ≤ n) × (n ≤ high)

abbrev pub IsKnownVersion : Option ℕ → Type 0
IsKnownVersion none = Unit
IsKnownVersion (some v) = (v ≡ 0) ⊎ (v ≡ 2) ⊎ (v ≡ 3)

-- 17.14 of 802.1D: the ranges of the parameters, and the rule for the times, which is asked for only
-- if one of them is set.
pub record IsAllowed (cfg : CistBridgeConfig) (br : Bridge) : Type 0 where
  pub max_age : InRange 6 40 cfg.bridge_max_age
  pub forward_delay : InRange 4 30 cfg.bridge_forward_delay
  pub times :
      (is_some cfg.bridge_max_age || is_some cfg.bridge_forward_delay) ≡ true
      → or_else br.max_age cfg.bridge_max_age + 2
        ≤ 2 * or_else br.forward_delay cfg.bridge_forward_delay
  pub version : IsKnownVersion cfg.protocol_version
  pub hold_count : InRange 1 10 cfg.tx_hold_count
  pub hops : InRange 6 100 cfg.max_hops
  pub hello_time : InRange 2 2 cfg.bridge_hello_time
  pub ageing_time : InRange 10 1000000 cfg.bridge_ageing_time

within_iff : (low high : ℕ) (o : Option ℕ) → (within low high o ≡ true) ↔ InRange low high o
within_iff low high none = (λ h. tt, λ h. refl)
within_iff low high (some n) = (λ h. ground arith, λ h. ground arith)

known_version_iff : (o : Option ℕ) → (known_version o ≡ true) ↔ IsKnownVersion o
known_version_iff none = (λ h. tt, λ h. refl)
known_version_iff (some v) = (
  λ h. elim (Bool-cases (v == proto_stp)) [
    | inl e ↦ inl (ground arith)
    | inr e ↦ elim (Bool-cases (v == proto_rstp)) [
      | inl f ↦ inr (inl (ground arith))
      | inr f ↦ inr (inr (ground arith))
    ]
  ],
  λ h. elim h [
    | inl e ↦ ground arith
    | inr k ↦ elim k [ inl e ↦ ground arith | inr e ↦ ground arith ]
  ],
)

conj :
    (a b c d e f g h : Bool)
    → ((a && b && c && d && e && f && g && h) ≡ true) ↔ (
        (a ≡ true)
        × (b ≡ true)
        × (c ≡ true)
        × (d ≡ true)
        × (e ≡ true)
        × (f ≡ true)
        × (g ≡ true)
        × (h ≡ true))
conj a b c d e f g h = (λ x. ground arith, λ x. ground arith)

fits : (ma fd : ℕ) → ma + 2 ≤ 2 * fd → times_fit ma fd ≡ true
fits ma fd h = ground arith

times_iff :
    (b : Bool) (ma fd : ℕ) → ((not b || times_fit ma fd) ≡ true) ↔ (b ≡ true → ma + 2 ≤ 2 * fd)
times_iff true ma fd = (λ h _. ground arith, λ h. fits ma fd (h refl))
times_iff false ma fd = (λ h e. cc, λ h. refl)

accepts_iff : (cfg : CistBridgeConfig) (br : Bridge) → (accepts cfg br ≡ true) ↔ IsAllowed cfg br
unfolding accepts
accepts_iff cfg br = (
  λ h.
      let (a, b, c, d, e, f, g, i) = (conj _ _ _ _ _ _ _ _).0 h in
      record {
        max_age = (within_iff 6 40 cfg.bridge_max_age).0 a;
        forward_delay = (within_iff 4 30 cfg.bridge_forward_delay).0 b;
        times = (times_iff _ _ _).0 c;
        version = (known_version_iff cfg.protocol_version).0 d;
        hold_count = (within_iff 1 10 cfg.tx_hold_count).0 e;
        hops = (within_iff 6 100 cfg.max_hops).0 f;
        hello_time = (within_iff 2 2 cfg.bridge_hello_time).0 g;
        ageing_time = (within_iff 10 1000000 cfg.bridge_ageing_time).0 i;
      },
  λ k. (conj _ _ _ _ _ _ _ _).1 (
    (within_iff 6 40 cfg.bridge_max_age).1 k.max_age,
    (within_iff 4 30 cfg.bridge_forward_delay).1 k.forward_delay,
    (times_iff _ _ _).1 k.times,
    (known_version_iff cfg.protocol_version).1 k.version,
    (within_iff 1 10 cfg.tx_hold_count).1 k.hold_count,
    (within_iff 6 100 cfg.max_hops).1 k.hops,
    (within_iff 2 2 cfg.bridge_hello_time).1 k.hello_time,
    (within_iff 10 1000000 cfg.bridge_ageing_time).1 k.ageing_time,
  ),
)

-- A function accepts where the condition holds; where it does not, the function refuses, changes
-- nothing and calls no machine.
abbrev pub Judges : {S : Type 0} → Type 0 → S → Outcome S → Type 0
Judges P s r =
    (P × (r.accepted ≡ true))
    ⊎ ((¬ P) × (r.accepted ≡ false) × (r.state ≡ s) × (r.call ≡ Call.nothing))

module _ {S : Type 0} {P : Type 0} (s : S) (r : Outcome S) where
  -- A function that refuses by a test and accepts otherwise.
  judged :
      (c : Bool) → r.accepted ≡ true → ((c ≡ false) ↔ P) → Judges P s (if c then reject s else r)
  judged true a h = inr (λ p. cc (h.1 p), refl, refl, refl)
  judged false a h = inl (h.0 refl, a)

  pub Judges-accepted : Judges P s r → r.accepted ≡ true → P
  Judges-accepted j a = elim j [ inl h ↦ h.0 | inr h ↦ cc ]

  pub Judges-refused : Judges P s r → r.accepted ≡ false → r.state ≡ s
  Judges-refused j a = elim j [ inl h ↦ cc | inr h ↦ h.2 ]

not_iff : (b : Bool) → (not b ≡ false) ↔ (b ≡ true)
not_iff b = (λ h. ground arith, λ h. ground arith)

nor_iff : (a b : Bool) → ((not a || not b) ≡ false) ↔ ((a ≡ true) × (b ≡ true))
nor_iff a b = (λ h. ground arith, λ h. ground arith)

pub set_cist_bridge_config-Judges :
    (cfg : CistBridgeConfig) (s : Station)
    → Judges (IsAllowed cfg s.bridge) s (set_cist_bridge_config cfg s)
unfolding set_cist_bridge_config
set_cist_bridge_config-Judges cfg s = judged s _ (not (accepts cfg s.bridge)) refl (
    (
      λ e. (accepts_iff cfg s.bridge).0 ((not_iff (accepts cfg s.bridge)).0 e),
      λ k. (not_iff (accepts cfg s.bridge)).1 ((accepts_iff cfg s.bridge).1 k),
    ))

cost_iff : (o : Option ℕ) → (cost_allowed o ≡ true) ↔ InRange 0 max_path_cost o
cost_iff none = (λ h. tt, λ h. refl)
cost_iff (some c) = (λ h. ground arith, λ h. ground arith)

priority_iff : (o : Option ℕ) → (priority_allowed o ≡ true) ↔ InRange 0 15 o
priority_iff none = (λ h. tt, λ h. refl)
priority_iff (some c) = (λ h. ground arith, λ h. ground arith)

pub set_msti_port_config-Judges :
    (m : MstiPortConfig) (speed : ℕ) (prt : Port) (p : PerTreePort)
    → Judges
        (InRange 0 15 m.port_priority × InRange 0 max_path_cost m.admin_internal_port_path_cost)
        p
        (set_msti_port_config m speed prt p)
unfolding set_msti_port_config
set_msti_port_config-Judges m speed prt p =
    let i = m.admin_internal_port_path_cost in
    let k = m.port_priority in
    judged p _ (not (priority_allowed k) || not (cost_allowed i)) refl (
      λ e.
          let (a, b) = (nor_iff (priority_allowed k) (cost_allowed i)).0 e in
          ((priority_iff k).0 a, (cost_iff i).0 b),
      λ h.
          (nor_iff (priority_allowed k) (cost_allowed i)).1
            ((priority_iff k).1 h.0, (cost_iff i).1 h.1),
    )

-- MSTP_IN_set_cist_port_config accepts exactly an external path cost of at most 200000000, if one is
-- set, and MSTP_IN_set_msti_port_config exactly a priority of at most 15 and such an internal path
-- cost; what they refuse changes nothing and calls no state machine, even if the other parameter is
-- right.
pub port_configs_judged :
    (cfg : CistPortConfig) (m : MstiPortConfig) (speed : ℕ) (duplex : Bool) (n : PortNode)
    (p : PerTreePort)
    → Judges
        (InRange 0 max_path_cost cfg.admin_external_port_path_cost)
        n
        (set_cist_port_config cfg speed duplex n)
      × Judges
          (InRange 0 15 m.port_priority × InRange 0 max_path_cost m.admin_internal_port_path_cost)
          p
          (set_msti_port_config m speed n.port p)
unfolding set_cist_port_config
port_configs_judged cfg m speed duplex n p =
    let c = cfg.admin_external_port_path_cost in
    (
      judged n _ (not (cost_allowed c)) refl (
        λ e. (cost_iff c).0 ((not_iff (cost_allowed c)).0 e),
        λ h. (not_iff (cost_allowed c)).1 ((cost_iff c).1 h),
      ),
      set_msti_port_config-Judges m speed n.port p,
    )
