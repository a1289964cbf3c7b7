-- ===== src/Config/Ranges.antt =====
-- mstp.c: on the values of the parameters after a configuration.
use mathlib.Core.Path.{subst}
use native.Mathlib.Nat.{le-div_iff_mul-le, div-mul-le_self, le_trans, mul-le-mul_left}
use mstpd.Prelude.{
  ℕ, ◌+◌, ◌*◌, ◌%◌, ◌/◌, ◌^◌, ◌≤◌, ◌<◌, ◌≡◌, inl, inr, refl, sym, ap, ◌∙◌, Bool, true, false, not,
  ◌||◌, Option, none, some, List, [], ◌∷◌, map, All, arith, Bool-cases, is_some, ◌==◌,
  if◌then◌else◌,
}
use mstpd.Vector.{Times}
use mstpd.Types.{Bridge, Tree, Port, PerTreePort}
use mstpd.Station.Grid.{Line, Station}
use mstpd.Config.Bridge.{
  ask_reselect, CistBridgeConfig, or_else, set_cist_bridge_config, apply_cist_config, accepts,
  configure, changes_times, changes_hold_count, update_tree, with_times, clear_tx_count, map_if,
  bridge_times_of,
}
use mstpd.Config.Port.{
  MstiPortConfig, compute_pcost, max_path_cost, set_msti_port_config, port_priority_of,
  set_port_priority, set_admin_internal_cost, priority_allowed, cost_allowed,
}
use mstpd.Config.Allowed.{
  InRange, IsKnownVersion, IsAllowed, Judges-accepted, Judges-refused,
  set_cist_bridge_config-Judges, set_msti_port_config-Judges,
}

-- The parameters lie in the ranges of 17.14 of 802.1D.
pub record IsInRange (br : Bridge) : Type 0 where
  pub max_age : (6 ≤ br.max_age) × (br.max_age ≤ 40)
  pub forward_delay : (4 ≤ br.forward_delay) × (br.forward_delay ≤ 30)
  pub times : br.max_age + 2 ≤ 2 * br.forward_delay
  pub version : IsKnownVersion (some br.force_protocol_version)
  pub hold_count : (1 ≤ br.transmit_hold_count) × (br.transmit_hold_count ≤ 10)
  pub hops : (6 ≤ br.max_hops) × (br.max_hops ≤ 100)
  pub ageing_time : (10 ≤ br.ageing_time) × (br.ageing_time ≤ 1000000)

-- The times of every tree are the bridge's, and no port has sent more than the hold count allows.
pub record IsConfigured (s : Station) : Type 0 where
  pub ranges : IsInRange s.bridge
  pub tree_times : All (λ t. t.bridge_times ≡ bridge_times_of s.bridge t.bridge_times) s.trees
  pub paced : All (λ l. l.node.port.tx_count ≤ s.bridge.transmit_hold_count) s.lines

kept :
    (low high d : ℕ) (o : Option ℕ)
    → (low ≤ d) × (d ≤ high)
    → InRange low high o
    → (low ≤ or_else d o) × (or_else d o ≤ high)
kept low high d none h k = h
kept low high d (some n) h k = k

kept_version :
    (d : ℕ) (o : Option ℕ)
    → IsKnownVersion (some d)
    → IsKnownVersion o
    → IsKnownVersion (some (or_else d o))
kept_version d none h k = h
kept_version d (some n) h k = k

kept_times :
    (ma fd : ℕ) (a b : Option ℕ)
    → ma + 2 ≤ 2 * fd
    → ((is_some a || is_some b) ≡ true → or_else ma a + 2 ≤ 2 * or_else fd b)
    → or_else ma a + 2 ≤ 2 * or_else fd b
kept_times ma fd none none h k = h
kept_times ma fd none (some b) h k = k refl
kept_times ma fd (some a) b h k = k refl

configure-IsInRange :
    (cfg : CistBridgeConfig) (br : Bridge)
    → IsAllowed cfg br
    → IsInRange br
    → IsInRange (configure cfg br)
unfolding configure
configure-IsInRange cfg br a h = record {
  max_age = kept 6 40 br.max_age cfg.bridge_max_age h.max_age a.max_age;
  forward_delay =
      kept 4 30 br.forward_delay cfg.bridge_forward_delay h.forward_delay a.forward_delay;
  times =
      kept_times br.max_age br.forward_delay cfg.bridge_max_age cfg.bridge_forward_delay h.times
        a.times;
  version = kept_version br.force_protocol_version cfg.protocol_version h.version a.version;
  hold_count = kept 1 10 br.transmit_hold_count cfg.tx_hold_count h.hold_count a.hold_count;
  hops = kept 6 100 br.max_hops cfg.max_hops h.hops a.hops;
  ageing_time = kept 10 1000000 br.ageing_time cfg.bridge_ageing_time h.ageing_time a.ageing_time;
}

All-map {ℓ} :
    {A : Type ℓ} (P Q : A → Type 0) (f : A → A)
    → ((x : A) → P x → Q (f x))
    → (xs : List A) → All P xs
    → All Q (map f xs)
All-map P Q f k [] h = tt
All-map P Q f k (x ∷ xs) h = (k x h.0, All-map P Q f k xs h.1)

All-imp {ℓ} :
    {A : Type ℓ} (P Q : A → Type 0) → ((x : A) → P x → Q x) → (xs : List A) → All P xs → All Q xs
All-imp P Q k [] h = tt
All-imp P Q k (x ∷ xs) h = (k x h.0, All-imp P Q k xs h.1)

-- The times that a tree is given are the bridge's, and those that it keeps still are.
unchanged_times :
    (cfg : CistBridgeConfig) (br : Bridge) (t : Times)
    → changes_times cfg br ≡ false
    → t ≡ bridge_times_of br t
    → t ≡ bridge_times_of (configure cfg br) t
unfolding configure
unchanged_times cfg br t h e = ground arith

trees_timed :
    (b : Bool) (cfg : CistBridgeConfig) (br : Bridge) (ts : List Tree)
    → changes_times cfg br ≡ b
    → All (λ t. t.bridge_times ≡ bridge_times_of br t.bridge_times) ts
    → All
        (λ t. t.bridge_times ≡ bridge_times_of (configure cfg br) t.bridge_times)
        (map_if b (update_tree (configure cfg br)) ts)
trees_timed true cfg br ts e h = All-map _ _ _ (λ t _. refl) ts h
trees_timed false cfg br ts e h =
    All-imp _ _ (λ t k. unchanged_times cfg br t.bridge_times e k) ts h

-- The counts are reset where the hold count changes, and fit the old one where it does not.
abbrev Paced : ℕ → Line → Type 0
Paced hold l = l.node.port.tx_count ≤ hold

unchanged_hold :
    (cfg : CistBridgeConfig) (br : Bridge)
    → changes_hold_count cfg br ≡ false
    → (configure cfg br).transmit_hold_count ≡ br.transmit_hold_count
unfolding configure
unchanged_hold cfg br e = ground arith

lines-Paced :
    (b : Bool) (cfg : CistBridgeConfig) (br : Bridge) (ls : List Line)
    → changes_hold_count cfg br ≡ b
    → All (Paced br.transmit_hold_count) ls
    → All (Paced (configure cfg br).transmit_hold_count) (map_if b clear_tx_count ls)
lines-Paced true cfg br ls e h = All-map _ _ _ (λ l _. ground arith) ls h
lines-Paced false cfg br ls e h =
    All-imp _ _ (λ l k. subst (λ n. l.node.port.tx_count ≤ n) (sym (unchanged_hold cfg br e)) k) ls
      h

with_times-Paced :
    (b : Bool) (br : Bridge) (hold : ℕ) (ls : List Line)
    → All (Paced hold) ls
    → All (Paced hold) (map_if b (with_times br) ls)
with_times-Paced true br hold ls h = All-map _ _ _ (λ l k. k) ls h
with_times-Paced false br hold ls h = h

apply-IsConfigured :
    (cfg : CistBridgeConfig) (s : Station)
    → IsAllowed cfg s.bridge
    → IsConfigured s
    → IsConfigured (apply_cist_config cfg s)
unfolding apply_cist_config
apply-IsConfigured cfg s a h = record {
  ranges = configure-IsInRange cfg s.bridge a h.ranges;
  tree_times = trees_timed (changes_times cfg s.bridge) cfg s.bridge s.trees refl h.tree_times;
  paced =
      with_times-Paced (changes_times cfg s.bridge) (configure cfg s.bridge) _ _
        (lines-Paced (changes_hold_count cfg s.bridge) cfg s.bridge s.lines refl h.paced);
}

accepted_state :
    (cfg : CistBridgeConfig) (s : Station)
    → (set_cist_bridge_config cfg s).accepted ≡ true
    → (set_cist_bridge_config cfg s).state ≡ apply_cist_config cfg s
unfolding set_cist_bridge_config
accepted_state cfg s a = elim (Bool-cases (accepts cfg s.bridge)) [
  | inl e ↦ rw (e, set_cist_bridge_config)
  | inr e ↦ cc
]

-- MSTP_IN_set_cist_bridge_config keeps a bridge well configured, whatever it is asked: the parameters
-- lie in their ranges and the times fit together, the times of every tree are the bridge's, and no
-- port has counted more BPDUs than the hold count, also where the hold count is lowered.
pub set_cist_bridge_config-IsConfigured :
    (cfg : CistBridgeConfig) (s : Station)
    → IsConfigured s
    → IsConfigured (set_cist_bridge_config cfg s).state
set_cist_bridge_config-IsConfigured cfg s h =
    elim (Bool-cases (set_cist_bridge_config cfg s).accepted) [
      | inl a ↦
          subst IsConfigured (sym (accepted_state cfg s a)) (
            apply-IsConfigured cfg s (Judges-accepted s _ (set_cist_bridge_config-Judges cfg s) a)
              h)
      | inr r ↦
          subst IsConfigured (sym (Judges-refused s _ (set_cist_bridge_config-Judges cfg s) r)) h
    ]

-- The quotient falls as the speed grows.
quotient_falls : (n a b : ℕ) → 0 < a → a ≤ b → n / b ≤ n / a
quotient_falls n a b p h =
    (le-div_iff_mul-le p).1 (le_trans (mul-le-mul_left (n / b) h) (div-mul-le_self n b))

-- 13.37.1: the computed cost lies in the standard's range, and a faster port has no higher cost.
pub compute_pcost_bounds :
    (slow fast : ℕ)
    → slow ≤ fast
    → (1 ≤ compute_pcost slow)
      × (compute_pcost slow ≤ max_path_cost)
      × (compute_pcost fast ≤ compute_pcost slow)
unfolding compute_pcost
compute_pcost_bounds slow fast h = ground (
  arith,
  quotient_falls 20000000 slow fast,
  quotient_falls 20000000 slow 19999999,
  quotient_falls 20000000 1 slow,
)

priority_read_back :
    (k : ℕ) (p : PerTreePort)
    → k ≤ 15
    → (port_priority_of (set_port_priority (some k) p).0.port_id ≡ k * 16)
      × ((set_port_priority (some k) p).0.port_id % 2 ^ 12 ≡ p.port_id % 2 ^ 12)
unfolding set_port_priority
priority_read_back k p h = elim (Bool-cases (port_priority_of p.port_id == k * 16 % 256)) [
  | inl e ↦ rw (e, set_port_priority) (ground arith, refl)
  | inr e ↦ rw (e, set_port_priority) (omega arith, omega arith)
]

other_part :
    (o : Option ℕ) (speed : ℕ) (p : PerTreePort)
    → (set_admin_internal_cost o speed p).0.port_id ≡ p.port_id
unfolding set_admin_internal_cost
other_part none speed p = refl
other_part (some c) speed p = refl

either_id : (b : Bool) (p : PerTreePort) → (if b then ask_reselect p else p).port_id ≡ p.port_id
either_id true p = refl
either_id false p = refl

set_msti_port_config-id :
    (cfg : MstiPortConfig) (speed : ℕ) (prt : Port) (p : PerTreePort)
    → (set_msti_port_config cfg speed prt p).accepted ≡ true
    → (set_msti_port_config cfg speed prt p).state.port_id
      ≡ (set_port_priority cfg.port_priority p).0.port_id
unfolding set_msti_port_config
set_msti_port_config-id cfg speed prt p a =
    elim (Bool-cases (
      not (priority_allowed cfg.port_priority)
      || not (cost_allowed cfg.admin_internal_port_path_cost))) [
        | inl e ↦ cc (rw (e, set_msti_port_config) at a)
        | inr e ↦
            rw (e, set_msti_port_config)
              (either_id _ _ ∙ other_part cfg.admin_internal_port_path_cost speed _)
      ]

-- A priority that MSTP_IN_set_msti_port_config accepts is read back from the port identifier, and the
-- number of the port in it stays.
pub set_msti_port_config_roundtrip :
    (k : ℕ) (cfg : MstiPortConfig) (speed : ℕ) (prt : Port) (p : PerTreePort)
    → cfg.port_priority ≡ some k
    → (set_msti_port_config cfg speed prt p).accepted ≡ true
    → (port_priority_of (set_msti_port_config cfg speed prt p).state.port_id ≡ k * 16)
      × ((set_msti_port_config cfg speed prt p).state.port_id % 2 ^ 12 ≡ p.port_id % 2 ^ 12)
set_msti_port_config_roundtrip k cfg speed prt p e a =
    let range =
      subst (InRange 0 15) e
        (Judges-accepted p _ (set_msti_port_config-Judges cfg speed prt p) a).0 in
    let id =
      set_msti_port_config-id cfg speed prt p a ∙ ap (λ o. (set_port_priority o p).0.port_id) e in
    let back = priority_read_back k p range.1 in
    (ap port_priority_of id ∙ back.0, ap (λ n. n % 2 ^ 12) id ∙ back.1)
