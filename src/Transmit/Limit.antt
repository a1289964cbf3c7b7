-- ===== src/Transmit/Limit.antt =====
-- mstp.c, PTSM_run: on the end of its recursion and the hold count.
use mstpd.Prelude.{
  ℕ, zero, suc, ◌+◌, ◌-◌, ◌*◌, ◌^◌, ◌<◌, ◌≤◌, ◌≡◌, ◌≢◌, Bool, true, false, not, ◌||◌, some, arith,
  ◌==◌, length, if◌then◌else◌, All, Option-cases, Bool-cases, inl, inr, refl, ap, is_some, ◌∙◌,
  none, any_of, List, [], ◌∷◌, ◌++◌,
}
use mstpd.Rule.{first-All}
use mstpd.Enums.{PtsmState}
use mstpd.Types.{Output}
use mstpd.Transmit.Message.{
  is_silent, mstp_bpdu, mstp_size, config_bpdu, config_bpdu_size, tcn_bpdu, tcn_bpdu_size,
  TransmitView, tx_config, tx_mstp, tx_tcn,
}
use mstpd.Transmit.Run.{
  is_waiting, enter, idle_rules, state_rules, next, dry_run, run_enabled, run, to_transmit_init,
  to_transmit_init_dry,
}

length-snoc : (xs : List Output) (x : Output) → length (xs ++ (x ∷ [])) ≡ length xs + 1
length-snoc [] x = refl
length-snoc (y ∷ xs) x = omega (arith, length-snoc xs x)

-- One BPDU more at most.
length-sends :
    (b : Bool) (xs : List Output) (x : Output)
    → length (if b then xs else xs ++ (x ∷ [])) ≤ length xs + 1
length-sends true xs x = omega arith
length-sends false xs x = omega (arith, length-snoc xs x)

-- What `txCount` leaves of the hold count.
abbrev credit : TransmitView → ℕ
credit v = v.bridge.transmit_hold_count - v.node.port.tx_count

-- A bound for the number of states that the machine still enters.
abbrev work : PtsmState → TransmitView → ℕ
work PtsmState.idle v = 2 * credit v + (if v.node.port.hello_when == 0 then 2 else 0)
work _ v = 2 * credit v + 1

-- The port is configured with a hello time, and the counters do not wrap.
pub record IsPaced (v : TransmitView) : Type 0 where
  pub hello : v.node.cist.port_times.hello_time ≢ 0
  pub counted : v.node.port.tx_count ≤ v.bridge.transmit_hold_count
  pub bounded : v.bridge.transmit_hold_count < 2 ^ 32

-- Entering the state leaves less work, and what is sent is counted.
record Falls (v : TransmitView) (t : PtsmState) : Type 0 where
  paced : IsPaced (enter t v)
  lower : work (enter t v).node.port.ptsm_state (enter t v) < work v.node.port.ptsm_state v
  paid : length (enter t v).out + credit (enter t v) ≤ length v.out + credit v

idle_fall :
    (v : TransmitView)
    → IsPaced v
    → v.node.port.ptsm_state ≡ PtsmState.idle
    → All (λ r. r.0 ≡ true → Falls v r.1) (idle_rules v.bridge v.node)
unfolding enter tx_config tx_mstp tx_tcn
idle_fall v h s =
    let a = h.hello in
    let b = h.counted in
    let c = h.bounded in
    let l : (o : Output)
        → length (if is_silent v.node then v.out else v.out ++ (o ∷ [])) ≤ length v.out + 1 =
      λ o. length-sends (is_silent v.node) v.out o in
    (
      λ g. record {
        paced = record { hello = a; counted = b; bounded = c };
        lower = rw s (ground arith);
        paid = ground arith;
      },
      (
        λ g. record {
          paced = record { hello = a; counted = ground arith; bounded = c };
          lower = rw s (ground arith);
          paid =
              ground
                (arith, l (Output.tx_bpdu (mstp_bpdu v.bridge v.node) (mstp_size v.bridge v.node)));
        },
        (
          λ g. record {
            paced = record { hello = a; counted = ground arith; bounded = c };
            lower = rw s (ground arith);
            paid = ground (arith, l (Output.tx_bpdu (config_bpdu v.node) config_bpdu_size));
          },
          (
            λ g. record {
              paced = record { hello = a; counted = ground arith; bounded = c };
              lower = rw s (ground arith);
              paid = ground (arith, l (Output.tx_bpdu (tcn_bpdu v.node) tcn_bpdu_size));
            },
            tt,
          ),
        ),
      ),
    )

state_fall :
    (v : TransmitView)
    → IsPaced v
    → (s : PtsmState) → v.node.port.ptsm_state ≡ s
    → All (λ r. r.0 ≡ true → Falls v r.1) (state_rules s v.bridge v.node)
unfolding enter
state_fall v h PtsmState.idle s = waiting (is_waiting v.node.cist || any_of is_waiting v.node.mstis)
  where
    waiting :
        (b : Bool)
        → All (λ r. r.0 ≡ true → Falls v r.1) (if b then [] else idle_rules v.bridge v.node)
    waiting true = tt
    waiting false = idle_fall v h s
state_fall v h _ s =
    let a = h.hello in
    (
      λ g. record {
        paced = record { hello = a; counted = h.counted; bounded = h.bounded };
        lower = rw s (ground arith);
        paid = omega arith;
      },
      tt,
    )

step-Falls : (v : TransmitView) {t : PtsmState} → IsPaced v → next v ≡ some t → Falls v t
unfolding next
step-Falls v h e = first-All (Falls v) _ (state_fall v h v.node.port.ptsm_state refl) e

-- Resting within the limit: the run ended, a dry run reports no change, and what the machine sent in
-- it is no more than `txCount` left of the hold count.
pub record RestsWithin (fuel : ℕ) (v : TransmitView) : Type 0 where
  pub final : TransmitView
  pub reached : run_enabled fuel v ≡ some final
  pub quiet : next final ≡ none
  pub enabled : final.node.port.port_enabled ≡ v.node.port.port_enabled
  pub counted : final.node.port.tx_count ≤ final.bridge.transmit_hold_count
  pub paid : length final.out + credit final ≤ length v.out + credit v

-- No state changes `portEnabled`.
enter-enabled :
    (t : PtsmState) (v : TransmitView)
    → (enter t v).node.port.port_enabled ≡ v.node.port.port_enabled
unfolding enter tx_config tx_mstp tx_tcn
enter-enabled PtsmState.transmit_init v = refl
enter-enabled PtsmState.transmit_config v = refl
enter-enabled PtsmState.transmit_tcn v = refl
enter-enabled PtsmState.transmit_rstp v = refl
enter-enabled PtsmState.transmit_periodic v = refl
enter-enabled PtsmState.idle v = refl

run_enabled_rests :
    (fuel : ℕ) (v : TransmitView)
    → IsPaced v
    → work v.node.port.ptsm_state v < fuel
    → RestsWithin fuel v
unfolding run_enabled
run_enabled_rests zero v h l = absurd (omega arith)
run_enabled_rests (suc fuel) v h l = elim (Option-cases (next v)) [
  | inl e ↦ record {
    final = v;
    reached = rw (e, run_enabled);
    quiet = e;
    enabled = refl;
    counted = h.counted;
    paid = omega arith;
  }
  | inr (t, e) ↦
      let f = step-Falls v h e in
      let w = run_enabled_rests fuel (enter t v) f.paced (omega (arith, f.lower)) in
      record {
        final = w.final;
        reached = rw (e, run_enabled) w.reached;
        quiet = w.quiet;
        enabled = w.enabled ∙ enter-enabled t v;
        counted = w.counted;
        paid = omega (arith, f.paid, w.paid);
      }
]

work-le : (s : PtsmState) (v : TransmitView) → work s v ≤ 2 * v.bridge.transmit_hold_count + 2
work-le PtsmState.idle v = ground arith
work-le _ v = ground arith

pub run-enabled :
    (fuel : ℕ) (v : TransmitView)
    → v.node.port.port_enabled ≡ true
    → run fuel v ≡ run_enabled fuel v
unfolding run
run-enabled fuel v e = ap (λ b. if not b then some (to_transmit_init v) else run_enabled fuel v) e

pub run-disabled :
    (fuel : ℕ) (v : TransmitView)
    → v.node.port.port_enabled ≡ false
    → run fuel v ≡ some (to_transmit_init v)
unfolding run
run-disabled fuel v e = ap (λ b. if not b then some (to_transmit_init v) else run_enabled fuel v) e

dry_run-enabled :
    (v : TransmitView) → v.node.port.port_enabled ≡ true → next v ≡ none → dry_run v ≡ false
unfolding dry_run
dry_run-enabled v e q =
    ap (λ b. if not b then to_transmit_init_dry v.node.port else is_some (next v)) e ∙ ap is_some q

init-quiet :
    (v : TransmitView) → v.node.port.port_enabled ≡ false → dry_run (to_transmit_init v) ≡ false
unfolding dry_run to_transmit_init to_transmit_init_dry
init-quiet v e = rw e refl

init-counted :
    (v : TransmitView)
    → (to_transmit_init v).node.port.tx_count ≤ (to_transmit_init v).bridge.transmit_hold_count
unfolding to_transmit_init
init-counted v = omega arith

init-sent : (v : TransmitView) → length (to_transmit_init v).out ≤ length v.out + credit v
unfolding to_transmit_init
init-sent v = omega arith

-- What a call of `PTSM_run` promises: it ends, a dry run then reports no change, `txCount` is within
-- the hold count, and it has handed no more BPDUs to the driver than `txCount` left of it.
pub record IsLimited (fuel : ℕ) (v : TransmitView) : Type 0 where
  pub final : TransmitView
  pub reached : run fuel v ≡ some final
  pub quiet : dry_run final ≡ false
  pub counted : final.node.port.tx_count ≤ final.bridge.transmit_hold_count
  pub sent : length final.out ≤ length v.out + credit v

-- A run of the Port Transmit machine of a port whose hello time is not 0 and whose `txCount` is
-- within the hold count ends, at rest, within twice the hold count and three calls more; it sends at
-- most as many BPDUs as `txCount` leaves of the hold count, and `txCount` stays within it.
pub run_within_limit :
    (fuel : ℕ) (v : TransmitView)
    → IsPaced v
    → 2 * v.bridge.transmit_hold_count + 2 < fuel
    → IsLimited fuel v
run_within_limit fuel v h l = elim (Bool-cases v.node.port.port_enabled) [
  | inl e ↦
      let w = run_enabled_rests fuel v h (omega (arith, work-le v.node.port.ptsm_state v)) in
      record {
        final = w.final;
        reached = run-enabled fuel v e ∙ w.reached;
        quiet = dry_run-enabled w.final (w.enabled ∙ e) w.quiet;
        counted = w.counted;
        sent = omega (arith, w.paid);
      }
  | inr e ↦ record {
    final = to_transmit_init v;
    reached = run-disabled fuel v e;
    quiet = init-quiet v e;
    counted = init-counted v;
    sent = init-sent v;
  }
]
