-- ===== src/Station/Settling.antt =====
-- mstp.c, __br_state_machines_run: on the machines of a port, on a calm bridge.
use mathlib.Core.Option
use mstpd.Prelude.{
  ℕ, zero, suc, ◌+◌, ◌*◌, ◌^◌, ◌<◌, ◌≡◌, ◌≢◌, some, refl, sym, ◌∙◌, ap, arith, Option-cases,
  Bool-cases, inl, inr,
}
use mstpd.Enums.{PpmsmState, PtsmState}
use mstpd.Types.{Bridge, Port, PortNode}
use mstpd.Receive
use mstpd.Migration
use mstpd.Migration.Settle.{settled, run-settled}
use mstpd.EdgeDetection
use mstpd.Transmit
use mstpd.Transmit.Message.{TransmitView}
use mstpd.Transmit.Limit.{run_within_limit}
use mstpd.Station.Grid.{Line}
use mstpd.Station.Rows.{
  with_port, assurance_line, receive_line, migrate_line, detect_line, transmit_line, transmit_view,
}
use mstpd.Station.Carry.{
  assurance_line-Tracks, receive_line-Tracks, migrate_line-Tracks, detect_line-Tracks,
  transmit_line-Tracks,
}
use mstpd.Station.Calm.{Gives, IsCalmLine, tracks_calm}

pub assurance_line-calm :
    (br : Bridge) (l : Line) → IsCalmLine br l → Gives (assurance_line l) (IsCalmLine br)
assurance_line-calm br l h =
    (_, refl, tracks_calm br l _ h (assurance_line-Tracks l _ refl) h.counted)

receive-count : (br : Bridge) (n : PortNode) → (Receive.run br n).port.tx_count ≡ n.port.tx_count
unfolding Receive.run Receive.to_discard Receive.to_receive Receive.clear_all_rcvd_msgs
    Receive.updt_bpdu_version Receive.set_rcvd_msgs
receive-count br n = ground arith

pub receive_line-calm :
    (br : Bridge) (l : Line) → IsCalmLine br l → Gives (receive_line br l) (IsCalmLine br)
receive_line-calm br l h = (
  _,
  refl,
  tracks_calm br l _ h (receive_line-Tracks br l _ refl)
      (omega (arith, receive-count br l.node, h.counted)),
)

detect-count : (n : PortNode) → (EdgeDetection.run n).port.tx_count ≡ n.port.tx_count
unfolding EdgeDetection.run EdgeDetection.other_state EdgeDetection.to_edge
    EdgeDetection.to_not_edge
detect-count n = ground arith

pub detect_line-calm :
    (br : Bridge) (l : Line) → IsCalmLine br l → Gives (detect_line l) (IsCalmLine br)
detect_line-calm br l h = (
  _,
  refl,
  tracks_calm br l _ h (detect_line-Tracks l _ refl)
      (omega (arith, detect-count l.node, h.counted)),
)

settled-count : (br : Bridge) (p : Port) (s : PpmsmState) → (settled br s p).tx_count ≡ p.tx_count
unfolding Migration.to_checking_rstp Migration.to_selecting_stp Migration.to_sensing
settled-count br p PpmsmState.checking_rstp = ground arith
settled-count br p PpmsmState.selecting_stp = ground arith
settled-count br p PpmsmState.sensing = ground arith

run-settled_enough :
    (fuel : ℕ) (br : Bridge) (p : Port)
    → 2 < fuel
    → br.migrate_time ≢ 0
    → Migration.run fuel br p ≡ some (settled br p.ppmsm_state p)
run-settled_enough (suc (suc (suc k))) br p l m = run-settled k br p p.ppmsm_state refl m
run-settled_enough zero br p l m = absurd (omega arith)
run-settled_enough (suc zero) br p l m = absurd (omega arith)
run-settled_enough (suc (suc zero)) br p l m = absurd (omega arith)

pub migrate_line-calm :
    (fuel : ℕ) (br : Bridge) (l : Line)
    → 2 < fuel
    → br.migrate_time ≢ 0
    → IsCalmLine br l
    → Gives (migrate_line fuel br l) (IsCalmLine br)
migrate_line-calm fuel br l f m h =
    let e = run-settled_enough fuel br l.node.port f m in
    let q : Line = with_port (settled br l.node.port.ppmsm_state l.node.port) l in
    let g : migrate_line fuel br l ≡ some q = rw (e, migrate_line) refl in
    (
      q,
      g,
      tracks_calm br l q h (migrate_line-Tracks fuel br l q g)
          (omega (arith, settled-count br l.node.port l.node.port.ppmsm_state, h.counted)),
    )

-- PTSM leaves the bridge's parameters alone.
enter-bridge : (t : PtsmState) (v : TransmitView) → (Transmit.Run.enter t v).bridge ≡ v.bridge
unfolding Transmit.Run.enter Transmit.Message.tx_config Transmit.Message.tx_mstp
    Transmit.Message.tx_tcn
enter-bridge PtsmState.idle v = refl
enter-bridge _ v = ground arith

run_enabled-bridge :
    (fuel : ℕ) (v w : TransmitView) → Transmit.Run.run_enabled fuel v ≡ some w → w.bridge ≡ v.bridge
unfolding Transmit.Run.run_enabled
run_enabled-bridge zero v w e = cc
run_enabled-bridge (suc fuel) v w e = elim (Option-cases (Transmit.Run.next v)) [
  | inl n ↦
      ap (λ (x : TransmitView). x.bridge)
        (sym (Option.some-injective _ _ (rw (n, Transmit.Run.run_enabled) at e)))
  | inr (t, n) ↦
      run_enabled-bridge fuel (Transmit.Run.enter t v) w (rw (n, Transmit.Run.run_enabled) at e)
      ∙ enter-bridge t v
]

run-bridge :
    (fuel : ℕ) (v w : TransmitView) → Transmit.Run.run fuel v ≡ some w → w.bridge ≡ v.bridge
unfolding Transmit.Run.run Transmit.Run.to_transmit_init
run-bridge fuel v w e = elim (Bool-cases v.node.port.port_enabled) [
  | inl p ↦ ground (arith, p, run_enabled-bridge fuel v w)
  | inr p ↦ ground (arith, p)
]

pub transmit_line-calm :
    (fuel : ℕ) (br : Bridge) (l : Line)
    → br.transmit_hold_count < 2 ^ 32
    → 2 * br.transmit_hold_count + 2 < fuel
    → IsCalmLine br l
    → Gives (transmit_line fuel br l) (IsCalmLine br)
transmit_line-calm fuel br l b f h =
    let v = transmit_view br l in
    let r =
      run_within_limit fuel v (record { hello = h.easy.hello; counted = h.counted; bounded = b })
        f in
    let q : Line = record { node = r.final.node; out = r.final.out } in
    let g : transmit_line fuel br l ≡ some q = rw (r.reached, transmit_line) refl in
    (
      q,
      g,
      tracks_calm br l q h (transmit_line-Tracks fuel br l q g) (
          omega (
            arith,
            ap (λ (x : Bridge). x.transmit_hold_count) (run-bridge fuel v r.final r.reached),
            r.counted,
          )),
    )
