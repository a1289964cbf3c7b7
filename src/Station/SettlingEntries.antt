-- ===== src/Station/SettlingEntries.antt =====
-- mstp.c, __br_state_machines_run: on PISM and PSTSM, on a calm bridge.
use mathlib.Core.Option
use mstpd.Prelude.{
  ℕ, zero, suc, ◌≤◌, ◌<◌, ◌≡◌, some, List, [], ◌∷◌, refl, sym, ◌∙◌, ap, arith, Option-cases, inl,
  inr, length, if◌then◌else◌,
}
use mstpd.Enums.{PstsmState, PismState}
use mstpd.Types.{Bridge, Port, PerTreePort, PortNode}
use mstpd.PortInformation
use mstpd.PortInformation.View.{InfoView, rcv_info}
use mstpd.PortInformation.Enter.{take_superior}
use mstpd.PortInformation.Record.{
  record_agreement, record_dispute, record_mastered, record_priority, record_proposal, record_times,
  set_tc_flags, updt_rcvd_info_while,
}
use mstpd.PortInformation.Rest.{run_settles_information}
use mstpd.StateTransition
use mstpd.StateTransition.{StateView}
use mstpd.Station.Grid.{Line, place, insert_at, entries, with_entries, entry_at, set_entry}
use mstpd.Station.Rows.{
  info_view, put_info, inform_entry, inform_line, state_view, put_state, move_entry, move_line,
}
use mstpd.Station.Entries.{inform_entry-Tracks, move_entry-Tracks}
use mstpd.Station.Calm.{Gives, Gives-for, IsCalmLine, tracks_calm}

-- PISM does not count BPDUs.
enter-count :
    (t : PismState) (v : InfoView)
    → (PortInformation.Enter.enter t v).port.tx_count ≡ v.port.tx_count
unfolding PortInformation.Enter.enter rcv_info take_superior record_agreement record_dispute
    record_mastered record_priority record_proposal record_times set_tc_flags updt_rcvd_info_while
enter-count PismState.disabled v = refl
enter-count _ v = refl

run-count :
    (fuel : ℕ) (v w : InfoView)
    → PortInformation.Run.run fuel v ≡ some w
    → w.port.tx_count ≡ v.port.tx_count
unfolding PortInformation.Run.run
run-count zero v w e = cc
run-count (suc fuel) v w e = elim (Option-cases (PortInformation.Run.next v)) [
  | inl n ↦
      ap (λ (x : InfoView). x.port.tx_count)
        (sym (Option.some-injective _ _ (rw (n, PortInformation.Run.run) at e)))
  | inr (t, n) ↦
      run-count fuel (PortInformation.Enter.enter t v) w (rw (n, PortInformation.Run.run) at e)
      ∙ enter-count t v
]

with_entries-port : (es : List PerTreePort) (n : PortNode) → (with_entries es n).port ≡ n.port
with_entries-port [] n = refl
with_entries-port (c ∷ ms) n = refl

inform_entry-calm :
    (fuel : ℕ) (br : Bridge) (j : ℕ) (l : Line)
    → 64 < fuel
    → IsCalmLine br l
    → Gives (inform_entry fuel br j l) (IsCalmLine br)
unfolding inform_entry
inform_entry-calm fuel br j l f h = elim (Option-cases (place j (entries l.node))) [
  | inl n ↦ (l, rw (n, inform_entry) refl, h)
  | inr (q, n) ↦
      let v = info_view br l q in
      let r = run_settles_information fuel v (omega (arith, f)) in
      let m = put_info j r.final l in
      let g : inform_entry fuel br j l ≡ some m = rw (n, r.reached, inform_entry) refl in
      (
        m,
        g,
        tracks_calm br l m h (inform_entry-Tracks fuel br j l m g) (
            omega (
              arith,
              ap (λ (x : Port). x.tx_count)
                  (with_entries-port (insert_at j r.final.me r.final.others)
                    (record (l.node) { port = r.final.port })),
              run-count fuel v r.final r.reached,
              h.counted,
            )),
      )
]

pub inform_line-calm :
    (fuel : ℕ) (br : Bridge) (l : Line)
    → 64 < fuel
    → IsCalmLine br l
    → Gives (inform_line fuel br l) (IsCalmLine br)
inform_line-calm fuel br l f =
    Gives-for (IsCalmLine br) (inform_entry fuel br) (λ j m h. inform_entry-calm fuel br j m f h) 0
      (length (entries l.node)) l

-- PSTSM ends whatever it is asked for.
state_work : PstsmState → PerTreePort → ℕ
state_work PstsmState.discarding p = if p.learn then (if p.forward then 2 else 1) else 0
state_work PstsmState.learning p = if p.learn then (if p.forward then 1 else 0) else 1
state_work PstsmState.forwarding p = if p.forward then 0 else 3

state_work-le : (s : PstsmState) (p : PerTreePort) → state_work s p ≤ 3
unfolding state_work
state_work-le PstsmState.discarding p = ground arith
state_work-le PstsmState.learning p = ground arith
state_work-le PstsmState.forwarding p = ground arith

record Eases (v w : StateView) : Type 0 where
  less : state_work w.me.pstsm_state w.me < state_work v.me.pstsm_state v.me
  count : w.port.tx_count ≡ v.port.tx_count

enter-Eases :
    (s t : PstsmState) (v : StateView)
    → v.me.pstsm_state ≡ s
    → StateTransition.next v ≡ some t
    → Eases v (StateTransition.enter t v)
unfolding StateTransition.next StateTransition.next_state StateTransition.enter
    StateTransition.to_discarding StateTransition.to_learning StateTransition.to_forwarding
    StateTransition.change_state StateTransition.out_set_state state_work
enter-Eases s PstsmState.discarding v r e = record { less = ground arith; count = ground arith }
enter-Eases s PstsmState.learning v r e = record { less = ground arith; count = ground arith }
enter-Eases s PstsmState.forwarding v r e = record { less = ground arith; count = ground arith }

record Stops (fuel : ℕ) (v : StateView) : Type 0 where
  final : StateView
  reached : StateTransition.run fuel v ≡ some final
  count : final.port.tx_count ≡ v.port.tx_count

run-Stops : (fuel : ℕ) (v : StateView) → state_work v.me.pstsm_state v.me < fuel → Stops fuel v
unfolding StateTransition.run
run-Stops zero v l = absurd (omega arith)
run-Stops (suc fuel) v l = elim (Option-cases (StateTransition.next v)) [
  | inl n ↦ record { final = v; reached = rw (n, StateTransition.run) refl; count = refl }
  | inr (t, n) ↦
      let k = enter-Eases _ t v refl n in
      let r = run-Stops fuel (StateTransition.enter t v) (omega (arith, k.less)) in
      record {
        final = r.final;
        reached = rw (n, StateTransition.run) r.reached;
        count = r.count ∙ k.count;
      }
]

set_entry-port : (j : ℕ) (p : PerTreePort) (n : PortNode) → (set_entry j p n).port ≡ n.port
set_entry-port zero p n = refl
set_entry-port (suc j) p n = refl

move_entry-calm :
    (fuel : ℕ) (br : Bridge) (j : ℕ) (l : Line)
    → 64 < fuel
    → IsCalmLine br l
    → Gives (move_entry fuel j l) (IsCalmLine br)
unfolding move_entry
move_entry-calm fuel br j l f h = elim (Option-cases (entry_at j l.node)) [
  | inl n ↦ (l, rw (n, move_entry) refl, h)
  | inr (p, n) ↦
      let v = state_view l p in
      let r = run-Stops fuel v (omega (arith, state_work-le v.me.pstsm_state v.me)) in
      let m = put_state j r.final l in
      let g : move_entry fuel j l ≡ some m = rw (n, r.reached, move_entry) refl in
      (
        m,
        g,
        tracks_calm br l m h (move_entry-Tracks fuel j l m g) (
            omega (
              arith,
              ap (λ (x : Port). x.tx_count)
                  (set_entry-port j r.final.me (record (l.node) { port = r.final.port })),
              r.count,
              h.counted,
            )),
      )
]

pub move_line-calm :
    (fuel : ℕ) (br : Bridge) (l : Line)
    → 64 < fuel
    → IsCalmLine br l
    → Gives (move_line fuel l) (IsCalmLine br)
move_line-calm fuel br l f =
    Gives-for (IsCalmLine br) (move_entry fuel) (λ j m h. move_entry-calm fuel br j m f h) 0
      (length (entries l.node)) l
