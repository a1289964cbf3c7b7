-- ===== src/Station/Tracks.antt =====
-- mstp.c: on what the machines of a port do to the entries of the port, Receive to Information.
use mathlib.Core.Path.{subst}
use mathlib.Core.Option
use mstpd.Prelude.{
  ℕ, zero, suc, Bool, true, false, not, some, List, ◌≡◌, refl, sym, ◌∙◌, arith, Option-cases, inl,
  inr, Bool-cases, if◌then◌else◌,
}
use mstpd.Enums.{PtsmState}
use mstpd.Types.{Bridge, Port, PerTreePort, PortNode}
use mstpd.Receive
use mstpd.Migration
use mstpd.EdgeDetection
use mstpd.Transmit
use mstpd.Transmit.Message.{TransmitView}
use mstpd.Station.Keep.{All2, All2-refl, All2-trans, All2-map}
use mstpd.Station.Sound.{core-Tracks, Tracks, Tracks-refl, Tracks-trans, TracksNode}

pub All-Tracks : (ps : List PerTreePort) → All2 Tracks ps ps
All-Tracks ps = All2-refl Tracks Tracks-refl Tracks-trans ps

pub All-Tracks-trans :
    (ps qs rs : List PerTreePort) → All2 Tracks ps qs → All2 Tracks qs rs → All2 Tracks ps rs
All-Tracks-trans = All2-trans Tracks Tracks-refl Tracks-trans

pub either-Tracks :
    (b : Bool) (ps qs rs : List PerTreePort)
    → All2 Tracks ps qs
    → All2 Tracks ps rs
    → All2 Tracks ps (if b then qs else rs)
either-Tracks true ps qs rs h k = h
either-Tracks false ps qs rs h k = k

take_message-Tracks : (prt : Port) (p : PerTreePort) → Tracks p (Receive.take_message prt p)
unfolding Receive.take_message
take_message-Tracks prt p = core-Tracks _ _ (ground arith) (λ e. ground arith)

to_discard-Tracks : (br : Bridge) (n : PortNode) → TracksNode n (Receive.to_discard br n)
unfolding Receive.to_discard Receive.clear_all_rcvd_msgs
to_discard-Tracks br n = record {
  alive = refl;
  cist = core-Tracks _ _ refl (λ e. e);
  mstis = All2-map Tracks _ (λ p. core-Tracks _ _ refl (λ e. e)) n.mstis;
}

to_receive-Tracks : (br : Bridge) (n : PortNode) → TracksNode n (Receive.to_receive br n)
unfolding Receive.to_receive Receive.updt_bpdu_version Receive.set_rcvd_msgs
to_receive-Tracks br n = record {
  alive = ground arith;
  cist = core-Tracks _ _ refl (λ e. e);
  mstis =
      either-Tracks _ n.mstis _ _ (All2-map Tracks _ (take_message-Tracks _) n.mstis)
        (All-Tracks n.mstis);
}

Node-refl : (n : PortNode) → TracksNode n n
Node-refl n = record { alive = refl; cist = Tracks-refl n.cist; mstis = All-Tracks n.mstis }

Node-either :
    (b : Bool) (n m k : PortNode)
    → TracksNode n m
    → TracksNode n k
    → TracksNode n (if b then m else k)
Node-either true n m k h g = h
Node-either false n m k h g = g

pub receive-Tracks : (br : Bridge) (n : PortNode) → TracksNode n (Receive.run br n)
unfolding Receive.run
receive-Tracks br n = Node-either (Receive.discards br n) n _ _ (to_discard-Tracks br n) (
    Node-either (Receive.receives n.port.prsm_state n) n _ _ (to_receive-Tracks br n) (Node-refl n))

pub migrate-alive :
    (fuel : ℕ) (br : Bridge) (p q : Port) → Migration.run fuel br p ≡ some q → q.deleted ≡ p.deleted
unfolding Migration.run Migration.to_selecting_stp Migration.to_sensing Migration.to_checking_rstp
migrate-alive zero br p q h = cc
migrate-alive (suc fuel) br p q h = ground (
  arith,
  migrate-alive fuel br (Migration.to_selecting_stp br p) q,
  migrate-alive fuel br (Migration.to_sensing p) q,
)

pub detect-Tracks : (n : PortNode) → TracksNode n (EdgeDetection.run n)
unfolding EdgeDetection.run EdgeDetection.other_state
detect-Tracks n =
    Node-either (EdgeDetection.leaves n.port.bdsm_state n) n
      (record n { port = EdgeDetection.other_state n.port.bdsm_state n.port }) n
      (record { alive = ground arith; cist = Tracks-refl n.cist; mstis = All-Tracks n.mstis })
      (Node-refl n)

-- The Port Transmit machine writes no entry.
record SameEntries (n m : PortNode) : Type 0 where
  alive : m.port.deleted ≡ n.port.deleted
  cist : m.cist ≡ n.cist
  mstis : m.mstis ≡ n.mstis

transmit_enter-same :
    (t : PtsmState) (v : TransmitView) → SameEntries v.node (Transmit.Run.enter t v).node
unfolding Transmit.Run.enter Transmit.Message.tx_config Transmit.Message.tx_mstp
    Transmit.Message.tx_tcn
transmit_enter-same PtsmState.transmit_init v = ground arith
transmit_enter-same PtsmState.transmit_config v = ground arith
transmit_enter-same PtsmState.transmit_tcn v = ground arith
transmit_enter-same PtsmState.transmit_rstp v = ground arith
transmit_enter-same PtsmState.transmit_periodic v = ground arith
transmit_enter-same PtsmState.idle v = ground arith

run_enabled-same :
    (fuel : ℕ) (v w : TransmitView)
    → Transmit.Run.run_enabled fuel v ≡ some w
    → SameEntries v.node w.node
unfolding Transmit.Run.run_enabled
run_enabled-same zero v w e = cc
run_enabled-same (suc fuel) v w e = elim (Option-cases (Transmit.Run.next v)) [
  | inl n ↦
      subst (λ (x : TransmitView). SameEntries v.node x.node)
        (Option.some-injective _ _ (rw (n, Transmit.Run.run_enabled) at e))
        (record { alive = refl; cist = refl; mstis = refl })
  | inr (t, n) ↦
      let a = transmit_enter-same t v in
      let b =
        run_enabled-same fuel (Transmit.Run.enter t v) w (rw (n, Transmit.Run.run_enabled) at e) in
      record { alive = b.alive ∙ a.alive; cist = b.cist ∙ a.cist; mstis = b.mstis ∙ a.mstis }
]

run-same :
    (fuel : ℕ) (v w : TransmitView) → Transmit.Run.run fuel v ≡ some w → SameEntries v.node w.node
unfolding Transmit.Run.run Transmit.Run.to_transmit_init Transmit.Run.enter
run-same fuel v w e = elim (Bool-cases v.node.port.port_enabled) [
  | inl p ↦ run_enabled-same fuel v w (
      subst
        (λ b.
          (if not b
            then some (Transmit.Run.to_transmit_init v)
            else Transmit.Run.run_enabled fuel v)
          ≡ some w)
        p e)
  | inr p ↦
      subst (λ (x : TransmitView). SameEntries v.node x.node)
        (Option.some-injective _ _ (
          subst
            (λ b.
              (if not b
                then some (Transmit.Run.to_transmit_init v)
                else Transmit.Run.run_enabled fuel v)
              ≡ some w)
            p e))
        (transmit_enter-same PtsmState.transmit_init v)
]

pub transmit-Tracks :
    (fuel : ℕ) (v w : TransmitView) → Transmit.Run.run fuel v ≡ some w → TracksNode v.node w.node
transmit-Tracks fuel v w e =
    let s = run-same fuel v w e in
    record {
      alive = s.alive;
      cist = subst (λ p. Tracks v.node.cist p) (sym s.cist) (Tracks-refl v.node.cist);
      mstis = subst (λ ps. All2 Tracks v.node.mstis ps) (sym s.mstis) (All-Tracks v.node.mstis);
    }
