-- ===== src/Station/Rows.antt =====
-- mstp.c: the machines of __br_state_machines_run that stay within one port and its entries.
use mstpd.Prelude.{ℕ, Bool, not, ◌&&◌, ◌||◌, Option, none, some, length, ◌==◌, for_from}
use mstpd.Types.{Bridge, Port, PerTreePort, PortNode}
use mstpd.Station.Grid.{
  Line, Place, rest, place, insert_at, entries, with_entries, entry_at, set_entry,
}
use mstpd.Receive
use mstpd.Migration
use mstpd.EdgeDetection
use mstpd.Transmit
use mstpd.Transmit.Message.{TransmitView}
use mstpd.Transmit.Run.{assurance_port}
use mstpd.PortInformation
use mstpd.PortInformation.View.{InfoView}
use mstpd.StateTransition

-- Does Bridge Assurance find the port inconsistent?
abbrev pub loses_assurance : Port → Bool
loses_assurance prt =
    prt.port_enabled
    && assurance_port prt
    && prt.br_assu_rcvd_info_while == 0
    && not prt.ba_inconsistent

abbrev pub with_node : PortNode → Line → Line
with_node n l = record l { node = n }

abbrev pub with_port : Port → Line → Line
with_port prt l = record l { node = record (l.node) { port = prt } }

abbrev pub assurance_line : Line → Option Line
assurance_line l = some (
    with_port
      (record (l.node.port) {
        ba_inconsistent = l.node.port.ba_inconsistent || loses_assurance l.node.port;
      })
      l)

-- The machines of a port.
abbrev pub receive_line : Bridge → Line → Option Line
receive_line br l = some (with_node (Receive.run br l.node) l)

abbrev pub migrate_line : ℕ → Bridge → Line → Option Line
migrate_line fuel br l = elim (Migration.run fuel br l.node.port) [
  | none ↦ none
  | some p ↦ some (with_port p l)
]

abbrev pub detect_line : Line → Option Line
detect_line l = some (with_node (EdgeDetection.run l.node) l)

abbrev pub transmit_view : Bridge → Line → TransmitView
transmit_view br l = record { node = l.node; bridge = br; out = l.out }

abbrev pub transmit_line : ℕ → Bridge → Line → Option Line
transmit_line fuel br l = elim (Transmit.Run.run fuel (transmit_view br l)) [
  | none ↦ none
  | some w ↦ some (record { node = w.node; out = w.out })
]

-- The Port Information machine of the entry with the given index.
abbrev pub info_view : Bridge → Line → Place PerTreePort → InfoView
info_view br l q = record { me = q.here; port = l.node.port; others = rest q; bridge = br }

abbrev pub put_info : ℕ → InfoView → Line → Line
put_info j w l =
    with_node (with_entries (insert_at j w.me w.others) (record (l.node) { port = w.port })) l

unfoldable pub inform_entry : ℕ → Bridge → ℕ → Line → Option Line
inform_entry fuel br j l = elim (place j (entries l.node)) [
  | none ↦ some l
  | some q ↦ elim (PortInformation.Run.run fuel (info_view br l q)) [
    | none ↦ none
    | some w ↦ some (put_info j w l)
  ]
]

abbrev pub inform_line : ℕ → Bridge → Line → Option Line
inform_line fuel br l = for_from 0 (length (entries l.node)) (inform_entry fuel br) l

-- The Port State Transition machine of the entry with the given index.
abbrev pub state_view : Line → PerTreePort → StateTransition.StateView
state_view l p = record { me = p; port = l.node.port; out = l.out }

abbrev pub put_state : ℕ → StateTransition.StateView → Line → Line
put_state j w l = record {
  node = set_entry j w.me (record (l.node) { port = w.port });
  out = w.out;
}

unfoldable pub move_entry : ℕ → ℕ → Line → Option Line
move_entry fuel j l = elim (entry_at j l.node) [
  | none ↦ some l
  | some p ↦ elim (StateTransition.run fuel (state_view l p)) [
    | none ↦ none
    | some w ↦ some (put_state j w l)
  ]
]

abbrev pub move_line : ℕ → Line → Option Line
move_line fuel l = for_from 0 (length (entries l.node)) (move_entry fuel) l
