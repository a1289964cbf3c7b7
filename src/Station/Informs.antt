-- ===== src/Station/Informs.antt =====
-- mstp.c: on what the Port Information machine does to the entries of a port.
use mathlib.Core.Path.{subst}
use mathlib.Core.Option
use mstpd.Prelude.{
  ℕ, zero, suc, Bool, true, false, not, some, List, map, All, Bool-cases, arith, ◌≢◌, ◌≡◌, refl,
  Option-cases, inl, inr, if◌then◌else◌, ◌&&◌,
}
use mstpd.Enums.{InfoOrigin, PismState, PortInfo}
use mstpd.Types.{Port, PerTreePort}
use mstpd.PortInformation
use mstpd.PortInformation.View.{InfoView, rcv_info, is_cist, better_or_same_info}
use mstpd.PortInformation.Record.{
  record_agreement, record_dispute, record_mastered, record_priority, record_proposal, record_times,
  set_tc_flags, updt_rcvd_info_while,
}
use mstpd.PortInformation.Enter.{take_superior}
use mstpd.Station.Keep.{All2, All2-map}
use mstpd.Station.Sound.{core-Tracks, Tracks, Tracks-refl}
use mstpd.Station.Tracks.{All-Tracks, either-Tracks}
use mstpd.Rule.{first-All}
use mstpd.PortInformation.Run.{all_rules, state_rules, shuts_down, info_state}
use mstpd.Station.Moves.{Moves, Moves-refl, Moves-trans, Informs}

by_map :
    (b : Bool) (f : PerTreePort → PerTreePort)
    → ((p : PerTreePort) → Tracks p (f p))
    → (ps : List PerTreePort) → All2 Tracks ps (if b then map f ps else ps)
by_map b f h ps = either-Tracks b ps (map f ps) ps (All2-map Tracks f h ps) (All-Tracks ps)

set_tc_flags-Informs : (v : InfoView) → Informs v (set_tc_flags v)
unfolding set_tc_flags
set_tc_flags-Informs v = record {
  me = core-Tracks _ _ refl (λ e. e);
  alive = refl;
  others =
      by_map (is_cist v && not v.port.rcvd_internal) _ (λ p. core-Tracks _ _ refl (λ e. e))
        v.others;
}

record_agreement-Informs : (v : InfoView) → Informs v (record_agreement v)
unfolding record_agreement
record_agreement-Informs v = record {
  me = core-Tracks _ _ refl (λ e. e);
  alive = refl;
  others =
      by_map (is_cist v && not v.port.rcvd_internal) _ (λ p. core-Tracks _ _ refl (λ e. e))
        v.others;
}

record_dispute-Informs : (v : InfoView) → Informs v (record_dispute v)
unfolding record_dispute
record_dispute-Informs v = record {
  me = core-Tracks _ _ refl (λ e. e);
  alive = refl;
  others =
      by_map (is_cist v && not v.port.rcvd_internal) _ (λ p. core-Tracks _ _ refl (λ e. e))
        v.others;
}

record_mastered-Informs : (v : InfoView) → Informs v (record_mastered v)
unfolding record_mastered
record_mastered-Informs v = record {
  me = core-Tracks _ _ refl (λ e. e);
  alive = refl;
  others =
      by_map (is_cist v && not v.port.rcvd_internal) _ (λ p. core-Tracks _ _ refl (λ e. e))
        v.others;
}

record_proposal-Informs : (v : InfoView) → Informs v (record_proposal v)
unfolding record_proposal
record_proposal-Informs v = record {
  me = core-Tracks _ _ refl (λ e. e);
  alive = refl;
  others =
      by_map (is_cist v && not v.port.rcvd_internal) _ (λ p. core-Tracks _ _ refl (λ e. e))
        v.others;
}

rcv_info-Informs : (v : InfoView) → Informs v (rcv_info v)
unfolding rcv_info
rcv_info-Informs v = record {
  me = core-Tracks _ _ refl (λ e. e);
  alive = refl;
  others = All2-map Tracks _ (λ p. core-Tracks _ _ refl (λ e. e)) v.others;
}

-- A change at the machine's own entry and port.
pub only_me :
    {p q : PerTreePort} {prt prt' : Port} {ps : List PerTreePort}
    → Tracks p q
    → prt'.deleted ≡ prt.deleted
    → Moves p q prt prt' ps ps
only_me {ps = ps} h a = record { me = h; alive = a; others = All-Tracks ps }

take_superior-Informs : (v : InfoView) → Informs v (take_superior v)
unfolding take_superior
take_superior-Informs v =
    let a : InfoView = record v {
      port = record (v.port) { info_internal = v.port.rcvd_internal };
      me = record (v.me) { agreed = false; proposing = false };
    } in
    let b = set_tc_flags (record_proposal a) in
    let c : InfoView = record b {
      me = record (b.me) { agree = b.me.agree && better_or_same_info b.me InfoOrigin.received };
    } in
    Moves-trans (only_me (core-Tracks _ _ refl (λ e. e)) refl) (
      Moves-trans (record_proposal-Informs a) (
        Moves-trans (set_tc_flags-Informs (record_proposal a)) (
          Moves-trans (only_me (core-Tracks _ _ refl (λ e. e)) refl) (record_agreement-Informs c))))

-- UPDATE takes the designated times.
update-Tracks :
    (v : InfoView)
    → v.me.selected ≡ true
    → Tracks v.me (PortInformation.Enter.enter PismState.update v).me
unfolding PortInformation.Enter.enter
update-Tracks v s = record {
  selects = refl;
  sound = λ h. record {
    coherent = h.coherent;
    no_learn = h.no_learn;
    no_forward = h.no_forward;
    learning_flag = h.learning_flag;
    forwarding_flag = h.forwarding_flag;
    driver_state = h.driver_state;
  };
  easy = λ h. record {
    coherent = h.coherent;
    role_tame = h.role_tame;
    selected_tame = h.selected_tame;
    hello = h.designated_hello s;
    designated_hello = λ _. h.designated_hello s;
  };
}

-- UPDATE is entered only with `selected`.
abbrev Selected : InfoView → PismState → Type 0
Selected v t = t ≡ PismState.update → v.me.selected ≡ true

next-Selected : (v : InfoView) (t : PismState) → PortInformation.Run.next v ≡ some t → Selected v t
unfolding PortInformation.Run.next
next-Selected v t e = first-All (Selected v) (all_rules v.me.pism_state v) (rules v.me.pism_state) e
  where
    answers : (i : PortInfo) → info_state i ≢ PismState.update
    answers PortInfo.superior_designated_info u = cc
    answers PortInfo.repeated_designated_info u = cc
    answers PortInfo.inferior_designated_info u = cc
    answers PortInfo.inferior_root_alternate_info u = cc
    answers PortInfo.other_info u = cc

    in_state : (s : PismState) → All (λ r. r.0 ≡ true → Selected v r.1) (state_rules s v)
    in_state PismState.disabled = (λ g u. cc, (λ g u. cc, tt))
    in_state PismState.aged = (λ g u. ground (arith, g), tt)
    in_state PismState.current = (λ g u. cc, (λ g u. cc, (λ g u. ground (arith, g), tt)))
    in_state PismState.receive = (λ g u. absurd (answers v.me.rcvd_info u), tt)
    in_state PismState.update = (λ g u. cc, tt)
    in_state PismState.superior_designated = (λ g u. cc, tt)
    in_state PismState.repeated_designated = (λ g u. cc, tt)
    in_state PismState.inferior_designated = (λ g u. cc, tt)
    in_state PismState.not_designated = (λ g u. cc, tt)
    in_state PismState.other = (λ g u. cc, tt)

    rules : (s : PismState) → All (λ r. r.0 ≡ true → Selected v r.1) (all_rules s v)
    rules s = elim (Bool-cases (shuts_down v)) [
      | inl b ↦ rw b (λ g u. cc, tt)
      | inr b ↦ rw b (in_state s)
    ]

enter-Informs :
    (t : PismState) (v : InfoView) → Selected v t → Informs v (PortInformation.Enter.enter t v)
unfolding PortInformation.Enter.enter record_priority record_times updt_rcvd_info_while
enter-Informs PismState.disabled v h = only_me (core-Tracks _ _ refl (λ e. cc)) refl
enter-Informs PismState.aged v h = only_me (core-Tracks _ _ refl (λ e. cc)) refl
enter-Informs PismState.update v h = only_me (update-Tracks v (h refl)) refl
enter-Informs PismState.superior_designated v h =
    Moves-trans (take_superior-Informs v) (only_me (core-Tracks _ _ refl (λ e. cc)) refl)
enter-Informs PismState.repeated_designated v h =
    let a : InfoView = record v {
      port = record (v.port) { info_internal = v.port.rcvd_internal };
    } in
    let b = record_agreement (set_tc_flags (record_proposal a)) in
    Moves-trans (only_me (Tracks-refl v.me) refl) (
      Moves-trans (record_proposal-Informs a) (
        Moves-trans (set_tc_flags-Informs (record_proposal a)) (
          Moves-trans (record_agreement-Informs (set_tc_flags (record_proposal a)))
            (only_me (core-Tracks _ _ refl (λ e. e)) refl))))
enter-Informs PismState.inferior_designated v h =
    Moves-trans (record_dispute-Informs v) (only_me (core-Tracks _ _ refl (λ e. e)) refl)
enter-Informs PismState.not_designated v h = Moves-trans (record_agreement-Informs v) (
    Moves-trans (set_tc_flags-Informs (record_agreement v))
      (only_me (core-Tracks _ _ refl (λ e. e)) refl))
enter-Informs PismState.other v h = only_me (core-Tracks _ _ refl (λ e. e)) refl
enter-Informs PismState.current v h = only_me (core-Tracks _ _ refl (λ e. e)) refl
enter-Informs PismState.receive v h = Moves-trans (rcv_info-Informs v) (
    Moves-trans (record_mastered-Informs (rcv_info v))
      (only_me (core-Tracks _ _ refl (λ e. e)) refl))

pub inform-Moves :
    (fuel : ℕ) (v w : InfoView) → PortInformation.Run.run fuel v ≡ some w → Informs v w
unfolding PortInformation.Run.run
inform-Moves zero v w e = cc
inform-Moves (suc fuel) v w e = elim (Option-cases (PortInformation.Run.next v)) [
  | inl n ↦
      subst (λ (x : InfoView). Informs v x)
        (Option.some-injective _ _ (rw (n, PortInformation.Run.run) at e))
        (Moves-refl v.me v.port v.others)
  | inr (t, n) ↦
      Moves-trans (enter-Informs t v (next-Selected v t n)) (
        inform-Moves fuel (PortInformation.Enter.enter t v) w
          (rw (n, PortInformation.Run.run) at e))
]
