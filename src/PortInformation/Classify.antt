-- ===== src/PortInformation/Classify.antt =====
-- mstp.c, rcvInfo: on its answer to a message that conveys a Designated Port Role.
use mstpd.Prelude.{
  ◌≡◌, ◌≢◌, Bool, true, false, not, ◌||◌, arith, Bool-cases, inl, inr, refl, sym, ap, ◌∙◌, ◌==◌,
  Option, none, some, if◌then◌else◌,
}
use mstpd.Vector.{PriorityVector, Times, better_or_same_priority, same_priority_and_timers}
use mstpd.Vector.Order.{better_antisymm}
use mstpd.Enums.{PortInfo, bpdu_type_tcn}
use mstpd.Types.{Bridge, Port, PerTreePort}
use mstpd.PortInformation.View.{
  Reading, unread, cist_designated, cist_priority, cist_times, msti_designated, msti_priority,
  msti_times, read_message, message_info, same_sender, reading,
}

-- Two vectors of which neither is worse name the same sender.
same_sender_of_both :
    (v w : PriorityVector) (cist : Bool)
    → better_or_same_priority v w 0 0 cist ≡ true
    → better_or_same_priority w v 0 0 cist ≡ true
    → same_sender v w ≡ true
same_sender_of_both v w cist h k = ground (arith, better_antisymm v w 0 0 cist h k)

-- A vector that is the same as another in every component names the same sender.
same_sender_of_same :
    (v w : PriorityVector) (t u : Times) (cist : Bool)
    → same_priority_and_timers v w t u cist ≡ true
    → same_sender v w ≡ true
unfolding same_priority_and_timers
same_sender_of_same v w t u cist h = ground arith

-- rcvInfo on a message with a Designated Port Role: it is superior if it is better than the port's
-- vector or names the sender of the port's vector, and else inferior. It is never a repeated one,
-- even if priority and times are the same and the port's information was received.
pub designated_message_info :
    (p : PerTreePort) (msg : PriorityVector) (times : Times)
    → message_info true p msg times ≡ (
        if not (better_or_same_priority p.port_priority msg 0 0 (p.mstid == 0))
          || same_sender msg p.port_priority
        then PortInfo.superior_designated_info
        else PortInfo.inferior_designated_info)
unfolding message_info
designated_message_info p msg times =
    let same = same_priority_and_timers msg p.port_priority times p.port_times (p.mstid == 0) in
    elim (Bool-cases (better_or_same_priority p.port_priority msg 0 0 (p.mstid == 0))) [
      | inl h ↦ elim (Bool-cases (better_or_same_priority msg p.port_priority 0 0 (p.mstid == 0))) [
        | inl k ↦ rw (h, k, same_sender_of_both msg p.port_priority (p.mstid == 0) k h) refl
        | inr k ↦ elim (Bool-cases same) [
          | inl e ↦
              rw (h, k, same_sender_of_same msg p.port_priority times p.port_times (p.mstid == 0) e)
                refl
          | inr e ↦ rw (h, k, e) refl
        ]
      ]
      | inr h ↦ rw h refl
    ]

-- The answers apart from RepeatedDesignatedInfo.
abbrev is_repeated : PortInfo → Bool
is_repeated PortInfo.repeated_designated_info = true
is_repeated _ = false

two_answers :
    (b : Bool)
    → is_repeated
        (if b then PortInfo.superior_designated_info else PortInfo.inferior_designated_info)
      ≡ false
two_answers true = refl
two_answers false = refl

read_message-repeated :
    (p : PerTreePort) (d : Option Bool) (msg : PriorityVector) (t : Times)
    → is_repeated (read_message p d msg t).info ≡ false
unfolding message_info
read_message-repeated p none msg t = refl
read_message-repeated p (some true) msg t =
    ap is_repeated (designated_message_info p msg t) ∙ two_answers _
read_message-repeated p (some false) msg t = ground arith

-- The choice between the three readings.
choice-repeated :
    (a b : Bool) (x y z : Reading)
    → is_repeated x.info ≡ false
    → is_repeated y.info ≡ false
    → is_repeated z.info ≡ false
    → is_repeated (if a then x else if b then y else z).info ≡ false
choice-repeated true b x y z h k l = h
choice-repeated false true x y z h k l = k
choice-repeated false false x y z h k l = l

reading-repeated :
    (br : Bridge) (prt : Port) (p : PerTreePort) → is_repeated (reading br prt p).info ≡ false
unfolding reading
reading-repeated br prt p =
    let b = prt.rcvd_bpdu_data in
    let c = read_message p (cist_designated b) (cist_priority b) (cist_times br b) in
    let m = read_message p (msti_designated b p) (msti_priority b p) (msti_times p) in
    choice-repeated (b.bpdu_type == bpdu_type_tcn) (p.mstid == 0) (unread p true) c m refl
      (read_message-repeated p (cist_designated b) (cist_priority b) (cist_times br b))
      (read_message-repeated p (msti_designated b p) (msti_priority b p) (msti_times p))

-- `rcvInfo` never answers RepeatedDesignatedInfo, whatever the BPDU and the port's state.
pub rcv_info_never_repeated :
    (br : Bridge) (prt : Port) (p : PerTreePort)
    → (reading br prt p).info ≢ PortInfo.repeated_designated_info
rcv_info_never_repeated br prt p e =
    let q : true ≡ false = sym (ap is_repeated e) ∙ reading-repeated br prt p in
    absurd (ground arith)
