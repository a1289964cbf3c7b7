-- ===== src/Transmit/Flags.antt =====
-- mstp.c, txMstp, and mstp.h, bpduFlagOffset_t: on writing and reading the flag octets.
use mstpd.Prelude.{ℕ, ◌+◌, ◌*◌, ◌^◌, ◌<◌, ◌≡◌, Bool, not, bit, arith, ◌==◌}
use mstpd.Enums.{PortRole}
use mstpd.Types.{
  PerTreePort, has_flag, flags_role, offset_tc, offset_proposal, offset_role, offset_learning,
  offset_forwarding, offset_agreement, offset_master,
}
use mstpd.Transmit.Message.{message_role_from_port_role, cist_flags, msti_flags}

-- An octet of a role and six flags.
abbrev pack : ℕ → Bool → Bool → Bool → Bool → Bool → Bool → ℕ
pack r t p l f a m =
    r * 2 ^ offset_role
    + bit t * 2 ^ offset_tc
    + bit p * 2 ^ offset_proposal
    + bit l * 2 ^ offset_learning
    + bit f * 2 ^ offset_forwarding
    + bit a * 2 ^ offset_agreement
    + bit m * 2 ^ offset_master

module _ (r : ℕ) (t p l f a m : Bool) (h : r < 4) where
  pack-tc : has_flag offset_tc (pack r t p l f a m) ≡ t
  pack-tc = ground arith

  pack-proposal : has_flag offset_proposal (pack r t p l f a m) ≡ p
  pack-proposal = ground arith

  pack-role : flags_role (pack r t p l f a m) ≡ r
  pack-role = ground arith

  pack-learning : has_flag offset_learning (pack r t p l f a m) ≡ l
  pack-learning = ground arith

  pack-forwarding : has_flag offset_forwarding (pack r t p l f a m) ≡ f
  pack-forwarding = ground arith

  pack-agreement : has_flag offset_agreement (pack r t p l f a m) ≡ a
  pack-agreement = ground arith

  pack-master : has_flag offset_master (pack r t p l f a m) ≡ m
  pack-master = ground arith

-- What the octet of flags says of a port in its tree.
pub record Tells (flags : ℕ) (p : PerTreePort) : Type 0 where
  pub role : flags_role flags ≡ message_role_from_port_role p.role
  pub tc : has_flag offset_tc flags ≡ not (p.tc_while == 0)
  pub proposal : has_flag offset_proposal flags ≡ p.proposing
  pub learning : has_flag offset_learning flags ≡ p.learning
  pub forwarding : has_flag offset_forwarding flags ≡ p.forwarding
  pub agreement : has_flag offset_agreement flags ≡ p.agree
  pub master : has_flag offset_master flags ≡ p.master

role_small : (r : PortRole) → message_role_from_port_role r < 4
unfolding message_role_from_port_role
role_small r = ground arith

-- What a receiver reads from the flags of an MSTI message is the sender's role, as it is encoded,
-- and the state of the sender's port: the receiver's tests of the seven flags give back the sender's
-- values.
pub msti_flags_roundtrip : (p : PerTreePort) → Tells (msti_flags p) p
unfolding msti_flags cist_flags
msti_flags_roundtrip p =
    let r = message_role_from_port_role p.role in
    let t = not (p.tc_while == 0) in
    let h = role_small p.role in
    record {
      role = pack-role r t p.proposing p.learning p.forwarding p.agree p.master h;
      tc = pack-tc r t p.proposing p.learning p.forwarding p.agree p.master h;
      proposal = pack-proposal r t p.proposing p.learning p.forwarding p.agree p.master h;
      learning = pack-learning r t p.proposing p.learning p.forwarding p.agree p.master h;
      forwarding = pack-forwarding r t p.proposing p.learning p.forwarding p.agree p.master h;
      agreement = pack-agreement r t p.proposing p.learning p.forwarding p.agree p.master h;
      master = pack-master r t p.proposing p.learning p.forwarding p.agree p.master h;
    }
