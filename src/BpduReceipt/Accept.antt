-- ===== src/BpduReceipt/Accept.antt =====
-- mstp.c, MSTP_IN_rx_bpdu: on the BPDUs that pass the validation.
use mathlib.Core.Path.{subst}
use mstpd.Prelude.{
  ℕ, ◌+◌, ◌*◌, ◌%◌, ◌^◌, ◌≤◌, ◌≡◌, refl, Bool, true, false, not, some, arith, length, Option-cases,
  inl, inr, if◌then◌else◌, ◌⊎◌, sym, ap, ◌∙◌,
}
use mstpd.Enums.{proto_stp, proto_rstp, proto_mstp, bpdu_type_rst}
use mstpd.Types.{Bpdu, Bridge, Port, PerTreePort, PortNode}
use mstpd.Transmit.Message.{
  tcn_bpdu_size, config_bpdu_size, rst_bpdu_size, mst_bpdu_size_wo_msti_msgs, msti_message_size,
  config_bpdu, rst_bpdu, mst_bpdu, tcn_bpdu,
}
use mstpd.BpduReceipt.{
  Receipt, is_mst_bpdu, validate_rst, validate, store, rx_bpdu, max_standard_mstis,
}

-- The BPDUs of a node, at the sizes at which they are sent, pass the validation unchanged.
pub record OwnAccepted (br : Bridge) (n : PortNode) : Type 0 where
  pub tcn : validate (tcn_bpdu n) tcn_bpdu_size ≡ some (tcn_bpdu n)
  pub config : validate (config_bpdu n) config_bpdu_size ≡ some (config_bpdu n)
  pub rst : validate (rst_bpdu n) rst_bpdu_size ≡ some (rst_bpdu n)
  pub mst :
      validate (mst_bpdu br n) (mst_bpdu_size_wo_msti_msgs + msti_message_size * length n.mstis)
      ≡ some (mst_bpdu br n)
  pub messages :
      (cist : PerTreePort) (prt : Port)
      → (store (mst_bpdu br n) cist prt).rcvd_bpdu_num_of_mstis ≡ length n.mstis

mst_length : (k : ℕ) → k ≤ 64 → (64 + 16 * k) % 2 ^ 16 ≡ 64 + 16 * k
mst_length k h = omega arith

is_mst-own :
    (br : Bridge) (n : PortNode)
    → length n.mstis ≤ 64
    → is_mst_bpdu (mst_bpdu br n) (mst_bpdu_size_wo_msti_msgs + msti_message_size * length n.mstis)
      ≡ true
unfolding is_mst_bpdu mst_bpdu
is_mst-own br n h = ground (arith, mst_length (length n.mstis) h)

mst_accepted :
    (br : Bridge) (n : PortNode)
    → length n.mstis ≤ 64
    → validate (mst_bpdu br n) (mst_bpdu_size_wo_msti_msgs + msti_message_size * length n.mstis)
      ≡ some (mst_bpdu br n)
unfolding validate validate_rst mst_bpdu
mst_accepted br n h = rw (is_mst-own br n h) (ground arith)

mst_messages :
    (br : Bridge) (n : PortNode) (cist : PerTreePort) (prt : Port)
    → length n.mstis ≤ 64
    → (store (mst_bpdu br n) cist prt).rcvd_bpdu_num_of_mstis ≡ length n.mstis
unfolding store mst_bpdu
mst_messages br n cist prt h = ground (arith, mst_length (length n.mstis) h)

-- A bridge accepts what a bridge sends: the TCN, Configuration, RST and MST BPDUs of any port pass
-- the validation at the sizes at which they are sent and with their versions as they are, and a
-- receiver of the MST BPDU counts as many MSTI messages as the sender has MSTIs, at most 64.
pub own_bpdus_accepted :
    (br : Bridge) (n : PortNode) → length n.mstis ≤ max_standard_mstis → OwnAccepted br n
unfolding validate validate_rst tcn_bpdu config_bpdu rst_bpdu
own_bpdus_accepted br n h = record {
  tcn = refl;
  config = refl;
  rst = refl;
  mst = mst_accepted br n h;
  messages = λ cist prt. mst_messages br n cist prt h;
}

-- The validation of an MST BPDU does not compare the number of messages with the size of the frame:
-- above the 102 octets in front of the messages every size gives the same answer.
pub validate_ignores_size :
    (b : Bpdu) (size : ℕ)
    → b.bpdu_type ≡ bpdu_type_rst
    → proto_mstp ≤ b.protocol_version
    → mst_bpdu_size_wo_msti_msgs ≤ size
    → validate b size ≡ validate b mst_bpdu_size_wo_msti_msgs
unfolding validate validate_rst is_mst_bpdu
validate_ignores_size b size t v s = ground arith

-- What the stored BPDU satisfies: its version is one of three, and if it is an MST BPDU then it has
-- at most 64 messages, and the third length counts exactly them.
pub record IsWellFormed (prt : Port) : Type 0 where
  pub version :
      (prt.rcvd_bpdu_data.protocol_version ≡ proto_stp)
      ⊎ (prt.rcvd_bpdu_data.protocol_version ≡ proto_rstp)
      ⊎ (prt.rcvd_bpdu_data.protocol_version ≡ proto_mstp)
  pub at_most :
      prt.rcvd_bpdu_data.protocol_version ≡ proto_mstp
      → prt.rcvd_bpdu_num_of_mstis ≤ max_standard_mstis
  pub exactly :
      prt.rcvd_bpdu_data.protocol_version ≡ proto_mstp
      → prt.rcvd_bpdu_data.version3_len ≡ 64 + msti_message_size * prt.rcvd_bpdu_num_of_mstis

store-IsWellFormed :
    (b a : Bpdu) (size : ℕ) (cist : PerTreePort) (prt : Port)
    → validate b size ≡ some a
    → IsWellFormed (store a cist prt)
unfolding validate validate_rst is_mst_bpdu store
store-IsWellFormed b a size cist prt e = record {
  version = ground arith;
  at_most = λ q. ground arith;
  exactly = λ q. ground arith;
}

-- A property of both branches is one of the choice.
either :
    (P : Port × Receipt → Type 0) (b : Bool) (x y : Port × Receipt)
    → P x
    → P y
    → P (if b then x else y)
either P true x y h k = h
either P false x y h k = k

-- The same stored BPDU and count.
keeps :
    (p q : Port)
    → p.rcvd_bpdu_data ≡ q.rcvd_bpdu_data
    → p.rcvd_bpdu_num_of_mstis ≡ q.rcvd_bpdu_num_of_mstis
    → IsWellFormed p
    → IsWellFormed q
keeps p q d c h = record {
  version =
      subst
        (λ x.
          (x.protocol_version ≡ proto_stp)
          ⊎ (x.protocol_version ≡ proto_rstp)
          ⊎ (x.protocol_version ≡ proto_mstp))
        d h.version;
  at_most =
      λ e. subst (λ x. x ≤ max_standard_mstis) c (h.at_most (ap (λ x. x.protocol_version) d ∙ e));
  exactly = λ e.
      sym (ap (λ x. x.version3_len) d)
      ∙ h.exactly (ap (λ x. x.protocol_version) d ∙ e)
      ∙ ap (λ x. 64 + msti_message_size * x) c;
}

-- MSTP_IN_rx_bpdu keeps the stored BPDU well formed on every branch: its version is that of STP, RSTP
-- or MSTP, and an MST BPDU has at most 64 messages, exactly those that its third length counts.
pub rx_bpdu-IsWellFormed :
    (br : Bridge) (cist : PerTreePort) (b : Bpdu) (size : ℕ) (prt : Port)
    → IsWellFormed prt
    → IsWellFormed (rx_bpdu br cist b size prt).0
unfolding rx_bpdu
rx_bpdu-IsWellFormed br cist b size prt h =
    let P : Port × Receipt → Type 0 = λ r. IsWellFormed r.0 in
    either P prt.bpdu_guard_port _ _ (keeps prt _ refl refl h) (
      either P prt.bpdu_filter_port _ _ (keeps prt _ refl refl h) (
        either P (not br.bridge_enabled) _ _ (keeps prt _ refl refl h) (
          either P prt.rcvd_bpdu _ _ (keeps prt _ refl refl h)
            (elim (Option-cases (validate b size)) [
              | inl q ↦ rw q (keeps prt _ refl refl h)
              | inr (a, q) ↦ rw q (store-IsWellFormed b a size cist _ q)
            ]))))
