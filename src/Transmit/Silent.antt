-- ===== src/Transmit/Silent.antt =====
-- mstp.c, PTSM_run: on ports that must not send.
use mstpd.Prelude.{
  ℕ, zero, suc, ◌≡◌, Bool, true, some, arith, refl, ap, ◌∙◌, sym, if◌then◌else◌, Option-cases,
  Bool-cases, inl, inr,
}
use mathlib.Core.Option
use mstpd.Enums.{PtsmState}
use mstpd.Transmit.Message.{TransmitView, is_silent, tx_config, tx_mstp, tx_tcn}
use mstpd.Transmit.Run.{enter, next, run_enabled, run, to_transmit_init}
use mstpd.Transmit.Limit.{run-enabled, run-disabled}

if-true : {A : Type 0} (b : Bool) (x y : A) → b ≡ true → (if b then x else y) ≡ x
if-true b x y e = ap (λ b. if b then x else y) e

-- A state that is entered on a silent port sends nothing, and the port stays silent.
enter-silent :
    (t : PtsmState) (v : TransmitView)
    → is_silent v.node ≡ true
    → ((enter t v).out ≡ v.out) × (is_silent (enter t v).node ≡ true)
unfolding enter tx_config tx_mstp tx_tcn
enter-silent PtsmState.transmit_init v h = (refl, h)
enter-silent PtsmState.transmit_config v h = (if-true _ _ _ h, h)
enter-silent PtsmState.transmit_tcn v h = (if-true _ _ _ h, h)
enter-silent PtsmState.transmit_rstp v h = (if-true _ _ _ h, h)
enter-silent PtsmState.transmit_periodic v h = (refl, h)
enter-silent PtsmState.idle v h = (refl, h)

run_enabled-silent :
    (fuel : ℕ) (v w : TransmitView)
    → is_silent v.node ≡ true
    → run_enabled fuel v ≡ some w
    → w.out ≡ v.out
unfolding run_enabled
run_enabled-silent zero v w h e = absurd (ground arith)
run_enabled-silent (suc fuel) v w h e = elim (Option-cases (next v)) [
  | inl q ↦ ap (λ x. x.out) (sym (Option.some-injective _ _ (rw (q, run_enabled) at e)))
  | inr (t, q) ↦
      let s = enter-silent t v h in
      run_enabled-silent fuel (enter t v) w s.1 (rw (q, run_enabled) at e) ∙ s.0
]

-- A run of the Port Transmit machine sends nothing on a port that is deleted, that has the Disabled
-- role in the CIST or that must not send BPDUs.
pub silent_sends_nothing :
    (fuel : ℕ) (v w : TransmitView) → is_silent v.node ≡ true → run fuel v ≡ some w → w.out ≡ v.out
unfolding run to_transmit_init
silent_sends_nothing fuel v w h e = elim (Bool-cases v.node.port.port_enabled) [
  | inl p ↦ run_enabled-silent fuel v w h (sym (run-enabled fuel v p) ∙ e)
  | inr p ↦ ap (λ x. x.out) (sym (Option.some-injective _ _ (sym (run-disabled fuel v p) ∙ e)))
]
