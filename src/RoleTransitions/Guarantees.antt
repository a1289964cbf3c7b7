-- ===== src/RoleTransitions/Guarantees.antt =====
-- mstp.c, PRTSM_runr: on ports whose role is to block, and on resting Designated ports.
use mathlib.Core.Path.{subst}
use mathlib.Core.Option
use mstpd.Prelude.{
  ℕ, zero, suc, ◌<◌, ◌≡◌, refl, sym, ◌∙◌, ap, Bool, true, false, not, ◌&&◌, ◌||◌, Option, none,
  some, is_some, List, [], ◌∷◌, All, arith, Bool-cases, inl, inr, Option-cases, if◌then◌else◌, ◌==◌,
}
use mstpd.Rule.{first, first-All, first-none}
use mstpd.Enums.{PortRole, PrtsmState}
use mstpd.RoleTransitions.View.{RoleView, Delays}
use mstpd.RoleTransitions.Enter.{enter}
use mstpd.RoleTransitions.Rules.{
  Rule, is_ready, role_changes, entry, when_ready, designated_rules, state_rules, next,
}
use mstpd.RoleTransitions.Run.{dry_run, run}
use mstpd.RoleTransitions.Measure.{Family, role_family, state_family, IsCoherent}
use mstpd.RoleTransitions.Settle.{IsTame}
use mstpd.RoleTransitions.Rest.{run_comes_to_rest}

-- The roles of ports that are to carry no traffic.
abbrev pub is_blocking_role : PortRole → Bool
is_blocking_role PortRole.disabled = true
is_blocking_role PortRole.alternate = true
is_blocking_role PortRole.backup = true
is_blocking_role _ = false

-- The state belongs to the role, and a port of a blocking role is told neither to learn nor to
-- forward.
pub record IsSafe (v : RoleView) : Type 0 where
  pub coherent : IsCoherent v
  pub no_learn : is_blocking_role v.me.role ≡ true → v.me.learn ≡ false
  pub no_forward : is_blocking_role v.me.role ≡ true → v.me.forward ≡ false

abbrev is_block : PrtsmState → Bool
is_block PrtsmState.block_port = true
is_block _ = false

-- The rules of a state stay in its family, and BLOCK_PORT is entered only on a change of role.
abbrev Inner : Family → PrtsmState → Type 0
Inner f t = (state_family t ≡ f) × (is_block t ≡ false)

when_family :
    (f : Family) (c : Delays) (v : RoleView) (rs : List Rule)
    → All (λ r. Inner f r.1) rs
    → All (λ r. Inner f r.1) (when_ready c v rs)
when_family f c v rs h = go (is_ready v.me)
  where
    go : (b : Bool) → All (λ (r : Rule). Inner f r.1) (if b then rs else [])
    go true = h
    go false = tt

state_rules-family :
    (c : Delays) (v : RoleView) (s : PrtsmState)
    → All (λ r. Inner (state_family s) r.1) (state_rules c v s)
state_rules-family c v PrtsmState.init_port = ((refl, refl), tt)
state_rules-family c v PrtsmState.disable_port = ((refl, refl), tt)
state_rules-family c v PrtsmState.disabled_port = ((refl, refl), tt)
state_rules-family c v PrtsmState.master_proposed = ((refl, refl), tt)
state_rules-family c v PrtsmState.master_agreed = ((refl, refl), tt)
state_rules-family c v PrtsmState.master_synced = ((refl, refl), tt)
state_rules-family c v PrtsmState.master_retired = ((refl, refl), tt)
state_rules-family c v PrtsmState.master_forward = ((refl, refl), tt)
state_rules-family c v PrtsmState.master_learn = ((refl, refl), tt)
state_rules-family c v PrtsmState.master_discard = ((refl, refl), tt)
state_rules-family c v PrtsmState.master_port = when_family _ c v _ (
    (
      (refl, refl),
      (
        (refl, refl),
        ((refl, refl), ((refl, refl), ((refl, refl), ((refl, refl), ((refl, refl), tt))))),
      ),
    ))
state_rules-family c v PrtsmState.root_proposed = ((refl, refl), tt)
state_rules-family c v PrtsmState.root_agreed = ((refl, refl), tt)
state_rules-family c v PrtsmState.root_synced = ((refl, refl), tt)
state_rules-family c v PrtsmState.reroot = ((refl, refl), tt)
state_rules-family c v PrtsmState.root_forward = ((refl, refl), tt)
state_rules-family c v PrtsmState.root_learn = ((refl, refl), tt)
state_rules-family c v PrtsmState.rerooted = ((refl, refl), tt)
state_rules-family c v PrtsmState.root_port = when_family _ c v _ (
    (
      (refl, refl),
      (
        (refl, refl),
        (
          (refl, refl),
          ((refl, refl), ((refl, refl), ((refl, refl), ((refl, refl), ((refl, refl), tt))))),
        ),
      ),
    ))
state_rules-family c v PrtsmState.designated_propose = ((refl, refl), tt)
state_rules-family c v PrtsmState.designated_agreed = ((refl, refl), tt)
state_rules-family c v PrtsmState.designated_synced = ((refl, refl), tt)
state_rules-family c v PrtsmState.designated_retired = ((refl, refl), tt)
state_rules-family c v PrtsmState.designated_forward = ((refl, refl), tt)
state_rules-family c v PrtsmState.designated_learn = ((refl, refl), tt)
state_rules-family c v PrtsmState.designated_discard = ((refl, refl), tt)
state_rules-family c v PrtsmState.designated_port = when_family _ c v _ (
    (
      (refl, refl),
      (
        (refl, refl),
        ((refl, refl), ((refl, refl), ((refl, refl), ((refl, refl), ((refl, refl), tt))))),
      ),
    ))
state_rules-family c v PrtsmState.block_port = ((refl, refl), tt)
state_rules-family c v PrtsmState.backup_port = ((refl, refl), tt)
state_rules-family c v PrtsmState.alternate_proposed = ((refl, refl), tt)
state_rules-family c v PrtsmState.alternate_agreed = ((refl, refl), tt)
state_rules-family c v PrtsmState.alternate_port =
    when_family _ c v _ (((refl, refl), ((refl, refl), ((refl, refl), ((refl, refl), tt)))))

enter-IsSafe :
    (c : Delays) (v : RoleView) (t : PrtsmState)
    → IsSafe v
    → Inner (role_family v.me.role) t
    → IsSafe (enter c t v)
unfolding enter
enter-IsSafe c v PrtsmState.init_port h f = ground arith
enter-IsSafe c v PrtsmState.disable_port h f = ground arith
enter-IsSafe c v PrtsmState.disabled_port h f = ground arith
enter-IsSafe c v PrtsmState.master_proposed h f = ground arith
enter-IsSafe c v PrtsmState.master_agreed h f = ground arith
enter-IsSafe c v PrtsmState.master_synced h f = ground arith
enter-IsSafe c v PrtsmState.master_retired h f = ground arith
enter-IsSafe c v PrtsmState.master_forward h f = ground arith
enter-IsSafe c v PrtsmState.master_learn h f = ground arith
enter-IsSafe c v PrtsmState.master_discard h f = ground arith
enter-IsSafe c v PrtsmState.master_port h f = ground arith
enter-IsSafe c v PrtsmState.root_proposed h f = ground arith
enter-IsSafe c v PrtsmState.root_agreed h f = ground arith
enter-IsSafe c v PrtsmState.root_synced h f = ground arith
enter-IsSafe c v PrtsmState.reroot h f = ground arith
enter-IsSafe c v PrtsmState.root_forward h f = ground arith
enter-IsSafe c v PrtsmState.root_learn h f = ground arith
enter-IsSafe c v PrtsmState.rerooted h f = ground arith
enter-IsSafe c v PrtsmState.root_port h f = ground arith
enter-IsSafe c v PrtsmState.designated_propose h f = ground arith
enter-IsSafe c v PrtsmState.designated_agreed h f = ground arith
enter-IsSafe c v PrtsmState.designated_synced h f = ground arith
enter-IsSafe c v PrtsmState.designated_retired h f = ground arith
enter-IsSafe c v PrtsmState.designated_forward h f = ground arith
enter-IsSafe c v PrtsmState.designated_learn h f = ground arith
enter-IsSafe c v PrtsmState.designated_discard h f = ground arith
enter-IsSafe c v PrtsmState.designated_port h f = ground arith
enter-IsSafe c v PrtsmState.block_port h f = ground arith
enter-IsSafe c v PrtsmState.backup_port h f = ground arith
enter-IsSafe c v PrtsmState.alternate_proposed h f = ground arith
enter-IsSafe c v PrtsmState.alternate_agreed h f = ground arith
enter-IsSafe c v PrtsmState.alternate_port h f = ground arith

entry-IsSafe :
    (c : Delays) (v : RoleView) (role : PortRole)
    → v.me.selected_role ≡ role
    → IsSafe (enter c (entry role) v)
unfolding enter
entry-IsSafe c v PortRole.disabled e = ground arith
entry-IsSafe c v _ e = ground arith

All-weaken :
    (f g : Family) (rs : List Rule)
    → f ≡ g
    → All (λ r. Inner f r.1) rs
    → All (λ r. r.0 ≡ true → Inner g r.1) rs
All-weaken f g [] e h = tt
All-weaken f g (r ∷ rs) e h = (λ _. (h.0.0 ∙ e, h.0.1), All-weaken f g rs e h.1)

step-IsSafe :
    (c : Delays) (v : RoleView) {t : PrtsmState}
    → IsSafe v
    → next c v ≡ some t
    → IsSafe (enter c t v)
unfolding next
step-IsSafe c v {t = t} h e = elim (Bool-cases (role_changes v.me)) [
  | inl r ↦
      subst (λ x. IsSafe (enter c x v)) (Option.some-injective _ _ (rw r at e))
        (entry-IsSafe c v _ refl)
  | inr r ↦ enter-IsSafe c v t h (
      first-All (Inner (role_family v.me.role)) _
        (All-weaken _ _ _ h.coherent (state_rules-family c v v.me.prtsm_state)) (rw r at e))
]

pub run-IsSafe :
    (fuel : ℕ) (c : Delays) (v w : RoleView) → IsSafe v → run fuel c v ≡ some w → IsSafe w
unfolding run
run-IsSafe zero c v w h e = absurd (ground arith)
run-IsSafe (suc fuel) c v w h e = elim (Option-cases (next c v)) [
  | inl n ↦ subst IsSafe (Option.some-injective _ _ (rw (n, run) at e)) h
  | inr (t, n) ↦ run-IsSafe fuel c (enter c t v) w (step-IsSafe c v h n) (rw (n, run) at e)
]

-- A port that starts with its state in accord with its role, and not learning or forwarding if its
-- role is Disabled, Alternate or Backup, ends so after `PRTSM_runr`; for a port whose role and
-- selected role are not Master, 65 calls reach that end.
pub run_keeps_blocking :
    (fuel : ℕ) (c : Delays) (v : RoleView)
    → IsTame v
    → IsSafe v
    → 64 < fuel
    → (w : RoleView) × (run fuel c v ≡ some w) × IsSafe w
run_keeps_blocking fuel c v t h l =
    let r = run_comes_to_rest fuel c v t l in
    (r.final, r.reached, run-IsSafe fuel c v r.final h r.reached)

is_some-false : {A : Type 0} (o : Option A) → is_some o ≡ false → o ≡ none
is_some-false none e = refl
is_some-false (some a) e = cc

designated-none :
    (c : Delays) (v : RoleView)
    → dry_run c v ≡ false
    → v.me.prtsm_state ≡ PrtsmState.designated_port
    → is_ready v.me ≡ true
    → first (designated_rules c v) ≡ none
unfolding dry_run next
designated-none c v q s r = elim (Bool-cases (role_changes v.me)) [
  | inl e ↦ cc (rw e at q)
  | inr e ↦ is_some-false _ (
      ap (λ b. is_some (first (if b then designated_rules c v else []))) (sym r)
      ∙ ap (λ x. is_some (first (state_rules c v x))) (sym s)
      ∙ rw e at q)
]

-- Two of the guards of DESIGNATED_PORT, both false, and a reason to discard.
obeys :
    (a1 a2 a3 sync synced re_root running disputed ba learn forward edge : Bool)
    → (a1 || a2 || a3 || (sync && synced)) ≡ false
    → (((sync && not synced) || (re_root && running) || disputed || ba)
        && not edge
        && (learn || forward))
      ≡ false
    → edge ≡ false
    → (disputed || ba || sync || (re_root && running)) ≡ true
    → (learn ≡ false) × (forward ≡ false)
obeys a1 a2 a3 sync synced re_root running disputed ba learn forward edge g d e h = ground arith

-- The guards of DESIGNATED_LEARN and DESIGNATED_FORWARD, both false, and no reason to wait.
advances :
    (may learn forward : Bool)
    → (may && not learn) ≡ false
    → (may && learn && not forward) ≡ false
    → may ≡ true
    → (learn ≡ true) × (forward ≡ true)
advances may learn forward g d h = ground arith

-- A Designated port at rest, in state DESIGNATED_PORT and with its roles selected, no update pending
-- and its role the selected one. If it is not an edge port, and is disputed, found inconsistent by
-- Bridge Assurance, asked to sync, or asked to re-root while its recent-root timer runs, it neither
-- learns nor forwards. And it learns and forwards if its forward delay is over or it has an agreement
-- or is an edge port, and it is neither asked to sync nor found inconsistent, nor asked to re-root
-- while its recent-root timer runs.
pub resting_designated_decides :
    (c : Delays) (v : RoleView)
    → dry_run c v ≡ false
    → v.me.prtsm_state ≡ PrtsmState.designated_port
    → is_ready v.me ≡ true
    → (v.port.oper_edge ≡ false
        → (v.me.disputed
            || v.port.ba_inconsistent
            || v.me.sync
            || (v.me.re_root && not (v.me.rr_while == 0)))
          ≡ true
        → (v.me.learn ≡ false) × (v.me.forward ≡ false))
      × (((v.me.fd_while == 0 || v.me.agreed || v.port.oper_edge)
              && (v.me.rr_while == 0 || not v.me.re_root)
              && not v.me.sync
              && not v.port.ba_inconsistent)
            ≡ true
          → (v.me.learn ≡ true) × (v.me.forward ≡ true))
resting_designated_decides c v q s r =
    let guards = first-none (designated_rules c v) (designated-none c v q s r) in
    (
      λ o h.
          obeys (not v.me.learning && not v.me.forwarding && not v.me.synced)
            (v.me.agreed && not v.me.synced) (v.port.oper_edge && not v.me.synced) v.me.sync
            v.me.synced v.me.re_root (not (v.me.rr_while == 0)) v.me.disputed v.port.ba_inconsistent
            v.me.learn v.me.forward v.port.oper_edge guards.1.0 guards.1.1.1.1.1.1.0 o h,
      λ h. advances _ v.me.learn v.me.forward guards.1.1.1.1.0 guards.1.1.1.1.1.0 h,
    )
