-- ===== src/RoleTransitions/Livelock.antt =====
-- mstp.c, PRTSM_runr: on its recursion for a Master port that is told to re-root.
use mstpd.Prelude.{
  ℕ, zero, suc, ◌≡◌, ◌≢◌, refl, sym, ap, ◌∙◌, Bool, [], true, false, none, some, ◌&&◌, ◌==◌, all_of,
  arith, if◌then◌else◌,
}
use mstpd.Rule.{first}
use mstpd.Enums.{PortRole, PrtsmState}
use mstpd.RoleTransitions.View.{RoleView, Delays, is_settled, all_synced}
use mstpd.RoleTransitions.Enter.{enter}
use mstpd.RoleTransitions.Rules.{role_changes, is_ready, master_rules, state_rules, next}
use mstpd.RoleTransitions.Run.{run}

abbrev is_master_state : PrtsmState → Bool
is_master_state PrtsmState.master_port = true
is_master_state PrtsmState.master_learn = true
is_master_state PrtsmState.master_forward = true
is_master_state PrtsmState.master_discard = true
is_master_state _ = false

-- A settled Master port, synced and agreeing, that is told to re-root while its own recent-root
-- timer runs, in a tree whose other ports are all synced.
pub record IsTorn (v : RoleView) : Type 0 where
  pub in_master : is_master_state v.me.prtsm_state ≡ true
  pub role_master : v.me.role ≡ PortRole.master
  pub selected_master : v.me.selected_role ≡ PortRole.master
  pub selected : v.me.selected ≡ true
  pub no_update : v.me.updt_info ≡ false
  pub synced : v.me.synced ≡ true
  pub no_sync : v.me.sync ≡ false
  pub agree : v.me.agree ≡ true
  pub not_proposed : v.me.proposed ≡ false
  pub re_root : v.me.re_root ≡ true
  pub recent_root : v.me.rr_while ≢ 0
  pub not_edge : v.port.oper_edge ≡ false
  pub peers_synced : all_of (λ p. is_settled p && p.synced) v.peers ≡ true

-- The state that a torn port enters next.
abbrev torn_next : RoleView → PrtsmState → PrtsmState
torn_next v PrtsmState.master_port =
    if v.me.learn
    then (if v.me.forward then PrtsmState.master_discard else PrtsmState.master_forward)
    else PrtsmState.master_learn
torn_next v _ = PrtsmState.master_port

torn-all_synced : (v : RoleView) → IsTorn v → all_synced v ≡ true
unfolding all_synced
torn-all_synced v h = rw (h.selected, h.role_master, h.selected_master, h.no_update) h.peers_synced

torn-role_changes : (v : RoleView) → IsTorn v → role_changes v.me ≡ false
torn-role_changes v h = rw (h.role_master, h.selected_master)

torn-is_ready : (v : RoleView) → IsTorn v → is_ready v.me ≡ true
torn-is_ready v h = rw (h.selected, h.no_update)

recent-test : (n : ℕ) → n ≢ 0 → (n == 0) ≡ false
recent-test n h = ground arith

-- The rules of MASTER_PORT at a torn port, for every value of what the port's condition leaves open.
torn-rules :
    (c : Delays) (v : RoleView)
    → IsTorn v
    → first (master_rules c v) ≡ some (torn_next v PrtsmState.master_port)
torn-rules c v h =
    rw
      (
        torn-all_synced v h,
        recent-test _ h.recent_root,
        h.synced,
        h.no_sync,
        h.agree,
        h.not_proposed,
        h.re_root,
        h.not_edge,
      )
      (ground arith)

next-state :
    (c : Delays) (v : RoleView) (s : PrtsmState)
    → IsTorn v
    → v.me.prtsm_state ≡ s
    → next c v ≡ first (state_rules c v s)
unfolding next
next-state c v s h e = rw (torn-role_changes v h) (ap (λ x. first (state_rules c v x)) e)

ready-rules :
    (c : Delays) (v : RoleView)
    → IsTorn v
    → first (state_rules c v PrtsmState.master_port) ≡ first (master_rules c v)
ready-rules c v h = ap (λ b. first (if b then master_rules c v else [])) (torn-is_ready v h)

torn-next :
    (c : Delays) (v : RoleView) (s : PrtsmState)
    → IsTorn v
    → v.me.prtsm_state ≡ s
    → next c v ≡ some (torn_next v s)
torn-next c v PrtsmState.master_port h e =
    next-state c v _ h e ∙ ready-rules c v h ∙ torn-rules c v h
torn-next c v PrtsmState.master_learn h e = next-state c v _ h e
torn-next c v PrtsmState.master_forward h e = next-state c v _ h e
torn-next c v PrtsmState.master_discard h e = next-state c v _ h e
torn-next c v _ h e = absurd (cc (master_only e))
  where
    master_only : {s : PrtsmState} → v.me.prtsm_state ≡ s → is_master_state s ≡ true
    master_only e = ap is_master_state (sym e) ∙ h.in_master

IsTorn-enter :
    (c : Delays) (v : RoleView) (s : PrtsmState)
    → IsTorn v
    → v.me.prtsm_state ≡ s
    → IsTorn (enter c (torn_next v s) v)
unfolding enter
IsTorn-enter c v PrtsmState.master_port h e = ground arith
IsTorn-enter c v PrtsmState.master_learn h e = ground arith
IsTorn-enter c v PrtsmState.master_forward h e = ground arith
IsTorn-enter c v PrtsmState.master_discard h e = ground arith
IsTorn-enter c v _ h e = absurd (ground arith)

-- `PRTSM_runr` never reaches a call that meets no condition, and no fuel is enough, on a Master port
-- that is in a Master state, with its roles selected, no update pending and its role the selected one;
-- that is synced and agrees, is not an edge port, not asked to sync and not proposed to; that is told
-- to re-root while its own recent-root timer runs; and whose peers in the tree are all settled and
-- synced.
pub torn_never_ends : (fuel : ℕ) (c : Delays) (v : RoleView) → IsTorn v → run fuel c v ≡ none
unfolding run
torn_never_ends zero c v h = refl
torn_never_ends (suc fuel) c v h =
    rw (torn-next c v _ h refl, run)
      (torn_never_ends fuel c (enter c (torn_next v v.me.prtsm_state) v)
        (IsTorn-enter c v _ h refl))
