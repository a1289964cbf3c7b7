-- ===== src/Lifecycle/Enabled.antt =====
-- mstp.c, MSTP_IN_set_bridge_enable: what holds of a bridge that is enabled or disabled.
use mathlib.Core.Path.{subst}
use mathlib.Core.List.{append-nil, append_assoc}
use mstpd.Prelude.{
  ◌≡◌, ℕ, ◌+◌, Bool, true, false, some, List, [], ◌∷◌, map, refl, sym, ◌∙◌, All, arith, Bool-cases,
  inl, inr, if◌then◌else◌, any_of, ap, ◌++◌,
}
use mstpd.Enums.{BrState, same_br_state}
use mstpd.Types.{Bridge, Tree, Port, PerTreePort, Output}
use mstpd.StateTransition
use mstpd.StateTransition.{StateView}
use mstpd.Station.Grid.{Line, Station, entries}
use mstpd.Station.Start.{Moved, br_state_machines_begin}
use mstpd.Station.Outset.{begin_makes_order}
use mstpd.Station.Keep.{All2}
use mstpd.Station.Calm.{OnlyCist, IsCalm}
use mstpd.Station.Restart.{HasTimes, IsReady, begin_returns}
use mstpd.Vector.{Times}
use mstpd.Station.Carry.{IsOrderly}
use mstpd.Station.Loop.{TimeSpec, is_late}
use mstpd.Config.Port.{bool_differs}
use mstpd.Lifecycle.Bridges.{
  reset_entries, reset_line, reset, set_bridge_enable, port_defaults, tree_defaults, stop_ageing,
}

-- The entries that are disabled.
abbrev IsOff : PerTreePort → Type 0
IsOff p = p.state ≡ BrState.disabled

record ResetWell (prt : Port) (r : Moved) : Type 0 where
  off : All IsOff r.entries
  alive : r.port.deleted ≡ prt.deleted

out_set_state-IsOff :
    (v : StateView)
    → let w = StateTransition.out_set_state BrState.disabled v in
      IsOff w.me × (w.port.deleted ≡ v.port.deleted)
unfolding StateTransition.out_set_state
out_set_state-IsOff v = elim (Bool-cases (same_br_state v.me.state BrState.disabled)) [
  | inl e ↦ rw e (ground (arith, e), refl)
  | inr e ↦ rw e (refl, refl)
]

reset_entries-well :
    (ps : List PerTreePort) (prt : Port) (out : List Output)
    → ResetWell prt (reset_entries ps prt out)
unfolding reset_entries
reset_entries-well [] prt out = record { off = tt; alive = refl }
reset_entries-well (p ∷ ps) prt out =
    let v : StateView = record { me = p; port = prt; out = out } in
    let w = StateTransition.out_set_state BrState.disabled v in
    let (a, b) = out_set_state-IsOff v in
    let r = reset_entries-well ps w.port w.out in record { off = (a, r.off); alive = r.alive ∙ b }

-- Every port of the bridge is off in all its trees.
abbrev pub AllOff : Station → Type 0
AllOff s = All (λ l. All (λ (p : PerTreePort). p.state ≡ BrState.disabled) (entries l.node)) s.lines

module _ (s : Station) where
  reset_line-IsOff : (l : Line) → All IsOff (entries (reset_line s.bridge l).node)
  unfolding reset_line reset_entries
  reset_line-IsOff l = (reset_entries-well (entries l.node) (port_defaults l.node.port) _).off

  reset_line-alive :
      (l : Line) → l.node.port.deleted ≡ false → (reset_line s.bridge l).node.port.deleted ≡ false
  unfolding reset_line reset_entries
  reset_line-alive l d =
      (reset_entries-well (entries l.node) (port_defaults l.node.port) _).alive ∙ d

  reset-AllOff : (up : Bool) → AllOff (reset up s)
  unfolding reset
  reset-AllOff up = all s.lines
    where
      all :
          (ls : List Line)
          → All
              (λ l. All (λ (p : PerTreePort). p.state ≡ BrState.disabled) (entries l.node))
              (map (reset_line s.bridge) ls)
      all [] = tt
      all (l ∷ ls) = (reset_line-IsOff l, all ls)

  reset-alive :
      (up : Bool)
      → All (λ l. l.node.port.deleted ≡ false) s.lines
      → All (λ l. l.node.port.deleted ≡ false) (reset up s).lines
  unfolding reset
  reset-alive up h = all s.lines h
    where
      all :
          (ls : List Line)
          → All (λ l. l.node.port.deleted ≡ false) ls
          → All (λ l. l.node.port.deleted ≡ false) (map (reset_line s.bridge) ls)
      all [] a = tt
      all (l ∷ ls) a = (reset_line-alive l a.0, all ls a.1)

-- A bridge that is enabled is orderly when its machines have run, whatever state it was left in.
enable_makes_order :
    (fuel : ℕ) (start : TimeSpec) (tvs : List TimeSpec) (s t : Station)
    → s.bridge.bridge_enabled ≡ false
    → All (λ l. l.node.port.deleted ≡ false) s.lines
    → set_bridge_enable true fuel start tvs s ≡ some t
    → IsOrderly t
unfolding set_bridge_enable reset
enable_makes_order fuel start tvs s t b a e =
    begin_makes_order fuel start tvs (reset true s) t refl (reset-alive s true a) (
      subst
        (λ x.
          (if bool_differs x true
            then br_state_machines_begin fuel start tvs (reset true s)
            else some s)
          ≡ some t)
        b e)

out_set_state-times :
    (v : StateView)
    → let w = StateTransition.out_set_state BrState.disabled v in w.me.port_times ≡ v.me.port_times
unfolding StateTransition.out_set_state
out_set_state-times v = elim (Bool-cases (same_br_state v.me.state BrState.disabled)) [
  | inl e ↦ rw e refl
  | inr e ↦ rw e refl
]

reset_line-HasTimes : (br : Bridge) (l : Line) → HasTimes l → HasTimes (reset_line br l)
unfolding reset_line reset_entries
reset_line-HasTimes br l h =
    let v : StateView = record {
      me = l.node.cist;
      port = port_defaults l.node.port;
      out = l.out ++ stop_ageing br l.node.port;
    } in
    let w = StateTransition.out_set_state BrState.disabled v in
    let a = out_set_state-times v in
    record {
      alive =
          (reset_entries-well (entries l.node) (port_defaults l.node.port)
            (l.out ++ stop_ageing br l.node.port)).alive
          ∙ h.alive;
      alone = subst (λ ps. (reset_entries ps w.port w.out).entries ≡ []) (sym h.alone) refl;
      hello = λ e. h.hello (sym (ap (λ (t : Times). t.hello_time) a) ∙ e);
    }

reset-IsReady : (up : Bool) (fuel : ℕ) (s : Station) → IsReady fuel s → IsReady fuel (reset up s)
unfolding reset
reset-IsReady up fuel s h = record {
  migrate = h.migrate;
  bounded = h.bounded;
  fuelled = h.fuelled;
  enough = h.enough;
  trees = trees s.trees h.trees;
  lines = lines s.lines h.lines;
}
  where
    trees : (ts : List Tree) → OnlyCist ts → OnlyCist (map tree_defaults ts)
    trees [] a = a
    trees (t ∷ []) a = a
    trees (t ∷ u ∷ ts) a = a

    lines : (ls : List Line) → All HasTimes ls → All HasTimes (map (reset_line s.bridge) ls)
    lines [] a = tt
    lines (l ∷ ls) a = (reset_line-HasTimes s.bridge l a.0, lines ls a.1)

-- A bridge without MSTIs that was disabled and is enabled runs its machines and returns, once the
-- clock passes the second that they have, whatever states and counts they were left in, also if the
-- bridge and its ports are new: with a migration time that is not 0, a hello time in `portTimes` of
-- each port, no port deleted, a hold count below 2^32, and fuel above 64 and twice the hold count
-- and two. Then the bridge is orderly and the next run returns too.
pub enable_returns :
    (fuel : ℕ) (start : TimeSpec) (tvs : List TimeSpec) (s : Station)
    → s.bridge.bridge_enabled ≡ false
    → IsReady fuel s
    → any_of (is_late (record start { sec = start.sec + 1 })) tvs ≡ true
    → (t : Station) × (set_bridge_enable true fuel start tvs s ≡ some t)
      × IsCalm fuel t
      × IsOrderly t
unfolding set_bridge_enable reset
enable_returns fuel start tvs s b h l =
    let (t, e, k, o) =
      begin_returns fuel start tvs (reset true s) refl (reset-IsReady true fuel s h) l in
    (
      t,
      subst
          (λ x.
            (if bool_differs x true
              then br_state_machines_begin fuel start tvs (reset true s)
              else some s)
            ≡ some t)
          (sym b) e,
      k,
      o,
    )

-- The calls of the driver that disable the entries that are not disabled yet.
abbrev pub told : List PerTreePort → List Output
told [] = []
told (p ∷ ps) =
    let rest = told ps in
    if same_br_state p.state BrState.disabled
    then rest
    else Output.set_state BrState.disabled ∷ rest

reset_entries-told :
    (ps : List PerTreePort) (prt : Port) (out : List Output)
    → (reset_entries ps prt out).out ≡ out ++ told ps
unfolding reset_entries StateTransition.out_set_state
reset_entries-told [] prt out = sym (append-nil out)
reset_entries-told (p ∷ ps) prt out = elim (Bool-cases (same_br_state p.state BrState.disabled)) [
  | inl e ↦ rw e (reset_entries-told ps prt out)
  | inr e ↦ rw e (
      reset_entries-told ps _ (out ++ (Output.set_state BrState.disabled ∷ []))
      ∙ append_assoc out (Output.set_state BrState.disabled ∷ []) (told ps))
]

-- The driver is told, after the end of a rapid ageing, to disable the port in every tree in which it is
-- not disabled, in the order of the trees, and nothing else.
abbrev pub IsTold : Bridge → Line → Line → Type 0
IsTold br l m = m.out ≡ (l.out ++ stop_ageing br l.node.port) ++ told (entries l.node)

reset_line-IsTold : (br : Bridge) (l : Line) → IsTold br l (reset_line br l)
unfolding reset_line
reset_line-IsTold br l =
    reset_entries-told (entries l.node) (port_defaults l.node.port)
      (l.out ++ stop_ageing br l.node.port)

reset-IsTold : (up : Bool) (s : Station) → All2 (IsTold s.bridge) s.lines (reset up s).lines
unfolding reset
reset-IsTold up s = all s.lines
  where
    all : (ls : List Line) → All2 (IsTold s.bridge) ls (map (reset_line s.bridge) ls)
    all [] = tt
    all (l ∷ ls) = (reset_line-IsTold s.bridge l, all ls)

-- Disabling a bridge runs no machine and returns: the driver is told, after the end of a rapid ageing,
-- to disable each port in every tree in which it is not disabled, in the order of the trees, and
-- nothing else; all entries are disabled then; and a second call changes nothing.
pub disable_turns_off :
    (fuel : ℕ) (start : TimeSpec) (tvs : List TimeSpec) (s : Station)
    → s.bridge.bridge_enabled ≡ true
    → let t = reset false s in
      (set_bridge_enable false fuel start tvs s ≡ some t)
      × AllOff t
      × All2 (IsTold s.bridge) s.lines t.lines
      × (t.bridge.bridge_enabled ≡ false)
      × (set_bridge_enable false fuel start tvs t ≡ some t)
unfolding set_bridge_enable br_state_machines_begin reset
disable_turns_off fuel start tvs s b = (
  subst
      (λ x.
        (if bool_differs x false
          then br_state_machines_begin fuel start tvs (reset false s)
          else some s)
        ≡ some (reset false s))
      (sym b) refl,
  reset-AllOff s false,
  reset-IsTold false s,
  refl,
  refl,
)
