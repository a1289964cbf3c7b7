-- ===== src/Timers/Marks.antt =====
-- mstp.c, PTSM_tick: on the topology change mark of the trees.
use mstpd.Prelude.{◌≡◌, Bool, not, ◌||◌, List, [], ◌∷◌, map, any_of, All, arith, ◌==◌}
use mstpd.TopologyChange.View.{topology_settles}
use mstpd.Timers.{Entry, TimerView, tick_entry, tick_timers}

-- Does a topology change timer run in the tree?
abbrev pub any_tc_while : Entry → Bool
any_tc_while e = not (e.me.tc_while == 0) || any_of (λ p. not (p.tc_while == 0)) e.peers

-- The tree is marked exactly while some topology change timer of its ports runs.
abbrev pub IsMarked : Entry → Type 0
IsMarked e = e.tree.topology_change ≡ any_tc_while e

tick_entry-IsMarked : (e : Entry) → IsMarked e → IsMarked (tick_entry e)
unfolding tick_entry topology_settles
tick_entry-IsMarked e h = ground arith

map-IsMarked : (es : List Entry) → All IsMarked es → All IsMarked (map tick_entry es)
map-IsMarked [] h = tt
map-IsMarked (e ∷ es) h = (tick_entry-IsMarked e h.0, map-IsMarked es h.1)

-- A second's tick at a port keeps the topology change marks: if every tree is marked exactly while a
-- topology change timer runs at one of its ports, then so it is after PTSM_tick counted down the
-- timers of the port, the others standing still.
pub tick_timers-IsMarked :
    (v : TimerView) → All IsMarked v.entries → All IsMarked (tick_timers v).entries
unfolding tick_timers
tick_timers-IsMarked v h = map-IsMarked v.entries h
