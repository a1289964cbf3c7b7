-- ===== src/Examples/Domains.antt =====
-- Bridges with their tables, and bridges that are created, enabled and disabled.
use mstpd.Prelude.{ℕ, ◌≡◌, refl, true, false, some, List, [], ◌∷◌, arith, any_of}
use mstpd.Types.{Port}
use mstpd.Station.Grid.{Line, Station}
use mstpd.Station.Carry.{IsOrderly}
use mstpd.Station.Calm.{IsCalm}
use mstpd.Station.Keep.{All2}
use mstpd.Lifecycle.Ports.{new_line, new_port}
use mstpd.Allocation.Trees.{create_tree, create_ptp}
use mstpd.Station.Returns.{run_returns}
use mstpd.Station.Restart.{IsReady, begin_returns}
use mstpd.Station.Loop.{TimeSpec, is_late, br_state_machines_run}
use mstpd.Station.Second.{one_second}
use mstpd.Station.Ticking.{one_second_returns}
use mstpd.Station.Start.{br_state_machines_begin}
use mstpd.Station.Outset.{begin_makes_order}
use mstpd.Allocation.Tables.{
  Domain, set_vid2fid, set_all_vids2fids, set_fid2mstid, set_all_fids2mstids, set_mst_config_id,
}
use mstpd.Allocation.Trees.{create_msti, delete_msti}
use mstpd.Allocation.Fresh.{Renews, tables_renew}
use mstpd.Allocation.Name.{Stores, IsStored, mst_config_id_stored}
use mstpd.Allocation.Valid.{IsAllocated}
use mstpd.Allocation.Orderly.{Orders, allocation_keeps_order}
use mstpd.Allocation.Kept.{allocation_stays_valid}
use mstpd.Allocation.Listing.{Inserts, Removes, mstilist_refines}
use mstpd.Lifecycle.Bridges.{bridge_create, set_bridge_enable, reset}
use mstpd.Lifecycle.Created.{created_bridge_valid}
use mstpd.Lifecycle.Enabled.{AllOff, IsTold, enable_returns, disable_turns_off}
use mstpd.Examples.Stations.{
  resting_node, get_or, resting_station, told_station, told_station-IsOrderly,
}

-- A digest that depends on its table, in place of HMAC-MD5.
abbrev checksum : List ℕ → ℕ
checksum [] = 0
checksum (x ∷ xs) = x

abbrev new_domain : Domain
new_domain = bridge_create checksum 77

abbrev some_speed : Port → ℕ
some_speed prt = 100

new_domain-IsAllocated : IsAllocated new_domain
new_domain-IsAllocated = (created_bridge_valid checksum 77 (omega arith)).0

new_domain-IsStored : IsStored new_domain
new_domain-IsStored = (created_bridge_valid checksum 77 (omega arith)).2

tables_renew_example :
    ((vid fid : ℕ) → Renews checksum new_domain (set_vid2fid checksum vid fid new_domain))
    × ((g : ℕ → ℕ) → Renews checksum new_domain (set_all_vids2fids checksum g new_domain))
    × ((fid m : ℕ) → Renews checksum new_domain (set_fid2mstid checksum fid m new_domain))
    × ((g : ℕ → ℕ) → Renews checksum new_domain (set_all_fids2mstids checksum g new_domain))
tables_renew_example = tables_renew checksum new_domain

mst_config_id_stored_example :
    Stores checksum 1 (110 ∷ []) new_domain (set_mst_config_id 1 (110 ∷ []) new_domain)
mst_config_id_stored_example =
    mst_config_id_stored checksum 1 (110 ∷ []) new_domain new_domain-IsStored

allocation_stays_valid_example :
    ((vid fid : ℕ) → IsAllocated (set_vid2fid checksum vid fid new_domain).state)
    × ((g : ℕ → ℕ) → IsAllocated (set_all_vids2fids checksum g new_domain).state)
    × ((fid m : ℕ) → IsAllocated (set_fid2mstid checksum fid m new_domain).state)
    × ((g : ℕ → ℕ) → IsAllocated (set_all_fids2mstids checksum g new_domain).state)
    × ((rev : ℕ) (name : List ℕ) → IsAllocated (set_mst_config_id rev name new_domain).state)
    × ((m : ℕ) → IsAllocated (create_msti some_speed m new_domain).state)
    × ((m : ℕ) → IsAllocated (delete_msti m new_domain).state)
allocation_stays_valid_example =
    allocation_stays_valid checksum some_speed new_domain new_domain-IsAllocated

mstilist_refines_example :
    ((speed : Port → ℕ) (m : ℕ) → Inserts m new_domain (create_msti speed m new_domain))
    × ((m : ℕ) → Removes m new_domain (delete_msti m new_domain))
mstilist_refines_example = mstilist_refines new_domain new_domain-IsAllocated

-- A clock that passes the second of a run.
abbrev long_clock : List TimeSpec
long_clock =
    record { sec = 5; nsec = 10 }
    ∷ record { sec = 5; nsec = 20 }
    ∷ record { sec = 5; nsec = 30 }
    ∷ record { sec = 9; nsec = 0 }
    ∷ []

told_station-IsCalm : IsCalm 100 told_station
told_station-IsCalm = record {
  migrate = ground arith;
  bounded = omega arith;
  fuelled = omega arith;
  enough = omega arith;
  trees = refl;
  lines = (
    record {
      alive = refl;
      alone = refl;
      easy = record {
        coherent = refl;
        role_tame = λ e. ground arith;
        selected_tame = λ e. ground arith;
        hello = ground arith;
        designated_hello = ground arith;
      };
      counted = omega arith;
    },
    tt,
  );
}

long_clock_ends : any_of (is_late (record { sec = 6; nsec = 0 })) long_clock ≡ true
unfolding is_late
long_clock_ends = refl

run_returns_example :
    (t : Station) × (br_state_machines_run 100
        (record { sec = 5; nsec = 0 })
        long_clock
        told_station
      ≡ some t)
    × IsCalm 100 t
    × (IsOrderly told_station → IsOrderly t)
run_returns_example =
    run_returns 100 (record { sec = 5; nsec = 0 }) long_clock told_station told_station-IsCalm
      long_clock_ends

-- The bridge of the examples with one port, with all VIDs and FIDs in the CIST.
abbrev told_domain : Domain
told_domain = record {
  station = told_station;
  vid2fid = λ vid. 0;
  fid2mstid = λ fid. 0;
  configuration_name = [];
  revision_level = 0;
  configuration_digest = 0;
}

told_domain-IsAllocated : IsAllocated told_domain
told_domain-IsAllocated = record {
  fids = λ vid l u. omega arith;
  trees = λ fid u. refl;
  sorted = (refl, tt);
  count = omega arith;
  rows = (refl, tt);
}

-- A new bridge with a new port.
abbrev new_port_line : Line
new_port_line =
    get_or (record { node = resting_node; out = [] }) (new_line 1 100 new_domain.station.trees)

abbrev idle_station : Station
idle_station = record (new_domain.station) { lines = new_port_line ∷ [] }

idle_station-IsReady : IsReady 100 idle_station
unfolding bridge_create mstpd.Allocation.Tables.recalc_config_digest create_tree new_line new_port
    create_ptp
idle_station-IsReady = record {
  migrate = ground arith;
  bounded = omega arith;
  fuelled = omega arith;
  enough = omega arith;
  trees = refl;
  lines = (record { alive = refl; alone = refl; hello = ground arith }, tt);
}

abbrev up_station : Station
up_station = record idle_station { bridge = record (idle_station.bridge) { bridge_enabled = true } }

up_station-IsReady : IsReady 100 up_station
up_station-IsReady = record {
  migrate = idle_station-IsReady.migrate;
  bounded = idle_station-IsReady.bounded;
  fuelled = idle_station-IsReady.fuelled;
  enough = idle_station-IsReady.enough;
  trees = idle_station-IsReady.trees;
  lines = idle_station-IsReady.lines;
}

begin_returns_example :
    (t : Station) × (br_state_machines_begin 100
        (record { sec = 5; nsec = 0 })
        long_clock
        up_station
      ≡ some t)
    × IsCalm 100 t
    × IsOrderly t
begin_returns_example =
    begin_returns 100 (record { sec = 5; nsec = 0 }) long_clock up_station refl up_station-IsReady
      long_clock_ends

allocation_keeps_order_example :
    ((vid fid : ℕ)
      → Orders 100
          (record { sec = 5; nsec = 0 })
          long_clock
          (set_vid2fid checksum vid fid told_domain))
    × ((g : ℕ → ℕ)
        → Orders 100
            (record { sec = 5; nsec = 0 })
            long_clock
            (set_all_vids2fids checksum g told_domain))
    × ((fid m : ℕ)
        → Orders 100
            (record { sec = 5; nsec = 0 })
            long_clock
            (set_fid2mstid checksum fid m told_domain))
    × ((g : ℕ → ℕ)
        → Orders 100
            (record { sec = 5; nsec = 0 })
            long_clock
            (set_all_fids2mstids checksum g told_domain))
    × ((rev : ℕ) (name : List ℕ)
        → Orders 100
            (record { sec = 5; nsec = 0 })
            long_clock
            (set_mst_config_id rev name told_domain))
    × ((m : ℕ) → Orders 100 (record { sec = 5; nsec = 0 }) long_clock (delete_msti m told_domain))
allocation_keeps_order_example =
    allocation_keeps_order checksum 100 (record { sec = 5; nsec = 0 }) long_clock told_domain
      told_domain-IsAllocated told_station-IsOrderly

disable_turns_off_example :
    (set_bridge_enable false 100 (record { sec = 5; nsec = 0 }) long_clock resting_station
      ≡ some (reset false resting_station))
    × AllOff (reset false resting_station)
    × All2 (IsTold resting_station.bridge) resting_station.lines (reset false resting_station).lines
    × ((reset false resting_station).bridge.bridge_enabled ≡ false)
    × (set_bridge_enable false 100
          (record { sec = 5; nsec = 0 })
          long_clock
          (reset false resting_station)
        ≡ some (reset false resting_station))
unfolding reset
disable_turns_off_example =
    disable_turns_off 100 (record { sec = 5; nsec = 0 }) long_clock resting_station refl

new_begins :
    (t : Station) × (br_state_machines_begin 100
        (record { sec = 5; nsec = 0 })
        long_clock
        up_station
      ≡ some t)
    × IsCalm 100 t
    × IsOrderly t
new_begins =
    begin_returns 100 (record { sec = 5; nsec = 0 }) long_clock up_station refl up_station-IsReady
      long_clock_ends

begin_makes_order_example : IsOrderly new_begins.0
unfolding new_line new_port create_ptp bridge_create
begin_makes_order_example =
    begin_makes_order 100 (record { sec = 5; nsec = 0 }) long_clock up_station new_begins.0 refl
      (refl, tt) new_begins.1

enable_returns_example :
    (t : Station) × (set_bridge_enable true 100
        (record { sec = 5; nsec = 0 })
        long_clock
        idle_station
      ≡ some t)
    × IsCalm 100 t
    × IsOrderly t
unfolding bridge_create
enable_returns_example =
    enable_returns 100 (record { sec = 5; nsec = 0 }) long_clock idle_station refl
      idle_station-IsReady long_clock_ends

one_second_returns_example :
    (t : Station) × (one_second 100 (record { sec = 5; nsec = 0 }) long_clock told_station ≡ some t)
    × IsCalm 100 t
    × (IsOrderly told_station → IsOrderly t)
one_second_returns_example =
    one_second_returns 100 (record { sec = 5; nsec = 0 }) long_clock told_station
      told_station-IsCalm long_clock_ends
