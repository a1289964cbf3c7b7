-- ===== src/Station.antt =====
-- mstp.h and mstp.c: a bridge with its ports and trees, br_state_machines_run, which runs the machines
-- of all ports and trees until no dry run reports a change, and MSTP_IN_one_second.
--
-- `Grid` has the state and the access to it, `Rows` and `Cells` the machines of a port and of a port
-- in a tree, `Pass` one round over all machines, `Loop` the loop, `Second` the tick and `Start` the
-- start of the machines. `Entering` and `Outset` are about the start, and `Calm`, the files
-- `Settling..`, `Returns` and `Restart` about the end of a run, on bridges without MSTIs. `Split`,
-- `Keep`, `Access` and `Columns` are about the access; `StillRows`, `StillCells` and `Quiet` about
-- rounds without a change; `Sound` has the invariant of an entry, and `Tracks` to `Electing` are about
-- what each machine does to it; `Invariant`, `Seconds` and `Ticking` are about the run and the tick, `Resting`
-- about a bridge at rest.
pub mod Grid
pub mod Rows
pub mod Cells
pub mod Pass
pub mod Loop
pub mod Second
pub mod Start
pub mod Entering
pub mod Outset
pub mod Split
pub mod StillRows
pub mod StillCells
pub mod Quiet
pub mod Keep
pub mod Sound
pub mod Tracks
pub mod Moves
pub mod Informs
pub mod Steps
pub mod Access
pub mod Columns
pub mod Selection
pub mod Carry
pub mod Entries
pub mod Electing
pub mod Invariant
pub mod Calm
pub mod Settling
pub mod SettlingEntries
pub mod SettlingCells
pub mod SettlingTrees
pub mod Returns
pub mod Restart
pub mod Seconds
pub mod Ticking
pub mod Resting
