-- ===== src/Station/StillRows.antt =====
-- mstp.c: on the machines of a port when their dry runs report no change.
use mstpd.Prelude.{
  ℕ, zero, suc, Bool, false, ◌||◌, Option, none, some, List, [], ◌∷◌, arith, ◌≡◌, refl, ap,
  Option-cases, inl, inr, any_of, any_from, traverse, for_from, length, is_some,
}
use mstpd.Types.{Bridge}
use mstpd.Receive
use mstpd.Receive.OneCall.{dry_run-false}
use mstpd.Migration
use mstpd.EdgeDetection
use mstpd.Transmit
use mstpd.Transmit.Message.{TransmitView}
use mstpd.PortInformation
use mstpd.PortInformation.View.{InfoView}
use mstpd.StateTransition
use mstpd.Station.Grid.{Line, place, with_entries, entries, entry_at}
use mstpd.Station.Rows.{
  inform_line, move_line, with_node, assurance_line, loses_assurance, receive_line, migrate_line,
  detect_line, transmit_line, transmit_view, info_view, state_view, inform_entry, move_entry,
}
use mstpd.Station.Split.{insert_at-place, set_entry-entry_at}
use mstpd.Station.Pass.{inform_dry, move_dry}

pub or-left : (a b : Bool) → (a || b) ≡ false → a ≡ false
or-left a b h = ground arith

pub or-right : (a b : Bool) → (a || b) ≡ false → b ≡ false
or-right a b h = ground arith

-- A loop whose body changes nothing where its test fails.
module _ {ℓ} {A : Type ℓ} (f : A → Option A) (d : A → Bool)
    (still : (x : A) → d x ≡ false → f x ≡ some x) where
  pub traverse_still : (xs : List A) → any_of d xs ≡ false → traverse f xs ≡ some xs
  traverse_still [] h = refl
  traverse_still (x ∷ xs) h =
      rw (
        still x (or-left (d x) (any_of d xs) h),
        traverse_still xs (or-right (d x) (any_of d xs) h),
      )

module _ {ℓ} {S : Type ℓ} (f : ℕ → S → Option S) (d : ℕ → Bool) (s : S)
    (still : (i : ℕ) → d i ≡ false → f i s ≡ some s) where
  pub for_from_still : (i n : ℕ) → any_from i n d ≡ false → for_from i n f s ≡ some s
  for_from_still i zero h = refl
  for_from_still i (suc n) h =
      rw (still i (or-left (d i) (any_from (suc i) n d) h))
        (for_from_still (suc i) n (or-right (d i) (any_from (suc i) n d) h))

-- A machine that steps while some rule applies.
pub is_some-none {ℓ} : {A : Type ℓ} (o : Option A) → is_some o ≡ false → o ≡ none
is_some-none none h = refl
is_some-none (some a) h = cc

pub assurance_line_still :
    (l : Line) → loses_assurance l.node.port ≡ false → assurance_line l ≡ some l
assurance_line_still l h = ground arith

pub receive_line_still :
    (br : Bridge) (l : Line) → Receive.dry_run br l.node ≡ false → receive_line br l ≡ some l
receive_line_still br l h = ap (λ n. some (with_node n l)) (dry_run-false br l.node h)

pub migrate_line_still :
    (fuel : ℕ) (br : Bridge) (l : Line)
    → Migration.dry_run br l.node.port ≡ false
    → migrate_line (suc fuel) br l ≡ some l
unfolding Migration.dry_run Migration.run
migrate_line_still fuel br l h = ground arith

pub detect_line_still : (l : Line) → EdgeDetection.dry_run l.node ≡ false → detect_line l ≡ some l
unfolding EdgeDetection.dry_run EdgeDetection.run
detect_line_still l h = rw h refl

transmit-still :
    (fuel : ℕ) (v : TransmitView)
    → Transmit.Run.dry_run v ≡ false
    → Transmit.Run.run (suc fuel) v ≡ some v
unfolding Transmit.Run.dry_run Transmit.Run.run Transmit.Run.to_transmit_init
    Transmit.Run.to_transmit_init_dry Transmit.Run.run_enabled
transmit-still fuel v h = ground arith

pub transmit_line_still :
    (fuel : ℕ) (br : Bridge) (l : Line)
    → Transmit.Run.dry_run (transmit_view br l) ≡ false
    → transmit_line (suc fuel) br l ≡ some l
transmit_line_still fuel br l h = rw (transmit-still fuel (transmit_view br l) h, transmit_line)

-- The machines of an entry.
inform_still :
    (fuel : ℕ) (v : InfoView)
    → PortInformation.Run.dry_run v ≡ false
    → PortInformation.Run.run (suc fuel) v ≡ some v
unfolding PortInformation.Run.dry_run PortInformation.Run.run
inform_still fuel v h = rw (is_some-none _ h, PortInformation.Run.run)

inform_entry_still :
    (fuel : ℕ) (br : Bridge) (j : ℕ) (l : Line)
    → inform_dry br j l ≡ false
    → inform_entry (suc fuel) br j l ≡ some l
unfolding inform_entry
inform_entry_still fuel br j l h = elim (Option-cases (place j (entries l.node))) [
  | inl e ↦ rw (e, inform_entry)
  | inr (q, e) ↦
      rw (e, inform_still fuel (info_view br l q) (rw (e, inform_dry) at h), inform_entry)
        (ap (λ es. some (with_node (with_entries es l.node) l))
          (insert_at-place j (entries l.node) e))
]

pub inform_line_still :
    (fuel : ℕ) (br : Bridge) (l : Line)
    → any_from 0 (length (entries l.node)) (λ j. inform_dry br j l) ≡ false
    → inform_line (suc fuel) br l ≡ some l
inform_line_still fuel br l =
    for_from_still (inform_entry (suc fuel) br) (λ j. inform_dry br j l) l
      (λ j. inform_entry_still fuel br j l) 0 (length (entries l.node))

move_still :
    (fuel : ℕ) (v : StateTransition.StateView)
    → StateTransition.dry_run v ≡ false
    → StateTransition.run (suc fuel) v ≡ some v
unfolding StateTransition.dry_run StateTransition.run
move_still fuel v h = rw (is_some-none _ h, StateTransition.run)

move_entry_still :
    (fuel j : ℕ) (l : Line) → move_dry j l ≡ false → move_entry (suc fuel) j l ≡ some l
unfolding move_entry
move_entry_still fuel j l h = elim (Option-cases (entry_at j l.node)) [
  | inl e ↦ rw (e, move_entry)
  | inr (p, e) ↦
      rw (e, move_still fuel (state_view l p) (rw (e, move_dry) at h), move_entry)
        (ap (λ n. some (with_node n l)) (set_entry-entry_at j l.node e))
]

pub move_line_still :
    (fuel : ℕ) (l : Line)
    → any_from 0 (length (entries l.node)) (λ j. move_dry j l) ≡ false
    → move_line (suc fuel) l ≡ some l
move_line_still fuel l =
    for_from_still (move_entry (suc fuel)) (λ j. move_dry j l) l (λ j. move_entry_still fuel j l) 0
      (length (entries l.node))
