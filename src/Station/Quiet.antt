-- ===== src/Station/Quiet.antt =====
-- mstp.c: on the rounds of br_state_machines_run in which no machine has anything to do.
use mstpd.Prelude.{
  ℕ, suc, Bool, false, ◌>>=◌, ◌||◌, Option, some, arith, ◌≡◌, any_of, any_from, for_from, length,
}
use mstpd.Receive
use mstpd.Migration
use mstpd.EdgeDetection
use mstpd.Transmit
use mstpd.Station.Grid.{Line, Station, entries}
use mstpd.Station.Rows.{
  inform_line, move_line, assurance_line, loses_assurance, receive_line, migrate_line, detect_line,
  transmit_line, transmit_view,
}
use mstpd.Station.Cells.{select_tree, transit_entry, change_entry}
use mstpd.Station.Pass.{
  change, move, transit, select, inform, transmit, detect, migrate, receive, pass, each_line,
  each_entry, any_entry, dry_pass, inform_dry, move_dry, select_dry, transit_dry, change_dry,
}
use mstpd.Station.StillRows.{
  traverse_still, for_from_still, assurance_line_still, receive_line_still, migrate_line_still,
  detect_line_still, transmit_line_still, inform_line_still, move_line_still,
}
use mstpd.Station.StillCells.{select_tree_still, transit_entry_still, change_entry_still}

-- A round in which no machine has anything to do.
each_line_still :
    (f : Line → Option Line) (d : Line → Bool)
    → ((l : Line) → d l ≡ false → f l ≡ some l)
    → (s : Station) → any_of d s.lines ≡ false
    → each_line f s ≡ some s
each_line_still f d still s h = rw (traverse_still f d still s.lines h, each_line)

each_entry_still :
    (f : ℕ → ℕ → Station → Option Station) (d : ℕ → ℕ → Bool) (s : Station)
    → ((i j : ℕ) → d i j ≡ false → f i j s ≡ some s)
    → any_entry d s ≡ false
    → each_entry f s ≡ some s
each_entry_still f d s still h =
    for_from_still (λ i. for_from 0 (length s.trees) (f i)) (λ i. any_from 0 (length s.trees) (d i))
      s (λ i. for_from_still (f i) (d i) s (still i) 0 (length s.trees)) 0 (length s.lines) h

then-still {ℓ} :
    {S : Type ℓ} {m : Option S} (f : S → Option S) {s : S}
    → m ≡ some s
    → f s ≡ some s
    → (m >>= f) ≡ some s
then-still f e h = rw (e, ◌>>=◌) h

-- The answers of the ten loops of a dry run.
pub record IsQuiet (s : Station) : Type 0 where
  pub assured : any_of (λ l. loses_assurance l.node.port) s.lines ≡ false
  pub received : any_of (λ l. Receive.dry_run s.bridge l.node) s.lines ≡ false
  pub migrated : any_of (λ l. Migration.dry_run s.bridge l.node.port) s.lines ≡ false
  pub detected : any_of (λ l. EdgeDetection.dry_run l.node) s.lines ≡ false
  pub transmitted : any_of (λ l. Transmit.Run.dry_run (transmit_view s.bridge l)) s.lines ≡ false
  pub informed :
      any_of (λ l. any_from 0 (length (entries l.node)) (λ j. inform_dry s.bridge j l)) s.lines
      ≡ false
  pub selected : any_from 0 (length s.trees) (λ j. select_dry j s) ≡ false
  pub transited : any_entry (λ i j. transit_dry i j s) s ≡ false
  pub moved : any_of (λ l. any_from 0 (length (entries l.node)) (λ j. move_dry j l)) s.lines ≡ false
  pub changed : any_entry (λ i j. change_dry i j s) s ≡ false

or-all-10 :
    (a b c d e f g h i j : Bool)
    → (a || b || c || d || e || f || g || h || i || j) ≡ false
    → (a ≡ false)
      × (b ≡ false)
      × (c ≡ false)
      × (d ≡ false)
      × (e ≡ false)
      × (f ≡ false)
      × (g ≡ false)
      × (h ≡ false)
      × (i ≡ false)
      × (j ≡ false)
or-all-10 a b c d e f g h i j p = ground arith

pub dry_pass-IsQuiet : (s : Station) → dry_pass s ≡ false → IsQuiet s
unfolding dry_pass
dry_pass-IsQuiet s h =
    let (a, b, c, d, e, f, g, k, i, j) = or-all-10 _ _ _ _ _ _ _ _ _ _ h in
    record {
      assured = a;
      received = b;
      migrated = c;
      detected = d;
      transmitted = e;
      informed = f;
      selected = g;
      transited = k;
      moved = i;
      changed = j;
    }

-- When a dry run over all machines reports no change, an actual run leaves the whole bridge as it is and calls no driver.
pub pass_quiet : (fuel : ℕ) (s : Station) → dry_pass s ≡ false → pass (suc fuel) s ≡ some s
unfolding pass
pass_quiet fuel s h =
    let q = dry_pass-IsQuiet s h in
    let r = s.bridge in
    let n = suc fuel in
    then-still (change n)
      (then-still (move n)
        (then-still (transit n)
          (then-still select
            (then-still (inform n)
              (then-still (transmit n)
                (then-still detect
                  (then-still (migrate n)
                    (then-still receive
                      (each_line_still assurance_line _ assurance_line_still s q.assured)
                      (each_line_still (receive_line r) _ (receive_line_still r) s q.received))
                    (each_line_still (migrate_line n r) _ (migrate_line_still fuel r) s q.migrated))
                  (each_line_still detect_line _ detect_line_still s q.detected))
                (each_line_still (transmit_line n r) _ (transmit_line_still fuel r) s
                  q.transmitted))
              (each_line_still (inform_line n r) _ (inform_line_still fuel r) s q.informed))
            (for_from_still select_tree _ s (λ j. select_tree_still j s) 0 (length s.trees)
              q.selected))
          (each_entry_still (transit_entry n) _ s (λ i j. transit_entry_still fuel i j s)
            q.transited))
        (each_line_still (move_line n) _ (move_line_still fuel) s q.moved))
      (each_entry_still (change_entry n) _ s (λ i j. change_entry_still fuel i j s) q.changed)
