-- ===== src/Station/Carry.antt =====
-- mstp.c, __br_state_machines_run: on the invariant of a bridge, through one round and the loop.
use mathlib.Core.Path.{subst}
use mathlib.Core.Option
use mstpd.Prelude.{
  ℕ, ◌≤◌, ◌≡◌, false, Option, some, List, [], ◌∷◌, refl, sym, ◌∙◌, Option-cases, inl, inr, All,
  traverse, length,
}
use mstpd.Types.{Bridge, PortNode}
use mstpd.Migration
use mstpd.Transmit
use mstpd.Station.Grid.{Line, Station, column}
use mstpd.Station.Rows.{
  assurance_line, receive_line, migrate_line, detect_line, transmit_line, transmit_view,
}
use mstpd.Station.Pass.{each_line, each_entry}
use mstpd.Station.Keep.{All2, All2-trans, All-All2, for_from_keeps, traverse_keeps}
use mstpd.Station.Sound.{IsSound, Tracks, Tracks-refl, Tracks-trans, TracksNode}
use mstpd.Station.Access.{NodeBy-refl}
use mstpd.Station.Tracks.{All-Tracks, receive-Tracks, migrate-alive, detect-Tracks, transmit-Tracks}
use mstpd.Station.Columns.{roots, roots-Tracks, column-All2}

-- A port that is in the bridge, with sound entries.
abbrev pub SoundLine : Line → Type 0
SoundLine l = (l.node.port.deleted ≡ false) × IsSound l.node.cist × All IsSound l.node.mstis

-- Every port is in the bridge and sound in every tree, and in no tree more than one port is selected
-- as the root port.
pub record IsOrderly (s : Station) : Type 0 where
  pub sound : All SoundLine s.lines
  pub one_root : (j : ℕ) → roots (column j s.lines) ≤ 1

abbrev pub Carries : Station → Station → Type 0
Carries s t = IsOrderly s → IsOrderly t

pub Carries-refl : (s : Station) → Carries s s
Carries-refl s h = h

pub Carries-trans : (s t u : Station) → Carries s t → Carries t u → Carries s u
Carries-trans s t u h k p = k (h p)

-- What the machines, but PRSSM, do to a port.
abbrev pub TracksLine : Line → Line → Type 0
TracksLine l m = l.node.port.deleted ≡ false → TracksNode l.node m.node

Node-refl : (n : PortNode) → TracksNode n n
Node-refl = NodeBy-refl Tracks Tracks-refl Tracks-trans

pub TracksLine-refl : (l : Line) → TracksLine l l
TracksLine-refl l d = Node-refl l.node

pub TracksLine-trans : (l m k : Line) → TracksLine l m → TracksLine m k → TracksLine l k
TracksLine-trans l m k h g d =
    let a = h d in
    let b = g (a.alive ∙ d) in
    record {
      alive = b.alive ∙ a.alive;
      cist = Tracks-trans l.node.cist m.node.cist k.node.cist a.cist b.cist;
      mstis =
          All2-trans Tracks Tracks-refl Tracks-trans l.node.mstis m.node.mstis k.node.mstis a.mstis
            b.mstis;
    }

SoundLine-Tracks : (l m : Line) → SoundLine l → TracksLine l m → SoundLine m
SoundLine-Tracks l m (d, c, ms) h =
    let a = h d in
    (
      a.alive ∙ d,
      a.cist.sound c,
      All-All2 IsSound Tracks (λ p q i t. t.sound i) l.node.mstis m.node.mstis ms a.mstis,
    )

awake :
    (ls ms : List Line)
    → All SoundLine ls
    → All2 TracksLine ls ms
    → All2 (λ l m. TracksNode l.node m.node) ls ms
awake [] [] s h = tt
awake [] (m ∷ ms) s h = h
awake (l ∷ ls) [] s h = h
awake (l ∷ ls) (m ∷ ms) s h = (h.0 s.0.0, awake ls ms s.1 h.1)

pub lines-Carries : (s t : Station) → All2 TracksLine s.lines t.lines → Carries s t
lines-Carries s t h o = record {
  sound = All-All2 SoundLine TracksLine SoundLine-Tracks s.lines t.lines o.sound h;
  one_root = λ j.
      subst (λ n. n ≤ 1)
        (sym (
          roots-Tracks _ _
            (column-All2 Tracks j s.lines t.lines (awake s.lines t.lines o.sound h))))
        (o.one_root j);
}

pub each_line-Carries :
    (f : Line → Option Line)
    → ((l m : Line) → f l ≡ some m → TracksLine l m)
    → (s t : Station) → each_line f s ≡ some t
    → Carries s t
each_line-Carries f k s t e = elim (Option-cases (traverse f s.lines)) [
  | inl n ↦ cc (rw (n, each_line) at e)
  | inr (ls, n) ↦ lines-Carries s t (
      subst (λ (x : Station). All2 TracksLine s.lines x.lines)
        (Option.some-injective _ _ (rw (n, each_line) at e))
        (traverse_keeps TracksLine f k s.lines ls n))
]

pub each_entry-Carries :
    (f : ℕ → ℕ → Station → Option Station)
    → ((i j : ℕ) (s t : Station) → f i j s ≡ some t → Carries s t)
    → (s t : Station) → each_entry f s ≡ some t
    → Carries s t
each_entry-Carries f k s t =
    for_from_keeps Carries Carries-refl Carries-trans _
      (λ i. for_from_keeps Carries Carries-refl Carries-trans (f i) (k i) 0 (length s.trees)) 0
      (length s.lines) s t

-- The machines of a port.
node-TracksLine : (l m : Line) → TracksNode l.node m.node → TracksLine l m
node-TracksLine l m h d = h

pub assurance_line-Tracks : (l m : Line) → assurance_line l ≡ some m → TracksLine l m
assurance_line-Tracks l m e d =
    subst (λ (x : Line). TracksNode l.node x.node) (Option.some-injective _ _ e)
      (record { alive = refl; cist = Tracks-refl l.node.cist; mstis = All-Tracks l.node.mstis })

pub receive_line-Tracks : (br : Bridge) (l m : Line) → receive_line br l ≡ some m → TracksLine l m
receive_line-Tracks br l m e d =
    subst (λ (x : Line). TracksNode l.node x.node) (Option.some-injective _ _ e)
      (receive-Tracks br l.node)

pub detect_line-Tracks : (l m : Line) → detect_line l ≡ some m → TracksLine l m
detect_line-Tracks l m e d =
    subst (λ (x : Line). TracksNode l.node x.node) (Option.some-injective _ _ e)
      (detect-Tracks l.node)

pub migrate_line-Tracks :
    (fuel : ℕ) (br : Bridge) (l m : Line) → migrate_line fuel br l ≡ some m → TracksLine l m
migrate_line-Tracks fuel br l m e d = elim (Option-cases (Migration.run fuel br l.node.port)) [
  | inl n ↦ cc (rw (n, migrate_line) at e)
  | inr (p, n) ↦
      subst (λ (x : Line). TracksNode l.node x.node)
        (Option.some-injective _ _ (rw (n, migrate_line) at e))
        (record {
          alive = migrate-alive fuel br l.node.port p n;
          cist = Tracks-refl l.node.cist;
          mstis = All-Tracks l.node.mstis;
        })
]

pub transmit_line-Tracks :
    (fuel : ℕ) (br : Bridge) (l m : Line) → transmit_line fuel br l ≡ some m → TracksLine l m
transmit_line-Tracks fuel br l m e d =
    elim (Option-cases (Transmit.Run.run fuel (transmit_view br l))) [
      | inl n ↦ cc (rw (n, transmit_line) at e)
      | inr (w, n) ↦
          subst (λ (x : Line). TracksNode l.node x.node)
            (Option.some-injective _ _ (rw (n, transmit_line) at e))
            (transmit-Tracks fuel (transmit_view br l) w n)
    ]
