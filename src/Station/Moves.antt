-- ===== src/Station/Moves.antt =====
-- mstp.c: what a machine that writes several entries does to them.
use mstpd.Prelude.{List, ◌≡◌, refl, ◌∙◌}
use mstpd.Types.{Port, PerTreePort}
use mstpd.PortInformation.View.{InfoView}
use mstpd.Station.Keep.{All2}
use mstpd.Station.Sound.{Tracks, Tracks-refl, Tracks-trans}
use mstpd.Station.Tracks.{All-Tracks, All-Tracks-trans}

-- An entry, the port of the machine and the other entries that it writes.
pub record Moves (p q : PerTreePort) (prt prt' : Port) (ps qs : List PerTreePort) : Type 0 where
  pub me : Tracks p q
  pub alive : prt'.deleted ≡ prt.deleted
  pub others : All2 Tracks ps qs

pub Moves-refl : (p : PerTreePort) (prt : Port) (ps : List PerTreePort) → Moves p p prt prt ps ps
Moves-refl p prt ps = record { me = Tracks-refl p; alive = refl; others = All-Tracks ps }

pub Moves-trans :
    {p q r : PerTreePort} {a b c : Port} {ps qs rs : List PerTreePort}
    → Moves p q a b ps qs
    → Moves q r b c qs rs
    → Moves p r a c ps rs
Moves-trans {p} {q} {r} {ps = ps} {qs} {rs} h k = record {
  me = Tracks-trans p q r h.me k.me;
  alive = k.alive ∙ h.alive;
  others = All-Tracks-trans ps qs rs h.others k.others;
}

abbrev pub Informs : InfoView → InfoView → Type 0
Informs v w = Moves v.me w.me v.port w.port v.others w.others
