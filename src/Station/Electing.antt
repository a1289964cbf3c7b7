-- ===== src/Station/Electing.antt =====
-- mstp.c, PRSSM_run: on the invariant of a bridge.
use mathlib.Core.Path.{subst}
use mathlib.Core.Option
use native.Mathlib.Decide.{ℕ_discrete}
use mstpd.Prelude.{
  ℕ, zero, suc, ◌+◌, ◌≤◌, ◌≡◌, some, List, [], ◌∷◌, map, refl, sym, ◌∙◌, ap, Option-cases, inl, inr,
  bit,
}
use mstpd.Enums.{PortRole, same_role}
use mstpd.Types.{Tree, PerTreePort}
use mstpd.RoleSelection
use mstpd.RoleSelection.Choose.{Member}
use mstpd.RoleSelection.Roles.{TreeView}
use mstpd.RoleSelection.OneRoot.{root_count}
use mstpd.Station.Grid.{Line, Station, get_at, column, put_column}
use mstpd.Station.Cells.{
  cist_member, put_cist_members, msti_members, member_entries, select_cist, select_msti, select_at,
  select_tree,
}
use mstpd.Station.Split.{member_entries-msti_members}
use mstpd.Station.Keep.{All2, All2-weaken, All-All2}
use mstpd.Station.Sound.{IsSound, Tracks, NodeBy}
use mstpd.Station.Access.{put_column-All2}
use mstpd.Station.Columns.{
  roots, roots-Tracks, column-Both, get_at-Both, column-put_column_same, column-put_column_other,
}
use mstpd.Station.Selection.{MemberStays, run-Selects}
use mstpd.Station.Carry.{SoundLine, Carries, Carries-refl}

-- A port of which the selection in the CIST was made.
record CistSteps (l m : Line) : Type 0 where
  alive : m.node.port.deleted ≡ l.node.port.deleted
  cist : IsSound l.node.cist → IsSound m.node.cist
  mstis : All2 Tracks l.node.mstis m.node.mstis

put_cist_members-CistSteps :
    (ls : List Line) (ms : List Member)
    → All2 MemberStays (map cist_member ls) ms
    → All2 CistSteps ls (put_cist_members ms ls)
unfolding put_cist_members
put_cist_members-CistSteps [] [] h = tt
put_cist_members-CistSteps [] (m ∷ ms) h = absurd h
put_cist_members-CistSteps (l ∷ ls) [] h = absurd h
put_cist_members-CistSteps (l ∷ ls) (m ∷ ms) h = (
  record { alive = refl; cist = h.0.me; mstis = h.0.mstis },
  put_cist_members-CistSteps ls ms h.1,
)

SoundLine-CistSteps : (l m : Line) → SoundLine l → CistSteps l m → SoundLine m
SoundLine-CistSteps l m (d, c, ms) h = (
  h.alive ∙ d,
  h.cist c,
  All-All2 IsSound Tracks (λ p q i t. t.sound i) l.node.mstis m.node.mstis ms h.mstis,
)

roots-cist_member : (ls : List Line) → root_count (map cist_member ls) ≡ roots (column 0 ls)
unfolding column
roots-cist_member [] = refl
roots-cist_member (l ∷ ls) =
    ap (λ n. bit (same_role PortRole.root l.node.cist.selected_role) + n) (roots-cist_member ls)

roots-put_cist_members :
    (ls : List Line) (ms : List Member)
    → All2 MemberStays (map cist_member ls) ms
    → roots (column 0 (put_cist_members ms ls)) ≡ root_count ms
unfolding put_cist_members column
roots-put_cist_members [] [] h = refl
roots-put_cist_members [] (m ∷ ms) h = absurd h
roots-put_cist_members (l ∷ ls) [] h = absurd h
roots-put_cist_members (l ∷ ls) (m ∷ ms) h =
    ap (λ n. bit (same_role PortRole.root m.me.selected_role) + n)
      (roots-put_cist_members ls ms h.1)

-- The count in each tree, after the selection in the CIST.
cist_count :
    (ls : List Line) (ms : List Member)
    → All2 MemberStays (map cist_member ls) ms
    → (root_count (map cist_member ls) ≤ 1 → root_count ms ≤ 1)
    → ((j : ℕ) → roots (column j ls) ≤ 1)
    → (j : ℕ) → roots (column j (put_cist_members ms ls)) ≤ 1
cist_count ls ms h r o zero =
    subst (λ n. n ≤ 1) (sym (roots-put_cist_members ls ms h))
      (r (subst (λ n. n ≤ 1) (sym (roots-cist_member ls)) (o 0)))
cist_count ls ms h r o (suc j) =
    subst (λ n. n ≤ 1)
      (sym (
        roots-Tracks _ _ (
          column-Both Tracks (suc j) ls (put_cist_members ms ls) (
            All2-weaken CistSteps _
              (λ l m k. get_at-Both Tracks j l.node.mstis m.node.mstis k.mstis) ls _
              (put_cist_members-CistSteps ls ms h)))))
      (o (suc j))

select_cist-Carries : (t : Tree) (s : Station) → Carries s (select_cist t s)
unfolding select_cist
select_cist-Carries t s o =
    let v : TreeView = record { tree = t; members = map cist_member s.lines } in
    let k = run-Selects v in
    let ms = (RoleSelection.Roles.run v).members in
    record {
      sound =
          All-All2 SoundLine CistSteps SoundLine-CistSteps s.lines (put_cist_members ms s.lines)
            o.sound (put_cist_members-CistSteps s.lines ms k.stays);
      one_root = cist_count s.lines ms k.stays k.one_root o.one_root;
    }

-- The selection in an MSTI.
abbrev StaysSound : PerTreePort → PerTreePort → Type 0
StaysSound p q = IsSound p → IsSound q

StaysSound-refl : (p : PerTreePort) → StaysSound p p
StaysSound-refl p h = h

StaysSound-trans : (p q r : PerTreePort) → StaysSound p q → StaysSound q r → StaysSound p r
StaysSound-trans p q r h k i = k (h i)

entries-Stays :
    (ks ms : List Member)
    → All2 MemberStays ks ms
    → All2 StaysSound (member_entries ks) (member_entries ms)
entries-Stays [] [] h = tt
entries-Stays [] (m ∷ ms) h = h
entries-Stays (k ∷ ks) [] h = h
entries-Stays (k ∷ ks) (m ∷ ms) h = (h.0.me, entries-Stays ks ms h.1)

roots-member_entries : (ms : List Member) → roots (member_entries ms) ≡ root_count ms
roots-member_entries [] = refl
roots-member_entries (m ∷ ms) =
    ap (λ n. bit (same_role PortRole.root m.me.selected_role) + n) (roots-member_entries ms)

SoundLine-Stays : (l m : Line) → SoundLine l → NodeBy StaysSound l.node m.node → SoundLine m
SoundLine-Stays l m (d, c, ms) h = (
  h.alive ∙ d,
  h.cist c,
  All-All2 IsSound StaysSound (λ p q i t. t i) l.node.mstis m.node.mstis ms h.mstis,
)

select_msti-Carries : (j : ℕ) (t : Tree) (s : Station) → Carries s (select_msti j t s)
unfolding select_msti
select_msti-Carries j t s o =
    let v : TreeView = record { tree = t; members = msti_members j s.lines } in
    let k = run-Selects v in
    let es = member_entries (RoleSelection.Roles.run v).members in
    let stays : All2 StaysSound (column j s.lines) es =
      subst (λ ps. All2 StaysSound ps es) (member_entries-msti_members j s.lines)
        (entries-Stays v.members (RoleSelection.Roles.run v).members k.stays) in
    let before : root_count v.members ≤ 1 =
      subst (λ n. n ≤ 1)
        (ap roots (sym (member_entries-msti_members j s.lines)) ∙ roots-member_entries v.members)
        (o.one_root j) in
    let count : (i : ℕ) → roots (column i (put_column j es s.lines)) ≤ 1 = λ i.
      elim (ℕ_discrete i j) [
        | yes e ↦
            subst (λ x. roots (column x (put_column j es s.lines)) ≤ 1) (sym e)
              (subst (λ n. n ≤ 1)
                (sym (
                  ap roots (column-put_column_same StaysSound j es s.lines stays)
                  ∙ roots-member_entries (RoleSelection.Roles.run v).members))
                (k.one_root before))
        | no n ↦
            subst (λ ps. roots ps ≤ 1) (sym (column-put_column_other i j es s.lines n))
              (o.one_root i)
      ] in
    record {
      sound =
          All-All2 SoundLine (λ l m. NodeBy StaysSound l.node m.node) SoundLine-Stays s.lines
            (put_column j es s.lines) o.sound
            (put_column-All2 StaysSound StaysSound-refl StaysSound-trans j s.lines es stays);
      one_root = count;
    }

select_at-Carries : (j : ℕ) (t : Tree) (s : Station) → Carries s (select_at j t s)
select_at-Carries zero t s = select_cist-Carries t s
select_at-Carries (suc j) t s = select_msti-Carries (suc j) t s

pub select_tree-Carries : (j : ℕ) (s t : Station) → select_tree j s ≡ some t → Carries s t
unfolding select_tree
select_tree-Carries j s t e = elim (Option-cases (get_at j s.trees)) [
  | inl n ↦
      subst (Carries s) (Option.some-injective _ _ (rw (n, select_tree) at e)) (Carries-refl s)
  | inr (tr, n) ↦
      subst (Carries s) (Option.some-injective _ _ (rw (n, select_tree) at e))
        (select_at-Carries j tr s)
]
