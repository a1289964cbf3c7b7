-- ===== src/Station/SettlingTrees.antt =====
-- mstp.c, PRSSM_run: on the selected roles and the hello times, on a calm bridge.
use mathlib.Core.Option
use mstpd.Prelude.{
  ℕ, zero, suc, ◌≡◌, ◌≢◌, Bool, true, false, Option, some, List, [], ◌∷◌, map, refl, sym, ◌∙◌, ap,
  arith, Option-cases, Bool-cases, inl, inr, All, length, if◌then◌else◌,
}
use mstpd.Enums.{PortRole, InfoOrigin, PrssmState}
use mstpd.Types.{Bridge, Tree, PerTreePort}
use mstpd.RoleSelection
use mstpd.RoleSelection.Choose.{Member, Root, choose_root}
use mstpd.RoleSelection.Roles.{
  TreeView, set_root, set_designated, sync_master, root_moves, is_root, origin_role, received_role,
  is_blocked, selected_role_of, select_role, select_roles, updt_roles_tree, clear_reselect_tree,
  set_selected_tree, to_role_selection, selects,
}
use mstpd.Station.Grid.{Line, Station, get_at}
use mstpd.Station.Cells.{cist_member, put_cist_members, select_cist, select_tree}
use mstpd.Station.Sound.{IsEasy, Tracks}
use mstpd.Station.Keep.{All2}
use mstpd.Station.Selection.{set_designated-Tracks, MemberStays, run-Selects}
use mstpd.Station.Pass.{select}
use mstpd.Station.SettlingCells.{set_at-OnlyCist}
use mstpd.Station.Calm.{Gives, Gives-for, IsCalmLine, OnlyCist, IsCalm}

-- An easy entry that has its designated times.
abbrev IsTimed : PerTreePort → Type 0
IsTimed p = IsEasy p × (p.designated_times.hello_time ≢ 0)

-- What PRSSM does to a port of the CIST.
record Turns (P Q : PerTreePort → Type 0) (m k : Member) : Type 0 where
  turn : P m.me → Q k.me

Turns-trans :
    (P Q R : PerTreePort → Type 0) (ms ks ls : List Member)
    → All2 (Turns P Q) ms ks
    → All2 (Turns Q R) ks ls
    → All2 (Turns P R) ms ls
Turns-trans P Q R [] [] [] h g = tt
Turns-trans P Q R [] [] (l ∷ ls) h g = absurd g
Turns-trans P Q R [] (k ∷ ks) ls h g = absurd h
Turns-trans P Q R (m ∷ ms) [] ls h g = absurd h
Turns-trans P Q R (m ∷ ms) (k ∷ ks) [] h g = absurd g
Turns-trans P Q R (m ∷ ms) (k ∷ ks) (l ∷ ls) h g =
    (record { turn = λ e. g.0.turn (h.0.turn e) }, Turns-trans P Q R ms ks ls h.1 g.1)

Turns-map :
    (P Q : PerTreePort → Type 0) (f : Member → Member)
    → ((m : Member) → P m.me → Q (f m).me)
    → (ms : List Member) → All2 (Turns P Q) ms (map f ms)
Turns-map P Q f h [] = tt
Turns-map P Q f h (m ∷ ms) = (record { turn = h m }, Turns-map P Q f h ms)

Turns-refl : (P : PerTreePort → Type 0) (ms : List Member) → All2 (Turns P P) ms ms
Turns-refl P [] = tt
Turns-refl P (m ∷ ms) = (record { turn = λ h. h }, Turns-refl P ms)

-- Fields that the roles and times do not depend on.
same-IsEasy :
    (p q : PerTreePort)
    → q.prtsm_state ≡ p.prtsm_state
    → q.role ≡ p.role
    → q.selected_role ≢ PortRole.master
    → q.port_times.hello_time ≡ p.port_times.hello_time
    → q.designated_times.hello_time ≡ p.designated_times.hello_time
    → (q.selected ≡ true → p.selected ≡ true)
    → IsEasy p
    → IsEasy q
same-IsEasy p q s r m a b f h = record {
  coherent = rw (s, r) h.coherent;
  role_tame = λ e. h.role_tame (sym r ∙ e);
  selected_tame = m;
  hello = λ e. h.hello (sym a ∙ e);
  designated_hello = λ l e. h.designated_hello (f l) (sym b ∙ e);
}

-- In the CIST the Master role is not selected.
origin_role-tame :
    (t : Tree) (root : Bool) (p : PerTreePort) (o : InfoOrigin)
    → origin_role t root p o ≢ PortRole.master
origin_role-tame t root p InfoOrigin.disabled e = cc
origin_role-tame t root p InfoOrigin.mine e = cc
origin_role-tame t root p InfoOrigin.aged e = cc
origin_role-tame t root p InfoOrigin.received e = received_tame root (is_blocked t p) _ e
  where
    received_tame : (r b o : Bool) → received_role r b o ≢ PortRole.master
    received_tame true b o e = cc
    received_tame false true true e = cc
    received_tame false true false e = cc
    received_tame false false o e = cc

selected-tame :
    (t : Tree) (root : Bool) (m : Member)
    → t.mstid ≡ 0
    → selected_role_of t root m ≢ PortRole.master
selected-tame t root m c e = origin_role-tame t root m.me m.me.info_is (ground (arith, c, e))

select_role-IsTimed :
    (t : Tree) (root : Bool) (m : Member)
    → t.mstid ≡ 0
    → IsTimed m.me
    → IsTimed (select_role t root m).me
unfolding select_role
select_role-IsTimed t root m c (h, d) =
    (same-IsEasy _ _ refl refl (selected-tame t root m c) refl refl (λ e. e) h, d)

select_roles-Turns :
    (t : Tree) (r : Option Root) (i : ℕ) (ms : List Member)
    → t.mstid ≡ 0
    → All2 (Turns IsTimed IsTimed) ms (select_roles t r i ms)
unfolding select_roles
select_roles-Turns t r i [] c = tt
select_roles-Turns t r i (m ∷ ms) c =
    (record { turn = select_role-IsTimed t (is_root r i) m c }, select_roles-Turns t r (suc i) ms c)

synced-Turns :
    (b : Bool) (ms : List Member)
    → All2 (Turns IsTimed IsTimed) ms (if b then map sync_master ms else ms)
unfolding sync_master
synced-Turns true ms = Turns-map IsTimed IsTimed sync_master (λ m h. h) ms
synced-Turns false ms = Turns-refl IsTimed ms

set_designated-IsTimed : (t : Tree) (m : Member) → IsEasy m.me → IsTimed (set_designated t m).me
unfolding set_designated
set_designated-IsTimed t m h = ((set_designated-Tracks t m).easy h, h.hello)

updt_roles_tree-Turns :
    (v : TreeView)
    → v.tree.mstid ≡ 0
    → All2 (Turns IsEasy IsTimed) v.members (updt_roles_tree v).members
unfolding updt_roles_tree set_root
updt_roles_tree-Turns v z =
    let c = choose_root v.tree v.members in
    let t = set_root v.tree c in
    let ms = map (set_designated t) v.members in
    let moved = root_moves v.tree t in
    let synced = if moved then map sync_master ms else ms in
    Turns-trans IsEasy IsTimed IsTimed v.members ms _
      (Turns-map IsEasy IsTimed (set_designated t) (set_designated-IsTimed t) v.members)
      (Turns-trans IsTimed IsTimed IsTimed ms synced _ (synced-Turns moved ms)
        (select_roles-Turns t c.root 0 synced z))

to_role_selection-Turns :
    (v : TreeView)
    → v.tree.mstid ≡ 0
    → All2 (Turns IsEasy IsEasy) v.members (to_role_selection v).members
unfolding to_role_selection clear_reselect_tree set_selected_tree
to_role_selection-Turns v z =
    let ms = clear_reselect_tree v.members in
    let u : TreeView = record {
      tree = record (v.tree) { prssm_state = PrssmState.role_selection };
      members = ms;
    } in
    Turns-trans IsEasy IsEasy IsEasy v.members ms _
      (Turns-map IsEasy IsEasy _
        (λ m h. same-IsEasy _ _ refl refl h.selected_tame refl refl (λ e. e) h) v.members)
      (Turns-trans IsEasy IsTimed IsEasy ms (updt_roles_tree u).members _
        (updt_roles_tree-Turns u z)
        (Turns-map IsTimed IsEasy _
          (λ m (h, d). record {
            coherent = h.coherent;
            role_tame = h.role_tame;
            selected_tame = h.selected_tame;
            hello = h.hello;
            designated_hello = λ _. d;
          })
          (updt_roles_tree u).members))

-- The whole machine.
record Elects (v w : TreeView) : Type 0 where
  easy : All2 (Turns IsEasy IsEasy) v.members w.members
  mstid : w.tree.mstid ≡ v.tree.mstid

run-Elects : (v : TreeView) → v.tree.mstid ≡ 0 → Elects v (RoleSelection.Roles.run v)
unfolding RoleSelection.Roles.run to_role_selection updt_roles_tree set_root
run-Elects v z = elim (Bool-cases (selects v.tree.prssm_state v.members)) [
  | inl e ↦ rw e (record { easy = to_role_selection-Turns v z; mstid = refl })
  | inr e ↦ rw e (record { easy = Turns-refl IsEasy v.members; mstid = refl })
]

put_cist-calm :
    (br : Bridge) (ls : List Line) (ms : List Member)
    → All (IsCalmLine br) ls
    → All2 (Turns IsEasy IsEasy) (map cist_member ls) ms
    → All2 MemberStays (map cist_member ls) ms
    → All (IsCalmLine br) (put_cist_members ms ls)
unfolding put_cist_members
put_cist-calm br [] [] h e s = tt
put_cist-calm br [] (m ∷ ms) h e s = absurd e
put_cist-calm br (l ∷ ls) [] h e s = absurd e
put_cist-calm br (l ∷ ls) (m ∷ ms) h e s = (
  record {
    alive = h.0.alive;
    alone = empty l.node.mstis m.mstis h.0.alone s.0.mstis;
    easy = e.0.turn h.0.easy;
    counted = h.0.counted;
  },
  put_cist-calm br ls ms h.1 e.1 s.1,
)
  where
    empty : (ps qs : List PerTreePort) → ps ≡ [] → All2 Tracks ps qs → qs ≡ []
    empty [] [] e a = refl
    empty [] (q ∷ qs) e a = absurd a
    empty (p ∷ ps) qs e a = cc

first-OnlyCist : (ts : List Tree) (t : Tree) → OnlyCist ts → get_at 0 ts ≡ some t → t.mstid ≡ 0
unfolding get_at
first-OnlyCist [] t h e = absurd h
first-OnlyCist (x ∷ []) t h e = sym (ap (λ (x : Tree). x.mstid) (Option.some-injective _ _ e)) ∙ h
first-OnlyCist (x ∷ y ∷ ts) t h e = absurd h

later-OnlyCist : (j : ℕ) (ts : List Tree) (t : Tree) → OnlyCist ts → get_at (suc j) ts ≢ some t
unfolding get_at
later-OnlyCist j [] t h e = absurd h
later-OnlyCist j (x ∷ []) t h e = cc
later-OnlyCist j (x ∷ y ∷ ts) t h e = absurd h

select_tree-IsCalm :
    (fuel j : ℕ) (s : Station) → IsCalm fuel s → Gives (select_tree j s) (IsCalm fuel)
unfolding select_tree select_cist
select_tree-IsCalm fuel (suc j) s h = elim (Option-cases (get_at (suc j) s.trees)) [
  | inl n ↦ (s, rw (n, select_tree) refl, h)
  | inr (t, n) ↦ absurd (later-OnlyCist j s.trees t h.trees n)
]
select_tree-IsCalm fuel zero s h = elim (Option-cases (get_at 0 s.trees)) [
  | inl n ↦ (s, rw (n, select_tree) refl, h)
  | inr (t, n) ↦
      let v : TreeView = record { tree = t; members = map cist_member s.lines } in
      let k = run-Elects v (first-OnlyCist s.trees t h.trees n) in
      let w = RoleSelection.Roles.run v in
      (
        select_cist t s,
        rw (n, select_tree) refl,
        record {
          migrate = h.migrate;
          bounded = h.bounded;
          fuelled = h.fuelled;
          enough = h.enough;
          trees = set_at-OnlyCist 0 s.trees t w.tree h.trees n k.mstid;
          lines = put_cist-calm s.bridge s.lines w.members h.lines k.easy (run-Selects v).stays;
        },
      )
]

pub select-IsCalm : (fuel : ℕ) (s : Station) → IsCalm fuel s → Gives (select s) (IsCalm fuel)
select-IsCalm fuel s =
    Gives-for (IsCalm fuel) select_tree (select_tree-IsCalm fuel) 0 (length s.trees) s
