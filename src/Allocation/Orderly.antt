-- ===== src/Allocation/Orderly.antt =====
-- mstp.c: the functions on the tables, the MSTIs and the identifier, and the order of the bridge.
use mathlib.Core.Path.{subst}
use mathlib.Core.Option
use mstpd.Prelude.{
  ℕ, zero, suc, ◌+◌, ◌≤◌, ◌≡◌, Bool, true, false, not, ◌||◌, some, List, [], ◌∷◌, map, refl, sym,
  ◌∙◌, ap, All, ltb, ◌==◌, Bool-cases, Option-cases, inl, inr, arith, ◌>>=◌, >>=-eq-some,
  if◌then◌else◌,
}
use mstpd.Types.{PerTreePort}
use mstpd.Station.Grid.{Line, Station, entry_at, get_at, column, cons_some}
use mstpd.Station.Sound.{IsSound}
use mstpd.Station.Carry.{SoundLine, IsOrderly}
use mstpd.Station.Columns.{roots}
use mstpd.Station.Invariant.{run_keeps_order}
use mstpd.Station.Loop.{TimeSpec, br_state_machines_run}
use mstpd.Station.Start.{begin_lines, begin_change, br_state_machines_begin}
use mstpd.Station.Pass.{each_entry}
use mstpd.Station.Outset.{begin_makes_order}
use mstpd.Config.Bridge.{Call, Outcome, reject}
use mstpd.Allocation.Tables.{
  Domain, max_vid, max_fid, max_mstid, mstids, has_mstid, some_from, update, kept_fids, kept_mstids,
  with_config_id, same_name, configuration_name_len, set_mst_config_id, recalc_config_digest,
  renew_if, set_vid2fid, set_all_vids2fids, set_fid2mstid, set_all_fids2mstids,
}
use mstpd.Allocation.Trees.{remove_at, remove_entry, remove_tree, index_of, delete_msti}
use mstpd.Allocation.Ordered.{index_of-IsSorted}
use mstpd.Allocation.Valid.{IsAllocated}
use mstpd.Allocation.Complete.{perform, complete}

-- A new identifier changes no port.
identified-IsOrderly : (id : ℕ) (s : Station) → IsOrderly s → IsOrderly (with_config_id id s)
identified-IsOrderly id s h = record { sound = h.sound; one_root = h.one_root }

sound-alive : (ls : List Line) → All SoundLine ls → All (λ l. l.node.port.deleted ≡ false) ls
sound-alive [] a = tt
sound-alive (l ∷ ls) a = (a.0.0, sound-alive ls a.1)

begin_keeps_order :
    (fuel : ℕ) (start : TimeSpec) (tvs : List TimeSpec) (s t : Station)
    → IsOrderly s
    → br_state_machines_begin fuel start tvs s ≡ some t
    → IsOrderly t
unfolding br_state_machines_begin
begin_keeps_order fuel start tvs s t h e = elim (Bool-cases s.bridge.bridge_enabled) [
  | inl b ↦ begin_makes_order fuel start tvs s t b (sound-alive s.lines h.sound) e
  | inr b ↦
      let same : some s ≡ some t =
        subst
          (λ x.
            (if not x
              then some s
              else (each_entry begin_change (begin_lines s)
                  >>= br_state_machines_run fuel start tvs))
            ≡ some t)
          b e in
      subst IsOrderly (Option.some-injective _ _ same) h
]

-- The calls at the end of a function on an existing set of trees.
data IsWhole : Call → Type 0 where
  begins : IsWhole Call.begin
  runs : IsWhole Call.run
  rests : IsWhole Call.nothing

abbrev Leaves : Outcome Domain → Type 0
Leaves o = IsWhole o.call × IsOrderly o.state.station

module _ (fuel : ℕ) (start : TimeSpec) (tvs : List TimeSpec) where
  -- Where the function returns, the bridge is orderly.
  abbrev pub Orders : Outcome Domain → Type 0
  Orders o = (e : Domain) → complete fuel start tvs o ≡ some e → IsOrderly e.station

  performed :
      (c : Call)
      → IsWhole c
      → (s t : Station) → IsOrderly s
      → perform c fuel start tvs s ≡ some t
      → IsOrderly t
  performed _ begins s t h e = begin_keeps_order fuel start tvs s t h e
  performed _ runs s t h e = run_keeps_order fuel start tvs s t h e
  performed _ rests s t h e = subst IsOrderly (Option.some-injective _ _ e) h

  Leaves-Orders : (o : Outcome Domain) → Leaves o → Orders o
  unfolding complete
  Leaves-Orders o (w, h) e q =
      let (t, f, g) = >>=-eq-some _ (λ s. some (record (o.state) { station = s })) q in
      subst (λ (d : Domain). IsOrderly d.station) (Option.some-injective _ _ g)
        (performed o.call w o.state.station t h f)

-- The trees before the one that is removed, and those after it.
unfoldable skip : ℕ → ℕ → ℕ
skip zero j = suc j
skip (suc k) zero = zero
skip (suc k) (suc j) = suc (skip k j)

get_at-remove_at :
    (j k : ℕ) (ps : List PerTreePort) → get_at j (remove_at k ps) ≡ get_at (skip k j) ps
unfolding get_at remove_at skip
get_at-remove_at j k [] = refl
get_at-remove_at j zero (p ∷ ps) = refl
get_at-remove_at zero (suc k) (p ∷ ps) = refl
get_at-remove_at (suc j) (suc k) (p ∷ ps) = get_at-remove_at j k ps

entry_at-remove_entry :
    (j k : ℕ) (l : Line)
    → entry_at j (remove_entry (suc k) l).node ≡ entry_at (skip (suc k) j) l.node
unfolding remove_at skip
entry_at-remove_entry zero k l = refl
entry_at-remove_entry (suc j) k l = get_at-remove_at j k l.node.mstis

column-remove_entry :
    (j k : ℕ) (ls : List Line)
    → column j (map (remove_entry (suc k)) ls) ≡ column (skip (suc k) j) ls
unfolding column
column-remove_entry j k [] = refl
column-remove_entry j k (l ∷ ls) =
    ap (λ o. cons_some o (column j (map (remove_entry (suc k)) ls))) (entry_at-remove_entry j k l)
    ∙ ap (cons_some (entry_at (skip (suc k) j) l.node)) (column-remove_entry j k ls)

All-remove_at : (k : ℕ) (ps : List PerTreePort) → All IsSound ps → All IsSound (remove_at k ps)
unfolding remove_at
All-remove_at k [] a = tt
All-remove_at zero (p ∷ ps) a = a.1
All-remove_at (suc k) (p ∷ ps) a = (a.0, All-remove_at k ps a.1)

remove_tree-IsOrderly : (k : ℕ) (s : Station) → IsOrderly s → IsOrderly (remove_tree (suc k) s)
unfolding remove_tree remove_at
remove_tree-IsOrderly k s h = record {
  sound = sound s.lines h.sound;
  one_root = λ j.
      subst (λ ps. roots ps ≤ 1) (sym (column-remove_entry j k s.lines))
        (h.one_root (skip (suc k) j));
}
  where
    sound : (ls : List Line) → All SoundLine ls → All SoundLine (map (remove_entry (suc k)) ls)
    sound [] a = tt
    sound (l ∷ ls) a = ((a.0.0, a.0.1, All-remove_at k l.node.mstis a.0.2), sound ls a.1)

module _ (d : Domain) (h : IsOrderly d.station) where
  reject-Leaves : Leaves (reject d)
  reject-Leaves = (rests, h)

  set_mst_config_id-Leaves : (rev : ℕ) (name : List ℕ) → Leaves (set_mst_config_id rev name d)
  unfolding set_mst_config_id
  set_mst_config_id-Leaves rev name =
      elim (Bool-cases (
        not (same_name configuration_name_len name d.configuration_name)
        || not (rev == d.revision_level))) [
          | inl e ↦ rw e (begins, identified-IsOrderly _ d.station h)
          | inr e ↦ rw e (rests, h)
        ]

  delete_msti-Leaves : (m : ℕ) → IsAllocated d → Leaves (delete_msti m d)
  unfolding delete_msti
  delete_msti-Leaves m a =
      elim (Bool-cases
        (ltb m 1 || ltb max_mstid m || some_from 0 (max_fid + 1) (λ fid. d.fid2mstid fid == m))) [
          | inl e ↦ rw e reject-Leaves
          | inr e ↦ elim (Option-cases (index_of m 0 (mstids d.station))) [
            | inl n ↦ rw (e, n) (rests, h)
            | inr (k, n) ↦
                rw (e, n)
                  (
                    runs,
                    removed k
                        (index_of-IsSorted m k (mstids d.station) (ground (arith, e)) a.sorted n).1,
                  )
          ]
        ]
    where
      removed : (k : ℕ) → 1 ≤ k → IsOrderly (remove_tree k d.station)
      removed zero l = absurd (omega arith)
      removed (suc k) l = remove_tree-IsOrderly k d.station h

  module _ (hmac_md5 : List ℕ → ℕ) where
    renew_if-Leaves :
        (b : Bool) (v f : ℕ → ℕ)
        → Leaves (renew_if hmac_md5 b (record d { vid2fid = v; fid2mstid = f }))
    unfolding renew_if recalc_config_digest
    renew_if-Leaves true v f = (begins, identified-IsOrderly _ d.station h)
    renew_if-Leaves false v f = (rests, h)

    set_vid2fid-Leaves : (vid fid : ℕ) → Leaves (set_vid2fid hmac_md5 vid fid d)
    unfolding set_vid2fid
    set_vid2fid-Leaves vid fid =
        elim (Bool-cases (ltb vid 1 || ltb max_vid vid || ltb max_fid fid)) [
          | inl e ↦ rw e reject-Leaves
          | inr e ↦ rw e (renew_if-Leaves _ (update vid fid d.vid2fid) d.fid2mstid)
        ]

    set_fid2mstid-Leaves : (fid m : ℕ) → Leaves (set_fid2mstid hmac_md5 fid m d)
    unfolding set_fid2mstid
    set_fid2mstid-Leaves fid m =
        elim (Bool-cases (ltb max_fid fid || not (has_mstid m (mstids d.station)))) [
          | inl e ↦ rw e reject-Leaves
          | inr e ↦ elim (Bool-cases (d.fid2mstid fid == m)) [
            | inl q ↦ rw (e, q) (rests, h)
            | inr q ↦ rw (e, q) (renew_if-Leaves _ d.vid2fid (update fid m d.fid2mstid))
          ]
        ]

    set_all_vids2fids-Leaves : (g : ℕ → ℕ) → Leaves (set_all_vids2fids hmac_md5 g d)
    unfolding set_all_vids2fids
    set_all_vids2fids-Leaves g = renew_if-Leaves _ (kept_fids g d) d.fid2mstid

    set_all_fids2mstids-Leaves : (g : ℕ → ℕ) → Leaves (set_all_fids2mstids hmac_md5 g d)
    unfolding set_all_fids2mstids
    set_all_fids2mstids-Leaves g =
        elim (Bool-cases (
          some_from 0 (max_fid + 1)
            (λ fid. not (has_mstid (kept_mstids g d fid) (mstids d.station))))) [
              | inl e ↦ rw e reject-Leaves
              | inr e ↦ rw e (renew_if-Leaves _ d.vid2fid (kept_mstids g d))
            ]

-- Setting VIDs, FIDs or the identifier, or deleting an MSTI, with the call of the machines at the end,
-- keeps an orderly bridge orderly where it returns, whether it is accepted or refused.
pub allocation_keeps_order :
    (hmac_md5 : List ℕ → ℕ) (fuel : ℕ) (start : TimeSpec) (tvs : List TimeSpec) (d : Domain)
    → IsAllocated d
    → IsOrderly d.station
    → ((vid fid : ℕ) → Orders fuel start tvs (set_vid2fid hmac_md5 vid fid d))
      × ((vids2fids : ℕ → ℕ) → Orders fuel start tvs (set_all_vids2fids hmac_md5 vids2fids d))
      × ((fid mstid : ℕ) → Orders fuel start tvs (set_fid2mstid hmac_md5 fid mstid d))
      × ((fids2mstids : ℕ → ℕ) → Orders fuel start tvs (set_all_fids2mstids hmac_md5 fids2mstids d))
      × ((rev : ℕ) (name : List ℕ) → Orders fuel start tvs (set_mst_config_id rev name d))
      × ((m : ℕ) → Orders fuel start tvs (delete_msti m d))
allocation_keeps_order hmac_md5 fuel start tvs d a h =
    let all = Leaves-Orders fuel start tvs in
    (
      λ vid fid. all _ (set_vid2fid-Leaves d h hmac_md5 vid fid),
      λ g. all _ (set_all_vids2fids-Leaves d h hmac_md5 g),
      λ fid mstid. all _ (set_fid2mstid-Leaves d h hmac_md5 fid mstid),
      λ g. all _ (set_all_fids2mstids-Leaves d h hmac_md5 g),
      λ rev name. all _ (set_mst_config_id-Leaves d h rev name),
      λ m. all _ (delete_msti-Leaves d h m a),
    )
