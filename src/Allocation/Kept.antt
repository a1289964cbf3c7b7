-- ===== src/Allocation/Kept.antt =====
-- mstp.c: the functions on MSTIs and on the identifier, and the invariant of the allocation.
use mathlib.Core.Path.{subst}
use mstpd.Prelude.{
  ℕ, zero, suc, ◌+◌, ◌≤◌, ◌<◌, ◌≡◌, ◌≢◌, true, false, not, ◌||◌, none, some, List, [], ◌∷◌, map,
  refl, sym, ◌∙◌, ap, ltb, ◌==◌, Bool-cases, Option-cases, inl, inr, arith, length, All,
}
use mstpd.Types.{Tree, Port, PerTreePort, PortNode}
use mstpd.Station.Grid.{Line, entry_at, get_at, insert_at}
use mstpd.Allocation.Tables.{
  Domain, max_fid, max_mstid, mstids, has_mstid, some_from, set_vid2fid, set_all_vids2fids,
  set_fid2mstid, set_all_fids2mstids, set_mst_config_id, same_name, configuration_name_len,
}
use mstpd.Allocation.Trees.{
  create_tree, create_ptp, tree_after, add_entry, add_tree, create_msti, remove_at, index_of,
  remove_entry, remove_tree, delete_msti, max_implementation_mstis, cist_address,
}
use mstpd.Allocation.Fresh.{some_from-false}
use mstpd.Allocation.Ordered.{
  IsSorted, tree_after-IsSorted, has_mstid-insert_at, map-insert_at, map-remove_at,
  length-insert_at, length-remove_at, index_of-IsSorted, has_mstid-remove_at,
}
use mstpd.Allocation.Valid.{
  row, IsAllocated, set_vid2fid-IsAllocated, set_all_vids2fids-IsAllocated,
  set_fid2mstid-IsAllocated, set_all_fids2mstids-IsAllocated,
}

-- The entries of a port, when a tree is added or removed after the CIST.
get_at-some {ℓ} :
    {A : Type ℓ} (k : ℕ) (xs : List A) → k < length xs → (x : A) × (get_at k xs ≡ some x)
unfolding get_at
get_at-some k [] h = absurd (omega arith)
get_at-some zero (x ∷ xs) h = (x, refl)
get_at-some (suc k) (x ∷ xs) h = get_at-some k xs (omega arith)

pub length-map {ℓ κ} :
    {A : Type ℓ} {B : Type κ} (f : A → B) (xs : List A) → length (map f xs) ≡ length xs
length-map f [] = refl
length-map f (x ∷ xs) = ap suc (length-map f xs)

row-add_entry :
    (k : ℕ) (t : Tree) (speed : Port → ℕ) (l : Line)
    → k < length (row l)
    → row (add_entry k t speed l) ≡ insert_at (suc k) t.mstid (row l)
unfolding add_entry create_ptp insert_at
row-add_entry k t speed l h =
    let (p, e) = there k l.node (omega (arith, length-map mstid_of l.node.mstis)) in
    rw (e, add_entry)
      (ap (λ is. l.node.cist.mstid ∷ is)
        (map-insert_at mstid_of k (create_ptp t (speed l.node.port) l.node.port) l.node.mstis))
  where
    mstid_of : PerTreePort → ℕ
    mstid_of p = p.mstid

    there :
        (k : ℕ) (n : PortNode)
        → k < suc (length n.mstis)
        → (p : PerTreePort) × (entry_at k n ≡ some p)
    there zero n h = (n.cist, refl)
    there (suc k) n h = get_at-some k n.mstis (omega arith)

row-remove_entry : (k : ℕ) (l : Line) → 1 ≤ k → row (remove_entry k l) ≡ remove_at k (row l)
unfolding remove_at
row-remove_entry zero l h = absurd (omega arith)
row-remove_entry (suc k) l h =
    ap (λ is. l.node.cist.mstid ∷ is) (map-remove_at (λ (p : PerTreePort). p.mstid) k l.node.mstis)

rows-map :
    (f : Line → Line) (is js : List ℕ)
    → ((l : Line) → row l ≡ is → row (f l) ≡ js)
    → (ls : List Line) → All (λ l. row l ≡ is) ls
    → All (λ l. row l ≡ js) (map f ls)
rows-map f is js h [] a = tt
rows-map f is js h (l ∷ ls) a = (h l a.0, rows-map f is js h ls a.1)

module _ (d : Domain) (h : IsAllocated d) where
  set_mst_config_id-IsAllocated :
      (revision : ℕ) (name : List ℕ) → IsAllocated (set_mst_config_id revision name d).state
  unfolding set_mst_config_id
  set_mst_config_id-IsAllocated revision name =
      elim (Bool-cases (
        not (same_name configuration_name_len name d.configuration_name)
        || not (revision == d.revision_level))) [
          | inl e ↦ rw e (record {
            fids = h.fids;
            trees = h.trees;
            sorted = h.sorted;
            count = h.count;
            rows = h.rows;
          })
          | inr e ↦ rw e h
        ]

  pub create_msti-IsAllocated :
      (speed : Port → ℕ) (m : ℕ) → IsAllocated (create_msti speed m d).state
  unfolding create_msti add_tree create_tree
  create_msti-IsAllocated speed m = elim (Bool-cases (ltb m 1 || ltb max_mstid m)) [
    | inl e ↦ rw e h
    | inr e ↦ elim (Bool-cases (has_mstid m (mstids d.station))) [
      | inl q ↦ rw (e, q) h
      | inr q ↦ elim (Option-cases (tree_after m 0 none (mstids d.station))) [
        | inl n ↦ rw (e, q, n) h
        | inr (k, n) ↦ elim (Bool-cases (ltb max_implementation_mstis (length d.station.trees))) [
          | inl f ↦ rw (e, q, n, f) h
          | inr f ↦ rw (e, q, n, f) (added k (ground (arith, e)) q n (ground (arith, f)))
        ]
      ]
    ]
  ]
    where
      tree : Tree
      tree = create_tree d.station.bridge (cist_address d.station.trees) m

      added :
          (k : ℕ)
          → 1 ≤ m
          → has_mstid m (mstids d.station) ≡ false
          → tree_after m 0 none (mstids d.station) ≡ some k
          → length d.station.trees ≤ max_implementation_mstis
          → IsAllocated (record d { station = add_tree speed k m d.station })
      added k l q n c =
          let (o, u) = tree_after-IsSorted m k (mstids d.station) l h.sorted q n in
          let ids : mstids (add_tree speed k m d.station) ≡ insert_at (suc k) m (mstids d.station) =
            map-insert_at (λ (t : Tree). t.mstid) (suc k) tree d.station.trees in
          record {
            fids = h.fids;
            trees = λ fid b.
                subst (λ is. has_mstid (d.fid2mstid fid) is ≡ true) (sym ids)
                  (has_mstid-insert_at (d.fid2mstid fid) m (suc k) (mstids d.station)
                    (h.trees fid b));
            sorted = subst IsSorted (sym ids) o;
            count = omega (arith, length-insert_at (suc k) tree d.station.trees);
            rows =
                rows-map (add_entry k tree speed) (mstids d.station) _
                  (λ r a.
                    row-add_entry k tree speed r (subst (λ is. k < length is) (sym a) u)
                    ∙ ap (insert_at (suc k) m) a
                    ∙ sym ids)
                  d.station.lines h.rows;
          }

  pub delete_msti-IsAllocated : (m : ℕ) → IsAllocated (delete_msti m d).state
  unfolding delete_msti remove_tree
  delete_msti-IsAllocated m =
      let used = λ (fid : ℕ). d.fid2mstid fid == m in
      elim (Bool-cases (ltb m 1 || ltb max_mstid m || some_from 0 (max_fid + 1) used)) [
        | inl e ↦ rw e h
        | inr e ↦ elim (Option-cases (index_of m 0 (mstids d.station))) [
          | inl n ↦ rw (e, n) h
          | inr (k, n) ↦ rw (e, n) (removed k (ground (arith, e)) (free e) n)
        ]
      ]
    where
      free :
          (ltb m 1 || ltb max_mstid m || some_from 0 (max_fid + 1) (λ fid. d.fid2mstid fid == m))
            ≡ false
          → (fid : ℕ) → fid < max_fid + 1
          → d.fid2mstid fid ≢ m
      free e fid b q =
          let none_used : some_from 0 (max_fid + 1) (λ fid. d.fid2mstid fid == m) ≡ false =
            ground (arith, e) in
          let other : (d.fid2mstid fid == m) ≡ false =
            some_from-false 0 (max_fid + 1) (λ fid. d.fid2mstid fid == m) none_used fid
              (omega arith) (omega arith) in
          ground (arith, other, q)

      removed :
          (k : ℕ)
          → 1 ≤ m
          → ((fid : ℕ) → fid < max_fid + 1 → d.fid2mstid fid ≢ m)
          → index_of m 0 (mstids d.station) ≡ some k
          → IsAllocated (record d { station = remove_tree k d.station })
      removed k l f n =
          let (o, u) = index_of-IsSorted m k (mstids d.station) l h.sorted n in
          let ids : mstids (remove_tree k d.station) ≡ remove_at k (mstids d.station) =
            map-remove_at (λ (t : Tree). t.mstid) k d.station.trees in
          record {
            fids = h.fids;
            trees = λ fid b.
                subst (λ is. has_mstid (d.fid2mstid fid) is ≡ true) (sym ids)
                  (has_mstid-remove_at (d.fid2mstid fid) m k (mstids d.station) n (f fid b)
                    (h.trees fid b));
            sorted = subst IsSorted (sym ids) o;
            count = omega (arith, length-remove_at k d.station.trees, h.count);
            rows =
                rows-map (remove_entry k) (mstids d.station) _
                  (λ r a. row-remove_entry k r u ∙ ap (remove_at k) a ∙ sym ids) d.station.lines
                  h.rows;
          }

-- The allocation stays valid, whatever VIDs, FIDs, MSTIs and identifier are set, created or deleted:
-- every VID has a FID in bounds, every FID a tree of the bridge, the trees are the CIST and 63 MSTIs
-- at most, sorted by MSTID, and every port has one entry for each tree, in the same order.
pub allocation_stays_valid :
    (hmac_md5 : List ℕ → ℕ) (speed : Port → ℕ) (d : Domain)
    → IsAllocated d
    → ((vid fid : ℕ) → IsAllocated (set_vid2fid hmac_md5 vid fid d).state)
      × ((vids2fids : ℕ → ℕ) → IsAllocated (set_all_vids2fids hmac_md5 vids2fids d).state)
      × ((fid mstid : ℕ) → IsAllocated (set_fid2mstid hmac_md5 fid mstid d).state)
      × ((fids2mstids : ℕ → ℕ) → IsAllocated (set_all_fids2mstids hmac_md5 fids2mstids d).state)
      × ((rev : ℕ) (name : List ℕ) → IsAllocated (set_mst_config_id rev name d).state)
      × ((m : ℕ) → IsAllocated (create_msti speed m d).state)
      × ((m : ℕ) → IsAllocated (delete_msti m d).state)
allocation_stays_valid hmac_md5 speed d h = (
  λ vid fid. set_vid2fid-IsAllocated hmac_md5 d h vid fid,
  λ g. set_all_vids2fids-IsAllocated hmac_md5 d h g,
  λ fid mstid. set_fid2mstid-IsAllocated hmac_md5 d h fid mstid,
  λ g. set_all_fids2mstids-IsAllocated hmac_md5 d h g,
  λ rev name. set_mst_config_id-IsAllocated d h rev name,
  λ m. create_msti-IsAllocated d h speed m,
  λ m. delete_msti-IsAllocated d h m,
)
