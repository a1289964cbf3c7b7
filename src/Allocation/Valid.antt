-- ===== src/Allocation/Valid.antt =====
-- mstp.c: the invariant of the tables and of the lists of trees, and the functions on the tables.
use mstpd.Prelude.{
  ℕ, ◌+◌, ◌≤◌, ◌<◌, ◌≡◌, Bool, true, false, not, ◌||◌, List, map, ltb, ◌==◌, Bool-cases, inl, inr,
  arith, length, All,
}
use mstpd.Types.{PerTreePort}
use mstpd.Station.Grid.{Line, entries}
use mstpd.Allocation.Tables.{
  Domain, max_vid, max_fid, mstids, has_mstid, some_from, update, kept_fids, kept_mstids,
  recalc_config_digest, renew_if, set_vid2fid, set_all_vids2fids, set_fid2mstid,
  set_all_fids2mstids,
}
use mstpd.Allocation.Trees.{max_implementation_mstis}
use mstpd.Allocation.Fresh.{some_from-false}
use mstpd.Allocation.Ordered.{IsSorted}

-- The MSTIDs of a port's entries.
abbrev pub row : Line → List ℕ
row l = map (λ (p : PerTreePort). p.mstid) (entries l.node)

pub record IsAllocated (d : Domain) : Type 0 where
  -- Every VID has a FID, so that `fid2mstid[vid2fid[vid]]` is in bounds,
  pub fids : (vid : ℕ) → 1 ≤ vid → vid < 1 + max_vid → d.vid2fid vid < 1 + max_fid
  -- and every FID a tree of the bridge.
  pub trees : (fid : ℕ) → fid < max_fid + 1 → has_mstid (d.fid2mstid fid) (mstids d.station) ≡ true
  -- The first tree is the CIST, the others are sorted by MSTID, and they are 63 at most;
  pub sorted : IsSorted (mstids d.station)
  pub count : length d.station.trees ≤ max_implementation_mstis + 1
  -- every port has one entry for each of them, in the same order.
  pub rows : All (λ l. row l ≡ mstids d.station) d.station.lines

renewed-IsAllocated :
    (hmac_md5 : List ℕ → ℕ) (b : Bool) (e : Domain)
    → IsAllocated e
    → IsAllocated (renew_if hmac_md5 b e).state
unfolding renew_if recalc_config_digest
renewed-IsAllocated hmac_md5 true e h = record {
  fids = h.fids;
  trees = h.trees;
  sorted = h.sorted;
  count = h.count;
  rows = h.rows;
}
renewed-IsAllocated hmac_md5 false e h = h

module _ (hmac_md5 : List ℕ → ℕ) (d : Domain) (h : IsAllocated d) where
  pub set_vid2fid-IsAllocated : (vid fid : ℕ) → IsAllocated (set_vid2fid hmac_md5 vid fid d).state
  unfolding set_vid2fid
  set_vid2fid-IsAllocated vid fid =
      elim (Bool-cases (ltb vid 1 || ltb max_vid vid || ltb max_fid fid)) [
        | inl e ↦ rw e h
        | inr e ↦ rw e (
            renewed-IsAllocated hmac_md5 _ (record d { vid2fid = update vid fid d.vid2fid })
              (record {
                fids = λ k l u. updated e k (h.fids k l u);
                trees = h.trees;
                sorted = h.sorted;
                count = h.count;
                rows = h.rows;
              }))
      ]
    where
      updated :
          (ltb vid 1 || ltb max_vid vid || ltb max_fid fid) ≡ false
          → (k : ℕ) → d.vid2fid k < 1 + max_fid
          → update vid fid d.vid2fid k < 1 + max_fid
      updated e k o = ground arith

  pub set_all_vids2fids-IsAllocated :
      (vids2fids : ℕ → ℕ) → IsAllocated (set_all_vids2fids hmac_md5 vids2fids d).state
  unfolding set_all_vids2fids
  set_all_vids2fids-IsAllocated g =
      renewed-IsAllocated hmac_md5 _ (record d { vid2fid = kept_fids g d })
        (record {
          fids = λ k l u. kept k l u (h.fids k l u);
          trees = h.trees;
          sorted = h.sorted;
          count = h.count;
          rows = h.rows;
        })
    where
      kept :
          (k : ℕ)
          → 1 ≤ k
          → k < 1 + max_vid
          → d.vid2fid k < 1 + max_fid
          → kept_fids g d k < 1 + max_fid
      kept k l u o = ground arith

  pub set_fid2mstid-IsAllocated :
      (fid mstid : ℕ) → IsAllocated (set_fid2mstid hmac_md5 fid mstid d).state
  unfolding set_fid2mstid
  set_fid2mstid-IsAllocated fid mstid =
      elim (Bool-cases (ltb max_fid fid || not (has_mstid mstid (mstids d.station)))) [
        | inl e ↦ rw e h
        | inr e ↦ elim (Bool-cases (d.fid2mstid fid == mstid)) [
          | inl q ↦ rw (e, q) h
          | inr q ↦
              rw (e, q)
                (renewed-IsAllocated hmac_md5 _
                  (record d { fid2mstid = update fid mstid d.fid2mstid })
                  (record {
                    fids = h.fids;
                    trees = λ k u. updated e k (h.trees k u);
                    sorted = h.sorted;
                    count = h.count;
                    rows = h.rows;
                  }))
        ]
      ]
    where
      updated :
          (ltb max_fid fid || not (has_mstid mstid (mstids d.station))) ≡ false
          → (k : ℕ) → has_mstid (d.fid2mstid k) (mstids d.station) ≡ true
          → has_mstid (update fid mstid d.fid2mstid k) (mstids d.station) ≡ true
      updated e k o = elim (Bool-cases (k == fid)) [
        | inl q ↦ rw q (ground (arith, e))
        | inr q ↦ rw q o
      ]

  pub set_all_fids2mstids-IsAllocated :
      (fids2mstids : ℕ → ℕ) → IsAllocated (set_all_fids2mstids hmac_md5 fids2mstids d).state
  unfolding set_all_fids2mstids
  set_all_fids2mstids-IsAllocated g =
      let missing = λ (fid : ℕ). not (has_mstid (kept_mstids g d fid) (mstids d.station)) in
      elim (Bool-cases (some_from 0 (max_fid + 1) missing)) [
        | inl e ↦ rw e h
        | inr e ↦ rw e (
            renewed-IsAllocated hmac_md5 _ (record d { fid2mstid = kept_mstids g d })
              (record {
                fids = h.fids;
                trees = λ k u.
                    found _
                      (some_from-false 0 (max_fid + 1) missing e k (omega arith) (omega arith));
                sorted = h.sorted;
                count = h.count;
                rows = h.rows;
              }))
      ]
    where
      found : (b : Bool) → not b ≡ false → b ≡ true
      found b e = ground arith
