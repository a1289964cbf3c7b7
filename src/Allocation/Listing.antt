-- ===== src/Allocation/Listing.antt =====
-- mstp.c, MSTP_IN_create_msti and MSTP_IN_delete_msti: on the list of MSTIDs that MSTP_IN_get_mstilist
-- gives, as a set.
use mstpd.Prelude.{
  ℕ, zero, suc, ◌+◌, ◌≤◌, ◌≡◌, ◌≢◌, Bool, true, false, not, ◌&&◌, ◌||◌, none, List, [], ◌∷◌, refl,
  sym, ◌∙◌, ap, ltb, ◌==◌, Bool-cases, Option-cases, inl, inr, arith, length,
}
use mstpd.Types.{Tree, Port}
use mstpd.Config.Bridge.{Outcome}
use mstpd.Allocation.Tables.{Domain, max_fid, max_mstid, mstids, has_mstid, some_from}
use mstpd.Allocation.Trees.{
  create_tree, tree_after, add_tree, create_msti, index_of, remove_tree, delete_msti,
  max_implementation_mstis, cist_address, take, get_mstilist,
}
use mstpd.Allocation.Ordered.{
  map-insert_at, map-remove_at, has_mstid-insert, IsSorted-remove, index_of-absent, tree_after-some,
}
use mstpd.Allocation.Fresh.{some_from-true}
use mstpd.Allocation.Valid.{IsAllocated}
use mstpd.Allocation.Kept.{create_msti-IsAllocated, delete_msti-IsAllocated, length-map}

take-all {ℓ} : {A : Type ℓ} (n : ℕ) (xs : List A) → length xs ≤ n → take n xs ≡ xs
unfolding take
take-all zero [] h = refl
take-all zero (x ∷ xs) h = absurd (omega arith)
take-all (suc n) [] h = refl
take-all (suc n) (x ∷ xs) h = ap (λ t. x ∷ t) (take-all n xs (omega arith))

-- MSTP_IN_get_mstilist does not leave out a tree.
mstilist-all : (d : Domain) → IsAllocated d → get_mstilist d.station ≡ mstids d.station
unfolding get_mstilist
mstilist-all d h =
    take-all (suc max_implementation_mstis) (mstids d.station)
      (omega (arith, length-map (λ (t : Tree). t.mstid) d.station.trees, h.count))

-- The MSTIs that are listed, as a test on MSTIDs.
abbrev pub lists : Domain → ℕ → Bool
lists d i = has_mstid i (get_mstilist d.station)

-- An MSTI is created.
pub record Inserts (m : ℕ) (d : Domain) (o : Outcome Domain) : Type 0 where
  pub accepts :
      1 ≤ m → m ≤ max_mstid → length d.station.trees ≤ max_implementation_mstis → o.accepted ≡ true
  pub listed : o.accepted ≡ true → (i : ℕ) → lists o.state i ≡ (m == i || lists d i)
  pub rejected : o.accepted ≡ false → o.state ≡ d

-- An MSTI is deleted.
pub record Removes (m : ℕ) (d : Domain) (o : Outcome Domain) : Type 0 where
  pub accepts :
      1 ≤ m → m ≤ max_mstid → ((fid : ℕ) → fid ≤ max_fid → d.fid2mstid fid ≢ m) → o.accepted ≡ true
  pub listed : o.accepted ≡ true → (i : ℕ) → lists o.state i ≡ (not (m == i) && lists d i)
  pub rejected : o.accepted ≡ false → o.state ≡ d

abbrev ids : Domain → List ℕ
ids d = mstids d.station

-- The same of the whole list of trees.
record InsertsId (m : ℕ) (d : Domain) (o : Outcome Domain) : Type 0 where
  accepts :
      1 ≤ m → m ≤ max_mstid → length d.station.trees ≤ max_implementation_mstis → o.accepted ≡ true
  listed : o.accepted ≡ true → (i : ℕ) → has_mstid i (ids o.state) ≡ (m == i || has_mstid i (ids d))
  rejected : o.accepted ≡ false → o.state ≡ d

record RemovesId (m : ℕ) (d : Domain) (o : Outcome Domain) : Type 0 where
  accepts :
      1 ≤ m → m ≤ max_mstid → ((fid : ℕ) → fid ≤ max_fid → d.fid2mstid fid ≢ m) → o.accepted ≡ true
  listed :
      o.accepted ≡ true
      → (i : ℕ) → has_mstid i (ids o.state) ≡ (not (m == i) && has_mstid i (ids d))
  rejected : o.accepted ≡ false → o.state ≡ d

present :
    (m i : ℕ) (xs : List ℕ) → has_mstid m xs ≡ true → has_mstid i xs ≡ (m == i || has_mstid i xs)
present m i xs e = elim (Bool-cases (m == i)) [ inl q ↦ ground (arith, q, e) | inr q ↦ rw q refl ]

absent :
    (m i : ℕ) (xs : List ℕ)
    → has_mstid m xs ≡ false
    → has_mstid i xs ≡ (not (m == i) && has_mstid i xs)
absent m i xs e = elim (Bool-cases (m == i)) [ inl q ↦ ground (arith, q, e) | inr q ↦ rw q refl ]

module _ (d : Domain) (h : IsAllocated d) where
  create-InsertsId : (speed : Port → ℕ) (m : ℕ) → InsertsId m d (create_msti speed m d)
  unfolding create_msti add_tree create_tree
  create-InsertsId speed m = elim (Bool-cases (ltb m 1 || ltb max_mstid m)) [
    | inl e ↦ rw e (record {
      accepts = λ l u c. absurd (ground (arith, e));
      listed = λ a. cc;
      rejected = λ _. refl;
    })
    | inr e ↦ elim (Bool-cases (has_mstid m (ids d))) [
      | inl q ↦
          rw (e, q)
            (record {
              accepts = λ l u c. refl;
              listed = λ a i. present m i (ids d) q;
              rejected = λ _. refl;
            })
      | inr q ↦ elim (Option-cases (tree_after m 0 none (ids d))) [
        | inl n ↦ absurd (tree_after-some m (ids d) (ground (arith, e)) h.sorted q n)
        | inr (k, n) ↦ elim (Bool-cases (ltb max_implementation_mstis (length d.station.trees))) [
          | inl f ↦
              rw (e, q, n, f)
                (record {
                  accepts = λ l u c. absurd (ground (arith, f));
                  listed = λ a. cc;
                  rejected = λ _. refl;
                })
          | inr f ↦
              rw (e, q, n, f)
                (record { accepts = λ l u c. refl; listed = λ a i. added k i; rejected = λ a. cc })
        ]
      ]
    ]
  ]
    where
      added :
          (k i : ℕ)
          → has_mstid i (mstids (add_tree speed k m d.station)) ≡ (m == i || has_mstid i (ids d))
      added k i =
          ap (has_mstid i) (
            map-insert_at (λ (t : Tree). t.mstid) (suc k)
              (create_tree d.station.bridge (cist_address d.station.trees) m) d.station.trees)
          ∙ has_mstid-insert i m (suc k) (ids d)

  delete-RemovesId : (m : ℕ) → RemovesId m d (delete_msti m d)
  unfolding delete_msti remove_tree
  delete-RemovesId m =
      let used = λ (fid : ℕ). d.fid2mstid fid == m in
      elim (Bool-cases (ltb m 1 || ltb max_mstid m || some_from 0 (max_fid + 1) used)) [
        | inl e ↦ rw e (record {
          accepts = λ l u f. absurd (clash l u f e);
          listed = λ a. cc;
          rejected = λ _. refl;
        })
        | inr e ↦ elim (Option-cases (index_of m 0 (ids d))) [
          | inl n ↦
              rw (e, n)
                (record {
                  accepts = λ l u f. refl;
                  listed = λ a i. absent m i (ids d) (index_of-absent m 0 (ids d) n);
                  rejected = λ _. refl;
                })
          | inr (k, n) ↦
              rw (e, n)
                (record {
                  accepts = λ l u f. refl;
                  listed = λ a i.
                      ap (has_mstid i) (map-remove_at (λ (t : Tree). t.mstid) k d.station.trees)
                      ∙ IsSorted-remove i m k (ids d) (ground (arith, e)) h.sorted n;
                  rejected = λ a. cc;
                })
        ]
      ]
    where
      clash :
          1 ≤ m
          → m ≤ max_mstid
          → ((fid : ℕ) → fid ≤ max_fid → d.fid2mstid fid ≢ m)
          → (ltb m 1 || ltb max_mstid m || some_from 0 (max_fid + 1) (λ fid. d.fid2mstid fid == m))
            ≡ true
          → ⊥
      clash l u f e =
          let found : some_from 0 (max_fid + 1) (λ fid. d.fid2mstid fid == m) ≡ true =
            ground (arith, e, l, u) in
          let (fid, a, b, c) = some_from-true 0 (max_fid + 1) (λ fid. d.fid2mstid fid == m) found in
          f fid (omega arith) (ground (arith, c))

  -- The list that MSTP_IN_get_mstilist gives is a set of MSTIDs: an MSTI from 1 to 4094 is accepted
  -- if there is room for it, and then it is in the list with those that were; it may be deleted if no
  -- FID is allocated to it, and then it is not in the list and the others are; a call that is rejected
  -- changes nothing.
  pub mstilist_refines :
      ((speed : Port → ℕ) (m : ℕ) → Inserts m d (create_msti speed m d))
      × ((m : ℕ) → Removes m d (delete_msti m d))
  mstilist_refines = (
    λ speed m.
        let k = create-InsertsId speed m in
        let g = mstilist-all (create_msti speed m d).state (create_msti-IsAllocated d h speed m) in
        record {
          accepts = k.accepts;
          listed = λ a i.
              ap (has_mstid i) g
              ∙ k.listed a i
              ∙ ap (λ xs. m == i || has_mstid i xs) (sym (mstilist-all d h));
          rejected = k.rejected;
        },
    λ m.
        let k = delete-RemovesId m in
        let g = mstilist-all (delete_msti m d).state (delete_msti-IsAllocated d h m) in
        record {
          accepts = k.accepts;
          listed = λ a i.
              ap (has_mstid i) g
              ∙ k.listed a i
              ∙ ap (λ xs. not (m == i) && has_mstid i xs) (sym (mstilist-all d h));
          rejected = k.rejected;
        },
  )
