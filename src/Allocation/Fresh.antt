-- ===== src/Allocation/Fresh.antt =====
-- mstp.c: on the configuration digest and the VID to MSTID table that it is computed from.
use mathlib.Core.Path.{subst}
use mstpd.Prelude.{
  ℕ, zero, suc, ◌+◌, ◌≤◌, ◌<◌, ◌≡◌, ◌≢◌, Bool, true, false, not, ◌&&◌, ◌||◌, List, [], ◌∷◌, ◌++◌,
  refl, sym, ◌∙◌, ap, ltb, ◌==◌, Bool-cases, inl, inr, arith, if◌then◌else◌,
}
use mstpd.Config.Bridge.{Call, Outcome, reject}
use mstpd.Allocation.Tables.{
  Domain, max_vid, max_fid, some_from, vid_row, vid2mstid, update, config_id, renew_if, has_mstid,
  mstids, set_vid2fid, set_all_vids2fids, set_fid2mstid, set_all_fids2mstids, kept_fids,
  kept_mstids, recalc_config_digest,
}

-- The loops over the tables.
pub some_from-false :
    (i n : ℕ) (p : ℕ → Bool) → some_from i n p ≡ false → (k : ℕ) → i ≤ k → k < i + n → p k ≡ false
unfolding some_from
some_from-false i zero p h k a b = absurd (omega arith)
some_from-false i (suc n) p h k a b = elim (Bool-cases (p i)) [
  | inl e ↦ cc (rw e at h)
  | inr e ↦ elim (Bool-cases (i == k)) [
    | inl q ↦ subst (λ x. p x ≡ false) (ground (arith, q)) e
    | inr q ↦ some_from-false (suc i) n p (rw e at h) k (ground (arith, q, a)) (omega arith)
  ]
]

pub some_from-true :
    (i n : ℕ) (p : ℕ → Bool)
    → some_from i n p ≡ true
    → (k : ℕ) × (i ≤ k) × (k < i + n) × (p k ≡ true)
unfolding some_from
some_from-true i zero p h = cc
some_from-true i (suc n) p h = elim (Bool-cases (p i)) [
  | inl e ↦ (i, omega arith, omega arith, e)
  | inr e ↦
      let (k, a, b, c) = some_from-true (suc i) n p (rw e at h) in (k, omega arith, omega arith, c)
]

-- The rows of two tables are the same exactly if the tables agree.
vid_row-same :
    (v f v' f' : ℕ → ℕ) (i n : ℕ)
    → ((k : ℕ) → i ≤ k → k < i + n → f' (v' k) ≡ f (v k))
    → vid_row v' f' i n ≡ vid_row v f i n
unfolding vid_row
vid_row-same v f v' f' i zero h = refl
vid_row-same v f v' f' i (suc n) h =
    ap (λ x. x ∷ vid_row v' f' (suc i) n) (h i (omega arith) (omega arith))
    ∙ ap (λ t. f (v i) ∷ t)
        (vid_row-same v f v' f' (suc i) n (λ k a b. h k (omega arith) (omega arith)))

abbrev head_of : List ℕ → ℕ
head_of [] = 0
head_of (x ∷ xs) = x

abbrev tail_of : List ℕ → List ℕ
tail_of [] = []
tail_of (x ∷ xs) = xs

vid_row-agree :
    (v f v' f' : ℕ → ℕ) (rest : List ℕ) (i n : ℕ)
    → vid_row v' f' i n ++ rest ≡ vid_row v f i n ++ rest
    → (k : ℕ) → i ≤ k
    → k < i + n
    → f' (v' k) ≡ f (v k)
unfolding vid_row
vid_row-agree v f v' f' rest i zero h k a b = absurd (omega arith)
vid_row-agree v f v' f' rest i (suc n) h k a b = elim (Bool-cases (i == k)) [
  | inl q ↦ subst (λ x. f' (v' x) ≡ f (v x)) (ground (arith, q)) (ap head_of h)
  | inr q ↦
      vid_row-agree v f v' f' rest (suc i) n (ap tail_of h) k (ground (arith, q, a)) (omega arith)
]

-- The tables agree at every VID.
abbrev Agree : Domain → Domain → Type 0
Agree d e =
    (vid : ℕ)
    → 1 ≤ vid
    → vid < 1 + max_vid
    → e.fid2mstid (e.vid2fid vid) ≡ d.fid2mstid (d.vid2fid vid)

Agree-vid2mstid : (d e : Domain) → Agree d e → vid2mstid e ≡ vid2mstid d
unfolding vid2mstid
Agree-vid2mstid d e h =
    ap (λ t. 0 ∷ (t ++ (0 ∷ [])))
      (vid_row-same d.vid2fid d.fid2mstid e.vid2fid e.fid2mstid 1 max_vid h)

vid2mstid-Agree : (d e : Domain) → vid2mstid e ≡ vid2mstid d → Agree d e
unfolding vid2mstid
vid2mstid-Agree d e h =
    vid_row-agree d.vid2fid d.fid2mstid e.vid2fid e.fid2mstid (0 ∷ []) 1 max_vid (ap tail_of h)

module _ (hmac_md5 : List ℕ → ℕ) where
  -- The digest is that of the table, and the identifier that the BPDUs carry has this digest.
  pub record IsFresh (d : Domain) : Type 0 where
    pub digest : d.configuration_digest ≡ hmac_md5 (vid2mstid d)
    pub identifier :
        d.station.bridge.mst_config_id
        ≡ config_id d.configuration_name d.revision_level d.configuration_digest

  -- What a change of the tables does: the digest stays that of the table, and the machines begin
  -- anew exactly if the MSTID of some VID changed.
  pub record Renews (d : Domain) (o : Outcome Domain) : Type 0 where
    pub fresh : IsFresh d → IsFresh o.state
    pub begins : o.call ≡ Call.begin → vid2mstid o.state ≢ vid2mstid d
    pub stays : o.call ≢ Call.begin → vid2mstid o.state ≡ vid2mstid d
    pub rejects : o.accepted ≡ false → (o.state ≡ d) × (o.call ≡ Call.nothing)

  reject-Renews : (d : Domain) → Renews d (reject d)
  reject-Renews d = record {
    fresh = λ h. h;
    begins = λ e. cc;
    stays = λ e. refl;
    rejects = λ e. (refl, refl);
  }

  -- Begins or not, by a test that says whether the table changed.
  renew_if-Renews :
      (b : Bool) (d : Domain) (v f : ℕ → ℕ)
      → let e : Domain = record d { vid2fid = v; fid2mstid = f } in
        (b ≡ true → vid2mstid e ≢ vid2mstid d)
        → (b ≡ false → vid2mstid e ≡ vid2mstid d)
        → Renews d (renew_if hmac_md5 b e)
  unfolding renew_if recalc_config_digest vid2mstid
  renew_if-Renews true d v f h k = record {
    fresh = λ _. record { digest = refl; identifier = refl };
    begins = λ _. h refl;
    stays = λ n. absurd (n refl);
    rejects = λ e. cc;
  }
  renew_if-Renews false d v f h k = record {
    fresh =
        λ p. record { digest = p.digest ∙ ap hmac_md5 (sym (k refl)); identifier = p.identifier };
    begins = λ e. cc;
    stays = λ _. k refl;
    rejects = λ e. cc;
  }

  -- The same, where the test looks for a VID whose MSTID changes.
  searched-Renews :
      (p : ℕ → Bool) (d : Domain) (v f : ℕ → ℕ)
      → ((vid : ℕ)
          → 1 ≤ vid
          → vid < 1 + max_vid
          → p vid ≡ not (f (v vid) == d.fid2mstid (d.vid2fid vid)))
      → Renews d
          (renew_if hmac_md5 (some_from 1 max_vid p) (record d { vid2fid = v; fid2mstid = f }))
  searched-Renews p d v f h =
      renew_if-Renews (some_from 1 max_vid p) d v f
        (λ b e.
          let (vid, l, u, q) = some_from-true 1 max_vid p b in
          differs _ _ (sym (h vid l u) ∙ q)
            (vid2mstid-Agree d (record d { vid2fid = v; fid2mstid = f }) e vid l u))
        (λ b.
          Agree-vid2mstid d (record d { vid2fid = v; fid2mstid = f })
            (λ vid l u. same _ _ (sym (h vid l u) ∙ some_from-false 1 max_vid p b vid l u)))
    where
      differs : (a b : ℕ) → not (a == b) ≡ true → a ≡ b → ⊥
      differs a b h e = ground arith

      same : (a b : ℕ) → not (a == b) ≡ false → a ≡ b
      same a b h = ground arith

  set_vid2fid-Renews : (vid fid : ℕ) (d : Domain) → Renews d (set_vid2fid hmac_md5 vid fid d)
  unfolding set_vid2fid
  set_vid2fid-Renews vid fid d =
      elim (Bool-cases (ltb vid 1 || ltb max_vid vid || ltb max_fid fid)) [
        | inl e ↦ rw e (reject-Renews d)
        | inr e ↦ rw e (
            renew_if-Renews _ d (update vid fid d.vid2fid) d.fid2mstid
              (λ b q. differs _ _ b (
                at_vid fid vid
                ∙ vid2mstid-Agree d (record d { vid2fid = update vid fid d.vid2fid }) q vid (low e)
                    (high e)))
              (λ b.
                Agree-vid2mstid d (record d { vid2fid = update vid fid d.vid2fid })
                  (λ k l u. elsewhere k b)))
      ]
    where
      low : (ltb vid 1 || ltb max_vid vid || ltb max_fid fid) ≡ false → 1 ≤ vid
      low e = ground arith

      high : (ltb vid 1 || ltb max_vid vid || ltb max_fid fid) ≡ false → vid < 1 + max_vid
      high e = ground arith

      differs : (a b : ℕ) → not (a == b) ≡ true → a ≡ b → ⊥
      differs a b h e = ground arith

      at_vid : (a k : ℕ) → d.fid2mstid a ≡ d.fid2mstid (if k == k then a else d.vid2fid k)
      at_vid a k = ground arith

      elsewhere :
          (k : ℕ)
          → not (d.fid2mstid fid == d.fid2mstid (d.vid2fid vid)) ≡ false
          → d.fid2mstid (update vid fid d.vid2fid k) ≡ d.fid2mstid (d.vid2fid k)
      elsewhere k b = elim (Bool-cases (k == vid)) [
        | inl e ↦ ground (arith, e, b)
        | inr e ↦ rw e refl
      ]

  set_all_vids2fids-Renews :
      (vids2fids : ℕ → ℕ) (d : Domain) → Renews d (set_all_vids2fids hmac_md5 vids2fids d)
  unfolding set_all_vids2fids
  set_all_vids2fids-Renews g d =
      searched-Renews _ d (kept_fids g d) d.fid2mstid (λ vid l u. test vid l u)
    where
      test :
          (vid : ℕ)
          → 1 ≤ vid
          → vid < 1 + max_vid
          → (not (ltb max_fid (g vid)) && not (d.fid2mstid (g vid) == d.fid2mstid (d.vid2fid vid)))
            ≡ not (d.fid2mstid (kept_fids g d vid) == d.fid2mstid (d.vid2fid vid))
      test vid l u = ground arith

  set_fid2mstid-Renews :
      (fid mstid : ℕ) (d : Domain) → Renews d (set_fid2mstid hmac_md5 fid mstid d)
  unfolding set_fid2mstid
  set_fid2mstid-Renews fid mstid d =
      elim (Bool-cases (ltb max_fid fid || not (has_mstid mstid (mstids d.station)))) [
        | inl e ↦ rw e (reject-Renews d)
        | inr e ↦ elim (Bool-cases (d.fid2mstid fid == mstid)) [
          | inl q ↦
              rw (e, q)
                (record { fresh = λ h. h; begins = λ n. cc; stays = λ n. refl; rejects = λ n. cc })
          | inr q ↦
              rw (e, q)
                (searched-Renews (λ vid. d.vid2fid vid == fid) d d.vid2fid
                  (update fid mstid d.fid2mstid) (λ vid l u. test q vid))
        ]
      ]
    where
      test :
          (d.fid2mstid fid == mstid) ≡ false
          → (vid : ℕ)
          → (d.vid2fid vid == fid)
            ≡ not (update fid mstid d.fid2mstid (d.vid2fid vid) == d.fid2mstid (d.vid2fid vid))
      test q vid = elim (Bool-cases (d.vid2fid vid == fid)) [
        | inl e ↦ ground (arith, e, q)
        | inr e ↦ ground (arith, e, q)
      ]

  set_all_fids2mstids-Renews :
      (fids2mstids : ℕ → ℕ) (d : Domain) → Renews d (set_all_fids2mstids hmac_md5 fids2mstids d)
  unfolding set_all_fids2mstids
  set_all_fids2mstids-Renews g d =
      elim (Bool-cases (
        some_from 0 (max_fid + 1)
          (λ fid. not (has_mstid (kept_mstids g d fid) (mstids d.station))))) [
            | inl e ↦ rw e (reject-Renews d)
            | inr e ↦ rw e (
                searched-Renews _ d d.vid2fid (kept_mstids g d)
                  (λ vid l u. test (d.fid2mstid (d.vid2fid vid)) (kept_mstids g d (d.vid2fid vid))))
          ]
    where
      test : (a b : ℕ) → not (a == b) ≡ not (b == a)
      test a b = ground arith

  -- Whatever the tables are set to, the configuration digest stays that of the VID to MSTID table, and
  -- the state machines begin anew exactly if the MSTID of some VID from 1 to 4094 changed; a rejected
  -- call changes nothing. This holds of one VID, all VIDs, one FID and all FIDs.
  pub tables_renew :
      (d : Domain)
      → ((vid fid : ℕ) → Renews d (set_vid2fid hmac_md5 vid fid d))
        × ((vids2fids : ℕ → ℕ) → Renews d (set_all_vids2fids hmac_md5 vids2fids d))
        × ((fid mstid : ℕ) → Renews d (set_fid2mstid hmac_md5 fid mstid d))
        × ((fids2mstids : ℕ → ℕ) → Renews d (set_all_fids2mstids hmac_md5 fids2mstids d))
  tables_renew d = (
    λ vid fid. set_vid2fid-Renews vid fid d,
    λ g. set_all_vids2fids-Renews g d,
    λ fid mstid. set_fid2mstid-Renews fid mstid d,
    λ g. set_all_fids2mstids-Renews g d,
  )
