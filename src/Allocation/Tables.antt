-- ===== src/Allocation/Tables.antt =====
-- mstp.c: RecalcConfigDigest, MSTP_IN_set_vid2fid, MSTP_IN_set_all_vids2fids, MSTP_IN_set_fid2mstid,
-- MSTP_IN_set_all_fids2mstids and MSTP_IN_set_mst_config_id.
--
-- A table is a function of its index. HMAC-MD5 is a parameter: the digest of a table under the key
-- that the standard gives, as one number. An MSTID is a number, in either byte order.
use mstpd.Prelude.{
  ℕ, zero, suc, ◌+◌, ◌*◌, ◌^◌, Bool, true, false, not, ◌&&◌, ◌||◌, List, [], ◌∷◌, ◌++◌, map, any_of,
  ltb, leb, ◌==◌, if◌then◌else◌,
}
use mstpd.Types.{Tree}
use mstpd.Station.Grid.{Station}
use mstpd.Config.Bridge.{Call, Outcome, reject}

abbrev pub max_vid : ℕ
max_vid = 4094

abbrev pub max_fid : ℕ
max_fid = 4095

abbrev pub max_mstid : ℕ
max_mstid = 4094

abbrev pub configuration_name_len : ℕ
configuration_name_len = 32

-- bridge_t with its tables, and with the parts of `MstConfigId`; the identifier as one number is in
-- the bridge of the station.
pub record Domain : Type 0 where
  pub station : Station
  pub vid2fid : ℕ → ℕ
  pub fid2mstid : ℕ → ℕ
  pub configuration_name : List ℕ
  pub revision_level : ℕ
  pub configuration_digest : ℕ

abbrev pub mstids : Station → List ℕ
mstids s = map (λ (t : Tree). t.mstid) s.trees

-- Is the tree in the list?
abbrev pub has_mstid : ℕ → List ℕ → Bool
has_mstid m ids = any_of (λ i. i == m) ids

-- `for(i = first; count != 0; ++i, --count)`, looking for an index with the property.
unfoldable pub some_from : ℕ → ℕ → (ℕ → Bool) → Bool
some_from i zero p = false
some_from i (suc n) p = p i || some_from (suc i) n p

-- `array[k] = v`.
abbrev pub update : ℕ → ℕ → (ℕ → ℕ) → ℕ → ℕ
update k v f x = if x == k then v else f x

-- The MSTIDs of `n` VIDs from `vid` on.
unfoldable pub vid_row : (ℕ → ℕ) → (ℕ → ℕ) → ℕ → ℕ → List ℕ
vid_row vid2fid fid2mstid vid zero = []
vid_row vid2fid fid2mstid vid (suc n) =
    fid2mstid (vid2fid vid) ∷ vid_row vid2fid fid2mstid (suc vid) n

-- The table of RecalcConfigDigest, with a zero before it and after it.
unfoldable pub vid2mstid : Domain → List ℕ
vid2mstid d = 0 ∷ (vid_row d.vid2fid d.fid2mstid 1 max_vid ++ (0 ∷ []))

-- The octets of a name as one number.
abbrev pub octets : ℕ → List ℕ → ℕ
octets n [] = n
octets n (c ∷ cs) = octets (n * 2 ^ 8 + c) cs

-- The 51 octets of `mst_configuration_identifier_t` as one number; the selector is 0.
unfoldable pub config_id : List ℕ → ℕ → ℕ → ℕ
config_id name revision digest = (octets 0 name * 2 ^ 16 + revision) * 2 ^ 128 + digest

abbrev pub with_config_id : ℕ → Station → Station
with_config_id id s = record s { bridge = record (s.bridge) { mst_config_id = id } }

-- Whether every one of the first `n` octets, up to a NUL, is the same: `0 == strncmp(a, b, n)`.
unfoldable pub same_name : ℕ → List ℕ → List ℕ → Bool
same_name zero a b = true
same_name (suc n) [] [] = true
same_name (suc n) [] (y ∷ b) = y == 0
same_name (suc n) (x ∷ a) [] = x == 0
same_name (suc n) (x ∷ a) (y ∷ b) = x == y && (x == 0 || same_name n a b)

unfoldable pub zeros : ℕ → List ℕ
zeros zero = []
zeros (suc n) = 0 ∷ zeros n

-- `strncpy(_, name, n)`: the octets up to a NUL, filled with NULs.
unfoldable pub copy_name : ℕ → List ℕ → List ℕ
copy_name zero name = []
copy_name (suc n) [] = zeros (suc n)
copy_name (suc n) (c ∷ cs) = if c == 0 then zeros (suc n) else c ∷ copy_name n cs

-- MSTP_IN_set_mst_config_id.
unfoldable pub set_mst_config_id : ℕ → List ℕ → Domain → Outcome Domain
set_mst_config_id revision name d =
    let new = copy_name configuration_name_len name in
    if not (same_name configuration_name_len name d.configuration_name)
      || not (revision == d.revision_level)
    then record {
      accepted = true;
      state = record d {
        configuration_name = new;
        revision_level = revision;
        station = with_config_id (config_id new revision d.configuration_digest) d.station;
      };
      call = Call.begin;
    }
    else record { accepted = true; state = d; call = Call.nothing }

-- A FID that does not exist keeps the VID's former one.
abbrev pub kept_fids : (ℕ → ℕ) → Domain → ℕ → ℕ
kept_fids vids2fids d vid =
    if leb 1 vid && leb vid max_vid && ltb max_fid (vids2fids vid)
    then d.vid2fid vid
    else vids2fids vid

-- An MSTID that cannot exist keeps the FID's former one.
abbrev pub kept_mstids : (ℕ → ℕ) → Domain → ℕ → ℕ
kept_mstids fids2mstids d fid =
    if ltb max_mstid (fids2mstids fid) then d.fid2mstid fid else fids2mstids fid

module _ (hmac_md5 : List ℕ → ℕ) where
  unfoldable pub recalc_config_digest : Domain → Domain
  recalc_config_digest d =
      let digest = hmac_md5 (vid2mstid d) in
      record d {
        configuration_digest = digest;
        station = with_config_id (config_id d.configuration_name d.revision_level digest) d.station;
      }

  -- `if(vid2mstid_changed) { RecalcConfigDigest(br); br_state_machines_begin(br); }`
  unfoldable pub renew_if : Bool → Domain → Outcome Domain
  unfolding recalc_config_digest
  renew_if changed d =
      if changed
      then record { accepted = true; state = recalc_config_digest d; call = Call.begin }
      else record { accepted = true; state = d; call = Call.nothing }

  -- MSTP_IN_set_vid2fid.
  unfoldable pub set_vid2fid : ℕ → ℕ → Domain → Outcome Domain
  set_vid2fid vid fid d =
      if ltb vid 1 || ltb max_vid vid || ltb max_fid fid
      then reject d
      else renew_if (not (d.fid2mstid fid == d.fid2mstid (d.vid2fid vid)))
          (record d { vid2fid = update vid fid d.vid2fid })

  -- MSTP_IN_set_all_vids2fids.
  unfoldable pub set_all_vids2fids : (ℕ → ℕ) → Domain → Outcome Domain
  set_all_vids2fids vids2fids d =
      renew_if
        (some_from 1 max_vid (λ vid.
          not (ltb max_fid (vids2fids vid))
          && not (d.fid2mstid (vids2fids vid) == d.fid2mstid (d.vid2fid vid))))
        (record d { vid2fid = kept_fids vids2fids d })

  -- MSTP_IN_set_fid2mstid.
  unfoldable pub set_fid2mstid : ℕ → ℕ → Domain → Outcome Domain
  set_fid2mstid fid mstid d =
      if ltb max_fid fid || not (has_mstid mstid (mstids d.station))
      then reject d
      else if d.fid2mstid fid == mstid
      then record { accepted = true; state = d; call = Call.nothing }
      else renew_if (some_from 1 max_vid (λ vid. d.vid2fid vid == fid))
          (record d { fid2mstid = update fid mstid d.fid2mstid })

  -- MSTP_IN_set_all_fids2mstids.
  unfoldable pub set_all_fids2mstids : (ℕ → ℕ) → Domain → Outcome Domain
  set_all_fids2mstids fids2mstids d =
      let new = kept_mstids fids2mstids d in
      if some_from 0 (max_fid + 1) (λ fid. not (has_mstid (new fid) (mstids d.station)))
      then reject d
      else renew_if
          (some_from 1 max_vid (λ vid. not (d.fid2mstid (d.vid2fid vid) == new (d.vid2fid vid))))
          (record d { fid2mstid = new })
