-- ===== src/Allocation/Name.antt =====
-- mstp.c, MSTP_IN_set_mst_config_id: on the name and the revision of the configuration identifier.
use mstpd.Prelude.{
  ℕ, zero, suc, ◌≡◌, true, List, [], ◌∷◌, refl, sym, ◌∙◌, ap, ◌==◌, Bool-cases, inl, inr, arith,
  ◌↔◌,
}
use mstpd.Config.Bridge.{Call, Outcome}
use mstpd.Allocation.Tables.{
  Domain, same_name, copy_name, zeros, set_mst_config_id, configuration_name_len, config_id,
  vid2mstid, with_config_id,
}
use mstpd.Allocation.Fresh.{IsFresh}

-- `strncmp` finds two names the same exactly if `strncpy` copies the same octets.
same_name-copy : (n : ℕ) (a b : List ℕ) → same_name n a b ≡ true → copy_name n a ≡ copy_name n b
unfolding same_name copy_name zeros
same_name-copy zero a b h = refl
same_name-copy (suc n) [] [] h = refl
same_name-copy (suc n) [] (y ∷ b) h = ground arith
same_name-copy (suc n) (x ∷ a) [] h = ground arith
same_name-copy (suc n) (x ∷ a) (y ∷ b) h = ground (arith, same_name-copy n a b)

copy-same_name : (n : ℕ) (a b : List ℕ) → copy_name n a ≡ copy_name n b → same_name n a b ≡ true
unfolding same_name copy_name zeros
copy-same_name zero a b h = refl
copy-same_name (suc n) [] [] h = refl
copy-same_name (suc n) [] (y ∷ b) h = ground arith
copy-same_name (suc n) (x ∷ a) [] h = ground arith
copy-same_name (suc n) (x ∷ a) (y ∷ b) h = ground (arith, copy-same_name n a b)

-- The stored name has its full length, with nothing but NULs after the first NUL.
abbrev pub IsStored : Domain → Type 0
IsStored d = copy_name configuration_name_len d.configuration_name ≡ d.configuration_name

pub copy_name-copy : (n : ℕ) (a : List ℕ) → copy_name n (copy_name n a) ≡ copy_name n a
unfolding copy_name zeros
copy_name-copy zero a = refl
copy_name-copy (suc n) [] = refl
copy_name-copy (suc n) (x ∷ a) = ground (arith, copy_name-copy n a)

kept :
    (d : Domain) (name : List ℕ) (rev : ℕ) (id : ℕ)
    → vid2mstid d
      ≡ vid2mstid (record d {
        configuration_name = name;
        revision_level = rev;
        station = with_config_id id d.station;
      })
unfolding vid2mstid
kept d name rev id = refl

module _ (hmac_md5 : List ℕ → ℕ) where
  -- What MSTP_IN_set_mst_config_id leaves behind.
  pub record Stores (rev : ℕ) (given : List ℕ) (d : Domain) (o : Outcome Domain) : Type 0 where
    pub name : o.state.configuration_name ≡ copy_name configuration_name_len given
    pub revision : o.state.revision_level ≡ rev
    pub stored : IsStored o.state
    pub fresh : IsFresh hmac_md5 d → IsFresh hmac_md5 o.state
    pub begins :
        (o.call ≡ Call.begin)
        ↔ ¬ (
            (copy_name configuration_name_len given ≡ d.configuration_name)
            × (rev ≡ d.revision_level))

  -- MSTP_IN_set_mst_config_id stores the name, cut at its first NUL and filled with NULs to 32 octets,
  -- and the revision; the digest stays that of the table; and the state machines begin anew exactly if
  -- the stored name or the revision changes.
  pub mst_config_id_stored :
      (rev : ℕ) (given : List ℕ) (d : Domain)
      → IsStored d
      → Stores rev given d (set_mst_config_id rev given d)
  unfolding set_mst_config_id
  mst_config_id_stored rev given d h =
      elim (Bool-cases (same_name configuration_name_len given d.configuration_name)) [
        | inl e ↦ elim (Bool-cases (rev == d.revision_level)) [
          | inl r ↦
              rw (e, r)
                (record {
                  name =
                      sym (same_name-copy configuration_name_len given d.configuration_name e ∙ h);
                  revision = ground (arith, r);
                  stored = h;
                  fresh = λ f. f;
                  begins = (
                    λ c. cc,
                    λ n. absurd (
                        n (
                          same_name-copy configuration_name_len given d.configuration_name e ∙ h,
                          ground (arith, r),
                        )),
                  );
                })
          | inr r ↦ rw (e, r) (changed (λ p. ground (arith, p.1, r)))
        ]
        | inr e ↦ rw e (
            changed (λ p.
              cc (
                e,
                copy-same_name configuration_name_len given d.configuration_name (p.0 ∙ sym h),
              )))
      ]
    where
      changed :
          ((copy_name configuration_name_len given ≡ d.configuration_name)
              × (rev ≡ d.revision_level)
            → ⊥)
          → Stores rev given d (record {
            accepted = true;
            state = record d {
              configuration_name = copy_name configuration_name_len given;
              revision_level = rev;
              station =
                  with_config_id
                    (config_id (copy_name configuration_name_len given) rev d.configuration_digest)
                    d.station;
            };
            call = Call.begin;
          })
      changed n = record {
        name = refl;
        revision = refl;
        stored = copy_name-copy configuration_name_len given;
        fresh = λ f. record { digest = f.digest ∙ ap hmac_md5 (kept d _ _ _); identifier = refl };
        begins = (λ _. n, λ _. refl);
      }
