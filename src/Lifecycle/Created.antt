-- ===== src/Lifecycle/Created.antt =====
-- mstp.c, MSTP_IN_bridge_create: what holds of a new bridge.
use mstpd.Prelude.{
  ℕ, zero, suc, ◌+◌, ◌-◌, ◌*◌, ◌/◌, ◌%◌, ◌^◌, ◌<◌, ◌≡◌, false, List, [], ◌∷◌, ◌++◌, refl, ◌∙◌, ap,
  arith, All, inl, inr, ltb, length, ◌==◌, if◌then◌else◌,
}
use mstpd.Allocation.Tables.{
  configuration_name_len, recalc_config_digest, vid2mstid, copy_name, zeros,
}
use mstpd.Allocation.Trees.{create_tree}
use mstpd.Allocation.Fresh.{IsFresh}
use mstpd.Allocation.Name.{IsStored, copy_name-copy}
use mstpd.Allocation.Valid.{IsAllocated}
use mstpd.Config.Ranges.{IsConfigured}
use mstpd.Lifecycle.Bridges.{bridge_create, address_name, hex_digit, hex_octet}

-- The number that a sequence of capital hexadecimal digits stands for, after digits read before.
abbrev pub digit_value : ℕ → ℕ
digit_value c = if ltb c b'A' then c - b'0' else c - b'A' + 10

unfoldable pub hex_value : ℕ → List ℕ → ℕ
hex_value n [] = n
hex_value n (c ∷ cs) = hex_value (n * 16 + digit_value c) cs

digit_value-hex_digit : (d : ℕ) → d < 16 → digit_value (hex_digit d) ≡ d
digit_value-hex_digit d l = ground (arith, l)

hex_digit-nonzero : (d : ℕ) → (hex_digit d == 0) ≡ false
hex_digit-nonzero d = ground arith

hex_value-octet :
    (n o : ℕ) (cs : List ℕ) → hex_value n (hex_octet o ++ cs) ≡ hex_value (n * 256 + o % 256) cs
unfolding hex_value
hex_value-octet n o cs =
    ap (λ x. hex_value x cs)
      (ap (λ d. (n * 16 + digit_value (hex_digit (o / 16 % 16))) * 16 + d)
          (digit_value-hex_digit (o % 16) (omega arith))
        ∙ ap (λ d. (n * 16 + d) * 16 + o % 16) (digit_value-hex_digit (o / 16 % 16) (omega arith))
        ∙ omega arith)

-- The next octet of an address, after those before it.
next_octet : (x n m : ℕ) → x ≡ m → n / 256 ≡ m → x * 256 + n % 256 ≡ n
next_octet x n m e f = omega (arith, e, f)

address_value : (mac : ℕ) → mac < 2 ^ 48 → hex_value 0 (address_name mac) ≡ mac
unfolding address_name hex_value
address_value mac l =
    let a = mac / 2 ^ 40 in
    let b = mac / 2 ^ 32 in
    let c = mac / 2 ^ 24 in
    let d = mac / 2 ^ 16 in
    let e = mac / 2 ^ 8 in
    hex_value-octet 0 a (hex_octet b ++ hex_octet c ++ hex_octet d ++ hex_octet e ++ hex_octet mac)
    ∙ hex_value-octet _ b (hex_octet c ++ hex_octet d ++ hex_octet e ++ hex_octet mac)
    ∙ hex_value-octet _ c (hex_octet d ++ hex_octet e ++ hex_octet mac)
    ∙ hex_value-octet _ d (hex_octet e ++ hex_octet mac)
    ∙ hex_value-octet _ e (hex_octet mac)
    ∙ hex_value-octet _ mac []
    ∙ next_octet _ mac e
        (next_octet _ e d
          (next_octet _ d c
            (next_octet _ c b (next_octet _ b a (omega (arith, l)) (omega arith)) (omega arith))
            (omega arith))
          (omega arith))
        (omega arith)

-- A name without NULs is stored as it is, and filled with NULs.
no_name : (m : ℕ) → copy_name m [] ≡ zeros m
unfolding copy_name zeros
no_name zero = refl
no_name (suc m) = refl

stored_name :
    (m n : ℕ) (cs : List ℕ)
    → m ≡ length cs + n
    → All (λ c. (c == 0) ≡ false) cs
    → copy_name m cs ≡ cs ++ zeros n
unfolding copy_name
stored_name m n [] e a = no_name m ∙ ap zeros (omega (arith, e))
stored_name zero n (c ∷ cs) e a = absurd (omega (arith, e))
stored_name (suc m) n (c ∷ cs) e a =
    rw a.0 (ap (λ r. c ∷ r) (stored_name m n cs (omega (arith, e)) a.1))

octet-nonzero :
    (o : ℕ) (cs : List ℕ)
    → All (λ c. (c == 0) ≡ false) cs
    → All (λ c. (c == 0) ≡ false) (hex_octet o ++ cs)
octet-nonzero o cs a = (hex_digit-nonzero (o / 16 % 16), (hex_digit-nonzero (o % 16), a))

address_stored :
    (mac : ℕ) → copy_name configuration_name_len (address_name mac) ≡ address_name mac ++ zeros 20
unfolding address_name
address_stored mac =
    let a = mac / 2 ^ 40 in
    let b = mac / 2 ^ 32 in
    let c = mac / 2 ^ 24 in
    let d = mac / 2 ^ 16 in
    let e = mac / 2 ^ 8 in
    stored_name 32 20 (address_name mac) refl (
      octet-nonzero a (hex_octet b ++ hex_octet c ++ hex_octet d ++ hex_octet e ++ hex_octet mac) (
        octet-nonzero b (hex_octet c ++ hex_octet d ++ hex_octet e ++ hex_octet mac) (
          octet-nonzero c (hex_octet d ++ hex_octet e ++ hex_octet mac) (
            octet-nonzero d (hex_octet e ++ hex_octet mac)
              (octet-nonzero e (hex_octet mac) (octet-nonzero mac [] tt))))))

-- The name of a bridge: twelve hexadecimal digits that stand for the MAC address, and 20 NULs.
pub record IsNamed (macaddr : ℕ) (name : List ℕ) : Type 0 where
  pub digits : List ℕ
  pub twelve : length digits ≡ 12
  pub whole : name ≡ digits ++ zeros 20
  pub value : hex_value 0 digits ≡ macaddr

pub created_bridge_valid :
    (hmac_md5 : List ℕ → ℕ) (macaddr : ℕ)
    → macaddr < 2 ^ 48
    → let d = bridge_create hmac_md5 macaddr in
      IsAllocated d
      × IsFresh hmac_md5 d
      × IsStored d
      × IsNamed macaddr d.configuration_name
      × IsConfigured d.station
unfolding bridge_create recalc_config_digest create_tree vid2mstid address_name
created_bridge_valid hmac_md5 macaddr l = (
  record {
    fids = λ vid l u. omega arith;
    trees = λ fid u. refl;
    sorted = (refl, tt);
    count = omega arith;
    rows = tt;
  },
  record { digest = refl; identifier = refl },
  copy_name-copy configuration_name_len (address_name macaddr),
  record {
    digits = address_name macaddr;
    twelve = refl;
    whole = address_stored macaddr;
    value = address_value macaddr l;
  },
  record {
    ranges = record {
      max_age = omega arith;
      forward_delay = omega arith;
      times = omega arith;
      version = inr (inl refl);
      hold_count = omega arith;
      hops = omega arith;
      ageing_time = omega arith;
    };
    tree_times = (refl, tt);
    paced = tt;
  },
)
