-- ===== src/Netdb/Tests.antt =====
-- Lookups of a floodfill that has one lease set.
use i2pd.Prelude.{
  ℕ, ◌≡◌, ◌⊎◌, ◌<◌, refl, true, false, List, [], ◌∷◌, ◌++◌, ◌+◌, ◌*◌, ◌^◌, Option, none, some,
  length, replicate, take, arith,
}
use i2pd.I2np.{StoredLeaseSet}
use i2pd.I2np.Lookup.{router_info_lookup_payload, hashes_bytes, excluded_or_none}
use i2pd.Garlic.{Crypto}
use i2pd.Garlic.Wrap.{Clock, Draws}
use i2pd.Garlic.Single.{wrap_one_time}
use i2pd.Netdb.{Database, to_tunnel, read_lookup, is_zero, with_keys, handle_database_lookup_msg}
use i2pd.Netdb.Replies.{read_as, read_lookup-router_info}
use i2pd.Netdb.Answers.{store_msg, asked, handle_database_lookup_msg-keys}

abbrev toy_crypto : Crypto
toy_crypto = record {
  sha256 = λ bytes. take 32 (bytes ++ replicate 32 0);
  cbc_encrypt = λ key iv bytes. bytes;
  cbc_decrypt = λ key iv bytes. bytes;
  elgamal_encrypt = λ public block. block;
  elgamal_decrypt = λ private bytes. some bytes;
}

abbrev now : Clock
now = record { seconds = 1000; milliseconds = 1000000 }

abbrev toy_draws : Draws
toy_draws = record {
  pre_iv = replicate 32 3;
  padding = [];
  new_tags = λ i. [];
  msg_id = 55;
  clove_id = 56;
  header_id = 57;
}

abbrev toy_lease_set : StoredLeaseSet
toy_lease_set = record { ident_hash = replicate 32 1; buffer = 4 ∷ 5 ∷ []; non_expired_leases = [] }

abbrev toy_database : Database
toy_database = record {
  router_store_msg = λ ident. none;
  find_lease_set = λ ident. some toy_lease_set;
  closest_non_floodfill = λ ident excluded. none;
  closest_floodfills = λ ident n excluded. [];
  own_ident = replicate 32 9;
}

-- The reply is asked for through tunnel 0x01020304.
read_lookup-router_info_example :
    read_lookup (
      router_info_lookup_payload
        (replicate 32 1)
        (replicate 32 2)
        16909060
        false
        (some (replicate 32 3 ∷ []))
      ++ (6 ∷ []))
    ≡ some (
        read_as
          (replicate 32 1)
          9
          (9 * 2 ^ 24 + 66051)
          1
          (hashes_bytes (replicate 32 3 ∷ []) ++ (6 ∷ [])))
unfolding excluded_or_none
read_lookup-router_info_example =
    read_lookup-router_info (replicate 32 1) (replicate 32 2) (6 ∷ []) 16909060 false
      (some (replicate 32 3 ∷ [])) refl refl (omega arith) (omega arith)

not_zero : is_zero (replicate 32 1) ≡ false
unfolding is_zero
not_zero = refl

abbrev ask : List (List ℕ) → List ℕ
ask =
    asked toy_crypto now toy_draws 0 toy_database true 5 (replicate 32 1) (replicate 32 2)
      (replicate 32 3) (replicate 32 4) 700 toy_lease_set refl refl refl refl (omega arith) not_zero
      refl

abbrev toy_store : List ℕ
toy_store =
    store_msg toy_crypto now toy_draws 0 toy_database true 5 (replicate 32 1) (replicate 32 2)
      (replicate 32 3) (replicate 32 4) 700 toy_lease_set refl refl refl refl (omega arith) not_zero
      refl

handle_database_lookup_msg-keys_example :
    ((id : ℕ) × (handle_database_lookup_msg toy_crypto now toy_draws 0 toy_database true 5
          (ask [] ++ [])
        ≡ some (
            some (
              to_tunnel true
                (replicate 32 2)
                id
                (wrap_one_time toy_crypto now toy_draws 0
                  (replicate 32 3)
                  (replicate 32 4)
                  toy_store).message))))
    × ((first : List ℕ) (others : List (List ℕ))
        → length first ≡ 32
        → length others < 512
        → (id : ℕ) × (keys : Option (List ℕ × List ℕ)) × (handle_database_lookup_msg toy_crypto now
              toy_draws 0 toy_database true 5
              (ask (first ∷ others) ++ [])
            ≡ some (
                some (
                  to_tunnel true
                    (replicate 32 2)
                    id
                    (with_keys toy_crypto now toy_draws 0 toy_store keys))))
          × ((keys ≡ none) ⊎ ((tag : List ℕ) × (keys ≡ some (first, tag)))))
handle_database_lookup_msg-keys_example =
    handle_database_lookup_msg-keys toy_crypto now toy_draws 0 toy_database true 5 (replicate 32 1)
      (replicate 32 2) (replicate 32 3) (replicate 32 4) 700 toy_lease_set refl refl refl refl
      (omega arith) not_zero refl []
