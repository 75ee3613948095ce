-- ===== src/LeaseSet/Tests.antt =====
-- Lease sets of a destination with an EdDSA key.
use i2pd.Prelude.{
  ℕ, ◌≡◌, refl, true, false, not, List, [], ◌∷◌, ◌++◌, some, length, take, replicate, arith, get_or,
  ==_refl, ◌==◌,
}
use i2pd.Identity.{
  IdentityEx, buffer_of, standard_bytes, signing_key_type, verifying_key, public_key_len,
  signature_len,
}
use i2pd.Identity.RoundTrip.{certificate}
use i2pd.LeaseSet.{
  Lease, Crypto, InboundTunnel, from_bytes, publish, leases_of, gateways, non_expired_leases,
  has_expired_leases,
}
use i2pd.LeaseSet.Publish.{IsSound, from_bytes-publish}
use i2pd.LeaseSet.Expiry.{expired_lease_returned}

abbrev extension : List ℕ
extension = 0 ∷ 7 ∷ 0 ∷ 0 ∷ []

abbrev destination : IdentityEx
destination = record {
  public_key = replicate 256 2;
  signing_key = replicate 128 3;
  cert_type = 5;
  cert_length = 4;
  ident_hash = [];
  extended_len = 4;
  extended = buffer_of extension;
}

-- A signature is the length of its message, sixty-four times over.
abbrev toy_sign : List ℕ → List ℕ
toy_sign bytes = replicate 64 (length bytes)

abbrev toy_crypto : Crypto
toy_crypto = record {
  sha256 = λ bytes. take 32 bytes;
  verify = λ type key bytes signature. get_or signature 0 0 == length bytes;
}

destination-IsSound : IsSound toy_crypto toy_sign destination
unfolding signing_key_type verifying_key public_key_len signature_len
destination-IsSound = record {
  key_type = 7;
  key = replicate 32 3;
  has_type = refl;
  is_supported = omega arith;
  has_key = refl;
  signs = λ bytes. ==_refl (length bytes);
  has_length = λ bytes. refl;
}

abbrev tunnels : List (ℕ × InboundTunnel)
tunnels =
    (3, record { next_ident_hash = replicate 32 8; next_tunnel_id = 77; creation_time = 1000 })
    ∷ (0, record { next_ident_hash = replicate 32 9; next_tunnel_id = 78; creation_time = 1001 })
    ∷ []

from_bytes-publish_example :
    (bytes : List ℕ) × (publish toy_sign destination (replicate 256 4) tunnels ≡ some bytes)
    × (from_bytes toy_crypto [] bytes
        ≡ some (record {
          is_valid = not (length tunnels == 0);
          leases = leases_of tunnels;
          identity = record destination {
            ident_hash = toy_crypto.sha256 (standard_bytes destination ++ extension);
          };
          encryption_key = replicate 256 4;
          buffer = bytes;
          looked_up = gateways (leases_of tunnels);
        }))
from_bytes-publish_example =
    from_bytes-publish toy_crypto toy_sign destination destination-IsSound extension
      (replicate 256 4)
      (certificate (replicate 256 2) (replicate 128 3) [] 5 extension (omega arith) (omega arith))
      (refl, refl) refl [] tunnels (omega arith) ((refl, omega arith), ((refl, omega arith), tt))

abbrev early_lease : Lease
early_lease = record { tunnel_gateway = replicate 32 1; tunnel_id = 5; end_date = 0 }

expired_lease_returned_example :
    (has_expired_leases 1500000000000 ([] ++ (early_lease ∷ [])) ≡ true)
    × (non_expired_leases false 1500000000000 ([] ++ (early_lease ∷ []))
        ≡ non_expired_leases false 1500000000000 []
          ++ (early_lease ∷ non_expired_leases false 1500000000000 []))
expired_lease_returned_example =
    expired_lease_returned 1500000000000 early_lease [] [] (omega arith) (omega arith) (omega arith)
