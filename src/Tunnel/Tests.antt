-- ===== src/Tunnel/Tests.antt =====
-- core/tunnel: the theorems at concrete inputs.
use i2pd.Prelude.{
  ℕ, zero, suc, ◌+◌, ◌-◌, ◌%◌, ◌≡◌, ◌≢◌, refl, true, List, [], ◌∷◌, ◌++◌, none, some, All, length,
  replicate, arith,
}
use i2pd.Prelude.Bytes.{be16}
use i2pd.Prelude.Assoc.{lookup}
use i2pd.Tunnel.{to_router}
use i2pd.Tunnel.Endpoint.{
  Endpoint, ok, handle_fragments, handle_next_message, handle_decrypted_tunnel_data_msg,
}
use i2pd.Tunnel.Gateway.{
  Crypto, Buffer, Outgoing, instructions, mark_fragmented, follow_on_flag, finished, put_i2np_msg,
  complete_current_tunnel_data_message,
}
use i2pd.Tunnel.Gateway
use i2pd.Tunnel.Headers.{Addressed}
use i2pd.Tunnel.Layout.{IsSound, Place, tunnel_data, handle_finished}
use i2pd.Tunnel.Fragments.{receive_all, holding}
use i2pd.Tunnel.First.{HasRoom, ap_room, begun}
use i2pd.Tunnel.RoundTrip.{put-receive_all}
use i2pd.Tunnel.Safety.{StaysSafe, handle_decrypted_tunnel_data_msg-Safe}
use i2pd.Tunnel.Total.{put_i2np_msg-some}
use i2pd.Tunnel.Lost.{over_read, second_message_lost}

-- Libraries with documented sizes: a hash of 32 bytes, IVs of 16, the least number there is.
abbrev crypto : Crypto
crypto = record {
  sha256 = λ bytes. length bytes % 256 ∷ replicate 31 7;
  generate_iv = λ k. replicate 16 (k % 256);
  generate_word = λ k bound. 0;
}

All-replicate : (n : ℕ) → All (λ (b : ℕ). b ≢ 0) (replicate n 1)
All-replicate zero = tt
All-replicate (suc n) = (omega arith, All-replicate n)

crypto-IsSound : IsSound crypto (replicate 1003 1)
crypto-IsSound = record {
  iv_size = λ k. refl;
  hash_size = λ bytes. omega arith;
  padding = All-replicate 1003;
}

abbrev buffer : Buffer
buffer = record {
  tunnel_id = 9;
  msgs = [];
  current = none;
  remaining_size = 0;
  non_zero = replicate 1003 1;
  drawn = 4;
}

abbrev place : Place
place = record { behind = []; start = 40; max_len = 2048; capacity = 2064 }

abbrev endpoint : Endpoint
endpoint = record {
  incomplete = [];
  out_of_sequence = [];
  is_inbound = true;
  num_received_bytes = 0;
  our_ident = replicate 32 5;
  delivered = [];
}

handle_finished_example :
    handle_decrypted_tunnel_data_msg crypto.sha256
      (tunnel_data place (finished crypto buffer (0 ∷ 0 ∷ 1 ∷ 65 ∷ [])))
      endpoint
    ≡ handle_fragments 4
        (tunnel_data place (finished crypto buffer (0 ∷ 0 ∷ 1 ∷ 65 ∷ [])))
        (40 + (1008 - 4))
        ((0 ∷ 0 ∷ 1 ∷ 65 ∷ [])
          ++ ((tunnel_data place (finished crypto buffer (0 ∷ 0 ∷ 1 ∷ 65 ∷ []))).iv ++ []))
        4
        (record endpoint { num_received_bytes = 0 + 1028 })
handle_finished_example =
    handle_finished crypto buffer (0 ∷ 0 ∷ 1 ∷ 65 ∷ []) place endpoint crypto-IsSound

-- A message of 1500 bytes, with the id 3 in its header.
abbrev long_block : Gateway.Block
long_block = record {
  delivery_type = to_router;
  hash = replicate 32 5;
  tunnel_id = 0;
  msg = record { bytes = 11 ∷ 0 ∷ 0 ∷ 0 ∷ 3 ∷ replicate 1495 8; behind = [] };
}

long_block-Addressed : Addressed long_block
long_block-Addressed = record {
  known_type = λ e. ground arith;
  hash_size = refl;
  id_fits = omega arith;
}

place-HasRoom : HasRoom place 1500
place-HasRoom = record {
  in_buffer = omega arith;
  in_large = omega arith;
  has_front = omega arith;
  fits = omega arith;
}

put-receive_all_example :
    (g' : Buffer) × (ms : List (List ℕ)) × (e' : Endpoint) × (put_i2np_msg crypto 2 long_block
        buffer
      ≡ some g')
    × ((complete_current_tunnel_data_message crypto g').msgs ≡ [] ++ ms)
    × (receive_all crypto place ms endpoint ≡ ok e')
    × (e'.delivered
        ≡ (handle_next_message to_router
            (replicate 32 5)
            0
            long_block.msg.bytes
            endpoint).delivered)
    × (lookup 3 e'.incomplete ≡ none)
unfolding lookup
put-receive_all_example =
    put-receive_all crypto place long_block 3 buffer endpoint crypto-IsSound long_block-Addressed
      refl (omega arith) (omega arith) place-HasRoom refl refl refl

-- A message of 300 bytes, with the id 3 in its header, in a buffer of 2000 bytes.
abbrev short_block : Gateway.Block
short_block = record long_block {
  msg = record { bytes = 11 ∷ 0 ∷ 0 ∷ 0 ∷ 3 ∷ replicate 295 8; behind = replicate 1700 1 };
}

short_block-Addressed : Addressed short_block
short_block-Addressed = record {
  known_type = λ e. ground arith;
  hash_size = refl;
  id_fits = omega arith;
}

second_message_lost_example :
    (g' : Buffer) × (m : List ℕ) × (e' : Endpoint) × (put_i2np_msg crypto 2 short_block
        (holding buffer (replicate 900 2) 103)
      ≡ some g')
    × (g'.current ≡ none)
    × (g'.msgs
        ≡ [] ++ finished crypto (holding buffer (replicate 900 2) 103) (replicate 900 2) ∷ m ∷ [])
    × (handle_decrypted_tunnel_data_msg crypto.sha256 (tunnel_data place m) endpoint ≡ ok e')
    × (e'.delivered ≡ [])
    × (lookup 3 e'.incomplete ≡ some (begun place short_block (over_read short_block)))
unfolding lookup instructions
second_message_lost_example =
    second_message_lost crypto place short_block 3 buffer (replicate 900 2) 103 endpoint
      crypto-IsSound short_block-Addressed refl (omega arith) (omega arith)
      (ap_room place refl (record {
        in_buffer = omega arith;
        in_large = omega arith;
        has_front = omega arith;
        fits = omega arith;
      }))
      (omega arith) (omega arith) (omega arith) refl refl

-- A message to another router arrives from an inbound tunnel.
abbrev leaking : List ℕ
leaking = 64 ∷ replicate 32 6 ++ (be16 1 ++ 65 ∷ [])

handle_decrypted_tunnel_data_msg-Safe_example : StaysSafe (
    handle_decrypted_tunnel_data_msg crypto.sha256
      (tunnel_data place (finished crypto buffer leaking))
      endpoint)
handle_decrypted_tunnel_data_msg-Safe_example =
    handle_decrypted_tunnel_data_msg-Safe crypto.sha256
      (tunnel_data place (finished crypto buffer leaking)) endpoint
      (record { inbound = refl; none_sent = tt })

put_i2np_msg-some_example :
    (g' : Buffer) × (put_i2np_msg crypto 2 short_block (holding buffer (replicate 980 2) 23)
      ≡ some g')
put_i2np_msg-some_example =
    put_i2np_msg-some crypto short_block (holding buffer (replicate 980 2) 23) short_block-Addressed
      (omega arith) (omega arith)
