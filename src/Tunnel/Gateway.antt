-- ===== src/Tunnel/Gateway.antt =====
-- core/tunnel/TunnelGateway.cpp: messages are cut into the fragments of tunnel data messages. A tunnel
-- data message under construction is its payload; a finished one is its 1028 bytes.
use i2pd.Prelude.{
  ℕ, zero, suc, ◌+◌, ◌-◌, ◌*◌, ◌/◌, ◌%◌, Bool, true, false, not, ◌&&◌, ◌||◌, List, [], ◌∷◌, ◌++◌,
  Option, none, some, ltb, leb, ◌==◌, if◌then◌else◌, length, take, drop, bit_or,
}
use i2pd.Prelude.Bytes.{be16, be32}
use i2pd.Tunnel.{
  DeliveryType, to_local, to_tunnel, delivery_code, tunnel_data_msg_size,
  tunnel_data_max_payload_size,
}

-- An I2NP message to send: its bytes, and what its buffer holds behind them.
pub record Outgoing : Type 0 where
  pub bytes : List ℕ
  pub behind : List ℕ

-- `TunnelMessageBlock`
pub record Block : Type 0 where
  pub delivery_type : DeliveryType
  pub hash : List ℕ
  pub tunnel_id : ℕ
  pub msg : Outgoing

-- `TunnelGatewayBuffer`; `drawn` counts the calls of the random number generator.
pub record Buffer : Type 0 where
  pub tunnel_id : ℕ
  pub msgs : List (List ℕ)
  pub current : Option (List ℕ)
  pub remaining_size : ℕ
  pub non_zero : List ℕ
  pub drawn : ℕ

-- What the gateway takes from the cryptographic library: a hash, IVs of 16 bytes, and numbers up to
-- a bound, by how often the generator was called before.
pub record Crypto : Type 0 where
  pub sha256 : List ℕ → List ℕ
  pub generate_iv : ℕ → List ℕ
  pub generate_word : ℕ → ℕ → ℕ

-- The flag and the address of the delivery instructions, `di[0 .. diLen)`.
abbrev address : DeliveryType → List ℕ → ℕ → List ℕ
address to_local hash id = []
address to_tunnel hash id = be32 id ++ hash
address _ hash id = hash

unfoldable pub instructions : Block → List ℕ
instructions b = (delivery_code b.delivery_type * 32) ∷ address b.delivery_type b.hash b.tunnel_id

-- `di[0] |= 0x08`
unfoldable pub mark_fragmented : List ℕ → List ℕ
mark_fragmented [] = []
mark_fragmented (flag ∷ rest) = bit_or flag 0x08 ∷ rest

-- `0x80 | (fragmentNumber << 1)` in a byte, and `|= 0x01` for the last fragment.
unfoldable pub follow_on_flag : ℕ → Bool → ℕ
follow_on_flag n last =
    let flag = bit_or 0x80 (n * 2) % 256 in if last then bit_or flag 0x01 else flag

-- `GetHeader () + I2NP_HEADER_MSGID_OFFSET`, four bytes.
abbrev pub msg_id_bytes : Outgoing → List ℕ
msg_id_bytes m = take 4 (drop 1 (m.bytes ++ m.behind))

-- `nonFit`: the bytes that do not fill whole tunnel data messages.
abbrev pub non_fit : ℕ → ℕ
non_fit full = (full + full / tunnel_data_max_payload_size * 7) % tunnel_data_max_payload_size

abbrev pub full_length : Block → ℕ
full_length b = length (instructions b) + length b.msg.bytes + 2

abbrev pub payload_of : Buffer → List ℕ
payload_of g = elim g.current [ none ↦ [] | some payload ↦ payload ]

-- `TunnelGateway`: the messages of the buffer are encrypted and sent by code outside of this file;
-- they are logged in `transmitted`.
pub record Gateway : Type 0 where
  pub buffer : Buffer
  pub num_sent_bytes : ℕ
  pub transmitted : List (List ℕ)

module _ (crypto : Crypto) where
  open crypto use {sha256, generate_iv, generate_word}

  -- `CreateCurrentTunnelDataMessage`
  unfoldable pub create_current_tunnel_data_message : Buffer → Buffer
  create_current_tunnel_data_message g = record g {
    current = some [];
    remaining_size = tunnel_data_max_payload_size;
  }

  -- The bytes of a finished message: tunnel id, IV, checksum, padding, a zero, the payload.
  unfoldable pub finished : Buffer → List ℕ → List ℕ
  finished g payload =
      let iv = generate_iv g.drawn in
      let padding = tunnel_data_max_payload_size - length payload in
      let offset = generate_word (g.drawn + 1) (tunnel_data_max_payload_size - padding) in
      be32 g.tunnel_id
      ++ (iv
          ++ (take 4 (sha256 (payload ++ iv))
              ++ (take padding (drop offset g.non_zero) ++ 0 ∷ payload)))

  -- `CompleteCurrentTunnelDataMessage`
  unfoldable pub complete_current_tunnel_data_message : Buffer → Buffer
  complete_current_tunnel_data_message g = elim g.current [
    | none ↦ g
    | some payload ↦ record g {
      msgs = g.msgs ++ finished g payload ∷ [];
      current = none;
      drawn = if length payload == tunnel_data_max_payload_size then g.drawn + 1 else g.drawn + 2;
    }
  ]

  -- The follow-on fragments of `bytes` from `size` on; a round sends a byte at least, so the length of
  -- the message is fuel enough.
  unfoldable pub follow_on : ℕ → Outgoing → ℕ → ℕ → Buffer → Option Buffer
  unfolding follow_on_flag
  follow_on zero m size number g = if ltb size (length m.bytes) then none else some g
  follow_on (suc fuel) m size number g =
      let left = length m.bytes - size in
      let last = leb left (tunnel_data_max_payload_size - 7) in
      let s = if last then left else tunnel_data_max_payload_size - 7 in
      let g₁ = create_current_tunnel_data_message g in
      let g₂ = record g₁ {
        current =
            some (
              follow_on_flag number last ∷ msg_id_bytes m
              ++ (be16 s ++ take s (drop size m.bytes)));
        remaining_size = if last then g₁.remaining_size - (s + 7) else g₁.remaining_size;
      } in
      let g₃ =
        if not last || g₂.remaining_size == 0
        then complete_current_tunnel_data_message g₂
        else g₂ in
      let more = follow_on fuel m (size + s) (number + 1) g₃ in
      if ltb size (length m.bytes) then more else some g

  -- The first fragment, of `size` bytes from the message's buffer, and the fragments behind it.
  unfoldable pub put_fragmented : Block → List ℕ → Buffer → Option Buffer
  unfolding instructions mark_fragmented
  put_fragmented b payload g =
      let di = instructions b in
      let size = g.remaining_size - length di - 6 in
      if leb size (length (b.msg.bytes ++ b.msg.behind))
      then follow_on (length b.msg.bytes) b.msg size 1 (
          complete_current_tunnel_data_message (record g {
            current = some (
                payload
                ++ (mark_fragmented di
                    ++ (msg_id_bytes b.msg
                        ++ (be16 size ++ take size (b.msg.bytes ++ b.msg.behind)))));
          }))
      else none

  -- The message in one piece.
  unfoldable pub put_whole : Block → List ℕ → Buffer → Buffer
  unfolding instructions
  put_whole b payload g =
      let g' = record g {
        current = some (payload ++ (instructions b ++ (be16 (length b.msg.bytes) ++ b.msg.bytes)));
        remaining_size = g.remaining_size - (length (instructions b) + 2 + length b.msg.bytes);
      } in
      if g'.remaining_size == 0 then complete_current_tunnel_data_message g' else g'

  -- The test that may close the tunnel data message that was begun before.
  unfoldable pub make_room : Bool → ℕ → Buffer → Buffer
  make_room created full g =
      if not created && (non_fit full == 0 || ltb g.remaining_size (non_fit full))
      then create_current_tunnel_data_message (complete_current_tunnel_data_message g)
      else g

  -- `PutI2NPMsg`; it calls itself once at most, so two levels of fuel are enough. `none` is a read
  -- past the end of the message's buffer, or fuel that ran out.
  unfoldable pub put_i2np_msg : ℕ → Block → Buffer → Option Buffer
  unfolding put_whole put_fragmented make_room
  put_i2np_msg zero b g = none
  put_i2np_msg (suc fuel) b g =
      let created : Bool = elim g.current [ none ↦ true | some payload ↦ false ] in
      let g₁ = if created then create_current_tunnel_data_message g else g in
      let g₂ = make_room created (full_length b) g₁ in
      let again = put_i2np_msg fuel b (complete_current_tunnel_data_message g₂) in
      if leb (full_length b) g₁.remaining_size
      then some (put_whole b (payload_of g₁) g₁)
      else (if leb (length (instructions b) + 6) g₂.remaining_size
          then put_fragmented b (payload_of g₂) g₂
          else again)

  -- `PutTunnelDataMsg`, for a block whose message may be missing.
  unfoldable pub put_tunnel_data_msg : Option Block → Gateway → Option Gateway
  put_tunnel_data_msg none t = some t
  put_tunnel_data_msg (some b) t = elim (put_i2np_msg 2 b t.buffer) [
    | none ↦ none
    | some g ↦ some (record t { buffer = g })
  ]

  -- `SendBuffer`
  unfoldable pub send_buffer : Gateway → Gateway
  send_buffer t =
      let g = complete_current_tunnel_data_message t.buffer in
      record t {
        buffer = record g { msgs = [] };
        num_sent_bytes = t.num_sent_bytes + tunnel_data_msg_size * length g.msgs;
        transmitted = t.transmitted ++ g.msgs;
      }

  -- `SendTunnelDataMsg`
  unfoldable pub send_tunnel_data_msg : Option Block → Gateway → Option Gateway
  send_tunnel_data_msg none t = some t
  send_tunnel_data_msg (some b) t = elim (put_tunnel_data_msg (some b) t) [
    | none ↦ none
    | some t' ↦ some (send_buffer t')
  ]
