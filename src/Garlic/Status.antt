-- ===== src/Garlic/Status.antt =====
-- core/Garlic.cpp: the clove with the delivery status, and with it the message of a session that has an owner.
use mathlib.Core.Path.{subst}
use i2pd.Prelude.{
  ℕ, ◌+◌, ◌^◌, ◌≤◌, ◌<◌, ◌≡◌, refl, sym, ap, ◌∙◌, false, List, [], ◌∷◌, ◌++◌, none, some, arith,
  length, take, length-append, leb-false, ◌==◌, Bool-cases, inl, inr,
}
use i2pd.Prelude.Chain.{and_then-some}
use i2pd.Prelude.Bytes.{be32, be64}
use i2pd.I2np.{fill_header, message_length, garlic, create_delivery_status_msg, delivery_status}
use i2pd.I2np.Header.{message, fill_header-message, from_be16-be16}
use i2pd.Garlic.{Crypto, encrypt, add32}
use i2pd.Garlic.Session.{create_one_time, is_expired}
use i2pd.Garlic.Wrap.{
  Clock, Draws, Owner, InboundTunnel, submit_session_key, clove_end, create_garlic_clove, take_tag,
  attach_message, is_destination, delivery_instructions, payload_bytes,
}
use i2pd.Garlic.Single.{
  plain_block, fresh_tags, creates_tags, create_garlic_payload, finish, with_tag, find_tag,
  wrap_with, wrap_one_time, status_clove,
}
use i2pd.Garlic.Cloves.{Clove, for_tunnel, clove_bytes, IsMessage, IsClove}
use i2pd.Garlic.Blocks.{IsSound, length-encrypt, length-plain_block, plain_block-size}

message-IsMessage :
    (type id expiration chks : ℕ) (payload : List ℕ)
    → length payload < 2 ^ 16
    → IsMessage (message type id expiration chks payload)
unfolding message_length
message-IsMessage type id expiration chks payload small rest =
    ap some (let size = from_be16-be16 (length payload) small in omega (arith, size))

pub length-clove_end : (id now : ℕ) → length (clove_end id now) ≡ 15
unfolding clove_end
length-clove_end id now = refl

length-local_clove :
    (id now : ℕ) (msg : List ℕ)
    → length (create_garlic_clove none (is_destination none) id now msg) ≡ 16 + length msg
unfolding create_garlic_clove delivery_instructions is_destination
length-local_clove id now msg =
    omega (arith, length-append msg (clove_end id now), length-clove_end id now)

length-one_clove :
    (id now : ℕ) (clove : List ℕ) → length (payload_bytes id now (clove ∷ [])) ≡ 16 + length clove
unfolding payload_bytes
length-one_clove id now clove =
    let ends : List ℕ = 0 ∷ 0 ∷ 0 ∷ (be32 id ++ be64 (now + 5000)) in
    omega (arith, length-append (clove ++ []) ends, length-append clove [])

module _ (c : Crypto) (sound : IsSound c) where
  -- A filled header tells the length of its message.
  pub fill_header-IsMessage :
      (type reply_id random now : ℕ) (payload : List ℕ)
      → length payload < 2 ^ 16
      → IsMessage (fill_header c.sha256 type reply_id random now payload)
        × (length (fill_header c.sha256 type reply_id random now payload) ≡ 16 + length payload)
  fill_header-IsMessage type reply_id random now payload small =
      let filled = fill_header-message c.sha256 sound.hashes type reply_id random now payload in
      (
        subst IsMessage (sym (filled.1))
            (message-IsMessage type _ (now + 5000) (filled.0) payload small),
        ap length (filled.1) ∙ omega arith,
      )

  length-delivery_status :
      (msg_id random now : ℕ)
      → length (create_delivery_status_msg c.sha256 msg_id 0 random now) ≤ 1000
  unfolding create_delivery_status_msg
  length-delivery_status msg_id random now = elim (Bool-cases (msg_id == 0)) [
    | inl e ↦
        let filled =
          fill_header-IsMessage delivery_status 0 random now (be32 0 ++ be64 2) (omega arith) in
        rw e (omega (arith, filled.1))
    | inr e ↦
        let filled =
          fill_header-IsMessage delivery_status 0 random now (be32 msg_id ++ be64 now)
            (omega arith) in
        rw e (omega (arith, filled.1))
  ]

  module _ (clock : Clock) (in_time : clock.seconds + 720 < 2 ^ 32) where
    fresh_now : is_expired clock.seconds clock.seconds ≡ false
    unfolding is_expired
    fresh_now = leb-false (add32 clock.seconds 720) clock.seconds (omega (arith, in_time))

    -- A short message under a key for one use.
    one_time_message :
        (draws : Draws) (garbage : ℕ) (key tag msg : List ℕ)
        → length tag ≡ 32
        → length msg ≤ 1000
        → (m : List ℕ) × ((wrap_one_time c clock draws garbage key tag msg).message ≡ some m)
          × IsMessage m
          × (length m < 32766)
    unfolding wrap_one_time wrap_with find_tag take_tag create_one_time with_tag finish
        create_garlic_payload fresh_tags creates_tags attach_message
    one_time_message draws garbage key tag msg tag32 short =
        let clove =
          create_garlic_clove none (is_destination none) draws.clove_id clock.milliseconds msg in
        let payload = payload_bytes draws.msg_id clock.milliseconds (clove ∷ []) in
        let plain = plain_block c none payload in
        let block = encrypt c key (take 16 (c.sha256 tag)) plain in
        let body = be32 (length (tag ++ block)) ++ (tag ++ block) in
        let clove_size : length clove ≡ 16 + length msg =
          length-local_clove draws.clove_id clock.milliseconds msg in
        let payload_size : length payload ≡ 32 + length msg =
          length-one_clove draws.msg_id clock.milliseconds clove ∙ omega (arith, clove_size) in
        let size = plain_block-size c sound none payload tt in
        let block_size =
          length-encrypt c sound key (take 16 (c.sha256 tag)) plain
            (length-plain_block c sound none payload) in
        let sizes : length body ≤ 1200 =
          omega (arith, length-append tag block, tag32, block_size, size.1, payload_size, short) in
        let filled =
          fill_header-IsMessage garlic 0 draws.header_id clock.milliseconds body
            (omega (arith, sizes)) in
        (
          fill_header c.sha256 garlic 0 draws.header_id clock.milliseconds body,
          rw fresh_now refl,
          filled.0,
          omega (arith, filled.1, sizes),
        )

    module _ (owner : Owner) (tunnel : InboundTunnel)
        (has_tunnel : owner.next_inbound_tunnel ≡ some tunnel)
        (hash32 : length tunnel.next_ident_hash ≡ 32) (id32 : tunnel.next_tunnel_id < 2 ^ 32)
        (tag32 : length owner.draws.tag ≡ 32) where
      -- The owner's clove with the delivery status: it goes through the tunnel, under a key that the owner knows.
      pub status_clove-IsClove :
          (msg_id : ℕ)
          → (clove : Clove) × (status_clove c clock owner msg_id tunnel
              ≡ some (clove_bytes clove, submit_session_key owner.draws.key owner.draws.tag ∷ []))
            × IsClove clove
            × (length (clove_bytes clove) ≤ 2 ^ 20)
      unfolding status_clove
      status_clove-IsClove msg_id =
          let d = owner.draws in
          let status =
            create_delivery_status_msg c.sha256 msg_id 0 d.status_id clock.milliseconds in
          let short : length status ≤ 1000 =
            length-delivery_status msg_id d.status_id clock.milliseconds in
          let wrapped = one_time_message d.status_draws d.garbage d.key d.tag status tag32 short in
          let ends = clove_end d.status_clove_id clock.milliseconds in
          (
            for_tunnel tunnel.next_ident_hash tunnel.next_tunnel_id (wrapped.0) ends,
            and_then-some _ (wrapped.1) refl,
            (
              hash32,
              id32,
              wrapped.3,
              wrapped.2,
              length-clove_end d.status_clove_id clock.milliseconds,
            ),
            omega (
              arith,
              hash32,
              wrapped.3,
              length-append (tunnel.next_ident_hash)
                  (be32 tunnel.next_tunnel_id ++ (wrapped.0 ++ ends)),
              length-append (be32 tunnel.next_tunnel_id) (wrapped.0 ++ ends),
              length-append (wrapped.0) ends,
              length-clove_end d.status_clove_id clock.milliseconds,
            ),
          )
