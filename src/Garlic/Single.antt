-- ===== src/Garlic/Single.antt =====
-- core/Garlic.cpp: the payload, its encryption, and the message that carries it.
use i2pd.Prelude.{
  ℕ, ◌-◌, ◌*◌, ◌/◌, ◌%◌, Bool, false, not, ◌&&◌, List, [], ◌∷◌, ◌++◌, Option, none, some, leb, ◌==◌,
  if◌then◌else◌, length, take, replicate,
}
use i2pd.Prelude.Chain.{and_then}
use i2pd.Prelude.Bytes.{be16, be32}
use i2pd.I2np.{garlic, fill_header, create_delivery_status_msg, create_database_store_msg}
use i2pd.Garlic.{
  Crypto, encrypt, SessionTag, UnconfirmedTags, RoutingDestination, RoutingSession,
  delivery_type_tunnel,
}
use i2pd.Garlic.Session.{create_one_time, generate_session_tags}
use i2pd.Garlic.Wrap.{
  Clock, Draws, InboundTunnel, Owner, OwnerCall, submit_session_key, Made, take_tag, bytes_of,
  clove_end, create_garlic_clove, attach_owner, attach_message, payload_bytes,
}

-- The cloves of `CreateGarlicPayload`.
unfoldable pub create_garlic_payload :
    Clock
    → Draws
    → Option UnconfirmedTags
    → Option (List ℕ × List OwnerCall)
    → List ℕ
    → Option (List ℕ)
    → RoutingSession
    → Made
create_garlic_payload clock draws tags status store msg s =
    attach_message draws.clove_id clock.milliseconds msg (
      if s.has_owner
      then attach_owner draws.msg_id clock.milliseconds tags status store s
      else record { session = s; calls = []; cloves = [] })

unfoldable pub tag_bytes : Option UnconfirmedTags → List ℕ
tag_bytes none = be16 0
tag_bytes (some tags) = be16 (length tags.session_tags) ++ bytes_of tags.session_tags

-- The AES block before it is encrypted: tags, size, hash, flag, payload, and zeros to a whole block.
unfoldable pub plain_block : Crypto → Option UnconfirmedTags → List ℕ → List ℕ
plain_block c tags payload =
    let block = tag_bytes tags ++ (be32 (length payload) ++ (c.sha256 payload ++ (0 ∷ payload))) in
    block ++ replicate ((16 - length block % 16) % 16) 0

unfoldable pub creates_tags : RoutingSession → Bool
creates_tags s =
    s.has_owner && (not (s.num_tags == 0) && leb (length s.session_tags) (s.num_tags * 2 / 3))

unfoldable pub fresh_tags : Clock → Draws → RoutingSession → Option UnconfirmedTags
fresh_tags clock draws s =
    if creates_tags s then some (generate_session_tags draws.new_tags clock.seconds s) else none

-- The tag for the next message, if there is one that is not expired, and the tags that are left.
unfoldable pub find_tag : ℕ → RoutingSession → Option SessionTag × List SessionTag
find_tag now s = if s.num_tags == 0 then (none, s.session_tags) else take_tag now s.session_tags

-- What `WrapSingleMessage` returns; no message is the null pointer.
pub record Wrapped : Type 0 where
  pub session : RoutingSession
  pub calls : List OwnerCall
  pub message : Option (List ℕ)

module _ (c : Crypto) (clock : Clock) (draws : Draws) (status : Option (List ℕ × List OwnerCall))
    (store : List ℕ) (msg : Option (List ℕ)) where
  -- The message behind its tag or ElGamal block.
  unfoldable pub finish : List ℕ → List ℕ → RoutingSession → Wrapped
  finish head digest s =
      let tags = fresh_tags clock draws s in
      let made = create_garlic_payload clock draws tags status store msg s in
      let payload = payload_bytes draws.msg_id clock.milliseconds made.cloves in
      let body = head ++ encrypt c s.session_key (take 16 digest) (plain_block c tags payload) in
      record {
        session = made.session;
        calls = made.calls;
        message = some (
            fill_header c.sha256 garlic 0 draws.header_id clock.milliseconds
              (be32 (length body) ++ body));
      }

  unfoldable pub with_elgamal : Option RoutingDestination → RoutingSession → Wrapped
  with_elgamal none s = record { session = s; calls = []; message = none }
  with_elgamal (some d) s =
      finish (c.elgamal_encrypt d.public_key (s.session_key ++ (draws.pre_iv ++ draws.padding)))
        (c.sha256 draws.pre_iv) s

  unfoldable pub with_tag : Option SessionTag → RoutingSession → Wrapped
  with_tag none s = with_elgamal s.destination s
  with_tag (some t) s = finish t.tag (c.sha256 t.tag) s

  -- `WrapSingleMessage`, given the cloves that the owner stands for.
  unfoldable pub wrap_with : RoutingSession → Wrapped
  wrap_with s =
      let found = find_tag clock.seconds s in with_tag found.0 (record s { session_tags = found.1 })

-- A message under a key for one use, without an owner.
unfoldable pub wrap_one_time : Crypto → Clock → Draws → ℕ → List ℕ → List ℕ → List ℕ → Wrapped
wrap_one_time c clock draws garbage key tag msg =
    wrap_with c clock draws none [] (some msg) (create_one_time garbage clock.seconds key tag)

module _ (c : Crypto) (clock : Clock) (owner : Owner) where
  -- `CreateDeliveryStatusClove` through an inbound tunnel; no result where the message's pointer is null.
  unfoldable pub status_clove : ℕ → InboundTunnel → Option (List ℕ × List OwnerCall)
  status_clove msg_id tunnel =
      let d = owner.draws in
      let status = create_delivery_status_msg c.sha256 msg_id 0 d.status_id clock.milliseconds in
      let wrapped = wrap_one_time c clock d.status_draws d.garbage d.key d.tag status in
      and_then wrapped.message (λ bytes. some (
        delivery_type_tunnel * 32
            ∷ (tunnel.next_ident_hash
                ++ (be32 tunnel.next_tunnel_id
                    ++ (bytes ++ clove_end d.status_clove_id clock.milliseconds))),
        submit_session_key d.key d.tag ∷ [],
      ))

  -- `CreateDeliveryStatusClove`: nothing where the pool has no inbound tunnel.
  unfoldable pub create_delivery_status_clove :
      ℕ → Option InboundTunnel → Option (Option (List ℕ × List OwnerCall))
  create_delivery_status_clove msg_id none = some none
  create_delivery_status_clove msg_id (some tunnel) =
      and_then (status_clove msg_id tunnel) (λ made. some (some made))

  -- `WrapSingleMessage` of a session with an owner, or without. The owner's cloves are made beforehand; which of them
  -- are attached is tested behind that.
  unfoldable pub wrap_single_message : Draws → Option (List ℕ) → RoutingSession → Option Wrapped
  wrap_single_message draws msg s =
      let d = owner.draws in
      let now = clock.milliseconds in
      let store =
        create_garlic_clove none false d.store_clove_id now
          (create_database_store_msg c.sha256 owner.lease_set 0 d.store_id now) in
      and_then (create_delivery_status_clove draws.msg_id owner.next_inbound_tunnel)
        (λ status. some (wrap_with c clock draws status store msg s))
