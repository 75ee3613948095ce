-- ===== src/Garlic/EndToEnd.antt =====
-- core/Garlic.cpp: a session with an owner, from `WrapSingleMessage` to the delivery status that comes back.
use i2pd.Prelude.{
  ℕ, ◌+◌, ◌^◌, ◌≤◌, ◌<◌, ◌≡◌, refl, ap, ◌∙◌, Bool, true, false, ◌||◌, List, [], ◌∷◌, ◌++◌, some,
  ltb, arith, length,
}
use i2pd.Prelude.Chain.{and_then-some}
use i2pd.Prelude.Dict.{find}
use i2pd.I2np.{create_database_store_msg}
use i2pd.Garlic.{Crypto, SessionTag, RoutingSession, add32}
use i2pd.Garlic.Session.{generate_tags, is_expired, tags_confirmed}
use i2pd.Garlic.Receive.{Receiver}
use i2pd.Garlic.Wrap.{
  Clock, Draws, Owner, OwnerCall, InboundTunnel, submit_session_key, clove_end, create_garlic_clove,
  delivery_instructions, has_tags, is_updated, resubmit,
}
use i2pd.Garlic.Single.{
  Wrapped, creates_tags, fresh_tags, find_tag, wrap_with, create_delivery_status_clove,
  wrap_single_message,
}
use i2pd.Garlic.Cloves.{Clove, for_local, clove_bytes, IsMessage, IsClove}
use i2pd.Garlic.Blocks.{IsSound}
use i2pd.Garlic.Payload.{with_bytes, message_clove}
use i2pd.Garlic.Exchange.{Fits}
use i2pd.Garlic.Unwrapping.{Unwraps}
use i2pd.Garlic.RoundTrip.{cloves_of}
use i2pd.Garlic.Known.{AllKnown, AreOther}
use i2pd.Garlic.Confirmed.{confirmed-AllKnown}
use i2pd.Garlic.Status.{status_clove-IsClove}
use i2pd.Garlic.Owned.{AreFit-sent, IsFar, message_clove-IsClove, create_database_store_msg-IsClove}
use i2pd.Garlic.Status.{status_clove-IsClove}
use i2pd.Garlic.Single.{status_clove}

-- The clove of the owner's lease set.
abbrev pub owner_store : Crypto → Clock → Owner → Clove
owner_store c clock owner =
    let d = owner.draws in
    for_local (create_database_store_msg c.sha256 owner.lease_set 0 d.store_id clock.milliseconds)
      (clove_end d.store_clove_id clock.milliseconds)

module _ (c : Crypto) (sound : IsSound c) (clock : Clock) (owner : Owner) (draws : Draws)
    (tunnel : InboundTunnel) (msg : List ℕ) (in_time : clock.seconds + 720 < 2 ^ 32)
    (has_tunnel : owner.next_inbound_tunnel ≡ some tunnel)
    (hash32 : length tunnel.next_ident_hash ≡ 32) (id32 : tunnel.next_tunnel_id < 2 ^ 32)
    (tag32 : length owner.draws.tag ≡ 32)
    (lease_set_size : length owner.lease_set.ident_hash + length owner.lease_set.buffer ≤ 60000)
    (msg_is : IsMessage msg) (msg_size : length msg ≤ 2 ^ 29)
    (sized : (i : ℕ) → length (draws.new_tags i) ≡ 32) where
  with_tunnel :
      (made : List ℕ × List OwnerCall)
      → status_clove c clock owner draws.msg_id tunnel ≡ some made
      → create_delivery_status_clove c clock owner draws.msg_id (some tunnel) ≡ some (some made)
  unfolding create_delivery_status_clove
  with_tunnel made e = and_then-some _ e refl

  -- The message is wrapped with the cloves that the owner stands for.
  wrapped_with :
      (status : Clove × List OwnerCall) (s : RoutingSession)
      → status_clove c clock owner draws.msg_id tunnel ≡ some (clove_bytes (status.0), status.1)
      → wrap_single_message c clock owner draws (some msg) s
        ≡ some (
            wrap_with c clock draws
              (with_bytes (some status))
              (clove_bytes (owner_store c clock owner))
              (some msg)
              s)
  unfolding wrap_single_message create_garlic_clove delivery_instructions
  wrapped_with status s made =
      and_then-some _
        (ap (create_delivery_status_clove c clock owner draws.msg_id) has_tunnel
          ∙ with_tunnel (clove_bytes (status.0), status.1) made)
        refl

  wrapped-Fits :
      (status : Clove × List OwnerCall) (s : RoutingSession)
      → IsClove (status.0)
      → length (clove_bytes (status.0)) ≤ 2 ^ 20
      → IsFar s.destination
      → s.num_tags < 2 ^ 16
      → Fits c sound clock draws (some status) (owner_store c clock owner) msg s
  wrapped-Fits status s is small far few =
      let updates = is_updated (resubmit clock.milliseconds s).lease_set_update_status in
      let stored =
        create_database_store_msg-IsClove c sound owner.lease_set owner.draws.store_clove_id
          owner.draws.store_id clock.milliseconds lease_set_size in
      let last =
        message_clove-IsClove draws.clove_id clock.milliseconds msg s.destination far msg_is in
      let fit =
        AreFit-sent status (owner_store c clock owner)
          (message_clove draws.clove_id clock.milliseconds msg s.destination) (48 + length msg) is
          small (stored.0) (stored.1) (last.0) (last.1) s.has_owner
          (has_tags (fresh_tags clock draws s) || updates) updates in
      (
        fit.0,
        let n = fit.1 in omega (arith, n),
        let n = fit.2 in omega (arith, n, msg_size),
        few,
        sized,
      )

  -- `WrapSingleMessage` of a session with an owner, whose pool has an inbound tunnel, makes a message with new tags
  -- under a tag that the destination knows. The destination handles it to its end, and the messages of its cloves
  -- arrive as they were, the wrapped one last. When the delivery status comes back in time, the destination knows
  -- the session's key under every tag that the session then has: those that were left, if it knew them before, and
  -- the new ones. The tags are distinct from the one that is used, and the destination has no cleanup due. Hashes
  -- and tags have 32 bytes, the message tells its length, of at most 2 ^ 29 bytes, the lease set has at most 60000
  -- bytes, and the clock is below 2 ^ 32 seconds for the tags' time.
  pub wrap_single_message-AllKnown :
      (outbound : Bool) (now since later : ℕ) (private memory : List ℕ) (s : RoutingSession)
      (t : SessionTag) (rest : List SessionTag) (r : Receiver)
      → IsFar s.destination
      → s.num_tags < 2 ^ 16
      → find_tag clock.seconds s ≡ (some t, rest)
      → length t.tag ≡ 32
      → find t.tag r.tags ≡ some (since, s.session_key)
      → creates_tags (record s { session_tags = rest }) ≡ true
      → is_expired later clock.seconds ≡ false
      → AllKnown s.session_key rest r.tags
      → AreOther t.tag (rest ++ generate_tags draws.new_tags clock.seconds s.num_tags)
      → ltb (add32 r.last_tags_cleanup_time 960) now ≡ false
      → (wrapped : Wrapped) × (status : Clove × List OwnerCall) × (m : List ℕ) × (r2 : Receiver)
        × (wrap_single_message c clock owner draws (some msg) s ≡ some wrapped)
        × (status_clove c clock owner draws.msg_id tunnel ≡ some (clove_bytes (status.0), status.1))
        × (wrapped.message ≡ some m)
        × Unwraps c outbound now private memory r m r2 (
            cloves_of c sound clock draws
              (some status)
              (owner_store c clock owner)
              msg
              (record s { session_tags = rest }))
        × ((tags_confirmed draws.msg_id later wrapped.session).session_tags
            ≡ rest ++ generate_tags draws.new_tags clock.seconds s.num_tags)
        × AllKnown s.session_key
            (tags_confirmed draws.msg_id later wrapped.session).session_tags
            r2.tags
  wrap_single_message-AllKnown outbound now since later private memory s t rest r far few found
        tag_size known creates timely rest_known other due =
      let made =
        status_clove-IsClove c sound clock in_time owner tunnel has_tunnel hash32 id32 tag32
          draws.msg_id in
      let status : Clove × List OwnerCall =
        (made.0, submit_session_key owner.draws.key owner.draws.tag ∷ []) in
      let fits = wrapped-Fits status (record s { session_tags = rest }) (made.2) (made.3) far few in
      let done =
        confirmed-AllKnown clock draws status (owner_store c clock owner) msg c sound outbound now
          since later private memory s t rest r found tag_size known fits creates timely rest_known
          other due in
      (
        wrap_with c clock draws (with_bytes (some status)) (clove_bytes (owner_store c clock owner))
            (some msg) s,
        status,
        done.0,
        done.1,
        wrapped_with status s (made.1),
        made.1,
        done.2,
        done.3,
        done.4,
        done.5,
      )
