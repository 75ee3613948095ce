-- ===== src/Garlic/Wrap.antt =====
-- core/Garlic.cpp: garlic messages as an outgoing session makes them. Each call reads the clock once.
use i2pd.Prelude.{
  ℕ, ◌+◌, ◌*◌, ◌%◌, ◌^◌, Bool, true, false, ◌||◌, List, [], ◌∷◌, ◌++◌, Option, none, some, ltb,
  if◌then◌else◌, length,
}
use i2pd.Prelude.Bytes.{be32, be64}
use i2pd.Prelude.Assoc.{insert}
use i2pd.I2np.{StoredLeaseSet}
use i2pd.Garlic.{
  SessionTag, UnconfirmedTags, LeaseSetUpdateStatus, updated, submitted, RoutingDestination,
  RoutingSession, delivery_type_destination, leaset_confirmation_timeout,
}
use i2pd.Garlic.Session.{is_expired}

pub record Clock : Type 0 where
  pub seconds : ℕ
  pub milliseconds : ℕ

-- What a message draws from the random number generator, and the padding that the ElGamal block has by chance.
pub record Draws : Type 0 where
  pub pre_iv : List ℕ
  pub padding : List ℕ
  pub new_tags : ℕ → List ℕ
  pub msg_id : ℕ
  pub clove_id : ℕ
  pub header_id : ℕ

-- What the cloves of an owner draw: the key and tag of the delivery status, the ids, the encryption's draws.
pub record OwnerDraws : Type 0 where
  pub key : List ℕ
  pub tag : List ℕ
  pub status_id : ℕ
  pub status_draws : Draws
  pub status_clove_id : ℕ
  pub store_id : ℕ
  pub store_clove_id : ℕ
  pub garbage : ℕ

-- The first hop of an inbound tunnel, seen from outside.
pub record InboundTunnel : Type 0 where
  pub next_ident_hash : List ℕ
  pub next_tunnel_id : ℕ

-- What a session asks its owner: the next inbound tunnel of the pool and the lease set.
pub record Owner : Type 0 where
  pub next_inbound_tunnel : Option InboundTunnel
  pub lease_set : StoredLeaseSet
  pub draws : OwnerDraws

-- What it calls its owner for.
pub data OwnerCall : Type 0 where
  submit_session_key : List ℕ → List ℕ → OwnerCall
  delivery_status_sent : ℕ → OwnerCall

-- A clove's id, expiration and certificate.
unfoldable pub clove_end : ℕ → ℕ → List ℕ
clove_end clove_id now = be32 clove_id ++ (be64 (now + 5000) ++ (0 ∷ 0 ∷ 0 ∷ []))

unfoldable pub delivery_instructions : Bool → Option RoutingDestination → List ℕ
delivery_instructions true (some d) = delivery_type_destination * 32 ∷ d.ident_hash
delivery_instructions true none = 0 ∷ []
delivery_instructions false d = 0 ∷ []

-- `CreateGarlicClove`
unfoldable pub create_garlic_clove : Option RoutingDestination → Bool → ℕ → ℕ → List ℕ → List ℕ
create_garlic_clove destination is_destination clove_id now msg =
    delivery_instructions is_destination destination ++ (msg ++ clove_end clove_id now)

-- The first tag that is not expired; those before it are dropped.
unfoldable pub take_tag : ℕ → List SessionTag → Option SessionTag × List SessionTag
take_tag now [] = (none, [])
take_tag now (t ∷ ts) =
    let later = take_tag now ts in if is_expired now t.creation_time then later else (some t, ts)

abbrev pub bytes_of : List SessionTag → List ℕ
bytes_of [] = []
bytes_of (t ∷ ts) = t.tag ++ bytes_of ts

-- What `CreateGarlicPayload` has made so far: the session, the calls to the owner and the cloves.
pub record Made : Type 0 where
  pub session : RoutingSession
  pub calls : List OwnerCall
  pub cloves : List (List ℕ)

-- A lease set whose submission is not confirmed in time is submitted again.
unfoldable pub resubmit_status : ℕ → ℕ → LeaseSetUpdateStatus → LeaseSetUpdateStatus
resubmit_status now since submitted =
    if ltb ((since + leaset_confirmation_timeout) % 2 ^ 64) now then updated else submitted
resubmit_status now since status = status

unfoldable pub resubmit : ℕ → RoutingSession → RoutingSession
resubmit now s = record s {
  lease_set_update_status =
      resubmit_status now s.lease_set_submission_time s.lease_set_update_status;
}

unfoldable pub is_updated : LeaseSetUpdateStatus → Bool
is_updated updated = true
is_updated status = false

unfoldable pub has_tags : Option UnconfirmedTags → Bool
has_tags none = false
has_tags (some tags) = true

unfoldable pub register_tags : ℕ → Option UnconfirmedTags → RoutingSession → RoutingSession
register_tags id none s = s
register_tags id (some tags) s = record s {
  unconfirmed_tags_msgs = insert id tags s.unconfirmed_tags_msgs;
}

-- Attaches the delivery status, if there is one.
unfoldable pub attach_status :
    ℕ → Option UnconfirmedTags → Option (List ℕ × List OwnerCall) → Made → Made
attach_status id tags none m = m
attach_status id tags (some (clove, calls)) m = record {
  session = register_tags id tags m.session;
  calls = m.calls ++ (calls ++ (delivery_status_sent id ∷ []));
  cloves = m.cloves ++ (clove ∷ []);
}

-- Attaches the lease set.
unfoldable pub attach_lease_set : ℕ → ℕ → List ℕ → Made → Made
attach_lease_set id now clove m = record {
  session = record m.session {
    lease_set_update_status = submitted;
    lease_set_update_msg_id = id;
    lease_set_submission_time = now;
  };
  calls = m.calls;
  cloves = m.cloves ++ (clove ∷ []);
}

-- The cloves of an owner, from the delivery status that is at hand and the lease set's clove.
unfoldable pub attach_owner :
    ℕ
    → ℕ
    → Option UnconfirmedTags
    → Option (List ℕ × List OwnerCall)
    → List ℕ
    → RoutingSession
    → Made
attach_owner id now tags status store s =
    let again = resubmit now s in
    let blank : Made = record { session = again; calls = []; cloves = [] } in
    let confirmed : Made =
      if has_tags tags || is_updated again.lease_set_update_status
      then attach_status id tags status blank
      else blank in
    if is_updated again.lease_set_update_status
    then attach_lease_set id now store confirmed
    else confirmed

unfoldable pub is_destination : Option RoutingDestination → Bool
is_destination none = false
is_destination (some d) = d.is_destination

-- Attaches the message.
unfoldable pub attach_message : ℕ → ℕ → Option (List ℕ) → Made → Made
attach_message clove_id now none m = m
attach_message clove_id now (some msg) m =
    let d = m.session.destination in
    record m {
      cloves = m.cloves ++ (create_garlic_clove d (is_destination d) clove_id now msg ∷ []);
    }

abbrev pub concat : List (List ℕ) → List ℕ
concat [] = []
concat (x ∷ xs) = x ++ concat xs

unfoldable pub payload_bytes : ℕ → ℕ → List (List ℕ) → List ℕ
payload_bytes id now cloves =
    length cloves % 256 ∷ (concat cloves ++ (0 ∷ 0 ∷ 0 ∷ (be32 id ++ be64 (now + 5000))))
