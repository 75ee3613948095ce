-- ===== src/Garlic/Session.antt =====
-- core/Garlic.cpp: the tags of an outgoing session, from their creation to their use or end.
use i2pd.Prelude.{
  ℕ, zero, suc, Bool, true, false, not, ◌||◌, List, [], ◌∷◌, ◌++◌, Option, none, some, leb, ◌==◌,
  if◌then◌else◌,
}
use i2pd.Prelude.Assoc.{Assoc, lookup, erase}
use i2pd.Garlic.{
  SessionTag, UnconfirmedTags, LeaseSetUpdateStatus, up_to_date, updated, do_not_send,
  RoutingDestination, RoutingSession, add32, outgoing_tags_expiration_timeout,
}

-- The constructor for a destination; `garbage` is what memory held.
unfoldable pub create_session : ℕ → List ℕ → RoutingDestination → ℕ → Bool → RoutingSession
create_session garbage key destination num_tags attach_lease_set = record {
  has_owner = true;
  destination = some destination;
  session_key = key;
  session_tags = [];
  num_tags = num_tags;
  unconfirmed_tags_msgs = [];
  lease_set_update_status = if attach_lease_set then updated else do_not_send;
  lease_set_update_msg_id = garbage;
  lease_set_submission_time = garbage;
}

-- The constructor for one-time encryption.
unfoldable pub create_one_time : ℕ → ℕ → List ℕ → List ℕ → RoutingSession
create_one_time garbage now key tag = record {
  has_owner = false;
  destination = none;
  session_key = key;
  session_tags = record { tag = tag; creation_time = now } ∷ [];
  num_tags = 1;
  unconfirmed_tags_msgs = [];
  lease_set_update_status = do_not_send;
  lease_set_update_msg_id = garbage;
  lease_set_submission_time = garbage;
}

-- The tags of `GenerateSessionTags`, the i-th of them from the random number generator.
unfoldable pub generate_tags : (ℕ → List ℕ) → ℕ → ℕ → List SessionTag
generate_tags random now zero = []
generate_tags random now (suc n) =
    generate_tags random now n ++ (record { tag = random n; creation_time = now } ∷ [])

unfoldable pub generate_session_tags : (ℕ → List ℕ) → ℕ → RoutingSession → UnconfirmedTags
generate_session_tags random now s = record {
  session_tags = generate_tags random now s.num_tags;
  tags_creation_time = now;
}

unfoldable pub is_expired : ℕ → ℕ → Bool
is_expired now created = leb (add32 created outgoing_tags_expiration_timeout) now

unfoldable pub confirm : ℕ → ℕ → Option UnconfirmedTags → RoutingSession → RoutingSession
confirm id now none s = s
confirm id now (some tags) s = record s {
  session_tags =
      if is_expired now tags.tags_creation_time
      then s.session_tags
      else s.session_tags ++ tags.session_tags;
  unconfirmed_tags_msgs = erase id s.unconfirmed_tags_msgs;
}

unfoldable pub tags_confirmed : ℕ → ℕ → RoutingSession → RoutingSession
tags_confirmed id now s = confirm id now (lookup id s.unconfirmed_tags_msgs) s

unfoldable pub keep_tags : ℕ → List SessionTag → List SessionTag
keep_tags now [] = []
keep_tags now (t ∷ ts) =
    let rest = keep_tags now ts in if is_expired now t.creation_time then rest else t ∷ rest

unfoldable pub keep_unconfirmed : ℕ → Assoc UnconfirmedTags → Assoc UnconfirmedTags
keep_unconfirmed now [] = []
keep_unconfirmed now ((id, tags) ∷ rest) =
    let kept = keep_unconfirmed now rest in
    if is_expired now tags.tags_creation_time then kept else (id, tags) ∷ kept

-- The messages whose `RemoveCreatedSession` is called.
unfoldable pub expired_messages : ℕ → Assoc UnconfirmedTags → List ℕ
expired_messages now [] = []
expired_messages now ((id, tags) ∷ rest) =
    let others = expired_messages now rest in
    if is_expired now tags.tags_creation_time then id ∷ others else others

unfoldable pub is_empty {ℓ} : {A : Type ℓ} → List A → Bool
is_empty [] = true
is_empty (x ∷ xs) = false

-- `CleanupExpiredTags`: the session, the messages that the owner is told to forget, and whether something is
-- left.
unfoldable pub cleanup_expired_tags : ℕ → RoutingSession → RoutingSession × List ℕ × Bool
cleanup_expired_tags now s =
    let tags = keep_tags now s.session_tags in
    let messages = keep_unconfirmed now s.unconfirmed_tags_msgs in
    (
      record s { session_tags = tags; unconfirmed_tags_msgs = messages },
      if s.has_owner then expired_messages now s.unconfirmed_tags_msgs else [],
      not (is_empty tags) || is_empty messages,
    )

-- `MessageConfirmed`
unfoldable pub message_confirmed : ℕ → ℕ → RoutingSession → RoutingSession × List ℕ
message_confirmed id now s =
    let confirmed = tags_confirmed id now s in
    let cleaned = cleanup_expired_tags now confirmed in
    if id == s.lease_set_update_msg_id
    then (record confirmed { lease_set_update_status = up_to_date }, [])
    else (cleaned.0, cleaned.1)

unfoldable pub with_lease_set_updated : LeaseSetUpdateStatus → LeaseSetUpdateStatus
with_lease_set_updated do_not_send = do_not_send
with_lease_set_updated status = updated

-- `SetLeaseSetUpdated` of a session.
unfoldable pub set_lease_set_updated : RoutingSession → RoutingSession
set_lease_set_updated s = record s {
  lease_set_update_status = with_lease_set_updated s.lease_set_update_status;
}
