-- ===== src/Garlic/Destination.antt =====
-- core/Garlic.cpp: the sessions of a destination. A session is shared by the maps of the sessions and of the
-- messages that wait for a delivery status, so it stands in a list, and the maps have its place there.
use i2pd.Prelude.{
  ℕ, Bool, List, [], ◌∷◌, ◌++◌, Option, none, some, if◌then◌else◌, length, get_elem?, set,
}
use i2pd.Prelude.Chain.{and_then}
use i2pd.Prelude.Assoc.{Assoc, lookup, insert, erase}
use i2pd.Prelude.Dict.{Dict, find, put}
use i2pd.Garlic.{Crypto, RoutingDestination, RoutingSession}
use i2pd.Garlic.Session.{
  create_session, cleanup_expired_tags, message_confirmed, set_lease_set_updated,
}
use i2pd.Garlic.Wrap.{Clock, Draws, Owner, OwnerCall, submit_session_key, delivery_status_sent}
use i2pd.Garlic.Single.{wrap_single_message}
use i2pd.Garlic.Receive.{Receiver, add_session_key, read_be32}

-- `GarlicDestination`: `m_Sessions` under the hash of the far end, `m_CreatedSessions` under a message's id.
pub record Destination : Type 0 where
  pub heap : List RoutingSession
  pub sessions : Dict ℕ
  pub created_sessions : Assoc ℕ
  pub receiver : Receiver

-- `GetRoutingSession`: the place of the session. The key of a new one is random.
unfoldable pub get_routing_session :
    ℕ → List ℕ → RoutingDestination → Bool → Destination → Destination × ℕ
get_routing_session garbage key far attach_lease_set d = elim (find far.ident_hash d.sessions) [
  | some place ↦ (d, place)
  | none ↦ (
    record d {
      heap =
          d.heap
          ++ (create_session garbage key far (if attach_lease_set then 40 else 4) attach_lease_set
              ∷ []);
      sessions = put far.ident_hash (length d.heap) d.sessions;
    },
    length d.heap,
  )
]

-- What a session calls its owner for: `SubmitSessionKey`, `DeliveryStatusSent`.
unfoldable pub owner_call : ℕ → ℕ → OwnerCall → Destination → Destination
owner_call now place (submit_session_key key tag) d = record d {
  receiver = add_session_key now key tag d.receiver;
}
owner_call now place (delivery_status_sent msg_id) d = record d {
  created_sessions = insert msg_id place d.created_sessions;
}

unfoldable pub owner_calls : ℕ → ℕ → List OwnerCall → Destination → Destination
owner_calls now place [] d = d
owner_calls now place (call ∷ calls) d = owner_calls now place calls (owner_call now place call d)

-- `WrapSingleMessage` of the session at a place, with what it does to its owner.
unfoldable pub wrap_at :
    Crypto
    → Clock
    → Owner
    → Draws
    → Option (List ℕ)
    → ℕ
    → Destination
    → Option (Destination × Option (List ℕ))
wrap_at c clock owner draws msg place d = and_then (get_elem? d.heap place) (λ s.
    and_then (wrap_single_message c clock owner draws msg s) (λ wrapped. some (
      owner_calls clock.seconds place wrapped.calls
          (record d { heap = set d.heap place wrapped.session }),
      wrapped.message,
    )))

-- `WrapMessage`
unfoldable pub wrap_message :
    Crypto
    → Clock
    → Owner
    → Draws
    → List ℕ
    → RoutingDestination
    → List ℕ
    → Bool
    → Destination
    → Option (Destination × Option (List ℕ))
wrap_message c clock owner draws key far msg attach_lease_set d =
    let got = get_routing_session owner.draws.garbage key far attach_lease_set d in
    wrap_at c clock owner draws (some msg) (got.1) (got.0)

-- `RemoveCreatedSession`, for each of the messages.
unfoldable pub remove_created : List ℕ → Assoc ℕ → Assoc ℕ
remove_created [] all = all
remove_created (id ∷ ids) all = remove_created ids (erase id all)

-- A destination with a session changed, and the messages forgotten that the session told it of.
unfoldable pub with_session : ℕ → RoutingSession → List ℕ → Destination → Destination
with_session place s ids d = record d {
  heap = set d.heap place s;
  created_sessions = remove_created ids d.created_sessions;
}

-- The loop of `CleanupRoutingSessions`: what it leaves of the sessions.
unfoldable pub cleanup_sessions : ℕ → Dict ℕ → Destination → Option (Dict ℕ × Destination)
cleanup_sessions now [] d = some ([], d)
cleanup_sessions now ((hash, place) ∷ rest) d = and_then (get_elem? d.heap place) (λ s.
    let cleaned = cleanup_expired_tags now s in
    and_then (cleanup_sessions now rest (with_session place (cleaned.0) (cleaned.1) d))
      (λ others. some (if cleaned.2 then (hash, place) ∷ others.0 else others.0, others.1)))

-- `CleanupRoutingSessions`
unfoldable pub cleanup_routing_sessions : ℕ → Destination → Option Destination
cleanup_routing_sessions now d =
    and_then (cleanup_sessions now d.sessions d)
      (λ done. some (record done.1 { sessions = done.0 }))

-- The session that waits for a delivery status is told of it, and the message forgotten.
unfoldable pub confirm_at : ℕ → ℕ → Option ℕ → Destination → Option Destination
confirm_at now msg_id none d = some d
confirm_at now msg_id (some place) d = and_then (get_elem? d.heap place) (λ s.
    let told = message_confirmed msg_id now s in
    let after = with_session place (told.0) (told.1) d in
    some (record after { created_sessions = erase msg_id after.created_sessions }))

-- `HandleDeliveryStatusMessage` of a message's bytes from its payload on.
unfoldable pub handle_delivery_status_message : ℕ → List ℕ → Destination → Option Destination
handle_delivery_status_message now payload d =
    and_then (read_be32 payload)
      (λ msg_id. confirm_at now (msg_id.0) (lookup msg_id.0 d.created_sessions) d)

-- `SetLeaseSetUpdated`, for all the sessions.
unfoldable pub set_all_updated : Dict ℕ → List RoutingSession → Option (List RoutingSession)
set_all_updated [] heap = some heap
set_all_updated ((hash, place) ∷ rest) heap =
    and_then (get_elem? heap place)
      (λ s. set_all_updated rest (set heap place (set_lease_set_updated s)))

unfoldable pub set_updated : Destination → Option Destination
set_updated d =
    and_then (set_all_updated d.sessions d.heap) (λ heap. some (record d { heap = heap }))
