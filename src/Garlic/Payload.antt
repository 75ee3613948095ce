-- ===== src/Garlic/Payload.antt =====
-- core/Garlic.cpp: the payload that a session makes is handled clove by clove.
use i2pd.Prelude.{
  ℕ, suc, ◌+◌, ◌%◌, ◌<◌, ◌≡◌, refl, ap, ◌∙◌, Bool, true, false, ◌||◌, List, [], ◌∷◌, ◌++◌,
  append_assoc, Option, none, some, map, if◌then◌else◌, arith, length, All, length-append,
  Bool-cases, inl, inr,
}
use mathlib.Core.List.{map-append}
use i2pd.Prelude.Chain.{and_then-some}
use i2pd.Prelude.Bytes.{be32, be64}
use i2pd.Garlic.{UnconfirmedTags, RoutingDestination, RoutingSession}
use i2pd.Garlic.Receive.{Delivery, handle_cloves, read_byte, handle_garlic_payload}
use i2pd.Garlic.Wrap.{
  Clock, Draws, OwnerCall, Made, clove_end, delivery_instructions, create_garlic_clove, resubmit,
  is_updated, has_tags, register_tags, attach_status, attach_lease_set, attach_owner,
  is_destination, attach_message, concat, payload_bytes,
}
use i2pd.Garlic.Single.{create_garlic_payload}
use i2pd.Garlic.Cloves.{
  Clove, for_local, for_destination, clove_bytes, IsClove, arrival, arrivals, all_bytes,
}
use i2pd.Garlic.Delivering.{handle_cloves-arrivals}

concat-map : (cs : List Clove) → concat (map clove_bytes cs) ≡ all_bytes cs
unfolding all_bytes
concat-map [] = refl
concat-map (x ∷ cs) = ap (◌++◌ (clove_bytes x)) (concat-map cs)

length-map : (cs : List Clove) → length (map clove_bytes cs) ≡ length cs
length-map [] = refl
length-map (x ∷ cs) = ap suc (length-map cs)

pub length-payload_bytes :
    (id now : ℕ) (cs : List Clove)
    → length (payload_bytes id now (map clove_bytes cs)) ≡ 16 + length (all_bytes cs)
unfolding payload_bytes
length-payload_bytes id now cs =
    let ends : List ℕ = 0 ∷ 0 ∷ 0 ∷ (be32 id ++ be64 (now + 5000)) in
    ap (λ (b : List ℕ). suc (length (b ++ ends))) (concat-map cs)
    ∙ omega (arith, length-append (all_bytes cs) ends)

pub handle_garlic_payload-bytes :
    (outbound : Bool) (cs : List Clove) (id now : ℕ) (rest : List ℕ)
    → All IsClove cs
    → length cs < 256
    → let payload = payload_bytes id now (map clove_bytes cs) in
      (done : List Delivery) × (handle_garlic_payload outbound (length payload) (payload ++ rest)
        ≡ some done)
      × (map arrival done ≡ arrivals outbound cs)
unfolding payload_bytes handle_garlic_payload read_byte
handle_garlic_payload-bytes outbound cs id now rest are few =
    let ends : List ℕ = 0 ∷ 0 ∷ 0 ∷ (be32 id ++ be64 (now + 5000)) in
    let len = length (payload_bytes id now (map clove_bytes cs)) in
    let whole = length-payload_bytes id now cs in
    let handled =
      handle_cloves-arrivals outbound len cs 1 (ends ++ rest) are (omega (arith, whole)) in
    let count : length (map clove_bytes cs) % 256 ≡ length cs = omega (arith, length-map cs) in
    let bytes : (concat (map clove_bytes cs) ++ ends) ++ rest ≡ all_bytes cs ++ (ends ++ rest) =
      ap (λ (b : List ℕ). (b ++ ends) ++ rest) (concat-map cs)
      ∙ append_assoc (all_bytes cs) ends rest in
    (
      handled.0,
      and_then-some _ refl (
          ap
            (λ (n : ℕ).
              handle_cloves outbound len n 1 ((concat (map clove_bytes cs) ++ ends) ++ rest))
            count
          ∙ ap (handle_cloves outbound len (length cs) 1) bytes
          ∙ handled.1),
      handled.2,
    )

-- The message's clove.
abbrev pub message_clove : ℕ → ℕ → List ℕ → Option RoutingDestination → Clove
message_clove id now msg none = for_local msg (clove_end id now)
message_clove id now msg (some d) =
    if d.is_destination
    then for_destination d.ident_hash msg (clove_end id now)
    else for_local msg (clove_end id now)

-- The cloves of the owner: the delivery status, if there is a tunnel for it, and the lease set.
abbrev pub owner_cloves : Bool → Bool → Option (Clove × List OwnerCall) → Clove → List Clove
owner_cloves false false status store = []
owner_cloves false true status store = store ∷ []
owner_cloves true false none store = []
owner_cloves true true none store = store ∷ []
owner_cloves true false (some status) store = status.0 ∷ []
owner_cloves true true (some status) store = status.0 ∷ store ∷ []

abbrev pub with_bytes : Option (Clove × List OwnerCall) → Option (List ℕ × List OwnerCall)
with_bytes none = none
with_bytes (some status) = some (clove_bytes (status.0), status.1)

message_clove_lem :
    (id now : ℕ) (msg : List ℕ) (d : Option RoutingDestination)
    → create_garlic_clove d (is_destination d) id now msg ≡ clove_bytes (message_clove id now msg d)
unfolding create_garlic_clove is_destination delivery_instructions
message_clove_lem id now msg none = refl
message_clove_lem id now msg (some d) = elim (Bool-cases d.is_destination) [
  | inl e ↦ rw e refl
  | inr e ↦ rw e refl
]

-- What the session attaches for its owner, by what it confirms and whether its lease set is new.
abbrev pub attached :
    ℕ
    → ℕ
    → Option UnconfirmedTags
    → Option (Clove × List OwnerCall)
    → Clove
    → Bool
    → Bool
    → RoutingSession
    → Made
attached id now tags status store confirms updates s =
    let blank : Made = record { session = s; calls = []; cloves = [] } in
    let confirmed : Made =
      if confirms then attach_status id tags (with_bytes status) blank else blank in
    if updates then attach_lease_set id now (clove_bytes store) confirmed else confirmed

attached-cloves :
    (id now : ℕ) (tags : Option UnconfirmedTags) (status : Option (Clove × List OwnerCall))
    (store : Clove) (confirms updates : Bool) (s : RoutingSession)
    → (attached id now tags status store confirms updates s).cloves
      ≡ map clove_bytes (owner_cloves confirms updates status store)
unfolding attach_status attach_lease_set
attached-cloves id now tags none store false false s = refl
attached-cloves id now tags none store false true s = refl
attached-cloves id now tags none store true false s = refl
attached-cloves id now tags none store true true s = refl
attached-cloves id now tags (some clove) store false false s = refl
attached-cloves id now tags (some clove) store false true s = refl
attached-cloves id now tags (some clove) store true false s = refl
attached-cloves id now tags (some clove) store true true s = refl

register_tags-destination :
    (id : ℕ) (tags : Option UnconfirmedTags) (s : RoutingSession)
    → (register_tags id tags s).destination ≡ s.destination
unfolding register_tags
register_tags-destination id none s = refl
register_tags-destination id (some tags) s = refl

attached-destination :
    (id now : ℕ) (tags : Option UnconfirmedTags) (status : Option (Clove × List OwnerCall))
    (store : Clove) (confirms updates : Bool) (s : RoutingSession)
    → ((attached id now tags status store confirms updates s).session).destination ≡ s.destination
unfolding attach_status attach_lease_set
attached-destination id now tags none store false false s = refl
attached-destination id now tags none store false true s = refl
attached-destination id now tags none store true false s = refl
attached-destination id now tags none store true true s = refl
attached-destination id now tags (some clove) store false false s = refl
attached-destination id now tags (some clove) store false true s = refl
attached-destination id now tags (some clove) store true false s =
    register_tags-destination id tags s
attached-destination id now tags (some clove) store true true s =
    register_tags-destination id tags s

-- The cloves of a message: the owner's, then the message's.
abbrev pub sender_cloves :
    Clock
    → Draws
    → Option UnconfirmedTags
    → Option (Clove × List OwnerCall)
    → Clove
    → List ℕ
    → RoutingSession
    → List Clove
sender_cloves clock draws tags status store msg s =
    let updates = is_updated (resubmit clock.milliseconds s).lease_set_update_status in
    (if s.has_owner then owner_cloves (has_tags tags || updates) updates status store else [])
    ++ (message_clove draws.clove_id clock.milliseconds msg s.destination ∷ [])

attach_message-cloves :
    (id now : ℕ) (msg : List ℕ) (m : Made) (d : Option RoutingDestination) (cs : List Clove)
    → m.cloves ≡ map clove_bytes cs
    → (m.session).destination ≡ d
    → (attach_message id now (some msg) m).cloves
      ≡ map clove_bytes (cs ++ (message_clove id now msg d ∷ []))
unfolding attach_message
attach_message-cloves id now msg m d cs e same =
    rw
      (
        e,
        same,
        message_clove_lem id now msg d,
        map-append clove_bytes cs (message_clove id now msg d ∷ []),
      )
      refl

-- What is made with an owner, or without.
owner-cloves :
    (has_owner : Bool) (with_owner without : Made) (d : Option RoutingDestination) (cs : List Clove)
    → (with_owner.cloves ≡ map clove_bytes cs) × ((with_owner.session).destination ≡ d)
    → (without.cloves ≡ []) × ((without.session).destination ≡ d)
    → ((if has_owner then with_owner else without).cloves
        ≡ map clove_bytes (if has_owner then cs else []))
      × (((if has_owner then with_owner else without).session).destination ≡ d)
owner-cloves true with_owner without d cs h k = h
owner-cloves false with_owner without d cs h k = k

pub create_garlic_payload-cloves :
    (clock : Clock) (draws : Draws) (tags : Option UnconfirmedTags)
    (status : Option (Clove × List OwnerCall)) (store : Clove) (msg : List ℕ) (s : RoutingSession)
    → (create_garlic_payload clock draws tags
        (with_bytes status)
        (clove_bytes store)
        (some msg)
        s).cloves
      ≡ map clove_bytes (sender_cloves clock draws tags status store msg s)
unfolding create_garlic_payload attach_owner resubmit
create_garlic_payload-cloves clock draws tags status store msg s =
    let now = clock.milliseconds in
    let again = resubmit now s in
    let updates = is_updated again.lease_set_update_status in
    let confirms = has_tags tags || updates in
    let blank : Made = record { session = s; calls = []; cloves = [] } in
    let by_owner =
      owner-cloves s.has_owner
        (attach_owner draws.msg_id now tags (with_bytes status) (clove_bytes store) s) blank
        s.destination (owner_cloves confirms updates status store)
        (
          attached-cloves draws.msg_id now tags status store confirms updates again,
          attached-destination draws.msg_id now tags status store confirms updates again,
        )
        (refl, refl) in
    attach_message-cloves draws.clove_id now msg _ s.destination _ (by_owner.0) (by_owner.1)
