-- ===== src/Garlic/Confirmed.antt =====
-- core/Garlic.cpp: a message with new tags, its handling by the far end, and the delivery status that comes back.
use mathlib.Core.Path.{subst}
use i2pd.Prelude.{
  ℕ, ◌≡◌, refl, sym, ap, ◌∙◌, Bool, true, false, ◌&&◌, List, [], ◌++◌, some, ltb, if◌then◌else◌,
  length,
}
use i2pd.Prelude.Assoc.{lookup}
use i2pd.Prelude.Dict.{find, remove}
use i2pd.Garlic.{Crypto, SessionTag, UnconfirmedTags, RoutingSession, add32}
use i2pd.Garlic.Session.{generate_tags, generate_session_tags, is_expired, tags_confirmed}
use i2pd.Garlic.Receive.{Receiver, put_tags}
use i2pd.Garlic.Incoming.{cleanup_tags}
use i2pd.Garlic.Wrap.{
  Clock, Draws, OwnerCall, bytes_of, attach_owner, attach_message, has_tags, is_updated, resubmit,
  Made,
}
use i2pd.Garlic.Single.{
  creates_tags, fresh_tags, find_tag, create_garlic_payload, finish, with_tag, wrap_with,
}
use i2pd.Garlic.Cloves.{Clove, clove_bytes}
use i2pd.Garlic.Blocks.{IsSound, AreTags, tags_in}
use i2pd.Garlic.Payload.{attached, with_bytes}
use i2pd.Garlic.Exchange.{Fits, with_new_tags, generate_tags-AreTags}
use i2pd.Garlic.Unwrapping.{Unwraps}
use i2pd.Garlic.RoundTrip.{cloves_of, wrap-handle_tagged}
use i2pd.Garlic.Tags.{tags_confirmed-adds}
use i2pd.Garlic.Known.{
  AllKnown, AreOther, put_tags-AllKnown, put_tags-keeps, AllKnown-append, AllKnown-remove,
  attached-registers,
}

owned : (a b : Bool) → (a && b) ≡ true → a ≡ true
owned true b h = refl
owned false b h = h

creates_tags-owned : (s : RoutingSession) → creates_tags s ≡ true → s.has_owner ≡ true
unfolding creates_tags
creates_tags-owned s h = owned s.has_owner _ h

module _ (clock : Clock) (draws : Draws) (status : Clove × List OwnerCall) (store : Clove)
    (msg : List ℕ) where
  -- The tags that a message of the session is made with.
  abbrev pub new_tags : RoutingSession → List SessionTag
  new_tags s = generate_tags draws.new_tags clock.seconds s.num_tags

  fresh_tags-some :
      (s : RoutingSession)
      → creates_tags s ≡ true
      → fresh_tags clock draws s
        ≡ some (record { session_tags = new_tags s; tags_creation_time = clock.seconds })
  unfolding fresh_tags generate_session_tags
  fresh_tags-some s h = rw h refl

  -- The session behind a payload with new tags: they wait under the message's id.
  registered :
      (tags : UnconfirmedTags) (s : RoutingSession)
      → s.has_owner ≡ true
      → let after =
          (create_garlic_payload clock draws
            (some tags)
            (with_bytes (some status))
            (clove_bytes store)
            (some msg)
            s).session in
        (lookup draws.msg_id after.unconfirmed_tags_msgs ≡ some tags)
        × (after.session_tags ≡ s.session_tags)
  unfolding create_garlic_payload attach_message
  registered tags s owner =
      let blank : Made = record { session = s; calls = []; cloves = [] } in
      let again = resubmit clock.milliseconds s in
      let made =
        attached draws.msg_id clock.milliseconds (some tags) (some status) store true
          (is_updated again.lease_set_update_status) again in
      let chosen : (if s.has_owner
            then attach_owner draws.msg_id clock.milliseconds (some tags) (with_bytes (some status))
                (clove_bytes store) s
            else blank)
          ≡ made =
        ap
          (λ (b : Bool).
            if b
            then attach_owner draws.msg_id clock.milliseconds (some tags) (with_bytes (some status))
                (clove_bytes store) s
            else blank)
          owner
        ∙ unfold attach_owner in unfold has_tags in refl in
      let waits =
        attached-registers draws.msg_id clock.milliseconds tags status store
          (is_updated again.lease_set_update_status) again in
      (
        ap (λ (m : Made). lookup draws.msg_id (m.session).unconfirmed_tags_msgs) chosen ∙ waits.0,
        ap (λ (m : Made). (m.session).session_tags) chosen ∙ waits.1 ∙ unfold resubmit in refl,
      )

  module _ (c : Crypto) (sound : IsSound c) where
    -- What a tagged message leaves of its session.
    tagged_session :
        (s : RoutingSession) (t : SessionTag) (rest : List SessionTag)
        → find_tag clock.seconds s ≡ (some t, rest)
        → creates_tags (record s { session_tags = rest }) ≡ true
        → let after =
            (wrap_with c clock draws
              (with_bytes (some status))
              (clove_bytes store)
              (some msg)
              s).session in
          let tags : UnconfirmedTags = record {
            session_tags = new_tags s;
            tags_creation_time = clock.seconds;
          } in
          (lookup draws.msg_id after.unconfirmed_tags_msgs ≡ some tags)
          × (after.session_tags ≡ rest)
    unfolding wrap_with with_tag finish
    tagged_session s t rest found creates =
        let left : RoutingSession = record s { session_tags = rest } in
        let tags : UnconfirmedTags = record {
          session_tags = new_tags s;
          tags_creation_time = clock.seconds;
        } in
        let waits = registered tags left (creates_tags-owned left creates) in
        let same = fresh_tags-some left creates in rw (found, same) waits

    -- A session wraps a message with new tags under a tag that its destination knows, and there is an inbound
    -- tunnel for the delivery status, which comes back in time. Then the destination handles the message to its
    -- end, and knows the session's key under every tag that the session has: those that were left, which it knew
    -- before, and the new ones. The tags are distinct from the one that is used, and the destination has no
    -- cleanup due.
    pub confirmed-AllKnown :
        (outbound : Bool) (now since later : ℕ) (private memory : List ℕ) (s : RoutingSession)
        (t : SessionTag) (rest : List SessionTag) (r : Receiver)
        → find_tag clock.seconds s ≡ (some t, rest)
        → length t.tag ≡ 32
        → find t.tag r.tags ≡ some (since, s.session_key)
        → Fits c sound clock draws (some status) store msg (record s { session_tags = rest })
        → creates_tags (record s { session_tags = rest }) ≡ true
        → is_expired later clock.seconds ≡ false
        → AllKnown s.session_key rest r.tags
        → AreOther t.tag (rest ++ new_tags s)
        → ltb (add32 r.last_tags_cleanup_time 960) now ≡ false
        → let wrapped =
            wrap_with c clock draws (with_bytes (some status)) (clove_bytes store) (some msg) s in
          let confirmed = tags_confirmed draws.msg_id later wrapped.session in
          (m : List ℕ) × (r2 : Receiver) × (wrapped.message ≡ some m)
          × Unwraps c outbound now private memory r m r2 (
              cloves_of c sound clock draws
                (some status)
                store
                msg
                (record s { session_tags = rest }))
          × (confirmed.session_tags ≡ rest ++ new_tags s)
          × AllKnown s.session_key confirmed.session_tags r2.tags
    confirmed-AllKnown outbound now since later private memory s t rest r found tag32 known fits
          creates timely rest_known other due =
        let left : RoutingSession = record s { session_tags = rest } in
        let exchange =
          wrap-handle_tagged c sound clock draws (some status) store msg outbound now since private
            memory s t rest r found tag32 known fits in
        let waits = tagged_session s t rest found creates in
        let added =
          tags_confirmed-adds draws.msg_id later _
            (wrap_with c clock draws (with_bytes (some status)) (clove_bytes store) (some msg)
              s).session
            (waits.0) timely in
        let tags = added.0 ∙ ap (λ (ts : List SessionTag). ts ++ new_tags s) (waits.1) in
        let with_new = with_new_tags c sound clock draws (some status) store msg now left r in
        let r2 : Receiver = record with_new { tags = remove t.tag with_new.tags } in
        let kept : cleanup_tags now r2 ≡ r2 = unfold cleanup_tags in rw due refl in
        let are : AreTags (new_tags s) × (length (new_tags s) ≡ s.num_tags) =
          generate_tags-AreTags draws.new_tags clock.seconds s.num_tags (fits.4) in
        let knows : AllKnown s.session_key (rest ++ new_tags s) with_new.tags =
          let same = ap tags_in (fresh_tags-some left creates) in
          subst
            (λ (ts : List SessionTag).
              AllKnown s.session_key (rest ++ new_tags s)
                (put_tags now s.session_key (length ts) (bytes_of ts) r.tags))
            (sym same)
            (AllKnown-append s.session_key rest (new_tags s) _
              (put_tags-keeps now s.session_key (length (new_tags s)) (bytes_of (new_tags s)) r.tags
                rest rest_known)
              (put_tags-AllKnown now s.session_key (new_tags s) r.tags (are.0))) in
        (
          exchange.0,
          r2,
          exchange.1,
          subst
              (λ (x : Receiver).
                Unwraps c outbound now private memory r (exchange.0) x
                  (cloves_of c sound clock draws (some status) store msg left))
              kept (exchange.2),
          tags,
          subst (λ (ts : List SessionTag). AllKnown s.session_key ts r2.tags) (sym tags)
              (AllKnown-remove s.session_key t.tag (rest ++ new_tags s) with_new.tags other knows),
        )
