-- ===== src/Garlic/Tests.antt =====
-- A session with four tags a message and its destination, under a cipher that hides nothing.
use i2pd.Prelude.{
  ℕ, ◌≡◌, refl, ap, true, false, List, [], ◌∷◌, ◌++◌, none, some, take, replicate, arith,
  length-replicate, take-append_left, length-append,
}
use i2pd.Prelude.Dict.{find, remove}
use i2pd.Prelude.Bytes.{same_bytes}
use i2pd.I2np.{message_length}
use i2pd.I2np.Header.{message}
use i2pd.Garlic.{Crypto, SessionTag, RoutingSession, do_not_send}
use i2pd.Garlic.Session.{generate_tags, generate_session_tags, is_expired, tags_confirmed}
use i2pd.Garlic.Receive.{Receiver}
use i2pd.Garlic.Wrap.{
  InboundTunnel, Owner, Clock, Draws, OwnerCall, clove_end, take_tag, has_tags, is_updated,
  resubmit, resubmit_status,
}
use i2pd.Garlic.Single.{
  Wrapped, wrap_single_message, status_clove, creates_tags, fresh_tags, find_tag, wrap_with,
}
use i2pd.Garlic.Cloves.{Clove, for_local, for_tunnel, clove_bytes, all_bytes, IsMessage}
use i2pd.Garlic.Blocks.{IsSound}
use i2pd.Garlic.Exchange.{Fits, with_new_tags}
use i2pd.Garlic.Unwrapping.{Unwraps}
use i2pd.Garlic.Known.{AllKnown, AreOther}
use i2pd.Garlic.Payload.{with_bytes}
use i2pd.Garlic.Incoming.{cleanup_tags}
use i2pd.Garlic.RoundTrip.{
  IsPair, cloves_of, elgamal_block, wrap-handle_tagged, wrap-handle_untagged,
}
use i2pd.Garlic.Tags.{IsFirstFresh, take_tag-IsFirstFresh}
use i2pd.Garlic.Confirmed.{new_tags}
use i2pd.Garlic.EndToEnd.{owner_store, wrap_single_message-AllKnown}

abbrev toy_crypto : Crypto
toy_crypto = record {
  sha256 = λ bytes. replicate 32 7;
  cbc_encrypt = λ key iv bytes. bytes;
  cbc_decrypt = λ key iv bytes. bytes;
  elgamal_encrypt = λ public block. block ++ replicate 292 9;
  elgamal_decrypt = λ private bytes. some (take 222 bytes);
}

toy_crypto-IsSound : IsSound toy_crypto
toy_crypto-IsSound = record {
  hashes = λ bytes. refl;
  decrypts = λ key iv bytes whole. refl;
  keeps_length = λ key iv bytes whole. refl;
}

toy_crypto-IsPair : IsPair toy_crypto [] []
toy_crypto-IsPair block h = (
  let whole : take 222 (block ++ replicate 292 9) ≡ block =
        take-append_left 222 block (replicate 292 9) h in
      ap some whole,
  omega (arith, length-append block (replicate 292 9), length-replicate {A = ℕ} 292 9, h),
)

abbrev now : Clock
now = record { seconds = 1000; milliseconds = 1000000 }

abbrev toy_draws : Draws
toy_draws = record {
  pre_iv = replicate 32 3;
  padding = replicate 158 0;
  new_tags = λ i. replicate 32 i;
  msg_id = 55;
  clove_id = 56;
  header_id = 57;
}

abbrev toy_msg : List ℕ
toy_msg = message 20 9 5000 0 (7 ∷ 8 ∷ [])

toy_msg-IsMessage : IsMessage toy_msg
unfolding message_length
toy_msg-IsMessage rest = refl

abbrev toy_status : Clove × List OwnerCall
toy_status = (for_tunnel (replicate 32 5) 77 toy_msg (clove_end 58 1000000), [])

abbrev toy_store : Clove
toy_store = for_local toy_msg (clove_end 59 1000000)

abbrev tag_of : ℕ → ℕ → SessionTag
tag_of b created = record { tag = replicate 32 b; creation_time = created }

abbrev toy_session : List SessionTag → RoutingSession
toy_session tags = record {
  has_owner = true;
  destination =
      some (record { ident_hash = replicate 32 6; public_key = []; is_destination = true });
  session_key = replicate 32 2;
  session_tags = tags;
  num_tags = 4;
  unconfirmed_tags_msgs = [];
  lease_set_update_status = do_not_send;
  lease_set_update_msg_id = 0;
  lease_set_submission_time = 0;
}

abbrev toy_receiver : Receiver
toy_receiver = record {
  tags = (replicate 32 100, (950, replicate 32 2)) ∷ (replicate 32 101, (950, replicate 32 2)) ∷ [];
  last_tags_cleanup_time = 900;
}

abbrev one_left : List SessionTag
one_left = tag_of 101 950 ∷ []

toy-Fits :
    Fits toy_crypto toy_crypto-IsSound now toy_draws
      (some toy_status)
      toy_store
      toy_msg
      (toy_session one_left)
unfolding fresh_tags creates_tags has_tags is_updated resubmit resubmit_status generate_session_tags
    all_bytes clove_end generate_tags
toy-Fits = (
  (
    (refl, omega arith, omega arith, toy_msg-IsMessage, refl),
    ((refl, toy_msg-IsMessage, refl), tt),
  ),
  omega arith,
  omega arith,
  omega arith,
  λ i. refl,
)

toy-Fits_none :
    Fits toy_crypto toy_crypto-IsSound now toy_draws
      (some toy_status)
      toy_store
      toy_msg
      (toy_session [])
unfolding fresh_tags creates_tags has_tags is_updated resubmit resubmit_status generate_session_tags
    all_bytes clove_end generate_tags
toy-Fits_none = (
  (
    (refl, omega arith, omega arith, toy_msg-IsMessage, refl),
    ((refl, toy_msg-IsMessage, refl), tt),
  ),
  omega arith,
  omega arith,
  omega arith,
  λ i. refl,
)

abbrev sender : RoutingSession
sender = toy_session (tag_of 99 100 ∷ tag_of 100 950 ∷ one_left)

sender_tag : find_tag 1000 sender ≡ (some (tag_of 100 950), one_left)
unfolding find_tag take_tag is_expired
sender_tag = refl

known_tag : find (replicate 32 100) toy_receiver.tags ≡ some (950, replicate 32 2)
unfolding find same_bytes
known_tag = refl

abbrev toy_known : Receiver
toy_known =
    with_new_tags toy_crypto toy_crypto-IsSound now toy_draws (some toy_status) toy_store toy_msg
      1001 (toy_session one_left) toy_receiver

wrap-handle_tagged_example :
    (m : List ℕ) × ((wrap_with toy_crypto now toy_draws
        (with_bytes (some toy_status))
        (clove_bytes toy_store)
        (some toy_msg)
        sender).message
      ≡ some m)
    × Unwraps toy_crypto true 1001 []
        (1 ∷ 2 ∷ [])
        toy_receiver
        m
        (cleanup_tags 1001 (record toy_known { tags = remove (replicate 32 100) toy_known.tags }))
        (cloves_of toy_crypto toy_crypto-IsSound now toy_draws
          (some toy_status)
          toy_store
          toy_msg
          (toy_session one_left))
wrap-handle_tagged_example =
    wrap-handle_tagged toy_crypto toy_crypto-IsSound now toy_draws (some toy_status) toy_store
      toy_msg true 1001 950 [] (1 ∷ 2 ∷ []) sender (tag_of 100 950) one_left toy_receiver sender_tag
      refl known_tag toy-Fits

no_tag : find_tag 1000 (toy_session (tag_of 99 100 ∷ [])) ≡ (none, [])
unfolding find_tag take_tag is_expired
no_tag = refl

unknown_block :
    find
      (take 32 (
        toy_crypto.elgamal_encrypt [] (
          elgamal_block toy_crypto toy_crypto-IsSound now toy_draws
            (some toy_status)
            toy_store
            toy_msg
            (toy_session (tag_of 99 100 ∷ [])))))
      toy_receiver.tags
    ≡ none
unfolding find same_bytes
unknown_block = refl

wrap-handle_untagged_example :
    (m : List ℕ) × ((wrap_with toy_crypto now toy_draws
        (with_bytes (some toy_status))
        (clove_bytes toy_store)
        (some toy_msg)
        (toy_session (tag_of 99 100 ∷ []))).message
      ≡ some m)
    × Unwraps toy_crypto false 1001 [] [] toy_receiver m
        (cleanup_tags 1001 (
          with_new_tags toy_crypto toy_crypto-IsSound now toy_draws
            (some toy_status)
            toy_store
            toy_msg
            1001
            (toy_session [])
            toy_receiver))
        (cloves_of toy_crypto toy_crypto-IsSound now toy_draws
          (some toy_status)
          toy_store
          toy_msg
          (toy_session []))
wrap-handle_untagged_example =
    wrap-handle_untagged toy_crypto toy_crypto-IsSound now toy_draws (some toy_status) toy_store
      toy_msg false 1001 [] [] (toy_session (tag_of 99 100 ∷ []))
      (record { ident_hash = replicate 32 6; public_key = []; is_destination = true }) []
      toy_receiver toy_crypto-IsPair no_tag refl (refl, refl, refl) unknown_block toy-Fits_none

toy_creates : creates_tags (toy_session one_left) ≡ true
unfolding creates_tags
toy_creates = refl

toy_timely : is_expired 1600 1000 ≡ false
unfolding is_expired
toy_timely = refl

left_known : AllKnown (replicate 32 2) one_left toy_receiver.tags
unfolding find same_bytes
left_known = ((950, refl), tt)

toy_other :
    AreOther
      (replicate 32 100)
      (one_left ++ new_tags now toy_draws toy_status toy_store toy_msg sender)
unfolding same_bytes generate_tags
toy_other = (refl, (refl, (refl, (refl, (refl, tt)))))

abbrev toy_tunnel : InboundTunnel
toy_tunnel = record { next_ident_hash = replicate 32 5; next_tunnel_id = 77 }

abbrev toy_owner : Owner
toy_owner = record {
  next_inbound_tunnel = some toy_tunnel;
  lease_set = record { ident_hash = replicate 32 1; buffer = 4 ∷ 5 ∷ []; non_expired_leases = [] };
  draws = record {
    key = replicate 32 41;
    tag = replicate 32 42;
    status_id = 61;
    status_draws = toy_draws;
    status_clove_id = 62;
    store_id = 63;
    store_clove_id = 64;
    garbage = 0;
  };
}

wrap_single_message-AllKnown_example :
    (wrapped : Wrapped) × (status : Clove × List OwnerCall) × (m : List ℕ) × (r2 : Receiver)
    × (wrap_single_message toy_crypto now toy_owner toy_draws (some toy_msg) sender ≡ some wrapped)
    × (status_clove toy_crypto now toy_owner 55 toy_tunnel
        ≡ some (clove_bytes (status.0), status.1))
    × (wrapped.message ≡ some m)
    × Unwraps toy_crypto true 1001 [] [] toy_receiver m r2 (
        cloves_of toy_crypto toy_crypto-IsSound now toy_draws
          (some status)
          (owner_store toy_crypto now toy_owner)
          toy_msg
          (toy_session one_left))
    × ((tags_confirmed 55 1600 wrapped.session).session_tags
        ≡ one_left ++ generate_tags toy_draws.new_tags 1000 4)
    × AllKnown (replicate 32 2) (tags_confirmed 55 1600 wrapped.session).session_tags r2.tags
wrap_single_message-AllKnown_example =
    wrap_single_message-AllKnown toy_crypto toy_crypto-IsSound now toy_owner toy_draws toy_tunnel
      toy_msg (omega arith) refl refl (omega arith) refl (omega arith) toy_msg-IsMessage
      (omega arith) (λ i. refl) true 1001 950 1600 [] [] sender (tag_of 100 950) one_left
      toy_receiver refl (omega arith) sender_tag refl known_tag toy_creates toy_timely left_known
      toy_other refl

take_tag-IsFirstFresh_example :
    IsFirstFresh 1000 sender.session_tags (take_tag 1000 sender.session_tags)
take_tag-IsFirstFresh_example = take_tag-IsFirstFresh 1000 sender.session_tags
