-- ===== src/Streaming/Dispatch.antt =====
-- core/Streaming.cpp: the streams of a destination, by their receive ids.
use i2pd.Prelude.{
  ℕ, Bool, true, false, not, ◌&&◌, List, [], ◌∷◌, ◌++◌, Option, none, some, ◌==◌, if◌then◌else◌,
}
use i2pd.Prelude.Assoc.{Assoc, lookup, insert, erase}
use i2pd.Streaming.{Packet, Action, delete_stream, Stream, Services, is_syn, init}
use i2pd.Streaming.Receiving.{handle_next_packet}

-- Whether a stream asked to be deleted.
abbrev pub asks_deletion : List Action → Bool
asks_deletion [] = false
asks_deletion (delete_stream ∷ rest) = true
asks_deletion (a ∷ rest) = asks_deletion rest

-- `StreamingDestination`: whether an acceptor is set, and the ids of the streams that it was handed.
pub record Destination (I : Type 0) : Type 0 where
  pub streams : Assoc (Stream I)
  pub acceptor : Bool
  pub accepted : List ℕ

module _ {I : Type 0} where
  -- `DeleteStream`, by the stream's own receive id.
  unfoldable pub delete : Stream I → Destination I → Destination I
  delete s d = record d { streams = erase s.recv_stream_id d.streams }

  -- A stream after one of its operations, which may have deleted it.
  unfoldable pub store : Stream I → Destination I → Destination I
  unfolding delete
  store s d =
      if asks_deletion s.actions
      then delete s d
      else record d { streams = insert s.recv_stream_id s d.streams }

  -- `for (auto it: m_Streams)`: the first stream that sends to this id.
  unfoldable pub find_by_send_id : ℕ → Assoc (Stream I) → Option (Stream I)
  find_by_send_id id [] = none
  find_by_send_id id ((k, s) ∷ m) = if s.send_stream_id == id then some s else find_by_send_id id m

  module _ (services : Services I) where
    -- `CreateNewIncomingStream`, for the random number and the identity of a new stream, and what
    -- `HandleNextPacket` does with it.
    unfoldable pub accept_stream : ℕ → ℕ → I → Packet → Destination I → Destination I
    unfolding store delete
    accept_stream now id blank p d =
        let s = handle_next_packet services now p (init id blank) in
        if d.acceptor
        then record (store s d) { accepted = d.accepted ++ id ∷ [] }
        else delete s (store s d)

    abbrev to_stream : ℕ → Packet → Option (Stream I) → Destination I → Destination I
    to_stream now p none d = d
    to_stream now p (some s) d = store (handle_next_packet services now p s) d

    -- `HandleNextPacket`
    unfoldable pub dispatch : ℕ → ℕ → I → Packet → Destination I → Destination I
    unfolding accept_stream store find_by_send_id
    dispatch now id blank p d =
        if not (p.send_stream_id == 0)
        then to_stream now p (lookup p.send_stream_id d.streams) d
        else (if is_syn p && p.seqn == 0
            then accept_stream now id blank p d
            else to_stream now p (find_by_send_id p.receive_stream_id d.streams) d)

    -- `Stop`; the acceptor is called a last time, with no stream.
    unfoldable pub stop : Destination I → Destination I
    stop d = record d { streams = []; acceptor = false }
