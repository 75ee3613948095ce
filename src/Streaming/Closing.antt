-- ===== src/Streaming/Closing.antt =====
-- core/Streaming.cpp: the end of a stream.
use i2pd.Prelude.{◌+◌, Bool, true, false, ◌&&◌, List, [], ◌∷◌, if◌then◌else◌, replicate}
use i2pd.Streaming.{
  Packet, Status, new, open_status, reset, closing, closed, Stream, Services, post_packet,
  wake_receiver, aborted, delete_stream, act, next, flag_close, flag_signature_included,
}
use i2pd.Streaming.Wire.{encode}

abbrev pub is_empty {ℓ} : {A : Type ℓ} → List A → Bool
is_empty [] = true
is_empty (x ∷ xs) = false

module _ {I : Type 0} where
  -- `Terminate`
  unfoldable pub terminate : Stream I → Stream I
  terminate s =
      let s' =
        act wake_receiver (record s { ack_timer = false; resend_timer = false; handler = false }) in
      if s.handler then act aborted s' else s'

  module _ (services : Services I) where
    -- The packet that `SendClose` writes; its resend delay is left uninitialised, and read by nobody.
    unfoldable pub close_packet : Stream I → Packet
    close_packet s =
        let blank : Packet = record {
          send_stream_id = s.send_stream_id;
          receive_stream_id = s.recv_stream_id;
          seqn = s.sequence_number;
          ack_through = s.last_received;
          nacks = [];
          resend_delay = 0;
          flags = flag_close + flag_signature_included;
          option_data = replicate services.signature_len 0;
          payload = [];
          send_time = 0;
        } in
        record blank { option_data = services.sign (encode blank) }

    -- `SendClose`
    unfoldable pub send_close : Stream I → Stream I
    send_close s =
        act (post_packet (close_packet s)) (record s { sequence_number = next s.sequence_number })

    -- `SendClose (); Terminate (); m_LocalDestination.DeleteStream (…)`
    unfoldable pub finish : Stream I → Stream I
    finish s = act delete_stream (terminate (send_close s))

    -- `Close` of a closing stream.
    unfoldable pub close_closing : Stream I → Stream I
    close_closing s =
        if is_empty s.sent_packets && s.eof then finish (record s { status = closed }) else s

    unfoldable pub close_in : Status → Stream I → Stream I
    unfolding close_closing
    close_in open_status s = close_closing (record s { status = closing })
    close_in reset s = finish s
    close_in closing s = close_closing s
    close_in closed s = act delete_stream (terminate s)
    close_in new s = s

    -- `Close`, which calls itself once for an open stream.
    unfoldable pub close : Stream I → Stream I
    unfolding close_in
    close s = close_in s.status s
