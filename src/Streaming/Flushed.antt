-- ===== src/Streaming/Flushed.antt =====
-- core/Streaming.cpp: what a stream has after `SendBuffer`.
use i2pd.Prelude.{
  ◌⊎◌, ℕ, ◌-◌, ◌≤◌, ◌<◌, ◌≡◌, refl, ap, ◌∙◌, Bool, false, ◌&&◌, not, List, [], ◌∷◌, ◌++◌, arith,
  length,
}
use i2pd.Streaming.{Packet, Stream, Services, is_negative}
use i2pd.Streaming.Closing.{send_close}
use i2pd.Streaming.Sending.{insert_sent, make_packets, send_packets, send_buffer}
use i2pd.Streaming.Cutting.{
  carried, IsNumbered, goes_on, carried-make_packets, IsNumbered-make_packets, make_packets_fills,
}
use i2pd.Streaming.Window.{length-send_buffer, sent_packets-send_buffer}

module _ {I : Type 0} (services : Services I) where
  -- The packets that `SendBuffer` makes.
  abbrev pub made : Stream I → List Packet
  made s =
      (make_packets services (s.window_size - length s.sent_packets) (is_negative s.last_received)
        s).0

  -- The stream behind the loop of `SendBuffer`.
  abbrev pub left : Stream I → Stream I
  left s =
      (make_packets services (s.window_size - length s.sent_packets) (is_negative s.last_received)
        s).1

  send_buffer-send_packets :
      (now : ℕ) (ps : List Packet) (s : Stream I)
      → (send_packets services now ps s).send_buffer ≡ s.send_buffer
  unfolding send_packets send_close
  send_buffer-send_packets now [] s = refl
  send_buffer-send_packets now (p ∷ ps) s = ground arith

  send_buffer-send_buffer :
      (now : ℕ) (s : Stream I)
      → length s.sent_packets < s.window_size
      → (send_buffer services now s).send_buffer
        ≡ (make_packets services
            (s.window_size - length s.sent_packets)
            (is_negative s.last_received)
            s).1.send_buffer
  unfolding send_buffer
  send_buffer-send_buffer now s h = grind (arith, send_buffer-send_packets)

  -- With room in the window, `SendBuffer` cuts the bytes of the application into packets without loss: what
  -- its packets carry and what is left are the bytes that were there, in order; the packets have
  -- consecutive numbers from the stream's on, are kept as sent, and with them no more packets are
  -- unacknowledged than the window allows. There are as many of them as fit in the window, unless the
  -- loop's test has failed behind the last one: the stream is not new, and it is not established or has
  -- come to the end of the bytes.
  pub send_buffer-cuts :
      (now : ℕ) (s : Stream I)
      → length s.sent_packets < s.window_size
      → (carried (made s) ++ (send_buffer services now s).send_buffer ≡ s.send_buffer)
        × IsNumbered s.sequence_number (made s)
        × ((send_buffer services now s).sent_packets ≡ insert_sent now (made s) s.sent_packets)
        × (length (send_buffer services now s).sent_packets ≤ s.window_size)
        × ((length (made s) ≡ s.window_size - length s.sent_packets) ⊎ (goes_on (left s) ≡ false))
  send_buffer-cuts now s h =
      let room = s.window_size - length s.sent_packets in
      let first = is_negative s.last_received in
      (
        ap (◌++◌ (carried (made s))) (send_buffer-send_buffer now s h)
            ∙ carried-make_packets services room first s,
        IsNumbered-make_packets services room first s,
        ground (arith, sent_packets-send_buffer services now s),
        length-send_buffer services now s (omega arith),
        make_packets_fills services room first s,
      )

  -- No acknowledgement is scheduled.
  abbrev is_ack_dropped : Stream I → Bool
  is_ack_dropped s = not s.is_ack_send_scheduled && not s.ack_timer
