-- ===== src/Streaming/Frame.antt =====
-- core/Streaming.cpp: what the sending half of a stream leaves alone.
use i2pd.Prelude.{ℕ, zero, suc, ◌≡◌, refl, ◌∙◌, Bool, List, [], ◌∷◌, arith}
use i2pd.Streaming.{Packet, Stream, Services, Status, new, open_status, reset, closing, closed}
use i2pd.Streaming.Closing.{terminate, send_close, finish, close_closing, close_in, close}
use i2pd.Streaming.Sending.{send_buffer, send_packets, make_packets, after_packet}
use i2pd.Streaming.Acks.{acknowledge, acknowledge_all, process_ack, send_quick_ack}

module _ {I : Type 0} where
  -- What the receiving half keeps.
  abbrev pub received : Stream I → List (List ℕ) × List Packet × ℕ
  received s = (s.receive_queue, s.saved_packets, s.last_received)

  received-terminate : (s : Stream I) → received (terminate s) ≡ received s
  unfolding terminate
  received-terminate s = ground arith

  module _ (services : Services I) where
    received-finish : (s : Stream I) → received (finish services s) ≡ received s
    unfolding finish send_close terminate
    received-finish s = ground arith

    received-close_closing : (s : Stream I) → received (close_closing services s) ≡ received s
    unfolding close_closing
    received-close_closing s = ground (arith, received-finish (record s { status = closed }))

    received-close_in :
        (st : Status) (s : Stream I) → received (close_in services st s) ≡ received s
    unfolding close_in
    received-close_in new s = refl
    received-close_in open_status s = received-close_closing (record s { status = closing })
    received-close_in reset s = received-finish s
    received-close_in closing s = received-close_closing s
    received-close_in closed s = received-terminate s

    pub received-close : (s : Stream I) → received (close services s) ≡ received s
    unfolding close
    received-close s = received-close_in s.status s

    received-after_packet : (s : Stream I) → received (after_packet services s) ≡ received s
    unfolding after_packet
    received-after_packet s = ground arith

    received-make_packets :
        (n : ℕ) (b : Bool) (s : Stream I) → received (make_packets services n b s).1 ≡ received s
    unfolding make_packets
    received-make_packets zero b s = refl
    received-make_packets (suc n) b s =
        ground (arith, received-make_packets n b (after_packet services s), received-after_packet s)

    received-send_packets :
        (now : ℕ) (ps : List Packet) (s : Stream I)
        → received (send_packets services now ps s) ≡ received s
    unfolding send_packets send_close
    received-send_packets now [] s = refl
    received-send_packets now (p ∷ ps) s = ground arith

    pub received-send_buffer :
        (now : ℕ) (s : Stream I) → received (send_buffer services now s) ≡ received s
    unfolding send_buffer
    received-send_buffer now s = grind (arith, received-send_packets, received-make_packets)

    received-acknowledge :
        (now : ℕ) (p : Packet) (s : Stream I) → received (acknowledge now p s) ≡ received s
    unfolding acknowledge
    received-acknowledge now p s = ground arith

    received-acknowledge_all :
        (now : ℕ) (ps : List Packet) (s : Stream I)
        → received (acknowledge_all now ps s) ≡ received s
    unfolding acknowledge_all
    received-acknowledge_all now [] s = refl
    received-acknowledge_all now (p ∷ ps) s =
        received-acknowledge_all now ps (acknowledge now p s) ∙ received-acknowledge now p s

    pub received-process_ack :
        (now : ℕ) (p : Packet) (s : Stream I) → received (process_ack services now p s) ≡ received s
    unfolding process_ack
    received-process_ack now p s =
        grind (arith, received-close, received-send_buffer, received-acknowledge_all)

    pub received-send_quick_ack : (s : Stream I) → received (send_quick_ack s) ≡ received s
    unfolding send_quick_ack
    received-send_quick_ack s = ground arith
