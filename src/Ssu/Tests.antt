-- ===== src/Ssu/Tests.antt =====
-- core/transport/SSUData.cpp: the theorems at concrete inputs.
use i2pd.Prelude.{ℕ, ◌≡◌, refl, true, false, List, [], ◌∷◌, ◌++◌, none, some, replicate, arith}
use i2pd.Prelude.Bytes.{be32}
use i2pd.Prelude.Assoc.{lookup}
use i2pd.Ssu.{SsuData, SentMessage, Fragment, init, adjust_packet_size}
use i2pd.Ssu.Acks.{ack_bitfields, process_acks}
use i2pd.Ssu.Acks.Numbering.{held, late_fragment_not_acknowledged}
use i2pd.Ssu.Receive.{process_fragment, handle_cleanup_timer, contains}
use i2pd.Ssu.Transmit.{send, packets}
use i2pd.Ssu.Reassembly.{receive_all, Delivered}
use i2pd.Ssu.Delivery.{send-receive_all}
use i2pd.Ssu.Timers.{first_fragment_forgotten, expire, ids, expire_gives_up}

abbrev piece : ℕ → Fragment
piece n = record { fragment_num = n; is_last = false; bytes = 65 ∷ 66 ∷ [] }

-- Nine fragments were sent.
abbrev nine : SentMessage
nine = record { fragments = replicate 9 (some (piece 0)); next_resend_time = 3; num_resends = 0 }

-- A session that is established, and has sent the message 77.
abbrev session : SsuData
session = record (init false 0) { sent = (77, nine) ∷ []; is_established = true }

late_fragment_not_acknowledged_example :
    held 77 8 (process_acks 0x40 (1 ∷ be32 77 ++ (ack_bitfields 8 ++ [])) session)
    ≡ some (some (piece 0))
unfolding lookup
late_fragment_not_acknowledged_example =
    late_fragment_not_acknowledged 77 8 [] session nine (omega arith) (omega arith) refl

send-receive_all_example :
    (fs : List Fragment) × (sender' d' : SsuData) × (send 100 5 (10 ∷ replicate 2000 1) session
      ≡ some sender')
    × (sender'.actions ≡ session.actions ++ packets 5 fs)
    × (receive_all 101 5 fs session ≡ some d')
    × Delivered session 5 (10 ∷ replicate 2000 1) d'
unfolding lookup init adjust_packet_size contains
send-receive_all_example =
    send-receive_all 100 101 5 10 (replicate 2000 1) session session (omega arith) (omega arith)
      (omega arith) (omega arith) (omega arith) refl refl refl refl

first_fragment_forgotten_example :
    (d' : SsuData) × (process_fragment 100 5 (piece 0) session ≡ some d')
    × (lookup 5 (handle_cleanup_timer false 101 d').incomplete ≡ none)
unfolding lookup init
first_fragment_forgotten_example =
    first_fragment_forgotten 100 101 5 (piece 0) session refl refl refl (omega arith) (omega arith)

expire_gives_up_example :
    ((expire ((3 ∷ 40 ∷ []) ++ (80 ∷ 83 ∷ 86 ∷ 89 ∷ 92 ∷ 95 ∷ [])) session).sent ≡ [])
    × (ids (expire (3 ∷ 80 ∷ []) session).sent ≡ 77 ∷ [])
expire_gives_up_example =
    expire_gives_up 78 (3 ∷ 40 ∷ []) (80 ∷ 83 ∷ 86 ∷ 89 ∷ 92 ∷ 95 ∷ []) (3 ∷ 80 ∷ []) session
      (omega arith) (omega arith, tt)
      (omega arith, (omega arith, (omega arith, (omega arith, (omega arith, (omega arith, tt))))))
      (omega arith) (omega arith, tt)
