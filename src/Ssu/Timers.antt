-- ===== src/Ssu/Timers.antt =====
-- core/transport/SSUData.cpp: what the resend timer and the cleanup timer do.
use i2pd.Prelude.{
  map, suc, ℕ, ◌+◌, ◌-◌, ◌*◌, ◌^◌, ◌≤◌, ◌<◌, ◌≡◌, refl, ap, ◌∙◌, false, List, [], ◌∷◌, ◌++◌, none,
  some, length, All, arith, Bool-cases, ◌==◌, inl, inr,
}
use mathlib.Core.Path.{subst}
use i2pd.Prelude.Assoc.{Assoc, lookup, insert}
use i2pd.Ssu.{
  SsuData, SentMessage, IncompleteMessage, Fragment, schedule_resend,
  schedule_incomplete_messages_cleanup, max_num_resends, resend_interval,
}
use i2pd.Ssu.Acks.{send_fragment_ack}
use i2pd.Ssu.Receive.{
  attach_next_fragment, try_saved, handle_fragment, process_fragment, keep_recent,
  handle_cleanup_timer,
}
use i2pd.Ssu.Reassembly.{send_fragment_ack-same}
use i2pd.Ssu.Transmit.{resend_message, resend_all, handle_resend_timer}

lookup-keep_recent-none :
    (now id : ℕ) (m : Assoc IncompleteMessage)
    → lookup id m ≡ none
    → lookup id (keep_recent now m) ≡ none
unfolding lookup keep_recent
lookup-keep_recent-none now id [] e = refl
lookup-keep_recent-none now id ((j, i) ∷ m) e = ground (arith, lookup-keep_recent-none now id m)

lookup-keep_recent-insert :
    (now id : ℕ) (i : IncompleteMessage) (m : Assoc IncompleteMessage)
    → lookup id m ≡ none
    → i.last_fragment_insert_time + 30 < now
    → lookup id (keep_recent now (insert id i m)) ≡ none
unfolding lookup keep_recent insert
lookup-keep_recent-insert now id i [] e old = ground arith
lookup-keep_recent-insert now id i ((j, k) ∷ m) e old =
    ground (arith, lookup-keep_recent-insert now id i m, lookup-keep_recent-none now id m)

-- The first fragment of a new message, arriving in order, with less than 1456 bytes and not the last, is
-- taken in, and forgotten by a cleanup right after it, at any time later than 30 seconds since the epoch.
pub first_fragment_forgotten :
    (now later id : ℕ) (f : Fragment) (d : SsuData)
    → lookup id d.incomplete ≡ none
    → f.fragment_num ≡ 0
    → f.is_last ≡ false
    → length f.bytes < 1456
    → 30 < later
    → (d' : SsuData) × (process_fragment now id f d ≡ some d')
      × (lookup id (handle_cleanup_timer false later d').incomplete ≡ none)
unfolding process_fragment handle_fragment attach_next_fragment try_saved handle_cleanup_timer
    schedule_incomplete_messages_cleanup
first_fragment_forgotten now later id f d new num last small old =
    let i : IncompleteMessage = record {
      msg = record { bytes = f.bytes; max_len = 4096; capacity = 4112 };
      next_fragment_num = 1;
      last_fragment_insert_time = 0;
      saved_fragments = [];
    } in
    let d₁ = record d { incomplete = insert id i d.incomplete } in
    let (same, _, _, _) = send_fragment_ack-same id f.fragment_num d₁ in
    (
      send_fragment_ack id f.fragment_num d₁,
      ground arith,
      ground (arith, same, lookup-keep_recent-insert later id i d.incomplete),
    )

-- A message that is resent until it is dropped is due for the last time by a deadline.
abbrev pub IsOverBy : ℕ → ℕ × SentMessage → Type 0
IsOverBy deadline (id, m) =
    m.next_resend_time + (max_num_resends - m.num_resends) * (max_num_resends * resend_interval)
    ≤ deadline

-- The resend timer expires at several times.
abbrev pub expire : List ℕ → SsuData → SsuData
expire [] d = d
expire (now ∷ times) d = expire times (handle_resend_timer false now d)

expire-append :
    (early late : List ℕ) (d : SsuData) → expire (early ++ late) d ≡ expire late (expire early d)
expire-append [] late d = refl
expire-append (now ∷ early) late d = expire-append early late (handle_resend_timer false now d)

resend_all-IsOverBy :
    (now deadline : ℕ) (ms : Assoc SentMessage)
    → deadline < 2 ^ 32
    → All (IsOverBy deadline) ms
    → All (IsOverBy deadline) (resend_all now ms).0
unfolding resend_all resend_message
resend_all-IsOverBy now deadline [] b h = tt
resend_all-IsOverBy now deadline ((id, m) ∷ ms) b (hm, hs) =
    ground (arith, resend_all-IsOverBy now deadline ms b hs)

expire-IsOverBy :
    (deadline : ℕ) (times : List ℕ) (d : SsuData)
    → deadline < 2 ^ 32
    → All (IsOverBy deadline) d.sent
    → All (IsOverBy deadline) (expire times d).sent
unfolding handle_resend_timer schedule_resend
expire-IsOverBy deadline [] d b h = h
expire-IsOverBy deadline (now ∷ times) d b h =
    expire-IsOverBy deadline times (handle_resend_timer false now d) b
      (resend_all-IsOverBy now deadline d.sent b h)

-- Messages that were sent again a number of times at least.
abbrev WasResent : ℕ → ℕ × SentMessage → Type 0
WasResent n (id, m) = n ≤ m.num_resends

resend_All-WasResent :
    (now deadline n : ℕ) (ms : Assoc SentMessage)
    → deadline ≤ now
    → All (IsOverBy deadline) ms
    → All (WasResent n) ms
    → All (WasResent (suc n)) (resend_all now ms).0
unfolding resend_all resend_message
resend_All-WasResent now deadline n [] l h w = tt
resend_All-WasResent now deadline n ((id, m) ∷ ms) l (hm, hs) (wm, ws) =
    ground (arith, resend_All-WasResent now deadline n ms l hs ws)

due_none :
    (now deadline : ℕ) (ms : Assoc SentMessage)
    → deadline ≤ now
    → All (IsOverBy deadline) ms
    → All (WasResent max_num_resends) ms
    → (resend_all now ms).0 ≡ []
unfolding resend_all resend_message
due_none now deadline [] l h w = refl
due_none now deadline ((id, m) ∷ ms) l (hm, hs) (wm, ws) =
    ground (arith, due_none now deadline ms l hs ws)

expire-none : (times : List ℕ) (d : SsuData) → d.sent ≡ [] → (expire times d).sent ≡ []
unfolding handle_resend_timer schedule_resend resend_all
expire-none [] d e = e
expire-none (now ∷ times) d e =
    expire-none times (handle_resend_timer false now d)
      (ap (λ (ms : Assoc SentMessage). (resend_all now ms).0) e)

expire-late :
    (deadline n : ℕ) (late : List ℕ) (d : SsuData)
    → deadline < 2 ^ 32
    → All (IsOverBy deadline) d.sent
    → All (WasResent n) d.sent
    → All (λ now. deadline ≤ now) late
    → max_num_resends < n + length late
    → n ≤ max_num_resends
    → (expire late d).sent ≡ []
unfolding handle_resend_timer schedule_resend
expire-late deadline n [] d b h w l few low = absurd (omega arith)
expire-late deadline n (now ∷ late) d b h w (l, ls) few low =
    let d' = handle_resend_timer false now d in
    elim (Bool-cases (n == max_num_resends)) [
      | inl e ↦ expire-none late d' (
          due_none now deadline d.sent l h
            (subst (λ k. All (WasResent k) d.sent) (ground (arith, e)) w))
      | inr e ↦
          expire-late deadline (suc n) late d' b (resend_all-IsOverBy now deadline d.sent b h)
            (resend_All-WasResent now deadline n d.sent l h w) ls (omega arith) (ground (arith, e))
    ]

All-WasResent : (ms : Assoc SentMessage) → All (WasResent 0) ms
All-WasResent [] = tt
All-WasResent ((id, m) ∷ ms) = (omega arith, All-WasResent ms)

-- A message has resends left for a number of expirations.
abbrev pub HasLeft : ℕ → ℕ × SentMessage → Type 0
HasLeft n (id, m) = m.num_resends + n ≤ max_num_resends

abbrev pub ids : Assoc SentMessage → List ℕ
ids ms = map (λ (x : ℕ × SentMessage). x.0) ms

resend_all-ids :
    (now n : ℕ) (ms : Assoc SentMessage)
    → All (HasLeft (suc n)) ms
    → (ids (resend_all now ms).0 ≡ ids ms) × All (HasLeft n) (resend_all now ms).0
unfolding resend_all resend_message
resend_all-ids now n [] h = (refl, tt)
resend_all-ids now n ((id, m) ∷ ms) (hm, hs) = ground (arith, resend_all-ids now n ms hs)

expire-ids :
    (times : List ℕ) (d : SsuData)
    → All (HasLeft (length times)) d.sent
    → ids (expire times d).sent ≡ ids d.sent
unfolding handle_resend_timer schedule_resend
expire-ids [] d h = refl
expire-ids (now ∷ times) d h =
    let (same, left) = resend_all-ids now (length times) d.sent h in
    expire-ids times (handle_resend_timer false now d) left ∙ same

-- A message that is never acknowledged is given up, and not too soon. Let each message have a deadline
-- that leaves room for the resends it has not had yet, 15 seconds for each, and that a clock of 32
-- bits reaches: however often the resend timer has expired before, and at whatever times, after more
-- than five further expirations at the deadline or later no message is left to be resent. But as many
-- expirations as every message has resends left, at whatever times, drop none of them.
pub expire_gives_up :
    (deadline : ℕ) (early late few : List ℕ) (d : SsuData)
    → deadline < 2 ^ 32
    → All (IsOverBy deadline) d.sent
    → All (λ now. deadline ≤ now) late
    → max_num_resends < length late
    → All (HasLeft (length few)) d.sent
    → ((expire (early ++ late) d).sent ≡ []) × (ids (expire few d).sent ≡ ids d.sent)
expire_gives_up deadline early late few d b h l enough left =
    let d' = expire early d in
    (
      ap (λ (s : SsuData). s.sent) (expire-append early late d)
          ∙ expire-late deadline 0 late d' b (expire-IsOverBy deadline early d b h)
              (All-WasResent d'.sent) l (omega arith) (omega arith),
      expire-ids few d left,
    )
