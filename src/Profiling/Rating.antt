-- ===== src/Profiling/Rating.antt =====
-- core/Profiling.cpp: a peer that is rated as bad gets another chance.
use i2pd.Prelude.{
  ℕ, zero, suc, ◌+◌, ◌-◌, ◌*◌, ◌/◌, ◌%◌, ◌^◌, ◌<◌, ◌≡◌, refl, ap, ◌∙◌, Bool, true, false, ◌||◌,
  List, [], ◌∷◌, replicate, ◌++◌, arith, ltb, if◌then◌else◌,
}
use i2pd.Profiling.{
  RouterProfile, is_always_declining, is_low_participation_rate, is_bad, init, save, load,
}

-- The answers of `IsBad` to so many questions in a row, and the profile behind them.
unfoldable pub ask : ℕ → RouterProfile → List Bool × RouterProfile
ask zero p = ([], p)
ask (suc n) p = let (answers, q) = ask n (is_bad p).1 in ((is_bad p).0 ∷ answers, q)

abbrev pub is_rated_bad : RouterProfile → Bool
is_rated_bad p = is_always_declining p || is_low_participation_rate p

-- The number of rejections that a profile has to go before the peer is taken again.
abbrev pub limit : RouterProfile → ℕ
limit p = 10 * (p.num_times_taken + 1) + 1

is_bad-rejects :
    (p : RouterProfile)
    → is_rated_bad p ≡ true
    → limit p < 2 ^ 32
    → p.num_times_rejected < limit p
    → is_bad p ≡ (true, record p { num_times_rejected = p.num_times_rejected + 1 })
unfolding is_bad
is_bad-rejects p bad small few =
    let often : ltb (10 * ((p.num_times_taken + 1) % 2 ^ 32) % 2 ^ 32) p.num_times_rejected
        ≡ false =
      ground arith in
    let step : (p.num_times_rejected + 1) % 2 ^ 32 ≡ p.num_times_rejected + 1 = omega arith in
    rw (bad, often, step) refl

is_bad-forgives :
    (p : RouterProfile)
    → is_rated_bad p ≡ true
    → limit p < 2 ^ 32
    → p.num_times_rejected ≡ limit p
    → is_bad p ≡ (
      false,
      record p {
        num_tunnels_agreed = 0;
        num_tunnels_declined = 0;
        num_tunnels_non_replied = 0;
        num_times_taken = p.num_times_taken + 1;
      },
    )
unfolding is_bad
is_bad-forgives p bad small many =
    let often : ltb (10 * ((p.num_times_taken + 1) % 2 ^ 32) % 2 ^ 32) p.num_times_rejected ≡ true =
      ground arith in
    let step : (p.num_times_taken + 1) % 2 ^ 32 ≡ p.num_times_taken + 1 = omega arith in
    rw (bad, often, step) refl

-- A peer that is rated as bad is rejected just as often as its profile has rejections to go, and taken at the
-- next question; what it did is forgotten then. The peer does nothing in between, and was not taken so
-- often that the counters wrap around.
pub ask-reconsiders :
    (n : ℕ) (p : RouterProfile)
    → is_rated_bad p ≡ true
    → limit p < 2 ^ 32
    → p.num_times_rejected + n ≡ limit p
    → ask (suc n) p ≡ (
      replicate n true ++ (false ∷ []),
      record p {
        num_tunnels_agreed = 0;
        num_tunnels_declined = 0;
        num_tunnels_non_replied = 0;
        num_times_taken = p.num_times_taken + 1;
        num_times_rejected = limit p;
      },
    )
unfolding ask
ask-reconsiders zero p bad small e =
    let many : p.num_times_rejected ≡ limit p = omega (arith, e) in
    let taken = λ (k : ℕ). record p {
      num_tunnels_agreed = 0;
      num_tunnels_declined = 0;
      num_tunnels_non_replied = 0;
      num_times_taken = p.num_times_taken + 1;
      num_times_rejected = k;
    } in
    ap (λ (x : Bool × RouterProfile). (x.0 ∷ [], x.1)) (is_bad-forgives p bad small many)
    ∙ ap (λ (k : ℕ). (false ∷ [], taken k)) many
ask-reconsiders (suc n) p bad small e =
    let q = record p { num_times_rejected = p.num_times_rejected + 1 } in
    let later = ask-reconsiders n q bad small (omega (arith, e)) in
    ap (λ (x : Bool × RouterProfile). (x.0 ∷ (ask (suc n) x.1).0, (ask (suc n) x.1).1))
      (is_bad-rejects p bad small (omega (arith, e)))
    ∙ ap (λ (y : List Bool × RouterProfile). (true ∷ y.0, y.1)) later

-- A profile that was saved is loaded as it was within three days of its last change, and as a new one later.
pub load-save :
    (now : ℕ) (p q : RouterProfile)
    → load now (save p) q ≡ (if ltb (now - p.last_update_time) 259200 then p else init now)
unfolding load save
load-save now p q =
    let hours : ltb ((now - p.last_update_time) / 3600) 72 ≡ ltb (now - p.last_update_time) 259200 =
      ground arith in
    rw hours refl
