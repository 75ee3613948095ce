-- ===== src/Garlic/Unwrapping.antt =====
-- core/Garlic.cpp: the handling of a message, by its head and its body.
use mathlib.Core.Path.{subst}
use i2pd.Prelude.{ℕ, ◌+◌, ◌^◌, ◌<◌, ◌≡◌, ap, ◌∙◌, Bool, List, ◌++◌, some, map, arith, length, drop}
use i2pd.Prelude.Bytes.{be32}
use i2pd.Prelude.Dict.{find}
use i2pd.I2np.{garlic, fill_header}
use i2pd.I2np.Header.{fill_header-message}
use i2pd.Garlic.{Crypto}
use i2pd.Garlic.Receive.{Receiver, Delivery}
use i2pd.Garlic.Incoming.{handle_by_tag, cleanup_tags, handle_garlic_message}
use i2pd.Garlic.Wrap.{Clock, Draws}
use i2pd.Garlic.Cloves.{Clove, arrival, arrivals}
use i2pd.Garlic.Blocks.{IsSound}
use i2pd.Garlic.Exchange.{handle_garlic_message-body}

-- A destination handles a garlic message, with what is in memory behind it, to its end: its state becomes the
-- given one, and the cloves' messages arrive.
abbrev pub Unwraps :
    Crypto → Bool → ℕ → List ℕ → List ℕ → Receiver → List ℕ → Receiver → List Clove → Type 0
Unwraps c outbound now private memory r m r2 cloves =
    (done : List Delivery) × (handle_garlic_message c private outbound now (length m)
        (drop 16 m ++ memory) r
      ≡ some (r2, done))
    × (map arrival done ≡ arrivals outbound cloves)

module _ (c : Crypto) (sound : IsSound c) (clock : Clock) (draws : Draws) where
  -- The garlic message around a body.
  abbrev pub garlic_message : List ℕ → List ℕ
  garlic_message body =
      fill_header c.sha256 garlic 0 draws.header_id clock.milliseconds (be32 (length body) ++ body)

  garlic_message-parts :
      (body : List ℕ)
      → (drop 16 (garlic_message body) ≡ be32 (length body) ++ body)
        × (length (garlic_message body) ≡ 20 + length body)
  garlic_message-parts body =
      let filled =
        fill_header-message c.sha256 sound.hashes garlic 0 draws.header_id clock.milliseconds
          (be32 (length body) ++ body) in
      (ap (drop 16) (filled.1), ap length (filled.1) ∙ omega arith)

  -- A body that starts with a tag or an ElGamal block, by what its handling comes to.
  pub Unwraps-body :
      (outbound : Bool) (now : ℕ) (private memory tag rest : List ℕ) (r r2 : Receiver)
      (done : List Delivery) (cloves : List Clove)
      → length tag ≡ 32
      → length (tag ++ rest) < 2 ^ 32
      → handle_by_tag c outbound now private
          (find tag r.tags)
          (length (tag ++ rest))
          tag
          ((tag ++ rest) ++ memory)
          r
        ≡ some (r2, done)
      → map arrival done ≡ arrivals outbound cloves
      → Unwraps c outbound now private memory r
          (garlic_message (tag ++ rest))
          (cleanup_tags now r2)
          cloves
  Unwraps-body outbound now private memory tag rest r r2 done cloves tag32 small handled arrive =
      let m = garlic_message (tag ++ rest) in
      let parts = garlic_message-parts (tag ++ rest) in
      (
        done,
        ap (λ (b : List ℕ). handle_garlic_message c private outbound now (length m) (b ++ memory) r)
              (parts.0)
            ∙ handle_garlic_message-body c sound outbound now private (length m) tag rest memory r
                tag32 small (omega (arith, parts.1)) handled,
        arrive,
      )

  -- The same for a body that is given otherwise than by its first 32 bytes.
  pub Unwraps-at :
      (outbound : Bool) (now : ℕ) (private memory tag rest body : List ℕ) (r r2 : Receiver)
      (done : List Delivery) (cloves : List Clove)
      → tag ++ rest ≡ body
      → length tag ≡ 32
      → length body < 2 ^ 32
      → handle_by_tag c outbound now private (find tag r.tags) (length body) tag (body ++ memory) r
        ≡ some (r2, done)
      → map arrival done ≡ arrivals outbound cloves
      → Unwraps c outbound now private memory r (garlic_message body) (cleanup_tags now r2) cloves
  Unwraps-at outbound now private memory tag rest body r r2 done cloves e tag32 =
      subst
        (λ (b : List ℕ).
          length b < 2 ^ 32
          → handle_by_tag c outbound now private (find tag r.tags) (length b) tag (b ++ memory) r
            ≡ some (r2, done)
          → map arrival done ≡ arrivals outbound cloves
          → Unwraps c outbound now private memory r (garlic_message b) (cleanup_tags now r2) cloves)
        e
        (λ small handled arrive.
          Unwraps-body outbound now private memory tag rest r r2 done cloves tag32 small handled
            arrive)
