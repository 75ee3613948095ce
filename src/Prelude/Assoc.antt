-- ===== src/Prelude/Assoc.antt =====
-- Finite maps keyed by a number (`std::map`), as association lists.
use Prim.Native.Nat.{ℕ}
use mathlib.Core.Path.{◌≡◌, refl}
use mathlib.Core.Option.{Option, none, some}
use mathlib.Core.List.{List, [], ◌∷◌}
use native.Mathlib.Omega.{arith}
use i2pd.Prelude.Tests.{◌==◌, if◌then◌else◌}

abbrev pub Assoc {ℓ} : Type ℓ → Type ℓ
Assoc V = List (ℕ × V)

module _ {ℓ} {V : Type ℓ} where
  -- `find`: the value that stands first under a number.
  unfoldable pub lookup : ℕ → Assoc V → Option V
  lookup id [] = none
  lookup id ((key, found) ∷ rest) = if key == id then some found else lookup id rest

  -- `erase` by key.
  unfoldable pub erase : ℕ → Assoc V → Assoc V
  erase id [] = []
  erase id ((key, held) ∷ rest) = if key == id then erase id rest else (key, held) ∷ erase id rest

  pub lookup-erase :
      (id other : ℕ) (all : Assoc V)
      → lookup other (erase id all) ≡ (if id == other then none else lookup other all)
  unfolding lookup erase
  lookup-erase id other [] = ground arith
  lookup-erase id other ((key, held) ∷ rest) = ground (arith, lookup-erase id other rest)

  -- `all[id] = entry`, also the `insert` of a key that is known to be new.
  unfoldable pub insert : ℕ → V → Assoc V → Assoc V
  insert id entry [] = (id, entry) ∷ []
  insert id entry ((key, held) ∷ rest) =
      if key == id then (id, entry) ∷ rest else (key, held) ∷ insert id entry rest

  pub lookup-insert :
      (id other : ℕ) (entry : V) (all : Assoc V)
      → lookup other (insert id entry all) ≡ (if id == other then some entry else lookup other all)
  unfolding lookup insert
  lookup-insert id other entry [] = refl
  lookup-insert id other entry ((key, held) ∷ rest) =
      ground (arith, lookup-insert id other entry rest)
