-- ===== src/Prelude/Dict.antt =====
-- `std::map` keyed by a text: an association list in the order of the keys.
use mathlib.Core.Bool.{Bool, true, false}
use mathlib.Core.Option.{Option, none, some}
use mathlib.Core.List.{List, [], ◌∷◌}
use Prim.Native.Nat.{ℕ}
use mathlib.Core.Path.{◌≡◌, refl, sym, ap, ◌∙◌}
use mathlib.Core.Logic.{inl, inr}
use native.Mathlib.Omega.{arith}
use i2pd.Prelude.Tests.{ltb, ◌==◌, if◌then◌else◌, Bool-cases}
use i2pd.Prelude.Bytes.{same_bytes, same_bytes_sound, same_bytes_refl}

abbrev pub Text : Type 0
Text = List ℕ

abbrev pub Dict {ℓ} : Type ℓ → Type ℓ
Dict V = List (Text × V)

unfoldable pub less : Text → Text → Bool
less [] [] = false
less [] (y ∷ ys) = true
less (x ∷ xs) [] = false
less (x ∷ xs) (y ∷ ys) = if ltb x y then true else (if x == y then less xs ys else false)

one_of :
    (key name other : Text)
    → same_bytes key name ≡ false
    → same_bytes key other ≡ true
    → same_bytes name other ≡ true
    → ⊥
one_of key name other differ a b =
    let both = same_bytes_sound key other a ∙ sym (same_bytes_sound name other b) in
    let same = ap (same_bytes key) (sym both) ∙ same_bytes_refl key in absurd (ground arith)

module _ {ℓ} {V : Type ℓ} where
  unfoldable pub find : Text → Dict V → Option V
  unfolding same_bytes
  find name [] = none
  find name ((key, found) ∷ rest) = if same_bytes key name then some found else find name rest

  unfoldable pub put : Text → V → Dict V → Dict V
  unfolding same_bytes less
  put name entry [] = (name, entry) ∷ []
  put name entry ((key, held) ∷ rest) =
      if same_bytes key name
      then (name, entry) ∷ rest
      else (if less name key
          then (name, entry) ∷ (key, held) ∷ rest
          else (key, held) ∷ put name entry rest)

  unfoldable pub remove : Text → Dict V → Dict V
  unfolding same_bytes
  remove name [] = []
  remove name ((key, held) ∷ rest) =
      if same_bytes key name then rest else (key, held) ∷ remove name rest

  twice :
      (b : Bool) (x z y : Option V) → (if b then x else y) ≡ (if b then x else (if b then z else y))
  twice true x z y = refl
  twice false x z y = refl

  -- Two tests that do not hold together may change places.
  swapped :
      (p q : Bool) (x y z : Option V)
      → (p ≡ true → q ≡ true → ⊥)
      → (if p then x else (if q then y else z)) ≡ (if q then y else (if p then x else z))
  swapped true true x y z h = absurd (h refl refl)
  swapped true false x y z h = refl
  swapped false true x y z h = refl
  swapped false false x y z h = refl

  pub find-put :
      (name other : Text) (entry : V) (all : Dict V)
      → find other (put name entry all)
        ≡ (if same_bytes name other then some entry else find other all)
  unfolding find put
  find-put name other entry [] = refl
  find-put name other entry ((key, held) ∷ rest) = elim (Bool-cases (same_bytes key name)) [
    | inl same ↦ rw same (
        twice (same_bytes name other) (some entry) (some held) (find other rest)
        ∙ ap
            (λ (k : Text).
              if same_bytes name other
              then some entry
              else (if same_bytes k other then some held else find other rest))
            (sym (same_bytes_sound key name same)))
    | inr differ ↦ elim (Bool-cases (less name key)) [
      | inl before ↦ rw (differ, before) refl
      | inr later ↦
          rw (differ, later)
            (ap (λ (o : Option V). if same_bytes key other then some held else o)
                (find-put name other entry rest)
              ∙ swapped (same_bytes key other) (same_bytes name other) (some held) (some entry)
                  (find other rest) (one_of key name other differ))
    ]
  ]

  pub find-remove :
      (name other : Text) (all : Dict V)
      → same_bytes name other ≡ false
      → find other (remove name all) ≡ find other all
  unfolding find remove
  find-remove name other [] h = refl
  find-remove name other ((key, held) ∷ rest) h = elim (Bool-cases (same_bytes key name)) [
    | inl same ↦
        rw (same, ap (λ (k : Text). same_bytes k other) (same_bytes_sound key name same), h) refl
    | inr differ ↦ rw differ (
        ap (λ (o : Option V). if same_bytes key other then some held else o)
          (find-remove name other rest h))
  ]
