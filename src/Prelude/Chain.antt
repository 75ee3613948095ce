-- ===== src/Prelude/Chain.antt =====
-- Steps that may fail, one after the other.
use mathlib.Core.Path.{◌≡◌, ap, ◌∙◌}
use mathlib.Core.Option.{Option, none, some}

unfoldable pub and_then {ℓ κ} : {A : Type ℓ} {B : Type κ} → Option A → (A → Option B) → Option B
and_then none f = none
and_then (some a) f = f a

pub and_then-some {ℓ κ} :
    {A : Type ℓ} {B : Type κ} (f : A → Option B) {o : Option A} {a : A} {b : Option B}
    → o ≡ some a
    → f a ≡ b
    → and_then o f ≡ b
and_then-some f {b = b} e g = ap (λ x. and_then x f) e ∙ unfold and_then in g
