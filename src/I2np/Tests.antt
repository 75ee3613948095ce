-- ===== src/I2np/Tests.antt =====
-- A data message of two bytes.
use i2pd.Prelude.{ℕ, ◌≡◌, List, [], ◌∷◌, some, arith}
use i2pd.I2np.{to_ssu, from_ssu}
use i2pd.I2np.Header.{message, from_ssu-to_ssu}

abbrev two_bytes : List ℕ
two_bytes = 7 ∷ 8 ∷ []

from_ssu-to_ssu_example :
    (short : List ℕ) × (to_ssu (message 20 99 1234567 3 two_bytes) ≡ some (99, short))
    × (from_ssu 99 short ≡ some (message 20 99 1234000 0 two_bytes))
from_ssu-to_ssu_example =
    from_ssu-to_ssu 20 99 1234567 3 two_bytes (omega arith) (omega arith) (omega arith)
