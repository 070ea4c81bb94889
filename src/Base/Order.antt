-- ===== src/Base/Order.antt =====
-- The order of Go's strings, and its laws.
use mathlib.Core.Path.{◌≡◌, refl}
use mathlib.Core.Bool.{Bool, not, true, false, ◌&&◌, ◌||◌}
use mathlib.Core.List.{[], ◌∷◌}
use native.Mathlib.Omega.{arith}
use trino_log_sink.Base.Tests.{ltb, ◌==◌}
use trino_log_sink.Base.Text.{Bytes, bytes_eq}

unfoldable pub bytes_lt : Bytes → Bytes → Bool
bytes_lt s [] = false
bytes_lt [] (b ∷ t) = true
bytes_lt (a ∷ s) (b ∷ t) = ltb a b || (a == b && bytes_lt s t)

pub bytes_lt_trans :
    (s t u : Bytes) → bytes_lt s t ≡ true → bytes_lt t u ≡ true → bytes_lt s u ≡ true
unfolding bytes_lt
bytes_lt_trans s t [] h k = cc
bytes_lt_trans s [] (c ∷ u) h k = cc
bytes_lt_trans [] (b ∷ t) (c ∷ u) h k = refl
bytes_lt_trans (a ∷ s) (b ∷ t) (c ∷ u) h k = ground (arith, bytes_lt_trans s t u)

pub bytes_lt_asymm : (s t : Bytes) → bytes_lt s t ≡ true → bytes_lt t s ≡ false
unfolding bytes_lt
bytes_lt_asymm s [] h = cc
bytes_lt_asymm [] (b ∷ t) h = refl
bytes_lt_asymm (a ∷ s) (b ∷ t) h = ground (arith, bytes_lt_asymm s t)

-- Of two texts that are not less than each other both are the same.
pub bytes_lt_antisymm : (s t : Bytes) → bytes_lt s t ≡ false → bytes_lt t s ≡ false → s ≡ t
unfolding bytes_lt
bytes_lt_antisymm [] [] h k = refl
bytes_lt_antisymm (a ∷ s) [] h k = cc
bytes_lt_antisymm [] (b ∷ t) h k = cc
bytes_lt_antisymm (a ∷ s) (b ∷ t) h k = ground (arith, bytes_lt_antisymm s t)

pub bytes_lt_total : (s t : Bytes) → bytes_eq s t ≡ false → bytes_lt s t ≡ not (bytes_lt t s)
unfolding bytes_lt bytes_eq
bytes_lt_total [] [] h = cc
bytes_lt_total (a ∷ s) [] h = refl
bytes_lt_total [] (b ∷ t) h = refl
bytes_lt_total (a ∷ s) (b ∷ t) h = ground (arith, bytes_lt_total s t)
