-- ===== src/Padding/Tests.antt =====
-- Concrete paddings of src/net/padding.cpp.
use yass.Common.{ℕ, ◌≡◌, some, [], ◌∷◌, arith}
use yass.IoBuffer.{GrowableBuffer, contents}
use yass.Padding.{add_padding, remove_padding, payload}
use yass.Padding.Frame.{padding_round_trip}

abbrev zeros : ℕ → ℕ
zeros i = 0

padding_round_trip_example :
    (p ret b : GrowableBuffer) × (add_padding zeros 2 (8 ∷ 9 ∷ []) ≡ some p)
    × (remove_padding zeros p ≡ some (payload ret, b))
    × (contents ret ≡ 8 ∷ 9 ∷ [])
    × (contents b ≡ [])
padding_round_trip_example =
    padding_round_trip zeros zeros 2 (8 ∷ 9 ∷ []) (omega arith) (omega arith) (omega arith)
