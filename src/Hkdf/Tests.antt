-- ===== src/Hkdf/Tests.antt =====
-- A concrete derivation with a stand-in hash.
use yass.Common.{ℕ, ◌≡◌, refl, List, [], ◌∷◌, arith, replicate, take, some}
use yass.Hkdf.{crypto_hkdf}
use yass.Hkdf.Expand.{hmac, blocks_from, crypto_hkdf-blocks}

abbrev sevens : List ℕ → List ℕ
sevens text = replicate 20 7

crypto_hkdf-blocks_example :
    crypto_hkdf sevens (1 ∷ []) (2 ∷ []) (3 ∷ []) 22
    ≡ some (take 22 (blocks_from sevens 255 1 (hmac sevens (1 ∷ []) (2 ∷ [])) (3 ∷ []) []))
crypto_hkdf-blocks_example =
    crypto_hkdf-blocks sevens (λ text. refl) (1 ∷ []) (2 ∷ []) (3 ∷ []) 22 (omega arith)
