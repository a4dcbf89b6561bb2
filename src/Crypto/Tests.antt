-- ===== src/Crypto/Tests.antt =====
-- Concrete packets of src/crypto under a stand-in cipher.
use yass.Common.{◌^◌, ◌%◌, ◌≡◌, ◌↔◌, [], ◌∷◌}
use yass.Crypto.{packet_number_to_nonce_sodium}
use yass.Crypto.Nonce.{sodium_nonce_iff}

sodium_nonce_iff_example :
    (packet_number_to_nonce_sodium (0 ∷ []) 1 ≡ packet_number_to_nonce_sodium (0 ∷ []) 4294967297)
    ↔ (1 % 2 ^ 32 ≡ 4294967297 % 2 ^ 32)
sodium_nonce_iff_example = sodium_nonce_iff (0 ∷ []) 1 4294967297
