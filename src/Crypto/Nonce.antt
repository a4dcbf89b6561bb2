-- ===== src/Crypto/Nonce.antt =====
-- No two packet numbers share a nonce (src/crypto/crypter.hpp).
use yass.Common.{
  ℕ, zero, suc, ◌+◌, ◌-◌, ◌/◌, ◌%◌, ◌^◌, ◌<◌, ◌≡◌, refl, sym, ap, ◌∙◌, ◌↔◌, List, ◌++◌, arith,
  length, take, drop, get_or, get_or-append_right, get_or-append_left, length-append,
}
use native.Mathlib.Nat.{pow-succ'}
use yass.Crypto.{
  Crypter, le_bytes, packet_number_to_nonce_evp, packet_number_to_nonce_sodium, nonce_of,
}

length-le_bytes : (n w : ℕ) → length (le_bytes n w) ≡ n
length-le_bytes zero w = refl
length-le_bytes (suc n) w = ap suc (length-le_bytes n (w / 256))

-- Words that agree on their low bytes agree modulo the power of 256.
le_bytes-injective :
    (n v w : ℕ)
    → ((k : ℕ) → k < n → get_or (le_bytes n v) k 0 ≡ get_or (le_bytes n w) k 0)
    → v < 256 ^ n
    → w < 256 ^ n
    → v ≡ w
le_bytes-injective zero v w h hv hw = omega arith
le_bytes-injective (suc n) v w h hv hw = omega (
  arith,
  h 0 (omega arith),
  le_bytes-injective n (v / 256) (w / 256) (λ k hk. h (suc k) (omega arith))
      (omega (arith, pow-succ' 256 n)) (omega (arith, pow-succ' 256 n)),
)

nonce-byte :
    (front back : List ℕ) (w k : ℕ)
    → k < 8
    → get_or (front ++ le_bytes 8 w ++ back) (length front + k) 0 ≡ get_or (le_bytes 8 w) k 0
nonce-byte front back w k h =
    get_or-append_left (front ++ le_bytes 8 w) back (length front + k) 0
      (omega (arith, length-append front (le_bytes 8 w), length-le_bytes 8 w))
    ∙ get_or-append_right front (le_bytes 8 w) (length front + k) k 0 refl

-- Two 64-bit packet numbers with one nonce are the same number.
pub nonce_of-injective :
    (c : Crypter) (v w : ℕ) → v < 2 ^ 64 → w < 2 ^ 64 → nonce_of c v ≡ nonce_of c w → v ≡ w
unfolding nonce_of packet_number_to_nonce_evp
nonce_of-injective c v w hv hw e =
    let nonce = take c.nonce_size c.iv in
    let front = take (c.nonce_size - 8) nonce in
    let back = drop (c.nonce_size - 8 + 8) nonce in
    le_bytes-injective 8 v w
      (λ k hk.
        sym (nonce-byte front back v k hk)
        ∙ ap (λ l. get_or l (length front + k) 0) e
        ∙ nonce-byte front back w k hk)
      hv hw

sodium-byte :
    (nonce : List ℕ) (w k : ℕ)
    → k < 4
    → get_or (packet_number_to_nonce_sodium nonce w) k 0 ≡ get_or (le_bytes 4 w) k 0
unfolding packet_number_to_nonce_sodium
sodium-byte nonce w k h =
    get_or-append_left (le_bytes 4 w) (drop 4 nonce) k 0 (omega (arith, length-le_bytes 4 w))

le_bytes-mod : (v : ℕ) → le_bytes 4 (v % 2 ^ 32) ≡ le_bytes 4 v
le_bytes-mod v = ground arith

-- The libsodium nonces of two packet numbers are the same exactly when the numbers agree modulo
-- 2 ^ 32: only the low four bytes are written, so after 2 ^ 32 packets the nonces repeat.
pub sodium_nonce_iff :
    (nonce : List ℕ) (v w : ℕ)
    → (packet_number_to_nonce_sodium nonce v ≡ packet_number_to_nonce_sodium nonce w)
      ↔ (v % 2 ^ 32 ≡ w % 2 ^ 32)
sodium_nonce_iff nonce v w = (same_word, same_nonce)
  where
    low :
        (u k : ℕ)
        → k < 4
        → get_or (le_bytes 4 (u % 2 ^ 32)) k 0 ≡ get_or (packet_number_to_nonce_sodium nonce u) k 0
    low u k h = ap (λ l. get_or l k 0) (le_bytes-mod u) ∙ sym (sodium-byte nonce u k h)

    same_word :
        packet_number_to_nonce_sodium nonce v ≡ packet_number_to_nonce_sodium nonce w
        → v % 2 ^ 32 ≡ w % 2 ^ 32
    same_word e =
        le_bytes-injective 4 (v % 2 ^ 32) (w % 2 ^ 32)
          (λ k hk. low v k hk ∙ ap (λ l. get_or l k 0) e ∙ sym (low w k hk)) (omega arith)
          (omega arith)

    same_nonce :
        v % 2 ^ 32 ≡ w % 2 ^ 32
        → packet_number_to_nonce_sodium nonce v ≡ packet_number_to_nonce_sodium nonce w
    same_nonce e =
        unfold packet_number_to_nonce_sodium in
        ap (λ l. l ++ drop 4 nonce) (sym (le_bytes-mod v) ∙ ap (le_bytes 4) e ∙ le_bytes-mod w)
