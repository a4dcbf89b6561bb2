-- ===== src/Hkdf.antt =====
-- The key derivation of src/net/hkdf_sha1.cpp over the HMAC of src/net/hmac_sha1.cpp. SHA-1 of
-- BoringSSL is the parameter `sha1`: a context is the list of the bytes that it was updated with.
-- Pointers are not null, and lengths are not negative: a result `none` is -1.
pub mod Expand
mod Tests
use yass.Common.{
  ℕ, zero, suc, ◌+◌, ◌-◌, ◌*◌, ◌/◌, ◌%◌, Option, none, some, List, [], ◌∷◌, ◌++◌, ltb, ◌==◌,
  if◌then◌else◌, ◌>>=◌, length, take, replicate,
}
use Prim.Native.Nat.{bit_xor}

abbrev pub output_size_sha1 : ℕ
output_size_sha1 = 20

abbrev pub hash_block_size_256 : ℕ
hash_block_size_256 = 64

-- A SHA_CTX with the two pads.
pub record Hmac : Type 0 where
  pub ctx : List ℕ
  pub ipad : List ℕ
  pub opad : List ℕ

-- The loop that xors the key into a pad.
pub xor_key : List ℕ → List ℕ → List ℕ
xor_key [] key = []
xor_key (p ∷ pad) [] = p ∷ pad
xor_key (p ∷ pad) (k ∷ key) = bit_xor p k ∷ xor_key pad key

module _ (sha1 : List ℕ → List ℕ) where
  unfoldable pub hmac_sha1_starts : List ℕ → Hmac
  hmac_sha1_starts key =
      let short = if ltb hash_block_size_256 (length key) then sha1 key else key in
      let ipad = xor_key (replicate hash_block_size_256 0x36) short in
      let opad = xor_key (replicate hash_block_size_256 0x5C) short in
      record { ctx = ipad; ipad = ipad; opad = opad }

  unfoldable pub hmac_sha1_update : List ℕ → Hmac → Hmac
  hmac_sha1_update input h = record h { ctx = h.ctx ++ input }

  unfoldable pub hmac_sha1_finish : Hmac → List ℕ
  hmac_sha1_finish h = sha1 (h.opad ++ sha1 h.ctx)

  pub hmac_sha1_reset : Hmac → Hmac
  hmac_sha1_reset h = record h { ctx = h.ipad }

  unfoldable pub hmac_sha1 : List ℕ → List ℕ → List ℕ
  hmac_sha1 key input = hmac_sha1_finish (hmac_sha1_update input (hmac_sha1_starts key))

  unfoldable pub crypto_hkdf_extract : List ℕ → List ℕ → List ℕ
  crypto_hkdf_extract salt ikm = hmac_sha1 salt ikm

  -- The loop of `crypto_hkdf_expand` for the last `left` of the `blocks` rounds, of which the next is
  -- the `i`-th: the bytes that it copies to `okm` from `where` on.
  unfoldable pub expand_rounds : ℕ → ℕ → List ℕ → List ℕ → ℕ → ℕ → ℕ → List ℕ → List ℕ
  expand_rounds zero i prk info blocks okm_len where_at t = []
  expand_rounds (suc left) i prk info blocks okm_len where_at t =
      let h =
        hmac_sha1_update ((i % 256) ∷ [])
          (hmac_sha1_update info (hmac_sha1_update t (hmac_sha1_starts prk))) in
      let t' = hmac_sha1_finish h in
      let n = if i == blocks then okm_len - where_at else output_size_sha1 in
      take n t'
      ++ expand_rounds left (i + 1) prk info blocks okm_len (where_at + output_size_sha1) t'

  unfoldable pub crypto_hkdf_expand : List ℕ → List ℕ → ℕ → Option (List ℕ)
  crypto_hkdf_expand prk info okm_len =
      let whole = okm_len / output_size_sha1 in
      let blocks = if okm_len % output_size_sha1 == 0 then whole else whole + 1 in
      if ltb (length prk) output_size_sha1
      then none
      else if ltb 255 blocks
      then none
      else some (expand_rounds blocks 1 prk info blocks okm_len 0 [])

  unfoldable pub crypto_hkdf : List ℕ → List ℕ → List ℕ → ℕ → Option (List ℕ)
  crypto_hkdf salt ikm info okm_len = crypto_hkdf_expand (crypto_hkdf_extract salt ikm) info okm_len
