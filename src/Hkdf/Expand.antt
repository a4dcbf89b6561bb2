-- ===== src/Hkdf/Expand.antt =====
-- `hmac_sha1` of src/net/hmac_sha1.cpp and `crypto_hkdf` of src/net/hkdf_sha1.cpp against RFC 2104 and
-- RFC 5869.
use yass.Common.{
  ℕ, zero, suc, ◌+◌, ◌-◌, ◌*◌, ◌/◌, ◌%◌, ◌≤◌, ◌<◌, ◌≡◌, ◌≢◌, refl, sym, ap, ◌∙◌, true, false, some,
  List, [], ◌∷◌, ◌++◌, arith, ltb, ltb-false, ◌==◌, if◌then◌else◌, length, take, replicate,
  take-append_past, take-append_within, take_all,
}
use native.Mathlib.Decide.{ℕ_discrete, dec_le}
use mathlib.Core.List.{append-nil, append_assoc}
use yass.Hkdf.{
  output_size_sha1, hash_block_size_256, xor_key, hmac_sha1, hmac_sha1_starts, hmac_sha1_update,
  hmac_sha1_finish, crypto_hkdf_extract, expand_rounds, crypto_hkdf_expand, crypto_hkdf,
}

module _ (sha1 : List ℕ → List ℕ) where
  -- HMAC of RFC 2104: the key is hashed when it is longer than a block.
  pub hmac : List ℕ → List ℕ → List ℕ
  hmac key text =
      let block = if ltb hash_block_size_256 (length key) then sha1 key else key in
      sha1 (
        xor_key (replicate hash_block_size_256 0x5C) block
        ++ sha1 (xor_key (replicate hash_block_size_256 0x36) block ++ text))

  -- `T(1) | T(2) | ...` of RFC 5869: `n` blocks from the `i`-th on, after the block `t`.
  pub blocks_from : ℕ → ℕ → List ℕ → List ℕ → List ℕ → List ℕ
  blocks_from zero i prk info t = []
  blocks_from (suc n) i prk info t =
      let t' = hmac prk (t ++ info ++ (i ∷ [])) in t' ++ blocks_from n (i + 1) prk info t'

  hmac_sha1-eq : (key text : List ℕ) → hmac_sha1 sha1 key text ≡ hmac key text
  unfolding hmac_sha1 hmac_sha1_starts hmac_sha1_update hmac_sha1_finish hmac
  hmac_sha1-eq key text = refl

  module _ (sized : (text : List ℕ) → length (sha1 text) ≡ output_size_sha1) where
    length-hmac : (key text : List ℕ) → length (hmac key text) ≡ output_size_sha1
    unfolding hmac
    length-hmac key text = sized _

    -- One round, as RFC 5869 writes it.
    round-eq :
        (prk info t : List ℕ) (i : ℕ)
        → i < 256
        → hmac_sha1_finish sha1 (
            hmac_sha1_update sha1
              ((i % 256) ∷ [])
              (hmac_sha1_update sha1 info (hmac_sha1_update sha1 t (hmac_sha1_starts sha1 prk))))
          ≡ hmac prk (t ++ info ++ (i ∷ []))
    unfolding hmac_sha1_starts hmac_sha1_update hmac_sha1_finish hmac
    round-eq prk info t i small =
        ap
          (λ k. sha1 (
            xor_key (replicate hash_block_size_256 0x5C) (block prk)
            ++ sha1 (inner prk ++ t ++ info ++ (k ∷ []))))
          (let e : i % 256 ≡ i = omega arith in e)
        ∙ ap (λ x. sha1 (xor_key (replicate hash_block_size_256 0x5C) (block prk) ++ sha1 x))
            (ap (λ x. x ++ (i ∷ [])) (append_assoc (inner prk) t info)
              ∙ append_assoc (inner prk) (t ++ info) (i ∷ []))
      where
        block : List ℕ → List ℕ
        block key = if ltb hash_block_size_256 (length key) then sha1 key else key

        inner : List ℕ → List ℕ
        inner key = xor_key (replicate hash_block_size_256 0x36) (block key)

    expand_rounds-eq :
        (left i : ℕ) (prk info : List ℕ) (blocks okm_len where_at : ℕ) (t : List ℕ)
        → i + left ≡ blocks + 1
        → blocks ≤ 255
        → okm_len ≤ where_at + left * output_size_sha1
        → where_at + left * output_size_sha1 < okm_len + output_size_sha1
        → expand_rounds sha1 left i prk info blocks okm_len where_at t
          ≡ take (okm_len - where_at) (blocks_from left i prk info t)
    unfolding expand_rounds blocks_from
    expand_rounds-eq zero i prk info blocks okm_len where_at t e s h g =
        sym (take_all (okm_len - where_at) [] (omega arith))
    expand_rounds-eq (suc left) i prk info blocks okm_len where_at t e s h g =
        elim (ℕ_discrete i blocks) [
          | yes p ↦ last_round left (omega arith) p
          | no p ↦ early_round p (
              expand_rounds-eq left (i + 1) prk info blocks okm_len (where_at + output_size_sha1) t'
                (omega arith) s (omega arith) (omega arith))
        ]
      where
        t' : List ℕ
        t' = hmac prk (t ++ info ++ (i ∷ []))

        last_round :
            (n : ℕ)
            → n ≡ 0
            → i ≡ blocks
            → expand_rounds sha1 (suc n) i prk info blocks okm_len where_at t
              ≡ take (okm_len - where_at) (blocks_from (suc n) i prk info t)
        last_round zero z p =
            let last : (i == blocks) ≡ true = ground arith in
            rw (round-eq prk info t i (omega arith), last)
              (append-nil (take (okm_len - where_at) t')
                ∙ ap (take (okm_len - where_at)) (sym (append-nil t')))
        last_round (suc n) z p = absurd (omega arith)

        early_round :
            i ≢ blocks
            → expand_rounds sha1 left
                (i + 1)
                prk
                info
                blocks
                okm_len
                (where_at + output_size_sha1)
                t'
              ≡ take
                  (okm_len - (where_at + output_size_sha1))
                  (blocks_from left (i + 1) prk info t')
            → expand_rounds sha1 (suc left) i prk info blocks okm_len where_at t
              ≡ take (okm_len - where_at) (blocks_from (suc left) i prk info t)
        early_round p rest =
            let early : (i == blocks) ≡ false = ground arith in
            rw (round-eq prk info t i (omega arith), early, rest)
              (ap
                  (λ l.
                    l
                    ++ take (okm_len - (where_at + output_size_sha1))
                        (blocks_from left (i + 1) prk info t'))
                  (take_all output_size_sha1 t'
                    (omega (arith, length-hmac prk (t ++ info ++ (i ∷ [])))))
                ∙ sym (
                    take-append_past (okm_len - where_at) (okm_len - (where_at + output_size_sha1))
                      t' (blocks_from left (i + 1) prk info t')
                      (omega (arith, length-hmac prk (t ++ info ++ (i ∷ []))))))

    -- More blocks do not change the first ones.
    blocks-prefix :
        (n d k i : ℕ) (prk info t : List ℕ)
        → k ≤ n * output_size_sha1
        → n ≤ d
        → take k (blocks_from n i prk info t) ≡ take k (blocks_from d i prk info t)
    unfolding blocks_from
    blocks-prefix zero d zero i prk info t h g = refl
    blocks-prefix zero d (suc k) i prk info t h g = absurd (omega arith)
    blocks-prefix (suc n) zero k i prk info t h g = absurd (omega arith)
    blocks-prefix (suc n) (suc d) k i prk info t h g =
        let t' = hmac prk (t ++ info ++ (i ∷ [])) in
        let size : length t' ≡ output_size_sha1 = length-hmac prk (t ++ info ++ (i ∷ [])) in
        elim (dec_le k output_size_sha1) [
          | yes p ↦
              take-append_within k t' (blocks_from n (i + 1) prk info t') (omega arith)
              ∙ sym (take-append_within k t' (blocks_from d (i + 1) prk info t') (omega arith))
          | no p ↦
              take-append_past k (k - output_size_sha1) t' (blocks_from n (i + 1) prk info t')
                (omega arith)
              ∙ ap (λ l. t' ++ l)
                  (blocks-prefix n d (k - output_size_sha1) (i + 1) prk info t' (omega arith)
                    (omega arith))
              ∙ sym (
                  take-append_past k (k - output_size_sha1) t' (blocks_from d (i + 1) prk info t')
                    (omega arith))
        ]

    expand-blocks :
        (prk info : List ℕ) (okm_len blocks : ℕ)
        → length prk ≡ output_size_sha1
        → okm_len ≤ blocks * output_size_sha1
        → blocks * output_size_sha1 < okm_len + output_size_sha1
        → blocks ≤ 255
        → crypto_hkdf_expand sha1 prk info okm_len
          ≡ some (take okm_len (blocks_from blocks 1 prk info []))
    unfolding crypto_hkdf_expand
    expand-blocks prk info okm_len blocks size low high few =
        let same : (if okm_len % output_size_sha1 == 0
              then okm_len / output_size_sha1
              else okm_len / output_size_sha1 + 1)
            ≡ blocks =
          ground arith in
        rw
          (
            ltb-false (length prk) output_size_sha1 (omega (arith, size)),
            same,
            ltb-false 255 blocks few,
            expand_rounds-eq blocks 1 prk info blocks okm_len 0 [] (omega arith) few (omega arith)
                (omega arith),
          )
          (ap (λ k. some (take k (blocks_from blocks 1 prk info [])))
            (let e : okm_len - 0 ≡ okm_len = omega arith in e))

    -- `crypto_hkdf` gives up to 255 * 20 bytes of RFC 5869's key: as many of the bytes of
    -- T(1) | T(2) | ... as are asked for, with the extracted key `hmac salt ikm`.
    pub crypto_hkdf-blocks :
        (salt ikm info : List ℕ) (okm_len : ℕ)
        → okm_len ≤ 255 * output_size_sha1
        → crypto_hkdf sha1 salt ikm info okm_len
          ≡ some (take okm_len (blocks_from 255 1 (hmac salt ikm) info []))
    unfolding crypto_hkdf crypto_hkdf_extract
    crypto_hkdf-blocks salt ikm info okm_len h =
        let blocks = (okm_len + 19) / output_size_sha1 in
        ap (λ prk. crypto_hkdf_expand sha1 prk info okm_len) (hmac_sha1-eq salt ikm)
        ∙ expand-blocks (hmac salt ikm) info okm_len blocks (length-hmac salt ikm) (omega arith)
            (omega arith) (omega arith)
        ∙ ap some
            (blocks-prefix blocks 255 okm_len 1 (hmac salt ikm) info [] (omega arith) (omega arith))
