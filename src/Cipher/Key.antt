-- ===== src/Cipher/Key.antt =====
-- The master key of src/net/cipher.cpp: `derive_key` of `cipher_impl`, which makes it from a password.
-- MD5 of BoringSSL is the parameter `md5`: what it makes of the bytes that a context was updated with.
-- A key that is given in base64 is not modelled.
use yass.Common.{
  ℕ, zero, suc, ◌+◌, ◌-◌, ◌≤◌, ◌<◌, ◌≡◌, sym, ap, ◌∙◌, Option, none, some, List, [], ◌∷◌, ◌++◌,
  arith, ltb, lt→ltb, ltb-false, if◌then◌else◌, ◌>>=◌, length, take, replicate, length-take,
  take_all, take-append_past, take-append_within,
}
use native.Mathlib.Decide.{dec_lt, dec_le}
use mathlib.Core.List.{append-nil}

abbrev pub digest_length : ℕ
digest_length = 16

module _ (md5 : List ℕ → List ℕ) where
  -- The outer loop, from the index `j` on: `md_buf` is the last digest, and nothing before the first.
  -- `none` is no fuel left.
  pub derive_rounds : ℕ → List ℕ → ℕ → ℕ → List ℕ → Option (List ℕ)
  derive_rounds zero pass skey_len j md_buf = none
  derive_rounds (suc fuel) pass skey_len j md_buf =
      let md = md5 (md_buf ++ pass) in
      let copied = take (skey_len - j) (take digest_length md) in
      let rest = derive_rounds fuel pass skey_len (j + length copied) md in
      if ltb j skey_len then (rest >>= λ r. some (copied ++ r)) else some []

  -- Without a password the key keeps its zeros. Each round copies a byte at least.
  pub derive_key : List ℕ → ℕ → Option (List ℕ)
  derive_key [] skey_len = some (replicate skey_len 0)
  derive_key (p ∷ pass) skey_len = derive_rounds (suc skey_len) (p ∷ pass) skey_len 0 []

  -- The digests of EVP_BytesToKey, each of the one before and the password.
  pub digests : ℕ → List ℕ → List ℕ → List ℕ
  digests zero pass md_buf = []
  digests (suc n) pass md_buf = let md = md5 (md_buf ++ pass) in md ++ digests n pass md

  module _ (sized : (text : List ℕ) → length (md5 text) ≡ digest_length) where
    one_digest :
        (n j k : ℕ) (md more : List ℕ)
        → length md ≡ digest_length
        → take (n - j) md ++ take (n - (j + length (take (n - j) md))) more
          ≡ take (n - j) (md ++ more)
    one_digest n j k md more size = elim (dec_le (n - j) digest_length) [
      | yes p ↦
          ap (λ i. take (n - j) md ++ take i more)
            (let e : n - (j + length (take (n - j) md)) ≡ 0 =
                omega (arith, length-take (n - j) md) in
              e)
          ∙ append-nil (take (n - j) md)
          ∙ sym (take-append_within (n - j) md more (omega (arith, size)))
      | no p ↦
          let whole : take (n - j) md ≡ md = take_all (n - j) md (omega (arith, size)) in
          ap (λ l. l ++ take (n - (j + length l)) more) whole
          ∙ sym (take-append_past (n - j) (n - (j + length md)) md more (omega (arith, size)))
    ]

    derive_stop :
        (fuel : ℕ) (pass : List ℕ) (n j : ℕ) (md_buf : List ℕ)
        → n ≤ j
        → derive_rounds (suc fuel) pass n j md_buf ≡ some []
    unfolding derive_rounds
    derive_stop fuel pass n j md_buf h = rw (ltb-false j n h)

    derive_step :
        (fuel : ℕ) (pass : List ℕ) (n j : ℕ) (md_buf : List ℕ)
        → j < n
        → let md = md5 (md_buf ++ pass) in
          derive_rounds (suc fuel) pass n j md_buf ≡ (
            derive_rounds fuel pass n (j + length (take (n - j) md)) md >>= λ r.
            some (take (n - j) md ++ r))
    unfolding derive_rounds
    derive_step fuel pass n j md_buf h =
        let md = md5 (md_buf ++ pass) in
        let whole : take digest_length md ≡ md =
          take_all digest_length md (omega (arith, sized (md_buf ++ pass))) in
        rw (lt→ltb j n h, whole)

    derive_rounds-eq :
        (k : ℕ) (pass : List ℕ) (n j : ℕ) (md_buf : List ℕ)
        → n ≤ j + k
        → derive_rounds (suc k) pass n j md_buf ≡ some (take (n - j) (digests k pass md_buf))
    unfolding digests
    derive_rounds-eq zero pass n j md_buf h =
        derive_stop zero pass n j md_buf (omega arith)
        ∙ ap some (sym (take_all (n - j) [] (omega arith)))
    derive_rounds-eq (suc k) pass n j md_buf h =
        let md = md5 (md_buf ++ pass) in
        let size : length md ≡ digest_length = sized (md_buf ++ pass) in
        elim (dec_lt j n) [
          | yes p ↦
              derive_step (suc k) pass n j md_buf p
              ∙ ap (λ o. o >>= λ r. some (take (n - j) md ++ r))
                  (derive_rounds-eq k pass n (j + length (take (n - j) md)) md
                    (omega (arith, length-take (n - j) md)))
              ∙ ap some (one_digest n j k md (digests k pass md) size)
          | no p ↦
              derive_stop (suc k) pass n j md_buf (omega arith)
              ∙ ap (λ i. some (take i (md ++ digests k pass md)))
                  (let e : 0 ≡ n - j = omega arith in e)
        ]

    -- From a password that is not empty `derive_key` makes the first bytes of EVP_BytesToKey: as many
    -- as the key has, of the digests one behind the other.
    pub derive_key-digests :
        (pass : List ℕ) (skey_len : ℕ)
        → 0 < length pass
        → derive_key pass skey_len ≡ some (take skey_len (digests skey_len pass []))
    unfolding derive_key
    derive_key-digests [] skey_len h = absurd (omega arith)
    derive_key-digests (p ∷ pass) skey_len h =
        derive_rounds-eq skey_len (p ∷ pass) skey_len 0 [] (omega arith)
        ∙ ap (λ i. some (take i (digests skey_len (p ∷ pass) [])))
            (let e : skey_len - 0 ≡ skey_len = omega arith in e)
