-- ===== src/Cipher/RoundTrip.antt =====
-- The two ends of a stream, `encrypt` and `process_bytes` of src/net/cipher.cpp, on its first message.
use yass.Common.{
  Option-cases, inl, inr, some-injective, ℕ, ◌+◌, ◌≤◌, ◌<◌, ◌≡◌, refl, sym, ap, ◌∙◌, Bool, true,
  false, Option, none, some, List, [], ◌∷◌, ◌++◌, arith, dcheck, ltb-false, ◌==◌, ◌>>=◌, length,
  drop, length-append,
}
use mathlib.Core.List.{append-nil, append_assoc}
use yass.IoBuffer.{GrowableBuffer, everything, contents}
use yass.IoBuffer.Valid.{IsValid}
use yass.IoBuffer.Append.{contents-everything}
use yass.IoBuffer.Read.{size-contents}
use yass.Crypto.{Aead, Crypter, set_key, set_nonce_prefix}
use yass.Hkdf.{crypto_hkdf}
use yass.Cipher.{
  Cipher, ok, chunk_size_mask, next, length_bytes, Encrypted, chunk_encrypt_frame_aead,
}
use yass.Cipher.Growth.{HasTags, sealed_by, length-sealed}
use yass.Cipher.Encrypt.{chunk_encrypt_frame_aead-ok}
use yass.Cipher.Session.{
  Visitor, subkey_info, key_impl, set_key_aead, encrypt_salt, decrypt_salt, encrypt_frame, encrypt,
  join_chunk, process_frames, process_bytes,
}
use yass.Cipher.Delivery.{done, frame, process_frames-delivers}
use yass.Cipher.Salt.{encrypt_salt-appends, decrypt_salt-takes}

module _ {ℓ} {V : Type ℓ} (sha1 : List ℕ → List ℕ) (alg : Aead) (fill : ℕ → ℕ)
    (visitor : Visitor V) where
  first_encrypt :
      (salt : List ℕ) (c k : Cipher) (m : List ℕ) (out : GrowableBuffer) (v : V)
      {b : GrowableBuffer} {r : Encrypted}
      → c.init ≡ false
      → encrypt_salt sha1 fill salt c out ≡ some (k, b)
      → chunk_encrypt_frame_aead alg fill (record k { init = true }) k.counter m b ≡ some r
      → r.status ≡ ok
      → encrypt alg fill visitor sha1 salt c m out v
        ≡ some (record k { init = true; counter = r.counter }, r.ciphertext, v)
  unfolding encrypt encrypt_frame
  first_encrypt salt c k m out v new salted framed st = rw (salted, framed, st, new)

  first_bytes :
      (c k d : Cipher) (ct : GrowableBuffer) (v w : V) {b rest : GrowableBuffer}
      → c.init ≡ false
      → c.chunk ≡ none
      → c.key_len ≤ ct.size
      → decrypt_salt sha1 c ct ≡ some (k, b)
      → process_frames alg fill visitor (b.size + 1) (record k { init = true }) b v
        ≡ some (d, rest, w)
      → process_bytes alg fill visitor sha1 c ct v ≡ some (record d { chunk = some rest }, w)
  unfolding process_bytes join_chunk
  first_bytes c k d ct v w new none_left enough salted run =
      let joined : join_chunk fill c.chunk ct ≡ some ct =
        ap (λ x. join_chunk fill x ct) none_left in
      rw (joined, ltb-false ct.size c.key_len enough, salted, run, new)

tag-key_impl :
    (key : List ℕ) (i : Crypter) {a : Bool × Crypter}
    → key_impl key i ≡ some a
    → a.1.auth_tag_size ≡ i.auth_tag_size
unfolding set_key set_nonce_prefix
tag-key_impl key i e = ground (arith, e)

made_by :
    (b : Bool) (o : Option (List ℕ)) (f : List ℕ → Option (Bool × Crypter))
    (made : Crypter → Cipher) {k : Cipher}
    → dcheck b (o >>= λ x. f x >>= λ a. some (made a.1)) ≡ some k
    → (x : List ℕ) × (a : Bool × Crypter) × (f x ≡ some a) × (made a.1 ≡ k)
made_by true (some x) f made e = elim (Option-cases (f x)) [
  | inl n ↦ absurd (cc (rw n at e))
  | inr (a, s) ↦ (x, a, s, some-injective (rw s at e))
]
made_by true none f made e = cc e
made_by false o f made e = cc e

-- The cipher that `set_key_aead` leaves has its tags as before, and the counter 0.
keyed_as_before :
    (sha1 : List ℕ → List ℕ) (alg : Aead) (salt : List ℕ) {c k : Cipher}
    → HasTags alg c
    → set_key_aead sha1 salt c ≡ some k
    → HasTags alg k × (k.counter ≡ 0)
unfolding set_key_aead
keyed_as_before sha1 alg salt {c} {k} tags e =
    let made : Crypter → Cipher = λ impl. record c { counter = 0; impl = impl } in
    let (x, a, keyed, same) =
      made_by (length salt == c.key_len) (crypto_hkdf sha1 salt c.key subkey_info c.key_len)
        (λ skey. key_impl skey c.impl) made e in
    let tag : k.tag_len ≡ c.tag_len = sym (ap (λ (z : Cipher). z.tag_len) same) in
    let auth : k.impl.auth_tag_size ≡ c.impl.auth_tag_size =
      sym (ap (λ (z : Cipher). z.impl.auth_tag_size) same) ∙ tag-key_impl x c.impl keyed in
    (
      record { impl_tag = auth ∙ tags.impl_tag ∙ sym tag; alg_tag = tags.alg_tag ∙ sym tag },
      sym (ap (λ (z : Cipher). z.counter) same),
    )

-- Two ciphers created alike, one to encrypt and one to decrypt. The first message that is encrypted
-- onto an empty buffer, when both packets of its frame seal under the key derived from the salt, is
-- what `process_bytes` of the other delivers from that buffer, to a visitor that takes it; both have
-- the same counter then, and the chunk that the other keeps holds no byte.
pub session_round_trip {ℓ} :
    {V : Type ℓ} (sha1 : List ℕ → List ℕ) (alg : Aead) (fill fill' : ℕ → ℕ)
    (sender receiver : Visitor V) (salt : List ℕ) (c k : Cipher) (m : List ℕ) {out : GrowableBuffer}
    {s t : List ℕ} (v w : V)
    → ((n : List ℕ) (u : V) → (receiver.on_received_data n u).0 ≡ true)
    → HasTags alg c
    → c.init ≡ false
    → c.chunk ≡ none
    → length salt ≡ c.key_len
    → set_key_aead sha1 salt (record c { salt = salt }) ≡ some k
    → IsValid out
    → out.offset ≡ 0
    → contents out ≡ []
    → 0 < length m
    → length m ≤ chunk_size_mask
    → sealed_by alg k 0 (length_bytes (length m)) ≡ some s
    → sealed_by alg k 1 m ≡ some t
    → (c' d : Cipher) × (ct : GrowableBuffer) × (encrypt alg fill sender sha1 salt c m out v
        ≡ some (c', ct, v))
      × (process_bytes alg fill' receiver sha1 c ct w ≡ some (d, (receiver.on_received_data m w).1))
      × (c'.counter ≡ d.counter)
      × ((rest : GrowableBuffer) × (d.chunk ≡ some rest) × (contents rest ≡ []))
session_round_trip sha1 alg fill fill' sender receiver salt c k m {out} {s} {t} v w willing tags new
      none_left sized keyed vo start empty some_bytes short e f =
    let (tags_k, zero_k) =
      keyed_as_before sha1 alg salt {c = record c { salt = salt }}
        (record { impl_tag = tags.impl_tag; alg_tag = tags.alg_tag }) keyed in
    let kk : Cipher = record k { init = true } in
    let tags_kk : HasTags alg kk = record {
      impl_tag = tags_k.impl_tag;
      alg_tag = tags_k.alg_tag;
    } in
    let (b, salted, vb, off_b, held_b) =
      encrypt_salt-appends sha1 c k salt sized keyed fill vo start in
    let seal0 : sealed_by alg kk k.counter (length_bytes (length m)) ≡ some s =
      ap (λ i. sealed_by alg k i (length_bytes (length m))) zero_k ∙ e in
    let seal1 : sealed_by alg kk (next k.counter) m ≡ some t =
      ap (λ i. sealed_by alg k (next i) m) zero_k ∙ f in
    let (ct, framed, vct, off_ct, all) =
      chunk_encrypt_frame_aead-ok alg fill kk tags_kk k.counter m vb short seal0 seal1 in
    let at : ct.offset ≡ 0 = off_ct ∙ off_b in
    let held : contents ct ≡ salt ++ (s ++ (t ++ [])) =
      from_start vct at
      ∙ all
      ∙ ap (λ l. l ++ s ++ t) (sym (from_start vb off_b) ∙ held_b ∙ ap (λ l. l ++ salt) empty)
      ∙ in_order salt s t in
    let (b', unsalted, vb', left) =
      decrypt_salt-takes sha1 c k salt sized keyed (s ++ (t ++ [])) vct at held in
    let (rest, run, _, none_over) =
      process_frames-delivers alg fill' receiver willing kk (m ∷ []) (b'.size + 1) w tags_kk vb'
        (frame some_bytes short seal0 seal1 done) left
        (omega (
          arith,
          size-contents vb',
          ap length left,
          length-append s (t ++ []),
          length-sealed alg kk tags_kk k.counter (length_bytes (length m)) seal0,
        )) in
    (
      record k { init = true; counter = next (next k.counter) },
      record k { init = true; counter = next (next k.counter); chunk = some rest },
      ct,
      first_encrypt sha1 alg fill sender salt c k m out v new salted framed refl,
      first_bytes sha1 alg fill' receiver c k (record kk { counter = next (next k.counter) }) ct w
          ((receiver.on_received_data m w).1) new none_left
          (omega
            (arith, size-contents vct, ap length held, length-append salt (s ++ (t ++ [])), sized))
          unsalted run,
      refl,
      (rest, refl, none_over),
    )
  where
    from_start : {b : GrowableBuffer} → IsValid b → b.offset ≡ 0 → contents b ≡ everything b
    from_start {b} v at = contents-everything v ∙ ap (λ o. drop o (everything b)) at

    in_order : (x y z : List ℕ) → [] ++ x ++ y ++ z ≡ x ++ (y ++ (z ++ []))
    in_order x y z = append_assoc x y z ∙ ap (λ l. x ++ (y ++ l)) (sym (append-nil z))
