-- ===== src/Cipher/Tests.antt =====
-- Concrete frames of src/net/cipher.cpp under a stand-in cipher.
use yass.Common.{ℕ, ◌≡◌, refl, inl, inr, true, none, some, List, [], ◌∷◌, arith, length}
use yass.IoBuffer.{GrowableBuffer, everything, contents}
use yass.IoBuffer.Valid.{IsValid}
use yass.Crypto.{Aead}
use yass.Crypto.Plain.{plain, crypter}
use yass.Cipher.{
  Cipher, ok, again, bad_message, Encrypted, Decrypted, chunk_encrypt_frame_aead,
  chunk_decrypt_frame_aead,
}
use yass.Cipher.Growth.{HasTags}
use yass.Cipher.Encrypt.{chunk_encrypt_frame_aead-ok}
use yass.Cipher.Failure.{chunk_encrypt_frame_aead-fails}
use yass.Cipher.Decrypt.{chunk_decrypt_frame_aead-ok}
use yass.Cipher.Frames.{chunk_decrypt_frame_aead-waits, frame_round_trip}
use yass.Crypto.{set_key, set_nonce_prefix}
use yass.Hkdf.{
  crypto_hkdf, crypto_hkdf_extract, crypto_hkdf_expand, expand_rounds, hmac_sha1, hmac_sha1_starts,
  hmac_sha1_update, hmac_sha1_finish,
}
use yass.Cipher.RoundTrip.{session_round_trip}
use yass.Common.{replicate, false}
use yass.Cipher.Session.{set_key_aead, encrypt, Visitor, process_bytes}
use yass.Cipher.Delivery.{frame, done}
use yass.Cipher.Stream.{process_bytes-delivers}

abbrev zeros : ℕ → ℕ
zeros i = 0

-- A buffer at offset 0 that holds the bytes.
abbrev holding : List ℕ → GrowableBuffer
holding bytes = record {
  real_data = bytes;
  capacity = length bytes;
  offset = 0;
  size = length bytes;
  pos = 0;
}

holding-IsValid : (bytes : List ℕ) → IsValid (holding bytes)
holding-IsValid bytes = record {
  allocated = omega arith;
  offset_in = omega arith;
  pos_at = refl;
  rest = omega arith;
}

-- Half a frame is left over: the message is [3, 4].
abbrev cipher : Cipher
cipher = record {
  salt = [];
  key = 9 ∷ [];
  key_len = 1;
  tag_len = 2;
  impl = crypter;
  counter = 0;
  init = true;
  chunk = some (holding (0 ∷ 2 ∷ 0 ∷ []));
}

tags : HasTags plain cipher
tags = record { impl_tag = refl; alg_tag = refl }

-- It keeps what is delivered.
abbrev recorder : Visitor (List (List ℕ))
recorder = record { on_received_data = λ m v. (true, m ∷ v); on_protocol_error = λ v. v }

process_bytes-delivers_example :
    (rest : GrowableBuffer) × (process_bytes plain zeros recorder
        (λ t. t)
        cipher
        (holding (0 ∷ 3 ∷ 4 ∷ 0 ∷ 0 ∷ []))
        []
      ≡ some (record cipher { counter = 2; chunk = some rest }, (3 ∷ 4 ∷ []) ∷ []))
    × IsValid rest
    × (contents rest ≡ [])
unfolding contents
process_bytes-delivers_example =
    process_bytes-delivers (λ t. t) plain zeros recorder cipher ((3 ∷ 4 ∷ []) ∷ []) [] (λ m w. refl)
      tags refl (holding-IsValid (0 ∷ 2 ∷ 0 ∷ [])) (holding-IsValid (0 ∷ 3 ∷ 4 ∷ 0 ∷ 0 ∷ []))
      (frame (omega arith) (omega arith) refl refl done)

chunk_encrypt_frame_aead-ok_example :
    (b : GrowableBuffer) × (chunk_encrypt_frame_aead plain zeros cipher 0
        (3 ∷ 4 ∷ [])
        (holding (7 ∷ []))
      ≡ some (record { status = ok; counter = 2; ciphertext = b }))
    × IsValid b
    × (b.offset ≡ 0)
    × (everything b ≡ 7 ∷ 0 ∷ 2 ∷ 0 ∷ 0 ∷ 3 ∷ 4 ∷ 0 ∷ 0 ∷ [])
unfolding everything
chunk_encrypt_frame_aead-ok_example =
    chunk_encrypt_frame_aead-ok plain zeros cipher tags 0 (3 ∷ 4 ∷ []) (holding-IsValid (7 ∷ []))
      (omega arith) refl refl

chunk_decrypt_frame_aead-ok_example :
    (r : Decrypted) × (chunk_decrypt_frame_aead plain zeros cipher 0
        (holding [])
        (holding (0 ∷ 2 ∷ 0 ∷ 0 ∷ 3 ∷ 4 ∷ 0 ∷ 0 ∷ 7 ∷ []))
      ≡ some r)
    × (r.status ≡ ok)
    × (r.counter ≡ 2)
    × IsValid r.plaintext
    × IsValid r.ciphertext
    × (contents r.ciphertext ≡ 7 ∷ [])
    × (r.plaintext.offset ≡ 2)
    × (everything r.plaintext ≡ 3 ∷ 4 ∷ [])
unfolding contents
chunk_decrypt_frame_aead-ok_example =
    chunk_decrypt_frame_aead-ok plain zeros cipher tags 0 (3 ∷ 4 ∷ []) (7 ∷ []) (holding-IsValid [])
      (holding-IsValid (0 ∷ 2 ∷ 0 ∷ 0 ∷ 3 ∷ 4 ∷ 0 ∷ 0 ∷ 7 ∷ [])) (omega arith) (omega arith) refl
      refl refl

chunk_decrypt_frame_aead-waits_example :
    (r : Decrypted) × (chunk_decrypt_frame_aead plain zeros cipher 0
        (holding [])
        (holding (0 ∷ 2 ∷ 0 ∷ 0 ∷ 3 ∷ 4 ∷ 0 ∷ []))
      ≡ some r)
    × (r.status ≡ again)
    × (r.counter ≡ 0)
    × IsValid r.ciphertext
    × (r.ciphertext.offset ≡ 0)
    × (contents r.ciphertext ≡ 0 ∷ 2 ∷ 0 ∷ 0 ∷ 3 ∷ 4 ∷ 0 ∷ [])
unfolding contents
chunk_decrypt_frame_aead-waits_example =
    chunk_decrypt_frame_aead-waits plain zeros cipher tags 0 2 (holding-IsValid [])
      (holding-IsValid (0 ∷ 2 ∷ 0 ∷ 0 ∷ 3 ∷ 4 ∷ 0 ∷ [])) (omega arith) (omega arith) refl
      (inr (3 ∷ 4 ∷ 0 ∷ [], refl, omega arith, omega arith))

frame_round_trip_example :
    (r : Encrypted) × (chunk_encrypt_frame_aead plain zeros cipher 0 (3 ∷ 4 ∷ []) (holding [])
      ≡ some r)
    × (q : Decrypted) × (chunk_decrypt_frame_aead plain zeros cipher 0 (holding []) r.ciphertext
        ≡ some q)
    × (r.status ≡ ok)
    × (q.status ≡ ok)
    × (r.counter ≡ q.counter)
    × (q.plaintext.offset ≡ 2)
    × (everything q.plaintext ≡ 3 ∷ 4 ∷ [])
    × (contents q.ciphertext ≡ [])
unfolding contents
frame_round_trip_example =
    frame_round_trip plain zeros zeros cipher cipher 0 (3 ∷ 4 ∷ []) tags tags refl (λ k. refl)
      (holding-IsValid []) refl (holding-IsValid []) (omega arith) (omega arith) refl refl

-- An algorithm that never seals.
abbrev broken : Aead
broken = record {
  tag_len = 2;
  seal = λ key nonce message. none;
  open_aead = λ key nonce sealed room. none;
  open-seal = λ key nonce message sealed room e h. cc e;
  length-seal = λ key nonce message sealed e. cc e;
}

broken_tags : HasTags broken cipher
broken_tags = record { impl_tag = refl; alg_tag = refl }

chunk_encrypt_frame_aead-fails_example :
    (r : Encrypted) × (chunk_encrypt_frame_aead broken zeros cipher 0
        (3 ∷ 4 ∷ [])
        (holding (7 ∷ []))
      ≡ some r)
    × (r.status ≡ bad_message)
    × IsValid r.ciphertext
    × (r.ciphertext.offset ≡ 0)
    × (everything r.ciphertext ≡ 7 ∷ [])
unfolding everything
chunk_encrypt_frame_aead-fails_example =
    chunk_encrypt_frame_aead-fails broken zeros cipher broken_tags 0 (3 ∷ 4 ∷ [])
      (holding-IsValid (7 ∷ [])) (omega arith) (inl refl)

-- Before the first message, and with the key derived from the salt [5] by a stand-in hash.
abbrev new_cipher : Cipher
new_cipher = record cipher { init = false; chunk = none }

abbrev sevens : List ℕ → List ℕ
sevens text = replicate 20 7

abbrev keyed_cipher : Cipher
keyed_cipher = record new_cipher {
  salt = 5 ∷ [];
  impl = record crypter {
    key = 7 ∷ [];
    iv = 0 ∷ 0 ∷ 0 ∷ 0 ∷ 5 ∷ 6 ∷ 7 ∷ 8 ∷ 9 ∷ 10 ∷ 11 ∷ 12 ∷ [];
  };
}

keyed-cipher :
    set_key_aead sevens (5 ∷ []) (record new_cipher { salt = 5 ∷ [] }) ≡ some keyed_cipher
unfolding set_key_aead crypto_hkdf crypto_hkdf_extract crypto_hkdf_expand expand_rounds hmac_sha1
    hmac_sha1_starts hmac_sha1_update hmac_sha1_finish set_key set_nonce_prefix
keyed-cipher = refl

new_tags : HasTags plain new_cipher
new_tags = record { impl_tag = refl; alg_tag = refl }

session_round_trip_example :
    (c d : Cipher) × (ct : GrowableBuffer) × (encrypt plain zeros recorder sevens
        (5 ∷ [])
        new_cipher
        (3 ∷ 4 ∷ [])
        (holding [])
        []
      ≡ some (c, ct, []))
    × (process_bytes plain zeros recorder sevens new_cipher ct [] ≡ some (d, (3 ∷ 4 ∷ []) ∷ []))
    × (c.counter ≡ d.counter)
    × ((rest : GrowableBuffer) × (d.chunk ≡ some rest) × (contents rest ≡ []))
unfolding contents
session_round_trip_example =
    session_round_trip sevens plain zeros zeros recorder recorder (5 ∷ []) new_cipher keyed_cipher
      (3 ∷ 4 ∷ []) [] [] (λ m w. refl) new_tags refl refl refl keyed-cipher (holding-IsValid [])
      refl refl (omega arith) (omega arith) refl refl
