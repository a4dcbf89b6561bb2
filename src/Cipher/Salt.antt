-- ===== src/Cipher/Salt.antt =====
-- The salt of a stream in `encrypt_salt` and `decrypt_salt` of src/net/cipher.cpp.
use yass.Common.{
  ℕ, ◌+◌, ◌≡◌, refl, sym, ap, ◌∙◌, true, some, List, ◌++◌, arith, ◌==◌, ◌>>=◌, length, take, drop,
  length-append,
}
use yass.IoBuffer.{GrowableBuffer, set_capacity, write_at, append_bytes_at_end, contents, read_data}
use yass.IoBuffer.Valid.{IsValid, set_capacity-IsValid}
use yass.IoBuffer.Append.{append_bytes_at_end_lem, write_at-eq}
use yass.IoBuffer.Read.{size-contents, read-contents, advance, take-front, drop-front}
use yass.Cipher.{Cipher}
use yass.Cipher.Session.{set_key_aead, encrypt_salt, decrypt_salt}

module _ (sha1 : List ℕ → List ℕ) (c k : Cipher) (salt : List ℕ) (sized : length salt ≡ c.key_len)
    (keyed : set_key_aead sha1 salt (record c { salt = salt }) ≡ some k) where
  encrypt_salt-eq :
      (fill : ℕ → ℕ) (b : GrowableBuffer) {g : GrowableBuffer} {mem : List ℕ}
      → b.offset ≡ 0
      → set_capacity fill (b.capacity + c.key_len) b ≡ some g
      → write_at b.capacity salt g.real_data ≡ some mem
      → encrypt_salt sha1 fill salt c b ≡ some (k, record g { real_data = mem })
  unfolding encrypt_salt
  encrypt_salt-eq fill b start grown wrote =
      let at : (b.offset == 0) ≡ true = ground arith in rw (at, grown, wrote, keyed)

  appended-eq :
      (fill : ℕ → ℕ) (b : GrowableBuffer) {g : GrowableBuffer} {mem : List ℕ}
      → set_capacity fill (b.capacity + c.key_len) b ≡ some g
      → write_at b.capacity salt g.real_data ≡ some mem
      → append_bytes_at_end fill salt b ≡ some (record g { real_data = mem })
  unfolding append_bytes_at_end
  appended-eq fill b grown wrote = rw (sized, grown, wrote)

  -- The salt is appended to the buffer.
  pub encrypt_salt-appends :
      (fill : ℕ → ℕ) {b : GrowableBuffer}
      → IsValid b
      → b.offset ≡ 0
      → (b' : GrowableBuffer) × (encrypt_salt sha1 fill salt c b ≡ some (k, b'))
        × IsValid b'
        × (b'.offset ≡ 0)
        × (contents b' ≡ contents b ++ salt)
  encrypt_salt-appends fill {b} v start =
      let (g, grown, vg, offg, capg, _) =
        set_capacity-IsValid fill (b.capacity + c.key_len) v (omega (arith, v.offset_in)) in
      let wrote = write_at-eq b.capacity salt g.real_data (omega (arith, vg.allocated)) in
      let (b', made, v', off, _, held) = append_bytes_at_end_lem fill salt v in
      (
        b',
        encrypt_salt-eq fill b start grown wrote
            ∙ ap (λ o. o >>= λ x. some (k, x)) (sym (appended-eq fill b grown wrote) ∙ made),
        v',
        off ∙ start,
        held,
      )

  -- The salt is taken from the front of the buffer.
  pub decrypt_salt-takes :
      {b : GrowableBuffer} (rest : List ℕ)
      → IsValid b
      → b.offset ≡ 0
      → contents b ≡ salt ++ rest
      → (b' : GrowableBuffer) × (decrypt_salt sha1 c b ≡ some (k, b'))
        × IsValid b'
        × (contents b' ≡ rest)
  unfolding decrypt_salt
  decrypt_salt-takes {b} rest v start held =
      let size : b.size ≡ length salt + length rest =
        size-contents v ∙ ap length held ∙ length-append salt rest in
      let (b', moved, v', _, taken, _, _) = advance c.key_len v (omega arith) in
      let read : read_data c.key_len b ≡ salt =
        read-contents c.key_len b (omega arith)
        ∙ ap (take c.key_len) held
        ∙ take-front salt rest c.key_len (sym sized) in
      let at : (b.offset == 0) ≡ true = ground arith in
      (
        b',
        rw (at, read, moved, keyed) refl,
        v',
        taken ∙ ap (drop c.key_len) held ∙ drop-front salt rest c.key_len (sym sized),
      )
