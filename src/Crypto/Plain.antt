-- ===== src/Crypto/Plain.antt =====
-- A stand-in for the cipher of BoringSSL in runs of src/crypto: sealing appends a tag of two zero bytes.
use yass.Common.{
  ℕ, ◌-◌, ◌≤◌, ◌≡◌, sym, ap, ◌∙◌, Option, none, some, List, [], ◌∷◌, ◌++◌, arith, length, take, leb,
  if◌then◌else◌, length-append, take-append_past,
}
use mathlib.Core.List.{append-nil}
use yass.Crypto.{Aead, Crypter}

abbrev pub seal_plain : List ℕ → List ℕ → List ℕ → Option (List ℕ)
seal_plain key nonce message = some (message ++ (0 ∷ 0 ∷ []))

abbrev pub open_plain : List ℕ → List ℕ → List ℕ → ℕ → Option (List ℕ)
open_plain key nonce sealed room =
    if leb (length sealed - 2) room then some (take (length sealed - 2) sealed) else none

pub strip-tag : (m : List ℕ) → take (length (m ++ (0 ∷ 0 ∷ [])) - 2) (m ++ (0 ∷ 0 ∷ [])) ≡ m
strip-tag m =
    take-append_past (length (m ++ (0 ∷ 0 ∷ [])) - 2) 0 m (0 ∷ 0 ∷ [])
      (omega (arith, length-append m (0 ∷ 0 ∷ [])))
    ∙ append-nil m

pub open_plain-eq :
    (m : List ℕ) (room : ℕ)
    → length m ≤ room
    → open_plain [] [] (m ++ (0 ∷ 0 ∷ [])) room
      ≡ some (take (length (m ++ (0 ∷ 0 ∷ [])) - 2) (m ++ (0 ∷ 0 ∷ [])))
open_plain-eq m room h = ground (arith, length-append m (0 ∷ 0 ∷ []))

pub message-of : (m s : List ℕ) → seal_plain [] [] m ≡ some s → m ++ (0 ∷ 0 ∷ []) ≡ s
message-of m s e = cc e

abbrev pub plain : Aead
plain = record {
  tag_len = 2;
  seal = seal_plain;
  open_aead = open_plain;
  open-seal = λ key nonce m s room e h.
      ap (λ t. open_plain key nonce t room) (sym (message-of m s e))
      ∙ open_plain-eq m room h
      ∙ ap some (strip-tag m);
  length-seal =
      λ key nonce m s e. ap length (sym (message-of m s e)) ∙ length-append m (0 ∷ 0 ∷ []);
}

abbrev pub crypter : Crypter
crypter = record {
  key_size = 1;
  auth_tag_size = 2;
  nonce_size = 12;
  key = 9 ∷ [];
  iv = 1 ∷ 2 ∷ 3 ∷ 4 ∷ 5 ∷ 6 ∷ 7 ∷ 8 ∷ 9 ∷ 10 ∷ 11 ∷ 12 ∷ [];
}
