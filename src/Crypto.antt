-- ===== src/Crypto.antt =====
-- src/crypto.rs. The AES-256-GCM cipher is a parameter, and so is the nonce that `encrypt` draws.
use portfolio_server.Prelude.{
  ◌<◌, ltb, length, take, drop, text, Bytes, ◌++◌, none, some, Option, Result, ok, err,
  if◌then◌else◌, not, ◌≡◌, refl, arith, Option-cases, List, ◌∷◌, inl, inr, [], length-append,
}
use portfolio_server.Errors.Sql.{Anyhow, msg}

-- `Aead::encrypt` and `Aead::decrypt`, by key and nonce.
pub record Cipher : Type 0 where
  pub seal : Bytes → Bytes → Bytes → Option Bytes
  pub unseal : Bytes → Bytes → Bytes → Option Bytes

-- What is sealed is unsealed as it was, and a sealed text holds its tag, so it is not empty.
pub record IsLawful (cipher : Cipher) : Type 0 where
  pub unseal-seal :
      (key nonce plain sealed : Bytes)
      → cipher.seal key nonce plain ≡ some sealed
      → (cipher.unseal key nonce sealed ≡ some plain) × (0 < length sealed)

unfoldable pub encrypt : Cipher → Bytes → Bytes → Bytes → Result Bytes Anyhow
encrypt cipher nonce key plaintext = elim (cipher.seal key nonce plaintext) [
  | none ↦ err (msg (text "Encryption failed"))
  | some ciphertext ↦ ok (nonce ++ ciphertext)
]

unfoldable pub decrypt : Cipher → Bytes → Bytes → Result Bytes Anyhow
decrypt cipher key bytes_in =
    if not (ltb 12 (length bytes_in))
    then err (msg (text "Ciphertext too short"))
    else elim (cipher.unseal key (take 12 bytes_in) (drop 12 bytes_in)) [
      | none ↦ err (msg (text "Decryption failed"))
      | some plaintext ↦ ok plaintext
    ]

take-append {ℓ} : {A : Type ℓ} (xs ys : List A) → take (length xs) (xs ++ ys) ≡ xs
take-append [] ys = refl
take-append (x ∷ xs) ys = ground (arith, take-append xs ys)

drop-append {ℓ} : {A : Type ℓ} (xs ys : List A) → drop (length xs) (xs ++ ys) ≡ ys
drop-append [] ys = refl
drop-append (x ∷ xs) ys = ground (arith, drop-append xs ys)

-- What was encrypted under a key, with a nonce of 12 bytes, is decrypted under it as it was.
pub decrypt-encrypt :
    (cipher : Cipher) (nonce key plaintext bytes_in : Bytes)
    → IsLawful cipher
    → length nonce ≡ 12
    → encrypt cipher nonce key plaintext ≡ ok bytes_in
    → decrypt cipher key bytes_in ≡ ok plaintext
unfolding encrypt decrypt
decrypt-encrypt cipher nonce key plaintext bytes_in lawful twelve sealed =
    elim (Option-cases (cipher.seal key nonce plaintext)) [
      | inl failed ↦ ground arith
      | inr (ciphertext, done) ↦
          let (back, tag) = lawful.unseal-seal key nonce plaintext ciphertext done in
          let there : take 12 (nonce ++ ciphertext) ≡ nonce =
            rw twelve at (take-append nonce ciphertext) in
          let rest : drop 12 (nonce ++ ciphertext) ≡ ciphertext =
            rw twelve at (drop-append nonce ciphertext) in
          ground (arith, done, there, rest, back, tag, length-append nonce ciphertext)
    ]
