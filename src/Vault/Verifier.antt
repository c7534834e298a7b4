-- ===== src/Vault/Verifier.antt =====
-- The check of a PIN on another device: `createPinVerifier` and `verifyPin` of backend/static/js/lib/vault.js. Texts
-- of base64 are the bytes that they stand for, whose lengths the code checks as well.
use cryptis_dchat_project.Prelude.{
  ℕ, ◌==◌, ◌≡◌, refl, sym, ap, ◌∙◌, leb, if◌then◌else◌, Bool, true, false, ◌&&◌, Option, none, some,
  length, all, arith,
}
use cryptis_dchat_project.Crypto.Merkle.{text_eq}
use cryptis_dchat_project.Crypto.Merkle.Hex.{text_eq-same}
use cryptis_dchat_project.Vault.{Bytes, Cipher, Vault, iterations}

pub record PinVerifier : Type 0 where
  pub v : ℕ
  pub salt : Bytes
  pub iv : Bytes
  pub ciphertext : Bytes

-- `/^\d{4}$/`
unfoldable pub is_pin : Bytes → Bool
is_pin pin = length pin == 4 && all (λ c. leb 48 c && leb c 57) pin

unfoldable pub has_lengths : PinVerifier → Bool
has_lengths w =
    w.v == 1 && (length w.salt == 16 && (length w.iv == 12 && length w.ciphertext == 48))

module _ (c : Cipher) where
  open c use {derive, encrypt, decrypt, decrypt-encrypt}

  -- `iv` and `proof` are the bytes drawn; a locked vault has no verifier.
  unfoldable pub create_pin_verifier : Bytes → Bytes → Vault c → Option PinVerifier
  create_pin_verifier iv proof vault = elim vault.key [
    | none ↦ none
    | some key ↦
        some (record { v = 1; salt = vault.salt; iv = iv; ciphertext = encrypt key iv proof })
  ]

  unfoldable pub is_some : Option Bytes → Bool
  is_some none = false
  is_some (some b) = true

  -- There is a verifier or none.
  unfoldable pub verify_pin : Bytes → Option PinVerifier → Bool
  unfolding is_pin has_lengths is_some
  verify_pin pin none = false
  verify_pin pin (some w) =
      if is_pin pin && has_lengths w
      then is_some (decrypt (derive pin w.salt iterations) w.iv w.ciphertext)
      else false

  same_key :
      (key key' iv proof : Bytes)
      → (text_eq key' key ≡ false → decrypt key' iv (encrypt key iv proof) ≡ none)
      → is_some (decrypt key' iv (encrypt key iv proof)) ≡ text_eq key' key
  unfolding is_some
  same_key key key' iv proof authentic = at (text_eq key' key) refl
    where
      at : (b : Bool) → b ≡ text_eq key' key → is_some (decrypt key' iv (encrypt key iv proof)) ≡ b
      at true same =
          ap (λ k. is_some (decrypt k iv (encrypt key iv proof))) (text_eq-same key' key (sym same))
          ∙ ap is_some (decrypt-encrypt key iv proof)
      at false same = ap is_some (authentic (sym same))

  has_lengths-drawn :
      (w : PinVerifier)
      → w.v ≡ 1
      → length w.salt ≡ 16
      → length w.iv ≡ 12
      → length w.ciphertext ≡ 48
      → has_lengths w ≡ true
  unfolding has_lengths
  has_lengths-drawn w h k l m = ground arith

  -- The verifier that an unlocked vault makes accepts just the PINs of four digits from which the
  -- vault's key is derived, if its salt has 16 bytes, the initial vector has 12 and the sealed text 48,
  -- and the key of another PIN of four digits does not open it.
  pub verify_pin-create_pin_verifier :
      (vault : Vault c) (key iv proof pin : Bytes)
      → vault.key ≡ some key
      → length vault.salt ≡ 16
      → length iv ≡ 12
      → length (encrypt key iv proof) ≡ 48
      → (is_pin pin ≡ true
          → text_eq (derive pin vault.salt iterations) key ≡ false
          → decrypt (derive pin vault.salt iterations) iv (encrypt key iv proof) ≡ none)
      → verify_pin pin (create_pin_verifier iv proof vault)
        ≡ (is_pin pin && text_eq (derive pin vault.salt iterations) key)
  unfolding create_pin_verifier verify_pin
  verify_pin-create_pin_verifier vault key iv proof pin unlocked salted drawn sealed authentic =
      ap
        (λ (k : Option Bytes). verify_pin pin (elim k [
          | none ↦ none
          | some key ↦
              some (record { v = 1; salt = vault.salt; iv = iv; ciphertext = encrypt key iv proof })
        ]))
        unlocked
      ∙ ap (λ b. if is_pin pin && b then opens else false)
          (has_lengths-drawn made refl salted drawn sealed)
      ∙ at (is_pin pin) refl
    where
      made : PinVerifier
      made = record { v = 1; salt = vault.salt; iv = iv; ciphertext = encrypt key iv proof }

      opens : Bool
      opens = is_some (decrypt (derive pin vault.salt iterations) iv (encrypt key iv proof))

      at :
          (b : Bool)
          → b ≡ is_pin pin
          → (if b && true then opens else false)
            ≡ (b && text_eq (derive pin vault.salt iterations) key)
      at true same = same_key key (derive pin vault.salt iterations) iv proof (authentic (sym same))
      at false same = refl
