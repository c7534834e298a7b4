-- ===== src/Examples/Vault.antt =====
-- The theorems on backend/static/js/lib/vault.js at a concrete vault.
use cryptis_dchat_project.Prelude.{
  ℕ, ◌≡◌, ◌≤◌, ◌+◌, ◌-◌, ◌*◌, ◌/◌, refl, ◌==◌, if◌then◌else◌, true, false, Option, none, some, List,
  [], ◌∷◌, ◌++◌, ap, drop, replicate, arith,
}
use cryptis_dchat_project.Vault.{
  Bytes, Browser, Cipher, Box, json, Store, Vault, no_meta, read_raw, lock_ms, truthy,
}
use cryptis_dchat_project.Vault.Verifier.{
  is_pin, create_pin_verifier, verify_pin, verify_pin-create_pin_verifier,
}
use cryptis_dchat_project.Vault.Lockout.{Attempt, tried, tried-le}

abbrev sum : Bytes → ℕ
sum [] = 0
sum (b ∷ bs) = b + sum bs

abbrev untag : ℕ → Bytes → Option Bytes
untag key [] = none
untag key (tag ∷ plain) = if tag == key then some plain else none

untag_same : (key : ℕ) (plain : Bytes) → untag key (key ∷ plain) ≡ some plain
untag_same key plain = ground arith

-- A cipher that puts a sum of the key before the bytes.
abbrev tagging : Cipher
tagging = record {
  State = Bytes;
  user_id = λ s. none;
  derive = λ pin salt n. pin;
  encrypt = λ key iv plain. sum key ∷ plain;
  decrypt = λ key iv ct. untag (sum key) ct;
  to_json = λ s. s;
  of_json = some;
  decrypt-encrypt = λ key iv plain. untag_same (sum key) plain;
  of_json-to_json = λ s. refl;
}

abbrev chrome : Browser
chrome = record { opfs = true; writable = true }

abbrev old_safari : Browser
old_safari = record { opfs = true; writable = false }

abbrev pin : Bytes
pin = 1 ∷ 2 ∷ 3 ∷ 4 ∷ []

abbrev fresh : Store
fresh = record { file = none; item = none; meta = no_meta }

abbrev new_vault : Vault tagging
new_vault = record { key = none; salt = []; pending = none; timer = false; store = fresh }

abbrev open_vault : Vault tagging
open_vault = record { key = some pin; salt = 9 ∷ []; pending = none; timer = false; store = fresh }

abbrev box : Box
box = record { salt = 9 ∷ []; iv = []; ct = 10 ∷ 7 ∷ [] }

abbrev stored_vault : Vault tagging
stored_vault = record {
  key = none;
  salt = [];
  pending = none;
  timer = false;
  store = record { file = some (json box); item = none; meta = no_meta };
}

abbrev attempts : List Attempt
attempts =
    record { start = 100; now = 200; pin = 5 ∷ [] }
    ∷ record { start = 300; now = 400; pin = 6 ∷ [] }
    ∷ []

stored : truthy (read_raw chrome stored_vault.store) ≡ some box
stored = unfold truthy read_raw in refl

tried-le_example : tried tagging chrome box attempts stored_vault ≤ 10 * ((500 - 50) / lock_ms) + 10
tried-le_example =
    tried-le tagging chrome box 50 500 attempts stored_vault stored (refl, (refl, tt))
      (omega arith, omega arith, (omega arith, omega arith, omega arith)) refl refl

abbrev locked_vault : Vault tagging
locked_vault = record stored_vault {
  store = record {
    file = some (json box);
    item = none;
    meta = record { user_id = none; failed = 10; locked_until = 900000 };
  };
}

-- A PIN as a number, sealed before fifteen zeros and the bytes.
abbrev pin_number : ℕ → Bytes → ℕ
pin_number n [] = n
pin_number n (c ∷ cs) = pin_number (10 * n + c) cs

abbrev unpad : Option Bytes → Option Bytes
unpad none = none
unpad (some b) = some (drop 15 b)

abbrev padding : Cipher
padding = record {
  State = Bytes;
  user_id = λ s. none;
  derive = λ pin salt n. pin_number 0 pin ∷ [];
  encrypt = λ key iv plain. sum key ∷ (replicate 15 0 ++ plain);
  decrypt = λ key iv ct. unpad (untag (sum key) ct);
  to_json = λ s. s;
  of_json = some;
  decrypt-encrypt = λ key iv plain. ap unpad (untag_same (sum key) (replicate 15 0 ++ plain));
  of_json-to_json = λ s. refl;
}

abbrev pin_1234 : Bytes
pin_1234 = 49 ∷ 50 ∷ 51 ∷ 52 ∷ []

abbrev pin_1235 : Bytes
pin_1235 = 49 ∷ 50 ∷ 51 ∷ 53 ∷ []

abbrev salt_16 : Bytes
salt_16 = replicate 16 0

abbrev proof_32 : Bytes
proof_32 = replicate 32 7

abbrev padded_vault : Vault padding
padded_vault = record {
  key = some (pin_number 0 pin_1234 ∷ []);
  salt = salt_16;
  pending = none;
  timer = false;
  store = record { file = none; item = none; meta = no_meta };
}

verify_pin-create_pin_verifier_example :
    verify_pin padding pin_1235 (create_pin_verifier padding (replicate 12 0) proof_32 padded_vault)
    ≡ false
unfolding is_pin
verify_pin-create_pin_verifier_example =
    verify_pin-create_pin_verifier padding padded_vault (pin_number 0 pin_1234 ∷ [])
      (replicate 12 0) proof_32 pin_1235 refl refl refl refl (λ p k. refl)
