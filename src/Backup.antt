-- ===== src/Backup.antt =====
-- The backup of a device's keys on the realm services, and the recovery: `backupKeys` and `restoreWith` of
-- backend/static/js/app/data.js. Keys and texts are bytes.
pub mod Recovery
pub mod Waiting
use mathlib.Core.Option
use cryptis_dchat_project.Prelude.{
  ℕ, zero, suc, ◌+◌, ◌*◌, ltb, leb, ◌==◌, if◌then◌else◌, Bool, true, false, Option, none, some,
  List, [], ◌∷◌, length, take, ◌≡◌, ◌>>=◌,
}
use cryptis_dchat_project.Crypto.Shamir.{shamir_split, shamir_combine}

abbrev pub Bytes : Type 0
Bytes = List ℕ

abbrev pub pbkdf2_iterations : ℕ
pbkdf2_iterations = 310000

-- Web Crypto and `JSON`: `realm_label` is the text `realm-auth:` with a number; the payload of a share
-- and what a realm sends are read back; what is sealed is opened by the private key, and by the same key.
pub record Suite : Type 0 where
  pub pbkdf2 : (pin salt : Bytes) (iterations : ℕ) → Bytes
  pub hmac : (key text : Bytes) → Bytes
  pub realm_label : ℕ → Bytes
  pub public_of : Bytes → Bytes
  pub ecies_seal : (public drawn plain : Bytes) → Bytes
  pub ecies_open : (private sealed : Bytes) → Option Bytes
  pub gcm_seal : (key iv plain : Bytes) → Bytes
  pub gcm_open : (key blob : Bytes) → Option Bytes
  pub share_json : (share auth : Bytes) → Bytes
  pub released_json : (share : Bytes) → Bytes
  pub share_of : Bytes → Option Bytes
  pub open-seal :
      (k drawn plain : Bytes) → ecies_open k (ecies_seal (public_of k) drawn plain) ≡ some plain
  pub gcm_open-seal : (key iv plain : Bytes) → gcm_open key (gcm_seal key iv plain) ≡ some plain
  pub share_of-json : (share auth : Bytes) → share_of (share_json share auth) ≡ some share
  pub share_of-released : (share : Bytes) → share_of (released_json share) ≡ some share

pub record Realm : Type 0 where
  pub index : ℕ
  pub public_key : Bytes

pub record SealedShare : Type 0 where
  pub realm_index : ℕ
  pub sealed : Bytes

-- The body of `POST /api/keys/backup`.
pub record Backup : Type 0 where
  pub ciphertext : Bytes
  pub kdf_salt : Bytes
  pub kdf_iterations : ℕ
  pub threshold : ℕ
  pub shares : List SealedShare

-- What the requests for a recovery are answered with; `retry_after` and `until` are seconds.
pub data RecoveryReply : Type 0 where
  waiting : RecoveryReply
  wrong_pin : (attempts_left : ℕ) → RecoveryReply
  locked : (until : ℕ) → RecoveryReply
  destroyed unavailable : RecoveryReply
  done : (sealed_shares : List Bytes) → RecoveryReply

-- How a recovery ends: a gate, a thrown error, or the keys, under a new vault.
pub data Outcome : Type 0 where
  ask_again : (attempts_left : ℕ) → Outcome
  locked_until : ℕ → Outcome
  reset : Outcome
  try_later : Outcome
  threw : Outcome
  restored : (bundle : Bytes) → Outcome

-- `for (let i = 0; i < 90 && res.status === 'pending'; i++)`, with the replies that the polls get.
unfoldable pub poll : ℕ → RecoveryReply → List RecoveryReply → RecoveryReply
poll zero res replies = res
poll (suc left) waiting [] = waiting
poll (suc left) waiting (r ∷ replies) = poll left r replies
poll (suc left) (wrong_pin n) replies = wrong_pin n
poll (suc left) (locked t) replies = locked t
poll (suc left) destroyed replies = destroyed
poll (suc left) unavailable replies = unavailable
poll (suc left) (done shares) replies = done shares

unfoldable pub recovery_lock_until : ℕ → ℕ → ℕ
recovery_lock_until now stored = if leb stored now then 0 else stored

abbrev pub max_polls : ℕ
max_polls = 90

module _ (w : Suite) where
  open w use {
    pbkdf2, hmac, realm_label, public_of, ecies_seal, ecies_open, gcm_seal, gcm_open, share_json,
    released_json, share_of,
  }

  unfoldable pub realm_auth : Bytes → ℕ → Bytes
  realm_auth pin_key index = hmac pin_key (realm_label index)

  -- The loop over the realms; `drawn i` is what the seal of a share draws. There are as many parts as realms.
  unfoldable pub seal_shares : Bytes → (ℕ → Bytes) → ℕ → List Realm → List Bytes → List SealedShare
  unfolding realm_auth
  seal_shares pin_key drawn i [] parts = []
  seal_shares pin_key drawn i (r ∷ realms) [] = []
  seal_shares pin_key drawn i (r ∷ realms) (part ∷ parts) =
      record {
        realm_index = r.index;
        sealed = ecies_seal r.public_key (drawn i) (share_json part (realm_auth pin_key r.index));
      }
      ∷ seal_shares pin_key drawn (i + 1) realms parts

  -- `backupKeys`; `key`, `iv`, `salt` and `random` are drawn.
  unfoldable pub backup_keys :
      Bytes → Bytes → Bytes → (ℕ → List ℕ) → (ℕ → Bytes) → List Realm → Bytes → Bytes → Backup
  unfolding seal_shares
  backup_keys key iv salt random drawn realms pin bundle = record {
    ciphertext = gcm_seal key iv bundle;
    kdf_salt = salt;
    kdf_iterations = pbkdf2_iterations;
    threshold = 2;
    shares =
        seal_shares (pbkdf2 pin salt pbkdf2_iterations) drawn 0 realms
          (shamir_split random key (length realms));
  }

  -- `for (const s of res.shares)`; `none` is a thrown error.
  unfoldable pub open_shares : Bytes → List Bytes → Option (List Bytes)
  open_shares private [] = some []
  open_shares private (s ∷ shares) = do
    text ← ecies_open private s
    part ← share_of text
    parts ← open_shares private shares
    some (part ∷ parts)

  -- The end of `restoreWith`.
  unfoldable pub open_bundle : Bytes → Bytes → List Bytes → Option Bytes
  unfolding open_shares
  open_bundle private ciphertext shares = do
    parts ← open_shares private shares
    key ← shamir_combine (take 2 parts)
    gcm_open key ciphertext

  unfoldable pub finish_restore : Option Bytes → Outcome
  finish_restore none = threw
  finish_restore (some bundle) = restored bundle

  unfoldable pub take_result : Bytes → Bytes → RecoveryReply → Outcome
  unfolding open_bundle finish_restore
  take_result private ciphertext waiting = try_later
  take_result private ciphertext (wrong_pin n) = ask_again n
  take_result private ciphertext (locked until) = locked_until (until * 1000)
  take_result private ciphertext destroyed = reset
  take_result private ciphertext unavailable = try_later
  take_result private ciphertext (done shares) =
      finish_restore (open_bundle private ciphertext shares)

  -- `restoreWith` at a time in milliseconds, with the number that the local storage has, 0 for none.
  unfoldable pub restore_with : ℕ → ℕ → Bytes → Bytes → RecoveryReply → List RecoveryReply → Outcome
  unfolding poll take_result recovery_lock_until
  restore_with now stored private ciphertext first replies =
      if ltb 0 (recovery_lock_until now stored)
      then locked_until (recovery_lock_until now stored)
      else take_result private ciphertext (poll max_polls first replies)

  -- What a realm makes of a share when the passcode was right: the share again, for the key of the request.
  unfoldable pub release : Bytes → Bytes → Bytes → SealedShare → Option Bytes
  release realm_private client_public drawn s = do
    text ← ecies_open realm_private s.sealed
    part ← share_of text
    some (ecies_seal client_public drawn (released_json part))
