-- ===== src/Vault.antt =====
-- The PIN vault of backend/static/js/lib/vault.js: a file or an item of the local storage, encrypted
-- under a key derived from the PIN, and the count of wrong PINs beside it.
pub mod Storage
pub mod Lockout
pub mod RoundTrip
pub mod Verifier
use cryptis_dchat_project.Prelude.{
  ℕ, zero, suc, ◌+◌, ◌-◌, ◌*◌, ◌≡◌, ltb, leb, ◌==◌, if◌then◌else◌, Bool, true, false, not, ◌&&◌,
  ◌||◌, Option, none, some, List, [], ◌∷◌, length, all, String,
}

abbrev pub Bytes : Type 0
Bytes = List ℕ

abbrev pub iterations : ℕ
iterations = 310000

abbrev pub max_local_attempts : ℕ
max_local_attempts = 10

-- Milliseconds.
abbrev pub lock_ms : ℕ
lock_ms = 15 * 60 * 1000

-- Web Crypto and `JSON` as the vault uses them: PBKDF2, AES-256-GCM, and a state as bytes of JSON.
pub record Cipher : Type 1 where
  pub State : Type 0
  pub user_id : State → Option String
  pub derive : Bytes → Bytes → ℕ → Bytes
  pub encrypt : (key iv plain : Bytes) → Bytes
  pub decrypt : (key iv ct : Bytes) → Option Bytes
  pub to_json : State → Bytes
  pub of_json : Bytes → Option State
  -- What was encrypted under a key is decrypted under it, and a state is read back from its JSON.
  pub decrypt-encrypt : (key iv plain : Bytes) → decrypt key iv (encrypt key iv plain) ≡ some plain
  pub of_json-to_json : (s : State) → of_json (to_json s) ≡ some s

-- The JSON that is stored, with its texts of base64 as the bytes that they stand for.
pub record Box : Type 0 where
  pub salt : Bytes
  pub iv : Bytes
  pub ct : Bytes

-- A stored text: the empty one, or the JSON of a box.
pub data Content : Type 0 where
  empty : Content
  json : Box → Content

-- What the browser has: `opfs` that `navigator.storage.getDirectory` gives a folder, `writable` that
-- a file handle has `createWritable`.
pub record Browser : Type 0 where
  pub opfs : Bool
  pub writable : Bool

-- `cx_vault_meta`; a missing count or time is 0.
pub record Meta : Type 0 where
  pub user_id : Option String
  pub failed : ℕ
  pub locked_until : ℕ

-- The file, the item `cx_vault`, and the item `cx_vault_meta`.
pub record Store : Type 0 where
  pub file : Option Content
  pub item : Option Content
  pub meta : Meta

abbrev pub no_meta : Meta
no_meta = record { user_id = none; failed = 0; locked_until = 0 }

unfoldable pub read_raw : Browser → Store → Option Content
read_raw b s = if b.opfs then elim s.file [ none ↦ s.item | some c ↦ some c ] else s.item

-- `getFileHandle(FILE, { create: true })` makes an empty file where there is none, also when
-- `createWritable` then fails.
unfoldable pub created : Option Content → Content
created none = empty
created (some c) = c

unfoldable pub write_raw : Browser → Content → Store → Store
unfolding created
write_raw b c s =
    if b.opfs
    then (if b.writable
        then record s { file = some c }
        else record s { file = some (created s.file); item = some c })
    else record s { item = some c }

-- `!!(await readRaw())`: an empty text counts as no vault.
unfoldable pub truthy : Option Content → Option Box
truthy none = none
truthy (some empty) = none
truthy (some (json box)) = some box

unfoldable pub is_some : {A : Type 0} → Option A → Bool
is_some none = false
is_some (some a) = true

unfoldable pub exists : Browser → Store → Bool
unfolding read_raw truthy is_some
exists b s = is_some (truthy (read_raw b s))

-- `attemptsLeft` and `lockedUntil` at a time.
unfoldable pub attempts_left : ℕ → Meta → ℕ
attempts_left now m =
    if not (m.locked_until == 0) && leb m.locked_until now
    then max_local_attempts
    else max_local_attempts - m.failed

unfoldable pub locked_until_at : ℕ → Meta → ℕ
locked_until_at now m = if ltb now m.locked_until then m.locked_until else 0

pub data VaultError : Type 0 where
  locked no_vault wrong_pin vault_locked : VaultError

pub data Result {ℓ} (A : Type ℓ) : Type ℓ where
  ok : A → Result A
  err : VaultError → Result A

-- The count after a wrong PIN at a time: a lock that is over clears it first.
unfoldable pub count_failure : ℕ → Meta → Meta × VaultError
count_failure now m =
    let before = if not (m.locked_until == 0) && leb m.locked_until now then 0 else m.failed in
    if leb max_local_attempts (before + 1)
    then (record m { failed = before + 1; locked_until = now + lock_ms }, locked)
    else (record m { failed = before + 1; locked_until = 0 }, wrong_pin)

module _ (c : Cipher) where
  open c use {State, derive, encrypt, decrypt, to_json, of_json}

  -- The module's variables and the storage. `key` and `salt` are there while it is unlocked.
  pub record Vault : Type 0 where
    pub key : Option Bytes
    pub salt : Bytes
    pub pending : Option State
    pub timer : Bool
    pub store : Store

  abbrev with_meta : Vault → Meta → Vault
  with_meta v m = record v { store = record v.store { meta = m } }

  unfoldable pub encrypt_state : Bytes → Bytes → Bytes → State → Content
  encrypt_state key salt iv st =
      json (record { salt = salt; iv = iv; ct = encrypt key iv (to_json st) })

  -- `create(pin, state)`; `salt` and `iv` are the bytes drawn.
  unfoldable pub create : Browser → Bytes → Bytes → Bytes → State → Vault → Vault
  unfolding encrypt_state write_raw
  create b pin salt iv st v =
      let k = derive pin salt iterations in
      let stored = write_raw b (encrypt_state k salt iv st) v.store in
      record v {
        key = some k;
        salt = salt;
        store = record stored {
          meta = record { user_id = c.user_id st; failed = 0; locked_until = 0 };
        };
      }

  -- The `catch` of `unlock`, at its time.
  unfoldable pub fail_unlock : ℕ → Vault → Vault × Result State
  unfolding count_failure
  fail_unlock now v = let (m, e) = count_failure now v.store.meta in (with_meta v m, err e)

  -- After a decryption that succeeded; a text that is no JSON is caught too.
  unfoldable pub opened : ℕ → Bytes → Bytes → Bytes → Vault → Vault × Result State
  unfolding fail_unlock
  opened now k salt plain v =
      let v' =
        with_meta (record v { key = some k; salt = salt })
          (record v.store.meta { failed = 0; locked_until = 0 }) in
      elim (of_json plain) [ none ↦ fail_unlock now v' | some st ↦ (v', ok st) ]

  unfoldable pub try_pin : ℕ → Bytes → Box → Vault → Vault × Result State
  unfolding opened
  try_pin now pin box v =
      let k = derive pin box.salt iterations in
      elim (decrypt k box.iv box.ct) [
        | none ↦ fail_unlock now v
        | some plain ↦ opened now k box.salt plain v
      ]

  -- `unlock(pin)`, called at `start`; the PIN is judged at `now`, after the key derivation.
  unfoldable pub unlock : Browser → ℕ → ℕ → Bytes → Vault → Vault × Result State
  unfolding locked_until_at read_raw truthy try_pin
  unlock b start now pin v =
      if locked_until_at start v.store.meta == 0
      then elim (truthy (read_raw b v.store)) [
        | none ↦ (v, err no_vault)
        | some box ↦ try_pin now pin box v
      ]
      else (v, err locked)

  -- The write of a save; `iv` is drawn then.
  unfoldable pub run_save : Browser → Bytes → Vault → Vault
  unfolding encrypt_state write_raw
  run_save b iv v =
      let cleared = record v { pending = none } in
      elim v.pending [
        | none ↦ cleared
        | some st ↦ elim v.key [
          | none ↦ cleared
          | some k ↦ record cleared { store = write_raw b (encrypt_state k v.salt iv st) v.store }
        ]
      ]

  unfoldable pub save : Browser → Bytes → State → Bool → Vault → Vault
  unfolding run_save
  save b iv st immediate v = elim v.key [
    | none ↦ v
    | some k ↦
        let waiting = record v { pending = some st; timer = false } in
        if immediate then run_save b iv waiting else record waiting { timer = true }
  ]

  -- The timer of a save fires.
  unfoldable pub fire : Browser → Bytes → Vault → Vault
  unfolding run_save
  fire b iv v = if v.timer then run_save b iv (record v { timer = false }) else v

  unfoldable pub change_pin : Browser → Bytes → Bytes → Bytes → State → Vault → Vault
  unfolding encrypt_state write_raw
  change_pin b pin salt iv st v =
      let k = derive pin salt iterations in
      record v {
        key = some k;
        salt = salt;
        store = write_raw b (encrypt_state k salt iv st) v.store;
      }

  unfoldable pub lock : Vault → Vault
  lock v = record v { key = none; salt = []; pending = none; timer = false }

  -- `removeEntry` and `removeItem`.
  unfoldable pub wipe : Browser → Vault → Vault
  unfolding lock
  wipe b v = record (lock v) {
    store = record { file = if b.opfs then none else v.store.file; item = none; meta = no_meta };
  }

  unfoldable pub is_unlocked : Vault → Bool
  unfolding is_some
  is_unlocked v = is_some v.key
