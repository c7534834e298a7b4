-- ===== src/Vault/RoundTrip.antt =====
-- The writing operations of backend/static/js/lib/vault.js, each before `unlock` or `exists`.
use cryptis_dchat_project.Prelude.{
  ℕ, ◌≡◌, refl, ap, ◌∙◌, Bool, true, false, none, some, arith, if◌then◌else◌,
}
use cryptis_dchat_project.Vault.{
  Bytes, Browser, Cipher, Content, Store, Vault, ok, Result, read_raw, locked_until_at, iterations,
  create, unlock, try_pin, opened, save, fire, change_pin, lock, wipe, is_unlocked, encrypt_state,
  exists, write_raw,
}
use cryptis_dchat_project.Vault.Storage.{IsUsable, read_raw-write_raw}

meta-write_raw : (b : Browser) (t : Content) (s : Store) → (write_raw b t s).meta ≡ s.meta
unfolding write_raw
meta-write_raw b t s = ground arith

module _ (c : Cipher) where
  open c use {State, derive, encrypt, of_json-to_json, decrypt-encrypt, to_json}

  -- The stored text is that of a state under a key.
  abbrev Stores : Browser → Vault c → Bytes → Bytes → Bytes → State → Type 0
  Stores b v key salt iv st = read_raw b v.store ≡ some (encrypt_state c key salt iv st)

  -- The vault is open under the key of the PIN, with the count of failures cleared.
  abbrev pub Opens : Bytes → Bytes → State → Vault c × Result State → Type 0
  Opens pin salt st r =
      (r.1 ≡ ok st)
      × (r.0.key ≡ some (derive pin salt iterations))
      × (r.0.salt ≡ salt)
      × (r.0.store.meta.failed ≡ 0)
      × (r.0.store.meta.locked_until ≡ 0)

  opened_right :
      (now : ℕ) (pin salt : Bytes) (st : State) (v : Vault c)
      → Opens pin salt st (opened c now (derive pin salt iterations) salt (to_json st) v)
  unfolding opened
  opened_right now pin salt st v = rw (of_json-to_json st, opened) (refl, refl, refl, refl, refl)

  try_pin_right :
      (now : ℕ) (pin salt iv : Bytes) (st : State) (v : Vault c)
      → Opens pin salt st (
          try_pin c now pin
            (record {
              salt = salt;
              iv = iv;
              ct = encrypt (derive pin salt iterations) iv (to_json st);
            })
            v)
  unfolding try_pin
  try_pin_right now pin salt iv st v =
      rw (decrypt-encrypt (derive pin salt iterations) iv (to_json st), try_pin)
        (opened_right now pin salt st v)

  unlock_stored :
      (b : Browser) (start now : ℕ) (pin salt iv : Bytes) (st : State) (v : Vault c)
      → locked_until_at start v.store.meta ≡ 0
      → Stores b v (derive pin salt iterations) salt iv st
      → Opens pin salt st (unlock c b start now pin v)
  unfolding unlock encrypt_state
  unlock_stored b start now pin salt iv st v free h =
      rw (free, h, unlock) (try_pin_right now pin salt iv st v)

  -- After `create`, the PIN opens the vault and gives the state, at every later time and whatever was
  -- stored before, in a browser whose storage can be written.
  pub unlock-create :
      (b : Browser) (start now : ℕ) (pin salt iv : Bytes) (st : State) (v : Vault c)
      → IsUsable b
      → Opens pin salt st (unlock c b start now pin (lock c (create c b pin salt iv st v)))
  unfolding read_raw
  unlock-create b start now pin salt iv st v usable =
      unlock_stored b start now pin salt iv st (lock c (create c b pin salt iv st v))
        (unfold lock create in unfold locked_until_at in ground arith)
        (unfold lock create in
          read_raw-write_raw b (encrypt_state c (derive pin salt iterations) salt iv st) v.store
            usable)

  -- After `change_pin` the new PIN opens the vault, if no lock is running and the storage can be
  -- written.
  pub unlock-change_pin :
      (b : Browser) (start now : ℕ) (pin salt iv : Bytes) (st : State) (v : Vault c)
      → IsUsable b
      → locked_until_at start v.store.meta ≡ 0
      → Opens pin salt st (unlock c b start now pin (lock c (change_pin c b pin salt iv st v)))
  unfolding read_raw
  unlock-change_pin b start now pin salt iv st v usable free =
      unlock_stored b start now pin salt iv st (lock c (change_pin c b pin salt iv st v))
        (unfold lock change_pin in rw meta-write_raw free)
        (unfold lock change_pin in
          read_raw-write_raw b (encrypt_state c (derive pin salt iterations) salt iv st) v.store
            usable)

  abbrev saved : Browser → Bytes → Bytes → State → Bool → Vault c → Vault c
  saved b iv iv' st immediate v = fire c b iv' (save c b iv st immediate v)

  saved_open :
      (b : Browser) (iv iv' k : Bytes) (st : State) (immediate : Bool) (v : Vault c)
      → (saved b iv iv' st immediate (record v { key = some k })).store
        ≡ write_raw b (encrypt_state c k v.salt (if immediate then iv else iv') st) v.store
  unfolding save fire
  saved_open b iv iv' k st true v = refl
  saved_open b iv iv' k st false v = refl

  store-saved :
      (b : Browser) (iv iv' k : Bytes) (st : State) (immediate : Bool) (v : Vault c)
      → v.key ≡ some k
      → (saved b iv iv' st immediate v).store
        ≡ write_raw b (encrypt_state c k v.salt (if immediate then iv else iv') st) v.store
  store-saved b iv iv' k st immediate v unlocked =
      let same : v ≡ record v { key = some k } = λ i. record v { key = unlocked i } in
      ap (λ w. (saved b iv iv' st immediate w).store) same ∙ saved_open b iv iv' k st immediate v

  -- A save whose timer has fired, or an immediate one, is what the PIN of the open vault gives after a
  -- lock, if no lock for wrong PINs is running and the storage can be written.
  pub unlock-save :
      (b : Browser) (start now : ℕ) (pin iv iv' : Bytes) (st : State) (immediate : Bool)
      (v : Vault c)
      → IsUsable b
      → locked_until_at start v.store.meta ≡ 0
      → v.key ≡ some (derive pin v.salt iterations)
      → Opens pin v.salt st (unlock c b start now pin (lock c (saved b iv iv' st immediate v)))
  unlock-save b start now pin iv iv' st immediate v usable free unlocked =
      let stored = store-saved b iv iv' (derive pin v.salt iterations) st immediate v unlocked in
      unlock_stored b start now pin v.salt (if immediate then iv else iv') st
        (lock c (saved b iv iv' st immediate v))
        (ap (λ s. locked_until_at start s.meta)
            (store-lock (saved b iv iv' st immediate v) ∙ stored)
          ∙ ap (locked_until_at start) (meta-write_raw b _ v.store)
          ∙ free)
        (ap (read_raw b) (store-lock (saved b iv iv' st immediate v) ∙ stored)
          ∙ read_raw-write_raw b _ v.store usable)
    where
      store-lock : (w : Vault c) → (lock c w).store ≡ w.store
      store-lock w = unfold lock in refl

  -- A locked vault writes nothing, neither by a save nor by a timer that was set before the lock.
  pub save-lock :
      (b : Browser) (iv iv' : Bytes) (st : State) (immediate : Bool) (v : Vault c)
      → (save c b iv st immediate (lock c v) ≡ lock c v)
        × (fire c b iv' (lock c v) ≡ lock c v)
        × (is_unlocked c (lock c v) ≡ false)
  unfolding save fire lock is_unlocked
  save-lock b iv iv' st immediate v = (refl, refl, refl)

  -- A wiped vault is not found, if a browser without the private file system holds no file.
  pub wipe-not_exists :
      (b : Browser) (v : Vault c)
      → (b.opfs ≡ false → v.store.file ≡ none)
      → exists b (wipe c b v).store ≡ false
  unfolding wipe exists
  wipe-not_exists b v h = ground arith
