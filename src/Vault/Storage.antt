-- ===== src/Vault/Storage.antt =====
-- `readRaw` and `writeRaw` of backend/static/js/lib/vault.js, by browser.
use cryptis_dchat_project.Prelude.{◌≡◌, true, false, none, some, arith}
use cryptis_dchat_project.Vault.{Browser, Content, Store, read_raw, write_raw, exists}

-- A browser in which a file handle, where there is a folder, can be written.
abbrev pub IsUsable : Browser → Type 0
IsUsable b = b.opfs ≡ true → b.writable ≡ true

-- What was written is read back, wherever it was put, whatever the storage held, if a browser with the
-- private file system can also write to it.
pub read_raw-write_raw :
    (b : Browser) (c : Content) (s : Store) → IsUsable b → read_raw b (write_raw b c s) ≡ some c
unfolding read_raw write_raw
read_raw-write_raw b c s h = ground (arith, h)

-- In a browser that has the private file system and cannot write to a file handle, a vault that is
-- written where there was no file is not found again, whatever was written: the empty file that the
-- attempt made hides the item of the local storage.
pub write_raw-not_exists :
    (b : Browser) (c : Content) (s : Store)
    → b.opfs ≡ true
    → b.writable ≡ false
    → s.file ≡ none
    → ((write_raw b c s).item ≡ some c) × (exists b (write_raw b c s) ≡ false)
unfolding exists write_raw
write_raw-not_exists b c s o w f = ground arith
