-- ===== src/Examples/Backup.antt =====
-- The theorems on a recovery at concrete keys.
use cryptis_dchat_project.Prelude.{
  ℕ, ◌≡◌, refl, ap, Option, none, some, List, [], ◌∷◌, ◌++◌, arith, length, take, drop,
  take-length_append, drop-length_append, get_elem?,
}
use cryptis_dchat_project.Crypto.Gf.{gf_mul}
use cryptis_dchat_project.Crypto.Shamir.{shamir_split}
use cryptis_dchat_project.Examples.Crypto.{sevens, draws_sevens, secret}
use cryptis_dchat_project.Backup.{
  Bytes, Suite, Realm, SealedShare, done, restored, realm_auth, seal_shares, backup_keys,
  open_shares, restore_with, release,
}
use cryptis_dchat_project.Backup.Recovery.{restore_with-backup_keys}

abbrev measured : Bytes → Option Bytes
measured [] = none
measured (n ∷ text) = some (take n text)

abbrev suite : Suite
suite = record {
  pbkdf2 = λ pin salt iterations. pin;
  hmac = λ key text. key;
  realm_label = λ i. i ∷ [];
  public_of = λ k. k;
  ecies_seal = λ public drawn plain. public ++ plain;
  ecies_open = λ private sealed. some (drop (length private) sealed);
  gcm_seal = λ key iv plain. key ++ plain;
  gcm_open = λ key blob. some (drop (length key) blob);
  share_json = λ share auth. length share ∷ (share ++ auth);
  released_json = λ share. length share ∷ (share ++ []);
  share_of = measured;
  open-seal = λ k drawn plain. ap some (drop-length_append k plain);
  gcm_open-seal = λ key iv plain. ap some (drop-length_append key plain);
  share_of-json = λ share auth. ap some (take-length_append share auth);
  share_of-released = λ share. ap some (take-length_append share []);
}

abbrev realm_at : ℕ → Realm
realm_at i = record { index = i; public_key = 100 ∷ i ∷ [] }

abbrev realms : List Realm
realms = realm_at 1 ∷ realm_at 2 ∷ realm_at 3 ∷ []

abbrev pin : Bytes
pin = 4 ∷ 8 ∷ []

abbrev shared : ℕ → Bytes → SealedShare
shared i part = record { realm_index = i; sealed = 100 ∷ i ∷ length part ∷ (part ++ pin) }

abbrev part_two : Bytes
part_two = 2 ∷ 79 ∷ 241 ∷ []

abbrev part_three : Bytes
part_three = 3 ∷ 72 ∷ 246 ∷ []

second_sealed :
    get_elem? (backup_keys suite secret [] [] sevens (λ n. []) realms pin (5 ∷ [])).shares 1
    ≡ some (shared 2 part_two)
unfolding backup_keys seal_shares realm_auth shamir_split gf_mul
second_sealed = refl

third_sealed :
    get_elem? (backup_keys suite secret [] [] sevens (λ n. []) realms pin (5 ∷ [])).shares 2
    ≡ some (shared 3 part_three)
unfolding backup_keys seal_shares realm_auth shamir_split gf_mul
third_sealed = refl

second_released :
    release suite (100 ∷ 2 ∷ []) (9 ∷ []) [] (shared 2 part_two) ≡ some (9 ∷ 3 ∷ part_two)
unfolding release
second_released = refl

third_released :
    release suite (100 ∷ 3 ∷ []) (9 ∷ []) [] (shared 3 part_three) ≡ some (9 ∷ 3 ∷ part_three)
unfolding release
third_released = refl

nothing_more : open_shares suite (9 ∷ []) [] ≡ some []
unfolding open_shares
nothing_more = refl

restore_with-backup_keys_example :
    restore_with suite 1000 0
      (9 ∷ [])
      (backup_keys suite secret [] [] sevens (λ n. []) realms pin (5 ∷ [])).ciphertext
      (done ((9 ∷ 3 ∷ part_two) ∷ (9 ∷ 3 ∷ part_three) ∷ []))
      []
    ≡ restored (5 ∷ [])
restore_with-backup_keys_example =
    restore_with-backup_keys suite secret [] [] pin (5 ∷ []) (9 ∷ []) sevens (λ n. []) realms 1 2
      1000 (realm_at 2) (realm_at 3) (100 ∷ 2 ∷ []) (100 ∷ 3 ∷ []) [] [] (9 ∷ 3 ∷ part_two)
      (9 ∷ 3 ∷ part_three) (shared 2 part_two) (shared 3 part_three) [] [] [] draws_sevens
      (omega arith, (omega arith, tt)) (omega arith) (omega arith) (omega arith) (λ e. omega arith)
      refl refl refl refl second_sealed third_sealed second_released third_released nothing_more
