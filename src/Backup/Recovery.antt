-- ===== src/Backup/Recovery.antt =====
-- A recovery from two shares: `backupKeys` and `restoreWith` of backend/static/js/app/data.js, with what
-- realm/app.py releases.
use mathlib.Core.Option.{some-injective}
use cryptis_dchat_project.Prelude.{
  ℕ, zero, suc, ◌+◌, ◌<◌, ◌≤◌, ◌≡◌, ◌≢◌, refl, sym, ap, ◌∙◌, some, List, [], ◌∷◌, length, get_elem?,
  All, >>=-some,
}
use cryptis_dchat_project.Crypto.Shamir.{shamir_split, shamir_combine}
use cryptis_dchat_project.Crypto.Shamir.RoundTrip.{DrawsByte, shamir_combine-shamir_split}
use cryptis_dchat_project.Backup.{
  Bytes, Suite, Realm, SealedShare, RecoveryReply, done, restored, realm_auth, seal_shares,
  backup_keys, open_shares, open_bundle, restore_with, release,
}
use cryptis_dchat_project.Backup.Waiting.{recovery_lock_until-zero}

module _ (w : Suite) where
  open w use {
    public_of, ecies_seal, ecies_open, gcm_seal, gcm_open, share_json, released_json, share_of,
    open-seal, gcm_open-seal, share_of-json, share_of-released, pbkdf2,
  }

  -- What the share of a realm's place holds.
  get_elem?-seal_shares :
      (pin_key : Bytes) (drawn : ℕ → Bytes) (at i : ℕ) (realms : List Realm) (parts : List Bytes)
      (r : Realm) (s : SealedShare)
      → get_elem? realms i ≡ some r
      → get_elem? (seal_shares w pin_key drawn at realms parts) i ≡ some s
      → (part : Bytes) × (d : Bytes) × (get_elem? parts i ≡ some part)
        × (s.sealed ≡ ecies_seal r.public_key d (share_json part (realm_auth w pin_key r.index)))
  unfolding seal_shares
  get_elem?-seal_shares pin_key drawn at i [] parts r s hr hs = absurd (cc hr)
  get_elem?-seal_shares pin_key drawn at i (x ∷ realms) [] r s hr hs = absurd (cc hs)
  get_elem?-seal_shares pin_key drawn at zero (x ∷ realms) (p ∷ parts) r s hr hs =
      let x_is : x ≡ r = some-injective _ _ hr in
      let s_is = some-injective _ _ hs in
      (
        p,
        drawn at,
        refl,
        ap (λ (t : SealedShare). t.sealed) (sym s_is)
            ∙ ap
                (λ (y : Realm).
                  ecies_seal y.public_key (drawn at) (share_json p (realm_auth w pin_key y.index)))
                x_is,
      )
  get_elem?-seal_shares pin_key drawn at (suc i) (x ∷ realms) (p ∷ parts) r s hr hs =
      get_elem?-seal_shares pin_key drawn (at + 1) i realms parts r s hr hs

  -- A released share is the part of the realm's place, for the key of the client.
  release-part :
      (realm_private client part auth d drawn : Bytes) (s : SealedShare) (out : Bytes)
      → s.sealed ≡ ecies_seal (public_of realm_private) d (share_json part auth)
      → release w realm_private client drawn s ≡ some out
      → out ≡ ecies_seal client drawn (released_json part)
  unfolding release
  release-part realm_private client part auth d drawn s out sealed h =
      let (text, opens, more) = >>=-some (ecies_open realm_private s.sealed) _ h in
      let (part', is_part, same) = >>=-some (share_of text) _ more in
      let text_is = some-injective _ _ (
        sym opens
        ∙ ap (ecies_open realm_private) sealed
        ∙ open-seal realm_private d (share_json part auth)) in
      let part_is =
        some-injective _ _ (sym is_part ∙ ap share_of text_is ∙ share_of-json part auth) in
      sym (some-injective _ _ same) ∙ ap (λ q. ecies_seal client drawn (released_json q)) part_is

  open_shares-two :
      (private p q d e : Bytes) (rest : List Bytes) (parts : List Bytes)
      → open_shares w private rest ≡ some parts
      → open_shares w private (
          ecies_seal (public_of private) d (released_json p)
          ∷ ecies_seal (public_of private) e (released_json q)
          ∷ rest)
        ≡ some (p ∷ q ∷ parts)
  unfolding open_shares
  open_shares-two private p q d e rest parts h = rw (
    open-seal private d (released_json p),
    share_of-released p,
    open-seal private e (released_json q),
    share_of-released q,
    h,
  )

  open_bundle-two :
      (private ciphertext p q key bundle : Bytes) (sealed_shares all_parts : List Bytes)
      → open_shares w private sealed_shares ≡ some (p ∷ q ∷ all_parts)
      → shamir_combine (p ∷ q ∷ []) ≡ some key
      → gcm_open key ciphertext ≡ some bundle
      → open_bundle w private ciphertext sealed_shares ≡ some bundle
  unfolding open_bundle
  open_bundle-two private ciphertext p q key bundle sealed_shares all_parts opens combined plain =
      rw (opens, combined, plain)

  restore_with-done :
      (now : ℕ) (private ciphertext bundle : Bytes) (shares : List Bytes)
      (replies : List RecoveryReply)
      → open_bundle w private ciphertext shares ≡ some bundle
      → restore_with w now 0 private ciphertext (done shares) replies ≡ restored bundle
  unfolding restore_with
  restore_with-done now private ciphertext bundle shares replies opens =
      rw (recovery_lock_until-zero now, opens)

  -- Where the first two shares that a recovery answers with were released by the realms at two different
  -- places from a backup that `backup_keys` made, `restore_with` gives the backup's keys, if the browser
  -- remembers no lock, the later shares can be opened, the realms have the public keys of their private
  -- keys, there are at most 255 of them, and `random` draws bytes.
  pub restore_with-backup_keys :
      (key iv salt pin bundle private : Bytes) (random : ℕ → List ℕ) (drawn : ℕ → Bytes)
      (realms : List Realm) (i j now : ℕ) (r t : Realm) (realm_i realm_j d e first second : Bytes)
      (s u : SealedShare) (rest parts : List Bytes) (replies : List RecoveryReply)
      → DrawsByte random
      → All (λ v. v < 256) key
      → length realms ≤ 255
      → i < length realms
      → j < length realms
      → i ≢ j
      → get_elem? realms i ≡ some r
      → get_elem? realms j ≡ some t
      → r.public_key ≡ public_of realm_i
      → t.public_key ≡ public_of realm_j
      → get_elem? (backup_keys w key iv salt random drawn realms pin bundle).shares i ≡ some s
      → get_elem? (backup_keys w key iv salt random drawn realms pin bundle).shares j ≡ some u
      → release w realm_i (public_of private) d s ≡ some first
      → release w realm_j (public_of private) e u ≡ some second
      → open_shares w private rest ≡ some parts
      → restore_with w now 0 private
          (backup_keys w key iv salt random drawn realms pin bundle).ciphertext
          (done (first ∷ second ∷ rest))
          replies
        ≡ restored bundle
  unfolding backup_keys
  restore_with-backup_keys key iv salt pin bundle private random drawn realms i j now r t realm_i
        realm_j d e first second s u rest parts replies draws bytes few hi hj ne hr ht key_r key_t
        hs hu out_i out_j opens =
      let pin_key = pbkdf2 pin salt 310000 in
      let (p, dp, part_p, sealed_p) =
        get_elem?-seal_shares pin_key drawn 0 i realms (shamir_split random key (length realms)) r s
          hr hs in
      let (q, dq, part_q, sealed_q) =
        get_elem?-seal_shares pin_key drawn 0 j realms (shamir_split random key (length realms)) t u
          ht hu in
      let first_is =
        release-part realm_i (public_of private) p (realm_auth w pin_key r.index) dp d s first
          (sealed_p ∙ ap (λ k. ecies_seal k dp (share_json p (realm_auth w pin_key r.index))) key_r)
          out_i in
      let second_is =
        release-part realm_j (public_of private) q (realm_auth w pin_key t.index) dq e u second
          (sealed_q ∙ ap (λ k. ecies_seal k dq (share_json q (realm_auth w pin_key t.index))) key_t)
          out_j in
      let combined =
        shamir_combine-shamir_split random draws key (length realms) i j p q bytes few hi hj ne
          part_p part_q in
      restore_with-done now private (gcm_seal key iv bundle) bundle (first ∷ second ∷ rest) replies
        (open_bundle-two private (gcm_seal key iv bundle) p q key bundle (first ∷ second ∷ rest)
          parts
          (ap (λ (f : Bytes). open_shares w private (f ∷ second ∷ rest)) first_is
            ∙ ap
                (λ (g : Bytes).
                  open_shares w private
                    (ecies_seal (public_of private) d (released_json p) ∷ g ∷ rest))
                second_is
            ∙ open_shares-two private p q d e rest parts opens)
          combined (gcm_open-seal key iv bundle))
