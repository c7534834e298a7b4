-- ===== src/ChatKeys/Sending.antt =====
-- The key that a message is sent with: `sendKeyNow` of backend/static/js/app/data.js.
use cryptis_dchat_project.Prelude.{
  ℕ, ◌+◌, ◌≡◌, ◌≢◌, refl, ap, ◌∙◌, ◌==◌, if-holds, true, false, Option, none, some, List, arith,
}
use cryptis_dchat_project.TreeKem.{Bytes, Ecies, lookup}
use cryptis_dchat_project.TreeKem.Maps.{lookup-insert}
use cryptis_dchat_project.ChatKeys.{
  Member, PostReply, accepted, stale_epoch, refused, Round, Outcome, with_key, stale, failed,
  no_conversation_key, created, conv_key, send_epoch, attempt, again, send_key_now,
}

-- What was returned is the member's key of its epoch, which is one from 1 on.
abbrev pub IsKept : Member × Outcome → Type 0
IsKept (m, with_key epoch key) =
    (m.key_epoch ≡ epoch) × (epoch ≢ 0) × (lookup epoch m.conv_keys ≡ some key)
IsKept (m, stale) = Unit
IsKept (m, failed) = Unit
IsKept (m, no_conversation_key) = Unit

created-IsKept :
    (key : Bytes) (epoch : ℕ) (p : PostReply) (m : Member)
    → epoch ≢ 0
    → IsKept (created key epoch p m)
unfolding created
created-IsKept key epoch accepted m ne = (refl, ne, lookup-insert epoch key m.conv_keys)
created-IsKept key epoch stale_epoch m ne = tt
created-IsKept key epoch refused m ne = tt

module _ (e : Ecies) where
  conv_key-key_epoch :
      (epoch : ℕ) (listed : List (ℕ × Bytes)) (m : Member)
      → (conv_key e epoch listed m).key_epoch ≡ m.key_epoch
  unfolding conv_key
  conv_key-key_epoch epoch listed m = ground arith

  send_epoch-IsKept :
      (epoch : ℕ) (r : Round) (m : Member) (o : Option Bytes)
      → m.key_epoch ≡ epoch
      → epoch ≢ 0
      → lookup epoch m.conv_keys ≡ o
      → IsKept (send_epoch e epoch r m o)
  unfolding send_epoch
  send_epoch-IsKept epoch r m (some key) at ne has = (at, ne, has)
  send_epoch-IsKept epoch r m none at ne has =
      created-IsKept r.key (epoch + 1) r.posted m (ground arith)

  attempt-IsKept : (r : Round) (m : Member) → IsKept (attempt e r m)
  unfolding attempt
  attempt-IsKept r m =
      if-holds IsKept (m.key_epoch == 0) _ _
        (λ z. created-IsKept r.key 1 r.posted m (λ q. omega arith))
        (λ nz.
          send_epoch-IsKept m.key_epoch r (conv_key e m.key_epoch r.listed m) _
            (conv_key-key_epoch m.key_epoch r.listed m) (λ q. ground arith) refl)

  again-IsKept :
      (found : Option ℕ) (r : Round) (p : Member × Outcome) → IsKept p → IsKept (again e found r p)
  unfolding again
  again-IsKept found r (m, with_key epoch key) h = h
  again-IsKept found r (m, failed) h = tt
  again-IsKept found r (m, no_conversation_key) h = tt
  again-IsKept none r (m, stale) h = tt
  again-IsKept (some epoch) r (m, stale) h = attempt-IsKept r (record m { key_epoch = epoch })

  send_key_now-IsKept : (first second : Round) (m : Member) → IsKept (send_key_now e first second m)
  unfolding send_key_now
  send_key_now-IsKept first second m = again-IsKept first.found second _ (attempt-IsKept first m)

  attempt_at :
      (r : Round) (m : Member)
      → m.key_epoch ≢ 0
      → attempt e r m
        ≡ send_epoch e m.key_epoch r
            (conv_key e m.key_epoch r.listed m)
            (lookup m.key_epoch (conv_key e m.key_epoch r.listed m).conv_keys)
  unfolding attempt
  attempt_at r m ne = rw (some_epoch m.key_epoch ne) refl
    where
      some_epoch : (n : ℕ) → n ≢ 0 → (n == 0) ≡ false
      some_epoch n ne = ground arith

  attempt_new :
      (r : Round) (m : Member) → m.key_epoch ≡ 0 → attempt e r m ≡ created r.key 1 r.posted m
  unfolding attempt
  attempt_new r m z = rw (no_epoch m.key_epoch z) refl
    where
      no_epoch : (n : ℕ) → n ≡ 0 → (n == 0) ≡ true
      no_epoch n h = ground arith

  conv_key_ready :
      (epoch : ℕ) (listed : List (ℕ × Bytes)) (m : Member) (key : Bytes)
      → lookup epoch m.conv_keys ≡ some key
      → conv_key e epoch listed m ≡ m
  unfolding conv_key
  conv_key_ready epoch listed m key has = ground (arith, has)

  -- A member that has the key of its epoch sends with it, and asks the server for nothing.
  send_key_now_ready :
      (first second : Round) (m : Member) (key : Bytes)
      → m.key_epoch ≢ 0
      → lookup m.key_epoch m.conv_keys ≡ some key
      → send_key_now e first second m ≡ (m, with_key m.key_epoch key)
  unfolding send_key_now again send_epoch
  send_key_now_ready first second m key ne has = ap (again e first.found second) (
      attempt_at first m ne
      ∙ ap (λ (k : Member). send_epoch e m.key_epoch first k (lookup m.key_epoch k.conv_keys))
          (conv_key_ready m.key_epoch first.listed m key has)
      ∙ ap (send_epoch e m.key_epoch first m) has)

  -- A member without a key whose first epoch is refused as stale sends with the peer's key at the second
  -- attempt, if `loadMembers` then finds an epoch and a key for it can be opened.
  pub send_key_now-stale :
      (first second : Round) (m : Member) (key : Bytes) (n : ℕ)
      → m.key_epoch ≡ 0
      → first.posted ≡ stale_epoch
      → first.found ≡ some n
      → n ≢ 0
      → lookup n (conv_key e n second.listed (record m { key_epoch = n })).conv_keys ≡ some key
      → (send_key_now e first second m).1 ≡ with_key n key
  unfolding send_key_now again created send_epoch
  send_key_now-stale first second m key n new lost found ne has =
      ap (λ (p : Member × Outcome). p.1)
        (ap (again e first.found second)
            (attempt_new first m new ∙ ap (λ p. created first.key 1 p m) lost)
          ∙ ap (λ f. again e f second (m, stale)) found
          ∙ attempt_at second (record m { key_epoch = n }) ne
          ∙ ap (send_epoch e n second (conv_key e n second.listed (record m { key_epoch = n })))
              has)
