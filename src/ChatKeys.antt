-- ===== src/ChatKeys.antt =====
-- The keys of chats in backend/static/js/app/data.js: `convKey`, `createDmKey`, `sendKeyNow` and `syncTree`. A
-- direct chat has a key for each epoch, sealed for its two members; a group has those of its tree.
pub mod Agreement
pub mod Sending
use cryptis_dchat_project.Prelude.{
  ℕ, ◌+◌, ◌==◌, if◌then◌else◌, Bool, true, false, Option, none, some, List, [], ◌∷◌,
}
use cryptis_dchat_project.TreeKem.{Bytes, Ecies, Map, lookup, insert, Tree, Commit, process_commit}

-- `S.keys.identityPkcs8`, `S.convKeys[t.id]` and `t.keyEpoch`, where 0 is a chat without a key.
pub record Member : Type 0 where
  pub identity : Bytes
  pub conv_keys : Map
  pub key_epoch : ℕ

-- What the request for a new epoch is answered with.
pub data PostReply : Type 0 where
  accepted stale_epoch refused : PostReply

-- One attempt's draws and replies: the key and the texts drawn, the sealed keys that the server lists, the
-- reply to a new epoch, and the epoch that `loadMembers` then finds.
pub record Round : Type 0 where
  pub key : Bytes
  pub listed : List (ℕ × Bytes)
  pub posted : PostReply
  pub found : Option ℕ

pub data Outcome : Type 0 where
  with_key : (epoch : ℕ) (key : Bytes) → Outcome
  stale failed no_conversation_key : Outcome

unfoldable pub created : Bytes → ℕ → PostReply → Member → Member × Outcome
created key epoch accepted m =
    (record m { conv_keys = insert epoch key m.conv_keys; key_epoch = epoch }, with_key epoch key)
created key epoch stale_epoch m = (m, stale)
created key epoch refused m = (m, failed)

-- The key of an epoch that has none yet, from what is listed for the member.
unfoldable pub take_key : Option Bytes → ℕ → Option Bytes → Map → Map
take_key (some old) epoch opened keys = keys
take_key none epoch none keys = keys
take_key none epoch (some key) keys = insert epoch key keys

module _ (e : Ecies) where
  open e use {open_}

  unfoldable pub learn_keys : Bytes → List (ℕ × Bytes) → Map → Map
  unfolding take_key
  learn_keys identity [] keys = keys
  learn_keys identity ((epoch, wrapped) ∷ rest) keys =
      learn_keys identity rest (take_key (lookup epoch keys) epoch (open_ identity wrapped) keys)

  -- `convKey` of a direct chat: the server is asked only for an epoch without a key.
  unfoldable pub conv_key : ℕ → List (ℕ × Bytes) → Member → Member
  unfolding learn_keys
  conv_key epoch listed m = elim (lookup epoch m.conv_keys) [
    | some key ↦ m
    | none ↦ record m { conv_keys = learn_keys m.identity listed m.conv_keys }
  ]

  unfoldable pub send_epoch : ℕ → Round → Member → Option Bytes → Member × Outcome
  unfolding created
  send_epoch epoch r m (some key) = (m, with_key epoch key)
  send_epoch epoch r m none = created r.key (epoch + 1) r.posted m

  -- The body of the loop of `sendKeyNow`.
  unfoldable pub attempt : Round → Member → Member × Outcome
  unfolding conv_key send_epoch created
  attempt r m =
      if m.key_epoch == 0
      then created r.key 1 r.posted m
      else (let m' = conv_key m.key_epoch r.listed m in
          send_epoch m.key_epoch r m' (lookup m.key_epoch m'.conv_keys))

  -- `loadMembers` before the second attempt.
  unfoldable pub again : Option ℕ → Round → Member × Outcome → Member × Outcome
  unfolding attempt
  again found r (m, with_key epoch key) = (m, with_key epoch key)
  again found r (m, failed) = (m, failed)
  again found r (m, no_conversation_key) = (m, no_conversation_key)
  again none r (m, stale) = (m, failed)
  again (some epoch) r (m, stale) = attempt r (record m { key_epoch = epoch })

  -- `sendKeyNow` of a direct chat.
  unfoldable pub send_key_now : Round → Round → Member → Member × Outcome
  unfolding again attempt
  send_key_now first second m = again first.found second (attempt first m)

  -- `syncTree`, whose loop goes on after a commit that fails, and `convKey` of a group.
  unfoldable pub sync_tree : Bytes → List Commit → Tree → Tree
  unfolding process_commit
  sync_tree identity [] tree = tree
  sync_tree identity (c ∷ commits) tree =
      sync_tree identity commits (process_commit e tree c identity).0

  unfoldable pub group_key : ℕ → Bytes → List Commit → Tree → Tree × Option Bytes
  unfolding sync_tree
  group_key epoch identity commits tree = elim (lookup epoch tree.epochs) [
    | some key ↦ (tree, some key)
    | none ↦ let tree' = sync_tree identity commits tree in (tree', lookup epoch tree'.epochs)
  ]

  unfoldable pub group_outcome : ℕ → Option Bytes → Outcome
  group_outcome epoch none = no_conversation_key
  group_outcome epoch (some key) = with_key epoch key

  -- `sendKeyNow` of a group, where 0 is a group without a key.
  unfoldable pub send_group_key : ℕ → Bytes → List Commit → Tree → Tree × Outcome
  unfolding group_key group_outcome
  send_group_key epoch identity commits tree =
      if epoch == 0
      then (tree, no_conversation_key)
      else (let (tree', key) = group_key epoch identity commits tree in
          (tree', group_outcome epoch key))
