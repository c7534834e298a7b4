-- ===== src/ChatKeys/Agreement.antt =====
-- A direct chat of two members and what the server has of it, whatever their requests' order: `convKey` and
-- `createDmKey` of backend/static/js/app/data.js. The server takes no epoch but the next.
use mathlib.Core.Option.{some-injective}
use cryptis_dchat_project.Prelude.{
  ℕ, suc, ◌≤◌, ◌≡◌, refl, sym, ap, subst, ◌∙◌, ◌==◌, ==_iff, if◌then◌else◌, Bool-cases,
  Option-cases, inl, inr, Option, none, some, List, [], ◌∷◌, length, All, arith,
}
use cryptis_dchat_project.TreeKem.{Bytes, Ecies, Map, lookup, insert}
use cryptis_dchat_project.TreeKem.Maps.{lookup-insert, lookup-insert_other}
use cryptis_dchat_project.ChatKeys.{
  Member, PostReply, accepted, stale_epoch, refused, created, take_key, learn_keys, conv_key,
}

-- The key of an epoch among those that were made, the newest first.
unfoldable pub key_at : ℕ → List Bytes → Option Bytes
key_at epoch [] = none
key_at epoch (k ∷ made) = if epoch == suc (length made) then some k else key_at epoch made

key_at-le :
    (epoch : ℕ) (made : List Bytes) (k : Bytes) → key_at epoch made ≡ some k → epoch ≤ length made
unfolding key_at
key_at-le epoch [] k h = absurd (cc h)
key_at-le epoch (x ∷ made) k h = ground (arith, key_at-le epoch made k)

key_at-grows :
    (epoch : ℕ) (x k : Bytes) (made : List Bytes)
    → key_at epoch made ≡ some k
    → key_at epoch (x ∷ made) ≡ some k
unfolding key_at
key_at-grows epoch x k made h = ground (arith, key_at-le epoch made k h, h)

-- The keys that the server has after its answer to a new epoch.
unfoldable pub after_post : PostReply → Bytes → List Bytes → List Bytes
after_post accepted key made = key ∷ made
after_post stale_epoch key made = made
after_post refused key made = made

-- The keys that were made, and the two members.
pub record Chat : Type 0 where
  pub made : List Bytes
  pub first : Member
  pub second : Member

-- The keys of a member are the ones that were made.
abbrev pub Known : List Bytes → Map → Type 0
Known made keys = (epoch : ℕ) (k : Bytes) → lookup epoch keys ≡ some k → key_at epoch made ≡ some k

Known-insert :
    (made : List Bytes) (keys : Map) (at : ℕ) (v : Bytes)
    → key_at at made ≡ some v
    → Known made keys
    → Known made (insert at v keys)
Known-insert made keys at v made_ known epoch k h = elim (Bool-cases (epoch == at)) [
  | inl same ↦
      let e : epoch ≡ at = (==_iff epoch at).0 same in
      let v_is : some v ≡ some k =
        sym (lookup-insert at v keys) ∙ ap (λ n. lookup n (insert at v keys)) (sym e) ∙ h in
      ap (λ n. key_at n made) e ∙ made_ ∙ v_is
  | inr other ↦ known epoch k (sym (lookup-insert_other epoch at v keys (ground arith)) ∙ h)
]

module _ (e : Ecies) where
  open e use {public_of, seal, open_, open-seal_same}

  -- What the server lists for a member: the keys that were made, sealed under its public key.
  unfoldable pub listed : Bytes → (ℕ → Bytes) → List Bytes → List (ℕ × Bytes)
  listed public drawn [] = []
  listed public drawn (k ∷ made) =
      (suc (length made), seal public (drawn (length made)) k) ∷ listed public drawn made

  -- Whatever opens is the key of its epoch.
  abbrev IsGood : Bytes → List Bytes → ℕ × Bytes → Type 0
  IsGood identity made (epoch, wrapped) =
      (k : Bytes) → open_ identity wrapped ≡ some k → key_at epoch made ≡ some k

  listed-IsGood :
      (identity public : Bytes) (drawn : ℕ → Bytes) (all made : List Bytes)
      → ((epoch : ℕ) (k : Bytes) → key_at epoch made ≡ some k → key_at epoch all ≡ some k)
      → All (IsGood identity all) (listed public drawn made)
  unfolding listed
  listed-IsGood identity public drawn all [] grow = tt
  listed-IsGood identity public drawn all (x ∷ made) grow = (
    λ k opens.
        grow (suc (length made)) k
          (newest made x k (open-seal_same identity public (drawn (length made)) x k opens)),
    listed-IsGood identity public drawn all made
        (λ epoch k h. grow epoch k (key_at-grows epoch x k made h)),
  )
    where
      newest :
          (made : List Bytes) (x k : Bytes) → k ≡ x → key_at (suc (length made)) (x ∷ made) ≡ some k
      newest made x k h = unfold key_at in ground (arith, h)

  learn_keys-Known :
      (identity : Bytes) (made : List Bytes) (list : List (ℕ × Bytes)) (keys : Map)
      → All (IsGood identity made) list
      → Known made keys
      → Known made (learn_keys e identity list keys)
  unfolding learn_keys
  learn_keys-Known identity made [] keys good known = known
  learn_keys-Known identity made ((epoch, wrapped) ∷ rest) keys good known =
      learn_keys-Known identity made rest _ good.1
        (taken (lookup epoch keys) (open_ identity wrapped) refl)
    where
      taken :
          (old opened : Option Bytes)
          → opened ≡ open_ identity wrapped
          → Known made (take_key old epoch opened keys)
      taken (some k) opened same = unfold take_key in known
      taken none none same = unfold take_key in known
      taken none (some k) same =
          unfold take_key in Known-insert made keys epoch k (good.0 k (sym same)) known

  conv_key-Known :
      (epoch : ℕ) (made : List Bytes) (drawn : ℕ → Bytes) (m : Member)
      → Known made m.conv_keys
      → Known made (conv_key e epoch (listed (public_of m.identity) drawn made) m).conv_keys
  unfolding conv_key lookup key_at
  conv_key-Known epoch made drawn m known = elim (Option-cases (lookup epoch m.conv_keys)) [
    | inr (k, has) ↦ rw (conv_key, has) known
    | inl not_yet ↦
        rw (conv_key, not_yet)
          (learn_keys-Known m.identity made _ m.conv_keys
            (listed-IsGood m.identity (public_of m.identity) drawn made made (λ n k h. h)) known)
  ]

  -- A member looks for the key of an epoch, asks for a new epoch with a key it drew, or is told of another epoch by
  -- `loadMembers` or a frame. The server takes the new epoch only if it is the next, and its answer may be lost.
  pub data Step : Chat → Chat → Type 0 where
    first_looked :
        (c : Chat) (epoch : ℕ) (drawn : ℕ → Bytes)
        → Step c (record c {
          first = conv_key e epoch (listed (public_of c.first.identity) drawn c.made) c.first;
        })
    second_looked :
        (c : Chat) (epoch : ℕ) (drawn : ℕ → Bytes)
        → Step c (record c {
          second = conv_key e epoch (listed (public_of c.second.identity) drawn c.made) c.second;
        })
    first_made :
        (c : Chat) (key : Bytes) (epoch : ℕ) (reply : PostReply)
        → (reply ≡ accepted → epoch ≡ suc (length c.made))
        → Step c (record c {
          made = after_post reply key c.made;
          first = (created key epoch reply c.first).0;
        })
    first_unheard :
        (c : Chat) (key : Bytes) (epoch : ℕ)
        → Step c (record c { made = key ∷ c.made; first = (created key epoch refused c.first).0 })
    second_made :
        (c : Chat) (key : Bytes) (epoch : ℕ) (reply : PostReply)
        → (reply ≡ accepted → epoch ≡ suc (length c.made))
        → Step c (record c {
          made = after_post reply key c.made;
          second = (created key epoch reply c.second).0;
        })
    second_unheard :
        (c : Chat) (key : Bytes) (epoch : ℕ)
        → Step c (record c { made = key ∷ c.made; second = (created key epoch refused c.second).0 })
    first_told :
        (c : Chat) (epoch : ℕ) → Step c (record c { first = record c.first { key_epoch = epoch } })
    second_told :
        (c : Chat) (epoch : ℕ)
        → Step c (record c { second = record c.second { key_epoch = epoch } })

  pub data Reach (start : Chat) : Chat → Type 0 where
    here : Reach start start
    next : {c d : Chat} → Reach start c → Step c d → Reach start d

  -- Each member's keys are the ones that were made.
  abbrev pub IsShared : Chat → Type 0
  IsShared c = Known c.made c.first.conv_keys × Known c.made c.second.conv_keys

  Known-grows :
      (key : Bytes) (made : List Bytes) (keys : Map) → Known made keys → Known (key ∷ made) keys
  Known-grows key made keys known epoch k h = key_at-grows epoch key k made (known epoch k h)

  created-Known :
      (key : Bytes) (made : List Bytes) (m : Member)
      → Known made m.conv_keys
      → Known (key ∷ made) (created key (suc (length made)) accepted m).0.conv_keys
  unfolding created
  created-Known key made m known =
      Known-insert (key ∷ made) m.conv_keys (suc (length made)) key (unfold key_at in ground arith)
        (Known-grows key made m.conv_keys known)

  -- Whatever the answer, the one that asked has only keys that were made.
  posted-Known :
      (key : Bytes) (epoch : ℕ) (reply : PostReply) (made : List Bytes) (m : Member)
      → (reply ≡ accepted → epoch ≡ suc (length made))
      → Known made m.conv_keys
      → Known (after_post reply key made) (created key epoch reply m).0.conv_keys
  unfolding after_post created
  posted-Known key epoch accepted made m is_next known =
      subst (λ n. Known (key ∷ made) (created key n accepted m).0.conv_keys) (sym (is_next refl))
        (created-Known key made m known)
  posted-Known key epoch stale_epoch made m is_next known = known
  posted-Known key epoch refused made m is_next known = known

  after_post-Known :
      (key : Bytes) (reply : PostReply) (made : List Bytes) (keys : Map)
      → Known made keys
      → Known (after_post reply key made) keys
  unfolding after_post
  after_post-Known key accepted made keys known = Known-grows key made keys known
  after_post-Known key stale_epoch made keys known = known
  after_post-Known key refused made keys known = known

  -- A key that the server took, of which the one that asked did not hear.
  unheard-Known :
      (key : Bytes) (epoch : ℕ) (made : List Bytes) (m : Member)
      → Known made m.conv_keys
      → Known (key ∷ made) (created key epoch refused m).0.conv_keys
  unfolding created
  unheard-Known key epoch made m known = Known-grows key made m.conv_keys known

  Step-IsShared : {c d : Chat} → Step c d → IsShared c → IsShared d
  Step-IsShared (first_looked c epoch drawn) h =
      (conv_key-Known epoch c.made drawn c.first h.0, h.1)
  Step-IsShared (second_looked c epoch drawn) h =
      (h.0, conv_key-Known epoch c.made drawn c.second h.1)
  Step-IsShared (first_made c key epoch reply is_next) h = (
    posted-Known key epoch reply c.made c.first is_next h.0,
    after_post-Known key reply c.made _ h.1,
  )
  Step-IsShared (second_made c key epoch reply is_next) h = (
    after_post-Known key reply c.made _ h.0,
    posted-Known key epoch reply c.made c.second is_next h.1,
  )
  Step-IsShared (first_unheard c key epoch) h =
      (unheard-Known key epoch c.made c.first h.0, Known-grows key c.made _ h.1)
  Step-IsShared (second_unheard c key epoch) h =
      (Known-grows key c.made _ h.0, unheard-Known key epoch c.made c.second h.1)
  Step-IsShared (first_told c epoch) h = h
  Step-IsShared (second_told c epoch) h = h

  Reach-IsShared : {c d : Chat} → Reach c d → IsShared c → IsShared d
  Reach-IsShared here h = h
  Reach-IsShared (next r s) h = Step-IsShared s (Reach-IsShared r h)

  -- Whatever two members of a direct chat look for, ask the server to make, with any answer, or are
  -- told, in any order: where both have a key for an epoch, it is the same one, if at first their keys
  -- are ones that were made, the server takes no epoch but the next, and lists each member the keys
  -- sealed for it.
  pub Reach-same_key :
      {c d : Chat} (epoch : ℕ) (k other : Bytes)
      → Reach c d
      → IsShared c
      → lookup epoch d.first.conv_keys ≡ some k
      → lookup epoch d.second.conv_keys ≡ some other
      → k ≡ other
  Reach-same_key epoch k other r h has has' =
      let shared = Reach-IsShared r h in
      some-injective _ _ (sym (shared.0 epoch k has) ∙ shared.1 epoch other has')
