-- ===== src/TreeKem/Removed.antt =====
-- A device that is outside of a commit of backend/static/js/lib/treekem.js.
use cryptis_dchat_project.Prelude.{
  ℕ, max, ◌≡◌, refl, ap, ◌∙◌, sym, ◌==◌, ==_iff, true, Bool-cases, inl, inr, none, some, List, [],
  ◌∷◌, arith, All,
}
use cryptis_dchat_project.TreeKem.{
  Map, Bytes, lookup, delete, delete_all, Sealed, Node, Commit, Tree, no_root, Ecies, sort_nodes,
  with_leaf, find_key, process_node, process_nodes, finish, process_commit,
}
use cryptis_dchat_project.TreeKem.Maps.{lookup-delete, lookup-delete_other}
use cryptis_dchat_project.TreeKem.Follow.{
  find_key-cases, has_node, All-sort_nodes, has_node-sort_nodes,
}

none-delete : (k j : ℕ) (m : Map) → lookup k m ≡ none → lookup k (delete j m) ≡ none
none-delete k j m h = elim (Bool-cases (k == j)) [
  | inl same ↦ ap (λ i. lookup i (delete j m)) ((==_iff k j).0 same) ∙ lookup-delete j m
  | inr other ↦ lookup-delete_other k j m (λ q. ground (arith, other, q)) ∙ h
]

some-delete : (k j : ℕ) (v : Bytes) (m : Map) → lookup k (delete j m) ≡ some v → lookup k m ≡ some v
some-delete k j v m h = elim (Bool-cases (k == j)) [
  | inl same ↦
      absurd (cc (ap (λ i. lookup i (delete j m)) ((==_iff k j).0 same), lookup-delete j m, h))
  | inr other ↦ sym (lookup-delete_other k j m (λ q. ground (arith, other, q))) ∙ h
]

none-delete_all :
    (k : ℕ) (js : List ℕ) (m : Map) → lookup k m ≡ none → lookup k (delete_all js m) ≡ none
unfolding delete_all
none-delete_all k [] m h = h
none-delete_all k (j ∷ js) m h = none-delete_all k js (delete j m) (none-delete k j m h)

module _ (e : Ecies) where
  open e use {open_}

  -- No key of the map opens a ciphertext of the node.
  abbrev pub IsShut : Map → Node → Type 0
  IsShut privs n = find_key e privs n.ciphertexts ≡ none

  find_key-delete :
      (j : ℕ) (privs : Map) (cs : List Sealed)
      → find_key e privs cs ≡ none
      → find_key e (delete j privs) cs ≡ none
  unfolding find_key
  find_key-delete j privs [] h = refl
  find_key-delete j privs (c ∷ cs) h = elim (find_key-cases e privs c cs) [
    | inl (skips, shut) ↦ elim (find_key-cases e (delete j privs) c cs) [
      | inl (skips', shut') ↦ skips' ∙ find_key-delete j privs cs (sym skips ∙ h)
      | inr (k, got, held, opens, finds) ↦
          absurd (cc (shut k (some-delete c.target j k privs held), opens))
    ]
    | inr (k, got, held, opens, finds) ↦ absurd (cc (h, finds))
  ]

  process_node-IsShut :
      (privs : Map) (n : Node) → IsShut privs n → process_node e n privs ≡ delete n.index privs
  unfolding process_node
  process_node-IsShut privs n h = rw (h, process_node)

  All-IsShut-delete :
      (j : ℕ) (privs : Map) (nodes : List Node)
      → All (IsShut privs) nodes
      → All (IsShut (delete j privs)) nodes
  All-IsShut-delete j privs [] h = tt
  All-IsShut-delete j privs (n ∷ nodes) (h, hs) =
      (find_key-delete j privs n.ciphertexts h, All-IsShut-delete j privs nodes hs)

  process_nodes-IsShut :
      (nodes : List Node) (privs : Map)
      → All (IsShut privs) nodes
      → ((k : ℕ) → lookup k privs ≡ none → lookup k (process_nodes e nodes privs) ≡ none)
        × ((k : ℕ) → has_node k nodes ≡ true → lookup k (process_nodes e nodes privs) ≡ none)
  unfolding process_nodes
  process_nodes-IsShut [] privs h = (λ k gone. gone, λ k there. absurd (cc there))
  process_nodes-IsShut (n ∷ nodes) privs (h, hs) =
      let (keeps, removes) =
        process_nodes-IsShut nodes (delete n.index privs)
          (All-IsShut-delete n.index privs nodes hs) in
      rw (process_node-IsShut privs n h) (
        λ k gone. keeps k (none-delete k n.index privs gone),
        λ k there. elim (Bool-cases (n.index == k)) [
          | inl same ↦ keeps k (
              ap (λ i. lookup i (delete n.index privs)) (sym ((==_iff n.index k).0 same))
              ∙ lookup-delete n.index privs)
          | inr other ↦ removes k (ground arith)
        ],
      )

  finish-no_root :
      (commit : Commit) (tree : Tree)
      → lookup commit.root tree.privs ≡ none
      → finish e commit tree
        ≡ (record tree { processed = max tree.processed commit.epoch }, no_root)
  unfolding finish
  finish-no_root commit tree gone = rw (gone, finish)

  -- A device that can open none of a commit's ciphertexts, where the commit has a node for the root,
  -- gets no secret: its secrets of epochs stay as they are, and the key of the root that it had is
  -- deleted.
  pub process_commit-outsider :
      (tree : Tree) (commit : Commit) (identity : Bytes)
      → All (IsShut (with_leaf commit.my_leaf identity tree.privs)) commit.nodes
      → has_node commit.root commit.nodes ≡ true
      → ((process_commit e tree commit identity).1 ≡ no_root)
        × ((process_commit e tree commit identity).0.epochs ≡ tree.epochs)
        × (lookup commit.root (process_commit e tree commit identity).0.privs ≡ none)
  unfolding process_commit
  process_commit-outsider tree commit identity shut there =
      let start = with_leaf commit.my_leaf identity tree.privs in
      let (keeps, removes) =
        process_nodes-IsShut (sort_nodes commit.nodes) start
          (All-sort_nodes (IsShut start) commit.nodes shut) in
      let gone =
        none-delete_all commit.root commit.blanks (process_nodes e (sort_nodes commit.nodes) start)
          (removes commit.root (has_node-sort_nodes commit.root commit.nodes ∙ there)) in
      let ends =
        finish-no_root commit
          (record tree {
            privs = delete_all commit.blanks (process_nodes e (sort_nodes commit.nodes) start);
          })
          gone in
      (
        ap (λ r. r.1) ends,
        ap (λ r. r.0.epochs) ends,
        ap (λ r. lookup commit.root r.0.privs) ends ∙ gone,
      )
