-- ===== src/Examples/TreeKem.antt =====
-- The theorems on backend/static/js/lib/treekem.js for a group of two.
use cryptis_dchat_project.Prelude.{
  ℕ, ◌+◌, ◌≡◌, refl, ◌==◌, if◌then◌else◌, true, false, Option, none, some, List, [], ◌∷◌, arith,
  All,
}
use cryptis_dchat_project.TreeKem.{
  Bytes, Ecies, Plan, Body, Commit, Tree, secret, no_root, build_commit, process_commit, lookup,
  is_in, sort_nodes, with_leaf, pub_of, insert, find_key,
}
use cryptis_dchat_project.TreeKem.Follow.{Follows}
use cryptis_dchat_project.TreeKem.Secret.{relayed, process_commit-build_commit}
use cryptis_dchat_project.TreeKem.Removed.{IsShut, process_commit-outsider}

abbrev pub total : Bytes → ℕ
total [] = 0
total (b ∷ bs) = b + total bs

abbrev pub untag : ℕ → Bytes → Option Bytes
untag key [] = none
untag key (tag ∷ plain) = if tag == key then some plain else none

pub untag_same : (key : ℕ) (plain : Bytes) → untag key (key ∷ plain) ≡ some plain
untag_same key plain = ground arith

pub untag_only :
    (key tag : ℕ) (plain other : Bytes) → untag key (tag ∷ plain) ≡ some other → other ≡ plain
untag_only key tag plain other h = ground arith

-- A sealed text has a sum of the key before it.
abbrev pub tagging : Ecies
tagging = record {
  public_of = λ k. k;
  seal = λ p d plain. total p ∷ plain;
  open_ = λ k sealed. untag (total k) sealed;
  open-seal = λ k d plain. untag_same (total k) plain;
  open-seal_same = λ k p d plain other h. untag_only (total k) (total p) plain other h;
}

abbrev known : ℕ → Option Bytes
known n = if n == 0 then some (5 ∷ []) else if n == 2 then some (6 ∷ []) else none

abbrev below_root : ℕ → List ℕ
below_root n = if n == 1 then 0 ∷ 2 ∷ [] else []

-- The leaves are the nodes 0 and 2, and the root is the node 1.
abbrev plan : Plan
plan = record { path = 1 ∷ []; targets = below_root; known_pubs = known; root = 1; next_epoch = 4 }

abbrev fresh : ℕ → Bytes
fresh n = (n + 10) ∷ []

abbrev body : Body
body = record {
  epoch = 4;
  nodes =
      record {
        index = 1;
        public_key = 11 ∷ [];
        ciphertexts =
            record { target = 0; ct = 5 ∷ 11 ∷ [] } ∷ record { target = 2; ct = 6 ∷ 11 ∷ [] } ∷ [];
      }
      ∷ [];
  root_ciphertext = 11 ∷ 77 ∷ [];
}

built : build_commit tagging fresh (λ n t. []) (77 ∷ []) [] plan ≡ some body
unfolding build_commit pub_of
built = refl

abbrev tree : Tree
tree = record { privs = []; epochs = []; processed = 3 }

follows :
    Follows tagging fresh (λ n t. []) plan (with_leaf (some 1) (6 ∷ []) []) (sort_nodes body.nodes)
unfolding with_leaf sort_nodes lookup insert pub_of is_in
follows = ((2, 6 ∷ [], refl, refl, refl), tt)

process_commit-build_commit_example :
    ((process_commit tagging tree
        (relayed tagging fresh (λ n t. []) plan (some 1) [] body)
        (6 ∷ [])).1
      ≡ secret (77 ∷ []))
    × (lookup 4
          (process_commit tagging tree
            (relayed tagging fresh (λ n t. []) plan (some 1) [] body)
            (6 ∷ [])).0.epochs
        ≡ some (77 ∷ []))
process_commit-build_commit_example =
    process_commit-build_commit tagging fresh (λ n t. []) plan (77 ∷ []) [] (6 ∷ []) body (some 1)
      [] tree built on_path kept follows
  where
    on_path : is_in 1 (1 ∷ []) ≡ true
    on_path = unfold is_in in refl

    kept : is_in 1 [] ≡ false
    kept = unfold is_in in refl

-- A device that was removed has an old key of the root and another key for its leaf.
abbrev removed : Tree
removed = record {
  privs = (1, 9 ∷ []) ∷ (4, 8 ∷ []) ∷ [];
  epochs = (3, 70 ∷ []) ∷ [];
  processed = 3;
}

abbrev commit : Commit
commit = relayed tagging fresh (λ n t. []) plan none (4 ∷ []) body

shut : All (IsShut tagging (with_leaf none (8 ∷ []) removed.privs)) commit.nodes
unfolding with_leaf find_key lookup
shut = (refl, tt)

process_commit-outsider_example :
    ((process_commit tagging removed commit (8 ∷ [])).1 ≡ no_root)
    × ((process_commit tagging removed commit (8 ∷ [])).0.epochs ≡ removed.epochs)
    × (lookup 1 (process_commit tagging removed commit (8 ∷ [])).0.privs ≡ none)
process_commit-outsider_example = process_commit-outsider tagging removed commit (8 ∷ []) shut refl
