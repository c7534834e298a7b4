-- ===== src/TreeKem.antt =====
-- The keys of a group as a tree, backend/static/js/lib/treekem.js: the commit that one member builds
-- from the server's plan, and what the others make of it.
pub mod Maps
pub mod Follow
pub mod Secret
pub mod Removed
use cryptis_dchat_project.Prelude.{
  ℕ, zero, suc, ◌+◌, ◌*◌, ◌/◌, ◌%◌, max, ◌==◌, ltb, leb, if◌then◌else◌, Bool, true, false, ◌&&◌,
  ◌||◌, Option, none, some, List, [], ◌∷◌, ◌≡◌, any, ◌>>=◌,
}

abbrev pub Bytes : Type 0
Bytes = List ℕ

-- ECIES of Web Crypto, as crypto.js uses it: keys and texts as bytes, and the bytes drawn for a seal. A
-- sealed text is opened by the private key of its public key, and never opens as another text.
pub record Ecies : Type 0 where
  pub public_of : Bytes → Bytes
  pub seal : (public drawn plain : Bytes) → Bytes
  pub open_ : (private sealed : Bytes) → Option Bytes
  pub open-seal : (k drawn plain : Bytes) → open_ k (seal (public_of k) drawn plain) ≡ some plain
  pub open-seal_same :
      (k p drawn plain other : Bytes) → open_ k (seal p drawn plain) ≡ some other → other ≡ plain

-- Objects with node numbers or epochs for keys.
abbrev pub Map : Type 0
Map = List (ℕ × Bytes)

unfoldable pub lookup : ℕ → Map → Option Bytes
lookup k [] = none
lookup k ((j, v) ∷ m) = if j == k then some v else lookup k m

unfoldable pub delete : ℕ → Map → Map
delete k [] = []
delete k ((j, v) ∷ m) = if j == k then delete k m else (j, v) ∷ delete k m

unfoldable pub insert : ℕ → Bytes → Map → Map
unfolding delete
insert k v m = (k, v) ∷ delete k m

-- `while ((x >> k) & 1) k++`, with `x` rounds at most.
unfoldable pub level_loop : ℕ → ℕ → ℕ
level_loop zero x = 0
level_loop (suc fuel) x = let more = suc (level_loop fuel (x / 2)) in if x % 2 == 1 then more else 0

unfoldable pub level : ℕ → ℕ
unfolding level_loop
level x = level_loop x x

abbrev pub leaf_node : ℕ → ℕ
leaf_node leaf = 2 * leaf

pub record Sealed : Type 0 where
  pub target : ℕ
  pub ct : Bytes

pub record Node : Type 0 where
  pub index : ℕ
  pub public_key : Bytes
  pub ciphertexts : List Sealed

-- The server's plan; a missing list of targets is empty.
pub record Plan : Type 0 where
  pub path : List ℕ
  pub targets : ℕ → List ℕ
  pub known_pubs : ℕ → Option Bytes
  pub root : ℕ
  pub next_epoch : ℕ

pub record Body : Type 0 where
  pub epoch : ℕ
  pub nodes : List Node
  pub root_ciphertext : Bytes

-- A commit as the server sends it to a member.
pub record Commit : Type 0 where
  pub my_leaf : Option ℕ
  pub nodes : List Node
  pub blanks : List ℕ
  pub root : ℕ
  pub epoch : ℕ
  pub root_ciphertext : Bytes

pub record Tree : Type 0 where
  pub privs : Map
  pub epochs : Map
  pub processed : ℕ

-- The result of `processCommit`: `null`, a thrown error, or the secret of the epoch.
pub data Outcome : Type 0 where
  no_root threw : Outcome
  secret : Bytes → Outcome

unfoldable pub before : Node → Node → Bool
unfolding level
before a b =
    ltb (level a.index) (level b.index) || (level a.index == level b.index && leb a.index b.index)

-- `sort` with the comparison by level, then by number.
unfoldable pub insert_node : Node → List Node → List Node
unfolding before
insert_node n [] = n ∷ []
insert_node n (a ∷ nodes) = if before n a then n ∷ a ∷ nodes else a ∷ insert_node n nodes

unfoldable pub sort_nodes : List Node → List Node
unfolding insert_node
sort_nodes [] = []
sort_nodes (n ∷ nodes) = insert_node n (sort_nodes nodes)

unfoldable pub is_in : ℕ → List ℕ → Bool
is_in n ns = any (λ i. i == n) ns

-- `if (!tree.privs[leaf]) tree.privs[leaf] = identityPkcs8`
unfoldable pub with_leaf : Option ℕ → Bytes → Map → Map
unfolding lookup insert
with_leaf none identity privs = privs
with_leaf (some leaf) identity privs = elim (lookup (leaf_node leaf) privs) [
  | none ↦ insert (leaf_node leaf) identity privs
  | some k ↦ privs
]

unfoldable pub delete_all : List ℕ → Map → Map
unfolding delete
delete_all [] m = m
delete_all (k ∷ ks) m = delete_all ks (delete k m)

module _ (e : Ecies) where
  open e use {public_of, seal, open_}

  -- `pubOf`, where `fresh n` is the private key that was generated for the node.
  unfoldable pub pub_of : (ℕ → Bytes) → Plan → ℕ → Option Bytes
  unfolding is_in
  pub_of fresh plan n = if is_in n plan.path then some (public_of (fresh n)) else plan.known_pubs n

  -- The inner loop; `eciesSeal` throws where there is no public key. `drawn n t` is what the seal draws.
  unfoldable pub seal_targets :
      (ℕ → Bytes) → (ℕ → ℕ → Bytes) → Plan → ℕ → List ℕ → Option (List Sealed)
  unfolding pub_of
  seal_targets fresh drawn plan n [] = some []
  seal_targets fresh drawn plan n (t ∷ ts) = do
    p ← pub_of fresh plan t
    sealed ← seal_targets fresh drawn plan n ts
    some (record { target = t; ct = seal p (drawn n t) (fresh n) } ∷ sealed)

  unfoldable pub build_nodes : (ℕ → Bytes) → (ℕ → ℕ → Bytes) → Plan → List ℕ → Option (List Node)
  unfolding seal_targets
  build_nodes fresh drawn plan [] = some []
  build_nodes fresh drawn plan (n ∷ path) = do
    sealed ← seal_targets fresh drawn plan n (plan.targets n)
    nodes ← build_nodes fresh drawn plan path
    some (record { index = n; public_key = public_of (fresh n); ciphertexts = sealed } ∷ nodes)

  -- `buildCommit`; `epoch_secret` and `root_drawn` are drawn.
  unfoldable pub build_commit : (ℕ → Bytes) → (ℕ → ℕ → Bytes) → Bytes → Bytes → Plan → Option Body
  unfolding build_nodes pub_of
  build_commit fresh drawn epoch_secret root_drawn plan = do
    nodes ← build_nodes fresh drawn plan plan.path
    p ← pub_of fresh plan plan.root
    some (record {
      epoch = plan.next_epoch;
      nodes = nodes;
      root_ciphertext = seal p root_drawn epoch_secret;
    })

  -- `for (const c of node.ciphertexts)`: the first that a held key opens.
  unfoldable pub find_key : Map → List Sealed → Option Bytes
  unfolding lookup
  find_key privs [] = none
  find_key privs (c ∷ cs) =
      let more = find_key privs cs in
      elim (lookup c.target privs) [
        | none ↦ more
        | some holder ↦ elim (open_ holder c.ct) [ none ↦ more | some got ↦ some got ]
      ]

  unfoldable pub process_node : Node → Map → Map
  unfolding find_key insert delete
  process_node n privs = elim (find_key privs n.ciphertexts) [
    | none ↦ delete n.index privs
    | some got ↦ insert n.index got privs
  ]

  unfoldable pub process_nodes : List Node → Map → Map
  unfolding process_node
  process_nodes [] privs = privs
  process_nodes (n ∷ nodes) privs = process_nodes nodes (process_node n privs)

  -- The end of `processCommit`, once the keys of the nodes are known.
  unfoldable pub finish : Commit → Tree → Tree × Outcome
  unfolding lookup insert
  finish commit tree =
      let done = record tree { processed = max tree.processed commit.epoch } in
      elim (lookup commit.root tree.privs) [
        | none ↦ (done, no_root)
        | some root_priv ↦ elim (open_ root_priv commit.root_ciphertext) [
          | none ↦ (done, threw)
          | some s ↦ (record done { epochs = insert commit.epoch s tree.epochs }, secret s)
        ]
      ]

  unfoldable pub process_commit : Tree → Commit → Bytes → Tree × Outcome
  unfolding finish process_nodes with_leaf delete_all sort_nodes
  process_commit tree commit identity = finish commit (record tree {
    privs =
        delete_all commit.blanks
          (process_nodes (sort_nodes commit.nodes) (with_leaf commit.my_leaf identity tree.privs));
  })
