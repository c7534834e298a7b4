-- ===== src/TreeKem/Follow.antt =====
-- A member that follows a commit of backend/static/js/lib/treekem.js: the keys of the nodes.
use mathlib.Core.Option.{some-injective}
use cryptis_dchat_project.Prelude.{
  ℕ, ◌≡◌, refl, ap, ◌∙◌, sym, ◌==◌, ==_iff, Bool, true, Bool-cases, ◌⊎◌, inl, inr, ◌||◌, none, some,
  Option-cases, List, [], ◌∷◌, arith, any, All, if-holds, >>=-some,
}
use cryptis_dchat_project.TreeKem.{
  Map, Bytes, lookup, insert, is_in, Sealed, Node, Plan, Ecies, before, insert_node, sort_nodes,
  pub_of, seal_targets, build_nodes, find_key, process_node, process_nodes,
}
use cryptis_dchat_project.TreeKem.Maps.{lookup-insert, lookup-insert_other}

abbrev pub has_node : ℕ → List Node → Bool
has_node k nodes = any (λ n. n.index == k) nodes

module _ (P : Node → Type 0) where
  All-insert_node : (n : Node) (nodes : List Node) → P n → All P nodes → All P (insert_node n nodes)
  unfolding insert_node
  All-insert_node n [] h hs = (h, tt)
  All-insert_node n (a ∷ nodes) h (ha, hs) =
      if-holds (All P) (before n a) _ _ (λ e. (h, (ha, hs)))
        (λ e. (ha, All-insert_node n nodes h hs))

  pub All-sort_nodes : (nodes : List Node) → All P nodes → All P (sort_nodes nodes)
  unfolding sort_nodes
  All-sort_nodes [] h = tt
  All-sort_nodes (n ∷ nodes) (h, hs) =
      All-insert_node n (sort_nodes nodes) h (All-sort_nodes nodes hs)

has_node-insert_node :
    (k : ℕ) (n : Node) (nodes : List Node)
    → has_node k (insert_node n nodes) ≡ ((n.index == k) || has_node k nodes)
unfolding insert_node
has_node-insert_node k n [] = refl
has_node-insert_node k n (a ∷ nodes) = ground (arith, has_node-insert_node k n nodes)

pub has_node-sort_nodes :
    (k : ℕ) (nodes : List Node) → has_node k (sort_nodes nodes) ≡ has_node k nodes
unfolding sort_nodes
has_node-sort_nodes k [] = refl
has_node-sort_nodes k (n ∷ nodes) =
    has_node-insert_node k n (sort_nodes nodes)
    ∙ ap (λ b. (n.index == k) || b) (has_node-sort_nodes k nodes)

module _ (e : Ecies) where
  open e use {open_}

  -- Either the first ciphertext opens, or it is passed over.
  pub find_key-cases :
      (privs : Map) (c : Sealed) (cs : List Sealed)
      → (find_key e privs (c ∷ cs) ≡ find_key e privs cs)
          × ((k : Bytes) → lookup c.target privs ≡ some k → open_ k c.ct ≡ none)
        ⊎ ((k : Bytes) × (got : Bytes) × (lookup c.target privs ≡ some k)
            × (open_ k c.ct ≡ some got)
            × (find_key e privs (c ∷ cs) ≡ some got))
  unfolding find_key
  find_key-cases privs c cs = elim (Option-cases (lookup c.target privs)) [
    | inl gone ↦ inl (rw (gone, find_key), λ k has. absurd (cc (gone, has)))
    | inr (k, has) ↦ elim (Option-cases (open_ k c.ct)) [
      | inl shut ↦ inl (
        rw (has, shut, find_key),
        λ k' has'. ap (λ j. open_ j c.ct) (some-injective _ _ (sym has' ∙ has)) ∙ shut,
      )
      | inr (got, opens) ↦ inr (k, got, has, opens, rw (has, opens, find_key))
    ]
  ]

module _ (e : Ecies) (fresh : ℕ → Bytes) (drawn : ℕ → ℕ → Bytes) (plan : Plan) where
  open e use {public_of, seal, open_, open-seal, open-seal_same}

  abbrev pub IsBuilt : Node → Type 0
  IsBuilt n = seal_targets e fresh drawn plan n.index (plan.targets n.index) ≡ some n.ciphertexts

  -- A member with these keys has the current private key of a target of the node.
  abbrev pub Holds : Map → ℕ → Type 0
  Holds privs n =
      (t : ℕ) × (k : Bytes) × (is_in t (plan.targets n) ≡ true)
      × (lookup t privs ≡ some k)
      × (pub_of e fresh plan t ≡ some (public_of k))

  -- The keys that a member has after each node, when it learns the new key of each.
  unfoldable pub learn : List Node → Map → Map
  learn [] privs = privs
  learn (n ∷ nodes) privs = learn nodes (insert n.index (fresh n.index) privs)

  -- At each node, in the order of processing, the member has a key of one of the node's targets.
  abbrev pub Follows : Map → List Node → Type 0
  Follows privs [] = Unit
  Follows privs (n ∷ nodes) =
      Holds privs n.index × Follows (insert n.index (fresh n.index) privs) nodes

  seal_targets-cons :
      (n t : ℕ) (ts : List ℕ) (cs : List Sealed)
      → seal_targets e fresh drawn plan n (t ∷ ts) ≡ some cs
      → (p : Bytes) × (rest : List Sealed) × (pub_of e fresh plan t ≡ some p)
        × (seal_targets e fresh drawn plan n ts ≡ some rest)
        × (cs ≡ record { target = t; ct = seal p (drawn n t) (fresh n) } ∷ rest)
  unfolding seal_targets
  seal_targets-cons n t ts cs h =
      let (p, has, more) = >>=-some (pub_of e fresh plan t) _ h in
      let (rest, sealed, same) = >>=-some (seal_targets e fresh drawn plan n ts) _ more in
      (p, rest, has, sealed, sym (some-injective _ _ same))

  pub build_nodes-IsBuilt :
      (path : List ℕ) (nodes : List Node)
      → build_nodes e fresh drawn plan path ≡ some nodes
      → All IsBuilt nodes × ((k : ℕ) → has_node k nodes ≡ is_in k path)
  unfolding build_nodes is_in
  build_nodes-IsBuilt [] nodes h =
      let none_built : [] ≡ nodes = cc h in rw (← none_built) (tt, λ k. refl)
  build_nodes-IsBuilt (n ∷ path) nodes h =
      let (sealed, built, more) =
        >>=-some (seal_targets e fresh drawn plan n (plan.targets n)) _ h in
      let (rest, rest_built, same) = >>=-some (build_nodes e fresh drawn plan path) _ more in
      let (all, found) = build_nodes-IsBuilt path rest rest_built in
      rw (sym (some-injective _ _ same)) ((built, all), λ k. ap (λ b. (n == k) || b) (found k))

  -- What is found is the new key of the node, and it is found where a key of a target is held.
  find_key-fresh :
      (privs : Map) (n : ℕ) (ts : List ℕ) (cs : List Sealed) (got : Bytes)
      → seal_targets e fresh drawn plan n ts ≡ some cs
      → find_key e privs cs ≡ some got
      → got ≡ fresh n
  unfolding find_key seal_targets
  find_key-fresh privs n [] cs got h found =
      let none_sealed : [] ≡ cs = cc h in absurd (cc (ap (find_key e privs) none_sealed, found))
  find_key-fresh privs n (t ∷ ts) cs got h found =
      let (p, rest, has, sealed, same) = seal_targets-cons n t ts cs h in
      let c : Sealed = record { target = t; ct = seal p (drawn n t) (fresh n) } in
      let found' = ap (find_key e privs) (sym same) ∙ found in
      elim (find_key-cases e privs c rest) [
        | inl (skips, shut) ↦ find_key-fresh privs n ts rest got sealed (sym skips ∙ found')
        | inr (k, got', held, opens, finds) ↦
            some-injective _ _ (sym found' ∙ finds)
            ∙ open-seal_same k p (drawn n t) (fresh n) got' opens
      ]

  find_key-held :
      (privs : Map) (n t : ℕ) (k : Bytes) (ts : List ℕ) (cs : List Sealed)
      → seal_targets e fresh drawn plan n ts ≡ some cs
      → is_in t ts ≡ true
      → lookup t privs ≡ some k
      → pub_of e fresh plan t ≡ some (public_of k)
      → (got : Bytes) × (find_key e privs cs ≡ some got)
  unfolding find_key seal_targets is_in
  find_key-held privs n t k [] cs h there has_key is_pub = absurd (cc there)
  find_key-held privs n t k (u ∷ ts) cs h there has_key is_pub =
      let (p, rest, has, sealed, same) = seal_targets-cons n u ts cs h in
      let c : Sealed = record { target = u; ct = seal p (drawn n u) (fresh n) } in
      elim (find_key-cases e privs c rest) [
        | inl (skips, shut) ↦ elim (Bool-cases (u == t)) [
          | inl ours ↦ absurd (
              clash p (shut k (ap (λ i. lookup i privs) ((==_iff u t).0 ours) ∙ has_key)) (
                some-injective _ _
                  (sym has ∙ ap (pub_of e fresh plan) ((==_iff u t).0 ours) ∙ is_pub)))
          | inr other ↦
              let (got, found) =
                find_key-held privs n t k ts rest sealed (ground arith) has_key is_pub in
              (got, ap (find_key e privs) same ∙ skips ∙ found)
        ]
        | inr (k', got, held, opens, finds) ↦ (got, ap (find_key e privs) same ∙ finds)
      ]
    where
      clash : (p : Bytes) → open_ k (seal p (drawn n u) (fresh n)) ≡ none → p ≡ public_of k → ⊥
      clash p shut q = absurd (
          cc (
            ap (λ v. open_ k (seal v (drawn n u) (fresh n))) q,
            open-seal k (drawn n u) (fresh n),
            shut,
          ))

  process_node-learns :
      (privs : Map) (n : Node)
      → IsBuilt n
      → Holds privs n.index
      → process_node e n privs ≡ insert n.index (fresh n.index) privs
  unfolding process_node
  process_node-learns privs n built (t, k, there, has_key, is_pub) =
      let (got, found) =
        find_key-held privs n.index t k (plan.targets n.index) n.ciphertexts built there has_key
          is_pub in
      let same =
        find_key-fresh privs n.index (plan.targets n.index) n.ciphertexts got built found in
      rw (found, same, process_node)

  pub process_nodes-learn :
      (nodes : List Node) (privs : Map)
      → All IsBuilt nodes
      → Follows privs nodes
      → process_nodes e nodes privs ≡ learn nodes privs
  unfolding process_nodes learn
  process_nodes-learn [] privs h f = refl
  process_nodes-learn (n ∷ nodes) privs (h, hs) (f, fs) =
      ap (process_nodes e nodes) (process_node-learns privs n h f)
      ∙ process_nodes-learn nodes (insert n.index (fresh n.index) privs) hs fs

  lookup-learned :
      (k : ℕ) (n : Node) (privs : Map)
      → (n.index == k) ≡ true
      → lookup k (insert n.index (fresh n.index) privs) ≡ some (fresh k)
  lookup-learned k n privs same =
      ap (λ i. lookup k (insert i (fresh i) privs)) ((==_iff n.index k).0 same)
      ∙ lookup-insert k (fresh k) privs

  learn-keeps :
      (k : ℕ) (nodes : List Node) (privs : Map)
      → lookup k privs ≡ some (fresh k)
      → lookup k (learn nodes privs) ≡ some (fresh k)
  unfolding learn
  learn-keeps k [] privs h = h
  learn-keeps k (n ∷ nodes) privs h =
      learn-keeps k nodes (insert n.index (fresh n.index) privs) (elim (Bool-cases (n.index == k)) [
        | inl same ↦ lookup-learned k n privs same
        | inr other ↦
            lookup-insert_other k n.index (fresh n.index) privs (λ q. ground (arith, other, q)) ∙ h
      ])

  pub lookup-learn :
      (k : ℕ) (nodes : List Node) (privs : Map)
      → has_node k nodes ≡ true
      → lookup k (learn nodes privs) ≡ some (fresh k)
  unfolding learn
  lookup-learn k [] privs h = absurd (cc h)
  lookup-learn k (n ∷ nodes) privs h = elim (Bool-cases (n.index == k)) [
    | inl same ↦
        learn-keeps k nodes (insert n.index (fresh n.index) privs) (lookup-learned k n privs same)
    | inr other ↦ lookup-learn k nodes (insert n.index (fresh n.index) privs) (ground arith)
  ]
