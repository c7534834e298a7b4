-- ===== src/TreeKem/Secret.antt =====
-- The secrets of a commit of backend/static/js/lib/treekem.js, at its author and at a member.
use mathlib.Core.Option.{some-injective}
use cryptis_dchat_project.Prelude.{
  ℕ, ◌≡◌, refl, sym, ap, ◌∙◌, true, false, Option, some, List, All, >>=-some,
}
use cryptis_dchat_project.TreeKem.{
  Bytes, lookup, delete_all, is_in, Plan, Body, Commit, Tree, secret, Ecies, sort_nodes, with_leaf,
  pub_of, build_nodes, build_commit, process_nodes, finish, process_commit,
}
use cryptis_dchat_project.TreeKem.Maps.{lookup-insert, lookup-delete_all}
use cryptis_dchat_project.TreeKem.Follow.{
  Follows, IsBuilt, has_node, build_nodes-IsBuilt, All-sort_nodes, has_node-sort_nodes,
  process_nodes-learn, lookup-learn,
}

module _ (e : Ecies) (fresh : ℕ → Bytes) (drawn : ℕ → ℕ → Bytes) (plan : Plan) where
  open e use {public_of, seal, open_, open-seal}

  -- The commit as a member gets it.
  abbrev pub relayed : Option ℕ → List ℕ → Body → Commit
  relayed leaf blanks body = record {
    my_leaf = leaf;
    nodes = body.nodes;
    blanks = blanks;
    root = plan.root;
    epoch = body.epoch;
    root_ciphertext = body.root_ciphertext;
  }

  finish-secret :
      (commit : Commit) (tree : Tree) (k s : Bytes)
      → lookup commit.root tree.privs ≡ some k
      → open_ k commit.root_ciphertext ≡ some s
      → ((finish e commit tree).1 ≡ secret s)
        × (lookup commit.epoch (finish e commit tree).0.epochs ≡ some s)
  unfolding finish
  finish-secret commit tree k s has opens =
      (rw (has, opens, finish), rw (has, opens, finish) (lookup-insert commit.epoch s tree.epochs))

  build_commit-parts :
      (epoch_secret root_drawn : Bytes) (body : Body)
      → build_commit e fresh drawn epoch_secret root_drawn plan ≡ some body
      → (p : Bytes) × (pub_of e fresh plan plan.root ≡ some p)
        × All (IsBuilt e fresh drawn plan) body.nodes
        × ((k : ℕ) → has_node k body.nodes ≡ is_in k plan.path)
        × (body.epoch ≡ plan.next_epoch)
        × (body.root_ciphertext ≡ seal p root_drawn epoch_secret)
  unfolding build_commit
  build_commit-parts epoch_secret root_drawn body built =
      let (nodes, made, more) = >>=-some (build_nodes e fresh drawn plan plan.path) _ built in
      let (p, is_pub, same) = >>=-some (pub_of e fresh plan plan.root) _ more in
      let (all, found) = build_nodes-IsBuilt e fresh drawn plan plan.path nodes made in
      let body_is = some-injective _ _ same in rw (← body_is) (p, is_pub, all, found, refl, refl)

  pub_of-fresh :
      is_in plan.root plan.path ≡ true
      → pub_of e fresh plan plan.root ≡ some (public_of (fresh plan.root))
  unfolding pub_of
  pub_of-fresh on_path = rw on_path

  -- A member that at each node, in the order of processing, has the current private key of one of the
  -- node's targets (the keys that it learned at the nodes before included) gets from `process_commit`
  -- the secret that the author of `build_commit` drew, and stores it under the plan's epoch, if the root
  -- is on the path and not blanked.
  pub process_commit-build_commit :
      (epoch_secret root_drawn identity : Bytes) (body : Body) (leaf : Option ℕ) (blanks : List ℕ)
      (tree : Tree)
      → build_commit e fresh drawn epoch_secret root_drawn plan ≡ some body
      → is_in plan.root plan.path ≡ true
      → is_in plan.root blanks ≡ false
      → Follows e fresh drawn plan (with_leaf leaf identity tree.privs) (sort_nodes body.nodes)
      → ((process_commit e tree (relayed leaf blanks body) identity).1 ≡ secret epoch_secret)
        × (lookup plan.next_epoch
              (process_commit e tree (relayed leaf blanks body) identity).0.epochs
            ≡ some epoch_secret)
  unfolding process_commit
  process_commit-build_commit epoch_secret root_drawn identity body leaf blanks tree built on_path
        kept follows =
      let (p, is_pub, all, found, epoch, sealed) =
        build_commit-parts epoch_secret root_drawn body built in
      let start = with_leaf leaf identity tree.privs in
      let nodes = sort_nodes body.nodes in
      let learned =
        process_nodes-learn e fresh drawn plan nodes start
          (All-sort_nodes (IsBuilt e fresh drawn plan) body.nodes all) follows in
      let there = has_node-sort_nodes plan.root body.nodes ∙ found plan.root ∙ on_path in
      let key : lookup plan.root (delete_all blanks (process_nodes e nodes start))
          ≡ some (fresh plan.root) =
        lookup-delete_all plan.root blanks (process_nodes e nodes start) kept
        ∙ ap (lookup plan.root) learned
        ∙ lookup-learn e fresh drawn plan plan.root nodes start there in
      let public : p ≡ public_of (fresh plan.root) =
        some-injective _ _ (sym is_pub ∙ pub_of-fresh on_path) in
      let opens : open_ (fresh plan.root) body.root_ciphertext ≡ some epoch_secret =
        ap (open_ (fresh plan.root)) (sealed ∙ ap (λ v. seal v root_drawn epoch_secret) public)
        ∙ open-seal (fresh plan.root) root_drawn epoch_secret in
      let (learns, stored) =
        finish-secret (relayed leaf blanks body)
          (record tree { privs = delete_all blanks (process_nodes e nodes start) })
          (fresh plan.root) epoch_secret key opens in
      (
        learns,
        ap (λ n. lookup n (process_commit e tree (relayed leaf blanks body) identity).0.epochs)
              (sym epoch)
            ∙ stored,
      )
