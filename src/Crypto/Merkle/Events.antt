-- ===== src/Crypto/Merkle/Events.antt =====
-- The tree of the events that `merkleVerify` of backend/static/js/lib/crypto.js checks proofs against, what the check
-- and the tree hash, and that the proofs of the tree are taken.
use cryptis_dchat_project.Prelude.{
  ℕ, ◌≡◌, refl, ◌∙◌, if◌then◌else◌, true, false, ◌⊎◌, List, [], ◌∷◌, ◌++◌,
}
use cryptis_dchat_project.Crypto.Merkle.{
  Bytes, hex, unhex, ProofStep, climb_step, climb, merkle_verify, text_eq,
}
use cryptis_dchat_project.Crypto.Merkle.Hex.{AreBytes, unhex-hex, text_eq_refl}

-- A tree of events, with their hashes as bytes.
pub data Tree : Type 0 where
  leaf : Bytes → Tree
  node : Tree → Tree → Tree

-- What a step of a proof hashes.
abbrev pub step_input : ProofStep → Bytes → Bytes
step_input s acc = if s.left then 1 ∷ unhex s.hash ++ acc else 1 ∷ acc ++ unhex s.hash

-- The byte strings of the events of a tree.
abbrev pub IsLeaf : Bytes → Tree → Type 0
IsLeaf e (leaf f) = e ≡ f
IsLeaf e (node l r) = IsLeaf e l ⊎ IsLeaf e r

abbrev pub IsIn : Bytes → List Bytes → Type 0
IsIn x [] = ⊥
IsIn x (y ∷ ys) = (x ≡ y) ⊎ IsIn x ys

module _ (sha256 : Bytes → Bytes) where
  unfoldable pub root_of : Tree → Bytes
  root_of (leaf e) = sha256 (0 ∷ e)
  root_of (node l r) = sha256 (1 ∷ root_of l ++ root_of r)

  -- The steps from an event of a tree to its root.
  pub data ProofOf : Tree → Bytes → List ProofStep → Type 0 where
    at_leaf : (e : Bytes) → ProofOf (leaf e) e []
    in_left :
        {l r : Tree} {e : Bytes} {proof : List ProofStep}
        → ProofOf l e proof
        → ProofOf (node l r) e (proof ++ record { left = false; hash = hex (root_of r) } ∷ [])
    in_right :
        {l r : Tree} {e : Bytes} {proof : List ProofStep}
        → ProofOf r e proof
        → ProofOf (node l r) e (proof ++ record { left = true; hash = hex (root_of l) } ∷ [])

  -- What the check of a proof hashes after the event, from the bytes that it starts with.
  unfoldable pub climbed : Bytes → List ProofStep → List Bytes
  climbed acc [] = []
  climbed acc (s ∷ proof) = step_input s acc ∷ climbed (climb_step sha256 s acc) proof

  -- What the check of a proof of an event hashes.
  unfoldable pub checked : List ℕ → List ProofStep → List Bytes
  unfolding climbed
  checked event_hash proof = (0 ∷ unhex event_hash) ∷ climbed (sha256 (0 ∷ unhex event_hash)) proof

  -- What the tree hashes.
  unfoldable pub hashed : Tree → List Bytes
  hashed (leaf e) = (0 ∷ e) ∷ []
  hashed (node l r) = (1 ∷ root_of l ++ root_of r) ∷ hashed l ++ hashed r

  -- Two different byte strings with one digest, one of each list.
  abbrev pub Collision : List Bytes → List Bytes → Type 0
  Collision xs ys =
      (x : Bytes) × (y : Bytes) × IsIn x xs
      × IsIn y ys
      × (text_eq x y ≡ false)
      × (sha256 x ≡ sha256 y)

module _ (sha256 : Bytes → Bytes) where
  climb-append :
      (acc : Bytes) (p q : List ProofStep)
      → climb sha256 acc (p ++ q) ≡ climb sha256 (climb sha256 acc p) q
  unfolding climb
  climb-append acc [] q = refl
  climb-append acc (s ∷ p) q = climb-append (climb_step sha256 s acc) p q

module _ (sha256 : Bytes → Bytes) (digest : (b : Bytes) → AreBytes (sha256 b)) where
  pub climb-AreBytes :
      (acc : Bytes) (proof : List ProofStep) → AreBytes acc → AreBytes (climb sha256 acc proof)
  unfolding climb
  climb-AreBytes acc [] h = h
  climb-AreBytes acc (s ∷ proof) h = climb-AreBytes (climb_step sha256 s acc) proof (digest _)

  pub root_of-AreBytes : (t : Tree) → AreBytes (root_of sha256 t)
  unfolding root_of
  root_of-AreBytes (leaf e) = digest _
  root_of-AreBytes (node l r) = digest _

  climb-ProofOf :
      {t : Tree} {e : Bytes} {proof : List ProofStep}
      → ProofOf sha256 t e proof
      → climb sha256 (sha256 (0 ∷ e)) proof ≡ root_of sha256 t
  unfolding climb root_of
  climb-ProofOf (at_leaf e) = refl
  climb-ProofOf (in_left {l = l} {r = r} {e = e} {proof = proof} p) =
      climb-append sha256 (sha256 (0 ∷ e)) proof _
      ∙ rw (climb-ProofOf p, unhex-hex (root_of sha256 r) (root_of-AreBytes r))
  climb-ProofOf (in_right {l = l} {r = r} {e = e} {proof = proof} p) =
      climb-append sha256 (sha256 (0 ∷ e)) proof _
      ∙ rw (climb-ProofOf p, unhex-hex (root_of sha256 l) (root_of-AreBytes l))

  -- Every event of a tree is verified against the tree's root by the steps from it to the root, for a
  -- digest of bytes.
  pub merkle_verify_complete :
      (t : Tree) (e : Bytes) (proof : List ProofStep)
      → AreBytes e
      → ProofOf sha256 t e proof
      → merkle_verify sha256 (hex e) proof (hex (root_of sha256 t)) ≡ true
  unfolding merkle_verify
  merkle_verify_complete t e proof h p =
      rw (unhex-hex e h, climb-ProofOf p) (text_eq_refl (hex (root_of sha256 t)))
