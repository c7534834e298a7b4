-- ===== src/Examples/Merkle.antt =====
-- The theorem on `merkleVerify` of backend/static/js/lib/crypto.js at a concrete tree.
use cryptis_dchat_project.Prelude.{
  ℕ, ◌+◌, ◌%◌, ◌≡◌, ◌⊎◌, refl, true, false, List, [], ◌∷◌, ◌++◌, arith, replicate,
}
use cryptis_dchat_project.Crypto.Merkle.{Bytes, hex, unhex, ProofStep, climb, merkle_verify}
use cryptis_dchat_project.Crypto.Merkle.Hex.{AreBytes}
use cryptis_dchat_project.Crypto.Merkle.Events.{
  Collision, Tree, leaf, node, root_of, IsLeaf, checked, hashed, ProofOf, at_leaf, in_left,
  merkle_verify_complete,
}
use cryptis_dchat_project.Crypto.Merkle.Binding.{merkle_verify-IsLeaf}

-- A digest of 32 bytes of which the first is a weighted sum.
abbrev sum_from : ℕ → Bytes → ℕ
sum_from n [] = n
sum_from n (b ∷ bs) = sum_from (n + n + n + b) bs

abbrev digest : Bytes → Bytes
digest bs = sum_from 1 bs % 256 ∷ replicate 31 0

digest-AreBytes : (bs : Bytes) → AreBytes (digest bs)
digest-AreBytes bs = ground arith

abbrev tree : Tree
tree = node (leaf (171 ∷ [])) (leaf (5 ∷ []))

-- The text `ab` is the event 171.
abbrev proof : List ProofStep
proof = record { left = false; hash = hex (root_of digest (leaf (5 ∷ []))) } ∷ []

proves : merkle_verify digest (97 ∷ 98 ∷ []) proof (hex (root_of digest tree)) ≡ true
unfolding merkle_verify climb hex unhex root_of
proves = refl

merkle_verify-IsLeaf_example :
    IsLeaf (unhex (97 ∷ 98 ∷ [])) tree
    ⊎ Collision digest (checked digest (97 ∷ 98 ∷ []) proof) (hashed digest tree)
merkle_verify-IsLeaf_example =
    merkle_verify-IsLeaf digest (λ b. refl) tree (97 ∷ 98 ∷ []) proof digest-AreBytes proves

path :
    ProofOf digest tree
      (171 ∷ [])
      ([] ++ record { left = false; hash = hex (root_of digest (leaf (5 ∷ []))) } ∷ [])
path = in_left (at_leaf (171 ∷ []))

merkle_verify_complete_example :
    merkle_verify digest
      (hex (171 ∷ []))
      ([] ++ record { left = false; hash = hex (root_of digest (leaf (5 ∷ []))) } ∷ [])
      (hex (root_of digest tree))
    ≡ true
merkle_verify_complete_example =
    merkle_verify_complete digest digest-AreBytes tree (171 ∷ []) _ (omega arith, tt) path
