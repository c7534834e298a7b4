-- ===== src/Crypto/Shamir/Tests.antt =====
-- Runs of `shamirSplit` and `shamirCombine` of backend/static/js/lib/crypto.js.
use cryptis_dchat_project.Prelude.{[], ◌∷◌, ◌≡◌, refl, some}
use cryptis_dchat_project.Crypto.Shamir.{shamir_split, shamir_combine}
use cryptis_dchat_project.Crypto.Gf.{gf_mul, gf_inv}

split_runs :
    shamir_split (λ pos. 7 ∷ []) (0x41 ∷ 0xff ∷ []) 3
    ≡ (1 ∷ 70 ∷ 248 ∷ []) ∷ (2 ∷ 79 ∷ 241 ∷ []) ∷ (3 ∷ 72 ∷ 246 ∷ []) ∷ []
unfolding shamir_split gf_mul
split_runs = refl

combine_runs :
    shamir_combine ((2 ∷ 79 ∷ 241 ∷ []) ∷ (3 ∷ 72 ∷ 246 ∷ []) ∷ []) ≡ some (0x41 ∷ 0xff ∷ [])
unfolding shamir_combine gf_mul gf_inv
combine_runs = refl
