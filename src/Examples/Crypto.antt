-- ===== src/Examples/Crypto.antt =====
-- The theorems on backend/static/js/lib/crypto.js at concrete bytes.
use cryptis_dchat_project.Prelude.{ℕ, ◌≡◌, refl, List, [], ◌∷◌, some, arith, get_elem?}
use cryptis_dchat_project.Crypto.Gf.{gf_mul}
use cryptis_dchat_project.Crypto.Gf.Field.{gf_mul_assoc}
use cryptis_dchat_project.Crypto.Shamir.{shamir_split, shamir_combine}
use cryptis_dchat_project.Crypto.Shamir.RoundTrip.{DrawsByte, shamir_combine-shamir_split}

abbrev pub sevens : ℕ → List ℕ
sevens pos = 7 ∷ []

pub draws_sevens : DrawsByte sevens
draws_sevens pos = (7, omega arith, refl)

abbrev pub secret : List ℕ
secret = 0x41 ∷ 0xff ∷ []

second_share : get_elem? (shamir_split sevens secret 3) 1 ≡ some (2 ∷ 79 ∷ 241 ∷ [])
unfolding shamir_split gf_mul
second_share = refl

third_share : get_elem? (shamir_split sevens secret 3) 2 ≡ some (3 ∷ 72 ∷ 246 ∷ [])
unfolding shamir_split gf_mul
third_share = refl

shamir_combine-shamir_split_example :
    shamir_combine ((2 ∷ 79 ∷ 241 ∷ []) ∷ (3 ∷ 72 ∷ 246 ∷ []) ∷ []) ≡ some secret
shamir_combine-shamir_split_example =
    shamir_combine-shamir_split sevens draws_sevens secret 3 1 2 (2 ∷ 79 ∷ 241 ∷ [])
      (3 ∷ 72 ∷ 246 ∷ []) (omega arith, (omega arith, tt)) (omega arith) (omega arith) (omega arith)
      (λ e. omega arith) second_share third_share

gf_mul_assoc_example : gf_mul (gf_mul 0x53 0x02) 0xff ≡ gf_mul 0x53 (gf_mul 0x02 0xff)
gf_mul_assoc_example = gf_mul_assoc 0x53 0x02 0xff (omega arith) (omega arith) (omega arith)
