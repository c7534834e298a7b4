-- ===== src/Decode/Names.antt =====
-- The name of a file that is attached: `splitName` of backend/static/js/app/core.js.
use cryptis_dchat_project.Prelude.{
  ℕ, suc, zero, ◌≡◌, refl, ap, ◌==◌, if◌then◌else◌, Option, none, some, [], ◌∷◌, ◌++◌, take, drop,
  append-nil,
}
use cryptis_dchat_project.Crypto.Signing.{Bytes}

-- `lastIndexOf('.')`, none for -1.
unfoldable pub later_dot : ℕ → Option ℕ → Option ℕ
later_dot c (some i) = some (suc i)
later_dot c none = if c == 46 then some 0 else none

unfoldable pub last_dot : Bytes → Option ℕ
unfolding later_dot
last_dot [] = none
last_dot (c ∷ name) = later_dot c (last_dot name)

unfoldable pub split_at : Bytes → Option ℕ → Bytes × Bytes
split_at name none = (name, [])
split_at name (some zero) = (name, [])
split_at name (some (suc i)) = (take (suc i) name, drop (suc i) name)

-- The name without its ending, and the ending with its dot.
unfoldable pub split_name : Bytes → Bytes × Bytes
unfolding split_at last_dot
split_name name = split_at name (last_dot name)

take-append-drop : (n : ℕ) (s : Bytes) → take n s ++ drop n s ≡ s
take-append-drop zero s = refl
take-append-drop (suc n) [] = refl
take-append-drop (suc n) (c ∷ s) = ap (λ r. c ∷ r) (take-append-drop n s)

split_at-whole :
    (name : Bytes) (dot : Option ℕ) → (split_at name dot).0 ++ (split_at name dot).1 ≡ name
unfolding split_at
split_at-whole name none = append-nil name
split_at-whole name (some zero) = append-nil name
split_at-whole name (some (suc i)) = take-append-drop (suc i) name

-- The two parts of a name are the name again.
pub split_name-whole : (name : Bytes) → (split_name name).0 ++ (split_name name).1 ≡ name
unfolding split_name
split_name-whole name = split_at-whole name (last_dot name)
