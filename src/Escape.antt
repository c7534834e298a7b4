-- ===== src/Escape.antt =====
-- The escaping of text for HTML: `esc` of backend/static/js/app/core.js, which lib/markdown.js has
-- too. A text is a list of code units.
pub mod OnePass
use cryptis_dchat_project.Prelude.{ℕ, ◌==◌, if◌then◌else◌, List, [], ◌∷◌, ◌++◌}

-- `s.replace(/c/g, r)` for a pattern of one character.
unfoldable pub replace : ℕ → List ℕ → List ℕ → List ℕ
replace c r [] = []
replace c r (x ∷ s) = (if x == c then r else (x ∷ [])) ++ replace c r s

abbrev pub amp_entity : List ℕ
amp_entity = 38 ∷ 97 ∷ 109 ∷ 112 ∷ 59 ∷ []

abbrev pub lt_entity : List ℕ
lt_entity = 38 ∷ 108 ∷ 116 ∷ 59 ∷ []

abbrev pub gt_entity : List ℕ
gt_entity = 38 ∷ 103 ∷ 116 ∷ 59 ∷ []

abbrev pub quote_entity : List ℕ
quote_entity = 38 ∷ 113 ∷ 117 ∷ 111 ∷ 116 ∷ 59 ∷ []

abbrev pub apostrophe_entity : List ℕ
apostrophe_entity = 38 ∷ 35 ∷ 51 ∷ 57 ∷ 59 ∷ []

unfoldable pub esc : List ℕ → List ℕ
unfolding replace
esc v = replace 39 apostrophe_entity (
    replace 34 quote_entity (replace 62 gt_entity (replace 60 lt_entity (replace 38 amp_entity v))))
