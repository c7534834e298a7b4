-- ===== src/Escape/OnePass.antt =====
-- `esc` of backend/static/js/app/core.js, against the entity of each character.
use mathlib.Core.Path.{subst}
use cryptis_dchat_project.Prelude.{
  ℕ, ◌==◌, ◌≡◌, refl, sym, ap, ◌∙◌, if◌then◌else◌, Bool, false, Bool-cases, inl, inr, List, [], ◌∷◌,
  ◌++◌, append_assoc, arith, ap₂, ◌||◌, any, any-append, if-holds,
}
use cryptis_dchat_project.Escape.{
  replace, amp_entity, lt_entity, gt_entity, quote_entity, apostrophe_entity, esc,
}

-- What stands for a character.
unfoldable pub entity : ℕ → List ℕ
entity x =
    if x == 38
    then amp_entity
    else (if x == 60
        then lt_entity
        else (if x == 62
            then gt_entity
            else (if x == 34
                then quote_entity
                else (if x == 39 then apostrophe_entity else (x ∷ [])))))

unfoldable pub escaped : List ℕ → List ℕ
unfolding entity
escaped [] = []
escaped (x ∷ s) = entity x ++ escaped s

replace-append : (c : ℕ) (r s t : List ℕ) → replace c r (s ++ t) ≡ replace c r s ++ replace c r t
unfolding replace
replace-append c r [] t = refl
replace-append c r (x ∷ s) t =
    ap (λ u. (if x == c then r else (x ∷ [])) ++ u) (replace-append c r s t)
    ∙ sym (append_assoc (if x == c then r else (x ∷ [])) (replace c r s) (replace c r t))

esc-append : (s t : List ℕ) → esc (s ++ t) ≡ esc s ++ esc t
unfolding esc
esc-append s t = rw (
  replace-append 38 amp_entity s t,
  replace-append 60 lt_entity (replace 38 amp_entity s) (replace 38 amp_entity t),
  replace-append 62 gt_entity,
  replace-append 34 quote_entity,
  replace-append 39 apostrophe_entity,
)

esc-entity : (x : ℕ) → esc (x ∷ []) ≡ entity x
unfolding esc replace entity
esc-entity x = elim (Bool-cases (x == 38)) [
  | inl e ↦ let at : x ≡ 38 = ground arith in subst (λ y. esc (y ∷ []) ≡ entity y) (sym at) refl
  | inr a ↦ elim (Bool-cases (x == 60)) [
    | inl e ↦ let at : x ≡ 60 = ground arith in subst (λ y. esc (y ∷ []) ≡ entity y) (sym at) refl
    | inr b ↦ elim (Bool-cases (x == 62)) [
      | inl e ↦ let at : x ≡ 62 = ground arith in subst (λ y. esc (y ∷ []) ≡ entity y) (sym at) refl
      | inr c ↦ elim (Bool-cases (x == 34)) [
        | inl e ↦
            let at : x ≡ 34 = ground arith in subst (λ y. esc (y ∷ []) ≡ entity y) (sym at) refl
        | inr d ↦ elim (Bool-cases (x == 39)) [
          | inl e ↦
              let at : x ≡ 39 = ground arith in subst (λ y. esc (y ∷ []) ≡ entity y) (sym at) refl
          | inr e ↦ rw (a, b, c, d, e)
        ]
      ]
    ]
  ]
]

-- The five replacements of `esc`, one after the other, give every character its entity once: they are
-- one pass, and no replacement touches what an earlier one wrote.
pub esc-escaped : (s : List ℕ) → esc s ≡ escaped s
unfolding esc replace escaped
esc-escaped [] = refl
esc-escaped (x ∷ s) = esc-append (x ∷ []) s ∙ ap₂ ◌++◌ (esc-entity x) (esc-escaped s)

abbrev pub is_markup : ℕ → Bool
is_markup c = c == 60 || c == 62 || c == 34 || c == 39

abbrev HasNone : List ℕ → Type 0
HasNone l = any is_markup l ≡ false

entity-HasNone : (x : ℕ) → HasNone (entity x)
unfolding entity
entity-HasNone x =
    if-holds HasNone (x == 38) _ _ (λ e. refl)
      (λ a.
        if-holds HasNone (x == 60) _ _ (λ e. refl)
          (λ b.
            if-holds HasNone (x == 62) _ _ (λ e. refl)
              (λ c.
                if-holds HasNone (x == 34) _ _ (λ e. refl)
                  (λ d. if-holds HasNone (x == 39) _ _ (λ e. refl) (λ e. rw (b, c, d, e))))))

any-escaped : (s : List ℕ) → any is_markup (escaped s) ≡ false
unfolding escaped
any-escaped [] = refl
any-escaped (x ∷ s) =
    rw (any-append is_markup (entity x) (escaped s), entity-HasNone x, any-escaped s)

-- An escaped text has none of the characters `<`, `>` and both quotation marks.
pub esc-inert : (s : List ℕ) → any is_markup (esc s) ≡ false
esc-inert s = ap (any is_markup) (esc-escaped s) ∙ any-escaped s
