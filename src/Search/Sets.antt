-- ===== src/Search/Sets.antt =====
-- Lists of texts as sets, as `words` and `wordTokens` of backend/static/js/lib/crypto.js use them.
use cryptis_dchat_project.Prelude.{
  ◌≡◌, ◌≢◌, ◌⊎◌, inl, inr, refl, sym, ap, ◌∙◌, if◌then◌else◌, Bool, true, false, not, ◌||◌, List,
  [], ◌∷◌, ◌++◌, map, filter, any-append, arith,
}
use cryptis_dchat_project.Crypto.Merkle.{text_eq}
use cryptis_dchat_project.Crypto.Merkle.Hex.{text_eq-same, text_eq_refl}
use cryptis_dchat_project.Search.{Text, has, distinct, insert_text, sort_texts}

pub has-append : (t : Text) (xs ys : List Text) → has t (xs ++ ys) ≡ (has t xs || has t ys)
unfolding has
has-append t xs ys = any-append (text_eq t) xs ys

pub has-insert : (t u : Text) (us : List Text) → has t (insert_text u us) ≡ has t (u ∷ us)
unfolding has insert_text
has-insert t u [] = refl
has-insert t u (v ∷ us) = ground (arith, has-insert t u us)

pub has-sort : (t : Text) (us : List Text) → has t (sort_texts us) ≡ has t us
unfolding sort_texts has
has-sort t [] = refl
has-sort t (u ∷ us) = has-insert t u (sort_texts us) ∙ ap (λ b. text_eq t u || b) (has-sort t us)

pub has-nil : (t : Text) → has t [] ≢ true
unfolding has
has-nil t h = cc h

-- A text of a list is its first one or one of the others.
pub has-here : (t u : Text) (us : List Text) → t ≡ u → has t (u ∷ us) ≡ true
unfolding has
has-here t u us e = ap (λ b. b || has t us) (ap (text_eq t) (sym e) ∙ text_eq_refl t)

pub has-there : (t u : Text) (us : List Text) → has t us ≡ true → has t (u ∷ us) ≡ true
unfolding has
has-there t u us h = ground (arith, h)

pub has-cons : (t u : Text) (us : List Text) → has t (u ∷ us) ≡ true → (t ≡ u) ⊎ (has t us ≡ true)
unfolding has
has-cons t u us h = at (text_eq t u) refl
  where
    at : (b : Bool) → b ≡ text_eq t u → (t ≡ u) ⊎ (has t us ≡ true)
    at true same = inl (text_eq-same t u (sym same))
    at false same = inr (ap (λ b. b || has t us) same ∙ h)

pub has-filter :
    (t : Text) (p : Text → Bool) (us : List Text)
    → p t ≡ true
    → has t us ≡ true
    → has t (filter p us) ≡ true
has-filter t p [] kept h = h
has-filter t p (u ∷ us) kept h = elim (has-cons t u us h) [
  | inl e ↦
      ap (λ b. has t (if b then u ∷ filter p us else filter p us)) (ap p (sym e) ∙ kept)
      ∙ has-here t u (filter p us) e
  | inr k ↦ at (p u) (has-filter t p us kept k)
]
  where
    at :
        (b : Bool)
        → has t (filter p us) ≡ true
        → has t (if b then u ∷ filter p us else filter p us) ≡ true
    at true k = has-there t u (filter p us) k
    at false k = k

-- What a filter leaves was there, and passes its test.
pub has-filter_only :
    (t : Text) (p : Text → Bool) (us : List Text)
    → has t (filter p us) ≡ true
    → (p t ≡ true) × (has t us ≡ true)
has-filter_only t p [] h = absurd (has-nil t h)
has-filter_only t p (u ∷ us) h = at (has-filter_only t p us) (p u) refl h
  where
    at :
        (has t (filter p us) ≡ true → (p t ≡ true) × (has t us ≡ true))
        → (b : Bool) → b ≡ p u
        → has t (if b then u ∷ filter p us else filter p us) ≡ true
        → (p t ≡ true) × (has t (u ∷ us) ≡ true)
    at ih true kept k = elim (has-cons t u (filter p us) k) [
      | inl e ↦ (ap p e ∙ sym kept, has-here t u us e)
      | inr l ↦ ((ih l).0, has-there t u us (ih l).1)
    ]
    at ih false kept k = ((ih k).0, has-there t u us (ih k).1)

pub has-distinct : (t : Text) (us : List Text) → has t us ≡ true → has t (distinct us) ≡ true
unfolding distinct
has-distinct t [] h = h
has-distinct t (u ∷ us) h = elim (has-cons t u us h) [
  | inl e ↦ has-here t u _ e
  | inr k ↦ at (text_eq t u) refl (has-distinct t us k)
]
  where
    at :
        (b : Bool)
        → b ≡ text_eq t u
        → has t (distinct us) ≡ true
        → has t (u ∷ filter (λ v. not (text_eq v u)) (distinct us)) ≡ true
    at true same k = has-here t u _ (text_eq-same t u (sym same))
    at false same k =
        has-there t u _ (has-filter t (λ v. not (text_eq v u)) (distinct us) (ap not (sym same)) k)

pub has-distinct_only : (t : Text) (us : List Text) → has t (distinct us) ≡ true → has t us ≡ true
unfolding distinct
has-distinct_only t [] h = h
has-distinct_only t (u ∷ us) h = elim (has-cons t u _ h) [
  | inl e ↦ has-here t u us e
  | inr k ↦
      has-there t u us
        (has-distinct_only t us (has-filter_only t (λ v. not (text_eq v u)) (distinct us) k).1)
]

pub has-map :
    (t : Text) (f : Text → Text) (us : List Text) → has t us ≡ true → has (f t) (map f us) ≡ true
has-map t f [] h = absurd (has-nil t h)
has-map t f (u ∷ us) h = elim (has-cons t u us h) [
  | inl e ↦ has-here (f t) (f u) (map f us) (ap f e)
  | inr k ↦ has-there (f t) (f u) (map f us) (has-map t f us k)
]
