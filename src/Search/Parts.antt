-- ===== src/Search/Parts.antt =====
-- The prefixes of words, the groups of a search and the lists of messages, as the search of backend/static/js/lib/crypto.js
-- and app/data.js has them.
use cryptis_dchat_project.Prelude.{
  ℕ, zero, suc, ◌+◌, ◌-◌, ◌≤◌, ◌<◌, ◌≡◌, ◌≢◌, ◌⊎◌, inl, inr, refl, sym, ap, ap₂, ◌∙◌, min, Bool,
  true, false, ◌&&◌, ◌||◌, ltb, some, List, [], ◌∷◌, ◌++◌, any, All, take, length, get_elem?,
  filter, Bool-cases, arith,
}
use cryptis_dchat_project.Search.{
  Text, has, prefixes, all_prefixes, is_candidate, has_each, Stored, is_found, search_messages,
}
use cryptis_dchat_project.Search.Sets.{has-append, has-nil, has-here, has-there, has-cons}

has-prefixes :
    (n count m : ℕ) (w : Text) → n ≤ m → m < n + count → has (take m w) (prefixes n count w) ≡ true
unfolding prefixes
has-prefixes n zero m w h k = absurd (omega arith)
has-prefixes n (suc count) m w h k = elim (n_or_more n m h) [
  | inl e ↦ has-here (take m w) (take n w) _ (ap (λ i. take i w) e)
  | inr more ↦ has-there (take m w) (take n w) _ (has-prefixes (n + 1) count m w more (omega arith))
]
  where
    n_or_more : (n m : ℕ) → n ≤ m → (m ≡ n) ⊎ (n + 1 ≤ m)
    n_or_more n m h = ground arith

has-append_left : (t : Text) (xs ys : List Text) → has t xs ≡ true → has t (xs ++ ys) ≡ true
has-append_left t xs ys h = has-append t xs ys ∙ ap (λ b. b || has t ys) h

pub or_true : (a b : Bool) → b ≡ true → (a || b) ≡ true
or_true true b h = refl
or_true false b h = h

has-append_right : (t : Text) (xs ys : List Text) → has t ys ≡ true → has t (xs ++ ys) ≡ true
has-append_right t xs ys h = has-append t xs ys ∙ or_true (has t xs) (has t ys) h

pub has-all_prefixes :
    (m : ℕ) (w : Text) (ws : List Text)
    → 2 ≤ m
    → m ≤ length w
    → m ≤ 12
    → has w ws ≡ true
    → has (take m w) (all_prefixes ws) ≡ true
unfolding all_prefixes
has-all_prefixes m w [] low fits high h = absurd (has-nil w h)
has-all_prefixes m w (u ∷ us) low fits high h = elim (has-cons w u us h) [
  | inl e ↦ has-append_left (take m w) _ (all_prefixes us) (
      ap (λ v. has (take m w) (prefixes 2 (min (length v) 12 - 1) v)) (sym e)
      ∙ has-prefixes 2 (min (length w) 12 - 1) m w low (omega arith))
  | inr k ↦
      has-append_right (take m w) _ (all_prefixes us) (has-all_prefixes m w us low fits high k)
]

pub take-prefix : (n : ℕ) (v r : Text) → take n v ≡ take (min n (length v)) (v ++ r)
take-prefix zero v r = ap (λ m. take m (v ++ r)) (min_zero (length v))
  where
    min_zero : (m : ℕ) → 0 ≡ min 0 m
    min_zero m = omega arith
take-prefix (suc n) [] r = ap (λ m. take m r) (min_none n)
  where
    min_none : (n : ℕ) → 0 ≡ min (suc n) 0
    min_none n = omega arith
take-prefix (suc n) (c ∷ v) r =
    ap (λ t. c ∷ t) (take-prefix n v r) ∙ ap (λ m. take m (c ∷ (v ++ r))) (min_suc n (length v))
  where
    min_suc : (n m : ℕ) → suc (min n m) ≡ min (suc n) (suc m)
    min_suc n m = omega arith

pub both : {a b : Bool} → a ≡ true → b ≡ true → (a && b) ≡ true
both h k = ap₂ ◌&&◌ h k

parts : (a b : Bool) → (a && b) ≡ true → (a ≡ true) × (b ≡ true)
parts true b h = (refl, h)
parts false b h = absurd (cc h)

has_each-take :
    (n : ℕ) (gs : List (List Text)) (tokens : List Text)
    → has_each gs tokens ≡ true
    → has_each (take n gs) tokens ≡ true
unfolding has_each
has_each-take zero gs tokens h = refl
has_each-take (suc n) [] tokens h = refl
has_each-take (suc n) (g ∷ gs) tokens h =
    let (here, rest) = parts (any (λ t. has t tokens) (take 32 g)) _ h in
    both here (has_each-take n gs tokens rest)

pub is_candidate-each :
    (gs : List (List Text)) (tokens : List Text)
    → gs ≢ []
    → has_each gs tokens ≡ true
    → is_candidate gs tokens ≡ true
unfolding is_candidate
is_candidate-each [] tokens some_group h = absurd (some_group refl)
is_candidate-each (g ∷ gs) tokens some_group h = has_each-take 8 (g ∷ gs) tokens h

pub All-take : (P : Text → Type 0) (n : ℕ) (us : List Text) → All P us → All P (take n us)
All-take P zero us h = tt
All-take P (suc n) [] h = tt
All-take P (suc n) (u ∷ us) h = (h.0, All-take P n us h.1)

pub All-has : {P : Text → Type 0} (us : List Text) → ((w : Text) → has w us ≡ true → P w) → All P us
All-has [] h = tt
All-has (u ∷ us) h = (h u (has-here u u us refl), All-has us (λ w k. h w (has-there w u us k)))

-- A message that is found is at the place of the number of newer ones that are found.
pub get_elem?-filter :
    (f : Stored → Bool) (newer older : List Stored) (m : Stored)
    → f m ≡ true
    → get_elem? (filter f (newer ++ m ∷ older)) (length (filter f newer)) ≡ some m
get_elem?-filter f [] older m h = rw h refl
get_elem?-filter f (n ∷ newer) older m h = elim (Bool-cases (f n)) [
  | inl kept ↦ rw kept (get_elem?-filter f newer older m h)
  | inr left_out ↦ rw left_out (get_elem?-filter f newer older m h)
]

pub get_elem?-take : (n i : ℕ) (xs : List Stored) → i < n → get_elem? (take n xs) i ≡ get_elem? xs i
get_elem?-take zero i xs h = absurd (omega arith)
get_elem?-take (suc n) i [] h = refl
get_elem?-take (suc n) zero (x ∷ xs) h = refl
get_elem?-take (suc n) (suc i) (x ∷ xs) h = get_elem?-take n i xs (omega arith)

pub length-take : (n : ℕ) (xs : List Stored) → length (take n xs) ≤ n
length-take zero xs = omega arith
length-take (suc n) [] = omega arith
length-take (suc n) (x ∷ xs) = omega (arith, length-take n xs)

take-All : (P : Stored → Type 0) (n : ℕ) (xs : List Stored) → All P xs → All P (take n xs)
take-All P zero xs h = tt
take-All P (suc n) [] h = tt
take-All P (suc n) (x ∷ xs) h = (h.0, take-All P n xs h.1)

filter-All :
    (P : Stored → Type 0) (f : Stored → Bool) (xs : List Stored)
    → ((m : Stored) → f m ≡ true → P m)
    → All P (filter f xs)
filter-All P f [] h = tt
filter-All P f (x ∷ xs) h = elim (Bool-cases (f x)) [
  | inl kept ↦ rw kept (h x kept, filter-All P f xs h)
  | inr left_out ↦ rw left_out (filter-All P f xs h)
]

-- Nothing that the member has cleared is found.
pub search_messages-cleared :
    (groups : List (List Text)) (cleared_seq : ℕ) (stored : List Stored)
    → All (λ (m : Stored). cleared_seq < m.seq) (search_messages groups cleared_seq stored)
unfolding search_messages is_found
search_messages-cleared groups cleared_seq stored = take-All _ 50 _ (
    filter-All _ (is_found groups cleared_seq) stored
      (λ m found. later (parts (is_candidate groups m.tokens) _ found).1))
  where
    later : {a b : ℕ} → ltb a b ≡ true → a < b
    later h = ground (arith, h)
