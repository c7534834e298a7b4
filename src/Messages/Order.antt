-- ===== src/Messages/Order.antt =====
-- Sorting by sequence number, as in backend/static/js/app/data.js.
use cryptis_dchat_project.Prelude.{
  ℕ, ◌≤◌, ◌≡◌, refl, ap, ◌∙◌, leb, leb→le, if◌then◌else◌, Bool, false, Bool-cases, ◌||◌, inl, inr,
  List, [], ◌∷◌, ◌++◌, any, filter, arith, All, if-holds,
}
use cryptis_dchat_project.Messages.{Message, insert_by_seq, sort_by_seq}

-- No message comes before one with a smaller sequence number.
abbrev pub AtLeast : ℕ → List Message → Type 0
AtLeast n ms = All (λ m. n ≤ m.seq) ms

abbrev pub IsSorted : List Message → Type 0
IsSorted [] = Unit
IsSorted (m ∷ ms) = AtLeast m.seq ms × IsSorted ms

AtLeast-le : (n k : ℕ) (ms : List Message) → n ≤ k → AtLeast k ms → AtLeast n ms
AtLeast-le n k [] le h = tt
AtLeast-le n k (m ∷ ms) le (h, hs) = (omega arith, AtLeast-le n k ms le hs)

AtLeast-insert_by_seq :
    (n : ℕ) (m : Message) (ms : List Message)
    → n ≤ m.seq
    → AtLeast n ms
    → AtLeast n (insert_by_seq m ms)
unfolding insert_by_seq
AtLeast-insert_by_seq n m [] le h = (le, tt)
AtLeast-insert_by_seq n m (x ∷ xs) le (h, hs) =
    if-holds (AtLeast n) (leb m.seq x.seq) _ _ (λ e. (le, (h, hs)))
      (λ e. (h, AtLeast-insert_by_seq n m xs le hs))

gt : (a b : ℕ) → leb a b ≡ false → b ≤ a
gt a b h = ground arith

insert_by_seq-IsSorted :
    (m : Message) (ms : List Message) → IsSorted ms → IsSorted (insert_by_seq m ms)
unfolding insert_by_seq
insert_by_seq-IsSorted m [] h = (tt, tt)
insert_by_seq-IsSorted m (x ∷ xs) (h, hs) =
    if-holds IsSorted (leb m.seq x.seq) _ _
      (λ e. ((leb→le _ _ e, AtLeast-le m.seq x.seq xs (leb→le _ _ e) h), (h, hs)))
      (λ e. (AtLeast-insert_by_seq x.seq m xs (gt _ _ e) h, insert_by_seq-IsSorted m xs hs))

pub sort_by_seq-IsSorted : (ms : List Message) → IsSorted (sort_by_seq ms)
unfolding sort_by_seq
sort_by_seq-IsSorted [] = tt
sort_by_seq-IsSorted (m ∷ ms) = insert_by_seq-IsSorted m (sort_by_seq ms) (sort_by_seq-IsSorted ms)

any-insert_by_seq :
    (p : Message → Bool) (m : Message) (ms : List Message)
    → any p (insert_by_seq m ms) ≡ (p m || any p ms)
unfolding insert_by_seq
any-insert_by_seq p m [] = refl
any-insert_by_seq p m (x ∷ xs) = ground (arith, any-insert_by_seq p m xs)

pub any-sort_by_seq : (p : Message → Bool) (ms : List Message) → any p (sort_by_seq ms) ≡ any p ms
unfolding sort_by_seq
any-sort_by_seq p [] = refl
any-sort_by_seq p (m ∷ ms) =
    any-insert_by_seq p m (sort_by_seq ms) ∙ ap (λ b. p m || b) (any-sort_by_seq p ms)

-- Messages with different numbers may be inserted in either order.
insert_by_seq-swap :
    (x y : Message) (ms : List Message)
    → leb x.seq y.seq ≡ false
    → insert_by_seq y (insert_by_seq x ms) ≡ insert_by_seq x (insert_by_seq y ms)
unfolding insert_by_seq
insert_by_seq-swap x y [] h = ground arith
insert_by_seq-swap x y (z ∷ ms) h = ground (arith, insert_by_seq-swap x y ms h)

sort_by_seq-insert_by_seq :
    (x m : Message) (ms : List Message)
    → sort_by_seq (insert_by_seq x ms ++ m ∷ []) ≡ insert_by_seq x (sort_by_seq (ms ++ m ∷ []))
unfolding sort_by_seq insert_by_seq
sort_by_seq-insert_by_seq x m [] = refl
sort_by_seq-insert_by_seq x m (y ∷ ms) = elim (Bool-cases (leb x.seq y.seq)) [
  | inl le ↦ rw le
  | inr above ↦ rw above (
      ap (insert_by_seq y) (sort_by_seq-insert_by_seq x m ms)
      ∙ insert_by_seq-swap x y (sort_by_seq (ms ++ m ∷ [])) above)
]

-- Sorting a sorted list with one message more.
pub sort_by_seq-again :
    (m : Message) (ms : List Message)
    → sort_by_seq (sort_by_seq ms ++ m ∷ []) ≡ sort_by_seq (ms ++ m ∷ [])
unfolding sort_by_seq
sort_by_seq-again m [] = refl
sort_by_seq-again m (x ∷ ms) =
    sort_by_seq-insert_by_seq x m (sort_by_seq ms) ∙ ap (insert_by_seq x) (sort_by_seq-again m ms)

insert_by_seq-AtLeast :
    (m : Message) (ms : List Message) → AtLeast m.seq ms → insert_by_seq m ms ≡ m ∷ ms
unfolding insert_by_seq
insert_by_seq-AtLeast m [] h = refl
insert_by_seq-AtLeast m (x ∷ xs) (h, hs) = ground arith

AtLeast-filter :
    (n : ℕ) (p : Message → Bool) (ms : List Message) → AtLeast n ms → AtLeast n (filter p ms)
AtLeast-filter n p [] h = tt
AtLeast-filter n p (m ∷ ms) (h, hs) =
    if-holds (AtLeast n) (p m) _ _ (λ e. (h, AtLeast-filter n p ms hs))
      (λ e. AtLeast-filter n p ms hs)

-- What a filter keeps of a list that a message was inserted into.
filter-insert_by_seq :
    (p : Message → Bool) (m : Message) (ms : List Message)
    → IsSorted ms
    → filter p (insert_by_seq m ms) ≡ (if p m then insert_by_seq m (filter p ms) else filter p ms)
unfolding insert_by_seq
filter-insert_by_seq p m [] h = ground arith
filter-insert_by_seq p m (x ∷ xs) (h, hs) = elim (Bool-cases (leb m.seq x.seq)) [
  | inl le ↦
      let after =
        AtLeast-filter m.seq p (x ∷ xs)
          (leb→le _ _ le, AtLeast-le m.seq x.seq xs (leb→le _ _ le) h) in
      rw le (ground (arith, insert_by_seq-AtLeast m (filter p (x ∷ xs)) after))
  | inr above ↦ rw above (ground (arith, above, filter-insert_by_seq p m xs hs))
]

pub filter-sort_by_seq :
    (p : Message → Bool) (ms : List Message) → filter p (sort_by_seq ms) ≡ sort_by_seq (filter p ms)
unfolding sort_by_seq
filter-sort_by_seq p [] = refl
filter-sort_by_seq p (m ∷ ms) =
    filter-insert_by_seq p m (sort_by_seq ms) (sort_by_seq-IsSorted ms)
    ∙ ground (arith, filter-sort_by_seq p ms)
