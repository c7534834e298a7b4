-- ===== src/Messages/Pages.antt =====
-- `loadMessages` of backend/static/js/app/data.js: pages of messages and their ids.
use cryptis_dchat_project.Prelude.{
  ◌≡◌, refl, sym, ap, ◌∙◌, leb, if◌then◌else◌, Bool, true, false, Bool-cases, inl, inr, Option,
  none, some, List, [], ◌∷◌, filter, arith, String, str_eq, eq_iff, eq_refl, if-holds,
}
use cryptis_dchat_project.Messages.{
  Message, insert_by_seq, sort_by_seq, set_by_id, set_all, load_messages,
}
use cryptis_dchat_project.Messages.Order.{IsSorted, sort_by_seq-IsSorted}

-- The message with an id, and the last one of a list, or else another.
abbrev pub find : String → List Message → Option Message
find k [] = none
find k (x ∷ xs) = if str_eq x.id k then some x else find k xs

abbrev pub latest : String → List Message → Option Message → Option Message
latest k [] o = o
latest k (m ∷ ms) o = latest k ms (if str_eq m.id k then some m else o)

-- No two messages have the same id.
abbrev pub AreDistinct : List Message → Type 0
AreDistinct [] = Unit
AreDistinct (x ∷ xs) = (find x.id xs ≡ none) × AreDistinct xs

absent :
    (m x : Message) (xs : List Message)
    → find m.id (x ∷ xs) ≡ none
    → (str_eq x.id m.id ≡ false) × (find m.id xs ≡ none)
absent m x xs h = elim (Bool-cases (str_eq x.id m.id)) [
  | inl same ↦ absurd (cc (h, found same))
  | inr other ↦ (other, sym (passed other) ∙ h)
]
  where
    found : str_eq x.id m.id ≡ true → find m.id (x ∷ xs) ≡ some x
    found e = rw e

    passed : str_eq x.id m.id ≡ false → find m.id (x ∷ xs) ≡ find m.id xs
    passed e = rw e

-- A text that equals one of two different texts is not the other.
exclusive : (a b k : String) → str_eq a b ≡ false → str_eq a k ≡ true → str_eq b k ≡ false
exclusive a b k ne same = elim (Bool-cases (str_eq b k)) [
  | inl too ↦ absurd (cc (ne, (eq_iff a b).1 ((eq_iff a k).0 same ∙ sym ((eq_iff b k).0 too))))
  | inr other ↦ other
]

unequal : (a b : String) → str_eq a b ≡ false → str_eq b a ≡ false
unequal a b ne = exclusive a b a ne (eq_refl a)

find-set_by_id :
    (k : String) (m : Message) (ms : List Message)
    → find k (set_by_id m ms) ≡ (if str_eq m.id k then some m else find k ms)
unfolding set_by_id
find-set_by_id k m [] = refl
find-set_by_id k m (x ∷ xs) = elim (Bool-cases (str_eq x.id m.id)) [
  | inl same ↦
      let id = ap (λ i. str_eq i k) ((eq_iff x.id m.id).0 same) in rw same (ground (arith, id))
  | inr other ↦ rw other (elim (Bool-cases (str_eq x.id k)) [
    | inl here ↦ rw (here, exclusive x.id m.id k other here) refl
    | inr there ↦ rw there (find-set_by_id k m xs)
  ])
]

AreDistinct-set_by_id :
    (m : Message) (ms : List Message) → AreDistinct ms → AreDistinct (set_by_id m ms)
unfolding set_by_id
AreDistinct-set_by_id m [] h = (refl, tt)
AreDistinct-set_by_id m (x ∷ xs) (h, hs) = elim (Bool-cases (str_eq x.id m.id)) [
  | inl same ↦ rw same (ap (λ i. find i xs) (sym ((eq_iff x.id m.id).0 same)) ∙ h, hs)
  | inr other ↦
      rw other
        ((find-set_by_id x.id m xs ∙ rw (unequal x.id m.id other) h), AreDistinct-set_by_id m xs hs)
]

set_all-find :
    (k : String) (ms by_id : List Message) → find k (set_all ms by_id) ≡ latest k ms (find k by_id)
unfolding set_all
set_all-find k [] by_id = refl
set_all-find k (m ∷ ms) by_id =
    set_all-find k ms (set_by_id m by_id) ∙ ap (latest k ms) (find-set_by_id k m by_id)

AreDistinct-set_all : (ms by_id : List Message) → AreDistinct by_id → AreDistinct (set_all ms by_id)
unfolding set_all
AreDistinct-set_all [] by_id h = h
AreDistinct-set_all (m ∷ ms) by_id h =
    AreDistinct-set_all ms (set_by_id m by_id) (AreDistinct-set_by_id m by_id h)

find-insert_by_seq :
    (k : String) (m : Message) (ms : List Message)
    → find m.id ms ≡ none
    → find k (insert_by_seq m ms) ≡ (if str_eq m.id k then some m else find k ms)
unfolding insert_by_seq
find-insert_by_seq k m [] h = refl
find-insert_by_seq k m (x ∷ xs) h = elim (Bool-cases (leb m.seq x.seq)) [
  | inl le ↦ rw le
  | inr above ↦ rw above (elim (Bool-cases (str_eq x.id k)) [
    | inl here ↦ rw (here, exclusive x.id m.id k (absent m x xs h).0 here) refl
    | inr there ↦ rw there (find-insert_by_seq k m xs (absent m x xs h).1)
  ])
]

AreDistinct-insert_by_seq :
    (m : Message) (ms : List Message)
    → find m.id ms ≡ none
    → AreDistinct ms
    → AreDistinct (insert_by_seq m ms)
unfolding insert_by_seq
AreDistinct-insert_by_seq m [] h d = (refl, tt)
AreDistinct-insert_by_seq m (x ∷ xs) h (dx, d) =
    if-holds AreDistinct (leb m.seq x.seq) _ _ (λ e. (h, (dx, d)))
      (λ e. (
        find-insert_by_seq x.id m xs (absent m x xs h).1
            ∙ rw (unequal x.id m.id (absent m x xs h).0) dx,
        AreDistinct-insert_by_seq m xs (absent m x xs h).1 d,
      ))

find-sort_by_seq :
    (ms : List Message)
    → AreDistinct ms
    → AreDistinct (sort_by_seq ms) × ((k : String) → find k (sort_by_seq ms) ≡ find k ms)
unfolding sort_by_seq
find-sort_by_seq [] d = (tt, λ k. refl)
find-sort_by_seq (m ∷ ms) (dm, d) =
    let (sorted, same) = find-sort_by_seq ms d in
    let gone = same m.id ∙ dm in
    (
      AreDistinct-insert_by_seq m (sort_by_seq ms) gone sorted,
      λ k.
          find-insert_by_seq k m (sort_by_seq ms) gone
          ∙ ap (λ o. if str_eq m.id k then some m else o) (same k),
    )

-- What each id stands for after a page was merged.
abbrev pub merged : Bool → List Message → List Message → String → Option Message
merged older decoded existing k =
    if older
    then latest k existing (latest k decoded (latest k existing none))
    else latest k decoded (latest k (filter (λ m. m.pending) existing) none)

merge_once :
    (by_id ms : List Message)
    → AreDistinct by_id
    → IsSorted (sort_by_seq (set_all ms by_id))
      × AreDistinct (sort_by_seq (set_all ms by_id))
      × ((k : String) → find k (sort_by_seq (set_all ms by_id)) ≡ latest k ms (find k by_id))
merge_once by_id ms d =
    let (distinct, same) = find-sort_by_seq (set_all ms by_id) (AreDistinct-set_all ms by_id d) in
    (sort_by_seq-IsSorted (set_all ms by_id), distinct, λ k. same k ∙ set_all-find k ms by_id)

-- After `load_messages` the list is in the order of sequence numbers, no id occurs twice, and each id
-- stands for the message that the merge of the page gives it: for the newest page the last one of the
-- page, or else the pending draft of the list; for an older page what the list had, or else the one of
-- the page.
pub load_messages-merged :
    (older : Bool) (decoded existing : List Message)
    → IsSorted (load_messages older decoded existing)
      × AreDistinct (load_messages older decoded existing)
      × ((k : String)
          → find k (load_messages older decoded existing) ≡ merged older decoded existing k)
unfolding load_messages
load_messages-merged true decoded existing =
    let first = set_all existing [] in
    let (sorted, distinct, same) =
      merge_once (set_all decoded first) existing
        (AreDistinct-set_all decoded first (AreDistinct-set_all existing [] tt)) in
    (
      sorted,
      distinct,
      λ k.
          same k
          ∙ ap (latest k existing)
              (set_all-find k decoded first ∙ ap (latest k decoded) (set_all-find k existing [])),
    )
load_messages-merged false decoded existing =
    let drafts = filter (λ (m : Message). m.pending) existing in
    let (sorted, distinct, same) =
      merge_once (set_all drafts []) decoded (AreDistinct-set_all drafts [] tt) in
    (sorted, distinct, λ k. same k ∙ ap (latest k decoded) (set_all-find k drafts []))
