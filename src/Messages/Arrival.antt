-- ===== src/Messages/Arrival.antt =====
-- A message that arrives in backend/static/js/app/data.js: repeated frames, and the two orders of a frame and the reply to a request.
use cryptis_dchat_project.Prelude.{
  ◌≡◌, refl, sym, ap, ◌∙◌, Bool, true, false, Bool-cases, not, ◌&&◌, ◌||◌, inl, inr, List, [], ◌∷◌,
  ◌++◌, any, All, ap₂, filter, any-append, filter-append, append-nil, arith, String, str_eq,
  eq_refl,
}
use cryptis_dchat_project.Messages.{Message, sort_by_seq, seen, on_incoming, replace_local}
use cryptis_dchat_project.Messages.Order.{any-sort_by_seq, sort_by_seq-again, filter-sort_by_seq}

seen-sorted : (m : Message) (ms : List Message) → seen m (sort_by_seq (ms ++ m ∷ [])) ≡ true
unfolding seen
seen-sorted m ms =
    let p = λ (x : Message). str_eq x.id m.id || str_eq x.client_id m.client_id && not x.pending in
    any-sort_by_seq p (ms ++ m ∷ [])
    ∙ any-append p ms (m ∷ [])
    ∙ rw (eq_refl m.id) (last (any p ms))
  where
    last : (b : Bool) → (b || true) ≡ true
    last true = refl
    last false = refl

on_incoming-new :
    (m : Message) (ms : List Message)
    → seen m ms ≡ false
    → on_incoming m ms
      ≡ sort_by_seq (filter (λ x. not (str_eq x.client_id m.client_id)) ms ++ m ∷ [])
unfolding on_incoming
on_incoming-new m ms new = rw new

on_incoming-seen : (m : Message) (ms : List Message) → seen m ms ≡ true → on_incoming m ms ≡ ms
unfolding on_incoming
on_incoming-seen m ms old = rw old

-- A frame that comes again changes nothing.
pub on_incoming-again :
    (m : Message) (ms : List Message) → on_incoming m (on_incoming m ms) ≡ on_incoming m ms
on_incoming-again m ms = elim (Bool-cases (seen m ms)) [
  | inl old ↦ ap (on_incoming m) (on_incoming-seen m ms old)
  | inr new ↦
      let added = on_incoming-new m ms new in
      ap (on_incoming m) added
      ∙ on_incoming-seen m
          (sort_by_seq (filter (λ x. not (str_eq x.client_id m.client_id)) ms ++ m ∷ []))
          (seen-sorted m (filter (λ x. not (str_eq x.client_id m.client_id)) ms))
      ∙ sym added
]

-- The list has the draft with the client's number of `m` and the number `local_id`, or has it no more,
-- and nothing else of `m`.
abbrev pub OnlyDraft : String → Message → List Message → Type 0
OnlyDraft local_id m ms =
    All
      (λ x.
        (str_eq x.client_id m.client_id ≡ str_eq x.id local_id)
        × (str_eq x.id m.id ≡ false)
        × (str_eq x.client_id m.client_id ≡ true → x.pending ≡ true))
      ms

abbrev others : Message → Message → Bool
others m x = not (str_eq x.client_id m.client_id)

abbrev replaced : String → Message → Message → Bool
replaced local_id m x = not (str_eq x.id local_id) && not (str_eq x.id m.id)

seen-OnlyDraft :
    (local_id : String) (m : Message) (ms : List Message)
    → OnlyDraft local_id m ms
    → seen m ms ≡ false
unfolding seen
seen-OnlyDraft local_id m [] h = refl
seen-OnlyDraft local_id m (x ∷ xs) ((same, other, draft), hs) =
    ground (arith, same, other, draft, seen-OnlyDraft local_id m xs hs)

filter-OnlyDraft :
    (local_id : String) (m : Message) (ms : List Message)
    → OnlyDraft local_id m ms
    → filter (others m) ms ≡ filter (replaced local_id m) ms
filter-OnlyDraft local_id m [] h = refl
filter-OnlyDraft local_id m (x ∷ xs) ((same, other, draft), hs) =
    ground (arith, same, other, filter-OnlyDraft local_id m xs hs)

filter-again : (q : Message → Bool) (ms : List Message) → filter q (filter q ms) ≡ filter q ms
filter-again q [] = refl
filter-again q (x ∷ xs) = ground (arith, filter-again q xs)

replaced_self : (local_id : String) (m : Message) → filter (replaced local_id m) (m ∷ []) ≡ []
replaced_self local_id m = rw (eq_refl m.id) (ground arith)

-- Where the list has the draft of a message, or has it no more, and nothing else of it, the frame of the
-- message and the reply to its request give the same list in either order.
pub on_incoming-replace_local :
    (local_id : String) (m : Message) (ms : List Message)
    → OnlyDraft local_id m ms
    → on_incoming m (replace_local local_id m ms) ≡ replace_local local_id m (on_incoming m ms)
unfolding replace_local
on_incoming-replace_local local_id m ms h =
    let same = filter-OnlyDraft local_id m ms h in
    let rest = filter (others m) ms in
    let kept : filter (replaced local_id m) rest ≡ rest =
      ap (filter (replaced local_id m)) same ∙ filter-again (replaced local_id m) ms ∙ sym same in
    on_incoming-seen m (sort_by_seq (filter (replaced local_id m) ms ++ m ∷ []))
      (seen-sorted m (filter (replaced local_id m) ms))
    ∙ ap (λ l. sort_by_seq (l ++ m ∷ [])) (sym same)
    ∙ sym (sort_by_seq-again m rest)
    ∙ ap (λ l. sort_by_seq (l ++ m ∷ []))
        (ap sort_by_seq (
            sym (
              filter-append (replaced local_id m) rest (m ∷ [])
              ∙ ap₂ ◌++◌ kept (replaced_self local_id m)
              ∙ append-nil rest))
          ∙ sym (filter-sort_by_seq (replaced local_id m) (rest ++ m ∷ []))
          ∙ ap (filter (replaced local_id m))
              (sym (on_incoming-new m ms (seen-OnlyDraft local_id m ms h))))
