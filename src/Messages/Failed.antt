-- ===== src/Messages/Failed.antt =====
-- A draft that backend/static/js/app/data.js marked as failed, and the frame of its message.
use mathlib.Core.Option.{some-injective}
use cryptis_dchat_project.Prelude.{
  ◌≡◌, refl, sym, ap, ◌∙◌, Bool, true, false, Bool-cases, not, ◌&&◌, ◌||◌, inl, inr, some, List, [],
  ◌∷◌, any, String, str_eq, eq_iff,
}
use cryptis_dchat_project.Messages.{Message, mark_failed, seen, on_incoming}
use cryptis_dchat_project.Messages.Pages.{find}

seen-mark_failed :
    (local_id : String) (m d : Message) (ms : List Message)
    → find local_id ms ≡ some d
    → d.client_id ≡ m.client_id
    → seen m (mark_failed local_id ms) ≡ true
unfolding seen mark_failed
seen-mark_failed local_id m d [] h same = absurd (cc h)
seen-mark_failed local_id m d (x ∷ xs) h same = elim (Bool-cases (str_eq x.id local_id)) [
  | inl here ↦
      rw here (
        rw ((eq_iff x.client_id m.client_id).1 (client here))
          (either (str_eq x.id m.id) (any _ xs)))
  | inr there ↦ rw there (
      later (str_eq x.id m.id || str_eq x.client_id m.client_id && not x.pending)
        (seen-mark_failed local_id m d xs (sym (passed there) ∙ h) same))
]
  where
    found : str_eq x.id local_id ≡ true → find local_id (x ∷ xs) ≡ some x
    found e = rw e

    client : str_eq x.id local_id ≡ true → x.client_id ≡ m.client_id
    client e = ap (λ (y : Message). y.client_id) (some-injective x d (sym (found e) ∙ h)) ∙ same

    either : (b c : Bool) → ((b || true) || c) ≡ true
    either true c = refl
    either false c = refl

    passed : str_eq x.id local_id ≡ false → find local_id (x ∷ xs) ≡ find local_id xs
    passed e = rw e

    later : (b : Bool) {c : Bool} → c ≡ true → (b || c) ≡ true
    later true e = refl
    later false e = e

-- Once a draft is marked as failed, the frame of its message, which shows that the server has it,
-- changes nothing: the message stays marked as failed.
pub on_incoming-mark_failed :
    (local_id : String) (m d : Message) (ms : List Message)
    → find local_id ms ≡ some d
    → d.client_id ≡ m.client_id
    → on_incoming m (mark_failed local_id ms) ≡ mark_failed local_id ms
unfolding on_incoming
on_incoming-mark_failed local_id m d ms h same = rw (seen-mark_failed local_id m d ms h same)
