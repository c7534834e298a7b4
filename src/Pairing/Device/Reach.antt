-- ===== src/Pairing/Device/Reach.antt =====
-- The pairing of a new device in backend/static/js/app/data.js: the last steps, and every sequence of
-- steps.
use mathlib.Core.Path.{subst}
use mathlib.Core.Option.{some-injective}
use cryptis_dchat_project.Prelude.{
  ℕ, ◌+◌, ◌≡◌, ◌≢◌, ◌∙◌, refl, sym, ap, if◌then◌else◌, Bool, true, false, ◌&&◌, Option, none, some,
  Option-cases, inl, inr, arith, if-holds,
}
use cryptis_dchat_project.Crypto.Merkle.{text_eq}
use cryptis_dchat_project.Pairing.Envelope.{Text, Transferred, PinVerifier}
use cryptis_dchat_project.Pairing.Device.{
  Pending, Vault, Tokens, completing, pairing, Device, clear_pairing, begin_pairing, CreateReply,
  created, PollReply, poll_pairing, is_pin, protect, finish_pairing, CompleteReply,
  completion_failed, issued, nonempty, save_refresh, take_completion, completed_for, complete_error,
  started,
}
use cryptis_dchat_project.Pairing.Device.Sound.{
  IsSound, Sound, Alone, Ready, clear_pairing-IsSound, begin_pairing-IsSound, created-IsSound,
  poll_pairing-IsSound, Sound-made, Sound-vault, Alone-pairing, Alone-session, Alone-completed,
}

-- What may happen next. A request is only answered while one is made. While a request is completed, the page has no
-- button and no poll is set, so that its reply comes to the pairing of the page, and the page is not cancelled.
pub data Step : Device → Device → Type 0 where
  began : (d : Device) (now : ℕ) → Step d (begin_pairing now d)
  answered :
      (d : Device) (generation now : ℕ) (r : CreateReply)
      → d.is_creating ≡ true
      → Step d (created generation now r d)
  polled :
      (d : Device) (generation now : ℕ) (r : PollReply) → Step d (poll_pairing generation now r d)
  entered : (d : Device) (pin : Text) (matches : Bool) → Step d (finish_pairing pin matches d)
  finished :
      (d : Device) (p : Pending) (r : CompleteReply) (imported : Bool)
      → d.gate ≡ pairing completing
      → d.pairing_new ≡ some p
      → Step d (completed_for p r imported d)
  cancelled_ : (d : Device) → d.gate ≢ pairing completing → Step d (clear_pairing d)

pub data Reach (first : Device) : Device → Type 0 where
  at_first : Reach first first
  and_then : {d e : Device} → Reach first d → Step d e → Reach first e

module _ (p : Pending) (d : Device) (has : d.pairing_new ≡ some p) where
  Sound-at : IsSound d → Sound (some p) d.vault d.session
  Sound-at h = subst (λ o. Sound o d.vault d.session) has h.0

  Alone-at : IsSound d → Alone d.is_creating (some p) d.session
  Alone-at h = subst (λ o. Alone d.is_creating o d.session) has h.1

  protect-IsSound :
      (pin : Text) (matches : Bool) (t : Transferred)
      → IsSound d
      → IsSound (protect pin matches p t d)
  unfolding protect
  protect-IsSound pin matches t h =
      if-holds IsSound p.vault_created _ _
        (λ e. (h.0, h.1, subst (λ o. Ready (pairing completing) o) (sym has) e))
        (λ e.
          if-holds IsSound (is_pin pin && matches) _ _
            (λ f. (
              Sound-made p (record p { vault_created = true }) d.vault _ d.session e (Sound-at h),
              Alone-pairing d.is_creating p (record p { vault_created = true }) d.session
                  (Alone-at h),
              refl,
            ))
            (λ f. (h.0, h.1, tt)))

  save_refresh-some :
      (refresh : Text) (t : Transferred) (v : Option Vault) (w : Vault)
      → v ≡ some w
      → save_refresh refresh t v ≡ some (record w { state = t; refresh = some refresh })
  unfolding save_refresh
  save_refresh-some refresh t v w q = ap (save_refresh refresh t) q

  take_completion-IsSound :
      (r : CompleteReply) (imported : Bool) (t : Transferred)
      → p.vault_created ≡ true
      → IsSound d
      → IsSound (take_completion r imported p t d)
  unfolding take_completion
  take_completion-IsSound completion_failed imported t made h = (h.0, h.1, tt)
  take_completion-IsSound (issued user access refresh) imported t made h =
      let (w, q) = Sound-vault p d.vault d.session (Sound-at h) made in
      if-holds IsSound (text_eq user t.user_id && (nonempty access && nonempty refresh)) _ _
        (λ e. at imported w (save_refresh-some refresh t d.vault w q)) (λ e. (h.0, h.1, tt))
    where
      at :
          (imported : Bool) (w : Vault)
          → save_refresh refresh t d.vault ≡ some (record w { state = t; refresh = some refresh })
          → IsSound (record d {
            vault = save_refresh refresh t d.vault;
            session = some (record { access = access; refresh = refresh });
            pairing_new = if imported then none else some (record p { completed = true });
            generation = if imported then d.generation + 1 else d.generation;
            gate = if imported then started else pairing complete_error;
          })
      at true w saved =
          ((_, saved, refl), Alone-session d.is_creating p d.session _ (Alone-at h), tt)
      at false w saved = (
        ((made, refl), _, saved, refl),
        Alone-completed d.is_creating p (record p { completed = true }) d.session _ (Alone-at h),
        tt,
      )

finish_pairing-IsSound :
    (pin : Text) (matches : Bool) (d : Device) → IsSound d → IsSound (finish_pairing pin matches d)
finish_pairing-IsSound pin matches d h = elim (Option-cases d.pairing_new) [
  | inl gone ↦ rw (no_pairing gone) h
  | inr (p, has) ↦ elim (Option-cases p.transferred) [
    | inl not_yet ↦ rw (no_keys p has not_yet) h
    | inr (t, keys) ↦ rw (with_keys p t has keys) (protect-IsSound p d has pin matches t.0 h)
  ]
]
  where
    no_pairing : d.pairing_new ≡ none → finish_pairing pin matches d ≡ d
    no_pairing gone = unfold finish_pairing in ground (arith, gone)

    no_keys :
        (p : Pending)
        → d.pairing_new ≡ some p
        → p.transferred ≡ none
        → finish_pairing pin matches d ≡ d
    no_keys p has not_yet = unfold finish_pairing in ground (arith, has, not_yet)

    with_keys :
        (p : Pending) (t : Transferred × PinVerifier)
        → d.pairing_new ≡ some p
        → p.transferred ≡ some t
        → finish_pairing pin matches d ≡ protect pin matches p t.0 d
    with_keys p t has keys = unfold finish_pairing in ground (arith, has, keys)

completed_for-IsSound :
    (p : Pending) (r : CompleteReply) (imported : Bool) (d : Device)
    → d.gate ≡ pairing completing
    → d.pairing_new ≡ some p
    → IsSound d
    → IsSound (completed_for p r imported d)
completed_for-IsSound p r imported d at has h = elim (Option-cases p.transferred) [
  | inl not_yet ↦ rw (no_keys not_yet) h
  | inr (t, keys) ↦
      let made : p.vault_created ≡ true =
        subst (λ o. Ready (pairing completing) o) has (subst (λ g. Ready g d.pairing_new) at h.2) in
      rw (with_keys t keys) (take_completion-IsSound p d has r imported t.0 made h)
]
  where
    no_keys : p.transferred ≡ none → completed_for p r imported d ≡ d
    no_keys not_yet = unfold completed_for in ground (arith, not_yet)

    with_keys :
        (t : Transferred × PinVerifier)
        → p.transferred ≡ some t
        → completed_for p r imported d ≡ take_completion r imported p t.0 d
    with_keys t keys = unfold completed_for in ground (arith, keys)

Step-IsSound : {d e : Device} → Step d e → IsSound d → IsSound e
Step-IsSound (began d now) h = begin_pairing-IsSound now d h
Step-IsSound (answered d generation now r making) h = created-IsSound generation now r d making h
Step-IsSound (polled d generation now r) h = poll_pairing-IsSound generation now r d h
Step-IsSound (entered d pin matches) h = finish_pairing-IsSound pin matches d h
Step-IsSound (finished d p r imported at has) h = completed_for-IsSound p r imported d at has h
Step-IsSound (cancelled_ d other) h = clear_pairing-IsSound d h

Reach-IsSound : {d e : Device} → Reach d e → IsSound d → IsSound e
Reach-IsSound at_first h = h
Reach-IsSound (and_then r step) h = Step-IsSound step (Reach-IsSound r h)

session-saved :
    (o : Option Pending) (v : Option Vault) (tokens : Tokens)
    → Sound o v (some tokens)
    → ((p : Pending) → o ≡ some p → p.completed ≡ true)
      × (w : Vault) × (v ≡ some w)
      × (w.refresh ≡ some tokens.refresh)
session-saved none v tokens (w, q, e) = ((λ p h. absurd (cc h)), w, q, e)
session-saved (some p) v tokens ((made, done), w, q, e) =
    ((λ u h. sym (ap (λ (x : Pending). x.completed) (some-injective p u h)) ∙ done), w, q, e)

-- Whatever replies come and in whatever order the steps of a pairing follow each other, where a session
-- was issued the vault is there with its refresh token, and a pairing that is left, as after an import
-- of the keys that failed, is a completed one, whose vault `clear_pairing` keeps; if it was so at first,
-- and if the reply to a completion finds the pairing that asked for it, with no cancel before.
pub Reach-vault_first :
    {d e : Device} (tokens : Tokens)
    → Reach d e
    → IsSound d
    → e.session ≡ some tokens
    → ((p : Pending) → e.pairing_new ≡ some p → p.completed ≡ true)
      × (w : Vault) × (e.vault ≡ some w)
      × (w.refresh ≡ some tokens.refresh)
Reach-vault_first {e = e} tokens r h has =
    session-saved e.pairing_new e.vault tokens
      (subst (λ t. Sound e.pairing_new e.vault t) has (Reach-IsSound r h).0)
