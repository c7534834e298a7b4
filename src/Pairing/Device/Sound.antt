-- ===== src/Pairing/Device/Sound.antt =====
-- The pairing of a new device in backend/static/js/app/data.js: the invariant, and the steps up to the
-- approval.
use mathlib.Core.Path.{subst}
use cryptis_dchat_project.Prelude.{
  ℕ, ◌*◌, ◌≡◌, ◌&&◌, not, refl, sym, ◌∙◌, ◌==◌, ltb, leb, if◌then◌else◌, Bool, true, false, Option,
  none, some, Option-cases, inl, inr, arith, if-holds,
}
use cryptis_dchat_project.Pairing.Device.{
  Pending, Vault, Tokens, creating, pending, expired, rejected, cancelled, completing,
  complete_error, error, Gate, pairing, pairing_pin, started, Device, is_some, wipe_unfinished,
  clear_pairing, begin_pairing, CreateReply, too_many, failed, request, take_request, new_pending,
  created, PollReply, poll_failed, still_pending, ended, approved, take_poll, poll_pairing,
}

-- A session has its refresh token in the vault, and a pairing beside it is completed; a pairing that made the vault
-- has it.
abbrev pub Sound : Option Pending → Option Vault → Option Tokens → Type 0
Sound none v none = Unit
Sound none v (some t) = (w : Vault) × (v ≡ some w) × (w.refresh ≡ some t.refresh)
Sound (some p) v none = p.vault_created ≡ true → (w : Vault) × (v ≡ some w)
Sound (some p) v (some t) =
    ((p.vault_created ≡ true) × (p.completed ≡ true))
    × (w : Vault) × (v ≡ some w)
    × (w.refresh ≡ some t.refresh)

-- While a request is being made, there is neither a pairing nor a session.
abbrev pub Alone : Bool → Option Pending → Option Tokens → Type 0
Alone false p t = Unit
Alone true none none = Unit
Alone true none (some t) = ⊥
Alone true (some p) t = ⊥

-- While a request is completed, the pairing has made the vault.
abbrev pub Ready : Gate → Option Pending → Type 0
Ready (pairing completing) (some p) = p.vault_created ≡ true
Ready g p = Unit

abbrev SoundAt : Option Pending → Option Vault → Option Tokens → Bool → Gate → Type 0
SoundAt p v t c g = Sound p v t × Alone c p t × Ready g p

abbrev pub IsSound : Device → Type 0
IsSound d = SoundAt d.pairing_new d.vault d.session d.is_creating d.gate

wipe_unfinished-Sound :
    (p : Option Pending) (v : Option Vault) (t : Option Tokens)
    → Sound p v t
    → Sound none (wipe_unfinished p v) t
unfolding wipe_unfinished
wipe_unfinished-Sound none v t h = h
wipe_unfinished-Sound (some p) v none h = tt
wipe_unfinished-Sound (some p) v (some t) ((made, done), w, q, e) = (
  w,
  kept (p.vault_created && not p.completed) (unfinished p.vault_created p.completed done) ∙ q,
  e,
)
  where
    unfinished : (a b : Bool) → b ≡ true → (a && not b) ≡ false
    unfinished a b h = ground (arith, h)

    kept : (b : Bool) → b ≡ false → (if b then none else v) ≡ v
    kept true h = absurd (cc h)
    kept false h = refl

Alone-none : (c : Bool) (p : Option Pending) (t : Option Tokens) → Alone c p t → Alone c none t
Alone-none false p t h = tt
Alone-none true none t h = h
Alone-none true (some p) none h = tt
Alone-none true (some p) (some t) h = h

Ready-none : (g : Gate) → Ready g none
Ready-none (pairing creating) = tt
Ready-none (pairing pending) = tt
Ready-none (pairing expired) = tt
Ready-none (pairing rejected) = tt
Ready-none (pairing cancelled) = tt
Ready-none (pairing completing) = tt
Ready-none (pairing complete_error) = tt
Ready-none (pairing error) = tt
Ready-none (pairing_pin f) = tt
Ready-none started = tt

pub clear_pairing-IsSound : (d : Device) → IsSound d → IsSound (clear_pairing d)
unfolding clear_pairing
clear_pairing-IsSound d (h, a, r) = (
  wipe_unfinished-Sound d.pairing_new d.vault d.session h,
  Alone-none d.is_creating d.pairing_new d.session a,
  Ready-none d.gate,
)

no_vault :
    (v : Option Vault) (t : Option Tokens) → is_some v ≡ false → Sound none v t → Alone true none t
unfolding is_some
no_vault none none e h = tt
no_vault none (some t) e (w, q, r) = absurd (cc q)
no_vault (some v) t e h = absurd (cc e)

pub begin_pairing-IsSound : (now : ℕ) (d : Device) → IsSound d → IsSound (begin_pairing now d)
unfolding begin_pairing
begin_pairing-IsSound now d (h, a, r) =
    let (h', a', r') = clear_pairing-IsSound d (h, a, r) in
    if-holds IsSound d.is_creating _ _ (λ e. (h, a, r))
      (λ e.
        if-holds IsSound (ltb now d.retry_at) _ _ (λ e. (h, a, tt))
          (λ e.
            if-holds IsSound (is_some (clear_pairing d).vault) _ _ (λ e. (h', a', tt))
              (λ e. (h', no_vault (clear_pairing d).vault d.session e h', tt))))

-- From one pairing to another, to none, and to a session.
Sound-drop :
    (p : Pending) (v : Option Vault) (t : Option Tokens) → Sound (some p) v t → Sound none v t
Sound-drop p v none h = tt
Sound-drop p v (some t) (flags, w, q, e) = (w, q, e)

Sound-fresh :
    (p : Pending) (v : Option Vault) (t : Option Tokens)
    → t ≡ none
    → p.vault_created ≡ false
    → Sound (some p) v t
Sound-fresh p v none e new = λ made. absurd (cc (new, made))
Sound-fresh p v (some t) e new = absurd (cc e)

Sound-same :
    (p q : Pending) (v : Option Vault) (t : Option Tokens)
    → q.vault_created ≡ p.vault_created
    → q.completed ≡ p.completed
    → Sound (some p) v t
    → Sound (some q) v t
Sound-same p q v none e f h = λ made. h (sym e ∙ made)
Sound-same p q v (some t) e f ((made, done), w, at, saved) = ((e ∙ made, f ∙ done), w, at, saved)

pub Sound-made :
    (p q : Pending) (v : Option Vault) (w : Vault) (t : Option Tokens)
    → p.vault_created ≡ false
    → Sound (some p) v t
    → Sound (some q) (some w) t
Sound-made p q v w none new h = λ made. (w, refl)
Sound-made p q v w (some t) new ((made, done), u, at, saved) = absurd (cc (new, made))

pub Sound-vault :
    (p : Pending) (v : Option Vault) (t : Option Tokens)
    → Sound (some p) v t
    → p.vault_created ≡ true
    → (w : Vault) × (v ≡ some w)
Sound-vault p v none h made = h made
Sound-vault p v (some t) (flags, w, q, e) made = (w, q)

pub Alone-pairing :
    (c : Bool) (p q : Pending) (t : Option Tokens) → Alone c (some p) t → Alone c (some q) t
Alone-pairing false p q t a = tt
Alone-pairing true p q t a = a

pub Alone-session :
    (c : Bool) (p : Pending) (t : Option Tokens) (new : Tokens)
    → Alone c (some p) t
    → Alone c none (some new)
Alone-session false p t new a = tt
Alone-session true p t new a = absurd a

pub Alone-completed :
    (c : Bool) (p q : Pending) (t : Option Tokens) (new : Tokens)
    → Alone c (some p) t
    → Alone c (some q) (some new)
Alone-completed false p q t new a = tt
Alone-completed true p q t new a = absurd a

Alone-facts :
    (c : Bool) (p : Option Pending) (t : Option Tokens) → c ≡ true → Alone c p t → t ≡ none
Alone-facts false p t e a = absurd (cc e)
Alone-facts true none none e a = refl
Alone-facts true none (some t) e a = absurd a
Alone-facts true (some p) t e a = absurd a

pub created-IsSound :
    (generation now : ℕ) (r : CreateReply) (d : Device)
    → d.is_creating ≡ true
    → IsSound d
    → IsSound (created generation now r d)
unfolding created take_request
created-IsSound generation now (too_many after) d making (h, a, r) =
    if-holds (λ x. IsSound (record x { is_creating = false })) (generation == d.generation) _ _
      (λ e. (h, tt, tt)) (λ e. (h, tt, r))
created-IsSound generation now failed d making (h, a, r) =
    if-holds (λ x. IsSound (record x { is_creating = false })) (generation == d.generation) _ _
      (λ e. (h, tt, tt)) (λ e. (h, tt, r))
created-IsSound generation now (request id secret expires accepted) d making (h, a, r) =
    let no_session = Alone-facts d.is_creating d.pairing_new d.session making a in
    if-holds (λ x. IsSound (record x { is_creating = false })) (generation == d.generation) _ _
      (λ e.
        if-holds (λ x. IsSound (record x { is_creating = false })) accepted _ _
          (λ f.
            (Sound-fresh (new_pending id secret expires) d.vault d.session no_session refl, tt, tt))
          (λ f. (h, tt, tt)))
      (λ e. (h, tt, r))

take_poll-IsSound :
    (r : PollReply) (p : Pending) (d : Device)
    → d.pairing_new ≡ some p
    → IsSound d
    → IsSound (take_poll r p d)
unfolding take_poll
take_poll-IsSound poll_failed p d has h = h
take_poll-IsSound still_pending p d has h = h
take_poll-IsSound (ended status) p d has (h, a, r) = (
  Sound-drop p d.vault d.session (subst (λ o. Sound o d.vault d.session) has h),
  Alone-none d.is_creating d.pairing_new d.session a,
  Ready-none (pairing status),
)
take_poll-IsSound (approved none) p d has h =
    let (h', a', r') = clear_pairing-IsSound d h in (h', a', tt)
take_poll-IsSound (approved (some t)) p d has (h, a, r) = (
  Sound-same p (record p { transferred = some t }) d.vault d.session refl refl
      (subst (λ o. Sound o d.vault d.session) has h),
  Alone-pairing d.is_creating p (record p { transferred = some t }) d.session
      (subst (λ o. Alone d.is_creating o d.session) has a),
  tt,
)

pub poll_pairing-IsSound :
    (generation now : ℕ) (r : PollReply) (d : Device)
    → IsSound d
    → IsSound (poll_pairing generation now r d)
poll_pairing-IsSound generation now r d (h, a, ready) = elim (Option-cases d.pairing_new) [
  | inl gone ↦ rw (poll_pairing-none gone) (h, a, ready)
  | inr (p, has) ↦ rw (poll_pairing-some p has) (
      if-holds IsSound (generation == d.generation) _ _
        (λ e.
          if-holds IsSound (leb (p.expires_at * 1000) now) _ _
            (λ f. (
              Sound-drop p d.vault d.session (subst (λ o. Sound o d.vault d.session) has h),
              Alone-none d.is_creating d.pairing_new d.session a,
              tt,
            ))
            (λ f. take_poll-IsSound r p d has (h, a, ready)))
        (λ e. (h, a, ready)))
]
  where
    poll_pairing-none : d.pairing_new ≡ none → poll_pairing generation now r d ≡ d
    poll_pairing-none gone = unfold poll_pairing in ground (arith, gone)

    poll_pairing-some :
        (p : Pending)
        → d.pairing_new ≡ some p
        → poll_pairing generation now r d ≡ (
            if generation == d.generation
            then (if leb (p.expires_at * 1000) now
                then record d { pairing_new = none; gate = pairing expired }
                else take_poll r p d)
            else d)
    poll_pairing-some p has = unfold poll_pairing in ground (arith, has)
