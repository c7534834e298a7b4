-- ===== src/Pairing/Approval/Sealed.antt =====
-- What an approving device posts: `answerPairing` of backend/static/js/app/data.js.
use cryptis_dchat_project.Prelude.{
  ℕ, zero, suc, ◌*◌, ◌≡◌, refl, subst, sym, ap, ◌∙◌, leb, if◌then◌else◌, Bool, true, false, not,
  ◌&&◌, Option, none, some, List, [], ◌∷◌, ◌++◌, length, All, ◌⊎◌, inl, inr,
}
use cryptis_dchat_project.Crypto.Merkle.{text_eq}
use cryptis_dchat_project.Pairing.Envelope.{Text, Scan, State, PinVerifier, Envelope, Suite, seal}
use cryptis_dchat_project.Pairing.Approval.{
  Stage, stage_of, unlocking, sealing, posting, Approval, Answer, waits_answer, Approver,
  first_approver, Reply, opened, sealed, stage_at, without, goes_on, ends, post, use_state, answer,
  resume_at, resume, is_taken, change_at, inspected, Event, view_opened, view_closed, locked,
  unlocked, code_inspected, answered, resumed, resumes, on_event, after_events,
}

cast : (P : Stage → Type 0) (s r : Stage) → some s ≡ some r → P s → P r
cast P s r e h = subst P (cc e) h

module _ (w : Suite) (user : Text) where
  -- An envelope with a state of the account, sealed for the scanned key under the approval's operation.
  abbrev pub IsSealedFor : Approval → Envelope → Type 0
  IsSealedFor a e =
      (st : State) × (drawn : Text) × (verifier : PinVerifier) × (text_eq st.user_id user ≡ true)
      × (e ≡ seal w drawn a.scan st a.operation_id verifier)

  abbrev IsFirst : Option Envelope → Stage → Type 0
  IsFirst kept unlocking = Unit {0}
  IsFirst kept (sealing st) = (kept ≡ none) × (text_eq st.user_id user ≡ true)
  IsFirst kept (posting allow) = Unit {0}

  -- At most one answer waits, and none while the flag is clear.
  abbrev IsAlone : Bool → List Stage → Type 0
  IsAlone busy [] = Unit {0}
  IsAlone busy (r ∷ rs) = (busy ≡ true) × (rs ≡ [])

  record IsSound (a : Approval) : Type 0 where
    alone : IsAlone a.busy a.runs
    first : All (IsFirst a.envelope) a.runs
    same : All (λ e. a.envelope ≡ some e) a.posted
    kept : (e : Envelope) → a.envelope ≡ some e → IsSealedFor a e

  clear-nil : (rs : List Stage) → IsAlone false rs → rs ≡ []
  clear-nil [] h = refl
  clear-nil (r ∷ rs) h = absurd (cc (h.0))

  stage_at-nil : (k : ℕ) → stage_at k [] ≡ none
  unfolding stage_at
  stage_at-nil zero = refl
  stage_at-nil (suc k) = refl

  without-nil :
      (k : ℕ) (busy : Bool) (rs : List Stage) (r : Stage)
      → IsAlone busy rs
      → stage_at k rs ≡ some r
      → without k rs ≡ []
  unfolding stage_at without
  without-nil zero busy [] r h found = refl
  without-nil (suc k) busy [] r h found = refl
  without-nil zero busy (s ∷ rs) r h found = h.1
  without-nil (suc k) busy (s ∷ rs) r h found =
      absurd (cc (sym (stage_at-nil k) ∙ sym (ap (stage_at k) h.1) ∙ found))

  stage_at-IsFirst :
      (k : ℕ) (kept : Option Envelope) (rs : List Stage) (r : Stage)
      → All (IsFirst kept) rs
      → stage_at k rs ≡ some r
      → IsFirst kept r
  unfolding stage_at
  stage_at-IsFirst k kept [] r h found = absurd (cc (sym (stage_at-nil k) ∙ found))
  stage_at-IsFirst zero kept (s ∷ rs) r h found = cast (IsFirst kept) s r found h.0
  stage_at-IsFirst (suc k) kept (s ∷ rs) r h found = stage_at-IsFirst k kept rs r h.1 found

  nil-IsAlone : (rest : List Stage) → rest ≡ [] → IsAlone false rest
  nil-IsAlone [] e = tt
  nil-IsAlone (r ∷ rest) e = absurd (cc e)

  nil-All : (P : Stage → Type 0) (rest : List Stage) → rest ≡ [] → All P rest
  nil-All P [] e = tt
  nil-All P (r ∷ rest) e = absurd (cc e)

  ends-IsSound : (rest : List Stage) (a : Approval) → rest ≡ [] → IsSound a → IsSound (ends rest a)
  unfolding ends
  ends-IsSound rest a e h = record {
    alone = nil-IsAlone rest e;
    first = nil-All _ rest e;
    same = h.same;
    kept = h.kept;
  }

  goes_on-IsSound :
      (r : Stage) (rest : List Stage) (a : Approval)
      → rest ≡ []
      → IsFirst a.envelope r
      → IsSound a
      → IsSound (goes_on r rest a)
  unfolding goes_on
  goes_on-IsSound r rest a e f h = record {
    alone = (refl, e);
    first = (f, nil-All _ rest e);
    same = h.same;
    kept = h.kept;
  }

  -- What was posted before is the envelope, where the approval had it or had none.
  same-post :
      (e : Envelope) (kept : Option Envelope) (posted : List Envelope)
      → (kept ≡ none) ⊎ (kept ≡ some e)
      → All (λ x. kept ≡ some x) posted
      → All (λ x. some e ≡ some x) posted
  same-post e kept [] h k = tt
  same-post e kept (x ∷ xs) (inl n) k = absurd (cc (sym n ∙ k.0))
  same-post e kept (x ∷ xs) (inr s) k = (sym s ∙ k.0, same-post e kept xs (inr s) k.1)

  post-IsSound :
      (e : Envelope) (rest : List Stage) (a : Approval)
      → rest ≡ []
      → (a.envelope ≡ none) ⊎ (a.envelope ≡ some e)
      → IsSealedFor a e
      → IsSound a
      → IsSound (post e rest a)
  unfolding post goes_on
  post-IsSound e rest a empty had sealed_for h = record {
    alone = (refl, empty);
    first = (tt, nil-All _ rest empty);
    same = (refl, same-post e a.envelope a.posted had h.same);
    kept = λ x k.
        let (st, drawn, verifier, own, made) = sealed_for in
        let same : x ≡ e = cc k in (st, drawn, verifier, own, same ∙ made);
  }

  use_state-IsSound :
      (st : State) (rest : List Stage) (a : Approval)
      → rest ≡ []
      → IsSound a
      → IsSound (use_state user st rest a)
  unfolding use_state
  use_state-IsSound st rest a e h = at (text_eq st.user_id user) refl a.envelope refl
    where
      at :
          (b : Bool)
          → b ≡ text_eq st.user_id user
          → (kept : Option Envelope) → kept ≡ a.envelope
          → IsSound (
              if b
              then elim kept [ none ↦ goes_on (sealing st) rest a | some x ↦ post x rest a ]
              else ends rest a)
      at false own kept k = ends-IsSound rest a e h
      at true own none k = goes_on-IsSound (sealing st) rest a e (sym k, sym own) h
      at true own (some x) k = post-IsSound x rest a e (inr (sym k)) (h.kept x (sym k)) h

  idle-nil : (a : Approval) → IsSound a → false ≡ a.busy → a.runs ≡ []
  idle-nil a h free = clear-nil a.runs (subst (λ b. IsAlone b a.runs) (sym free) h.alone)

  answer-IsSound :
      (session : Option State) (allow : Bool) (now : ℕ) (a : Approval)
      → IsSound a
      → IsSound (answer user session allow now a)
  unfolding answer
  answer-IsSound session allow now a h =
      at a.busy refl (leb (a.expires_at * 1000) now) allow session
    where
      at :
          (b : Bool)
          → b ≡ a.busy
          → (late allow : Bool) (session : Option State)
          → IsSound (
              if b
              then a
              else if late
              then a
              else if allow
              then elim session [
                | none ↦ goes_on unlocking a.runs a
                | some st ↦ use_state user st a.runs a
              ]
              else goes_on (posting false) a.runs a)
      at true free late allow session = h
      at false free true allow session = h
      at false free false true none = goes_on-IsSound unlocking a.runs a (idle-nil a h free) tt h
      at false free false true (some st) = use_state-IsSound st a.runs a (idle-nil a h free) h
      at false free false false session =
          goes_on-IsSound (posting false) a.runs a (idle-nil a h free) tt h

  resume_at-IsSound :
      (r : Stage) (reply : Reply) (rest : List Stage) (a : Approval)
      → rest ≡ []
      → IsFirst a.envelope r
      → IsSound a
      → IsSound (resume_at w user r reply rest a)
  unfolding resume_at
  resume_at-IsSound unlocking (opened st) rest a e f h = use_state-IsSound st rest a e h
  resume_at-IsSound (sealing st) (sealed drawn verifier) rest a e f h =
      post-IsSound (seal w drawn a.scan st a.operation_id verifier) rest a e (inl f.0)
        (st, drawn, verifier, f.1, refl) h
  resume_at-IsSound r reply rest a e f h = ends-IsSound rest a e h

  resume-IsSound :
      (k : ℕ) (reply : Reply) (a : Approval) → IsSound a → IsSound (resume w user k reply a)
  unfolding resume
  resume-IsSound k reply a h = at (stage_at k a.runs) refl
    where
      at :
          (found : Option Stage)
          → found ≡ stage_at k a.runs
          → IsSound
              (elim found [ none ↦ a | some r ↦ resume_at w user r reply (without k a.runs) a ])
      at none same = h
      at (some r) same =
          resume_at-IsSound r reply (without k a.runs) a
            (without-nil k a.busy a.runs r h.alone (sym same))
            (stage_at-IsFirst k a.envelope a.runs r h.first (sym same)) h

  All-change :
      (P : Approval → Type 0) (n : ℕ) (f : Approval → Approval) (xs : List Approval)
      → ((a : Approval) → P a → P (f a))
      → All P xs
      → All P (change_at n f xs)
  unfolding change_at
  All-change P n f [] k h = tt
  All-change P zero f (a ∷ xs) k h = (k a h.0, h.1)
  All-change P (suc n) f (a ∷ xs) k h = (h.0, All-change P n f xs k h.1)

  All-append_one :
      (P : Approval → Type 0) (xs : List Approval) (a : Approval)
      → All P xs
      → P a
      → All P (xs ++ (a ∷ []))
  All-append_one P [] a h g = (g, tt)
  All-append_one P (x ∷ xs) a h g = (h.0, All-append_one P xs a h.1 g)

  record IsSafe (d : Approver) : Type 0 where
    owner : d.user_id ≡ user
    sound : All IsSound d.approvals

  inspected-IsSafe :
      (scan : Scan) (operation : Text) (expires : ℕ) (d : Approver)
      → IsSafe d
      → IsSafe (inspected scan operation expires d)
  unfolding inspected
  inspected-IsSafe scan operation expires d h = at (d.on_view && not d.gate)
    where
      fresh : Approval
      fresh = record {
        scan = scan;
        operation_id = operation;
        expires_at = expires;
        busy = false;
        envelope = none;
        runs = [];
        posted = [];
      }

      fresh-IsSound : IsSound fresh
      fresh-IsSound = record { alone = tt; first = tt; same = tt; kept = λ e k. absurd (cc k) }

      at :
          (b : Bool)
          → IsSafe (
              if b
              then record d {
                approvals = d.approvals ++ (fresh ∷ []);
                current = some (length d.approvals);
                shown = waits_answer;
              }
              else d)
      at true = record {
        owner = h.owner;
        sound = All-append_one IsSound d.approvals fresh h.sound fresh-IsSound;
      }
      at false = h

  resumes-IsSafe :
      (n k : ℕ) (reply : Reply) (d : Approver) → IsSafe d → IsSafe (resumes w n k reply d)
  unfolding resumes
  resumes-IsSafe n k reply d h = at (is_taken (stage_of n k d.approvals) reply)
    where
      after : Approver
      after = record d { approvals = change_at n (resume w d.user_id k reply) d.approvals }

      after-IsSafe : IsSafe after
      after-IsSafe = record {
        owner = h.owner;
        sound =
            subst (λ u. All IsSound (change_at n (resume w u k reply) d.approvals)) (sym h.owner)
              (All-change IsSound n (resume w user k reply) d.approvals (resume-IsSound k reply)
                h.sound);
      }

      at :
          (taken : Option Answer)
          → IsSafe (elim taken [
            | none ↦ after
            | some shown ↦ record after { current = none; shown = shown }
          ])
      at none = after-IsSafe
      at (some shown) = record { owner = after-IsSafe.owner; sound = after-IsSafe.sound }

  answered-IsSafe :
      (allow : Bool) (now : ℕ) (d : Approver)
      → IsSafe d
      → IsSafe (on_event w (answered allow now) d)
  unfolding on_event
  answered-IsSafe allow now d h = at d.current
    where
      at :
          (current : Option ℕ)
          → IsSafe (elim current [
            | none ↦ d
            | some n ↦ record d {
              approvals = change_at n (answer d.user_id d.session allow now) d.approvals;
            }
          ])
      at none = h
      at (some n) = record {
        owner = h.owner;
        sound =
            subst (λ u. All IsSound (change_at n (answer u d.session allow now) d.approvals))
              (sym h.owner)
              (All-change IsSound n (answer user d.session allow now) d.approvals
                (answer-IsSound d.session allow now) h.sound);
      }

  on_event-IsSafe : (e : Event) (d : Approver) → IsSafe d → IsSafe (on_event w e d)
  unfolding on_event
  on_event-IsSafe view_opened d h = record { owner = h.owner; sound = h.sound }
  on_event-IsSafe view_closed d h = record { owner = h.owner; sound = h.sound }
  on_event-IsSafe locked d h = record { owner = h.owner; sound = h.sound }
  on_event-IsSafe (unlocked st) d h = record { owner = h.owner; sound = h.sound }
  on_event-IsSafe (code_inspected scan operation expires) d h =
      inspected-IsSafe scan operation expires d h
  on_event-IsSafe (answered allow now) d h = answered-IsSafe allow now d h
  on_event-IsSafe (resumed n k reply) d h = resumes-IsSafe n k reply d h

  run-IsSafe : (es : List Event) (d : Approver) → IsSafe d → IsSafe (after_events w es d)
  unfolding after_events
  run-IsSafe [] d h = h
  run-IsSafe (e ∷ rest) d h = run-IsSafe rest (on_event w e d) (on_event-IsSafe e d h)

  posted-sealed :
      (a : Approval)
      → IsSound a
      → (es : List Envelope) → All (λ e. a.envelope ≡ some e) es
      → All (λ e. (a.envelope ≡ some e) × IsSealedFor a e) es
  posted-sealed a h [] k = tt
  posted-sealed a h (e ∷ es) k = ((k.0, h.kept e k.0), posted-sealed a h es k.1)

  sound-posted :
      (xs : List Approval)
      → All IsSound xs
      → All (λ a. All (λ e. (a.envelope ≡ some e) × IsSealedFor a e) a.posted) xs
  sound-posted [] h = tt
  sound-posted (a ∷ xs) h = (posted-sealed a h.0 a.posted h.0.same, sound-posted xs h.1)

  -- After any inspections, answers, replies, locks and unlocks, all envelopes that were posted to
  -- approve a scanned code are one and the same, also where a post failed and the answer was given
  -- again: one that seals a state of the page's account for the scanned key, under the scanned request
  -- and the operation of the approval.
  pub after_events-sealed :
      (es : List Event)
      → All
          (λ (a : Approval). All (λ e. (a.envelope ≡ some e) × IsSealedFor a e) a.posted)
          (after_events w es (first_approver user)).approvals
  after_events-sealed es =
      let safe = run-IsSafe es (first_approver user) (record { owner = refl; sound = tt }) in
      sound-posted (after_events w es (first_approver user)).approvals safe.sound
