-- ===== src/Threads/Latest.antt =====
-- Requests for the list of chats whose replies come in any order: `loadThreads` of
-- backend/static/js/app/data.js.
use cryptis_dchat_project.Prelude.{
  ℕ, suc, ◌≤◌, ◌<◌, ◌≡◌, ◌⊎◌, inl, inr, ap, ◌==◌, if◌then◌else◌, true, false, Bool-cases, Option,
  none, some, List, [], ◌∷◌, length, arith,
}
use cryptis_dchat_project.Threads.{Thread, Told, Lists, to_threads, load_threads, take_list}

-- The lists, the `rev` of each request that was sent, the newest first, and the place in that order of the
-- request whose reply is shown, 0 for none.
pub record Watched : Type 0 where
  pub lists : Lists
  pub sent : List ℕ
  pub shown : ℕ

-- The `rev` of the request of a place, from 1 for the first one.
unfoldable pub rev_of : ℕ → List ℕ → Option ℕ
rev_of place [] = none
rev_of place (rev ∷ sent) = if place == suc (length sent) then some rev else rev_of place sent

-- A request is sent, a reply to one that was sent arrives, or something else changes the chats.
pub data Step : Watched → Watched → Type 0 where
  asked :
      (w : Watched)
      → Step w (record w {
        lists = load_threads w.lists;
        sent = (load_threads w.lists).threads_rev ∷ w.sent;
      })
  answered :
      (w : Watched) (place rev : ℕ) (told : List Told)
      → rev_of place w.sent ≡ some rev
      → Step w (record w {
        lists = take_list rev told w.lists;
        shown = if rev == w.lists.threads_rev then place else w.shown;
      })
  changed :
      (w : Watched) (ts : List Thread)
      → Step w (record w { lists = record w.lists { threads = ts } })

pub data Reach (start : Watched) : Watched → Type 0 where
  here : Reach start start
  next : {v w : Watched} → Reach start v → Step v w → Reach start w

-- The counter has passed every request but the newest, and what is shown was asked for.
abbrev pub IsCurrent : Watched → Type 0
IsCurrent w =
    ((place rev : ℕ)
      → rev_of place w.sent ≡ some rev
      → (place ≤ length w.sent)
        × (rev ≤ w.lists.threads_rev)
        × (place < length w.sent → rev < w.lists.threads_rev))
    × (w.shown ≤ length w.sent)

threads_rev-take_list :
    (rev : ℕ) (told : List Told) (s : Lists) → (take_list rev told s).threads_rev ≡ s.threads_rev
unfolding take_list
threads_rev-take_list rev told s = ground arith

asked-IsCurrent :
    (w : Watched)
    → IsCurrent w
    → IsCurrent (record w {
      lists = load_threads w.lists;
      sent = (load_threads w.lists).threads_rev ∷ w.sent;
    })
unfolding load_threads rev_of
asked-IsCurrent w (revs, shown) = (
  λ place rev has. elim (Bool-cases (place == suc (length w.sent))) [
    | inl newest ↦ ground (arith, has, newest)
    | inr other ↦
        let (fits, low, older) = revs place rev (ground (arith, has, other)) in
        (omega arith, omega arith, λ earlier. omega arith)
  ],
  omega arith,
)

-- A reply that is taken is the one to the newest request.
newest_shown :
    (w : Watched) (place rev : ℕ)
    → IsCurrent w
    → rev_of place w.sent ≡ some rev
    → ((if rev == w.lists.threads_rev then place else w.shown) ≤ length w.sent)
      × (w.shown ≤ (if rev == w.lists.threads_rev then place else w.shown))
newest_shown w place rev (revs, shown) has =
    let (fits, low, older) = revs place rev has in
    elim (Bool-cases (rev == w.lists.threads_rev)) [
      | inl taken ↦ elim (last_or_not place (length w.sent) fits) [
        | inl last ↦ (ground (arith, taken), ground (arith, taken))
        | inr earlier ↦ absurd (ground (arith, taken, older earlier))
      ]
      | inr stale ↦ (ground (arith, stale), ground (arith, stale))
    ]
  where
    last_or_not : (m n : ℕ) → m ≤ n → (m ≡ n) ⊎ (m < n)
    last_or_not m n h = ground arith

Step-IsCurrent : {v w : Watched} → Step v w → IsCurrent v → IsCurrent w
Step-IsCurrent (asked w) h = asked-IsCurrent w h
Step-IsCurrent (answered w place rev told has) h = (
  λ at r sent.
      let same = threads_rev-take_list rev told w.lists in
      let (fits, low, older) = h.0 at r sent in
      (fits, omega (arith, same), λ earlier. omega (arith, same, older earlier)),
  (newest_shown w place rev h has).0,
)
Step-IsCurrent (changed w ts) h = h

-- The place that is shown does not fall.
Step-shown : {v w : Watched} → Step v w → IsCurrent v → v.shown ≤ w.shown
Step-shown (asked w) h = omega arith
Step-shown (answered w place rev told has) h = (newest_shown w place rev h has).1
Step-shown (changed w ts) h = omega arith

Reach-IsCurrent : {v w : Watched} → Reach v w → IsCurrent v → IsCurrent w
Reach-IsCurrent here h = h
Reach-IsCurrent (next r s) h = Step-IsCurrent s (Reach-IsCurrent r h)

Reach-shown : {v w : Watched} → Reach v w → IsCurrent v → v.shown ≤ w.shown
Reach-shown here h = omega arith
Reach-shown (next r s) h = omega (arith, Reach-shown r h, Step-shown s (Reach-IsCurrent r h))

-- Once the reply to a request for the list of chats is shown, the reply to any request that was sent
-- before that one changes nothing, whatever was asked, answered or changed since, if at the start the
-- counter has passed every request but the newest, and what is shown was asked for.
pub Reach-take_list :
    {v w : Watched} (place rev : ℕ) (told : List Told)
    → Reach v w
    → IsCurrent v
    → place < v.shown
    → rev_of place w.sent ≡ some rev
    → take_list rev told w.lists ≡ w.lists
unfolding take_list
Reach-take_list {v} {w} place rev told r h old has =
    ap
      (λ b.
        if b
        then record w.lists { threads = to_threads told w.lists.threads; threads_loaded = true }
        else w.lists)
      other
  where
    other : (rev == w.lists.threads_rev) ≡ false
    other =
        let current = Reach-IsCurrent r h in
        let earlier : place < length w.sent = omega (arith, Reach-shown r h, current.1) in
        let (fits, low, older) = current.0 place rev has in ground (arith, older earlier)
