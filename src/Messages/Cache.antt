-- ===== src/Messages/Cache.antt =====
-- What backend/static/js/app/data.js keeps in the vault, and what expires.
use cryptis_dchat_project.Prelude.{
  ℕ, zero, suc, ◌-◌, ◌≤◌, ◌≡◌, refl, Bool, true, not, ◌&&◌, List, [], ◌∷◌, ◌++◌, ap, take, arith,
  length, drop, all, filter, length-drop, take_last,
}
use cryptis_dchat_project.Messages.{Message, cache_messages, cache_per_thread, purge_expired}

all-drop :
    (p : Message → Bool) (n : ℕ) (ms : List Message) → all p ms ≡ true → all p (drop n ms) ≡ true
all-drop p zero ms h = h
all-drop p (suc n) [] h = refl
all-drop p (suc n) (m ∷ ms) h = all-drop p n ms (ground arith)

all-filter : (p : Message → Bool) (ms : List Message) → all p (filter p ms) ≡ true
all-filter p [] = refl
all-filter p (m ∷ ms) = ground (arith, all-filter p ms)

length-take_last : (n : ℕ) (ms : List Message) → length (take_last n ms) ≤ n
length-take_last n ms = omega (arith, length-drop (length ms - n) ms)

take-append_drop : (n : ℕ) (ms : List Message) → ms ≡ take n ms ++ drop n ms
take-append_drop zero ms = refl
take-append_drop (suc n) [] = refl
take-append_drop (suc n) (m ∷ ms) = ap (λ r. m ∷ r) (take-append_drop n ms)

abbrev kept : List Message → List Message
kept ms = filter (λ m. not m.pending && not m.bad) ms

-- The vault gets at most a hundred messages of a chat, none of them pending or unreadable, and they are
-- the last of the list's messages of that kind.
pub cache_messages-le :
    (ms : List Message)
    → (length (cache_messages ms) ≤ cache_per_thread)
      × (all (λ m. not m.pending && not m.bad) (cache_messages ms) ≡ true)
      × (older : List Message) × (filter (λ m. not m.pending && not m.bad) ms
          ≡ older ++ cache_messages ms)
unfolding cache_messages
cache_messages-le ms =
    let n = length (kept ms) - cache_per_thread in
    (
      length-take_last cache_per_thread (kept ms),
      all-drop _ n (kept ms) (all-filter _ ms),
      take n (kept ms),
      take-append_drop n (kept ms),
    )

-- What an earlier purge removed, a later one removes too: purging twice is purging at the later time.
pub purge_expired-again :
    (now later : ℕ) (ms : List Message)
    → now ≤ later
    → purge_expired later (purge_expired now ms) ≡ purge_expired later ms
unfolding purge_expired
purge_expired-again now later [] le = refl
purge_expired-again now later (m ∷ ms) le = ground (arith, purge_expired-again now later ms le)
