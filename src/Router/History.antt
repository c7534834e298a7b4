-- ===== src/Router/History.antt =====
-- The history of the browser: `routeSync`, the event `popstate` and `routeStart` of
-- backend/static/js/app/router.js.
use mathlib.Core.Path.{subst}
use cryptis_dchat_project.Prelude.{
  ℕ, zero, suc, ◌≡◌, refl, sym, ap, ap₂, if◌then◌else◌, if-holds, Bool, true, false, not, ◌||◌,
  Option, none, some, List, [], ◌∷◌, length,
}
use cryptis_dchat_project.Crypto.Merkle.{text_eq}
use cryptis_dchat_project.Crypto.Merkle.Hex.{text_eq-same}
use cryptis_dchat_project.Router.{Text, Uri, Screen, path_of, apply_path}

-- An entry of the history: its address, and `prev` of its state.
pub record Entry : Type 0 where
  pub path : Text
  pub prev : Option Text

-- `location` and `history` with the entries behind, and `router`.
pub record Tab : Type 0 where
  pub current : Entry
  pub behind : List Entry
  pub armed : Bool
  pub expect_pop : Bool

unfoldable pub is_prev : Text → Option Text → Bool
is_prev next none = false
is_prev next (some prev) = text_eq prev next

-- The end of `routeSync`: Back, where the entry before has the address, or a new entry.
unfoldable pub move : Text → Tab → Tab
unfolding is_prev
move next t = if is_prev next t.current.prev then record t { expect_pop = true } else record t {
  current = record { path = next; prev = some t.current.path };
  behind = t.current ∷ t.behind;
}

unfoldable pub sync_to : Text → Tab → Tab
unfolding move
sync_to next t = if text_eq next t.current.path then t else move next t

module _ (u : Uri) where
  unfoldable pub route_sync : Screen → Tab → Tab
  unfolding sync_to
  route_sync s t = if not t.armed || (t.expect_pop || s.gate) then t else sync_to (path_of u s) t

  -- After `applyPath`: an address that cannot be decoded throws when the windows are closed, and is left as it is.
  -- Else the address of the current entry is set to the one that is shown: `history.replaceState`.
  unfoldable pub show_path : Screen → Tab → Tab
  show_path s t = record t { current = record t.current { path = path_of u s } }

  unfoldable pub applied : Option Screen → Screen → Tab → Screen × Tab
  unfolding show_path
  applied none s t = (
    record s { new_open = false; group_open = false; filter_open = false; others_open = false },
    t,
  )
  applied (some s') s t = (s', show_path s' t)

  -- `popstate`
  unfoldable pub on_popstate : Screen → Tab → Screen × Tab
  unfolding route_sync applied
  on_popstate s t =
      if t.expect_pop
      then (s, route_sync s (record t { expect_pop = false }))
      else if not t.armed || s.gate
      then (s, t)
      else applied (apply_path u t.current.path s) s t

  unfoldable pub route_start : Screen → Tab → Screen × Tab
  unfolding applied
  route_start s t = applied (apply_path u t.current.path s) s (record t { armed = true })

  -- The browser goes back by one entry; on the first one nothing happens.
  unfoldable pub back : Screen → Tab → Tab
  back s t = elim t.behind [
    | [] ↦ t
    | ◌∷◌ e rest ↦ (on_popstate s (record t { current = e; behind = rest })).1
  ]

  -- The Back that was asked for arrives, and so on, some times at most.
  unfoldable pub settle : ℕ → Screen → Tab → Tab
  unfolding back
  settle zero s t = t
  settle (suc n) s t = elim t.expect_pop [ true ↦ settle n s (back s t) | false ↦ t ]

-- An entry that remembers another has one behind it.
abbrev HasBehind : Option Text → List Entry → Type 0
HasBehind none rest = Unit
HasBehind (some prev) [] = ⊥
HasBehind (some prev) (e ∷ rest) = Unit

abbrev AllBehind : List Entry → Type 0
AllBehind [] = Unit
AllBehind (e ∷ rest) = HasBehind e.prev rest × AllBehind rest

abbrev pub IsLinked : Tab → Type 0
IsLinked t = AllBehind (t.current ∷ t.behind)

abbrev Settled : Text → Tab → Type 0
Settled next t = (t.expect_pop ≡ false) × (t.current.path ≡ next)

abbrev tab : Entry → List Entry → Bool → Tab
tab current behind expects = record {
  current = current;
  behind = behind;
  armed = true;
  expect_pop = expects;
}

module _ (u : Uri) (s : Screen) (shown : s.gate ≡ false) where
  route_sync-tab :
      (c : Entry) (behind : List Entry)
      → route_sync u s (tab c behind false) ≡ sync_to (path_of u s) (tab c behind false)
  unfolding route_sync
  route_sync-tab c behind =
      ap (λ g. if g then tab c behind false else sync_to (path_of u s) (tab c behind false)) shown

  back-tab :
      (c e : Entry) (rest : List Entry)
      → back u s (tab c (e ∷ rest) true) ≡ sync_to (path_of u s) (tab e rest false)
  unfolding back on_popstate
  back-tab c e rest = route_sync-tab e rest

  settle-idle :
      (n : ℕ) (c : Entry) (behind : List Entry)
      → settle u n s (tab c behind false) ≡ tab c behind false
  unfolding settle
  settle-idle zero c behind = refl
  settle-idle (suc n) c behind = refl

  -- From the entry before it goes well.
  abbrev Before : List Entry → Type 0
  Before [] = Unit
  Before (e ∷ rest) =
      Settled (path_of u s) (settle u (length rest) s (sync_to (path_of u s) (tab e rest false)))

  alone : (prev : Option Text) (next : Text) → HasBehind prev [] → is_prev next prev ≡ true → ⊥
  unfolding is_prev
  alone none next linked asked = cc asked
  alone (some prev) next linked asked = linked

  going-Settled :
      (c : Entry) (behind : List Entry)
      → HasBehind c.prev behind
      → is_prev (path_of u s) c.prev ≡ true
      → Before behind
      → Settled (path_of u s) (settle u (length behind) s (tab c behind true))
  unfolding settle
  going-Settled c [] linked asked before = absurd (alone c.prev (path_of u s) linked asked)
  going-Settled c (e ∷ rest) linked asked before =
      subst (λ t. Settled (path_of u s) (settle u (length rest) s t)) (sym (back-tab c e rest))
        before

  sync_to-Settled :
      (c : Entry) (behind : List Entry)
      → HasBehind c.prev behind
      → Before behind
      → Settled
          (path_of u s)
          (settle u (length behind) s (sync_to (path_of u s) (tab c behind false)))
  unfolding sync_to move
  sync_to-Settled c behind linked before =
      let next = path_of u s in
      let t = tab c behind false in
      if-holds (λ r. Settled next (settle u (length behind) s r)) (text_eq next c.path) t
        (move next t)
        (λ same.
          rw (settle-idle (length behind) c behind) (refl, sym (text_eq-same next c.path same)))
        (λ other.
          if-holds (λ r. Settled next (settle u (length behind) s r)) (is_prev next c.prev)
            (tab c behind true)
            (tab (record { path = next; prev = some c.path }) (c ∷ behind) false)
            (λ asked. going-Settled c behind linked asked before)
            (λ new.
              rw
                (settle-idle (length behind) (record { path = next; prev = some c.path })
                  (c ∷ behind))
                (refl, refl)))

  settle-sync_to :
      (c : Entry) (behind : List Entry)
      → AllBehind (c ∷ behind)
      → Settled
          (path_of u s)
          (settle u (length behind) s (sync_to (path_of u s) (tab c behind false)))
  settle-sync_to c [] linked = sync_to-Settled c [] linked.0 tt
  settle-sync_to c (e ∷ rest) linked =
      sync_to-Settled c (e ∷ rest) linked.0 (settle-sync_to e rest linked.1)

  pub settle-route_sync :
      (t : Tab)
      → t.armed ≡ true
      → t.expect_pop ≡ false
      → IsLinked t
      → ((settle u (length t.behind) s (route_sync u s t)).expect_pop ≡ false)
        × ((settle u (length t.behind) s (route_sync u s t)).current.path ≡ path_of u s)
  settle-route_sync t armed idle linked =
      subst (λ r. Settled (path_of u s) (settle u (length t.behind) s (route_sync u s r)))
        (ap₂ (λ (a e : Bool). record t { armed = a; expect_pop = e }) (sym armed) (sym idle))
        (rw (route_sync-tab t.current t.behind) (settle-sync_to t.current t.behind linked))

-- The events keep the entries linked.
pub route_sync-IsLinked :
    (u : Uri) (s : Screen) (t : Tab) → IsLinked t → IsLinked (route_sync u s t)
unfolding route_sync sync_to move
route_sync-IsLinked u s t h =
    if-holds IsLinked (not t.armed || (t.expect_pop || s.gate)) _ _ (λ e. h)
      (λ e.
        if-holds IsLinked (text_eq (path_of u s) t.current.path) _ _ (λ f. h)
          (λ f.
            if-holds IsLinked (is_prev (path_of u s) t.current.prev) _ _ (λ g. h) (λ g. (tt, h))))

applied-IsLinked :
    (u : Uri) (o : Option Screen) (s : Screen) (t : Tab) → IsLinked t → IsLinked (applied u o s t).1
unfolding applied show_path
applied-IsLinked u none s t h = h
applied-IsLinked u (some s') s t h = h

on_popstate-IsLinked :
    (u : Uri) (s : Screen) (t : Tab) → IsLinked t → IsLinked (on_popstate u s t).1
unfolding on_popstate
on_popstate-IsLinked u s t h =
    if-holds (λ (r : Screen × Tab). IsLinked r.1) t.expect_pop _ _
      (λ e. route_sync-IsLinked u s (record t { expect_pop = false }) h)
      (λ e.
        if-holds (λ (r : Screen × Tab). IsLinked r.1) (not t.armed || s.gate) _ _ (λ f. h)
          (λ f. applied-IsLinked u (apply_path u t.current.path s) s t h))

-- What may happen: the state changes and is drawn, the browser goes back, or forward to an entry that was left, and
-- the app is unlocked.
pub data Step (u : Uri) : Screen × Tab → Screen × Tab → Type 0 where
  drawn : (s s' : Screen) (t : Tab) → Step u (s, t) (s', route_sync u s' t)
  went_back :
      (s : Screen) (t : Tab) (e : Entry) (rest : List Entry)
      → t.behind ≡ e ∷ rest
      → Step u (s, t) (on_popstate u s (record t { current = e; behind = rest }))
  went_forward :
      (s : Screen) (t : Tab) (e : Entry)
      → Step u (s, t) (on_popstate u s (record t { current = e; behind = t.current ∷ t.behind }))
  started : (s : Screen) (t : Tab) → Step u (s, t) (route_start u s t)
  disarmed : (s s' : Screen) (t : Tab) → Step u (s, t) (s', record t { armed = false })

pub data Reach (u : Uri) (first : Screen × Tab) : Screen × Tab → Type 0 where
  here : Reach u first first
  next : {p q : Screen × Tab} → Reach u first p → Step u p q → Reach u first q

HasBehind-cons : (prev : Option Text) (e : Entry) (rest : List Entry) → HasBehind prev (e ∷ rest)
HasBehind-cons none e rest = tt
HasBehind-cons (some p) e rest = tt

Step-IsLinked : (u : Uri) {p q : Screen × Tab} → Step u p q → IsLinked p.1 → IsLinked q.1
unfolding route_start
Step-IsLinked u (drawn s s' t) h = route_sync-IsLinked u s' t h
Step-IsLinked u (went_back s t e rest is) h =
    on_popstate-IsLinked u s (record t { current = e; behind = rest }) (subst AllBehind is h.1)
Step-IsLinked u (went_forward s t e) h =
    on_popstate-IsLinked u s (record t { current = e; behind = t.current ∷ t.behind })
      (HasBehind-cons e.prev t.current t.behind, h)
Step-IsLinked u (started s t) h =
    applied-IsLinked u (apply_path u t.current.path s) s (record t { armed = true }) h
Step-IsLinked u (disarmed s s' t) h = h

Reach-IsLinked : (u : Uri) {p q : Screen × Tab} → Reach u p q → IsLinked p.1 → IsLinked q.1
Reach-IsLinked u here h = h
Reach-IsLinked u (next r st) h = Step-IsLinked u st (Reach-IsLinked u r h)

-- A page that was opened at an address.
abbrev pub first_tab : Text → Tab
first_tab path = record {
  current = record { path = path; prev = none };
  behind = [];
  armed = false;
  expect_pop = false;
}

-- After any sequence of draws, Backs and Forwards of a page, a draw of a screen without a gate ends with
-- the address of that screen and no Back pending, after as many Backs as there are entries behind at
-- most, if the router is armed and waits for no Back.
pub Reach-settles :
    (u : Uri) (first s s' : Screen) (path : Text) (t : Tab)
    → Reach u (first, first_tab path) (s, t)
    → s'.gate ≡ false
    → t.armed ≡ true
    → t.expect_pop ≡ false
    → ((settle u (length t.behind) s' (route_sync u s' t)).expect_pop ≡ false)
      × ((settle u (length t.behind) s' (route_sync u s' t)).current.path ≡ path_of u s')
Reach-settles u first s s' path t r shown armed idle =
    settle-route_sync u s' shown t armed idle (Reach-IsLinked u r (tt, tt))
