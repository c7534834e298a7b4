-- ===== src/Search/Found.antt =====
-- What a search finds: backend/static/js/lib/crypto.js and app/data.js.
use cryptis_dchat_project.Prelude.{
  ℕ, zero, suc, ◌≤◌, ◌<◌, ◌≡◌, ◌≢◌, refl, ap, ◌∙◌, leb, min, true, false, ◌||◌, Option, none, some,
  List, [], ◌∷◌, ◌++◌, any, All, take, length, get_elem?, filter, length-append, arith,
}
use cryptis_dchat_project.Search.{
  Text, Platform, blank, split_spaces, has, all_prefixes, search_token, words, word_tokens,
  group_of, groups_of, query_groups, is_candidate, has_each, Stored, is_found, search_messages,
}
use cryptis_dchat_project.Search.Sets.{
  has-sort, has-filter_only, has-distinct, has-distinct_only, has-map,
}
use cryptis_dchat_project.Search.Parts.{
  or_true, has-all_prefixes, take-prefix, both, is_candidate-each, All-take, All-has,
  get_elem?-filter, get_elem?-take, search_messages-cleared, length-take,
}

module _ (p : Platform) where
  long_words : (text w : Text) → has w (words p text) ≡ true → 2 ≤ length w
  unfolding words
  long_words text w h =
      le_two (length w)
        (has-filter_only w (λ v. leb 2 (length v))
          (split_spaces (blank p.is_word false (p.lower text))) (has-distinct_only w _ h)).0
    where
      le_two : (n : ℕ) → leb 2 n ≡ true → 2 ≤ n
      le_two n h = ground (arith, h)

  -- A prefix of a word of a message has its token.
  has-word_tokens :
      (key : p.Key) (text v r : Text)
      → 2 ≤ length v
      → has (v ++ r) (words p text) ≡ true
      → has (search_token p key (take 12 v)) (word_tokens p key text) ≡ true
  unfolding word_tokens
  has-word_tokens key text v r long h =
      has-sort _ _
      ∙ has-map (take 12 v) (search_token p key) _ (
          has-distinct (take 12 v) _ (
            ap (λ t. has t (all_prefixes (words p text))) (take-prefix 12 v r)
            ∙ has-all_prefixes (min 12 (length v)) (v ++ r) (words p text) (omega arith)
                (omega (arith, length-append v r)) (omega arith) h))

  -- A word of the query that begins a word of the message.
  abbrev Begins : Text → Text → Type 0
  Begins text v = (r : Text) × (has (v ++ r) (words p text) ≡ true)

  group_of-found :
      (key : p.Key) (keys : List (Option p.Key)) (n limit : ℕ) (w : Text) (tokens : List Text)
      → n < limit
      → get_elem? keys n ≡ some (some key)
      → has (search_token p key (take 12 w)) tokens ≡ true
      → any (λ t. has t tokens) (take limit (group_of p keys w)) ≡ true
  unfolding group_of
  group_of-found key [] n limit w tokens small h k = absurd (cc h)
  group_of-found key (none ∷ keys) zero limit w tokens small h k = absurd (cc h)
  group_of-found key (none ∷ keys) (suc n) limit w tokens small h k =
      group_of-found key keys n limit w tokens (omega arith) h k
  group_of-found key (some key' ∷ keys) n zero w tokens small h k = absurd (omega arith)
  group_of-found key (some key' ∷ keys) zero (suc limit) w tokens small h k =
      let same : key' ≡ key = cc h in
      ap (λ b. b || any (λ t. has t tokens) (take limit (group_of p keys w)))
        (ap (λ (j : p.Key). has (search_token p j (take 12 w)) tokens) same ∙ k)
  group_of-found key (some key' ∷ keys) (suc n) (suc limit) w tokens small h k =
      or_true (has (search_token p key' (take 12 w)) tokens) _
        (group_of-found key keys n limit w tokens (omega arith) h k)

  has_each-groups_of :
      (key : p.Key) (keys : List (Option p.Key)) (n : ℕ) (text : Text) (ws : List Text)
      → n < 32
      → get_elem? keys n ≡ some (some key)
      → All (λ (w : Text). 2 ≤ length w) ws
      → All (Begins text) ws
      → (has_each (groups_of p keys ws) (word_tokens p key text) ≡ true)
  unfolding groups_of has_each
  has_each-groups_of key keys n text [] small h long begins = refl
  has_each-groups_of key keys n text (w ∷ ws) small h long begins =
      at (group_of p keys w)
        (group_of-found key keys n 32 w (word_tokens p key text) small h
          (has-word_tokens key text w begins.0.0 long.0 begins.0.1))
        (has_each-groups_of key keys n text ws small h long.1 begins.1)
    where
      at :
          (g : List Text)
          → any (λ t. has t (word_tokens p key text)) (take 32 g) ≡ true
          → has_each (groups_of p keys ws) (word_tokens p key text) ≡ true
          → has_each
              (elim g [ [] ↦ groups_of p keys ws | ◌∷◌ t ts ↦ (t ∷ ts) ∷ groups_of p keys ws ])
              (word_tokens p key text)
            ≡ true
      at [] one more = more
      at (t ∷ ts) one more = both one more

  group_of-some :
      (key : p.Key) (keys : List (Option p.Key)) (n : ℕ) (w : Text)
      → get_elem? keys n ≡ some (some key)
      → group_of p keys w ≢ []
  unfolding group_of
  group_of-some key [] n w h e = cc h
  group_of-some key (none ∷ keys) zero w h e = cc h
  group_of-some key (none ∷ keys) (suc n) w h e = group_of-some key keys n w h e
  group_of-some key (some key' ∷ keys) n w h e = cc e

  groups_of-some :
      (key : p.Key) (keys : List (Option p.Key)) (n : ℕ) (w : Text) (ws : List Text)
      → get_elem? keys n ≡ some (some key)
      → groups_of p keys (w ∷ ws) ≢ []
  unfolding groups_of
  groups_of-some key keys n w ws h = at (group_of p keys w) (group_of-some key keys n w h)
    where
      at :
          (g : List Text)
          → g ≢ []
          → ◌≢◌ {A = List (List Text)}
              (elim g [ [] ↦ groups_of p keys ws | ◌∷◌ t ts ↦ (t ∷ ts) ∷ groups_of p keys ws ])
              []
      at [] some_token e = some_token refl
      at (t ∷ ts) some_token e = cc e

  query_groups-found_at :
      (key : p.Key) (keys : List (Option p.Key)) (n : ℕ) (text : Text) (ws : List Text)
      → n < 32
      → get_elem? keys n ≡ some (some key)
      → ws ≢ []
      → All (λ (w : Text). 2 ≤ length w) ws
      → All (Begins text) ws
      → is_candidate (groups_of p keys (take 8 ws)) (word_tokens p key text) ≡ true
  query_groups-found_at key keys n text [] small h some_word long begins = absurd (some_word refl)
  query_groups-found_at key keys n text (w ∷ ws) small h some_word long begins =
      is_candidate-each _ _ (groups_of-some key keys n w (take 7 ws) h) (
        has_each-groups_of key keys n text (take 8 (w ∷ ws)) small h (All-take _ 8 (w ∷ ws) long)
          (All-take _ 8 (w ∷ ws) begins))

  -- The search of the server over the messages of a chat, the newest first, gives a message at the place
  -- of the newer ones that it finds, by the tokens of a query with a word of two characters or more,
  -- each of whose words begins a word of the message, if the key of the message is among the first 32
  -- keys that the device looks up, the member has not cleared the chat up to it, and fewer than 50 newer
  -- messages are found. It gives no more than 50, and none that the member has cleared.
  pub search_messages-found :
      (key : p.Key) (keys : List (Option p.Key)) (n : ℕ) (text query : Text) (cleared_seq : ℕ)
      (newer older : List Stored) (m : Stored)
      → n < 32
      → get_elem? keys n ≡ some (some key)
      → words p query ≢ []
      → All (λ (v : Text). (r : Text) × (has (v ++ r) (words p text) ≡ true)) (words p query)
      → m.tokens ≡ word_tokens p key text
      → cleared_seq < m.seq
      → length (filter (is_found (query_groups p keys query) cleared_seq) newer) < 50
      → (get_elem?
            (search_messages (query_groups p keys query) cleared_seq (newer ++ m ∷ older))
            (length (filter (is_found (query_groups p keys query) cleared_seq) newer))
          ≡ some m)
        × All
            (λ (u : Stored). cleared_seq < u.seq)
            (search_messages (query_groups p keys query) cleared_seq (newer ++ m ∷ older))
        × (length (search_messages (query_groups p keys query) cleared_seq (newer ++ m ∷ older))
            ≤ 50)
  unfolding query_groups search_messages is_found
  search_messages-found key keys n text query cleared_seq newer older m small h some_word begins
        tokens not_cleared few =
      let f = is_found (query_groups p keys query) cleared_seq in
      let matches : is_candidate (query_groups p keys query) m.tokens ≡ true =
        ap (is_candidate (query_groups p keys query)) tokens
        ∙ query_groups-found_at key keys n text (words p query) small h some_word
            (All-has (words p query) (long_words query)) begins in
      (
        get_elem?-take 50 (length (filter f newer)) (filter f (newer ++ m ∷ older)) few
            ∙ get_elem?-filter f newer older m (both matches (ground (arith, not_cleared))),
        search_messages-cleared (query_groups p keys query) cleared_seq (newer ++ m ∷ older),
        length-take 50 (filter f (newer ++ m ∷ older)),
      )
