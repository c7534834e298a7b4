-- ===== src/Search.antt =====
-- The blind index of messages: `searchToken`, `words` and `wordTokens` of backend/static/js/lib/crypto.js, and the
-- groups of `searchMessages` in app/data.js, with the search of the server in backend/app/services/message_service.py and
-- backend/app/repositories/messages.py.
-- Texts are lists of code units; characters that take two of them are left out.
pub mod Sets
pub mod Parts
pub mod Found
use cryptis_dchat_project.Prelude.{
  ℕ, zero, suc, ◌+◌, ◌-◌, ◌==◌, ltb, leb, min, if◌then◌else◌, Bool, true, false, not, ◌&&◌, ◌||◌,
  Option, none, some, List, [], ◌∷◌, ◌++◌, map, filter, any, all, take, length,
}
use cryptis_dchat_project.Crypto.Merkle.{hex, text_eq}

abbrev pub Text : Type 0
Text = List ℕ

-- The platform's lower case, letters and digits, bytes of UTF-8 and HMAC, and the key that HKDF derives for the index.
pub record Platform : Type 1 where
  pub Key : Type 0
  pub lower : Text → Text
  pub is_word : ℕ → Bool
  pub utf8 : Text → List ℕ
  pub search_key : Key → List ℕ
  pub hmac : List ℕ → List ℕ → List ℕ

unfoldable pub has : Text → List Text → Bool
has t ts = any (text_eq t) ts

-- A `Set` of texts, in the order of their first places.
unfoldable pub distinct : List Text → List Text
distinct [] = []
distinct (t ∷ ts) = t ∷ filter (λ u. not (text_eq u t)) (distinct ts)

-- A run of other characters becomes one space; `inside` such a run no further one is written.
unfoldable pub blank : (ℕ → Bool) → Bool → Text → Text
blank is_word inside [] = []
blank is_word inside (c ∷ t) =
    if is_word c
    then c ∷ blank is_word false t
    else if inside
    then blank is_word true t
    else 32 ∷ blank is_word true t

unfoldable pub put_char : ℕ → List Text → List Text
put_char c [] = (c ∷ []) ∷ []
put_char c (w ∷ ws) = (c ∷ w) ∷ ws

-- `split(' ')`
unfoldable pub split_spaces : Text → List Text
unfolding put_char
split_spaces [] = [] ∷ []
split_spaces (c ∷ t) = if c == 32 then [] ∷ split_spaces t else put_char c (split_spaces t)

-- The prefixes of the next lengths.
unfoldable pub prefixes : ℕ → ℕ → Text → List Text
prefixes n zero w = []
prefixes n (suc count) w = take n w ∷ prefixes (n + 1) count w

unfoldable pub all_prefixes : List Text → List Text
unfolding prefixes
all_prefixes [] = []
all_prefixes (w ∷ ws) = prefixes 2 (min (length w) 12 - 1) w ++ all_prefixes ws

unfoldable pub text_le : Text → Text → Bool
text_le [] u = true
text_le (a ∷ t) [] = false
text_le (a ∷ t) (b ∷ u) = ltb a b || (a == b && text_le t u)

unfoldable pub insert_text : Text → List Text → List Text
unfolding text_le
insert_text t [] = t ∷ []
insert_text t (u ∷ us) = if text_le t u then t ∷ u ∷ us else u ∷ insert_text t us

unfoldable pub sort_texts : List Text → List Text
unfolding insert_text
sort_texts [] = []
sort_texts (t ∷ ts) = insert_text t (sort_texts ts)

module _ (p : Platform) where
  unfoldable pub search_token : p.Key → Text → Text
  search_token key word = take 32 (hex (p.hmac (p.search_key key) (p.utf8 (p.lower word))))

  unfoldable pub words : Text → List Text
  unfolding blank split_spaces distinct
  words text =
      distinct
        (filter (λ w. leb 2 (length w)) (split_spaces (blank p.is_word false (p.lower text))))

  unfoldable pub word_tokens : p.Key → Text → List Text
  unfolding search_token words all_prefixes distinct sort_texts
  word_tokens key text = sort_texts (map (search_token key) (distinct (all_prefixes (words text))))

  -- The tokens of a word under the keys that the device has.
  unfoldable pub group_of : List (Option p.Key) → Text → List Text
  unfolding search_token
  group_of [] w = []
  group_of (none ∷ keys) w = group_of keys w
  group_of (some key ∷ keys) w = search_token key (take 12 w) ∷ group_of keys w

  unfoldable pub groups_of : List (Option p.Key) → List Text → List (List Text)
  unfolding group_of
  groups_of keys [] = []
  groups_of keys (w ∷ ws) = elim (group_of keys w) [
    | [] ↦ groups_of keys ws
    | ◌∷◌ t ts ↦ (t ∷ ts) ∷ groups_of keys ws
  ]

  -- The groups of the request for a query.
  unfoldable pub query_groups : List (Option p.Key) → Text → List (List Text)
  unfolding groups_of words
  query_groups keys query = groups_of keys (take 8 (words query))

-- Whether a message has a token of each group, of which the server reads 32 tokens; nothing is found for no groups.
unfoldable pub has_each : List (List Text) → List Text → Bool
unfolding has
has_each [] tokens = true
has_each (g ∷ gs) tokens = any (λ t. has t tokens) (take 32 g) && has_each gs tokens

-- Whether a message with these tokens is among the candidates.
unfoldable pub is_candidate : List (List Text) → List Text → Bool
unfolding has_each
is_candidate [] tokens = false
is_candidate (g ∷ gs) tokens = has_each (take 8 (g ∷ gs)) tokens

-- A message of the chat as the server keeps it.
pub record Stored : Type 0 where
  pub seq : ℕ
  pub tokens : List Text

unfoldable pub is_found : List (List Text) → (cleared_seq : ℕ) → Stored → Bool
unfolding is_candidate
is_found groups cleared_seq m = is_candidate groups m.tokens && ltb cleared_seq m.seq

-- The search over the messages of a chat, the newest first, for a member that has cleared the chat up to `cleared_seq`:
-- the newest 50 candidates that it has not cleared.
unfoldable pub search_messages : List (List Text) → (cleared_seq : ℕ) → List Stored → List Stored
unfolding is_found
search_messages groups cleared_seq stored = take 50 (filter (is_found groups cleared_seq) stored)
