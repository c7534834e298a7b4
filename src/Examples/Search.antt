-- ===== src/Examples/Search.antt =====
-- The theorem on search at a concrete message and query.
use cryptis_dchat_project.Prelude.{
  ℕ, ◌≡◌, ◌≤◌, ◌<◌, All, ◌==◌, refl, not, none, some, List, [], ◌∷◌, ◌++◌, codes, arith, length,
  filter, get_elem?,
}
use cryptis_dchat_project.Search.{
  Platform, words, blank, split_spaces, put_char, distinct, has, query_groups, word_tokens, Stored,
  is_found, is_candidate, has_each, groups_of, group_of, search_token, search_messages,
}
use cryptis_dchat_project.Search.Found.{search_messages-found}

-- Every character but the space is a letter, and a token is the word's bytes.
abbrev plain : Platform
plain = record {
  Key = List ℕ;
  lower = λ t. t;
  is_word = λ c. not (c == 32);
  utf8 = λ t. t;
  search_key = λ k. k;
  hmac = λ k t. k ++ t;
}

abbrev greeting : Stored
greeting = record { seq = 9; tokens = word_tokens plain (1 ∷ []) (codes "hello, world") }

-- A newer message that the query does not find.
abbrev newest : Stored
newest = record { seq = 10; tokens = [] }

abbrev groups : List (List (List ℕ))
groups = query_groups plain (none ∷ some (1 ∷ []) ∷ []) (codes "wo he")

search_messages-found_example :
    (get_elem?
        (search_messages groups 4 ((newest ∷ []) ++ greeting ∷ []))
        (length (filter (is_found groups 4) (newest ∷ [])))
      ≡ some greeting)
    × All (λ (u : Stored). 4 < u.seq) (search_messages groups 4 ((newest ∷ []) ++ greeting ∷ []))
    × (length (search_messages groups 4 ((newest ∷ []) ++ greeting ∷ [])) ≤ 50)
unfolding words blank split_spaces put_char distinct has query_groups is_found is_candidate has_each
    groups_of group_of search_token
search_messages-found_example =
    search_messages-found plain (1 ∷ []) (none ∷ some (1 ∷ []) ∷ []) 1 (codes "hello, world")
      (codes "wo he") 4 (newest ∷ []) [] greeting (omega arith) refl (λ e. cc e)
      ((codes "rld", refl), ((codes "llo,", refl), tt)) refl (omega arith) (omega arith)
