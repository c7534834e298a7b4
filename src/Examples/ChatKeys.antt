-- ===== src/Examples/ChatKeys.antt =====
-- The theorems on the keys of chats at concrete members.
use cryptis_dchat_project.Prelude.{ℕ, ◌≡◌, refl, none, some, [], ◌∷◌}
use cryptis_dchat_project.TreeKem.{Bytes, lookup, insert}
use cryptis_dchat_project.Examples.TreeKem.{tagging}
use cryptis_dchat_project.ChatKeys.{
  Member, accepted, stale_epoch, Round, with_key, created, take_key, learn_keys, conv_key,
  send_key_now,
}
use cryptis_dchat_project.ChatKeys.Agreement.{
  after_post, listed, Chat, first_made, second_looked, here, next, Reach-same_key,
}

abbrev member : ℕ → Member
member n = record { identity = n ∷ []; conv_keys = []; key_epoch = 0 }

abbrev chat : Chat
chat = record { made = []; first = member 5; second = member 6 }

abbrev no_draw : ℕ → Bytes
no_draw n = []

abbrev with_epoch : Chat
with_epoch = record chat {
  made = (7 ∷ []) ∷ [];
  first = record { identity = 5 ∷ []; conv_keys = (1, 7 ∷ []) ∷ []; key_epoch = 1 };
}

Reach-same_key_example : ◌≡◌ {A = Bytes} (7 ∷ []) (7 ∷ [])
unfolding lookup insert created conv_key learn_keys take_key listed after_post
Reach-same_key_example =
    Reach-same_key tagging 1 (7 ∷ []) (7 ∷ [])
      (next (next here (first_made chat (7 ∷ []) 1 accepted (λ e. refl))) (
        second_looked
          (record chat { made = (7 ∷ []) ∷ []; first = (created (7 ∷ []) 1 accepted (member 5)).0 })
          1 no_draw))
      ((λ epoch k h. absurd (cc h)), (λ epoch k h. absurd (cc h))) refl refl

abbrev fresh_round : Round
fresh_round = record { key = 9 ∷ []; listed = []; posted = accepted; found = none }

abbrev ready : Member
ready = record { identity = 5 ∷ []; conv_keys = (1, 9 ∷ []) ∷ []; key_epoch = 1 }

first_message :
    send_key_now tagging fresh_round fresh_round (member 5) ≡ (ready, with_key 1 (9 ∷ []))
unfolding send_key_now created insert
first_message = refl

abbrev late_round : Round
late_round = record { key = 9 ∷ []; listed = []; posted = stale_epoch; found = some 1 }

abbrev second_round : Round
second_round = record {
  key = 8 ∷ [];
  listed = (1, 5 ∷ 7 ∷ []) ∷ [];
  posted = accepted;
  found = none;
}

found_key :
    lookup 1
      (conv_key tagging 1 second_round.listed (record (member 5) { key_epoch = 1 })).conv_keys
    ≡ some (7 ∷ [])
unfolding lookup conv_key insert
found_key = refl
