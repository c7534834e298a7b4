-- ===== src/Examples/Messages.antt =====
-- The theorems on the messages of backend/static/js/app/data.js at concrete lists.
use cryptis_dchat_project.Prelude.{ℕ, ◌≡◌, refl, true, false, List, [], ◌∷◌, String}
use cryptis_dchat_project.Messages.{Message, load_messages, on_incoming, replace_local}
use cryptis_dchat_project.Messages.Order.{IsSorted}
use cryptis_dchat_project.Messages.Arrival.{OnlyDraft, on_incoming-replace_local}
use cryptis_dchat_project.Messages.Pages.{AreDistinct, find, merged, load_messages-merged}

abbrev message : String → String → ℕ → Message
message id client_id seq = record {
  id = id;
  client_id = client_id;
  seq = seq;
  pending = false;
  failed = false;
  bad = false;
  confirmed = false;
  expires_at = 0;
  content = seq;
}

abbrev hello : Message
hello = message "m1" "c1" 1

abbrev answer : Message
answer = message "m2" "c2" 2

abbrev pending_answer : Message
pending_answer = record (message "local-c2" "c2" 9007199254740991) { pending = true }

abbrev shown : List Message
shown = hello ∷ pending_answer ∷ []

on_incoming-replace_local_example :
    on_incoming answer (replace_local "local-c2" answer shown)
    ≡ replace_local "local-c2" answer (on_incoming answer shown)
on_incoming-replace_local_example = on_incoming-replace_local "local-c2" answer shown only
  where
    only : OnlyDraft "local-c2" answer shown
    only = ((refl, refl, λ e. absurd (cc e)), ((refl, refl, λ e. refl), tt))

load_messages-merged_example :
    IsSorted (load_messages false (hello ∷ []) shown)
    × AreDistinct (load_messages false (hello ∷ []) shown)
    × ((k : String)
        → find k (load_messages false (hello ∷ []) shown) ≡ merged false (hello ∷ []) shown k)
load_messages-merged_example = load_messages-merged false (hello ∷ []) shown
