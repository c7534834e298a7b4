-- ===== src/Pairing/Device.antt =====
-- The new device in a pairing: `beginPairing`, `pollPairing`, `finishPairing` and `clearPairing` of
-- backend/static/js/app/data.js, with their awaits as separate steps.
pub mod Sound
pub mod Reach
use cryptis_dchat_project.Prelude.{
  ℕ, ◌+◌, ◌*◌, max, ◌==◌, ltb, leb, if◌then◌else◌, Bool, true, false, not, ◌&&◌, ◌||◌, Option, none,
  some, List, [], ◌∷◌, ◌++◌, length, all,
}
use cryptis_dchat_project.Crypto.Merkle.{text_eq}
use cryptis_dchat_project.Pairing.Envelope.{Text, Transferred, PinVerifier}

-- `pairingNew`, without the private key. `completed` is there once the completed pairing was saved in the vault.
pub record Pending : Type 0 where
  pub request_id : Text
  pub poll_secret : Text
  pub expires_at : ℕ
  pub transferred : Option (Transferred × PinVerifier)
  pub vault_created : Bool
  pub completed : Bool

-- The vault in the storage, which this page created and holds open.
pub record Vault : Type 0 where
  pub pin : Text
  pub state : Transferred
  pub refresh : Option Text

pub record Tokens : Type 0 where
  pub access : Text
  pub refresh : Text

pub data Status : Type 0 where
  creating pending expired rejected cancelled completing complete_error error : Status

pub data Gate : Type 0 where
  pairing : Status → Gate
  pairing_pin : (failed : Bool) → Gate
  started : Gate

-- The variables of data.js, the vault, the session, the gate, and the requests: those that were
-- cancelled, and those that were completed.
pub record Device : Type 0 where
  pub pairing_new : Option Pending
  pub generation : ℕ
  pub is_creating : Bool
  pub retry_at : ℕ
  pub vault : Option Vault
  pub session : Option Tokens
  pub gate : Gate
  pub deleted : List Text
  pub completions : List Text

unfoldable pub is_some : {A : Type 0} → Option A → Bool
is_some none = false
is_some (some a) = true

-- `cancelPairingRequest`
unfoldable pub cancel_request : Option Pending → List Text → List Text
cancel_request none deleted = deleted
cancel_request (some p) deleted = deleted ++ p.request_id ∷ []

-- A vault that was made for a request that is not completed is wiped.
unfoldable pub wipe_unfinished : Option Pending → Option Vault → Option Vault
wipe_unfinished none v = v
wipe_unfinished (some p) v = if p.vault_created && not p.completed then none else v

unfoldable pub clear_pairing : Device → Device
unfolding cancel_request wipe_unfinished
clear_pairing d = record d {
  generation = d.generation + 1;
  pairing_new = none;
  deleted = cancel_request d.pairing_new d.deleted;
  vault = wipe_unfinished d.pairing_new d.vault;
}

-- `beginPairing` up to its request; a vault that is there ends it.
unfoldable pub begin_pairing : ℕ → Device → Device
unfolding clear_pairing is_some
begin_pairing now d =
    if d.is_creating
    then d
    else if ltb now d.retry_at
    then record d { gate = pairing error }
    else (let cleared = clear_pairing d in
        if is_some cleared.vault
        then record cleared { gate = pairing error }
        else record cleared { is_creating = true; gate = pairing creating })

-- The reply to that request: too many requests, a failure, or a request that `parse` and the comparison
-- with the own key accept or not.
pub data CreateReply : Type 0 where
  too_many : (retry_after : ℕ) → CreateReply
  failed : CreateReply
  request : (request_id poll_secret : Text) (expires_at : ℕ) (accepted : Bool) → CreateReply

abbrev pub new_pending : Text → Text → ℕ → Pending
new_pending id secret expires = record {
  request_id = id;
  poll_secret = secret;
  expires_at = expires;
  transferred = none;
  vault_created = false;
  completed = false;
}

unfoldable pub take_request : ℕ → ℕ → CreateReply → Device → Device
take_request generation now (too_many retry_after) d =
    let later = record d { retry_at = now + max 1 retry_after * 1000 } in
    if generation == d.generation then record later { gate = pairing error } else later
take_request generation now failed d =
    if generation == d.generation then record d { gate = pairing error } else d
take_request generation now (request id secret expires accepted) d =
    if generation == d.generation
    then (if accepted
        then record d {
          pairing_new = some (new_pending id secret expires);
          retry_at = 0;
          gate = pairing pending;
        }
        else record d { gate = pairing error })
    else record d { deleted = d.deleted ++ id ∷ [] }

unfoldable pub created : ℕ → ℕ → CreateReply → Device → Device
unfolding take_request
created generation now r d = record (take_request generation now r d) { is_creating = false }

-- The reply to a poll: no network or another failure, still pending, an end, or an approval whose envelope
-- opens or not.
pub data PollReply : Type 0 where
  poll_failed still_pending : PollReply
  ended : Status → PollReply
  approved : Option (Transferred × PinVerifier) → PollReply

unfoldable pub take_poll : PollReply → Pending → Device → Device
unfolding clear_pairing
take_poll poll_failed p d = d
take_poll still_pending p d = d
take_poll (ended status) p d = record d { pairing_new = none; gate = pairing status }
take_poll (approved none) p d = record (clear_pairing d) { gate = pairing error }
take_poll (approved (some t)) p d = record d {
  pairing_new = some (record p { transferred = some t });
  gate = pairing_pin false;
}

-- `pollPairing(generation)` at a time in milliseconds.
unfoldable pub poll_pairing : ℕ → ℕ → PollReply → Device → Device
unfolding take_poll
poll_pairing generation now r d = elim d.pairing_new [
  | none ↦ d
  | some p ↦
      if generation == d.generation
      then (if leb (p.expires_at * 1000) now
          then record d { pairing_new = none; gate = pairing expired }
          else take_poll r p d)
      else d
]

-- `/^\d{4}$/`
abbrev pub is_pin : Text → Bool
is_pin pin = length pin == 4 && all (λ c. leb 48 c && leb c 57) pin

-- `finishPairing` up to its request, which is then sent; `matches` is what `verifyPin` gives.
unfoldable pub protect : Text → Bool → Pending → Transferred → Device → Device
protect pin matches p t d =
    if p.vault_created
    then record d { gate = pairing completing; completions = d.completions ++ p.request_id ∷ [] }
    else if is_pin pin && matches
    then record d {
      pairing_new = some (record p { vault_created = true });
      vault = some (record { pin = pin; state = t; refresh = none });
      gate = pairing completing;
      completions = d.completions ++ p.request_id ∷ [];
    }
    else record d { gate = pairing_pin true }

unfoldable pub finish_pairing : Text → Bool → Device → Device
unfolding protect
finish_pairing pin matches d = elim d.pairing_new [
  | none ↦ d
  | some p ↦ elim p.transferred [ none ↦ d | some t ↦ protect pin matches p t.0 d ]
]

-- The reply to the completion: none or a failure, or the user with the tokens.
pub data CompleteReply : Type 0 where
  completion_failed : CompleteReply
  issued : (user_id access refresh : Text) → CompleteReply

unfoldable pub nonempty : Text → Bool
nonempty [] = false
nonempty (c ∷ t) = true

-- `VAULT.save` of the transferred state with the new token.
unfoldable pub save_refresh : Text → Transferred → Option Vault → Option Vault
save_refresh refresh t none = none
save_refresh refresh t (some v) = some (record v { state = t; refresh = some refresh })

-- The end of `finishPairing` for the pairing `p` that it began with: the session is there before `importKeys`, which may
-- fail, and only then is the pairing given up.
unfoldable pub take_completion :
    CompleteReply → (imported : Bool) → Pending → Transferred → Device → Device
unfolding nonempty save_refresh
take_completion completion_failed imported p t d = record d { gate = pairing complete_error }
take_completion (issued user access refresh) imported p t d =
    if text_eq user t.user_id && (nonempty access && nonempty refresh)
    then record d {
      vault = save_refresh refresh t d.vault;
      session = some (record { access = access; refresh = refresh });
      pairing_new = if imported then none else some (record p { completed = true });
      generation = if imported then d.generation + 1 else d.generation;
      gate = if imported then started else pairing complete_error;
    }
    else record d { gate = pairing complete_error }

-- The reply for the pairing `p`, which is not read again.
unfoldable pub completed_for : Pending → CompleteReply → (imported : Bool) → Device → Device
unfolding take_completion
completed_for p r imported d = elim p.transferred [
  | none ↦ d
  | some t ↦ take_completion r imported p t.0 d
]
