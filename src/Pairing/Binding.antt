-- ===== src/Pairing/Binding.antt =====
-- `seal` and `open` of backend/static/js/lib/pairing.js together.
use mathlib.Core.Option.{some-injective}
use cryptis_dchat_project.Prelude.{◌≡◌, refl, sym, ap, ◌∙◌, Bool, true, false, ◌&&◌, some, >>=-some}
use cryptis_dchat_project.Crypto.Merkle.Hex.{text_eq-same, text_eq_refl}
use cryptis_dchat_project.Pairing.Envelope.{
  Text, is_id, State, Transferred, Scan, PinVerifier, Plain, Envelope, Suite, transfer, guard,
  validate_keys, seal, is_for, is_bound, is_state, open_envelope,
}

guard-some : (b : Bool) {u : Unit {0}} → guard b ≡ some u → b ≡ true
unfolding guard
guard-some true h = refl
guard-some false h = absurd (cc h)

both : (a b : Bool) → (a && b) ≡ true → (a ≡ true) × (b ≡ true)
both true b h = (refl, h)
both false b h = absurd (cc h)

module _ (w : Suite) where
  open w use {
    private_point, public_point, ecies_seal, ecies_open, to_json, of_json, open-seal,
    of_json-to_json,
  }

  -- The tests that an envelope passed which opens.
  open_envelope-parts :
      (private : Text) (scan : Scan) (e : Envelope) (t : Transferred) (verifier : PinVerifier)
      → open_envelope w private scan e ≡ some (t, verifier)
      → (text : Text) × (p : Plain) × (is_for w scan e ≡ true)
        × (ecies_open private e.ciphertext ≡ some text)
        × (of_json text ≡ some p)
        × (is_bound w e p ≡ true)
        × (is_state w e p.state ≡ true)
        × (p.state ≡ t)
        × (p.pin_verifier ≡ verifier)
  unfolding open_envelope
  open_envelope-parts private scan e t verifier h =
      let (u, for_it, more) = >>=-some (guard (is_for w scan e)) _ h in
      let (text, opens, more) = >>=-some (ecies_open private e.ciphertext) _ more in
      let (p, parses, more) = >>=-some (of_json text) _ more in
      let (u', bound, more) = >>=-some (guard (is_bound w e p)) _ more in
      let (u'', state, more) = >>=-some (guard (is_state w e p.state)) _ more in
      let same = some-injective (p.state, p.pin_verifier) (t, verifier) more in
      (
        text,
        p,
        guard-some _ for_it,
        opens,
        parses,
        guard-some _ bound,
        guard-some _ state,
        ap (λ q. q.0) same,
        ap (λ q. q.1) same,
      )

  -- Where an envelope opens, what was sealed in it names the scanned request, the scanned key and the
  -- envelope's operation, the state is the one of the envelope's account, and its keys are pairs of one
  -- point each.
  pub open_envelope-bound :
      (private : Text) (scan : Scan) (e : Envelope) (t : Transferred) (verifier : PinVerifier)
      → open_envelope w private scan e ≡ some (t, verifier)
      → (text : Text) × (p : Plain) × (ecies_open private e.ciphertext ≡ some text)
        × (of_json text ≡ some p)
        × (p.request_id ≡ scan.request_id)
        × (p.ephemeral_public_key ≡ scan.ephemeral_public_key)
        × (p.operation_id ≡ e.operation_id)
        × (p.state ≡ t)
        × (p.pin_verifier ≡ verifier)
        × (t.user_id ≡ e.account_id)
        × (validate_keys w t.keys ≡ true)
  unfolding is_for is_bound is_state
  open_envelope-bound private scan e t verifier h =
      let (text, p, for_it, opens, parses, bound, state, is_t, is_verifier) =
        open_envelope-parts private scan e t verifier h in
      let (same_request, for_rest) = both _ _ for_it in
      let (same_key, ids) = both _ _ for_rest in
      let (versions, bound_rest) = both _ _ bound in
      let (bound_request, bound_rest') = both _ _ bound_rest in
      let (bound_key, bound_rest'') = both _ _ bound_rest' in
      let (bound_account, bound_operation) = both _ _ bound_rest'' in
      let (version_user, valid) = both _ _ state in
      let (version, user) = both _ _ version_user in
      (
        text,
        p,
        opens,
        parses,
        text_eq-same _ _ bound_request ∙ text_eq-same _ _ same_request,
        text_eq-same _ _ bound_key ∙ text_eq-same _ _ same_key,
        text_eq-same _ _ bound_operation,
        is_t,
        is_verifier,
        ap (λ (s : Transferred). s.user_id) (sym is_t) ∙ text_eq-same _ _ user,
        ap (λ (s : Transferred). validate_keys w s.keys) (sym is_t) ∙ valid,
      )

  open_envelope-passes :
      (private : Text) (scan : Scan) (e : Envelope) (text : Text) (p : Plain)
      → is_for w scan e ≡ true
      → ecies_open private e.ciphertext ≡ some text
      → of_json text ≡ some p
      → is_bound w e p ≡ true
      → is_state w e p.state ≡ true
      → open_envelope w private scan e ≡ some (p.state, p.pin_verifier)
  unfolding open_envelope
  open_envelope-passes private scan e text p for_it opens parses bound state =
      rw (for_it, opens, parses, bound, state) (unfold guard in refl)

  -- The new device opens what `seal` made for its key, and gets the account's keys and the verifier of
  -- the passcode, and no refresh token and no messages, if the ids are UUIDs, the keys are pairs and the
  -- verifier has version 1.
  pub open_envelope-seal :
      (private point drawn : Text) (scan : Scan) (state : State) (operation_id : Text)
      (verifier : PinVerifier)
      → private_point private ≡ some point
      → public_point scan.ephemeral_public_key ≡ some point
      → is_id state.user_id ≡ true
      → is_id operation_id ≡ true
      → verifier.v ≡ 1
      → validate_keys w state.keys ≡ true
      → open_envelope w private scan (seal w drawn scan state operation_id verifier)
        ≡ some (transfer state, verifier)
  unfolding seal is_for is_bound is_state transfer
  open_envelope-seal private point drawn scan state operation_id verifier is_private is_public
        account operation one valid =
      open_envelope-passes private scan (seal w drawn scan state operation_id verifier) _ _
        (rw
          (text_eq_refl scan.request_id, text_eq_refl scan.ephemeral_public_key, account, operation)
          refl)
        (open-seal private scan.ephemeral_public_key point drawn _ is_private is_public)
        (of_json-to_json _)
        (rw
          (
            one,
            text_eq_refl scan.request_id,
            text_eq_refl scan.ephemeral_public_key,
            text_eq_refl state.user_id,
            text_eq_refl operation_id,
          )
          refl)
        (rw (text_eq_refl state.user_id, valid) refl)
