-- ===== src/Pairing/Envelope.antt =====
-- The envelope with the account's keys: `seal` and `open` of backend/static/js/lib/pairing.js.
use cryptis_dchat_project.Prelude.{
  ℕ, zero, suc, ◌≡◌, leb, ◌==◌, if◌then◌else◌, Bool, true, false, ◌&&◌, ◌||◌, Option, none, some,
  List, [], ◌∷◌, ◌>>=◌,
}
use cryptis_dchat_project.Crypto.Merkle.{text_eq}

abbrev pub Text : Type 0
Text = List ℕ

-- `/^[0-9a-f]{8}-[0-9a-f]{4}-[0-9a-f]{4}-[0-9a-f]{4}-[0-9a-f]{12}$/`
abbrev pub is_hex : ℕ → Bool
is_hex c = (leb 48 c && leb c 57) || (leb 97 c && leb c 102)

unfoldable pub hex_run : ℕ → Text → Option Text
hex_run zero t = some t
hex_run (suc n) [] = none
hex_run (suc n) (c ∷ t) = if is_hex c then hex_run n t else none

unfoldable pub after_dash : Text → Option Text
after_dash [] = none
after_dash (c ∷ t) = if c == 45 then some t else none

unfoldable pub hex_groups : ℕ → List ℕ → Text → Option Text
unfolding hex_run after_dash
hex_groups n [] t = hex_run n t
hex_groups n (m ∷ ms) t = do rest ← hex_run n t; next ← after_dash rest; hex_groups m ms next

unfoldable pub is_id : Text → Bool
unfolding hex_groups
is_id t = elim (hex_groups 8 (4 ∷ 4 ∷ 4 ∷ 12 ∷ []) t) [
  | none ↦ false
  | some rest ↦ elim rest [ [] ↦ true | ◌∷◌ c cs ↦ false ]
]

pub record Keys : Type 0 where
  pub version : ℕ
  pub identity_pkcs8 : Text
  pub signing_pkcs8 : Text
  pub identity_pub : Text
  pub signing_pub : Text

-- The vault's state; `conv`, `trees` and `cache` as their JSON.
pub record State : Type 0 where
  pub user_id : Text
  pub refresh : Option Text
  pub keys : Keys
  pub conv : Text
  pub trees : Text
  pub cache : Text

pub record Transferred : Type 0 where
  pub v : ℕ
  pub user_id : Text
  pub keys : Keys
  pub conv : Text
  pub trees : Text

pub record Scan : Type 0 where
  pub request_id : Text
  pub ephemeral_public_key : Text

pub record PinVerifier : Type 0 where
  pub v : ℕ
  pub salt : Text
  pub iv : Text
  pub ciphertext : Text

-- What is sealed, and the envelope around it.
pub record Plain : Type 0 where
  pub v : ℕ
  pub request_id : Text
  pub ephemeral_public_key : Text
  pub account_id : Text
  pub operation_id : Text
  pub state : Transferred
  pub pin_verifier : PinVerifier

pub record Envelope : Type 0 where
  pub request_id : Text
  pub ephemeral_public_key : Text
  pub account_id : Text
  pub operation_id : Text
  pub ciphertext : Text

-- Web Crypto and `JSON`: the point of a private key and of a public one, where they can be imported; ECIES
-- with what it draws; and the texts of JSON, where one that has not the fields and types of `Plain` gives none.
pub record Suite : Type 0 where
  pub private_point : Text → Option Text
  pub public_point : Text → Option Text
  pub ecies_seal : (public drawn plain : Text) → Text
  pub ecies_open : (private sealed : Text) → Option Text
  pub to_json : Plain → Text
  pub of_json : Text → Option Plain
  -- A private key opens what was sealed for the public key of the same point.
  pub open-seal :
      (k p point drawn plain : Text)
      → private_point k ≡ some point
      → public_point p ≡ some point
      → ecies_open k (ecies_seal p drawn plain) ≡ some plain
  pub of_json-to_json : (p : Plain) → of_json (to_json p) ≡ some p

-- Only what may be sent of the state.
unfoldable pub transfer : State → Transferred
transfer s = record { v = 1; user_id = s.user_id; keys = s.keys; conv = s.conv; trees = s.trees }

unfoldable pub guard : Bool → Option (Unit {0})
guard true = some tt
guard false = none

module _ (w : Suite) where
  open w use {private_point, public_point, ecies_seal, ecies_open, to_json, of_json}

  -- One round of the loop of `validateKeys`.
  unfoldable pub check_pair : Text → Text → Bool
  check_pair private public = elim (private_point private) [
    | none ↦ false
    | some a ↦ elim (public_point public) [ none ↦ false | some b ↦ text_eq a b ]
  ]

  unfoldable pub validate_keys : Keys → Bool
  unfolding check_pair
  validate_keys k =
      leb 1 k.version
      && (check_pair k.identity_pkcs8 k.identity_pub && check_pair k.signing_pkcs8 k.signing_pub)

  -- `seal`; `drawn` is what ECIES draws.
  unfoldable pub seal : Text → Scan → State → Text → PinVerifier → Envelope
  unfolding transfer
  seal drawn scan state operation_id verifier = record {
    request_id = scan.request_id;
    ephemeral_public_key = scan.ephemeral_public_key;
    account_id = state.user_id;
    operation_id = operation_id;
    ciphertext = ecies_seal scan.ephemeral_public_key drawn (
        to_json (record {
          v = 1;
          request_id = scan.request_id;
          ephemeral_public_key = scan.ephemeral_public_key;
          account_id = state.user_id;
          operation_id = operation_id;
          state = transfer state;
          pin_verifier = verifier;
        }));
  }

  -- The tests of `open` on the envelope, and on what was sealed.
  unfoldable pub is_for : Scan → Envelope → Bool
  unfolding is_id
  is_for scan e =
      text_eq e.request_id scan.request_id
      && (text_eq e.ephemeral_public_key scan.ephemeral_public_key
          && (is_id e.account_id && is_id e.operation_id))

  unfoldable pub is_bound : Envelope → Plain → Bool
  is_bound e p =
      (p.v == 1 && p.pin_verifier.v == 1)
      && (text_eq p.request_id e.request_id
          && (text_eq p.ephemeral_public_key e.ephemeral_public_key
              && (text_eq p.account_id e.account_id && text_eq p.operation_id e.operation_id)))

  unfoldable pub is_state : Envelope → Transferred → Bool
  unfolding validate_keys
  is_state e t = (t.v == 1 && text_eq t.user_id e.account_id) && validate_keys t.keys

  -- `open`; the result goes on with `refresh: null` and an empty cache. `none` is the thrown error.
  unfoldable pub open_envelope : Text → Scan → Envelope → Option (Transferred × PinVerifier)
  unfolding is_for is_bound is_state guard
  open_envelope private scan e = do
    _ ← guard (is_for scan e)
    text ← ecies_open private e.ciphertext
    p ← of_json text
    _ ← guard (is_bound e p)
    _ ← guard (is_state e p.state)
    some (p.state, p.pin_verifier)
