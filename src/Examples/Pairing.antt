-- ===== src/Examples/Pairing.antt =====
-- The theorems on a pairing at concrete devices.
use mathlib.Core.Option.{some-injective}
use cryptis_dchat_project.Prelude.{
  ℕ, zero, suc, ◌≡◌, refl, sym, ap, ap₂, ◌∙◌, ◌==◌, if◌then◌else◌, true, false, Option, none, some,
  List, [], ◌∷◌, ◌++◌, arith, length, take, drop, take-length_append, drop-length_append,
}
use cryptis_dchat_project.Pairing.Envelope.{
  Text, is_id, Keys, State, Scan, PinVerifier, Plain, Suite, transfer, validate_keys, seal,
  open_envelope,
}
use cryptis_dchat_project.Pairing.Binding.{open_envelope-bound, open_envelope-seal}
use cryptis_dchat_project.Pairing.Device.{
  Vault, pairing, completing, expired, Device, begin_pairing, created, request, poll_pairing,
  approved, finish_pairing, completed_for, issued, Pending,
}
use cryptis_dchat_project.Pairing.Device.Reach.{
  began, answered, polled, entered, finished, Reach, at_first, and_then, Reach-vault_first,
}

abbrev pub join : List Text → Text
join [] = []
join (t ∷ ts) = length t ∷ (t ++ join ts)

abbrev pub split : ℕ → Text → List Text
split zero t = []
split (suc n) [] = []
split (suc n) (k ∷ t) = take k t ∷ split n (drop k t)

pub split-join : (ts : List Text) → split (length ts) (join ts) ≡ ts
split-join [] = refl
split-join (t ∷ ts) =
    ap₂ ◌∷◌ (take-length_append t (join ts))
      (ap (split (length ts)) (drop-length_append t (join ts)) ∙ split-join ts)

abbrev pub one : ℕ → Text
one n = n ∷ []

abbrev pub fields : Plain → List Text
fields p =
    one p.v
    ∷ p.request_id
    ∷ p.ephemeral_public_key
    ∷ p.account_id
    ∷ p.operation_id
    ∷ one p.state.v
    ∷ p.state.user_id
    ∷ one p.state.keys.version
    ∷ p.state.keys.identity_pkcs8
    ∷ p.state.keys.signing_pkcs8
    ∷ p.state.keys.identity_pub
    ∷ p.state.keys.signing_pub
    ∷ p.state.conv
    ∷ p.state.trees
    ∷ one p.pin_verifier.v
    ∷ p.pin_verifier.salt
    ∷ p.pin_verifier.iv
    ∷ p.pin_verifier.ciphertext
    ∷ []

abbrev pub of_fields : List Text → Option Plain
of_fields
      ((v ∷ [])
        ∷ r
        ∷ k
        ∷ a
        ∷ o
        ∷ (sv ∷ [])
        ∷ u
        ∷ (n ∷ [])
        ∷ ip
        ∷ sp
        ∷ iu
        ∷ su
        ∷ c
        ∷ t
        ∷ (pv ∷ [])
        ∷ sa
        ∷ iv
        ∷ ct
        ∷ []) =
    some (record {
      v = v;
      request_id = r;
      ephemeral_public_key = k;
      account_id = a;
      operation_id = o;
      state = record {
        v = sv;
        user_id = u;
        keys = record {
          version = n;
          identity_pkcs8 = ip;
          signing_pkcs8 = sp;
          identity_pub = iu;
          signing_pub = su;
        };
        conv = c;
        trees = t;
      };
      pin_verifier = record { v = pv; salt = sa; iv = iv; ciphertext = ct };
    })
of_fields _ = none

abbrev pub untag : Text → Text → Option Text
untag key [] = none
untag key (tag ∷ plain) = if tag == length key then some plain else none

pub untag_same : (key plain : Text) → untag key (length key ∷ plain) ≡ some plain
untag_same key plain = ground arith

-- A sealed text has the length of the key before it.
abbrev pub tagging : Suite
tagging = record {
  private_point = some;
  public_point = some;
  ecies_seal = λ p d plain. length p ∷ plain;
  ecies_open = λ k sealed. untag k sealed;
  to_json = λ p. join (fields p);
  of_json = λ t. of_fields (split 18 t);
  open-seal = λ k p point d plain hk hp.
      ap (λ q. untag k (length q ∷ plain)) (some-injective p k (hp ∙ sym hk)) ∙ untag_same k plain;
  of_json-to_json = λ p. ap of_fields (split-join (fields p));
}

-- 00000000-0000-0000-0000-000000000000
abbrev pub zeros : ℕ → Text → Text
zeros zero t = t
zeros (suc n) t = 48 ∷ zeros n t

abbrev pub id : Text
id = zeros 8 (45 ∷ zeros 4 (45 ∷ zeros 4 (45 ∷ zeros 4 (45 ∷ zeros 12 []))))

id_is : is_id id ≡ true
unfolding is_id
id_is = refl

abbrev pub keys : Keys
keys = record {
  version = 2;
  identity_pkcs8 = 1 ∷ [];
  signing_pkcs8 = 2 ∷ [];
  identity_pub = 1 ∷ [];
  signing_pub = 2 ∷ [];
}

abbrev pub state : State
state = record {
  user_id = id;
  refresh = some (7 ∷ []);
  keys = keys;
  conv = 3 ∷ [];
  trees = [];
  cache = 4 ∷ [];
}

abbrev pub verifier : PinVerifier
verifier = record { v = 1; salt = 5 ∷ []; iv = []; ciphertext = 6 ∷ [] }

abbrev pub scan : Scan
scan = record { request_id = 9 ∷ []; ephemeral_public_key = 8 ∷ 8 ∷ [] }

keys_are_valid : validate_keys tagging keys ≡ true
unfolding validate_keys
keys_are_valid = refl

open_envelope-seal_example :
    open_envelope tagging (8 ∷ 8 ∷ []) scan (seal tagging [] scan state id verifier)
    ≡ some (transfer state, verifier)
open_envelope-seal_example =
    open_envelope-seal tagging (8 ∷ 8 ∷ []) (8 ∷ 8 ∷ []) [] scan state id verifier refl refl id_is
      id_is refl keys_are_valid

open_envelope-bound_example :
    (text : Text) × (p : Plain) × (untag
        (8 ∷ 8 ∷ [])
        (seal tagging [] scan state id verifier).ciphertext
      ≡ some text)
    × (of_fields (split 18 text) ≡ some p)
    × (p.request_id ≡ scan.request_id)
    × (p.ephemeral_public_key ≡ scan.ephemeral_public_key)
    × (p.operation_id ≡ (seal tagging [] scan state id verifier).operation_id)
    × (p.state ≡ transfer state)
    × (p.pin_verifier ≡ verifier)
    × ((transfer state).user_id ≡ (seal tagging [] scan state id verifier).account_id)
    × (validate_keys tagging (transfer state).keys ≡ true)
open_envelope-bound_example =
    open_envelope-bound tagging (8 ∷ 8 ∷ []) scan (seal tagging [] scan state id verifier)
      (transfer state) verifier open_envelope-seal_example

abbrev new_device : Device
new_device = record {
  pairing_new = none;
  generation = 0;
  is_creating = false;
  retry_at = 0;
  vault = none;
  session = none;
  gate = pairing expired;
  deleted = [];
  completions = [];
}

abbrev pin : Text
pin = 49 ∷ 50 ∷ 51 ∷ 52 ∷ []

abbrev approved_device : Device
approved_device =
    poll_pairing 1 2000 (approved (some (transfer state, verifier)))
      (created 1 1000 (request (9 ∷ []) (4 ∷ []) 60 true) (begin_pairing 0 new_device))

-- The pairing that asked for its completion.
abbrev finished_pairing : Pending
finished_pairing = record {
  request_id = 9 ∷ [];
  poll_secret = 4 ∷ [];
  expires_at = 60;
  transferred = some (transfer state, verifier);
  vault_created = true;
  completed = false;
}

-- The import of the keys fails.
abbrev connected : Device
connected =
    completed_for finished_pairing (issued id (10 ∷ []) (11 ∷ [])) false
      (finish_pairing pin true approved_device)

connects : Reach new_device connected
connects =
    and_then
      (and_then
        (and_then (and_then (and_then at_first (began new_device 0)) (answered _ 1 1000 _ making))
          (polled _ 1 2000 _))
        (entered approved_device pin true))
      (finished _ finished_pairing _ false completing_ has_pairing)
  where
    making : (begin_pairing 0 new_device).is_creating ≡ true
    making = unfold begin_pairing in refl

    completing_ : (finish_pairing pin true approved_device).gate ≡ pairing completing
    completing_ = unfold finish_pairing poll_pairing created begin_pairing in refl

    has_pairing : (finish_pairing pin true approved_device).pairing_new ≡ some finished_pairing
    has_pairing = unfold finish_pairing poll_pairing created begin_pairing in refl

connected_session : connected.session ≡ some (record { access = 10 ∷ []; refresh = 11 ∷ [] })
unfolding completed_for finish_pairing poll_pairing created begin_pairing transfer
connected_session = refl

Reach-vault_first_example :
    ((p : Pending) → connected.pairing_new ≡ some p → p.completed ≡ true)
    × (w : Vault) × (connected.vault ≡ some w)
    × (w.refresh ≡ some (11 ∷ []))
Reach-vault_first_example =
    Reach-vault_first (record { access = 10 ∷ []; refresh = 11 ∷ [] }) connects (tt, tt, tt)
      connected_session
