-- ===== src/Wire/Types.antt =====
-- Schemas, values and results of the codec in backend/static/js/lib/proto.js.
use cryptis_dchat_project.Prelude.{
  ℕ, String, Bool, true, false, Option, none, some, List, [], ◌∷◌, str_eq, if◌then◌else◌,
}

-- A JavaScript text, as its code points.
abbrev pub Text : Type 0
Text = List ℕ

-- The errors that the codec throws. `type_error` and `range_error` are thrown by the language;
-- `mismatch` is a value that no caller passes for the field's type, and the last two are no errors
-- of the program: see Wire/Fuel.antt.
pub data WireError : Type 0 where
  bad_varint truncated_varint varint_too_long truncated_field bad_utf8 type_error range_error :
      WireError
  unsupported_wire : ℕ → WireError
  mismatch out_of_fuel too_deep : WireError

pub data Result {ℓ} (A : Type ℓ) : Type ℓ where
  ok : A → Result A
  err : WireError → Result A

infixl 5 ◌>>=◌
abbrev pub ◌>>=◌ {ℓ ℓ'} : {A : Type ℓ} {B : Type ℓ'} (m : Result A) (k : A → Result B) → Result B
err thrown >>= k = err thrown
ok value >>= k = k value

pub data MessageType : Type 0 where
  message_packet ws_frame : MessageType

pub data FieldType : Type 0 where
  uint32 uint64 string bytes : FieldType
  message : MessageType → FieldType

pub record Field : Type 0 where
  pub num : ℕ
  pub name : String
  pub ftype : FieldType
  pub repeated : Bool

abbrev single : ℕ → String → FieldType → Field
single n s t = record { num = n; name = s; ftype = t; repeated = false }

-- `SCHEMA`
abbrev pub schema : MessageType → List Field
schema message_packet =
    single 1 "client_msg_id" string
    ∷ single 2 "thread_id" string
    ∷ single 3 "key_epoch" uint32
    ∷ single 4 "sender_key_version" uint32
    ∷ single 5 "nonce" bytes
    ∷ single 6 "ciphertext" bytes
    ∷ single 7 "signature" bytes
    ∷ single 8 "kind" string
    ∷ single 9 "reply_to_id" string
    ∷ single 10 "attachment_id" string
    ∷ record { num = 11; name = "search_tokens"; ftype = string; repeated = true }
    ∷ single 12 "push_preview" string
    ∷ single 13 "forwarded_from_id" string
    ∷ []
schema ws_frame =
    single 1 "event" string
    ∷ single 2 "thread_id" string
    ∷ single 3 "message_id" string
    ∷ single 4 "seq" uint64
    ∷ single 5 "sender_id" string
    ∷ single 6 "ts" uint64
    ∷ single 7 "packet" (message message_packet)
    ∷ single 8 "json" string
    ∷ []

-- The values of a message's properties, and objects with properties in order.
mutual
  pub data Value : Type 0 where
    null : Value
    number : ℕ → Value
    text : Text → Value
    texts : List Text → Value
    binary : List ℕ → Value
    object : Obj → Value

  pub data Obj : Type 0 where
    nil : Obj
    prop : String → Value → Obj → Obj

-- `data[name]`, where a missing property is `undefined`.
unfoldable pub get : Obj → String → Option Value
get nil k = none
get (prop j v o) k = if str_eq j k then some v else get o k

-- `result[name] = value`
unfoldable pub put : Obj → String → Value → Obj
put nil k v = prop k v nil
put (prop j w o) k v = if str_eq j k then prop j v o else prop j w (put o k v)

-- The platform's `TextEncoder` and its fatal `TextDecoder`, which drops a leading byte order mark,
-- and the largest length of a typed array.
pub record Platform : Type 0 where
  pub utf8_encode : Text → List ℕ
  pub utf8_decode : List ℕ → Option Text
  pub max_length : ℕ
