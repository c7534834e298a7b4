-- ===== src/Wire/Codec.antt =====
-- `encode` and `decode` of backend/static/js/lib/proto.js. A nested message is one level deeper;
-- the schemas nest two levels.
use cryptis_dchat_project.Prelude.{
  ℕ, zero, suc, ◌+◌, ◌*◌, ◌/◌, ◌%◌, ◌==◌, ltb, if◌then◌else◌, Bool, true, false, Option, none, some,
  List, [], ◌∷◌, ◌++◌, length, take, drop, replicate,
}
use cryptis_dchat_project.Wire.Types.{
  Text, Result, ok, err, mismatch, out_of_fuel, too_deep, truncated_field, bad_utf8, type_error,
  range_error, unsupported_wire, ◌>>=◌, MessageType, Field, FieldType, uint32, uint64, string,
  bytes, message, schema, Value, null, number, text, texts, binary, object, Obj, nil, prop, get,
  put, Platform,
}
use cryptis_dchat_project.Wire.Varint.{push_varint, read_varint}

unfoldable pub encode_number : ℕ → ℕ → Result (List ℕ)
encode_number num zero = ok []
encode_number num v = do key ← push_varint (num * 8); out ← push_varint v; ok (key ++ out)

-- What a property has before a field is read.
abbrev pub default_value : FieldType → Bool → Value
default_value ftype true = texts []
default_value uint32 false = number 0
default_value uint64 false = number 0
default_value string false = text []
default_value bytes false = binary []
default_value (message ty) false = null

unfoldable pub default_result : List Field → Obj
default_result [] = nil
default_result (f ∷ fields) = prop f.name (default_value f.ftype f.repeated) (default_result fields)

-- `fields[num]`
unfoldable pub find_field : ℕ → List Field → Option Field
find_field num [] = none
find_field num (f ∷ fields) = if f.num == num then some f else find_field num fields

-- What the wire holds: a number, or a part of the buffer.
pub data Raw : Type 0 where
  varint : ℕ → Raw
  chunk : List ℕ → Raw

-- `result[name].push(decoded)`; the repeated fields of the schemas are texts.
unfoldable pub pushed : Option Value → Value → Value
pushed (some (texts ts)) (text t) = texts (ts ++ t ∷ [])
pushed _ v = v

unfoldable pub store_value : Field → Value → Obj → Obj
unfolding pushed
store_value f v o = if f.repeated then put o f.name (pushed (get o f.name) v) else put o f.name v

-- `value = buf.subarray(pos, pos + len)` with its test, and what is left.
unfoldable pub read_chunk : ℕ → List ℕ → Result (List ℕ × List ℕ)
read_chunk len buf =
    if ltb (length buf) len then err truncated_field else ok (take len buf, drop len buf)

-- The value under a key and what is left; `none` is a skipped value of a fixed size.
unfoldable pub read_raw : ℕ → List ℕ → Result (Option Raw × List ℕ)
unfolding read_chunk
read_raw wire buf =
    if wire == 0
    then (do (v, rest) ← read_varint buf; ok (some (varint v), rest))
    else if wire == 2
    then (do
      (len, after) ← read_varint buf
      (b, rest) ← read_chunk len after
      ok (some (chunk b), rest))
    else if wire == 1
    then ok (none, drop 8 buf)
    else if wire == 5
    then ok (none, drop 4 buf)
    else err (unsupported_wire wire)

module _ (p : Platform) where
  open p use {utf8_encode, utf8_decode, max_length}

  -- `pushVarint(out, num * 8 + 2); pushVarint(out, payload.length); …`
  unfoldable pub encode_payload : ℕ → List ℕ → Result (List ℕ)
  encode_payload num payload = do
    key ← push_varint (num * 8 + 2)
    len ← push_varint (length payload)
    ok (key ++ len ++ payload)

  -- `for (const v of values)` for a repeated text
  unfoldable pub encode_texts : ℕ → List Text → Result (List ℕ)
  unfolding encode_payload
  encode_texts num [] = ok []
  encode_texts num (t ∷ ts) = do
    out ← encode_payload num (utf8_encode t)
    rest ← encode_texts num ts
    ok (out ++ rest)

  -- One round of the loop of `encode` over the schema, with the encoder of nested messages.
  unfoldable pub encode_value :
      (MessageType → Obj → Result (List ℕ)) → ℕ → FieldType → Bool → Value → Result (List ℕ)
  unfolding encode_payload encode_number encode_texts
  encode_value nested num ftype repeated null = ok []
  encode_value nested num uint32 false (number v) = encode_number num v
  encode_value nested num uint64 false (number v) = encode_number num v
  encode_value nested num string false (text []) = ok []
  encode_value nested num string false (text (c ∷ t)) = encode_payload num (utf8_encode (c ∷ t))
  encode_value nested num string true (texts ts) = encode_texts num ts
  encode_value nested num bytes false (binary []) = ok []
  encode_value nested num bytes false (binary (b ∷ bs)) = encode_payload num (b ∷ bs)
  encode_value nested num (message ty) false (object o) = do
    payload ← nested ty o
    encode_payload num payload
  encode_value nested num ftype repeated v = err mismatch

  unfoldable pub encode_property :
      (MessageType → Obj → Result (List ℕ)) → Field → Option Value → Result (List ℕ)
  unfolding encode_value
  encode_property nested f none = ok []
  encode_property nested f (some v) = encode_value nested f.num f.ftype f.repeated v

  unfoldable pub encode_fields :
      (MessageType → Obj → Result (List ℕ)) → List Field → Obj → Result (List ℕ)
  unfolding encode_property
  encode_fields nested [] o = ok []
  encode_fields nested (f ∷ fields) o = do
    out ← encode_property nested f (get o f.name)
    rest ← encode_fields nested fields o
    ok (out ++ rest)

  unfoldable pub encode_at : ℕ → MessageType → Obj → Result (List ℕ)
  unfolding encode_fields
  encode_at zero ty o = err too_deep
  encode_at (suc depth) ty o = encode_fields (encode_at depth) (schema ty) o

  unfoldable pub encode : MessageType → Obj → Result (List ℕ)
  unfolding encode_at
  encode ty o = encode_at 2 ty o

  -- `new Uint8Array(n)`
  unfoldable pub zeros : ℕ → Result (List ℕ)
  zeros n = if ltb max_length n then err range_error else ok (replicate n 0)

  unfoldable pub decode_text : Option Text → Result Value
  decode_text none = err bad_utf8
  decode_text (some t) = ok (text t)

  -- `decoded` of the field's type, whatever type the wire has.
  unfoldable pub decode_raw : (MessageType → List ℕ → Result Obj) → FieldType → Raw → Result Value
  unfolding zeros decode_text
  decode_raw nested uint32 (varint v) = ok (number v)
  decode_raw nested uint64 (varint v) = ok (number v)
  decode_raw nested uint32 (chunk b) = ok (binary b)
  decode_raw nested uint64 (chunk b) = ok (binary b)
  decode_raw nested string (varint v) = err type_error
  decode_raw nested string (chunk b) = decode_text (utf8_decode b)
  decode_raw nested bytes (varint v) = do b ← zeros v; ok (binary b)
  decode_raw nested bytes (chunk b) = ok (binary b)
  decode_raw nested (message ty) (varint v) = do b ← zeros v; o ← nested ty b; ok (object o)
  decode_raw nested (message ty) (chunk b) = do o ← nested ty b; ok (object o)

  -- A field whose number is not in the schema is skipped.
  unfoldable pub store : (MessageType → List ℕ → Result Obj) → Option Field → Raw → Obj → Result Obj
  unfolding decode_raw store_value
  store nested none raw o = ok o
  store nested (some f) raw o = do v ← decode_raw nested f.ftype raw; ok (store_value f v o)

  unfoldable pub store_raw :
      (MessageType → List ℕ → Result Obj) → List Field → ℕ → Option Raw → Obj → Result Obj
  unfolding store find_field
  store_raw nested fields num none o = ok o
  store_raw nested fields num (some raw) o = store nested (find_field num fields) raw o

  -- `while (pos < buf.length)` on what is left of the buffer; each round takes a byte at least.
  unfoldable pub decode_loop :
      (MessageType → List ℕ → Result Obj) → List Field → ℕ → List ℕ → Obj → Result Obj
  unfolding read_raw store_raw
  decode_loop nested fields fuel [] o = ok o
  decode_loop nested fields zero (b ∷ buf) o = err out_of_fuel
  decode_loop nested fields (suc fuel) (b ∷ buf) o = do
    (key, after) ← read_varint (b ∷ buf)
    (raw, rest) ← read_raw (key % 8) after
    o' ← store_raw nested fields (key / 8) raw o
    decode_loop nested fields fuel rest o'

  unfoldable pub decode_at : ℕ → MessageType → List ℕ → Result Obj
  unfolding decode_loop default_result
  decode_at zero ty buf = err too_deep
  decode_at (suc depth) ty buf =
      decode_loop (decode_at depth) (schema ty) (length buf) buf (default_result (schema ty))

  unfoldable pub decode : MessageType → List ℕ → Result Obj
  unfolding decode_at
  decode ty buf = decode_at 2 ty buf
