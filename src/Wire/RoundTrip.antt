-- ===== src/Wire/RoundTrip.antt =====
-- `decode` after `encode`, backend/static/js/lib/proto.js.
use cryptis_dchat_project.Prelude.{
  ℕ, zero, suc, ◌≡◌, refl, sym, ap, ◌∙◌, Bool, true, false, ◌&&◌, Option, none, some, List, [], ◌∷◌,
  ◌++◌, arith, append_assoc, String, All,
}
use cryptis_dchat_project.Wire.Types.{
  Text, Result, ok, ◌>>=◌, MessageType, message_packet, ws_frame, Field, FieldType, uint32, uint64,
  string, bytes, message, schema, Value, null, number, text, texts, binary, object, Obj, nil, prop,
  get, put, Platform,
}
use cryptis_dchat_project.Wire.Codec.{
  find_field, default_value, default_result, varint, chunk, store, store_value, encode_payload,
  encode_number, encode_texts, encode_property, encode_fields, encode_at, encode, decode_at, decode,
}
use cryptis_dchat_project.Wire.Fuel.{>>=-eq-ok}
use cryptis_dchat_project.Wire.Items.{run, run-nil, run_number, run_payload}
use cryptis_dchat_project.Wire.Objects.{
  join, keys, absent, keys-join, join_assoc, put-join, push_texts, push_texts-join,
}

-- The decoder of texts gives a text back from its encoding.
abbrev pub IsFaithful : Platform → Text → Type 0
IsFaithful p t = p.utf8_decode (p.utf8_encode t) ≡ some t

-- What decoding makes of a property: a missing one, or `null`, becomes the default of its type.
abbrev pub normal : (MessageType → Obj → Obj) → FieldType → Bool → Option Value → Value
normal norm ftype repeated none = default_value ftype repeated
normal norm ftype repeated (some null) = default_value ftype repeated
normal norm (message ty) repeated (some (object o)) = object (norm ty o)
normal norm ftype repeated (some v) = v

-- The texts of a value are faithful, and its message is one of `N`.
abbrev pub Holds : Platform → (MessageType → Obj → Type 0) → FieldType → Option Value → Type 0
Holds p N ftype (some (text t)) = IsFaithful p t
Holds p N ftype (some (texts ts)) = All (IsFaithful p) ts
Holds p N (message ty) (some (object o)) = N ty o
Holds p N ftype v = Unit

module _ (p : Platform) (fields : List Field) (enc : MessageType → Obj → Result (List ℕ))
    (dec : MessageType → List ℕ → Result Obj) (norm : MessageType → Obj → Obj)
    (N : MessageType → Obj → Type 0)
    (inner : (ty : MessageType) (o : Obj) (out : List ℕ)
      → N ty o
      → enc ty o ≡ ok out
      → dec ty out ≡ ok (norm ty o)) where
  run_texts :
      (f : Field) (ts : List Text) (out rest : List ℕ) (o : Obj)
      → find_field f.num fields ≡ some f
      → f.ftype ≡ string
      → All (IsFaithful p) ts
      → encode_texts p f.num ts ≡ ok out
      → run p dec fields (out ++ rest) o ≡ run p dec fields rest (push_texts f ts o)
  unfolding encode_texts push_texts
  run_texts f [] out rest o found is_text h e = let same : [] ≡ out = cc e in rw (← same)
  run_texts f (t ∷ ts) out rest o found is_text (ht, h) e =
      let (first, wrote, more) = >>=-eq-ok (encode_payload p f.num (p.utf8_encode t)) _ e in
      let (second, wrote_rest, same) = >>=-eq-ok (encode_texts p f.num ts) _ more in
      let whole : first ++ second ≡ out = cc same in
      rw (← whole, append_assoc first second rest)
        (run_payload p dec fields f.num (p.utf8_encode t) first (second ++ rest) o wrote
          ∙ ap (λ s. s >>= run p dec fields (second ++ rest)) stored
          ∙ run_texts f ts second rest (store_value f (text t) o) found is_text h wrote_rest)
    where
      stored :
          store p dec (find_field f.num fields) (chunk (p.utf8_encode t)) o
          ≡ ok (store_value f (text t) o)
      stored = rw found (unfold store in rw (is_text, ht))

  -- A property that was read, where its default stood before.
  abbrev Read : Field → Option Value → List ℕ → Type 0
  Read f v out =
      (done tail : Obj) (rest : List ℕ)
      → absent f.name (keys done) ≡ true
      → run p dec fields (out ++ rest)
          (join done (prop f.name (default_value f.ftype f.repeated) tail))
        ≡ run p dec fields rest (join done (prop f.name (normal norm f.ftype f.repeated v) tail))

  module _ (num : ℕ) (name : String) where
    abbrev field_of : FieldType → Bool → Field
    field_of ftype repeated = record { num = num; name = name; ftype = ftype; repeated = repeated }

    read_number :
        (ftype : FieldType) (v : ℕ) (out : List ℕ)
        → find_field num fields ≡ some (field_of ftype false)
        → ((o : Obj)
            → store p dec (some (field_of ftype false)) (varint (suc v)) o
              ≡ ok (put o name (number (suc v))))
        → default_value ftype false ≡ number 0
        → encode_number num (suc v) ≡ ok out
        → (done tail : Obj) (rest : List ℕ) → absent name (keys done) ≡ true
        → run p dec fields (out ++ rest) (join done (prop name (default_value ftype false) tail))
          ≡ run p dec fields rest (join done (prop name (number (suc v)) tail))
    read_number ftype v out found stores d e done tail rest h =
        run_number p dec fields num v out rest _ e
        ∙ rw found (
            rw (stores (join done (prop name (default_value ftype false) tail))) (
              ap (run p dec fields rest)
                (put-join done name (default_value ftype false) (number (suc v)) tail h)))

    read_part :
        (ftype : FieldType) (payload : List ℕ) (v : Value) (out : List ℕ)
        → find_field num fields ≡ some (field_of ftype false)
        → ((o : Obj)
            → store p dec (some (field_of ftype false)) (chunk payload) o ≡ ok (put o name v))
        → encode_payload p num payload ≡ ok out
        → (done tail : Obj) (rest : List ℕ) → absent name (keys done) ≡ true
        → run p dec fields (out ++ rest) (join done (prop name (default_value ftype false) tail))
          ≡ run p dec fields rest (join done (prop name v tail))
    read_part ftype payload v out found stores e done tail rest h =
        run_payload p dec fields num payload out rest _ e
        ∙ rw found (
            rw (stores (join done (prop name (default_value ftype false) tail))) (
              ap (run p dec fields rest) (put-join done name (default_value ftype false) v tail h)))

    property-Read :
        (ftype : FieldType) (repeated : Bool) (v : Option Value) (out : List ℕ)
        → find_field num fields ≡ some (field_of ftype repeated)
        → Holds p N ftype v
        → encode_property p enc (field_of ftype repeated) v ≡ ok out
        → Read (field_of ftype repeated) v out
    unfolding encode_property
    property-Read ftype repeated none out found g e done tail rest h =
        let same : [] ≡ out = cc e in rw (← same)
    property-Read ftype repeated (some null) out found g e done tail rest h =
        let same : [] ≡ out = cc e in rw (← same)
    property-Read uint32 false (some (number zero)) out found g e done tail rest h =
        let same : [] ≡ out = cc e in rw (← same)
    property-Read uint64 false (some (number zero)) out found g e done tail rest h =
        let same : [] ≡ out = cc e in rw (← same)
    property-Read uint32 false (some (number (suc v))) out found g e done tail rest h =
        read_number uint32 v out found (λ o. unfold store in refl) refl e done tail rest h
    property-Read uint64 false (some (number (suc v))) out found g e done tail rest h =
        read_number uint64 v out found (λ o. unfold store in refl) refl e done tail rest h
    property-Read string false (some (text [])) out found g e done tail rest h =
        let same : [] ≡ out = cc e in rw (← same)
    property-Read string false (some (text (c ∷ t))) out found g e done tail rest h =
        read_part string (p.utf8_encode (c ∷ t)) (text (c ∷ t)) out found
          (λ o. unfold store in rw g) e done tail rest h
    property-Read string true (some (texts ts)) out found g e done tail rest h =
        run_texts (field_of string true) ts out rest _ found refl g e
        ∙ ap (run p dec fields rest) (push_texts-join (field_of string true) [] ts done tail refl h)
    property-Read bytes false (some (binary [])) out found g e done tail rest h =
        let same : [] ≡ out = cc e in rw (← same)
    property-Read bytes false (some (binary (b ∷ bs))) out found g e done tail rest h =
        read_part bytes (b ∷ bs) (binary (b ∷ bs)) out found (λ o. unfold store in refl) e done tail
          rest h
    property-Read (message ty) false (some (object o)) out found g e done tail rest h =
        let (payload, wrote, more) = >>=-eq-ok (enc ty o) _ e in
        read_part (message ty) payload (object (norm ty o)) out found
          (λ r. unfold store in rw (inner ty o payload g wrote)) more done tail rest h
    property-Read ftype repeated (some v) out found g e done tail rest h = absurd (cc e)

-- An object with a property for each field of a schema.
abbrev pub normal_fields : (MessageType → Obj → Obj) → List Field → Obj → Obj
normal_fields norm [] o = nil
normal_fields norm (f ∷ fields) o =
    prop f.name (normal norm f.ftype f.repeated (get o f.name)) (normal_fields norm fields o)

-- The names of a schema differ from each other and from those before.
abbrev separate : List Field → List String → Bool
separate [] before = true
separate (f ∷ fields) before = absent f.name before && separate fields (before ++ f.name ∷ [])

module _ (p : Platform) (fields : List Field) (enc : MessageType → Obj → Result (List ℕ))
    (dec : MessageType → List ℕ → Result Obj) (norm : MessageType → Obj → Obj)
    (N : MessageType → Obj → Type 0)
    (inner : (ty : MessageType) (o : Obj) (out : List ℕ)
      → N ty o
      → enc ty o ≡ ok out
      → dec ty out ≡ ok (norm ty o)) where
  run-fields :
      (fs : List Field) (o : Obj) (out : List ℕ) (done : Obj)
      → All (λ f. find_field f.num fields ≡ some f) fs
      → All (λ f. Holds p N f.ftype (get o f.name)) fs
      → separate fs (keys done) ≡ true
      → encode_fields p enc fs o ≡ ok out
      → run p dec fields out (join done (default_result fs))
        ≡ ok (join done (normal_fields norm fs o))
  unfolding encode_fields default_result
  run-fields [] o out done found h sep e =
      let same : [] ≡ out = cc e in rw (← same) (run-nil p dec fields (join done nil))
  run-fields (f ∷ fs) o out done (here, found) (g, h) sep e =
      let (first, wrote, more) = >>=-eq-ok (encode_property p enc f (get o f.name)) _ e in
      let (second, wrote_rest, same) = >>=-eq-ok (encode_fields p enc fs o) _ more in
      let whole : first ++ second ≡ out = cc same in
      let v = normal norm f.ftype f.repeated (get o f.name) in
      let fresh : absent f.name (keys done) ≡ true = ground arith in
      let later : separate fs (keys done ++ f.name ∷ []) ≡ true = ground arith in
      rw (← whole) (
        property-Read p fields enc dec norm N inner f.num f.name f.ftype f.repeated (get o f.name)
          first here g wrote done (default_result fs) second fresh
        ∙ ap (run p dec fields second) (join_assoc done f.name v (default_result fs))
        ∙ run-fields fs o second (join done (prop f.name v nil)) found h
            (rw (keys-join done f.name v) later) wrote_rest
        ∙ ap ok (sym (join_assoc done f.name v (normal_fields norm fs o))))

-- The decoded form of an object, messages inside it included.
abbrev normalise_at : ℕ → MessageType → Obj → Obj
normalise_at zero ty o = o
normalise_at (suc depth) ty o = normal_fields (normalise_at depth) (schema ty) o

abbrev pub normalise : MessageType → Obj → Obj
normalise ty o = normalise_at 2 ty o

-- Every text that the schema of the object names is faithful, also in a message inside it.
abbrev TextsAreFaithfulAt : ℕ → Platform → MessageType → Obj → Type 0
TextsAreFaithfulAt zero p ty o = Unit
TextsAreFaithfulAt (suc depth) p ty o =
    All (λ f. Holds p (TextsAreFaithfulAt depth p) f.ftype (get o f.name)) (schema ty)

abbrev pub TextsAreFaithful : Platform → MessageType → Obj → Type 0
TextsAreFaithful p ty o = TextsAreFaithfulAt 2 p ty o

schema_found : (ty : MessageType) → All (λ f. find_field f.num (schema ty) ≡ some f) (schema ty)
unfolding find_field
schema_found message_packet = (
  refl,
  (
    refl,
    (refl, (refl, (refl, (refl, (refl, (refl, (refl, (refl, (refl, (refl, (refl, tt))))))))))),
  ),
)
schema_found ws_frame = (refl, (refl, (refl, (refl, (refl, (refl, (refl, (refl, tt))))))))

schema-separate : (ty : MessageType) → separate (schema ty) [] ≡ true
schema-separate message_packet = refl
schema-separate ws_frame = refl

decode_at-encode_at :
    (p : Platform) (depth : ℕ) (ty : MessageType) (o : Obj) (out : List ℕ)
    → TextsAreFaithfulAt depth p ty o
    → encode_at p depth ty o ≡ ok out
    → decode_at p depth ty out ≡ ok (normalise_at depth ty o)
unfolding decode_at join keys encode_at
decode_at-encode_at p zero ty o out h e = absurd (cc e)
decode_at-encode_at p (suc depth) ty o out h e =
    run-fields p (schema ty) (encode_at p depth) (decode_at p depth) (normalise_at depth)
      (TextsAreFaithfulAt depth p) (decode_at-encode_at p depth) (schema ty) o out nil
      (schema_found ty) h (schema-separate ty) e

-- Whatever `encode` accepts is decoded to the same properties, with the default of its type for each
-- property that is missing, for both message types, if the platform gives the texts back.
pub decode-encode :
    (p : Platform) (ty : MessageType) (o : Obj) (out : List ℕ)
    → TextsAreFaithful p ty o
    → encode p ty o ≡ ok out
    → decode p ty out ≡ ok (normalise ty o)
unfolding encode decode
decode-encode p ty o out h e = decode_at-encode_at p 2 ty o out h e
