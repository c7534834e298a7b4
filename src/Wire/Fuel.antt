-- ===== src/Wire/Fuel.antt =====
-- The fuel of the loop of `decode` in backend/static/js/lib/proto.js, and the depth of messages.
use cryptis_dchat_project.Prelude.{
  ℕ, zero, suc, ◌+◌, ◌/◌, ◌%◌, ◌≤◌, ◌==◌, ◌≡◌, ◌≢◌, refl, ap, bit_and, ◌*◌, Bool, true, false,
  Bool-cases, Option, none, some, inl, inr, List, [], ◌∷◌, arith, length, length-drop, All,
}
use cryptis_dchat_project.Wire.Types.{
  Result, WireError, ok, err, out_of_fuel, too_deep, ◌>>=◌, MessageType, Field, uint32, uint64,
  string, bytes, message, message_packet, ws_frame, schema, Obj, Platform,
}
use cryptis_dchat_project.Wire.Varint.{to_double, read_varint, read_groups, read_varint-shrinks}
use cryptis_dchat_project.Wire.Codec.{
  find_field, Raw, varint, chunk, read_chunk, read_raw, zeros, decode_raw, store, store_raw,
  decode_loop, decode_at, decode,
}

module _ {A B : Type 0} where
  -- Two continuations of a result that agree where it succeeds.
  pub >>=-cong :
      (m : Result A) (f g : A → Result B) → ((a : A) → m ≡ ok a → f a ≡ g a) → (m >>= f) ≡ (m >>= g)
  >>=-cong (ok a) f g h = h a refl
  >>=-cong (err e) f g h = refl

abbrev genuine_error : WireError → Bool
genuine_error out_of_fuel = false
genuine_error too_deep = false
genuine_error _ = true

module _ {A B : Type 0} where
  -- Inversion of a bind that succeeds.
  pub >>=-eq-ok :
      (first : Result A) (k : A → Result B) {out : B}
      → (first >>= k) ≡ ok out
      → (value : A) × (first ≡ ok value) × (k value ≡ ok out)
  >>=-eq-ok (err thrown) k went = absurd (cc went)
  >>=-eq-ok (ok value) k went = (value, refl, went)

-- Not an error of the model's own.
abbrev pub genuine {ℓ} : {A : Type ℓ} → Result A → Bool
genuine (ok a) = true
genuine (err e) = genuine_error e

abbrev pub IsGenuine {ℓ} : {A : Type ℓ} → Result A → Type 0
IsGenuine r = genuine r ≡ true

module _ {A B : Type 0} where
  >>=-IsGenuine :
      (m : Result A) (f : A → Result B)
      → IsGenuine m
      → ((a : A) → m ≡ ok a → IsGenuine (f a))
      → IsGenuine (m >>= f)
  >>=-IsGenuine (ok a) f hm hf = hf a refl
  >>=-IsGenuine (err e) f hm hf = hm

read_groups-IsGenuine : (buf : List ℕ) (result mul : ℕ) → IsGenuine (read_groups buf result mul)
unfolding read_groups
read_groups-IsGenuine [] result mul = refl
read_groups-IsGenuine (b ∷ buf) result mul =
    ground
      (arith, read_groups-IsGenuine buf (to_double (result + bit_and b 0x7f * mul)) (mul * 0x80))

read_varint-IsGenuine : (buf : List ℕ) → IsGenuine (read_varint buf)
unfolding read_varint
read_varint-IsGenuine buf = read_groups-IsGenuine buf 0 1

read_chunk-IsGenuine : (len : ℕ) (buf : List ℕ) → IsGenuine (read_chunk len buf)
unfolding read_chunk
read_chunk-IsGenuine len buf = ground arith

read_raw-IsGenuine : (wire : ℕ) (buf : List ℕ) → IsGenuine (read_raw wire buf)
unfolding read_raw
read_raw-IsGenuine wire buf = ground (arith, number, part)
  where
    number :
        IsGenuine {A = Option Raw × List ℕ} (read_varint buf >>= λ t. ok (some (varint t.0), t.1))
    number = >>=-IsGenuine (read_varint buf) _ (read_varint-IsGenuine buf) (λ a e. refl)

    part :
        IsGenuine {A = Option Raw × List ℕ}
          (read_varint buf >>= λ t. read_chunk t.0 t.1 >>= λ u. ok (some (chunk u.0), u.1))
    part =
        >>=-IsGenuine (read_varint buf) _ (read_varint-IsGenuine buf) (λ t e.
          >>=-IsGenuine (read_chunk t.0 t.1) _ (read_chunk-IsGenuine t.0 t.1) (λ u e'. refl))

-- What is left after a value is no longer than before it.
read_chunk-length :
    (len : ℕ) (buf b rest : List ℕ) → read_chunk len buf ≡ ok (b, rest) → length rest ≤ length buf
unfolding read_chunk
read_chunk-length len buf b rest h = ground (arith, length-drop len buf)

read_raw-length :
    (wire : ℕ) (buf : List ℕ) (raw : Option Raw) (rest : List ℕ)
    → read_raw wire buf ≡ ok (raw, rest)
    → length rest ≤ length buf
unfolding read_raw
read_raw-length wire buf raw rest h =
    ground (arith, number, part, length-drop 8 buf, length-drop 4 buf)
  where
    number :
        ◌≡◌ {A = Result (Option Raw × List ℕ)}
          (read_varint buf >>= λ t. ok (some (varint t.0), t.1))
          (ok (raw, rest))
        → length rest ≤ length buf
    number e =
        let (t, read, same) = >>=-eq-ok (read_varint buf) _ e in
        let left : t.1 ≡ rest = cc same in
        rw (← left) (omega (arith, read_varint-shrinks buf t.0 t.1 read))

    part :
        ◌≡◌ {A = Result (Option Raw × List ℕ)}
          (read_varint buf >>= λ t. read_chunk t.0 t.1 >>= λ u. ok (some (chunk u.0), u.1))
          (ok (raw, rest))
        → length rest ≤ length buf
    part e =
        let (t, read, more) = >>=-eq-ok (read_varint buf) _ e in
        let (u, cut, same) = >>=-eq-ok (read_chunk t.0 t.1) _ more in
        let left : u.1 ≡ rest = cc same in
        rw (← left) (
          omega
            (arith, read_varint-shrinks buf t.0 t.1 read, read_chunk-length t.0 t.1 u.0 u.1 cut))

-- Any two amounts of fuel that are at least the length give the same result.
pub decode_loop-fuel :
    (nested : MessageType → List ℕ → Result Obj) (fields : List Field) (p : Platform) (f g : ℕ)
    (buf : List ℕ) (o : Obj)
    → length buf ≤ f
    → length buf ≤ g
    → decode_loop p nested fields f buf o ≡ decode_loop p nested fields g buf o
unfolding decode_loop
decode_loop-fuel nested fields p zero zero [] o hf hg = refl
decode_loop-fuel nested fields p zero (suc g) [] o hf hg = refl
decode_loop-fuel nested fields p (suc f) zero [] o hf hg = refl
decode_loop-fuel nested fields p (suc f) (suc g) [] o hf hg = refl
decode_loop-fuel nested fields p zero g (b ∷ buf) o hf hg = absurd (omega arith)
decode_loop-fuel nested fields p (suc f) zero (b ∷ buf) o hf hg = absurd (omega arith)
decode_loop-fuel nested fields p (suc f) (suc g) (b ∷ buf) o hf hg =
    >>=-cong (read_varint (b ∷ buf)) _ _ λ t read. >>=-cong (read_raw (t.0 % 8) t.1) _ _ λ u rest.
      >>=-cong (store_raw p nested fields (t.0 / 8) u.0 o) _ _ λ o' stored.
        decode_loop-fuel nested fields p f g u.1 o'
          (omega (
            arith,
            read_varint-shrinks (b ∷ buf) t.0 t.1 read,
            read_raw-length (t.0 % 8) t.1 u.0 u.1 rest,
          ))
          (omega (
            arith,
            read_varint-shrinks (b ∷ buf) t.0 t.1 read,
            read_raw-length (t.0 % 8) t.1 u.0 u.1 rest,
          ))

module _ (p : Platform) (nested : MessageType → List ℕ → Result Obj) where
  -- The field's value is decoded without the model's own errors.
  abbrev DecodesGenuinely : Field → Type 0
  DecodesGenuinely f = (raw : Raw) → IsGenuine (decode_raw p nested f.ftype raw)

  find_field-All :
      (P : Field → Type 0) (num : ℕ) (fields : List Field) (f : Field)
      → All P fields
      → find_field num fields ≡ some f
      → P f
  unfolding find_field
  find_field-All P num [] f h e = absurd (cc e)
  find_field-All P num (g ∷ fields) f (hg, h) e = elim (Bool-cases (g.num == num)) [
    | inl same ↦ let here : g ≡ f = ground arith in rw (← here) hg
    | inr other ↦ find_field-All P num fields f h (ground arith)
  ]

  store-IsGenuine :
      (o : Option Field) (raw : Raw) (r : Obj)
      → ((f : Field) → o ≡ some f → DecodesGenuinely f)
      → IsGenuine (store p nested o raw r)
  unfolding store
  store-IsGenuine none raw r h = refl
  store-IsGenuine (some f) raw r h =
      >>=-IsGenuine (decode_raw p nested f.ftype raw) _ (h f refl raw) (λ v e. refl)

  store_raw-IsGenuine :
      (fields : List Field) (num : ℕ) (raw : Option Raw) (r : Obj)
      → All DecodesGenuinely fields
      → IsGenuine (store_raw p nested fields num raw r)
  unfolding store_raw
  store_raw-IsGenuine fields num none r h = refl
  store_raw-IsGenuine fields num (some raw) r h =
      store-IsGenuine (find_field num fields) raw r
        (λ f e. find_field-All DecodesGenuinely num fields f h e)

  decode_loop-IsGenuine :
      (fields : List Field) (fuel : ℕ) (buf : List ℕ) (o : Obj)
      → All DecodesGenuinely fields
      → length buf ≤ fuel
      → IsGenuine (decode_loop p nested fields fuel buf o)
  unfolding decode_loop
  decode_loop-IsGenuine fields zero [] o h le = refl
  decode_loop-IsGenuine fields (suc fuel) [] o h le = refl
  decode_loop-IsGenuine fields zero (b ∷ buf) o h le = absurd (omega arith)
  decode_loop-IsGenuine fields (suc fuel) (b ∷ buf) o h le =
      >>=-IsGenuine (read_varint (b ∷ buf)) _ (read_varint-IsGenuine (b ∷ buf)) λ t read.
        >>=-IsGenuine (read_raw (t.0 % 8) t.1) _ (read_raw-IsGenuine (t.0 % 8) t.1) λ u rest.
          >>=-IsGenuine (store_raw p nested fields (t.0 / 8) u.0 o) _
            (store_raw-IsGenuine fields (t.0 / 8) u.0 o h)
            λ o' stored. decode_loop-IsGenuine fields fuel u.1 o' h (
              omega (
                arith,
                read_varint-shrinks (b ∷ buf) t.0 t.1 read,
                read_raw-length (t.0 % 8) t.1 u.0 u.1 rest,
              ))

  -- A field that holds no message does not ask for the decoder of messages.
  decode_raw-plain :
      (raw : Raw)
      → IsGenuine (decode_raw p nested uint32 raw)
        × IsGenuine (decode_raw p nested uint64 raw)
        × IsGenuine (decode_raw p nested string raw)
        × IsGenuine (decode_raw p nested bytes raw)
  unfolding decode_raw
  decode_raw-plain (varint v) = (refl, refl, refl, ground arith)
  decode_raw-plain (chunk b) = (refl, refl, ground arith, refl)

  zeros-IsGenuine : (n : ℕ) → IsGenuine (zeros p n)
  unfolding zeros
  zeros-IsGenuine n = ground arith

  message-DecodesGenuinely :
      (ty : MessageType)
      → ((buf : List ℕ) → IsGenuine (nested ty buf))
      → (raw : Raw) → IsGenuine (decode_raw p nested (message ty) raw)
  unfolding decode_raw
  message-DecodesGenuinely ty h (varint v) =
      >>=-IsGenuine (zeros p v) _ (zeros-IsGenuine v)
        λ b e. >>=-IsGenuine (nested ty b) _ (h b) (λ o e'. refl)
  message-DecodesGenuinely ty h (chunk b) = >>=-IsGenuine (nested ty b) _ (h b) (λ o e. refl)

  schema-DecodesGenuinely :
      (ty : MessageType)
      → ((buf : List ℕ) → ty ≡ ws_frame → IsGenuine (nested message_packet buf))
      → All DecodesGenuinely (schema ty)
  schema-DecodesGenuinely message_packet h =
      let s = λ (raw : Raw). (decode_raw-plain raw).2 in
      let b = λ (raw : Raw). (decode_raw-plain raw).3 in
      let u = λ (raw : Raw). (decode_raw-plain raw).0 in
      (s, (s, (u, (u, (b, (b, (b, (s, (s, (s, (s, (s, (s, tt)))))))))))))
  schema-DecodesGenuinely ws_frame h =
      let s = λ (raw : Raw). (decode_raw-plain raw).2 in
      let u = λ (raw : Raw). (decode_raw-plain raw).1 in
      (
        s,
        (
          s,
          (
            s,
            (u, (s, (u, (message-DecodesGenuinely message_packet (λ buf. h buf refl), (s, tt))))),
          ),
        ),
      )

module _ (p : Platform) where
  decode_at-message_packet :
      (depth : ℕ) (buf : List ℕ) → IsGenuine (decode_at p (suc depth) message_packet buf)
  unfolding decode_at
  decode_at-message_packet depth buf =
      decode_loop-IsGenuine p (decode_at p depth) (schema message_packet) (length buf) buf _
        (schema-DecodesGenuinely p (decode_at p depth) message_packet (λ b e. absurd (cc e)))
        (omega arith)

  -- Decoding ends for every buffer, with an object or with an error that the program throws: the fuel of
  -- the loop (the length of the buffer) and two levels of messages are enough.
  pub decode_total :
      (ty : MessageType) (buf : List ℕ)
      → (decode p ty buf ≢ err out_of_fuel) × (decode p ty buf ≢ err too_deep)
  decode_total ty buf =
      (λ e. cc (ap genuine e, genuine_decode ty buf), λ e. cc (ap genuine e, genuine_decode ty buf))
    where
      genuine_decode : (ty : MessageType) (buf : List ℕ) → IsGenuine (decode p ty buf)
      genuine_decode message_packet buf = unfold decode in decode_at-message_packet 1 buf
      genuine_decode ws_frame buf =
          unfold decode decode_at in
          decode_loop-IsGenuine p (decode_at p 1) (schema ws_frame) (length buf) buf _
            (schema-DecodesGenuinely p (decode_at p 1) ws_frame
              (λ b e. decode_at-message_packet 0 b))
            (omega arith)
