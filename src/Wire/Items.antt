-- ===== src/Wire/Items.antt =====
-- Encoded items and the rounds of the loop of `decode` in backend/static/js/lib/proto.js.
use cryptis_dchat_project.Prelude.{
  ℕ, suc, ◌+◌, ◌*◌, ◌/◌, ◌%◌, ◌<◌, ltb, ◌≡◌, refl, ap, ◌∙◌, false, Option, some, List, [], ◌∷◌,
  ◌++◌, arith, length, length-append, take-length_append, drop-length_append, append_assoc,
}
use cryptis_dchat_project.Wire.Types.{Result, ok, ◌>>=◌, MessageType, Field, Obj, Platform}
use cryptis_dchat_project.Wire.Varint.{
  push_varint, read_varint, read_varint-push_varint, read_varint-shrinks,
}
use cryptis_dchat_project.Wire.Codec.{
  find_field, Raw, varint, chunk, read_chunk, read_raw, store, store_raw, decode_loop,
  encode_payload, encode_number,
}
use cryptis_dchat_project.Wire.Fuel.{>>=-eq-ok, >>=-cong, decode_loop-fuel}

-- The loop with enough fuel for what is left.
abbrev pub run :
    Platform → (MessageType → List ℕ → Result Obj) → List Field → List ℕ → Obj → Result Obj
run p nested fields buf o = decode_loop p nested fields (length buf) buf o

read_chunk-append : (b rest : List ℕ) → read_chunk (length b) (b ++ rest) ≡ ok (b, rest)
unfolding read_chunk
read_chunk-append b rest = rw (fits, take-length_append b rest, drop-length_append b rest) refl
  where
    fits : ltb (length (b ++ rest)) (length b) ≡ false
    fits = ground (arith, length-append b rest)

module _ (p : Platform) (nested : MessageType → List ℕ → Result Obj) (fields : List Field) where
  pub run-nil : (o : Obj) → run p nested fields [] o ≡ ok o
  unfolding decode_loop
  run-nil o = refl

  -- A key and a value that are read make one round.
  run_round :
      (buf after rest : List ℕ) (key : ℕ) (raw : Option Raw) (o : Obj)
      → read_varint buf ≡ ok (key, after)
      → read_raw (key % 8) after ≡ ok (raw, rest)
      → length rest < length buf
      → run p nested fields buf o
        ≡ (store_raw p nested fields (key / 8) raw o >>= run p nested fields rest)
  unfolding decode_loop
  run_round [] after rest key raw o hk hr lt = absurd (omega arith)
  run_round (b ∷ buf) after rest key raw o hk hr lt =
      rw (hk, hr)
        (>>=-cong (store_raw p nested fields (key / 8) raw o) _ _ λ o' stored.
          decode_loop-fuel nested fields p (length buf) (length rest) rest o' (omega arith)
            (omega arith))

  -- A key and a number, written one after the other.
  run_pair :
      (num v : ℕ) (key value rest : List ℕ) (o : Obj)
      → push_varint (num * 8) ≡ ok key
      → push_varint v ≡ ok value
      → run p nested fields ((key ++ value) ++ rest) o
        ≡ (store p nested (find_field num fields) (varint v) o >>= run p nested fields rest)
  unfolding store_raw
  run_pair num v key value rest o wrote_key wrote_value =
      let first = read_varint-push_varint (num * 8) key (value ++ rest) wrote_key in
      let second = read_varint-push_varint v value rest wrote_value in
      let k : num * 8 / 8 ≡ num = omega arith in
      let w : num * 8 % 8 ≡ 0 = omega arith in
      rw (append_assoc key value rest) (
        run_round (key ++ (value ++ rest)) (value ++ rest) rest (num * 8) (some (varint v)) o first
          (rw w (unfold read_raw in rw second))
          (omega (arith, read_varint-shrinks _ _ _ first, read_varint-shrinks _ _ _ second))
        ∙ ap (λ n. store_raw p nested fields n (some (varint v)) o >>= run p nested fields rest) k)

  pub run_number :
      (num v : ℕ) (out rest : List ℕ) (o : Obj)
      → encode_number num (suc v) ≡ ok out
      → run p nested fields (out ++ rest) o
        ≡ (store p nested (find_field num fields) (varint (suc v)) o >>= run p nested fields rest)
  unfolding encode_number
  run_number num v out rest o h =
      let (key, wrote_key, more) = >>=-eq-ok (push_varint (num * 8)) _ h in
      let (value, wrote_value, same) = >>=-eq-ok (push_varint (suc v)) _ more in
      let whole : key ++ value ≡ out = cc same in
      rw (← whole) (run_pair num (suc v) key value rest o wrote_key wrote_value)

  -- A key, a length and a part of that length.
  run_part :
      (num : ℕ) (payload key len rest : List ℕ) (o : Obj)
      → push_varint (num * 8 + 2) ≡ ok key
      → push_varint (length payload) ≡ ok len
      → run p nested fields ((key ++ len ++ payload) ++ rest) o
        ≡ (store p nested (find_field num fields) (chunk payload) o >>= run p nested fields rest)
  unfolding store_raw
  run_part num payload key len rest o wrote_key wrote_len =
      let first = read_varint-push_varint (num * 8 + 2) key (len ++ (payload ++ rest)) wrote_key in
      let second = read_varint-push_varint (length payload) len (payload ++ rest) wrote_len in
      let k : (num * 8 + 2) / 8 ≡ num = omega arith in
      let w : (num * 8 + 2) % 8 ≡ 2 = omega arith in
      rw regroup (
        run_round (key ++ (len ++ (payload ++ rest))) (len ++ (payload ++ rest)) rest (num * 8 + 2)
          (some (chunk payload)) o first
          (rw w (unfold read_raw in rw (second, read_chunk-append payload rest)))
          (omega (
            arith,
            read_varint-shrinks _ _ _ first,
            read_varint-shrinks _ _ _ second,
            length-append payload rest,
          ))
        ∙ ap
            (λ n. store_raw p nested fields n (some (chunk payload)) o >>= run p nested fields rest)
            k)
    where
      regroup : (key ++ len ++ payload) ++ rest ≡ key ++ (len ++ (payload ++ rest))
      regroup = simp append_assoc

  pub run_payload :
      (num : ℕ) (payload out rest : List ℕ) (o : Obj)
      → encode_payload p num payload ≡ ok out
      → run p nested fields (out ++ rest) o
        ≡ (store p nested (find_field num fields) (chunk payload) o >>= run p nested fields rest)
  unfolding encode_payload
  run_payload num payload out rest o h =
      let (key, wrote_key, more) = >>=-eq-ok (push_varint (num * 8 + 2)) _ h in
      let (len, wrote_len, same) = >>=-eq-ok (push_varint (length payload)) _ more in
      let whole : key ++ len ++ payload ≡ out = cc same in
      rw (← whole) (run_part num payload key len rest o wrote_key wrote_len)
