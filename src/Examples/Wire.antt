-- ===== src/Examples/Wire.antt =====
-- The theorems on backend/static/js/lib/proto.js at concrete messages.
use cryptis_dchat_project.Prelude.{ℕ, List, [], ◌∷◌, ◌≡◌, ◌≢◌, refl, some}
use cryptis_dchat_project.Wire.Types.{
  ok, err, out_of_fuel, too_deep, ws_frame, number, text, texts, binary, object, Obj, nil, prop,
  get, Platform,
}
use cryptis_dchat_project.Wire.Varint.{push_varint}
use cryptis_dchat_project.Wire.Codec.{encode, decode}
use cryptis_dchat_project.Wire.Fuel.{decode_total}
use cryptis_dchat_project.Wire.RoundTrip.{decode-encode, normalise, TextsAreFaithful}

-- A platform for texts of one byte for each character.
abbrev ascii : Platform
ascii = record { utf8_encode = λ t. t; utf8_decode = some; max_length = 2147483648 }

abbrev packet : Obj
packet = prop "client_msg_id" (text (99 ∷ [])) (
    prop "key_epoch" (number 2)
      (prop "search_tokens" (texts ((97 ∷ []) ∷ [] ∷ [])) (prop "nonce" (binary (1 ∷ 2 ∷ [])) nil)))

abbrev frame : Obj
frame =
    prop "event" (text (104 ∷ 98 ∷ []))
      (prop "seq" (number 300) (prop "packet" (object packet) nil))

abbrev wire : List ℕ
wire =
    10 ∷ 2 ∷ 104 ∷ 98 ∷ 32 ∷ 172 ∷ 2 ∷ 58 ∷ 14 ∷ 10 ∷ 1 ∷ 99 ∷ 24 ∷ 2 ∷ 42 ∷ 2 ∷ 1 ∷ 2 ∷ 90 ∷ 1 ∷ 97
    ∷ 90 ∷ 0 ∷ []

frame-wire : encode ascii ws_frame frame ≡ ok wire
unfolding encode push_varint get
frame-wire = refl

frame-TextsAreFaithful : TextsAreFaithful ascii ws_frame frame
unfolding get
frame-TextsAreFaithful = (
  refl,
  (
    tt,
    (
      tt,
      (
        tt,
        (
          tt,
          (
            tt,
            (
              (
                refl,
                (
                  tt,
                  (
                    tt,
                    (tt, (tt, (tt, (tt, (tt, (tt, (tt, ((refl, (refl, tt)), (tt, (tt, tt)))))))))),
                  ),
                ),
              ),
              (tt, tt),
            ),
          ),
        ),
      ),
    ),
  ),
)

decode-encode_example : decode ascii ws_frame wire ≡ ok (normalise ws_frame frame)
decode-encode_example = decode-encode ascii ws_frame frame wire frame-TextsAreFaithful frame-wire

decode_total_example :
    (decode ascii ws_frame (8 ∷ 8 ∷ []) ≢ err out_of_fuel)
    × (decode ascii ws_frame (8 ∷ 8 ∷ []) ≢ err too_deep)
decode_total_example = decode_total ascii ws_frame (8 ∷ 8 ∷ [])

wrote_300 : push_varint 300 ≡ ok (172 ∷ 2 ∷ [])
unfolding push_varint
wrote_300 = refl
