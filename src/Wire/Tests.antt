-- ===== src/Wire/Tests.antt =====
-- Runs of the codec of backend/static/js/lib/proto.js.
use cryptis_dchat_project.Prelude.{[], ◌∷◌, ◌≡◌, refl, some}
use cryptis_dchat_project.Wire.Types.{
  ok, err, ws_frame, number, text, null, Obj, nil, prop, get, put, Platform, truncated_field,
}
use cryptis_dchat_project.Wire.Varint.{push_varint, read_varint}
use cryptis_dchat_project.Wire.Codec.{encode, decode}

-- A platform for texts of one byte for each character.
abbrev pub ascii : Platform
ascii = record { utf8_encode = λ t. t; utf8_decode = some; max_length = 2147483648 }

abbrev pub heartbeat : Obj
heartbeat = prop "event" (text (104 ∷ 98 ∷ [])) (prop "seq" (number 300) nil)

push_runs : push_varint 300 ≡ ok (172 ∷ 2 ∷ [])
unfolding push_varint
push_runs = refl

encode_runs : encode ascii ws_frame heartbeat ≡ ok (10 ∷ 2 ∷ 104 ∷ 98 ∷ 32 ∷ 172 ∷ 2 ∷ [])
unfolding encode push_varint get
encode_runs = refl

decode_runs :
    decode ascii ws_frame (10 ∷ 2 ∷ 104 ∷ 98 ∷ 32 ∷ 172 ∷ 2 ∷ [])
    ≡ ok (
        prop "event" (text (104 ∷ 98 ∷ [])) (
          prop "thread_id" (text []) (
            prop "message_id" (text []) (
              prop "seq" (number 300) (
                prop "sender_id"
                  (text [])
                  (prop "ts" (number 0) (prop "packet" null (prop "json" (text []) nil))))))))
unfolding decode read_varint put
decode_runs = refl

truncated_runs : decode ascii ws_frame (10 ∷ 3 ∷ 104 ∷ 98 ∷ []) ≡ err truncated_field
unfolding decode read_varint
truncated_runs = refl
