-- ===== src/Decode.antt =====
-- Messages that are sealed and opened in backend/static/js/app/data.js: `sealPacket`, `decodeMessage`,
-- `decodeReactionRows`, `saveMessageReaction`, `peerSigningKey` and `contentToUi`. Texts are their bytes of UTF-8,
-- and texts of base64 the bytes that they stand for.
pub mod Signed
pub mod Reactions
pub mod Names
use cryptis_dchat_project.Prelude.{
  ℕ, suc, ◌+◌, ◌==◌, ltb, if◌then◌else◌, Bool, true, false, not, ◌&&◌, Option, none, some, List, [],
  ◌∷◌, ◌++◌, ◌≡◌, ◌>>=◌, take, drop, length,
}
use cryptis_dchat_project.Crypto.Signing.{Bytes, signing_bytes}
use cryptis_dchat_project.Crypto.Merkle.{text_eq}

-- What `JSON.parse` makes of the text of a message: the fields that are read.
pub record File : Type 0 where
  pub name : Bytes
  pub size : ℕ
  pub mime : Bytes
  pub key : Bytes

pub data Content : Type 0 where
  text : Bytes → Content
  file : File → Content

-- Web Crypto, NaCl and `JSON`, as messages use them.
pub record Boxes : Type 0 where
  pub sign : (private data_ : Bytes) → Bytes
  pub verify : (public signature data_ : Bytes) → Bool
  pub box : (key nonce plain : Bytes) → Bytes
  pub open_box : (key nonce ct : Bytes) → Option Bytes
  pub sha256 : Bytes → Bytes
  pub to_json : Content → Bytes
  pub of_json : Bytes → Option Content
  pub is_utf8 : Bytes → Bool
  pub public_of : Bytes → Bytes
  pub verify-sign :
      (private data_ : Bytes) → verify (public_of private) (sign private data_) data_ ≡ true
  pub open_box-box :
      (key nonce plain : Bytes) → open_box key nonce (box key nonce plain) ≡ some plain
  pub of_json-to_json : (c : Content) → of_json (to_json c) ≡ some c

-- What the server gives of a message.
pub record Raw : Type 0 where
  pub client_msg_id : Bytes
  pub sender_id : Bytes
  pub sender_key_version : ℕ
  pub key_epoch : ℕ
  pub nonce : Bytes
  pub ciphertext : Bytes
  pub signature : Bytes

-- What `convKey` comes to.
pub data KeyReply : Type 0 where
  threw missing : KeyReply
  found : (key : Bytes) → KeyReply

-- What is shown: the content, or `bad`.
pub data Shown : Type 0 where
  shown : Content → Shown
  bad_signature bad_key bad_decrypt : Shown

-- `S.peerKeys`, by user and version.
abbrev pub PeerKeys : Type 0
PeerKeys = List (Bytes × ℕ × Bytes)

unfoldable pub find_peer : Bytes → ℕ → PeerKeys → Option Bytes
find_peer user version [] = none
find_peer user version ((u, v, key) ∷ rest) =
    if text_eq u user && v == version then some key else find_peer user version rest

-- The device's own account and signing key.
pub record Own : Type 0 where
  pub user_id : Bytes
  pub version : ℕ
  pub signing_pub : Bytes

unfoldable pub fetch_peer : Own → Bytes → ℕ → Option Bytes → Option Bytes
fetch_peer own user version reply =
    if text_eq user own.user_id && version == own.version then some own.signing_pub else reply

unfoldable pub keep_peer : Bytes → ℕ → Option Bytes → PeerKeys → PeerKeys × Option Bytes
keep_peer user version none keys = (keys, none)
keep_peer user version (some key) keys = ((user, version, key) ∷ keys, some key)

-- `peerSigningKey`, with the server's reply; `none` is a thrown error.
unfoldable pub peer_signing_key :
    Own → Bytes → ℕ → Option Bytes → PeerKeys → PeerKeys × Option Bytes
unfolding find_peer fetch_peer keep_peer
peer_signing_key own user version reply keys = elim (find_peer user version keys) [
  | some key ↦ (keys, some key)
  | none ↦ keep_peer user version (fetch_peer own user version reply) keys
]

-- `contentToUi`, or the error of what came before it.
unfoldable pub show : Option Content → Shown
show none = bad_decrypt
show (some c) = shown c

module _ (w : Boxes) where
  open w use {sign, verify, box, open_box, to_json, of_json}

  unfoldable pub open_content : Bytes → Bytes → Bytes → Shown
  unfolding show
  open_content key nonce ciphertext = show (open_box key nonce ciphertext >>= of_json)

  unfoldable pub open_with : Raw → KeyReply → Shown
  unfolding open_content
  open_with r threw = bad_decrypt
  open_with r missing = bad_key
  open_with r (found key) = open_content key r.nonce r.ciphertext

  -- `decodeMessage` in the chat, with what `peerSigningKey` and `convKey` come to.
  unfoldable pub decode_message : Bytes → Raw → Option Bytes → KeyReply → Shown
  unfolding open_with
  decode_message thread_id r none key = bad_decrypt
  decode_message thread_id r (some public) key =
      if verify public r.signature
        (signing_bytes thread_id r.client_msg_id r.key_epoch r.nonce r.ciphertext)
      then open_with r key
      else bad_signature

  -- `sealPacket`, without what it adds for the search and for replies.
  unfoldable pub seal_packet :
      (private sender_id : Bytes)
      → ℕ
      → (thread_id client_id : Bytes) → ℕ
      → (key nonce : Bytes) → Content
      → Raw
  seal_packet private sender_id version thread_id client_id epoch key nonce c =
      let ciphertext = box key nonce (to_json c) in
      record {
        client_msg_id = client_id;
        sender_id = sender_id;
        sender_key_version = version;
        key_epoch = epoch;
        nonce = nonce;
        ciphertext = ciphertext;
        signature = sign private (signing_bytes thread_id client_id epoch nonce ciphertext);
      }
