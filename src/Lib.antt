-- ===== src/Lib.antt =====
-- A verification library for the web client of the CryptisDchat messenger.
--
-- The client is plain JavaScript in backend/static/js. Its library, backend/static/js/lib, has the
-- cryptography (crypto.js), the codec of the wire format (proto.js), the vault under a PIN (vault.js),
-- the client of the REST interface (api.js) and of the socket (ws.js), the keys of groups (treekem.js)
-- and small helpers; backend/static/js/app has the data layer (data.js), the addresses of screens
-- (router.js), the drawing (engine.js, views.js) and the handlers of the screens. The data layer calls
-- all of the library: it keeps the session of api.js in the vault, seals messages with crypto.js and
-- sends them with proto.js and api.js.
--
-- Crypto: crypto.js. Crypto/Gf.antt has `gfMul` and `gfInv`, with Gf/Linear.antt and Gf/Field.antt on
--   the field; Crypto/Shamir.antt has `shamirSplit` and `shamirCombine`. `gf_mul` runs eight rounds,
--   since a byte has eight digits; `gf_inv` tries the 255 bytes of the code's loop.
-- Wire: proto.js. Wire/Types.antt has the schemas and values, Wire/Varint.antt `pushVarint` and
--   `readVarint` with the rounding of doubles, Wire/Codec.antt `encode` and `decode`. The loop of
--   `decode` has the length of the buffer for fuel, which is enough since each round takes a byte;
--   messages nest two levels, as the schemas do. Wire/Fuel.antt is about both.
-- Vault: vault.js. The file, the two items of the local storage and the module's variables are the state;
--   Web Crypto and JSON are the record `Cipher`, with the law that a decryption under the same key
--   gives the text back. Times are arguments. Vault/Verifier.antt has the check of a PIN on another
--   device.
-- Api: api.js. `request` on a session and a list of the replies that the network has ready; and in
--   Api/Refresh.antt the exchange that callers share, as steps, with the copy of the token that the
--   data layer keeps in the vault.
-- Crypto/Merkle: `merkleVerify` of crypto.js; the digest is an argument. Merkle/Events.antt has the tree of the events
--   that proofs are of, which the server builds.
-- Socket: ws.js. A run is a list of the events of sockets, timers and refreshes; the state has every
--   socket that is not closed, not only the one that `ws` names.
-- TreeKem: treekem.js. The sealing is the record `Ecies`; a tree's maps are association lists.
-- Messages: the list of a chat in app/data.js: `seqInsert`, the arrival of messages, pages of the
--   history, the cache of the vault, drafts that failed, and in
--   Messages/Outbox.antt the queue of messages that are sent.
-- Pairing: lib/pairing.js, with the crypto as the record `Suite`; Pairing/Device.antt has the new
--   device of app/data.js, in which what comes before and after an await are two steps, and
--   Pairing/Approval.antt the device that approves it.
-- Backup: `backupKeys` and `restoreWith` of app/data.js, and the release of a share by
--   realm/app.py. The 90 polls of the loop are the fuel, as in the code.
-- Escape: `esc` of app/core.js, on lists of code units.
-- Lifecycle: the gates of the page in app/data.js and app/handlers.js (start, passcode, lock, sign out), each with what
--   it keeps of the vault.
-- ChatKeys: the key of a chat of two (`sendKeyNow`, `createDmKey`, `convKey` of app/data.js), and the server's
--   answers to new epochs.
-- Crypto/Signing and Crypto/Ecies: the bytes that a signature covers, and the sealing under a public key.
-- Decode: `decodeMessage`, `sealPacket` and reactions of app/data.js, and names of senders.
-- Router: router.js, the addresses of screens, and the history of the page with the Back that is pending.
-- Threads: the list of chats, the frames of the socket and the counters in app/data.js. A reply to a request is a
--   step of its own, so that replies come in any order.
-- Rotation: `rotateGroup` of app/data.js, where each await is a step.
-- Search: the blind index of crypto.js, the groups of `searchMessages`, and the server's search by them.
-- Previews: `loadImagePreview` of app/data.js, where each await is a step, and the cache that a lock clears.
-- Login: backend/static/js/login.js as a page with events, and the message that the development wallet signs.
-- Markdown: `inline` and `format` of lib/markdown.js. A pattern of a regular expression is a function that finds its
--   match at the start of a text; `replace_with` is `replace` over it. Indices of slots are written on a fuel of
--   their own size, which is enough.
-- Examples: the theorems at concrete inputs.
-- Prelude: names of the libraries passed on, Boolean tests, lists over native numbers, exclusive or.
--
-- Not modelled: the third-party code in backend/static/js/vendor; the drawing of the screens; most of the
-- handlers, which pass an event on; the blocks and colours of Markdown; of the data layer, uploads, the
-- camera and notifications; and the server, the worker and the realm services in Python, but for the
-- release of a share and the search of messages.
pub mod Prelude
pub mod Previews
pub mod ChatKeys
pub mod Crypto
pub mod Decode
pub mod Escape
pub mod Wire
pub mod Vault
pub mod Api
pub mod Rotation
pub mod Router
pub mod Search
pub mod Socket
pub mod Threads
pub mod TreeKem
pub mod Lifecycle
pub mod Login
pub mod Markdown
pub mod Messages
pub mod Pairing
pub mod Backup
pub mod Examples
