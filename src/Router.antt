-- ===== src/Router.antt =====
-- The addresses of screens, backend/static/js/app/router.js. A text is the list of its character codes, and
-- `encodeURIComponent` and `decodeURIComponent` are the language's.
pub mod Address
pub mod History
use cryptis_dchat_project.Prelude.{
  ℕ, ◌==◌, if◌then◌else◌, Bool, true, false, not, ◌&&◌, ◌||◌, Option, none, some, List, [], ◌∷◌,
  ◌++◌, ◌≡◌, any, all, drop, codes, ◌>>=◌, leb,
}
use cryptis_dchat_project.Crypto.Merkle.{text_eq}

abbrev pub Text : Type 0
Text = List ℕ

-- Letters, digits, and `-`.
unfoldable pub is_plain : ℕ → Bool
is_plain c =
    (leb 48 c && leb c 57) || ((leb 65 c && leb c 90) || ((leb 97 c && leb c 122) || c == 45))

-- The two functions of the language: texts of plain characters stay as they are.
pub record Uri : Type 0 where
  pub encode : Text → Text
  pub decode : Text → Option Text
  pub encode_plain : (t : Text) → all is_plain t ≡ true → encode t ≡ t
  pub decode_plain : (t : Text) → all is_plain t ≡ true → decode t ≡ some t

pub data View : Type 0 where
  chat settings pairing_approve autolock groupperm blacklist sessions passcode : View

-- What `state` has for the router: the screen, the windows over it, the chats that are loaded, and whether a
-- gate is shown.
pub record Screen : Type 0 where
  pub view : View
  pub active_thread : Option Text
  pub new_open : Bool
  pub group_open : Bool
  pub filter_open : Bool
  pub others_open : Bool
  pub threads : List Text
  pub gate : Bool

-- `ROUTE_VIEWS`
unfoldable pub route_view : View → Option Text
route_view chat = none
route_view settings = some (codes "/app/settings")
route_view pairing_approve = some (codes "/app/settings/connect-device")
route_view autolock = some (codes "/app/settings/autolock")
route_view groupperm = some (codes "/app/settings/group-invites")
route_view blacklist = some (codes "/app/settings/blocked")
route_view sessions = some (codes "/app/settings/sessions")
route_view passcode = some (codes "/app/settings/passcode")

-- `threadById`
unfoldable pub has_thread : Text → List Text → Bool
has_thread id threads = any (text_eq id) threads

-- `path.replace(/\/+$/, '')`
unfoldable pub strip_slash : ℕ → Text → Text
strip_slash c [] = if c == 47 then [] else (c ∷ [])
strip_slash c (d ∷ rest) = c ∷ d ∷ rest

unfoldable pub strip_slashes : Text → Text
unfolding strip_slash
strip_slashes [] = []
strip_slashes (c ∷ path) = strip_slash c (strip_slashes path)

-- `split('/')`
unfoldable pub put_char : ℕ → List Text → List Text
put_char c [] = (c ∷ []) ∷ []
put_char c (part ∷ parts) = if c == 47 then [] ∷ part ∷ parts else (c ∷ part) ∷ parts

unfoldable pub split_slashes : Text → List Text
unfolding put_char
split_slashes [] = [] ∷ []
split_slashes (c ∷ path) = put_char c (split_slashes path)

-- `SETTINGS_OPENERS`; any other address of the settings shows the settings.
unfoldable pub settings_opener : Text → View
settings_opener part =
    if text_eq part (codes "connect-device")
    then pairing_approve
    else if text_eq part (codes "autolock")
    then autolock
    else if text_eq part (codes "group-invites")
    then groupperm
    else if text_eq part (codes "blocked")
    then blacklist
    else if text_eq part (codes "sessions")
    then sessions
    else if text_eq part (codes "passcode")
    then passcode
    else settings

unfoldable pub settings_view : List Text → View
unfolding settings_opener
settings_view [] = settings
settings_view (part ∷ rest) = settings_opener part

unfoldable pub open_chat : List Text → Screen → Screen
unfolding has_thread
open_chat [] s = record s { view = chat; active_thread = none }
open_chat (id ∷ rest) s =
    if not (text_eq id []) && has_thread id s.threads
    then record s { view = chat; active_thread = some id }
    else record s { view = chat; active_thread = none }

-- The screen of an address, from its parts after `/app`.
unfoldable pub open_parts : List Text → Screen → Screen
unfolding settings_view open_chat
open_parts [] s = record s { view = chat; active_thread = none }
open_parts (part ∷ rest) s =
    if text_eq part (codes "settings")
    then record s { view = settings_view rest }
    else if text_eq part (codes "new-message")
    then record s { view = chat; new_open = true }
    else if text_eq part (codes "new-group")
    then record s { view = chat; group_open = true }
    else if text_eq part (codes "chat")
    then open_chat rest s
    else record s { view = chat; active_thread = none }

module _ (u : Uri) where
  open u use {encode, decode}

  unfoldable pub chat_path : Option Text → List Text → Text
  unfolding has_thread
  chat_path none threads = codes "/app"
  chat_path (some id) threads =
      if has_thread id threads then codes "/app/chat/" ++ encode id else codes "/app"

  unfoldable pub path_of : Screen → Text
  unfolding route_view chat_path
  path_of s =
      if s.group_open
      then codes "/app/new-group"
      else if s.new_open
      then codes "/app/new-message"
      else elim (route_view s.view) [
        | none ↦ chat_path s.active_thread s.threads
        | some path ↦ path
      ]

  unfoldable pub decode_all : List Text → Option (List Text)
  decode_all [] = some []
  decode_all (part ∷ parts) = do first ← decode part; rest ← decode_all parts; some (first ∷ rest)

  unfoldable pub parts_of : Text → Option (List Text)
  unfolding strip_slashes split_slashes decode_all
  parts_of path = decode_all (drop 2 (split_slashes (strip_slashes path)))

  -- `applyPath` up to `finally`; `none` is an address that cannot be decoded.
  unfoldable pub apply_path : Text → Screen → Option Screen
  unfolding parts_of open_parts
  apply_path path s = do
    parts ← parts_of path
    some (
        open_parts parts (record s {
          new_open = false;
          group_open = false;
          filter_open = false;
          others_open = false;
        }))
