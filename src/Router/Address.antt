-- ===== src/Router/Address.antt =====
-- From a screen to its address and back: `pathOf` and `applyPath` of backend/static/js/app/router.js.
use mathlib.Core.Path.{subst}
use cryptis_dchat_project.Prelude.{
  ℕ, ◌≡◌, ◌≢◌, refl, sym, ap, ◌∙◌, ◌==◌, if◌then◌else◌, if-holds, Bool, true, false, Option, none,
  some, List, [], ◌∷◌, ◌++◌, all, drop, codes, arith,
}
use cryptis_dchat_project.Router.{
  Text, is_plain, Uri, View, chat, settings, pairing_approve, autolock, groupperm, blacklist,
  sessions, passcode, Screen, route_view, has_thread, strip_slash, strip_slashes, put_char,
  split_slashes, settings_opener, open_chat, open_parts, chat_path, path_of, decode_all, parts_of,
  apply_path,
}

abbrev pub AllPlain : Text → Type 0
AllPlain t = all is_plain t ≡ true

plain-ne_slash : (c : ℕ) → is_plain c ≡ true → (c == 47) ≡ false
unfolding is_plain
plain-ne_slash c h = ground (arith, h)

AllPlain-head : (c : ℕ) (t : Text) → AllPlain (c ∷ t) → is_plain c ≡ true
AllPlain-head c t h = ground (arith, h)

AllPlain-tail : (c : ℕ) (t : Text) → AllPlain (c ∷ t) → AllPlain t
AllPlain-tail c t h = ground (arith, h)

strip_slashes-plain : (c : ℕ) (t : Text) → AllPlain (c ∷ t) → strip_slashes (c ∷ t) ≡ c ∷ t
unfolding strip_slashes
strip_slashes-plain c [] h =
    ap (λ b. if b then [] else (c ∷ [])) (plain-ne_slash c (AllPlain-head c [] h))
strip_slashes-plain c (d ∷ t) h =
    ap (strip_slash c) (strip_slashes-plain d t (AllPlain-tail c (d ∷ t) h))

strip_slashes-append :
    (before : Text) (c : ℕ) (t : Text)
    → AllPlain (c ∷ t)
    → strip_slashes (before ++ c ∷ t) ≡ before ++ c ∷ t
unfolding strip_slashes
strip_slashes-append [] c t h = strip_slashes-plain c t h
strip_slashes-append (x ∷ []) c t h = ap (strip_slash x) (strip_slashes-plain c t h)
strip_slashes-append (x ∷ y ∷ before) c t h =
    ap (strip_slash x) (strip_slashes-append (y ∷ before) c t h)

split_slashes-plain : (t : Text) → AllPlain t → split_slashes t ≡ t ∷ []
unfolding split_slashes
split_slashes-plain [] h = refl
split_slashes-plain (c ∷ t) h =
    ap (put_char c) (split_slashes-plain t (AllPlain-tail c t h))
    ∙ ap (λ b. if b then [] ∷ t ∷ [] else (c ∷ t) ∷ []) (plain-ne_slash c (AllPlain-head c t h))

abbrev AllParts : List Text → Type 0
AllParts [] = Unit
AllParts (t ∷ ts) = AllPlain t × AllParts ts

-- The parts of the address of a chat.
split_slashes-chat :
    (t : Text)
    → AllPlain t
    → split_slashes (codes "/app/chat/" ++ t) ≡ [] ∷ codes "app" ∷ codes "chat" ∷ t ∷ []
unfolding split_slashes
split_slashes-chat t h = rw (split_slashes-plain t h)

module _ (u : Uri) where
  open u use {encode, decode, encode_plain, decode_plain}

  decode_all-plain : (parts : List Text) → AllParts parts → decode_all u parts ≡ some parts
  unfolding decode_all
  decode_all-plain [] h = refl
  decode_all-plain (t ∷ ts) h = rw (decode_plain t h.0, decode_all-plain ts h.1)

  parts_of-chat :
      (c : ℕ) (t : Text)
      → AllPlain (c ∷ t)
      → parts_of u (codes "/app/chat/" ++ (c ∷ t)) ≡ some (codes "chat" ∷ (c ∷ t) ∷ [])
  unfolding parts_of is_plain
  parts_of-chat c t h =
      ap (λ p. decode_all u (drop 2 (split_slashes p)))
        (strip_slashes-append (codes "/app/chat/") c t h)
      ∙ ap (λ ps. decode_all u (drop 2 ps)) (split_slashes-chat (c ∷ t) h)
      ∙ decode_all-plain (codes "chat" ∷ (c ∷ t) ∷ []) (refl, (h, tt))

  -- The screen that an address leads to has that address.
  abbrev Returns : Screen → Text → Type 0
  Returns s path = (s' : Screen) × (apply_path u path s ≡ some s') × (path_of u s' ≡ path)

  abbrev closed : Screen → Screen
  closed s = record s {
    new_open = false;
    group_open = false;
    filter_open = false;
    others_open = false;
  }

  apply_path-parts :
      (path : Text) (parts : List Text) (s : Screen)
      → parts_of u path ≡ some parts
      → apply_path u path s ≡ some (open_parts parts (closed s))
  unfolding apply_path
  apply_path-parts path parts s h = rw (h)

  apply_path-fixed :
      (path : Text) (parts : List Text) (s : Screen)
      → drop 2 (split_slashes (strip_slashes path)) ≡ parts
      → AllParts parts
      → apply_path u path s ≡ some (open_parts parts (closed s))
  unfolding parts_of
  apply_path-fixed path parts s e h =
      apply_path-parts path parts s (ap (decode_all u) e ∙ decode_all-plain parts h)

  -- The address that a screen with these windows, view and chat has.
  abbrev Restores : Bool → Bool → View → Option Text → List Text → Screen → Type 0
  Restores group new view active threads s = Returns s (
      path_of u (record s {
        group_open = group;
        new_open = new;
        view = view;
        active_thread = active;
        threads = threads;
      }))

  abbrev IsShownPlain : Option Text → List Text → Type 0
  IsShownPlain none threads = Unit
  IsShownPlain (some id) threads = has_thread id threads ≡ true → (AllPlain id × (id ≢ []))

  app-Returns : (s : Screen) → Returns s (codes "/app")
  unfolding path_of open_parts strip_slashes split_slashes is_plain chat_path
  app-Returns s = (open_parts [] (closed s), apply_path-fixed (codes "/app") [] s refl tt, refl)

  chat-Returns :
      (id : Text) (s : Screen)
      → AllPlain id
      → id ≢ []
      → has_thread id s.threads ≡ true
      → Returns s (codes "/app/chat/" ++ encode id)
  unfolding path_of open_parts open_chat is_plain route_view chat_path
  chat-Returns [] s plain ne has = absurd (ne refl)
  chat-Returns (c ∷ t) s plain ne has = (
    record (closed s) { view = chat; active_thread = some (c ∷ t) },
    ap (λ a. apply_path u (codes "/app/chat/" ++ a) s) (encode_plain (c ∷ t) plain)
        ∙ apply_path-parts (codes "/app/chat/" ++ (c ∷ t)) _ s (parts_of-chat c t plain)
        ∙ ap
            (λ b. some (
              if b
              then record (closed s) { view = chat; active_thread = some (c ∷ t) }
              else record (closed s) { view = chat; active_thread = none }))
            has,
    ap (λ b. if b then codes "/app/chat/" ++ encode (c ∷ t) else codes "/app") has,
  )

  view-Restores :
      (view : View) (active : Option Text) (s : Screen)
      → IsShownPlain active s.threads
      → Restores false false view active s.threads s
  unfolding path_of open_parts settings_opener strip_slashes split_slashes is_plain route_view
      chat_path
  view-Restores chat none s plain = app-Returns s
  view-Restores chat (some id) s plain =
      if-holds (Returns s) (has_thread id s.threads) _ _
        (λ has. chat-Returns id s (plain has).0 (plain has).1 has) (λ e. app-Returns s)
  view-Restores settings active s plain = (
    record (closed s) { view = settings },
    apply_path-fixed (codes "/app/settings") (codes "settings" ∷ []) s refl (refl, tt),
    refl,
  )
  view-Restores pairing_approve active s plain = (
    record (closed s) { view = pairing_approve },
    apply_path-fixed (codes "/app/settings/connect-device")
        (codes "settings" ∷ codes "connect-device" ∷ []) s refl (refl, (refl, tt)),
    refl,
  )
  view-Restores autolock active s plain = (
    record (closed s) { view = autolock },
    apply_path-fixed (codes "/app/settings/autolock") (codes "settings" ∷ codes "autolock" ∷ []) s
        refl (refl, (refl, tt)),
    refl,
  )
  view-Restores groupperm active s plain = (
    record (closed s) { view = groupperm },
    apply_path-fixed (codes "/app/settings/group-invites")
        (codes "settings" ∷ codes "group-invites" ∷ []) s refl (refl, (refl, tt)),
    refl,
  )
  view-Restores blacklist active s plain = (
    record (closed s) { view = blacklist },
    apply_path-fixed (codes "/app/settings/blocked") (codes "settings" ∷ codes "blocked" ∷ []) s
        refl (refl, (refl, tt)),
    refl,
  )
  view-Restores sessions active s plain = (
    record (closed s) { view = sessions },
    apply_path-fixed (codes "/app/settings/sessions") (codes "settings" ∷ codes "sessions" ∷ []) s
        refl (refl, (refl, tt)),
    refl,
  )
  view-Restores passcode active s plain = (
    record (closed s) { view = passcode },
    apply_path-fixed (codes "/app/settings/passcode") (codes "settings" ∷ codes "passcode" ∷ []) s
        refl (refl, (refl, tt)),
    refl,
  )

  windows-Restores :
      (group new : Bool) (view : View) (active : Option Text) (s : Screen)
      → IsShownPlain active s.threads
      → Restores group new view active s.threads s
  unfolding path_of open_parts strip_slashes split_slashes is_plain
  windows-Restores true new view active s plain = (
    record (closed s) { view = chat; group_open = true },
    apply_path-fixed (codes "/app/new-group") (codes "new-group" ∷ []) s refl (refl, tt),
    refl,
  )
  windows-Restores false true view active s plain = (
    record (closed s) { view = chat; new_open = true },
    apply_path-fixed (codes "/app/new-message") (codes "new-message" ∷ []) s refl (refl, tt),
    refl,
  )
  windows-Restores false false view active s plain = view-Restores view active s plain

  -- The address of a screen leads back to a screen with the same address, whatever was shown before, if
  -- the same chats are loaded and the id of the chat that is shown is of letters, digits and dashes and
  -- not empty.
  pub apply_path-path_of :
      (before s : Screen)
      → before.threads ≡ s.threads
      → IsShownPlain before.active_thread s.threads
      → (s' : Screen) × (apply_path u (path_of u before) s ≡ some s')
        × (path_of u s' ≡ path_of u before)
  unfolding path_of
  apply_path-path_of before s same plain =
      subst (λ threads. Returns s (path_of u (record before { threads = threads }))) (sym same)
        (windows-Restores before.group_open before.new_open before.view before.active_thread s
          plain)
