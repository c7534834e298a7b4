-- ===== src/Decode/Reactions.antt =====
-- Reactions to a message: `saveMessageReaction` and `decodeReactionRows` of backend/static/js/app/data.js.
use cryptis_dchat_project.Prelude.{
  ℕ, ◌≡◌, refl, ap, ◌∙◌, ◌==◌, if◌then◌else◌, Bool, true, ◌&&◌, Option, none, some, List, [], ◌∷◌,
  ◌++◌, ◌>>=◌, arith,
}
use cryptis_dchat_project.Crypto.Signing.{Bytes}
use cryptis_dchat_project.Crypto.Merkle.{text_eq, hex}
use cryptis_dchat_project.Crypto.Merkle.Hex.{text_eq_refl}
use cryptis_dchat_project.Decode.{Boxes, KeyReply, threw, missing, found}

-- A row of the server, with what `convKey` comes to for its epoch.
pub record Row : Type 0 where
  pub key : KeyReply
  pub nonce : Bytes
  pub ciphertext : Bytes
  pub emoji_hash : List ℕ
  pub count : ℕ
  pub mine : Bool

pub record Reaction : Type 0 where
  pub emoji : Bytes
  pub count : ℕ
  pub mine : Bool

-- `Number(row.count) || 1`
unfoldable pub count_or_one : ℕ → ℕ
count_or_one n = if n == 0 then 1 else n

-- The reactions that a row adds.
unfoldable pub push_some : Option Reaction → List Reaction → List Reaction
push_some none rest = rest
push_some (some r) rest = r ∷ rest

module _ (w : Boxes) where
  open w use {box, open_box, sha256, is_utf8, open_box-box}

  -- What is left of a row after its tests; a row that fails one is passed over.
  unfoldable pub test_emoji : Bytes → Row → Bytes → Option Reaction
  unfolding count_or_one
  test_emoji key row emoji =
      if is_utf8 emoji && text_eq (hex (sha256 (key ++ emoji))) row.emoji_hash
      then some (record { emoji = emoji; count = count_or_one row.count; mine = row.mine })
      else none

  unfoldable pub open_row : Row → KeyReply → Option Reaction
  unfolding test_emoji
  open_row row threw = none
  open_row row missing = none
  open_row row (found key) = do
    emoji ← open_box key row.nonce row.ciphertext
    test_emoji key row emoji

  unfoldable pub decode_reaction_rows : List Row → List Reaction
  unfolding open_row push_some
  decode_reaction_rows [] = []
  decode_reaction_rows (row ∷ rows) = push_some (open_row row row.key) (decode_reaction_rows rows)

  -- What `saveMessageReaction` sends, as the server gives it back.
  unfoldable pub save_message_reaction : (key nonce emoji : Bytes) → ℕ → Bool → Row
  save_message_reaction key nonce emoji count mine = record {
    key = found key;
    nonce = nonce;
    ciphertext = box key nonce emoji;
    emoji_hash = hex (sha256 (key ++ emoji));
    count = count;
    mine = mine;
  }

  open_row-save_message_reaction :
      (key nonce emoji : Bytes) (count : ℕ) (mine : Bool)
      → is_utf8 emoji ≡ true
      → open_row (save_message_reaction key nonce emoji count mine) (found key)
        ≡ some (record { emoji = emoji; count = count_or_one count; mine = mine })
  unfolding open_row save_message_reaction
  open_row-save_message_reaction key nonce emoji count mine is_text =
      ap (λ o. o >>= test_emoji key (save_message_reaction key nonce emoji count mine))
        (open_box-box key nonce emoji)
      ∙ ap
          (λ b.
            if b
            then some (record { emoji = emoji; count = count_or_one count; mine = mine })
            else none)
          (tested (is_utf8 emoji) _ is_text (text_eq_refl (hex (sha256 (key ++ emoji)))))
    where
      tested : (a b : Bool) → a ≡ true → b ≡ true → (a && b) ≡ true
      tested a b h k = ground (arith, h, k)

  -- A reaction that was saved is among the decoded ones at its place, with its emoji and its count, and
  -- the rows before and after it, damaged ones too, are decoded as without it; if the emoji is a text of
  -- UTF-8.
  pub decode_reaction_rows-save_message_reaction :
      (before after : List Row) (key nonce emoji : Bytes) (count : ℕ) (mine : Bool)
      → is_utf8 emoji ≡ true
      → decode_reaction_rows (before ++ save_message_reaction key nonce emoji count mine ∷ after)
        ≡ decode_reaction_rows before
          ++ record { emoji = emoji; count = count_or_one count; mine = mine }
            ∷ decode_reaction_rows after
  unfolding decode_reaction_rows save_message_reaction
  decode_reaction_rows-save_message_reaction [] after key nonce emoji count mine is_text =
      ap (λ o. push_some o (decode_reaction_rows after))
        (open_row-save_message_reaction key nonce emoji count mine is_text)
  decode_reaction_rows-save_message_reaction (row ∷ before) after key nonce emoji count mine
        is_text =
      ap (push_some (open_row row row.key))
        (decode_reaction_rows-save_message_reaction before after key nonce emoji count mine is_text)
      ∙ push_some-append (open_row row row.key) (decode_reaction_rows before) _
    where
      push_some-append :
          (o : Option Reaction) (xs ys : List Reaction)
          → push_some o (xs ++ ys) ≡ push_some o xs ++ ys
      push_some-append none xs ys = refl
      push_some-append (some r) xs ys = refl
