-- ===== src/Markdown/Html.antt =====
-- The HTML that the marks of backend/static/js/lib/markdown.js are drawn as.
use cryptis_dchat_project.Prelude.{
  ℕ, ◌==◌, ◌≡◌, refl, subst, sym, ap, ap₂, ◌∙◌, Bool, true, false, not, ◌&&◌, ◌||◌, [], ◌∷◌, ◌++◌,
  append_assoc, any, codes, drop, arith, ◌⊎◌, inl, inr,
}
use cryptis_dchat_project.Escape.{esc}
use cryptis_dchat_project.Escape.OnePass.{is_markup, esc-inert}
use cryptis_dchat_project.Markdown.{Text, safe_url}

-- A character that opens or closes no tag and no attribute.
unfoldable pub is_text : ℕ → Bool
is_text c = not (is_markup c)

pub data Tag : Type 0 where
  strong strong_end del del_end em em_end : Tag

abbrev pub tag_text : Tag → Text
tag_text strong = codes "<strong>"
tag_text strong_end = codes "</strong>"
tag_text del = codes "<del>"
tag_text del_end = codes "</del>"
tag_text em = codes "<em>"
tag_text em_end = codes "</em>"

-- Text and the tags of `format`.
pub data IsInline : Text → Type 0 where
  nil : IsInline []
  char : {t : Text} (c : ℕ) → is_text c ≡ true → IsInline t → IsInline (c ∷ t)
  tag : {t s : Text} (g : Tag) → s ≡ tag_text g ++ t → IsInline t → IsInline s

-- Also code, and links to addresses that are safe, with an escaped address.
pub data IsHtml : Text → Type 0 where
  nil : IsHtml []
  char : {t : Text} (c : ℕ) → is_text c ≡ true → IsHtml t → IsHtml (c ∷ t)
  tag : {t s : Text} (g : Tag) → s ≡ tag_text g ++ t → IsHtml t → IsHtml s
  code : {t s : Text} → s ≡ codes "<code>" ++ t → IsHtml t → IsHtml s
  code_end : {t s : Text} → s ≡ codes "</code>" ++ t → IsHtml t → IsHtml s
  link :
      {t s : Text} (url : Text)
      → safe_url url ≡ true
      → s
        ≡ codes "<a href=\""
          ++ (esc url ++ (codes "\" target=\"_blank\" rel=\"noopener noreferrer nofollow\">" ++ t))
      → IsHtml t
      → IsHtml s
  link_end : {t s : Text} → s ≡ codes "</a>" ++ t → IsHtml t → IsHtml s

assoc : (a b c d : Text) → d ≡ a ++ b → d ++ c ≡ a ++ (b ++ c)
assoc a b c d e = ap (λ s. s ++ c) e ∙ append_assoc a b c

pub append-IsHtml : {a b : Text} → IsHtml a → IsHtml b → IsHtml (a ++ b)
append-IsHtml nil k = k
append-IsHtml (char c p h) k = char c p (append-IsHtml h k)
append-IsHtml {b = b} (tag {t} {s} g e h) k = tag g (assoc (tag_text g) t b s e) (append-IsHtml h k)
append-IsHtml {b = b} (code {t} {s} e h) k =
    code (assoc (codes "<code>") t b s e) (append-IsHtml h k)
append-IsHtml {b = b} (code_end {t} {s} e h) k =
    code_end (assoc (codes "</code>") t b s e) (append-IsHtml h k)
append-IsHtml {b = b} (link {t} {s} url safe e h) k =
    link url safe
      (assoc (codes "<a href=\"")
          (esc url ++ (codes "\" target=\"_blank\" rel=\"noopener noreferrer nofollow\">" ++ t)) b s
          e
        ∙ ap (λ u. codes "<a href=\"" ++ u)
            (assoc (esc url)
                (codes "\" target=\"_blank\" rel=\"noopener noreferrer nofollow\">" ++ t) b _ refl
              ∙ ap (λ u. esc url ++ u)
                  (append_assoc (codes "\" target=\"_blank\" rel=\"noopener noreferrer nofollow\">")
                    t b)))
      (append-IsHtml h k)
append-IsHtml {b = b} (link_end {t} {s} e h) k =
    link_end (assoc (codes "</a>") t b s e) (append-IsHtml h k)

pub append-IsInline : {a b : Text} → IsInline a → IsInline b → IsInline (a ++ b)
append-IsInline nil k = k
append-IsInline (char c p h) k = char c p (append-IsInline h k)
append-IsInline {b = b} (tag {t} {s} g e h) k =
    tag g (assoc (tag_text g) t b s e) (append-IsInline h k)

pub html : {s : Text} → IsInline s → IsHtml s
html nil = nil
html (char c p h) = char c p (html h)
html (tag g e h) = tag g e (html h)

-- A character that no tag has.
unfoldable pub is_mark : ℕ → Bool
is_mark m = any (λ k. m == k) (0 ∷ 42 ∷ 95 ∷ 126 ∷ [])

unfoldable has_not : ℕ → Text → Bool
has_not m [] = true
has_not m (c ∷ t) = not (c == m) && has_not m t

second : (a b : Bool) → (a && b) ≡ true → b ≡ true
second true b h = h
second false b h = absurd (cc h)

first : (x y : ℕ) (s t : Text) → x ∷ s ≡ y ∷ t → x ≡ y
first x y s t e = ground (arith, e)

-- A mark of two texts that are joined stands in the second one, where the first one has it not.
split_behind :
    (m : ℕ) (g t a b : Text)
    → has_not m g ≡ true
    → g ++ t ≡ a ++ (m ∷ b)
    → (a' : Text) × (a ≡ g ++ a') × (t ≡ a' ++ (m ∷ b))
unfolding has_not
split_behind m [] t a b h e = (a, refl, e)
split_behind m (x ∷ g) t [] b h e = absurd (ground (arith, h, first x m (g ++ t) b e))
split_behind m (x ∷ g) t (y ∷ a) b h e =
    let (a', front, back) = split_behind m g t a b (second (not (x == m)) _ h) (ap (drop 1) e) in
    (a', ap₂ ◌∷◌ (sym (first x y _ _ e)) front, back)

tag_text-all :
    (g : Tag)
    → (has_not 0 (tag_text g) ≡ true)
      × (has_not 42 (tag_text g) ≡ true)
      × (has_not 95 (tag_text g) ≡ true)
      × (has_not 126 (tag_text g) ≡ true)
unfolding has_not
tag_text-all strong = (refl, refl, refl, refl)
tag_text-all strong_end = (refl, refl, refl, refl)
tag_text-all del = (refl, refl, refl, refl)
tag_text-all del_end = (refl, refl, refl, refl)
tag_text-all em = (refl, refl, refl, refl)
tag_text-all em_end = (refl, refl, refl, refl)

is_mark-cases : (m : ℕ) → is_mark m ≡ true → (m ≡ 0) ⊎ ((m ≡ 42) ⊎ ((m ≡ 95) ⊎ (m ≡ 126)))
unfolding is_mark
is_mark-cases m h = ground arith

tag_text-has_not : (g : Tag) (m : ℕ) → is_mark m ≡ true → has_not m (tag_text g) ≡ true
tag_text-has_not g m h =
    let (a, b, c, d) = tag_text-all g in
    elim (is_mark-cases m h) [
      | inl e ↦ ap (λ k. has_not k (tag_text g)) e ∙ a
      | inr (inl e) ↦ ap (λ k. has_not k (tag_text g)) e ∙ b
      | inr (inr (inl e)) ↦ ap (λ k. has_not k (tag_text g)) e ∙ c
      | inr (inr (inr e)) ↦ ap (λ k. has_not k (tag_text g)) e ∙ d
    ]

-- Before a mark and behind it stands inline text.
pub split-IsInline :
    {s : Text} (m : ℕ) (a b : Text)
    → is_mark m ≡ true
    → IsInline s
    → s ≡ a ++ (m ∷ b)
    → IsInline a × IsInline b
split-IsInline m [] b h nil e = absurd (cc e)
split-IsInline m (x ∷ a) b h nil e = absurd (cc e)
split-IsInline m [] b h (char {t} c p k) e = (nil, subst IsInline (ap (drop 1) e) k)
split-IsInline m (x ∷ a) b h (char {t} c p k) e =
    let (front, back) = split-IsInline m a b h k (ap (drop 1) e) in
    (char x (ap is_text (sym (first c x _ _ e)) ∙ p) front, back)
split-IsInline m a b h (tag {t} {s} g same k) e =
    let (a', front, back) =
      split_behind m (tag_text g) t a b (tag_text-has_not g m h) (sym same ∙ e) in
    let (left, right) = split-IsInline m a' b h k back in (tag g front left, right)

either : (a b : Bool) → (a || b) ≡ false → (a ≡ false) × (b ≡ false)
either true b h = absurd (cc h)
either false b h = (refl, h)

pub inert-IsInline : (s : Text) → any is_markup s ≡ false → IsInline s
unfolding is_text
inert-IsInline [] h = nil
inert-IsInline (c ∷ s) h =
    let (here, rest) = either (is_markup c) _ h in char c (ap not here) (inert-IsInline s rest)

pub esc-IsInline : (s : Text) → IsInline (esc s)
esc-IsInline s = inert-IsInline (esc s) (esc-inert s)
