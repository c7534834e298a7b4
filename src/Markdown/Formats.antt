-- ===== src/Markdown/Formats.antt =====
-- The replacements of `inline` and `format` in backend/static/js/lib/markdown.js keep the form of the text.
use mathlib.Core.Option.{some-injective}
use cryptis_dchat_project.Prelude.{
  ℕ, zero, suc, ◌+◌, ◌==◌, ==_iff, ◌≡◌, refl, subst, sym, ap, ap₂, ◌∙◌, if◌then◌else◌, Bool, true,
  false, not, ◌&&◌, ◌||◌, Option, none, some, [], ◌∷◌, ◌++◌, append_assoc, append-nil, codes,
  length, length-append, drop, arith,
}
use cryptis_dchat_project.Markdown.{
  Text, No, after, starts, replace_with, pair_end, one_end, is_before, wrap, find_pair, find_one,
  pass, format, is_space, is_word,
}
use cryptis_dchat_project.Markdown.Html.{
  Tag, strong, strong_end, del, del_end, em, em_end, tag_text, IsInline, is_mark, append-IsInline,
  split-IsInline,
}

-- What a match is cut out of: where the text from before is inline text, so is what is before the match and what is
-- behind it, and what stands for the match has the form that is wanted.
abbrev pub Cuts : (Text → Type 0) → (No → Option ℕ → Text → Option (ℕ × (Text × No))) → Type 0
Cuts Form find =
    (u : Text) (prev : Option ℕ) (c : ℕ) (t : Text) (n : ℕ) (r : Text)
    → find tt prev (c ∷ t) ≡ some (n, (r, tt))
    → IsInline (u ++ (c ∷ t))
    → IsInline u × Form r × IsInline (after n t)

module _ (Form : Text → Type 0) (form : (s : Text) → IsInline s → Form s)
    (join : (a b : Text) → Form a → Form b → Form (a ++ b)) where
  ended : (o u : Text) → Form o → IsInline (u ++ []) → Form ((o ++ u) ++ [])
  ended o u ho hu =
      subst Form (sym (append-nil (o ++ u)))
        (join o u ho (form u (subst IsInline (append-nil u) hu)))

  -- `o` is drawn, and `u` was read since the last match.
  pub replace_with-Form :
      (find : No → Option ℕ → Text → Option (ℕ × (Text × No))) (skip : ℕ) (prev : Option ℕ)
      (t o u : Text)
      → Cuts Form find
      → Form o
      → IsInline (u ++ after skip t)
      → Form ((o ++ u) ++ (replace_with find skip prev tt t).0)
  unfolding replace_with after
  replace_with-Form find zero prev [] o u cuts ho hu = ended o u ho hu
  replace_with-Form find (suc skip) prev [] o u cuts ho hu = ended o u ho hu
  replace_with-Form find (suc skip) prev (c ∷ t) o u cuts ho hu =
      replace_with-Form find skip (some c) t o u cuts ho hu
  replace_with-Form find zero prev (c ∷ t) o u cuts ho hu =
      at (find tt prev (c ∷ t)) refl
        (replace_with-Form find zero (some c) t o (u ++ (c ∷ [])) cuts ho
          (subst IsInline (sym (append_assoc u (c ∷ []) t)) hu))
        (λ n r k.
          replace_with-Form find n (some c) t ((o ++ u) ++ r) [] cuts
            (let (front, made, back) = cuts u prev c t n r k hu in
              join (o ++ u) r (join o u ho (form u front)) made)
            (cuts u prev c t n r k hu).2)
    where
      at :
          (found : Option (ℕ × (Text × No)))
          → found ≡ find tt prev (c ∷ t)
          → Form ((o ++ (u ++ (c ∷ []))) ++ (replace_with find zero (some c) tt t).0)
          → ((n : ℕ) (r : Text)
              → find tt prev (c ∷ t) ≡ some (n, (r, tt))
              → Form ((((o ++ u) ++ r) ++ []) ++ (replace_with find n (some c) tt t).0))
          → Form (
              (o ++ u)
              ++ (elim found as (λ x. Text × No) [
                | none ↦ let rest = replace_with find zero (some c) tt t in (c ∷ rest.0, rest.1)
                | some (n, (r, slots')) ↦
                    let rest = replace_with find n (some c) slots' t in (r ++ rest.0, rest.1)
              ]).0)
      at none same skipped matched =
          subst Form
            (ap (λ s. s ++ (replace_with find zero (some c) tt t).0)
                (sym (append_assoc o u (c ∷ [])))
              ∙ append_assoc (o ++ u) (c ∷ []) _)
            skipped
      at (some (n, (r, s))) same skipped matched =
          subst Form
            (ap (λ s. s ++ (replace_with find n (some c) tt t).0) (append-nil ((o ++ u) ++ r))
              ∙ append_assoc (o ++ u) r _)
            (matched n r (sym same))

pub after-at : (n : ℕ) (front rest : Text) → n ≡ length front → after n (front ++ rest) ≡ rest
unfolding after
after-at zero [] rest h = refl
after-at zero (c ∷ front) rest h = absurd (omega arith)
after-at (suc n) [] rest h = absurd (omega arith)
after-at (suc n) (c ∷ front) rest h = after-at n front rest (omega arith)

pub starts-first :
    (x : ℕ) (t : Text) → starts (λ k. k == x) t ≡ true → (rest : Text) × (t ≡ x ∷ rest)
unfolding starts
starts-first x [] h = absurd (cc h)
starts-first x (c ∷ t) h = (t, ap (λ k. k ∷ t) ((==_iff c x).0 h))

pub both_true : (a b : Bool) → (a && b) ≡ true → (a ≡ true) × (b ≡ true)
both_true true b h = (refl, h)
both_true false b h = absurd (cc h)

-- What a pair of marks ends: the content, both marks, and the rest.
pair_end-parts :
    (x : ℕ) (t cs : Text) → pair_end x t ≡ some cs → (rest : Text) × (t ≡ cs ++ (x ∷ x ∷ rest))
unfolding pair_end after
pair_end-parts x [] cs h = absurd (cc h)
pair_end-parts x (c ∷ t) cs h =
    at (not (is_space c) && (starts (λ k. k == x) t && starts (λ k. k == x) (after 1 t))) refl
      (pair_end x t) refl h (pair_end-parts x t)
  where
    at :
        (b : Bool)
        → b ≡ (not (is_space c) && (starts (λ k. k == x) t && starts (λ k. k == x) (after 1 t)))
        → (found : Option Text) → found ≡ pair_end x t
        → elim b as (λ z. Option Text) [
          | true ↦ some (c ∷ [])
          | false ↦ elim found [ none ↦ none | some ds ↦ some (c ∷ ds) ]
        ]
          ≡ some cs
        → ((ds : Text) → pair_end x t ≡ some ds → (rest : Text) × (t ≡ ds ++ (x ∷ x ∷ rest)))
        → (rest : Text) × (c ∷ t ≡ cs ++ (x ∷ x ∷ rest))
    at true same found is_found e ih =
        let (here, more) = both_true _ _ (sym same) in
        let (one, two) = both_true _ _ more in
        let (behind_one, is_one) = starts-first x t one in
        let (rest, is_two) = starts-first x (after 1 t) two in
        let ends : c ∷ [] ≡ cs = some-injective _ _ e in
        (
          rest,
          ap (λ s. c ∷ s) (is_one ∙ ap (λ s. x ∷ s) (sym (ap (after 1) is_one) ∙ is_two))
              ∙ ap (λ s. s ++ (x ∷ x ∷ rest)) ends,
        )
    at false same none is_found e ih = absurd (cc e)
    at false same (some ds) is_found e ih =
        let (rest, parts) = ih ds (sym is_found) in
        (rest, ap (λ s. c ∷ s) parts ∙ ap (λ s. s ++ (x ∷ x ∷ rest)) (some-injective (c ∷ ds) cs e))

-- The same of one mark.
one_end-parts :
    (x : ℕ) (bars : ℕ → Bool) (t cs : Text)
    → one_end x bars t ≡ some cs
    → (rest : Text) × (t ≡ cs ++ (x ∷ rest))
unfolding one_end
one_end-parts x bars [] cs h = absurd (cc h)
one_end-parts x bars (c ∷ t) cs h =
    at (not (is_space c) && (starts (λ k. k == x) t && not (starts bars (after 1 t)))) refl
      (c == x || c == 10) (one_end x bars t) refl h (one_end-parts x bars t)
  where
    at :
        (b : Bool)
        → b ≡ (not (is_space c) && (starts (λ k. k == x) t && not (starts bars (after 1 t))))
        → (stop : Bool) (found : Option Text) → found ≡ one_end x bars t
        → elim b as (λ z. Option Text) [
          | true ↦ some (c ∷ [])
          | false ↦ elim stop [
            | true ↦ none
            | false ↦ elim found [ none ↦ none | some ds ↦ some (c ∷ ds) ]
          ]
        ]
          ≡ some cs
        → ((ds : Text) → one_end x bars t ≡ some ds → (rest : Text) × (t ≡ ds ++ (x ∷ rest)))
        → (rest : Text) × (c ∷ t ≡ cs ++ (x ∷ rest))
    at true same stop found is_found e ih =
        let (rest, is_one) = starts-first x t (both_true _ _ (both_true _ _ (sym same)).1).0 in
        (rest, ap (λ s. c ∷ s) is_one ∙ ap (λ s. s ++ (x ∷ rest)) (some-injective (c ∷ []) cs e))
    at false same true found is_found e ih = absurd (cc e)
    at false same false none is_found e ih = absurd (cc e)
    at false same false (some ds) is_found e ih =
        let (rest, parts) = ih ds (sym is_found) in
        (rest, ap (λ s. c ∷ s) parts ∙ ap (λ s. s ++ (x ∷ rest)) (some-injective (c ∷ ds) cs e))

tag-IsInline : (g : Tag) → IsInline (tag_text g)
tag-IsInline g = IsInline.tag {t = []} g (sym (append-nil (tag_text g))) IsInline.nil

-- A text between two tags.
wrapped-IsInline :
    (g h : Tag) (cs : Text) → IsInline cs → IsInline (tag_text g ++ (cs ++ tag_text h))
wrapped-IsInline g h cs k = append-IsInline (tag-IsInline g) (append-IsInline k (tag-IsInline h))

-- What a match of two marks is made of.
PairParts : ℕ → ℕ → Text → ℕ → Text → Text → Text → Type 0
PairParts x c t n r open_tag close_tag =
    (cs : Text) × (rest : Text) × (c ∷ t ≡ x ∷ x ∷ (cs ++ (x ∷ x ∷ rest)))
    × (n ≡ length cs + 3)
    × (r ≡ open_tag ++ (cs ++ close_tag))

find_pair-parts :
    (x : ℕ) (open_tag close_tag : Text) (prev : Option ℕ) (c : ℕ) (t : Text) (n : ℕ) (r : Text)
    → find_pair x open_tag close_tag tt prev (c ∷ t) ≡ some (n, (r, tt))
    → PairParts x c t n r open_tag close_tag
unfolding find_pair wrap PairParts
find_pair-parts x open_tag close_tag prev c [] n r h = absurd (cc h)
find_pair-parts x open_tag close_tag prev c (d ∷ t) n r h =
    at ((c == x && d == x) && starts (λ k. not (is_space k)) t) refl (pair_end x t) refl h
  where
    at :
        (b : Bool)
        → b ≡ ((c == x && d == x) && starts (λ k. not (is_space k)) t)
        → (found : Option Text) → found ≡ pair_end x t
        → (if b
            then elim found as (λ z. Option (ℕ × (Text × No))) [
              | none ↦ none
              | some cs ↦ some (length cs + 3, (open_tag ++ (cs ++ close_tag), tt))
            ]
            else none)
          ≡ some (n, (r, tt))
        → PairParts x c (d ∷ t) n r open_tag close_tag
    at false same found is_found e = absurd (cc e)
    at true same none is_found e = absurd (cc e)
    at true same (some cs) is_found e =
        let (rest, parts) = pair_end-parts x t cs (sym is_found) in
        let marks = both_true _ _ (both_true _ _ (sym same)).0 in
        let values = some-injective _ _ e in
        (
          cs,
          rest,
          ap₂ ◌∷◌ ((==_iff c x).0 marks.0) (ap₂ ◌∷◌ ((==_iff d x).0 marks.1) parts),
          sym (ap (λ v. v.0) values),
          sym (ap (λ v. v.1.0) values),
        )

-- A mark at the start.
behind_mark : (x : ℕ) (t : Text) → is_mark x ≡ true → IsInline (x ∷ t) → IsInline t
behind_mark x t m k = (split-IsInline x [] t m k refl).1

find_pair-Cuts :
    (x : ℕ) (g h : Tag) → is_mark x ≡ true → Cuts IsInline (find_pair x (tag_text g) (tag_text h))
unfolding PairParts
find_pair-Cuts x g h m u prev c t n r found hu =
    let (cs, rest, parts, many, made) =
      find_pair-parts x (tag_text g) (tag_text h) prev c t n r found in
    let (front, inside) =
      split-IsInline x u (x ∷ (cs ++ (x ∷ x ∷ rest))) m hu (ap (λ s. u ++ s) parts) in
    let (content, back) = split-IsInline x cs (x ∷ rest) m (behind_mark x _ m inside) refl in
    (
      front,
      subst IsInline (sym made) (wrapped-IsInline g h cs content),
      subst IsInline
          (sym (
            ap (after n)
              (ap (drop 1) parts ∙ ap (λ s. x ∷ s) (sym (append_assoc cs (x ∷ x ∷ []) rest)))
            ∙ after-at n (x ∷ (cs ++ (x ∷ x ∷ []))) rest
                (omega (arith, many, length-append cs (x ∷ x ∷ [])))))
          (behind_mark x rest m back),
    )

OneParts : ℕ → ℕ → Text → ℕ → Text → Type 0
OneParts x c t n r =
    (cs : Text) × (rest : Text) × (c ∷ t ≡ x ∷ (cs ++ (x ∷ rest)))
    × (n ≡ length cs + 1)
    × (r ≡ codes "<em>" ++ (cs ++ codes "</em>"))

find_one-parts :
    (x : ℕ) (bars : ℕ → Bool) (prev : Option ℕ) (c : ℕ) (t : Text) (n : ℕ) (r : Text)
    → find_one x bars tt prev (c ∷ t) ≡ some (n, (r, tt))
    → OneParts x c t n r
unfolding find_one wrap OneParts
find_one-parts x bars prev c t n r h =
    at (is_before x prev && (c == x && starts (λ k. not (is_space k)) t)) refl (one_end x bars t)
      refl h
  where
    at :
        (b : Bool)
        → b ≡ (is_before x prev && (c == x && starts (λ k. not (is_space k)) t))
        → (found : Option Text) → found ≡ one_end x bars t
        → (if b
            then elim found as (λ z. Option (ℕ × (Text × No))) [
              | none ↦ none
              | some cs ↦ some (length cs + 1, (codes "<em>" ++ (cs ++ codes "</em>"), tt))
            ]
            else none)
          ≡ some (n, (r, tt))
        → OneParts x c t n r
    at false same found is_found e = absurd (cc e)
    at true same none is_found e = absurd (cc e)
    at true same (some cs) is_found e =
        let (rest, parts) = one_end-parts x bars t cs (sym is_found) in
        let values = some-injective _ _ e in
        (
          cs,
          rest,
          ap₂ ◌∷◌ ((==_iff c x).0 (both_true _ _ (both_true _ _ (sym same)).1).0) parts,
          sym (ap (λ v. v.0) values),
          sym (ap (λ v. v.1.0) values),
        )

find_one-Cuts : (x : ℕ) (bars : ℕ → Bool) → is_mark x ≡ true → Cuts IsInline (find_one x bars)
unfolding OneParts
find_one-Cuts x bars m u prev c t n r found hu =
    let (cs, rest, parts, many, made) = find_one-parts x bars prev c t n r found in
    let (front, inside) = split-IsInline x u (cs ++ (x ∷ rest)) m hu (ap (λ s. u ++ s) parts) in
    let (content, back) = split-IsInline x cs rest m inside refl in
    (
      front,
      subst IsInline (sym made) (wrapped-IsInline em em_end cs content),
      subst IsInline
          (sym (
            ap (after n) (ap (drop 1) parts ∙ sym (append_assoc cs (x ∷ []) rest))
            ∙ after-at n (cs ++ (x ∷ [])) rest (omega (arith, many, length-append cs (x ∷ [])))))
          back,
    )

pass-IsInline :
    (find : No → Option ℕ → Text → Option (ℕ × (Text × No))) (s : Text)
    → Cuts IsInline find
    → IsInline s
    → IsInline (pass find s)
unfolding pass after
pass-IsInline find s cuts h =
    replace_with-Form IsInline (λ t k. k) (λ a b k l. append-IsInline k l) find zero none s [] []
      cuts IsInline.nil h

pub format-IsInline : (s : Text) → IsInline s → IsInline (format s)
unfolding format is_mark
format-IsInline s h =
    pass-IsInline (find_one 95 (λ k. k == 95 || is_word k)) _ (find_one-Cuts 95 _ refl) (
      pass-IsInline (find_one 42 (λ k. k == 42)) _ (find_one-Cuts 42 _ refl) (
        pass-IsInline (find_pair 126 (codes "<del>") (codes "</del>")) _
          (find_pair-Cuts 126 del del_end refl)
          (pass-IsInline (find_pair 95 (codes "<strong>") (codes "</strong>")) _
            (find_pair-Cuts 95 strong strong_end refl)
            (pass-IsInline (find_pair 42 (codes "<strong>") (codes "</strong>")) s
              (find_pair-Cuts 42 strong strong_end refl) h))))
