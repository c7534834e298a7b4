-- ===== src/Markdown/Inert.antt =====
-- What `inline` of backend/static/js/lib/markdown.js draws.
use mathlib.Core.Option.{some-injective}
use cryptis_dchat_project.Prelude.{
  ℕ, zero, suc, ◌+◌, ◌-◌, ◌*◌, ◌/◌, ◌%◌, ◌≤◌, ltb, ◌==◌, ==_iff, leb, ◌≡◌, refl, subst, sym, ap,
  ap₂, ◌∙◌, if◌then◌else◌, Bool, true, false, not, ◌&&◌, ◌||◌, Option, none, some, [], ◌∷◌, ◌++◌,
  append_assoc, any, all, All, codes, length, length-append, arith,
}
use cryptis_dchat_project.Escape.{esc}
use cryptis_dchat_project.Markdown.{
  Text, No, Slots, after, starts, run_of, replace_with, pass, format, in_url, in_auto, is_digit,
  digits, stash, is_address, after_prefix, safe_url, link, find_code, find_link, label_of, url_of,
  is_link, draw_link, auto_run, behind, auto_with, is_bound, find_auto, slot, number, find_place,
  inline,
}
use cryptis_dchat_project.Markdown.Html.{
  IsInline, IsHtml, is_mark, html, append-IsHtml, split-IsInline, esc-IsInline, inert-IsInline,
}
use cryptis_dchat_project.Markdown.Formats.{
  Cuts, replace_with-Form, format-IsInline, after-at, starts-first, both_true,
}

abbrev Find : Type 0
Find = Slots → Option ℕ → Text → Option (ℕ × (Text × Slots))

-- A match leaves slots of HTML.
abbrev Keeps : Find → Type 0
Keeps find =
    (slots : Slots) (prev : Option ℕ) (s : Text) (n : ℕ) (r : Text) (slots' : Slots)
    → find slots prev s ≡ some (n, (r, slots'))
    → All IsHtml slots
    → All IsHtml slots'

replace_with-Keeps :
    (find : Find) (skip : ℕ) (prev : Option ℕ) (slots : Slots) (t : Text)
    → Keeps find
    → All IsHtml slots
    → All IsHtml (replace_with find skip prev slots t).1
unfolding replace_with
replace_with-Keeps find zero prev slots [] keeps h = h
replace_with-Keeps find (suc skip) prev slots [] keeps h = h
replace_with-Keeps find (suc skip) prev slots (c ∷ t) keeps h =
    replace_with-Keeps find skip (some c) slots t keeps h
replace_with-Keeps find zero prev slots (c ∷ t) keeps h =
    at (find slots prev (c ∷ t)) refl (replace_with-Keeps find zero (some c) slots t keeps h)
      (λ n slots'. replace_with-Keeps find n (some c) slots' t keeps)
  where
    at :
        (found : Option (ℕ × (Text × Slots)))
        → found ≡ find slots prev (c ∷ t)
        → All IsHtml (replace_with find zero (some c) slots t).1
        → ((n : ℕ) (slots' : Slots)
            → All IsHtml slots'
            → All IsHtml (replace_with find n (some c) slots' t).1)
        → All IsHtml
            (elim found as (λ z. Text × Slots) [
              | none ↦ let rest = replace_with find zero (some c) slots t in (c ∷ rest.0, rest.1)
              | some (n, (r, slots')) ↦
                  let rest = replace_with find n (some c) slots' t in (r ++ rest.0, rest.1)
            ]).1
    at none same skipped matched = skipped
    at (some (n, (r, slots'))) same skipped matched =
        matched n slots' (keeps slots prev (c ∷ t) n r slots' (sym same) h)

All-append_one : (xs : Slots) (x : Text) → All IsHtml xs → IsHtml x → All IsHtml (xs ++ (x ∷ []))
All-append_one [] x h k = (k, tt)
All-append_one (y ∷ xs) x h k = (h.0, All-append_one xs x h.1 k)

stash-IsHtml :
    (m : ℕ) (s : Text) (slots slots' : Slots) (n : ℕ) (r : Text)
    → stash m s slots ≡ some (n, (r, slots'))
    → IsHtml s
    → All IsHtml slots
    → All IsHtml slots'
unfolding stash
stash-IsHtml m s slots slots' n r e k h =
    subst (All IsHtml) (ap (λ v. v.1.1) (some-injective _ _ e)) (All-append_one slots s h k)

code-IsHtml : (code : Text) → IsHtml (codes "<code>" ++ (esc code ++ codes "</code>"))
code-IsHtml code =
    IsHtml.code refl (append-IsHtml (html (esc-IsInline code)) (IsHtml.code_end refl IsHtml.nil))

find_code-Keeps : Keeps find_code
unfolding find_code
find_code-Keeps slots prev [] n r slots' e h = absurd (cc e)
find_code-Keeps slots prev (c ∷ t) n r slots' e h =
    at (c == 96 && (leb 1 (length code) && starts (λ k. k == 96) (after (length code) t))) e
  where
    code : Text
    code = run_of (λ k. not (k == 96 || k == 10)) t

    at :
        (b : Bool)
        → (if b
            then stash (length code + 1) (codes "<code>" ++ (esc code ++ codes "</code>")) slots
            else none)
          ≡ some (n, (r, slots'))
        → All IsHtml slots'
    at true e = stash-IsHtml _ _ slots slots' n r e (code-IsHtml code) h
    at false e = absurd (cc e)

link-IsHtml : (url label : Text) → safe_url url ≡ true → IsInline label → IsHtml (link url label)
unfolding link
link-IsHtml url label safe k =
    IsHtml.link url safe refl (append-IsHtml (html k) (IsHtml.link_end refl IsHtml.nil))

draw_link-IsHtml :
    (slots : Slots) (label url : Text) (n : ℕ) (r : Text) (slots' : Slots)
    → draw_link slots label url ≡ some (n, (r, slots'))
    → All IsHtml slots
    → All IsHtml slots'
unfolding draw_link
draw_link-IsHtml slots label url n r slots' e h = at (safe_url url) refl e
  where
    at :
        (safe : Bool)
        → safe ≡ safe_url url
        → (if safe
            then stash (length label + length url + 3) (link url (format (esc label))) slots
            else some (
              length label + length url + 3,
              ((91 ∷ []) ++ (label ++ (codes "](" ++ (url ++ (41 ∷ [])))), slots),
            ))
          ≡ some (n, (r, slots'))
        → All IsHtml slots'
    at true same k =
        stash-IsHtml _ _ slots slots' n r k
          (link-IsHtml url _ (sym same) (format-IsInline (esc label) (esc-IsInline label))) h
    at false same k = subst (All IsHtml) (ap (λ v. v.1.1) (some-injective _ _ k)) h

find_link-Keeps : Keeps find_link
unfolding find_link
find_link-Keeps slots prev [] n r slots' e h = absurd (cc e)
find_link-Keeps slots prev (c ∷ t) n r slots' e h = at (is_link c t) e
  where
    at :
        (b : Bool)
        → (if b then draw_link slots (label_of t) (url_of t) else none) ≡ some (n, (r, slots'))
        → All IsHtml slots'
    at true k = draw_link-IsHtml slots (label_of t) (url_of t) n r slots' k h
    at false k = absurd (cc k)

auto_run-in_url : (t : Text) → all in_url (auto_run t) ≡ true
unfolding auto_run in_auto
auto_run-in_url [] = refl
auto_run-in_url (c ∷ t) = at (in_url c) (c == 0) refl (auto_run t) (auto_run-in_url t)
  where
    ends : Bool
    ends = any (λ k. c == k) (codes ".,;:!?)")

    one : (b : Bool) → true ≡ in_url c → all in_url (if b then [] else c ∷ []) ≡ true
    one true own = refl
    one false own = ap (λ b. b && true) (sym own)

    at :
        (own zero_char : Bool)
        → own ≡ in_url c
        → (run : Text) → all in_url run ≡ true
        → all in_url (elim (own && not zero_char) as (λ z. Text) [
          | false ↦ []
          | true ↦ elim run [ [] ↦ if ends then [] else c ∷ [] | ◌∷◌ d ds ↦ c ∷ d ∷ ds ]
        ])
          ≡ true
    at false z own run h = refl
    at true true own run h = refl
    at true false own [] h = one ends own
    at true false own (d ∷ ds) h = ap₂ ◌&&◌ (sym own) h

-- Both prefixes make a safe address.
https-safe :
    (t : Text)
    → all in_url t ≡ true
    → leb 1 (length t) ≡ true
    → safe_url (codes "https://" ++ t) ≡ true
unfolding safe_url after_prefix is_address
https-safe t h k = ap (λ b. b || false) (ap₂ ◌&&◌ k h)

http-safe :
    (t : Text)
    → all in_url t ≡ true
    → leb 1 (length t) ≡ true
    → safe_url (codes "http://" ++ t) ≡ true
unfolding safe_url after_prefix is_address
http-safe t h k = ap (λ b. b || false) (ap₂ ◌&&◌ k h)

at_least_one : (n : ℕ) → leb 2 n ≡ true → leb 1 n ≡ true
at_least_one n h = ground (arith, h)

auto_with-IsHtml :
    (prefix : Text) (s : Text) (slots : Slots) (n : ℕ) (r : Text) (slots' : Slots)
    → ((t : Text) → all in_url t ≡ true → leb 1 (length t) ≡ true → safe_url (prefix ++ t) ≡ true)
    → auto_with prefix s slots ≡ some (n, (r, slots'))
    → All IsHtml slots
    → All IsHtml slots'
unfolding auto_with
auto_with-IsHtml prefix s slots n r slots' safe e h = at (behind prefix s) e
  where
    tested :
        (t : Text) (b : Bool)
        → b ≡ leb 2 (length (auto_run t))
        → (if b
            then stash
                (length (prefix ++ auto_run t) - 1)
                (link (prefix ++ auto_run t) (esc (prefix ++ auto_run t)))
                slots
            else none)
          ≡ some (n, (r, slots'))
        → All IsHtml slots'
    tested t false same k = absurd (cc k)
    tested t true same k =
        stash-IsHtml _ _ slots slots' n r k
          (link-IsHtml (prefix ++ auto_run t) _
            (safe (auto_run t) (auto_run-in_url t) (at_least_one (length (auto_run t)) (sym same)))
            (esc-IsInline _))
          h

    at :
        (found : Option Text)
        → elim found as (λ z. Option (ℕ × (Text × Slots))) [
          | none ↦ none
          | some t ↦
              let url = prefix ++ auto_run t in
              if leb 2 (length (auto_run t))
              then stash (length url - 1) (link url (esc url)) slots
              else none
        ]
          ≡ some (n, (r, slots'))
        → All IsHtml slots'
    at none k = absurd (cc k)
    at (some t) k = tested t (leb 2 (length (auto_run t))) refl k

find_auto-Keeps : Keeps find_auto
unfolding find_auto
find_auto-Keeps slots prev s n r slots' e h =
    at (is_bound prev) (auto_with (codes "https://") s slots) refl e
  where
    at :
        (b : Bool) (found : Option (ℕ × (Text × Slots)))
        → found ≡ auto_with (codes "https://") s slots
        → (if b
            then elim found as (λ z. Option (ℕ × (Text × Slots))) [
              | none ↦ auto_with (codes "http://") s slots
              | some f ↦ some f
            ]
            else none)
          ≡ some (n, (r, slots'))
        → All IsHtml slots'
    at false found same k = absurd (cc k)
    at true none same k = auto_with-IsHtml (codes "http://") s slots n r slots' http-safe k h
    at true (some f) same k =
        auto_with-IsHtml (codes "https://") s slots n r slots' https-safe (sym same ∙ k) h

slot-IsHtml : (n : ℕ) (slots : Slots) → All IsHtml slots → IsHtml (slot n slots)
unfolding slot
slot-IsHtml n [] h = html (inert-IsInline (codes "undefined") refl)
slot-IsHtml zero (s ∷ slots) h = h.0
slot-IsHtml (suc n) (s ∷ slots) h = slot-IsHtml n slots h.1

run_of-after : (p : ℕ → Bool) (t : Text) → t ≡ run_of p t ++ after (length (run_of p t)) t
unfolding run_of after
run_of-after p [] = refl
run_of-after p (c ∷ t) = at (p c) (run_of-after p t)
  where
    at :
        (b : Bool)
        → t ≡ run_of p t ++ after (length (run_of p t)) t
        → c ∷ t ≡ (
            if◌then◌else◌ {A = Text} b (c ∷ run_of p t) []
            ++ after (length (if◌then◌else◌ {A = Text} b (c ∷ run_of p t) [])) (c ∷ t))
    at true ih = ap (λ s. c ∷ s) ih
    at false ih = refl

find_place-Cuts : (slots : Slots) → All IsHtml slots → Cuts IsHtml (find_place slots)
unfolding find_place is_mark
find_place-Cuts slots h u prev c t n r found hu =
    at (c == 0 && (leb 1 (length ds) && starts (λ k. k == 0) (after (length ds) t))) refl found
  where
    ds : Text
    ds = run_of is_digit t

    at :
        (b : Bool)
        → b ≡ (c == 0 && (leb 1 (length ds) && starts (λ k. k == 0) (after (length ds) t)))
        → if◌then◌else◌ {A = Option (ℕ × (Text × No))} b
            (some (length ds + 1, (slot (number 0 ds) slots, tt)))
            none
          ≡ some (n, (r, tt))
        → IsInline u × IsHtml r × IsInline (after n t)
    at false same e = absurd (cc e)
    at true same e =
        let (is_zero, more) = both_true _ _ (sym same) in
        let (rest, closed) = starts-first 0 (after (length ds) t) (both_true _ _ more).1 in
        let parts : t ≡ ds ++ (0 ∷ rest) = run_of-after is_digit t ∙ ap (λ s. ds ++ s) closed in
        let (front, inside) =
          split-IsInline 0 u t refl hu (ap (λ k. u ++ (k ∷ t)) ((==_iff c 0).0 is_zero)) in
        let (digits, back) = split-IsInline 0 ds rest refl inside parts in
        let values = some-injective _ _ e in
        (
          front,
          subst IsHtml (ap (λ v. v.1.0) values) (slot-IsHtml (number 0 ds) slots h),
          subst IsInline
              (sym (
                ap (after n) (parts ∙ sym (append_assoc ds (0 ∷ []) rest))
                ∙ after-at n (ds ++ (0 ∷ [])) rest
                    (omega (arith, sym (ap (λ v. v.0) values), length-append ds (0 ∷ [])))))
              back,
        )

-- Whatever the text of a line, what is drawn for its marks consists of characters other than `<`, `>`
-- and quotation marks, of the tags for strong, deleted, emphasised text and code, each as it is written
-- in the code, and of links whose address has one of the schemes http, https and mailto and none of
-- these characters nor spaces, and is escaped.
pub inline-IsHtml : (text : Text) → IsHtml (inline text)
unfolding inline pass after
inline-IsHtml text =
    let coded = replace_with find_code zero none [] text in
    let linked = replace_with find_link zero none coded.1 coded.0 in
    let done = replace_with find_auto zero none linked.1 linked.0 in
    let slots : All IsHtml done.1 =
      replace_with-Keeps find_auto zero none linked.1 linked.0 find_auto-Keeps (
        replace_with-Keeps find_link zero none coded.1 coded.0 find_link-Keeps
          (replace_with-Keeps find_code zero none [] text find_code-Keeps tt)) in
    replace_with-Form IsHtml (λ s k. html k) (λ a b k l. append-IsHtml k l) (find_place done.1) zero
      none (format (esc done.0)) [] [] (find_place-Cuts done.1 slots) IsHtml.nil
      (format-IsInline (esc done.0) (esc-IsInline done.0))

number-append_one :
    (m : ℕ) (s : Text) (c : ℕ) → number m (s ++ (c ∷ [])) ≡ 10 * number m s + (c - 48)
unfolding number
number-append_one m [] c = refl
number-append_one m (d ∷ s) c = number-append_one (10 * m + (d - 48)) s c

big : (fuel n : ℕ) → false ≡ ltb n 10 → n ≤ suc fuel → n / 10 ≤ fuel
big fuel n h k = ground (arith, h, k)

-- The fuel of `digits` is enough: an index is read back.
number-digits : (fuel n : ℕ) → n ≤ fuel → number 0 (digits fuel n) ≡ n
unfolding number digits
number-digits zero n h = omega arith
number-digits (suc fuel) n h = at (ltb n 10) refl (number-digits fuel (n / 10))
  where
    at :
        (b : Bool)
        → b ≡ ltb n 10
        → (n / 10 ≤ fuel → number 0 (digits fuel (n / 10)) ≡ n / 10)
        → number 0 (elim b as (λ z. Text) [
          | true ↦ (48 + n) ∷ []
          | false ↦ digits fuel (n / 10) ++ ((48 + n % 10) ∷ [])
        ])
          ≡ n
    at true same ih = omega arith
    at false same ih =
        number-append_one 0 (digits fuel (n / 10)) (48 + n % 10)
        ∙ ap (λ m. 10 * m + (48 + n % 10 - 48)) (ih (big fuel n same h))
        ∙ omega arith
