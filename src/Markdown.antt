-- ===== src/Markdown.antt =====
-- The marks inside a line of a message: `inline` and `format` of backend/static/js/lib/markdown.js, with its patterns
-- as functions that find a match at the start of a text. Texts are lists of code units.
pub mod Html
pub mod Formats
pub mod Inert
use cryptis_dchat_project.Prelude.{
  ℕ, zero, suc, ◌+◌, ◌-◌, ◌*◌, ◌/◌, ◌%◌, ◌==◌, ltb, leb, if◌then◌else◌, Bool, true, false, not,
  ◌&&◌, ◌||◌, Option, none, some, List, [], ◌∷◌, ◌++◌, any, all, length, get_elem?, codes,
}
use cryptis_dchat_project.Escape.{esc}

abbrev pub Text : Type 0
Text = List ℕ

-- `\s`, `\w`, `\d`, and what a link's address has not.
unfoldable pub is_space : ℕ → Bool
is_space c =
    (leb 9 c && leb c 13)
    || any (λ k. c == k) (32 ∷ 160 ∷ 5760 ∷ 8232 ∷ 8233 ∷ 8239 ∷ 8287 ∷ 12288 ∷ 65279 ∷ [])
    || (leb 8192 c && leb c 8202)

unfoldable pub is_digit : ℕ → Bool
is_digit c = leb 48 c && leb c 57

unfoldable pub is_word : ℕ → Bool
unfolding is_digit
is_word c = is_digit c || ((leb 65 c && leb c 90) || ((leb 97 c && leb c 122) || c == 95))

unfoldable pub in_url : ℕ → Bool
unfolding is_space
in_url c = not (is_space c) && not (any (λ k. c == k) (34 ∷ 39 ∷ 60 ∷ 62 ∷ []))

unfoldable pub starts : (ℕ → Bool) → Text → Bool
starts p [] = false
starts p (c ∷ t) = p c

-- `replace` with a pattern and a function: `find` gives the length less one of a match at the start, after the
-- character before it, what stands for it, and the new slots. `skip` characters of a match are left.
unfoldable pub replace_with :
    {S : Type 0}
    → (S → Option ℕ → Text → Option (ℕ × (Text × S)))
    → ℕ
    → Option ℕ
    → S
    → Text
    → Text × S
replace_with find skip prev slots [] = ([], slots)
replace_with find (suc skip) prev slots (c ∷ t) = replace_with find skip (some c) slots t
replace_with find zero prev slots (c ∷ t) = elim (find slots prev (c ∷ t)) [
  | none ↦ let rest = replace_with find zero (some c) slots t in (c ∷ rest.0, rest.1)
  | some (n, (r, slots')) ↦
      let rest = replace_with find n (some c) slots' t in (r ++ rest.0, rest.1)
]

-- The decimal digits of an index, on fuel; and the index of digits.
unfoldable pub digits : ℕ → ℕ → Text
digits zero n = (48 + n % 10) ∷ []
digits (suc fuel) n = elim (ltb n 10) [
  | true ↦ (48 + n) ∷ []
  | false ↦ digits fuel (n / 10) ++ ((48 + n % 10) ∷ [])
]

unfoldable pub number : ℕ → Text → ℕ
number n [] = n
number n (c ∷ t) = number (10 * n + (c - 48)) t

-- `stash`: the place of the next slot.
unfoldable pub place : ℕ → Text
unfolding digits
place n = 0 ∷ (digits n n ++ (0 ∷ []))

abbrev pub Slots : Type 0
Slots = List Text

unfoldable pub stash : ℕ → Text → Slots → Option (ℕ × (Text × Slots))
unfolding place
stash n html slots = some (n, (place (length slots), slots ++ (html ∷ [])))

-- The longest run of characters of a class.
unfoldable pub run_of : (ℕ → Bool) → Text → Text
run_of p [] = []
run_of p (c ∷ t) = if p c then c ∷ run_of p t else []

unfoldable pub after : ℕ → Text → Text
after zero t = t
after (suc n) [] = []
after (suc n) (c ∷ t) = after n t

-- /`([^`\n]+)`/
unfoldable pub find_code : Slots → Option ℕ → Text → Option (ℕ × (Text × Slots))
unfolding run_of after starts stash
find_code slots prev [] = none
find_code slots prev (c ∷ t) =
    let code = run_of (λ k. not (k == 96 || k == 10)) t in
    if c == 96 && (leb 1 (length code) && starts (λ k. k == 96) (after (length code) t))
    then stash (length code + 1) (codes "<code>" ++ (esc code ++ codes "</code>")) slots
    else none

unfoldable pub lower : ℕ → ℕ
lower c = if leb 65 c && leb c 90 then c + 32 else c

unfoldable pub after_prefix : Text → Text → Option Text
unfolding lower
after_prefix [] t = some t
after_prefix (p ∷ ps) [] = none
after_prefix (p ∷ ps) (c ∷ t) = if lower c == p then after_prefix ps t else none

unfoldable pub is_address : Option Text → Bool
unfolding in_url
is_address none = false
is_address (some t) = leb 1 (length t) && all in_url t

-- `SAFE_URL`
unfoldable pub safe_url : Text → Bool
unfolding after_prefix is_address
safe_url url =
    is_address (after_prefix (codes "http://") url)
    || (is_address (after_prefix (codes "https://") url)
        || is_address (after_prefix (codes "mailto:") url))

-- The last character of a match of two marks, which is not a space and has both marks behind it.
unfoldable pub pair_end : ℕ → Text → Option Text
unfolding is_space
pair_end x [] = none
pair_end x (c ∷ t) =
    elim (not (is_space c) && (starts (λ k. k == x) t && starts (λ k. k == x) (after 1 t))) [
      | true ↦ some (c ∷ [])
      | false ↦ elim (pair_end x t) [ none ↦ none | some cs ↦ some (c ∷ cs) ]
    ]

abbrev pub No : Type 0
No = Unit {0}

unfoldable pub wrap : ℕ → Text → Text → Text → Option (ℕ × (Text × No))
wrap n open_tag content close_tag = some (n, (open_tag ++ (content ++ close_tag), tt))

-- /\*\*(?=\S)([\s\S]*?\S)\*\*/ for a mark
unfoldable pub find_pair : ℕ → Text → Text → No → Option ℕ → Text → Option (ℕ × (Text × No))
unfolding pair_end wrap starts
find_pair x open_tag close_tag s prev [] = none
find_pair x open_tag close_tag s prev (c ∷ []) = none
find_pair x open_tag close_tag s prev (c ∷ d ∷ t) =
    if (c == x && d == x) && starts (λ k. not (is_space k)) t
    then elim (pair_end x t) [ none ↦ none | some cs ↦ wrap (length cs + 3) open_tag cs close_tag ]
    else none

-- The end of a match of one mark, behind which `bars` does not hold.
unfoldable pub one_end : ℕ → (ℕ → Bool) → Text → Option Text
unfolding is_space
one_end x bars [] = none
one_end x bars (c ∷ t) =
    elim (not (is_space c) && (starts (λ k. k == x) t && not (starts bars (after 1 t)))) [
      | true ↦ some (c ∷ [])
      | false ↦ elim (c == x || c == 10) [
        | true ↦ none
        | false ↦ elim (one_end x bars t) [ none ↦ none | some cs ↦ some (c ∷ cs) ]
      ]
    ]

unfoldable pub is_before : ℕ → Option ℕ → Bool
unfolding is_word
is_before x none = true
is_before x (some c) = not (c == x) && not (is_word c)

-- /(^|[^*\w])\*(?=\S)([^*\n]*?\S)\*(?!\*)/ for a mark
unfoldable pub find_one : ℕ → (ℕ → Bool) → No → Option ℕ → Text → Option (ℕ × (Text × No))
unfolding one_end wrap starts is_before
find_one x bars s prev [] = none
find_one x bars s prev (c ∷ t) =
    if is_before x prev && (c == x && starts (λ k. not (is_space k)) t)
    then elim (one_end x bars t) [
      | none ↦ none
      | some cs ↦ wrap (length cs + 1) (codes "<em>") cs (codes "</em>")
    ]
    else none

unfoldable pub pass : (No → Option ℕ → Text → Option (ℕ × (Text × No))) → Text → Text
unfolding replace_with
pass find s = (replace_with find zero none tt s).0

unfoldable pub format : Text → Text
unfolding pass find_pair find_one is_word
format s = pass (find_one 95 (λ k. k == 95 || is_word k)) (
    pass (find_one 42 (λ k. k == 42)) (
      pass (find_pair 126 (codes "<del>") (codes "</del>")) (
        pass (find_pair 95 (codes "<strong>") (codes "</strong>"))
          (pass (find_pair 42 (codes "<strong>") (codes "</strong>")) s))))

unfoldable pub link : Text → Text → Text
link url label =
    codes "<a href=\""
    ++ (esc url
        ++ (codes "\" target=\"_blank\" rel=\"noopener noreferrer nofollow\">"
            ++ (label ++ codes "</a>")))

unfoldable pub label_of : Text → Text
unfolding run_of
label_of t = run_of (λ k. not (k == 93 || k == 10)) t

unfoldable pub behind_label : Text → Text
unfolding label_of after
behind_label t = after (length (label_of t)) t

unfoldable pub url_of : Text → Text
unfolding run_of after behind_label is_space
url_of t = run_of (λ k. not (k == 41 || is_space k)) (after 2 (behind_label t))

unfoldable pub is_link : ℕ → Text → Bool
unfolding label_of behind_label url_of after starts
is_link c t =
    (c == 91 && (leb 1 (length (label_of t)) && leb (length (label_of t)) 300))
    && ((starts (λ k. k == 93) (behind_label t) && starts (λ k. k == 40) (after 1 (behind_label t)))
        && ((leb 1 (length (url_of t)) && leb (length (url_of t)) 2000)
            && starts (λ k. k == 41) (after (length (url_of t)) (after 2 (behind_label t)))))

-- A link whose address is not safe stays as it is.
unfoldable pub draw_link : Slots → Text → Text → Option (ℕ × (Text × Slots))
unfolding safe_url stash link format
draw_link slots label url =
    if safe_url url
    then stash (length label + length url + 3) (link url (format (esc label))) slots
    else some (
      length label + length url + 3,
      ((91 ∷ []) ++ (label ++ (codes "](" ++ (url ++ (41 ∷ [])))), slots),
    )

-- /\[([^\]\n]{1,300})\]\(([^)\s]{1,2000})\)/
unfoldable pub find_link : Slots → Option ℕ → Text → Option (ℕ × (Text × Slots))
unfolding is_link draw_link
find_link slots prev [] = none
find_link slots prev (c ∷ t) = if is_link c t then draw_link slots (label_of t) (url_of t) else none

unfoldable pub in_auto : ℕ → Bool
unfolding in_url
in_auto c = in_url c && not (c == 0)

-- The longest start that ends with a character that may end an address.
unfoldable pub auto_run : Text → Text
unfolding in_auto
auto_run [] = []
auto_run (c ∷ t) = elim (in_auto c) [
  | false ↦ []
  | true ↦ elim (auto_run t) [
    | [] ↦ if any (λ k. c == k) (codes ".,;:!?)") then [] else c ∷ []
    | ◌∷◌ d ds ↦ c ∷ d ∷ ds
  ]
]

-- What is behind a prefix, in small letters as it is written.
unfoldable pub behind : Text → Text → Option Text
behind [] t = some t
behind (p ∷ ps) [] = none
behind (p ∷ ps) (c ∷ t) = if c == p then behind ps t else none

unfoldable pub auto_with : Text → Text → Slots → Option (ℕ × (Text × Slots))
unfolding auto_run behind stash link
auto_with prefix s slots = elim (behind prefix s) [
  | none ↦ none
  | some t ↦
      let url = prefix ++ auto_run t in
      if leb 2 (length (auto_run t))
      then stash (length url - 1) (link url (esc url)) slots
      else none
]

unfoldable pub is_bound : Option ℕ → Bool
unfolding is_word
is_bound none = true
is_bound (some c) = not (is_word c)

-- /\bhttps?:\/\/[^\s<>"'\u0000]+[^\s<>"'.,;:!?)\u0000]/
unfoldable pub find_auto : Slots → Option ℕ → Text → Option (ℕ × (Text × Slots))
unfolding auto_with is_bound
find_auto slots prev s =
    if is_bound prev
    then elim (auto_with (codes "https://") s slots) [
      | none ↦ auto_with (codes "http://") s slots
      | some found ↦ some found
    ]
    else none

-- `slots[Number(i)]` as a text.
unfoldable pub slot : ℕ → Slots → Text
slot n slots = elim (get_elem? slots n) [ none ↦ codes "undefined" | some html ↦ html ]

-- /\u0000(\d+)\u0000/
unfoldable pub find_place : Slots → No → Option ℕ → Text → Option (ℕ × (Text × No))
unfolding run_of after starts slot number is_digit
find_place slots s prev [] = none
find_place slots s prev (c ∷ t) =
    let ds = run_of is_digit t in
    if c == 0 && (leb 1 (length ds) && starts (λ k. k == 0) (after (length ds) t))
    then some (length ds + 1, (slot (number 0 ds) slots, tt))
    else none

unfoldable pub inline : Text → Text
unfolding replace_with find_code find_link find_auto find_place pass
inline text =
    let coded = replace_with find_code zero none [] text in
    let linked = replace_with find_link zero none coded.1 coded.0 in
    let done = replace_with find_auto zero none linked.1 linked.0 in
    pass (find_place done.1) (format (esc done.0))
