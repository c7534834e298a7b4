-- ===== src/Examples/Markdown.antt =====
-- The theorem on marks at a concrete text, and what is drawn for some texts.
use cryptis_dchat_project.Prelude.{◌≡◌, refl, ◌∷◌, ◌++◌, codes}
use cryptis_dchat_project.Escape.{esc, replace}
use cryptis_dchat_project.Markdown.{
  inline, format, pass, replace_with, find_pair, find_one, find_code, find_link, find_auto,
  find_place, pair_end, one_end, is_before, wrap, starts, after, run_of, is_space, is_word,
  is_digit, in_url, in_auto, digits, number, place, stash, lower, after_prefix, is_address,
  safe_url, link, label_of, behind_label, url_of, is_link, draw_link, auto_run, behind, auto_with,
  is_bound, slot,
}
use cryptis_dchat_project.Markdown.Html.{IsHtml}
use cryptis_dchat_project.Markdown.Inert.{inline-IsHtml}

inline-IsHtml_example : IsHtml (inline (codes "**a<b>** `c` [d](javascript:e) https://f.g"))
inline-IsHtml_example = inline-IsHtml (codes "**a<b>** `c` [d](javascript:e) https://f.g")

drawn :
    inline (codes "**a<b** _c_ `*d*` [e](javascript:f)")
    ≡ codes "<strong>a&lt;b</strong> <em>c</em> <code>*d*</code> [e](javascript:f)"
unfolding inline format pass replace_with find_pair find_one find_code find_link find_auto
    find_place pair_end one_end is_before wrap starts after run_of is_space is_word is_digit in_url
    in_auto digits number place stash lower after_prefix is_address safe_url link label_of
    behind_label url_of is_link draw_link auto_run behind auto_with is_bound slot esc replace
drawn = refl

drawn_link :
    inline (codes "(http://a.b/c).")
    ≡ codes
        "(<a href=\"http://a.b/c\" target=\"_blank\" rel=\"noopener noreferrer nofollow\">http://a.b/c</a>)."
unfolding inline format pass replace_with find_pair find_one find_code find_link find_auto
    find_place pair_end one_end is_before wrap starts after run_of is_space is_word is_digit in_url
    in_auto digits number place stash lower after_prefix is_address safe_url link label_of
    behind_label url_of is_link draw_link auto_run behind auto_with is_bound slot esc replace
drawn_link = refl

-- Code in the text of a link is not drawn: the place of its slot stays.
code_in_link :
    inline (codes "[`a`](http://b)")
    ≡ codes "<a href=\"http://b\" target=\"_blank\" rel=\"noopener noreferrer nofollow\">"
      ++ (0 ∷ 48 ∷ 0 ∷ codes "</a>")
unfolding inline format pass replace_with find_pair find_one find_code find_link find_auto
    find_place pair_end one_end is_before wrap starts after run_of is_space is_word is_digit in_url
    in_auto digits number place stash lower after_prefix is_address safe_url link label_of
    behind_label url_of is_link draw_link auto_run behind auto_with is_bound slot esc replace
code_in_link = refl
