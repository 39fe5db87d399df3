-- ===== src/Proxy/HtmlEscape/Examples.antt =====
-- A script in a URL, escaped and put into a page: proxy/utils/html-escape.util.ts and
-- proxy/utils/template-render.util.ts.
use guard_me.Prelude.{◌≡◌, refl, [], ◌∷◌, filter}
use guard_me.Text.{Text, text, ◌==◌}
use guard_me.Proxy.HtmlEscape.{html_escape_map, escape_html}
use guard_me.Proxy.HtmlEscape.Pages.{
  Variables, variable, match_word, match_placeholder, render_from, render_template,
}
use guard_me.Proxy.HtmlEscape.Templates.{is_markup, render_template-markup}

abbrev page : Text
page = text "<p>{{url}}{{}}</p>"

abbrev harmless : Variables
harmless = (text "url", text "a") ∷ []

abbrev script : Variables
script = (text "url", text "<i>") ∷ []

rendered : render_template page script ≡ text "<p>&lt;i&gt;{{}}</p>"
unfolding render_template render_from match_placeholder match_word variable escape_html
    html_escape_map text ◌==◌
rendered = refl

render_template-markup_example :
    filter is_markup (render_template page harmless)
    ≡ filter is_markup (render_template page script)
render_template-markup_example = render_template-markup page harmless script
