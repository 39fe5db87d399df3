-- ===== src/Proxy/HtmlEscape.antt =====
-- proxy/utils/html-escape.util.ts: what is put into the pages that block or warn.
pub mod Rendered
pub mod Pages
pub mod Templates
mod Examples
use guard_me.Prelude.{ℕ, Bool, List, [], ◌∷◌, ◌++◌, nat_beq, if◌then◌else◌}
use guard_me.Text.{Text, text}

-- The entity of a code unit: those of & < > " and ' are 38, 60, 62, 34 and 39.
unfoldable pub html_escape_map : ℕ → Text
html_escape_map c =
    if nat_beq c 38
    then text "&amp;"
    else if nat_beq c 60
    then text "&lt;"
    else if nat_beq c 62
    then text "&gt;"
    else if nat_beq c 34
    then text "&quot;"
    else if nat_beq c 39
    then text "&#39;"
    else c ∷ []

unfoldable pub escape_html : Text → Text
unfolding html_escape_map
escape_html [] = []
escape_html (c ∷ value) = html_escape_map c ++ escape_html value
