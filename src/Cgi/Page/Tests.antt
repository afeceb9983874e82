-- ===== src/Cgi/Page/Tests.antt =====
-- A run of the escaping.
use sn.Base.{◌≡◌, refl, codes}
use sn.Cgi.Html.{html_escape}

escapes : html_escape (codes "<b title='a&b'>\"") ≡ codes "&lt;b title=&#39;a&amp;b&#39;&gt;&quot;"
unfolding html_escape
escapes = refl
