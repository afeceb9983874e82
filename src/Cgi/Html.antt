-- ===== src/Cgi/Html.antt =====
-- src/cgi/cgi_config.c: what the pages are made of. A page is the list of what each `printf` writes; `printf` of
-- src/oabi/minilib.c formats into 512 bytes and writes what they hold. `html_escape` writes a
-- character at a time; its text stands here as one.
use sn.Base.{ℕ, ◌==◌, Bool, List, [], ◌∷◌, ◌++◌, codes, if◌then◌else◌}
use sn.Text.Format.{Arg, text, snprintf}

-- What `printf(fmt, ...)` writes.
abbrev pub printf : List ℕ → List Arg → List ℕ
printf fmt args = snprintf 512 fmt args

-- The entity of a character, or the character.
abbrev pub entity : ℕ → List ℕ
entity c =
    if c == 38
    then codes "&amp;"
    else if c == 60
    then codes "&lt;"
    else if c == 62
    then codes "&gt;"
    else if c == 34
    then codes "&quot;"
    else if c == 39
    then codes "&#39;"
    else c ∷ []

unfoldable pub html_escape : List ℕ → List ℕ
html_escape [] = []
html_escape (c ∷ s) = entity c ++ html_escape s

-- `test ? " checked" : ""`
abbrev pub checked : Bool → Arg
checked b = text (if b then codes " checked" else [])

unfoldable pub emit_css : List (List ℕ)
emit_css =
    printf (codes "<style>\n") []
    ∷ printf (codes "*{box-sizing:border-box;margin:0;padding:0}\n") []
    ∷ printf
        (codes
          "body{font-family:-apple-system,sans-serif;background:#1a1a2e;color:#e0e0e0;padding:0}\n")
        []
    ∷ printf
        (codes
          ".header{background:#16213e;padding:14px 24px;border-bottom:2px solid #0f3460;display:flex;justify-content:space-between;align-items:center}\n")
        []
    ∷ printf (codes ".header h1{font-size:1.3em;color:#e94560;font-weight:600}\n") []
    ∷ printf (codes ".mac{font-family:'Courier New',monospace;color:#8a8a9a;font-size:0.95em}\n") []
    ∷ printf (codes "form{max-width:560px;margin:20px auto;padding:0 16px}\n") []
    ∷ printf
        (codes
          "fieldset{border:1px solid #2a2a4a;border-radius:6px;padding:14px 16px;margin-bottom:16px;background:#16213e}\n")
        []
    ∷ printf (codes "legend{color:#e94560;font-weight:600;padding:0 8px;font-size:0.95em}\n") []
    ∷ printf (codes ".row{display:flex;align-items:center;margin:8px 0}\n") []
    ∷ printf
        (codes
          ".row label{width:130px;text-align:right;padding-right:12px;font-size:0.9em;color:#b0b0c0;flex-shrink:0}\n")
        []
    ∷ printf
        (codes
          ".row input[type=text],.row input[type=number]{flex:1;padding:6px 8px;border:1px solid #2a2a4a;border-radius:4px;background:#0f0f23;color:#e0e0e0;font-size:0.9em}\n")
        []
    ∷ printf (codes ".radio-group{display:flex;gap:16px;flex:1}\n") []
    ∷ printf
        (codes ".radio-group label{width:auto;text-align:left;padding-right:0;cursor:pointer}\n") []
    ∷ printf (codes ".note{font-size:0.8em;color:#7a7a8a;margin:4px 0 4px 142px}\n") []
    ∷ printf
        (codes
          "input[type=submit]{display:block;width:100%%;padding:10px;margin:8px auto 24px;background:#e94560;color:#fff;border:none;border-radius:6px;font-size:1em;font-weight:600;cursor:pointer}\n")
        []
    ∷ printf (codes "input[type=submit]:hover{background:#c73650}\n") []
    ∷ printf (codes "a{color:#e94560}\n") []
    ∷ printf
        (codes "input[readonly]{opacity:0.45;border-color:#1a1a2e !important;cursor:default}\n") []
    ∷ printf (codes "</style>\n") []
    ∷ []
