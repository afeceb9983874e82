-- ===== src/Cgi/Request/Effect.antt =====
-- src/cgi/cgi_config.c: what a request shows and what a POST leaves in the configuration file.
use sn.Base.{
  ◌≡◌, refl, inl, inr, ℕ, Bool, true, Option, none, some, List, codes, if◌then◌else◌, Bool-cases,
  Array, memcmp, success, is_zero, ℤ,
}
use sn.Common.{NodeConfig}
use sn.Text.{streq}
use sn.Config.{config_load, config_defaults}
use sn.Config.Valid.{IsValid, config_load-IsValid, config_defaults-IsValid}
use sn.Config.Save.Merge.{IsSavable}
use sn.Config.Save.RoundTrip.{Restored, IsWholeFile, config_load-config_save}
use sn.Cgi.Valid.{parse_formdata-IsValid}
use sn.Cgi.Page.{emit_html_form, saved_page, page_text}
use sn.Cgi.Page.Alike.{count, is_markup}
use sn.Cgi.Page.Markup.{count-page_text}
use sn.Cgi.Request.{
  Request, Access, Files, read_iface_mac, if_zero_mac, with_mac, variable_or, current_config,
  posted_config, write_files, main,
}

read_iface_mac-IsValid :
    (iface : Option (Array 6)) (c : NodeConfig) → IsValid c → IsValid (read_iface_mac iface c)
unfolding read_iface_mac
read_iface_mac-IsValid none c h = h
read_iface_mac-IsValid (some m) c h = record { in_range = h.in_range }

if_zero_mac-IsValid :
    (order : Option ℤ) (iface : Option (Array 6)) (c : NodeConfig)
    → IsValid c
    → IsValid (if_zero_mac order iface c)
if_zero_mac-IsValid none iface c h = h
if_zero_mac-IsValid (some order) iface c h = elim (Bool-cases (is_zero order)) [
  | inl e ↦ rw e (read_iface_mac-IsValid iface c h)
  | inr e ↦ rw e h
]

with_mac-IsValid :
    (iface : Option (Array 6)) (c : NodeConfig) → IsValid c → IsValid (with_mac iface c)
unfolding with_mac
with_mac-IsValid iface c h = if_zero_mac-IsValid (memcmp 6 c.mac 0 6 (λ _. 0) 0 6) iface c h

current_config-IsValid :
    (request : Request) (files : Files) → IsValid (current_config request files)
unfolding current_config
current_config-IsValid request files =
    with_mac-IsValid request.iface_mac _ (config_load-IsValid files.config)

posted_config-IsValid : (request : Request) (files : Files) → IsValid (posted_config request files)
unfolding posted_config
posted_config-IsValid request files =
    (parse_formdata-IsValid _ _ (current_config-IsValid request files)).0

-- Is the request a POST?
abbrev pub is_post : Request → Bool
is_post request = streq (variable_or request.method (codes "GET")) (codes "POST")

-- Whatever the configuration file, the body and the environment hold, the page that `main` prints
-- has as many of each of the characters `"`, `'`, `<` and `>` as the same page for the default
-- configuration.
pub main-markup :
    (x : ℕ) (request : Request) (access : Access) (files : Files)
    → is_markup x ≡ true
    → count x (page_text (main request access files).0) ≡ (
        if is_post request
        then count x (page_text (saved_page config_defaults))
        else count x (page_text (emit_html_form config_defaults)))
unfolding main
main-markup x request access files h = elim (Bool-cases (is_post request)) [
  | inl e ↦
      rw e
        (count-page_text x (posted_config request files) config_defaults h
          (posted_config-IsValid request files) config_defaults-IsValid).1
  | inr e ↦
      rw e
        (count-page_text x (current_config request files) config_defaults h
          (current_config-IsValid request files) config_defaults-IsValid).0
]

-- If the configuration file opens for writing, is missing or is whole lines of at most 2047 bytes
-- without a NUL byte, and the posted configuration is one that a file can hold, then after a POST the configuration
-- file gives `config_load` the posted values back.
pub main-config_load :
    (request : Request) (access : Access) (files : Files)
    → is_post request ≡ true
    → access.config ≡ true
    → IsWholeFile files.config
    → IsSavable (posted_config request files)
    → (saved : List ℕ) × ((main request access files).1.config ≡ some saved)
      × ((config_load (some saved)).0 ≡ success)
      × Restored (posted_config request files) (config_load (some saved)).1
unfolding main write_files
main-config_load request access files post opens whole savable =
    let (saved, writes, ok, same) =
      config_load-config_save (posted_config request files) files.config savable whole in
    (saved, rw (post, opens, writes) refl, ok, same)
