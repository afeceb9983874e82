-- ===== src/Cgi/Request.antt =====
-- src/cgi/cgi_config.c: `main`, on the files, the environment and the input of one request. What
-- the environment, the input and the network interface give are parameters.
pub mod Effect
mod Tests
use sn.Base.{
  ℕ, Bool, true, false, ◌&&◌, Option, none, some, List, [], take, codes, ltb, if◌then◌else◌, Array,
  memcmp, copied, ℤ, pos, negsuc, is_zero,
}
use sn.Common.{NodeConfig}
use sn.Text.{streq, atoi}
use sn.Config.{config_load}
use sn.Config.Save.{config_save, config_save_strand}
use sn.Config.Ifup.{config_generate_ifup}
use sn.Cgi.{c_string, parse_formdata}
use sn.Cgi.Page.{emit_html_form, saved_page}

-- The contents of the files at CONFIG_FILE_PATH, STRAND_CONFIG_PATH and IFUP_FILE_PATH.
pub record Files : Type 0 where
  pub config : Option (List ℕ)
  pub strand : Option (List ℕ)
  pub ifup : Option (List ℕ)

-- Which of them open for writing, and whether the second opens again.
pub record Access : Type 0 where
  pub config : Bool
  pub strand : Bool
  pub ifup : Bool
  pub strand_again : Bool

-- What the request comes with: its two variables, the address of the interface if the ioctl gives
-- it, and what `read(0, body, n)` gives.
pub record Request : Type 0 where
  pub method : Option (List ℕ)
  pub content_length : Option (List ℕ)
  pub iface_mac : Option (Array 6)
  pub input : ℕ → Option (List ℕ)

-- `read_iface_mac(cfg.mac)`
unfoldable pub read_iface_mac : Option (Array 6) → NodeConfig → NodeConfig
read_iface_mac none c = c
read_iface_mac (some m) c = record c { mac = copied c.mac 0 m 0 6 }

abbrev if_zero_mac : Option ℤ → Option (Array 6) → NodeConfig → NodeConfig
if_zero_mac none iface c = c
if_zero_mac (some order) iface c = if is_zero order then read_iface_mac iface c else c

-- The address of a configuration that has none.
unfoldable pub with_mac : Option (Array 6) → NodeConfig → NodeConfig
with_mac iface c = if_zero_mac (memcmp 6 c.mac 0 6 (λ _. 0) 0 6) iface c

abbrev variable_or : Option (List ℕ) → List ℕ → List ℕ
variable_or none s = s
variable_or (some v) s = v

abbrev body_text : ℕ → Option (List ℕ) → List ℕ
body_text n none = []
body_text n (some s) = c_string (take n s)

-- The body of a POST, in its buffer of 2048 bytes.
unfoldable pub request_body : ℤ → (ℕ → Option (List ℕ)) → List ℕ
request_body (pos n) input =
    let body = body_text n (input n) in if ltb 0 n && ltb n 2047 then body else []
request_body (negsuc n) input = []

-- A file after a write that may have failed to open it.
abbrev rewritten : Option (List ℕ) → ℤ × Option (List ℕ) → Option (List ℕ)
rewritten old (ret, none) = old
rewritten old (ret, some s) = some s

-- The three files after a POST.
unfoldable pub write_files : NodeConfig → Access → Files → Files
write_files c access files = record {
  config = rewritten files.config (config_save c files.config access.config);
  strand =
      rewritten files.strand (config_save_strand c files.strand access.strand access.strand_again);
  ifup = rewritten files.ifup (config_generate_ifup c access.ifup);
}

-- The configuration before and after the form.
unfoldable pub current_config : Request → Files → NodeConfig
current_config request files = with_mac request.iface_mac (config_load files.config).1

unfoldable pub posted_config : Request → Files → NodeConfig
posted_config request files =
    parse_formdata
      (request_body (atoi (variable_or request.content_length (codes "0"))) request.input)
      (current_config request files)

-- `main`: what is printed, and the files after it.
unfoldable pub main : Request → Access → Files → List (List ℕ) × Files
main request access files =
    if streq (variable_or request.method (codes "GET")) (codes "POST")
    then (
      saved_page (posted_config request files),
      write_files (posted_config request files) access files,
    )
    else (emit_html_form (current_config request files), files)
