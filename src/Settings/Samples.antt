-- ===== src/Settings/Samples.antt =====
-- Settings, and runs of the operations on them.
use sni_shaper_linux.Prelude.{
  ◌≡◌, refl, false, Option, none, some, inl, inr, ◌++◌, ◌∷◌, if◌then◌else◌,
}
use sni_shaper_linux.Text.{is_empty, Bytes, codes, str_eq}
use sni_shaper_linux.Settings.{
  Settings, Coding, settings_config, theme_to, new_settings, missing, holds, load_settings_config,
  server_config, updated, update,
}
use sni_shaper_linux.Settings.Reload.{normal, load_settings_config-update}

abbrev no_error : Bytes → Option Bytes
no_error text = none

abbrev after : Settings
after = updated false (server_config (codes "h") (codes "key")) new_settings

-- A coding that knows one configuration.
abbrev json : Coding
json = record {
  encode = λ c. c.server_host ++ b' ' ∷ c.server_auth;
  decode = λ text.
      if str_eq text (codes "h key") then inr (settings_config false after) else inl (codes "json");
}

-- A first start writes the default ports.
first_start :
    (load_settings_config false json no_error missing new_settings).settings.listen_port
    ≡ codes "8080"
unfolding load_settings_config is_empty
first_start = refl

-- A write that fails leaves no file.
not_written :
    (update false json (λ text. some (codes "full")) (theme_to (codes "dark")) new_settings).file
    ≡ none
unfolding update
not_written = refl

decodes :
    json.decode (json.encode (settings_config false after)) ≡ inr (settings_config false after)
unfolding str_eq settings_config updated
decodes = refl

load_settings_config-update_example :
    let set = update false json no_error (server_config (codes "h") (codes "key")) new_settings in
    (set.error ≡ none)
    × (set.settings ≡ after)
    × ((text : Bytes) × ((set.file ≡ some text)
          × ((load_settings_config false json no_error (holds text) new_settings).settings
              ≡ normal false after)))
load_settings_config-update_example =
    load_settings_config-update false json no_error (server_config (codes "h") (codes "key"))
      new_settings new_settings decodes refl
