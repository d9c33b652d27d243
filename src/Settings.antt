-- ===== src/Settings.antt =====
-- proxy/proxy.go: the settings of the rule manager, their file, and the operations on them. A value that an
-- operation only returns is a field. The operating system and package json are outside: what reading the
-- file comes to, the error of writing it, and the coding of a configuration are parameters.
pub mod Reload
mod Samples
use sni_shaper_linux.Prelude.{
  Bool, true, false, Option, none, some, List, [], if◌then◌else◌, ◌⊎◌, inl, inr, ℤ, pos, negsuc,
  ◌==◌,
}
use sni_shaper_linux.Text.{Bytes, codes, is_empty}
use sni_shaper_linux.Auto.Router.{
  AutoRoutingConfig, AutoRouter, update_config, GfwListStatus, get_status,
}

pub record TunConfig : Type 0 where
  pub enabled : Bool
  pub mtu : ℤ
  pub dns_hijack : Bool
  pub auto_route : Bool
  pub strict_route : Bool

pub record CloudflareConfig : Type 0 where
  pub preferred_ips : List Bytes
  pub auto_update : Bool
  pub api_key : Bytes

-- What the rule manager keeps of the settings.
pub record Settings : Type 0 where
  pub listen_port : Bytes
  pub socks5_port : Bytes
  pub socks5_enabled : Bool
  pub server_host : Bytes
  pub server_auth : Bytes
  pub close_to_tray : Bool
  pub auto_start : Bool
  pub show_main_on_auto_start : Bool
  pub auto_enable_proxy_on_auto_start : Bool
  pub cloudflare_config : CloudflareConfig
  pub tun_config : TunConfig
  pub auto_routing_config : AutoRoutingConfig
  pub language : Bytes
  pub theme : Bytes

-- The file. A `nil` pointer is `none`.
pub record SettingsConfig : Type 0 where
  pub listen_port : Bytes
  pub socks5_port : Bytes
  pub socks5_enabled : Option Bool
  pub server_host : Bytes
  pub server_auth : Bytes
  pub close_to_tray : Option Bool
  pub auto_start : Option Bool
  pub show_main_window_on_auto_start : Option Bool
  pub auto_enable_proxy_on_auto_start : Option Bool
  pub cloudflare_config : CloudflareConfig
  pub tun : TunConfig
  pub auto_routing : AutoRoutingConfig
  pub language : Bytes
  pub theme : Bytes

-- `NewRuleManager`
abbrev pub new_settings : Settings
new_settings = record {
  listen_port = [];
  socks5_port = [];
  socks5_enabled = false;
  server_host = [];
  server_auth = [];
  close_to_tray = true;
  auto_start = false;
  show_main_on_auto_start = true;
  auto_enable_proxy_on_auto_start = false;
  cloudflare_config = record { preferred_ips = []; auto_update = false; api_key = [] };
  tun_config = record {
    enabled = false;
    mtu = pos 0;
    dns_hijack = false;
    auto_route = false;
    strict_route = false;
  };
  auto_routing_config = record { mode = []; gfw_list_url = []; last_update = [] };
  language = codes "zh";
  theme = codes "dark";
}

abbrev pub normal_mtu : ℤ → ℤ
normal_mtu (negsuc n) = pos 9000
normal_mtu (pos n) = if n == 0 then pos 9000 else pos n

-- `windows` is the test of `runtime.GOOS`.
unfoldable pub normalize_tun_config : Bool → TunConfig → TunConfig
normalize_tun_config windows cfg = record cfg {
  mtu = normal_mtu cfg.mtu;
  strict_route = if windows then false else cfg.strict_route;
}

abbrev pub or_default : Bytes → Bytes → Bytes
or_default default value = if is_empty value then default else value

unfoldable pub apply_settings_defaults : Bool → Settings → Settings
unfolding normalize_tun_config
apply_settings_defaults windows s = record s {
  listen_port = or_default (codes "8080") s.listen_port;
  tun_config = normalize_tun_config windows s.tun_config;
}

-- What `saveSettingsConfig` writes.
unfoldable pub settings_config : Bool → Settings → SettingsConfig
unfolding normalize_tun_config
settings_config windows s = record {
  listen_port = or_default (codes "8080") s.listen_port;
  socks5_port = or_default (codes "8081") s.socks5_port;
  socks5_enabled = some s.socks5_enabled;
  server_host = s.server_host;
  server_auth = s.server_auth;
  close_to_tray = some s.close_to_tray;
  auto_start = some s.auto_start;
  show_main_window_on_auto_start = some s.show_main_on_auto_start;
  auto_enable_proxy_on_auto_start = some s.auto_enable_proxy_on_auto_start;
  cloudflare_config = s.cloudflare_config;
  tun = normalize_tun_config windows s.tun_config;
  auto_routing = s.auto_routing_config;
  language = s.language;
  theme = s.theme;
}

abbrev pub given : Bool → Option Bool → Bool
given default none = default
given default (some b) = b

-- The settings under a file that was read and decoded.
unfoldable pub apply_config : Bool → SettingsConfig → Settings → Settings
unfolding apply_settings_defaults
apply_config windows c s = apply_settings_defaults windows (record s {
  close_to_tray = given true c.close_to_tray;
  auto_start = given false c.auto_start;
  show_main_on_auto_start = given true c.show_main_window_on_auto_start;
  auto_enable_proxy_on_auto_start = given false c.auto_enable_proxy_on_auto_start;
  cloudflare_config = c.cloudflare_config;
  tun_config = c.tun;
  server_host = c.server_host;
  server_auth = c.server_auth;
  listen_port = or_default s.listen_port c.listen_port;
  socks5_port = or_default s.socks5_port c.socks5_port;
  auto_routing_config = c.auto_routing;
  language = c.language;
  theme = c.theme;
  socks5_enabled = given s.socks5_enabled c.socks5_enabled;
})

-- A file that is not there; an error of reading it; what it holds.
pub data FileRead (A : Type 0) : Type 0 where
  missing : FileRead A
  failed : Bytes → FileRead A
  holds : A → FileRead A

-- What package json makes of a configuration, and of a text: an error, or a configuration.
pub record Coding : Type 0 where
  pub encode : SettingsConfig → Bytes
  pub decode : Bytes → Bytes ⊎ SettingsConfig

-- The settings that are left, the text that is written to the file if any, and the error if any.
pub record Saved : Type 0 where
  pub settings : Settings
  pub file : Option Bytes
  pub error : Option Bytes

-- By the error of making the folder or of writing the file.
abbrev pub saved : Bytes → Option Bytes → Settings → Saved
saved text none s = record { settings = s; file = some text; error = none }
saved text (some e) s = record { settings = s; file = none; error = some e }

-- `write` gives the error of writing a text. Behind a write others are told of it.
unfoldable pub save_settings : Bool → Coding → (Bytes → Option Bytes) → Settings → Saved
unfolding settings_config
save_settings windows json write s =
    let text = json.encode (settings_config windows s) in saved text (write text) s

unfoldable pub save_default_settings_config :
    Bool → Coding → (Bytes → Option Bytes) → Settings → Saved
unfolding apply_settings_defaults save_settings
save_default_settings_config windows json write s = save_settings windows json write (
    apply_settings_defaults windows (record s {
      close_to_tray = true;
      auto_start = false;
      show_main_on_auto_start = true;
      auto_enable_proxy_on_auto_start = false;
    }))

-- By what the text is decoded to.
abbrev pub loaded : Bool → Settings → Bytes ⊎ SettingsConfig → Saved
loaded windows s (inl e) = record { settings = s; file = none; error = some e }
loaded windows s (inr c) = record { settings = apply_config windows c s; file = none; error = none }

unfoldable pub load_settings_config :
    Bool → Coding → (Bytes → Option Bytes) → FileRead Bytes → Settings → Saved
unfolding save_default_settings_config apply_config
load_settings_config windows json write missing s =
    save_default_settings_config windows json write s
load_settings_config windows json write (failed e) s = record {
  settings = s;
  file = none;
  error = some e;
}
load_settings_config windows json write (holds text) s = loaded windows s (json.decode text)

-- The setters that write the file.
pub data Update : Type 0 where
  server_config : Bytes → Bytes → Update
  close_to_tray_to auto_start_to show_main_to auto_enable_proxy_to : Bool → Update
  language_to theme_to : Bytes → Update
  cloudflare_to : CloudflareConfig → Update
  tun_to : TunConfig → Update
  auto_routing_to : AutoRoutingConfig → Update

unfoldable pub updated : Bool → Update → Settings → Settings
unfolding normalize_tun_config
updated windows (server_config host auth) s = record s { server_host = host; server_auth = auth }
updated windows (close_to_tray_to b) s = record s { close_to_tray = b }
updated windows (auto_start_to b) s = record s { auto_start = b }
updated windows (show_main_to b) s = record s { show_main_on_auto_start = b }
updated windows (auto_enable_proxy_to b) s = record s { auto_enable_proxy_on_auto_start = b }
updated windows (language_to lang) s = record s { language = lang }
updated windows (theme_to theme) s = record s { theme = theme }
updated windows (cloudflare_to cfg) s = record s { cloudflare_config = cfg }
updated windows (tun_to cfg) s = record s { tun_config = normalize_tun_config windows cfg }
updated windows (auto_routing_to cfg) s = record s { auto_routing_config = cfg }

unfoldable pub update : Bool → Coding → (Bytes → Option Bytes) → Update → Settings → Saved
unfolding updated save_settings
update windows json write u s = save_settings windows json write (updated windows u s)

-- The setters that leave the file alone.
unfoldable pub set_listen_port : Bytes → Settings → Settings
set_listen_port port s = record s { listen_port = port }

unfoldable pub set_socks5_enabled : Bool → Settings → Settings
set_socks5_enabled b s = record s { socks5_enabled = b }

unfoldable pub set_socks5_port : Bytes → Settings → Settings
set_socks5_port port s = record s { socks5_port = port }

unfoldable pub get_theme : Settings → Bytes
get_theme s = or_default (codes "dark") s.theme

unfoldable pub get_tun_config : Bool → Settings → TunConfig
unfolding normalize_tun_config
get_tun_config windows s = normalize_tun_config windows s.tun_config

-- The automatic router, if there is one, gets the configuration too.
unfoldable pub update_router : AutoRoutingConfig → Option AutoRouter → Option AutoRouter
update_router cfg none = none
update_router cfg (some ar) = some (update_config cfg ar)

unfoldable pub get_auto_routing_status : Settings → Option AutoRouter → GfwListStatus
get_auto_routing_status s none = record {
  enabled = false;
  mode = s.auto_routing_config.mode;
  domain_count = 0;
  last_update = [];
  gfw_list_url = [];
}
get_auto_routing_status s (some ar) = get_status ar
