-- ===== src/Settings/Reload.antt =====
-- What is saved is what is loaded again.
use sni_shaper_linux.Prelude.{
  ◌≡◌, refl, ap, ◌∙◌, Bool, true, false, Option, some, ℤ, pos, negsuc, ◌==◌, if◌then◌else◌, arith,
  Bool-cases, inl, inr, none,
}
use sni_shaper_linux.Text.{Bytes, codes, is_empty}
use sni_shaper_linux.Settings.{
  TunConfig, Coding, saved, loaded, Settings, normal_mtu, normalize_tun_config, or_default,
  apply_settings_defaults, settings_config, apply_config, holds, load_settings_config, Update,
  updated, update,
}

-- The settings with the default ports, and the normal configuration of TUN.
abbrev pub normal : Bool → Settings → Settings
normal windows s = record s {
  listen_port = or_default (codes "8080") s.listen_port;
  socks5_port = or_default (codes "8081") s.socks5_port;
  tun_config = normalize_tun_config windows s.tun_config;
}

or_default_lem :
    (a b v : Bytes) → is_empty a ≡ false → or_default b (or_default a v) ≡ or_default a v
unfolding is_empty
or_default_lem a b v h = ground arith

normal_mtu_again : (z : ℤ) → normal_mtu (normal_mtu z) ≡ normal_mtu z
normal_mtu_again (negsuc n) = refl
normal_mtu_again (pos n) = elim (Bool-cases (n == 0)) [
  | inl e ↦ rw (e, normal_mtu) refl
  | inr e ↦ rw (e, normal_mtu) (rw e refl)
]

strict_again :
    (windows strict : Bool)
    → (if windows then false else (if windows then false else strict))
      ≡ (if windows then false else strict)
strict_again true strict = refl
strict_again false strict = refl

normalize_tun_config_again :
    (windows : Bool) (t : TunConfig)
    → normalize_tun_config windows (normalize_tun_config windows t) ≡ normalize_tun_config windows t
unfolding normalize_tun_config
normalize_tun_config_again windows t =
    ap
      (λ z. record t {
        mtu = z;
        strict_route = if windows then false else (if windows then false else t.strict_route);
      })
      (normal_mtu_again t.mtu)
    ∙ ap (λ b. record t { mtu = normal_mtu t.mtu; strict_route = b })
        (strict_again windows t.strict_route)

load-settings_config :
    (windows : Bool) (s fresh : Settings)
    → apply_config windows (settings_config windows s) fresh ≡ normal windows s
unfolding apply_config apply_settings_defaults settings_config is_empty
load-settings_config windows s fresh =
    let with_parts : Bytes → Bytes → TunConfig → Settings =
      λ l k t. record s { listen_port = l; socks5_port = k; tun_config = t } in
    let port : Bytes = or_default (codes "8080") s.listen_port in
    let socks : Bytes = or_default (codes "8081") s.socks5_port in
    let tun = normalize_tun_config windows s.tun_config in
    let kept = or_default_lem (codes "8080") fresh.listen_port s.listen_port refl in
    let kept_again = or_default_lem (codes "8080") (codes "8080") s.listen_port refl in
    ap (λ l. with_parts l (or_default fresh.socks5_port socks) (normalize_tun_config windows tun))
      (ap (or_default (codes "8080")) kept ∙ kept_again)
    ∙ ap (λ k. with_parts port k (normalize_tun_config windows tun))
        (or_default_lem (codes "8081") fresh.socks5_port s.socks5_port refl)
    ∙ ap (with_parts port socks) (normalize_tun_config_again windows s.tun_config)

-- What `save_settings` comes to where the text is written.
saved_lem :
    (text : Bytes) (o : Option Bytes) (s : Settings)
    → o ≡ none
    → saved text o s ≡ record { settings = s; file = some text; error = none }
saved_lem text none s e = refl
saved_lem text (some x) s e = ground arith

-- Whatever an operation changes, where the file is written and package json decodes what it encoded of
-- this configuration: there is no error, the settings that the operation left stand, the file holds a
-- text, and a manager that reads it, whatever its settings were before, has the settings that the
-- operation left, with the default ports where there are none, and a normal configuration of TUN.
pub load_settings_config-update :
    (windows : Bool) (json : Coding) (write : Bytes → Option Bytes) (u : Update)
    (s fresh : Settings)
    → let c = settings_config windows (updated windows u s) in
      json.decode (json.encode c) ≡ inr c
      → write (json.encode c) ≡ none
      → ((update windows json write u s).error ≡ none)
        × ((update windows json write u s).settings ≡ updated windows u s)
        × ((text : Bytes) × (((update windows json write u s).file ≡ some text)
              × ((load_settings_config windows json write (holds text) fresh).settings
                  ≡ normal windows (updated windows u s))))
unfolding update load_settings_config
load_settings_config-update windows json write u s fresh decodes writes =
    let s' = updated windows u s in
    let text = json.encode (settings_config windows s') in
    let e = saved_lem text (write text) s' writes in
    (
      ap (λ r. r.error) e,
      ap (λ r. r.settings) e,
      (
        text,
        (
          ap (λ r. r.file) e,
          ap (λ d. (loaded windows fresh d).settings) decodes
              ∙ load-settings_config windows s' fresh,
        ),
      ),
    )
