-- ===== src/Routing/Preferences.antt =====
-- The preferences of the program and the check of its proxy (internal/routing/domain/models.go).
use coding_switch.Base.{
  Bool, true, false, not, ◌||◌, [], Option, none, some, Bytes, ◌==◌, bytes_is_eq, codes, Result, ok,
  err, if◌then◌else◌,
}
use coding_switch.Routing.Service.{AppPreferences}

abbrev default_app_preferences : AppPreferences
default_app_preferences = record {
  show_heatmap = true;
  show_home_title = true;
  proxy_enabled = false;
  proxy_url = [];
}

-- `unreadable` is an error of `url.Parse`.
data ProxyUrlError : Type 0 where
  unreadable : ProxyUrlError
  unsupported_scheme : Bytes → ProxyUrlError
  no_host : ProxyUrlError

abbrev is_proxy_scheme : Bytes → Bool
is_proxy_scheme s =
    s == codes "http" || (s == codes "https" || (s == codes "socks5" || s == codes "socks5h"))

abbrev check_parsed : Option (Bytes × Bytes) → Result ProxyUrlError (Unit {0})
check_parsed none = err unreadable
check_parsed (some (scheme, host)) =
    if not (is_proxy_scheme scheme)
    then err (unsupported_scheme scheme)
    else if host == []
    then err no_host
    else ok tt

-- `ValidateProxyURL`; `url.Parse` is the argument, with the scheme and the host of its answer.
abbrev validate_proxy_url :
    (Bytes → Option (Bytes × Bytes)) → Bytes → Result ProxyUrlError (Unit {0})
validate_proxy_url parse_url raw = if raw == [] then ok tt else check_parsed (parse_url raw)
