-- ===== src/PlatformProxy/Address.antt =====
-- The address of the relay (internal/platformproxy/infrastructure/baseurl.go), and the tokens that
-- say that a tool was taken over (internal/platformproxy/infrastructure/claude.go).
use coding_switch.Base.{
  ◌||◌, not, ◌++◌, Bool, [], Bytes, ◌==◌, bytes_is_eq, codes, has_prefix, contains_text, trim_space,
  to_lower, if◌then◌else◌,
}

abbrev pub with_port : Bytes → Bytes
with_port host = if host == [] then codes ":18100" else host

abbrev pub with_host : Bytes → Bytes
with_host host = if has_prefix (codes ":") host then codes "127.0.0.1" ++ host else host

abbrev pub with_scheme : Bytes → Bytes
with_scheme host = if not (contains_text (codes "://") host) then codes "http://" ++ host else host

-- `normalizeRelayBaseURL`
unfoldable pub normalize_relay_base_url : Bytes → Bytes
normalize_relay_base_url addr =
    let host = with_port (trim_space addr) in
    if has_prefix (codes "http://") host || has_prefix (codes "https://") host
    then host
    else with_scheme (with_host host)

-- `strings.EqualFold`, for ASCII text.
abbrev pub equal_fold : Bytes → Bytes → Bool
equal_fold a b = to_lower a == to_lower b

abbrev pub legacy_auth_token_value : Bytes
legacy_auth_token_value = codes "code-switch"

-- `isManagedPlaceholderToken`
unfoldable pub is_managed_placeholder_token : Bytes → Bytes → Bool
is_managed_placeholder_token value current =
    equal_fold value current || equal_fold value legacy_auth_token_value
