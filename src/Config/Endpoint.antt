-- ===== src/Config/Endpoint.antt =====
-- parseNotificationEndpoint of notifications/internal/agent/register.go.
use Prim.Native.Char.{code}
use nova_codex_bootstrap.Prelude.{
  String, Bool, true, false, not, ◌&&◌, ◌||◌, Option, none, some, ◌==◌, ◌≡◌, ◌⊎◌, arith, str_eq,
  is_empty, eq_iff, if◌then◌else◌,
}

-- What the code reads of a url.URL.
pub record Url : Type 0 where
  pub scheme : String
  pub host : String
  pub hostname : String
  pub path : String
  pub fragment : String
  pub has_user : Bool

-- Functions of net/url, net and strings: url.Parse, URL.String, `net.ParseIP(host) is a loopback
-- address`, strings.ToLower, and strings.EqualFold.
pub record NetLib : Type 0 where
  pub parse : String → Option Url
  pub to_string : Url → String
  pub is_loopback : String → Bool
  pub to_lower : String → String
  pub equal_fold : String → String → Bool

-- strings.TrimRight(s, "/")
unfoldable pub trim_slashes : String → String
trim_slashes String.[] = String.[]
trim_slashes (String.◌∷◌ c s) =
    let rest = trim_slashes s in
    if is_empty rest && code c == b'/' then String.[] else String.◌∷◌ c rest

-- strings.TrimSuffix(s, ".")
unfoldable pub trim_dot : String → String
trim_dot String.[] = String.[]
trim_dot (String.◌∷◌ c s) =
    let rest = trim_dot s in if is_empty s && code c == b'.' then String.[] else String.◌∷◌ c rest

module _ (net : NetLib) where
  check_scheme : Url → Option Url
  check_scheme url =
      let scheme = net.to_lower url.scheme in
      let host = trim_dot url.hostname in
      if str_eq scheme "https"
      then some url
      else if str_eq scheme "http"
      then (if net.equal_fold host "localhost" || net.is_loopback host then some url else none)
      else none

  check_url : Option Url → Option Url
  unfolding check_scheme
  check_url none = none
  check_url (some url) =
      if is_empty url.host || url.has_user || not (is_empty url.fragment)
      then none
      else check_scheme url

  unfoldable pub parse_notification_endpoint : String → Option Url
  unfolding check_url
  parse_notification_endpoint raw = check_url (net.parse raw)

  -- What an accepted endpoint is.
  pub record IsSafe (url : Url) : Type 0 where
    pub has_host : is_empty url.host ≡ false
    pub no_user : url.has_user ≡ false
    pub no_fragment : url.fragment ≡ ""
    pub private_or_https :
        (net.to_lower url.scheme ≡ "https")
        ⊎ ((net.to_lower url.scheme ≡ "http")
            × ((net.equal_fold (trim_dot url.hostname) "localhost" ≡ true)
                ⊎ (net.is_loopback (trim_dot url.hostname) ≡ true)))

  check_url-IsSafe : (o : Option Url) (url : Url) → check_url o ≡ some url → IsSafe url
  unfolding check_url
  check_url-IsSafe none url h = cc
  check_url-IsSafe (some u) url h = record {
    has_host = ground arith;
    no_user = ground arith;
    no_fragment = ground (arith, eq_iff url.fragment "");
    private_or_https =
        ground (
          arith,
          eq_iff (net.to_lower url.scheme) "https",
          eq_iff (net.to_lower url.scheme) "http",
        );
  }

  -- An endpoint that is accepted has a host, no user information and no fragment, and is HTTPS, or
  -- HTTP to localhost or to a loopback address.
  pub parse_notification_endpoint-IsSafe :
      (raw : String) (url : Url) → parse_notification_endpoint raw ≡ some url → IsSafe url
  unfolding parse_notification_endpoint
  parse_notification_endpoint-IsSafe raw url h = check_url-IsSafe (net.parse raw) url h
