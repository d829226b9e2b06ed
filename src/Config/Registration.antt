-- ===== src/Config/Registration.antt =====
-- The requests that register a host: notifications/internal/agent/register.go. The body of a request and
-- the server are parameters.
pub mod Tokens
use Prim.Native.String.{◌++◌}
use nova_codex_bootstrap.Prelude.{
  ℕ, ◌≡◌, refl, ap, ◌⊎◌, inl, inr, String, Bool, true, false, not, ◌&&◌, ◌||◌, Option, none, some,
  ltb, leb, ◌==◌, arith, is_empty, str_eq, if◌then◌else◌, Bool-cases, Option-cases,
}
use nova_codex_bootstrap.Protocol.Event.{Time}
use nova_codex_bootstrap.Config.Endpoint.{Url, NetLib, trim_slashes, parse_notification_endpoint}
use nova_codex_bootstrap.Config.Files.{KeyLib}
use nova_codex_bootstrap.Signing.{SignLib, sign}

-- A POST request with its headers; the timestamp is decimal text.
pub record Post (Body : Type 0) : Type 0 where
  pub url : String
  pub timestamp : Time
  pub signature : String
  pub bearer : Option String
  pub body : Body

-- What the request for a token is answered: a status, the length of the body up to 4097 bytes (`none` if it
-- cannot be read), and the token and its expiry, if the body decodes to them and nothing else.
pub record Reply : Type 0 where
  pub status : ℕ
  pub size : Option ℕ
  pub decoded : Option (String × Time)

-- How a request ends: it fails, the server refuses it, or it is answered.
pub data Outcome (A : Type 0) : Type 0 where
  failed : Outcome A
  rejected : ℕ → Outcome A
  answered : A → Outcome A

-- What registration meets: json.Marshal of a RegisterRequest, the public key of a key in base64, the
-- length of a token that base64.RawURLEncoding decodes, and the server, `none` if no response comes.
pub record Registrar (Key Body : Type 0) : Type 0 where
  pub net : NetLib
  pub keys : KeyLib Key
  pub signing : SignLib Key Body
  pub public : Key → String
  pub marshal : (host_id public_key agent_version : String) → Body
  pub decoded_size : String → Option ℕ
  pub respond : Post Body → Option Reply

abbrev is_size : Option ℕ → ℕ → Bool
is_size none n = false
is_size (some m) n = m == n

abbrev fits : Option ℕ → Bool
fits none = false
fits (some m) = leb m 4096

abbrev pub is_success : ℕ → Bool
is_success status = leb 200 status && ltb status 300

-- registrationSignatureID and hostEnrollmentIntentSignatureID
abbrev pub registration_signature_id : String → String
registration_signature_id host = "host-registration:" ++ host

abbrev pub host_enrollment_intent_signature_id : String → String
host_enrollment_intent_signature_id host = "host-enrollment-intent:" ++ host

module _ {Key Body : Type 0} (r : Registrar Key Body) where
  -- validEnrollmentToken
  unfoldable pub valid_enrollment_token : String → Bool
  valid_enrollment_token token = is_size (r.decoded_size token) 32

  -- registrationBody; `none` is an error
  unfoldable pub registration_body : String → Key → String → Option Body
  registration_body host key version =
      if r.keys.size key == 64 then some (r.marshal host (r.public key) version) else none

  -- signedEnrollmentRequest
  unfoldable pub signed_enrollment_request : String → Body → String → Key → Time → Post Body
  signed_enrollment_request url body id key now = record {
    url = url;
    timestamp = now;
    signature = sign r.signing key now id body;
    bearer = none;
    body = body;
  }

  abbrev pub at_path : Url → String → String
  at_path base path = r.net.to_string (record base { path = trim_slashes base.path ++ path })

  valid_token : Time → Option (String × Time) → Outcome String
  unfolding valid_enrollment_token
  valid_token now none = failed
  valid_token now (some (token, expires)) =
      if valid_enrollment_token token && ltb now expires then answered token else failed

  token_from : Time → Option Reply → Outcome String
  unfolding valid_token
  token_from now none = failed
  token_from now (some reply) =
      if not (is_success reply.status)
      then rejected reply.status
      else if fits reply.size
      then valid_token now reply.decoded
      else failed

  intent_post : String → Key → Time → Body → Url → Post Body
  unfolding signed_enrollment_request
  intent_post host key now body base =
      signed_enrollment_request (at_path base "/v1/hosts/enrollment-intents") body
        (host_enrollment_intent_signature_id host) key now

  ask : String → Key → Time → Option Body → Option Url → Outcome String × Option (Post Body)
  unfolding intent_post token_from
  ask host key now (some body) (some base) =
      let post = intent_post host key now body base in (token_from now (r.respond post), some post)
  ask host key now _ _ = (failed, none)

  -- RequestHostEnrollmentToken: the outcome, and the request, if one is sent
  unfoldable pub request_host_enrollment_token :
      String → String → Key → String → Time → Outcome String × Option (Post Body)
  unfolding ask registration_body
  request_host_enrollment_token endpoint host key version now =
      ask host key now (registration_body host key version)
        (parse_notification_endpoint r.net endpoint)

  registered_from : Option Reply → Outcome Bool
  registered_from none = failed
  registered_from (some reply) =
      if is_success reply.status then answered true else rejected reply.status

  register_post : String → String → Key → Time → Body → Url → Post Body
  unfolding signed_enrollment_request
  register_post token host key now body base =
      record (signed_enrollment_request (at_path base "/v1/hosts/register") body
        (registration_signature_id host) key now) { bearer = some token }

  send : String → String → Key → Time → Option Body → Option Url → Outcome Bool × Option (Post Body)
  unfolding register_post registered_from
  send token host key now (some body) (some base) =
      let post = register_post token host key now body base in
      (registered_from (r.respond post), some post)
  send token host key now _ _ = (failed, none)

  -- RegisterHost: `answered true` is a nil error
  unfoldable pub register_host :
      String → String → String → Key → String → Time → Outcome Bool × Option (Post Body)
  unfolding send registration_body valid_enrollment_token
  register_host endpoint token host key version now =
      if valid_enrollment_token token
      then send token host key now (registration_body host key version)
          (parse_notification_endpoint r.net endpoint)
      else (failed, none)
