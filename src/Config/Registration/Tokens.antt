-- ===== src/Config/Registration/Tokens.antt =====
-- Which enrollment tokens are accepted, and where the requests go
-- (notifications/internal/agent/register.go).
use nova_codex_bootstrap.Prelude.{
  ◌<◌, ◌≡◌, refl, String, true, ◌&&◌, Option, none, some, ltb, ◌==◌, arith, inl, inr, Bool-cases,
  ltb→lt,
}
use nova_codex_bootstrap.Protocol.Event.{Time}
use nova_codex_bootstrap.Config.Endpoint.{
  Url, IsSafe, parse_notification_endpoint, parse_notification_endpoint-IsSafe,
}
use nova_codex_bootstrap.Config.Registration.{
  Registrar, Post, Reply, answered, valid_enrollment_token, registration_body, valid_token,
  token_from, intent_post, ask, request_host_enrollment_token, signed_enrollment_request, at_path,
  host_enrollment_intent_signature_id, is_success,
}
use nova_codex_bootstrap.Signing.{sign}

module _ {Key Body : Type 0} (r : Registrar Key Body) where
  -- A token, with the request that it answers.
  pub record IsToken (host : String) (key : Key) (version : String) (now : Time) (token : String)
      (sent : Option (Post Body)) : Type 0 where
    pub valid : valid_enrollment_token r token ≡ true
    pub base : Url
    pub safe : IsSafe r.net base
    pub whole_key : (r.keys.size key == 64) ≡ true
    pub reply : Reply
    pub unexpired : (expires : Time) × ((reply.decoded ≡ some (token, expires)) × (now < expires))
    pub accepted : is_success reply.status ≡ true
    pub post : Post Body
    pub goes_to : post.url ≡ at_path r base "/v1/hosts/enrollment-intents"
    pub was_sent : sent ≡ some post
    pub was_answered : r.respond post ≡ some reply
    pub signed :
        post.signature
        ≡ sign r.signing key now
            (host_enrollment_intent_signature_id host)
            (r.marshal host (r.public key) version)

  -- What an answer with a token is.
  record Answer (now : Time) (token : String) (o : Option Reply) : Type 0 where
    given : Reply
    was_given : o ≡ some given
    success : is_success given.status ≡ true
    is_valid : valid_enrollment_token r token ≡ true
    lasts : (expires : Time) × ((given.decoded ≡ some (token, expires)) × (now < expires))

  valid_token-answered :
      (now : Time) (token : String) (o : Option (String × Time))
      → valid_token r now o ≡ answered token
      → (valid_enrollment_token r token ≡ true)
        × ((expires : Time) × ((o ≡ some (token, expires)) × (now < expires)))
  unfolding valid_token
  valid_token-answered now token none h = absurd (ground arith)
  valid_token-answered now token (some (t, expires)) h =
      elim (Bool-cases (valid_enrollment_token r t && ltb now expires)) [
        | inl fine ↦
            let same : t ≡ token = cc in
            (ground arith, (expires, (cc, ltb→lt now expires (ground arith))))
        | inr bad ↦ absurd (ground arith)
      ]

  token_from-Answer :
      (now : Time) (token : String) (o : Option Reply)
      → token_from r now o ≡ answered token
      → Answer now token o
  unfolding token_from
  token_from-Answer now token none h = absurd (ground arith)
  token_from-Answer now token (some reply) h = elim (Bool-cases (is_success reply.status)) [
    | inr bad ↦ absurd (ground arith)
    | inl good ↦
        let (is_valid, lasts) = valid_token-answered now token reply.decoded (ground arith) in
        record {
          given = reply;
          was_given = refl;
          success = good;
          is_valid = is_valid;
          lasts = lasts;
        }
  ]

  registration_body-some :
      (host : String) (key : Key) (version : String) (body : Body)
      → registration_body r host key version ≡ some body
      → ((r.keys.size key == 64) ≡ true) × (r.marshal host (r.public key) version ≡ body)
  unfolding registration_body
  registration_body-some host key version body h = elim (Bool-cases (r.keys.size key == 64)) [
    | inl whole ↦ (whole, ground arith)
    | inr short ↦ absurd (ground arith)
  ]

  ask-IsToken :
      (host : String) (key : Key) (version endpoint : String) (now : Time) (token : String)
      (b : Option Body) (u : Option Url)
      → registration_body r host key version ≡ b
      → parse_notification_endpoint r.net endpoint ≡ u
      → (ask r host key now b u).0 ≡ answered token
      → IsToken host key version now token (ask r host key now b u).1
  unfolding ask intent_post signed_enrollment_request
  ask-IsToken host key version endpoint now token none u hb hu h = absurd (ground arith)
  ask-IsToken host key version endpoint now token (some body) none hb hu h = absurd (ground arith)
  ask-IsToken host key version endpoint now token (some body) (some base) hb hu h =
      let sent = intent_post r host key now body base in
      let answer = token_from-Answer now token (r.respond sent) h in
      let (whole, same) = registration_body-some host key version body hb in
      record {
        valid = answer.is_valid;
        base = base;
        safe = parse_notification_endpoint-IsSafe r.net endpoint base hu;
        whole_key = whole;
        reply = answer.given;
        unexpired = answer.lasts;
        accepted = answer.success;
        post = sent;
        goes_to = refl;
        was_sent = refl;
        was_answered = answer.was_given;
        signed = rw same refl;
      }

  -- An enrollment token that is accepted is valid and unexpired and came with a success from one
  -- request, to the path of an accepted endpoint, that was signed with a whole key for the host's
  -- enrollment intent.
  pub request_host_enrollment_token-IsToken :
      (endpoint host : String) (key : Key) (version : String) (now : Time) (token : String)
      → (request_host_enrollment_token r endpoint host key version now).0 ≡ answered token
      → IsToken host key version now token
          (request_host_enrollment_token r endpoint host key version now).1
  unfolding request_host_enrollment_token
  request_host_enrollment_token-IsToken endpoint host key version now token h =
      ask-IsToken host key version endpoint now token (registration_body r host key version)
        (parse_notification_endpoint r.net endpoint) refl refl h
