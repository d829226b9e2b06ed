-- ===== src/Signing.antt =====
-- notifications/internal/signing: the text that a request's signature is made of. The signature itself,
-- and the SHA-256 of a body in base64, are parameters.
use Prim.Native.Char.{code}
use Prim.Native.String.{◌++◌}
use text.Mathlib.TextLemmas.{cons-append, nil-append}
use nova_codex_bootstrap.Prelude.{
  ℕ, ◌≡◌, refl, sym, ap, ◌∙◌, String, Bool, true, false, not, ◌&&◌, ◌==◌, arith, if◌then◌else◌,
}
use nova_codex_bootstrap.Prelude.Decimal.{decimal, decimal-all, decimal-injective, all_digits}

-- crypto/ed25519 and base64.RawURLEncoding on a private key and a text, and the digest of a body.
pub record SignLib (Key Body : Type 0) : Type 0 where
  pub sign_text : Key → String → String
  pub digest : Body → String

module _ {Key Body : Type 0} (lib : SignLib Key Body) where
  -- Canonical
  unfoldable pub canonical : ℕ → String → Body → String
  canonical timestamp id body =
      decimal timestamp ++ String.◌∷◌ "\n" (id ++ String.◌∷◌ "\n" (lib.digest body))

  -- Sign
  unfoldable pub sign : Key → ℕ → String → Body → String
  sign key timestamp id body = lib.sign_text key (canonical timestamp id body)

-- A text without line breaks.
unfoldable pub is_one_line : String → Bool
is_one_line String.[] = true
is_one_line (String.◌∷◌ c s) = not (code c == 10) && is_one_line s

-- The first line of a text, and what follows its line break.
first_line : String → String × String
first_line String.[] = (String.[], String.[])
first_line (String.◌∷◌ c s) =
    let (line, rest) = first_line s in
    if code c == 10 then (String.[], s) else (String.◌∷◌ c line, rest)

first_line-append :
    (a rest : String) → is_one_line a ≡ true → first_line (a ++ String.◌∷◌ "\n" rest) ≡ (a, rest)
unfolding first_line is_one_line
first_line-append String.[] rest h = rw (nil-append (String.◌∷◌ "\n" rest)) refl
first_line-append (String.◌∷◌ c a) rest h =
    let ih = first_line-append a rest (ground arith) in
    let plain : (code c == 10) ≡ false = ground arith in
    rw (cons-append c a (String.◌∷◌ "\n" rest), ih, plain) refl

-- Two texts with a first line each that are the same have the same first line and the same rest.
same_lines :
    (a b s t : String)
    → is_one_line a ≡ true
    → is_one_line b ≡ true
    → a ++ String.◌∷◌ "\n" s ≡ b ++ String.◌∷◌ "\n" t
    → (a ≡ b) × (s ≡ t)
same_lines a b s t ha hb h =
    let pair : (a, s) ≡ (b, t) =
      sym (first_line-append a s ha) ∙ (ap first_line h ∙ first_line-append b t hb) in
    (ap (λ (p : String × String). p.0) pair, ap (λ (p : String × String). p.1) pair)

digits_one_line : (s : String) → all_digits s ≡ true → is_one_line s ≡ true
unfolding all_digits is_one_line
digits_one_line String.[] h = refl
digits_one_line (String.◌∷◌ c s) h = ground (arith, digits_one_line s (ground arith))

module _ {Key Body : Type 0} (lib : SignLib Key Body) where
  -- Two canonical texts that are the same have the same timestamp, identifier and digest of the
  -- body, if the identifiers are on one line each.
  pub canonical-injective :
      (t u : ℕ) (id other : String) (body content : Body)
      → is_one_line id ≡ true
      → is_one_line other ≡ true
      → canonical lib t id body ≡ canonical lib u other content
      → (t ≡ u) × (id ≡ other) × (lib.digest body ≡ lib.digest content)
  unfolding canonical
  canonical-injective t u id other body content h k e =
      let (times, rest) =
        same_lines (decimal t) (decimal u) (id ++ String.◌∷◌ "\n" (lib.digest body))
          (other ++ String.◌∷◌ "\n" (lib.digest content))
          (digits_one_line (decimal t) (decimal-all t))
          (digits_one_line (decimal u) (decimal-all u)) e in
      let (ids, digests) = same_lines id other (lib.digest body) (lib.digest content) h k rest in
      (decimal-injective t u times, ids, digests)
