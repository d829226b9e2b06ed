-- ===== src/Config/Uuid.antt =====
-- NewUUID of notifications/internal/agent/identity.go.
use mathlib.Core.Path.{subst}
use Prim.Native.Char.{Char, code, len_utf8}
use Prim.Native.String.len
use nova_codex_bootstrap.Prelude.{
  ℕ, zero, suc, ◌+◌, ◌*◌, ◌/◌, ◌%◌, ◌≡◌, refl, ap, ◌∙◌, String, len, Bool, true, false, ◌||◌, List,
  [], ◌∷◌, length, arith, Option, none, some, some-inj, ltb, ◌==◌, is_empty, eq_iff, if◌then◌else◌,
  if_both, inl, inr, Bool-cases,
}
use nova_codex_bootstrap.Prelude.Decimal.{digit}
use nova_codex_bootstrap.Protocol.Event.{contains_break, valid_id}
use nova_codex_bootstrap.Herdr.Agent.{is_hex, uuid_chars}

-- The character of a hexadecimal digit of `%x`.
abbrev hex_digit : ℕ → Char
hex_digit n =
    if ltb n 10
    then digit n
    else if n == 10
    then "a"
    else if n == 11
    then "b"
    else if n == 12
    then "c"
    else if n == 13
    then "d"
    else if n == 14
    then "e"
    else "f"

-- `%02x` of a byte, before a text
unfoldable pub hex_byte : ℕ → String → String
hex_byte b s = String.◌∷◌ (hex_digit (b / 16)) (String.◌∷◌ (hex_digit (b % 16)) s)

-- The byte at an index, with the bits of the version or the variant: `b & 0x0f | 0x40` and
-- `b & 0x3f | 0x80`.
unfoldable pub stamped : ℕ → ℕ → ℕ
stamped index b = if index == 6 then b % 16 + 64 else if index == 8 then b % 64 + 128 else b

abbrev starts_group : ℕ → Bool
starts_group index = index == 4 || index == 6 || index == 8 || index == 10

-- The bytes from an index, with the dashes of "%08x-%04x-%04x-%04x-%012x".
unfoldable pub format_uuid : ℕ → List ℕ → String
unfolding stamped hex_byte
format_uuid index [] = ""
format_uuid index (b ∷ bs) =
    let rest = hex_byte (stamped index b) (format_uuid (index + 1) bs) in
    if starts_group index then String.◌∷◌ "-" rest else rest

abbrev formatted : Option (List ℕ) → Option String
formatted none = none
formatted (some bytes) = some (format_uuid 0 bytes)

-- NewUUID, on the 16 bytes that rand.Read gives; `none` is an error
unfoldable pub new_uuid : Option (List ℕ) → Option String
new_uuid random = formatted random

-- A hexadecimal digit, of one byte.
abbrev IsAscii : Char → Type 0
IsAscii c = (is_hex (code c) ≡ true) × (len_utf8 c ≡ 1)

digit-IsAscii : (n : ℕ) → IsAscii (digit n)
unfolding is_hex
digit-IsAscii zero = (refl, refl)
digit-IsAscii (suc zero) = (refl, refl)
digit-IsAscii (suc (suc zero)) = (refl, refl)
digit-IsAscii (suc (suc (suc zero))) = (refl, refl)
digit-IsAscii (suc (suc (suc (suc zero)))) = (refl, refl)
digit-IsAscii (suc (suc (suc (suc (suc zero))))) = (refl, refl)
digit-IsAscii (suc (suc (suc (suc (suc (suc zero)))))) = (refl, refl)
digit-IsAscii (suc (suc (suc (suc (suc (suc (suc zero))))))) = (refl, refl)
digit-IsAscii (suc (suc (suc (suc (suc (suc (suc (suc zero)))))))) = (refl, refl)
digit-IsAscii (suc (suc (suc (suc (suc (suc (suc (suc (suc n))))))))) = (refl, refl)

hex_digit-IsAscii : (n : ℕ) → IsAscii (hex_digit n)
unfolding is_hex
hex_digit-IsAscii n = if_both IsAscii (ltb n 10) (digit n) _ (digit-IsAscii n) (
    if_both IsAscii (n == 10) "a" _ (refl, refl)
      (if_both IsAscii (n == 11) "b" _ (refl, refl)
        (if_both IsAscii (n == 12) "c" _ (refl, refl)
          (if_both IsAscii (n == 13) "d" _ (refl, refl)
            (if_both IsAscii (n == 14) "e" "f" (refl, refl) (refl, refl))))))

-- Where the text of a byte starts, its dash included.
abbrev position : ℕ → ℕ
position index =
    2 * index
    + (if ltb 4 index then 1 else 0)
    + (if ltb 6 index then 1 else 0)
    + (if ltb 8 index then 1 else 0)
    + (if ltb 10 index then 1 else 0)

is_dash_place : ℕ → Bool
is_dash_place p = p == 8 || p == 13 || p == 18 || p == 23

uuid_chars-digit :
    (p n : ℕ) (s : String)
    → is_dash_place p ≡ false
    → uuid_chars p (String.◌∷◌ (hex_digit n) s) ≡ uuid_chars (p + 1) s
unfolding uuid_chars is_dash_place
uuid_chars-digit p n s h = rw (h, (hex_digit-IsAscii n).0)

uuid_chars-dash :
    (p : ℕ) (s : String)
    → is_dash_place p ≡ true
    → uuid_chars p (String.◌∷◌ "-" s) ≡ uuid_chars (p + 1) s
unfolding uuid_chars is_dash_place
uuid_chars-dash p s h = rw h

uuid_chars-byte :
    (p b : ℕ) (s : String)
    → is_dash_place p ≡ false
    → is_dash_place (p + 1) ≡ false
    → uuid_chars p (hex_byte b s) ≡ uuid_chars (p + 1 + 1) s
unfolding hex_byte
uuid_chars-byte p b s h k =
    uuid_chars-digit p (b / 16) (String.◌∷◌ (hex_digit (b % 16)) s) h
    ∙ uuid_chars-digit (p + 1) (b % 16) s k

places :
    (index : ℕ)
    → (starts_group index ≡ true
        → (is_dash_place (position index) ≡ true)
          × (is_dash_place (position index + 1) ≡ false)
          × (is_dash_place (position index + 1 + 1) ≡ false)
          × (position index + 1 + 1 + 1 ≡ position (index + 1)))
      × (starts_group index ≡ false
          → (is_dash_place (position index) ≡ false)
            × (is_dash_place (position index + 1) ≡ false)
            × (position index + 1 + 1 ≡ position (index + 1)))
unfolding is_dash_place
places index = ground arith

format_uuid-chars :
    (bs : List ℕ) (index : ℕ) → uuid_chars (position index) (format_uuid index bs) ≡ true
unfolding format_uuid
format_uuid-chars [] index = unfold uuid_chars in refl
format_uuid-chars (b ∷ bs) index =
    let byte = stamped index b in
    let rest = format_uuid (index + 1) bs in
    let next = format_uuid-chars bs (index + 1) in
    elim (Bool-cases (starts_group index)) [
      | inl e ↦
          let (dash, first, second, after) = (places index).0 e in
          rw e (
            uuid_chars-dash (position index) (hex_byte byte rest) dash
            ∙ (uuid_chars-byte (position index + 1) byte rest first second
                ∙ (ap (λ p. uuid_chars p rest) after ∙ next)))
      | inr e ↦
          let (first, second, after) = (places index).1 e in
          rw e (
            uuid_chars-byte (position index) byte rest first second
            ∙ (ap (λ p. uuid_chars p rest) after ∙ next))
    ]

-- Text of hex digits and dashes has no break.
uuid_chars-no_break : (s : String) (p : ℕ) → uuid_chars p s ≡ true → contains_break s ≡ false
unfolding uuid_chars contains_break is_hex
uuid_chars-no_break String.[] p h = refl
uuid_chars-no_break (String.◌∷◌ c s) p h = ground (arith, uuid_chars-no_break s (p + 1))

len-dash : (s : String) → len (String.◌∷◌ "-" s) ≡ suc (len s)
len-dash s = omega (arith, len.cons "-" s)

len-byte : (b : ℕ) (s : String) → len (hex_byte b s) ≡ len s + 2
unfolding hex_byte
len-byte b s = omega (
  arith,
  len.cons (hex_digit (b / 16)) (String.◌∷◌ (hex_digit (b % 16)) s),
  len.cons (hex_digit (b % 16)) s,
  (hex_digit-IsAscii (b / 16)).1,
  (hex_digit-IsAscii (b % 16)).1,
)

len-format_uuid :
    (bs : List ℕ) (index : ℕ)
    → len (format_uuid index bs) + position index ≡ position (index + length bs)
unfolding format_uuid
len-format_uuid [] index = ground arith
len-format_uuid (b ∷ bs) index =
    let next = len-format_uuid bs (index + 1) in
    let rest = format_uuid (index + 1) bs in
    let two = len-byte (stamped index b) rest in
    let three = len-dash (hex_byte (stamped index b) rest) in
    let at : index + 1 + length bs ≡ index + suc (length bs) = omega arith in
    elim (Bool-cases (starts_group index)) [
      | inl e ↦ rw e (omega (arith, next, two, three, ((places index).0 e).3) ∙ ap position at)
      | inr e ↦ rw e (omega (arith, next, two, ((places index).1 e).2) ∙ ap position at)
    ]

valid_text : (s : String) → len s ≡ 36 → contains_break s ≡ false → valid_id s ≡ true
unfolding valid_id
valid_text s size whole = elim (Bool-cases (is_empty s)) [
  | inl e ↦ absurd (omega (arith, size, ap len ((eq_iff s "").0 e)))
  | inr e ↦ rw (e, whole, size) refl
]

-- An identifier that is made of 16 random bytes has 36 bytes, hexadecimal digits with dashes at 8,
-- 13, 18 and 23, and is a valid identifier.
pub new_uuid-IsUuid :
    (bytes : List ℕ) (text : String)
    → new_uuid (some bytes) ≡ some text
    → length bytes ≡ 16
    → (len text ≡ 36) × (uuid_chars 0 text ≡ true) × (valid_id text ≡ true)
unfolding new_uuid
new_uuid-IsUuid bytes text h n =
    let same : format_uuid 0 bytes ≡ text = some-inj h in
    let at : 0 + length bytes ≡ 16 = omega (arith, n) in
    let size : len (format_uuid 0 bytes) ≡ 36 =
      omega (arith, len-format_uuid bytes 0 ∙ ap position at) in
    let chars = format_uuid-chars bytes 0 in
    subst (λ t. (len t ≡ 36) × (uuid_chars 0 t ≡ true) × (valid_id t ≡ true)) same
      (
        size,
        chars,
        valid_text (format_uuid 0 bytes) size (uuid_chars-no_break (format_uuid 0 bytes) 0 chars),
      )
