-- ===== src/Prelude/Decimal.antt =====
-- Numbers as decimal text: `%d` and strconv.ParseUint without its bound on the size.
use Prim.Native.Char.{Char, code}
use Prim.Native.String.{String}
use Prim.Native.Nat.{ℕ, zero, suc, ◌+◌, ◌-◌, ◌*◌, ◌/◌, ◌%◌, ◌<◌, ◌≤◌}
use mathlib.Core.Path.{◌≡◌, refl, sym, ◌∙◌, ap}
use mathlib.Core.Logic.{inl, inr}
use mathlib.Core.Bool.{Bool, ◌&&◌, true}
use mathlib.Core.Option.{Option, none, some}
use native.Mathlib.Omega.{arith}
use nova_codex_bootstrap.Prelude.Tests.{ltb, leb, if◌then◌else◌, Bool-cases, ltb→lt}

-- The character of a digit.
abbrev pub digit : ℕ → Char
digit zero = "0"
digit (suc zero) = "1"
digit (suc (suc zero)) = "2"
digit (suc (suc (suc zero))) = "3"
digit (suc (suc (suc (suc zero)))) = "4"
digit (suc (suc (suc (suc (suc zero))))) = "5"
digit (suc (suc (suc (suc (suc (suc zero)))))) = "6"
digit (suc (suc (suc (suc (suc (suc (suc zero))))))) = "7"
digit (suc (suc (suc (suc (suc (suc (suc (suc zero)))))))) = "8"
digit n = "9"

code-digit : (n : ℕ) → n < 10 → code (digit n) ≡ 48 + n
code-digit zero h = refl
code-digit (suc zero) h = refl
code-digit (suc (suc zero)) h = refl
code-digit (suc (suc (suc zero))) h = refl
code-digit (suc (suc (suc (suc zero)))) h = refl
code-digit (suc (suc (suc (suc (suc zero))))) h = refl
code-digit (suc (suc (suc (suc (suc (suc zero)))))) h = refl
code-digit (suc (suc (suc (suc (suc (suc (suc zero))))))) h = refl
code-digit (suc (suc (suc (suc (suc (suc (suc (suc zero)))))))) h = refl
code-digit (suc (suc (suc (suc (suc (suc (suc (suc (suc zero))))))))) h = refl
code-digit (suc (suc (suc (suc (suc (suc (suc (suc (suc (suc n)))))))))) h = absurd (omega arith)

-- The digits of a number before a text, at most as many as the first argument.
digits_before : ℕ → ℕ → String → String
digits_before zero n s = s
digits_before (suc fuel) n s =
    let rest = digits_before fuel (n / 10) (String.◌∷◌ (digit (n % 10)) s) in
    if ltb n 10 then String.◌∷◌ (digit n) s else rest

-- `%d` of a number; a number has fewer digits than its successor.
unfoldable pub decimal : ℕ → String
unfolding digits_before
decimal n = digits_before (suc n) n ""

-- The loop over the digits, from a value; `none` is an error.
unfoldable pub read_digits : ℕ → String → Option ℕ
read_digits n String.[] = some n
read_digits n (String.◌∷◌ c s) =
    let rest = read_digits (n * 10 + (code c - 48)) s in
    if leb 48 (code c) && leb (code c) 57 then rest else none

read_digits-digit :
    (k n : ℕ) (s : String)
    → n < 10
    → read_digits k (String.◌∷◌ (digit n) s) ≡ read_digits (k * 10 + n) s
unfolding read_digits
read_digits-digit k n s h =
    let low : leb 48 (48 + n) ≡ true = ground arith in
    let high : leb (48 + n) 57 ≡ true = ground arith in
    let same : k * 10 + (48 + n - 48) ≡ k * 10 + n = omega arith in
    rw (code-digit n h, low, high, same) refl

digits_before-read :
    (fuel n : ℕ) (s : String) → n < fuel → read_digits 0 (digits_before fuel n s) ≡ read_digits n s
unfolding digits_before
digits_before-read zero n s h = absurd (omega arith)
digits_before-read (suc fuel) n s h = elim (Bool-cases (ltb n 10)) [
  | inl small ↦
      let same : 0 * 10 + n ≡ n = omega arith in
      rw small (read_digits-digit 0 n s (ltb→lt n 10 small) ∙ ap (λ m. read_digits m s) same)
  | inr big ↦
      let ten : 10 ≤ n = ground arith in
      let whole : n / 10 * 10 + n % 10 ≡ n = omega arith in
      rw big (
        digits_before-read fuel (n / 10) (String.◌∷◌ (digit (n % 10)) s) (omega arith)
        ∙ (read_digits-digit (n / 10) (n % 10) s (omega arith) ∙ ap (λ m. read_digits m s) whole))
]

-- A number is read back from its decimal text.
pub read_digits-decimal : (n : ℕ) → read_digits 0 (decimal n) ≡ some n
unfolding decimal read_digits
read_digits-decimal n = digits_before-read (suc n) n "" (omega arith)

-- A text of digits only.
unfoldable pub all_digits : String → Bool
all_digits String.[] = true
all_digits (String.◌∷◌ c s) = leb 48 (code c) && leb (code c) 57 && all_digits s

digits_before-all :
    (fuel n : ℕ) (s : String) → all_digits s ≡ true → all_digits (digits_before fuel n s) ≡ true
unfolding digits_before all_digits
digits_before-all zero n s h = h
digits_before-all (suc fuel) n s h = elim (Bool-cases (ltb n 10)) [
  | inl small ↦
      let c : code (digit n) ≡ 48 + n = code-digit n (ltb→lt n 10 small) in
      rw (small, c, h) (ground arith)
  | inr big ↦
      let c : code (digit (n % 10)) ≡ 48 + n % 10 = code-digit (n % 10) (omega arith) in
      let low : leb 48 (48 + n % 10) ≡ true = ground arith in
      let high : leb (48 + n % 10) 57 ≡ true = ground arith in
      rw big (
        digits_before-all fuel (n / 10) (String.◌∷◌ (digit (n % 10)) s) (rw (c, low, high, h) refl))
]

pub decimal-all : (n : ℕ) → all_digits (decimal n) ≡ true
unfolding decimal all_digits
decimal-all n = digits_before-all (suc n) n "" refl

-- Numbers with the same decimal text are the same.
pub decimal-injective : (m n : ℕ) → decimal m ≡ decimal n → m ≡ n
decimal-injective m n h =
    let same : some m ≡ some n =
      sym (read_digits-decimal m) ∙ (ap (read_digits 0) h ∙ read_digits-decimal n) in
    cc
