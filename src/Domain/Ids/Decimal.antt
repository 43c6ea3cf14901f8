-- ===== src/Domain/Ids/Decimal.antt =====
-- The decimal digits that Rust prints a `u64` with.
use windows_component_harnes.Prelude.{
  inr, inl, ℕ, zero, suc, ◌+◌, ◌-◌, ◌*◌, ◌/◌, ◌%◌, ◌<◌, ◌≤◌, ◌≡◌, refl, Bool, true, false, [], ◌∷◌,
  ◌++◌, all, ltb, length, if◌then◌else◌, arith, Bool-cases,
}
use windows_component_harnes.Prelude.Text.{Text, is_ascii_digit, len, is_empty}

unfoldable pub digits : ℕ → ℕ → Text
digits zero n = []
digits (suc fuel) n =
    let rest = digits fuel (n / 10) in
    if ltb n 10 then (b'0' + n) ∷ [] else rest ++ (b'0' + n % 10) ∷ []

-- A `u64` has at most twenty digits.
unfoldable pub decimal : ℕ → Text
unfolding digits
decimal n = digits 20 n

-- the value of a text of digits behind those already read
abbrev pub value_from : ℕ → Text → ℕ
value_from n [] = n
value_from n (c ∷ s) = value_from (10 * n + (c - b'0')) s

value_from-append :
    (n c : ℕ) (s : Text) → value_from n (s ++ c ∷ []) ≡ 10 * value_from n s + (c - b'0')
value_from-append n c [] = refl
value_from-append n c (d ∷ s) = value_from-append (10 * n + (d - b'0')) c s

abbrev pub power_of_ten : ℕ → ℕ
power_of_ten zero = 1
power_of_ten (suc k) = 10 * power_of_ten k

pub value_from-digits : (fuel n : ℕ) → n < power_of_ten fuel → value_from 0 (digits fuel n) ≡ n
unfolding digits
value_from-digits zero n h = omega arith
value_from-digits (suc fuel) n h = elim (Bool-cases (ltb n 10)) [
  | inl e ↦ rw e (omega arith)
  | inr e ↦ rw e (
      omega (
        arith,
        value_from-append 0 (b'0' + n % 10) (digits fuel (n / 10)),
        value_from-digits fuel (n / 10),
      ))
]

all-append : (p : ℕ → Bool) (s t : Text) → all p s ≡ true → all p t ≡ true → all p (s ++ t) ≡ true
all-append p [] t h k = k
all-append p (c ∷ s) t h k = ground (arith, all-append p s t)

pub digits-is_ascii_digit : (fuel n : ℕ) → all is_ascii_digit (digits fuel n) ≡ true
unfolding digits
digits-is_ascii_digit zero n = refl
digits-is_ascii_digit (suc fuel) n = elim (Bool-cases (ltb n 10)) [
  | inl e ↦ rw e (ground (arith, e))
  | inr e ↦ rw e (
      all-append is_ascii_digit (digits fuel (n / 10)) ((b'0' + n % 10) ∷ [])
        (digits-is_ascii_digit fuel (n / 10)) (ground arith))
]

length-append_one : (s : Text) (c : ℕ) → length (s ++ c ∷ []) ≡ suc (length s)
length-append_one [] c = refl
length-append_one (d ∷ s) c = omega (arith, length-append_one s c)

pub length-digits : (fuel n : ℕ) → length (digits fuel n) ≤ fuel
unfolding digits
length-digits zero n = omega arith
length-digits (suc fuel) n = elim (Bool-cases (ltb n 10)) [
  | inl e ↦ rw e (omega arith)
  | inr e ↦ rw e (
      omega (
        arith,
        length-append_one (digits fuel (n / 10)) (b'0' + n % 10),
        length-digits fuel (n / 10),
      ))
]

pub is_empty-digits : (fuel n : ℕ) → is_empty (digits (suc fuel) n) ≡ false
unfolding digits
is_empty-digits fuel n = elim (Bool-cases (ltb n 10)) [
  | inl e ↦ rw e refl
  | inr e ↦ rw e (behind (digits fuel (n / 10)))
]
  where
    behind : (s : Text) → is_empty (s ++ (b'0' + n % 10) ∷ []) ≡ false
    behind [] = refl
    behind (c ∷ s) = refl

-- The length in bytes of a text of digits is their number.
pub len-is_ascii_digit : (s : Text) → all is_ascii_digit s ≡ true → len s ≡ length s
len-is_ascii_digit [] h = refl
len-is_ascii_digit (c ∷ s) h = ground (arith, len-is_ascii_digit s)
