-- ===== src/Domain/Ids/RoundTrip.antt =====
-- The identifiers that `OperationId::for_run` of crates/reforge-domain/src/ids.rs builds.
use windows_component_harnes.Prelude.{
  ℕ, ◌^◌, ◌<◌, Bool, true, false, ◌≡◌, refl, sym, ap, ◌∙◌, none, some, [], ◌∷◌, ◌++◌, all, nat_eq,
  arith,
}
use windows_component_harnes.Prelude.Text.{Text, codes, is_ascii_digit}
use windows_component_harnes.Domain.Ids.{
  strip_prefix, rsplit_once, is_ordinal, operation_id, for_run,
}
use windows_component_harnes.Domain.Ids.Decimal.{
  digits, decimal, value_from, value_from-digits, digits-is_ascii_digit, length-digits,
  is_empty-digits, len-is_ascii_digit,
}

digits-rsplit_once : (s : Text) → all is_ascii_digit s ≡ true → rsplit_once s ≡ none
unfolding rsplit_once
digits-rsplit_once [] h = refl
digits-rsplit_once (c ∷ s) h =
    let rest : rsplit_once s ≡ none = digits-rsplit_once s (ground (arith, h)) in
    let other : nat_eq c b'_' ≡ false = ground (arith, h) in rw (rest, other) refl

rsplit_once-join :
    (run ordinal : Text)
    → all is_ascii_digit ordinal ≡ true
    → rsplit_once (run ++ b'_' ∷ ordinal) ≡ some (run, ordinal)
unfolding rsplit_once
rsplit_once-join [] ordinal h = rw (digits-rsplit_once ordinal h) refl
rsplit_once-join (c ∷ run) ordinal h = rw (rsplit_once-join run ordinal h) refl

decimal-is_ascii_digit : (n : ℕ) → all is_ascii_digit (decimal n) ≡ true
unfolding decimal
decimal-is_ascii_digit n = digits-is_ascii_digit 20 n

decimal-is_ordinal : (n : ℕ) → is_ordinal (decimal n) ≡ true
unfolding decimal
decimal-is_ordinal n =
    let d = digits-is_ascii_digit 20 n in
    rw (is_empty-digits 19 n, len-is_ascii_digit (digits 20 n) d, d)
      (ground (arith, length-digits 20 n))

-- Where a run identifier is one, the identifier of an operation can be built for each ordinal, and it
-- reads `op_<run>_<ordinal>`.
for_run-eq :
    (is_run_id : Text → Bool) (run : Text) (n : ℕ)
    → is_run_id run ≡ true
    → for_run is_run_id run n ≡ some (codes "op_" ++ (run ++ (codes "_" ++ decimal n)))
unfolding for_run operation_id strip_prefix
for_run-eq is_run_id run n h =
    rw (rsplit_once-join run (decimal n) (decimal-is_ascii_digit n), operation_id)
      (rw (h, decimal-is_ordinal n) refl)

u64_in_range : (n : ℕ) → n < 2 ^ 64 → value_from 0 (decimal n) ≡ n
unfolding decimal
u64_in_range n h = value_from-digits 20 n (omega (arith, h))

append-cancel : (s : Text) {t u : Text} → s ++ t ≡ s ++ u → t ≡ u
append-cancel [] h = h
append-cancel (c ∷ s) h = append-cancel s (cc (h))

some-cancel : {A : Type 0} {a b : A} → some a ≡ some b → a ≡ b
some-cancel h = cc

-- For a run identifier and ordinals of a `u64`, an identifier is built for each ordinal, and two
-- ordinals with one identifier are the same.
pub for_run_injective :
    (is_run_id : Text → Bool) (run : Text) (m n : ℕ)
    → is_run_id run ≡ true
    → m < 2 ^ 64
    → n < 2 ^ 64
    → ((id : Text) × (for_run is_run_id run m ≡ some id))
      × (for_run is_run_id run m ≡ for_run is_run_id run n → m ≡ n)
for_run_injective is_run_id run m n h hm hn = (
  (codes "op_" ++ (run ++ (codes "_" ++ decimal m)), for_run-eq is_run_id run m h),
  λ e.
      let same = sym (for_run-eq is_run_id run m h) ∙ e ∙ for_run-eq is_run_id run n h in
      let tails = append-cancel run (append-cancel (codes "op_") (some-cancel same)) in
      let ordinals : decimal m ≡ decimal n = append-cancel (codes "_") tails in
      sym (u64_in_range m hm) ∙ ap (value_from 0) ordinals ∙ u64_in_range n hn,
)
