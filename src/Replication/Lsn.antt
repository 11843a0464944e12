-- ===== src/Replication/Lsn.antt =====
-- A position in the log that is printed is read back.
use rds_dbsync.Base.{
  ℕ, zero, suc, ◌+◌, ◌*◌, ◌/◌, ◌%◌, ◌^◌, ◌<◌, ◌≤◌, ◌≡◌, refl, true, Bool-cases, ltb→lt, inl, inr,
  [], ◌∷◌, ◌++◌, Text, length, ltb, leb, ◌&&◌, arith, length-snoc, All,
}
use rds_dbsync.Replication.{
  hex_digit, digit_value, is_hex, hex, lsn_text, hex_span, hex_value, pg_lsn_in,
}

digit_value-hex_digit : (d : ℕ) → d < 16 → digit_value (hex_digit d) ≡ d
digit_value-hex_digit d h = ground arith

is_hex-hex_digit : (d : ℕ) → d < 16 → is_hex (hex_digit d) ≡ true
is_hex-hex_digit d h = ground arith

hex_value-snoc :
    (t : Text) (acc c : ℕ) → hex_value acc (t ++ c ∷ []) ≡ hex_value acc t * 16 + digit_value c
unfolding hex_value
hex_value-snoc [] acc c = refl
hex_value-snoc (d ∷ t) acc c = hex_value-snoc t (acc * 16 + digit_value d) c

two_tests : (n : ℕ) → 0 < n → n ≤ 8 → (ltb 0 n && leb n 8) ≡ true
two_tests n h k = ground arith

abbrev AllHex : Text → Type 0
AllHex = All (λ c. is_hex c ≡ true)

AllHex-snoc : (t : Text) (c : ℕ) → AllHex t → is_hex c ≡ true → AllHex (t ++ c ∷ [])
AllHex-snoc [] c h k = (k, tt)
AllHex-snoc (d ∷ t) c h k = (h.0, AllHex-snoc t c h.1 k)

abbrev power : ℕ → ℕ
power zero = 1
power (suc k) = 16 * power k

hex_value-hex : (k n : ℕ) → n < power k → hex_value 0 (hex k n) ≡ n
unfolding hex hex_value
hex_value-hex zero n h = omega (arith, h)
hex_value-hex (suc k) n h = elim (Bool-cases (ltb n 16)) [
  | inl e ↦ rw e (omega (arith, digit_value-hex_digit n (ltb→lt n 16 e)))
  | inr e ↦
      rw
        (
          e,
          hex_value-snoc (hex k (n / 16)) 0 (hex_digit (n % 16)),
          hex_value-hex k (n / 16) (omega (arith, h)),
          digit_value-hex_digit (n % 16) (omega arith),
        )
        (omega arith)
]

-- All digits, at least one if there is room, and no more than there is room for.
hex-AllHex : (k n : ℕ) → AllHex (hex k n)
unfolding hex
hex-AllHex zero n = tt
hex-AllHex (suc k) n = elim (Bool-cases (ltb n 16)) [
  | inl e ↦ rw e (is_hex-hex_digit n (ltb→lt n 16 e), tt)
  | inr e ↦ rw e (
      AllHex-snoc (hex k (n / 16)) (hex_digit (n % 16)) (hex-AllHex k (n / 16))
        (is_hex-hex_digit (n % 16) (omega arith)))
]

length-hex : (k n : ℕ) → length (hex k n) ≤ k
unfolding hex
length-hex zero n = omega arith
length-hex (suc k) n = elim (Bool-cases (ltb n 16)) [
  | inl e ↦ rw e (omega arith)
  | inr e ↦
      rw (e, length-snoc (hex k (n / 16)) (hex_digit (n % 16)))
        (omega (arith, length-hex k (n / 16)))
]

some_digit : (k n : ℕ) → 0 < length (hex (suc k) n)
unfolding hex
some_digit k n = elim (Bool-cases (ltb n 16)) [
  | inl e ↦ rw e (omega arith)
  | inr e ↦ rw (e, length-snoc (hex k (n / 16)) (hex_digit (n % 16))) (omega arith)
]

hex_span-slash : (t rest : Text) → AllHex t → hex_span (t ++ (47 ∷ rest)) ≡ (t, 47 ∷ rest)
unfolding hex_span
hex_span-slash [] rest h = refl
hex_span-slash (c ∷ cs) rest h = rw (h.0, hex_span-slash cs rest h.1) refl

hex_span-end : (t : Text) → AllHex t → hex_span t ≡ (t, [])
unfolding hex_span
hex_span-end [] h = refl
hex_span-end (c ∷ cs) h = rw (h.0, hex_span-end cs h.1) refl

-- The digits of a number of 32 bits are a component, and are read as the number.
fits : (n : ℕ) → (ltb 0 (length (hex 8 n)) && leb (length (hex 8 n)) 8) ≡ true
fits n = two_tests (length (hex 8 n)) (some_digit 7 n) (length-hex 8 n)

-- A position of 64 bits, printed in two halves, is read back.
pub pg_lsn_in-lsn_text : (lsn : ℕ) → lsn < 2 ^ 64 → pg_lsn_in (lsn_text lsn) ≡ lsn
unfolding pg_lsn_in lsn_text
pg_lsn_in-lsn_text lsn h =
    let high = lsn / 2 ^ 32 % 2 ^ 32 in
    let low = lsn % 2 ^ 32 in
    rw
      (
        hex_span-slash (hex 8 high) (hex 8 low) (hex-AllHex 8 high),
        hex_span-end (hex 8 low) (hex-AllHex 8 low),
        fits high,
        fits low,
        hex_value-hex 8 high (omega arith),
        hex_value-hex 8 low (omega arith),
      )
      (omega (arith, h))
