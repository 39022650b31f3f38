-- ===== src/Director/Decimal.antt =====
-- The decimal texts that `itoaInt` writes.
use ace.Prelude.{
  ℕ, zero, suc, ◌+◌, ◌-◌, ◌*◌, ◌/◌, ◌%◌, ◌^◌, ◌≤◌, ◌<◌, ◌≡◌, refl, ap, ◌∙◌, [], ◌∷◌, arith, leb,
  ◌==◌, if◌then◌else◌, All, ◌≢◌, ◌||◌, Bool-cases, inl, inr, if_false,
}
use native.Mathlib.Nat.{pow-succ', pow-zero}
use ace.Bytes.{Bytes}
use ace.Director.{digits_of, itoa_in, itoa_int}

-- The number that a text of digits stands for, after those read before.
unfoldable pub read_digits : ℕ → Bytes → ℕ
read_digits v [] = v
read_digits v (c ∷ cs) = read_digits (v * 10 + (c - 48)) cs

-- The 64-bit pattern that a decimal text with an optional sign stands for.
unfoldable pub parse_int : Bytes → ℕ
unfolding read_digits
parse_int [] = 0
parse_int (c ∷ cs) =
    if c == 45 then (2 ^ 64 - read_digits 0 cs) % 2 ^ 64 else read_digits 0 (c ∷ cs)

read_digits-digits_of :
    (room n : ℕ) (acc : Bytes)
    → n < 10 ^ room
    → n < 2 ^ 63
    → read_digits 0 (digits_of room n acc) ≡ read_digits n acc
unfolding digits_of
read_digits-digits_of zero n acc small signed =
    ap (λ t. read_digits t acc) (omega (arith, pow-zero 10))
read_digits-digits_of (suc room) n acc small signed = elim (Bool-cases (n == 0)) [
  | inl e ↦ ground arith
  | inr e ↦
      let ih =
        read_digits-digits_of room (n / 10) ((48 + n % 10) ∷ acc) (omega (arith, pow-succ' 10 room))
          (omega arith) in
      ap (read_digits 0) (if_false (n == 0 || leb (2 ^ 63) n) acc _ (ground arith))
      ∙ ih
      ∙ (unfold read_digits in ap (λ t. read_digits t acc) (omega arith))
]

abbrev IsDigits : Bytes → Type 0
IsDigits = All (λ c. 48 ≤ c)

digits_of-IsDigits : (room n : ℕ) (acc : Bytes) → IsDigits acc → IsDigits (digits_of room n acc)
unfolding digits_of
digits_of-IsDigits zero n acc h = h
digits_of-IsDigits (suc room) n acc h = elim (Bool-cases (n == 0 || leb (2 ^ 63) n)) [
  | inl e ↦ rw e h
  | inr e ↦ rw e (digits_of-IsDigits room (n / 10) ((48 + n % 10) ∷ acc) (omega arith, h))
]

parse_int-IsDigits : (bs : Bytes) → IsDigits bs → parse_int bs ≡ read_digits 0 bs
unfolding parse_int
parse_int-IsDigits [] h = unfold read_digits in refl
parse_int-IsDigits (c ∷ cs) h = ground arith

parse_int-itoa_in :
    (size v : ℕ) → 2 ^ 63 < 10 ^ size → v < 2 ^ 64 → v ≢ 2 ^ 63 → parse_int (itoa_in size v) ≡ v
unfolding itoa_in
parse_int-itoa_in size v room small ne = elim (Bool-cases (v == 0)) [
  | inl e ↦ rw e (unfold parse_int read_digits in ground arith)
  | inr e ↦ rw e (elim (Bool-cases (leb (2 ^ 63) v)) [
    | inl neg ↦
        let n : ℕ = (2 ^ 64 - v) % 2 ^ 64 in
        rw neg (
          unfold parse_int in
          ap (λ t. (2 ^ 64 - t) % 2 ^ 64)
            (read_digits-digits_of size n [] (ground arith) (ground arith)
              ∙ (unfold read_digits in refl))
          ∙ ground arith)
    | inr pos ↦ rw pos (
        parse_int-IsDigits (digits_of size v []) (digits_of-IsDigits size v [] tt)
        ∙ read_digits-digits_of size v [] (ground arith) (ground arith)
        ∙ (unfold read_digits in refl))
  ])
]

-- The text of an int, for every int but the least, stands for that int again: the 20 bytes of the
-- buffer are enough for its digits.
pub parse_int-itoa_int : (v : ℕ) → v < 2 ^ 64 → v ≢ 2 ^ 63 → parse_int (itoa_int v) ≡ v
unfolding itoa_int
parse_int-itoa_int v small ne = parse_int-itoa_in 20 v (omega arith) small ne
