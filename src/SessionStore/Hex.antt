-- ===== src/SessionStore/Hex.antt =====
-- The hexadecimal form of a token determines it.
use ace.Prelude.{
  ℕ, zero, suc, ◌+◌, ◌*◌, ◌%◌, ◌/◌, ◌<◌, ◌≡◌, refl, ap, ap₂, ◌∙◌, sym, [], ◌∷◌, arith, ◌-◌, ltb,
  if◌then◌else◌, drop,
}
use ace.Bytes.{Bytes, IsBytes}
use ace.SessionStore.{hex_digit, encode_to_string, key_of}

-- The value of a digit.
digit_value : ℕ → ℕ
digit_value c = if ltb c 0x61 then c - 48 else c - 87

digit_value-hex_digit : (n : ℕ) → n < 16 → digit_value (hex_digit n) ≡ n
unfolding digit_value hex_digit
digit_value-hex_digit zero h = refl
digit_value-hex_digit (suc zero) h = refl
digit_value-hex_digit (suc (suc zero)) h = refl
digit_value-hex_digit (suc (suc (suc zero))) h = refl
digit_value-hex_digit (suc (suc (suc (suc zero)))) h = refl
digit_value-hex_digit (suc (suc (suc (suc (suc zero))))) h = refl
digit_value-hex_digit (suc (suc (suc (suc (suc (suc zero)))))) h = refl
digit_value-hex_digit (suc (suc (suc (suc (suc (suc (suc zero))))))) h = refl
digit_value-hex_digit (suc (suc (suc (suc (suc (suc (suc (suc zero)))))))) h = refl
digit_value-hex_digit (suc (suc (suc (suc (suc (suc (suc (suc (suc zero))))))))) h = refl
digit_value-hex_digit (suc (suc (suc (suc (suc (suc (suc (suc (suc (suc zero)))))))))) h = refl
digit_value-hex_digit (suc (suc (suc (suc (suc (suc (suc (suc (suc (suc (suc zero))))))))))) h =
    refl
digit_value-hex_digit (suc (suc (suc (suc (suc (suc (suc (suc (suc (suc (suc (suc zero))))))))))))
      h =
    refl
digit_value-hex_digit
      (suc (suc (suc (suc (suc (suc (suc (suc (suc (suc (suc (suc (suc zero))))))))))))) h =
    refl
digit_value-hex_digit
      (suc (suc (suc (suc (suc (suc (suc (suc (suc (suc (suc (suc (suc (suc zero)))))))))))))) h =
    refl
digit_value-hex_digit
      (suc (suc (suc (suc (suc (suc (suc (suc (suc (suc (suc (suc (suc (suc (suc zero)))))))))))))))
      h =
    refl
digit_value-hex_digit
      (suc
        (suc (suc (suc (suc (suc (suc (suc (suc (suc (suc (suc (suc (suc (suc (suc n))))))))))))))))
      h =
    absurd (omega arith)

decode_string : Bytes → Bytes
decode_string [] = []
decode_string (c ∷ []) = []
decode_string (c ∷ e ∷ rest) = (digit_value c * 16 + digit_value e) ∷ decode_string rest

decode-encode_to_string : (bs : Bytes) → IsBytes bs → decode_string (encode_to_string bs) ≡ bs
unfolding decode_string encode_to_string
decode-encode_to_string [] h = refl
decode-encode_to_string (b ∷ bs) h =
    ap₂ ◌∷◌
      (omega (
        arith,
        digit_value-hex_digit (b / 16) (omega arith),
        digit_value-hex_digit (b % 16) (omega arith),
      ))
      (decode-encode_to_string bs h.1)

pub key_of_inj : (t u : Bytes) → IsBytes t → IsBytes u → key_of t ≡ key_of u → t ≡ u
key_of_inj t u ht hu e =
    sym (decode-encode_to_string t ht)
    ∙ ap decode_string (ap (drop 13) e)
    ∙ decode-encode_to_string u hu
