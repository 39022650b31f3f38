-- ===== src/Gateway/AuthPort/Checksum.antt =====
-- The checksum makes the words of a body cancel out.
use ace.Prelude.{
  ℕ, zero, suc, ◌+◌, ◌-◌, ◌*◌, ◌^◌, ◌≤◌, ◌<◌, ◌≡◌, refl, ap, ap₂, ◌∙◌, sym, [], ◌∷◌, ◌++◌, arith,
  length, take, drop, ltb, if_false, if_true, lt→ltb, le→ltb, length-drop, length-take, take-append,
  subst, length-append, drop-drop, All-take,
}
use ace.Prelude.Xor.{bit_xor, bit_xor_assoc, bit_xor_self, bit_xor-zero, bit_xor-lt, zero-bit_xor}
use ace.Bytes.{Bytes, IsByte, IsBytes, put_le, get_le, get_le-put_le_of_lt}
use ace.Gateway.AuthPort.{xor_words, append_checksum}

-- The exclusive or of the 32-bit words, whole ones only.
unfoldable pub words_xor : Bytes → ℕ
words_xor (a ∷ b ∷ c ∷ e ∷ rest) = bit_xor (get_le (a ∷ b ∷ c ∷ e ∷ [])) (words_xor rest)
words_xor bs = 0

words_xor-append :
    (k : ℕ) (us vs : Bytes)
    → length us ≡ 4 * k
    → words_xor (us ++ vs) ≡ bit_xor (words_xor us) (words_xor vs)
unfolding words_xor
words_xor-append zero [] vs h = sym (zero-bit_xor (words_xor vs))
words_xor-append zero (a ∷ us) vs h = absurd (omega arith)
words_xor-append (suc k) [] vs h = absurd (omega arith)
words_xor-append (suc k) (a ∷ []) vs h = absurd (omega arith)
words_xor-append (suc k) (a ∷ b ∷ []) vs h = absurd (omega arith)
words_xor-append (suc k) (a ∷ b ∷ c ∷ []) vs h = absurd (omega arith)
words_xor-append (suc k) (a ∷ b ∷ c ∷ e ∷ us) vs h =
    let w = get_le (a ∷ b ∷ c ∷ e ∷ []) in
    ap (bit_xor w) (words_xor-append k us vs (omega arith))
    ∙ sym (bit_xor_assoc w (words_xor us) (words_xor vs))

words_xor-lt : (bs : Bytes) → IsBytes bs → words_xor bs < 2 ^ 32
unfolding words_xor
words_xor-lt [] h = omega arith
words_xor-lt (a ∷ []) h = omega arith
words_xor-lt (a ∷ b ∷ []) h = omega arith
words_xor-lt (a ∷ b ∷ c ∷ []) h = omega arith
words_xor-lt (a ∷ b ∷ c ∷ e ∷ rest) h =
    bit_xor-lt 32 (get_le (a ∷ b ∷ c ∷ e ∷ [])) (words_xor rest) (omega arith)
      (words_xor-lt rest h.1.1.1.1)

words_xor_four :
    (us : Bytes) (m : ℕ)
    → length us ≡ 4 * suc m
    → words_xor us ≡ bit_xor (get_le (take 4 us)) (words_xor (drop 4 us))
unfolding words_xor
words_xor_four [] m h = absurd (omega arith)
words_xor_four (a ∷ []) m h = absurd (omega arith)
words_xor_four (a ∷ b ∷ []) m h = absurd (omega arith)
words_xor_four (a ∷ b ∷ c ∷ []) m h = absurd (omega arith)
words_xor_four (a ∷ b ∷ c ∷ e ∷ us) m h = refl

pub take-take : (n k : ℕ) (bs : Bytes) → n ≤ k → take n (take k bs) ≡ take n bs
take-take zero k bs h = refl
take-take (suc n) zero bs h = absurd (omega arith)
take-take (suc n) (suc k) [] h = refl
take-take (suc n) (suc k) (b ∷ bs) h = ap (◌∷◌ b) (take-take n k bs (omega arith))

take_nil : (n : ℕ) → take {A = ℕ} n [] ≡ []
take_nil zero = refl
take_nil (suc n) = refl

drop-take : (n k : ℕ) (bs : Bytes) → drop n (take (n + k) bs) ≡ take k (drop n bs)
drop-take zero k bs = ap (λ t. take t bs) (omega arith)
drop-take (suc n) k [] =
    ap (λ t. drop (suc n) (take t [])) {x = suc n + k} {y = suc (n + k)} (omega arith)
    ∙ sym (take_nil k)
drop-take (suc n) k (b ∷ bs) =
    ap (λ t. drop (suc n) (take t (b ∷ bs))) {x = suc n + k} {y = suc (n + k)} (omega arith)
    ∙ drop-take n k bs

xor_words_lem :
    (m rounds : ℕ) (bytes : Bytes) (i chksum : ℕ)
    → m ≤ rounds
    → i + 4 * m ≤ length bytes
    → xor_words rounds bytes i (i + 4 * m) chksum
      ≡ bit_xor chksum (words_xor (take (4 * m) (drop i bytes)))
unfolding xor_words
xor_words_lem zero zero bytes i chksum enough room = unfold words_xor in sym (bit_xor-zero chksum)
xor_words_lem zero (suc rounds) bytes i chksum enough room =
    if_false (ltb i (i + 4 * 0)) _ chksum (le→ltb i (i + 4 * 0) (omega arith))
    ∙ (unfold words_xor in sym (bit_xor-zero chksum))
xor_words_lem (suc m) zero bytes i chksum enough room = absurd (omega arith)
xor_words_lem (suc m) (suc rounds) bytes i chksum enough room =
    let w = get_le (take 4 (drop i bytes)) in
    let part = take (4 * suc m) (drop i bytes) in
    let size : length part ≡ 4 * suc m =
      omega (arith, length-take (4 * suc m) (drop i bytes), length-drop i bytes) in
    let tail : drop 4 part ≡ take (4 * m) (drop (i + 4) bytes) =
      ap (λ t. drop 4 (take t (drop i bytes))) {x = 4 * suc m} {y = 4 + 4 * m} (omega arith)
      ∙ drop-take 4 (4 * m) (drop i bytes)
      ∙ ap (take (4 * m)) (drop-drop i 4 bytes) in
    if_true (ltb i (i + 4 * suc m)) _ chksum (lt→ltb i (i + 4 * suc m) (omega arith))
    ∙ ap (λ c. xor_words rounds bytes (i + 4) c (bit_xor chksum w)) {x = i + 4 * suc m}
        {y = i + 4 + 4 * m} (omega arith)
    ∙ xor_words_lem m rounds bytes (i + 4) (bit_xor chksum w) (omega arith) (omega arith)
    ∙ bit_xor_assoc chksum w (words_xor (take (4 * m) (drop (i + 4) bytes)))
    ∙ ap (bit_xor chksum) (
        ap₂ bit_xor (ap get_le (sym (take-take 4 (4 * suc m) (drop i bytes) (omega arith))))
          (ap words_xor (sym tail))
        ∙ sym (words_xor_four part m size))

length-zero : (bs : Bytes) → length bs ≡ 0 → bs ≡ []
length-zero [] h = refl
length-zero (b ∷ bs) h = absurd (omega arith)

word-put_le : (v : ℕ) → words_xor (put_le 4 v) ≡ get_le (put_le 4 v)
unfolding words_xor
word-put_le v = bit_xor-zero (get_le (put_le 4 v))

-- The words of a body of at least eight bytes, in whole words, cancel out once its checksum is
-- appended; the body keeps its length, and its bytes before the last four.
pub append_checksum_lem :
    (bytes : Bytes) (k : ℕ)
    → IsBytes bytes
    → length bytes ≡ 4 * (k + 2)
    → (words_xor (append_checksum bytes 0 (length bytes)) ≡ 0)
      × (length (append_checksum bytes 0 (length bytes)) ≡ length bytes)
      × (take (length bytes - 4) (append_checksum bytes 0 (length bytes))
          ≡ take (length bytes - 4) bytes)
unfolding append_checksum
append_checksum_lem bytes k h size =
    let count : ℕ = 0 + length bytes - 4 in
    let pre = take count bytes in
    let v = xor_words count bytes 0 count 0 in
    let words : count ≡ 0 + 4 * (k + 1) = omega arith in
    let pre_size : length pre ≡ 4 * (k + 1) = omega (arith, length-take count bytes) in
    let nothing : drop (count + 4) bytes ≡ [] =
      length-zero (drop (count + 4) bytes) (omega (arith, length-drop (count + 4) bytes)) in
    let v_is : v ≡ words_xor pre =
      ap (λ c. xor_words count bytes 0 c 0) words
      ∙ xor_words_lem (k + 1) count bytes 0 0 (omega arith) (omega arith)
      ∙ zero-bit_xor (words_xor (take (4 * (k + 1)) bytes))
      ∙ ap (λ c. words_xor (take c bytes)) {x = 4 * (k + 1)} {y = count} (omega arith) in
    let pre_lt = words_xor-lt pre (All-take IsByte count bytes h) in
    let whole : append_checksum bytes 0 (length bytes) ≡ pre ++ put_le 4 v =
      if_false (ltb (length bytes) 8) bytes _ (le→ltb (length bytes) 8 (omega arith))
      ∙ ap (λ t. pre ++ (put_le 4 v ++ t)) nothing in
    (
      ap words_xor whole
          ∙ words_xor-append (k + 1) pre (put_le 4 v) pre_size
          ∙ ap (bit_xor (words_xor pre))
              (word-put_le v ∙ get_le-put_le_of_lt 4 v (omega (arith, v_is, pre_lt)) ∙ v_is)
          ∙ bit_xor_self (words_xor pre),
      ap length whole ∙ omega (arith, length-append pre (put_le 4 v)),
      subst (λ n. take n (append_checksum bytes 0 (length bytes)) ≡ take n bytes) {x = count}
          {y = length bytes - 4} (omega arith)
          (ap (take count) whole ∙ take-append count pre (put_le 4 v) (omega arith)),
    )
