-- ===== src/Bytes.antt =====
-- Byte sequences and the little-endian numbers in them, as Go's encoding/binary reads and writes
-- them: `put_le w v` are the `w` low bytes of `v`, `get_le` the number that bytes stand for.
pub mod Equal
use ace.Prelude.{
  replicate, ℕ, zero, suc, ◌+◌, ◌*◌, ◌/◌, ◌%◌, ◌^◌, ◌<◌, ◌≡◌, refl, ap, ap₂, ◌∙◌, List, [], ◌∷◌,
  arith, length, All, Bool, true, false, ltb, if◌then◌else◌,
}
use Prim.Native.Char.{code}
use Prim.Native.String.{String}
use native.Mathlib.Nat.{pow-suc, pow-succ', pow-zero, mod-one, one-le-pow, mod-eq_of_lt}

abbrev pub Bytes : Type 0
Bytes = List ℕ

abbrev pub IsByte : ℕ → Type 0
IsByte b = b < 256

abbrev pub IsBytes : Bytes → Type 0
IsBytes = All IsByte

-- The bytes of an ASCII text.
abbrev pub codes : String → Bytes
codes String.[] = []
codes (String.◌∷◌ c s) = code c ∷ codes s

abbrev pub put_le : ℕ → ℕ → Bytes
put_le zero v = []
put_le (suc w) v = v % 256 ∷ put_le w (v / 256)

abbrev pub get_le : Bytes → ℕ
get_le [] = 0
get_le (b ∷ bs) = b + 256 * get_le bs

pub length-put_le : (w v : ℕ) → length (put_le w v) ≡ w
length-put_le zero v = refl
length-put_le (suc w) v = ap suc (length-put_le w (v / 256))

pub replicate-IsBytes : (n : ℕ) → IsBytes (replicate n 0)
replicate-IsBytes zero = tt
replicate-IsBytes (suc n) = (omega arith, replicate-IsBytes n)

pub put_le-IsBytes : (w v : ℕ) → IsBytes (put_le w v)
put_le-IsBytes zero v = tt
put_le-IsBytes (suc w) v = (omega arith, put_le-IsBytes w (v / 256))

pub put_le-get_le : (bs : Bytes) → IsBytes bs → put_le (length bs) (get_le bs) ≡ bs
put_le-get_le [] h = refl
put_le-get_le (b ∷ bs) h =
    ap₂ ◌∷◌ (omega arith) (ap (put_le (length bs)) (omega arith) ∙ put_le-get_le bs h.1)

-- The rest of a division by a product, digit by digit.
mod_mul : (v p : ℕ) → 0 < p → v % (256 * p) ≡ v % 256 + 256 * (v / 256 % p)
mod_mul v p h = grind arith

pub get_le-put_le : (w v : ℕ) → get_le (put_le w v) ≡ v % 256 ^ w
get_le-put_le zero v = omega (arith, pow-zero 256, mod-one v, ap (λ t. v % t) (pow-zero 256))
get_le-put_le (suc w) v = omega (
  arith,
  get_le-put_le w (v / 256),
  mod_mul v (256 ^ w) (one-le-pow w 256 (omega arith)),
  ap (λ t. v % t) (pow-succ' 256 w),
)

pub get_le-lt : (bs : Bytes) → IsBytes bs → get_le bs < 256 ^ length bs
get_le-lt [] h = omega (arith, pow-zero 256)
get_le-lt (b ∷ bs) h = omega (arith, pow-suc 256 (length bs), get_le-lt bs h.1)

-- A number that fits `w` bytes is read back.
pub get_le-put_le_of_lt : (w v : ℕ) → v < 256 ^ w → get_le (put_le w v) ≡ v
get_le-put_le_of_lt w v h = get_le-put_le w v ∙ mod-eq_of_lt h

-- A test for byte sequences, for concrete ones.
unfoldable pub all_bytes : Bytes → Bool
all_bytes [] = true
all_bytes (b ∷ bs) = let rest = all_bytes bs in if ltb b 256 then rest else false

pub all_bytes-IsBytes : (bs : Bytes) → all_bytes bs ≡ true → IsBytes bs
unfolding all_bytes
all_bytes-IsBytes [] h = tt
all_bytes-IsBytes (b ∷ bs) h = (ground arith, all_bytes-IsBytes bs (ground arith))
