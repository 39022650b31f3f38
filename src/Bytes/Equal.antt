-- ===== src/Bytes/Equal.antt =====
-- Comparing strings of bytes.
use ace.Prelude.{
  ◌≡◌, refl, ap₂, Bool, true, false, ◌&&◌, [], ◌∷◌, arith, ◌==◌, ◌≢◌, ◌⊎◌, inl, inr, Bool-cases,
  subst,
}
use ace.Bytes.{Bytes}

unfoldable pub bytes_eq : Bytes → Bytes → Bool
bytes_eq [] [] = true
bytes_eq [] (c ∷ cs) = false
bytes_eq (b ∷ bs) [] = false
bytes_eq (b ∷ bs) (c ∷ cs) = b == c && bytes_eq bs cs

pub bytes_eq_refl : (b : Bytes) → bytes_eq b b ≡ true
unfolding bytes_eq
bytes_eq_refl [] = refl
bytes_eq_refl (b ∷ bs) = ground (arith, bytes_eq_refl bs)

pub bytes_eq_sound : (b c : Bytes) → bytes_eq b c ≡ true → b ≡ c
unfolding bytes_eq
bytes_eq_sound [] [] h = refl
bytes_eq_sound [] (c ∷ cs) h = absurd (ground arith)
bytes_eq_sound (b ∷ bs) [] h = absurd (ground arith)
bytes_eq_sound (b ∷ bs) (c ∷ cs) h = ap₂ ◌∷◌ (ground arith) (bytes_eq_sound bs cs (ground arith))

pub bytes_eq_ne : (b c : Bytes) → b ≢ c → bytes_eq b c ≡ false
bytes_eq_ne b c ne = elim (Bool-cases (bytes_eq b c)) [
  | inl e ↦ absurd (ne (bytes_eq_sound b c e))
  | inr e ↦ e
]

pub bytes_same_or_ne : (b c : Bytes) → (b ≡ c) ⊎ (b ≢ c)
bytes_same_or_ne b c = elim (Bool-cases (bytes_eq b c)) [
  | inl e ↦ inl (bytes_eq_sound b c e)
  | inr e ↦ inr (λ same. ground (arith, subst (λ t. bytes_eq b t ≡ true) same (bytes_eq_refl b)))
]
