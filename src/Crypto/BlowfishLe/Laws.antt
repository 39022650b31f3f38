-- ===== src/Crypto/BlowfishLe/Laws.antt =====
-- Decrypting an encrypted packet gives it back, header and odd tail included.
use ace.Prelude.{
  sym, drop-drop, ◌+◌, ◌-◌, ℕ, zero, suc, ◌*◌, ◌/◌, ◌≤◌, ◌≡◌, refl, ap, ap₂, ◌∙◌, [], ◌∷◌, ◌++◌,
  arith, length, take, drop, ltb, length-append, length-take, length-drop, take-append-drop,
  take-append, drop-append, All-take, All-drop,
}
use ace.Prelude.{false, Bool-cases, inl, inr}
use ace.Bytes.{Bytes, IsByte, IsBytes, put_le, get_le, put_le-get_le}
use ace.Crypto.BlowfishLe.{
  BlockCipher, IsBlock, IsLawful, put_be, get_be, convert_block, over_blocks, over_packet,
  encrypt_block, decrypt_block, encrypt_packet, decrypt_packet,
}
use mathlib.Core.List.{reverse}

-- An eight-byte block with each half reversed.
swap_halves : Bytes → Bytes
swap_halves (a ∷ b ∷ c ∷ d ∷ e ∷ f ∷ g ∷ h ∷ []) = d ∷ c ∷ b ∷ a ∷ h ∷ g ∷ f ∷ e ∷ []
swap_halves bs = bs

half_be :
    (a b c d : ℕ)
    → IsBytes (a ∷ b ∷ c ∷ d ∷ [])
    → put_be 4 (get_le (a ∷ b ∷ c ∷ d ∷ [])) ≡ d ∷ c ∷ b ∷ a ∷ []
half_be a b c d h = ap reverse (put_le-get_le (a ∷ b ∷ c ∷ d ∷ []) h)

half_le :
    (a b c d : ℕ)
    → IsBytes (a ∷ b ∷ c ∷ d ∷ [])
    → put_le 4 (get_be (a ∷ b ∷ c ∷ d ∷ [])) ≡ d ∷ c ∷ b ∷ a ∷ []
half_le a b c d h = put_le-get_le (d ∷ c ∷ b ∷ a ∷ []) (omega arith)

-- The bytes handed to the block cipher, and those made of its result.
to_inner :
    (b : Bytes)
    → IsBlock b
    → put_be 4 (get_le (take 4 b)) ++ put_be 4 (get_le (take 4 (drop 4 b))) ≡ swap_halves b
unfolding swap_halves
to_inner (a ∷ b ∷ c ∷ d ∷ e ∷ f ∷ g ∷ h ∷ []) k =
    ap₂ ◌++◌ (half_be a b c d (omega arith)) (half_be e f g h (omega arith))
to_inner bs k = absurd (omega arith)

from_inner :
    (b : Bytes)
    → IsBlock b
    → put_le 4 (get_be (take 4 b)) ++ put_le 4 (get_be (take 4 (drop 4 b))) ≡ swap_halves b
unfolding swap_halves
from_inner (a ∷ b ∷ c ∷ d ∷ e ∷ f ∷ g ∷ h ∷ []) k =
    ap₂ ◌++◌ (half_le a b c d (omega arith)) (half_le e f g h (omega arith))
from_inner bs k = absurd (omega arith)

swap_halves_involutive : (b : Bytes) → IsBlock b → swap_halves (swap_halves b) ≡ b
unfolding swap_halves
swap_halves_involutive (a ∷ b ∷ c ∷ d ∷ e ∷ f ∷ g ∷ h ∷ []) k = refl
swap_halves_involutive bs k = absurd (omega arith)

swap_halves-IsBlock : (b : Bytes) → IsBlock b → IsBlock (swap_halves b)
unfolding swap_halves
swap_halves-IsBlock (a ∷ b ∷ c ∷ d ∷ e ∷ f ∷ g ∷ h ∷ []) k = omega arith
swap_halves-IsBlock bs k = absurd (omega arith)

convert_block_lem :
    (inner : Bytes → Bytes) (b : Bytes)
    → IsBlock b
    → IsBlock (inner (swap_halves b))
    → convert_block inner b ≡ swap_halves (inner (swap_halves b))
unfolding convert_block
convert_block_lem inner b hb hi =
    ap (λ t. put_le 4 (get_be (take 4 (inner t))) ++ put_le 4 (get_be (take 4 (drop 4 (inner t)))))
      (to_inner b hb)
    ∙ from_inner (inner (swap_halves b)) hi

-- What `f` does to each block, `g` undoes.
record Undoes (f g : Bytes → Bytes) : Type 0 where
  keeps : (b : Bytes) → IsBlock b → IsBlock (f b)
  undoes : (b : Bytes) → IsBlock b → g (f b) ≡ b

module _ (f g : Bytes → Bytes) (u : Undoes f g) where
  take-IsBlock : (p : Bytes) → 8 ≤ length p → IsBytes p → IsBlock (take 8 p)
  take-IsBlock p h k = (omega (arith, length-take 8 p), All-take IsByte 8 p k)

  over_blocks_undo :
      (n : ℕ) (p : Bytes) → 8 * n ≤ length p → IsBytes p → over_blocks n g (over_blocks n f p) ≡ p
  unfolding over_blocks
  over_blocks_undo zero p h k = refl
  over_blocks_undo (suc n) p h k =
      let block = take-IsBlock p (omega arith) k in
      let rest = over_blocks n f (drop 8 p) in
      let front : take 8 (f (take 8 p) ++ rest) ≡ f (take 8 p) =
        take-append 8 (f (take 8 p)) rest (u.keeps (take 8 p) block).0 in
      let back : drop 8 (f (take 8 p) ++ rest) ≡ rest =
        drop-append 8 (f (take 8 p)) rest (u.keeps (take 8 p) block).0 in
      let ih =
        over_blocks_undo n (drop 8 p) (omega (arith, length-drop 8 p)) (All-drop IsByte 8 p k) in
      ap₂ ◌++◌ (ap g front ∙ u.undoes (take 8 p) block) (ap (over_blocks n g) back ∙ ih)
      ∙ take-append-drop 8 p

  length-over_blocks :
      (n : ℕ) (p : Bytes) → 8 * n ≤ length p → IsBytes p → length (over_blocks n f p) ≡ length p
  unfolding over_blocks
  length-over_blocks zero p h k = refl
  length-over_blocks (suc n) p h k = omega (
    arith,
    length-append (f (take 8 p)) (over_blocks n f (drop 8 p)),
    (u.keeps (take 8 p) (take-IsBlock p (omega arith) k)).0,
    length-over_blocks n (drop 8 p) (omega (arith, length-drop 8 p)) (All-drop IsByte 8 p k),
    length-drop 8 p,
  )

  -- The bytes behind the last block stay.
  drop-over_blocks :
      (n : ℕ) (p : Bytes)
      → 8 * n ≤ length p
      → IsBytes p
      → drop (8 * n) (over_blocks n f p) ≡ drop (8 * n) p
  unfolding over_blocks
  drop-over_blocks zero p h k = refl
  drop-over_blocks (suc n) p h k =
      let rest = over_blocks n f (drop 8 p) in
      let eight : 8 * suc n ≡ 8 + 8 * n = omega arith in
      let back : drop 8 (f (take 8 p) ++ rest) ≡ rest =
        drop-append 8 (f (take 8 p)) rest (u.keeps (take 8 p) (take-IsBlock p (omega arith) k)).0 in
      ap (λ m. drop m (f (take 8 p) ++ rest)) eight
      ∙ sym (drop-drop 8 (8 * n) (f (take 8 p) ++ rest))
      ∙ ap (drop (8 * n)) back
      ∙ drop-over_blocks n (drop 8 p) (omega (arith, length-drop 8 p)) (All-drop IsByte 8 p k)
      ∙ drop-drop 8 (8 * n) p
      ∙ ap (λ m. drop m p) (sym eight)

  over_packet_frame :
      (p : Bytes)
      → IsBytes p
      → (length (over_packet f p) ≡ length p)
        × (take 2 (over_packet f p) ≡ take 2 p)
        × (drop (2 + 8 * ((length p - 2) / 8)) (over_packet f p)
            ≡ drop (2 + 8 * ((length p - 2) / 8)) p)
  unfolding over_packet
  over_packet_frame p k = elim (Bool-cases (ltb (length p) 2)) [
    | inl short ↦ rw short (refl, refl, refl)
    | inr long ↦
        let body = drop 2 p in
        let n = length body / 8 in
        let m = (length p - 2) / 8 in
        let ks = All-drop IsByte 2 p k in
        let fits : 8 * n ≤ length body = omega arith in
        let same = length-over_blocks n body fits ks in
        let head : length (take 2 p) ≡ 2 = ground (arith, length-take 2 p) in
        let front = take-append 2 (take 2 p) (over_blocks n f body) head in
        let back = drop-append 2 (take 2 p) (over_blocks n f body) head in
        let n_is : m ≡ n = ap (λ t. t / 8) (sym (length-drop 2 p)) in
        let whole = take 2 p ++ over_blocks n f body in
        rw long (
          ground (arith, length-append (take 2 p) (over_blocks n f body), same, length-drop 2 p),
          front,
          ap (λ t. drop (2 + 8 * t) whole) n_is
              ∙ sym (drop-drop 2 (8 * n) whole)
              ∙ ap (drop (8 * n)) back
              ∙ drop-over_blocks n body fits ks
              ∙ drop-drop 2 (8 * n) p
              ∙ ap (λ t. drop (2 + 8 * t) p) (sym n_is),
        )
  ]

  over_packet_undo : (p : Bytes) → IsBytes p → over_packet g (over_packet f p) ≡ p
  unfolding over_packet
  over_packet_undo p k = elim (Bool-cases (ltb (length p) 2)) [
    | inl short ↦ rw short (rw short)
    | inr long ↦
        let body = drop 2 p in
        let n = length body / 8 in
        let ks = All-drop IsByte 2 p k in
        let fits : 8 * n ≤ length body = omega arith in
        let same = length-over_blocks n body fits ks in
        let head : length (take 2 p) ≡ 2 = ground (arith, length-take 2 p) in
        let front = take-append 2 (take 2 p) (over_blocks n f body) head in
        let back = drop-append 2 (take 2 p) (over_blocks n f body) head in
        let long' : ltb (length (take 2 p ++ over_blocks n f body)) 2 ≡ false =
          ground (arith, length-append (take 2 p) (over_blocks n f body)) in
        rw (long, long')
          (ap₂ ◌++◌ front (
              ap (λ t. over_blocks (length t / 8) g t) back
              ∙ ap (λ t. over_blocks (t / 8) g (over_blocks n f body)) same
              ∙ over_blocks_undo n body fits ks)
            ∙ take-append-drop 2 p)
  ]

over_packet_lem :
    (f : Bytes → Bytes) (h b : Bytes)
    → length h ≡ 2
    → over_packet f (h ++ b) ≡ h ++ over_blocks (length b / 8) f b
unfolding over_packet
over_packet_lem f h b two =
    let long : ltb (length (h ++ b)) 2 ≡ false = ground (arith, length-append h b) in
    rw (long, take-append 2 h b two, drop-append 2 h b two) refl

-- Behind a header of two bytes the body is encrypted and decrypted alone.
pub encrypt_packet_lem :
    (c : BlockCipher) (h b : Bytes)
    → length h ≡ 2
    → encrypt_packet c (h ++ b) ≡ h ++ over_blocks (length b / 8) (encrypt_block c) b
unfolding encrypt_packet
encrypt_packet_lem c = over_packet_lem (encrypt_block c)

pub decrypt_packet_lem :
    (c : BlockCipher) (h b : Bytes)
    → length h ≡ 2
    → decrypt_packet c (h ++ b) ≡ h ++ over_blocks (length b / 8) (decrypt_block c) b
unfolding decrypt_packet
decrypt_packet_lem c = over_packet_lem (decrypt_block c)

module _ (c : BlockCipher) (lawful : IsLawful c) where
  encrypt_block-Undoes : Undoes (encrypt_block c) (decrypt_block c)
  unfolding encrypt_block decrypt_block
  encrypt_block-Undoes = record {
    keeps = λ b h.
        let e = lawful.encrypt-IsBlock (swap_halves b) (swap_halves-IsBlock b h) in
        rw (convert_block_lem c.encrypt b h e) (swap_halves-IsBlock _ e);
    undoes = λ b h.
        let s = swap_halves-IsBlock b h in
        let e = lawful.encrypt-IsBlock (swap_halves b) s in
        let back : swap_halves (swap_halves (c.encrypt (swap_halves b)))
            ≡ c.encrypt (swap_halves b) =
          swap_halves_involutive _ e in
        let plain = ap c.decrypt back ∙ lawful.decrypt-encrypt (swap_halves b) s in
        ap (convert_block c.decrypt) (convert_block_lem c.encrypt b h e)
        ∙ convert_block_lem c.decrypt _ (swap_halves-IsBlock _ e) (rw plain s)
        ∙ ap swap_halves plain
        ∙ swap_halves_involutive b h;
  }

  -- With a block cipher whose decryption undoes its encryption of a block, decrypting an encrypted
  -- packet of bytes gives it back, whatever its length. Encryption keeps the length
  -- and leaves alone the two bytes of the header and the tail behind the last whole block.
  pub decrypt_packet-encrypt_packet :
      (p : Bytes)
      → IsBytes p
      → (decrypt_packet c (encrypt_packet c p) ≡ p)
        × (length (encrypt_packet c p) ≡ length p)
        × (take 2 (encrypt_packet c p) ≡ take 2 p)
        × (drop (2 + 8 * ((length p - 2) / 8)) (encrypt_packet c p)
            ≡ drop (2 + 8 * ((length p - 2) / 8)) p)
  unfolding encrypt_packet decrypt_packet
  decrypt_packet-encrypt_packet p k =
      let frame = over_packet_frame (encrypt_block c) (decrypt_block c) encrypt_block-Undoes p k in
      (
        over_packet_undo (encrypt_block c) (decrypt_block c) encrypt_block-Undoes p k,
        frame.0,
        frame.1,
        frame.2,
      )

  -- The same for a run of whole blocks alone.
  pub blocks_undo :
      (n : ℕ) (p : Bytes)
      → 8 * n ≤ length p
      → IsBytes p
      → (over_blocks n (decrypt_block c) (over_blocks n (encrypt_block c) p) ≡ p)
        × (length (over_blocks n (encrypt_block c) p) ≡ length p)
  blocks_undo n p h k = (
    over_blocks_undo (encrypt_block c) (decrypt_block c) encrypt_block-Undoes n p h k,
    length-over_blocks (encrypt_block c) (decrypt_block c) encrypt_block-Undoes n p h k,
  )
