-- ===== src/Crypto/Rsa/Scramble.antt =====
-- Unscrambling undoes the scrambling of the modulus: each loop of it undoes one loop of the other.
use ace.Prelude.{
  ℕ, zero, suc, ◌+◌, ◌-◌, ◌≤◌, ◌<◌, ◌≡◌, ◌≢◌, ◌⊎◌, refl, ap, ap₂, ◌∙◌, sym, arith, length, get_or,
  set, length-set, get_or-set_self, get_or-set_ne, get_or_ext,
}
use ace.Prelude.Xor.{bit_xor, bit_xor_cancel}
use ace.Bytes.{Bytes}
use ace.Crypto.Rsa.{
  swap_at, xor_at, for_range, swap_range, xor_range, scramble_modulus, unscramble_modulus,
}

-- The loops of one call write and read ranges of `size` bytes that lie apart.
abbrev Apart : ℕ → ℕ → ℕ → Type 0
Apart a b size = (a + size ≤ b) ⊎ (b + size ≤ a)

module _ (a b size : ℕ) (apart : Apart a b size) where
  abbrev xor_loop : ℕ → ℕ → Bytes → Bytes
  xor_loop n i m = for_range n i (λ i. xor_at (a + i) (b + i)) m

  length-xor_loop : (n i : ℕ) (m : Bytes) → length (xor_loop n i m) ≡ length m
  unfolding for_range
  length-xor_loop zero i m = refl
  length-xor_loop (suc n) i m =
      length-xor_loop n (i + 1) (xor_at (a + i) (b + i) m) ∙ length-set m (a + i) _

  -- Outside the range that is written nothing changes.
  xor_loop_outside :
      (n i : ℕ) (m : Bytes) (j : ℕ)
      → (j < a + i) ⊎ (a + i + n ≤ j)
      → get_or (xor_loop n i m) j 0 ≡ get_or m j 0
  unfolding for_range
  xor_loop_outside zero i m j h = refl
  xor_loop_outside (suc n) i m j h =
      let v = bit_xor (get_or m (a + i) 0) (get_or m (b + i) 0) in
      xor_loop_outside n (i + 1) (set m (a + i) v) j (omega arith)
      ∙ get_or-set_ne m (a + i) j v 0 (omega arith)

  -- Inside it each byte is combined with the one at the same place of the range that is read.
  xor_loop_inside :
      (n i : ℕ) (m : Bytes) (k : ℕ)
      → i ≤ k
      → k < i + n
      → i + n ≤ size
      → a + size ≤ length m
      → get_or (xor_loop n i m) (a + k) 0 ≡ bit_xor (get_or m (a + k) 0) (get_or m (b + k) 0)
  unfolding for_range
  xor_loop_inside zero i m k lo hi fits room = absurd (omega arith)
  xor_loop_inside (suc n) i m k lo hi fits room =
      let v = bit_xor (get_or m (a + i) 0) (get_or m (b + i) 0) in
      let m' = set m (a + i) v in
      ground (
        arith,
        xor_loop_outside n (i + 1) m' (a + k),
        get_or-set_self m (a + i) v 0,
        xor_loop_inside n (i + 1) m' k,
        length-set m (a + i) v,
        get_or-set_ne m (a + i) (a + k) v 0,
        get_or-set_ne m (a + i) (b + k) v 0,
      )

  xor_twice_inside :
      (m : Bytes) (k : ℕ)
      → a + size ≤ length m
      → k < size
      → get_or (xor_loop size 0 (xor_loop size 0 m)) (a + k) 0 ≡ get_or m (a + k) 0
  xor_twice_inside m k room h =
      let m' = xor_loop size 0 m in
      let y = get_or m (b + k) 0 in
      let once = xor_loop_inside size 0 m k (omega arith) (omega arith) (omega arith) room in
      let read = xor_loop_outside size 0 m (b + k) (omega arith) in
      xor_loop_inside size 0 m' k (omega arith) (omega arith) (omega arith)
        (omega (arith, length-xor_loop size 0 m))
      ∙ ap₂ bit_xor once read
      ∙ bit_xor_cancel (get_or m (a + k) 0) y

  xor_twice : (m : Bytes) → a + size ≤ length m → xor_range a b size (xor_range a b size m) ≡ m
  unfolding xor_range
  xor_twice m room =
      let m' = xor_loop size 0 m in
      get_or_ext 0 _ m (length-xor_loop size 0 m' ∙ length-xor_loop size 0 m) λ j h. ground (
        arith,
        xor_loop_outside size 0 m' j,
        xor_loop_outside size 0 m j,
        xor_twice_inside m (j - a) room,
        ap (λ t. get_or (xor_loop size 0 m') t 0) {x = a + (j - a)} {y = j},
      )

  abbrev swap_loop : ℕ → ℕ → Bytes → Bytes
  swap_loop n i m = for_range n i (λ i. swap_at (a + i) (b + i)) m

  length-swap_loop : (n i : ℕ) (m : Bytes) → length (swap_loop n i m) ≡ length m
  unfolding for_range
  length-swap_loop zero i m = refl
  length-swap_loop (suc n) i m =
      length-swap_loop n (i + 1) (swap_at (a + i) (b + i) m)
      ∙ length-set (set m (a + i) _) (b + i) _
      ∙ length-set m (a + i) _

  abbrev Off : ℕ → ℕ → ℕ → Type 0
  Off j lo n = (j < lo) ⊎ (lo + n ≤ j)

  swap_loop_outside :
      (n i : ℕ) (m : Bytes) (j : ℕ)
      → Off j (a + i) n
      → Off j (b + i) n
      → get_or (swap_loop n i m) j 0 ≡ get_or m j 0
  unfolding for_range
  swap_loop_outside zero i m j p q = refl
  swap_loop_outside (suc n) i m j p q =
      let m' = set m (a + i) (get_or m (b + i) 0) in
      swap_loop_outside n (i + 1) (set m' (b + i) (get_or m (a + i) 0)) j (omega arith)
        (omega arith)
      ∙ get_or-set_ne m' (b + i) j (get_or m (a + i) 0) 0 (omega arith)
      ∙ get_or-set_ne m (a + i) j (get_or m (b + i) 0) 0 (omega arith)

  -- One round, at the places of a later round and at its own.
  module _ (m : Bytes) (i : ℕ) (ra : a + size ≤ length m) (rb : b + size ≤ length m) where
    swap_at_other :
        (j : ℕ) → j ≢ a + i → j ≢ b + i → get_or (swap_at (a + i) (b + i) m) j 0 ≡ get_or m j 0
    swap_at_other j p q =
        get_or-set_ne (set m (a + i) _) (b + i) j _ 0 (λ e. q (sym e))
        ∙ get_or-set_ne m (a + i) j _ 0 (λ e. p (sym e))

    swap_at_first : i < size → get_or (swap_at (a + i) (b + i) m) (a + i) 0 ≡ get_or m (b + i) 0
    swap_at_first h =
        get_or-set_ne (set m (a + i) _) (b + i) (a + i) _ 0 (omega arith)
        ∙ get_or-set_self m (a + i) _ 0 (omega arith)

    swap_at_second : i < size → get_or (swap_at (a + i) (b + i) m) (b + i) 0 ≡ get_or m (a + i) 0
    swap_at_second h =
        get_or-set_self (set m (a + i) _) (b + i) _ 0
          (omega (arith, length-set m (a + i) (get_or m (b + i) 0)))

    length-swap_at : length (swap_at (a + i) (b + i) m) ≡ length m
    length-swap_at = length-set (set m (a + i) _) (b + i) _ ∙ length-set m (a + i) _

  swap_loop_inside :
      (n i : ℕ) (m : Bytes) (k : ℕ)
      → i ≤ k
      → k < i + n
      → i + n ≤ size
      → a + size ≤ length m
      → b + size ≤ length m
      → (get_or (swap_loop n i m) (a + k) 0 ≡ get_or m (b + k) 0)
        × (get_or (swap_loop n i m) (b + k) 0 ≡ get_or m (a + k) 0)
  unfolding for_range
  swap_loop_inside zero i m k lo hi fits ra rb = absurd (omega arith)
  swap_loop_inside (suc n) i m k lo hi fits ra rb =
      let m' = swap_at (a + i) (b + i) m in
      ground (
        arith,
        swap_loop_outside n (i + 1) m' (a + k),
        swap_loop_outside n (i + 1) m' (b + k),
        swap_loop_inside n (i + 1) m' k,
        length-swap_at m i ra rb,
        swap_at_first m i ra rb,
        swap_at_second m i ra rb,
        swap_at_other m i ra rb (a + k),
        swap_at_other m i ra rb (b + k),
      )

  swap_twice :
      (m : Bytes)
      → a + size ≤ length m
      → b + size ≤ length m
      → swap_range a b size (swap_range a b size m) ≡ m
  unfolding swap_range
  swap_twice m ra rb =
      let m' = swap_loop size 0 m in
      let same = length-swap_loop size 0 m in
      let ra' : a + size ≤ length m' = omega (arith, same) in
      let rb' : b + size ≤ length m' = omega (arith, same) in
      get_or_ext 0 _ m (length-swap_loop size 0 m' ∙ same) λ j h. ground (
        arith,
        swap_loop_outside size 0 m' j,
        swap_loop_outside size 0 m j,
        swap_loop_inside size 0 m (j - a) (omega arith),
        swap_loop_inside size 0 m (j - b) (omega arith),
        swap_loop_inside size 0 m' (j - a) (omega arith),
        swap_loop_inside size 0 m' (j - b) (omega arith),
        ap (λ t. get_or (swap_loop size 0 m') t 0) {x = a + (j - a)} {y = j},
        ap (λ t. get_or (swap_loop size 0 m') t 0) {x = b + (j - b)} {y = j},
        ap (λ t. get_or m t 0) {x = a + (j - a)} {y = j},
        ap (λ t. get_or m t 0) {x = b + (j - b)} {y = j},
      )

length-xor_range :
    (a b size : ℕ) (m : Bytes) → Apart a b size → length (xor_range a b size m) ≡ length m
unfolding xor_range
length-xor_range a b size m h = length-xor_loop a b size h size 0 m

length-swap_range :
    (a b size : ℕ) (m : Bytes) → Apart a b size → length (swap_range a b size m) ≡ length m
unfolding swap_range
length-swap_range a b size m h = length-swap_loop a b size h size 0 m

-- A client's unscrambling gives the 128-byte modulus back.
pub unscramble-scramble : (m : Bytes) → length m ≡ 128 → unscramble_modulus (scramble_modulus m) ≡ m
unfolding unscramble_modulus scramble_modulus
unscramble-scramble m h =
    let s = swap_range 0 0x4d 4 m in
    let hs : length s ≡ 128 = length-swap_range 0 0x4d 4 m (omega arith) ∙ h in
    let f = xor_range 0 0x40 0x40 s in
    let hf : length f ≡ 128 = length-xor_range 0 0x40 0x40 s (omega arith) ∙ hs in
    let d = xor_range 0x0d 0x34 4 f in
    let hd : length d ≡ 128 = length-xor_range 0x0d 0x34 4 f (omega arith) ∙ hf in
    ap (λ t. swap_range 0 0x4d 4 (xor_range 0 0x40 0x40 (xor_range 0x0d 0x34 4 t)))
      (xor_twice 0x40 0 0x40 (omega arith) d (omega arith))
    ∙ ap (λ t. swap_range 0 0x4d 4 (xor_range 0 0x40 0x40 t))
        (xor_twice 0x0d 0x34 4 (omega arith) f (omega arith))
    ∙ ap (swap_range 0 0x4d 4) (xor_twice 0 0x40 0x40 (omega arith) s (omega arith))
    ∙ swap_twice 0 0x4d 4 (omega arith) m (omega arith) (omega arith)

-- A 128-byte block that a client unscrambles is the scrambled form of what it gets.
pub scramble-unscramble : (m : Bytes) → length m ≡ 128 → scramble_modulus (unscramble_modulus m) ≡ m
unfolding unscramble_modulus scramble_modulus
scramble-unscramble m h =
    let d = xor_range 0x40 0 0x40 m in
    let hd : length d ≡ 128 = length-xor_range 0x40 0 0x40 m (omega arith) ∙ h in
    let f = xor_range 0x0d 0x34 4 d in
    let hf : length f ≡ 128 = length-xor_range 0x0d 0x34 4 d (omega arith) ∙ hd in
    let s = xor_range 0 0x40 0x40 f in
    let hs : length s ≡ 128 = length-xor_range 0 0x40 0x40 f (omega arith) ∙ hf in
    ap (λ t. xor_range 0x40 0 0x40 (xor_range 0x0d 0x34 4 (xor_range 0 0x40 0x40 t)))
      (swap_twice 0 0x4d 4 (omega arith) s (omega arith) (omega arith))
    ∙ ap (λ t. xor_range 0x40 0 0x40 (xor_range 0x0d 0x34 4 t))
        (xor_twice 0 0x40 0x40 (omega arith) f (omega arith))
    ∙ ap (xor_range 0x40 0 0x40) (xor_twice 0x0d 0x34 4 (omega arith) d (omega arith))
    ∙ xor_twice 0x40 0 0x40 (omega arith) m (omega arith)
