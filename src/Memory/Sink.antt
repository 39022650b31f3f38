-- ===== src/Memory/Sink.antt =====
-- The loops of Search sort by descending similarity, and the result holds the best candidates.
use ace.Prelude.{
  ℕ, suc, ◌-◌, ◌≡◌, refl, ap, ◌∙◌, sym, subst, false, List, [], ◌∷◌, ◌++◌, arith, length,
  if◌then◌else◌, Bool-cases, inl, inr, append-nil, if_true, if_false, ◌+◌, All,
}
use mathlib.Core.List.{Perm, perm_middle}
use mathlib.Core.List.Perm
use ace.Memory.{Floats, IsFloats, Pair, swap_pair, rises, sink, sort_from, insertion_sort}

module _ {A : Type 0} where
  -- `back` in reverse, and behind it `rest`.
  abbrev pub onto : List A → List A → List A
  onto [] rest = rest
  onto (a ∷ back) rest = onto back (a ∷ rest)

  onto-perm : (back rest : List A) → Perm (onto back rest) (back ++ rest)
  onto-perm [] rest = Perm.rfl
  onto-perm (a ∷ back) rest = Perm.trans (onto-perm back (a ∷ rest)) (perm_middle back rest)

  All-onto :
      (P : A → Type 0) (back rest : List A) → All P back → All P rest → All P (onto back rest)
  All-onto P [] rest h k = k
  All-onto P (a ∷ back) rest h k = All-onto P back (a ∷ rest) h.1 (h.0, k)

  All-both : (P Q : A → Type 0) (xs : List A) → All P xs → All Q xs → All (λ a. P a × Q a) xs
  All-both P Q [] h k = tt
  All-both P Q (a ∷ xs) h k = ((h.0, k.0), All-both P Q xs h.1 k.1)

module _ (f : Floats) where
  abbrev P : Type 0
  P = Pair f

  -- From the greatest similarity to the least.
  abbrev pub Descending : List P → Type 0
  Descending [] = Unit
  Descending (a ∷ xs) = All (λ (b : P). f.gt b.sim a.sim ≡ false) xs × Descending xs

  abbrev Ascending : List P → Type 0
  Ascending [] = Unit
  Ascending (a ∷ back) = All (λ (b : P). f.gt a.sim b.sim ≡ false) back × Ascending back

  -- The reference definition: insertion into the sorted part, which is kept with its last element
  -- in front.
  abbrev pub insert_back : P → List P → List P
  insert_back p [] = p ∷ []
  insert_back p (q ∷ back) =
      let rest = insert_back p back in if f.gt p.sim q.sim then q ∷ rest else p ∷ q ∷ back

  abbrev pub insert_each : List P → List P → List P
  insert_each back [] = back
  insert_each back (p ∷ rest) = insert_each (insert_back p back) rest

  swap_pair-cons :
      (n : ℕ) (c : P) (xs : List P) → swap_pair f (c ∷ xs) (suc n) ≡ c ∷ swap_pair f xs n
  unfolding swap_pair
  swap_pair-cons n c [] = refl
  swap_pair-cons n c (x ∷ xs) = refl

  rises-cons : (n : ℕ) (c : P) (xs : List P) → rises f (c ∷ xs) (suc n) ≡ rises f xs n
  unfolding rises
  rises-cons n c [] = refl
  rises-cons n c (x ∷ xs) = refl

  swap_pair-onto :
      (back xs : List P) (n k : ℕ)
      → n ≡ length back + k
      → swap_pair f (onto back xs) n ≡ onto back (swap_pair f xs k)
  swap_pair-onto [] xs n k e = ap (swap_pair f xs) {x = n} {y = k} (omega (arith, e))
  swap_pair-onto (c ∷ back) xs n k e =
      swap_pair-onto back (c ∷ xs) n (suc k) (omega (arith, e))
      ∙ ap (onto back) (swap_pair-cons k c xs)

  rises-onto :
      (back xs : List P) (n k : ℕ) → n ≡ length back + k → rises f (onto back xs) n ≡ rises f xs k
  rises-onto [] xs n k e = ap (rises f xs) {x = n} {y = k} (omega (arith, e))
  rises-onto (c ∷ back) xs n k e =
      rises-onto back (c ∷ xs) n (suc k) (omega (arith, e)) ∙ rises-cons k c xs

  -- The inner loop inserts.
  sink-onto :
      (back rest : List P) (p : P)
      → sink f (length back) (onto back (p ∷ rest)) ≡ onto (insert_back p back) rest
  unfolding sink
  sink-onto [] rest p = refl
  sink-onto (q ∷ back) rest p =
      let test : rises f (onto back (q ∷ p ∷ rest)) (length back) ≡ f.gt p.sim q.sim =
        unfold rises in rises-onto back (q ∷ p ∷ rest) (length back) 0 (omega arith) in
      let swapped : swap_pair f (onto back (q ∷ p ∷ rest)) (length back)
          ≡ onto back (p ∷ q ∷ rest) =
        unfold swap_pair in swap_pair-onto back (q ∷ p ∷ rest) (length back) 0 (omega arith) in
      elim (Bool-cases (f.gt p.sim q.sim)) [
        | inl e ↦
            if_true (rises f (onto back (q ∷ p ∷ rest)) (length back)) _ _ (test ∙ e)
            ∙ ap (sink f (length back)) swapped
            ∙ sink-onto back (q ∷ rest) p
            ∙ ap (λ l. onto l rest) (sym (if_true (f.gt p.sim q.sim) _ _ e))
        | inr e ↦
            if_false (rises f (onto back (q ∷ p ∷ rest)) (length back)) _ _ (test ∙ e)
            ∙ ap (λ l. onto l rest) (sym (if_false (f.gt p.sim q.sim) _ _ e))
      ]

  length-insert_back : (p : P) (back : List P) → length (insert_back p back) ≡ suc (length back)
  length-insert_back p [] = refl
  length-insert_back p (q ∷ back) = ground (arith, length-insert_back p back)

  sort_from-onto :
      (rest back : List P) (i : ℕ)
      → i ≡ length back
      → sort_from f (length rest) i (onto back rest) ≡ onto (insert_each back rest) []
  unfolding sort_from
  sort_from-onto [] back i e = refl
  sort_from-onto (p ∷ rest) back i e =
      ap (λ n. sort_from f (length rest) (suc i) (sink f n (onto back (p ∷ rest)))) e
      ∙ ap (sort_from f (length rest) (suc i)) (sink-onto back rest p)
      ∙ sort_from-onto rest (insert_back p back) (suc i) (omega (arith, length-insert_back p back))

  -- The two nested loops over the array, which swap neighbours, compute what inserting the
  -- candidates one by one does, whatever the comparison is.
  pub insertion_sort-insert_each : (xs : List P) → insertion_sort f xs ≡ onto (insert_each [] xs) []
  unfolding insertion_sort sort_from
  insertion_sort-insert_each [] = refl
  insertion_sort-insert_each (x ∷ xs) =
      ap (λ n. sort_from f n 1 (x ∷ xs)) {x = suc (length xs) - 1} {y = length xs} (omega arith)
      ∙ sort_from-onto xs (x ∷ []) 1 refl

  insert_back-perm : (p : P) (back : List P) → Perm (insert_back p back) (p ∷ back)
  insert_back-perm p [] = Perm.rfl
  insert_back-perm p (q ∷ back) = elim (Bool-cases (f.gt p.sim q.sim)) [
    | inl e ↦ rw e (Perm.trans (Perm.cons q (insert_back-perm p back)) (Perm.swap p q back))
    | inr e ↦ rw e Perm.rfl
  ]

  insert_each-perm : (rest back : List P) → Perm (insert_each back rest) (rest ++ back)
  insert_each-perm [] back = Perm.rfl
  insert_each-perm (p ∷ rest) back =
      Perm.trans (insert_each-perm rest (insert_back p back))
        (Perm.trans (Perm.append_left rest (insert_back-perm p back)) (perm_middle rest back))

  insert_back-All :
      (Q : P → Type 0) (p : P) (back : List P) → Q p → All Q back → All Q (insert_back p back)
  insert_back-All Q p [] h k = (h, tt)
  insert_back-All Q p (q ∷ back) h k = elim (Bool-cases (f.gt p.sim q.sim)) [
    | inl e ↦ rw e (k.0, insert_back-All Q p back h k.1)
    | inr e ↦ rw e (h, k)
  ]

  insert_each-All :
      (Q : P → Type 0) (rest back : List P)
      → All Q rest
      → All Q back
      → All Q (insert_each back rest)
  insert_each-All Q [] back h k = k
  insert_each-All Q (p ∷ rest) back h k =
      insert_each-All Q rest (insert_back p back) h.1 (insert_back-All Q p back h.0 k)

  Descending-onto :
      (back rest : List P)
      → Ascending back
      → Descending rest
      → All (λ (a : P). All (λ (b : P). f.gt b.sim a.sim ≡ false) rest) back
      → Descending (onto back rest)
  Descending-onto [] rest up down apart = down
  Descending-onto (a ∷ back) rest up down apart =
      Descending-onto back (a ∷ rest) up.1 (apart.0, down)
        (All-both (λ (c : P). f.gt a.sim c.sim ≡ false)
          (λ (c : P). All (λ (b : P). f.gt b.sim c.sim ≡ false) rest) back up.0 apart.1)

  All-nil : (back : List P) → All (λ (a : P). All (λ (b : P). f.gt b.sim a.sim ≡ false) []) back
  All-nil [] = tt
  All-nil (a ∷ back) = (tt, All-nil back)

  module _ (laws : IsFloats f) where
    abbrev pub IsScored : List P → Type 0
    IsScored = All (λ (p : P). laws.IsNumber p.sim)

    under :
        (p q : P) (back : List P)
        → laws.IsNumber q.sim
        → f.gt p.sim q.sim ≡ false
        → All (λ (b : P). f.gt q.sim b.sim ≡ false) back
        → All (λ (b : P). f.gt p.sim b.sim ≡ false) back
    under p q [] num e h = tt
    under p q (b ∷ back) num e h =
        (laws.gt_neg_trans p.sim q.sim b.sim num e h.0, under p q back num e h.1)

    insert_back-Ascending :
        (p : P) (back : List P) → IsScored back → Ascending back → Ascending (insert_back p back)
    insert_back-Ascending p [] num up = (tt, tt)
    insert_back-Ascending p (q ∷ back) num up = elim (Bool-cases (f.gt p.sim q.sim)) [
      | inl e ↦ rw e (
        insert_back-All (λ (b : P). f.gt q.sim b.sim ≡ false) p back (laws.gt_asymm p.sim q.sim e)
            up.0,
        insert_back-Ascending p back num.1 up.1,
      )
      | inr e ↦ rw e ((e, under p q back num.0 e up.0), up)
    ]

    insert_each-Ascending :
        (rest back : List P)
        → IsScored rest
        → IsScored back
        → Ascending back
        → Ascending (insert_each back rest)
    insert_each-Ascending [] back num nums up = up
    insert_each-Ascending (p ∷ rest) back num nums up =
        insert_each-Ascending rest (insert_back p back) num.1
          (insert_back-All (λ (q : P). laws.IsNumber q.sim) p back num.0 nums)
          (insert_back-Ascending p back nums up)

    pub insertion_sort-Descending : (xs : List P) → IsScored xs → Descending (insertion_sort f xs)
    insertion_sort-Descending xs num = subst Descending (sym (insertion_sort-insert_each xs)) (
        Descending-onto (insert_each [] xs) [] (insert_each-Ascending xs [] num tt tt) tt
          (All-nil (insert_each [] xs)))

  pub insertion_sort-perm : (xs : List P) → Perm (insertion_sort f xs) xs
  insertion_sort-perm xs =
      subst (λ l. Perm l xs) (sym (insertion_sort-insert_each xs))
        (Perm.trans (onto-perm (insert_each [] xs) []) (
          subst (λ l. Perm (insert_each [] xs ++ []) l) (append-nil xs)
            (Perm.append_right []
              (subst (λ l. Perm (insert_each [] xs) l) (append-nil xs) (insert_each-perm xs [])))))

  pub insertion_sort-All : (Q : P → Type 0) (xs : List P) → All Q xs → All Q (insertion_sort f xs)
  insertion_sort-All Q xs h =
      subst (All Q) (sym (insertion_sort-insert_each xs))
        (All-onto Q (insert_each [] xs) [] (insert_each-All Q xs [] h tt) tt)

  length-insert_each :
      (rest back : List P) → length (insert_each back rest) ≡ length rest + length back
  length-insert_each [] back = omega arith
  length-insert_each (p ∷ rest) back =
      omega (arith, length-insert_each rest (insert_back p back), length-insert_back p back)

  length-onto : (back rest : List P) → length (onto back rest) ≡ length back + length rest
  length-onto [] rest = omega arith
  length-onto (a ∷ back) rest = omega (arith, length-onto back (a ∷ rest))

  pub length-insertion_sort : (xs : List P) → length (insertion_sort f xs) ≡ length xs
  length-insertion_sort xs = omega (
    arith,
    ap length (insertion_sort-insert_each xs),
    length-onto (insert_each [] xs) [],
    length-insert_each xs [],
  )
