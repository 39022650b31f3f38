-- ===== src/Logd/Flushing.antt =====
-- What a flush and an append do to the rows that wait.
use ace.Prelude.{
  ◌≡◌, refl, ap, ◌∙◌, sym, subst, Bool, true, false, Option, none, some, List, [], ◌∷◌, ◌++◌,
  append-nil, arith, length, if◌then◌else◌, inl, inr, ◌⊎◌,
}
use ace.Logd.{
  flushed, appended_to, ensured, LogRow, ChWriter, Batcher, ch_append, ch_flush, flush_locked,
}

abbrev pub waiting_in : Option (List LogRow) → List LogRow
waiting_in none = []
waiting_in (some rows) = rows

-- The rows of the batch that is not sent yet.
abbrev pub waiting : Batcher → List LogRow
waiting b = waiting_in b.w.batch

-- The count is that of the rows waiting, and what was sent and what waits are the rows accepted.
abbrev pub IsExact : List LogRow → Batcher → Type 0
IsExact rows b = (b.buffered ≡ length (waiting b)) × (b.w.sent ++ waiting b ≡ rows)

abbrev Flushed : ChWriter → List LogRow → ChWriter × Bool → Type 0
Flushed w rows t =
    ((t.1 ≡ true) × (waiting_in t.0.batch ≡ []) × (t.0.sent ≡ w.sent ++ rows))
    ⊎ ((t.1 ≡ false) × (t.0 ≡ w))

flushed_lem :
    (sends : Bool) (w : ChWriter) (o : Option (List LogRow))
    → w.batch ≡ o
    → Flushed w (waiting_in o) (flushed sends w o)
flushed_lem sends w none e = inl (refl, ap waiting_in e, sym (append-nil w.sent))
flushed_lem true w (some rows) e = inl (refl, refl, refl)
flushed_lem false w (some rows) e = inr (refl, refl)

flush_locked_lem :
    (sends : Bool) (b : Batcher)
    → (((flush_locked sends b).1 ≡ true)
        × ((flush_locked sends b).0.buffered ≡ 0)
        × (waiting (flush_locked sends b).0 ≡ [])
        × ((flush_locked sends b).0.w.sent ≡ b.w.sent ++ waiting b))
      ⊎ (((flush_locked sends b).1 ≡ false) × ((flush_locked sends b).0 ≡ b))
unfolding flush_locked ch_flush
flush_locked_lem sends b =
    by_outcome (flushed sends b.w b.w.batch) (flushed_lem sends b.w b.w.batch refl)
  where
    after : ChWriter × Bool → Batcher × Bool
    after t =
        if t.1 then (record b { w = t.0; buffered = 0 }, true) else (record b { w = t.0 }, false)

    by_outcome :
        (t : ChWriter × Bool)
        → ((t.1 ≡ true) × (waiting_in t.0.batch ≡ []) × (t.0.sent ≡ b.w.sent ++ waiting b))
          ⊎ ((t.1 ≡ false) × (t.0 ≡ b.w))
        → (((after t).1 ≡ true)
            × ((after t).0.buffered ≡ 0)
            × (waiting (after t).0 ≡ [])
            × ((after t).0.w.sent ≡ b.w.sent ++ waiting b))
          ⊎ (((after t).1 ≡ false) × ((after t).0 ≡ b))
    by_outcome (w, true) (inl h) = inl (refl, refl, h.1, h.2)
    by_outcome (w, false) (inl h) = absurd (ground (arith, h.0))
    by_outcome (w, true) (inr h) = absurd (ground (arith, h.0))
    by_outcome (w, false) (inr h) = inr (refl, ap (λ (u : ChWriter). record b { w = u }) h.1)

pub flush_locked-IsExact :
    (sends : Bool) (rows : List LogRow) (b : Batcher)
    → IsExact rows b
    → IsExact rows (flush_locked sends b).0
flush_locked-IsExact sends rows b ok = elim (flush_locked_lem sends b) [
  | inl h ↦ (
    h.1 ∙ sym (ap length h.2),
    ap (λ l. (flush_locked sends b).0.w.sent ++ l) h.2
        ∙ append-nil (flush_locked sends b).0.w.sent
        ∙ h.3
        ∙ ok.1,
  )
  | inr h ↦ subst (IsExact rows) (sym h.1) ok
]

-- What an append does to the rows that wait.
pub ch_append_lem :
    (prepared appended : Bool) (w : ChWriter) (row : LogRow)
    → let (w', ok) = ch_append prepared appended w row in
      (w'.sent ≡ w.sent)
      × (waiting_in w'.batch ≡ waiting_in w.batch ++ (if ok then row ∷ [] else []))
unfolding ch_append
ch_append_lem prepared appended w row = by_batch w.batch refl prepared appended
  where
    by_batch :
        (o : Option (List LogRow))
        → w.batch ≡ o
        → (p a : Bool)
        → let (w', ok) = appended_to w row a (ensured p o) in
          (w'.sent ≡ w.sent) × (waiting_in w'.batch ≡ waiting_in o ++ (if ok then row ∷ [] else []))
    by_batch none e true true = (refl, refl)
    by_batch none e true false = (refl, refl)
    by_batch none e false a = (refl, ap waiting_in e)
    by_batch (some rows) e p true = (refl, refl)
    by_batch (some rows) e p false = (refl, sym (append-nil rows))

flushed-true : (w : ChWriter) (o : Option (List LogRow)) → (flushed true w o).1 ≡ true
flushed-true w none = refl
flushed-true w (some rows) = refl

flush_locked-true : (b : Batcher) → (flush_locked true b).1 ≡ true
unfolding flush_locked ch_flush
flush_locked-true b =
    let w = (flushed true b.w b.w.batch).0 in
    let reset : Batcher = record b { w = w; buffered = 0 } in
    let kept : Batcher = record b { w = w } in
    let outcome : Bool → Bool = λ ok. (if_both ok (reset, true) (kept, false)).1 in
    ap outcome (flushed-true b.w b.w.batch)
  where
    if_both : Bool → Batcher × Bool → Batcher × Bool → Batcher × Bool
    if_both ok x y = if ok then x else y

pub flush_true :
    (b : Batcher)
    → (waiting (flush_locked true b).0 ≡ [])
      × ((flush_locked true b).0.w.sent ≡ b.w.sent ++ waiting b)
flush_true b = elim (flush_locked_lem true b) [
  | inl h ↦ (h.2, h.3)
  | inr h ↦ absurd (ground (arith, h.0, flush_locked-true b))
]
