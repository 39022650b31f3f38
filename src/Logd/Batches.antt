-- ===== src/Logd/Batches.antt =====
-- No record is lost or sent twice, and a tick leaves none waiting.
use ace.Prelude.{
  ℕ, ◌+◌, ◌-◌, ◌≤◌, ◌≡◌, refl, ap, ap₂, ◌∙◌, sym, subst, Bool, true, false, ◌||◌, List, [], ◌∷◌,
  ◌++◌, append-nil, append_assoc, arith, length, length-append, ltb, leb, ◌==◌, ==_iff,
  if◌then◌else◌, if_true, if_false, le→ltb, Bool-cases, inl, inr,
}
use ace.Logd.{
  LogRow, ChWriter, Batcher, ch_append, new_batcher, flush_locked, add, tick, pending_count,
}
use ace.Logd.Flushing.{
  waiting_in, waiting, IsExact, flush_locked-IsExact, ch_append_lem, flush_true,
}

-- The calls, with what the driver does in them; an `added` record is accepted if it got into the
-- batch.
pub data Call : Type 0 where
  added : Bool → Bool → Bool → ℕ → LogRow → Call
  ticked : Bool → ℕ → Call

abbrev pub call : Batcher → Call → Batcher
call b (added prepared appended sends now row) = (add prepared appended sends now b row).0
call b (ticked sends now) = (tick sends now b).0

abbrev pub accepted : Batcher → Call → List LogRow
accepted b (added prepared appended sends now row) =
    if (ch_append prepared appended b.w row).1 then row ∷ [] else []
accepted b (ticked sends now) = []

abbrev pub run : Batcher → List Call → Batcher
run b [] = b
run b (c ∷ cs) = run (call b c) cs

abbrev pub all_accepted : Batcher → List Call → List LogRow
all_accepted b [] = []
all_accepted b (c ∷ cs) = accepted b c ++ all_accepted (call b c) cs

module _ (sends : Bool) (now : ℕ) (row : LogRow) (rows : List LogRow) (b : Batcher)
    (ok : IsExact rows b) where
  -- `add` behind the writer's answer.
  abbrev counted : ChWriter → Batcher
  counted w = record b {
    w = w;
    oldest = if b.buffered == 0 then now else b.oldest;
    buffered = b.buffered + 1;
  }

  abbrev answered : ChWriter × Bool → Batcher × Bool
  answered (w, appended) =
      if appended
      then (if leb b.max_rows (b.buffered + 1)
          then flush_locked sends (counted w)
          else (counted w, true))
      else (record b { w = w; oldest = if b.buffered == 0 then now else b.oldest }, false)

  counted-IsExact :
      (w : ChWriter)
      → w.sent ≡ b.w.sent
      → waiting_in w.batch ≡ waiting b ++ row ∷ []
      → IsExact (rows ++ row ∷ []) (counted w)
  counted-IsExact w same more = (
    omega (arith, ok.0, ap length more, length-append (waiting b) (row ∷ [])),
    ap₂ ◌++◌ same more
        ∙ sym (append_assoc b.w.sent (waiting b) (row ∷ []))
        ∙ ap (λ l. l ++ row ∷ []) ok.1,
  )

  answered-IsExact :
      (t : ChWriter × Bool)
      → t.0.sent ≡ b.w.sent
      → waiting_in t.0.batch ≡ waiting b ++ (if t.1 then row ∷ [] else [])
      → IsExact (rows ++ (if t.1 then row ∷ [] else [])) (answered t).0
  answered-IsExact (w, true) same more = elim (Bool-cases (leb b.max_rows (b.buffered + 1))) [
    | inl e ↦
        rw e
          (flush_locked-IsExact sends (rows ++ row ∷ []) (counted w) (counted-IsExact w same more))
    | inr e ↦ rw e (counted-IsExact w same more)
  ]
  answered-IsExact (w, false) same more = (
    omega (arith, ok.0, ap length (more ∙ append-nil (waiting b))),
    ap₂ ◌++◌ same (more ∙ append-nil (waiting b)) ∙ ok.1 ∙ sym (append-nil rows),
  )

  add-IsExact :
      (prepared appended : Bool)
      → IsExact
          (rows ++ accepted b (added prepared appended sends now row))
          (add prepared appended sends now b row).0
  unfolding add
  add-IsExact prepared appended =
      let (same, more) = ch_append_lem prepared appended b.w row in
      answered-IsExact (ch_append prepared appended b.w row) same more

tick-IsExact :
    (sends : Bool) (now : ℕ) (rows : List LogRow) (b : Batcher)
    → IsExact rows b
    → IsExact rows (tick sends now b).0
unfolding tick
tick-IsExact sends now rows b ok =
    elim (Bool-cases (b.buffered == 0 || ltb (now - b.oldest) b.max_age)) [
      | inl e ↦ rw e ok
      | inr e ↦ rw e (flush_locked-IsExact sends rows b ok)
    ]

call-IsExact :
    (rows : List LogRow) (b : Batcher) (c : Call)
    → IsExact rows b
    → IsExact (rows ++ accepted b c) (call b c)
call-IsExact rows b (added prepared appended sends now row) ok =
    add-IsExact sends now row rows b ok prepared appended
call-IsExact rows b (ticked sends now) ok =
    subst (λ l. IsExact l (tick sends now b).0) (sym (append-nil rows))
      (tick-IsExact sends now rows b ok)

run-IsExact :
    (rows : List LogRow) (b : Batcher) (cs : List Call)
    → IsExact rows b
    → IsExact (rows ++ all_accepted b cs) (run b cs)
run-IsExact rows b [] ok = subst (λ l. IsExact l b) (sym (append-nil rows)) ok
run-IsExact rows b (c ∷ cs) ok =
    subst (λ l. IsExact l (run (call b c) cs))
      (append_assoc rows (accepted b c) (all_accepted (call b c) cs))
      (run-IsExact (rows ++ accepted b c) (call b c) cs (call-IsExact rows b c ok))

empty_of : {A : Type 0} (xs : List A) → length xs ≡ 0 → xs ≡ []
empty_of [] h = refl
empty_of (x ∷ xs) h = absurd (omega arith)

-- A tick that comes `maxAge` after the oldest record, with a working Send, leaves nothing waiting.
tick-sends :
    (now : ℕ) (rows : List LogRow) (b : Batcher)
    → IsExact rows b
    → b.max_age ≤ now - b.oldest
    → (waiting (tick true now b).0 ≡ []) × ((tick true now b).0.w.sent ≡ rows)
unfolding tick
tick-sends now rows b ok late =
    let none_yet = b.buffered == 0 in
    let early = ltb (now - b.oldest) b.max_age in
    elim (Bool-cases none_yet) [
      | inl e ↦
          let nothing = empty_of (waiting b) (omega (arith, ok.0, (==_iff b.buffered 0).0 e)) in
          let skips =
            if_true (none_yet || early) (b, true) (flush_locked true b) (ap (λ t. t || early) e) in
          (
            ap (λ (t : Batcher × Bool). waiting t.0) skips ∙ nothing,
            ap (λ (t : Batcher × Bool). t.0.w.sent) skips
                ∙ sym (append-nil b.w.sent)
                ∙ ap (λ l. b.w.sent ++ l) (sym nothing)
                ∙ ok.1,
          )
      | inr e ↦
          let goes =
            if_false (none_yet || early) (b, true) (flush_locked true b)
              (ap (λ t. t || early) e ∙ le→ltb (now - b.oldest) b.max_age late) in
          let (gone, all) = flush_true b in
          (
            ap (λ (t : Batcher × Bool). waiting t.0) goes ∙ gone,
            ap (λ (t : Batcher × Bool). t.0.w.sent) goes ∙ all ∙ ok.1,
          )
    ]

-- After any calls of add and tick, one after the other, on a new batcher, whatever the driver does in
-- them: the pending count is the number of rows in the unsent batch, and the rows sent and those in
-- the batch are, in order, the rows that the writer accepted, each once. And the first tick that
-- comes at least the maximal age after the oldest row and can send brings all accepted rows to the
-- server.
pub batcher_lem :
    (max_rows max_age now : ℕ) (cs : List Call)
    → let start = new_batcher max_rows max_age in
      let b = run start cs in
      b.max_age ≤ now - b.oldest
      → (pending_count b ≡ length (waiting b))
        × (b.w.sent ++ waiting b ≡ all_accepted start cs)
        × (waiting (tick true now b).0 ≡ [])
        × ((tick true now b).0.w.sent ≡ all_accepted start cs)
unfolding pending_count
batcher_lem max_rows max_age now cs late =
    let start = new_batcher max_rows max_age in
    let ok : IsExact (all_accepted start cs) (run start cs) =
      run-IsExact [] start cs (unfold new_batcher in (refl, refl)) in
    let (none_left, all) = tick-sends now (all_accepted start cs) (run start cs) ok late in
    (ok.0, ok.1, none_left, all)
