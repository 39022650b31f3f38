-- ===== src/Gateway/Creation/Fits.antt =====
-- Which character creations the 756-byte answer can hold.
use ace.Prelude.{
  ℕ, ◌+◌, ◌-◌, ◌*◌, ◌≤◌, ◌<◌, max, ◌≡◌, refl, ap, ◌∙◌, none, some, List, [], ◌∷◌, ◌++◌, arith,
  length, take, drop, replicate, ltb, if_true, if_false, le→ltb, ltb-false→le, ltb→lt, ◌⊎◌,
  Bool-cases, inl, inr, length-append, length-take, length-drop, length-replicate,
}
use ace.Bytes.{Bytes}
use ace.Gateway.Creation.{
  CharInfo, Cursor, Write, slice, gap, run_writes, name_units, character_writes,
  create_character_ok, buffer_of, skip_text, parse_create_char_info,
}

-- Where the last slice of a run ends.
last_end : ℕ → List Write → ℕ
last_end pos [] = 0
last_end pos (slice bs ∷ ws) = max (pos + length bs) (last_end (pos + length bs) ws)
last_end pos (gap n ∷ ws) = last_end (pos + n) ws

length-written :
    (c : Cursor) (bs : Bytes)
    → c.pos + length bs ≤ length c.buf
    → length (take c.pos c.buf ++ (bs ++ drop (c.pos + length bs) c.buf)) ≡ length c.buf
length-written c bs h = omega (
  arith,
  length-append (take c.pos c.buf) (bs ++ drop (c.pos + length bs) c.buf),
  length-append bs (drop (c.pos + length bs) c.buf),
  length-take c.pos c.buf,
  length-drop (c.pos + length bs) c.buf,
)

run_writes-some :
    (ws : List Write) (c : Cursor)
    → last_end c.pos ws ≤ length c.buf
    → (c' : Cursor) × (run_writes c ws ≡ some c') × (length c'.buf ≡ length c.buf)
unfolding run_writes last_end
run_writes-some [] c h = (c, refl, refl)
run_writes-some (slice bs ∷ ws) c h =
    let end = c.pos + length bs in
    let next : Cursor = record { buf = take c.pos c.buf ++ (bs ++ drop end c.buf); pos = end } in
    let size = length-written c bs (omega arith) in
    let (c', e, l) = run_writes-some ws next (omega (arith, size)) in
    (
      c',
      if_false (ltb (length c.buf) end) none _ (le→ltb (length c.buf) end (omega arith)) ∙ e,
      l ∙ size,
    )
run_writes-some (gap n ∷ ws) c h = run_writes-some ws (record c { pos = c.pos + n }) h

run_writes-none :
    (ws : List Write) (c : Cursor) → length c.buf < last_end c.pos ws → run_writes c ws ≡ none
unfolding run_writes last_end
run_writes-none [] c h = absurd (omega arith)
run_writes-none (slice bs ∷ ws) c h =
    let end = c.pos + length bs in
    elim (Bool-cases (ltb (length c.buf) end)) [
      | inl e ↦ if_true (ltb (length c.buf) end) none _ e
      | inr e ↦
          if_false (ltb (length c.buf) end) none _ e
          ∙ run_writes-none ws
              (record { buf = take c.pos c.buf ++ (bs ++ drop end c.buf); pos = end })
              (omega (arith, length-written c bs (ltb-false→le _ _ e), ltb-false→le _ _ e))
    ]
run_writes-none (gap n ∷ ws) c h = run_writes-none ws (record c { pos = c.pos + n }) h

length-name_units : (rs : List ℕ) → length (name_units rs) ≡ 2 * length rs
unfolding name_units
length-name_units [] = refl
length-name_units (r ∷ rs) = omega (arith, length-name_units rs)

-- The last field behind the appearance ends 196 bytes after it would without it.
last_end_lem :
    (obj_id : ℕ) (info : CharInfo) (now : ℕ)
    → last_end 0 (character_writes obj_id info now) ≡ 196 + length info.appearance
unfolding last_end character_writes
last_end_lem obj_id info now =
    omega (arith, length-name_units (take 25 info.name), length-take 25 info.name)

pub create_character_ok_parts :
    (obj_id : ℕ) (info : CharInfo) (now : ℕ)
    → (length info.appearance ≤ 560
        → (b : Bytes) × (create_character_ok obj_id info now ≡ some b) × (length b ≡ 756))
      × (560 < length info.appearance → create_character_ok obj_id info now ≡ none)
unfolding create_character_ok
create_character_ok_parts obj_id info now =
    let start : Cursor = record { buf = replicate 756 0; pos = 0 } in
    let ws = character_writes obj_id info now in
    let size : length start.buf ≡ 756 = length-replicate {A = ℕ} 756 0 in
    (
      λ short.
          let (c', e, l) =
            run_writes-some ws start (omega (arith, size, last_end_lem obj_id info now)) in
          (c'.buf, ap buffer_of e, l ∙ size),
      λ long.
          ap buffer_of
            (run_writes-none ws start (omega (arith, size, last_end_lem obj_id info now))),
    )

-- The answer to a character creation is built exactly if the appearance has at most 560 bytes, and
-- then it is 756 bytes long, whatever the name and the other fields are; a longer appearance makes
-- the code panic.
pub create_character_ok_lem :
    (obj_id : ℕ) (info : CharInfo) (now : ℕ)
    → ((length info.appearance ≤ 560)
        × ((b : Bytes) × (create_character_ok obj_id info now ≡ some b) × (length b ≡ 756)))
      ⊎ ((560 < length info.appearance) × (create_character_ok obj_id info now ≡ none))
create_character_ok_lem obj_id info now =
    let parts = create_character_ok_parts obj_id info now in
    elim (Bool-cases (ltb 560 (length info.appearance))) [
      | inl e ↦ let long = ltb→lt 560 (length info.appearance) e in inr (long, parts.1 long)
      | inr e ↦
          let short = ltb-false→le 560 (length info.appearance) e in inl (short, parts.0 short)
    ]

length-skip_text : (bs : Bytes) → length (skip_text bs) ≤ length bs
unfolding skip_text
length-skip_text [] = omega arith
length-skip_text (a ∷ []) = omega arith
length-skip_text (a ∷ b ∷ rest) = ground (arith, length-skip_text rest)

skip_text-short : (bs : Bytes) → 2 ≤ length bs → length (skip_text bs) + 2 ≤ length bs
unfolding skip_text
skip_text-short [] h = absurd (omega arith)
skip_text-short (a ∷ []) h = absurd (omega arith)
skip_text-short (a ∷ b ∷ rest) h = ground (arith, length-skip_text rest)

pub length-appearance :
    (payload : Bytes)
    → length payload ≤ 632
    → length (parse_create_char_info payload).appearance ≤ 560
unfolding parse_create_char_info
length-appearance payload h =
    let field = skip_text (drop 4 payload) in
    let rest = drop 52 field in
    let size = length-take (length rest - 2 - 12) (drop 12 rest) in
    elim (Bool-cases (ltb (length payload) 20)) [
      | inl e ↦ rw e (omega arith)
      | inr e ↦ rw e (elim (Bool-cases (ltb (length field) (52 + 12))) [
        | inl f ↦ rw f (omega arith)
        | inr f ↦ rw f (
            omega (
              arith,
              size,
              skip_text-short (drop 4 payload)
                  (omega (arith, ltb-false→le _ _ e, length-drop 4 payload)),
              length-drop 4 payload,
              length-drop 52 field,
            ))
      ])
    ]
