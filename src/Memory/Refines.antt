-- ===== src/Memory/Refines.antt =====
-- The in-memory store implements a map from ids to entries.
use ace.Prelude.{
  ◌≡◌, ◌≢◌, refl, ap, ◌∙◌, sym, subst, false, Option, none, some, List, [], ◌∷◌, arith, All,
  if◌then◌else◌, Bool-cases, inl, inr, String, str_eq, str_eq_iff,
}
use ace.Memory.{Floats, MemoryEntry, upsert, delete_entry, fill_hole, split_last}

module _ (f : Floats) where
  abbrev Entry : Type 0
  Entry = MemoryEntry f

  -- The abstract store: at most one entry for an id.
  abbrev Spec : Type 0
  Spec = String → Option Entry

  pub data Op : Type 0 where
    upserted : Entry → Op
    deleted : String → Op

  abbrev pub step : List Entry → Op → List Entry
  step entries (upserted e) = upsert f entries e
  step entries (deleted id) = delete_entry f entries id

  abbrev pub run : List Entry → List Op → List Entry
  run entries [] = entries
  run entries (op ∷ ops) = run (step entries op) ops

  abbrev pub spec_step : Spec → Op → Spec
  spec_step s (upserted e) id = if str_eq e.id id then some e else s id
  spec_step s (deleted gone) id = if str_eq gone id then none else s id

  abbrev pub spec_run : Spec → List Op → Spec
  spec_run s [] = s
  spec_run s (op ∷ ops) = spec_run (spec_step s op) ops

  abbrev pub find : List Entry → Spec
  find [] id = none
  find (e ∷ entries) id = if str_eq e.id id then some e else find entries id

  -- No two entries have the same id.
  abbrev pub UniqueIds : List Entry → Type 0
  UniqueIds [] = Unit
  UniqueIds (e ∷ entries) = All (λ (c : Entry). c.id ≢ e.id) entries × UniqueIds entries

  module _ (P : Entry → Type 0) where
    upsert-All : (es : List Entry) (e : Entry) → P e → All P es → All P (upsert f es e)
    unfolding upsert
    upsert-All [] e p h = (p, tt)
    upsert-All (x ∷ es) e p h = elim (Bool-cases (str_eq x.id e.id)) [
      | inl same ↦ rw same (p, h.1)
      | inr other ↦ rw other (h.0, upsert-All es e p h.1)
    ]

    split_last-All :
        (x : Entry) (es : List Entry)
        → P x
        → All P es
        → P (split_last f x es).0 × All P (split_last f x es).1
    unfolding split_last
    split_last-All x [] p h = (p, tt)
    split_last-All x (y ∷ es) p h =
        let (last, before) = split_last-All y es h.0 h.1 in (last, (p, before))

    fill_hole-All : (es : List Entry) → All P es → All P (fill_hole f es)
    unfolding fill_hole
    fill_hole-All [] h = tt
    fill_hole-All (x ∷ es) h = split_last-All x es h.0 h.1

    delete_entry-All : (es : List Entry) (id : String) → All P es → All P (delete_entry f es id)
    unfolding delete_entry
    delete_entry-All [] id h = tt
    delete_entry-All (x ∷ es) id h = elim (Bool-cases (str_eq x.id id)) [
      | inl same ↦ rw same (fill_hole-All es h.1)
      | inr other ↦ rw other (h.0, delete_entry-All es id h.1)
    ]

  not_same : (a b : String) → str_eq a b ≡ false → a ≢ b
  not_same a b h e = ground (arith, (str_eq_iff a b).1 e)

  ids_of :
      (es : List Entry) (a b : String)
      → a ≡ b
      → All (λ (c : Entry). c.id ≢ a) es
      → All (λ (c : Entry). c.id ≢ b) es
  ids_of es a b e h = subst (λ id. All (λ (c : Entry). c.id ≢ id) es) e h

  upsert-UniqueIds : (es : List Entry) (e : Entry) → UniqueIds es → UniqueIds (upsert f es e)
  unfolding upsert
  upsert-UniqueIds [] e u = (tt, tt)
  upsert-UniqueIds (x ∷ es) e u = elim (Bool-cases (str_eq x.id e.id)) [
    | inl same ↦ rw same (ids_of es x.id e.id ((str_eq_iff x.id e.id).0 same) u.0, u.1)
    | inr other ↦ rw other (
      upsert-All (λ (c : Entry). c.id ≢ x.id) es e (λ q. not_same x.id e.id other (sym q)) u.0,
      upsert-UniqueIds es e u.1,
    )
  ]

  split_last-UniqueIds :
      (x : Entry) (es : List Entry)
      → UniqueIds (x ∷ es)
      → UniqueIds ((split_last f x es).0 ∷ (split_last f x es).1)
  unfolding split_last
  split_last-UniqueIds x [] u = u
  split_last-UniqueIds x (y ∷ es) u =
      let (away, before) = split_last-All (λ (c : Entry). c.id ≢ x.id) y es u.0.0 u.0.1 in
      let (others, rest) = split_last-UniqueIds y es u.1 in
      ((λ q. away (sym q), others), (before, rest))

  fill_hole-UniqueIds : (es : List Entry) → UniqueIds es → UniqueIds (fill_hole f es)
  unfolding fill_hole
  fill_hole-UniqueIds [] u = tt
  fill_hole-UniqueIds (x ∷ es) u = split_last-UniqueIds x es u

  delete_entry-UniqueIds :
      (es : List Entry) (id : String) → UniqueIds es → UniqueIds (delete_entry f es id)
  unfolding delete_entry
  delete_entry-UniqueIds [] id u = tt
  delete_entry-UniqueIds (x ∷ es) id u = elim (Bool-cases (str_eq x.id id)) [
    | inl same ↦ rw same (fill_hole-UniqueIds es u.1)
    | inr other ↦
        rw other (
          delete_entry-All (λ (c : Entry). c.id ≢ x.id) es id u.0,
          delete_entry-UniqueIds es id u.1,
        )
  ]

  find-upsert :
      (es : List Entry) (e : Entry) (id : String)
      → find (upsert f es e) id ≡ (if str_eq e.id id then some e else find es id)
  unfolding upsert
  find-upsert [] e id = refl
  find-upsert (x ∷ es) e id = elim (Bool-cases (str_eq x.id e.id)) [
    | inl same ↦
        rw same
          (ground (arith, (str_eq_iff x.id e.id).0 same, str_eq_iff x.id id, str_eq_iff e.id id))
    | inr other ↦
        ground
          (arith, find-upsert es e id, str_eq_iff x.id e.id, str_eq_iff x.id id, str_eq_iff e.id id)
  ]

  find-none :
      (es : List Entry) (id : String) → All (λ (c : Entry). c.id ≢ id) es → find es id ≡ none
  find-none [] id h = refl
  find-none (x ∷ es) id h = ground (arith, find-none es id h.1, str_eq_iff x.id id)

  find-split_last :
      (x : Entry) (es : List Entry) (id : String)
      → UniqueIds (x ∷ es)
      → find ((split_last f x es).0 ∷ (split_last f x es).1) id ≡ find (x ∷ es) id
  unfolding split_last
  find-split_last x [] id u = refl
  find-split_last x (y ∷ es) id u =
      let away = (split_last-All (λ (c : Entry). c.id ≢ x.id) y es u.0.0 u.0.1).0 in
      let last = (split_last f y es).0 in
      ground (
        arith,
        find-split_last y es id u.1,
        away,
        str_eq_iff x.id id,
        str_eq_iff last.id id,
        str_eq_iff y.id id,
      )

  find-fill_hole :
      (es : List Entry) (id : String) → UniqueIds es → find (fill_hole f es) id ≡ find es id
  unfolding fill_hole
  find-fill_hole [] id u = refl
  find-fill_hole (x ∷ es) id u = find-split_last x es id u

  find-delete_entry :
      (es : List Entry) (gone id : String)
      → UniqueIds es
      → find (delete_entry f es gone) id ≡ (if str_eq gone id then none else find es id)
  unfolding delete_entry
  find-delete_entry [] gone id u = ground arith
  find-delete_entry (x ∷ es) gone id u = elim (Bool-cases (str_eq x.id gone)) [
    | inl same ↦
        let one : x.id ≡ gone = (str_eq_iff x.id gone).0 same in
        rw same (
          find-fill_hole es id u.1
          ∙ ground (
            arith,
            find-none es gone (ids_of es x.id gone one u.0),
            one,
            str_eq_iff x.id id,
            str_eq_iff gone id,
          ))
    | inr other ↦ ground (
      arith,
      find-delete_entry es gone id u.1,
      str_eq_iff x.id gone,
      str_eq_iff x.id id,
      str_eq_iff gone id,
    )
  ]

  run_from :
      (ops : List Op) (es : List Entry) (s : Spec)
      → UniqueIds es
      → ((id : String) → find es id ≡ s id)
      → UniqueIds (run es ops) × ((id : String) → find (run es ops) id ≡ spec_run s ops id)
  run_from [] es s u same = (u, same)
  run_from (upserted e ∷ ops) es s u same =
      run_from ops (upsert f es e) (spec_step s (upserted e)) (upsert-UniqueIds es e u)
        (λ id. find-upsert es e id ∙ ap (λ o. if str_eq e.id id then some e else o) (same id))
  run_from (deleted gone ∷ ops) es s u same =
      run_from ops (delete_entry f es gone) (spec_step s (deleted gone))
        (delete_entry-UniqueIds es gone u)
        (λ id.
          find-delete_entry es gone id u ∙ ap (λ o. if str_eq gone id then none else o) (same id))

  -- A new store that runs through any sequence of Upsert and Delete implements the map that the same
  -- sequence makes of the empty one: its entries have different ids, and every id finds the entry
  -- the map has for it, or none if the map has none. So a deletion, which moves the last entry into
  -- the hole, loses no other entry, and an upsert replaces the whole entry.
  pub run_refines :
      (ops : List Op)
      → UniqueIds (run [] ops)
        × ((id : String) → find (run [] ops) id ≡ spec_run (λ (_ : String). none) ops id)
  run_refines ops = run_from ops [] (λ (_ : String). none) tt (λ id. refl)
