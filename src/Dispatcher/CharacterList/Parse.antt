-- ===== src/Dispatcher/CharacterList/Parse.antt =====
-- The test client reads the world's character list.
use ace.Prelude.{
  ℕ, suc, ◌+◌, ◌%◌, ◌^◌, ◌<◌, ◌≡◌, refl, ap, ap₂, ◌∙◌, sym, Option, none, some, List, [], ◌∷◌, ◌++◌,
  append_assoc, arith, length, drop, All, ltb, ◌==◌, ◌≤◌, le→ltb, if_false, ◌⊎◌, inl, inr,
}
use ace.Bytes.{Bytes, put_le, get_le-put_le_of_lt}
use ace.TinyClient.Reading.{read_utf16_null, read_utf16_null_at, word_at, parse_character_list}
use ace.Dispatcher.CharacterList.{
  Row, Database, column, row_int32, text_of, utf16_of, char_fields, append_char_entry, char_entries,
  entries_in, id_entry, info_entry, found_entries, character_list,
}

-- Text of one ASCII character per unit, none of them null.
abbrev pub IsPlain : List ℕ → Type 0
IsPlain = All (λ (c : ℕ). (0 < c) × (c < 128))

unit_bytes : (c : ℕ) → c < 128 → put_le 2 (c % 2 ^ 16) ≡ c ∷ 0 ∷ []
unit_bytes c h = ap₂ (λ a b. a ∷ b ∷ []) (omega arith) (omega arith)

read_char :
    (c : ℕ) (rest : Bytes)
    → 0 < c
    → c < 128
    → (read_utf16_null (c ∷ 0 ∷ rest)).0 ≡ c ∷ (read_utf16_null rest).0
unfolding read_utf16_null
read_char c rest pos small = ground arith

read_utf16_null-utf16_of :
    (db : Database) (name : List ℕ) (rest : Bytes)
    → IsPlain name
    → (read_utf16_null (utf16_of db name ++ (0 ∷ 0 ∷ rest))).0 ≡ name
unfolding read_utf16_null utf16_of
read_utf16_null-utf16_of db [] rest h = ground arith
read_utf16_null-utf16_of db (c ∷ name) rest h =
    ap (λ u. (read_utf16_null ((u ++ utf16_of db name) ++ (0 ∷ 0 ∷ rest))).0) (unit_bytes c h.0.1)
    ∙ read_char c (utf16_of db name ++ (0 ∷ 0 ∷ rest)) h.0.0 h.0.1
    ∙ ap (λ l. c ∷ l) (read_utf16_null-utf16_of db name rest h.1)

module _ (db : Database) where
  -- The characters of a list of ids that have an id and information, with both.
  abbrev pub with_info : ℕ → Option (List Row) → List (ℕ × Row)
  with_info char_id none = []
  with_info char_id (some []) = []
  with_info char_id (some (info ∷ more)) = (char_id, info) ∷ []

  abbrev pub known : Option ℕ → List (ℕ × Row)
  known none = []
  known (some char_id) = with_info char_id (db.call_sp "aion_GetCharInfo_20160818" char_id)

  abbrev pub characters : List Row → List (ℕ × Row)
  characters [] = []
  characters (id_row ∷ id_rows) = known (row_int32 db id_row "char_id") ++ characters id_rows

  abbrev pub characters_of : Option (List Row) → List (ℕ × Row)
  characters_of none = []
  characters_of (some id_rows) = characters id_rows

  abbrev written : ℕ → List (ℕ × Row) → Bytes
  written account_id [] = []
  written account_id (c ∷ cs) = append_char_entry db c.0 account_id c.1 ++ written account_id cs

  id_entry_lem :
      (account_id : ℕ) (o : Option ℕ)
      → ((id_entry db account_id o ≡ none) × (known o ≡ []))
        ⊎ ((c : ℕ × Row) × (id_entry db account_id o
              ≡ some (append_char_entry db c.0 account_id c.1))
            × (known o ≡ c ∷ []))
  id_entry_lem account_id none = inl (refl, refl)
  id_entry_lem account_id (some char_id) = by_info (db.call_sp "aion_GetCharInfo_20160818" char_id)
    where
      by_info :
          (o : Option (List Row))
          → ((info_entry db account_id char_id o ≡ none) × (with_info char_id o ≡ []))
            ⊎ ((c : ℕ × Row) × (info_entry db account_id char_id o
                  ≡ some (append_char_entry db c.0 account_id c.1))
                × (with_info char_id o ≡ c ∷ []))
      by_info none = inl (refl, refl)
      by_info (some []) = inl (refl, refl)
      by_info (some (info ∷ more)) = inr ((char_id, info), refl, refl)

  abbrev added : ℕ × Bytes → ℕ × Bytes → Option Bytes → ℕ × Bytes
  added skipped counted none = skipped
  added skipped counted (some entry) = (counted.0, entry ++ counted.1)

  char_entries-characters :
      (account_id : ℕ) (id_rows : List Row) (count : ℕ)
      → count < 256
      → char_entries db account_id id_rows count
        ≡ ((count + length (characters id_rows)) % 256, written account_id (characters id_rows))
  unfolding char_entries
  char_entries-characters account_id [] count h = ap (λ (n : ℕ). (n, [])) (omega arith)
  char_entries-characters account_id (id_row ∷ id_rows) count h =
      let skip = char_entries-characters account_id id_rows count h in
      let go_on = char_entries-characters account_id id_rows ((count + 1) % 256) (omega arith) in
      let rest = characters id_rows in
      let skipped = char_entries db account_id id_rows count in
      let counted = char_entries db account_id id_rows ((count + 1) % 256) in
      let total : List (ℕ × Row) → ℕ × Bytes =
        λ l. ((count + length (l ++ rest)) % 256, written account_id (l ++ rest)) in
      elim (id_entry_lem account_id (row_int32 db id_row "char_id")) [
        | inl none_here ↦ ap (added skipped counted) none_here.0 ∙ skip ∙ ap total (sym none_here.1)
        | inr one ↦
            let (c, entry, listed) = one in
            ap (added skipped counted) entry
            ∙ ap (λ (t : ℕ × Bytes). (t.0, append_char_entry db c.0 account_id c.1 ++ t.1)) go_on
            ∙ ap
                (λ (n : ℕ). (n, append_char_entry db c.0 account_id c.1 ++ written account_id rest))
                {x = ((count + 1) % 256 + length rest) % 256}
                {y = (count + suc (length rest)) % 256} (omega arith)
            ∙ ap total (sym listed)
      ]

  -- What the client should see of a list of characters.
  abbrev pub seen : List (ℕ × Row) → ℕ × ℕ × Bytes
  seen [] = (0, 0, [])
  seen (c ∷ cs) = (suc (length cs), c.0 % 2 ^ 32, text_of db (column c.1 "user_id"))

  abbrev pub FirstIsPlain : List (ℕ × Row) → Type 0
  FirstIsPlain [] = Unit
  FirstIsPlain (c ∷ cs) = IsPlain (text_of db (column c.1 "user_id"))

  module _ (account_id : ℕ) (c : ℕ × Row) (cs : List (ℕ × Row)) where
    abbrev body : Bytes
    body = 0 ∷ 8 ∷ suc (length cs) ∷ written account_id (c ∷ cs)

    -- What follows the name in the packet.
    abbrev behind : Bytes
    behind = char_fields db c.1 ++ written account_id cs

    abbrev name : List ℕ
    name = text_of db (column c.1 "user_id")

    drop_ids : drop 11 body ≡ utf16_of db name ++ (0 ∷ 0 ∷ behind)
    unfolding append_char_entry
    drop_ids = append_assoc (utf16_of db name) (0 ∷ 0 ∷ char_fields db c.1) (written account_id cs)

    long : 11 ≤ length body
    unfolding append_char_entry
    long = omega arith

    first_id : word_at body 3 ≡ c.0 % 2 ^ 32
    unfolding append_char_entry
    first_id = get_le-put_le_of_lt 4 (c.0 % 2 ^ 32) (omega arith)

    first_name : IsPlain name → (read_utf16_null_at body 11).0 ≡ name
    unfolding read_utf16_null_at
    first_name plain =
        ap (λ l. (read_utf16_null l).0) drop_ids ∙ read_utf16_null-utf16_of db name behind plain

    parse_some : IsPlain name → parse_character_list body ≡ seen (c ∷ cs)
    unfolding parse_character_list
    parse_some plain =
        let got : ℕ × ℕ × Bytes =
          (suc (length cs), word_at body 3, (read_utf16_null_at body 11).0) in
        if_false (ltb (length body) 3) (0, 0, []) _ (le→ltb (length body) 3 (omega (arith, long)))
        ∙ if_false (suc (length cs) == 0) (0, 0, []) _ (ground arith)
        ∙ if_false (ltb (length body) 11) (suc (length cs), 0, []) got
            (le→ltb (length body) 11 long)
        ∙ ap₂ (λ (n : ℕ) (t : Bytes). (suc (length cs), n, t)) first_id (first_name plain)

  parse_written :
      (account_id : ℕ) (cs : List (ℕ × Row))
      → FirstIsPlain cs
      → parse_character_list (0 ∷ 8 ∷ length cs ∷ written account_id cs) ≡ seen cs
  parse_written account_id [] plain = unfold parse_character_list in ground arith
  parse_written account_id (c ∷ cs) plain = parse_some account_id c cs plain

  -- The test client reads from the world's character list how many characters the account has, and
  -- the id and name of the first, or that there is none: of the characters the database lists for
  -- the account, those that have an id and information. There are fewer than 256 of them, and the
  -- first name is ASCII.
  pub parse_character_list-character_list :
      (account_id : ℕ)
      → let cs = characters_of (db.call_sp "aion_GetCharIdList" account_id) in
        length cs < 256
        → FirstIsPlain cs
        → parse_character_list (character_list (some db) account_id) ≡ seen cs
  unfolding character_list found_entries entries_in
  parse_character_list-character_list account_id few plain =
      by_rows (db.call_sp "aion_GetCharIdList" account_id) few plain
    where
      by_rows :
          (o : Option (List Row))
          → length (characters_of o) < 256
          → FirstIsPlain (characters_of o)
          → parse_character_list
              (0 ∷ 8 ∷ (entries_in db account_id o).0 ∷ (entries_in db account_id o).1)
            ≡ seen (characters_of o)
      by_rows none small first = parse_written account_id [] tt
      by_rows (some id_rows) small first =
          let cs = characters id_rows in
          ap (λ (t : ℕ × Bytes). parse_character_list (0 ∷ 8 ∷ t.0 ∷ t.1))
            (char_entries-characters account_id id_rows 0 (omega arith)
              ∙ ap (λ (n : ℕ). (n, written account_id cs)) {x = (0 + length cs) % 256}
                  {y = length cs} (omega (arith, small)))
          ∙ parse_written account_id cs first
