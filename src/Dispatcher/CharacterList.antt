-- ===== src/Dispatcher/CharacterList.antt =====
-- server/src/cmd/world/dispatcher.go, sendCharacterList and appendCharEntry with their helpers, and
-- server/src/cmd/tinyclient/main.go, parseCharacterList, which reads the list. A row of the database
-- is a map from column names to values; integers are their two's complement patterns and floats
-- their IEEE patterns, and the conversions between float formats and to integers belong to the
-- database record. A string is its code points.
pub mod Parse
use ace.Prelude.{
  ℕ, zero, suc, ◌+◌, ◌-◌, ◌%◌, ◌^◌, Bool, Option, none, some, List, [], ◌∷◌, ◌++◌, String, str_eq,
  ltb, if◌then◌else◌,
}
use ace.Bytes.{Bytes, put_le}

pub data Value : Type 0 where
  nil : Value
  int32 : ℕ → Value
  int64 : ℕ → Value
  float32 : ℕ → Value
  float64 : ℕ → Value
  text : List ℕ → Value
  other : Value

abbrev pub Row : Type 0
Row = List (String × Value)

pub record Database : Type 0 where
  pub call_sp : String → ℕ → Option (List Row)
  -- int64 of a float64, and float32 of a float64
  pub to_int : ℕ → ℕ
  pub to_float32 : ℕ → ℕ

-- The value of a column; a missing one is nil.
unfoldable pub column : Row → String → Value
column [] key = nil
column (p ∷ row) key = if str_eq p.0 key then p.1 else column row key

abbrev pub sign_extend : ℕ → ℕ
sign_extend v = if ltb v (2 ^ 31) then v else v + (2 ^ 64 - 2 ^ 32)

module _ (db : Database) where
  int_of : Value → Option ℕ
  int_of (int32 v) = some (sign_extend v)
  int_of (int64 v) = some v
  int_of (float64 v) = some (db.to_int v)
  int_of _ = none

  float32_of : Value → ℕ
  float32_of (float32 v) = v
  float32_of (float64 v) = db.to_float32 v
  float32_of _ = 0

  or_zero : Option ℕ → ℕ
  or_zero none = 0
  or_zero (some v) = v

  unfoldable pub row_int32 : Row → String → Option ℕ
  unfolding int_of
  row_int32 row key = int_of (column row key)

  unfoldable pub row_int64 : Row → String → ℕ
  unfolding or_zero
  row_int64 row key = or_zero (row_int32 row key)

  unfoldable pub row_int32_safe : Row → String → ℕ
  row_int32_safe row key = row_int64 row key % 2 ^ 32

  unfoldable pub row_byte : Row → String → ℕ
  row_byte row key = row_int32_safe row key % 256

  unfoldable pub row_float32 : Row → String → ℕ
  unfolding float32_of
  row_float32 row key = float32_of (column row key)

  -- `row["user_id"].(string)`
  abbrev pub text_of : Value → List ℕ
  text_of (text name) = name
  text_of _ = []

  unfoldable pub utf16_of : List ℕ → Bytes
  utf16_of [] = []
  utf16_of (r ∷ name) = put_le 2 (r % 2 ^ 16) ++ utf16_of name

  abbrev i : Row → String → Bytes
  i row key = put_le 4 (row_int32_safe row key)

  abbrev b : Row → String → Bytes
  b row key = row_byte row key ∷ []

  abbrev fl : Row → String → Bytes
  fl row key = put_le 4 (row_float32 row key)

  -- What follows the name.
  unfoldable pub char_fields : Row → Bytes
  char_fields row =
      b row "race"
      ++ (b row "class"
          ++ (b row "gender"
              ++ (b row "lev"
                  ++ (i row "world"
                      ++ (i row "world_map_number"
                          ++ (fl row "xlocation"
                              ++ (fl row "ylocation"
                                  ++ (fl row "zlocation"
                                      ++ (b row "dir"
                                          ++ (put_le 8 (row_int64 row "exp")
                                              ++ (i row "now_hit" ++ char_looks row)))))))))))
    where
      char_looks : Row → Bytes
      char_looks r =
          i r "now_mana"
          ++ (i r "now_flight"
              ++ (i r "delete_date"
                  ++ (i r "head_face_color"
                      ++ (i r "head_hair_color"
                          ++ (i r "head_eye_color"
                              ++ (i r "head_lip_color"
                                  ++ (b r "head_face_type"
                                      ++ (b r "head_hair_type"
                                          ++ (b r "head_voice_type"
                                              ++ (b r "head_feat_type1"
                                                  ++ b r "head_feat_type2"))))))))))

  -- The ids are converted to int32.
  unfoldable pub append_char_entry : ℕ → ℕ → Row → Bytes
  append_char_entry char_id account_id row =
      put_le 4 (char_id % 2 ^ 32)
      ++ (put_le 4 (account_id % 2 ^ 32)
          ++ (utf16_of (text_of (column row "user_id")) ++ (0 ∷ 0 ∷ char_fields row)))

  -- What an id adds to the list: nothing if it is missing or the character has no information.
  abbrev pub info_entry : ℕ → ℕ → Option (List Row) → Option Bytes
  info_entry account_id char_id (some (info ∷ info_rows)) =
      some (append_char_entry char_id account_id info)
  info_entry account_id char_id _ = none

  abbrev pub id_entry : ℕ → Option ℕ → Option Bytes
  id_entry account_id none = none
  id_entry account_id (some char_id) =
      info_entry account_id char_id (db.call_sp "aion_GetCharInfo_20160818" char_id)

  -- The loop over the ids: the count, a byte that wraps around, and the bytes appended.
  unfoldable pub char_entries : ℕ → List Row → ℕ → ℕ × Bytes
  char_entries account_id [] count = (count, [])
  char_entries account_id (id_row ∷ id_rows) count =
      let skipped = char_entries account_id id_rows count in
      let counted = char_entries account_id id_rows ((count + 1) % 256) in
      elim (id_entry account_id (row_int32 id_row "char_id")) [
        | none ↦ skipped
        | some entry ↦ (counted.0, entry ++ counted.1)
      ]

  unfoldable pub entries_in : ℕ → Option (List Row) → ℕ × Bytes
  entries_in account_id none = (0, [])
  entries_in account_id (some id_rows) = char_entries account_id id_rows 0

unfoldable pub found_entries : Option Database → ℕ → ℕ × Bytes
found_entries none account_id = (0, [])
found_entries (some db) account_id =
    entries_in db account_id (db.call_sp "aion_GetCharIdList" account_id)

-- The payload of SM_CHARACTER_LIST: server index, slots, count, entries.
unfoldable pub character_list : Option Database → ℕ → Bytes
character_list db account_id =
    let (count, listed) = found_entries db account_id in 0 ∷ 8 ∷ count ∷ listed
