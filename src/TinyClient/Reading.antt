-- ===== src/TinyClient/Reading.antt =====
-- server/src/cmd/tinyclient/main.go: how the test client takes the world's packets apart.
use ace.Prelude.{
  ℕ, zero, suc, ◌+◌, ◌*◌, ◌^◌, ◌||◌, List, [], ◌∷◌, ◌++◌, length, take, drop, ltb, leb, ◌==◌,
  if◌then◌else◌, get_or,
}
use ace.Bytes.{Bytes, get_le}

-- The text, a byte for each unit, and the number of bytes consumed. Whatever is not ASCII is read
-- as a question mark.
unfoldable pub read_utf16_null : Bytes → Bytes × ℕ
read_utf16_null [] = ([], 0)
read_utf16_null (a ∷ []) = ([], 0)
read_utf16_null (a ∷ b ∷ rest) =
    let code = a + 256 * b in
    let (more, consumed) = read_utf16_null rest in
    if code == 0 then ([], 2) else ((if ltb code 0x80 then code else 0x3F) ∷ more, consumed + 2)

unfoldable pub read_utf16_null_at : Bytes → ℕ → Bytes × ℕ
read_utf16_null_at body off = read_utf16_null (drop off body)

-- The 32-bit word at an offset.
abbrev pub word_at : Bytes → ℕ → ℕ
word_at body off = get_le (take 4 (drop off body))

unfoldable pub parse_character_list : Bytes → ℕ × ℕ × Bytes
parse_character_list body =
    let count = get_or body 2 0 in
    if ltb (length body) 3
    then (0, 0, [])
    else if count == 0
    then (0, 0, [])
    else if ltb (length body) 11
    then (count, 0, [])
    else (count, word_at body 3, (read_utf16_null_at body 11).0)

unfoldable pub parse_create_char_resp : Bytes → ℕ × ℕ × Bytes
parse_create_char_resp body =
    if ltb (length body) 5
    then (0xFF, 0, [])
    else (get_or body 0 0, word_at body 1, (read_utf16_null_at body 5).0)

pub record LootAttr : Type 0 where
  pub attr_id : Bytes
  pub value : ℕ

pub record LootResult : Type 0 where
  pub corpse_eid : ℕ
  pub item_id : ℕ
  pub item_count : ℕ
  pub item_uid : ℕ
  pub forge_id : Bytes
  pub stones : List ℕ
  pub attrs : List LootAttr

pub data LootError : Type 0 where
  body_too_short : LootError
  absurd_stone_count : LootError
  stones_truncated : LootError
  absurd_attr_count : LootError
  attr_value_truncated : ℕ → LootError

pub data LootRead : Type 0 where
  loot : LootResult → LootRead
  failed : LootError → LootRead

unfoldable pub read_stones : ℕ → Bytes → List ℕ
read_stones zero rest = []
read_stones (suc n) rest = get_le (take 4 rest) ∷ read_stones n (drop 4 rest)

-- The attributes that are left, from the bytes that are left, behind the `i` that were read.
unfoldable pub read_attrs : ℕ → ℕ → Bytes → LootResult → LootRead
read_attrs zero i rest r = loot r
read_attrs (suc n) i rest r =
    let (name, consumed) = read_utf16_null rest in
    let value = drop consumed rest in
    let attr : LootAttr = record { attr_id = name; value = get_le (take 4 value) } in
    let more = read_attrs n (suc i) (drop 4 value) (record r { attrs = r.attrs ++ attr ∷ [] }) in
    if ltb (length value) 4 then failed (attr_value_truncated i) else more

-- A count with the sign bit set is negative.
unfoldable pub parse_loot_itemlist : Bytes → LootRead
unfolding read_stones read_attrs
parse_loot_itemlist body =
    let stone_count = word_at body 24 in
    let after = drop 28 body in
    let r : LootResult = record {
      corpse_eid = word_at body 0;
      item_id = word_at body 4;
      item_count = word_at body 8;
      item_uid = word_at body 12;
      forge_id = take 8 (drop 16 body);
      stones = read_stones stone_count after;
      attrs = [];
    } in
    let behind = drop (4 * stone_count) after in
    let attr_count = get_le (take 4 behind) in
    if ltb (length body) 28
    then failed body_too_short
    else if leb (2 ^ 31) stone_count || ltb 32 stone_count
    then failed absurd_stone_count
    else if ltb (length after) (4 * stone_count)
    then failed stones_truncated
    else if ltb (length behind) 4
    then loot r
    else if leb (2 ^ 31) attr_count || ltb 64 attr_count
    then failed absurd_attr_count
    else read_attrs attr_count 0 (drop 4 behind) r
