-- ===== src/Gateway/Creation.antt =====
-- server/src/cmd/gateway/game.go, character creation: `parseCreateCharInfo` on the client's payload
-- and `sendCreateCharacterOK`'s 756-byte answer. A slice expression out of the buffer's bounds is a
-- panic, which is `none` here. A name is its code points; a float32 constant is its IEEE pattern;
-- the time is an argument.
pub mod Fits
use ace.Prelude.{
  ℕ, zero, suc, ◌+◌, ◌-◌, ◌*◌, ◌%◌, ◌^◌, Bool, true, false, ◌&&◌, not, Option, none, some, List, [],
  ◌∷◌, ◌++◌, length, take, drop, replicate, map, ltb, leb, ◌==◌, if◌then◌else◌,
}
use ace.Bytes.{Bytes, codes, put_le, get_le}

pub record CharInfo : Type 0 where
  pub name : List ℕ
  pub gender : ℕ
  pub race : ℕ
  pub class : ℕ
  pub appearance : Bytes

-- The bytes behind a text that a null ends.
pub skip_text : Bytes → Bytes
skip_text [] = []
skip_text (a ∷ []) = a ∷ []
skip_text (a ∷ b ∷ rest) =
    let skipped = skip_text rest in if a + 256 * b == 0 then rest else skipped

-- The 16-bit units of a text up to its null.
pub text_units : Bytes → List ℕ
text_units [] = []
text_units (a ∷ []) = []
text_units (a ∷ b ∷ rest) =
    let units = text_units rest in if a + 256 * b == 0 then [] else (a + 256 * b) ∷ units

-- `string` of a rune that is half of a surrogate pair is the replacement character.
pub rune : ℕ → ℕ
rune ch = if leb 0xD800 ch && ltb ch 0xE000 then 0xFFFD else ch

pub hero : List ℕ
hero = codes "Hero"

abbrev or_hero : List ℕ → List ℕ
or_hero [] = hero
or_hero (r ∷ rs) = r ∷ rs

abbrev plain_info : List ℕ → CharInfo
plain_info name = record { name = name; gender = 0; race = 0; class = 0; appearance = [] }

unfoldable pub parse_create_char_info : Bytes → CharInfo
unfolding skip_text text_units rune hero
parse_create_char_info payload =
    if ltb (length payload) 20
    then plain_info hero
    else let field = skip_text (drop 4 payload) in
      let name = or_hero (map rune (take 25 (text_units field))) in
      let rest = drop 52 field in
      if ltb (length field) (52 + 12) then plain_info name else record {
        name = name;
        gender = get_le (take 4 rest);
        race = get_le (take 4 (drop 4 rest));
        class = get_le (take 4 (drop 8 rest));
        appearance = take (length rest - 2 - 12) (drop 12 rest);
      }

-- The buffer with its cursor, and what moves it: a slice that is written, and a gap.
pub record Cursor : Type 0 where
  pub buf : Bytes
  pub pos : ℕ

pub data Write : Type 0 where
  slice : Bytes → Write
  gap : ℕ → Write

pub run_writes : Cursor → List Write → Option Cursor
run_writes c [] = some c
run_writes c (slice bs ∷ ws) =
    let end = c.pos + length bs in
    let rest =
      run_writes (record { buf = take c.pos c.buf ++ (bs ++ drop end c.buf); pos = end }) ws in
    if ltb (length c.buf) end then none else rest
run_writes c (gap n ∷ ws) = run_writes (record c { pos = c.pos + n }) ws

abbrev d : ℕ → Write
d v = slice (put_le 4 v)

abbrev h : ℕ → Write
h v = slice (put_le 2 v)

pub name_units : List ℕ → Bytes
name_units [] = []
name_units (r ∷ rs) = put_le 2 (r % 2 ^ 16) ++ name_units rs

unfoldable pub character_writes : ℕ → CharInfo → ℕ → List Write
unfolding name_units
character_writes obj_id info now =
    let name = name_units (take 25 info.name) in
    d 0
    ∷ d obj_id
    ∷ slice name
    ∷ gap (52 - length name)
    ∷ d info.gender
    ∷ d info.race
    ∷ d info.class
    ∷ slice info.appearance
    ∷ d (if info.gender == 0 then 100000 else 100001)
    ∷ d (if info.race == 0 then 210010000 else 220010000)
    ∷ d 0x44100000
    ∷ d 0x437D0000
    ∷ d 0x44D26000
    ∷ d 0
    ∷ h 1
    ∷ h 0
    ∷ d 0
    ∷ d 0
    ∷ gap 82
    ∷ h 0
    ∷ d now
    ∷ gap 208
    ∷ []

abbrev pub buffer_of : Option Cursor → Option Bytes
buffer_of none = none
buffer_of (some c) = some c.buf

-- The payload of SM_CREATE_CHARACTER, or `none` where the code panics.
unfoldable pub create_character_ok : ℕ → CharInfo → ℕ → Option Bytes
unfolding run_writes
create_character_ok obj_id info now =
    buffer_of
      (run_writes (record { buf = replicate 756 0; pos = 0 }) (character_writes obj_id info now))

-- SM_CREATE_CHARACTER with a response code alone.
unfoldable pub create_character_response : ℕ → Bytes
create_character_response code = put_le 4 code ++ replicate 752 0
