-- ===== src/Logd.antt =====
-- server/src/cmd/logd/writer.go: batches of log records on their way to ClickHouse. The driver is
-- outside: whether PrepareBatch, Append and Send succeed are arguments. A batch is the rows appended
-- to it. Each method is one step here, as when one goroutine calls them; times do not run backwards.
pub mod Flushing
pub mod Batches
use ace.Prelude.{
  ℕ, zero, suc, ◌+◌, ◌-◌, Bool, true, false, ◌&&◌, ◌||◌, Option, none, some, List, [], ◌∷◌, ◌++◌,
  length, ltb, leb, ◌==◌, if◌then◌else◌,
}
use ace.Bytes.{Bytes, codes}

pub record LogRecord : Type 0 where
  pub ts : Bytes
  pub level : Bytes
  pub msg : Bytes
  pub source : Bytes
  pub attrs : Bytes

pub record LogRow : Type 0 where
  pub row_ts : ℕ
  pub service : Bytes
  pub row_level : Bytes
  pub row_msg : Bytes
  pub row_attrs : Bytes

abbrev ts_or : ℕ → Option ℕ → ℕ
ts_or now none = now
ts_or now (some t) = t

abbrev attrs_or_object : Bytes → Bytes
attrs_or_object [] = codes "{}"
attrs_or_object (c ∷ attrs) = c ∷ attrs

-- `parse` is time.Parse with RFC3339Nano.
unfoldable pub row_of : (Bytes → Option ℕ) → ℕ → LogRecord → Bytes → LogRow
row_of parse now rec service = record {
  row_ts = ts_or now (parse rec.ts);
  service = service;
  row_level = rec.level;
  row_msg = rec.msg;
  row_attrs = attrs_or_object rec.attrs;
}

-- The writer, and the rows that it has sent.
pub record ChWriter : Type 0 where
  pub batch : Option (List LogRow)
  pub sent : List LogRow

abbrev pub ensured : Bool → Option (List LogRow) → Option (List LogRow)
ensured prepared none = if prepared then some [] else none
ensured prepared (some rows) = some rows

abbrev pub appended_to : ChWriter → LogRow → Bool → Option (List LogRow) → ChWriter × Bool
appended_to w row appended none = (w, false)
appended_to w row appended (some rows) =
    if appended
    then (record w { batch = some (rows ++ row ∷ []) }, true)
    else (record w { batch = some rows }, false)

unfoldable pub ch_append : Bool → Bool → ChWriter → LogRow → ChWriter × Bool
ch_append prepared appended w row = appended_to w row appended (ensured prepared w.batch)

abbrev pub flushed : Bool → ChWriter → Option (List LogRow) → ChWriter × Bool
flushed sends w none = (w, true)
flushed sends w (some rows) =
    if sends then (record { batch = none; sent = w.sent ++ rows }, true) else (w, false)

unfoldable pub ch_flush : Bool → ChWriter → ChWriter × Bool
ch_flush sends w = flushed sends w w.batch

abbrev closed : Bool → ChWriter → Option (List LogRow) → ChWriter
closed sends w none = w
closed sends w (some rows) = record {
  batch = none;
  sent = if sends then w.sent ++ rows else w.sent;
}

-- The error of Send is dropped.
unfoldable pub ch_close : Bool → ChWriter → ChWriter
ch_close sends w = closed sends w w.batch

pub record Batcher : Type 0 where
  pub w : ChWriter
  pub max_rows : ℕ
  pub max_age : ℕ
  pub buffered : ℕ
  pub oldest : ℕ

unfoldable pub new_batcher : ℕ → ℕ → Batcher
new_batcher max_rows max_age = record {
  w = record { batch = none; sent = [] };
  max_rows = max_rows;
  max_age = max_age;
  buffered = 0;
  oldest = 0;
}

unfoldable pub flush_locked : Bool → Batcher → Batcher × Bool
flush_locked sends b =
    let (w, ok) = ch_flush sends b.w in
    if ok then (record b { w = w; buffered = 0 }, true) else (record b { w = w }, false)

-- Whether the call returned no error is the second component.
unfoldable pub add : Bool → Bool → Bool → ℕ → Batcher → LogRow → Batcher × Bool
add prepared appended sends now b row =
    let oldest = if b.buffered == 0 then now else b.oldest in
    let (w, ok) = ch_append prepared appended b.w row in
    let counted : Batcher = record b { w = w; oldest = oldest; buffered = b.buffered + 1 } in
    let full = flush_locked sends counted in
    if ok
    then (if leb b.max_rows (b.buffered + 1) then full else (counted, true))
    else (record b { w = w; oldest = oldest }, false)

unfoldable pub tick : Bool → ℕ → Batcher → Batcher × Bool
tick sends now b =
    if b.buffered == 0 || ltb (now - b.oldest) b.max_age then (b, true) else flush_locked sends b

unfoldable pub close : Bool → Bool → Batcher → Batcher × Bool
close sends last_sends b =
    let (b', ok) = if ltb 0 b.buffered then flush_locked sends b else (b, true) in
    if ok then (record b' { w = ch_close last_sends b'.w }, true) else (b', false)

unfoldable pub pending_count : Batcher → ℕ
pending_count b = b.buffered
