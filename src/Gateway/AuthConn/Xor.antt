-- ===== src/Gateway/AuthConn/Xor.antt =====
-- server/src/cmd/gateway/handshake.go, encXORPass and decXORPass: the accumulating exclusive or over
-- the words of the first packet. An index out of the slice is no case of the callers.
use ace.Prelude.{ℕ, zero, suc, ◌+◌, ◌-◌, ◌/◌, ◌%◌, ◌^◌, ◌++◌, take, drop, ltb, leb, if◌then◌else◌}
use ace.Prelude.Xor.{bit_xor}
use ace.Bytes.{Bytes, put_le, get_le}

abbrev pub word : Bytes → ℕ → ℕ
word bytes pos = get_le (take 4 (drop pos bytes))

abbrev pub put_word : Bytes → ℕ → ℕ → Bytes
put_word bytes pos v = take pos bytes ++ (put_le 4 v ++ drop (pos + 4) bytes)

-- The loop, for the rounds left, and the final accumulator behind it.
unfoldable pub enc_loop : ℕ → Bytes → ℕ → ℕ → ℕ → Bytes
enc_loop zero bytes pos stop ecx = put_word bytes pos ecx
enc_loop (suc rounds) bytes pos stop ecx =
    let edx = word bytes pos in
    let ecx' = (ecx + edx) % 2 ^ 32 in
    let rest = enc_loop rounds (put_word bytes pos (bit_xor edx ecx')) (pos + 4) stop ecx' in
    if ltb pos stop then rest else put_word bytes pos ecx

unfoldable pub enc_xor_pass : Bytes → ℕ → ℕ → ℕ → Bytes
enc_xor_pass bytes offset size key = enc_loop size bytes (4 + offset) (size - 8) key

-- Where the accumulator stands, for the steps left.
unfoldable pub ecx_pos_from : ℕ → ℕ → ℕ → ℕ
ecx_pos_from zero pos stop = pos
ecx_pos_from (suc steps) pos stop =
    let rest = ecx_pos_from steps (pos + 4) stop in if leb (pos + 4) stop then rest else pos

-- The loop backwards, `words` words down from `p`.
unfoldable pub dec_loop : ℕ → Bytes → ℕ → ℕ → Bytes
dec_loop zero bytes p ecx = bytes
dec_loop (suc words) bytes p ecx =
    let edx = bit_xor (word bytes p) ecx in
    dec_loop words (put_word bytes p edx) (p - 4) ((ecx + 2 ^ 32 - edx) % 2 ^ 32)

unfoldable pub dec_xor_pass : Bytes → ℕ → ℕ → Bytes
dec_xor_pass bytes offset size =
    let start_pos = 4 + offset in
    let ecx_pos = ecx_pos_from size start_pos (size - 8) in
    if ltb size 12
    then bytes
    else dec_loop ((ecx_pos - start_pos) / 4) bytes (ecx_pos - 4) (word bytes ecx_pos)
