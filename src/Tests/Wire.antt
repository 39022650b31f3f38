-- ===== src/Tests/Wire.antt =====
-- The packets of both ports at concrete inputs.
use ace.Prelude.{
  ℕ, ◌-◌, ◌%◌, ◌^◌, ◌≡◌, ◌≤◌, ◌<◌, refl, true, List, [], ◌∷◌, ◌++◌, arith, replicate, length, take,
  drop, length-replicate,
}
use ace.Bytes.{Bytes, get_le}
use ace.Crypto.GameCrypt.{GameCrypt, decrypt_body}
use ace.Crypto.GameCrypt.Opcode.{decode_server_opcode, decipher_key}
use ace.Packet.{
  Packet, ok, err, unexpected_eof, bytes, padded, padding, opcode, from_bytes, remaining,
  new_packet, write_uint16, write_uint32, write_bytes, read_packet_from_conn,
}
use ace.Packet.Frame.{from_bytes-bytes, length-padded}
use ace.Packet.Fields.{
  Field, uint16, uint32, raw, write_field, write_fields, read_fields, read_fields-write_fields,
}
use ace.Packet.Conn.{read_all, read_all-concat, read_packet-partial}
use ace.Gateway.Wire.{
  client_frame, read_game_packet, packet, read_game_packet-client_frame, send_game_sm_key,
  send_game_server_packet,
}
use ace.Gateway.Wire.Client.{send_game_sm_key_lem, send_game_server_packet_lem}

abbrev crypt : GameCrypt
crypt = record {
  server_key = 1 ∷ 2 ∷ 3 ∷ 4 ∷ 5 ∷ 6 ∷ 7 ∷ 8 ∷ [];
  client_key = 1 ∷ 2 ∷ 3 ∷ 4 ∷ 5 ∷ 6 ∷ 7 ∷ 8 ∷ [];
  enabled = true;
}

abbrev sent : Bytes
sent = (client_frame crypt 207 187 (9 ∷ [])).1

read_game_packet-client_frame_example :
    ((read_game_packet crypt 207 (sent ++ 1 ∷ [])).1 ≡ packet 187 (9 ∷ []) (1 ∷ []))
    × ((read_game_packet crypt 207 (sent ++ 1 ∷ [])).0.client_key
        ≡ (client_frame crypt 207 187 (9 ∷ [])).0.server_key)
    × ((client_frame crypt 207 187 (9 ∷ [])).0.enabled ≡ true)
read_game_packet-client_frame_example =
    read_game_packet-client_frame crypt crypt 207 187 (9 ∷ []) (1 ∷ []) refl refl (omega arith)
      (omega arith)

send_game_sm_key_lem_example :
    (length (send_game_sm_key 1000 207) ≡ 11)
    × (get_le (take 2 (send_game_sm_key 1000 207)) ≡ 11)
    × (decode_server_opcode (get_le (take 2 (drop 2 (send_game_sm_key 1000 207)))) 207 ≡ 72)
    × (decipher_key (get_le (drop 7 (send_game_sm_key 1000 207))) 207 ≡ 1000)
send_game_sm_key_lem_example = send_game_sm_key_lem 1000 207 (omega arith)

abbrev to_client : Bytes
to_client = (send_game_server_packet crypt 207 200 (5 ∷ 6 ∷ [])).1

send_game_server_packet_lem_example :
    (get_le (take 2 to_client) ≡ length to_client)
    × (decode_server_opcode (get_le (take 2 (decrypt_body crypt.server_key (drop 2 to_client)))) 207
        ≡ 200)
    × (drop 5 (decrypt_body crypt.server_key (drop 2 to_client)) ≡ 5 ∷ 6 ∷ [])
send_game_server_packet_lem_example =
    send_game_server_packet_lem crypt 207 200 (5 ∷ 6 ∷ []) refl (omega arith) (omega arith)

abbrev fields : List Field
fields = uint16 7 ∷ uint32 100000 ∷ raw (1 ∷ 2 ∷ 3 ∷ []) ∷ []

abbrev built : Packet
built = record { buf = 0 ∷ 0 ∷ 3 ∷ 0 ∷ 1 ∷ 2 ∷ 3 ∷ []; rpos = 4 }

read_fields-write_fields_example :
    (q r : Packet) × (from_bytes (bytes (write_fields (new_packet 3) fields)) ≡ ok q)
    × (opcode q ≡ 3)
    × (read_fields q fields ≡ ok (fields, r))
    × (remaining r < 8)
unfolding padded padding write_fields write_field new_packet write_uint16 write_uint32 write_bytes
read_fields-write_fields_example =
    read_fields-write_fields 3 fields (omega arith) (omega arith, (omega arith, (tt, tt)))
      (omega arith)

from_bytes-bytes_example :
    (q : Packet) × (from_bytes (bytes built) ≡ ok q)
    × (opcode q ≡ opcode built)
    × (q.rpos ≡ 4)
    × (drop 4 q.buf ≡ drop 4 built.buf ++ replicate (padding (length built.buf)) 0)
    × ((length q.buf - 2) % 8 ≡ 0)
unfolding padded padding
from_bytes-bytes_example = from_bytes-bytes built (omega arith) (omega arith)

abbrev large : Packet
large = record { buf = 0 ∷ 0 ∷ 3 ∷ 0 ∷ replicate 70000 1; rpos = 4 }

large-size : 2 ^ 16 ≤ length (padded large.buf)
large-size = omega (arith, length-padded large.buf, length-replicate {A = ℕ} 70000 1)

abbrev first : Bytes
first = 5 ∷ 0 ∷ 1 ∷ 0 ∷ 9 ∷ []

abbrev second : Bytes
second = 4 ∷ 0 ∷ 2 ∷ 0 ∷ []

read_all-concat_example :
    read_all 2 ((first ++ second ++ []) ++ 1 ∷ []) ≡ (first ∷ second ∷ [], 1 ∷ [])
read_all-concat_example =
    read_all-concat (first ∷ second ∷ []) (1 ∷ [])
      ((omega arith, refl, omega arith), ((omega arith, refl, omega arith), tt))

read_packet-partial_example : read_packet_from_conn (5 ∷ 0 ∷ 1 ∷ 0 ∷ []) ≡ err unexpected_eof
read_packet-partial_example =
    read_packet-partial first 4 (omega arith, refl, omega arith) (omega arith)
