-- ===== src/Gateway/Relay/Characters.antt =====
-- The characters of one connection: what runs of the relay loop create and which one enters the
-- world.
use ace.Prelude.{
  ℕ, ◌+◌, ◌/◌, ◌%◌, ◌^◌, ◌≤◌, ◌<◌, ◌≡◌, refl, ap, sym, false, List, [], ◌∷◌, ◌++◌, arith, length,
  ◌==◌, if◌then◌else◌, inl, inr, Option-cases, subst, All,
}
use ace.Bytes.{Bytes, put_le}
use ace.Gateway.Creation.{parse_create_char_info, create_character_ok}
use ace.Gateway.Creation.Fits.{create_character_ok_parts, length-appearance}
use ace.Gateway.Relay.{
  Relay, Effect, publish, Next, continue, quit, panicked, start, relay_step, create_character,
  forward, slot_cm_create_character, slot_cm_enter_world, slot_cm_quit, translate_client_cm,
  slot_to_lua_opcode,
}

-- A packet from the client: its slot, its payload, and the time at which it is handled.
abbrev pub ClientPacket : Type 0
ClientPacket = ℕ × Bytes × ℕ

-- A run of rounds, with its effects in order; it stops at the first round that does not continue.
unfoldable pub relay_run : Relay → List ClientPacket → Relay × List Effect × Next
relay_run r [] = (r, [], continue)
relay_run r (p ∷ ps) =
    let (slot, payload, now) = p in
    let (r', effects, next) = relay_step r slot payload now in
    let rest = relay_run r' ps in
    elim next [
      | continue ↦ (rest.0, effects ++ rest.1, rest.2)
      | quit ↦ (r', effects, quit)
      | panicked ↦ (r', effects, panicked)
    ]

unfoldable pub create_count : List ClientPacket → ℕ
create_count [] = 0
create_count (p ∷ ps) =
    let rest = create_count ps in if p.0 == slot_cm_create_character then 1 + rest else rest

-- The loop's variables after `k` requests to create a character.
abbrev Made : Relay → ℕ → Type 0
Made r k =
    (r.next_player_obj_id ≡ 1001 + k / 2)
    × (r.creation_window_opened ≡ (k % 2 == 1))
    × (r.selected_char_id ≡ (if k / 2 == 0 then 0 else 1000 + k / 2))

create_character-Made :
    (r : Relay) (k : ℕ) (payload : Bytes) (now : ℕ)
    → k < 2 ^ 31
    → Made r k
    → (create_character r payload now).2 ≡ continue
    → Made (create_character r payload now).0 (k + 1)
unfolding create_character
create_character-Made r k payload now small made going =
    elim (Option-cases
      (create_character_ok r.next_player_obj_id (parse_create_char_info payload) now)) [
        | inl e ↦ ground arith
        | inr e ↦ let (a, eq) = e in ground arith
      ]

relay_step-Made :
    (r : Relay) (k slot : ℕ) (payload : Bytes) (now : ℕ)
    → k < 2 ^ 31
    → Made r k
    → (relay_step r slot payload now).2 ≡ continue
    → Made (relay_step r slot payload now).0 (if slot == slot_cm_create_character then 1 + k else k)
unfolding relay_step
relay_step-Made r k slot payload now small made going =
    ground (arith, create_character-Made r k payload now small made)

relay_run_step :
    (r : Relay) (p : ClientPacket) (ps : List ClientPacket)
    → (relay_run r (p ∷ ps)).2 ≡ continue
    → ((relay_step r p.0 p.1 p.2).2 ≡ continue)
      × ((relay_run (relay_step r p.0 p.1 p.2).0 ps).2 ≡ continue)
      × ((relay_run r (p ∷ ps)).0 ≡ (relay_run (relay_step r p.0 p.1 p.2).0 ps).0)
unfolding relay_run
relay_run_step r p ps going = ground arith

relay_run-Made :
    (ps : List ClientPacket) (r : Relay) (k : ℕ)
    → k + create_count ps < 2 ^ 31
    → Made r k
    → (relay_run r ps).2 ≡ continue
    → Made (relay_run r ps).0 (k + create_count ps)
unfolding create_count
relay_run-Made [] r k small made going = unfold relay_run in ground arith
relay_run-Made (p ∷ ps) r k small made going =
    let (here, rest, same) = relay_run_step r p ps going in
    let r' = (relay_step r p.0 p.1 p.2).0 in
    let k' = (if p.0 == slot_cm_create_character then 1 + k else k) in
    let made' : Made r' k' = relay_step-Made r k p.0 p.1 p.2 (omega arith) made here in
    let end : k' + create_count ps
        ≡ k + (if p.0 == slot_cm_create_character then 1 + create_count ps else create_count ps) =
      ground arith in
    let done : Made (relay_run r' ps).0 (k' + create_count ps) =
      relay_run-Made ps r' k' (omega (arith, end, small)) made' rest in
    subst (λ s. Made s (k + create_count (p ∷ ps))) (sym same)
      (subst (λ n. Made (relay_run r' ps).0 n) end done)

-- Ids go up from 1001, one for every second creation request: after a run of packets with `k` such
-- requests (fewer than 2 ^ 31) that has not ended the loop, `k / 2` characters have been created, and
-- the creation window is open exactly if `k` is odd. A request to enter the world is then published
-- with the Lua opcode 0x15 and the last created character's id in front of the payload, 0 if there is
-- none, whatever else the client has sent in between.
pub enter_world_lem :
    (ps : List ClientPacket) (payload : Bytes) (now : ℕ)
    → create_count ps < 2 ^ 31
    → (relay_run start ps).2 ≡ continue
    → let created = create_count ps / 2 in
      let r = (relay_run start ps).0 in
      (r.next_player_obj_id ≡ 1001 + created)
      × (r.creation_window_opened ≡ (create_count ps % 2 == 1))
      × (relay_step r slot_cm_enter_world payload now ≡ (
        r,
        publish 0x15 (put_le 4 (if created == 0 then 0 else 1000 + created) ++ payload) ∷ [],
        continue,
      ))
unfolding start relay_step forward translate_client_cm slot_to_lua_opcode
enter_world_lem ps payload now small going =
    let made : Made (relay_run start ps).0 (create_count ps) =
      subst (Made (relay_run start ps).0) (omega arith)
        (relay_run-Made ps start 0 (omega arith) (refl, refl, refl) going) in
    let r = (relay_run start ps).0 in
    (made.0, made.1, ap (λ id. (r, publish 0x15 (put_le 4 id ++ payload) ∷ [], continue)) made.2)

create_character-safe :
    (r : Relay) (payload : Bytes) (now : ℕ)
    → length payload ≤ 632
    → (create_character r payload now).2 ≡ continue
unfolding create_character
create_character-safe r payload now h =
    let info = parse_create_char_info payload in
    let (b, e, l) =
      (create_character_ok_parts r.next_player_obj_id info now).0 (length-appearance payload h) in
    ground arith

-- A packet whose payload has at most 632 bytes never makes the relay loop panic; only CM_QUIT ends
-- the loop then.
pub relay_step-safe :
    (r : Relay) (slot : ℕ) (payload : Bytes) (now : ℕ)
    → length payload ≤ 632
    → (relay_step r slot payload now).2 ≡ (if slot == slot_cm_quit then quit else continue)
unfolding relay_step
relay_step-safe r slot payload now h = ground (arith, create_character-safe r payload now h)

-- The loop goes on over packets that are none of them CM_QUIT or larger than that.
pub relay_run-safe :
    (ps : List ClientPacket) (r : Relay)
    → All (λ (p : ClientPacket). (length p.1 ≤ 632) × ((p.0 == slot_cm_quit) ≡ false)) ps
    → (relay_run r ps).2 ≡ continue
unfolding relay_run
relay_run-safe [] r h = refl
relay_run-safe (p ∷ ps) r h =
    let step = relay_step-safe r p.0 p.1 p.2 h.0.0 in
    ground (arith, step, h.0.1, relay_run-safe ps (relay_step r p.0 p.1 p.2).0 h.1)
