-- ===== src/World/Index.antt =====
-- The reverse index from the gateway's session ids to entities.
use ace.Prelude.{
  ℕ, ◌≡◌, ◌≢◌, ◌⊎◌, ◌↔◌, refl, ap, ◌∙◌, sym, none, some, arith, ◌==◌, ==_iff, ==_refl, Bool-cases,
  Option-cases, inl, inr, lookup, delete, store, lookup-delete_self, lookup-delete_ne,
  lookup-store_self, lookup-store_ne, String,
}
use ace.World.{
  World, PlayerComp, PositionComp, NpcComp, BuffEntry, new_world, new_entity, destroy_entity,
  set_player, set_position, set_npc, set_stat, add_buff, remove_expired_buffs, get_entity_by_seq_id,
  get_player,
}

-- The index and the players say the same: an id leads to an entity exactly if that entity's player
-- has this id.
pub record IsIndexed (w : World) : Type 0 where
  pub sound :
      (seq e : ℕ)
      → lookup w.by_seq_id seq ≡ some e
      → (c : PlayerComp) × (lookup w.players e ≡ some c) × (c.gateway_seq_id ≡ seq)
  pub complete :
      (e : ℕ) (c : PlayerComp)
      → lookup w.players e ≡ some c
      → lookup w.by_seq_id c.gateway_seq_id ≡ some e

-- When a player may be set: the entity's player, if it has one, keeps its id, and the id is no other
-- entity's.
abbrev pub MaySet : World → ℕ → PlayerComp → Type 0
MaySet w e c =
    ((b : PlayerComp) → lookup w.players e ≡ some b → b.gateway_seq_id ≡ c.gateway_seq_id)
    × ((f : ℕ) → lookup w.by_seq_id c.gateway_seq_id ≡ some f → f ≡ e)

pub same_or_ne : (a b : ℕ) → (a ≡ b) ⊎ (a ≢ b)
same_or_ne a b = elim (Bool-cases (a == b)) [
  | inl e ↦ inl ((==_iff a b).0 e)
  | inr n ↦ inr (λ e. ground (arith, ==_refl a))
]

pub some_inj : {A : Type 0} {a b : A} → some a ≡ some b → a ≡ b
some_inj e = ground arith

module _ (w : World) (e : ℕ) (c : PlayerComp) (ok : IsIndexed w) (may : MaySet w e c) where
  abbrev next : World
  next = set_player w e c

  set_sound :
      (seq f : ℕ)
      → lookup next.by_seq_id seq ≡ some f
      → (b : PlayerComp) × (lookup next.players f ≡ some b) × (b.gateway_seq_id ≡ seq)
  unfolding set_player
  set_sound seq f h = elim (same_or_ne c.gateway_seq_id seq) [
    | inl same ↦
        let f_is : e ≡ f = some_inj (
          sym (lookup-store_self w.by_seq_id c.gateway_seq_id e)
          ∙ ap (lookup (store w.by_seq_id c.gateway_seq_id e)) same
          ∙ h) in
        (c, ap (lookup (store w.players e c)) (sym f_is) ∙ lookup-store_self w.players e c, same)
    | inr ne ↦
        let old =
          ok.sound seq f (sym (lookup-store_ne w.by_seq_id c.gateway_seq_id seq e ne) ∙ h) in
        let (b, at, id) = old in
        let apart : e ≢ f = λ eq. ne (sym (may.0 b (ap (lookup w.players) eq ∙ at)) ∙ id) in
        (b, lookup-store_ne w.players e f c apart ∙ at, id)
  ]

  set_complete :
      (f : ℕ) (b : PlayerComp)
      → lookup next.players f ≡ some b
      → lookup next.by_seq_id b.gateway_seq_id ≡ some f
  unfolding set_player
  set_complete f b h = elim (same_or_ne e f) [
    | inl same ↦
        let b_is : c ≡ b =
          some_inj
            (sym (lookup-store_self w.players e c) ∙ ap (lookup (store w.players e c)) same ∙ h) in
        ap (λ (t : PlayerComp). lookup (store w.by_seq_id c.gateway_seq_id e) t.gateway_seq_id)
          (sym b_is)
        ∙ lookup-store_self w.by_seq_id c.gateway_seq_id e
        ∙ ap some same
    | inr ne ↦
        let old = ok.complete f b (sym (lookup-store_ne w.players e f c ne) ∙ h) in
        let apart : c.gateway_seq_id ≢ b.gateway_seq_id =
          λ eq. ne (sym (may.1 f (ap (lookup w.by_seq_id) eq ∙ old))) in
        lookup-store_ne w.by_seq_id c.gateway_seq_id b.gateway_seq_id e apart ∙ old
  ]

  pub set_player-IsIndexed : IsIndexed next
  set_player-IsIndexed = record { sound = set_sound; complete = set_complete }

module _ (w : World) (e : ℕ) where
  pub players_after : (destroy_entity w e).players ≡ delete w.players e
  unfolding destroy_entity
  players_after = refl

  index_missing : lookup w.players e ≡ none → (destroy_entity w e).by_seq_id ≡ w.by_seq_id
  unfolding destroy_entity
  index_missing h = ground arith

  pub index_found :
      (p : PlayerComp)
      → lookup w.players e ≡ some p
      → (destroy_entity w e).by_seq_id ≡ delete w.by_seq_id p.gateway_seq_id
  unfolding destroy_entity
  index_found p h = ground arith

module _ (w : World) (e : ℕ) (ok : IsIndexed w) where
  -- A player that is still there after the removal was there before, as another entity's.
  pub kept :
      (f : ℕ) (c : PlayerComp)
      → lookup (delete w.players e) f ≡ some c
      → (e ≢ f) × (lookup w.players f ≡ some c)
  kept f c h =
      let ne : e ≢ f = λ eq.
        ground (arith, lookup-delete_self w.players e, ap (lookup (delete w.players e)) eq, h) in
      (ne, sym (lookup-delete_ne w.players e f ne) ∙ h)

  missing-IsIndexed :
      lookup w.players e ≡ none
      → (v : World) → v.players ≡ delete w.players e
      → v.by_seq_id ≡ w.by_seq_id
      → IsIndexed v
  missing-IsIndexed missing v ps is = record {
    sound = λ seq f h.
        let (c, at, id) = ok.sound seq f (ap (λ m. lookup m seq) (sym is) ∙ h) in
        let ne : e ≢ f = λ eq. ground (arith, missing, ap (lookup w.players) eq, at) in
        (c, ap (λ m. lookup m f) ps ∙ lookup-delete_ne w.players e f ne ∙ at, id);
    complete = λ f c h.
        ap (λ m. lookup m c.gateway_seq_id) is
        ∙ ok.complete f c (kept f c (ap (λ m. lookup m f) (sym ps) ∙ h)).1;
  }

  found-IsIndexed :
      (p : PlayerComp)
      → lookup w.players e ≡ some p
      → (v : World) → v.players ≡ delete w.players e
      → v.by_seq_id ≡ delete w.by_seq_id p.gateway_seq_id
      → IsIndexed v
  found-IsIndexed p found v ps is = record {
    sound = λ seq f h.
        let in_rest : lookup (delete w.by_seq_id p.gateway_seq_id) seq ≡ some f =
          ap (λ m. lookup m seq) (sym is) ∙ h in
        let apart : p.gateway_seq_id ≢ seq = λ eq. ground (
          arith,
          lookup-delete_self w.by_seq_id p.gateway_seq_id,
          ap (lookup (delete w.by_seq_id p.gateway_seq_id)) eq,
          in_rest,
        ) in
        let (c, at, id) =
          ok.sound seq f
            (sym (lookup-delete_ne w.by_seq_id p.gateway_seq_id seq apart) ∙ in_rest) in
        let ne : e ≢ f = λ eq. apart (
          ap (λ (t : PlayerComp). t.gateway_seq_id)
            (some_inj (sym found ∙ ap (lookup w.players) eq ∙ at))
          ∙ id) in
        (c, ap (λ m. lookup m f) ps ∙ lookup-delete_ne w.players e f ne ∙ at, id);
    complete = λ f c h.
        let (ne, at) = kept f c (ap (λ m. lookup m f) (sym ps) ∙ h) in
        let old = ok.complete f c at in
        let apart : p.gateway_seq_id ≢ c.gateway_seq_id =
          λ eq. ne (some_inj (sym (ok.complete e p found) ∙ ap (lookup w.by_seq_id) eq ∙ old)) in
        ap (λ m. lookup m c.gateway_seq_id) is
        ∙ lookup-delete_ne w.by_seq_id p.gateway_seq_id c.gateway_seq_id apart
        ∙ old;
  }

  pub destroy_entity-IsIndexed : IsIndexed (destroy_entity w e)
  destroy_entity-IsIndexed = elim (Option-cases (lookup w.players e)) [
    | inl missing ↦
        missing-IsIndexed missing (destroy_entity w e) (players_after w e)
          (index_missing w e missing)
    | inr f ↦
        found-IsIndexed f.0 f.1 (destroy_entity w e) (players_after w e) (index_found w e f.0 f.1)
  ]

-- The calls on a world, a player being set only where it may be.
pub data Step : World → World → Type 0 where
  created : {w : World} (counter : ℕ) → Step w (new_entity counter w).2
  destroyed : {w : World} (e : ℕ) → Step w (destroy_entity w e)
  player : {w : World} (e : ℕ) (c : PlayerComp) → MaySet w e c → Step w (set_player w e c)
  position : {w : World} (e : ℕ) (c : PositionComp) → Step w (set_position w e c)
  npc : {w : World} (e : ℕ) (c : NpcComp) → Step w (set_npc w e c)
  stat : {w : World} (e : ℕ) (key : String) (val : ℕ) → Step w (set_stat w e key val)
  buff : {w : World} (e : ℕ) (entry : BuffEntry) → Step w (add_buff w e entry)
  expiry : {w : World} (e tick : ℕ) → Step w (remove_expired_buffs w e tick).0

pub data Reachable : World → Type 0 where
  fresh : Reachable new_world
  after : {w v : World} → Reachable w → Step w v → Reachable v

pub same-IsIndexed :
    (w v : World) → IsIndexed w → v.players ≡ w.players → v.by_seq_id ≡ w.by_seq_id → IsIndexed v
same-IsIndexed w v ok ps is = record {
  sound = λ seq f h.
      let (c, at, id) = ok.sound seq f (ap (λ m. lookup m seq) (sym is) ∙ h) in
      (c, ap (λ m. lookup m f) ps ∙ at, id);
  complete = λ f c h.
      ap (λ m. lookup m c.gateway_seq_id) is ∙ ok.complete f c (ap (λ m. lookup m f) (sym ps) ∙ h);
}

expiry_same :
    (w : World) (e tick : ℕ)
    → ((remove_expired_buffs w e tick).0.players ≡ w.players)
      × ((remove_expired_buffs w e tick).0.by_seq_id ≡ w.by_seq_id)
unfolding remove_expired_buffs
expiry_same w e tick = ground arith

Step-IsIndexed : (w v : World) → IsIndexed w → Step w v → IsIndexed v
unfolding new_entity set_position set_npc set_stat add_buff
Step-IsIndexed w v ok (created counter) = same-IsIndexed w (new_entity counter w).2 ok refl refl
Step-IsIndexed w v ok (destroyed e) = destroy_entity-IsIndexed w e ok
Step-IsIndexed w v ok (player e c may) = set_player-IsIndexed w e c ok may
Step-IsIndexed w v ok (position e c) = same-IsIndexed w (set_position w e c) ok refl refl
Step-IsIndexed w v ok (npc e c) = same-IsIndexed w (set_npc w e c) ok refl refl
Step-IsIndexed w v ok (stat e key val) = same-IsIndexed w (set_stat w e key val) ok refl refl
Step-IsIndexed w v ok (buff e entry) = same-IsIndexed w (add_buff w e entry) ok refl refl
Step-IsIndexed w v ok (expiry e tick) =
    same-IsIndexed w (remove_expired_buffs w e tick).0 ok (expiry_same w e tick).0
      (expiry_same w e tick).1

pub Reachable-IsIndexed : (w : World) → Reachable w → IsIndexed w
unfolding new_world
Reachable-IsIndexed w fresh = record {
  sound = λ seq e h. absurd (ground (arith, h));
  complete = λ e c h. absurd (ground (arith, h));
}
Reachable-IsIndexed w (after {w = u} {v = v} r s) = Step-IsIndexed u v (Reachable-IsIndexed u r) s

-- In every world reached from the empty one by any calls, a player being set only under an id that
-- is its own before or nobody's, looking an id up finds the one entity whose player has that id, and
-- finds nothing if there is none.
pub get_entity_by_seq_id_iff :
    (w : World) (seq e : ℕ)
    → Reachable w
    → (get_entity_by_seq_id w seq ≡ some e)
      ↔ ((c : PlayerComp) × (get_player w e ≡ some c) × (c.gateway_seq_id ≡ seq))
unfolding get_entity_by_seq_id get_player
get_entity_by_seq_id_iff w seq e r =
    let ok = Reachable-IsIndexed w r in
    (λ h. ok.sound seq e h, λ h. ap (lookup w.by_seq_id) (sym h.2) ∙ ok.complete e h.0 h.1)

-- A player that is set again under another id can still be found under the id it had.
pub set_player_stale :
    (w : World) (e : ℕ) (b c : PlayerComp)
    → b.gateway_seq_id ≢ c.gateway_seq_id
    → let v = set_player (set_player w e b) e c in
      (get_player v e ≡ some c) × (get_entity_by_seq_id v b.gateway_seq_id ≡ some e)
unfolding set_player get_entity_by_seq_id get_player
set_player_stale w e b c ne = (
  lookup-store_self (store w.players e b) e c,
  lookup-store_ne (store w.by_seq_id b.gateway_seq_id e) c.gateway_seq_id b.gateway_seq_id e
        (λ eq. ne (sym eq))
      ∙ lookup-store_self w.by_seq_id b.gateway_seq_id e,
)
