-- ===== src/World/Components.antt =====
-- What creating, changing and destroying one entity means to the components of all.
use ace.Prelude.{
  ℕ, suc, ◌+◌, ◌≤◌, ◌≡◌, ◌≢◌, refl, ap, ◌∙◌, sym, Option, none, some, List, [], ◌∷◌, arith, length,
  All, if◌then◌else◌, lookup, delete, lookup-store_self, lookup-store_ne, lookup-delete_self,
  lookup-delete_ne, Bool-cases, inl, inr, String, str_eq, str_eq_iff, subst,
}
use ace.World.{
  World, StatsComp, Present, new_entity, destroy_entity, count, present, get_player, get_position,
  get_npc, get_stat, set_stat, get_buffs, entries, stat_of, put_stat, stat_in, stats_or_new,
}

-- After its destruction an entity has no component left, and every other entity has all of its own.
pub destroy_entity_lem :
    (w : World) (e f : ℕ) (key : String)
    → e ≢ f
    → let v = destroy_entity w e in
      (lookup v.alive e ≡ none)
      × (get_player v e ≡ none)
      × (get_position v e ≡ none)
      × (get_npc v e ≡ none)
      × (get_stat v e key ≡ none)
      × (get_buffs v e ≡ [])
      × (lookup v.alive f ≡ lookup w.alive f)
      × (get_player v f ≡ get_player w f)
      × (get_position v f ≡ get_position w f)
      × (get_npc v f ≡ get_npc w f)
      × (get_stat v f key ≡ get_stat w f key)
      × (get_buffs v f ≡ get_buffs w f)
unfolding destroy_entity get_player get_position get_npc get_stat get_buffs
destroy_entity_lem w e f key ne = (
  lookup-delete_self w.alive e,
  lookup-delete_self w.players e,
  lookup-delete_self w.positions e,
  lookup-delete_self w.npcs e,
  ap (stat_in key) (lookup-delete_self w.stats e),
  ap entries (lookup-delete_self w.buffs e),
  lookup-delete_ne w.alive e f ne,
  lookup-delete_ne w.players e f ne,
  lookup-delete_ne w.positions e f ne,
  lookup-delete_ne w.npcs e f ne,
  ap (stat_in key) (lookup-delete_ne w.stats e f ne),
  ap entries (lookup-delete_ne w.buffs e f ne),
)

stat_of-put_stat :
    (sc : StatsComp) (key other : String) (val : ℕ)
    → stat_of (put_stat sc key val) other
      ≡ (if str_eq key other then some val else stat_of sc other)
unfolding stat_of put_stat
stat_of-put_stat [] key other val = refl
stat_of-put_stat (p ∷ sc) key other val = elim (Bool-cases (str_eq p.0 key)) [
  | inl e ↦
      let same : p.0 ≡ key = (str_eq_iff p.0 key).0 e in
      rw e (rw same (ground (arith, stat_of-put_stat sc key other val)))
  | inr n ↦ rw n (
      ground (
        arith,
        stat_of-put_stat sc key other val,
        str_eq_iff p.0 key,
        str_eq_iff key other,
        str_eq_iff p.0 other,
      ))
]

stat_in-put_stat :
    (o : Option StatsComp) (key other : String) (val : ℕ)
    → stat_of (put_stat (stats_or_new o) key val) other
      ≡ (if str_eq key other then some val else stat_in other o)
unfolding stat_of
stat_in-put_stat none key other val = stat_of-put_stat [] key other val
stat_in-put_stat (some sc) key other val = stat_of-put_stat sc key other val

-- A stat that is set is what is read under its key, for an entity that had stats before and for one
-- that had none; the entity's other keys and the other entities read as before.
pub get_stat-set_stat :
    (w : World) (e f : ℕ) (key other : String) (val : ℕ)
    → e ≢ f
    → (get_stat (set_stat w e key val) e other
        ≡ (if str_eq key other then some val else get_stat w e other))
      × (get_stat (set_stat w e key val) f other ≡ get_stat w f other)
unfolding get_stat set_stat
get_stat-set_stat w e f key other val ne =
    let sc = put_stat (stats_or_new (lookup w.stats e)) key val in
    (
      ap (stat_in other) (lookup-store_self w.stats e sc)
          ∙ stat_in-put_stat (lookup w.stats e) key other val,
      ap (stat_in other) (lookup-store_ne w.stats e f sc ne),
    )

-- No live entity has an id above the counter.
abbrev pub Below : ℕ → List (ℕ × Present) → Type 0
Below counter = All (λ (p : ℕ × Present). p.0 ≤ counter)

delete_absent :
    (m : List (ℕ × Present)) (counter : ℕ) → Below counter m → delete m (counter + 1) ≡ m
delete_absent [] counter h = refl
delete_absent (p ∷ m) counter h = ground (arith, delete_absent m counter h.1)

lookup_absent :
    (m : List (ℕ × Present)) (counter : ℕ) → Below counter m → lookup m (counter + 1) ≡ none
lookup_absent [] counter h = refl
lookup_absent (p ∷ m) counter h = ground (arith, lookup_absent m counter h.1)

Below-suc : (m : List (ℕ × Present)) (counter : ℕ) → Below counter m → Below (counter + 1) m
Below-suc [] counter h = tt
Below-suc (p ∷ m) counter h = (omega arith, Below-suc m counter h.1)

-- While no live id is above the counter, a new entity gets an id that no live entity has, the number
-- of live entities grows by one, and again no live id is above the counter.
pub new_entity_lem :
    (counter : ℕ) (w : World)
    → Below counter w.alive
    → let (counter', e, v) = new_entity counter w in
      (lookup w.alive e ≡ none)
      × (lookup v.alive e ≡ some present)
      × (count v ≡ count w + 1)
      × Below counter' v.alive
unfolding new_entity count
new_entity_lem counter w below = (
  lookup_absent w.alive counter below,
  lookup-store_self w.alive (counter + 1) present,
  ap (λ (m : List (ℕ × Present)). suc (length m)) (delete_absent w.alive counter below)
      ∙ omega arith,
  (
    omega arith,
    subst (Below (counter + 1)) (sym (delete_absent w.alive counter below))
        (Below-suc w.alive counter below),
  ),
)
