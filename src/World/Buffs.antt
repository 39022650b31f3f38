-- ===== src/World/Buffs.antt =====
-- The buffs of an entity: refreshing one and removing the expired ones.
use ace.Prelude.{
  ℕ, ◌≤◌, ◌<◌, ◌≡◌, ◌≢◌, refl, ap, ◌∙◌, sym, subst, true, false, Option, none, some, List, [], ◌∷◌,
  arith, length, All, ◌==◌, ==_iff, leb, if◌then◌else◌, store, lookup-store_self, lookup-store_ne,
  Bool-cases, inl, inr,
}
use ace.World.{
  World, BuffEntry, refresh, split_expired, add_buff, get_buffs, remove_expired_buffs, buffs_of,
  signed_order, entries,
}

-- No two entries have the same id.
abbrev pub Unique : List BuffEntry → Type 0
Unique [] = Unit
Unique (b ∷ list) = All (λ (c : BuffEntry). c.buff_id ≢ b.buff_id) list × Unique list

abbrev pub buff_with : List BuffEntry → ℕ → Option BuffEntry
buff_with [] id = none
buff_with (b ∷ list) id = if b.buff_id == id then some b else buff_with list id

ne_of : (a b : ℕ) → (a == b) ≡ false → a ≢ b
ne_of a b h e = ground (arith, (==_iff a b).1 e)

refresh-All :
    (list : List BuffEntry) (entry : BuffEntry) (id : ℕ)
    → entry.buff_id ≢ id
    → All (λ (c : BuffEntry). c.buff_id ≢ id) list
    → All (λ (c : BuffEntry). c.buff_id ≢ id) (refresh list entry)
unfolding refresh
refresh-All [] entry id ne h = (ne, tt)
refresh-All (b ∷ list) entry id ne h = elim (Bool-cases (b.buff_id == entry.buff_id)) [
  | inl e ↦ rw e (ne, h.1)
  | inr e ↦ rw e (h.0, refresh-All list entry id ne h.1)
]

All-swap :
    (list : List BuffEntry) (a b : ℕ)
    → a ≡ b
    → All (λ (c : BuffEntry). c.buff_id ≢ a) list
    → All (λ (c : BuffEntry). c.buff_id ≢ b) list
All-swap list a b e h = subst (λ id. All (λ (c : BuffEntry). c.buff_id ≢ id) list) e h

refresh-Unique :
    (list : List BuffEntry) (entry : BuffEntry) → Unique list → Unique (refresh list entry)
unfolding refresh
refresh-Unique [] entry h = (tt, tt)
refresh-Unique (b ∷ list) entry h = elim (Bool-cases (b.buff_id == entry.buff_id)) [
  | inl e ↦
      rw e (All-swap list b.buff_id entry.buff_id ((==_iff b.buff_id entry.buff_id).0 e) h.0, h.1)
  | inr e ↦ rw e (
    refresh-All list entry b.buff_id (λ q. ne_of b.buff_id entry.buff_id e (sym q)) h.0,
    refresh-Unique list entry h.1,
  )
]

refresh-buff_with :
    (list : List BuffEntry) (entry : BuffEntry) (id : ℕ)
    → buff_with (refresh list entry) id
      ≡ (if entry.buff_id == id then some entry else buff_with list id)
unfolding refresh
refresh-buff_with [] entry id = refl
refresh-buff_with (b ∷ list) entry id = ground (arith, refresh-buff_with list entry id)

get_buffs-stored :
    (w : World) (e : ℕ) (list : List BuffEntry)
    → get_buffs (record w { buffs = store w.buffs e list }) e ≡ list
unfolding get_buffs
get_buffs-stored w e list = ap entries (lookup-store_self w.buffs e list)

get_buffs-other :
    (w : World) (e f : ℕ) (list : List BuffEntry)
    → e ≢ f
    → get_buffs (record w { buffs = store w.buffs e list }) f ≡ get_buffs w f
unfolding get_buffs
get_buffs-other w e f list ne = ap entries (lookup-store_ne w.buffs e f list ne)

-- Adding a buff to an entity whose buffs have different ids leaves them so; afterwards its id gives
-- the new entry, every other id what it gave before, and no other entity's buffs have changed.
pub add_buff_lem :
    (w : World) (e f id : ℕ) (entry : BuffEntry)
    → Unique (get_buffs w e)
    → e ≢ f
    → Unique (get_buffs (add_buff w e entry) e)
      × (buff_with (get_buffs (add_buff w e entry) e) id
          ≡ (if entry.buff_id == id then some entry else buff_with (get_buffs w e) id))
      × (get_buffs (add_buff w e entry) f ≡ get_buffs w f)
unfolding add_buff
add_buff_lem w e f id entry uniq ne =
    let list = buffs_of w e in
    let now = get_buffs-stored w e (refresh list entry) in
    (
      subst Unique (sym now) (refresh-Unique list entry (unfold get_buffs in uniq)),
      ap (λ l. buff_with l id) now ∙ (unfold get_buffs in refresh-buff_with list entry id),
      get_buffs-other w e f (refresh list entry) ne,
    )

-- The third list mixes the first two and keeps the order of each.
pub data Mixed {A : Type 0} : List A → List A → List A → Type 0 where
  nil : Mixed [] [] []
  left : {xs ys zs : List A} (a : A) → Mixed xs ys zs → Mixed (a ∷ xs) ys (a ∷ zs)
  right : {xs ys zs : List A} (a : A) → Mixed xs ys zs → Mixed xs (a ∷ ys) (a ∷ zs)

abbrev IsSplit : ℕ → List BuffEntry → List BuffEntry → List BuffEntry → Type 0
IsSplit tick expired active list =
    Mixed expired active list
    × All (λ (b : BuffEntry). signed_order b.expires_at_tick ≤ signed_order tick) expired
    × All (λ (b : BuffEntry). signed_order tick < signed_order b.expires_at_tick) active

le_of : (a b : ℕ) → leb a b ≡ true → a ≤ b
le_of a b h = ground arith

lt_of : (a b : ℕ) → leb a b ≡ false → b < a
lt_of a b h = ground arith

split_expired_lem :
    (list : List BuffEntry) (tick : ℕ)
    → IsSplit tick (split_expired list tick).0 (split_expired list tick).1 list
unfolding split_expired
split_expired_lem [] tick = (nil, tt, tt)
split_expired_lem (b ∷ list) tick =
    let (mixed, gone, stay) = split_expired_lem list tick in
    elim (Bool-cases (leb (signed_order b.expires_at_tick) (signed_order tick))) [
      | inl e ↦ rw e (left b mixed, (le_of _ _ e, gone), stay)
      | inr e ↦ rw e (right b mixed, gone, (lt_of _ _ e, stay))
    ]

length_zero : (l : List BuffEntry) → (length l == 0) ≡ true → l ≡ []
length_zero [] h = refl
length_zero (b ∷ l) h = absurd (ground arith)

Mixed-nil : {A : Type 0} (ys zs : List A) → Mixed [] ys zs → ys ≡ zs
Mixed-nil ys zs nil = refl
Mixed-nil ys zs (right {ys = us} {zs = vs} a m) = ap (◌∷◌ a) (Mixed-nil us vs m)

-- Removing the expired buffs returns exactly those entries whose tick, as a signed
-- number, is not after the given one, and leaves exactly the others, both in the order they had; no other entity's buffs change.
pub remove_expired_buffs_lem :
    (w : World) (e f tick : ℕ)
    → e ≢ f
    → let result = remove_expired_buffs w e tick in
      Mixed result.1 (get_buffs result.0 e) (get_buffs w e)
      × All (λ (b : BuffEntry). signed_order b.expires_at_tick ≤ signed_order tick) result.1
      × All
          (λ (b : BuffEntry). signed_order tick < signed_order b.expires_at_tick)
          (get_buffs result.0 e)
      × (get_buffs result.0 f ≡ get_buffs w f)
unfolding remove_expired_buffs
remove_expired_buffs_lem w e f tick ne =
    let list = buffs_of w e in
    let active = (split_expired list tick).1 in
    let split : IsSplit tick (split_expired list tick).0 active (get_buffs w e) =
      unfold get_buffs in split_expired_lem list tick in
    elim (Bool-cases (length (split_expired list tick).0 == 0)) [
      | inl none_expired ↦ rw none_expired (
          let empty : (split_expired list tick).0 ≡ [] = length_zero _ none_expired in
          let same : active ≡ get_buffs w e =
            Mixed-nil active (get_buffs w e)
              (subst (λ l. Mixed l active (get_buffs w e)) empty split.0) in
          (
            subst (λ l. Mixed (split_expired list tick).0 l (get_buffs w e)) same split.0,
            split.1,
            subst (All (λ (b : BuffEntry). signed_order tick < signed_order b.expires_at_tick)) same
                split.2,
            refl,
          ))
      | inr some_expired ↦
          let now = get_buffs-stored w e active in
          rw some_expired (
            (
              subst (λ l. Mixed (split_expired list tick).0 l (get_buffs w e)) (sym now) split.0,
              split.1,
              subst (All (λ (b : BuffEntry). signed_order tick < signed_order b.expires_at_tick))
                  (sym now) split.2,
              get_buffs-other w e f active ne,
            ))
    ]
