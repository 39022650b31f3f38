-- ===== src/Admin/Limiter/Collect.antt =====
-- Collecting idle buckets does not change what the limiter answers.
use ace.Prelude.{
  ℕ, ◌+◌, ◌*◌, ◌-◌, leb, min, if◌then◌else◌, ◌<◌, ◌≤◌, ◌≡◌, ◌≢◌, refl, ap, ◌∙◌, sym, subst, true,
  none, some, [], ◌∷◌, arith, ltb, ltb→lt, if_true, if_false, Bool-cases, inl, inr, ◌⊎◌,
}
use native.Mathlib.Nat.{mul-le-mul_left}
use ace.Bytes.{Bytes}
use ace.Bytes.Equal.{bytes_eq, bytes_eq_refl, bytes_eq_sound, bytes_eq_ne, bytes_same_or_ne}
use ace.Admin.Limiter.{
  Bucket, LimiterEntry, RateLimiter, entry_of, put_entry, tokens_or_fresh, allow, collect,
  idle_evict_after,
}

-- A token bucket as golang.org/x/time/rate documents it: it holds at most `full`, is full at first,
-- and is refilled at a steady rate; a request takes one token if there is one. Amounts are in parts
-- of a token. `UsedBy t seen` says that the bucket was last used at the time `seen`.
pub record IsBucket (k : Bucket) : Type 1 where
  pub full : ℕ
  pub one : ℕ
  pub rate : ℕ
  pub level : k.Tokens → ℕ → ℕ
  pub UsedBy : k.Tokens → ℕ → Type 0
  pub used : (t : k.Tokens) (now : ℕ) → UsedBy (k.take_token t now).0 now
  pub full_at_first : (now : ℕ) → level k.fresh now ≡ full
  pub refilled :
      (t : k.Tokens) (seen now : ℕ)
      → UsedBy t seen
      → seen ≤ now
      → level t now ≡ min full (level t seen + rate * (now - seen))
  pub allowed : (t : k.Tokens) (now : ℕ) → (k.take_token t now).1 ≡ leb one (level t now)
  pub taken :
      (t : k.Tokens) (now : ℕ)
      → level (k.take_token t now).0 now
        ≡ (if leb one (level t now) then level t now - one else level t now)

min_full : (full n m : ℕ) → full ≤ m → min full (n + m) ≡ full
min_full full n m h = ground (arith, h)

module _ (k : Bucket) where
  abbrev Entries : Type 0
  Entries = RateLimiter k

  entry_of-put_entry_self :
      (es : Entries) (key : Bytes) (e : LimiterEntry k)
      → entry_of k (put_entry k es key e) key ≡ some e
  unfolding entry_of put_entry
  entry_of-put_entry_self [] key e = if_true (bytes_eq key key) (some e) none (bytes_eq_refl key)
  entry_of-put_entry_self (p ∷ es) key e =
      ground (arith, bytes_eq_refl key, entry_of-put_entry_self es key e)

  entry_of-put_entry_ne :
      (es : Entries) (key other : Bytes) (e : LimiterEntry k)
      → key ≢ other
      → entry_of k (put_entry k es key e) other ≡ entry_of k es other
  unfolding entry_of put_entry
  entry_of-put_entry_ne [] key other e ne =
      if_false (bytes_eq key other) (some e) none (bytes_eq_ne key other ne)
  entry_of-put_entry_ne (p ∷ es) key other e ne = elim (Bool-cases (bytes_eq p.0 key)) [
    | inl same ↦
        let apart : p.0 ≢ other = λ h. ne (sym (bytes_eq_sound p.0 key same) ∙ h) in
        ground (arith, bytes_eq_ne key other ne, bytes_eq_ne p.0 other apart)
    | inr away ↦ ground (arith, entry_of-put_entry_ne es key other e ne)
  ]

  -- No key has two entries.
  abbrev pub UniqueKeys : Entries → Type 0
  UniqueKeys [] = Unit
  UniqueKeys (p ∷ es) = (entry_of k es p.0 ≡ none) × UniqueKeys es

  put_entry-UniqueKeys :
      (es : Entries) (key : Bytes) (e : LimiterEntry k)
      → UniqueKeys es
      → UniqueKeys (put_entry k es key e)
  unfolding put_entry entry_of
  put_entry-UniqueKeys [] key e u = (refl, tt)
  put_entry-UniqueKeys (p ∷ es) key e u = elim (Bool-cases (bytes_eq p.0 key)) [
    | inl same ↦ rw same (ap (entry_of k es) (sym (bytes_eq_sound p.0 key same)) ∙ u.0, u.1)
    | inr away ↦
        let apart : key ≢ p.0 = λ h.
          ground (arith, away, subst (λ t. bytes_eq p.0 t ≡ true) (sym h) (bytes_eq_refl p.0)) in
        rw away (entry_of-put_entry_ne es key p.0 e apart ∙ u.0, put_entry-UniqueKeys es key e u.1)
  ]

  collect-absent :
      (es : Entries) (now : ℕ) (key : Bytes)
      → entry_of k es key ≡ none
      → entry_of k (collect k es now) key ≡ none
  unfolding entry_of collect
  collect-absent [] now key h = refl
  collect-absent (p ∷ es) now key h = elim (Bool-cases (bytes_eq p.0 key)) [
    | inl same ↦ absurd (ground arith)
    | inr away ↦ ground (arith, collect-absent es now key (ground arith))
  ]

  abbrev Dropped : Entries → ℕ → Bytes → Type 0
  Dropped es now key =
      (entry_of k (collect k es now) key ≡ none)
      × ((e : LimiterEntry k) × (entry_of k es key ≡ some e)
          × (idle_evict_after < now - e.last_seen))

  some_entry : {d e : LimiterEntry k} → some d ≡ some e → d ≡ e
  some_entry h = ground (arith, h)

  -- A collection only drops entries, and only idle ones.
  entry_of-collect :
      (es : Entries) (now : ℕ) (key : Bytes)
      → UniqueKeys es
      → (entry_of k (collect k es now) key ≡ entry_of k es key) ⊎ Dropped es now key
  unfolding entry_of collect
  entry_of-collect [] now key u = inl refl
  entry_of-collect (p ∷ es) now key u = elim (Bool-cases (bytes_eq p.0 key)) [
    | inl same ↦
        let gone : entry_of k (collect k es now) key ≡ none =
          collect-absent es now key
            (ap (entry_of k es) (sym (bytes_eq_sound p.0 key same)) ∙ u.0) in
        elim (Bool-cases (ltb idle_evict_after (now - p.1.last_seen))) [
          | inl idle ↦
              rw (idle, same)
                (inr (gone, (p.1, refl, ltb→lt idle_evict_after (now - p.1.last_seen) idle)))
          | inr busy ↦ inl (ground arith)
        ]
    | inr away ↦ elim (entry_of-collect es now key u.1) [
      | inl kept ↦ inl (ground arith)
      | inr dropped ↦ inr (ground arith, (dropped.1.0, ground arith, dropped.1.2))
    ]
  ]

  collect-UniqueKeys : (es : Entries) (now : ℕ) → UniqueKeys es → UniqueKeys (collect k es now)
  unfolding collect
  collect-UniqueKeys [] now u = tt
  collect-UniqueKeys (p ∷ es) now u =
      elim (Bool-cases (ltb idle_evict_after (now - p.1.last_seen))) [
        | inl idle ↦ rw idle (collect-UniqueKeys es now u.1)
        | inr busy ↦ rw busy (collect-absent es now p.0 u.0, collect-UniqueKeys es now u.1)
      ]

  module _ (law : IsBucket k) where
    -- What holds of a limiter: different keys, and every bucket last used when it was last seen.
    abbrev pub IsLimiter : Entries → Type 0
    IsLimiter es =
        UniqueKeys es
        × ((key : Bytes) (e : LimiterEntry k)
            → entry_of k es key ≡ some e
            → law.UsedBy e.lim e.last_seen)

    allow-IsLimiter :
        (es : Entries) (key : Bytes) (now : ℕ) → IsLimiter es → IsLimiter (allow k es key now).0
    unfolding allow
    allow-IsLimiter es key now ok =
        let t = k.take_token (tokens_or_fresh k (entry_of k es key)) now in
        let e : LimiterEntry k = record { lim = t.0; last_seen = now } in
        (
          put_entry-UniqueKeys es key e ok.0,
          λ other d h. elim (bytes_same_or_ne key other) [
            | inl same ↦
                let d_is : e ≡ d = some_entry (
                  sym (entry_of-put_entry_self es key e)
                  ∙ ap (entry_of k (put_entry k es key e)) same
                  ∙ h) in
                subst (λ (c : LimiterEntry k). law.UsedBy c.lim c.last_seen) d_is
                  (law.used (tokens_or_fresh k (entry_of k es key)) now)
            | inr ne ↦ ok.1 other d (sym (entry_of-put_entry_ne es key other e ne) ∙ h)
          ],
        )

    collect-IsLimiter : (es : Entries) (now : ℕ) → IsLimiter es → IsLimiter (collect k es now)
    collect-IsLimiter es now ok = (
      collect-UniqueKeys es now ok.0,
      λ key e h. elim (entry_of-collect es now key ok.0) [
        | inl kept ↦ ok.1 key e (sym kept ∙ h)
        | inr dropped ↦ absurd (ground (arith, dropped.0, h))
      ],
    )

    refilled_whole :
        (t : k.Tokens) (seen now : ℕ)
        → law.full ≤ law.rate * idle_evict_after
        → law.UsedBy t seen
        → idle_evict_after < now - seen
        → law.level t now ≡ law.full
    refilled_whole t seen now enough u idle =
        law.refilled t seen now u (omega (arith, idle))
        ∙ min_full law.full (law.level t seen) (law.rate * (now - seen))
            (omega (arith, enough, more))
      where
        more : law.rate * idle_evict_after ≤ law.rate * (now - seen)
        more =
            mul-le-mul_left {m = idle_evict_after} {n = now - seen} law.rate (omega (arith, idle))

    same_level :
        (es : Entries) (tick now : ℕ) (key : Bytes)
        → law.full ≤ law.rate * idle_evict_after
        → IsLimiter es
        → tick ≤ now
        → law.level (tokens_or_fresh k (entry_of k (collect k es tick) key)) now
          ≡ law.level (tokens_or_fresh k (entry_of k es key)) now
    same_level es tick now key enough ok later = elim (entry_of-collect es tick key ok.0) [
      | inl kept ↦ ap (λ o. law.level (tokens_or_fresh k o) now) kept
      | inr dropped ↦
          let (e, at, idle) = dropped.1 in
          ap (λ o. law.level (tokens_or_fresh k o) now) dropped.0
          ∙ law.full_at_first now
          ∙ sym (
              refilled_whole e.lim e.last_seen now enough (ok.1 key e at)
                (omega (arith, idle, later)))
          ∙ ap (λ o. law.level (tokens_or_fresh k o) now) (sym at)
    ]

    -- A limiter that requests and collections have made, from an empty one.
    pub data Reached : Entries → Type 0 where
      empty : Reached []
      request : (es : Entries) (key : Bytes) (now : ℕ) → Reached es → Reached (allow k es key now).0
      collection : (es : Entries) (now : ℕ) → Reached es → Reached (collect k es now)

    not_there : (e : LimiterEntry k) → none ≡ some e → ⊥
    not_there e h = cc

    Reached-IsLimiter : (es : Entries) → Reached es → IsLimiter es
    unfolding entry_of
    Reached-IsLimiter es empty = (tt, λ key e h. absurd (not_there e h))
    Reached-IsLimiter es (request es0 key now r) =
        allow-IsLimiter es0 key now (Reached-IsLimiter es0 r)
    Reached-IsLimiter es (collection es0 now r) =
        collect-IsLimiter es0 now (Reached-IsLimiter es0 r)

    -- In a limiter that requests and collections have made, whose buckets are those that rate
    -- documents and are full again after half an hour: a collection at any time before a request does
    -- not change the answer that the request's key gets, nor what the key's bucket holds at any time
    -- afterwards; and a request changes no other key's bucket.
    pub allow-collect :
        (es : Entries) (tick now later : ℕ) (key other : Bytes)
        → law.full ≤ law.rate * idle_evict_after
        → Reached es
        → tick ≤ now
        → now ≤ later
        → key ≢ other
        → let plain = allow k es key now in
          let collected = allow k (collect k es tick) key now in
          (collected.1 ≡ plain.1)
          × ((d : LimiterEntry k) × (e : LimiterEntry k) × (entry_of k collected.0 key ≡ some d)
              × (entry_of k plain.0 key ≡ some e)
              × (law.level d.lim later ≡ law.level e.lim later))
          × (entry_of k plain.0 other ≡ entry_of k es other)
    unfolding allow
    allow-collect es tick now later key other enough reached before after ne =
        let ok = Reached-IsLimiter es reached in
        let t = tokens_or_fresh k (entry_of k es key) in
        let u = tokens_or_fresh k (entry_of k (collect k es tick) key) in
        let same = same_level es tick now key enough ok before in
        let d : LimiterEntry k = record { lim = (k.take_token u now).0; last_seen = now } in
        let e : LimiterEntry k = record { lim = (k.take_token t now).0; last_seen = now } in
        (
          law.allowed u now ∙ ap (leb law.one) same ∙ sym (law.allowed t now),
          (
            d,
            e,
            entry_of-put_entry_self (collect k es tick) key d,
            entry_of-put_entry_self es key e,
            law.refilled d.lim now later (law.used u now) after
                ∙ ap (λ n. min law.full (n + law.rate * (later - now)))
                    (law.taken u now
                      ∙ ap (λ n. if leb law.one n then n - law.one else n) same
                      ∙ sym (law.taken t now))
                ∙ sym (law.refilled e.lim now later (law.used t now) after),
          ),
          entry_of-put_entry_ne es key other e ne,
        )
