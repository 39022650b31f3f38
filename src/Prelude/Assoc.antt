-- ===== src/Prelude/Assoc.antt =====
-- Maps with numbers as keys, as association lists: a Go map whose iteration order is the list's.
use Prim.Native.Nat.{ℕ}
use mathlib.Core.Path.{◌≡◌, refl}
use mathlib.Core.Logic.{◌≢◌}
use mathlib.Core.Option.{Option, none, some}
use mathlib.Core.List.{List, [], ◌∷◌}
use native.Mathlib.Omega.{arith}
use ace.Prelude.Tests.{◌==◌, if◌then◌else◌}

module _ {ℓ} {V : Type ℓ} where
  abbrev pub lookup : List (ℕ × V) → ℕ → Option V
  lookup [] k = none
  lookup (p ∷ m) k = if p.0 == k then some p.1 else lookup m k

  abbrev pub delete : List (ℕ × V) → ℕ → List (ℕ × V)
  delete [] k = []
  delete (p ∷ m) k = if p.0 == k then delete m k else p ∷ delete m k

  abbrev pub store : List (ℕ × V) → ℕ → V → List (ℕ × V)
  store m k v = (k, v) ∷ delete m k

module _ {ℓ} {V : Type ℓ} where
  pub lookup-delete_self : (m : List (ℕ × V)) (k : ℕ) → lookup (delete m k) k ≡ none
  lookup-delete_self [] k = refl
  lookup-delete_self (p ∷ m) k = ground (arith, lookup-delete_self m k)

  pub lookup-delete_ne : (m : List (ℕ × V)) (k j : ℕ) → k ≢ j → lookup (delete m k) j ≡ lookup m j
  lookup-delete_ne [] k j ne = refl
  lookup-delete_ne (p ∷ m) k j ne = ground (arith, lookup-delete_ne m k j ne)

  pub lookup-store_self : (m : List (ℕ × V)) (k : ℕ) (v : V) → lookup (store m k v) k ≡ some v
  lookup-store_self m k v = ground arith

  pub lookup-store_ne :
      (m : List (ℕ × V)) (k j : ℕ) (v : V) → k ≢ j → lookup (store m k v) j ≡ lookup m j
  lookup-store_ne m k j v ne = ground (arith, lookup-delete_ne m k j ne)
