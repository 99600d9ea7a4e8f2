-- ===== src/Base/Maps.antt =====
-- `std::collections::HashMap` with integer keys, as an association list. The order of the list
-- stands for the map's iteration order, which the standard library leaves open.
use Prim.Native.Nat.{ℕ}
use mathlib.Core.Path.{◌≡◌, refl}
use mathlib.Core.List.{List, [], ◌∷◌, map}
use mathlib.Core.Option.{Option, none, some}
use native.Mathlib.Omega.{arith}
use tarantool_module.Base.Tests.{◌==◌, if◌then◌else◌}

module _ {ℓ} {V : Type ℓ} where
  abbrev pub get : ℕ → List (ℕ × V) → Option V
  get k [] = none
  get k ((j, v) ∷ m) = if j == k then some v else get k m

  abbrev pub remove : ℕ → List (ℕ × V) → List (ℕ × V)
  remove k [] = []
  remove k ((j, v) ∷ m) = let rest = remove k m in if j == k then rest else (j, v) ∷ rest

  -- The new entry replaces an old one under the same key.
  abbrev pub insert : ℕ → V → List (ℕ × V) → List (ℕ × V)
  insert k v m = (k, v) ∷ remove k m

  abbrev pub keys : List (ℕ × V) → List ℕ
  keys m = map (λ e. e.0) m

  pub get-remove :
      (k j : ℕ) (m : List (ℕ × V)) → get j (remove k m) ≡ (if k == j then none else get j m)
  get-remove k j [] = ground arith
  get-remove k j ((i, w) ∷ m) = ground (arith, get-remove k j m)

  pub get-insert :
      (k j : ℕ) (v : V) (m : List (ℕ × V))
      → get j (insert k v m) ≡ (if k == j then some v else get j m)
  get-insert k j v m = ground (arith, get-remove k j m)

  pub get-insert_self : (k : ℕ) (v : V) (m : List (ℕ × V)) → get k (insert k v m) ≡ some v
  get-insert_self k v m = ground arith

  pub get-remove_self : (k : ℕ) (m : List (ℕ × V)) → get k (remove k m) ≡ none
  get-remove_self k m = ground (arith, get-remove k k m)

  pub remove_absent : (k : ℕ) (m : List (ℕ × V)) → get k m ≡ none → remove k m ≡ m
  remove_absent k [] h = refl
  remove_absent k ((i, w) ∷ m) h = ground (arith, remove_absent k m)
