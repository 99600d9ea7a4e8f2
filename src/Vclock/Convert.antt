-- ===== src/Vclock/Convert.antt =====
-- `Vclock::from` of tarantool/src/vclock.rs, from an array of LSNs.
use tarantool_module.Base.{
  ℕ, suc, zero, ◌+◌, ◌<◌, ◌≡◌, refl, ap, List, [], ◌∷◌, get_or, arith, none, All,
}
use tarantool_module.Base.Maps
use tarantool_module.Vclock.{Vclock, get, from_index, from}

get-from_index_low : (i j : ℕ) (lsns : List ℕ) → j < i → Maps.get j (from_index i lsns) ≡ none
unfolding from_index
get-from_index_low i j [] h = refl
get-from_index_low i j (x ∷ lsns) h = ground (arith, get-from_index_low (suc i) j lsns)

shift : (i j : ℕ) → i + suc j ≡ suc i + j
shift i j = omega arith

get-from_index : (i j : ℕ) (lsns : List ℕ) → get (from_index i lsns) (i + j) ≡ get_or lsns j 0
unfolding get from_index
get-from_index i j [] = refl
get-from_index i zero (x ∷ lsns) = ground (arith, get-from_index_low (suc i) (i + 0) lsns)
get-from_index i (suc j) (x ∷ lsns) = ground (
  arith,
  get-from_index (suc i) j lsns,
  ap (λ k. Maps.get k (from_index (suc i) lsns)) (shift i j),
)

-- No component of a map is stored as an explicit zero.
abbrev pub HasNoZero : Vclock → Type 0
HasNoZero = All (λ e. 0 < e.1)

from_index-HasNoZero : (i : ℕ) (lsns : List ℕ) → HasNoZero (from_index i lsns)
unfolding from_index
from_index-HasNoZero i [] = tt
from_index-HasNoZero i (x ∷ lsns) = ground (arith, from_index-HasNoZero (suc i) lsns)

-- The clock made from an array has the array's LSN at each index, 0 beyond its end, and stores no
-- explicit zero.
get-from : (lsns : List ℕ) → ((i : ℕ) → get (from lsns) i ≡ get_or lsns i 0) × HasNoZero (from lsns)
unfolding from
get-from lsns = (
  (λ i. rw (← get-from_index 0 i lsns) (ap (get (from_index 0 lsns)) (omega arith))),
  from_index-HasNoZero 0 lsns,
)
