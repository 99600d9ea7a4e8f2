-- ===== src/Vclock.antt =====
-- tarantool/src/vclock.rs: the vector clock and its partial order. `Vclock` is the map from replica
-- ids to LSNs; a component that the map lacks counts as 0.
pub mod Compare
pub mod Laws
pub mod Convert
mod Tests
use tarantool_module.Base.{
  ℕ, suc, ◌+◌, List, [], ◌∷◌, ◌++◌, Bool, true, false, not, ◌&&◌, Option, none, some, ltb, leb,
  ◌==◌, if◌then◌else◌,
}
use tarantool_module.Base.Maps

abbrev pub Vclock : Type 0
Vclock = List (ℕ × ℕ)

-- `std::cmp::Ordering`
pub data Ordering : Type 0 where
  less equal greater : Ordering

-- `map.get(&index).copied().unwrap_or(0)`
pub get : Vclock → ℕ → ℕ
get vc index = elim (Maps.get index vc) [ none ↦ 0 | some lsn ↦ lsn ]

pub ignore_zero : Vclock → Vclock
ignore_zero vc = Maps.remove 0 vc

-- The tests behind the loop of `cmp`.
pub cmp_result : Bool → Bool → Option Ordering
cmp_result le ge =
    if le && ge
    then some equal
    else (if le && not ge then some less else (if not le && ge then some greater else none))

-- The loop of `cmp` over the keys that are left; `continue` and `return None` are its branches.
pub cmp_loop : Vclock → Vclock → Bool → Bool → Bool → List ℕ → Option Ordering
cmp_loop a b skip le ge [] = cmp_result le ge
cmp_loop a b skip le ge (i ∷ keys) =
    let le' = le && leb (get a i) (get b i) in
    let ge' = ge && leb (get b i) (get a i) in
    let skipped = cmp_loop a b skip le ge keys in
    let more = cmp_loop a b skip le' ge' keys in
    if skip && i == 0 then skipped else (if not ge' && not le' then none else more)

pub cmp : Vclock → Vclock → Bool → Option Ordering
cmp a b skip = cmp_loop a b skip true true (Maps.keys a ++ Maps.keys b)

pub cmp_ignore_zero : Vclock → Vclock → Option Ordering
cmp_ignore_zero a b = cmp a b true

pub partial_cmp : Vclock → Vclock → Option Ordering
partial_cmp a b = cmp a b false

-- `iter().enumerate().filter(|(_, lsn)| *lsn != 0).collect()`, from index `i` on.
pub from_index : ℕ → List ℕ → Vclock
from_index i [] = []
from_index i (lsn ∷ rest) =
    let entries = from_index (suc i) rest in if lsn == 0 then entries else (i, lsn) ∷ entries

pub from : List ℕ → Vclock
from lsns = from_index 0 lsns
