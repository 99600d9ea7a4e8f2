-- ===== src/Vclock/Compare.antt =====
-- `Vclock::cmp` of tarantool/src/vclock.rs against the component-wise order.
use tarantool_module.Base.{
  ℕ, ◌≤◌, ◌≡◌, refl, List, [], ◌∷◌, ◌++◌, Bool, true, false, ◌&&◌, Option, none, some, leb, ◌==◌,
  if◌then◌else◌, arith, inl, inr, Bool-cases,
}
use tarantool_module.Base.Maps
use tarantool_module.Vclock.{Vclock, Ordering, less, equal, greater, get, cmp_result, cmp_loop, cmp}

-- Every component of `a` is at most that of `b`; the zeroth does not count if `skip` is set.
abbrev pub Below : Bool → Vclock → Vclock → Type 0
Below skip a b = (i : ℕ) → (skip && i == 0) ≡ false → get a i ≤ get b i

-- What an answer of `cmp` says of the two clocks.
abbrev pub Says : Bool → Vclock → Vclock → Option Ordering → Type 0
Says skip a b (some equal) = Below skip a b × Below skip b a
Says skip a b (some less) = Below skip a b × (¬ Below skip b a)
Says skip a b (some greater) = (¬ Below skip a b) × Below skip b a
Says skip a b none = (¬ Below skip a b) × (¬ Below skip b a)

-- The test of one direction over the keys.
all_le : Vclock → Vclock → Bool → List ℕ → Bool
all_le a b skip [] = true
all_le a b skip (i ∷ keys) =
    let rest = all_le a b skip keys in
    (if skip && i == 0 then true else leb (get a i) (get b i)) && rest

loop-eq-all_le :
    (a b : Vclock) (skip le ge : Bool) (keys : List ℕ)
    → cmp_loop a b skip le ge keys
      ≡ cmp_result (le && all_le a b skip keys) (ge && all_le b a skip keys)
unfolding cmp_loop cmp_result all_le
loop-eq-all_le a b skip le ge [] = ground arith
loop-eq-all_le a b skip le ge (i ∷ keys) = ground (
  arith,
  loop-eq-all_le a b skip le ge keys,
  loop-eq-all_le a b skip (le && leb (get a i) (get b i)) (ge && leb (get b i) (get a i)) keys,
)

-- Whether a key stands in the list.
abbrev has_key : ℕ → List ℕ → Bool
has_key i [] = false
has_key i (j ∷ js) = let rest = has_key i js in if j == i then true else rest

get_absent : (vc : Vclock) (i : ℕ) → has_key i (Maps.keys vc) ≡ false → get vc i ≡ 0
unfolding get
get_absent [] i h = refl
get_absent ((j, v) ∷ vc) i h = ground (arith, get_absent vc i)

has_key-append_false :
    (i : ℕ) (xs ys : List ℕ)
    → has_key i (xs ++ ys) ≡ false
    → (has_key i xs ≡ false) × (has_key i ys ≡ false)
has_key-append_false i [] ys h = (refl, h)
has_key-append_false i (x ∷ xs) ys h = ground (arith, has_key-append_false i xs ys)

all_le-Below_at :
    (a b : Vclock) (skip : Bool) (keys : List ℕ) (i : ℕ)
    → all_le a b skip keys ≡ true
    → has_key i keys ≡ true
    → (skip && i == 0) ≡ false
    → get a i ≤ get b i
unfolding all_le
all_le-Below_at a b skip [] i h k s = cc
all_le-Below_at a b skip (j ∷ keys) i h k s = ground (arith, all_le-Below_at a b skip keys i)

Below-all_le :
    (a b : Vclock) (skip : Bool) (keys : List ℕ) → Below skip a b → all_le a b skip keys ≡ true
unfolding all_le
Below-all_le a b skip [] h = refl
Below-all_le a b skip (i ∷ keys) h = ground (arith, h i, Below-all_le a b skip keys h)

-- A set of keys outside which `a` has no component.
abbrev Covers : Vclock → List ℕ → Type 0
Covers a keys = (i : ℕ) → has_key i keys ≡ false → get a i ≡ 0

all_le-Below :
    (a b : Vclock) (skip : Bool) (keys : List ℕ)
    → Covers a keys
    → all_le a b skip keys ≡ true
    → Below skip a b
all_le-Below a b skip keys cov h i s = elim (Bool-cases (has_key i keys)) [
  | inl k ↦ all_le-Below_at a b skip keys i h k s
  | inr k ↦ rw (cov i k) (omega arith)
]

cmp_result-Says :
    (skip : Bool) (a b : Vclock) (keys : List ℕ)
    → Covers a keys
    → Covers b keys
    → Says skip a b (cmp_result (all_le a b skip keys) (all_le b a skip keys))
unfolding cmp_result
cmp_result-Says skip a b keys ca cb = go (all_le a b skip keys) (all_le b a skip keys) refl refl
  where
    go :
        (x y : Bool)
        → all_le a b skip keys ≡ x
        → all_le b a skip keys ≡ y
        → Says skip a b (cmp_result x y)
    go true true p q = (all_le-Below a b skip keys ca p, all_le-Below b a skip keys cb q)
    go true false p q = (all_le-Below a b skip keys ca p, λ h. cc (Below-all_le b a skip keys h))
    go false true p q = (λ h. cc (Below-all_le a b skip keys h), all_le-Below b a skip keys cb q)
    go false false p q =
        (λ h. cc (Below-all_le a b skip keys h), λ h. cc (Below-all_le b a skip keys h))

-- `cmp` decides the component-wise order, early return and `ignore_zero` included: it answers
-- equal, less, greater or none as each clock is, or is not, below the other in every component
-- that counts.
pub cmp-Says : (a b : Vclock) (skip : Bool) → Says skip a b (cmp a b skip)
unfolding cmp
cmp-Says a b skip = rw (loop-eq-all_le a b skip true true (Maps.keys a ++ Maps.keys b)) (
    cmp_result-Says skip a b (Maps.keys a ++ Maps.keys b)
      (λ i k. get_absent a i (has_key-append_false i (Maps.keys a) (Maps.keys b) k).0)
      (λ i k. get_absent b i (has_key-append_false i (Maps.keys a) (Maps.keys b) k).1))
