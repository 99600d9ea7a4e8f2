-- ===== src/Vclock/Laws.antt =====
-- The laws of the order that `Vclock::cmp` of tarantool/src/vclock.rs decides.
use native.Mathlib.Nat.{le_trans}
use tarantool_module.Base.{
  ℕ, suc, zero, ◌≡◌, refl, ◌≢◌, ◌∷◌, Bool, true, false, Option, none, some, arith,
}
use tarantool_module.Base.Maps
use tarantool_module.Vclock.{
  Vclock, Ordering, less, equal, greater, get, ignore_zero, cmp, cmp_ignore_zero, partial_cmp,
}
use tarantool_module.Vclock.Compare.{Below, Says, cmp-Says}

-- An answer is determined by what it says.
Says-unique :
    (skip skip' : Bool) (a b c d : Vclock) (r s : Option Ordering)
    → (Below skip a b → Below skip' c d)
    → (Below skip' c d → Below skip a b)
    → (Below skip b a → Below skip' d c)
    → (Below skip' d c → Below skip b a)
    → Says skip a b r
    → Says skip' c d s
    → r ≡ s
Says-unique skip skip' a b c d (some equal) (some equal) f f' g g' x y = refl
Says-unique skip skip' a b c d (some less) (some less) f f' g g' x y = refl
Says-unique skip skip' a b c d (some greater) (some greater) f f' g g' x y = refl
Says-unique skip skip' a b c d none none f f' g g' x y = refl
Says-unique skip skip' a b c d (some equal) (some less) f f' g g' x y = absurd (y.1 (g x.1))
Says-unique skip skip' a b c d (some equal) (some greater) f f' g g' x y = absurd (y.0 (f x.0))
Says-unique skip skip' a b c d (some equal) none f f' g g' x y = absurd (y.0 (f x.0))
Says-unique skip skip' a b c d (some less) (some equal) f f' g g' x y = absurd (x.1 (g' y.1))
Says-unique skip skip' a b c d (some less) (some greater) f f' g g' x y = absurd (y.0 (f x.0))
Says-unique skip skip' a b c d (some less) none f f' g g' x y = absurd (y.0 (f x.0))
Says-unique skip skip' a b c d (some greater) (some equal) f f' g g' x y = absurd (x.0 (f' y.0))
Says-unique skip skip' a b c d (some greater) (some less) f f' g g' x y = absurd (x.0 (f' y.0))
Says-unique skip skip' a b c d (some greater) none f f' g g' x y = absurd (y.1 (g x.1))
Says-unique skip skip' a b c d none (some equal) f f' g g' x y = absurd (x.0 (f' y.0))
Says-unique skip skip' a b c d none (some less) f f' g g' x y = absurd (x.0 (f' y.0))
Says-unique skip skip' a b c d none (some greater) f f' g g' x y = absurd (x.1 (g' y.1))

abbrev flip : Option Ordering → Option Ordering
flip (some less) = some greater
flip (some greater) = some less
flip (some equal) = some equal
flip none = none

Says-flip :
    (skip : Bool) (a b : Vclock) (r : Option Ordering) → Says skip a b r → Says skip b a (flip r)
Says-flip skip a b (some less) h = (h.1, h.0)
Says-flip skip a b (some greater) h = (h.1, h.0)
Says-flip skip a b (some equal) h = (h.1, h.0)
Says-flip skip a b none h = (h.1, h.0)

-- The comparison in the other order gives the reversed answer.
cmp-flip : (a b : Vclock) (skip : Bool) → cmp b a skip ≡ flip (cmp a b skip)
cmp-flip a b skip =
    Says-unique skip skip b a b a (cmp b a skip) (flip (cmp a b skip)) (λ h. h) (λ h. h) (λ h. h)
      (λ h. h) (cmp-Says b a skip) (Says-flip skip a b _ (cmp-Says a b skip))

get-ignore_zero : (vc : Vclock) (i : ℕ) → i ≢ 0 → get (ignore_zero vc) i ≡ get vc i
unfolding get ignore_zero
get-ignore_zero vc i h = ground (arith, Maps.get-remove 0 i vc)

get-ignore_zero_zero : (vc : Vclock) → get (ignore_zero vc) 0 ≡ 0
unfolding get ignore_zero
get-ignore_zero_zero vc = ground (arith, Maps.get-remove 0 0 vc)

Below-ignore_zero : (a b : Vclock) → Below true a b → Below false (ignore_zero a) (ignore_zero b)
Below-ignore_zero a b h zero s = rw (get-ignore_zero_zero a) (omega arith)
Below-ignore_zero a b h (suc i) s =
    rw (get-ignore_zero a (suc i) (omega arith), get-ignore_zero b (suc i) (omega arith))
      (h (suc i) (ground arith))

ignore_zero-Below : (a b : Vclock) → Below false (ignore_zero a) (ignore_zero b) → Below true a b
ignore_zero-Below a b h zero s = cc
ignore_zero-Below a b h (suc i) s =
    rw (get-ignore_zero a (suc i) (omega arith), get-ignore_zero b (suc i) (omega arith)) at
      (h (suc i) refl)

-- To compare without the zeroth component is to compare the clocks with that component removed.
cmp_ignore_zero-eq-partial_cmp :
    (a b : Vclock) → cmp_ignore_zero a b ≡ partial_cmp (ignore_zero a) (ignore_zero b)
unfolding cmp_ignore_zero partial_cmp
cmp_ignore_zero-eq-partial_cmp a b =
    Says-unique true false a b (ignore_zero a) (ignore_zero b) _ _ (Below-ignore_zero a b)
      (ignore_zero-Below a b) (Below-ignore_zero b a) (ignore_zero-Below b a) (cmp-Says a b true)
      (cmp-Says (ignore_zero a) (ignore_zero b) false)

-- `a <= b` by `PartialOrd`.
abbrev pub IsLe : Option Ordering → Type 0
IsLe (some less) = Unit {0}
IsLe (some equal) = Unit {0}
IsLe (some greater) = ⊥
IsLe none = ⊥

IsLe-Below :
    (skip : Bool) (a b : Vclock) (r : Option Ordering) → Says skip a b r → IsLe r → Below skip a b
IsLe-Below skip a b (some less) h l = h.0
IsLe-Below skip a b (some equal) h l = h.0
IsLe-Below skip a b (some greater) h l = absurd l
IsLe-Below skip a b none h l = absurd l

Below-IsLe :
    (skip : Bool) (a b : Vclock) (r : Option Ordering) → Says skip a b r → Below skip a b → IsLe r
Below-IsLe skip a b (some less) h l = tt
Below-IsLe skip a b (some equal) h l = tt
Below-IsLe skip a b (some greater) h l = h.0 l
Below-IsLe skip a b none h l = h.0 l

-- `<=` on clocks is transitive, with or without the zeroth component.
cmp_trans :
    (a b c : Vclock) (skip : Bool) → IsLe (cmp a b skip) → IsLe (cmp b c skip) → IsLe (cmp a c skip)
cmp_trans a b c skip p q = Below-IsLe skip a c _ (cmp-Says a c skip) λ i s.
    le_trans (IsLe-Below skip a b _ (cmp-Says a b skip) p i s)
      (IsLe-Below skip b c _ (cmp-Says b c skip) q i s)

get-zero_entry : (vc : Vclock) (k i : ℕ) → Maps.get k vc ≡ none → get ((k, 0) ∷ vc) i ≡ get vc i
unfolding get
get-zero_entry vc k i h = ground arith

-- A clock with an explicit zero component compares as equal to the clock without it, and is not
-- equal to it by the derived `==`, which compares the maps.
pub partial_cmp-zero_entry :
    (vc : Vclock) (k : ℕ)
    → Maps.get k vc ≡ none
    → (partial_cmp ((k, 0) ∷ vc) vc ≡ some equal) × (Maps.get k ((k, 0) ∷ vc) ≢ Maps.get k vc)
unfolding partial_cmp
partial_cmp-zero_entry vc k h = (
  Says-unique false false ((k, 0) ∷ vc) vc vc vc _ (some equal) (λ _ i _. omega arith)
      (λ _ i _. rw (get-zero_entry vc k i h) (omega arith)) (λ _ i _. omega arith)
      (λ _ i _. rw (get-zero_entry vc k i h) (omega arith)) (cmp-Says _ vc false)
      ((λ i _. omega arith), (λ i _. omega arith)),
  λ e. ground arith,
)
