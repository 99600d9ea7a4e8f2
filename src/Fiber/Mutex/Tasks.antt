-- ===== src/Fiber/Mutex/Tasks.antt =====
-- Lists of tasks, in which a task may stand more than once, for the lock of
-- tarantool/src/fiber/async/mutex.rs.
use tarantool_module.Base.{
  ℕ, ◌+◌, ◌<◌, ◌≡◌, refl, Bool, true, false, List, [], ◌∷◌, ◌++◌, arith, if◌then◌else◌, ◌==◌,
  Bool-cases, inl, inr,
}

-- Whether a task stands in a list.
abbrev pub mem : ℕ → List ℕ → Bool
mem k [] = false
mem k (x ∷ xs) = if k == x then true else mem k xs

-- The list without the first place where the task stands.
abbrev pub remove : ℕ → List ℕ → List ℕ
remove k [] = []
remove k (x ∷ xs) = if k == x then xs else x ∷ remove k xs

abbrev pub one : Bool → ℕ
one b = if b then 1 else 0

-- How often it stands there.
abbrev pub count : ℕ → List ℕ → ℕ
count k [] = 0
count k (x ∷ xs) = one (k == x) + count k xs

==-self : (k : ℕ) → (k == k) ≡ true
==-self k = ground arith

pub mem-head : (k : ℕ) (xs : List ℕ) → mem k (k ∷ xs) ≡ true
mem-head k xs = rw (==-self k) refl

pub remove-head : (k : ℕ) (xs : List ℕ) → remove k (k ∷ xs) ≡ xs
remove-head k xs = rw (==-self k) refl

pub count-head : (k : ℕ) (xs : List ℕ) → count k (k ∷ xs) ≡ 1 + count k xs
count-head k xs = rw (==-self k) refl

pub count-append : (k : ℕ) (xs ys : List ℕ) → count k (xs ++ ys) ≡ count k xs + count k ys
count-append k [] ys = omega arith
count-append k (x ∷ xs) ys = omega (arith, count-append k xs ys)

pub mem-count : (k : ℕ) (xs : List ℕ) → mem k xs ≡ true → 0 < count k xs
mem-count k [] h = cc
mem-count k (x ∷ xs) h = elim (Bool-cases (k == x)) [
  | inl e ↦ rw e (omega arith)
  | inr e ↦ let t = mem-count k xs in ground arith
]

pub count-mem : (k : ℕ) (xs : List ℕ) → 0 < count k xs → mem k xs ≡ true
count-mem k [] h = absurd (omega (arith, h))
count-mem k (x ∷ xs) h = let t = count-mem k xs in ground arith

-- A task that stands in a list is counted once less when it is removed.
pub count-remove :
    (k w : ℕ) (xs : List ℕ) → mem w xs ≡ true → count k xs ≡ one (k == w) + count k (remove w xs)
count-remove k w [] h = cc
count-remove k w (x ∷ xs) h = let t = count-remove k w xs in ground arith

sum : List ℕ → ℕ
sum [] = 0
sum (x ∷ xs) = x + sum xs

-- A task that stands in no place of a list
pub fresh : List ℕ → ℕ
fresh xs = sum xs + 1

mem-above : (k : ℕ) (xs : List ℕ) → sum xs < k → mem k xs ≡ false
unfolding sum
mem-above k [] h = refl
mem-above k (x ∷ xs) h = let t = mem-above k xs in ground arith

pub mem-fresh : (xs : List ℕ) → mem (fresh xs) xs ≡ false
unfolding fresh
mem-fresh xs = mem-above (fresh xs) xs (omega arith)
