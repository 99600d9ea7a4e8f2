-- ===== src/Encode/Reader.antt =====
-- Readers of a slice: `r: &mut &[u8]` as the bytes left, which are those behind an error too.
use tarantool_module.Io.{Bytes}

pub data Outcome {ℓ κ} (E : Type ℓ) (A : Type κ) : Type (ℓ ⊔ κ) where
  ok : A → Outcome E A
  err : E → Outcome E A
  panic : Outcome E A

abbrev pub Reader {ℓ κ} : Type ℓ → Type κ → Type (ℓ ⊔ κ)
Reader E A = Bytes → Outcome E A × Bytes

module _ {ℓ κ} {E : Type ℓ} {A : Type κ} where
  abbrev pub continue {μ} :
      {B : Type μ} → (A → Reader E B) → Outcome E A × Bytes → Outcome E B × Bytes
  continue f (ok a, r) = f a r
  continue f (err e, r) = (err e, r)
  continue f (panic, r) = (panic, r)

  abbrev pub map_err {μ} : {E' : Type μ} → (E → E') → Outcome E A × Bytes → Outcome E' A × Bytes
  map_err f (ok a, r) = (ok a, r)
  map_err f (err e, r) = (err (f e), r)
  map_err f (panic, r) = (panic, r)

  -- `unwrap`
  abbrev pub unwrap : Outcome E A × Bytes → Outcome E A × Bytes
  unwrap (err e, r) = (panic, r)
  unwrap o = o

infixl 5 ◌>>=◌
abbrev pub ◌>>=◌ {ℓ κ μ} :
    {E : Type ℓ} {A : Type κ} {B : Type μ} → Reader E A → (A → Reader E B) → Reader E B
(m >>= f) r = continue f (m r)
