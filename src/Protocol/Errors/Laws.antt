-- ===== src/Protocol/Errors/Laws.antt =====
-- The errors that `decode_error` of tarantool/src/network/protocol/codec.rs returns.
use tarantool_module.Base.{ℕ, ◌≡◌, ◌≢◌, refl, ap, List, [], ◌∷◌, ◌++◌, Option, none, some, arith}
use tarantool_module.Io.{Cursor, ok, BoxError, ErrorInfo, plain, caused}
use tarantool_module.Protocol.Rmp.{Rmp}
use tarantool_module.Protocol.Header.{Header}
use tarantool_module.Protocol.Errors.{chain, info, decode_nodes, extended_field, decode_error}

-- An error and its causes, from the outside in.
abbrev pub causes : BoxError → List ErrorInfo
causes (plain e) = e ∷ []
causes (caused e c) = e ∷ causes c

abbrev pub stack : Option BoxError → List ErrorInfo
stack none = []
stack (some e) = causes e

stack-chain :
    (nodes : List ErrorInfo) (acc : Option BoxError) → stack (chain nodes acc) ≡ nodes ++ stack acc
unfolding chain
stack-chain [] acc = refl
stack-chain (node ∷ nodes) acc = go (chain nodes acc) (stack-chain nodes acc)
  where
    go :
        (x : Option BoxError)
        → stack x ≡ nodes ++ stack acc
        → stack (elim x [ none ↦ some (plain node) | some next ↦ some (caused node next) ])
          ≡ node ∷ (nodes ++ stack acc)
    go none h = ap (λ t. node ∷ t) h
    go (some next) h = ap (λ t. node ∷ t) h

module _ (rmp : Rmp) where
  -- The error stack of a response becomes one error whose chain of causes lists the nodes in the
  -- order in which they were read, before those of an earlier stack; the cursor stands behind them.
  extended_field-stack :
      (n : ℕ) (nodes : List ErrorInfo) (acc : Option BoxError) (c c1 c2 : Cursor)
      → rmp.read_array_len c ≡ ok (n, c1)
      → decode_nodes rmp n c1 ≡ ok (nodes, c2)
      → (x : Option BoxError) × (extended_field rmp 0 acc c ≡ ok (x, c2))
        × (stack x ≡ nodes ++ stack acc)
  unfolding extended_field
  extended_field-stack n nodes acc c c1 c2 h k =
      (chain nodes acc, rw (h, k) refl, stack-chain nodes acc)

  -- An error response that is decoded has a message; one without is an error of the decoder.
  decode_error-message :
      (h : Header) (c c' : Cursor) (e : BoxError)
      → decode_error rmp h c ≡ ok (e, c')
      → (info e).message ≢ none
  unfolding decode_error
  decode_error-message h c c' e eq = ground arith
