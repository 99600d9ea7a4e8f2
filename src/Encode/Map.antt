-- ===== src/Encode/Map.antt =====
-- `BTreeMap` in tarantool/src/msgpack/encode.rs: a list of entries in the order of their keys.
use mathlib.Core.List.{append_assoc, append-nil}
use tarantool_module.Base.{
  ℕ, zero, suc, ◌%◌, ◌^◌, ◌≡◌, refl, Bool, true, false, List, [], ◌∷◌, ◌++◌, length, ltb,
  if◌then◌else◌, arith, All,
}
use tarantool_module.Io.{Bytes}
use tarantool_module.Encode.{Context}
use tarantool_module.Encode.Reader.{ok, map_err, ◌>>=◌}
use tarantool_module.Encode.Rmp.{Codec, IsLen}
use tarantool_module.Encode.Errors.{nth_key, nth_value, read_error, new}
use tarantool_module.Encode.Std.{Encode, Decode, return, in_part}

-- The order of `String`
abbrev pub bytes_lt : Bytes → Bytes → Bool
bytes_lt xs [] = false
bytes_lt [] (y ∷ ys) = true
bytes_lt (x ∷ xs) (y ∷ ys) = if ltb x y then true else (if ltb y x then false else bytes_lt xs ys)

pub bytes_lt_asymm : (a b : Bytes) → bytes_lt a b ≡ true → bytes_lt b a ≡ false
bytes_lt_asymm xs [] h = absurd (cc)
bytes_lt_asymm [] (y ∷ ys) h = refl
bytes_lt_asymm (x ∷ xs) (y ∷ ys) h = ground (arith, bytes_lt_asymm xs ys)

module _ {K V : Type 0} (lt : K → K → Bool) where
  -- `insert` replaces the value of a key that is there.
  abbrev pub insert : K → V → List (K × V) → List (K × V)
  insert k v [] = (k, v) ∷ []
  insert k v ((k', v') ∷ m) =
      if lt k k'
      then (k, v) ∷ ((k', v') ∷ m)
      else (if lt k' k then (k', v') ∷ insert k v m else (k', v) ∷ m)

  abbrev pub IsSorted : List (K × V) → Type 0
  IsSorted [] = Unit {0}
  IsSorted (e ∷ m) = All (λ o. lt e.0 o.0 ≡ true) m × IsSorted m

module _ (codec : Codec) {K V : Type 0} where
  abbrev pub encode_entries : Encode K → Encode V → Encode (List (K × V))
  encode_entries ek ev cx [] = []
  encode_entries ek ev cx ((k, v) ∷ m) = ek cx k ++ (ev cx v ++ encode_entries ek ev cx m)

  abbrev pub encode_btree_map : Encode K → Encode V → Encode (List (K × V))
  encode_btree_map ek ev cx m = codec.write_map_len (length m % 2 ^ 32) ++ encode_entries ek ev cx m

  -- The loop over the entries: `n` are left, and the next is the `i`th.
  abbrev pub decode_entries :
      (K → K → Bool) → Decode K → Decode V → ℕ → ℕ → List (K × V) → Decode (List (K × V))
  decode_entries lt dk dv zero i m cx = return m
  decode_entries lt dk dv (suc n) i m cx = in_part (nth_key i) (dk cx) >>= (λ k.
      in_part (nth_value i) (dv cx)
      >>= (λ v. decode_entries lt dk dv n (suc i) (insert lt k v m) cx))

  abbrev pub decode_btree_map : (K → K → Bool) → Decode K → Decode V → Decode (List (K × V))
  decode_btree_map lt dk dv cx =
      (λ r. map_err (λ e. new (read_error e)) (codec.map_len.read r))
      >>= (λ n. decode_entries lt dk dv n 0 [] cx)

module _ {A : Type 0} where
  All-and :
      {P Q R : A → Type 0}
      → ((a : A) → P a → Q a → R a)
      → (xs : List A) → All P xs
      → All Q xs
      → All R xs
  All-and f [] p q = tt
  All-and f (x ∷ xs) (p, ps) (q, qs) = (f x p q, All-and f xs ps qs)

  All-last : (P : A → Type 0) (xs : List A) (a : A) → All P xs → P a → All P (xs ++ (a ∷ []))
  All-last P [] a ps p = (p, tt)
  All-last P (x ∷ xs) a (q, qs) p = (q, All-last P xs a qs p)

  pub All-none : {P : A → Type 0} → ((a : A) → P a) → (xs : List A) → All P xs
  All-none f [] = tt
  All-none f (x ∷ xs) = (f x, All-none f xs)

module _ {K V : Type 0} (lt : K → K → Bool)
    (asymm : (a b : K) → lt a b ≡ true → lt b a ≡ false) where
  insert_last :
      (k : K) (v : V) (m : List (K × V))
      → All (λ e. lt e.0 k ≡ true) m
      → insert lt k v m ≡ m ++ ((k, v) ∷ [])
  insert_last k v [] h = refl
  insert_last k v ((k', v') ∷ m) (h, hs) = rw (asymm k' k h, h, insert_last k v m hs) refl

  module _ (codec : Codec) (cx : Context) (ek : Encode K) (ev : Encode V) (dk : Decode K)
      (dv : Decode V) (P : K × V → Type 0)
      (h : (k : K) (v : V) (more : Bytes) → P (k, v) → dk cx (ek cx k ++ more) ≡ (ok k, more))
      (g : (k : K) (v : V) (more : Bytes) → P (k, v) → dv cx (ev cx v ++ more) ≡ (ok v, more)) where
    -- Entries in order are read back behind those that are there.
    decode_entries-encode :
        (m before : List (K × V)) (i : ℕ) (more : Bytes)
        → All P m
        → IsSorted lt m
        → All (λ e. All (λ b. lt b.0 e.0 ≡ true) before) m
        → decode_entries codec lt dk dv
            (length m)
            i
            before
            cx
            (encode_entries codec ek ev cx m ++ more)
          ≡ (ok (before ++ m), more)
    decode_entries-encode [] before i more p s b = rw (append-nil before) refl
    decode_entries-encode ((k, v) ∷ m) before i more (p, ps) (s, ss) (b, bs) =
        rw
          (
            append_assoc (ek cx k) (ev cx v ++ encode_entries codec ek ev cx m) more,
            h k v ((ev cx v ++ encode_entries codec ek ev cx m) ++ more) p,
            append_assoc (ev cx v) (encode_entries codec ek ev cx m) more,
            g k v (encode_entries codec ek ev cx m ++ more) p,
            insert_last k v before b,
            decode_entries-encode m (before ++ ((k, v) ∷ [])) (suc i) more ps ss
                (All-and (λ e q r. All-last (λ b. lt b.0 e.0 ≡ true) before (k, v) q r) m bs s),
            append_assoc before ((k, v) ∷ []) m,
          )
          refl

    pub decode_btree_map-encode :
        (m : List (K × V)) (more : Bytes)
        → IsLen (length m)
        → All P m
        → IsSorted lt m
        → decode_btree_map codec lt dk dv cx (encode_btree_map codec ek ev cx m ++ more)
          ≡ (ok m, more)
    decode_btree_map-encode m more l p s =
        let e : length m % 2 ^ 32 ≡ length m = omega (arith, l) in
        rw
          (
            e,
            append_assoc (codec.write_map_len (length m)) (encode_entries codec ek ev cx m) more,
            codec.map_len.read-write (length m) (encode_entries codec ek ev cx m ++ more) l,
            decode_entries-encode m [] 0 more p s (All-none (λ e. tt) m),
          )
          refl
