-- ===== src/Encode/Fits.antt =====
-- The values that an encoding can hold, and lemmas on readers of what was written.
use tarantool_module.Base.{
  ℕ, suc, ◌+◌, ◌≡◌, ◌≢◌, Option, refl, ap, ◌∙◌, Bool, true, false, [], ◌∷◌, ◌++◌, none, some,
  length, take, drop, ltb, leb, arith, All, inl, inr, take-append_length, drop-append_length,
  length-append, ==_self,
}
use tarantool_module.Io.{Bytes}
use tarantool_module.Encode.{Context, is_as_map}
use tarantool_module.Encode.Reader.{ok}
use tarantool_module.Encode.Rmp.{Codec, IsUint, w32, w64, IsSint, IsLen, IsChar}
use tarantool_module.Encode.Std.{read_exact}
use tarantool_module.Encode.Derive.{bytes_eq}
use tarantool_module.Encode.Map.{bytes_lt, IsSorted}
use tarantool_module.Encode.Types.{
  Ty, unit, bool, string, uint, sint, option, vec, boxed, cow, array, struct, Fields, end, required,
  optional, Val, Vals, char, tuple_struct, enum, Slots, no_slots, slot, optional_slot, SlotVals,
  Variants, no_variants, unit_variant, struct_variant, tuple_variant, Choice, variant_of, btree_map,
  float32, float64, untagged, slot_count, count,
}

-- How many fields the chosen variant has; none of them, a unit variant is written as a nil.
abbrev pub arity_of : (vs : Variants) → Choice vs → Option ℕ
arity_of no_variants c = none
arity_of (unit_variant name vs) (inl v) = none
arity_of (unit_variant name vs) (inr c) = arity_of vs c
arity_of (struct_variant name fs vs) (inl v) = some (count fs)
arity_of (struct_variant name fs vs) (inr c) = arity_of vs c
arity_of (tuple_variant name ss vs) (inl v) = some (slot_count ss)
arity_of (tuple_variant name ss vs) (inr c) = arity_of vs c

abbrev pub is_none {ℓ} : {A : Type ℓ} → Option A → Bool
is_none none = true
is_none (some a) = false

-- The values that are written as a nil
abbrev pub is_nil : (t : Ty) → Val t → Bool
is_nil unit v = true
is_nil (option t) none = true
is_nil (option t) (some v) = is_nil t v
is_nil (boxed t) v = is_nil t v
is_nil (cow t) v = is_nil t v
is_nil (untagged vs) c = is_none (arity_of vs c)
is_nil _ v = false

-- The types whose decoder tells a nil from every other error, as the derived code asks of an
-- optional field. `Cow` wraps the error, as a `BTreeMap`
-- does that of its length, and a struct read from an array names a field in it.
abbrev pub reports_null : Context → Ty → Bool
reports_null cx unit = false
reports_null cx (option t) = false
reports_null cx (cow t) = false
reports_null cx (btree_map t) = false
reports_null cx (untagged vs) = false
reports_null cx (boxed t) = reports_null cx t
reports_null cx (struct args fs) = is_as_map cx args.as_map
reports_null cx _ = true

-- No variant before the chosen one has as many fields.
abbrev pub IsTried : (vs : Variants) → Choice vs → Type 0
IsTried no_variants c = ⊥
IsTried (unit_variant name vs) (inl v) = Unit {0}
IsTried (unit_variant name vs) (inr c) = (arity_of vs c ≢ none) × IsTried vs c
IsTried (struct_variant name fs vs) (inl v) = Unit {0}
IsTried (struct_variant name fs vs) (inr c) = (arity_of vs c ≢ some (count fs)) × IsTried vs c
IsTried (tuple_variant name ss vs) (inl v) = Unit {0}
IsTried (tuple_variant name ss vs) (inr c) = (arity_of vs c ≢ some (slot_count ss)) × IsTried vs c

module _ (codec : Codec) (cx : Context) where
  abbrev pub IsText : Bytes → Type 0
  IsText s = IsLen (length s) × (codec.is_utf8 s ≡ true)

  abbrev mutual
    pub Fits : (t : Ty) → Val t → Type 0
    Fits unit v = Unit {0}
    Fits bool v = Unit {0}
    Fits string v = IsText v
    Fits (uint w) v = IsUint w v
    Fits (sint w) v = IsSint w v
    Fits (option t) none = Unit {0}
    Fits (option t) (some v) = Fits t v × (is_nil t v ≡ false)
    Fits (vec t) vs = IsLen (length vs) × All (Fits t) vs
    Fits (boxed t) v = Fits t v
    Fits (cow t) v = Fits t v
    Fits (array n t) vs = IsLen n × (length vs ≡ n) × All (Fits t) vs
    Fits (struct args fs) vs = FitsAll fs vs
    Fits char c = IsChar c
    Fits float32 n = IsUint w32 n
    Fits float64 n = IsUint w64 n
    Fits (untagged vs) c = IsTried vs c × FitsTried vs c
    Fits (btree_map t) m =
        IsLen (length m) × IsSorted bytes_lt m × All (λ e. IsText e.0 × Fits t e.1) m
    Fits (tuple_struct ss) vs = FitsSlots ss vs
    Fits (enum args vs) c = IsLen (length (variant_of vs c)) × FitsChoice vs c

    pub FitsAll : (fs : Fields) → Vals fs → Type 0
    FitsAll end vs = Unit {0}
    FitsAll (required name t fs) (v, vs) = IsLen (length name) × Fits t v × FitsAll fs vs
    FitsAll (optional name t fs) (none, vs) =
        IsLen (length name) × (reports_null cx t ≡ true) × FitsAll fs vs
    FitsAll (optional name t fs) (some v, vs) = IsLen (length name) × Fits t v × FitsAll fs vs

    pub FitsSlots : (ss : Slots) → SlotVals ss → Type 0
    FitsSlots no_slots vs = Unit {0}
    FitsSlots (slot t ss) (v, vs) = Fits t v × FitsSlots ss vs
    FitsSlots (optional_slot t ss) (none, vs) = (reports_null cx t ≡ true) × FitsSlots ss vs
    FitsSlots (optional_slot t ss) (some v, vs) = Fits t v × FitsSlots ss vs

    -- No variant before the chosen one has its name.
    pub FitsChoice : (vs : Variants) → Choice vs → Type 0
    FitsChoice no_variants c = ⊥
    FitsChoice (unit_variant name vs) (inl v) = Unit {0}
    FitsChoice (unit_variant name vs) (inr c) =
        (bytes_eq (variant_of vs c) name ≡ false) × FitsChoice vs c
    FitsChoice (struct_variant name fs vs) (inl v) = FitsAll fs v
    FitsChoice (struct_variant name fs vs) (inr c) =
        (bytes_eq (variant_of vs c) name ≡ false) × FitsChoice vs c
    FitsChoice (tuple_variant name ss vs) (inl v) = FitsSlots ss v
    FitsChoice (tuple_variant name ss vs) (inr c) =
        (bytes_eq (variant_of vs c) name ≡ false) × FitsChoice vs c

    -- The fields of a variant of an untagged enum, optional ones by the decoder of `Option`
    pub FitsPlain : (fs : Fields) → Vals fs → Type 0
    FitsPlain end vs = Unit {0}
    FitsPlain (required name t fs) (v, vs) = Fits t v × FitsPlain fs vs
    FitsPlain (optional name t fs) (none, vs) = FitsPlain fs vs
    FitsPlain (optional name t fs) (some v, vs) = Fits t v × (is_nil t v ≡ false) × FitsPlain fs vs

    pub FitsPlainSlots : (ss : Slots) → SlotVals ss → Type 0
    FitsPlainSlots no_slots vs = Unit {0}
    FitsPlainSlots (slot t ss) (v, vs) = Fits t v × FitsPlainSlots ss vs
    FitsPlainSlots (optional_slot t ss) (none, vs) = FitsPlainSlots ss vs
    FitsPlainSlots (optional_slot t ss) (some v, vs) =
        Fits t v × (is_nil t v ≡ false) × FitsPlainSlots ss vs

    pub FitsTried : (vs : Variants) → Choice vs → Type 0
    FitsTried no_variants c = ⊥
    FitsTried (unit_variant name vs) (inl v) = Unit {0}
    FitsTried (unit_variant name vs) (inr c) = FitsTried vs c
    FitsTried (struct_variant name fs vs) (inl v) = IsLen (count fs) × FitsPlain fs v
    FitsTried (struct_variant name fs vs) (inr c) = FitsTried vs c
    FitsTried (tuple_variant name ss vs) (inl v) = IsLen (slot_count ss) × FitsPlainSlots ss v
    FitsTried (tuple_variant name ss vs) (inr c) = FitsTried vs c

pub bytes_eq_self : (s : Bytes) → bytes_eq s s ≡ true
bytes_eq_self [] = refl
bytes_eq_self (x ∷ s) = rw (==_self x) (bytes_eq_self s)

pub leb_append : (s more : Bytes) → leb (length s) (length (s ++ more)) ≡ true
leb_append s more = ground (arith, length-append s more)

pub read_exact-append : (s more : Bytes) → read_exact (length s) (s ++ more) ≡ (ok s, more)
read_exact-append s more =
    let e : ltb (length (s ++ more)) (length s) ≡ false = ground (arith, length-append s more) in
    rw (e, take-append_length s more, drop-append_length s more) refl

-- What stands between a header and the rest
pub drop-take_middle :
    (h s more : Bytes) → drop (length h) (take (length s + length h) (h ++ (s ++ more))) ≡ s
drop-take_middle [] s more = ap (λ n. take n (s ++ more)) (omega arith) ∙ take-append_length s more
drop-take_middle (x ∷ h) s more =
    let e : length s + suc (length h) ≡ suc (length s + length h) = omega arith in
    ap (λ n. drop (suc (length h)) (take n (x ∷ (h ++ (s ++ more))))) e ∙ drop-take_middle h s more
