-- ===== src/Encode.antt =====
-- tarantool/src/msgpack/encode.rs and the derive macros of tarantool-proc/src/lib.rs: what `Encode`
-- writes into a vector, and what `Decode` reads from a slice. The children follow the source's
-- sections: errors, the implementations for types of the standard library, those that are derived.
pub mod Reader
pub mod Rmp
pub mod Errors
pub mod Std
pub mod Map
pub mod Derive
pub mod Types
pub mod Headers
pub mod Null
pub mod Parts
pub mod RoundTrip
pub mod Laws
mod Sample
mod Tests
pub mod Keys
pub mod Fits
use tarantool_module.Base.{Bool, true, false}

pub data StructStyle : Type 0 where
  default force_as_map force_as_array : StructStyle

pub record Context : Type 0 where
  pub struct_style : StructStyle

-- `Context::DEFAULT`
abbrev pub default_context : Context
default_context = record { struct_style = default }

abbrev pub with_struct_style : StructStyle → Context → Context
with_struct_style style cx = record cx { struct_style = style }

-- The style of a struct whose attribute `as_map` is given
abbrev pub is_as_map : Context → Bool → Bool
is_as_map cx as_map = elim cx.struct_style [
  | default ↦ as_map
  | force_as_map ↦ true
  | force_as_array ↦ false
]
