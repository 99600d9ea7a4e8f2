-- ===== src/Vclock/Tests.antt =====
-- Runs of tarantool/src/vclock.rs, and the theorems at concrete clocks.
use tarantool_module.Base.{◌≡◌, ◌≢◌, refl, [], ◌∷◌, none, some, false}
use tarantool_module.Base.Maps
use tarantool_module.Vclock.{
  Vclock, less, equal, get, cmp_result, cmp_loop, cmp, partial_cmp, from_index, from,
}
use tarantool_module.Vclock.Compare.{Says, cmp-Says}
use tarantool_module.Vclock.Laws.{partial_cmp-zero_entry}

abbrev vc_011 : Vclock
vc_011 = (1, 1) ∷ (2, 1) ∷ []

abbrev vc_012 : Vclock
vc_012 = (1, 1) ∷ (2, 2) ∷ []

abbrev vc_211 : Vclock
vc_211 = (0, 2) ∷ (1, 1) ∷ (2, 1) ∷ []

abbrev vc_121 : Vclock
vc_121 = (2, 1) ∷ (1, 2) ∷ (0, 1) ∷ []

vc_011_made : from (0 ∷ 1 ∷ 1 ∷ []) ≡ vc_011
unfolding from from_index
vc_011_made = refl

vc_less : partial_cmp vc_011 vc_012 ≡ some less
unfolding partial_cmp cmp cmp_loop cmp_result get
vc_less = refl

vc_incomparable : partial_cmp vc_012 vc_211 ≡ none
unfolding partial_cmp cmp cmp_loop cmp_result get
vc_incomparable = refl

cmp-Says_example : Says false vc_211 vc_121 (cmp vc_211 vc_121 false)
cmp-Says_example = cmp-Says vc_211 vc_121 false

partial_cmp-zero_entry_example :
    (partial_cmp ((0, 0) ∷ vc_011) vc_011 ≡ some equal)
    × (Maps.get 0 ((0, 0) ∷ vc_011) ≢ Maps.get 0 vc_011)
partial_cmp-zero_entry_example = partial_cmp-zero_entry vc_011 0 refl
