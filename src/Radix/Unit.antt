-- ===== src/Radix/Unit.antt =====
-- `validate_match_unit` of src/kv_aware_router/radix.py, and the constructor of the tree, which
-- calls it.
use kv_aware_router.Prelude.{
  ℕ, ◌%◌, ◌&&◌, [], ◌∷◌, Option, none, some, String, ltb, ◌==◌, if◌then◌else◌,
}
use kv_aware_router.Dict.{Dict, get}
use kv_aware_router.Radix.Node.{empty_root}
use kv_aware_router.Radix.Tree.{PrefixTree}

abbrev pub kernel_tile_tokens : ℕ
kernel_tile_tokens = 16

abbrev pub default_match_unit : ℕ
default_match_unit = 16

abbrev pub backend_max_match_unit : Dict ℕ
backend_max_match_unit = ("flash_attn", 0) ∷ ("flashinfer", 64) ∷ ("triton", 0) ∷ []

-- The reasons of the `ValueError`s, in the order of the checks.
pub data UnitError : Type 0 where
  not_positive not_multiple unknown_backend above_cap : UnitError

-- The checks against a backend's cap; 0 is no cap.
unfoldable pub check_cap : ℕ → ℕ → Option UnitError
check_cap unit cap = if ltb 0 cap && ltb cap unit then some above_cap else none

unfoldable pub check_backend : ℕ → Option String → Option UnitError
unfolding check_cap
check_backend unit none = none
check_backend unit (some backend) = elim (get backend backend_max_match_unit) [
  | none ↦ some unknown_backend
  | some cap ↦ check_cap unit cap
]

-- `none` when the unit is accepted.
unfoldable pub validate_match_unit : ℕ → Option String → Option UnitError
unfolding check_backend
validate_match_unit unit backend =
    if unit == 0
    then some not_positive
    else if ltb 0 (unit % kernel_tile_tokens)
    then some not_multiple
    else check_backend unit backend

pub data Made {ℓ} (A : Type ℓ) : Type ℓ where
  made : A → Made A
  refused : UnitError → Made A

-- `PrefixTree.__init__`
unfoldable pub new_tree : ℕ → Dict ℕ → Option String → Made PrefixTree
unfolding validate_match_unit
new_tree unit capacity backend = elim (validate_match_unit unit backend) [
  | some e ↦ refused e
  | none ↦ made (record {
    prefix_match_unit = unit;
    root = empty_root;
    capacity_tokens = capacity;
    tokens_used = [];
    evictions = [];
  })
]
