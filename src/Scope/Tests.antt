-- ===== src/Scope/Tests.antt =====
-- scope.cc on a small chain: a block in a function in the global scope.
use clever.Prelude.{ℕ, ◌≡◌, ◌≢◌, refl, none, some, [], ◌∷◌, inl, inr, arith}
use clever.Store.{Store, new_env, get_value}
use clever.Scope.{Symbol, Scope, find, declare, get_local, get_any, get_offset}
use clever.Scope.Offsets.{home, get_value-get_offset}
use clever.Scope.Lookup.{IsIndexed, get_local-declare, get_local-redeclared}

abbrev symbol : ℕ → ℕ → ℕ → Symbol
symbol serial name slot = record { serial = serial; name = name; voffset = (0, slot) }

-- The name 10 is a global variable, 11 a parameter, 12 a variable of the block.
abbrev global : Scope
global = record { symbols = symbol 0 10 0 ∷ []; symbol_table = (10, 0) ∷ []; environment = 0 }

abbrev parameters : Scope
parameters = record { symbols = symbol 1 11 0 ∷ []; symbol_table = (11, 0) ∷ []; environment = 1 }

abbrev block : Scope
block = record { symbols = symbol 2 12 1 ∷ []; symbol_table = (12, 0) ∷ []; environment = 1 }

abbrev store : Store
store = record {
  cells = [];
  envs =
      record (new_env none) { values = 40 ∷ [] }
      ∷ record (new_env (some 0)) { values = 41 ∷ 42 ∷ [] }
      ∷ [];
}

get_any-global : get_any 10 (block ∷ parameters ∷ global ∷ []) ≡ some (symbol 0 10 0)
unfolding get_any
get_any-global = refl

get_offset-global : get_offset (symbol 0 10 0) (block ∷ parameters ∷ global ∷ []) ≡ some (1, 0)
unfolding get_offset
get_offset-global = refl

get_value-get_offset_example :
    (h : ℕ) × (home (symbol 0 10 0) (block ∷ parameters ∷ global ∷ []) ≡ some h)
    × (get_value 1 (1, 0) store ≡ get_value h (0, 0) store)
get_value-get_offset_example =
    get_value-get_offset (symbol 0 10 0) store block (parameters ∷ global ∷ []) (1, 0)
      (
        inl refl,
        (inr ((record (new_env (some 0)) { values = 41 ∷ 42 ∷ [] }, refl, refl), omega arith), tt),
      )
      get_offset-global

block-IsIndexed : IsIndexed block
unfolding find
block-IsIndexed = record {
  same_size = refl;
  indexed = λ name i h. (symbol 2 12 1, ground arith, ground arith);
}

get_local-declare_example :
    (get_local 13 (declare (symbol 3 13 2) block) ≡ some (symbol 3 13 2))
    × ((name : ℕ)
        → name ≢ 13
        → get_local name (declare (symbol 3 13 2) block) ≡ get_local name block)
    × IsIndexed (declare (symbol 3 13 2) block)
unfolding find
get_local-declare_example = get_local-declare (symbol 3 13 2) block block-IsIndexed refl

get_local-redeclared_example :
    get_local 13 (declare (symbol 4 13 3) (declare (symbol 3 12 2) block)) ≡ some (symbol 3 12 2)
unfolding find
get_local-redeclared_example =
    get_local-redeclared (symbol 3 12 2) (symbol 4 13 3) block 0 block-IsIndexed refl refl
