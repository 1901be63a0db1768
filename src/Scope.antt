-- ===== src/Scope.antt =====
-- core/scope.{h,cc}: symbols, scopes, and the offsets that the resolver computes from them.
-- Names are interned (`const CString*`), hence numbers. A scope is used through its parents, so it is
-- a chain, innermost scope first; the children, which only the destructor walks, are left out.
pub mod Offsets
pub mod Lookup
mod Tests
use clever.Prelude.{
  ℕ, suc, ◌+◌, Bool, true, false, ◌||◌, Option, none, some, List, [], ◌∷◌, ◌++◌, length, get_elem?,
  ◌==◌, if◌then◌else◌, ◌>>=◌,
}
use clever.Ir.{ValueOffset}
use clever.Store.{Store, push_value}

-- `serial` stands for the address of the symbol.
pub record Symbol : Type 0 where
  pub serial : ℕ
  pub name : ℕ
  pub voffset : ValueOffset

-- `symbol_table` sends a name to an index into `symbols`.
pub record Scope : Type 0 where
  pub symbols : List Symbol
  pub symbol_table : List (ℕ × ℕ)
  pub environment : ℕ

abbrev pub Chain : Type 0
Chain = List Scope

unfoldable pub find : ℕ → List (ℕ × ℕ) → Option ℕ
find name [] = none
find name ((k, i) ∷ table) = if k == name then some i else find name table

-- `insert` of an `unordered_map`: a key that is there keeps its value.
unfoldable pub insert : ℕ → ℕ → List (ℕ × ℕ) → List (ℕ × ℕ)
unfolding find
insert name i table = elim (find name table) [ none ↦ table ++ (name, i) ∷ [] | some _ ↦ table ]

-- The two inserts of `Scope::pushValue`: the symbol is always pushed, and the index that its name
-- gets is the size of the table.
unfoldable pub declare : Symbol → Scope → Scope
unfolding insert
declare sym sc = record sc {
  symbols = sc.symbols ++ sym ∷ [];
  symbol_table = insert sym.name (length sc.symbol_table) sc.symbol_table;
}

-- `Scope::pushValue`
unfoldable pub push_symbol : ℕ → ℕ → ℕ → Scope → Store → Option (Scope × Store)
unfolding declare push_value
push_symbol serial name p sc s = do
  (offset, s') ← push_value sc.environment p s
  some (declare (record { serial = serial; name = name; voffset = offset }) sc, s')

-- `Scope::enter` with `setEnvironment`, and `Scope::leave`.
unfoldable pub enter : ℕ → Chain → Chain
enter e chain = record { symbols = []; symbol_table = []; environment = e } ∷ chain

unfoldable pub leave : Chain → Chain
leave [] = []
leave (sc ∷ parents) = parents

-- `Scope::getLocal`; `m_symbols[it->second]` out of range is `none` too.
unfoldable pub get_local : ℕ → Scope → Option Symbol
unfolding find
get_local name sc = find name sc.symbol_table >>= get_elem? sc.symbols

-- `Scope::getAny`: the innermost scope that knows the name.
unfoldable pub get_any : ℕ → Chain → Option Symbol
unfolding get_local
get_any name [] = none
get_any name (sc ∷ parents) =
    let outer = get_any name parents in
    elim (get_local name sc) [ none ↦ outer | some sym ↦ some sym ]

unfoldable pub has_symbol : ℕ → List Symbol → Bool
has_symbol serial [] = false
has_symbol serial (sym ∷ syms) = sym.serial == serial || has_symbol serial syms

-- The loop of `Scope::getOffset`: how many environments lie between; `none` is its assertion.
unfoldable pub depth_of : Symbol → ℕ → ℕ → Chain → Option ℕ
unfolding has_symbol
depth_of sym last_env first [] = none
depth_of sym last_env first (sc ∷ parents) =
    let first' = if sc.environment == last_env then first else first + 1 in
    let next = depth_of sym sc.environment first' parents in
    if has_symbol sym.serial sc.symbols then some first' else next

unfoldable pub get_offset : Symbol → Chain → Option ValueOffset
unfolding depth_of
get_offset sym [] = none
get_offset sym (sc ∷ parents) = do
  first ← depth_of sym sc.environment 0 (sc ∷ parents)
  some (first, sym.voffset.1)
