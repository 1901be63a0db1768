-- ===== src/Scope/Lookup.antt =====
-- scope.{h,cc}: which symbol a name finds.
use clever.Prelude.{
  ℕ, ◌≡◌, ◌≢◌, refl, sym as sym', ap, ◌∙◌, none, some, List, [], ◌∷◌, ◌++◌, length, length-append,
  get_elem?, arith, ◌==◌, ==_iff, if◌then◌else◌, Option-cases, inl, inr, get_elem?-append_left,
  get_elem?-append_length, get_elem?-lt,
}
use native.Mathlib.Decide.{ℕ_discrete}
use clever.Scope.{Symbol, Scope, Chain, get_any, find, insert, declare, get_local}

-- Every entry of the table is the index of a symbol of that name.
pub record IsIndexed (sc : Scope) : Type 0 where
  pub same_size : length sc.symbols ≡ length sc.symbol_table
  pub indexed :
      (name i : ℕ)
      → find name sc.symbol_table ≡ some i
      → (sym : Symbol) × (get_elem? sc.symbols i ≡ some sym) × (sym.name ≡ name)

find-append :
    (name key i : ℕ) (table : List (ℕ × ℕ))
    → find key table ≡ none
    → find name (table ++ (key, i) ∷ []) ≡ (if key == name then some i else find name table)
unfolding find
find-append name key i [] h = refl
find-append name key i ((k, j) ∷ table) h =
    ground (arith, find-append name key i table, ==_iff key name, ==_iff k key)

insert-fresh :
    (key i : ℕ) (table : List (ℕ × ℕ))
    → find key table ≡ none
    → insert key i table ≡ table ++ (key, i) ∷ []
unfolding insert
insert-fresh key i table h = rw (h, insert)

insert-known :
    (key i j : ℕ) (table : List (ℕ × ℕ)) → find key table ≡ some j → insert key i table ≡ table
unfolding insert
insert-known key i j table h = rw (h, insert)

module _ (sym : Symbol) (sc : Scope) (fresh : find sym.name sc.symbol_table ≡ none) where
  table-declare :
      (declare sym sc).symbol_table ≡ sc.symbol_table ++ (sym.name, length sc.symbol_table) ∷ []
  unfolding declare
  table-declare = insert-fresh sym.name (length sc.symbol_table) sc.symbol_table fresh

  find-declare :
      (name : ℕ)
      → find name (declare sym sc).symbol_table
        ≡ (if sym.name == name then some (length sc.symbol_table) else find name sc.symbol_table)
  find-declare name =
      rw table-declare (find-append name sym.name (length sc.symbol_table) sc.symbol_table fresh)

get_local-none :
    (name : ℕ) (sc : Scope) → find name sc.symbol_table ≡ none → get_local name sc ≡ none
unfolding get_local
get_local-none name sc h = ground (arith, h)

get_local-some :
    (name i : ℕ) (sc : Scope)
    → find name sc.symbol_table ≡ some i
    → get_local name sc ≡ get_elem? sc.symbols i
unfolding get_local
get_local-some name i sc h = ground (arith, h)

symbols-declare : (sym : Symbol) (sc : Scope) → (declare sym sc).symbols ≡ sc.symbols ++ sym ∷ []
unfolding declare
symbols-declare sym sc = refl

module _ (sym : Symbol) (sc : Scope) (v : IsIndexed sc)
    (fresh : find sym.name sc.symbol_table ≡ none) where
  find-declare_self : find sym.name (declare sym sc).symbol_table ≡ some (length sc.symbols)
  find-declare_self = ground (arith, find-declare sym sc fresh sym.name, v.same_size)

  find-declare_other :
      (name : ℕ)
      → name ≢ sym.name
      → find name (declare sym sc).symbol_table ≡ find name sc.symbol_table
  find-declare_other name differs = ground (arith, find-declare sym sc fresh name)

  get_local-declare_self : get_local sym.name (declare sym sc) ≡ some sym
  get_local-declare_self =
      get_local-some sym.name _ (declare sym sc) find-declare_self
      ∙ ap (λ l. get_elem? l (length sc.symbols)) (symbols-declare sym sc)
      ∙ get_elem?-append_length sc.symbols sym []

  get_elem?-declare_other :
      (i : ℕ) (old : Symbol)
      → get_elem? sc.symbols i ≡ some old
      → get_elem? (declare sym sc).symbols i ≡ some old
  get_elem?-declare_other i old found =
      ap (λ l. get_elem? l i) (symbols-declare sym sc)
      ∙ get_elem?-append_left sc.symbols (sym ∷ []) i (get_elem?-lt sc.symbols i found)
      ∙ found

  get_local-declare_other :
      (name : ℕ) → name ≢ sym.name → get_local name (declare sym sc) ≡ get_local name sc
  get_local-declare_other name differs = elim (Option-cases (find name sc.symbol_table)) [
    | inl unknown ↦
        get_local-none name (declare sym sc) (find-declare_other name differs ∙ unknown)
        ∙ sym' (get_local-none name sc unknown)
    | inr (i, known) ↦
        let (old, found, _) = v.indexed name i known in
        get_local-some name i (declare sym sc) (find-declare_other name differs ∙ known)
        ∙ get_elem?-declare_other i old found
        ∙ sym' found
        ∙ sym' (get_local-some name i sc known)
  ]

  declare-IsIndexed : IsIndexed (declare sym sc)
  declare-IsIndexed = record {
    same_size =
        ap length (symbols-declare sym sc)
        ∙ omega (
          arith,
          length-append sc.symbols (sym ∷ []),
          length-append sc.symbol_table ((sym.name, length sc.symbol_table) ∷ []),
          v.same_size,
          ap length (table-declare sym sc fresh),
        );
    indexed = λ name i known. elim (ℕ_discrete name sym.name) [
      | yes same ↦ (
        sym,
        ground (
          arith,
          find-declare_self,
          symbols-declare sym sc,
          get_elem?-append_length sc.symbols sym [],
        ),
        sym' same,
      )
      | no differs ↦
          let (old, found, named) =
            v.indexed name i (sym' (find-declare_other name differs) ∙ known) in
          (old, get_elem?-declare_other i old found, named)
    ];
  }

-- A fresh name finds the symbol that was declared for it, every other name what it found before, and
-- the scope stays indexed.
pub get_local-declare :
    (sym : Symbol) (sc : Scope)
    → IsIndexed sc
    → find sym.name sc.symbol_table ≡ none
    → (get_local sym.name (declare sym sc) ≡ some sym)
      × ((name : ℕ) → name ≢ sym.name → get_local name (declare sym sc) ≡ get_local name sc)
      × IsIndexed (declare sym sc)
get_local-declare sym sc v fresh = (
  get_local-declare_self sym sc v fresh,
  get_local-declare_other sym sc v fresh,
  declare-IsIndexed sym sc v fresh,
)

-- In a chain of scopes, a name that is declared afresh in the innermost scope is found there, whatever
-- it stood for outside, and every other name stands for what it stood for before.
pub get_any-declare :
    (sym : Symbol) (sc : Scope) (parents : Chain)
    → IsIndexed sc
    → find sym.name sc.symbol_table ≡ none
    → (get_any sym.name (declare sym sc ∷ parents) ≡ some sym)
      × ((name : ℕ)
          → name ≢ sym.name
          → get_any name (declare sym sc ∷ parents) ≡ get_any name (sc ∷ parents))
unfolding get_any
get_any-declare sym sc parents v fresh =
    let (found, others, indexed) = get_local-declare sym sc v fresh in
    (rw (get_any, found), λ name differs. rw (get_any, others name differs))

table-redeclare :
    (sym : Symbol) (sc : Scope) (i : ℕ)
    → find sym.name sc.symbol_table ≡ some i
    → (declare sym sc).symbol_table ≡ sc.symbol_table
unfolding declare
table-redeclare sym sc i known =
    insert-known sym.name (length sc.symbol_table) i sc.symbol_table known

-- After a name of the scope has been declared again, the next fresh name finds the symbol of that
-- second declaration and not its own.
pub get_local-redeclared :
    (again next : Symbol) (sc : Scope) (i : ℕ)
    → IsIndexed sc
    → find again.name sc.symbol_table ≡ some i
    → find next.name sc.symbol_table ≡ none
    → get_local next.name (declare next (declare again sc)) ≡ some again
get_local-redeclared again next sc i v known fresh =
    let table = table-redeclare again sc i known in
    let fresh' = ap (find next.name) table ∙ fresh in
    let symbols =
      symbols-declare next (declare again sc)
      ∙ ap (λ l. l ++ next ∷ []) (symbols-declare again sc) in
    get_local-some next.name (length sc.symbols) (declare next (declare again sc)) (
      ground (
        arith,
        find-declare next (declare again sc) fresh' next.name,
        ap length table,
        v.same_size,
      ))
    ∙ ap (λ l. get_elem? l (length sc.symbols)) symbols
    ∙ get_elem?-append_left (sc.symbols ++ again ∷ []) (next ∷ []) (length sc.symbols)
        (omega (arith, length-append sc.symbols (again ∷ [])))
    ∙ get_elem?-append_length sc.symbols again []
