-- ===== src/Resolver/Declared.antt =====
-- core/resolver.cc, visit(VariableDecl*): a declared variable is found, and cannot be declared again.
use clever.Prelude.{
  ℕ, ◌≡◌, ◌≢◌, ap, ◌∙◌, Bool, false, none, some, [], ◌∷◌, length, get_elem?, set, arith, ==_iff,
  get_elem?-some, get_elem?-append_length,
}
use clever.Store.{Cell, Env}
use clever.Scope.{Symbol, Scope, Chain, find, declare, get_local, get_any, depth_of, get_offset}
use clever.Scope.Lookup.{IsIndexed, get_local-declare, get_any-declare}
use clever.Codegen.Ast
use clever.Codegen.Ast.{Node, absent}
use clever.Resolver.{
  Resolver, ok, error, ◌>>=◌, refuse_local, push_new, resolve, set_const, redeclared_variable,
  unknown_identifier,
}
use clever.Resolver.Source
use clever.Resolver.Source.{Tree, MaybeTree, no_tree}
use clever.Resolver.Handlers.{Names, null_cell, visit_variable_decl}
use clever.Resolver.Visit.{visit, visit_maybe}
use clever.Resolver.Invariant.{Place, IsWellScoped}
use clever.Resolver.Names.{has_symbol-found}
use clever.Resolver.Pushes.{later_state, later_symbol, push_new-later, later-cell}

-- A symbol of the current scope is in the current environment.
get_offset-here :
    (x : Symbol) (i : ℕ) (sc : Scope) (parents : Chain)
    → get_elem? sc.symbols i ≡ some x
    → get_offset x (sc ∷ parents) ≡ some (0, x.voffset.1)
unfolding get_offset depth_of
get_offset-here x i sc parents found =
    ground (arith, has_symbol-found sc.symbols i x found, ==_iff sc.environment sc.environment)

module _ (c : Place) (r : Resolver) (w : IsWellScoped c r) (x : ℕ) (k : Bool)
    (v : IsIndexed r.scope) (fresh : find x r.scope.symbol_table ≡ none) (env : Env)
    (found : get_elem? r.store.envs r.scope.environment ≡ some env) where
  mid : Resolver
  mid = later_state x null_cell c r w env found

  pushed_symbol : Symbol
  pushed_symbol = later_symbol x null_cell c r w env found

  mid-get_any : get_any x (mid.scope ∷ mid.parents) ≡ some pushed_symbol
  unfolding mid pushed_symbol later_state later_symbol
  mid-get_any = (get_any-declare pushed_symbol r.scope r.parents v fresh).0

  mid-get_offset : get_offset pushed_symbol (mid.scope ∷ mid.parents) ≡ some (0, length env.values)
  unfolding mid pushed_symbol later_state later_symbol declare
  mid-get_offset =
      get_offset-here pushed_symbol (length r.scope.symbols) mid.scope mid.parents
        (get_elem?-append_length r.scope.symbols pushed_symbol [])

  mid-resolve : resolve (unknown_identifier x) x mid ≡ ok (0, length env.values) mid
  unfolding resolve
  mid-resolve = ground (arith, mid-get_any, mid-get_offset)

  cell_there : (cell : Cell) × (get_elem? mid.store.cells (length r.store.cells) ≡ some cell)
  unfolding mid later_state
  cell_there =
      get_elem?-some mid.store.cells (length r.store.cells) (later-cell x null_cell c r w env found)

  after : Resolver
  after = record mid {
    store = record mid.store {
      cells = set mid.store.cells (length r.store.cells) (record cell_there.0 { is_const = k });
    };
  }

  mid-set_const : set_const (length r.store.cells) k mid ≡ ok tt after
  unfolding set_const after
  mid-set_const = ground (arith, cell_there.1)

  after-resolve : resolve (unknown_identifier x) x after ≡ ok (0, length env.values) after
  unfolding resolve after
  after-resolve = ground (arith, mid-get_any, mid-get_offset)

  refuse_local-fresh : refuse_local (redeclared_variable x) x r ≡ ok tt r
  unfolding refuse_local get_local
  refuse_local-fresh = ground (arith, fresh)

  push_new-mid : push_new x null_cell r ≡ ok (length r.store.cells) mid
  unfolding mid
  push_new-mid = push_new-later x null_cell c r w env found

  declared_node : Node
  declared_node =
      Ast.variable_decl (Ast.assignment false false (Ast.ident (0, length env.values)) absent)

  visit-after :
      (names : Names) → visit names (Source.variable_decl x k no_tree) r ≡ ok declared_node after
  unfolding visit visit_variable_decl ◌>>=◌ visit_maybe declared_node
  visit-after names = ground (arith, refuse_local-fresh, push_new-mid, mid-resolve, mid-set_const)

  visit-ident_after :
      (names : Names)
      → visit names (Source.ident x) after ≡ ok (Ast.ident (0, length env.values)) after
  unfolding visit ◌>>=◌
  visit-ident_after names = ground (arith, after-resolve)

  visit-again :
      (names : Names) (again : Bool) (m : MaybeTree)
      → visit names (Source.variable_decl x again m) after ≡ error (redeclared_variable x)
  unfolding visit visit_variable_decl ◌>>=◌ refuse_local after mid later_state pushed_symbol
  visit-again names again m = ground (arith, (get_local-declare pushed_symbol r.scope v fresh).0)

-- What a declaration of `x` in the state `r` has done, with the state after it.
pub record IsDeclaredIn (names : Names) (x : ℕ) (k : Bool) (r : Resolver) : Type 0 where
  pub slot : ℕ
  pub later : Resolver
  pub declares :
      visit names (Source.variable_decl x k no_tree) r
      ≡ ok (Ast.variable_decl (Ast.assignment false false (Ast.ident (0, slot)) absent)) later
  pub is_found : visit names (Source.ident x) later ≡ ok (Ast.ident (0, slot)) later
  pub no_other :
      (y : ℕ) → y ≢ x → get_any y (later.scope ∷ later.parents) ≡ get_any y (r.scope ∷ r.parents)
  pub refused :
      (again : Bool) (m : MaybeTree)
      → visit names (Source.variable_decl x again m) later ≡ error (redeclared_variable x)
  pub still_indexed : IsIndexed later.scope

-- From a well scoped state whose current scope has an index that finds each of its symbols, a
-- declaration without a value of a name that the scope does not have succeeds. After it the name stands for a slot of the current environment, every other name for
-- what it stood for before, a second declaration of the name in the scope is refused, and the index
-- still finds each symbol.
pub visit-IsDeclaredIn :
    (names : Names) (x : ℕ) (k : Bool) (c : Place) (r : Resolver)
    → IsWellScoped c r
    → IsIndexed r.scope
    → find x r.scope.symbol_table ≡ none
    → IsDeclaredIn names x k r
unfolding after mid later_state declared_node pushed_symbol later_symbol
visit-IsDeclaredIn names x k c r w v fresh =
    let (env, housed) = w.housed in
    let found = ap (get_elem? r.store.envs) w.here ∙ housed in
    let new = pushed_symbol c r w x k v fresh env found in
    record {
      slot = length env.values;
      later = after c r w x k v fresh env found;
      declares = visit-after c r w x k v fresh env found names;
      is_found = visit-ident_after c r w x k v fresh env found names;
      no_other = (get_any-declare new r.scope r.parents v fresh).1;
      refused = visit-again c r w x k v fresh env found names;
      still_indexed = (get_local-declare new r.scope v fresh).2;
    }
