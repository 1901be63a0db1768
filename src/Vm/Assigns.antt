-- ===== src/Vm/Assigns.antt =====
-- vm.cc: assignments and increments, and the constants among their operands.
use clever.Prelude.{
  ℕ, ◌≡◌, ◌≢◌, refl, sym, ap, ◌∙◌, ◌+◌, ◌⊎◌, inl, inr, ◌||◌, not, Bool, true, false, Bool-cases,
  Option, none, some, get_elem?, arith, get_elem?-set_self, get_elem?-set_ne, get_elem?-lt,
}
use mathlib.Core.Logic.{◌↔◌}
use clever.Ir.{fetch_tmp, Operand, Ir}
use clever.Store.{
  Value, null, bool, int, func, obj, Cell, Store, is_null, is_assignable, read, write,
}
use clever.Vm.{
  Vm, Error, bad_operand, const_assignment, ok, err, or_fail, get_pointer, cell_at, operand_cell,
  put, put_result_if_used, is_used, advance, or_fail-eq-ok,
}
use clever.Vm.Returns.{write-envs}
use clever.Vm.Natives.{Natives, Outcome, writes}
use clever.Vm.Operators.{settle, deep_copy, set_value, exec_assign, pre_step}

-- A written cell holds the value and is as constant as it was; every other cell is untouched.
pub read-write_self :
    (p : ℕ) (v : Value) (s : Store) (c : Cell)
    → read p s ≡ some c
    → read p (write p v s) ≡ some (record c { value = v })
unfolding read write
read-write_self p v s c h =
    ground
      (arith, h, get_elem?-set_self s.cells p (record c { value = v }) (get_elem?-lt s.cells p h))

pub read-write_other : (p q : ℕ) (v : Value) (s : Store) → p ≢ q → read q (write p v s) ≡ read q s
unfolding read write
read-write_other p q v s differs = by_cell (get_elem? s.cells p) refl
  where
    by_cell : (o : Option Cell) → get_elem? s.cells p ≡ o → read q (write p v s) ≡ read q s
    by_cell none e = rw (e, write)
    by_cell (some c) e =
        ground (arith, e, get_elem?-set_ne s.cells (record c { value = v }) differs)

cell_at-read : (p : ℕ) (vm : Vm) (c : Cell) → cell_at p vm ≡ ok c → read p vm.store ≡ some c
unfolding cell_at
cell_at-read p vm c h = or_fail-eq-ok (read p vm.store) bad_operand h

cell_at-put :
    (p : ℕ) (v : Value) (vm : Vm) (c : Cell)
    → cell_at p vm ≡ ok c
    → cell_at p (put p v vm) ≡ ok (record c { value = v })
cell_at-put p v vm c h = cell_at_of (read-write_self p v vm.store c (cell_at-read p vm c h))
  where
    cell_at_of :
        read p (write p v vm.store) ≡ some (record c { value = v })
        → cell_at p (put p v vm) ≡ ok (record c { value = v })
    cell_at_of e = unfold cell_at in (ap (λ o. or_fail o bad_operand) e)

-- A constant that has a value.
abbrev pub IsFixed : Cell → Type 0
IsFixed c = (c.is_const ≡ true) × (c.value ≢ null)

filled_iff :
    (v : Value) (b : Bool)
    → is_null v ≡ false
    → v ≢ null
    → ((is_null v || not b) ≡ false) ↔ ((b ≡ true) × (v ≢ null))
filled_iff v true filled differs = (λ h. (refl, differs), λ h. ground (arith, filled))
filled_iff v false filled differs = (λ h. absurd (ground (arith, h, filled)), λ h. cc h.0)

fixed_iff : (v : Value) (b : Bool) → ((is_null v || not b) ≡ false) ↔ ((b ≡ true) × (v ≢ null))
unfolding is_null
fixed_iff null b = (λ h. cc h, λ h. absurd (h.1 refl))
fixed_iff (bool x) b = filled_iff (bool x) b refl (λ e. cc e)
fixed_iff (int x) b = filled_iff (int x) b refl (λ e. cc e)
fixed_iff (func x) b = filled_iff (func x) b refl (λ e. cc e)
fixed_iff (obj t x) b = filled_iff (obj t x) b refl (λ e. cc e)

is_assignable_iff : (c : Cell) → (is_assignable c ≡ false) ↔ IsFixed c
unfolding is_assignable
is_assignable_iff c = fixed_iff c.value c.is_const

-- The machine `vm'` after an assignment that wants no result: the variable's cell has the new content,
-- every other cell has its own, and nothing else has changed but the place in the program.
pub record IsAssigned (p : ℕ) (var : Cell) (v : Value) (vm vm' : Vm) : Type 0 where
  pub has_value : read p vm'.store ≡ some (record var { value = v })
  pub others_kept : (q : ℕ) → p ≢ q → read q vm'.store ≡ read q vm.store
  pub same_rest : vm' ≡ record vm { store = vm'.store; pc = vm.pc + 1 }
  pub same_envs : vm'.store.envs ≡ vm.store.envs

module _ (n : Natives) where
  -- What is assigned: a copy, and into a temporary the value itself.
  abbrev pub copied : Operand → Value → Value
  copied op v = elim op.op_type [ fetch_tmp ↦ v | _ ↦ deep_copy n v ]

  pub exec_assign_lem :
      (ir : Ir) (vm : Vm) (p : ℕ) (var value : Cell)
      → get_pointer ir.op1 vm ≡ ok p
      → cell_at p vm ≡ ok var
      → operand_cell ir.op2 vm ≡ ok value
      → is_used ir.result ≡ false
      → ((exec_assign n ir vm ≡ err const_assignment) × IsFixed var)
        ⊎ ((vm' : Vm) × (exec_assign n ir vm ≡ ok vm')
            × (¬ IsFixed var)
            × IsAssigned p var (copied ir.op1 value.value) vm vm')
  unfolding exec_assign operand_cell set_value put_result_if_used
  exec_assign_lem ir vm p var value hp hvar hvalue quiet = elim (Bool-cases (is_assignable var)) [
    | inr fixed ↦ inl (ground (arith, hp, hvar, hvalue, fixed), (is_assignable_iff var).0 fixed)
    | inl free ↦
        let v = copied ir.op1 value.value in
        inr (
          advance (put p v vm),
          ground (arith, hp, hvar, hvalue, quiet, free),
          λ fixed. cc ((is_assignable_iff var).1 fixed, free),
          record {
            has_value = read-write_self p v vm.store var (cell_at-read p vm var hvar);
            others_kept = λ q differs. read-write_other p q v vm.store differs;
            same_rest = refl;
            same_envs = write-envs p v vm.store;
          },
        )
  ]

-- `++` and `--` do not ask whether their operand is assignable: a constant gets the new value.
pub pre_step_constant :
    (n : Natives) (change : Value → Outcome) (e : Error) (ir : Ir) (vm : Vm) (p q : ℕ) (var : Cell)
    (v : Value)
    → get_pointer ir.op1 vm ≡ ok p
    → cell_at p vm ≡ ok var
    → is_null var.value ≡ false
    → is_assignable var ≡ false
    → change var.value ≡ writes v
    → get_pointer ir.result (put p v vm) ≡ ok q
    → p ≢ q
    → (vm' : Vm) × (pre_step n change e ir vm ≡ ok (vm', none))
      × (read p vm'.store ≡ some (record var { value = v }))
unfolding pre_step settle
pre_step_constant n change e ir vm p q var v hp hvar filled const changes hq differs = (
  put q (deep_copy n v) (put p v vm),
  ground (arith, hp, hvar, filled, changes, hq, cell_at-put p v vm var hvar),
  read-write_other q p (deep_copy n v) (write p v vm.store) (λ h. differs (sym h))
      ∙ read-write_self p v vm.store var (cell_at-read p vm var hvar),
)
