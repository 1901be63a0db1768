-- ===== src/Vm/Objects.antt =====
-- vm.cc: the instructions on types, objects and members.
use clever.Prelude.{ℕ, Bool, true, false, not, Option, none, some, get_elem?, set, ◌==◌}
use clever.Ir.{fetch_tmp, Operand, Ir}
use clever.Store.{Value, null, bool, int, func, obj, is_null}
use clever.Vm.{
  Vm, bad_operand, null_access, context_refused, member_not_found, Result, ok, err, ◌>>=◌, or_fail,
  current, env_at, get_current_environment, get_pointer, cell_at, operand_cell, put, put_result,
  advance,
}
use clever.Vm.Members.{
  MemberData, TypeInfo, Object, new_object, get_member, get_property, initialize, find_object,
  save_object,
}
use clever.Vm.Natives.{Natives}
use clever.Vm.Call.{function_at}
use clever.Vm.Operators.{fail_if, deep_copy}

abbrev pub type_at : ℕ → Vm → Result TypeInfo
type_at t vm = or_fail (get_elem? vm.types t) bad_operand

abbrev pub same_type : Option ℕ → Option ℕ → Bool
same_type none none = true
same_type (some t) (some u) = t == u
same_type _ _ = false

-- A temporary gets the pointer itself.
unfoldable pub set_pointer : ℕ → ℕ → ℕ → Vm → Result Vm
unfolding env_at
set_pointer e i p vm = do
  env ← env_at e vm
  let changed = record env { values = set env.values i p }
  ok (record vm { store = record vm.store { envs = set vm.store.envs e changed } })

module _ (n : Natives) where
  -- `getType`; a null value has none.
  unfoldable pub type_of : Value → Option ℕ
  type_of null = none
  type_of (bool b) = some n.bool_type
  type_of (int i) = some n.int_type
  type_of (func f) = some n.func_type
  type_of (obj t o) = some t

  -- The object behind a value. A Boolean and an integer have a new one here, which is not kept: their
  -- types have no members but constants.
  unfoldable pub load_object : Value → Vm → Object
  unfolding find_object
  load_object (obj t o) vm = find_object (t, o) vm.objects
  load_object (func f) vm = find_object (n.func_type, f) vm.objects
  load_object v vm = new_object

  unfoldable pub keep_object : Value → Object → Vm → Vm
  unfolding save_object
  keep_object (obj t o) object vm = record vm { objects = save_object (t, o) object vm.objects }
  keep_object (func f) object vm = record vm {
    objects = save_object (n.func_type, f) object vm.objects;
  }
  keep_object v object vm = vm

  -- `intern->initialize(type)`, for the object of a value: the type, the object, and the machine that
  -- has it.
  unfoldable pub open_object : Value → Vm → Result (TypeInfo × Object × Vm)
  unfolding type_of load_object keep_object initialize
  open_object v vm = do
    t ← or_fail (type_of v) bad_operand
    info ← type_at t vm
    (o, s) ← or_fail (initialize info.members (load_object v vm) vm.store) bad_operand
    ok (info, o, keep_object v o (record vm { store = s }))

  -- `checkContext`
  unfoldable pub check_context : Option MemberData → Vm → Result Bool
  unfolding current cell_at type_of
  check_context none vm = ok true
  check_context (some m) vm = elim m.is_private [
    | false ↦ ok true
    | true ↦ do
      entry ← current vm
      elim entry.func [
        | none ↦ ok false
        | some id ↦ do
          f ← function_at id vm
          c ← cell_at m.value vm
          ok (not (same_type f.context (type_of c.value)))
      ]
  ]

  -- `setValue` with `change` true.
  unfoldable pub set_value_pointer : Operand → ℕ → Vm → Result Vm
  unfolding get_current_environment set_pointer get_pointer cell_at deep_copy
  set_value_pointer op p vm = elim op.op_type [
    | fetch_tmp ↦ do e ← get_current_environment op.op_type vm; set_pointer e op.voffset.1 p vm
    | _ ↦ do q ← get_pointer op vm; c ← cell_at p vm; ok (put q (deep_copy n c.value) vm)
  ]

  -- `OP_PROP_R` and `OP_PROP_W` up to the member: the member of the object of an operand.
  unfoldable pub object_member : Ir → Vm → Result (Option MemberData × Vm)
  unfolding operand_cell is_null open_object get_member check_context
  object_member ir vm = do
    c ← operand_cell ir.op1 vm
    _ ← fail_if (is_null c.value) null_access
    (info, o, vm₁) ← open_object c.value vm
    name ← operand_cell ir.op2 vm₁
    let m = get_member (n.text_of name.value) o.members
    may ← check_context m vm₁
    _ ← fail_if (not may) context_refused
    ok (m, vm₁)

  -- `OP_SPROP_R` and `OP_SPROP_W` up to the member: the property of a type.
  unfoldable pub type_property : Ir → Vm → Result (Option MemberData × Vm)
  unfolding operand_cell is_null type_of get_property check_context
  type_property ir vm = do
    c ← operand_cell ir.op1 vm
    _ ← fail_if (is_null c.value) null_access
    t ← or_fail (type_of c.value) bad_operand
    info ← type_at t vm
    name ← operand_cell ir.op2 vm
    let m = get_property (n.text_of name.value) info.members vm.store
    may ← check_context m vm
    _ ← fail_if (not may) context_refused
    ok (m, vm)

  -- The member is copied into the result, or its pointer is put there.
  unfoldable pub read_member : Ir → Option MemberData × Vm → Result Vm
  unfolding cell_at put_result
  read_member ir (none, vm) = err member_not_found
  read_member ir (some m, vm) = do
    c ← cell_at m.value vm
    vm₁ ← put_result ir.result c.value vm
    ok (advance vm₁)

  unfoldable pub refer_member : Ir → Option MemberData × Vm → Result Vm
  unfolding set_value_pointer
  refer_member ir (none, vm) = err member_not_found
  refer_member ir (some m, vm) = do vm₁ ← set_value_pointer ir.result m.value vm; ok (advance vm₁)

  unfoldable pub exec_prop_r : Ir → Vm → Result Vm
  unfolding object_member read_member
  exec_prop_r ir vm = object_member ir vm >>= read_member ir

  unfoldable pub exec_prop_w : Ir → Vm → Result Vm
  unfolding object_member refer_member
  exec_prop_w ir vm = object_member ir vm >>= refer_member ir

  unfoldable pub exec_sprop_r : Ir → Vm → Result Vm
  unfolding type_property read_member
  exec_sprop_r ir vm = type_property ir vm >>= read_member ir

  unfoldable pub exec_sprop_w : Ir → Vm → Result Vm
  unfolding type_property refer_member
  exec_sprop_w ir vm = type_property ir vm >>= refer_member ir
