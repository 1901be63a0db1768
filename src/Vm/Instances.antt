-- ===== src/Vm/Instances.antt =====
-- vm.cc: the instructions that call methods, make objects, and take subscripts.
use clever.Prelude.{
  ℕ, Bool, true, false, not, ◌||◌, Option, none, some, [], length, if◌then◌else◌, inl, inr,
}
use clever.Ir.{Ir}
use clever.Store.{func, obj, is_null, write, get_value, activate}
use clever.Vm.{
  Function, Vm, bad_operand, null_access, context_refused, member_not_found, wrong_call,
  null_operand, no_constructor, not_created, Result, ok, err, ◌>>=◌, or_fail, get_pointer, cell_at,
  operand_cell, advance,
}
use clever.Vm.Members.{
  MemberData, TypeInfo, Object, new_object, get_member, get_method, save_object,
}
use clever.Vm.Natives.{Natives}
use clever.Vm.Call.{function_at, prepare_call}
use clever.Vm.Operators.{fail_if}
use clever.Vm.Exceptions.{go_on}
use clever.Vm.Objects.{type_at, type_of, open_object, check_context, set_value_pointer}

-- The function that a member holds.
unfoldable pub function_member : Option MemberData → Vm → Result ℕ
unfolding cell_at
function_member none vm = err member_not_found
function_member (some m) vm = do
  c ← cell_at m.value vm
  elim c.value [ func id ↦ ok id | _ ↦ err member_not_found ]

module _ (n : Natives) where
  -- The jump into a user function below an environment, and the call of an internal one.
  unfoldable pub enter_function : ℕ → Function → Option ℕ → Ir → Vm → Result Vm
  unfolding prepare_call
  enter_function id f outer ir vm = do
    vm₁ ← prepare_call n id f outer ir vm
    ok (record vm₁ { pc = f.addr })

  unfoldable pub call_internal : Function → Option ℕ → Ir → Vm → Result Vm
  unfolding get_pointer go_on
  call_internal f callee ir vm = do
    p ← get_pointer ir.result vm
    let (s, thrown) = n.call_method f.native p callee vm.call_args vm.store
    go_on (record vm { store = s; call_args = [] }, thrown)

  unfoldable pub call_plain : Function → Ir → Vm → Result Vm
  unfolding get_pointer go_on
  call_plain f ir vm = do
    p ← get_pointer ir.result vm
    let (s, thrown) = n.call f.native p vm.call_args vm.store
    go_on (record vm { store = s; call_args = [] }, thrown)

  -- A method that was found, on its object: a member that is no method is called without an object.
  unfoldable pub call_member : ℕ → Object → ℕ → Function → Ir → Vm → Result Vm
  unfolding enter_function call_internal call_plain
  call_member callee o id f ir vm = elim f.is_static [
    | true ↦ err wrong_call
    | false ↦ elim f.context [
      | some t ↦
          if f.is_internal
          then call_internal f (some callee) ir vm
          else enter_function id f o.environment ir vm
      | none ↦ if f.is_internal then call_plain f ir vm else enter_function id f none ir vm
    ]
  ]

  -- `OP_MCALL`
  unfoldable pub exec_mcall : Ir → Vm → Result Vm
  unfolding get_pointer cell_at operand_cell is_null open_object get_member check_context
      call_member function_member
  exec_mcall ir vm = do
    callee ← get_pointer ir.op1 vm
    c ← cell_at callee vm
    name ← operand_cell ir.op2 vm
    _ ← fail_if (is_null c.value) null_access
    (info, o, vm₁) ← open_object n c.value vm
    let m = get_member (n.text_of name.value) o.members
    may ← check_context n m vm₁
    _ ← fail_if (not may) context_refused
    id ← function_member m vm₁
    f ← function_at id vm₁
    call_member callee o id f ir vm₁

  -- `OP_SMCALL`
  unfoldable pub exec_smcall : Ir → Vm → Result Vm
  unfolding operand_cell type_of get_method check_context enter_function call_internal
      function_member
  exec_smcall ir vm = do
    c ← operand_cell ir.op1 vm
    name ← operand_cell ir.op2 vm
    t ← or_fail (type_of n c.value) bad_operand
    info ← type_at t vm
    let m = get_method (n.text_of name.value) info.members vm.store
    may ← check_context n m vm
    _ ← fail_if (not may) context_refused
    id ← function_member m vm
    f ← function_at id vm
    _ ← fail_if (not f.is_static) wrong_call
    if f.is_internal then call_internal f none ir vm else enter_function id f none ir vm

  -- `UserType::ctor` and `createInstance`: a new object, and an environment of its own that has the
  -- object as its first value.
  unfoldable pub create_instance : ℕ → TypeInfo → ℕ → Vm → Result (ℕ × Vm)
  unfolding activate get_value write save_object
  create_instance t info p vm = do
    let made = obj t (length vm.objects)
    (e, s) ← or_fail (activate info.environment none (write p made vm.store)) bad_operand
    this ← or_fail (get_value e (0, 0) s) bad_operand
    let object = record new_object { environment = some e }
    ok (
      e,
      record vm {
        store = write this made s;
        objects = save_object (t, length vm.objects) object vm.objects;
      },
    )

  -- A new object of a user type, and its user constructor.
  unfoldable pub new_user : ℕ → TypeInfo → Ir → Vm → Result Vm
  unfolding get_pointer create_instance enter_function
  new_user t info ir vm = do
    p ← get_pointer ir.result vm
    (e, vm₁) ← create_instance t info p vm
    elim info.user_ctor [
      | none ↦ ok (advance (record vm₁ { call_args = [] }))
      | some id ↦ do f ← function_at id vm₁; enter_function id f (some e) ir vm₁
    ]

  -- A new object of another type: the constructor must have made one.
  unfoldable pub new_internal : ℕ → Ir → Vm → Result Vm
  unfolding get_pointer cell_at is_null go_on
  new_internal id ir vm = do
    f ← function_at id vm
    p ← get_pointer ir.result vm
    let (s, thrown) = n.call_method f.native p none vm.call_args vm.store
    let made = record vm { store = s; call_args = [] }
    elim thrown [
      | some v ↦ go_on (made, some v)
      | none ↦ do c ← cell_at p made; _ ← fail_if (is_null c.value) not_created; ok (advance made)
    ]

  -- `OP_NEW`
  unfoldable pub exec_new : Ir → Vm → Result Vm
  unfolding operand_cell type_of new_user new_internal
  exec_new ir vm = do
    c ← operand_cell ir.op1 vm
    t ← or_fail (type_of n c.value) bad_operand
    info ← type_at t vm
    elim info.ctor [
      | none ↦ err no_constructor
      | some id ↦ if info.is_user_defined then new_user t info ir vm else new_internal id ir vm
    ]

  -- `OP_SUBSCRIPT_R` and `OP_SUBSCRIPT_W`. After an exception the temporary of the result, which C++
  -- then sets to a null pointer, keeps its old one; nothing reads it before it is set again.
  unfoldable pub exec_subscript : Bool → Ir → Vm → Result Vm
  unfolding operand_cell is_null set_value_pointer go_on
  exec_subscript is_write ir vm = do
    var ← operand_cell ir.op1 vm
    index ← operand_cell ir.op2 vm
    _ ← fail_if (is_null var.value || is_null index.value) null_operand
    let (s, r) = n.subscript is_write var.value index.value vm.store
    let done = record vm { store = s }
    elim r [
      | inl p ↦ do vm₁ ← set_value_pointer n ir.result p done; ok (advance vm₁)
      | inr v ↦ go_on (done, some v)
    ]
