-- ===== src/Vm/ObjectTests.antt =====
-- vm.cc on an object of a class with a method and a private attribute.
use clever.Prelude.{inr, ◌≡◌, refl, true, false, none, some, [], ◌∷◌, arith}
use clever.Ir
use clever.Ir.{fetch_var, fetch_const, fetch_tmp, no_operand, fetch, Ir, ir}
use clever.Store.{null, int, func, obj, Store, new_env, read}
use clever.Vm.{get_pointer, Function, Vm, ok, err, context_refused, cell_at}
use clever.Vm.Members.{MemberData, TypeInfo, find_object}
use clever.Vm.Tests.{natives, cell, constant}
use clever.Vm.Objects.{type_of, exec_prop_r}
use clever.Vm.Instances.{exec_mcall, exec_new}
use clever.Vm.Access.{IsOpened, open_object-IsOpened}
use clever.Vm.Methods.{
  Caller, MayUse, Answers, IsMethodCall, check_context-Answers, exec_mcall-IsMethodCall,
}

-- The names of the two members, the method's function, the attribute, a variable, a temporary, `this`.
abbrev store : Store
store = record {
  cells =
      constant (int 10)
      ∷ constant (int 11)
      ∷ constant (func 0)
      ∷ cell (int 5)
      ∷ cell (obj 0 0)
      ∷ cell null
      ∷ constant (obj 0 9)
      ∷ [];
  envs =
      record (new_env none) { values = 0 ∷ 1 ∷ [] }
      ∷ record (new_env none) { temp = some 2; values = 4 ∷ [] }
      ∷ record (new_env none) { values = 5 ∷ [] }
      ∷ record (new_env none) { values = 6 ∷ [] }
      ∷ record (new_env (some 3)) { values = [] }
      ∷ [];
}

abbrev method : Function
method = record {
  num_rargs = 0;
  num_args = 0;
  is_internal = false;
  is_variadic = false;
  is_closure = false;
  is_static = false;
  addr = 7;
  native = 0;
  environment = 4;
  context = some 0;
}

abbrev attribute : MemberData
attribute = record { value = 3; is_private = true }

abbrev class_info : TypeInfo
class_info = record {
  members = (10, record { value = 2; is_private = false }) ∷ (11, attribute) ∷ [];
  ctor = some 0;
  user_ctor = none;
  is_user_defined = true;
  environment = 3;
}

abbrev machine : Vm
machine = record {
  pc = 0;
  inst = [];
  const_env = 0;
  global_env = 1;
  functions = method ∷ [];
  call_args = [];
  exception = none;
  call_stack = record { env = 1; func = none } ∷ [];
  try_stack = [];
  mutex = false;
  types = class_info ∷ [];
  objects = [];
  store = store;
}

abbrev call_ir : Ir
call_ir = record (ir Ir.op_mcall (fetch fetch_var (0, 0)) (fetch fetch_const (0, 0))) {
  result = fetch fetch_tmp (0, 0);
}

-- The attribute cannot be read outside of functions.
prop_test :
    exec_prop_r natives (record call_ir { op2 = fetch fetch_const (0, 1) }) machine
    ≡ err context_refused
unfolding exec_prop_r
prop_test = refl

abbrev in_method : Vm
in_method = record machine { call_stack = record { env = 1; func = some 0 } ∷ [] }

in_method-Caller : Caller (some method) in_method
in_method-Caller = record {
  entry = record { env = 1; func = some 0 };
  below = [];
  on_top = refl;
  function = inr (0, method, refl, refl, refl);
}

check_context-Answers_example :
    Answers natives attribute in_method (MayUse attribute (some method) (type_of natives (int 5)))
unfolding cell_at
check_context-Answers_example =
    check_context-Answers natives attribute (some method) in_method (cell (int 5)) in_method-Caller
      refl

abbrev called : Vm
unfolding exec_mcall
called = elim (exec_mcall natives call_ir machine) [ ok vm ↦ vm | err e ↦ machine ]

called-pc : called.pc ≡ 7
unfolding exec_mcall
called-pc = refl

called-ok : exec_mcall natives call_ir machine ≡ ok called
unfolding exec_mcall
called-ok = refl

exec_mcall-IsMethodCall_example : IsMethodCall natives call_ir 5 machine called
unfolding get_pointer
exec_mcall-IsMethodCall_example =
    exec_mcall-IsMethodCall natives call_ir 5 machine called refl called-ok

-- A new object of the class has an environment of its own, whose first value is the object.
abbrev created : Vm
unfolding exec_new
created = elim (exec_new natives call_ir machine) [ ok vm ↦ vm | err e ↦ machine ]

created-result : read 5 created.store ≡ some (cell (obj 0 0))
unfolding exec_new
created-result = refl

created-objects :
    created.objects
    ≡ ((0, 0), record { members = []; is_initialized = false; environment = some 5 }) ∷ []
unfolding exec_new
created-objects = refl

created-this : read 7 created.store ≡ some (constant (obj 0 0))
unfolding exec_new
created-this = refl

open_object-IsOpened_example : IsOpened natives 0 0 class_info machine
unfolding find_object
open_object-IsOpened_example =
    open_object-IsOpened natives 0 0 class_info machine refl (omega arith) refl
