-- ===== src/Vm/Tests.antt =====
-- vm.cc on a small machine: a call of a function with one parameter, its return, a throw, an
-- assignment and an increment.
use clever.Prelude.{
  ℕ, ◌+◌, ◌≡◌, ◌≢◌, refl, true, false, Option, none, some, inl, ◌⊎◌, List, length, [], ◌∷◌, arith,
}
use clever.Ir
use clever.Ir.{fetch_var, fetch_const, fetch_tmp, no_operand, fetch, jump_to, Ir, ir, IrVector}
use clever.Store.{read, Value, null, int, func, obj, Cell, Env, Store, new_env, write}
use clever.Vm.{
  Function, Vm, ok, err, const_assignment, advance, put, get_pointer, cell_at, operand_cell,
}
use clever.Vm.Natives.{Natives, Outcome, writes, keeps}
use clever.Vm.Call.{prepare_call, exec_ret}
use clever.Vm.Operators.{deep_copy, exec_assign}
use clever.Vm.Exceptions.{handler, throw_exception}
use clever.Vm.Step.{run}
use clever.Vm.Nested.{run_function}
use clever.Types.Array.{Returned, returned_array}
use clever.Types.Each.{array_ctor, each_loop, array_each, each_loop-length}
use clever.Vm.Handlers.{
  innermost, handler-innermost, handler-ne-innermost, IsHandled, throw_exception-IsHandled,
}
use clever.Vm.Returns.{IsEntered, KeepsFrame, prepare_call-IsEntered, exec_ret-prepare_call}
use clever.Vm.Assigns.{IsFixed, IsAssigned, exec_assign_lem}

abbrev pub successor : Value → Outcome
successor (int i) = writes (int (i + 1))
successor _ = keeps

abbrev pub natives : Natives
natives = record {
  binary = λ o a b. keeps;
  unary = λ o a. keeps;
  increment = successor;
  decrement = λ v. keeps;
  call = λ f p args s. (s, none);
  call_method = λ f p callee args s. (s, none);
  subscript = λ w v i s. (s, inl 0);
  bool_type = 1;
  int_type = 2;
  func_type = 3;
  text_of = λ v. elim v [ int i ↦ i | _ ↦ 0 ];
  make_array = λ args s. obj 1 0;
  clone_object = λ t o. obj t o;
}

abbrev pub cell : Value → Cell
cell v = record { value = v; is_const = false }

abbrev pub constant : Value → Cell
constant v = record { value = v; is_const = true }

-- The constants' environment is 0, the global one 1, its temporaries are 2, the function's is 3.
abbrev store : Store
store = record {
  cells =
      constant (int 7)
      ∷ cell (func 0)
      ∷ cell null
      ∷ cell null
      ∷ cell null
      ∷ constant (int 1)
      ∷ cell (obj 1 1)
      ∷ [];
  envs =
      record (new_env none) { values = 0 ∷ [] }
      ∷ record (new_env none) { temp = some 2; values = 1 ∷ 2 ∷ 5 ∷ [] }
      ∷ record (new_env none) { values = 3 ∷ [] }
      ∷ record (new_env (some 1)) { values = 4 ∷ [] }
      ∷ [];
}

abbrev function : Function
function = record {
  num_rargs = 1;
  num_args = 1;
  is_internal = false;
  is_variadic = false;
  is_closure = false;
  is_static = false;
  context = none;
  addr = 3;
  native = 0;
  environment = 3;
}

-- The call `x(7)`, the start of a catch, the end, and the function: `return` of its parameter.
abbrev call_ir : Ir
call_ir = record (ir Ir.op_fcall (fetch fetch_var (0, 0)) no_operand) {
  result = fetch fetch_tmp (0, 0);
}

abbrev ret_ir : Ir
ret_ir = ir Ir.op_ret (fetch fetch_var (0, 0)) no_operand

abbrev code : IrVector
code =
    call_ir
    ∷ ir Ir.op_catch (fetch fetch_var (0, 1)) no_operand
    ∷ ir Ir.op_halt no_operand no_operand
    ∷ ret_ir
    ∷ []

abbrev machine : Vm
machine = record {
  pc = 0;
  inst = code;
  const_env = 0;
  global_env = 1;
  functions = function ∷ [];
  call_args = 0 ∷ [];
  exception = none;
  call_stack = record { env = 1; func = none } ∷ [];
  try_stack = (9, 2) ∷ (1, 1) ∷ [];
  mutex = false;
  types = [];
  objects = [];
  store = store;
}

-- The frame of the call, and the machine in it.
abbrev frame : Env
frame = record (new_env (some 1)) { values = 7 ∷ []; ret_addr = 1; ret_val = some 3 }

abbrev in_call : Vm
in_call = record machine {
  call_args = [];
  call_stack = record { env = 4; func = some 0 } ∷ record { env = 1; func = none } ∷ [];
  store = record {
    cells =
        constant (int 7)
        ∷ cell (func 0)
        ∷ cell null
        ∷ cell null
        ∷ cell null
        ∷ constant (int 1)
        ∷ cell (obj 1 1)
        ∷ cell (int 7)
        ∷ [];
    envs =
        record (new_env none) { values = 0 ∷ [] }
        ∷ record (new_env none) { temp = some 2; values = 1 ∷ 2 ∷ 5 ∷ [] }
        ∷ record (new_env none) { values = 3 ∷ [] }
        ∷ record (new_env (some 1)) { values = 4 ∷ [] }
        ∷ frame
        ∷ [];
  };
}

-- At the end of the function's body.
abbrev at_end : Vm
at_end = record in_call { pc = 3 }

abbrev kept : KeepsFrame in_call at_end
kept = record {
  entry = record { env = 4; func = some 0 };
  below = record { env = 1; func = none } ∷ [];
  start = frame;
  end = frame;
  on_top = refl;
  same_frames = refl;
  start_found = refl;
  end_found = refl;
  same_address = refl;
  same_result = refl;
  not_global = ground arith;
}

-- The whole call leaves the argument in the temporary of the call.
run_call :
    run natives 4 (record machine { try_stack = (1, 1) ∷ [] })
    ≡ ok (
        some (record at_end {
          pc = 2;
          try_stack = (1, 2) ∷ [];
          call_stack = record { env = 1; func = none } ∷ [];
          store = write 3 (int 7) at_end.store;
        }))
unfolding run
run_call = refl

prepare_call-machine : prepare_call natives 0 function none call_ir machine ≡ ok in_call
unfolding prepare_call
prepare_call-machine = refl

prepare_call-IsEntered_example : IsEntered machine 0 3 in_call
unfolding get_pointer
prepare_call-IsEntered_example =
    prepare_call-IsEntered natives 0 3 function none call_ir machine in_call refl
      prepare_call-machine

exec_ret-prepare_call_example :
    exec_ret ret_ir at_end
    ≡ ok (
        some (record at_end {
          call_stack = machine.call_stack;
          pc = 1;
          store = write 3 (int 7) at_end.store;
        }))
unfolding operand_cell get_pointer
exec_ret-prepare_call_example =
    exec_ret-prepare_call natives 0 3 function none call_ir ret_ir machine in_call at_end
      (cell (int 7)) refl prepare_call-machine kept refl refl tt

-- A throw out of the second try, whose catch is running, goes to the first.
abbrev throwing : Vm
throwing = record machine { exception = some 6 }

abbrev handled : Vm
handled = record machine {
  pc = 1;
  exception = none;
  try_stack = (1, 1) ∷ [];
  store = write 2 (obj 1 1) machine.store;
}

throw_exception-throwing : throw_exception throwing ≡ ok handled
unfolding throw_exception
throw_exception-throwing = refl

throw_exception-IsHandled_example : IsHandled throwing handled
throw_exception-IsHandled_example =
    throw_exception-IsHandled (9, 2) ((1, 1) ∷ []) throwing handled refl (omega arith, tt)
      throw_exception-throwing

handler-innermost_example :
    handler ((9, 2) ∷ (1, 1) ∷ (5, 1) ∷ []) ≡ innermost ((9, 2) ∷ (1, 1) ∷ (5, 1) ∷ [])
handler-innermost_example =
    handler-innermost (9, 2) ((1, 1) ∷ (5, 1) ∷ []) (omega arith, (omega arith, tt))

handler-ne-innermost_example :
    (handler ((9, 2) ∷ (5, 2) ∷ (1, 1) ∷ []) ≡ some (5, (5, 2) ∷ (1, 1) ∷ []))
    × (handler ((9, 2) ∷ (5, 2) ∷ (1, 1) ∷ []) ≢ innermost ((9, 2) ∷ (5, 2) ∷ (1, 1) ∷ []))
handler-ne-innermost_example = handler-ne-innermost 9 5 ((1, 1) ∷ [])

-- `x = 7` where `x` is the second global variable, which is null, and the third, a constant.
abbrev assign_to : ℕ → Ir
assign_to i = ir Ir.op_assign (fetch fetch_var (0, i)) (fetch fetch_const (0, 0))

exec_assign_lem_example :
    ((exec_assign natives (assign_to 2) machine ≡ err const_assignment)
      × IsFixed (constant (int 1)))
    ⊎ ((vm' : Vm) × (exec_assign natives (assign_to 2) machine ≡ ok vm')
        × (¬ IsFixed (constant (int 1)))
        × IsAssigned 5 (constant (int 1)) (int 7) machine vm')
unfolding get_pointer cell_at operand_cell deep_copy
exec_assign_lem_example =
    exec_assign_lem natives (assign_to 2) machine 5 (constant (int 1)) (constant (int 7)) refl refl
      refl refl

exec_assign_null : exec_assign natives (assign_to 1) machine ≡ ok (advance (put 2 (int 7) machine))
unfolding exec_assign
exec_assign_null = refl

abbrev inc_ir : Ir
inc_ir = record (ir Ir.op_pre_inc (fetch fetch_var (0, 2)) no_operand) {
  result = fetch fetch_tmp (0, 0);
}

-- The function run from native code on the cell of the constant.
abbrev callback_code : IrVector
callback_code = call_ir ∷ call_ir ∷ call_ir ∷ ret_ir ∷ ir Ir.op_halt no_operand no_operand ∷ []

abbrev ran : Option (ℕ × Vm)
unfolding run_function
ran = elim (run_function natives 3 0 function (0 ∷ []) (record machine { inst = callback_code })) [
  | ok r ↦ r
  | err e ↦ none
]

abbrev result_of : Option (ℕ × Vm) → Option Cell
unfolding read
result_of none = none
result_of (some (p, vm)) = read p vm.store

run_function-result : result_of ran ≡ some (cell (int 7))
unfolding run_function read
run_function-result = refl

-- `each` over two elements.
abbrev each_result : Option Returned
unfolding array_each
each_result =
    elim (array_each natives 3 0 function (0 ∷ 0 ∷ []) (record machine { inst = callback_code })) [
      | ok r ↦ elim r [ none ↦ none | some (out, vm) ↦ some out ]
      | err e ↦ none
    ]

each_test : each_result ≡ some (returned_array (some (int 7) ∷ some (int 7) ∷ []))
unfolding array_each array_ctor
each_test = refl

-- The loop of `each` over the cell of the constant, twice.
abbrev called_back : Vm
called_back = record machine { inst = callback_code }

abbrev looped : Option (List ℕ × Vm)
unfolding each_loop
looped = elim (each_loop natives 3 0 function (0 ∷ 0 ∷ []) called_back) [ ok r ↦ r | err e ↦ none ]

abbrev results : List ℕ
unfolding each_loop
results = elim looped [ none ↦ [] | some (qs, ended) ↦ qs ]

abbrev after_loop : Vm
unfolding each_loop
after_loop = elim looped [ none ↦ machine | some (qs, ended) ↦ ended ]

looped-ok :
    each_loop natives 3 0 function (0 ∷ 0 ∷ []) called_back ≡ ok (some (results, after_loop))
unfolding each_loop
looped-ok = refl

each_loop-length_example : (length results ≡ 2) × (after_loop.pc ≡ called_back.pc)
each_loop-length_example = each_loop-length natives 3 0 function (0 ∷ 0 ∷ []) called_back looped-ok
