-- ===== src/Vm/Returns.antt =====
-- vm.cc: a call and its return.
use clever.Prelude.{
  ℕ, ◌+◌, ◌≡◌, ◌≢◌, refl, sym, ap, ◌∙◌, true, Option, some, List, [], ◌∷◌, length, get_elem?, set,
  take, drop, arith, get_elem?-set_self, get_elem?-lt,
}
use clever.Ir.{Operand, Ir}
use clever.Store.{
  Value, null, bool, int, func, obj, Cell, Env, Store, read, write, get_value, activate,
}
use clever.Vm.{
  Function, CallStackEntry, Vm, bad_operand, Result, ok, err, or_fail, lock, get_pointer,
  operand_cell, is_used, >>=-eq-ok, or_fail-eq-ok,
}
use mathlib.Core.Path.{subst}
use clever.Store.Activation.{Extends, Extends-refl}
use clever.Store.Frames.{activate-Extends}
use clever.Vm.Operands.{Grows, get_pointer-Grows}
use clever.Vm.Natives.{Natives}
use clever.Vm.Call.{
  bind_args, bind_rest, bound_count, param_binding, enter_frame, check_arity, prepare_call,
  return_value, return_to, exec_ret, exec_leave,
}

pub write-envs : (p : ℕ) (v : Value) (s : Store) → (write p v s).envs ≡ s.envs
unfolding write
write-envs p v s = ground arith

bind_args-envs :
    (fenv i : ℕ) (args : List ℕ) (s s' : Store) → bind_args fenv i args s ≡ ok s' → s'.envs ≡ s.envs
unfolding bind_args
bind_args-envs fenv i [] s s' h = ground arith
bind_args-envs fenv i (arg ∷ args) s s' h =
    let (p, hp, h₁) = >>=-eq-ok (or_fail (get_value fenv (0, i) s) bad_operand) _ h in
    let (c, hc, h₂) = >>=-eq-ok (or_fail (read arg s) bad_operand) _ h₁ in
    bind_args-envs fenv (i + 1) args (write p c.value s) s' h₂ ∙ write-envs p c.value s

module _ (n : Natives) where
  bind_rest-envs :
      (f : Function) (fenv : ℕ) (rest : List ℕ) (s s' : Store)
      → bind_rest n f fenv rest s ≡ ok s'
      → s'.envs ≡ s.envs
  unfolding bind_rest write
  bind_rest-envs f fenv rest s s' h = ground arith

  param_binding-envs :
      (f : Function) (fenv : ℕ) (args : List ℕ) (s s' : Store)
      → param_binding n f fenv args s ≡ ok s'
      → s'.envs ≡ s.envs
  unfolding param_binding
  param_binding-envs f fenv args s s' h =
      let nargs = bound_count f (length args) in
      let (s₁, h₁, h₂) = >>=-eq-ok (bind_args fenv 0 (take nargs args) s) _ h in
      bind_rest-envs f fenv (drop nargs args) s₁ s' h₂
      ∙ bind_args-envs fenv 0 (take nargs args) s s₁ h₁

abbrev stack_of : Result Vm → List CallStackEntry
stack_of (ok vm) = vm.call_stack
stack_of (err e) = []

abbrev envs_of : Result Vm → List Env
envs_of (ok vm) = vm.store.envs
envs_of (err e) = []

-- The frame on top of the call stack of `vm'` will return behind the call of `vm`, into the cell `p`.
pub record IsEntered (vm : Vm) (id p : ℕ) (vm' : Vm) : Type 0 where
  pub fenv : ℕ
  pub env : Env
  pub pushed : vm'.call_stack ≡ record { env = fenv; func = some id } ∷ vm.call_stack
  pub found : get_elem? vm'.store.envs fenv ≡ some env
  pub returns_behind : env.ret_addr ≡ vm.pc + 1
  pub returns_into : env.ret_val ≡ some p

IsEntered-by :
    (id fenv top p : ℕ) (vm vm' : Vm) (s : Store) (env : Env)
    → get_elem? s.envs fenv ≡ some env
    → ◌≡◌ {A = Result (ℕ × Vm)}
        (ok (
          fenv,
          record vm {
            store = record s {
              envs = set s.envs fenv (record env { ret_addr = vm.pc + 1; ret_val = some p });
            };
            call_stack = record { env = fenv; func = some id } ∷ vm.call_stack;
          },
        ))
        (ok (top, vm'))
    → IsEntered vm id p vm'
IsEntered-by id fenv top p vm vm' s env found h = record {
  fenv = fenv;
  env = record env { ret_addr = vm.pc + 1; ret_val = some p };
  pushed = ground arith;
  found = ground (
    arith,
    get_elem?-set_self s.envs fenv (record env { ret_addr = vm.pc + 1; ret_val = some p })
        (get_elem?-lt s.envs fenv found),
  );
  returns_behind = refl;
  returns_into = refl;
}

activated-Grows :
    (f : Function) (outer : Option ℕ) (vm : Vm) (e : ℕ) (s : Store)
    → or_fail (activate f.environment outer vm.store) bad_operand ≡ ok (e, s)
    → Grows vm (record vm { store = s })
activated-Grows f outer vm e s h = record {
  same_frames = refl;
  same_constants = refl;
  extends =
      (activate-Extends f.environment e outer vm.store s
        (or_fail-eq-ok (activate f.environment outer vm.store) bad_operand h)).0;
}

enter_frame-IsEntered :
    (f : Function) (id p : ℕ) (outer : Option ℕ) (result : Operand) (vm : Vm) (fenv : ℕ) (vm' : Vm)
    → get_pointer result vm ≡ ok p
    → enter_frame f id outer result vm ≡ ok (fenv, vm')
    → IsEntered vm id p vm'
unfolding enter_frame
enter_frame-IsEntered f id p outer result vm fenv vm' hp h =
    let ((e, s), ha, h₁) =
      >>=-eq-ok (or_fail (activate f.environment outer vm.store) bad_operand) _ h in
    let (env, he, h₂) = >>=-eq-ok (or_fail (get_elem? s.envs e) bad_operand) _ h₁ in
    let (r, hr, h₃) = >>=-eq-ok (get_pointer result (record vm { store = s })) _ h₂ in
    let kept =
      get_pointer-Grows result vm (record vm { store = s }) p (activated-Grows f outer vm e s ha)
        hp in
    let same : r ≡ p = cc (hr, kept) in
    subst (λ q. IsEntered vm id q vm') same
      (IsEntered-by id e fenv r vm vm' s env (or_fail-eq-ok (get_elem? s.envs e) bad_operand he) h₃)

pub IsEntered-transfer :
    (id p : ℕ) (vm vm' before after : Vm)
    → IsEntered vm id p vm'
    → vm.call_stack ≡ before.call_stack
    → vm.pc ≡ before.pc
    → after.call_stack ≡ vm'.call_stack
    → after.store.envs ≡ vm'.store.envs
    → IsEntered before id p after
IsEntered-transfer id p vm vm' before after v stack pc stack' envs = record {
  fenv = v.fenv;
  env = v.env;
  pushed = stack' ∙ v.pushed ∙ ap (◌∷◌ (record { env = v.fenv; func = some id })) stack;
  found = ap (λ l. get_elem? l v.fenv) envs ∙ v.found;
  returns_behind = v.returns_behind ∙ ap (λ k. k + 1) pc;
  returns_into = v.returns_into;
}

lock-eq-ok : (vm locked : Vm) → lock vm ≡ ok locked → locked ≡ record vm { mutex = true }
unfolding lock
lock-eq-ok vm locked h = ground arith

lock-Grows : (vm locked : Vm) → lock vm ≡ ok locked → Grows vm locked
lock-Grows vm locked h =
    let same = lock-eq-ok vm locked h in
    record {
      same_frames = ap (λ v. v.call_stack) same;
      same_constants = ap (λ v. v.const_env) same;
      extends = subst (Extends vm.store) (sym (ap (λ v. v.store) same)) (Extends-refl vm.store);
    }

module _ (n : Natives) where
  -- A call that is made pushes one frame, whatever is bound to the parameters. It returns behind the
  -- call, and into the cell that the call's result has in the caller.
  pub prepare_call-IsEntered :
      (id p : ℕ) (f : Function) (outer : Option ℕ) (ir : Ir) (vm vm' : Vm)
      → get_pointer ir.result vm ≡ ok p
      → prepare_call n id f outer ir vm ≡ ok vm'
      → IsEntered vm id p vm'
  unfolding prepare_call
  prepare_call-IsEntered id p f outer ir vm vm' result h =
      let (locked, hl, h₁) = >>=-eq-ok (lock vm) _ h in
      let ((fenv, vm₁), he, h₂) = >>=-eq-ok (enter_frame f id outer ir.result locked) _ h₁ in
      let (_, hc, h₃) = >>=-eq-ok (check_arity f (length vm.call_args)) _ h₂ in
      let (s, hp, h₄) = >>=-eq-ok (param_binding n f fenv vm.call_args vm₁.store) _ h₃ in
      IsEntered-transfer id p locked vm₁ vm vm'
        (enter_frame-IsEntered f id p outer ir.result locked fenv vm₁
          (get_pointer-Grows ir.result vm locked p (lock-Grows vm locked hl) result) he)
        (ap (λ v. v.call_stack) (lock-eq-ok vm locked hl))
        (ap (λ v. v.pc) (lock-eq-ok vm locked hl)) (sym (ap stack_of h₄))
        (sym (ap envs_of h₄) ∙ param_binding-envs n f fenv vm.call_args vm₁.store s hp)

-- The frames that were there when a function was entered are those of the machine that leaves it,
-- and the entered frame still says where to return.
pub record IsBack (vm : Vm) (id p : ℕ) (vm' back : Vm) (entered : IsEntered vm id p vm')
    : Type 0 where
  pub same_frames : back.call_stack ≡ vm'.call_stack
  pub frame : Env
  pub frame_found : get_elem? back.store.envs entered.fenv ≡ some frame
  pub same_address : frame.ret_addr ≡ entered.env.ret_addr
  pub same_result : frame.ret_val ≡ entered.env.ret_val

-- `OP_LEAVE` in an entered frame goes on behind the call, with the caller's frames; it changes
-- nothing else.
pub exec_leave-entered :
    (vm vm' back : Vm) (id p : ℕ) (entered : IsEntered vm id p vm')
    → IsBack vm id p vm' back entered
    → exec_leave back ≡ ok (record back { call_stack = vm.call_stack; pc = vm.pc + 1 })
unfolding exec_leave
exec_leave-entered vm vm' back id p entered b =
    ground (
      arith,
      b.same_frames ∙ entered.pushed,
      b.frame_found,
      b.same_address ∙ entered.returns_behind,
    )

-- A value that is no function.
abbrev pub IsPlain : Value → Type 0
IsPlain (func id) = ⊥
IsPlain _ = Unit {0}

return_value-IsPlain :
    (v : Value) (entry : CallStackEntry) (vm : Vm)
    → IsPlain v
    → return_value v entry vm ≡ ok (v, vm)
unfolding return_value
return_value-IsPlain null entry vm h = refl
return_value-IsPlain (func id) entry vm h = absurd h
return_value-IsPlain (bool b) entry vm h = refl
return_value-IsPlain (int i) entry vm h = refl
return_value-IsPlain (obj t o) entry vm h = refl

-- `OP_RET` in an entered frame.
exec_ret-entered :
    (vm vm' back : Vm) (id p : ℕ) (ret : Ir) (c : Cell) (entered : IsEntered vm id p vm')
    → IsBack vm id p vm' back entered
    → entered.fenv ≢ back.global_env
    → is_used ret.op1 ≡ true
    → operand_cell ret.op1 back ≡ ok c
    → IsPlain c.value
    → exec_ret ret back
      ≡ ok (
          some (record back {
            call_stack = vm.call_stack;
            pc = vm.pc + 1;
            store = write p c.value back.store;
          }))
unfolding exec_ret return_to
exec_ret-entered vm vm' back id p ret c entered b inner used hc plain = ground (
  arith,
  b.same_frames ∙ entered.pushed,
  b.frame_found,
  b.same_address ∙ entered.returns_behind,
  b.same_result ∙ entered.returns_into,
  used,
  hc,
  return_value-IsPlain c.value (record { env = entered.fenv; func = some id }) back plain,
)

-- From the start of a call to its end, the body of the function has left the frames, and where the
-- frame on top returns, alone.
pub record KeepsFrame (called back : Vm) : Type 0 where
  pub entry : CallStackEntry
  pub below : List CallStackEntry
  pub start : Env
  pub end : Env
  pub on_top : called.call_stack ≡ entry ∷ below
  pub same_frames : back.call_stack ≡ called.call_stack
  pub start_found : get_elem? called.store.envs entry.env ≡ some start
  pub end_found : get_elem? back.store.envs entry.env ≡ some end
  pub same_address : end.ret_addr ≡ start.ret_addr
  pub same_result : end.ret_val ≡ start.ret_val
  pub not_global : entry.env ≢ back.global_env

KeepsFrame-IsBack :
    (vm called back : Vm) (id p : ℕ) (entered : IsEntered vm id p called)
    (k : KeepsFrame called back)
    → (k.entry.env ≡ entered.fenv) × IsBack vm id p called back entered
KeepsFrame-IsBack vm called back id p entered k =
    let same : k.entry.env ≡ entered.fenv = cc (k.on_top, entered.pushed) in
    let start : k.start ≡ entered.env = cc (same, k.start_found, entered.found) in
    (
      same,
      record {
        same_frames = k.same_frames;
        frame = k.end;
        frame_found = subst (λ e. get_elem? back.store.envs e ≡ some k.end) same k.end_found;
        same_address = k.same_address ∙ ap (λ e. e.ret_addr) start;
        same_result = k.same_result ∙ ap (λ e. e.ret_val) start;
      },
    )

module _ (n : Natives) where
  -- A call and its return: if the body of the function has left the frames, and where its own frame
  -- returns, alone, then `OP_RET` of a value that is no function restores the caller's frames, goes on
  -- behind the call, and writes the value into the cell that the call's result has in the caller; it
  -- changes nothing else.
  pub exec_ret-prepare_call :
      (id p : ℕ) (f : Function) (outer : Option ℕ) (ir ret : Ir) (vm called back : Vm) (c : Cell)
      → get_pointer ir.result vm ≡ ok p
      → prepare_call n id f outer ir vm ≡ ok called
      → KeepsFrame called back
      → is_used ret.op1 ≡ true
      → operand_cell ret.op1 back ≡ ok c
      → IsPlain c.value
      → exec_ret ret back
        ≡ ok (
            some (record back {
              call_stack = vm.call_stack;
              pc = vm.pc + 1;
              store = write p c.value back.store;
            }))
  exec_ret-prepare_call id p f outer ir ret vm called back c result h k used hc plain =
      let entered = prepare_call-IsEntered n id p f outer ir vm called result h in
      let (same, is_back) = KeepsFrame-IsBack vm called back id p entered k in
      exec_ret-entered vm called back id p ret c entered is_back (λ e. k.not_global (same ∙ e)) used
        hc plain
