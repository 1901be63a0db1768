-- ===== src/Vm/Handlers.antt =====
-- vm.cc: where a thrown value goes.
use clever.Prelude.{
  ℕ, ◌≤◌, ◌≡◌, ◌≢◌, refl, sym, ap, ◌∙◌, true, false, Option, none, some, List, [], ◌∷◌, get_elem?,
  arith, All, ltb, Option-cases, inl, inr,
}
use mathlib.Core.Path.{subst}
use clever.Ir.{Ir}
use clever.Store.{Cell, read, write}
use clever.Vm.{
  Vm, uncaught, bad_operand, bad_pc, Result, ok, err, or_fail, get_pointer, cell_at, put, >>=-eq-ok,
  or_fail-eq-ok,
}
use clever.Vm.Returns.{write-envs}
use clever.Vm.Assigns.{read-write_self, read-write_other}
use clever.Vm.Exceptions.{handler, enter_handler, throw_exception}

-- The innermost try whose block is still running, with the tries inside it given up.
unfoldable pub innermost : List (ℕ × ℕ) → Option (ℕ × List (ℕ × ℕ))
innermost [] = none
innermost ((addr, state) ∷ rest) =
    let outer = innermost rest in
    elim (ltb 1 state) [ true ↦ outer | false ↦ some (addr, (addr, state) ∷ rest) ]

abbrev pub InBlock : ℕ × ℕ → Type 0
InBlock t = t.1 ≤ 1

-- When no enclosing try is in a catch of its own, a throw goes to the innermost try whose block is
-- still running, and is uncaught when there is none; the top of the stack may be in its catch.
pub handler-innermost :
    (top : ℕ × ℕ) (rest : List (ℕ × ℕ))
    → All InBlock rest
    → handler (top ∷ rest) ≡ innermost (top ∷ rest)
unfolding handler innermost
handler-innermost (addr, state) [] h = ground arith
handler-innermost (addr, state) ((next, outer) ∷ rest) (p, h) = ground arith

innermost-InBlock :
    (tries : List (ℕ × ℕ)) (addr head_addr state : ℕ) (rest : List (ℕ × ℕ))
    → innermost tries ≡ some (addr, (head_addr, state) ∷ rest)
    → state ≤ 1
unfolding innermost
innermost-InBlock [] addr head_addr state rest h = cc
innermost-InBlock ((a, st) ∷ tries) addr head_addr state rest h =
    ground (arith, innermost-InBlock tries addr head_addr state rest)

-- A throw inside a catch that is nested in a catch goes to the outer catch again, which is no try
-- whose block is still running, whatever tries enclose them.
pub handler-ne-innermost :
    (addr next : ℕ) (rest : List (ℕ × ℕ))
    → (handler ((addr, 2) ∷ (next, 2) ∷ rest) ≡ some (next, (next, 2) ∷ rest))
      × (handler ((addr, 2) ∷ (next, 2) ∷ rest) ≢ innermost ((addr, 2) ∷ (next, 2) ∷ rest))
unfolding handler
handler-ne-innermost addr next rest = (
  refl,
  λ e.
      absurd
        (omega (arith, innermost-InBlock ((addr, 2) ∷ (next, 2) ∷ rest) next next 2 rest (sym e))),
)

-- What a handled throw leaves: the innermost try whose block is still running is where it goes, in the
-- frame that threw; the variable of its catch holds the exception; no other cell and no environment
-- has changed; and there is no exception any more.
pub record IsHandled (vm vm' : Vm) : Type 0 where
  pub innermost_running : innermost vm.try_stack ≡ some (vm'.pc, vm'.try_stack)
  pub cleared : vm'.exception ≡ none
  pub same_frames : vm'.call_stack ≡ vm.call_stack
  pub same_envs : vm'.store.envs ≡ vm.store.envs
  pub exception : ℕ
  pub thrown : Cell
  pub catch_start : Ir
  pub p : ℕ
  pub had_exception : vm.exception ≡ some exception
  pub had_value : read exception vm.store ≡ some thrown
  pub at_catch : get_elem? vm.inst vm'.pc ≡ some catch_start
  pub variable : get_pointer catch_start.op1 vm ≡ ok p
  pub caught :
      (var : Cell)
      → read p vm.store ≡ some var
      → read p vm'.store ≡ some (record var { value = thrown.value })
  pub others_kept : (q : ℕ) → p ≢ q → read q vm'.store ≡ read q vm.store

-- The record, from the parts of a successful `enter_handler`.
IsHandled-by :
    (addr : ℕ) (stack : List (ℕ × ℕ)) (vm vm' : Vm) (exception : ℕ) (c : Cell) (catch_start : Ir)
    (p : ℕ)
    → innermost vm.try_stack ≡ some (addr, stack)
    → vm.exception ≡ some exception
    → read exception vm.store ≡ some c
    → get_elem? vm.inst addr ≡ some catch_start
    → get_pointer catch_start.op1 vm ≡ ok p
    → ◌≡◌ {A = Result Vm}
        (ok (record (put p c.value vm) { exception = none; try_stack = stack; pc = addr }))
        (ok vm')
    → IsHandled vm vm'
IsHandled-by addr stack vm vm' exception c catch_start p chosen he hc hi hp h =
    let written : vm'.store ≡ write p c.value vm.store = ground arith in
    record {
      innermost_running = ground arith;
      cleared = ground arith;
      same_frames = ground arith;
      same_envs = ap (λ s. s.envs) written ∙ write-envs p c.value vm.store;
      exception = exception;
      thrown = c;
      catch_start = catch_start;
      p = p;
      had_exception = he;
      had_value = hc;
      at_catch = ground arith;
      variable = hp;
      caught = λ var found. ap (read p) written ∙ read-write_self p c.value vm.store var found;
      others_kept =
          λ q differs. ap (read q) written ∙ read-write_other p q c.value vm.store differs;
    }

enter_handler-IsHandled :
    (addr : ℕ) (stack : List (ℕ × ℕ)) (vm vm' : Vm)
    → innermost vm.try_stack ≡ some (addr, stack)
    → enter_handler addr stack vm ≡ ok vm'
    → IsHandled vm vm'
unfolding enter_handler cell_at
enter_handler-IsHandled addr stack vm vm' chosen h =
    let (exception, he, h₁) = >>=-eq-ok (or_fail vm.exception bad_operand) _ h in
    let (c, hc, h₂) = >>=-eq-ok (or_fail (read exception vm.store) bad_operand) _ h₁ in
    let (catch_start, hi, h₃) = >>=-eq-ok (or_fail (get_elem? vm.inst addr) bad_pc) _ h₂ in
    let (p, hp, h₄) = >>=-eq-ok (get_pointer catch_start.op1 vm) _ h₃ in
    IsHandled-by addr stack vm vm' exception c catch_start p chosen
      (or_fail-eq-ok vm.exception bad_operand he)
      (or_fail-eq-ok (read exception vm.store) bad_operand hc)
      (or_fail-eq-ok (get_elem? vm.inst addr) bad_pc hi) hp h₄

-- If no enclosing try is in a catch of its own, every throw that is handled goes on at the innermost
-- try whose block is still running, with that try on top of the stack. The variable of its catch holds
-- what was thrown and no other cell has changed; the frames and the environments are as they were, so
-- that it is looked up in the frame that threw; and there is no exception any more.
pub throw_exception-IsHandled :
    (top : ℕ × ℕ) (rest : List (ℕ × ℕ)) (vm vm' : Vm)
    → vm.try_stack ≡ top ∷ rest
    → All InBlock rest
    → throw_exception vm ≡ ok vm'
    → IsHandled vm vm'
unfolding throw_exception
throw_exception-IsHandled top rest vm vm' tries h thrown =
    let same : handler vm.try_stack ≡ innermost vm.try_stack =
      subst (λ ts. handler ts ≡ innermost ts) (sym tries) (handler-innermost top rest h) in
    elim (Option-cases (handler vm.try_stack)) [
      | inl none_left ↦ absurd (ground (arith, none_left, thrown))
      | inr ((addr, stack), chosen) ↦
          enter_handler-IsHandled addr stack vm vm' (sym same ∙ chosen)
            (ground (arith, chosen, thrown))
    ]

-- A throw is fatal when no try is left for it.
pub throw_exception-uncaught :
    (vm : Vm) → handler vm.try_stack ≡ none → throw_exception vm ≡ err (uncaught vm.exception)
unfolding throw_exception
throw_exception-uncaught vm h = rw (h, throw_exception)
