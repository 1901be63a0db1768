-- ===== src/Vm/Operands.antt =====
-- vm.cc: an operand has the pointer that it had when the memory has grown.
use clever.Prelude.{
  ℕ, ◌≡◌, ◌∙◌, ap, some, [], ◌∷◌, get_elem?, arith, true, false, if◌then◌else◌, Bool-cases,
  Option-cases, inl, inr, >>=-eq-some, get_elem?-lt,
}
use mathlib.Core.Path.{subst}
use clever.Ir.{OperandType, unused, fetch_var, fetch_const, fetch_tmp, jump, Operand}
use clever.Store.{Cell, Store, alloc_cell, read, get_value}
use clever.Store.Activation.{Extends, Extends-refl, Extends-trans, alloc_cell-Extends}
use clever.Store.Frames.{get_value-Extends}
use clever.Vm.{
  Vm, bad_operand, ok, or_fail, current, env_at, get_current_environment, get_pointer, >>=-eq-ok,
  or_fail-eq-ok,
}
use clever.Vm.Members.{MemberData, MemberMap, Object, clone_member, copy_members, initialize}

-- A machine that goes on in the same frame with more memory.
pub record Grows (vm vm' : Vm) : Type 0 where
  pub same_frames : vm'.call_stack ≡ vm.call_stack
  pub same_constants : vm'.const_env ≡ vm.const_env
  pub extends : Extends vm.store vm'.store

env_at-Grows :
    (vm vm' : Vm) (e : ℕ) {env : _} → Grows vm vm' → env_at e vm ≡ ok env → env_at e vm' ≡ ok env
unfolding env_at
env_at-Grows vm vm' e {env} g h =
    let found = or_fail-eq-ok (get_elem? vm.store.envs e) bad_operand h in
    ap (λ o. or_fail o bad_operand)
      (g.extends.envs_kept e (get_elem?-lt vm.store.envs e found) ∙ found)

current-Grows : (vm vm' : Vm) → Grows vm vm' → current vm' ≡ current vm
unfolding current
current-Grows vm vm' g = rw g.same_frames

get_current_environment-Grows :
    (t : OperandType) (vm vm' : Vm) (e : ℕ)
    → Grows vm vm'
    → get_current_environment t vm ≡ ok e
    → get_current_environment t vm' ≡ ok e
unfolding get_current_environment
get_current_environment-Grows fetch_const vm vm' e g h = ap ok g.same_constants ∙ h
get_current_environment-Grows fetch_var vm vm' e g h = ground (arith, current-Grows vm vm' g, h)
get_current_environment-Grows fetch_tmp vm vm' e g h =
    let (entry, top, h₁) = >>=-eq-ok (current vm) _ h in
    let (env, found, h₂) = >>=-eq-ok (env_at entry.env vm) _ h₁ in
    ground (arith, current-Grows vm vm' g, top, env_at-Grows vm vm' entry.env g found, h₂)
get_current_environment-Grows unused vm vm' e g h = cc
get_current_environment-Grows jump vm vm' e g h = cc

pub get_pointer-Grows :
    (op : Operand) (vm vm' : Vm) (p : ℕ)
    → Grows vm vm'
    → get_pointer op vm ≡ ok p
    → get_pointer op vm' ≡ ok p
unfolding get_pointer
get_pointer-Grows op vm vm' p g h =
    let (source, current, h₁) = >>=-eq-ok (get_current_environment op.op_type vm) _ h in
    let found = or_fail-eq-ok (get_value source op.voffset vm.store) bad_operand h₁ in
    ground (
      arith,
      get_current_environment-Grows op.op_type vm vm' source g current,
      get_value-Extends vm.store vm'.store source p op.voffset g.extends found,
    )

pub clone_member-Extends :
    (c : Cell) (m : MemberData) (s : Store) → Extends s (clone_member c m s).1
unfolding clone_member
clone_member-Extends c m s =
    elim c.is_const as (λ b. Extends s (if b then (m.value, s) else alloc_cell c s).1) [
      | true ↦ Extends-refl s
      | false ↦ alloc_cell-Extends c s
    ]

copy_members-Extends :
    (ms made : MemberMap) (s t : Store) → copy_members ms s ≡ some (made, t) → Extends s t
unfolding copy_members
copy_members-Extends [] made s t h = subst (Extends s) (cc h) (Extends-refl s)
copy_members-Extends ((name, m) ∷ ms) made s t h =
    let (c, found, h₁) = >>=-eq-some (read m.value s) _ h in
    let ((copied, after), runs, h₂) = >>=-eq-some (copy_members ms (clone_member c m s).1) _ h₁ in
    subst (Extends s) (cc h₂)
      (Extends-trans (clone_member-Extends c m s) (copy_members-Extends ms copied _ after runs))

-- Making the members of an object changes nothing that was there.
pub initialize-Extends :
    (ms : MemberMap) (o made : Object) (s t : Store)
    → initialize ms o s ≡ some (made, t)
    → Extends s t
unfolding initialize
initialize-Extends ms o made s t h = elim (Bool-cases o.is_initialized) [
  | inl used ↦ subst (Extends s) (ground (arith, used, h)) (Extends-refl s)
  | inr new ↦ elim (Option-cases (copy_members ms s)) [
    | inl failed ↦ absurd (ground (arith, new, failed, h))
    | inr ((copied, after), runs) ↦
        subst (Extends s) (ground (arith, new, runs, h))
          (copy_members-Extends ms copied s after runs)
  ]
]
