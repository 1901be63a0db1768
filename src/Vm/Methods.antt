-- ===== src/Vm/Methods.antt =====
-- vm.cc: who may use a private member, and what a method call enters.
use clever.Prelude.{
  ℕ, ◌≡◌, ◌≢◌, ◌⊎◌, refl, sym, ap, ◌∙◌, Bool, true, false, not, Option, none, some, List, ◌∷◌,
  get_elem?, arith, Bool-cases, Option-cases, inl, inr, ==_iff,
}
use mathlib.Core.Logic.{◌↔◌}
use clever.Ir.{Ir}
use clever.Store.{Value, func, obj, Cell, is_null}
use clever.Vm.{
  Function, CallStackEntry, Vm, Error, ok, or_fail, bad_operand, null_access, context_refused,
  current, cell_at, get_pointer, operand_cell, >>=-eq-ok, or_fail-eq-ok,
}
use clever.Vm.Members.{MemberData, TypeInfo, Object, get_member, initialize}
use mathlib.Core.Path.{subst}
use clever.Vm.Natives.{Natives}
use clever.Vm.Operands.{Grows, get_pointer-Grows, initialize-Extends}
use clever.Vm.Call.{prepare_call}
use clever.Vm.Operators.{fail_if}
use clever.Vm.Returns.{IsEntered, IsEntered-transfer, prepare_call-IsEntered}
use clever.Vm.Objects.{
  same_type, type_at, type_of, load_object, keep_object, open_object, check_context,
}
use clever.Vm.Instances.{enter_function, call_member, exec_mcall, function_member}

-- The function whose call the machine is in, `none` outside of functions.
pub record Caller (o : Option Function) (vm : Vm) : Type 0 where
  pub entry : CallStackEntry
  pub below : List CallStackEntry
  pub on_top : vm.call_stack ≡ entry ∷ below
  pub function :
      ((entry.func ≡ none) × (o ≡ none))
      ⊎ ((id : ℕ) × (f : Function) × (entry.func ≡ some id)
          × (get_elem? vm.functions id ≡ some f)
          × (o ≡ some f))

same_type_iff : (a b : Option ℕ) → (same_type a b ≡ true) ↔ (a ≡ b)
same_type_iff none none = (λ h. refl, λ h. refl)
same_type_iff none (some u) = (λ h. cc, λ h. cc)
same_type_iff (some t) none = (λ h. cc, λ h. cc)
same_type_iff (some t) (some u) = (λ h. ap some ((==_iff t u).0 h), λ h. (==_iff t u).1 (cc h))

-- The member is public, or a function asks whose type is not that of the member's value.
abbrev pub MayUse : MemberData → Option Function → Option ℕ → Type 0
MayUse m o t = (m.is_private ≡ false) ⊎ ((f : Function) × (o ≡ some f) × (f.context ≢ t))

-- What the check answers, and when that is yes.
pub record Answers (n : Natives) (m : MemberData) (vm : Vm) (may_use : Type 0) : Type 0 where
  pub may : Bool
  pub answer : check_context n (some m) vm ≡ ok may
  pub correct : (may ≡ true) ↔ may_use

module _ (n : Natives) (m : MemberData) (o : Option Function) (vm : Vm) (c : Cell) where
  private_Answers :
      m.is_private ≡ true
      → Caller o vm
      → cell_at m.value vm ≡ ok c
      → Answers n m vm (MayUse m o (type_of n c.value))
  unfolding check_context current
  private_Answers private r found = elim r.function [
    | inl (outside, nobody) ↦ record {
      may = false;
      answer = ground (arith, private, r.on_top, outside);
      correct = (
        λ h. cc h,
        λ h. elim h [
          | inl public ↦ cc (public, private)
          | inr (f, calls, differs) ↦ cc (calls, nobody)
        ],
      );
    }
    | inr (id, f, calls, is_function, here) ↦
        let same = same_type_iff f.context (type_of n c.value) in
        record {
          may = not (same_type f.context (type_of n c.value));
          answer = ground (arith, private, r.on_top, calls, is_function, found);
          correct = (
            λ h. inr (f, here, λ equal. absurd (ground (arith, h, same.1 equal))),
            λ h. elim h [
              | inl public ↦ cc (public, private)
              | inr (g, calls', differs) ↦
                  elim (Bool-cases (same_type f.context (type_of n c.value))) [
                    | inl equal ↦
                        let one : g ≡ f = cc (calls', here) in
                        absurd (differs (ap (λ (x : Function). x.context) one ∙ same.0 equal))
                    | inr other ↦ ground (arith, other)
                  ]
            ],
          );
        }
  ]

  pub check_context-Answers :
      Caller o vm → cell_at m.value vm ≡ ok c → Answers n m vm (MayUse m o (type_of n c.value))
  unfolding check_context
  check_context-Answers r found = elim (Bool-cases m.is_private) [
    | inl private ↦ private_Answers private r found
    | inr public ↦ record {
      may = true;
      answer = ground (arith, public);
      correct = (λ h. inl public, λ h. refl);
    }
  ]

-- A method call of the machine `vm` that went through, and left `vm'`; the cell of its result is `p`.
pub record IsMethodCall (n : Natives) (ir : Ir) (p : ℕ) (vm vm' : Vm) : Type 0 where
  pub callee : ℕ
  pub value : Cell
  pub name : Cell
  pub info : TypeInfo
  pub object : Object
  pub opened : Vm
  pub member : MemberData
  pub content : Cell
  pub id : ℕ
  pub method : Function
  pub has_callee : get_pointer ir.op1 vm ≡ ok callee
  pub has_value : cell_at callee vm ≡ ok value
  pub has_name : operand_cell ir.op2 vm ≡ ok name
  pub not_null : is_null value.value ≡ false
  pub opens : open_object n value.value vm ≡ ok (info, object, opened)
  pub is_member : get_member (n.text_of name.value) object.members ≡ some member
  pub allowed : check_context n (some member) opened ≡ ok true
  pub has_content : cell_at member.value opened ≡ ok content
  pub is_function : content.value ≡ func id
  pub is_method : get_elem? opened.functions id ≡ some method
  pub not_static : method.is_static ≡ false
  pub enters : method.is_internal ≡ false → IsEntered vm id p vm' × (vm'.pc ≡ method.addr)

fail_if-eq-ok : (b : Bool) (e : Error) (u : Unit {0}) → fail_if b e ≡ ok u → b ≡ false
fail_if-eq-ok true e u h = cc
fail_if-eq-ok false e u h = refl

function_member-eq-ok :
    (o : Option MemberData) (vm : Vm) (id : ℕ)
    → function_member o vm ≡ ok id
    → (m : MemberData) × (c : Cell) × (o ≡ some m)
      × (cell_at m.value vm ≡ ok c)
      × (c.value ≡ func id)
unfolding function_member
function_member-eq-ok none vm id h = cc
function_member-eq-ok (some m) vm id h =
    let (c, found, h₁) = >>=-eq-ok (cell_at m.value vm) _ h in
    (m, c, refl, found, ground (arith, c.value))

module _ (n : Natives) where
  keep_object-Grows :
      (v : Value) (o : Object) (before vm : Vm)
      → Grows before vm
      → Grows before (keep_object n v o vm) × ((keep_object n v o vm).pc ≡ vm.pc)
  unfolding keep_object
  keep_object-Grows (obj t i) o before vm g = (
    record { same_frames = g.same_frames; same_constants = g.same_constants; extends = g.extends },
    refl,
  )
  keep_object-Grows (func f) o before vm g = (
    record { same_frames = g.same_frames; same_constants = g.same_constants; extends = g.extends },
    refl,
  )
  keep_object-Grows v o before vm g = (g, refl)

  open_object-Grows :
      (v : Value) (vm vm' : Vm) (info : TypeInfo) (o : Object)
      → open_object n v vm ≡ ok (info, o, vm')
      → Grows vm vm' × (vm'.pc ≡ vm.pc)
  unfolding open_object
  open_object-Grows v vm vm' info o h =
      let (t, ht, h₁) = >>=-eq-ok (or_fail (type_of n v) bad_operand) _ h in
      let (i, hi, h₂) = >>=-eq-ok (type_at t vm) _ h₁ in
      let made = initialize i.members (load_object n v vm) vm.store in
      let ((o₁, s), ho, h₃) = >>=-eq-ok (or_fail made bad_operand) _ h₂ in
      let grown : Grows vm (record vm { store = s }) = record {
        same_frames = refl;
        same_constants = refl;
        extends =
            initialize-Extends i.members (load_object n v vm) o₁ vm.store s
              (or_fail-eq-ok made bad_operand ho);
      } in
      let (kept, same_pc) = keep_object-Grows v o₁ vm (record vm { store = s }) grown in
      let same : keep_object n v o₁ (record vm { store = s }) ≡ vm' = cc h₃ in
      (subst (Grows vm) same kept, sym (ap (λ x. x.pc) same) ∙ same_pc)

  module _ (callee id : ℕ) (o : Object) (f : Function) (ir : Ir) (vm vm' : Vm) where
    call_member-not_static : call_member n callee o id f ir vm ≡ ok vm' → f.is_static ≡ false
    unfolding call_member
    call_member-not_static h = elim (Bool-cases f.is_static) [
      | inl static ↦ absurd (ground (arith, static, h))
      | inr other ↦ other
    ]

    call_member-enters :
        f.is_internal ≡ false
        → call_member n callee o id f ir vm ≡ ok vm'
        → (outer : Option ℕ) × (enter_function n id f outer ir vm ≡ ok vm')
    unfolding call_member
    call_member-enters user h = elim (Option-cases f.context) [
      | inl plain ↦ (none, ground (arith, user, plain, call_member-not_static h, h))
      | inr (t, method) ↦ (o.environment, ground (arith, user, method, call_member-not_static h, h))
    ]

  enter_function-IsEntered :
      (id p : ℕ) (f : Function) (outer : Option ℕ) (ir : Ir) (before vm vm' : Vm)
      → Grows before vm × (vm.pc ≡ before.pc)
      → get_pointer ir.result before ≡ ok p
      → enter_function n id f outer ir vm ≡ ok vm'
      → IsEntered before id p vm' × (vm'.pc ≡ f.addr)
  unfolding enter_function
  enter_function-IsEntered id p f outer ir before vm vm' (g, pc) result h =
      let (vm₁, hp, h₁) = >>=-eq-ok (prepare_call n id f outer ir vm) _ h in
      let same : record vm₁ { pc = f.addr } ≡ vm' = cc h₁ in
      let entered =
        prepare_call-IsEntered n id p f outer ir vm vm₁
          (get_pointer-Grows ir.result before vm p g result) hp in
      (
        IsEntered-transfer id p vm vm₁ before vm' entered g.same_frames pc
            (sym (ap (λ x. x.call_stack) same)) (sym (ap (λ x. x.store.envs) same)),
        sym (ap (λ x. x.pc) same),
      )

  context_allowed :
      (found : Option MemberData) (m : MemberData) (vm : Vm) (may : Bool) (u : Unit {0})
      → check_context n found vm ≡ ok may
      → fail_if (not may) context_refused ≡ ok u
      → found ≡ some m
      → check_context n (some m) vm ≡ ok true
  context_allowed found m vm true u runs h same = ap (λ x. check_context n x vm) (sym same) ∙ runs
  context_allowed found m vm false u runs h same = cc

  -- A method call that goes through is on a value that is not null, of a member that the object has from
  -- its type, that holds a function which is not static, and that the machine may use there. If the
  -- function is the user's, the call pushes one frame, which returns behind the call and into the cell
  -- that the call's result has in the caller, and goes to the function's address.
  pub exec_mcall-IsMethodCall :
      (ir : Ir) (p : ℕ) (vm vm' : Vm)
      → get_pointer ir.result vm ≡ ok p
      → exec_mcall n ir vm ≡ ok vm'
      → IsMethodCall n ir p vm vm'
  unfolding exec_mcall
  exec_mcall-IsMethodCall ir p vm vm' result h =
      let (callee, h_callee, h₁) = >>=-eq-ok (get_pointer ir.op1 vm) _ h in
      let (c, h_value, h₂) = >>=-eq-ok (cell_at callee vm) _ h₁ in
      let (name, h_name, h₃) = >>=-eq-ok (operand_cell ir.op2 vm) _ h₂ in
      let (u, h_null, h₄) = >>=-eq-ok (fail_if (is_null c.value) null_access) _ h₃ in
      let ((info, o, opened), h_open, h₅) = >>=-eq-ok (open_object n c.value vm) _ h₄ in
      let found = get_member (n.text_of name.value) o.members in
      let (may, h_may, h₆) = >>=-eq-ok (check_context n found opened) _ h₅ in
      let (w, h_refused, h₇) = >>=-eq-ok (fail_if (not may) context_refused) _ h₆ in
      let (id, h_id, h₈) = >>=-eq-ok (function_member found opened) _ h₇ in
      let (f, h_function, h₉) =
        >>=-eq-ok (or_fail (get_elem? opened.functions id) bad_operand) _ h₈ in
      let (m, content, h_member, h_content, h_func) = function_member-eq-ok found opened id h_id in
      record {
        callee = callee;
        value = c;
        name = name;
        info = info;
        object = o;
        opened = opened;
        member = m;
        content = content;
        id = id;
        method = f;
        has_callee = h_callee;
        has_value = h_value;
        has_name = h_name;
        not_null = fail_if-eq-ok (is_null c.value) null_access u h_null;
        opens = h_open;
        is_member = h_member;
        allowed = context_allowed found m opened may w h_may h_refused h_member;
        has_content = h_content;
        is_function = h_func;
        is_method = or_fail-eq-ok (get_elem? opened.functions id) bad_operand h_function;
        not_static = call_member-not_static callee id o f ir opened vm' h₉;
        enters = λ user.
            let (outer, entered) = call_member-enters callee id o f ir opened vm' user h₉ in
            enter_function-IsEntered id p f outer ir vm opened vm'
              (open_object-Grows c.value vm opened info o h_open) result entered;
      }
