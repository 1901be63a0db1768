-- ===== src/Codegen/Jumps/Switches.antt =====
-- core/codegen.cc: the visits of switches, functions and iterations keep the addresses in bounds.
use clever.Prelude.{ℕ, ◌≤◌, ◌≡◌, refl, Bool, true, false, none, some, [], arith, ◌==◌}
use mathlib.Core.Path.{subst}
use clever.Ir
use clever.Ir.{ValueOffset, fetch_var, fetch_tmp, Operand, no_operand, fetch, jump_to, Ir, ir}
use clever.Codegen.Builder.{
  Builder, M, ◌>>=◌, ◌>>◌, pure, fails, push, get_size, modify, with_op1, with_op2,
}
use clever.Codegen.Expressions.{no_value}
use clever.Codegen.Statements.{
  IteratorNames, SwitchState, jump_from, visit_function_decl, call_iterator, visit_for_each,
  visit_test, visit_default, visit_switch,
}
use clever.Codegen.Jumps.{
  IsPlain, Any, Good, size, bind-eq-some, bind-Good, pure-Good, kept-Good, weaken-Good, modify-Good,
  size-Good, get_temp-Good, get_temp_env-Good, set_temp_env-Good, get_new_temp_env-Good,
  set_function-Good,
}
use clever.Codegen.Jumps.Stacks.{
  push_brks-Good, pop_brks-Good, patch-Good, jump_from-Good, enter_loop-Good,
}
use clever.Codegen.Jumps.Expressions.{free-Good, Sound, plain-Good}
use clever.Codegen.Jumps.Statements.{
  Fine, bare-Good, jmp-Good, op1-Good, op2-Good, addr-Good, result-Good, call_iterator-Good,
  push_bind-Good, land_default-Good,
}

-- A run that yields an `S` if its code ends in bounds.
pub record Sure {A : Type 0} (n : ℕ) (P : Type 0) (S : A → Type 0) (m : M A) : Type 0 where
  pub good : Good n P Any m
  pub ensures : (b b' : Builder) (a : A) → m b ≡ some (a, b') → P → size b' ≤ n → S a

pub weaken-Sure :
    {A : Type 0} {n : ℕ} {P R : Type 0} {S : A → Type 0} {m : M A}
    → (P → R)
    → Sure n R S m
    → Sure n P S m
weaken-Sure k g = record {
  good = weaken-Good k g.good;
  ensures = λ b b' a h p. g.ensures b b' a h (k p);
}

module _ {n : ℕ} {P : Type 0} where
  bind-Sure :
      {A B : Type 0} {Q : A → Type 0} {S : B → Type 0} {m : M A} {f : A → M B}
      → Good n P Q m
      → ((a : A) → Q a → Sure n P S (f a))
      → Sure n P S (m >>= f)
  bind-Sure {m} {f} g k = record {
    good = bind-Good g λ a q. (k a q).good;
    ensures = λ b b' v h p le.
        let (a, b₁, e, e') = bind-eq-some m f b b' v h in
        (k a (g.yields b b₁ a e)).ensures b₁ b' v e' p le;
  }

  size-Sure :
      {A : Type 0} {S : A → Type 0} {f : ℕ → M A}
      → ((s : ℕ) → Sure n (P × (s ≤ n)) S (f s))
      → Sure n P S (get_size >>= f)
  unfolding get_size
  size-Sure k = record {
    good = size-Good λ s. (k s).good;
    ensures = λ b b' v h p le.
        let next = k (size b) in
        next.ensures b b' v h (p, omega (arith, next.good.grows b b' v h)) le;
  }

  pub pure-Sure : {A : Type 0} {S : A → Type 0} (a : A) → (P → S a) → Sure n P S (pure a)
  pure-Sure {S} a hs = record {
    good = pure-Good a tt;
    ensures = λ b b' v h p le. subst S (cc) (hs p);
  }

  fails-Sure : {A : Type 0} {S : A → Type 0} → Sure n P S fails
  fails-Sure = record {
    good = kept-Good λ b b' v h. absurd (cc);
    ensures = λ b b' v h. absurd (cc);
  }

  Good-Sure : {A : Type 0} {m : M A} → Good n P Any m → Sure n P Any m
  Good-Sure g = record { good = g; ensures = λ b b' a h p le. tt }

  -- What the first run ensures is a condition of the second.
  pub chain-Sure :
      {A B : Type 0} {S : A → Type 0} {T : B → Type 0} {m : M A} {f : A → M B}
      → Sure n P S m
      → ((a : A) → Sure n (P × S a) T (f a))
      → Sure n P T (m >>= f)
  chain-Sure {m} {f} g k = record {
    good = record {
      grows = λ b b' v h.
          let (a, b₁, e, e') = bind-eq-some m f b b' v h in
          omega (arith, g.good.grows b b₁ a e, (k a).good.grows b₁ b' v e');
      bounded = λ b b' v h p le c.
          let (a, b₁, e, e') = bind-eq-some m f b b' v h in
          let le₁ : size b₁ ≤ n = omega (arith, (k a).good.grows b₁ b' v e') in
          (k a).good.bounded b₁ b' v e' (p, g.ensures b b₁ a e p le₁) le
            (g.good.bounded b b₁ a e p le₁ c);
      yields = λ b b' v h. tt;
    };
    ensures = λ b b' v h p le.
        let (a, b₁, e, e') = bind-eq-some m f b b' v h in
        (k a).ensures b₁ b' v e'
          (p, g.ensures b b₁ a e p (omega (arith, (k a).good.grows b₁ b' v e'))) le;
  }

-- The address of the default, if one was visited, is in bounds.
abbrev pub Placed : ℕ → SwitchState → Type 0
Placed n st = st.default_addr ≤ n

-- The visits of the cases, for any operand and any variables of the loop.
abbrev pub Switched : ℕ → (Operand → SwitchState → M SwitchState) → Type 0
Switched n cases =
    (e : Operand) (st : SwitchState) → IsPlain e → Sure n (Placed n st) (Placed n) (cases e st)

module _ {n : ℕ} where
  pub visit_test-Sure :
      {P : Type 0} (expr : Operand) (test : M Operand) (body : M (Unit {0})) (st : SwitchState)
      → IsPlain expr
      → Sound n test
      → Fine n body
      → (P → Placed n st)
      → Sure n P (Placed n) (visit_test expr test body st)
  unfolding visit_test
  visit_test-Sure expr test body st he ht hb hs = bind-Sure (free-Good ht) λ t pt.
      bind-Sure (plain-Good Ir.op_equal expr t he pt) λ kase _. bind-Sure get_temp-Good λ tmp _.
        bind-Sure (result-Good kase (fetch fetch_tmp tmp)) λ _ _.
          bind-Sure (plain-Good Ir.op_jmpz (fetch fetch_tmp tmp) no_operand refl refl) λ jmpz _.
            size-Sure λ s. bind-Sure (jump_from-Good st.last_jmp s λ p. omega (arith, p.1)) λ _ _.
              bind-Sure (free-Good hb) λ _ _. bind-Sure (bare-Good Ir.op_jmp) λ jmp _.
                size-Sure λ behind. bind-Sure (op2-Good jmpz behind λ p. omega (arith, p.1)) λ _ _.
                  pure-Sure (record st { last_jmp = some jmp; last_jmpz = some jmpz }) λ p. hs p.0.0

  pub visit_default-Sure :
      {P : Type 0} (ncases : ℕ) (body : M (Unit {0})) (st : SwitchState)
      → Fine n body
      → (P → Placed n st)
      → Sure n P (Placed n) (visit_default ncases body st)
  unfolding visit_default
  visit_default-Sure {P} ncases body st hb hs = by_tests (st.default_addr == 0) (ncases == 1)
    where
      placed : Sure n P (Placed n) (do
        jmp ← push (ir Ir.op_jmp no_operand no_operand)
        default_addr ← get_size
        jump_from st.last_jmp default_addr
        body
        last ← push (ir Ir.op_jmp no_operand no_operand)
        s ← get_size
        modify jmp (with_op1 (jump_to s))
        pure (record st { default_addr = default_addr; last_jmp = some last }))
      placed = bind-Sure (bare-Good Ir.op_jmp) λ jmp _. size-Sure λ default_addr.
          bind-Sure (jump_from-Good st.last_jmp default_addr λ p. omega (arith, p.1)) λ _ _.
            bind-Sure (free-Good hb) λ _ _. bind-Sure (bare-Good Ir.op_jmp) λ last _. size-Sure λ s.
              bind-Sure (op1-Good jmp s λ p. omega (arith, p.1)) λ _ _.
                pure-Sure (record st { default_addr = default_addr; last_jmp = some last })
                  λ p. omega (arith, p.0.1)

      by_tests :
          (b c : Bool)
          → Sure n P (Placed n) (elim b [
            | false ↦ fails
            | true ↦ elim c [
              | true ↦ do body; pure st
              | false ↦ do
                jmp ← push (ir Ir.op_jmp no_operand no_operand)
                default_addr ← get_size
                jump_from st.last_jmp default_addr
                body
                last ← push (ir Ir.op_jmp no_operand no_operand)
                s ← get_size
                modify jmp (with_op1 (jump_to s))
                pure (record st { default_addr = default_addr; last_jmp = some last })
            ]
          ])
      by_tests false c = fails-Sure
      by_tests true true = bind-Sure (free-Good hb) λ _ _. pure-Sure st hs
      by_tests true false = placed

  pub visit_switch-Fine :
      (expr : M Operand) (cases : Operand → SwitchState → M SwitchState)
      → Sound n expr
      → Switched n cases
      → Fine n (visit_switch expr cases)
  unfolding visit_switch
  visit_switch-Fine expr cases he hc = bind-Good he λ e pe.
      bind-Good (push_brks-Good [] λ p. tt) λ _ _.
        (chain-Sure
          (weaken-Sure (λ p. omega arith)
            (hc e (record { default_addr = 0; last_jmp = none; last_jmpz = none }) pe))
          λ st. size-Sure λ s.
            bind-Sure (jump_from-Good st.last_jmp s λ p. omega (arith, p.1)) λ _ _.
              bind-Sure (land_default-Good st λ p. p.0.1) λ _ _.
                bind-Sure pop_brks-Good
                  λ brks _. Good-Sure (patch-Good brks s λ p. omega (arith, p.1))).good

  pub visit_function_decl-Sound :
      (f : ℕ) (anonymous is_method : Bool) (target : ValueOffset) (args vararg body : M (Unit {0}))
      → Fine n args
      → Fine n vararg
      → Fine n body
      → Sound n (visit_function_decl f anonymous is_method target args vararg body)
  unfolding visit_function_decl
  visit_function_decl-Sound f anonymous is_method target args vararg body ha hv hb =
      bind-Good (push_bind-Good anonymous) λ bind _.
        bind-Good (jmp-Good 0 λ p. omega arith) λ start _. size-Good λ addr.
          bind-Good get_temp_env-Good λ save _. bind-Good get_new_temp_env-Good λ temp _.
            bind-Good (set_function-Good f addr temp) λ _ _. bind-Good (free-Good ha) λ _ _.
              bind-Good (free-Good hv) λ _ _. bind-Good (free-Good hb) λ _ _.
                bind-Good (bare-Good Ir.op_leave) λ _ _. size-Good λ s.
                  bind-Good (addr-Good start s λ p. omega (arith, p.1)) λ _ _.
                    bind-Good (bound bind is_method anonymous)
                      λ op pop. bind-Good (set_temp_env-Good save) λ _ _. pure-Good op pop
    where
      bound :
          {P : Type 0} (bind : ℕ) (b c : Bool)
          → Good n P IsPlain (elim b [
            | true ↦ pure no_value
            | false ↦ elim c [
              | true ↦ do
                modify bind (with_op1 (fetch fetch_var target))
                pure (fetch fetch_var target)
              | false ↦ pure no_value
            ]
          ])
      bound bind true c = pure-Good no_value refl
      bound bind false false = pure-Good no_value refl
      bound bind false true =
          bind-Good
            (modify-Good bind (with_op1 (fetch fetch_var target)) λ p j h. (omega arith, h.1))
            λ _ _. pure-Good (fetch fetch_var target) refl

  pub visit_for_each-Fine :
      (names : IteratorNames) (target : ValueOffset) (var_decl expr : M Operand)
      (body : M (Unit {0}))
      → Sound n var_decl
      → Sound n expr
      → Fine n body
      → Fine n (visit_for_each names target var_decl expr body)
  unfolding visit_for_each
  visit_for_each-Fine names target var_decl expr body hv he hb = bind-Good hv λ _ _.
      bind-Good he λ e pe. bind-Good (call_iterator-Good e names.begin pe) λ begin pb.
        bind-Good (call_iterator-Good e names.end_name pe) λ end_op pn. size-Good λ start.
          bind-Good (plain-Good Ir.op_nequal end_op begin pn pb) λ cmp _.
            bind-Good get_temp-Good λ t _. bind-Good (result-Good cmp (fetch fetch_tmp t)) λ _ _.
              bind-Good (plain-Good Ir.op_jmpz (fetch fetch_tmp t) no_operand refl refl) λ jmpz _.
                bind-Good (enter_loop-Good start λ p. omega (arith, p.1))
                  λ _ _. iterated start begin pb jmpz
    where
      iterated :
          {P : Type 0} (start : ℕ) (begin : Operand)
          → IsPlain begin
          → (jmpz : ℕ)
          → Good n (P × (start ≤ n)) Any (do
            got ← call_iterator begin names.get
            _ ← push (ir Ir.op_assign (fetch fetch_var target) got)
            body
            next ← call_iterator begin names.next
            _ ← push (ir Ir.op_assign begin next)
            _ ← push (ir Ir.op_jmp (jump_to start) no_operand)
            s ← get_size
            modify jmpz (with_op2 (jump_to s)))
      iterated start begin pb jmpz = bind-Good (call_iterator-Good begin names.get pb) λ got pg.
          bind-Good (plain-Good Ir.op_assign (fetch fetch_var target) got refl pg) λ _ _.
            bind-Good (free-Good hb) λ _ _.
              bind-Good (call_iterator-Good begin names.next pb) λ next pn.
                bind-Good (plain-Good Ir.op_assign begin next pb pn) λ _ _.
                  bind-Good (jmp-Good start λ p. omega (arith, p.1))
                    λ _ _. size-Good λ s. op2-Good jmpz s λ p. omega (arith, p.1)
