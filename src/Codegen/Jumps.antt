-- ===== src/Codegen/Jumps.antt =====
-- core/codegen.cc and core/irbuilder.h: rules for the addresses that code generation writes.
pub mod Stacks
pub mod Expressions
pub mod Statements
pub mod Switches
pub mod Visits
use clever.Prelude.{
  ℕ, zero, suc, ◌+◌, ◌≤◌, ◌≡◌, refl, sym, ap, Option, none, some, List, [], ◌∷◌, ◌++◌, length,
  length-append, length-set, get_elem?, set, arith, All,
}
use mathlib.Core.Path.{subst}
use clever.Ir.{Operand, Ir}
use clever.Codegen.Builder.{
  Const, Builder, M, pure, ◌>>=◌, ◌>>◌, push, get_size, modify, with_op1, with_op2, with_result,
  with_jmp_addr, push_const, get_temp, get_temp_env, set_temp_env, get_new_temp_env, set_function,
  push_brks, push_conts, pop_brks, pop_conts, add_brk, add_cont, first_brk, patch, set_temp_result,
}

-- The first and the second operand of an instruction hold no address above `n`.
abbrev pub IsBounded : ℕ → Ir → Type 0
IsBounded n i = (i.op1.jmp_addr ≤ n) × (i.op2.jmp_addr ≤ n)

-- So do those of all instructions, and no address on the stack of breaks is above `n`.
abbrev pub CodeBounded : ℕ → Builder → Type 0
CodeBounded n b = All (IsBounded n) b.code × All (All (λ a. a ≤ n)) b.brks

abbrev pub size : Builder → ℕ
size b = length b.code

-- An operand that is no address.
abbrev pub IsPlain : Operand → Type 0
IsPlain op = op.jmp_addr ≡ 0

abbrev pub Any {ℓ} : {A : Type ℓ} → A → Type 0
Any a = Unit {0}

-- The run `m` takes no code away; if its code ends at most at `n`, it keeps all addresses up to `n`,
-- given `P`; and what it yields is a `Q`.
pub record Good {A : Type 0} (n : ℕ) (P : Type 0) (Q : A → Type 0) (m : M A) : Type 0 where
  pub grows : (b b' : Builder) (a : A) → m b ≡ some (a, b') → size b ≤ size b'
  pub bounded :
      (b b' : Builder) (a : A)
      → m b ≡ some (a, b')
      → P
      → size b' ≤ n
      → CodeBounded n b
      → CodeBounded n b'
  pub yields : (b b' : Builder) (a : A) → m b ≡ some (a, b') → Q a

pub bind-eq-some :
    {A B : Type 0} (m : M A) (f : A → M B) (b b' : Builder) (v : B)
    → (m >>= f) b ≡ some (v, b')
    → (a : A) × (b₁ : Builder) × (m b ≡ some (a, b₁)) × (f a b₁ ≡ some (v, b'))
bind-eq-some {A} {B} m f b b' v h = by_run (m b) refl
  where
    by_run :
        (o : Option (A × Builder))
        → m b ≡ o
        → (a : A) × (b₁ : Builder) × (m b ≡ some (a, b₁)) × (f a b₁ ≡ some (v, b'))
    by_run none e = ground (arith, e)
    by_run (some (a, b₁)) e = (a, b₁, e, ground (arith, e))

module _ {n : ℕ} {P : Type 0} where
  pub bind-Good :
      {A B : Type 0} {Q : A → Type 0} {R : B → Type 0} {m : M A} {f : A → M B}
      → Good n P Q m
      → ((a : A) → Q a → Good n P R (f a))
      → Good n P R (m >>= f)
  bind-Good {m} {f} g k = record {
    grows = λ b b' v h.
        let (a, b₁, e, e') = bind-eq-some m f b b' v h in
        omega (arith, g.grows b b₁ a e, (k a (g.yields b b₁ a e)).grows b₁ b' v e');
    bounded = λ b b' v h p le c.
        let (a, b₁, e, e') = bind-eq-some m f b b' v h in
        let next = k a (g.yields b b₁ a e) in
        next.bounded b₁ b' v e' p le
          (g.bounded b b₁ a e p (omega (arith, next.grows b₁ b' v e')) c);
    yields = λ b b' v h.
        let (a, b₁, e, e') = bind-eq-some m f b b' v h in
        (k a (g.yields b b₁ a e)).yields b₁ b' v e';
  }

-- A run that adds at least `k` instructions.
abbrev pub Grows : {A : Type 0} → ℕ → M A → Type 0
Grows {A} k m = (b b' : Builder) (a : A) → m b ≡ some (a, b') → size b + k ≤ size b'

pub bind-Grows :
    {A B : Type 0} {m : M A} {f : A → M B} (j k : ℕ)
    → Grows j m
    → ((a : A) → Grows k (f a))
    → Grows (j + k) (m >>= f)
bind-Grows {m} {f} j k g h b b' v e =
    let (a, b₁, e₁, e₂) = bind-eq-some m f b b' v e in omega (arith, g b b₁ a e₁, h a b₁ b' v e₂)

pub later-Grows :
    {A B : Type 0} {n : ℕ} {P : Type 0} {Q : A → Type 0} {m : M A} {f : A → M B} (k : ℕ)
    → Good n P Q m
    → ((a : A) → Grows k (f a))
    → Grows k (m >>= f)
later-Grows {m} {f} k g h b b' v e =
    let (a, b₁, e₁, e₂) = bind-eq-some m f b b' v e in
    omega (arith, g.grows b b₁ a e₁, h a b₁ b' v e₂)

pub first-Grows :
    {A B : Type 0} {n : ℕ} {P : Type 0} {Q : B → Type 0} {m : M A} {f : A → M B} (k : ℕ)
    → Grows k m
    → ((a : A) → Good n P Q (f a))
    → Grows k (m >>= f)
first-Grows {m} {f} k g h b b' v e =
    let (a, b₁, e₁, e₂) = bind-eq-some m f b b' v e in
    omega (arith, g b b₁ a e₁, (h a).grows b₁ b' v e₂)

-- A run that leaves the code alone.
pub kept-Good :
    {A : Type 0} {n : ℕ} {P : Type 0} {Q : A → Type 0} {m : M A}
    → ((b b' : Builder) (a : A)
        → m b ≡ some (a, b')
        → (b'.code ≡ b.code) × (b'.brks ≡ b.brks) × Q a)
    → Good n P Q m
kept-Good {n} keeps = record {
  grows = λ b b' a h. omega (arith, ap length (keeps b b' a h).0);
  bounded = λ b b' a h p le c. (
    subst (All (IsBounded n)) (sym (keeps b b' a h).0) c.0,
    subst (All (All (λ k. k ≤ n))) (sym (keeps b b' a h).1) c.1,
  );
  yields = λ b b' a h. (keeps b b' a h).2;
}

pub pure-Good :
    {A : Type 0} {n : ℕ} {P : Type 0} {Q : A → Type 0} (a : A) → Q a → Good n P Q (pure a)
pure-Good {Q} a q = kept-Good λ b b' v h. (ground arith, ground arith, subst Q (cc) q)

pub weaken-Good :
    {A : Type 0} {n : ℕ} {P R : Type 0} {Q : A → Type 0} {m : M A}
    → (P → R)
    → Good n R Q m
    → Good n P Q m
weaken-Good k g = record {
  grows = g.grows;
  bounded = λ b b' a h p. g.bounded b b' a h (k p);
  yields = g.yields;
}

All-append :
    (n : ℕ) (xs : List Ir) (i : Ir)
    → All (IsBounded n) xs
    → IsBounded n i
    → All (IsBounded n) (xs ++ i ∷ [])
All-append n [] i h hi = (hi, tt)
All-append n (x ∷ xs) i h hi = (h.0, All-append n xs i h.1 hi)

All-set :
    (n : ℕ) (xs : List Ir) (k : ℕ) (f : Ir → Ir) (i : Ir)
    → get_elem? xs k ≡ some i
    → ((j : Ir) → IsBounded n j → IsBounded n (f j))
    → All (IsBounded n) xs
    → All (IsBounded n) (set xs k (f i))
All-set n [] k f i e keeps h = tt
All-set n (x ∷ xs) zero f i e keeps h = (subst (λ y. IsBounded n (f y)) (cc e) (keeps x h.0), h.1)
All-set n (x ∷ xs) (suc k) f i e keeps h = (h.0, All-set n xs k f i e keeps h.1)

-- The code and the stack of breaks after a push.
push-eq-some :
    (i : Ir) (b b' : Builder) (a : ℕ)
    → push i b ≡ some (a, b')
    → (b'.code ≡ b.code ++ i ∷ []) × (b'.brks ≡ b.brks)
unfolding push
push-eq-some i b b' a h = (ground arith, ground arith)

-- The code and the stack of breaks after a change.
modify-eq-some :
    (k : ℕ) (f : Ir → Ir) (b b' : Builder) (a : Unit {0})
    → modify k f b ≡ some (a, b')
    → (i : Ir) × (get_elem? b.code k ≡ some i) × (b'.code ≡ set b.code k (f i)) × (b'.brks ≡ b.brks)
unfolding modify
modify-eq-some k f b b' a h = by_instr (get_elem? b.code k) refl
  where
    by_instr :
        (o : Option Ir)
        → get_elem? b.code k ≡ o
        → (i : Ir) × (get_elem? b.code k ≡ some i)
          × (b'.code ≡ set b.code k (f i))
          × (b'.brks ≡ b.brks)
    by_instr none e = ground (arith, e)
    by_instr (some i) e = (i, e, ground (arith, e), ground (arith, e))

pub push-Grows : (i : Ir) → Grows 1 (push i)
push-Grows i b b' a h =
    omega (arith, ap length (push-eq-some i b b' a h).0, length-append b.code (i ∷ []))

module _ {n : ℕ} {P : Type 0} where
  pub push-Good : (i : Ir) → (P → IsBounded n i) → Good n P Any (push i)
  push-Good i hi = record {
    grows = λ b b' a h.
        omega (arith, ap length (push-eq-some i b b' a h).0, length-append b.code (i ∷ []));
    bounded = λ b b' a h p le c. (
      subst (All (IsBounded n)) (sym (push-eq-some i b b' a h).0)
          (All-append n b.code i c.0 (hi p)),
      subst (All (All (λ k. k ≤ n))) (sym (push-eq-some i b b' a h).1) c.1,
    );
    yields = λ b b' a h. tt;
  }

  pub modify-Good :
      (k : ℕ) (f : Ir → Ir)
      → (P → (j : Ir) → IsBounded n j → IsBounded n (f j))
      → Good n P Any (modify k f)
  modify-Good k f keeps = record {
    grows = λ b b' a h.
        let (i, e, code, brks) = modify-eq-some k f b b' a h in
        omega (arith, ap length code, length-set b.code k (f i));
    bounded = λ b b' a h p le c.
        let (i, e, code, brks) = modify-eq-some k f b b' a h in
        (
          subst (All (IsBounded n)) (sym code) (All-set n b.code k f i e (keeps p) c.0),
          subst (All (All (λ j. j ≤ n))) (sym brks) c.1,
        );
    yields = λ b b' a h. tt;
  }

  -- A size that was read is in bounds, since the code never shrinks.
  pub size-Good :
      {A : Type 0} {Q : A → Type 0} {f : ℕ → M A}
      → ((s : ℕ) → Good n (P × (s ≤ n)) Q (f s))
      → Good n P Q (get_size >>= f)
  unfolding get_size
  size-Good g = record {
    grows = λ b b' a h. (g (size b)).grows b b' a h;
    bounded = λ b b' a h p le c.
        (g (size b)).bounded b b' a h (p, omega (arith, (g (size b)).grows b b' a h)) le c;
    yields = λ b b' a h. (g (size b)).yields b b' a h;
  }

  -- So is a size that is read, plus the number of instructions that are still to come.
  pub ahead-Good :
      {A : Type 0} {Q : A → Type 0} {f : ℕ → M A} (k : ℕ)
      → ((s : ℕ) → Grows k (f s))
      → ((s : ℕ) → Good n (P × (s + k ≤ n)) Q (f s))
      → Good n P Q (get_size >>= f)
  unfolding get_size
  ahead-Good k grown g = record {
    grows = λ b b' a h. (g (size b)).grows b b' a h;
    bounded = λ b b' a h p le c.
        (g (size b)).bounded b b' a h (p, omega (arith, grown (size b) b b' a h)) le c;
    yields = λ b b' a h. (g (size b)).yields b b' a h;
  }

  pub push_const-Good : (c : Const) → Good n P Any (push_const c)
  unfolding push_const
  push_const-Good c = kept-Good λ b b' a h. (ground arith, ground arith, tt)

  pub get_temp-Good : Good n P Any get_temp
  unfolding get_temp
  get_temp-Good = kept-Good λ b b' a h. (ground arith, ground arith, tt)

  pub get_temp_env-Good : Good n P Any get_temp_env
  unfolding get_temp_env
  get_temp_env-Good = kept-Good λ b b' a h. (ground arith, ground arith, tt)

  pub set_temp_env-Good : (e : ℕ) → Good n P Any (set_temp_env e)
  unfolding set_temp_env
  set_temp_env-Good e = kept-Good λ b b' a h. (ground arith, ground arith, tt)

  pub get_new_temp_env-Good : Good n P Any get_new_temp_env
  unfolding get_new_temp_env
  get_new_temp_env-Good = kept-Good λ b b' a h. (ground arith, ground arith, tt)

  pub set_function-Good : (f addr env : ℕ) → Good n P Any (set_function f addr env)
  unfolding set_function
  set_function-Good f addr env = kept-Good λ b b' a h. (ground arith, ground arith, tt)

  pub push_conts-Good : Good n P Any push_conts
  unfolding push_conts
  push_conts-Good = kept-Good λ b b' a h. (ground arith, ground arith, tt)

  pub pop_conts-Good : Good n P Any pop_conts
  unfolding pop_conts
  pop_conts-Good = kept-Good λ b b' a h. (ground arith, ground arith, tt)

  pub add_cont-Good : (k : ℕ) → Good n P Any (add_cont k)
  unfolding add_cont
  add_cont-Good k = kept-Good λ b b' a h. (ground arith, ground arith, tt)

  pub set_temp_result-Good : (i : ℕ) → Good n P IsPlain (set_temp_result i)
  unfolding set_temp_result
  set_temp_result-Good i =
      bind-Good get_temp-Good λ t _. bind-Good (modify-Good i _ λ p j h. h) λ _ _. pure-Good _ refl
