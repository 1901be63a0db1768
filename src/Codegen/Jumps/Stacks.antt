-- ===== src/Codegen/Jumps/Stacks.antt =====
-- core/codegen.cc: rules for the stacks of loops.
use clever.Prelude.{
  ℕ, ◌≤◌, ◌≡◌, refl, sym, ap, length, Option, none, some, List, [], ◌∷◌, ◌++◌, arith, All,
}
use mathlib.Core.Path.{subst}
use clever.Ir.{jump_to}
use clever.Codegen.Builder.{
  Builder, M, ◌>>=◌, with_op1, with_op2, with_jmp_addr, push_brks, pop_brks, add_brk, first_brk,
  patch,
}
use clever.Codegen.Jumps.{
  IsBounded, CodeBounded, size, Any, Good, bind-eq-some, bind-Good, modify-Good, pure-Good,
  push_conts-Good,
}
use clever.Codegen.Statements.{enter_loop, land_at, land_all, jump_from}

All-le-append :
    (n : ℕ) (l : List ℕ) (k : ℕ) → All (λ a. a ≤ n) l → k ≤ n → All (λ a. a ≤ n) (l ++ k ∷ [])
All-le-append n [] k h hk = (hk, tt)
All-le-append n (x ∷ l) k h hk = (h.0, All-le-append n l k h.1 hk)

-- What the operations on the stack of breaks find and leave.
pop_brks-eq-some :
    (l : List (List ℕ)) (b b' : Builder) (a : List ℕ)
    → b.brks ≡ l
    → pop_brks b ≡ some (a, b')
    → (b'.code ≡ b.code) × (l ≡ a ∷ b'.brks)
unfolding pop_brks
pop_brks-eq-some [] b b' a e h = absurd (ground (arith, e))
pop_brks-eq-some (top ∷ rest) b b' a e h = (ground (arith, e), ground (arith, e))

add_brk-eq-some :
    (k : ℕ) (l : List (List ℕ)) (b b' : Builder) (a : Unit {0})
    → b.brks ≡ l
    → add_brk k b ≡ some (a, b')
    → (top : List ℕ) × (rest : List (List ℕ)) × (b.brks ≡ top ∷ rest)
      × (b'.code ≡ b.code)
      × (b'.brks ≡ (top ++ k ∷ []) ∷ rest)
unfolding add_brk
add_brk-eq-some k [] b b' a e h = absurd (ground (arith, e))
add_brk-eq-some k (top ∷ rest) b b' a e h = (top, rest, e, ground (arith, e), ground (arith, e))

first_brk-eq-some :
    (stack : List (List ℕ)) (b b' : Builder) (a : ℕ)
    → b.brks ≡ stack
    → first_brk b ≡ some (a, b')
    → (l : List ℕ) × (rest : List (List ℕ)) × (b.brks ≡ (a ∷ l) ∷ rest) × (b ≡ b')
unfolding first_brk
first_brk-eq-some [] b b' a e h = absurd (ground (arith, e))
first_brk-eq-some ([] ∷ rest) b b' a e h = absurd (ground (arith, e))
first_brk-eq-some ((k ∷ l) ∷ rest) b b' a e h = (l, rest, ground (arith, e), ground (arith, e))

module _ {n : ℕ} {P : Type 0} where
  -- A run that leaves the code alone and keeps the addresses of breaks in bounds.
  stack-Good :
      {A : Type 0} {m : M A}
      → ((b b' : Builder) (a : A)
          → m b ≡ some (a, b')
          → (b'.code ≡ b.code)
            × (P → All (All (λ k. k ≤ n)) b.brks → All (All (λ k. k ≤ n)) b'.brks))
      → Good n P Any m
  stack-Good keeps = record {
    grows = λ b b' a h. omega (arith, ap length (keeps b b' a h).0);
    bounded = λ b b' a h p le c.
        (subst (All (IsBounded n)) (sym (keeps b b' a h).0) c.0, (keeps b b' a h).1 p c.1);
    yields = λ b b' a h. tt;
  }

  pub push_brks-Good : (l : List ℕ) → (P → All (λ k. k ≤ n) l) → Good n P Any (push_brks l)
  unfolding push_brks
  push_brks-Good l hl = stack-Good λ b b' a h. (
    ground arith,
    λ p c. subst (All (All (λ k. k ≤ n))) {x = l ∷ b.brks} (ground arith) (hl p, c),
  )

  pub pop_brks-Good : Good n P Any pop_brks
  pop_brks-Good = stack-Good λ b b' a h.
      let (code, brks) = pop_brks-eq-some b.brks b b' a refl h in
      (code, λ p c. (subst (All (All (λ k. k ≤ n))) brks c).1)

  pub add_brk-Good : (k : ℕ) → (P → k ≤ n) → Good n P Any (add_brk k)
  add_brk-Good k hk = stack-Good λ b b' a h.
      let (top, rest, before, code, after) = add_brk-eq-some k b.brks b b' a refl h in
      (
        code,
        λ p c.
            let (low, lows) = subst (All (All (λ j. j ≤ n))) before c in
            subst (All (All (λ j. j ≤ n))) (sym after) (All-le-append n top k low (hk p), lows),
      )

  -- The first address of the stack is in bounds.
  pub first_brk-Good :
      {A : Type 0} {Q : A → Type 0} {f : ℕ → M A}
      → ((s : ℕ) → Good n (P × (s ≤ n)) Q (f s))
      → Good n P Q (first_brk >>= f)
  first_brk-Good {f} g = record {
    grows = λ b b' v h.
        let (s, b₁, e, e') = bind-eq-some first_brk f b b' v h in
        let (l, rest, before, same) = first_brk-eq-some b.brks b b₁ s refl e in
        omega (arith, (g s).grows b₁ b' v e', ap size same);
    bounded = λ b b' v h p le c.
        let (s, b₁, e, e') = bind-eq-some first_brk f b b' v h in
        let (l, rest, before, same) = first_brk-eq-some b.brks b b₁ s refl e in
        (g s).bounded b₁ b' v e' (p, (subst (All (All (λ j. j ≤ n))) before c.1).0.0) le
          (subst (CodeBounded n) same c);
    yields = λ b b' v h.
        let (s, b₁, e, e') = bind-eq-some first_brk f b b' v h in (g s).yields b₁ b' v e';
  }

  pub patch-Good : (l : List ℕ) (addr : ℕ) → (P → addr ≤ n) → Good n P Any (patch l addr)
  unfolding patch
  patch-Good [] addr ha = pure-Good tt tt
  patch-Good (i ∷ l) addr ha =
      bind-Good (modify-Good i (with_jmp_addr addr) λ p j h. (ha p, h.1))
        λ _ _. patch-Good l addr ha

  pub land_all-Good : (l : List ℕ) (addr : ℕ) → (P → addr ≤ n) → Good n P Any (land_all l addr)
  unfolding land_all
  land_all-Good [] addr ha = pure-Good tt tt
  land_all-Good (i ∷ l) addr ha =
      bind-Good (modify-Good i (with_op1 (jump_to addr)) λ p j h. (ha p, h.1))
        λ _ _. land_all-Good l addr ha

  pub land_at-Good : (i : Option ℕ) (addr : ℕ) → (P → addr ≤ n) → Good n P Any (land_at i addr)
  unfolding land_at
  land_at-Good none addr ha = pure-Good tt tt
  land_at-Good (some i) addr ha = modify-Good i (with_op2 (jump_to addr)) λ p j h. (h.0, ha p)

  pub jump_from-Good : (i : Option ℕ) (addr : ℕ) → (P → addr ≤ n) → Good n P Any (jump_from i addr)
  unfolding jump_from
  jump_from-Good none addr ha = pure-Good tt tt
  jump_from-Good (some i) addr ha = modify-Good i (with_op1 (jump_to addr)) λ p j h. (ha p, h.1)

  pub enter_loop-Good : (start : ℕ) → (P → start ≤ n) → Good n P Any (enter_loop start)
  unfolding enter_loop
  enter_loop-Good start hs =
      bind-Good push_conts-Good λ _ _. push_brks-Good (start ∷ []) λ p. (hs p, tt)
