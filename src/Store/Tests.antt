-- ===== src/Store/Tests.antt =====
-- environment.cc on a small store: a global environment with its temporaries.
use clever.Prelude.{◌≡◌, refl, true, false, none, some, [], ◌∷◌, inr, arith}
use clever.Store.{null, int, Env, Store, new_env, activate}
use clever.Store.Activation.{IsFrame, Activated, activate-Activated}

abbrev globals : Env
globals = record (new_env none) { temp = some 1; values = 0 ∷ 1 ∷ [] }

abbrev temporaries : Env
temporaries = record (new_env none) { values = 2 ∷ [] }

abbrev store : Store
store = record {
  cells =
      record { value = int 7; is_const = true }
      ∷ record { value = null; is_const = false }
      ∷ record { value = int 9; is_const = false }
      ∷ [];
  envs = globals ∷ temporaries ∷ [];
}

abbrev globals_frame : IsFrame store globals
globals_frame = record {
  in_store = (omega arith, (omega arith, tt));
  temp_flat = inr (1, temporaries, refl, refl, refl, (omega arith, tt));
}

activate-globals :
    activate 0 (some 1) store
    ≡ some (
      3,
      record {
        cells =
            record { value = int 7; is_const = true }
            ∷ record { value = null; is_const = false }
            ∷ record { value = int 9; is_const = false }
            ∷ record { value = int 9; is_const = false }
            ∷ record { value = int 7; is_const = true }
            ∷ record { value = null; is_const = false }
            ∷ [];
        envs =
            globals
            ∷ temporaries
            ∷ record temporaries { values = 3 ∷ [] }
            ∷ record (new_env (some 1)) { temp = some 2; values = 4 ∷ 5 ∷ [] }
            ∷ [];
      },
    )
unfolding activate
activate-globals = refl

activate-Activated_example : Activated store 0 (some 1) globals
activate-Activated_example = activate-Activated store 0 (some 1) globals refl globals_frame
