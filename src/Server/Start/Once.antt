-- ===== src/Server/Start/Once.antt =====
-- The static memory is written once.
use saphir.Base.{ℕ, ◌≡◌, refl, Option, none, some, List, [], ◌∷◌, Result, ok, err}
use saphir.Errors.{SaphirError, stack_already_initialized}
use saphir.Server.Start.{Statics, write_into_static}

-- What is to be written: a stack, the value of the header, and the limit of the bytes of a body
abbrev pub Write : Type 0 → Type 0 → Type 0
Write S Header = S × Header × Option ℕ

module _ {S Header X : Type 0} where
  -- The answers to some writes, one after another, and the memory after them
  abbrev pub write_all :
      List (Write S Header) → Statics S Header → List (Result S (SaphirError X)) × Statics S Header
  write_all [] st = ([], st)
  write_all ((stack, value, limit) ∷ writes) st =
      let (answer, st') = write_into_static stack value limit st in
      let (answers, st'') = write_all writes st' in (answer ∷ answers, st'')

  abbrev pub refused : List (Write S Header) → List (Result S (SaphirError X))
  refused [] = []
  refused (w ∷ writes) = err stack_already_initialized ∷ refused writes

  write_all-taken :
      (writes : List (Write S Header)) (stack : S) (value : Option Header) (limit : Option ℕ)
      → write_all writes (record { stack = some stack; server_name = value; body_limit = limit })
        ≡ (refused writes, record { stack = some stack; server_name = value; body_limit = limit })
  unfolding write_into_static
  write_all-taken [] stack value limit = refl
  write_all-taken (w ∷ writes) stack value limit = rw (write_all-taken writes stack value limit)

  -- Of all writes into fresh memory the first one succeeds and stays, and every later one is refused.
  pub write_all-first :
      (stack : S) (value : Header) (limit : Option ℕ) (writes : List (Write S Header))
      → write_all
          ((stack, value, limit) ∷ writes)
          (record { stack = none; server_name = none; body_limit = none })
        ≡ (
          ok stack ∷ refused writes,
          record { stack = some stack; server_name = some value; body_limit = limit },
        )
  unfolding write_into_static
  write_all-first stack value limit writes = rw (write_all-taken writes stack (some value) limit)
