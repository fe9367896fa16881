-- ===== src/Multipart/Save.antt =====
-- What is left of a field, and what `save` writes.
use saphir.Base.{
  ℕ, ◌+◌, ◌≡◌, refl, ap, List, [], ◌∷◌, ◌++◌, map, Option, none, some, ok, err, length,
  length-append, arith,
}
use mathlib.Core.List.{append-nil, append_assoc}
use saphir.Body.{Bytes}
use saphir.Multipart.{already_consumed, save_chunks, save}

-- The chunks one after another
abbrev pub all_bytes : List Bytes → Bytes
all_bytes [] = []
all_bytes (b ∷ chunks) = b ++ all_bytes chunks

module _ {X : Type 0} where
  save_chunks-all_bytes :
      (chunks : List Bytes) (file : Bytes) (n : ℕ)
      → save_chunks {X = X} (λ _. none) (map ok chunks) file n
        ≡ (ok (n + length (all_bytes chunks)), file ++ all_bytes chunks)
  unfolding save_chunks
  save_chunks-all_bytes [] file n =
      let none_more : n + 0 ≡ n = omega arith in rw (none_more, append-nil file)
  save_chunks-all_bytes (b ∷ chunks) file n =
      rw
        (
          save_chunks-all_bytes chunks (file ++ b) (n + length b),
          append_assoc file b (all_bytes chunks),
        )
        (ap (λ (k : ℕ). (ok k, file ++ (b ++ all_bytes chunks)))
          (omega (arith, length-append b (all_bytes chunks))))

module _ {Raw X : Type 0} where
  -- Saving a field whose chunks all come, into a file that can be made and written, writes all its bytes, answers
  -- with their number and leaves the field taken, so that another save is refused.
  pub save-all_bytes :
      (chunks : Raw → List Bytes) (raw : Raw) (fails : Option X)
      → (save {X = X} (λ r. map ok (chunks r)) none (λ _. none) (record { raw = some raw }) ≡ (
        ok (length (all_bytes (chunks raw))),
        some (all_bytes (chunks raw)),
        record { raw = none },
      ))
        × ((save {X = X}
              (λ r. map ok (chunks r))
              fails
              (λ _. none)
              (save {X = X}
                (λ r. map ok (chunks r))
                none
                (λ _. none)
                (record { raw = some raw })).2).0
            ≡ err already_consumed)
  unfolding save
  save-all_bytes chunks raw fails =
      let from_zero : 0 + length (all_bytes (chunks raw)) ≡ length (all_bytes (chunks raw)) =
        omega arith in
      (rw (save_chunks-all_bytes (chunks raw) [] 0, from_zero), refl)
