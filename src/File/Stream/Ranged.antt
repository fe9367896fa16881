-- ===== src/File/Stream/Ranged.antt =====
-- A stream of one range of a file.
use saphir.Base.{
  ℕ, zero, suc, ◌+◌, ◌-◌, ◌%◌, ◌≡◌, ◌<◌, ◌≤◌, refl, sym, ap, ◌∙◌, true, List, [], ◌∷◌, some, length,
  take, drop, Result, ok, err, arith,
}
use mathlib.Core.Path.{subst}
use saphir.Text.Decimal.{u64_limit}
use saphir.File.Reader.{SaphirFile, Reads, IsReader, start, IoError}
use saphir.File.Stream.{FileStream, new_stream, set_range, polls}
use saphir.File.Stream.Owes.{owes, IsSteady, buffer_size}
use saphir.File.Stream.Prompt.{IsPrompt}
use saphir.File.Stream.Completes.{polls_complete, to_come, to_come_le}

range_len-fits :
    (from to : ℕ)
    → from ≤ to
    → to + 1 < u64_limit
    → ((to + u64_limit - from) % u64_limit + 1) % u64_limit ≡ (to - from) + 1
range_len-fits from to h k = omega arith

length-take-drop :
    (n m : ℕ) (bytes : List ℕ) → n + m ≤ length bytes → length (take m (drop n bytes)) ≡ m
length-take-drop n zero bytes h = refl
length-take-drop n (suc m) [] h = absurd (omega arith)
length-take-drop zero (suc m) (x ∷ bytes) h = ap suc (length-take-drop 0 m bytes (omega arith))
length-take-drop (suc n) (suc m) (x ∷ bytes) h = length-take-drop n (suc m) bytes (omega arith)

module _ {R : Type 0} (file : SaphirFile R) (law : Reads R) where
  -- The stream after a range was set
  abbrev pub ranged : ℕ → ℕ → R → FileStream R
  ranged from to r = (set_range file from to (new_stream r)).0

  set_range-ok :
      (r inner : R) (from to n : ℕ)
      → file.seek (start from) r ≡ (inner, ok n)
      → set_range file from to (new_stream r) ≡ (
        record (new_stream r) {
          inner = inner;
          range_len = some (((to + u64_limit - from) % u64_limit + 1) % u64_limit);
        },
        ok tt,
      )
  unfolding set_range new_stream
  set_range-ok r inner from to n e = ap (λ (p : R × Result ℕ IoError). sought p.0 p.1) e
    where
      sought : R → Result ℕ IoError → FileStream R × Result (Unit {0}) IoError
      sought at (err x) = (record (new_stream r) { inner = at }, err x)
      sought at (ok _) = (
        record (new_stream r) {
          inner = at;
          range_len = some (((to + u64_limit - from) % u64_limit + 1) % u64_limit);
        },
        ok tt,
      )

  -- A range that is set is what the stream owes from then on: the bytes from its first to its last one,
  -- as many as there are of it.
  pub set_range-owes :
      (r inner : R) (from to n : ℕ)
      → file.seek (start from) r ≡ (inner, ok n)
      → law.IsSound inner
      → from ≤ to
      → to + 1 < u64_limit
      → IsSteady law (ranged from to r)
        × (owes law (ranged from to r) ≡ take ((to - from) + 1) (law.left inner))
        × ((ranged from to r).range_len ≡ some ((to - from) + 1))
  unfolding new_stream
  set_range-owes r inner from to n e sound h k =
      subst
        (λ s.
          IsSteady law s
          × (owes law s ≡ take ((to - from) + 1) (law.left inner))
          × (s.range_len ≡ some ((to - from) + 1)))
        (sym (
          ap (λ (p : FileStream R × Result (Unit {0}) IoError). p.0)
            (set_range-ok r inner from to n e)))
        (rw (range_len-fits from to h k) (
          (λ x. absurd cc, λ _. (sound, omega arith)),
          ap (λ m. take m (law.left inner)) all_to_come,
          refl,
        ))
    where
      all_to_come : (to - from) + 1 - 0 ≡ (to - from) + 1
      all_to_come = omega arith

  -- A client of a prompt reader of `content` gets exactly the bytes of the range, and they are as many
  -- as the response says: the last byte's place less the first's, and one.
  pub polls-ranged :
      (r inner : R) (from to n polled : ℕ) (content : List ℕ)
      → file.seek (start from) r ≡ (inner, ok n)
      → law.IsSound inner
      → law.left inner ≡ drop from content
      → from ≤ to
      → to < length content
      → length content < u64_limit
      → (to - from) + 2 < polled
      → IsReader file ((to - from) + 1) law
      → IsPrompt file ((to - from) + 1) law
      → (received : List ℕ) × (last : FileStream R) × (polls file polled (ranged from to r)
          ≡ some (received, last))
        × (received ≡ take ((to - from) + 1) (drop from content))
        × (length received ≡ (to - from) + 1)
        × (last.end_of_file ≡ true)
  polls-ranged r inner from to n polled content e sound left h inside short enough reads prompt =
      let (steady, owed, range) = set_range-owes r inner from to n e sound h (omega arith) in
      let exact : owes law (ranged from to r) ≡ take ((to - from) + 1) (drop from content) =
        owed ∙ ap (take ((to - from) + 1)) left in
      let size : length (take ((to - from) + 1) (drop from content)) ≡ (to - from) + 1 =
        length-take-drop from ((to - from) + 1) content (omega arith) in
      let owed_size : length (owes law (ranged from to r)) ≡ (to - from) + 1 =
        ap length exact ∙ size in
      let room : to_come file law (ranged from to r) < polled =
        omega (arith, to_come_le file law (ranged from to r), owed_size, enough) in
      let (last, done, ends) =
        polls_complete file law polled (ranged from to r) room
          (subst (λ o. IsReader file (buffer_size o) law) (sym range) reads)
          (subst (λ o. IsPrompt file (buffer_size o) law) (sym range) prompt) steady in
      (owes law (ranged from to r), last, done, exact, owed_size, ends)
