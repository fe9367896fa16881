-- ===== src/File/Stream/Completes.antt =====
-- A client of a prompt reader gets the whole of what a file stream owes.
use saphir.Base.{
  ℕ, zero, suc, ◌+◌, ◌≡◌, ◌≤◌, ◌<◌, refl, Bool, true, false, List, ◌++◌, Option, none, some, ◌⊎◌,
  inl, inr, length, length-append, Bool-cases, Result, ok, err, arith, if◌then◌else◌, sym,
}
use mathlib.Core.Path.{subst}
use saphir.File.Reader.{SaphirFile, IoError, Poll, ready, pending, Reads, IsReader}
use saphir.File.Stream.{FileStream, poll_next, polls, receive, prepend}
use saphir.File.Stream.Owes.{owes, IsSteady, buffer_size}
use saphir.File.Stream.Refines.{Follows, poll_next-Follows}
use saphir.File.Stream.Prompt.{IsPrompt, Advances, poll_next-Advances}

module _ {R : Type 0} (file : SaphirFile R) (law : Reads R) where
  -- What is still to come, and the poll that finds the end
  abbrev pub to_come : FileStream R → ℕ
  to_come s = (if s.end_of_file then 0 else 1) + length (owes law s)

  pub to_come_le : (s : FileStream R) → to_come s ≤ 1 + length (owes law s)
  to_come_le s = bounded s.end_of_file (length (owes law s))
    where
      bounded : (ended : Bool) (n : ℕ) → (if ended then 0 else 1) + n ≤ 1 + n
      bounded true n = omega arith
      bounded false n = omega arith

  abbrev Arrives : FileStream R → Option (List ℕ × FileStream R) → Type 0
  Arrives s none = ⊥
  Arrives s (some (received, last)) = (received ≡ owes law s) × (last.end_of_file ≡ true)

  receive-Arrives :
      (n : ℕ) (next : FileStream R → Option (List ℕ × FileStream R)) (s : FileStream R)
      (answered : Option (FileStream R × Poll (Option (Result (List ℕ) IoError))))
      → to_come s < suc n
      → ((exit : _) → answered ≡ some exit → Follows file law s exit)
      → Advances file law s answered
      → ((t : FileStream R)
          → to_come t < n
          → IsSteady law t
          → t.range_len ≡ s.range_len
          → Arrives t (next t))
      → Arrives s (receive next answered)
  receive-Arrives n next s none room f a h = absurd a
  receive-Arrives n next s (some (t, pending)) room f a h = absurd a
  receive-Arrives n next s (some (t, ready none)) room f a h = (sym (f (t, ready none) refl), a)
  receive-Arrives n next s (some (t, ready (some (err e)))) room f a h = absurd a
  receive-Arrives n next s (some (t, ready (some (ok chunk)))) room f a h =
      let (steady, same, range) = f (t, ready (some (ok chunk))) refl in
      prepend-Arrives (next t) same (h t (less steady same a.1) steady range)
    where
      counted : to_come s ≡ 1 + length (owes law s)
      counted = rw a.0 refl

      at_end : IsSteady law t → t.end_of_file ≡ true → to_come t < n
      at_end steady ends = rw (steady.0 ends, ends) (omega (arith, counted, room))

      less :
          IsSteady law t
          → owes law s ≡ chunk ++ owes law t
          → (t.end_of_file ≡ true) ⊎ (0 < length chunk)
          → to_come t < n
      less steady same (inl ends) = at_end steady ends
      less steady same (inr more) = elim (Bool-cases t.end_of_file) [
        | inl ends ↦ at_end steady ends
        | inr rest ↦
            let counted_after : to_come t ≡ 1 + length (owes law t) = rw rest refl in
            let sum : length (owes law s) ≡ length chunk + length (owes law t) =
              rw same (length-append chunk (owes law t)) in
            omega (arith, counted, counted_after, sum, room, more)
      ]

      prepend-Arrives :
          (found : Option (List ℕ × FileStream R))
          → owes law s ≡ chunk ++ owes law t
          → Arrives t found
          → Arrives s (prepend chunk found)
      prepend-Arrives none same k = absurd k
      prepend-Arrives (some (more, last)) same (k, ends) = (rw k (sym same), ends)

  polls-Arrives :
      (n : ℕ) (s : FileStream R)
      → to_come s < n
      → IsReader file (buffer_size s.range_len) law
      → IsPrompt file (buffer_size s.range_len) law
      → IsSteady law s
      → Arrives s (polls file n s)
  polls-Arrives zero s room reads prompt steady = absurd (omega arith)
  polls-Arrives (suc n) s room reads prompt steady =
      receive-Arrives n (polls file n) s (poll_next file s) room
        (λ exit. poll_next-Follows file law s {exit = exit} reads steady)
        (poll_next-Advances file law s reads prompt steady)
        λ t less opened range.
          polls-Arrives n t less (subst (λ r. IsReader file (buffer_size r) law) (sym range) reads)
            (subst (λ r. IsPrompt file (buffer_size r) law) (sym range) prompt) opened

  -- Of a reader that never waits and never fails, enough polls give exactly what is owed: one for each
  -- byte, at most, and one that finds the end.
  pub polls_complete :
      (n : ℕ) (s : FileStream R)
      → to_come s < n
      → IsReader file (buffer_size s.range_len) law
      → IsPrompt file (buffer_size s.range_len) law
      → IsSteady law s
      → (last : FileStream R) × (polls file n s ≡ some (owes law s, last))
        × (last.end_of_file ≡ true)
  polls_complete n s room reads prompt steady =
      from_polls (polls file n s) refl (polls-Arrives n s room reads prompt steady)
    where
      from_polls :
          (found : Option (List ℕ × FileStream R))
          → polls file n s ≡ found
          → Arrives s found
          → (last : FileStream R) × (polls file n s ≡ some (owes law s, last))
            × (last.end_of_file ≡ true)
      from_polls none e k = absurd k
      from_polls (some (received, last)) e (k, ends) = (last, rw (sym k) e, ends)
