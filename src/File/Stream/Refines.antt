-- ===== src/File/Stream/Refines.antt =====
-- What a file stream owes to its client is what it yields: the stream is a queue of bytes to its client.
use saphir.Base.{
  ℕ, zero, suc, ◌≡◌, refl, Bool, true, false, List, [], ◌++◌, Option, none, some, inl, inr, Result,
  ok, err, if◌then◌else◌, sym, ap, ◌∙◌, Option-cases,
}
use mathlib.Core.Path.{subst}
use mathlib.Core.List.{append_assoc}
use saphir.File.Reader.{SaphirFile, IoError, Poll, ready, pending, Reads, IsReader}
use saphir.File.Stream.{
  FileStream, Exit, fill, poll_next, max_buffer, filled, blocked, failed, leave, polls, receive,
  prepend,
}
use saphir.File.Stream.Owes.{owes, IsOpen, IsSteady, buffer_size}
use saphir.File.Stream.Yields.{Keeps, Kept, fill_whole-Kept, fill_range-Kept}

module _ {R : Type 0} (file : SaphirFile R) (law : Reads R) where
  pub fill-Kept :
      (s : FileStream R)
      → IsReader file (buffer_size s.range_len) law
      → IsOpen law s
      → Kept law s (fill file s)
  unfolding fill
  fill-Kept s reads opened = elim (Option-cases s.range_len) [
    | inl w ↦
        simp (w, fill)
          (fill_whole-Kept file law (suc (suc max_buffer)) s
            (subst (λ r. IsReader file (buffer_size r) law) w reads) w opened)
    | inr (range, w) ↦
        simp (w, fill)
          (fill_range-Kept file law range (suc (suc range)) s
            (subst (λ r. IsReader file (buffer_size r) law) w reads) w opened)
  ]

  -- The stream that comes back from a poll, with what the client owns by then: nothing was owed at
  -- the end, a chunk is the front of what was owed, and a poll that waits loses nothing. An error
  -- promises nothing.
  abbrev pub Follows :
      FileStream R → FileStream R × Poll (Option (Result (List ℕ) IoError)) → Type 0
  Follows s (t, ready none) = owes law s ≡ []
  Follows s (t, ready (some (ok chunk))) =
      IsSteady law t × (owes law s ≡ chunk ++ owes law t) × (t.range_len ≡ s.range_len)
  Follows s (t, ready (some (err e))) = Unit
  Follows s (t, pending) = IsSteady law t × (owes law s ≡ owes law t) × (t.range_len ≡ s.range_len)

  leave-Follows :
      (s : FileStream R) (exit : FileStream R × Exit) → Keeps law s exit → Follows s (leave exit)
  unfolding leave
  leave-Follows s (t, filled) (opened, same, range) = ((λ _. refl, opened), sym same ∙ refl, range)
  leave-Follows s (t, blocked) (opened, same, range, more) =
      ((λ e. absurd cc, opened), sym same, range)
  leave-Follows s (t, failed e) k = tt

  pub poll_next-Follows :
      (s : FileStream R) {exit : FileStream R × Poll (Option (Result (List ℕ) IoError))}
      → IsReader file (buffer_size s.range_len) law
      → IsSteady law s
      → poll_next file s ≡ some exit
      → Follows s exit
  unfolding poll_next
  poll_next-Follows s {exit} reads steady e =
      from_exit s.end_of_file (fill file s) refl (fill-Kept s reads steady.1) e
    where
      from_exit :
          (ends : Bool) (found : Option (FileStream R × Exit))
          → s.end_of_file ≡ ends
          → Kept law s found
          → (if ends
              then some (s, ready none)
              else elim found [ none ↦ none | some x ↦ some (leave x) ])
            ≡ some exit
          → Follows s exit
      from_exit true found e k h =
          let same : (s, ready none) ≡ exit = cc in subst (Follows s) same (rw (steady.0 e, e) refl)
      from_exit false none e k h = absurd cc
      from_exit false (some x) e k h =
          let same : leave x ≡ exit = cc in subst (Follows s) same (leave-Follows s x k)

  -- What was received, of all that is owed
  abbrev IsFront : FileStream R → Option (List ℕ × FileStream R) → Type 0
  IsFront s none = Unit
  IsFront s (some (received, _)) = (rest : List ℕ) × (received ++ rest ≡ owes law s)

  receive-IsFront :
      (next : FileStream R → Option (List ℕ × FileStream R)) (s : FileStream R)
      (answered : Option (FileStream R × Poll (Option (Result (List ℕ) IoError))))
      → ((exit : _) → answered ≡ some exit → Follows s exit)
      → ((t : FileStream R) → IsSteady law t → t.range_len ≡ s.range_len → IsFront t (next t))
      → IsFront s (receive next answered)
  receive-IsFront next s none f h = tt
  receive-IsFront next s (some (t, pending)) f h =
      let (steady, same, range) = f (t, pending) refl in waited (next t) (h t steady range) same
    where
      waited :
          (found : Option (List ℕ × FileStream R))
          → IsFront t found
          → owes law s ≡ owes law t
          → IsFront s found
      waited none k same = tt
      waited (some (more, last)) (rest, k) same = (rest, k ∙ sym same)
  receive-IsFront next s (some (t, ready none)) f h = (owes law s, refl)
  receive-IsFront next s (some (t, ready (some (ok chunk)))) f h =
      let (steady, same, range) = f (t, ready (some (ok chunk))) refl in
      prepend-IsFront (next t) (h t steady range) same
    where
      prepend-IsFront :
          (found : Option (List ℕ × FileStream R))
          → IsFront t found
          → owes law s ≡ chunk ++ owes law t
          → IsFront s (prepend chunk found)
      prepend-IsFront none k same = tt
      prepend-IsFront (some (more, last)) (rest, k) same =
          (rest, append_assoc chunk more rest ∙ (ap (λ r. chunk ++ r) k ∙ sym same))
  receive-IsFront next s (some (t, ready (some (err e)))) f h = (owes law s, refl)

  polls-IsFront :
      (n : ℕ) (s : FileStream R)
      → IsReader file (buffer_size s.range_len) law
      → IsSteady law s
      → IsFront s (polls file n s)
  polls-IsFront zero s reads steady = (owes law s, refl)
  polls-IsFront (suc n) s reads steady =
      receive-IsFront (polls file n) s (poll_next file s)
        (λ exit. poll_next-Follows s {exit = exit} reads steady)
        λ t opened range.
          polls-IsFront n t (subst (λ r. IsReader file (buffer_size r) law) (sym range) reads)
            opened

  -- However often the client polls, what it has received is the front of what was owed.
  pub polls-owes :
      (n : ℕ) (s last : FileStream R) {received : List ℕ}
      → IsReader file (buffer_size s.range_len) law
      → IsSteady law s
      → polls file n s ≡ some (received, last)
      → (rest : List ℕ) × (received ++ rest ≡ owes law s)
  polls-owes n s last reads steady e = subst (IsFront s) e (polls-IsFront n s reads steady)
