-- ===== src/Server/Ssl/Blocks.antt =====
-- Data with blocks between marks, as `ssl_loading_utils` reads them.
use saphir.Base.{
  ℕ, zero, suc, ◌+◌, ◌≤◌, ◌≡◌, refl, ap, false, List, [], ◌∷◌, ◌++◌, Option, none, some, length,
  length-append, arith, All,
}
use saphir.Text.{Str, split_once_str, strip_prefix, contains_char}
use saphir.Text.Laws.{strip_prefix-append}
use saphir.Server.Ssl.{push_der, extract_ders, extract_der_data}

-- A mark is found at its first copy, where the text before it does not have its first character.
split_once_str-append :
    (c : ℕ) (mark before after : Str)
    → contains_char c before ≡ false
    → split_once_str (c ∷ mark) (before ++ ((c ∷ mark) ++ after)) ≡ some (before, after)
unfolding split_once_str contains_char strip_prefix
split_once_str-append c mark [] after h = ground (arith, strip_prefix-append mark after)
split_once_str-append c mark (x ∷ before) after h =
    ground (arith, split_once_str-append c mark before after)

split_once_str-eq-none :
    (c : ℕ) (mark s : Str) → contains_char c s ≡ false → split_once_str (c ∷ mark) s ≡ none
unfolding split_once_str contains_char strip_prefix
split_once_str-eq-none c mark [] h = refl
split_once_str-eq-none c mark (x ∷ s) h = ground (arith, split_once_str-eq-none c mark s)

-- Some text, and what stands between the marks after it
pub record Block : Type 0 where
  pub before : Str
  pub content : Str

abbrev pub IsClean : ℕ → Block → Type 0
IsClean c b = (contains_char c b.before ≡ false) × (contains_char c b.content ≡ false)

abbrev pub with_marks : Str → Str → List Block → Str → Str
with_marks start_mark end_mark [] after = after
with_marks start_mark end_mark (b ∷ blocks) after =
    b.before
    ++ (start_mark ++ (b.content ++ (end_mark ++ with_marks start_mark end_mark blocks after)))

-- A block makes the text longer.
longer :
    (c : ℕ) (start end : Str) (b : Block) (rest : Str)
    → length rest + 1 ≤ length (b.before ++ ((c ∷ start) ++ (b.content ++ ((c ∷ end) ++ rest))))
longer c start end b rest = omega (
  arith,
  length-append b.before ((c ∷ start) ++ (b.content ++ ((c ∷ end) ++ rest))),
  length-append (c ∷ start) (b.content ++ ((c ∷ end) ++ rest)),
  length-append b.content ((c ∷ end) ++ rest),
  length-append (c ∷ end) rest,
)

module _ {A : Type 0} (decode : Str → Option A) where
  -- The contents decoded in order; none where one of them is none
  abbrev pub decode_all : List Block → Option (List A)
  decode_all [] = some []
  decode_all (b ∷ blocks) = push_der (decode b.content) (decode_all blocks)

  extract_ders-with_marks :
      (fuel c : ℕ) (start end : Str) (blocks : List Block) (after : Str)
      → All (IsClean c) blocks
      → contains_char c after ≡ false
      → length (with_marks (c ∷ start) (c ∷ end) blocks after) ≤ fuel
      → extract_ders decode fuel
          (c ∷ start)
          (c ∷ end)
          (with_marks (c ∷ start) (c ∷ end) blocks after)
        ≡ decode_all blocks
  unfolding extract_ders
  extract_ders-with_marks zero c start end [] after h clean enough = refl
  extract_ders-with_marks (suc fuel) c start end [] after h clean enough =
      rw (split_once_str-eq-none c start after clean, extract_ders)
  extract_ders-with_marks zero c start end (b ∷ blocks) after h clean enough =
      absurd (
        omega (arith, longer c start end b (with_marks (c ∷ start) (c ∷ end) blocks after), enough))
  extract_ders-with_marks (suc fuel) c start end (b ∷ blocks) after (h, hs) clean enough =
      rw
        (
          split_once_str-append c start b.before _ h.0,
          split_once_str-append c end b.content _ h.1,
          extract_ders,
        )
        (ap (push_der (decode b.content)) (
          extract_ders-with_marks fuel c start end blocks after hs clean (
            omega (
              arith,
              longer c start end b (with_marks (c ∷ start) (c ∷ end) blocks after),
              enough,
            ))))

  -- Out of data with blocks between marks comes what the contents of the blocks decode to, in order, where the
  -- first character of the marks stands in no content and in no text around the blocks.
  pub extract_der_data-with_marks :
      (c : ℕ) (start end : Str) (blocks : List Block) (after : Str)
      → All (IsClean c) blocks
      → contains_char c after ≡ false
      → extract_der_data decode
          (with_marks (c ∷ start) (c ∷ end) blocks after)
          (c ∷ start)
          (c ∷ end)
        ≡ decode_all blocks
  unfolding extract_der_data
  extract_der_data-with_marks c start end blocks after h clean =
      extract_ders-with_marks _ c start end blocks after h clean (omega arith)
