-- ===== src/File/Range/Bounds.antt =====
-- What a range of a request selects of a file.
use saphir.Base.{
  ℕ, ◌≡◌, ◌+◌, ◌≤◌, ◌<◌, Bool, false, ◌&&◌, [], ◌∷◌, Option, none, some, ltb, leb, arith,
}
use saphir.File.Range.{
  ByteRangeSpec, from_to, all_from, last, bytes, to_satisfiable_range, ContentRange,
  is_satisfiable_range, extract_range,
}

-- The byte `i` of a file of that many bytes is one that the specification asks for.
abbrev pub asks_for : ByteRangeSpec → ℕ → ℕ → Bool
asks_for (from_to from to) full_length i = ltb i full_length && (leb from i && leb i to)
asks_for (all_from from) full_length i = ltb i full_length && leb from i
asks_for (last count) full_length i = ltb i full_length && leb full_length (i + count)

abbrev pub selects : Option (ℕ × ℕ) → ℕ → Bool
selects none i = false
selects (some (from, to)) i = leb from i && leb i to

-- The range is of the file: `from <= to < full_length`.
pub to_satisfiable_range-bounds :
    (spec : ByteRangeSpec) (full_length from to : ℕ)
    → to_satisfiable_range spec full_length ≡ some (from, to)
    → (from ≤ to) × (to < full_length)
unfolding to_satisfiable_range
to_satisfiable_range-bounds (from_to x y) full_length from to e = ground arith
to_satisfiable_range-bounds (all_from x) full_length from to e = ground arith
to_satisfiable_range-bounds (last x) full_length from to e = ground arith

-- The range has exactly the bytes of the file that the specification asks for, and there is none
-- only if there is no such byte.
pub selects-to_satisfiable_range :
    (spec : ByteRangeSpec) (full_length i : ℕ)
    → selects (to_satisfiable_range spec full_length) i ≡ asks_for spec full_length i
unfolding to_satisfiable_range
selects-to_satisfiable_range (from_to x y) full_length i = ground arith
selects-to_satisfiable_range (all_from x) full_length i = ground arith
selects-to_satisfiable_range (last x) full_length i = ground arith

-- The content range of a request for one range is what is satisfiable of it.
pub extract_range-is_satisfiable_range :
    (spec : ByteRangeSpec) (instance_length : ℕ) (content : ContentRange)
    → is_satisfiable_range (bytes (spec ∷ [])) instance_length ≡ some content
    → extract_range content ≡ to_satisfiable_range spec instance_length
unfolding is_satisfiable_range extract_range
extract_range-is_satisfiable_range spec instance_length content e = ground arith
