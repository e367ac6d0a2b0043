-- ===== src/Gateway/Pattern.antt =====
-- The regular expressions of the gateway's tables, and the string operations on a request's path.
-- A text is the list of its code points. Every expression is anchored at both ends and joins
-- literals, `[^/]+` and one alternation; what follows a `[^/]+` is a `/` or the end, so the greedy
-- run up to the next `/` is the only one that can match, and no backtracking is modelled.
pub mod Laws
use Prim.Native.Char.{code}
use ryd_trip.Prelude.{
  ℕ, String, Bool, true, false, not, ◌&&◌, Option, none, some, List, [], ◌∷◌, ◌==◌, if◌then◌else◌,
}

abbrev pub Text : Type 0
Text = List ℕ

abbrev pub codes : String → Text
codes String.[] = []
codes (String.◌∷◌ c s) = code c ∷ codes s

unfoldable pub text_eq : Text → Text → Bool
text_eq [] [] = true
text_eq [] (y ∷ ys) = false
text_eq (x ∷ xs) [] = false
text_eq (x ∷ xs) (y ∷ ys) = let rest = text_eq xs ys in if x == y then rest else false

-- `some rest` if the text starts with the first argument.
unfoldable pub strip_prefix : Text → Text → Option Text
strip_prefix [] p = some p
strip_prefix (x ∷ xs) [] = none
strip_prefix (x ∷ xs) (y ∷ ys) = let rest = strip_prefix xs ys in if x == y then rest else none

abbrev pub is_some {ℓ} : {A : Type ℓ} → Option A → Bool
is_some none = false
is_some (some a) = true

abbrev pub starts_with : Text → Text → Bool
starts_with prefix p = is_some (strip_prefix prefix p)

pub data Piece : Type 0 where
  lit : Text → Piece
  segment : Piece  -- [^/]+
  captured : Piece  -- ([^/]+)
  one_of : List Text → Piece  -- (a|b|...)

abbrev pub Pattern : Type 0
Pattern = List Piece

-- The longest run without a `/`, and what follows it.
unfoldable pub run : Text → Text × Text
run [] = ([], [])
run (x ∷ xs) = let rest = run xs in if x == b'/' then ([], x ∷ xs) else (x ∷ rest.0, rest.1)

unfoldable pub strip_one_of : List Text → Text → Option Text
unfolding strip_prefix
strip_one_of [] p = none
strip_one_of (t ∷ ts) p = elim (strip_prefix t p) [ none ↦ strip_one_of ts p | some r ↦ some r ]

abbrev pub add_capture : Text → Option (List Text) → Option (List Text)
add_capture t none = none
add_capture t (some ts) = some (t ∷ ts)

-- `[^/]+`, given the run that it can take; a group keeps the run.
abbrev pub after_segment : Text × Text → (Text → Option (List Text)) → Option (List Text)
after_segment ([], rest) k = none
after_segment (c ∷ s, rest) k = k rest

abbrev pub after_captured : Text × Text → (Text → Option (List Text)) → Option (List Text)
after_captured ([], rest) k = none
after_captured (c ∷ s, rest) k = add_capture (c ∷ s) (k rest)

abbrev pub after_literal : Option Text → (Text → Option (List Text)) → Option (List Text)
after_literal none k = none
after_literal (some rest) k = k rest

-- `path.match(pattern)`: the captured groups, from group 1 on.
unfoldable pub match_pattern : Pattern → Text → Option (List Text)
unfolding strip_prefix strip_one_of
match_pattern [] [] = some []
match_pattern [] (x ∷ xs) = none
match_pattern (lit t ∷ ps) p = after_literal (strip_prefix t p) (match_pattern ps)
match_pattern (segment ∷ ps) p = after_segment (run p) (match_pattern ps)
match_pattern (captured ∷ ps) p = after_captured (run p) (match_pattern ps)
match_pattern (one_of ts ∷ ps) p = after_literal (strip_one_of ts p) (match_pattern ps)

-- `pattern.test(path)`.
abbrev pub test : Pattern → Text → Bool
test pattern_ p = is_some (match_pattern pattern_ p)
