-- ===== src/Gateway/Pattern/Laws.antt =====
-- What the text operations decide, and how a path with one variable segment is taken apart.
use ryd_trip.Prelude.{◌≡◌, ◌≢◌, ◌↔◌, refl, true, some, [], ◌∷◌, ◌++◌, arith}
use ryd_trip.Gateway.Pattern.{Text, text_eq, strip_prefix, run}

pub text_eq→≡ : (a b : Text) → text_eq a b ≡ true → a ≡ b
unfolding text_eq
text_eq→≡ [] [] h = refl
text_eq→≡ [] (y ∷ ys) h = cc
text_eq→≡ (x ∷ xs) [] h = cc
text_eq→≡ (x ∷ xs) (y ∷ ys) h = ground (arith, text_eq→≡ xs ys)

pub text_eq_refl : (a : Text) → text_eq a a ≡ true
unfolding text_eq
text_eq_refl [] = refl
text_eq_refl (x ∷ xs) = ground (arith, text_eq_refl xs)

pub text_eq_iff : (a b : Text) → (text_eq a b ≡ true) ↔ (a ≡ b)
text_eq_iff a b = (text_eq→≡ a b, λ e. rw e (text_eq_refl b))

pub strip_prefix-append : (t p : Text) → strip_prefix t (t ++ p) ≡ some p
unfolding strip_prefix
strip_prefix-append [] p = refl
strip_prefix-append (x ∷ xs) p = ground (arith, strip_prefix-append xs p)

pub strip_prefix_sound : (t p r : Text) → strip_prefix t p ≡ some r → p ≡ t ++ r
unfolding strip_prefix
strip_prefix_sound [] p r h = cc
strip_prefix_sound (x ∷ xs) [] r h = cc
strip_prefix_sound (x ∷ xs) (y ∷ ys) r h = ground (arith, strip_prefix_sound xs ys r)

-- A text without a `/`.
abbrev pub NoSlash : Text → Type 0
NoSlash [] = Unit {0}
NoSlash (x ∷ xs) = (x ≢ b'/') × NoSlash xs

-- What can stand in a path for a `[^/]+`.
abbrev pub IsSegment : Text → Type 0
IsSegment [] = ⊥
IsSegment (x ∷ xs) = NoSlash (x ∷ xs)

run-slash : (s rest : Text) → NoSlash s → run (s ++ b'/' ∷ rest) ≡ (s, b'/' ∷ rest)
unfolding run
run-slash [] rest h = refl
run-slash (x ∷ xs) rest h = ground (arith, run-slash xs rest h.1)

run-end : (s : Text) → NoSlash s → run s ≡ (s, [])
unfolding run
run-end [] h = refl
run-end (x ∷ xs) h = ground (arith, run-end xs h.1)

pub run-segment_slash : (s rest : Text) → IsSegment s → run (s ++ b'/' ∷ rest) ≡ (s, b'/' ∷ rest)
run-segment_slash (x ∷ xs) rest h = run-slash (x ∷ xs) rest h
run-segment_slash [] rest h = absurd h

pub run-segment_end : (s : Text) → IsSegment s → run s ≡ (s, [])
run-segment_end (x ∷ xs) h = run-end (x ∷ xs) h
run-segment_end [] h = absurd h

-- The part that a `[^/]+` took is a segment.
pub run-NoSlash : (p : Text) → NoSlash (run p).0
unfolding run
run-NoSlash [] = tt
run-NoSlash (x ∷ xs) = ground (arith, run-NoSlash xs)
