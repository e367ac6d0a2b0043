-- ===== src/RedisClient/Memory.antt =====
-- Keys with a time to live in memory: the interface can be met, and the examples run on it.
use ryd_trip.Prelude.{
  ℕ, ◌+◌, ◌*◌, ◌≤◌, ◌<◌, String, ◌≡◌, ◌⊎◌, inl, inr, Option, none, some, List, [], ◌∷◌, arith, ltb,
  str_eq, eq_iff, eq_refl, if◌then◌else◌, Bool-cases,
}
use ryd_trip.RedisClient.{Redis}

abbrev pub Keys : Type 0
Keys = List (String × String × ℕ)

-- The newest entry of a key decides.
unfoldable pub get : Keys → ℕ → String → Option String
get [] now k = none
get ((j, v, end) ∷ t) now k =
    if str_eq j k then (if ltb now end then some v else none) else get t now k

unfoldable pub put : Keys → ℕ → String → String → ℕ → Keys
put t now k v ttl = (k, v, now + 1000 * ttl) ∷ t

unfoldable pub put_new : Keys → ℕ → String → String → ℕ → Option Keys
unfolding get put
put_new t now k v ttl = elim (get t now k) [ none ↦ some (put t now k v ttl) | some w ↦ none ]

-- An entry that is over at once.
unfoldable pub remove : Keys → String → Keys
remove t k = (k, "", 0) ∷ t

pub put_holds :
    (t : Keys) (now : ℕ) (k v : String) (ttl u : ℕ)
    → now ≤ u
    → u < now + 1000 * ttl
    → get (put t now k v ttl) u k ≡ some v
unfolding get put
put_holds t now k v ttl u lo hi = ground (arith, eq_refl k)

pub put_new_free :
    (t : Keys) (now : ℕ) (k v : String) (ttl : ℕ)
    → get t now k ≡ none
    → (t' : Keys) × (put_new t now k v ttl ≡ some t')
unfolding put_new
put_new_free t now k v ttl h = (put t now k v ttl, ground arith)

pub put_new_taken :
    (t : Keys) (now : ℕ) (k v w : String) (ttl : ℕ)
    → get t now k ≡ some w
    → put_new t now k v ttl ≡ none
unfolding put_new
put_new_taken t now k v w ttl h = ground arith

pub put_new_holds :
    (t t' : Keys) (now : ℕ) (k v : String) (ttl u : ℕ)
    → put_new t now k v ttl ≡ some t'
    → now ≤ u
    → u < now + 1000 * ttl
    → get t' u k ≡ some v
unfolding put_new
put_new_holds t t' now k v ttl u s lo hi = ground (arith, put_holds t now k v ttl u lo hi)

put_frame :
    (t : Keys) (now : ℕ) (k v : String) (ttl : ℕ) (j : String) (u : ℕ)
    → (k ≡ j) ⊎ (get (put t now k v ttl) u j ≡ get t u j)
unfolding get put
put_frame t now k v ttl j u = elim (Bool-cases (str_eq k j)) [
  | inl e ↦ inl ((eq_iff k j).0 e)
  | inr e ↦ inr (ground arith)
]

pub put_new_frame :
    (t t' : Keys) (now : ℕ) (k v : String) (ttl : ℕ) (j : String) (u : ℕ)
    → put_new t now k v ttl ≡ some t'
    → (k ≡ j) ⊎ (get t' u j ≡ get t u j)
unfolding put_new
put_new_frame t t' now k v ttl j u s = ground (arith, put_frame t now k v ttl j u)

pub remove_gone : (t : Keys) (k : String) (u : ℕ) → get (remove t k) u k ≡ none
unfolding get remove
remove_gone t k u = ground (arith, eq_refl k)

abbrev pub memory_redis : Redis
memory_redis = record {
  State = Keys;
  get = get;
  set_nx = put_new;
  set_ex = put;
  del = remove;
  set_nx_free = put_new_free;
  set_nx_taken = put_new_taken;
  set_nx_holds = put_new_holds;
  set_nx_frame = put_new_frame;
  set_ex_holds = put_holds;
  del_gone = remove_gone;
}
