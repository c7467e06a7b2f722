-- ===== src/Transport/Invariant/Flight.antt =====
-- The map of requests in flight of wsg50_driver/src/transport.cpp: its order, and the promises in it
-- under find, erase and assignment.
use wsg50_ros2_humble.Base.{
  ℕ, suc, ◌+◌, ◌≤◌, ◌<◌, ◌≡◌, refl, List, [], ◌∷◌, none, some, ◌==◌, arith, Bool-cases, inl, inr,
}
use wsg50_ros2_humble.Transport.{Request, find, erase, assign}
use wsg50_ros2_humble.Transport.Invariant.{one_if, flying, Ascending}

pub find_below : (k low : ℕ) (m : List (ℕ × Request)) → Ascending low m → k < low → find k m ≡ none
unfolding find
find_below k low [] a h = refl
find_below k low ((j, r) ∷ m) (lo, e, a) h = ground (arith, find_below k (suc j) m a)

pub find_id :
    (k low : ℕ) (m : List (ℕ × Request)) {x : Request}
    → Ascending low m
    → find k m ≡ some x
    → x.id ≡ k
unfolding find
find_id k low [] a h = cc
find_id k low ((j, r) ∷ m) {x} (lo, e, a) h = ground (arith, find_id k (suc j) m {x = x} a)

pub Ascending-mono : (a b : ℕ) (m : List (ℕ × Request)) → b ≤ a → Ascending a m → Ascending b m
Ascending-mono a b [] h s = tt
Ascending-mono a b ((j, r) ∷ m) h (lo, e, s) = (omega arith, e, s)

pub Ascending-erase :
    (k low : ℕ) (m : List (ℕ × Request)) → Ascending low m → Ascending low (erase k m)
unfolding erase
Ascending-erase k low [] s = tt
Ascending-erase k low ((j, r) ∷ m) (lo, e, s) = elim (Bool-cases (j == k)) [
  | inl hit ↦ rw hit (Ascending-mono (suc j) low m (omega arith) s)
  | inr miss ↦ rw miss (lo, e, Ascending-erase k (suc j) m s)
]

pub Ascending-assign :
    (k low : ℕ) (r : Request) (m : List (ℕ × Request))
    → low ≤ k
    → k ≡ r.id
    → Ascending low m
    → Ascending low (assign k r m)
unfolding assign
Ascending-assign k low r [] h e s = (h, e, tt)
Ascending-assign k low r ((j, x) ∷ m) h e (lo, e', s) =
    ground (arith, Ascending-assign k (suc j) r m)

pub flying-erase :
    (p k : ℕ) (m : List (ℕ × Request)) (x : Request)
    → find k m ≡ some x
    → one_if (x.promise == p) + flying p (erase k m) ≡ flying p m
unfolding find erase
flying-erase p k [] x h = cc
flying-erase p k ((j, r) ∷ m) x h = ground (arith, flying-erase p k m x)

pub flying-assign_new :
    (p k : ℕ) (r : Request) (m : List (ℕ × Request))
    → find k m ≡ none
    → flying p (assign k r m) ≡ one_if (r.promise == p) + flying p m
unfolding find assign
flying-assign_new p k r [] h = refl
flying-assign_new p k r ((j, x) ∷ m) h = ground (arith, flying-assign_new p k r m)

pub flying-assign_found :
    (p k low : ℕ) (r x : Request) (m : List (ℕ × Request))
    → Ascending low m
    → find k m ≡ some x
    → r.promise ≡ x.promise
    → flying p (assign k r m) ≡ flying p m
unfolding find assign
flying-assign_found p k low r x [] a h e = cc
flying-assign_found p k low r x ((j, y) ∷ m) (lo, e', a) h e =
    ground (arith, flying-assign_found p k (suc j) r x m a, find_below k (suc j) m a)

-- A request that is in flight has its promise counted.
pub flying-find :
    (k : ℕ) (m : List (ℕ × Request)) (x : Request) → find k m ≡ some x → 1 ≤ flying x.promise m
unfolding find
flying-find k [] x h = cc
flying-find k ((j, r) ∷ m) x h = ground (arith, flying-find k m x)
