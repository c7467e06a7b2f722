-- ===== src/Parser/Search.antt =====
-- The search for the preamble in Transport::parse_frames of wsg50_driver/src/transport.cpp, and the
-- bytes that are kept when there is none: what they mean for the bytes that come later.
use mathlib.Core.List.{reverse-cons, reverse-reverse}
use wsg50_ros2_humble.Base.{
  ℕ, ◌-◌, ◌≤◌, ◌≡◌, ◌≢◌, inl, inr, refl, sym, ap, ◌∙◌, not, ◌==◌, Bool, true, false, [], ◌∷◌, ◌++◌,
  append_assoc, append-nil, none, some, arith, Bool-cases, length, length-append, drop, drop-append,
  length-drop, reverse, subst,
}
use wsg50_ros2_humble.Wire.Bytes.{Bytes}
use wsg50_ros2_humble.Parser.{at_preamble, search_preamble, keep_loop, keep_tail}

pub at_preamble-append : (xs ys : Bytes) → at_preamble xs ≡ true → at_preamble (xs ++ ys) ≡ true
unfolding at_preamble
at_preamble-append [] ys h = cc
at_preamble-append (a ∷ []) ys h = cc
at_preamble-append (a ∷ b ∷ []) ys h = cc
at_preamble-append (a ∷ b ∷ c ∷ rest) ys h = h

pub search_preamble_found : (xs : Bytes) → at_preamble xs ≡ true → search_preamble xs ≡ some xs
unfolding search_preamble
search_preamble_found [] h = cc
search_preamble_found (x ∷ xs) h = rw h

-- What is found is an end of the buffer, and starts with a preamble.
pub search_preamble-some :
    (xs : Bytes) {found : Bytes}
    → search_preamble xs ≡ some found
    → (skipped : Bytes) × (xs ≡ skipped ++ found) × (at_preamble found ≡ true)
unfolding search_preamble
search_preamble-some [] h = cc
search_preamble-some (x ∷ xs) {found} h = elim (Bool-cases (at_preamble (x ∷ xs))) [
  | inl e ↦ ([], ground arith, ground arith)
  | inr e ↦
      let (skipped, split, at) = search_preamble-some xs {found = found} (ground arith) in
      (x ∷ skipped, ap (◌∷◌ x) split, at)
]

length-at_preamble : (xs : Bytes) → at_preamble xs ≡ true → 3 ≤ length xs
unfolding at_preamble
length-at_preamble [] h = cc
length-at_preamble (a ∷ []) h = cc
length-at_preamble (a ∷ b ∷ []) h = cc
length-at_preamble (a ∷ b ∷ c ∷ rest) h = omega arith

at_preamble-append_long : (xs ys : Bytes) → 3 ≤ length xs → at_preamble (xs ++ ys) ≡ at_preamble xs
unfolding at_preamble
at_preamble-append_long [] ys h = absurd (omega arith)
at_preamble-append_long (a ∷ []) ys h = absurd (omega arith)
at_preamble-append_long (a ∷ b ∷ []) ys h = absurd (omega arith)
at_preamble-append_long (a ∷ b ∷ c ∷ rest) ys h = refl

pub length-search_preamble :
    (xs : Bytes) {found : Bytes}
    → search_preamble xs ≡ some found
    → (3 ≤ length found) × (length found ≤ length xs)
length-search_preamble xs {found} h =
    let (skipped, split, at) = search_preamble-some xs h in
    let sizes = ap length split ∙ length-append skipped found in
    (length-at_preamble found at, omega (arith, sizes))

-- A search that succeeds finds the same place when more bytes follow.
pub search_preamble-append :
    (xs ys : Bytes) {found : Bytes}
    → search_preamble xs ≡ some found
    → search_preamble (xs ++ ys) ≡ some (found ++ ys)
unfolding search_preamble
search_preamble-append [] ys h = cc
search_preamble-append (x ∷ xs) ys {found} h = elim (Bool-cases (at_preamble (x ∷ xs))) [
  | inl e ↦ ground (arith, at_preamble-append (x ∷ xs) ys e)
  | inr e ↦
      let later : search_preamble xs ≡ some found = ground arith in
      let sizes = length-search_preamble xs later in
      ground (
        arith,
        at_preamble-append_long (x ∷ xs) ys (omega (arith, sizes.0, sizes.1)),
        search_preamble-append xs ys later,
      )
]

-- The bytes do not end in a preamble byte.
abbrev pub ends_clean : Bytes → Bool
ends_clean [] = true
ends_clean (x ∷ []) = not (x == 0xaa)
ends_clean (x ∷ y ∷ rest) = ends_clean (y ∷ rest)

ends_clean-concat : (xs : Bytes) (b : ℕ) → ends_clean (xs ++ b ∷ []) ≡ not (b == 0xaa)
ends_clean-concat [] b = refl
ends_clean-concat (x ∷ []) b = refl
ends_clean-concat (x ∷ y ∷ rest) b = ends_clean-concat (y ∷ rest) b

-- A preamble that starts before a clean end lies before it.
at_preamble_before_end :
    (xs t ys : Bytes)
    → xs ≢ []
    → ends_clean xs ≡ true
    → at_preamble (xs ++ t) ≡ false
    → at_preamble (xs ++ ys) ≡ false
unfolding at_preamble
at_preamble_before_end [] t ys ne c h = absurd (ne refl)
at_preamble_before_end (x ∷ []) t [] ne c h = refl
at_preamble_before_end (x ∷ []) t (y ∷ []) ne c h = refl
at_preamble_before_end (x ∷ []) t (y ∷ z ∷ ys) ne c h = ground arith
at_preamble_before_end (x ∷ y ∷ []) t [] ne c h = refl
at_preamble_before_end (x ∷ y ∷ []) t (z ∷ ys) ne c h = ground arith
at_preamble_before_end (x ∷ y ∷ z ∷ rest) t ys ne c h = h

pub search_past_clean_end :
    (xs t ys : Bytes)
    → ends_clean xs ≡ true
    → search_preamble (xs ++ t) ≡ none
    → search_preamble (xs ++ ys) ≡ search_preamble ys
unfolding search_preamble
search_past_clean_end [] t ys c h = refl
search_past_clean_end (x ∷ []) t ys c h =
    rw (at_preamble_before_end (x ∷ []) [] ys (λ e. cc) c (unfold at_preamble in refl))
search_past_clean_end (x ∷ y ∷ rest) t ys c h =
    let absent : at_preamble (x ∷ y ∷ (rest ++ t)) ≡ false = ground arith in
    let later : search_preamble (y ∷ (rest ++ t)) ≡ none = ground arith in
    rw (at_preamble_before_end (x ∷ y ∷ rest) t ys (λ e. cc) c absent)
      (search_past_clean_end (y ∷ rest) t ys c later)

search_preamble_at_end : (xs : Bytes) → search_preamble (xs ++ 0xaa ∷ 0xaa ∷ 0xaa ∷ []) ≢ none
unfolding search_preamble
search_preamble_at_end [] h = cc
search_preamble_at_end (x ∷ xs) h = search_preamble_at_end xs (ground arith)

-- The bytes that keep_loop counts are an end of the buffer, behind a clean end.
record Kept (buffer : Bytes) (keep : ℕ) : Type 0 where
  before : Bytes
  kept : Bytes
  split : buffer ≡ before ++ kept
  clean : ends_clean before ≡ true
  size : length kept ≡ keep

-- The loop stops at a byte that is no preamble byte, with `kept` read so far.
stopped-Kept :
    (b : ℕ) (r kept : Bytes) → (b == 0xaa) ≡ false → Kept (reverse (b ∷ r) ++ kept) (length kept)
stopped-Kept b r kept miss = record {
  before = reverse (b ∷ r);
  kept = kept;
  split = refl;
  clean = rw (reverse-cons b r) (ends_clean-concat (reverse r) b ∙ ap not miss);
  size = refl;
}

hit_eq : (b : ℕ) → (b == 0xaa) ≡ true → b ≡ 0xaa
hit_eq b h = ground arith

regroup : (b : ℕ) (r kept : Bytes) → b ≡ 0xaa → reverse (b ∷ r) ++ kept ≡ reverse r ++ 0xaa ∷ kept
regroup b r kept e = rw (reverse-cons b r, append_assoc (reverse r) (b ∷ []) kept, e)

-- Behind two preamble bytes there is no third, or the search had found it.
two_Kept :
    (r : Bytes)
    → search_preamble (reverse r ++ 0xaa ∷ 0xaa ∷ []) ≡ none
    → Kept (reverse r ++ 0xaa ∷ 0xaa ∷ []) (keep_loop r 2)
unfolding keep_loop
two_Kept [] h = record { before = []; kept = _; split = refl; clean = refl; size = refl }
two_Kept (d ∷ r) h = elim (Bool-cases (d == 0xaa)) [
  | inl hit ↦ absurd (
      search_preamble_at_end (reverse r)
        (ap search_preamble (sym (regroup d r (0xaa ∷ 0xaa ∷ []) (hit_eq d hit))) ∙ h))
  | inr miss ↦ stopped-Kept d r (0xaa ∷ 0xaa ∷ []) miss
]

one_Kept :
    (r : Bytes)
    → search_preamble (reverse r ++ 0xaa ∷ []) ≡ none
    → Kept (reverse r ++ 0xaa ∷ []) (keep_loop r 1)
unfolding keep_loop
one_Kept [] h = record { before = []; kept = _; split = refl; clean = refl; size = refl }
one_Kept (c ∷ r) h = elim (Bool-cases (c == 0xaa)) [
  | inl hit ↦
      let e = regroup c r (0xaa ∷ []) (hit_eq c hit) in
      rw (hit, e) (two_Kept r (ap search_preamble (sym e) ∙ h))
  | inr miss ↦ rw miss (stopped-Kept c r (0xaa ∷ []) miss)
]

keep_loop-Kept :
    (backwards : Bytes)
    → search_preamble (reverse backwards ++ []) ≡ none
    → Kept (reverse backwards ++ []) (keep_loop backwards 0)
unfolding keep_loop
keep_loop-Kept [] h = record { before = []; kept = []; split = refl; clean = refl; size = refl }
keep_loop-Kept (b ∷ r) h = elim (Bool-cases (b == 0xaa)) [
  | inl hit ↦
      let e = regroup b r [] (hit_eq b hit) in
      rw (hit, e) (one_Kept r (ap search_preamble (sym e) ∙ h))
  | inr miss ↦ rw miss (stopped-Kept b r [] miss)
]

search-Kept :
    (buffer : Bytes) → search_preamble buffer ≡ none → Kept buffer (keep_loop (reverse buffer) 0)
search-Kept buffer h =
    let e = append-nil (reverse (reverse buffer)) ∙ reverse-reverse buffer in
    subst (λ (x : Bytes). Kept x (keep_loop (reverse buffer) 0)) e
      (keep_loop-Kept (reverse buffer) (ap search_preamble e ∙ h))

keep_tail-eq :
    (buffer : Bytes) (k : Kept buffer (keep_loop (reverse buffer) 0)) → keep_tail buffer ≡ k.kept
unfolding keep_tail
keep_tail-eq buffer k =
    let sizes = ap length k.split ∙ length-append k.before k.kept in
    ap (drop (length buffer - keep_loop (reverse buffer) 0)) k.split
    ∙ drop-append _ k.before k.kept (omega (arith, sizes, k.size))

-- Where there is no preamble, the bytes that are kept do for a search what all the bytes do,
-- whatever follows them.
pub search_preamble-keep_tail :
    (buffer ys : Bytes)
    → search_preamble buffer ≡ none
    → search_preamble (buffer ++ ys) ≡ search_preamble (keep_tail buffer ++ ys)
search_preamble-keep_tail buffer ys h =
    ap (λ (x : Bytes). search_preamble (x ++ ys)) k.split
    ∙ ap search_preamble (append_assoc k.before k.kept ys)
    ∙ search_past_clean_end k.before k.kept (k.kept ++ ys) k.clean
        (ap search_preamble (sym k.split) ∙ h)
    ∙ ap (λ (x : Bytes). search_preamble (x ++ ys)) (sym (keep_tail-eq buffer k))
  where
    k : Kept buffer (keep_loop (reverse buffer) 0)
    k = search-Kept buffer h

pub length-keep_tail : (buffer : Bytes) → length (keep_tail buffer) ≤ length buffer
unfolding keep_tail
length-keep_tail buffer = omega (arith, length-drop _ buffer)
