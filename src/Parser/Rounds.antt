-- ===== src/Parser/Rounds.antt =====
-- One round of the loop of Transport::parse_frames in wsg50_driver/src/transport.cpp: the
-- length of the buffer, and bytes that arrive later.
use wsg50_ros2_humble.Base.{
  ℕ, ◌+◌, ◌≤◌, ◌<◌, ◌≡◌, ◌⊎◌, inl, inr, refl, sym, ap, ◌∙◌, ◌++◌, none, some, arith, Option-cases,
  ltb, if◌then◌else◌, length, length-append, drop, take-append_le, drop-append_le, get_or-append_lt,
  length-drop,
}
use wsg50_ros2_humble.Wire.Bytes.{Bytes, read_u16}
use wsg50_ros2_humble.Parser.{
  Round, stop, again, frame, search_preamble, keep_tail, frame_round, after_search, parse_round,
}
use wsg50_ros2_humble.Parser.Search.{
  length-search_preamble, search_preamble-append, search_preamble-some, search_preamble_found,
  search_preamble-keep_tail, length-keep_tail, at_preamble-append,
}

-- Bytes that follow a round's buffer: they wait behind what the round leaves.
abbrev pub extend : Round → Bytes → Round
extend (stop left) ys = stop (left ++ ys)
extend (again left) ys = again (left ++ ys)
extend (frame id payload left) ys = frame id payload (left ++ ys)

-- The round hands over control: it does not end the loop.
abbrev pub Continues : Round → ℕ → Type 0
Continues (stop left) n = ⊥
Continues (again left) n = length left < n
Continues (frame id payload left) n = length left < n

read_u16-drop-append :
    (b ys : Bytes) → 8 ≤ length b → read_u16 (drop 4 (b ++ ys)) ≡ read_u16 (drop 4 b)
unfolding read_u16
read_u16-drop-append b ys h =
    let rest = length-drop 4 b in
    rw (drop-append_le 4 b ys (omega arith))
      (ground (arith, get_or-append_lt 0 0 (drop 4 b) ys, get_or-append_lt 1 0 (drop 4 b) ys, rest))

frame_round-Continues :
    (max : ℕ) (b : Bytes) → (frame_round max b ≡ stop b) ⊎ Continues (frame_round max b) (length b)
unfolding frame_round
frame_round-Continues max b =
    ground (arith, length-drop 1 b, length-drop (8 + read_u16 (drop 4 b)) b)

frame_round-extend :
    (max : ℕ) (b ys : Bytes)
    → (frame_round max b ≡ stop b) ⊎ (frame_round max (b ++ ys) ≡ extend (frame_round max b) ys)
unfolding frame_round
frame_round-extend max b ys =
    let size = read_u16 (drop 4 b) in
    ground (
      arith,
      length-append b ys,
      read_u16-drop-append b ys,
      length-drop 6 b,
      drop-append_le 1 b ys,
      drop-append_le 6 b ys,
      drop-append_le (8 + size) b ys,
      take-append_le (8 + size) b ys,
      take-append_le size (drop 6 b) ys,
      get_or-append_lt 3 0 b ys,
    )

pub lt_or_le : (a b : ℕ) → (a < b) ⊎ (b ≤ a)
lt_or_le a b = grind arith

abbrev Stops : Round → Type 0
Stops r = (left : Bytes) × (r ≡ stop left)

-- Two rounds do the same, or both end the loop.
abbrev pub Alike : Round → Round → Type 0
Alike a b = (a ≡ b) ⊎ (Stops a × Stops b)

frame_round_short : (max : ℕ) (b : Bytes) → length b < 8 → frame_round max b ≡ stop b
unfolding frame_round
frame_round_short max b h = ground arith

pub parse_round_short : (max : ℕ) (b : Bytes) → length b < 8 → parse_round max b ≡ stop b
unfolding parse_round
parse_round_short max b h = ground arith

pub parse_round_long :
    (max : ℕ) (b : Bytes)
    → 8 ≤ length b
    → parse_round max b ≡ after_search max b (search_preamble b)
unfolding parse_round
parse_round_long max b h = ground arith

parse_round-none : (max : ℕ) (b : Bytes) → search_preamble b ≡ none → Stops (parse_round max b)
unfolding parse_round after_search
parse_round-none max b e = (if ltb (length b) 8 then b else keep_tail b, ground arith)

pub parse_round-some :
    (max : ℕ) (b : Bytes) {found : Bytes}
    → 8 ≤ length b
    → search_preamble b ≡ some found
    → parse_round max b ≡ frame_round max found
unfolding after_search
parse_round-some max b h e = parse_round_long max b h ∙ ap (after_search max b) e

-- Where little is found, the round ends the loop.
parse_round-some_short :
    (max : ℕ) (b : Bytes) {found : Bytes}
    → length found < 8
    → search_preamble b ≡ some found
    → Stops (parse_round max b)
parse_round-some_short max b {found} h e = elim (lt_or_le (length b) 8) [
  | inl short ↦ (b, parse_round_short max b short)
  | inr long ↦ (found, parse_round-some max b long e ∙ frame_round_short max found h)
]

-- Only what the search finds counts, once the buffer is not too short.
same_search :
    (max : ℕ) (ws zs : Bytes)
    → length zs ≤ length ws
    → search_preamble ws ≡ search_preamble zs
    → Alike (parse_round max ws) (parse_round max zs)
same_search max ws zs h e = elim (Option-cases (search_preamble zs)) [
  | inl absent ↦ inr (parse_round-none max ws (e ∙ absent), parse_round-none max zs absent)
  | inr (found, present) ↦ elim (lt_or_le (length zs) 8) [
    | inl short ↦
        let sizes = length-search_preamble zs present in
        inr (
          parse_round-some_short max ws (omega (arith, sizes)) (e ∙ present),
          (zs, parse_round_short max zs short),
        )
    | inr long ↦ inl (
        parse_round-some max ws (omega arith) (e ∙ present)
        ∙ sym (parse_round-some max zs long present))
  ]
]

-- What a round of the loop does when more bytes follow: the same as without them, if the loop goes
-- on; or else what the round does on the buffer that was left, with those bytes behind it.
pub data Resumes (max : ℕ) (xs ys : Bytes) : Type 0 where
  later :
      (left : Bytes)
      → parse_round max xs ≡ stop left
      → Alike (parse_round max (xs ++ ys)) (parse_round max (left ++ ys))
      → Resumes max xs ys
  now :
      Continues (parse_round max xs) (length xs)
      → parse_round max (xs ++ ys) ≡ extend (parse_round max xs) ys
      → Resumes max xs ys

Continues-mono : (r : Round) {m n : ℕ} → m ≤ n → Continues r m → Continues r n
Continues-mono (stop left) h c = c
Continues-mono (again left) h c = omega arith
Continues-mono (frame id payload left) h c = omega arith

found-Resumes :
    (max : ℕ) (xs ys found : Bytes)
    → 8 ≤ length xs
    → search_preamble xs ≡ some found
    → Resumes max xs ys
found-Resumes max xs ys found long e =
    pick (frame_round-Continues max found) (frame_round-extend max found ys)
  where
    sizes : (3 ≤ length found) × (length found ≤ length xs)
    sizes = length-search_preamble xs e

    here : parse_round max xs ≡ frame_round max found
    here = parse_round-some max xs long e

    there : parse_round max (xs ++ ys) ≡ frame_round max (found ++ ys)
    there =
        parse_round-some max (xs ++ ys) (omega (arith, length-append xs ys))
          (search_preamble-append xs ys e)

    stops : frame_round max found ≡ stop found → Resumes max xs ys
    stops s =
        let (_, _, at) = search_preamble-some xs e in
        later found (here ∙ s) (
          same_search max (xs ++ ys) (found ++ ys)
            (omega (arith, sizes.1, length-append xs ys, length-append found ys))
            (search_preamble-append xs ys e
              ∙ sym (search_preamble_found (found ++ ys) (at_preamble-append found ys at))))

    pick :
        (frame_round max found ≡ stop found) ⊎ Continues (frame_round max found) (length found)
        → (frame_round max found ≡ stop found)
          ⊎ (frame_round max (found ++ ys) ≡ extend (frame_round max found) ys)
        → Resumes max xs ys
    pick (inl s) _ = stops s
    pick (inr c) (inl s) = stops s
    pick (inr c) (inr x) =
        now (rw here (Continues-mono (frame_round max found) sizes.1 c))
          (there ∙ x ∙ ap (λ r. extend r ys) (sym here))

pub parse_round-Resumes : (max : ℕ) (xs ys : Bytes) → Resumes max xs ys
parse_round-Resumes max xs ys = elim (lt_or_le (length xs) 8) [
  | inl short ↦ later xs (parse_round_short max xs short) (inl refl)
  | inr long ↦ elim (Option-cases (search_preamble xs)) [
    | inl absent ↦
        later (keep_tail xs)
          (parse_round_long max xs long
            ∙ ap (after_search max xs) absent
            ∙ (unfold after_search in refl))
          (same_search max (xs ++ ys) (keep_tail xs ++ ys)
            (omega
              (arith, length-keep_tail xs, length-append xs ys, length-append (keep_tail xs) ys))
            (search_preamble-keep_tail xs ys absent))
    | inr (found, present) ↦ found-Resumes max xs ys found long present
  ]
]
