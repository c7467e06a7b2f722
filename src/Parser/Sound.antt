-- ===== src/Parser/Sound.antt =====
-- Where the frames that Transport::parse_frames of wsg50_driver/src/transport.cpp hands over stand
-- in the buffer.
use wsg50_ros2_humble.Base.{
  ℕ, zero, suc, ◌+◌, ◌≤◌, ◌≡◌, inl, inr, refl, sym, ap, ◌∙◌, true, List, [], ◌∷◌, ◌++◌,
  append_assoc, none, Option-cases, arith, length, take, drop, get_or, take-append-drop,
  length-take, length-drop, Outcome, returns, ◌>>=◌,
}
use wsg50_ros2_humble.Wire.Bytes.{Bytes, read_u16}
use wsg50_ros2_humble.Wire.Crc.{crc16}
use wsg50_ros2_humble.Parser.{
  again, frame, at_preamble, search_preamble, frame_round, after_search, parse_round, parse_frames,
}
use wsg50_ros2_humble.Parser.Search.{search_preamble-some}
use wsg50_ros2_humble.Parser.Rounds.{
  parse_round_long, parse_round_short, parse_round-some, lt_or_le,
}
use wsg50_ros2_humble.Parser.Frames.{
  Frame, Decodes, halts, skips, takes, decode_total, run_frames, parse_frames-Decodes,
}

-- The bytes of a frame that passes every test.
pub record IsWire (max : ℕ) (f : Frame) (wire : Bytes) : Type 0 where
  pub low : ℕ
  pub high : ℕ
  pub tail : Bytes
  pub shape : wire ≡ 0xaa ∷ 0xaa ∷ 0xaa ∷ f.id ∷ low ∷ high ∷ (f.payload ++ tail)
  pub size : length f.payload ≡ read_u16 (low ∷ high ∷ [])
  pub tail_size : length tail ≡ 2
  pub fits : length f.payload ≤ max
  pub checked : crc16 wire ≡ 0

-- The frames stand in the buffer one behind the other, with other bytes before each.
pub data Contains (max : ℕ) : Bytes → List Frame → Type 0 where
  nothing : {b : Bytes} → Contains max b []
  behind :
      {b rest : Bytes} {f : Frame} {fs : List Frame} (skipped wire : Bytes)
      → b ≡ skipped ++ (wire ++ rest)
      → IsWire max f wire
      → Contains max rest fs
      → Contains max b (f ∷ fs)

take_two {ℓ} :
    {A : Type ℓ} (n : ℕ) (xs : List A) → take (suc (suc n)) xs ≡ take n xs ++ take 2 (drop n xs)
take_two zero xs = refl
take_two (suc n) [] = refl
take_two (suc n) (x ∷ xs) = ap (◌∷◌ x) (take_two n xs)

take_eight {ℓ} :
    {A : Type ℓ} (n : ℕ) (a b c d e f : A) (r : List A)
    → take (8 + n) (a ∷ b ∷ c ∷ d ∷ e ∷ f ∷ r)
      ≡ a ∷ b ∷ c ∷ d ∷ e ∷ f ∷ (take n r ++ take 2 (drop n r))
take_eight {A} n a b c d e f r =
    let sum : 8 + n ≡ suc (suc (suc (suc (suc (suc (suc (suc n))))))) = omega arith in
    rw sum (ap (λ (t : List A). a ∷ b ∷ c ∷ d ∷ e ∷ f ∷ t) (take_two n r))

-- The tests that a frame has passed.
record Passed (max : ℕ) (b : Bytes) (id : ℕ) (payload left : Bytes) : Type 0 where
  size : ℕ
  size_eq : read_u16 (drop 4 b) ≡ size
  fits : size ≤ max
  enough : 8 + size ≤ length b
  checked : crc16 (take (8 + size) b) ≡ 0
  id_eq : id ≡ get_or b 3 0
  payload_eq : payload ≡ take size (drop 6 b)
  left_eq : left ≡ drop (8 + size) b

frame_round-Passed :
    (max : ℕ) (b : Bytes) {id : ℕ} {payload left : Bytes}
    → frame_round max b ≡ frame id payload left
    → Passed max b id payload left
unfolding frame_round
frame_round-Passed max b h = record {
  size = read_u16 (drop 4 b);
  size_eq = refl;
  fits = ground arith;
  enough = ground arith;
  checked = ground arith;
  id_eq = ground arith;
  payload_eq = ground arith;
  left_eq = ground arith;
}

at_preamble_bytes :
    (a b c : ℕ) (rest : Bytes)
    → at_preamble (a ∷ b ∷ c ∷ rest) ≡ true
    → (a ≡ 0xaa) × (b ≡ 0xaa) × (c ≡ 0xaa)
unfolding at_preamble
at_preamble_bytes a b c rest h = ground arith

Passed-IsWire :
    (max : ℕ) (found : Bytes) {id : ℕ} {payload left : Bytes}
    → at_preamble found ≡ true
    → Passed max found id payload left
    → (wire : Bytes) × (found ≡ wire ++ left)
      × IsWire max (record { id = id; payload = payload }) wire
unfolding read_u16
Passed-IsWire max (a ∷ b ∷ c ∷ d ∷ e ∷ f ∷ r) {id} {payload} {left} p h = (
  take (8 + h.size) (a ∷ b ∷ c ∷ d ∷ e ∷ f ∷ r),
  rw h.left_eq (sym (take-append-drop (8 + h.size) _)),
  record {
    low = e;
    high = f;
    tail = take 2 (drop h.size r);
    shape = shape;
    size = size ∙ sym h.size_eq;
    tail_size = omega (arith, length-take 2 (drop h.size r), length-drop h.size r, h.enough);
    fits = omega (arith, size, h.fits);
    checked = h.checked;
  },
)
  where
    size : length payload ≡ h.size
    size = omega (arith, ap length h.payload_eq, length-take h.size r, h.enough)

    shape :
        take (8 + h.size) (a ∷ b ∷ c ∷ d ∷ e ∷ f ∷ r)
        ≡ 0xaa ∷ 0xaa ∷ 0xaa ∷ id ∷ e ∷ f ∷ (payload ++ take 2 (drop h.size r))
    shape =
        let bytes = at_preamble_bytes a b c (d ∷ e ∷ f ∷ r) p in
        cc (take_eight h.size a b c d e f r, bytes.0, bytes.1, bytes.2, h.id_eq, h.payload_eq)
Passed-IsWire max _ p h = absurd (omega (arith, h.enough))

parse_round-IsWire :
    (max : ℕ) (b : Bytes) {id : ℕ} {payload left : Bytes}
    → parse_round max b ≡ frame id payload left
    → (skipped : Bytes) × (wire : Bytes) × (b ≡ skipped ++ (wire ++ left))
      × IsWire max (record { id = id; payload = payload }) wire
parse_round-IsWire max b {id} {payload} {left} h = elim (lt_or_le (length b) 8) [
  | inl short ↦ let e = parse_round_short max b short in cc
  | inr long ↦ elim (Option-cases (search_preamble b)) [
    | inl absent ↦
        let e = parse_round_long max b long ∙ ap (after_search max b) absent in
        absurd (missing (sym e ∙ h))
    | inr (found, present) ↦
        let (skipped, split, at) = search_preamble-some b present in
        let e = parse_round-some max b long present in
        let (wire, whole, good) =
          Passed-IsWire max found at (frame_round-Passed max found (sym e ∙ h)) in
        (skipped, wire, split ∙ ap (◌++◌ skipped) whole, good)
  ]
]
  where
    missing : after_search max b none ≡ frame id payload left → ⊥
    missing e = unfold after_search in cc

-- A round that goes on has only erased bytes at the front.
again_drops :
    (max : ℕ) (found : Bytes) {left : Bytes}
    → frame_round max found ≡ again left
    → left ≡ drop 1 found
unfolding frame_round
again_drops max found h = ground arith

parse_round_again :
    (max : ℕ) (b : Bytes) {left : Bytes}
    → parse_round max b ≡ again left
    → (skipped : Bytes) × (b ≡ skipped ++ left)
parse_round_again max b {left} h = elim (lt_or_le (length b) 8) [
  | inl short ↦ let e = parse_round_short max b short in cc
  | inr long ↦ elim (Option-cases (search_preamble b)) [
    | inl absent ↦
        let e = parse_round_long max b long ∙ ap (after_search max b) absent in
        absurd (missing (sym e ∙ h))
    | inr (found, present) ↦
        let (skipped, split, at) = search_preamble-some b present in
        let e = again_drops max found (sym (parse_round-some max b long present) ∙ h) in
        (
          skipped ++ take 1 found,
          split
              ∙ ap (◌++◌ skipped)
                  (sym (take-append-drop 1 found) ∙ ap (◌++◌ (take 1 found)) (sym e))
              ∙ sym (append_assoc skipped (take 1 found) left),
        )
  ]
]
  where
    missing : after_search max b none ≡ again left → ⊥
    missing e = unfold after_search in cc

Contains-behind :
    {max : ℕ} {b left : Bytes} {fs : List Frame} (skipped : Bytes)
    → b ≡ skipped ++ left
    → Contains max left fs
    → Contains max b fs
Contains-behind skipped e nothing = nothing
Contains-behind skipped e (behind {rest} more wire e' good c) =
    behind (skipped ++ more) wire
      (e ∙ ap (◌++◌ skipped) e' ∙ sym (append_assoc skipped more (wire ++ rest))) good c

Decodes-Contains :
    {max : ℕ} {b left : Bytes} {fs : List Frame} → Decodes max b fs left → Contains max b fs
Decodes-Contains (halts e) = nothing
Decodes-Contains {max} {b} (skips e d) =
    let (skipped, split) = parse_round_again max b e in
    Contains-behind skipped split (Decodes-Contains d)
Decodes-Contains {max} {b} (takes id payload e d) =
    let (skipped, wire, split, good) = parse_round-IsWire max b e in
    behind skipped wire split good (Decodes-Contains d)

-- Whatever the buffer holds, parse_frames does to the state what its handler does for a list
-- of frames, in order, that stand in the buffer one behind the other, each with preamble, id,
-- size, payload and two more bytes, a payload within the limit and the checksum 0.
pub parse_frames_sound {ℓ} :
    {S : Type ℓ} (handle : ℕ → Bytes → S → Outcome S) (max : ℕ) (b : Bytes) (s : S)
    → (fs : List Frame) × (left : Bytes) × (parse_frames handle max b s
        ≡ (run_frames handle fs s >>= λ s'. returns (left, s')))
      × Contains max b fs
parse_frames_sound handle max b s =
    let d = decode_total max b in
    (d.frames, d.left, parse_frames-Decodes handle max s d.decodes, Decodes-Contains d.decodes)
