-- ===== src/Parser/Frames.antt =====
-- The frames in a buffer, as the loop of Transport::parse_frames in
-- wsg50_driver/src/transport.cpp takes them out, and what the loop does with them for any handler.
use wsg50_ros2_humble.Base.{
  ℕ, zero, suc, ◌<◌, ◌≡◌, refl, sym, subst, ◌∙◌, List, [], ◌∷◌, arith, length, Outcome, returns,
  ◌>>=◌, >>=-congr, >>=-assoc,
}
use wsg50_ros2_humble.Wire.Bytes.{Bytes}
use wsg50_ros2_humble.Parser.{Round, stop, again, frame, parse_round, parse_loop, parse_frames}
use wsg50_ros2_humble.Parser.Rounds.{Continues, Resumes, later, now, parse_round-Resumes}

pub record Frame : Type 0 where
  pub id : ℕ
  pub payload : Bytes

-- The rounds from a buffer, the frames that they give, and the bytes that are left.
pub data Decodes (max : ℕ) : Bytes → List Frame → Bytes → Type 0 where
  halts : {b left : Bytes} → parse_round max b ≡ stop left → Decodes max b [] left
  skips :
      {b b' : Bytes} {fs : List Frame} {left : Bytes}
      → parse_round max b ≡ again b'
      → Decodes max b' fs left
      → Decodes max b fs left
  takes :
      {b b' : Bytes} {fs : List Frame} {left : Bytes} (id : ℕ) (payload : Bytes)
      → parse_round max b ≡ frame id payload b'
      → Decodes max b' fs left
      → Decodes max b (record { id = id; payload = payload } ∷ fs) left

-- Every buffer decodes.
pub record Decoded (max : ℕ) (b : Bytes) : Type 0 where
  pub frames : List Frame
  pub left : Bytes
  pub decodes : Decodes max b frames left

-- A buffer decodes in one way.
pub Decodes-unique :
    {max : ℕ} {b left left' : Bytes} {fs gs : List Frame}
    → Decodes max b fs left
    → Decodes max b gs left'
    → fs ≡ gs
Decodes-unique (halts e) (halts e') = refl
Decodes-unique (halts e) (skips e' d') = cc
Decodes-unique (halts e) (takes id payload e' d') = cc
Decodes-unique (skips e d) (halts e') = cc
Decodes-unique {max} {left'} {gs} (skips {b'} e d) (skips {b' = c} e' d') =
    let same : c ≡ b' = cc in Decodes-unique d (subst (λ x. Decodes max x gs left') same d')
Decodes-unique (skips e d) (takes id payload e' d') = cc
Decodes-unique (takes id payload e d) (halts e') = cc
Decodes-unique (takes id payload e d) (skips e' d') = cc
Decodes-unique {max} {left'} (takes {b'} {fs} id payload e d)
      (takes {b' = c} {fs = gs} id' payload' e' d') =
    let same : c ≡ b' = cc in
    let rest = Decodes-unique d (subst (λ x. Decodes max x gs left') same d') in cc

again_shrinks :
    (max : ℕ) (b : Bytes) {b' : Bytes} → parse_round max b ≡ again b' → length b' < length b
again_shrinks max b {b'} e = shrinks (parse_round-Resumes max b [])
  where
    shrinks : Resumes max b [] → length b' < length b
    shrinks (later left h _) = cc
    shrinks (now c _) = subst (λ r. Continues r (length b)) e c

frame_shrinks :
    (max : ℕ) (b : Bytes) {id : ℕ} {payload b' : Bytes}
    → parse_round max b ≡ frame id payload b'
    → length b' < length b
frame_shrinks max b {b'} e = shrinks (parse_round-Resumes max b [])
  where
    shrinks : Resumes max b [] → length b' < length b
    shrinks (later left h _) = cc
    shrinks (now c _) = subst (λ r. Continues r (length b)) e c

decode_below : (max n : ℕ) (b : Bytes) → length b < n → Decoded max b
decode_below max zero b h = elim h [ ]
decode_below max (suc n) b h = by_round (parse_round max b) refl (decode_below max n)
  where
    by_round :
        (r : Round)
        → parse_round max b ≡ r
        → ((b' : Bytes) → length b' < n → Decoded max b')
        → Decoded max b
    by_round (stop left) e rest = record { frames = []; left = left; decodes = halts e }
    by_round (again b') e rest =
        let d = rest b' (omega (arith, again_shrinks max b e)) in
        record { frames = d.frames; left = d.left; decodes = skips e d.decodes }
    by_round (frame id payload b') e rest =
        let d = rest b' (omega (arith, frame_shrinks max b e)) in
        record { frames = _; left = d.left; decodes = takes id payload e d.decodes }

pub decode_total : (max : ℕ) (b : Bytes) → Decoded max b
decode_total max b = decode_below max (suc (length b)) b (omega arith)

-- The handler, called for each frame in turn.
unfoldable pub run_frames {ℓ} :
    {S : Type ℓ} → (ℕ → Bytes → S → Outcome S) → List Frame → S → Outcome S
run_frames handle [] s = returns s
run_frames handle (f ∷ fs) s = handle f.id f.payload s >>= run_frames handle fs

module _ {ℓ} {S : Type ℓ} (handle : ℕ → Bytes → S → Outcome S) (max : ℕ) where
  pub parse_loop-Decodes :
      {b left : Bytes} {fs : List Frame} (fuel : ℕ) (s : S)
      → length b < fuel
      → Decodes max b fs left
      → parse_loop handle max fuel b s ≡ (run_frames handle fs s >>= λ s'. returns (left, s'))
  unfolding parse_loop run_frames
  parse_loop-Decodes zero s h d = elim h [ ]
  parse_loop-Decodes (suc fuel) s h (halts e) = rw (e, parse_loop)
  parse_loop-Decodes {b} (suc fuel) s h (skips e d) =
      rw (e, parse_loop) (parse_loop-Decodes fuel s (omega (arith, again_shrinks max b e)) d)
  parse_loop-Decodes {b} (suc fuel) s h (takes id payload e d) =
      rw (e, parse_loop)
        (>>=-congr (handle id payload s)
            (λ s'. parse_loop-Decodes fuel s' (omega (arith, frame_shrinks max b e)) d)
          ∙ sym (>>=-assoc (handle id payload s) _ _))

  pub parse_frames-Decodes :
      {b left : Bytes} {fs : List Frame} (s : S)
      → Decodes max b fs left
      → parse_frames handle max b s ≡ (run_frames handle fs s >>= λ s'. returns (left, s'))
  unfolding parse_frames
  parse_frames-Decodes {b} s d = parse_loop-Decodes (suc (length b)) s (omega arith) d

  run_frames_total :
      (fs : List Frame) (s : S)
      → ((id : ℕ) (payload : Bytes) (t : S) → (t' : S) × (handle id payload t ≡ returns t'))
      → (s' : S) × (run_frames handle fs s ≡ returns s')
  unfolding run_frames
  run_frames_total [] s h = (s, refl)
  run_frames_total (f ∷ fs) s h =
      let (t, e) = h f.id f.payload s in let (s', e') = run_frames_total fs t h in (s', rw e e')

  -- For a handler that returns on every frame, the loop of parse_frames comes to its end on
  -- every buffer: with any fuel above the length of the buffer it returns, and what it
  -- returns is what parse_frames returns.
  pub parse_loop_enough :
      (b : Bytes) (s : S) (fuel : ℕ)
      → length b < fuel
      → ((id : ℕ) (payload : Bytes) (t : S) → (t' : S) × (handle id payload t ≡ returns t'))
      → (x : Bytes × S) × (parse_loop handle max fuel b s ≡ returns x)
        × (parse_frames handle max b s ≡ returns x)
  parse_loop_enough b s fuel h handled =
      let d = decode_total max b in
      let (s', e) = run_frames_total d.frames s handled in
      let returned : (run_frames handle d.frames s >>= λ t. returns (d.left, t))
          ≡ returns (d.left, s') =
        rw e refl in
      (
        (d.left, s'),
        parse_loop-Decodes fuel s h d.decodes ∙ returned,
        parse_frames-Decodes s d.decodes ∙ returned,
      )
