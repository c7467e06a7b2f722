-- ===== src/Parser/Fragments.antt =====
-- The cuts of the TCP stream into the appends of Transport::receive_available in
-- wsg50_driver/src/transport.cpp, and the loop of Transport::parse_frames.
use mathlib.Core.List.{flatten}
use wsg50_ros2_humble.Base.{
  ℕ, ◌≡◌, inl, inr, refl, sym, ap, subst, ◌∙◌, List, [], ◌∷◌, ◌++◌, append_assoc, append-nil,
  length, Outcome, returns, throws, waits, ◌>>=◌, >>=-congr, >>=-assoc,
}
use wsg50_ros2_humble.Wire.Bytes.{Bytes}
use wsg50_ros2_humble.Parser.{stop, parse_round, parse_frames, receive_chunks}
use wsg50_ros2_humble.Parser.Rounds.{
  Continues, extend, Alike, Resumes, later, now, parse_round-Resumes,
}
use wsg50_ros2_humble.Parser.Frames.{
  Frame, Decodes, halts, skips, takes, Decoded, decode_total, run_frames, parse_frames-Decodes,
}

Decodes-same :
    {max : ℕ} (a b : Bytes) {fs : List Frame} {left : Bytes}
    → parse_round max b ≡ parse_round max a
    → Decodes max a fs left
    → Decodes max b fs left
Decodes-same a b e (halts h) = halts (e ∙ h)
Decodes-same a b e (skips h d) = skips (e ∙ h) d
Decodes-same a b e (takes id payload h d) = takes id payload (e ∙ h) d

Decodes-stop :
    {max : ℕ} {a left x : Bytes} {fs : List Frame}
    → parse_round max a ≡ stop x
    → Decodes max a fs left
    → fs ≡ []
Decodes-stop e (halts h) = refl
Decodes-stop e (skips h d) = cc
Decodes-stop e (takes id payload h d) = cc

-- The buffer `b` gives exactly the frames `fs`.
abbrev pub Gives : ℕ → Bytes → List Frame → Type 0
Gives max b fs = (left : Bytes) × Decodes max b fs left

Alike-Gives :
    {max : ℕ} {fs : List Frame} {left : Bytes} (a b : Bytes)
    → Alike (parse_round max b) (parse_round max a)
    → Decodes max a fs left
    → Gives max b fs
Alike-Gives {max} {fs} {left} a b (inl e) d = (left, Decodes-same a b e d)
Alike-Gives {max} a b (inr ((x, e), (y, h))) d =
    (x, subst (λ z. Decodes max b z x) (sym (Decodes-stop h d)) (halts e))

-- Frames of a buffer, then those of what it left with more bytes behind it, are the frames of all
-- the bytes together.
pub Decodes-append :
    {max : ℕ} {b left : Bytes} {fs gs : List Frame} {rest : Bytes} (ys : Bytes)
    → Decodes max b fs left
    → Decodes max (left ++ ys) gs rest
    → Gives max (b ++ ys) (fs ++ gs)
Decodes-append {max} {b} {left} {gs} {rest} ys (halts e) next =
    resume (parse_round-Resumes max b ys)
  where
    resume : Resumes max b ys → Gives max (b ++ ys) gs
    resume (later x h alike) =
        let same : x ≡ left = cc in
        Alike-Gives (left ++ ys) (b ++ ys)
          (subst (λ (z : Bytes). Alike (parse_round max (b ++ ys)) (parse_round max (z ++ ys))) same
            alike)
          next
    resume (now c _) = absurd (subst (λ r. Continues r (length b)) e c)
Decodes-append {max} {b} {fs} {gs} ys (skips {b'} e d) next =
    resume (parse_round-Resumes max b ys) (Decodes-append ys d next)
  where
    resume : Resumes max b ys → Gives max (b' ++ ys) (fs ++ gs) → Gives max (b ++ ys) (fs ++ gs)
    resume (later x h _) g = cc
    resume (now _ h) (l, g) = (l, skips (h ∙ ap (λ r. extend r ys) e) g)
Decodes-append {max} {b} {gs} ys (takes {b'} {fs} id payload e d) next =
    resume (parse_round-Resumes max b ys) (Decodes-append ys d next)
  where
    resume :
        Resumes max b ys
        → Gives max (b' ++ ys) (fs ++ gs)
        → Gives max (b ++ ys) (record { id = id; payload = payload } ∷ (fs ++ gs))
    resume (later x h _) g = cc
    resume (now _ h) (l, g) = (l, takes id payload (h ∙ ap (λ r. extend r ys) e) g)

-- What is left gives no frame until more bytes come.
pub left-Gives :
    {max : ℕ} {b left : Bytes} {fs : List Frame} → Decodes max b fs left → Gives max left []
left-Gives {max} {b} {left} (halts e) = resume (parse_round-Resumes max b [])
  where
    stopped : Alike (parse_round max b) (parse_round max left) → Gives max left []
    stopped (inl same) = (left, halts (sym same ∙ e))
    stopped (inr (_, (x, h))) = (x, halts h)

    resume : Resumes max b [] → Gives max left []
    resume (later x h alike) =
        let same : x ≡ left = cc in stopped (rw (append-nil, append-nil, same) at alike)
    resume (now c _) = absurd (subst (λ r. Continues r (length b)) e c)
left-Gives (skips e d) = left-Gives d
left-Gives (takes id payload e d) = left-Gives d

pub nil-stops : (max : ℕ) → parse_round max [] ≡ stop []
unfolding parse_round
nil-stops max = refl

module _ {ℓ} {S : Type ℓ} (handle : ℕ → Bytes → S → Outcome S) (max : ℕ) where
  -- What a call leaves of the state, with the buffer forgotten.
  abbrev pub state_after : Outcome (Bytes × S) → Outcome S
  state_after m = m >>= λ r. returns r.1

  run_frames-append :
      (fs gs : List Frame) (s : S)
      → run_frames handle (fs ++ gs) s ≡ (run_frames handle fs s >>= run_frames handle gs)
  unfolding run_frames
  run_frames-append [] gs s = refl
  run_frames-append (f ∷ fs) gs s =
      >>=-congr (handle f.id f.payload s) (run_frames-append fs gs)
      ∙ sym (>>=-assoc (handle f.id f.payload s) _ _)

  state_after-returns :
      (left : Bytes) (m : Outcome S) → state_after (m >>= λ s'. returns (left, s')) ≡ m
  state_after-returns left (returns s) = refl
  state_after-returns left throws = refl
  state_after-returns left waits = refl

  pub state_after-parse_frames :
      {b left : Bytes} {fs : List Frame} (s : S)
      → Decodes max b fs left
      → state_after (parse_frames handle max b s) ≡ run_frames handle fs s
  state_after-parse_frames {left} {fs} s d =
      ap state_after (parse_frames-Decodes handle max s d)
      ∙ state_after-returns left (run_frames handle fs s)

  receive_chunks-Gives :
      (chunks : List Bytes) (b : Bytes) (s : S)
      → Gives max b []
      → state_after (receive_chunks handle max chunks b s)
        ≡ state_after (parse_frames handle max (b ++ flatten chunks) s)
  unfolding receive_chunks flatten
  receive_chunks-Gives [] b s (left, quiet) =
      let e = state_after-parse_frames s quiet in
      sym (rw append-nil (e ∙ (unfold run_frames in refl)))
  receive_chunks-Gives (c ∷ cs) b s quiet =
      ap (λ m. state_after (m >>= rest)) (parse_frames-Decodes handle max s d.decodes)
      ∙ ap state_after (>>=-assoc (run_frames handle d.frames s) _ rest)
      ∙ >>=-assoc (run_frames handle d.frames s) _ _
      ∙ >>=-congr (run_frames handle d.frames s) (λ s'.
        receive_chunks-Gives cs d.left s' (left-Gives d.decodes)
        ∙ state_after-parse_frames s' more.decodes)
      ∙ sym (run_frames-append d.frames more.frames s)
      ∙ sym (state_after-parse_frames s whole.1)
      ∙ ap (λ x. state_after (parse_frames handle max x s)) (append_assoc b c (flatten cs))
    where
      rest : Bytes × S → Outcome (Bytes × S)
      rest r = receive_chunks handle max cs r.0 r.1

      d : Decoded max (b ++ c)
      d = decode_total max (b ++ c)

      more : Decoded max (d.left ++ flatten cs)
      more = decode_total max (d.left ++ flatten cs)

      whole : Gives max ((b ++ c) ++ flatten cs) (d.frames ++ more.frames)
      whole = Decodes-append (flatten cs) d.decodes more.decodes

  -- For any handler and any bytes, any cut of the stream into appends, each with its call of
  -- parse_frames, leaves the handler's state as one call on the whole stream does, exceptions
  -- included.
  pub receive_chunks-eq-parse_frames :
      (chunks : List Bytes) (s : S)
      → state_after (receive_chunks handle max chunks [] s)
        ≡ state_after (parse_frames handle max (flatten chunks) s)
  receive_chunks-eq-parse_frames chunks s =
      receive_chunks-Gives chunks [] s ([], halts (nil-stops max))
