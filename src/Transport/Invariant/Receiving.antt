-- ===== src/Transport/Invariant/Receiving.antt =====
-- receive_available of wsg50_driver/src/transport.cpp on bytes that arrive in any number of calls
-- of ::recv.
use wsg50_ros2_humble.Base.{
  ℕ, ◌≡◌, refl, sym, subst, Bool, true, List, [], ◌∷◌, ◌++◌, append_assoc, append-nil, Returns,
  Returns-bind,
}
use wsg50_ros2_humble.Wire.Bytes.{Bytes}
use wsg50_ros2_humble.Parser.{parse_frames}
use wsg50_ros2_humble.Parser.Frames.{
  Frame, Decodes, Decodes-unique, Decoded, decode_total, run_frames, parse_frames-Decodes,
}
use wsg50_ros2_humble.Parser.Fragments.{Gives, Decodes-append, left-Gives}
use wsg50_ros2_humble.Transport.{Transport}
use wsg50_ros2_humble.Transport.Replies.{handle_frame}
use wsg50_ros2_humble.Transport.Worker.{
  ReceiveRound, received, would_block, interrupted, parse_received, receive_available,
}

-- The calls of ::recv return these bytes, cut in any way, with interruptions, until one would block.
pub data Delivers : Bytes → List ReceiveRound → Type 0 where
  blocks :
      (now : ℕ) {rounds : List ReceiveRound}
      → Delivers [] (record { running = true; result = would_block; now = now } ∷ rounds)
  gets :
      (now : ℕ) (chunk : Bytes) {rest : Bytes} {rounds : List ReceiveRound}
      → Delivers rest rounds
      → Delivers
          (chunk ++ rest)
          (record { running = true; result = received chunk; now = now } ∷ rounds)
  breaks :
      (now : ℕ) {rest : Bytes} {rounds : List ReceiveRound}
      → Delivers rest rounds
      → Delivers rest (record { running = true; result = interrupted; now = now } ∷ rounds)

-- A property of the transport and of the frames that are still to come, which handle_frame keeps at
-- any time and the receive buffer plays no part in.
module _ (max : ℕ) (P : List Frame → Transport → Type 0)
    (sized : (fs : List Frame) (t : Transport) → P fs t → t.options.max_payload_size ≡ max)
    (kept : (fs : List Frame) (t : Transport) (b : Bytes)
      → P fs t
      → P fs (record t { receive_buffer = b }))
    (handles : (now : ℕ) (f : Frame) (fs : List Frame) (t : Transport)
      → P (f ∷ fs) t
      → Returns (P fs) (handle_frame now f.id f.payload t)) where
  run_frames_follows :
      (now : ℕ) (fs gs : List Frame) (t : Transport)
      → P (fs ++ gs) t
      → Returns (P gs) (run_frames (handle_frame now) fs t)
  unfolding run_frames
  run_frames_follows now [] gs t p = p
  run_frames_follows now (f ∷ fs) gs t p =
      Returns-bind (P (fs ++ gs)) (P gs) (handle_frame now f.id f.payload t) _
        (handles now f (fs ++ gs) t p) (run_frames_follows now fs gs)

  -- What is left of the buffer is in the transport, and these frames are still to come.
  record Parsed (gs : List Frame) (left : Bytes) (t : Transport) : Type 0 where
    follows : P gs t
    buffer : t.receive_buffer ≡ left

  parse_received_follows :
      (now : ℕ) (fs gs : List Frame) (left : Bytes) (t : Transport)
      → P (fs ++ gs) t
      → Decodes max t.receive_buffer fs left
      → Returns (Parsed gs left) (parse_received now t)
  unfolding parse_received
  parse_received_follows now fs gs left t p d =
      Returns-bind (λ (x : Bytes × Transport). P gs x.1 × (x.0 ≡ left)) (Parsed gs left)
        (parse_frames (handle_frame now) t.options.max_payload_size t.receive_buffer t) _
        (subst (Returns (λ (x : Bytes × Transport). P gs x.1 × (x.0 ≡ left)))
          (sym (parse_frames-Decodes (handle_frame now) _ t d'))
          (Returns-bind (P gs) (λ (x : Bytes × Transport). P gs x.1 × (x.0 ≡ left))
            (run_frames (handle_frame now) fs t) _ (run_frames_follows now fs gs t p)
            (λ t' p'. (p', refl))))
        (λ x p'. record { follows = kept gs x.1 x.0 p'.0; buffer = p'.1 })
    where
      d' : Decodes t.options.max_payload_size t.receive_buffer fs left
      d' = subst (λ m. Decodes m t.receive_buffer fs left) (sym (sized (fs ++ gs) t p)) d

  pub receive_available_follows :
      {rest : Bytes} {rounds : List ReceiveRound} (fs : List Frame) (t : Transport)
      → Delivers rest rounds
      → P fs t
      → Gives max (t.receive_buffer ++ rest) fs
      → Gives max t.receive_buffer []
      → Returns (λ (x : Bool × Transport). (x.0 ≡ true) × P [] x.1) (receive_available rounds t)
  unfolding receive_available
  receive_available_follows fs t (blocks now) p (l, d) (l', quiet) = (
    refl,
    subst (λ x. P x t)
        (Decodes-unique (subst (λ b. Decodes max b fs l) (append-nil t.receive_buffer) d) quiet) p,
  )
  receive_available_follows fs t (breaks now more) p g quiet =
      receive_available_follows fs t more p g quiet
  receive_available_follows fs t (gets now chunk {rest} {rounds} more) p (l, g) quiet =
      Returns-bind (Parsed next.frames d.left) (λ (x : Bool × Transport). (x.0 ≡ true) × P [] x.1)
        (parse_received now u) (receive_available rounds)
        (parse_received_follows now d.frames next.frames d.left u
          (subst (λ x. P x u) same (kept fs t _ p)) d.decodes)
        (λ t' p'.
          receive_available_follows next.frames t' more p'.follows
            (subst (λ b. Gives max (b ++ rest) next.frames) (sym p'.buffer)
              (next.left, next.decodes))
            (subst (λ b. Gives max b []) (sym p'.buffer) (left-Gives d.decodes)))
    where
      u : Transport
      u = record t { receive_buffer = t.receive_buffer ++ chunk }

      d : Decoded max (t.receive_buffer ++ chunk)
      d = decode_total max (t.receive_buffer ++ chunk)

      next : Decoded max (d.left ++ rest)
      next = decode_total max (d.left ++ rest)

      same : fs ≡ d.frames ++ next.frames
      same =
          Decodes-unique
            (subst (λ b. Decodes max b fs l) (sym (append_assoc t.receive_buffer chunk rest)) g)
            (Decodes-append rest d.decodes next.decodes).1
