-- ===== src/Parser/RoundTrip.antt =====
-- Transport::parse_frames of wsg50_driver/src/transport.cpp on what Transport::encode_frame builds,
-- with noise between the frames.
use mathlib.Core.List.{flatten}
use wsg50_ros2_humble.Base.{
  ℕ, ◌+◌, ◌≤◌, ◌≡◌, refl, ap, subst, ◌∙◌, true, List, [], ◌∷◌, ◌++◌, append_assoc, none, append-nil,
  arith, length, length-append, take, drop, get_or, take-append, drop-append, Outcome,
}
use wsg50_ros2_humble.Wire.Bytes.{Bytes, read_u16}
use wsg50_ros2_humble.Wire.Frame.{encode_frame}
use wsg50_ros2_humble.Wire.Frame.Shape.{encode_frame_shape, crc16-encode_frame, read_u16-two_bytes}
use wsg50_ros2_humble.Parser.{
  frame, at_preamble, search_preamble, frame_round, parse_round, parse_frames, receive_chunks,
}
use wsg50_ros2_humble.Parser.Search.{ends_clean, search_past_clean_end, search_preamble_found}
use wsg50_ros2_humble.Parser.Rounds.{parse_round-some}
use wsg50_ros2_humble.Parser.Frames.{Frame, Decodes, halts, takes, run_frames}
use wsg50_ros2_humble.Parser.Fragments.{
  state_after, state_after-parse_frames, receive_chunks-eq-parse_frames, nil-stops,
}

module _ (max : ℕ) (id : ℕ) (payload rest : Bytes) (fits : length payload ≤ max)
    (small : length payload ≤ 65535) where
  abbrev wire : Bytes
  wire = encode_frame id payload ++ rest

  wire_size : length (encode_frame id payload) ≡ 8 + length payload
  wire_size =
      let (tail, two, shape) = encode_frame_shape id payload small in
      omega (arith, ap length shape, length-append payload tail)

  wire_payload_size : read_u16 (drop 4 wire) ≡ length payload
  wire_payload_size =
      let (tail, two, shape) = encode_frame_shape id payload small in
      rw shape (read_u16-two_bytes (length payload) ((payload ++ tail) ++ rest) (omega arith))

  wire_id : get_or wire 3 0 ≡ id
  wire_id = rw ((encode_frame_shape id payload small).2)

  wire_payload : take (length payload) (drop 6 wire) ≡ payload
  wire_payload =
      let (tail, two, shape) = encode_frame_shape id payload small in
      rw shape (
        ap (take (length payload)) (append_assoc payload tail rest)
        ∙ take-append (length payload) payload (tail ++ rest) refl)

  -- A frame at the front of the buffer is taken out whole.
  frame_round-encode_frame : frame_round max wire ≡ frame id payload rest
  unfolding frame_round
  frame_round-encode_frame = ground (
    arith,
    wire_size,
    wire_payload_size,
    wire_id,
    wire_payload,
    length-append (encode_frame id payload) rest,
    take-append (8 + length payload) (encode_frame id payload) rest,
    drop-append (8 + length payload) (encode_frame id payload) rest,
    crc16-encode_frame id payload small,
  )

  wire-at_preamble : at_preamble wire ≡ true
  unfolding at_preamble
  wire-at_preamble = rw ((encode_frame_shape id payload small).2)

  -- Noise with no preamble in it, that does not end in a preamble byte, is skipped.
  pub parse_round-encode_frame :
      (noise : Bytes)
      → ends_clean noise ≡ true
      → search_preamble noise ≡ none
      → parse_round max (noise ++ wire) ≡ frame id payload rest
  parse_round-encode_frame noise clean quiet =
      parse_round-some max (noise ++ wire)
        (omega (
          arith,
          wire_size,
          length-append noise wire,
          length-append (encode_frame id payload) rest,
        ))
        (search_past_clean_end noise [] wire clean (ap search_preamble (append-nil noise) ∙ quiet)
          ∙ search_preamble_found wire wire-at_preamble)
      ∙ frame_round-encode_frame

-- A frame on the line, with the noise before it.
pub record Sent : Type 0 where
  pub noise : Bytes
  pub sent : Frame

abbrev pub line : List Sent → Bytes
line [] = []
line (x ∷ xs) = x.noise ++ (encode_frame x.sent.id x.sent.payload ++ line xs)

abbrev pub sent_frames : List Sent → List Frame
sent_frames [] = []
sent_frames (x ∷ xs) = x.sent ∷ sent_frames xs

-- The payload is within the parser's limit and the format's, and the noise is no start of a frame.
pub record IsReadable (max : ℕ) (x : Sent) : Type 0 where
  pub fits : length x.sent.payload ≤ max
  pub small : length x.sent.payload ≤ 65535
  pub clean : ends_clean x.noise ≡ true
  pub quiet : search_preamble x.noise ≡ none

abbrev pub AllReadable : ℕ → List Sent → Type 0
AllReadable max [] = Unit {0}
AllReadable max (x ∷ xs) = IsReadable max x × AllReadable max xs

Decodes-line :
    (max : ℕ) (xs : List Sent) → AllReadable max xs → Decodes max (line xs) (sent_frames xs) []
Decodes-line max [] h = halts (nil-stops max)
Decodes-line max (x ∷ xs) (h, hs) =
    takes x.sent.id x.sent.payload
      (parse_round-encode_frame max x.sent.id x.sent.payload (line xs) h.fits h.small x.noise
        h.clean h.quiet)
      (Decodes-line max xs hs)

pub Decodes-encode_frame :
    (max id : ℕ) (payload : Bytes)
    → length payload ≤ max
    → length payload ≤ 65535
    → Decodes max (encode_frame id payload) (record { id = id; payload = payload } ∷ []) []
unfolding search_preamble
Decodes-encode_frame max id payload fits small =
    let f : Frame = record { id = id; payload = payload } in
    subst (λ b. Decodes max b (f ∷ []) []) (append-nil (encode_frame id payload))
      (Decodes-line max (record { noise = []; sent = f } ∷ [])
        (record { fits = fits; small = small; clean = refl; quiet = refl }, tt))

module _ {ℓ} {S : Type ℓ} (handle : ℕ → Bytes → S → Outcome S) (max : ℕ) where
  -- Frames that encode_frame built, with payloads within the limits and noise between them that
  -- holds no preamble and ends in no preamble byte, cut into appends in any way, reach the handler
  -- as exactly these frames, in their order.
  pub receive_chunks-line :
      (xs : List Sent) (chunks : List Bytes) (s : S)
      → AllReadable max xs
      → flatten chunks ≡ line xs
      → state_after handle max (receive_chunks handle max chunks [] s)
        ≡ run_frames handle (sent_frames xs) s
  receive_chunks-line xs chunks s h e =
      receive_chunks-eq-parse_frames handle max chunks s
      ∙ ap (λ b. state_after handle max (parse_frames handle max b s)) e
      ∙ state_after-parse_frames handle max s (Decodes-line max xs h)
