-- ===== src/Parser/Examples.antt =====
-- Runs of Transport::parse_frames of wsg50_driver/src/transport.cpp on concrete bytes.
use mathlib.Core.List.{flatten}
use wsg50_ros2_humble.Base.{
  ℕ, ◌≡◌, refl, List, [], ◌∷◌, ◌++◌, arith, Outcome, returns, ◌>>=◌, drop, take,
}
use wsg50_ros2_humble.Wire.Bytes.{Bytes}
use wsg50_ros2_humble.Wire.Frame.{encode_frame}
use wsg50_ros2_humble.Parser.{parse_loop, parse_frames, receive_chunks, search_preamble}
use wsg50_ros2_humble.Parser.Frames.{Frame, run_frames, parse_loop_enough}
use wsg50_ros2_humble.Parser.Fragments.{state_after, receive_chunks-eq-parse_frames}
use wsg50_ros2_humble.Parser.RoundTrip.{Sent, line, sent_frames, AllReadable, receive_chunks-line}
use wsg50_ros2_humble.Parser.Sound.{Contains, parse_frames_sound}

-- A handler that keeps the frames.
abbrev log_frame : ℕ → Bytes → List Frame → Outcome (List Frame)
log_frame id payload log = returns (log ++ record { id = id; payload = payload } ∷ [])

abbrev traffic : List Sent
traffic =
    record { noise = 1 ∷ 0xaa ∷ 2 ∷ []; sent = record { id = 0x43; payload = 0 ∷ 0 ∷ 7 ∷ [] } }
    ∷ record { noise = []; sent = record { id = 0x20; payload = 26 ∷ 0 ∷ [] } }
    ∷ []

abbrev cut : List Bytes
cut = take 5 (line traffic) ∷ take 9 (drop 5 (line traffic)) ∷ drop 14 (line traffic) ∷ []

traffic-AllReadable : AllReadable 4096 traffic
unfolding search_preamble
traffic-AllReadable = (
  record { fits = omega arith; small = omega arith; clean = refl; quiet = refl },
  (record { fits = omega arith; small = omega arith; clean = refl; quiet = refl }, tt),
)

cut_whole : flatten cut ≡ line traffic
unfolding encode_frame flatten
cut_whole = refl

receive_chunks-line_example :
    state_after log_frame 4096 (receive_chunks log_frame 4096 cut [] [])
    ≡ run_frames log_frame (sent_frames traffic) []
receive_chunks-line_example =
    receive_chunks-line log_frame 4096 traffic cut [] traffic-AllReadable cut_whole

receive_chunks-eq-parse_frames_example :
    state_after log_frame 4096 (receive_chunks log_frame 4096 cut [] [])
    ≡ state_after log_frame 4096 (parse_frames log_frame 4096 (flatten cut) [])
receive_chunks-eq-parse_frames_example = receive_chunks-eq-parse_frames log_frame 4096 cut []

parse_frames_sound_example :
    (fs : List Frame) × (left : Bytes) × (parse_frames log_frame 4096 (line traffic) []
      ≡ (run_frames log_frame fs [] >>= λ s'. returns (left, s')))
    × Contains 4096 (line traffic) fs
parse_frames_sound_example = parse_frames_sound log_frame 4096 (line traffic) []

parse_loop_enough_example :
    (x : Bytes × List Frame) × (parse_loop log_frame 4096 40 (line traffic) [] ≡ returns x)
    × (parse_frames log_frame 4096 (line traffic) [] ≡ returns x)
unfolding encode_frame
parse_loop_enough_example =
    parse_loop_enough log_frame 4096 (line traffic) [] 40 (omega arith)
      (λ id payload log. (_, refl))
