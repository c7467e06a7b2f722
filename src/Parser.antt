-- ===== src/Parser.antt =====
-- Transport::parse_frames of wsg50_driver/src/transport.cpp, over the receive buffer alone. What is
-- done with a frame (Transport::handle_frame) is a parameter, and so is the state that it changes.
pub mod Search
pub mod Rounds
pub mod Frames
pub mod Fragments
pub mod RoundTrip
pub mod Sound
mod Examples
use wsg50_ros2_humble.Base.{
  ℕ, zero, suc, ◌+◌, ◌-◌, ◌&&◌, Bool, true, false, List, [], ◌∷◌, ◌++◌, Option, none, some, ltb,
  ◌==◌, if◌then◌else◌, length, get_or, take, drop, reverse, Outcome, returns, waits, ◌>>=◌,
}
use wsg50_ros2_humble.Wire.Bytes.{Bytes, read_u16}
use wsg50_ros2_humble.Wire.Crc.{crc16}
use wsg50_ros2_humble.Wire.Frame.{preamble_byte, header_size, frame_overhead}

-- Three preamble bytes stand at the front.
pub at_preamble : Bytes → Bool
at_preamble (a ∷ b ∷ c ∷ rest) = a == preamble_byte && b == preamble_byte && c == preamble_byte
at_preamble _ = false

-- std::search for the preamble; an iterator is the list that it points to, and `end()` is `none`.
pub search_preamble : Bytes → Option Bytes
unfolding at_preamble
search_preamble [] = none
search_preamble (x ∷ xs) = if at_preamble (x ∷ xs) then some (x ∷ xs) else search_preamble xs

-- The loop over the reversed buffer that counts preamble bytes at its end, two at most.
pub keep_loop : Bytes → ℕ → ℕ
keep_loop [] keep = keep
keep_loop (b ∷ before) keep =
    if ltb keep 2 && b == preamble_byte then keep_loop before (suc keep) else keep

-- The buffer after the erasure of all but a possible start of a preamble.
pub keep_tail : Bytes → Bytes
unfolding keep_loop
keep_tail buffer = drop (length buffer - keep_loop (reverse buffer) 0) buffer

-- How one round of the loop ends: by `return`, by `continue` after one byte is erased, or with a
-- frame for handle_frame. The last field of each is the buffer that is left.
pub data Round : Type 0 where
  stop : Bytes → Round
  again : Bytes → Round
  frame : ℕ → Bytes → Bytes → Round

-- The round from the first preamble on, which stands at the buffer's front here.
pub frame_round : ℕ → Bytes → Round
frame_round max_payload_size buffer =
    if ltb (length buffer) frame_overhead
    then stop buffer
    else (let payload_size = read_u16 (drop 4 buffer) in
        if ltb max_payload_size payload_size
        then again (drop 1 buffer)
        else (let frame_size = frame_overhead + payload_size in
            if ltb (length buffer) frame_size
            then stop buffer
            else if crc16 (take frame_size buffer) == 0
            then frame (get_or buffer 3 0) (take payload_size (drop header_size buffer))
                (drop frame_size buffer)
            else again (drop 1 buffer)))

pub after_search : ℕ → Bytes → Option Bytes → Round
unfolding frame_round keep_tail
after_search max_payload_size buffer none = stop (keep_tail buffer)
after_search max_payload_size buffer (some found) = frame_round max_payload_size found

-- One round of the loop, its condition included.
pub parse_round : ℕ → Bytes → Round
unfolding after_search search_preamble
parse_round max_payload_size buffer =
    if ltb (length buffer) frame_overhead
    then stop buffer
    else after_search max_payload_size buffer (search_preamble buffer)

module _ {ℓ} {S : Type ℓ} (handle_frame : ℕ → Bytes → S → Outcome S) (max_payload_size : ℕ) where
  -- The loop on fuel. A round that goes on removes a byte, so `parse_frames` gives it one unit more
  -- than there are bytes.
  pub parse_loop : ℕ → Bytes → S → Outcome (Bytes × S)
  parse_loop zero buffer s = waits
  parse_loop (suc fuel) buffer s = elim (parse_round max_payload_size buffer) [
    | stop left ↦ returns (left, s)
    | again left ↦ parse_loop fuel left s
    | frame id payload left ↦ handle_frame id payload s >>= parse_loop fuel left
  ]

  unfoldable pub parse_frames : Bytes → S → Outcome (Bytes × S)
  unfolding parse_loop parse_round read_u16 crc16
  parse_frames buffer s = parse_loop (suc (length buffer)) buffer s

  -- The appends of Transport::receive_available, each with its call of parse_frames.
  pub receive_chunks : List Bytes → Bytes → S → Outcome (Bytes × S)
  receive_chunks [] buffer s = returns (buffer, s)
  receive_chunks (chunk ∷ chunks) buffer s = do
    (left, s') ← parse_frames (buffer ++ chunk) s
    receive_chunks chunks left s'
