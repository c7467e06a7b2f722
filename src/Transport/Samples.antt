-- ===== src/Transport/Samples.antt =====
-- A transport of wsg50_driver/src/transport.cpp before and after connect_socket, and calls of ::send
-- that take a byte each.
use wsg50_ros2_humble.Base.{ℕ, zero, suc, true, List, [], ◌∷◌, some, refl, arith}
use wsg50_ros2_humble.Base.{drop}
use wsg50_ros2_humble.Wire.Bytes.{Bytes}
use wsg50_ros2_humble.Wire.Frame.{encode_frame}
use wsg50_ros2_humble.Transport.Worker.{
  ReceiveRound, received, would_block, interrupted, readable, Turn,
}
use wsg50_ros2_humble.Transport.Invariant.Receiving.{Delivers, blocks, gets, breaks}
use wsg50_ros2_humble.Transport.{Transport, default_options, init}
use wsg50_ros2_humble.Transport.Link.{ConnectScript, immediate, connect_socket, SendRound, accepted}
use wsg50_ros2_humble.Transport.Invariant.{IsOrderly}
use wsg50_ros2_humble.Transport.Invariant.Client.{init-IsOrderly}
use wsg50_ros2_humble.Transport.Invariant.Link.{connect_socket_ends}
use wsg50_ros2_humble.Transport.Invariant.Link.Progress.{AllTake}
use wsg50_ros2_humble.Transport.Invariant.Exchange.{IsIdle}

abbrev pub script : ConnectScript
script = record {
  descriptor = some 4;
  non_blocking = true;
  valid_address = true;
  result = immediate;
  now = 100;
}

abbrev pub offline : Transport
offline = init default_options

abbrev pub online : Transport
online = (connect_socket script offline).1

pub offline-IsOrderly : IsOrderly offline
offline-IsOrderly = init-IsOrderly default_options

pub online-IsOrderly : IsOrderly online
online-IsOrderly = (connect_socket_ends script offline offline-IsOrderly).0

-- A byte at a time.
abbrev pub slow : ℕ → List SendRound
slow zero = []
slow (suc n) = record { running = true; result = accepted 1; now = 1 } ∷ slow n

pub slow-AllTake : (n : ℕ) → AllTake (slow n)
slow-AllTake zero = tt
slow-AllTake (suc n) =
    (record { going_on = refl; count = 1; takes_some = omega arith; took = refl }, slow-AllTake n)

pub online-IsIdle : IsIdle online
unfolding connect_socket init
online-IsIdle = record { online = refl; no_flight = refl; no_queue = refl; no_priority = refl }

-- A reply of success.
abbrev pub reply : Bytes
reply = 0 ∷ 0 ∷ []

-- The reply in two parts, with an interruption.
abbrev pub reads : List ReceiveRound
reads =
    record { running = true; result = received (0xaa ∷ 0xaa ∷ 0xaa ∷ 0x22 ∷ []); now = 300 }
    ∷ record { running = true; result = interrupted; now = 301 }
    ∷ record { running = true; result = received (drop 4 (encode_frame 0x22 reply)); now = 302 }
    ∷ record { running = true; result = would_block; now = 303 }
    ∷ []

pub reads-Delivers : Delivers (encode_frame 0x22 reply) reads
unfolding encode_frame
reads-Delivers =
    gets 300 (0xaa ∷ 0xaa ∷ 0xaa ∷ 0x22 ∷ [])
      (breaks 301 (gets 302 (drop 4 (encode_frame 0x22 reply)) (blocks 303)))

abbrev pub answering_turn : Turn
answering_turn = record {
  now = 200;
  connect = script;
  still_running = true;
  send = slow 8;
  poll = readable reads;
  later = 310;
}
