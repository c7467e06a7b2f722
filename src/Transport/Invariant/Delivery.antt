-- ===== src/Transport/Invariant/Delivery.antt =====
-- A command from Transport::command to the bytes of its reply, over dispatch_requests,
-- receive_available, parse_frames and handle_frame of wsg50_driver/src/transport.cpp.
use wsg50_ros2_humble.Base.{ℕ, ◌≤◌, ◌≡◌, Bool, false, List, [], ◌∷◌, ◌&&◌, ◌==◌, length}
use wsg50_ros2_humble.Wire.Bytes.{Bytes, read_u16}
use wsg50_ros2_humble.Device.{status_command_pending}
use wsg50_ros2_humble.Parser.Frames.{Frame}
use wsg50_ros2_humble.Transport.{Transport}
use wsg50_ros2_humble.Transport.Worker.{Worker}
use wsg50_ros2_humble.Transport.Invariant.{IsOrderly}
use wsg50_ros2_humble.Transport.Invariant.Exchange.{Awaits, IsAnswered}

module _ (id : ℕ) (payload : Bytes) (allow_pending : Bool) (reply : Bytes) (t : Transport)
    (v : IsOrderly t) (long : 2 ≤ length reply)
    (final : (allow_pending && read_u16 reply == status_command_pending) ≡ false) where
  -- The reply is still to come, or it has been handled.
  data Replied : List Frame → Transport → Type 0 where
    to_come :
        {t' : Transport}
        → Awaits id payload allow_pending t t'
        → Replied (record { id = id; payload = reply } ∷ []) t'
    has_come : {t' : Transport} → IsAnswered id payload reply t t' → Replied [] t'
