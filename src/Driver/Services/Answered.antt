-- ===== src/Driver/Services/Answered.antt =====
-- A service of wsg50_driver/src/main.cpp from its command to the response, over the rounds of the
-- transport's worker.
use wsg50_ros2_humble.Wire.Bytes.{Bytes}
use wsg50_ros2_humble.Transport.{Transport}
use wsg50_ros2_humble.Transport.Worker.{Worker}
