-- ===== src/Transport/Invariant/Carries/Link.antt =====
-- A connection that is set up in wsg50_driver/src/transport.cpp has had nothing written to it.
use wsg50_ros2_humble.Base.{ℕ, Option, none, some, if_both}
use wsg50_ros2_humble.Wire.Bytes.{Bytes}
use wsg50_ros2_humble.Transport.{Transport, TransportOptions}
use wsg50_ros2_humble.Transport.Link.{
  established, with_descriptor, connect_socket, ConnectScript, connection_ready,
}
use wsg50_ros2_humble.Transport.Invariant.Carries.{Carries, Connected, nothing}

module _ (P : ℕ → Bytes → Type 0) (options : TransportOptions) where
  with_descriptor-Carries :
      (script : ConnectScript) (fd : Option ℕ) (t : Transport)
      → Carries P options t
      → Connected P options (with_descriptor script fd t)
  unfolding with_descriptor established
  with_descriptor-Carries script none t c = c
  with_descriptor-Carries script (some fd) t c =
      if_both (Connected P options) script.non_blocking _ _
        (λ _.
          if_both (Connected P options) script.valid_address _ _
            (λ _.
              if_both (Connected P options) (connection_ready script.result) _ _
                (λ _. record {
                  configured = c.configured;
                  queued = c.queued;
                  urgent = c.urgent;
                  flying = c.flying;
                  written = nothing;
                })
                (λ _. c))
            (λ _. record {
              configured = c.configured;
              queued = c.queued;
              urgent = c.urgent;
              flying = c.flying;
              written = c.written;
            }))
        (λ _. c)

  pub connect_socket-Carries :
      (script : ConnectScript) (t : Transport)
      → Carries P options t
      → Carries P options (connect_socket script t).1
  unfolding connect_socket
  connect_socket-Carries script t c = with_descriptor-Carries script script.descriptor t c
