-- ===== src/Transport/Invariant/Carries/Weaker.antt =====
-- What the transport of wsg50_driver/src/transport.cpp carries has a weaker property as well.
use wsg50_ros2_humble.Base.{ℕ, List, [], ◌∷◌}
use wsg50_ros2_humble.Wire.Bytes.{Bytes}
use wsg50_ros2_humble.Transport.{Transport, TransportOptions, Request}
use wsg50_ros2_humble.Transport.Invariant.Carries.{
  Written, nothing, adds, AllWaiting, AllFlying, Carries,
}

module _ (P Q : ℕ → Bytes → Type 0)
    (weaker : (id : ℕ) (payload : Bytes) → P id payload → Q id payload) where
  pub Written-mono : {w : Bytes} → Written P w → Written Q w
  Written-mono nothing = nothing
  Written-mono (adds before done rest id payload w p e) =
      adds before done rest id payload (Written-mono w) (weaker id payload p) e

  AllWaiting-mono : (rs : List Request) → AllWaiting P rs → AllWaiting Q rs
  AllWaiting-mono [] a = tt
  AllWaiting-mono (r ∷ rs) (p, a) = (weaker r.id r.payload p, AllWaiting-mono rs a)

  AllFlying-mono : (m : List (ℕ × Request)) → AllFlying P m → AllFlying Q m
  AllFlying-mono [] a = tt
  AllFlying-mono ((k, r) ∷ m) (p, a) = (weaker r.id r.payload p, AllFlying-mono m a)

  pub Carries-mono :
      {options : TransportOptions} {t : Transport} → Carries P options t → Carries Q options t
  Carries-mono {t = t} c = record {
    configured = c.configured;
    queued = AllWaiting-mono t.queue c.queued;
    urgent = AllWaiting-mono t.priority_queue c.urgent;
    flying = AllFlying-mono t.in_flight c.flying;
    written = Written-mono c.written;
  }
