-- ===== src/Transport/Invariant/Settles.antt =====
-- The failures of requests of wsg50_driver/src/transport.cpp touch nothing but the replies.
use wsg50_ros2_humble.Base.{ℕ, ◌≡◌, refl, ap, Bool-cases, inl, inr, List, [], ◌∷◌, String, ◌∙◌}
use wsg50_ros2_humble.Device.{CommandReply}
use wsg50_ros2_humble.Transport.{Transport, Request, set_value, is_settled}
use wsg50_ros2_humble.Transport.Requests.{failure, fail_request, fail_each}

-- Setting promises changes nothing else.
pub record Settles (t t' : Transport) : Type 0 where
  pub settled : List (ℕ × CommandReply)
  pub only : t' ≡ record t { settled = settled }

pub fail_request-Settles :
    (r : Request) (reason : String) (t : Transport) → Settles t (fail_request r reason t)
unfolding fail_request set_value
fail_request-Settles r reason t = elim (Bool-cases (is_settled r.promise t.settled)) [
  | inl set ↦ rw set (record { settled = t.settled; only = refl })
  | inr unset ↦ rw unset (record { settled = (r.promise, failure reason) ∷ t.settled; only = refl })
]

pub fail_each-Settles :
    (rs : List Request) (reason : String) (t : Transport) → Settles t (fail_each rs reason t)
unfolding fail_each
fail_each-Settles [] reason t = record { settled = t.settled; only = refl }
fail_each-Settles (r ∷ rs) reason t =
    let x = fail_request-Settles r reason t in
    let y = fail_each-Settles rs reason (fail_request r reason t) in
    record {
      settled = y.settled;
      only = y.only ∙ ap (λ (u : Transport). record u { settled = y.settled }) x.only;
    }
