-- ===== src/Transport/Invariant/Link/Progress.antt =====
-- Transport::send_all of wsg50_driver/src/transport.cpp on a socket that takes bytes.
use wsg50_ros2_humble.Base.{
  ℕ, ◌≤◌, ◌≡◌, ap, ◌∙◌, true, List, [], ◌∷◌, ◌++◌, append-nil, append_assoc, arith, length, take,
  drop, length-drop, take-append-drop, sym, returns,
}
use wsg50_ros2_humble.Wire.Bytes.{Bytes}
use wsg50_ros2_humble.Transport.{Transport}
use wsg50_ros2_humble.Transport.Link.{SendRound, accepted, send_loop, send_all}

-- The thread is to go on, and ::send takes at least a byte.
pub record Takes (r : SendRound) : Type 0 where
  pub going_on : r.running ≡ true
  pub count : ℕ
  pub takes_some : 1 ≤ count
  pub took : r.result ≡ accepted count

abbrev pub AllTake : List SendRound → Type 0
AllTake [] = Unit {0}
AllTake (r ∷ rs) = Takes r × AllTake rs

-- If each call of ::send takes at least a byte, and there are as many calls as bytes, send_all
-- returns true with all bytes written, in their order, and nothing else changed.
pub send_all_completes :
    (rounds : List SendRound) (bytes : Bytes) (t : Transport)
    → AllTake rounds
    → length bytes ≤ length rounds
    → send_all rounds bytes t ≡ returns (true, record t { written = t.written ++ bytes })
unfolding send_all send_loop
send_all_completes rounds [] t h enough =
    ap (λ w. returns (true, record t { written = w })) (sym (append-nil t.written))
send_all_completes [] (b ∷ bs) t h enough = elim enough [ ]
send_all_completes (r ∷ rs) (b ∷ bs) t (h, hs) enough =
    rw (h.going_on, h.took, send_loop)
      (send_all_completes rs (drop h.count (b ∷ bs))
          (record t { written = t.written ++ take h.count (b ∷ bs) }) hs
          (omega (arith, length-drop h.count (b ∷ bs), h.takes_some))
        ∙ ap (λ w. returns (true, record t { written = w }))
            (append_assoc t.written (take h.count (b ∷ bs)) (drop h.count (b ∷ bs))
              ∙ ap (◌++◌ t.written) (take-append-drop h.count (b ∷ bs))))
