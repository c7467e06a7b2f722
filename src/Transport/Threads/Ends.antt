-- ===== src/Transport/Threads/Ends.antt =====
-- The end of the worker of the class Transport of wsg50_driver/src/transport.cpp after stop(), over
-- the steps of the worker and of the clients.
use wsg50_ros2_humble.Base.{
  ℕ, ◌<◌, ◌≡◌, refl, ◌∙◌, false, List, [], ◌∷◌, String, ◌&&◌, ◌==◌, arith, Bool-cases, Option-cases,
  inl, inr,
}
use wsg50_ros2_humble.Wire.Bytes.{Bytes}
use wsg50_ros2_humble.Device.{status_command_pending}
use wsg50_ros2_humble.Transport.{Transport, Request, TransportOptions, find, erase, set_value}
use wsg50_ros2_humble.Transport.Requests.{fail_request, collected}
use wsg50_ros2_humble.Transport.Dispatch.{abandon}
use wsg50_ros2_humble.Transport.Invariant.{times_set}
use wsg50_ros2_humble.Transport.Threads.{
  After, next_round, give_up, stop_run, Pc, resting, opening, sending, closing, failing, abandoning,
  looking, answering, over, System, system, after_pc, WorkerStep, goes_online, not_sent, close_last,
  collect, fail, show_down, abandon_late, not_found, prolong, take, reply, Step, worker, client,
  tell, Reach, later,
}
use wsg50_ros2_humble.Transport.Threads.Promises.{Reach-settled, Reach-set_value}

-- Steps of the worker and of the clients, from `s` on.
pub data Steps (s : System) : System → Type 0 where
  stay : Steps s s
  andthen : {u v : System} → Steps s u → Step u v → Steps s v

pub reached :
    {options : TransportOptions} {s u : System} → Reach options s → Steps s u → Reach options u
reached r stay = r
reached r (andthen path st) = later (reached r path) st

-- What fail_request leaves alone.
pub fail_request-keeps :
    (r : Request) (reason : String) (t : Transport)
    → ((fail_request r reason t).running ≡ t.running)
      × ((fail_request r reason t).promises ≡ t.promises)
unfolding fail_request set_value
fail_request-keeps r reason t = (ground arith, ground arith)

pub abandon-keeps :
    (r : Request) (t : Transport)
    → ((abandon r t).running ≡ t.running) × ((abandon r t).promises ≡ t.promises)
unfolding abandon
abandon-keeps r t =
    fail_request-keeps r "failed to send command" (record t { in_flight = erase r.id t.in_flight })

-- Some steps have led from `s` to a halted transport with the same promises, no failure of a client
-- left to be told, and the worker at `pc`.
pub record Led (s : System) (pc : Pc) : Type 0 where
  pub after : Transport
  pub steps : Steps s (system after pc [])
  pub halted : after.running ≡ false
  pub kept : after.promises ≡ s.transport.promises

module _ {s : System} where
  go :
      {pc pc' : Pc} (x : Led s pc) (t : Transport)
      → WorkerStep x.after pc t pc'
      → (t.running ≡ x.after.running) × (t.promises ≡ x.after.promises)
      → Led s pc'
  go x t st (e, e') = record {
    after = t;
    steps = andthen x.steps (worker _ _ _ _ _ st);
    halted = e ∙ x.halted;
    kept = e' ∙ x.kept;
  }

  drained :
      (rs : List Request) (reason : String) (next : After)
      → Led s (failing reason rs next)
      → Led s (failing reason [] next)
  drained [] reason next x = x
  drained (r ∷ rs) reason next x =
      drained rs reason next (go x _ (fail reason r rs next) (fail_request-keeps r reason x.after))

  -- fail_all and the end of disconnect.
  closed : (reason : String) (next : After) → Led s (closing reason next) → Led s (after_pc next)
  closed reason next x =
      let y = drained (collected x.after) reason next (go x _ (collect reason next) (refl, refl)) in
      go y _ (show_down 0 reason next) (refl, refl)

  ended : Led s resting → Led s over
  ended x = closed "transport stopped" stop_run (go x _ (close_last x.halted) (refl, refl))

  given_up : (r : Request) → Led s (abandoning r) → Led s resting
  given_up r x = go x _ (abandon_late r) (abandon-keeps r x.after)

  went_on : (next : After) → Led s (after_pc next) → Led s over
  went_on next_round x = ended x
  went_on (give_up r) x = ended (given_up r x)
  went_on stop_run x = x

  answered :
      {options : TransportOptions} (p status : ℕ) (payload : Bytes)
      → Reach options s
      → Led s (answering p status payload)
      → Led s resting
  answered p status payload r x =
      go x _ (reply p status payload (Reach-set_value p status payload (reached r x.steps) refl))
        (refl, refl)

  -- handle_frame behind update_state.
  looked :
      {options : TransportOptions} (id status : ℕ) (payload : Bytes)
      → Reach options s
      → Led s (looking id status payload)
      → Led s resting
  looked id status payload r x = elim (Option-cases (find id x.after.in_flight)) [
    | inl free ↦ go x _ (not_found id status payload free) (refl, refl)
    | inr (q, there) ↦ elim (Bool-cases (q.allow_pending && status == status_command_pending)) [
      | inl pending ↦ go x _ (prolong 0 id status payload q there pending) (refl, refl)
      | inr final ↦
          answered q.promise status payload r
            (go x _ (take id status payload q there final) (refl, refl))
    ]
  ]

  worked : {options : TransportOptions} (pc : Pc) → Reach options s → Led s pc → Led s over
  worked resting r x = ended x
  worked opening r x = ended (go x _ goes_online (refl, refl))
  worked (sending q) r x = ended (go x _ (not_sent q []) (abandon-keeps q _))
  worked (closing reason next) r x = went_on next (closed reason next x)
  worked (failing reason rs next) r x =
      went_on next (go (drained rs reason next x) _ (show_down 0 reason next) (refl, refl))
  worked (abandoning q) r x = ended (given_up q x)
  worked (looking id status payload) r x = ended (looked id status payload r x)
  worked (answering p status payload) r x = ended (answered p status payload r x)
  worked over r x = x

  -- The clients are told of the failures that are left.
  told :
      (pc : Pc) (refused : List Request) (t : Transport)
      → Steps s (system t pc refused)
      → t.running ≡ false
      → t.promises ≡ s.transport.promises
      → Led s pc
  told pc [] t path off same = record { after = t; steps = path; halted = off; kept = same }
  told pc (q ∷ refused) t path off same =
      let (e, e') = fail_request-keeps q "gripper is not connected" t in
      told pc refused (fail_request q "gripper is not connected" t)
        (andthen path (client _ _ _ _ _ (tell [] q refused refl))) (e ∙ off) (e' ∙ same)

-- From each reachable state in which running_ is cleared, the worker can come to its end.
pub led_over :
    {options : TransportOptions} {s : System}
    → Reach options s
    → s.transport.running ≡ false
    → Led s over
led_over {options} {s} r off = worked s.pc r (told s.pc s.refused s.transport stay off refl)

-- Once running_ is cleared, from each state that the interleaved steps of the worker and the
-- clients reach, there are further steps after which the worker has come to the end of run()
-- and each promise made up to that state has been set exactly once.
pub Reach-ends :
    {options : TransportOptions} {s : System}
    → Reach options s
    → s.transport.running ≡ false
    → (s' : System) × Steps s s'
      × (s'.pc ≡ over)
      × ((k : ℕ) → k < s.transport.promises → times_set k s'.transport.settled ≡ 1)
Reach-ends {options} {s} r off =
    let x = led_over r off in
    (
      system x.after over [],
      x.steps,
      refl,
      λ k made. Reach-settled k (reached r x.steps) refl refl (omega (arith, x.kept)),
    )
