-- ===== src/Driver/Shutdown/Ends.antt =====
-- The destructor of the node of wsg50_driver/src/main.cpp comes to its end.
use wsg50_ros2_humble.Base.{
  ℕ, zero, suc, ◌≤◌, ◌≡◌, refl, subst, true, false, List, [], ◌∷◌, Option, none, some, arith, ◌==◌,
  Bool-cases, inl, inr,
}
use wsg50_ros2_humble.Device.{CommandReply}
use wsg50_ros2_humble.Transport.{Transport, TransportOptions}
use wsg50_ros2_humble.Transport.Requests.{fail_request, make_request, after_make}
use wsg50_ros2_humble.Transport.Invariant.{times_set}
use wsg50_ros2_humble.Transport.Threads.{over, System, system, refuse, tell, client}
use wsg50_ros2_humble.Transport.Threads.Ends.{Steps, stay, andthen, led_over}
use wsg50_ros2_humble.Transport.Threads.Promises.{Reach-settled, Reach-offline}
use wsg50_ros2_humble.Driver.Services.{reply_of}
use wsg50_ros2_humble.Driver.Shutdown.{
  Stage, alive, halting, joining, collecting, destroyed, Client, Plant, plant, PlantStep, inside,
  calls, gets, halts, stops_transport, joins_worker, joins_thread, finishes, PlantReach, after,
  PlantSteps, here, onward,
}
use wsg50_ros2_humble.Driver.Shutdown.Invariant.{PlantReach-Inv}
use wsg50_ros2_humble.Driver.Shutdown as Shutdown

-- A promise that is set has a reply.
reply_of_set :
    (k : ℕ) (s : List (ℕ × CommandReply))
    → 1 ≤ times_set k s
    → (reply : CommandReply) × (reply_of k s ≡ some reply)
unfolding reply_of
reply_of_set k [] h = absurd (omega arith)
reply_of_set k ((p, reply) ∷ s) h = elim (Bool-cases (p == k)) [
  | inl same ↦ (reply, ground arith)
  | inr other ↦ let (r, e) = reply_of_set k s (ground arith) in (r, ground arith)
]

module _ {options : TransportOptions} {p : Plant} (r : PlantReach options p) where
  reached : {q : Plant} → PlantSteps p q → PlantReach options q
  reached here = r
  reached (onward path st) = after (reached path) st

  -- The worker has been joined, no failure is left to be told, and these threads are left.
  record Left (clients : List Client) : Type 0 where
    transport : Transport
    path : PlantSteps p (plant (system transport over []) clients collecting)

  -- A thread that waits for a promise gets the reply.
  got :
      (n k : ℕ) (cs : List Client)
      → Left (Shutdown.client n (some k) ∷ cs)
      → Left (Shutdown.client n none ∷ cs)
  got n k cs x =
      let v = PlantReach-Inv (reached x.path) in
      let once = Reach-settled k v.reach refl refl v.made.0 in
      let (reply, e) = reply_of_set k x.transport.settled (omega arith) in
      record { transport = x.transport; path = onward x.path (gets [] cs n k reply e) }

  -- A command finds no connection, and the thread itself sets its promise.
  called :
      (n : ℕ) (cs : List Client)
      → Left (Shutdown.client (suc n) none ∷ cs)
      → Left (Shutdown.client n none ∷ cs)
  called n cs x =
      let v = PlantReach-Inv (reached x.path) in
      let t = x.transport in
      let request = make_request 0 [] true false 0 t in
      let given =
        onward x.path (calls [] cs n (refuse 0 [] true 0 (Reach-offline v.reach refl)) refl) in
      got n t.promises cs (record {
        transport = fail_request request "gripper is not connected" (after_make t);
        path = onward given (inside (client _ _ _ _ _ (tell [] request [] refl)));
      })

  served :
      (n : ℕ) (cs : List Client)
      → Left (Shutdown.client n none ∷ cs)
      → Left (Shutdown.client 0 none ∷ cs)
  served zero cs x = x
  served (suc n) cs x = served n cs (called n cs x)

  joined : (n : ℕ) (cs : List Client) → Left (Shutdown.client n none ∷ cs) → Left cs
  joined n cs x =
      let y = served n cs x in record { transport = y.transport; path = onward y.path joins_thread }

  all_joined : (cs : List Client) → Left cs → Left []
  all_joined [] x = x
  all_joined (c ∷ cs) x = all_joined cs (by_await c.awaits refl x)
    where
      by_await : (o : Option ℕ) → c.awaits ≡ o → Left (c ∷ cs) → Left cs
      by_await none e y =
          joined c.calls cs (subst (λ (o : Option ℕ). Left (Shutdown.client c.calls o ∷ cs)) e y)
      by_await (some k) e y =
          joined c.calls cs
            (got c.calls k cs (subst (λ (o : Option ℕ). Left (Shutdown.client c.calls o ∷ cs)) e y))

  -- Steps inside the transport.
  led :
      {s u : System} {cs : List Client} {stage : Stage}
      → PlantSteps p (plant s cs stage)
      → Steps s u
      → PlantSteps p (plant u cs stage)
  led path stay = path
  led path (andthen steps st) = onward (led path steps) (inside st)

  collected : (s : System) (cs : List Client) → PlantSteps p (plant s cs collecting) → Left cs
  collected s cs path =
      let v = PlantReach-Inv (reached path) in
      let x = led_over v.reach v.says.1 in record { transport = x.after; path = led path x.steps }

  worker_joined : (s : System) (cs : List Client) → PlantSteps p (plant s cs joining) → Left cs
  worker_joined s cs path =
      let v = PlantReach-Inv (reached path) in
      let x = led_over v.reach v.says in
      record { transport = x.after; path = onward (led path x.steps) (joins_worker refl) }

  Destroyed : Type 0
  Destroyed = (q : Plant) × PlantSteps p q × (q.stage ≡ destroyed)

  finished : (cs : List Client) → Left cs → Destroyed
  unfolding Destroyed
  finished cs x = let y = all_joined cs x in (_, onward y.path finishes, refl)

  from_stage : (stage : Stage) → PlantSteps p (plant p.system p.clients stage) → Destroyed
  unfolding Destroyed
  from_stage alive path =
      finished p.clients (worker_joined _ p.clients (onward (onward path halts) stops_transport))
  from_stage halting path =
      finished p.clients (worker_joined _ p.clients (onward path stops_transport))
  from_stage joining path = finished p.clients (worker_joined p.system p.clients path)
  from_stage collecting path = finished p.clients (collected p.system p.clients path)
  from_stage destroyed path = (_, path, refl)

-- However the threads of the transport, of the goals and of the initialization and the
-- destructor interleave, from each reachable state there are further steps after which the
-- destructor, which stops the transport and joins all threads, has come to its end: none waits
-- for ever for a future.
pub destructor_ends :
    {options : TransportOptions} {p : Plant}
    → PlantReach options p
    → (q : Plant) × PlantSteps p q × (q.stage ≡ destroyed)
unfolding Destroyed
destructor_ends {options} {p} r = from_stage r p.stage here
