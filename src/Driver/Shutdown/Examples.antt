-- ===== src/Driver/Shutdown/Examples.antt =====
-- The destructor of the node of wsg50_driver/src/main.cpp while the initialization thread waits for a
-- reply and the thread of a goal has two commands to give.
use wsg50_ros2_humble.Base.{◌≡◌, true, false, [], ◌∷◌, none, refl}
use wsg50_ros2_humble.Transport.{default_options, init}
use wsg50_ros2_humble.Transport.Link.{established}
use wsg50_ros2_humble.Transport.Requests.{command}
use wsg50_ros2_humble.Transport.Threads.{worker, connect, goes_online, enqueue}
use wsg50_ros2_humble.Driver.Shutdown.{
  Plant, client, destroyed, PlantStep, inside, calls, halts, Unstarted, PlantReach, begins_with,
  after, PlantSteps,
}
use wsg50_ros2_humble.Driver.Shutdown.Ends.{destructor_ends}

record Run : Type 0 where
  last : Plant
  reach : PlantReach default_options last

abbrev and_then : (r : Run) {p : Plant} → PlantStep r.last p → Run
and_then r st = record { last = _; reach = after r.reach st }

client-Unstarted : Unstarted (client 2 none ∷ [])
client-Unstarted = (refl, tt)

abbrev shutdown_run : Run
unfolding init established command
shutdown_run =
    let a : Run = record {
      last = _;
      reach = begins_with (client 1 none ∷ client 2 none ∷ []) (refl, client-Unstarted);
    } in
    let o = and_then a (inside (worker _ _ _ _ _ (connect 4 100 refl))) in
    let b = and_then o (inside (worker _ _ _ _ _ goes_online)) in
    let c =
      and_then b (calls [] (client 2 none ∷ []) 0 (enqueue 0x21 [] true 2000 false refl) refl) in
    and_then c halts

destructor_ends_example : (q : Plant) × PlantSteps shutdown_run.last q × (q.stage ≡ destroyed)
destructor_ends_example = destructor_ends shutdown_run.reach
