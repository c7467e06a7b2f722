-- ===== src/Driver/Shutdown.antt =====
-- The destructor of the node of wsg50_driver/src/main.cpp, with the transport that it stops and the
-- threads that it joins: the initialization thread and those of the goals, each of which gives a
-- number of commands to the transport and waits for each of their futures.
pub mod Invariant
pub mod Ends
mod Examples
use wsg50_ros2_humble.Base.{ℕ, suc, false, ◌≡◌, List, [], ◌∷◌, ◌++◌, Option, none, some}
use wsg50_ros2_humble.Device.{CommandReply}
use wsg50_ros2_humble.Transport.{Transport, Request, TransportOptions}
use wsg50_ros2_humble.Transport.Threads.{Pc, over, System, system, ClientStep, Step, begins}
use wsg50_ros2_humble.Driver.Services.{reply_of}

-- How far the destructor is: before it, behind the store to shutting_down_, behind the store to
-- running_ in stop(), behind the join of the worker, and at its end.
pub data Stage : Type 0 where
  alive halting joining collecting destroyed : Stage

-- The commands that a thread has yet to give, and the promise that it waits for.
pub record Client : Type 0 where
  pub calls : ℕ
  pub awaits : Option ℕ

-- `clients` are the threads that are not joined, the initialization thread first.
pub record Plant : Type 0 where
  pub system : System
  pub clients : List Client
  pub stage : Stage

abbrev pub client : ℕ → Option ℕ → Client
client n awaits = record { calls = n; awaits = awaits }

abbrev pub plant : System → List Client → Stage → Plant
plant s clients stage = record { system = s; clients = clients; stage = stage }

-- The steps of the transport's threads, of the threads of the node, and of the destructor.
pub data PlantStep : Plant → Plant → Type 0 where
  inside :
      {s s' : System} {clients : List Client} {stage : Stage}
      → Step s s'
      → PlantStep (plant s clients stage) (plant s' clients stage)
  calls :
      {t t' : Transport} {pc : Pc} {refused refused' : List Request} {stage : Stage}
      (before behind : List Client) (n : ℕ)
      → ClientStep t refused t' refused'
      → t'.promises ≡ suc t.promises
      → PlantStep
          (plant (system t pc refused) (before ++ (client (suc n) none ∷ behind)) stage)
          (plant (system t' pc refused') (before ++ (client n (some t.promises) ∷ behind)) stage)
  gets :
      {s : System} {stage : Stage} (before behind : List Client) (n k : ℕ) (reply : CommandReply)
      → reply_of k s.transport.settled ≡ some reply
      → PlantStep
          (plant s (before ++ (client n (some k) ∷ behind)) stage)
          (plant s (before ++ (client n none ∷ behind)) stage)
  halts :
      {s : System} {clients : List Client}
      → PlantStep (plant s clients alive) (plant s clients halting)
  stops_transport :
      {t : Transport} {pc : Pc} {refused : List Request} {clients : List Client}
      → PlantStep
          (plant (system t pc refused) clients halting)
          (plant (system (record t { running = false }) pc refused) clients joining)
  joins_worker :
      {s : System} {clients : List Client}
      → s.pc ≡ over
      → PlantStep (plant s clients joining) (plant s clients collecting)
  joins_thread :
      {s : System} {clients : List Client}
      → PlantStep (plant s (client 0 none ∷ clients) collecting) (plant s clients collecting)
  finishes : {s : System} → PlantStep (plant s [] collecting) (plant s [] destroyed)

abbrev pub Unstarted : List Client → Type 0
Unstarted [] = Unit {0}
Unstarted (c ∷ cs) = (c.awaits ≡ none) × Unstarted cs

pub data PlantReach (options : TransportOptions) : Plant → Type 0 where
  begins_with :
      (clients : List Client)
      → Unstarted clients
      → PlantReach options (plant (begins options) clients alive)
  after : {p q : Plant} → PlantReach options p → PlantStep p q → PlantReach options q

-- Steps from `p` on.
pub data PlantSteps (p : Plant) : Plant → Type 0 where
  here : PlantSteps p p
  onward : {q r : Plant} → PlantSteps p q → PlantStep q r → PlantSteps p r
