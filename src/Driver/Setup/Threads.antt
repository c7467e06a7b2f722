-- ===== src/Driver/Setup/Threads.antt =====
-- initialize_connection of wsg50_driver/src/main.cpp and the thread that it starts, a store to a
-- shared variable at a time, beside the callbacks that read these variables.
use wsg50_ros2_humble.Base.{
  ℕ, ◌≡◌, refl, sym, subst, ==_iff, Bool, true, false, not, ◌&&◌, ◌||◌, List, [], ◌∷◌, none, some,
  ◌==◌, if◌then◌else◌, arith,
}
use wsg50_ros2_humble.Device.{CommandReply, success, DeviceState}
use wsg50_ros2_humble.Driver.Goals.{connection_is_ready}
use wsg50_ros2_humble.Driver.Setup.{Setup, initialize_connection, initialized}

-- Where the initialization stands: `starting` is behind the store to initialization_running_,
-- `working` is the thread before its first store, `storing` behind that to
-- initialized_generation_, and `ending` behind that to initialization_successful_.
pub data Pc : Type 0 where
  resting : Pc
  starting : ℕ → Pc
  working : ℕ → Pc
  storing : ℕ → Bool → Pc
  ending : Pc

-- `successes` are the generations whose thread has had a successful last reply.
pub record Node : Type 0 where
  pub setup : Setup
  pub pc : Pc
  pub successes : List ℕ

abbrev pub contains : ℕ → List ℕ → Bool
contains g [] = false
contains g (x ∷ xs) = g == x || contains g xs

abbrev pub set_running : Bool → Setup → Setup
set_running b setup = record setup { running = b }

abbrev pub set_successful : Bool → Setup → Setup
set_successful b setup = record setup { done = record (setup.done) { successful = b } }

abbrev pub set_generation : ℕ → Setup → Setup
set_generation g setup = record setup { done = record (setup.done) { generation = g } }

-- These stores are those of initialize_connection, where it starts a thread, and of the thread's end.
initialize_connection-stores :
    (setup : Setup) (state : DeviceState) {g : ℕ}
    → (initialize_connection false setup state).0 ≡ some g
    → (initialize_connection false setup state).1 ≡ set_successful false (set_running true setup)
unfolding initialize_connection
initialize_connection-stores setup state h = ground arith

initialized-stores :
    (g : ℕ) (reply : CommandReply) (setup : Setup)
    → initialized g reply setup
      ≡ set_running false (set_successful (success reply) (set_generation g setup))
unfolding initialized
initialized-stores g reply setup = refl

pub data Step : Node → Node → Type 0 where
  start :
      (n : Node) (state : DeviceState)
      → n.pc ≡ resting
      → (initialize_connection false n.setup state).0 ≡ some state.connection_generation
      → Step n
          (record n { setup = set_running true n.setup; pc = starting state.connection_generation })
  reset :
      (n : Node) (g : ℕ)
      → n.pc ≡ starting g
      → Step n (record n { setup = set_successful false n.setup; pc = working g })
  store_generation :
      (n : Node) (g : ℕ) (reply : CommandReply)
      → n.pc ≡ working g
      → Step n (record n {
        setup = set_generation g n.setup;
        pc = storing g (success reply);
        successes = if success reply then g ∷ n.successes else n.successes;
      })
  store_success :
      (n : Node) (g : ℕ) (ok : Bool)
      → n.pc ≡ storing g ok
      → Step n (record n { setup = set_successful ok n.setup; pc = ending })
  finish :
      (n : Node)
      → n.pc ≡ ending
      → Step n (record n { setup = set_running false n.setup; pc = resting })

abbrev pub first : Node
first = record {
  setup = record { done = record { successful = false; generation = 0 }; running = false };
  pc = resting;
  successes = [];
}

pub data Reach : Node → Type 0 where
  begin : Reach first
  later : {n m : Node} → Reach n → Step n m → Reach m

-- What the position says of the shared variables.
abbrev Agrees : Node → Pc → Type 0
Agrees n resting = n.setup.running ≡ false
Agrees n (starting g) = n.setup.running ≡ true
Agrees n (working g) = (n.setup.running ≡ true) × (n.setup.done.successful ≡ false)
Agrees n (storing g ok) =
    (n.setup.running ≡ true)
    × (n.setup.done.successful ≡ false)
    × (n.setup.done.generation ≡ g)
    × ((ok && not (contains g n.successes)) ≡ false)
Agrees n ending = n.setup.running ≡ true

record Inv (n : Node) : Type 0 where
  agrees : Agrees n n.pc
  earned : (n.setup.done.successful && not (contains n.setup.done.generation n.successes)) ≡ false

Step-Inv : {n m : Node} → Step n m → Inv n → Inv m
Step-Inv (start n state e h) v = record { agrees = refl; earned = v.earned }
Step-Inv (reset n g e) v =
    let a = subst (Agrees n) e v.agrees in record { agrees = (a, refl); earned = refl }
Step-Inv (store_generation n g reply e) v =
    let (on, off) = subst (Agrees n) e v.agrees in
    record { agrees = (on, off, refl, ground (arith, ==_iff g g)); earned = ground arith }
Step-Inv (store_success n g ok e) v =
    let (on, off, same, won) = subst (Agrees n) e v.agrees in
    record { agrees = on; earned = ground arith }
Step-Inv (finish n e) v = record { agrees = refl; earned = v.earned }

Reach-Inv : {n : Node} → Reach n → Inv n
Reach-Inv begin = record { agrees = refl; earned = refl }
Reach-Inv (later r st) = Step-Inv st (Reach-Inv r)

-- However the stores of the initialization thread and the callbacks interleave,
-- connection_is_ready only holds in a generation of the connection whose initialization has
-- had a successful last reply.
pub connection_is_ready-contains :
    {n : Node} (state : DeviceState)
    → Reach n
    → connection_is_ready n.setup.done state ≡ true
    → contains state.connection_generation n.successes ≡ true
unfolding connection_is_ready
connection_is_ready-contains {n} state r h =
    let same = (==_iff n.setup.done.generation state.connection_generation).0 (ground arith) in
    let earned = (Reach-Inv r).earned in rw (sym same) (ground arith)

abbrev pub in_thread : Pc → Bool
in_thread (working g) = true
in_thread (storing g ok) = true
in_thread pc = false

-- While the thread of an initialization is at work, no goal is accepted.
in_thread-not_ready :
    {n : Node} (state : DeviceState)
    → Reach n
    → in_thread n.pc ≡ true
    → connection_is_ready n.setup.done state ≡ false
unfolding connection_is_ready
in_thread-not_ready {n} state r h = by_pc n.pc (Reach-Inv r).agrees h
  where
    by_pc :
        (pc : Pc)
        → Agrees n pc
        → in_thread pc ≡ true
        → (state.connected
            && state.referenced
            && n.setup.done.successful
            && n.setup.done.generation == state.connection_generation)
          ≡ false
    by_pc resting a h = cc
    by_pc (starting g) a h = cc
    by_pc (working g) a h = ground arith
    by_pc (storing g ok) a h = ground arith
    by_pc ending a h = cc

-- No second thread is started while one runs: initialize_connection returns at once.
initialize_connection-waits :
    {n : Node} (shutting_down : Bool) (state : DeviceState)
    → Reach n
    → in_thread n.pc ≡ true
    → initialize_connection shutting_down n.setup state ≡ (none, n.setup)
unfolding initialize_connection
initialize_connection-waits {n} shutting_down state r h =
    let on = running n.pc (Reach-Inv r).agrees h in ground arith
  where
    running : (pc : Pc) → Agrees n pc → in_thread pc ≡ true → n.setup.running ≡ true
    running resting a h = cc
    running (starting g) a h = cc
    running (working g) a h = a.0
    running (storing g ok) a h = a.0
    running ending a h = cc

-- In each reachable state in which the initialization thread is before its last two stores,
-- connection_is_ready is false, whatever the state of the device, and initialize_connection
-- starts no second thread and changes nothing.
pub in_thread-refuses :
    {n : Node} (shutting_down : Bool) (state : DeviceState)
    → Reach n
    → in_thread n.pc ≡ true
    → (connection_is_ready n.setup.done state ≡ false)
      × (initialize_connection shutting_down n.setup state ≡ (none, n.setup))
in_thread-refuses shutting_down state r h =
    (in_thread-not_ready state r h, initialize_connection-waits shutting_down state r h)
