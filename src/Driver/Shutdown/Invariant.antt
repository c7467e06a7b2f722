-- ===== src/Driver/Shutdown/Invariant.antt =====
-- What holds of the node of wsg50_driver/src/main.cpp while its destructor runs.
use wsg50_ros2_humble.Base.{
  ℕ, suc, ◌≤◌, ◌<◌, ◌≡◌, refl, false, List, [], ◌∷◌, ◌++◌, Option, none, some, arith,
}
use wsg50_ros2_humble.Transport.{TransportOptions}
use wsg50_ros2_humble.Transport.Threads.{over, System, Step, Reach, begin, later, client, stops}
use wsg50_ros2_humble.Transport.Threads.Stays.{Step-promises, Step-halted, Step-over}
use wsg50_ros2_humble.Driver.Shutdown.{
  Stage, alive, halting, joining, collecting, destroyed, Client, Plant, plant, PlantStep, inside,
  calls, gets, halts, stops_transport, joins_worker, joins_thread, finishes, Unstarted, PlantReach,
  begins_with, after,
}
use wsg50_ros2_humble.Driver.Shutdown as Shutdown

-- A promise that a thread waits for has been made.
abbrev pub Made : ℕ → Client → Type 0
Made n c = elim (c.awaits) [ none ↦ Unit {0} | some k ↦ k < n ]

abbrev pub AllMade : ℕ → List Client → Type 0
AllMade n [] = Unit {0}
AllMade n (c ∷ cs) = Made n c × AllMade n cs

Made-mono : (a b : ℕ) (c : Client) (o : Option ℕ) → c.awaits ≡ o → a ≤ b → Made a c → Made b c
Made-mono a b c none e h m = rw e tt
Made-mono a b c (some k) e h m = let m' = rw e at m in rw e (omega arith)

AllMade-mono : (a b : ℕ) (cs : List Client) → a ≤ b → AllMade a cs → AllMade b cs
AllMade-mono a b [] h m = tt
AllMade-mono a b (c ∷ cs) h (m, ms) = (Made-mono a b c c.awaits refl h m, AllMade-mono a b cs h ms)

-- One of the threads changes.
AllMade-change :
    (n : ℕ) (before behind : List Client) (c d : Client)
    → Made n d
    → AllMade n (before ++ (c ∷ behind))
    → AllMade n (before ++ (d ∷ behind))
AllMade-change n [] behind c d m (old, ms) = (m, ms)
AllMade-change n (b ∷ before) behind c d m (first, ms) =
    (first, AllMade-change n before behind c d m ms)

Unstarted-AllMade : (n : ℕ) (cs : List Client) → Unstarted cs → AllMade n cs
Unstarted-AllMade n [] u = tt
Unstarted-AllMade n (c ∷ cs) (e, u) = (rw e tt, Unstarted-AllMade n cs u)

-- What the stage of the destructor says of the transport.
abbrev pub Says : Stage → System → Type 0
Says alive s = Unit {0}
Says halting s = Unit {0}
Says joining s = s.transport.running ≡ false
Says collecting s = (s.pc ≡ over) × (s.transport.running ≡ false)
Says destroyed s = (s.pc ≡ over) × (s.transport.running ≡ false)

Says-step : (stage : Stage) {s s' : System} → Step s s' → Says stage s → Says stage s'
Says-step alive st h = tt
Says-step halting st h = tt
Says-step joining st h = Step-halted st h
Says-step collecting st (e, off) = (Step-over st e, Step-halted st off)
Says-step destroyed st (e, off) = (Step-over st e, Step-halted st off)

pub record PlantInv (options : TransportOptions) (p : Plant) : Type 0 where
  pub reach : Reach options p.system
  pub made : AllMade p.system.transport.promises p.clients
  pub says : Says p.stage p.system

PlantStep-Inv :
    {options : TransportOptions} {p q : Plant}
    → PlantStep p q
    → PlantInv options p
    → PlantInv options q
PlantStep-Inv (inside {s} {s'} {clients} {stage} st) v = record {
  reach = later v.reach st;
  made = AllMade-mono _ _ clients (Step-promises st) v.made;
  says = Says-step stage st v.says;
}
PlantStep-Inv (calls {t} {t'} {pc} {refused} {refused'} {stage} before behind n st e) v = record {
  reach = later v.reach (client t t' pc refused refused' st);
  made =
      AllMade-change t'.promises before behind (Shutdown.client (suc n) none)
        (Shutdown.client n (some t.promises)) (omega arith)
        (AllMade-mono t.promises t'.promises _ (omega arith) v.made);
  says = Says-step stage (client t t' pc refused refused' st) v.says;
}
PlantStep-Inv (gets {s} {stage} before behind n k reply e) v = record {
  reach = v.reach;
  made =
      AllMade-change s.transport.promises before behind (Shutdown.client n (some k))
        (Shutdown.client n none) tt v.made;
  says = v.says;
}
PlantStep-Inv halts v = record { reach = v.reach; made = v.made; says = tt }
PlantStep-Inv (stops_transport {t} {pc} {refused}) v = record {
  reach = later v.reach (stops t pc refused);
  made = v.made;
  says = refl;
}
PlantStep-Inv (joins_worker e) v = record { reach = v.reach; made = v.made; says = (e, v.says) }
PlantStep-Inv joins_thread v = record { reach = v.reach; made = v.made.1; says = v.says }
PlantStep-Inv finishes v = record { reach = v.reach; made = v.made; says = v.says }

pub PlantReach-Inv :
    {options : TransportOptions} {p : Plant} → PlantReach options p → PlantInv options p
PlantReach-Inv (begins_with clients u) = record {
  reach = begin;
  made = Unstarted-AllMade _ clients u;
  says = tt;
}
PlantReach-Inv (after r st) = PlantStep-Inv st (PlantReach-Inv r)
