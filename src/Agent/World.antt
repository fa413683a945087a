-- ===== src/Agent/World.antt =====
-- The agent among its clients, its loop and its goroutines, in an orderly use: one step at a time.
use cocos.Common.{◌≡◌, false, Option, some, List, ◌∷◌, ◌++◌, String, Bytes}
use cocos.StateMachine.{Loop, took}
use cocos.Agent.Types.{
  AgentState, AgentEvent, Computation, Algorithm, Context, state_comparable, event_comparable,
}
use cocos.Agent.State.{
  Agent, Task, spawned, computing, publish_event, run_computation, publish, turn, come_back,
}
use cocos.Agent.Manifest.{new, state, init_computation, StopIo, stop_computation}
use cocos.Agent.Inputs.{AlgoIo, algo, DataIo, add_dataset}
use cocos.Agent.Running.{RunIo, begin_run, end_run, result}
use cocos.Agent.Invariant.{busy}

-- A cancelled loop has finished with the event that it took.
abbrev pub IsSettled : Loop AgentEvent → Type 0
IsSettled (took e) = ⊥
IsSettled l = Unit {0}

-- A call of a client, a move of the loop, or a goroutine's part, in an orderly use of the agent:
-- each call reads the state that it then acts in, though it reads it before it takes the mutex, and
-- StopComputation is called only while no run is about to begin or at work and the loop has
-- finished with the event that it took.
pub data Step (sha3 : Bytes → Bytes) (a : Agent) : Agent → Type 0 where
  inits : (cmp : Computation) → Step sha3 a (init_computation (state a) cmp a).1
  algos : (io : AlgoIo) (ctx : Context) (x : Algorithm) → Step sha3 a (algo sha3 io ctx x a).1
  datas :
      (io : DataIo) (ctx : Context) (content : Bytes) (name : String)
      → Step sha3 a (add_dataset sha3 io ctx content name a).1
  results : (ctx : Context) → Step sha3 a (result (state a) ctx a).1
  stops :
      (io : StopIo)
      → IsSettled a.loop
      → busy a.tasks ≡ false
      → Step sha3 a (stop_computation io a).1
  turns : Step sha3 a (turn a)
  comes_back : Step sha3 a (come_back a)
  publishes :
      (ts us : List Task) (status : String) (s : AgentState)
      → a.tasks ≡ ts ++ spawned (publish_event status) s ∷ us
      → Step sha3 a (publish status s (record a { tasks = ts ++ us }))
  begins :
      (ts us : List Task) (s : AgentState) (mkdir : Option String) {b : Agent}
      → a.tasks ≡ ts ++ spawned run_computation s ∷ us
      → begin_run mkdir s (record a { tasks = ts ++ us }) ≡ some b
      → Step sha3 a b
  ends :
      (ts us : List Task) (s : AgentState) (io : RunIo)
      → a.tasks ≡ ts ++ computing s ∷ us
      → Step sha3 a (end_run io s (record a { tasks = ts ++ us }))

pub data Reach (sha3 : Bytes → Bytes) : Agent → Type 0 where
  begin : Reach sha3 new
  followed : {a b : Agent} → Reach sha3 a → Step sha3 a b → Reach sha3 b
