-- ===== src/Cvms/Incoming.antt =====
-- agent/cvms/api/grpc/client.go: the messages from the server, and what the guest does on them.
-- agent/cvms/server/cvm.go: the server for the parties, which is started for one computation.
use cocos.Common.{
  ℕ, Bool, true, false, Option, none, some, List, [], ◌∷◌, ◌++◌, String, Bytes, ◌==◌,
  string_comparable, if◌then◌else◌,
}
use cocos.Common.Exec.{Result, ok, err}
use cocos.Agent.Types.{AgentState, AgentError, Computation}
use cocos.Agent.State.{Agent}
use cocos.Agent.Manifest.{state, init_computation, StopIo, stop_computation}
use cocos.Auth.{AuthError, Crypto, Service, new_service}
use cocos.Cvms.RunRequests.{Requests, arrive}
use cocos.Cvms.RunReq.{AgentConfig, ComputationRunReq, no_config, computation_of}

pub data StopFailure : Type 0 where
  agent_failed : AgentError → StopFailure
  server_failed : String → StopFailure

-- What the client puts on its queue.
pub data ClientMessage : Type 0 where
  run_res : String → Option AuthError → ClientMessage
  stop_computation_res : String → Option StopFailure → ClientMessage
  agent_state_res : String → AgentState → ClientMessage

-- The goroutines that messages start.
pub data GuestTask : Type 0 where
  executes : ComputationRunReq → GuestTask
  stops : String → GuestTask

-- `launched` once Start has started the goroutine that sets the server up and listens, until Stop;
-- what becomes of that goroutine is not seen here.
pub record PartyServer (K : Type 0) : Type 0 where
  pub config : AgentConfig
  pub auth : Service K
  pub launched : Bool

pub record Guest (K : Type 0) : Type 0 where
  pub agent : Agent
  pub server : Option (PartyServer K)
  pub requests : Requests
  pub queue : List ClientMessage
  pub tasks : List GuestTask
  -- what PCR 16 was extended with
  pub measured : List Bytes
  pub connected : Bool

-- sendMessage, whose message is dropped when the queue stays full.
abbrev pub send_message : {K : Type 0} → Bool → ClientMessage → Guest K → Guest K
send_message false m g = g
send_message true m g = record g { queue = g.queue ++ m ∷ [] }

abbrev pub default_port : String → String
default_port port = if port == "" then "7002" else port

abbrev pub started :
    {K : Type 0} → AgentConfig → Result AuthError (Service K) → Guest K → Option AuthError × Guest K
started cfg (err e) g = (some e, g)
started cfg (ok s) g = (
  none,
  record g {
    server = some (record {
      config = record cfg { port = default_port cfg.port };
      auth = s;
      launched = true;
    });
  },
)

-- agentServer.Start, up to the goroutine that listens.
unfoldable pub start :
    {K : Type 0} → Crypto K → AgentConfig → Computation → Guest K → Option AuthError × Guest K
start c cfg cmp g = started cfg (new_service c cmp) g

-- What the platform and the other packages answer to executeRun.
pub record ExecuteIo : Type 0 where
  pub extends_pcr : Bool
  pub extend_pcr : Option String
  pub queued : Bool

abbrev pub config_of : Option AgentConfig → AgentConfig
config_of none = no_config
config_of (some cfg) = cfg

-- vtpm.ExtendPCR(PCR16, cmpJson)
abbrev pub extend : Option String → Option Bytes → List Bytes → List Bytes
extend e none done = done
extend none (some json) done = done ++ json ∷ []
extend (some e) (some json) done = done

abbrev pub measure : {K : Type 0} → ExecuteIo → Option Bytes → Guest K → Guest K
measure io json g =
    if io.extends_pcr then record g { measured = extend io.extend_pcr json g.measured } else g

-- `json` is encoding/json on a computation.
module _ {K : Type 0} (c : Crypto K) (json : Computation → Option Bytes) where
  abbrev pub run_started :
      ExecuteIo → ComputationRunReq → Computation → Option AuthError × Guest K → Guest K
  run_started io req ac (error, g) =
      measure io (json ac) (send_message io.queued (run_res req.id error) g)

  abbrev pub run_accepted :
      ExecuteIo
      → ComputationRunReq
      → Computation
      → Guest K
      → Result AgentError (Unit {0}) × Agent
      → Guest K
  run_accepted io req ac g (err e, a) = record g { agent = a }
  run_accepted io req ac g (ok u, a) =
      run_started io req ac (start c (config_of req.agent_config) ac (record g { agent = a }))

  abbrev pub run_computation :
      ExecuteIo → ComputationRunReq → Guest K → Option Computation → Option (Guest K)
  run_computation io req g none = none
  run_computation io req g (some ac) =
      some (run_accepted io req ac g (init_computation (state g.agent) ac g.agent))

  -- `none` is a panic, which ends the process.
  unfoldable pub execute_run : ExecuteIo → ComputationRunReq → Guest K → Option (Guest K)
  execute_run io req g = run_computation io req g (computation_of req)

pub record StopRunIo : Type 0 where
  pub agent_io : StopIo
  pub server_stop : Option String
  pub queued : Bool

abbrev pub agent_failure : Result AgentError (Unit {0}) → Option StopFailure
agent_failure (ok u) = none
agent_failure (err e) = some (agent_failed e)

-- agentServer.Stop: nothing was started, or the gRPC server's answer. The later failure is kept.
abbrev pub stop_server :
    {K : Type 0}
    → Option String
    → Option (PartyServer K)
    → Option StopFailure
    → Option StopFailure × Option (PartyServer K)
stop_server answer none failure = (failure, none)
stop_server none (some s) failure = (failure, some (record s { launched = false }))
stop_server (some e) (some s) failure =
    (some (server_failed e), some (record s { launched = false }))

unfoldable pub handle_stop_computation : {K : Type 0} → StopRunIo → String → Guest K → Guest K
handle_stop_computation io id g =
    let (answer, a) = stop_computation io.agent_io g.agent in
    let (failure, s) = stop_server io.server_stop g.server (agent_failure answer) in
    send_message io.queued (stop_computation_res id failure) (record g { agent = a; server = s })

unfoldable pub handle_agent_state_req : {K : Type 0} → Bool → String → Guest K → Guest K
unfolding state
handle_agent_state_req queued id g = send_message queued (agent_state_res id (state g.agent)) g

pub data ServerMessage : Type 0 where
  run_req_chunks : String → Bytes → Bool → ServerMessage
  stop_computation_req agent_state_req disconnect_req : String → ServerMessage
  -- another message, or none
  unknown : ServerMessage

pub data IncomingError : Type 0 where
  unknown_message_type corrupted_manifest : IncomingError

-- `unmarshal` is proto.Unmarshal on a run request.
module _ (unmarshal : Bytes → Option ComputationRunReq) where
  abbrev pub decoded :
      {K : Type 0} → Option ComputationRunReq → Guest K → Result IncomingError (Unit {0}) × Guest K
  decoded none g = (err corrupted_manifest, g)
  decoded (some req) g = (ok tt, record g { tasks = g.tasks ++ executes req ∷ [] })

  abbrev pub on_chunk :
      {K : Type 0} → (Bytes × Bool) × Requests → Guest K → Result IncomingError (Unit {0}) × Guest K
  on_chunk ((buffer, true), m) g = decoded (unmarshal buffer) (record g { requests = m })
  on_chunk ((buffer, false), m) g = (ok tt, record g { requests = m })

  unfoldable pub handle_run_req_chunks :
      {K : Type 0} → ℕ → String → Bytes → Bool → Guest K → Result IncomingError (Unit {0}) × Guest K
  unfolding arrive
  handle_run_req_chunks now id piece is_last g =
      on_chunk
        (arrive (record { time = now; id = id; content = piece; is_last = is_last }) g.requests) g

  unfoldable pub process_incoming_message :
      {K : Type 0} → ℕ → Bool → ServerMessage → Guest K → Result IncomingError (Unit {0}) × Guest K
  unfolding handle_run_req_chunks handle_agent_state_req
  process_incoming_message now queued (run_req_chunks id piece is_last) g =
      handle_run_req_chunks now id piece is_last g
  process_incoming_message now queued (stop_computation_req id) g =
      (ok tt, record g { tasks = g.tasks ++ stops id ∷ [] })
  process_incoming_message now queued (agent_state_req id) g =
      (ok tt, handle_agent_state_req queued id g)
  process_incoming_message now queued (disconnect_req id) g =
      (ok tt, record g { connected = false })
  process_incoming_message now queued unknown g = (err unknown_message_type, g)

  -- handleIncomingMessages: the first error ends the loop.
  abbrev pub next_message :
      {K : Type 0}
      → Result IncomingError (Unit {0}) × Guest K
      → (Guest K → Option IncomingError × Guest K)
      → Option IncomingError × Guest K
  next_message (err e, g) continue = (some e, g)
  next_message (ok u, g) continue = continue g

  unfoldable pub handle_incoming_messages :
      {K : Type 0} → List (ℕ × Bool × ServerMessage) → Guest K → Option IncomingError × Guest K
  unfolding process_incoming_message
  handle_incoming_messages [] g = (none, g)
  handle_incoming_messages ((now, queued, m) ∷ ms) g =
      next_message (process_incoming_message now queued m g) (handle_incoming_messages ms)
