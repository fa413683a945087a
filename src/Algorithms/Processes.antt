-- ===== src/Algorithms/Processes.antt =====
-- agent/algorithm/binary/binary.go, agent/algorithm/python/python.go and
-- agent/algorithm/wasm/wasm.go: an algorithm that is a process of the agent. os/exec's answers are
-- arguments. The state of an algorithm is its command, and beside it stand the commands that were
-- run and the python environment.
use mathlib.Core.Option
use Prim.Native.String.{◌++◌ as cat}
use cocos.Common.{
  Bool, true, false, Option, none, some, List, [], ◌∷◌, ◌++◌, String, ◌==◌, string_comparable,
  if◌then◌else◌,
}
use cocos.Common.Exec.{Exec, ◌>>◌, pure, throw, modify, check}
use cocos.Agent.Types.{Runner, binary, python, wasm, docker}

-- exec.Command's arguments
pub record Command : Type 0 where
  pub program : String
  pub args : List String

-- cmd.Process and cmd.ProcessState: no process, one that runs, one that exited by itself, and one
-- that a signal ended.
pub data Process : Type 0 where
  absent alive exited signalled : Process

pub record Cmd : Type 0 where
  pub command : Command
  pub process : Process

pub record Host : Type 0 where
  pub cmd : Option Cmd
  pub ran : List Command
  pub venv : Bool

pub data RunError : Type 0 where
  venv_failed pip_failed requirements_failed start_failed execution_failed venv_kept :
      String → RunError

-- How Wait returns: the process exited well or with a status, or a signal ended it.
pub data Ending : Type 0 where
  exit_well : Ending
  exit_status : String → Ending
  by_signal : String → Ending

abbrev pub Act : Type 0
Act = Exec Host RunError (Unit {0})

abbrev pub set_process : Process → Option Cmd → Option Cmd
set_process p none = none
set_process p (some c) = some (record c { process = p })

-- The end of Wait: the process's state and the error.
abbrev pub waited : Ending → Act
waited exit_well = modify λ h. record h { cmd = set_process exited h.cmd }
waited (exit_status e) = do
  modify λ h. record h { cmd = set_process exited h.cmd }
  throw (execution_failed e)
waited (by_signal e) = do
  modify λ h. record h { cmd = set_process signalled h.cmd }
  throw (execution_failed e)

-- b.cmd = exec.Command(...); b.cmd.Start(); b.cmd.Wait()
unfoldable pub start_command : Option String → Command → Act
start_command started c = do
  modify λ h. record h { cmd = some (record { command = c; process = absent }) }
  check started start_failed
  modify λ h. record h { cmd = set_process alive h.cmd; ran = h.ran ++ c ∷ [] }

-- A command that is run to its end and kept nowhere.
abbrev pub run_command : Option String → (String → RunError) → Command → Act
run_command answer wrap c = do modify λ h. record h { ran = h.ran ++ c ∷ [] }; check answer wrap

pub record ProcessIo : Type 0 where
  pub make_venv : Option String
  pub update_pip : Option String
  pub install_requirements : Option String
  pub start : Option String
  pub ending : Ending
  pub remove_venv : Option String

unfoldable pub run_binary : ProcessIo → String → List String → Act
unfolding start_command
run_binary io file args = do
  start_command io.start (record { program = file; args = args })
  waited io.ending

abbrev pub map_dir_option : List String
map_dir_option = "--dir" ∷ ".:results" ∷ []

unfoldable pub run_wasm : ProcessIo → List String → String → Act
unfolding start_command
run_wasm io args file = do
  start_command io.start (record { program = "wasmedge"; args = map_dir_option ++ (file ∷ args) })
  waited io.ending

-- NewAlgorithm's choice of the runtime
unfoldable pub python_runtime : String → String
python_runtime runtime = if runtime == "" then "python3" else runtime

abbrev pub python_path : String
python_path = "venv/bin/python"

abbrev pub venv_command : String → Command
venv_command runtime = record { program = runtime; args = "-m" ∷ "venv" ∷ "venv" ∷ [] }

abbrev pub pip_command : Command
pip_command = record {
  program = python_path;
  args = "-m" ∷ "pip" ∷ "install" ∷ "--upgrade" ∷ "pip" ∷ [];
}

abbrev pub requirements_command : String → Command
requirements_command file = record {
  program = python_path;
  args = "-m" ∷ "pip" ∷ "install" ∷ "-r" ∷ file ∷ [];
}

abbrev pub install : ProcessIo → String → Act
install io file =
    if file == ""
    then pure tt
    else run_command io.install_requirements requirements_failed (requirements_command file)

-- The virtual environment's directory is there once its command was run, and until it is removed.
unfoldable pub run_python : ProcessIo → String → String → String → List String → Act
unfolding start_command python_runtime
run_python io runtime requirements_file file args = do
  modify λ h. record h { venv = true }
  run_command io.make_venv venv_failed (venv_command (python_runtime runtime))
  run_command io.update_pip pip_failed pip_command
  install io requirements_file
  start_command io.start (record { program = python_path; args = file ∷ args })
  waited io.ending
  check io.remove_venv venv_kept
  modify λ h. record h { venv = false }

-- fmt.Errorf("error stopping algorithm: %v", err)
abbrev pub stopping_failed : String → String
stopping_failed e = cat "error stopping algorithm: " e

-- Stop of all three, given what Process.Kill answers.
abbrev pub stop_process : Option String → Process → Option String
stop_process kill exited = none
stop_process kill absent = none
stop_process kill alive = Option.map stopping_failed kill
stop_process kill signalled = Option.map stopping_failed kill

unfoldable pub stop : Option String → Host → Option String
stop kill h = elim h.cmd [ none ↦ none | some c ↦ stop_process kill c.process ]

-- The algorithm that a runner of the agent names, up to containers.
unfoldable pub run : ProcessIo → Runner → Act → Act
unfolding run_binary run_python run_wasm
run io (binary file args id) container = run_binary io file args
run io (python runtime requirements_file file args id) container =
    run_python io runtime requirements_file file args
run io (wasm args file id) container = run_wasm io args file
run io (docker file id) container = container

-- A new algorithm.
abbrev pub fresh : Host
fresh = record { cmd = none; ran = []; venv = false }
