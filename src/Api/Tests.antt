-- ===== src/Api/Tests.antt =====
-- Witnesses with a kit that does what go-kit documents.
use cocos.Common.{
  ◌≡◌, refl, inl, ℕ, true, false, none, some, List, [], ◌∷◌, String, Bytes, arith, pos,
  string_comparable,
}
use cocos.Common.Exec.{ok, err, ◌>>=◌}
use cocos.Agent.Types.{
  receiving_data, consuming_results, Context, Dataset, Computation, no_computation,
  state_comparable,
}
use cocos.Agent.State.{Agent}
use cocos.Agent.Manifest.{new, state}
use cocos.Agent.Inputs.{DataIo, match_dataset, decompress_from_context}
use cocos.Stream.Progress.{ProgressBar, RenderIo, new as new_bar}
use cocos.Stream.Upload.{RoundIo, CloseIo, send_data}
use cocos.Stream.Download.{ReceiveIo, receive_stream}
use cocos.Api.Server.{Kit, Lawful, new_server, answer, data_upload, result}
use cocos.Api.Uploads.{Stored, dataset_uploaded}
use cocos.Api.Results.{result_downloaded}

abbrev kit : Kit
kit = record {
  serve =
      λ endpoint decode encode q. answer (decode q) >>= λ r. endpoint r >>= λ x. answer (encode x);
}

kit-Lawful : Lawful kit
kit-Lawful Q R A B endpoint decode encode q a = refl

abbrev digest : Bytes → Bytes
digest [] = []
digest (b ∷ bs) = b ∷ []

abbrev table : Dataset
table = record { dataset = []; hash = 5 ∷ []; user_key = []; filename = "table.csv" }

abbrev manifest : Computation
manifest = record no_computation {
  datasets = table ∷ [];
  result_consumers = record { user_key = [] } ∷ [];
}

-- The agent as it receives data, and with a result.
abbrev receiving : Agent
receiving = record new {
  computation = manifest;
  sm = record (new.sm) { current_state = receiving_data };
}

abbrev finished : Agent
finished = record receiving {
  sm = record (new.sm) { current_state = consuming_results };
  result = 1 ∷ 2 ∷ [];
  run_error = none;
}

abbrev context : Context
context = record {
  algo_type = [];
  algo_args = [];
  python_runtime = [];
  decompress = [];
  manifest_index = some (pos 0);
}

abbrev disk : DataIo
disk = record { unzip = err ""; create = none; write = none; close = none }

-- A terminal of 80 columns.
abbrev wide : RenderIo
wide = record { width = some 80; start_length = 40; clear = none; write = none }

abbrev round_io : ℕ → RoundIo
round_io i = record { read = none; send = none; render = wide }

abbrev receive_io : ℕ → ReceiveIo
receive_io i = record { write = none; render = wide }

abbrev close_io : CloseIo
close_io = record { stat = none; newline = none; close = none }

dataset_uploaded_example :
    (requests : List (Bytes × String)) × (b : Agent) × (send_data 3 close_io round_io
        "Uploading data" "table.csv"
        (5 ∷ 6 ∷ [])
        (new_bar false)
      ≡ some (ok tt, requests))
    × (data_upload (new_server kit digest) disk context requests none none receiving ≡ (ok tt, b))
    × Stored receiving b "table.csv" (5 ∷ 6 ∷ []) []
unfolding state match_dataset decompress_from_context new
dataset_uploaded_example =
    dataset_uploaded kit digest disk context 3 close_io round_io "Uploading data" "table.csv"
      (5 ∷ 6 ∷ []) (new_bar false) receiving [] kit-Lawful (λ e. absurd (ground arith))
      (refl, refl, refl) (λ k. (refl, refl, (refl, refl, omega arith))) (omega arith) refl refl refl
      (refl, refl, refl)

result_downloaded_example :
    (chunks : List Bytes) × (q : ProgressBar) × ((result
        (new_server kit digest)
        3
        none
        (λ i. none)
        consuming_results
        context
        finished).0
      ≡ some (record { file_size = some 2; chunks = chunks; outcome = ok tt }))
    × (receive_stream receive_io none "Downloading result" 2 chunks none (new_bar true)
        ≡ (ok q, 1 ∷ 2 ∷ []))
unfolding new
result_downloaded_example =
    result_downloaded kit digest 3 0 (λ i. none) receive_io "Downloading result" consuming_results
      context finished (new_bar true) kit-Lawful (inl refl) refl refl refl (λ k. refl)
      (λ k. (refl, (refl, refl, omega arith))) (omega arith)
