-- ===== src/Api/Results.antt =====
-- From the agent's result to a client's file: the agent's Result, the method Result of the gRPC
-- server, and receiveStream of pkg/progressbar.
use cocos.Common.{
  ℕ, ◌<◌, ◌≡◌, ◌⊎◌, ap, ◌∙◌, true, Option, none, some, List, String, Bytes, length, pos, ltb, arith,
}
use cocos.Common.Exec.{Result, ok, err, continue}
use cocos.Agent.Types.{
  AgentState, AgentError, consuming_results, complete, failed, Context, state_comparable,
}
use cocos.Agent.State.{Agent}
use cocos.Agent.Running
use cocos.Agent.Running.{error_of, in_range}
use cocos.Auth.Interceptor.{result_in_range}
use cocos.Stream.Sending.{stream_file_data}
use cocos.Stream.Progress.{ProgressBar}
use cocos.Stream.Download.{ReceiveIo, Fine, receive_stream, download_roundtrip}
use cocos.Api.Endpoints.{ApiError, result_endpoint, result_answer}
use cocos.Api.Server.{
  Kit, Lawful, new_server, streaming_handler, stream_answer, result, answer, sent_after,
}

-- A handler that answers a file: the file is streamed after the header with its length.
streamed :
    (fuel : ℕ) (answers : ℕ → Option String) (file : Bytes) (m : Result ApiError Bytes × Agent)
    → m.0 ≡ ok file
    → (stream_answer fuel none answers (continue m.0 (λ x. answer (ok x)) m.1)).0
      ≡ sent_after (length file) (stream_file_data fuel answers 0 file)
streamed fuel answers file (ok f, a) h =
    let same : f ≡ file = ground arith in
    ap (λ (g : Bytes). sent_after (length g) (stream_file_data fuel answers 0 g)) same
streamed fuel answers file (err e, a) h = absurd (ground arith)

result_answer-ok :
    (r : (Bytes × Option AgentError) × Agent) (file : Bytes)
    → r.0 ≡ (file, none)
    → (result_answer r).0 ≡ ok file
result_answer-ok r file h = ap (λ (z : Bytes × Option AgentError). (result_answer (z, r.1)).0) h

-- Once there are results, a declared consumer's download of them from an agent whose run had no
-- error, where every send, read and write succeeds, the client's terminal has no known size or is
-- wider than the bar's text by more than eight columns, go-kit does what it documents, and the fuel
-- is above the result's length: the server announces the result's length and ends without an error,
-- and the client writes the result.
pub result_downloaded :
    (kit : Kit) (sha3 : Bytes → Bytes) (fuel i : ℕ) (answers : ℕ → Option String)
    (io : ℕ → ReceiveIo) (description : String) (observed : AgentState) (ctx : Context) (a : Agent)
    (p : ProgressBar)
    → Lawful kit
    → (observed ≡ consuming_results) ⊎ (observed ≡ complete) ⊎ (observed ≡ failed)
    → ctx.manifest_index ≡ some (pos i)
    → ltb i (length a.computation.result_consumers) ≡ true
    → a.run_error ≡ none
    → ((k : ℕ) → answers k ≡ none)
    → ((k : ℕ) → Fine (io k))
    → length a.result < fuel
    → (chunks : List Bytes) × (q : ProgressBar) × ((result
          (new_server kit sha3)
          fuel
          none
          answers
          observed
          ctx
          a).0
        ≡ some (record { file_size = some (length a.result); chunks = chunks; outcome = ok tt }))
      × (receive_stream io none description (length a.result) chunks none p ≡ (ok q, a.result))
unfolding result streaming_handler new_server result_endpoint
result_downloaded kit sha3 fuel i answers io description observed ctx a p lawful state index
      declared fine_run sends fine enough =
    let (chunks, q, sent, received) =
      download_roundtrip fuel answers io description a.result p sends fine enough in
    let answered = result_in_range observed ctx i a state index declared in
    let whole : (Running.result observed ctx a).0 ≡ (a.result, none) =
      answered ∙ ap (λ e. (a.result, error_of e)) fine_run in
    (
      chunks,
      q,
      rw (lawful _ _ _ _ _ _ _ _ a) (
          streamed fuel answers a.result (result_endpoint observed ctx a)
            (result_answer-ok (Running.result observed ctx a) a.result whole)
          ∙ ap (λ r. sent_after (length a.result) r) sent),
      received,
    )
