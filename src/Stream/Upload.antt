-- ===== src/Stream/Upload.antt =====
-- pkg/progressbar/progressbar.go: SendData and SendAlgorithm. A file is its content, and a round
-- takes a byte at least, so that fuel above its length is enough.
use cocos.Common.{
  ℕ, zero, suc, ◌+◌, Option, none, some, List, [], ◌∷◌, ◌++◌, String, Bytes, map, take, drop,
  length, string_comparable,
}
use cocos.Common.Exec.{Result, ok, err}
use cocos.Stream.Sending.{buffer_size}
use cocos.Stream.Progress.{
  ProgressBar, ProgressError, plain, reset, update_progress, RenderIo, render_progress_bar,
}

-- What one round is answered: the file's read, the send, and the terminal.
pub record RoundIo : Type 0 where
  pub read : Option String
  pub send : Option String
  pub render : RenderIo

-- How the loop ended, and the chunks that were sent.
abbrev pub Sent : Type 0
Sent = Result ProgressError ProgressBar × List Bytes

abbrev pub also_sent : Bytes → Option Sent → Option Sent
also_sent chunk none = none
also_sent chunk (some (r, chunks)) = some (r, chunk ∷ chunks)

abbrev pub after_render :
    Bytes → (ProgressBar → Option Sent) → Result ProgressError ProgressBar → Option Sent
after_render chunk continue (err e) = some (err e, chunk ∷ [])
after_render chunk continue (ok p) = also_sent chunk (continue p)

abbrev pub after_send :
    RenderIo → Bytes → (ProgressBar → Option Sent) → ProgressBar → Option String → Option Sent
after_send io chunk continue p (some e) = some (err (plain e), [])
after_send io chunk continue p none = after_render chunk continue (render_progress_bar io p)

abbrev pub after_update :
    RoundIo → Bytes → (ProgressBar → Option Sent) → Result ProgressError ProgressBar → Option Sent
after_update io chunk continue (err e) = some (err e, [])
after_update io chunk continue (ok p) = after_send io.render chunk continue p io.send

-- One round with the bytes that were read.
abbrev pub round :
    RoundIo → Bytes → (ProgressBar → Option Sent) → ProgressBar → Option String → Option Sent
round io chunk continue p (some e) = some (err (plain e), [])
round io chunk continue p none = after_update io chunk continue (update_progress (length chunk) p)

abbrev pub at_end : Option String → ProgressBar → Sent
at_end (some e) p = (err (plain e), [])
at_end none p = (ok p, [])

unfoldable pub send_buffer : ℕ → (ℕ → RoundIo) → ℕ → Bytes → ProgressBar → Option Sent
unfolding update_progress render_progress_bar
send_buffer zero io i content p = none
send_buffer (suc fuel) io i [] p = some (at_end (io i).read p)
send_buffer (suc fuel) io i (b ∷ bs) p =
    round (io i) (take buffer_size (b ∷ bs))
      (send_buffer fuel io (suc i) (drop buffer_size (b ∷ bs))) p (io i).read

-- The newline on the terminal and CloseAndRecv.
pub record CloseIo : Type 0 where
  pub stat : Option String
  pub newline : Option String
  pub close : Option String

abbrev pub first_error :
    Option String → Result ProgressError (Unit {0}) → Result ProgressError (Unit {0})
first_error none r = r
first_error (some e) r = err (plain e)

abbrev pub closed : CloseIo → Result ProgressError ProgressBar → Result ProgressError (Unit {0})
closed io (err e) = err e
closed io (ok p) = first_error io.newline (first_error io.close (ok tt))

abbrev pub labelled : String → List Bytes → List (Bytes × String)
labelled filename cs = map (λ c. (c, filename)) cs

-- SendData's result, and the requests that it sent.
abbrev pub data_sent :
    CloseIo
    → String
    → Option Sent
    → Option (Result ProgressError (Unit {0}) × List (Bytes × String))
data_sent io filename none = none
data_sent io filename (some (r, cs)) = some (closed io r, labelled filename cs)

unfoldable pub send_data :
    ℕ
    → CloseIo
    → (ℕ → RoundIo)
    → String
    → String
    → Bytes
    → ProgressBar
    → Option (Result ProgressError (Unit {0}) × List (Bytes × String))
unfolding send_buffer reset
send_data fuel close io description filename content p = elim close.stat [
  | some e ↦ some (err (plain e), [])
  | none ↦
      data_sent close filename
        (send_buffer fuel io 0 content (reset description (length content) p))
]

-- A request of SendAlgorithm: the algorithm's bytes and the requirements' bytes.
abbrev pub as_algorithm : List Bytes → List (Bytes × Bytes)
as_algorithm cs = map (λ c. (c, [])) cs

abbrev pub as_requirements : List Bytes → List (Bytes × Bytes)
as_requirements cs = map (λ c. ([], c)) cs

abbrev pub AlgoSent : Type 0
AlgoSent = Result ProgressError (Unit {0}) × List (Bytes × Bytes)

abbrev pub algorithm_sent : CloseIo → List (Bytes × Bytes) → Option Sent → Option AlgoSent
algorithm_sent io before none = none
algorithm_sent io before (some (r, cs)) = some (closed io r, before ++ as_algorithm cs)

abbrev pub requirements_sent :
    (ProgressBar → List (Bytes × Bytes) → Option AlgoSent) → Option Sent → Option AlgoSent
requirements_sent continue none = none
requirements_sent continue (some (err e, cs)) = some (err e, as_requirements cs)
requirements_sent continue (some (ok p, cs)) = continue p (as_requirements cs)

abbrev pub file_size : Option Bytes → ℕ
file_size none = 0
file_size (some content) = length content

-- The requirements' file, where there is one, goes first. Its rounds and the algorithm's are
-- answered by `before` and `io`.
unfoldable pub send_algorithm :
    ℕ
    → CloseIo
    → (ℕ → RoundIo)
    → (ℕ → RoundIo)
    → String
    → Bytes
    → Option Bytes
    → ProgressBar
    → Option AlgoSent
unfolding send_buffer reset
send_algorithm fuel close before io description algo req p =
    let send_algo = λ (q : ProgressBar) (sent : List (Bytes × Bytes)).
      algorithm_sent close sent (send_buffer fuel io 0 algo q) in
    let start = reset description (length algo + file_size req) p in
    elim close.stat [
      | some e ↦ some (err (plain e), [])
      | none ↦ elim req [
        | none ↦ send_algo start []
        | some content ↦ requirements_sent send_algo (send_buffer fuel before 0 content start)
      ]
    ]
