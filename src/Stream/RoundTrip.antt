-- ===== src/Stream/RoundTrip.antt =====
-- pkg/progressbar/progressbar.go and agent/api/grpc/server.go: what SendData and SendAlgorithm send
-- is what the server receives.
use cocos.Common.{
  ℕ, zero, suc, ◌+◌, ◌<◌, ◌≤◌, ◌≡◌, refl, sym, ap, ◌∙◌, ◌≢◌, Option, none, some, List, [], ◌∷◌,
  ◌++◌, append-nil, append_assoc, String, Bytes, concat, take, drop, length, length-take,
  length-drop, take-append-drop, arith, if◌then◌else◌, ◌==◌, string_comparable,
}
use cocos.Common.Exec.{ok}
use cocos.Stream.Sending.{buffer_size}
use cocos.Stream.Receiving.{
  received, firsts, seconds, last_name, receive_streaming_data, receive_streaming_data_lem,
  receive_algo_data, receive_algo_data_lem,
}
use cocos.Stream.Drawing.{Drawable, render_lem, update_lem}
use cocos.Stream.Progress.{ProgressBar, reset}
use cocos.Stream.Upload.{
  RoundIo, send_buffer, CloseIo, labelled, send_data, as_algorithm, as_requirements, send_algorithm,
}

abbrev pub Fine : RoundIo → Type 0
Fine io = (io.read ≡ none) × (io.send ≡ none) × Drawable io.render io.render.width

send_buffer_all :
    (fuel : ℕ) (io : ℕ → RoundIo) (i : ℕ) (content : Bytes) (p : ProgressBar)
    → ((k : ℕ) → Fine (io k))
    → p.current_uploaded_bytes + length content ≤ p.number_of_bytes
    → length content < fuel
    → (q : ProgressBar) × (cs : List Bytes) × (send_buffer fuel io i content p ≡ some (ok q, cs))
      × (concat cs ≡ content)
      × (q.number_of_bytes ≡ p.number_of_bytes)
      × (q.current_uploaded_bytes ≡ p.current_uploaded_bytes + length content)
      × (content ≡ [] → cs ≡ [])
unfolding send_buffer buffer_size
send_buffer_all zero io i content p fine fits enough = absurd (omega arith)
send_buffer_all (suc fuel) io i [] p fine fits enough =
    (p, [], rw ((fine i).0) refl, refl, refl, omega arith, λ e. refl)
send_buffer_all (suc fuel) io i (b ∷ bs) p fine fits enough =
    let chunk = take buffer_size (b ∷ bs) in
    let left = drop buffer_size (b ∷ bs) in
    let taken = length-take buffer_size (b ∷ bs) in
    let dropped = length-drop buffer_size (b ∷ bs) in
    let (q, updated, total, count, low, exact) =
      update_lem (length chunk) p (omega (arith, taken, fits)) (omega (arith, taken)) in
    let (r, rendered, same) = render_lem (io i).render q (fine i).2 low in
    let (s, cs, sent, whole, total', count', empty) =
      send_buffer_all fuel io (suc i) left r fine
        (omega (arith, taken, dropped, total, count, same, fits))
        (omega (arith, dropped, enough)) in
    (
      s,
      chunk ∷ cs,
      rw ((fine i).0, updated, (fine i).1, rendered, sent) refl,
      ap (λ (l : Bytes). chunk ++ l) whole ∙ take-append-drop buffer_size (b ∷ bs),
      omega (arith, total', total, same),
      omega (arith, count', count, same, taken, dropped),
      λ e. absurd (ground arith),
    )

labelled-firsts : (filename : String) (cs : List Bytes) → firsts (labelled filename cs) ≡ cs
labelled-firsts filename [] = refl
labelled-firsts filename (c ∷ cs) = ap (◌∷◌ c) (labelled-firsts filename cs)

last_name-labelled :
    (filename : String) (cs : List Bytes)
    → last_name filename (seconds (labelled filename cs)) ≡ filename
last_name-labelled filename [] = refl
last_name-labelled filename (c ∷ cs) =
    let same : (if filename == "" then filename else filename) ≡ filename = ground arith in
    ap (λ n. last_name n (seconds (labelled filename cs))) same ∙ last_name-labelled filename cs

abbrev pub name_received : String → Bytes → String
name_received filename [] = ""
name_received filename (b ∷ bs) = filename

last_name_received :
    (filename : String) (cs : List Bytes) (content : Bytes)
    → concat cs ≡ content
    → content ≢ []
    → last_name "" (seconds (labelled filename cs)) ≡ filename
last_name_received filename [] content e n = absurd (n (sym e))
last_name_received filename (c ∷ cs) content e n =
    let first : (if filename == "" then "" else filename) ≡ filename =
      ground (arith, string_comparable.equal_iff filename "") in
    ap (λ n. last_name n (seconds (labelled filename cs))) first ∙ last_name-labelled filename cs

abbrev pub ClosesWell : CloseIo → Type 0
ClosesWell io = (io.stat ≡ none) × (io.newline ≡ none) × (io.close ≡ none)

-- An upload of a dataset in which every read, send and write succeeds, on a terminal of no known
-- size or wider than the bar's text by more than eight columns, with fuel above the file's length:
-- SendData ends without an error, and the server's receiveStreamingData puts the requests together
-- to the file's content, with the file's name unless the file is empty.
pub upload_data :
    (fuel : ℕ) (close : CloseIo) (io : ℕ → RoundIo) (description filename : String)
    (content : Bytes) (p : ProgressBar)
    → ClosesWell close
    → ((k : ℕ) → Fine (io k))
    → length content < fuel
    → (requests : List (Bytes × String)) × (send_data fuel close io description filename content p
        ≡ some (ok tt, requests))
      × (receive_streaming_data requests none ≡ ok (content, name_received filename content))
unfolding send_data reset
upload_data fuel close io description filename content p (s, n, c) fine enough =
    let (q, cs, sent, whole, total, count, empty) =
      send_buffer_all fuel io 0 content (reset description (length content) p) fine (omega arith)
        enough in
    (
      labelled filename cs,
      rw (s, sent, n, c) refl,
      receive_streaming_data_lem (labelled filename cs) none ∙ named content cs whole empty,
    )
  where
    named :
        (content : Bytes) (cs : List Bytes)
        → concat cs ≡ content
        → (content ≡ [] → cs ≡ [])
        → received {A = Bytes × String} none
            (concat (firsts (labelled filename cs)), last_name "" (seconds (labelled filename cs)))
          ≡ ok (content, name_received filename content)
    named [] cs e empty = rw (empty refl) refl
    named (b ∷ bs) cs e empty =
        rw
          (
            labelled-firsts filename cs,
            last_name_received filename cs (b ∷ bs) e (λ n. absurd (ground arith)),
            e,
          )
          refl

algorithm-halves :
    (cs : List Bytes) → (firsts (as_algorithm cs) ≡ cs) × (concat (seconds (as_algorithm cs)) ≡ [])
algorithm-halves [] = (refl, refl)
algorithm-halves (c ∷ cs) = (ap (◌∷◌ c) (algorithm-halves cs).0, (algorithm-halves cs).1)

requirements-halves :
    (cs : List Bytes)
    → (concat (firsts (as_requirements cs)) ≡ []) × (seconds (as_requirements cs) ≡ cs)
requirements-halves [] = (refl, refl)
requirements-halves (c ∷ cs) = ((requirements-halves cs).0, ap (◌∷◌ c) (requirements-halves cs).1)

halves-append :
    (xs ys : List (Bytes × Bytes))
    → (concat (firsts (xs ++ ys)) ≡ concat (firsts xs) ++ concat (firsts ys))
      × (concat (seconds (xs ++ ys)) ≡ concat (seconds xs) ++ concat (seconds ys))
halves-append [] ys = (refl, refl)
halves-append ((a, r) ∷ xs) ys =
    let (f, g) = halves-append xs ys in
    (
      ap (λ (l : Bytes). a ++ l) f ∙ sym (append_assoc a (concat (firsts xs)) (concat (firsts ys))),
      ap (λ (l : Bytes). r ++ l) g
          ∙ sym (append_assoc r (concat (seconds xs)) (concat (seconds ys))),
    )

abbrev pub file_content : Option Bytes → Bytes
file_content none = []
file_content (some content) = content

-- An upload of an algorithm, with requirements or without, in which every read, send and write
-- succeeds, on a terminal of no known size or wider than the bar's text by more than eight columns,
-- with fuel above the files' lengths: SendAlgorithm ends without an error, and the server's
-- receiveAlgoData puts the requests together to the algorithm and the requirements.
pub upload_algorithm :
    (fuel : ℕ) (close : CloseIo) (before io : ℕ → RoundIo) (description : String) (algo : Bytes)
    (req : Option Bytes) (p : ProgressBar)
    → ClosesWell close
    → ((k : ℕ) → Fine (before k))
    → ((k : ℕ) → Fine (io k))
    → length algo + length (file_content req) < fuel
    → (requests : List (Bytes × Bytes)) × (send_algorithm fuel close before io description algo req
          p
        ≡ some (ok tt, requests))
      × (receive_algo_data requests none ≡ ok (algo, file_content req))
unfolding send_algorithm reset
upload_algorithm fuel close before io description algo none p (s, n, c) fine' fine enough =
    let (q, cs, sent, whole, total, count, empty) =
      send_buffer_all fuel io 0 algo (reset description (length algo + 0) p) fine (omega arith)
        (omega arith) in
    let (fst, snd) = algorithm-halves cs in
    (
      as_algorithm cs,
      rw (s, sent, n, c) refl,
      receive_algo_data_lem (as_algorithm cs) none ∙ rw (fst, snd, whole) refl,
    )
upload_algorithm fuel close before io description algo (some req) p (s, n, c) fine' fine enough =
    let (q, rs, before_sent, before_whole, total, count, e) =
      send_buffer_all fuel before 0 req (reset description (length algo + length req) p) fine'
        (omega arith) (omega arith) in
    let (r, cs, sent, whole, total', count', e') =
      send_buffer_all fuel io 0 algo q fine (omega (arith, total, count)) (omega arith) in
    let (fst, snd) = algorithm-halves cs in
    let (first, second) = requirements-halves rs in
    let (joined, joined') = halves-append (as_requirements rs) (as_algorithm cs) in
    (
      as_requirements rs ++ as_algorithm cs,
      rw (s, before_sent) (rw (sent, n, c) refl),
      receive_algo_data_lem (as_requirements rs ++ as_algorithm cs) none
          ∙ rw (joined, joined', first, second, fst, snd, whole, before_whole, append-nil req) refl,
    )
