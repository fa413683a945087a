-- ===== src/Stream/Download.antt =====
-- agent/api/grpc/server.go: streamDualBuffers and streamingHandler's header.
-- pkg/progressbar/progressbar.go: receiveStream and ReceiveIMAMeasurements.
-- What the client's Recv returns is the list of the messages, and the error after them, `none` for
-- io.EOF.
use cocos.Common.{
  ℕ, zero, suc, ◌+◌, ◌<◌, ◌≤◌, ◌≡◌, refl, sym, ap, ◌∙◌, inl, inr, true, Option, none, some, List,
  [], ◌∷◌, ◌++◌, append-nil, append_assoc, String, Bytes, All, concat, take, drop, length,
  length-append, arith, ltb, if◌then◌else◌,
}
use cocos.Common.Exec.{Result, ok, err}
use cocos.Stream.Sending.{
  GrpcError, internal, buffer_size, IsChunk, stream_file_data, Delivery, stream_file_data-Delivery,
}
use cocos.Stream.Progress.{
  ProgressBar, ProgressError, plain, panic, reset, update_progress, RenderIo, render_progress_bar,
}
use cocos.Stream.Drawing.{Drawable, render_lem, update_lem}

-- streamDualBuffers: one message has a chunk of each buffer, and ends when both are empty.
abbrev pub SentPairs : Type 0
SentPairs = Result GrpcError (Unit {0}) × List (Bytes × Bytes)

abbrev pub after_pair : Option String → Bytes × Bytes → Option SentPairs → Option SentPairs
after_pair (some e) pair later = some (err (internal e), [])
after_pair none pair none = none
after_pair none pair (some (r, pairs)) = some (r, pair ∷ pairs)

unfoldable pub stream_dual_buffers : ℕ → (ℕ → Option String) → ℕ → Bytes → Bytes → Option SentPairs
stream_dual_buffers zero answers i first second = none
stream_dual_buffers (suc fuel) answers i [] [] = some (ok tt, [])
stream_dual_buffers (suc fuel) answers i [] (b ∷ bs) =
    after_pair (answers i) ([], take buffer_size (b ∷ bs))
      (stream_dual_buffers fuel answers (suc i) [] (drop buffer_size (b ∷ bs)))
stream_dual_buffers (suc fuel) answers i (a ∷ as') second =
    after_pair (answers i) (take buffer_size (a ∷ as'), take buffer_size second)
      (stream_dual_buffers fuel answers (suc i) (drop buffer_size (a ∷ as'))
        (drop buffer_size second))

-- What a round of receiveStream is answered.
pub record ReceiveIo : Type 0 where
  pub write : Option String
  pub render : RenderIo

-- The bar or the error, and the file.
abbrev pub Received : Type 0
Received = Result ProgressError ProgressBar × Bytes

abbrev pub after_render :
    Bytes → (ProgressBar → Bytes → Received) → Result ProgressError ProgressBar → Received
after_render file continue (err e) = (err e, file)
after_render file continue (ok q) = continue q file

abbrev pub after_write :
    ReceiveIo
    → Bytes
    → Bytes
    → (ProgressBar → Bytes → Received)
    → ProgressBar
    → Option String
    → Received
after_write io chunk file continue p (some e) = (err (plain e), file)
after_write io chunk file continue p none =
    after_render (file ++ chunk) continue (render_progress_bar io.render p)

abbrev pub after_update :
    ReceiveIo
    → Bytes
    → Bytes
    → (ProgressBar → Bytes → Received)
    → Result ProgressError ProgressBar
    → Received
after_update io chunk file continue (err e) = (err e, file)
after_update io chunk file continue (ok p) = after_write io chunk file continue p io.write

abbrev pub at_end : Option String → Option String → ProgressBar → Bytes → Received
at_end (some e) newline p file = (err (plain e), file)
at_end none (some e) p file = (err (plain e), file)
at_end none none p file = (ok p, file)

-- The loop of receiveStream, with the file as written so far; `newline` is the answer to the last
-- write on the terminal.
unfoldable pub receive_from :
    (ℕ → ReceiveIo)
    → Option String
    → ℕ
    → List Bytes
    → Option String
    → ProgressBar
    → Bytes
    → Received
unfolding update_progress render_progress_bar
receive_from io newline i [] end p file = at_end end newline p file
receive_from io newline i (chunk ∷ cs) end p file =
    after_update (io i) chunk file (receive_from io newline (suc i) cs end)
      (update_progress (length chunk) p)

unfoldable pub receive_stream :
    (ℕ → ReceiveIo)
    → Option String
    → String
    → ℕ
    → List Bytes
    → Option String
    → ProgressBar
    → Received
unfolding receive_from reset
receive_stream io newline description total cs end p =
    receive_from io newline 0 cs end (record (reset description total p) { is_download = true }) []

-- response.Pcr10[:20]
abbrev pub pcr_length : ℕ
pcr_length = 20

-- The same loop, over messages with a PCR beside the chunk, of which the first 20 bytes are copied
-- before the chunk is looked at.
abbrev pub copied : Bytes → (Bytes → Received × Bytes) → Bytes → Received → Received × Bytes
copied pcr continue before stop =
    if ltb (length pcr) pcr_length then (stop, before) else continue (take pcr_length pcr)

abbrev pub and_then : Bytes → (ProgressBar → Bytes → Received × Bytes) → Received → Received × Bytes
and_then pcr continue (err e, file) = ((err e, file), pcr)
and_then pcr continue (ok p, file) = continue p file

-- One round after the copy: the loop's body, with nothing after it.
abbrev pub store_chunk : ReceiveIo → Bytes → ProgressBar → Bytes → Received
store_chunk io chunk p file =
    after_update io chunk file (λ q f. (ok q, f)) (update_progress (length chunk) p)

unfoldable pub receive_measurements_from :
    (ℕ → ReceiveIo)
    → Option String
    → ℕ
    → List (Bytes × Bytes)
    → Option String
    → ProgressBar
    → Bytes
    → Bytes
    → Received × Bytes
unfolding update_progress render_progress_bar
receive_measurements_from io newline i [] end p file pcr10 = (at_end end newline p file, pcr10)
receive_measurements_from io newline i ((chunk, pcr) ∷ ms) end p file pcr10 =
    copied pcr
      (λ pcr'.
        and_then pcr' (λ q f. receive_measurements_from io newline (suc i) ms end q f pcr')
          (store_chunk (io i) chunk p file))
      pcr10 (err panic, file)

abbrev pub zeros : ℕ → Bytes
zeros zero = []
zeros (suc n) = 0 ∷ zeros n

unfoldable pub receive_measurements :
    (ℕ → ReceiveIo)
    → Option String
    → String
    → ℕ
    → List (Bytes × Bytes)
    → Option String
    → ProgressBar
    → Received × Bytes
unfolding receive_measurements_from reset
receive_measurements io newline description total ms end p =
    receive_measurements_from io newline 0 ms end
      (record (reset description total p) { is_download = true }) [] (zeros pcr_length)

abbrev pub Fine : ReceiveIo → Type 0
Fine io = (io.write ≡ none) × Drawable io.render io.render.width

pub store_chunk_lem :
    (io : ReceiveIo) (chunk : Bytes) (p : ProgressBar) (file : Bytes)
    (continue : ProgressBar → Bytes → Received)
    → Fine io
    → 0 < length chunk
    → p.current_uploaded_bytes + length chunk ≤ p.number_of_bytes
    → (q : ProgressBar) × (after_update io chunk file continue (update_progress (length chunk) p)
        ≡ continue q (file ++ chunk))
      × (store_chunk io chunk p file ≡ (ok q, file ++ chunk))
      × (q.number_of_bytes ≡ p.number_of_bytes)
      × (q.current_uploaded_bytes ≡ p.current_uploaded_bytes + length chunk)
store_chunk_lem io chunk p file continue (w, d) some_bytes fits =
    let (q, updated, total, count, low, exact) = update_lem (length chunk) p fits some_bytes in
    let (r, rendered, same) = render_lem io.render q d low in
    (
      r,
      rw (updated, w, rendered) refl,
      rw (updated, w, rendered) refl,
      omega (arith, total, same),
      omega (arith, count, same),
    )

receive_from_total :
    (io : ℕ → ReceiveIo) (i : ℕ) (cs : List Bytes) (p : ProgressBar) (file : Bytes)
    → ((k : ℕ) → Fine (io k))
    → All IsChunk cs
    → p.current_uploaded_bytes + length (concat cs) ≤ p.number_of_bytes
    → (q : ProgressBar) × (receive_from io none i cs none p file ≡ (ok q, file ++ concat cs))
unfolding receive_from
receive_from_total io i [] p file fine sizes fits = (p, rw (append-nil file) refl)
receive_from_total io i (c ∷ cs) p file fine sizes fits =
    let joined = length-append c (concat cs) in
    let (q, stored, once, total, count) =
      store_chunk_lem (io i) c p file (receive_from io none (suc i) cs none) (fine i) sizes.0.0
        (omega (arith, joined, fits)) in
    let (r, rest) =
      receive_from_total io (suc i) cs q (file ++ c) fine sizes.1
        (omega (arith, joined, fits, total, count)) in
    (r, stored ∙ rest ∙ ap (λ (f : Bytes). (ok r, f)) (append_assoc file c (concat cs)))

-- A download in which every send, read and write succeeds, on a terminal of no known size or wider
-- than the bar's text by more than eight columns, with fuel above the file's length: the server's
-- streamFileData ends without an error, and the client's receiveStream, told the file's size by the
-- header, writes the file as it was sent.
pub download_roundtrip :
    (fuel : ℕ) (answers : ℕ → Option String) (io : ℕ → ReceiveIo) (description : String)
    (file : Bytes) (p : ProgressBar)
    → ((k : ℕ) → answers k ≡ none)
    → ((k : ℕ) → Fine (io k))
    → length file < fuel
    → (chunks : List Bytes) × (q : ProgressBar) × (stream_file_data fuel answers 0 file
        ≡ some (ok tt, chunks))
      × (receive_stream io none description (length file) chunks none p ≡ (ok q, file))
unfolding receive_stream reset
download_roundtrip fuel answers io description file p h fine enough =
    let d = stream_file_data-Delivery fuel answers 0 file enough in
    let (done, whole) = complete d in
    let (q, got) =
      receive_from_total io 0 d.chunks
        (record (reset description (length file) p) { is_download = true }) [] fine d.sizes
        (omega (arith, ap length whole)) in
    (
      d.chunks,
      q,
      d.ends ∙ ap (λ r. some (r, d.chunks)) done,
      got ∙ ap (λ (f : Bytes). (ok q, f)) whole,
    )
  where
    complete :
        (d : Delivery answers 0 file (stream_file_data fuel answers 0 file))
        → (d.outcome ≡ ok tt) × (concat d.chunks ≡ file)
    complete d = elim d.reason [
      | inl (fine', none_left) ↦ (
        fine',
        sym (append-nil (concat d.chunks))
            ∙ ap (λ (l : Bytes). concat d.chunks ++ l) (sym none_left)
            ∙ d.prefix,
      )
      | inr (e, failed, bad) ↦ absurd (let good = h (0 + length d.chunks) in cc)
    ]
