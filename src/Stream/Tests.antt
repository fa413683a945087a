-- ===== src/Stream/Tests.antt =====
-- Witnesses on short files.
use cocos.Common.{
  false, true, inl, refl, ℕ, ◌≡◌, Option, none, some, List, [], ◌∷◌, String, Bytes, arith,
}
use cocos.Common.Exec.{ok, err}
use cocos.Stream.Sending.{Delivery, stream_file_data, stream_file_data-Delivery}
use cocos.Stream.Receiving.{receive_algo_data}
use cocos.Stream.Progress.{ProgressBar, panic, RenderIo, new}
use cocos.Stream.Upload.{RoundIo, CloseIo, send_algorithm}
use cocos.Stream.RoundTrip.{upload_algorithm}
use cocos.Stream.Download.{
  ReceiveIo, stream_dual_buffers, receive_stream, receive_measurements, zeros, pcr_length,
  download_roundtrip,
}
use cocos.Stream.Measurements.{measurements_panic}

-- A terminal of 80 columns.
abbrev wide : RenderIo
wide = record { width = some 80; start_length = 40; clear = none; write = none }

abbrev round_io : ℕ → RoundIo
round_io i = record { read = none; send = none; render = wide }

abbrev receive_io : ℕ → ReceiveIo
receive_io i = record { write = none; render = wide }

abbrev close_io : CloseIo
close_io = record { stat = none; newline = none; close = none }

upload_algorithm_example :
    (requests : List (Bytes × Bytes)) × (send_algorithm 4 close_io round_io round_io
        "Uploading algorithm"
        (1 ∷ 2 ∷ [])
        (some (3 ∷ []))
        (new false)
      ≡ some (ok tt, requests))
    × (receive_algo_data requests none ≡ ok (1 ∷ 2 ∷ [], 3 ∷ []))
upload_algorithm_example =
    upload_algorithm 4 close_io round_io round_io "Uploading algorithm" (1 ∷ 2 ∷ []) (some (3 ∷ []))
      (new false) (refl, refl, refl) (λ k. (refl, refl, (refl, refl, omega arith)))
      (λ k. (refl, refl, (refl, refl, omega arith))) (omega arith)

download_roundtrip_example :
    (chunks : List Bytes) × (q : ProgressBar) × (stream_file_data 3 (λ i. none) 0 (1 ∷ 2 ∷ [])
      ≡ some (ok tt, chunks))
    × (receive_stream receive_io none "Downloading result" 2 chunks none (new true)
        ≡ (ok q, 1 ∷ 2 ∷ []))
download_roundtrip_example =
    download_roundtrip 3 (λ i. none) receive_io "Downloading result" (1 ∷ 2 ∷ []) (new true)
      (λ k. refl) (λ k. (refl, (refl, refl, omega arith))) (omega arith)

measurements_panic_example :
    (pairs : List (Bytes × Bytes)) × (stream_dual_buffers 30 (λ i. none) 0 [] (zeros pcr_length)
      ≡ some (ok tt, pairs))
    × ((receive_measurements receive_io none "Downloading" 0 pairs none (new true)).0.0 ≡ err panic)
measurements_panic_example =
    measurements_panic 30 (λ i. none) receive_io "Downloading" [] (zeros pcr_length) (new true)
      (λ k. refl) (λ k. (refl, (refl, refl, omega arith))) (omega arith) (inl refl) refl

abbrev broken_pipe : ℕ → Option String
broken_pipe i = some "broken pipe"

stream_file_data-Delivery_example :
    Delivery broken_pipe 0 (1 ∷ 2 ∷ []) (stream_file_data 3 broken_pipe 0 (1 ∷ 2 ∷ []))
stream_file_data-Delivery_example =
    stream_file_data-Delivery 3 broken_pipe 0 (1 ∷ 2 ∷ []) (omega arith)
