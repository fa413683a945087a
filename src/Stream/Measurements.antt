-- ===== src/Stream/Measurements.antt =====
-- The IMA measurements from the agent's streamDualBuffers to the client's ReceiveIMAMeasurements.
use cocos.Common.{
  ℕ, zero, suc, ◌+◌, ◌<◌, ◌≤◌, ◌≡◌, refl, ◌⊎◌, inl, inr, true, false, Option, none, some, String,
  List, [], ◌∷◌, Bytes, take, drop, take_all, drop_all, length, length-take, length-drop, arith,
  ltb,
}
use cocos.Common.Exec.{ok, err}
use cocos.Stream.Sending.{buffer_size}
use cocos.Stream.Progress.{ProgressBar, panic, reset, update_progress}
use cocos.Stream.Download.{
  stream_dual_buffers, ReceiveIo, receive_measurements, receive_measurements_from, store_chunk_lem,
  Fine, pcr_length,
}

dual_total :
    (fuel : ℕ) (answers : ℕ → Option String) (i : ℕ) (first second : Bytes)
    → ((k : ℕ) → answers k ≡ none)
    → length first + length second < fuel
    → (pairs : List (Bytes × Bytes)) × (stream_dual_buffers fuel answers i first second
        ≡ some (ok tt, pairs))
unfolding stream_dual_buffers buffer_size
dual_total zero answers i first second h l = absurd (omega arith)
dual_total (suc fuel) answers i [] [] h l = ([], refl)
dual_total (suc fuel) answers i [] (b ∷ bs) h l =
    let (pairs, sent) =
      dual_total fuel answers (suc i) [] (drop buffer_size (b ∷ bs)) h
        (omega (arith, length-drop buffer_size (b ∷ bs), l)) in
    (([], take buffer_size (b ∷ bs)) ∷ pairs, rw (h i, sent) refl)
dual_total (suc fuel) answers i (a ∷ l') second h l =
    let (pairs, sent) =
      dual_total fuel answers (suc i) (drop buffer_size (a ∷ l')) (drop buffer_size second) h
        (omega (arith, length-drop buffer_size (a ∷ l'), length-drop buffer_size second, l)) in
    ((take buffer_size (a ∷ l'), take buffer_size second) ∷ pairs, rw (h i, sent) refl)

-- Where every send, read and write succeeds, with fuel above the lengths: a file of measurements of
-- one to bufferSize bytes arrives with its PCR of 20 bytes.
pub measurements_arrive :
    (fuel : ℕ) (answers : ℕ → Option String) (io : ℕ → ReceiveIo) (description : String)
    (file pcr : Bytes) (p : ProgressBar)
    → ((k : ℕ) → answers k ≡ none)
    → ((k : ℕ) → Fine (io k))
    → length file + length pcr < fuel
    → 0 < length file
    → length file ≤ buffer_size
    → length pcr ≡ pcr_length
    → (pairs : List (Bytes × Bytes)) × (q : ProgressBar) × (stream_dual_buffers fuel answers 0 file
          pcr
        ≡ some (ok tt, pairs))
      × (receive_measurements io none description (length file) pairs none p ≡ ((ok q, file), pcr))
unfolding stream_dual_buffers receive_measurements receive_measurements_from reset buffer_size
measurements_arrive zero answers io description file pcr p h fine enough some_bytes fits twenty =
    absurd (omega arith)
measurements_arrive (suc zero) answers io description file pcr p h fine enough some_bytes fits
      twenty =
    absurd (omega arith)
measurements_arrive (suc (suc fuel)) answers io description [] pcr p h fine enough some_bytes fits
      twenty =
    absurd (omega arith)
measurements_arrive (suc (suc fuel)) answers io description (b ∷ bs) pcr p h fine enough some_bytes
      fits twenty =
    let start = record (reset description (length (b ∷ bs)) p) { is_download = true } in
    let (q, x, stored, total, count) =
      store_chunk_lem (io 0) (b ∷ bs) start [] (λ q f. (ok q, f)) (fine 0) some_bytes
        (omega arith) in
    (
      (b ∷ bs, pcr) ∷ [],
      q,
      rw
          (
            h 0,
            take_all buffer_size (b ∷ bs) fits,
            drop_all buffer_size (b ∷ bs) fits,
            take_all buffer_size pcr (omega arith),
            drop_all buffer_size pcr (omega arith),
          )
          refl,
      let long_enough : ltb (length pcr) pcr_length ≡ false = ground arith in
          rw (long_enough, stored, take_all pcr_length pcr (omega arith)) refl,
    )

second_round :
    (fuel : ℕ) (answers : ℕ → Option String) (i : ℕ) (left : Bytes)
    → ((k : ℕ) → answers k ≡ none)
    → 0 < length left
    → length left < fuel
    → (pairs : List (Bytes × Bytes)) × (stream_dual_buffers fuel answers i left []
        ≡ some (ok tt, (take buffer_size left, []) ∷ pairs))
unfolding stream_dual_buffers buffer_size
second_round fuel answers i [] h some_bytes l = absurd (omega arith)
second_round zero answers i (a ∷ l') h some_bytes l = absurd (omega arith)
second_round (suc fuel) answers i (a ∷ l') h some_bytes l =
    let (pairs, sent) =
      dual_total fuel answers (suc i) (drop buffer_size (a ∷ l')) [] h
        (omega (arith, length-drop buffer_size (a ∷ l'), l)) in
    (pairs, rw (h i, sent) refl)

-- The client on a message with a whole PCR and then one with none.
second_pcr_panics :
    (io : ℕ → ReceiveIo) (description : String) (total : ℕ) (chunk more pcr : Bytes)
    (rest : List (Bytes × Bytes)) (p : ProgressBar)
    → Fine (io 0)
    → 0 < length chunk
    → length chunk ≤ total
    → length pcr ≡ pcr_length
    → (receive_measurements io none description total ((chunk, pcr) ∷ (more, []) ∷ rest) none p).0.0
      ≡ err panic
unfolding receive_measurements receive_measurements_from reset
second_pcr_panics io description total chunk more pcr rest p fine some_bytes fits twenty =
    let start = record (reset description total p) { is_download = true } in
    let (q, x, stored, number, count) =
      store_chunk_lem (io 0) chunk start [] (λ q f. (ok q, f)) fine some_bytes
        (omega (arith, fits)) in
    rw (twenty, stored) refl

empty_panics :
    (io : ℕ → ReceiveIo) (description : String) (pcr : Bytes) (rest : List (Bytes × Bytes))
    (p : ProgressBar)
    → length pcr ≡ pcr_length
    → (receive_measurements io none description 0 (([], pcr) ∷ rest) none p).0.0 ≡ err panic
unfolding receive_measurements receive_measurements_from reset update_progress
empty_panics io description pcr rest p twenty = rw twenty refl

-- Under the same conditions, an empty file of measurements makes the client divide by zero, and one
-- of more than bufferSize bytes makes it slice the empty PCR of the second message: it panics.
pub measurements_panic :
    (fuel : ℕ) (answers : ℕ → Option String) (io : ℕ → ReceiveIo) (description : String)
    (file pcr : Bytes) (p : ProgressBar)
    → ((k : ℕ) → answers k ≡ none)
    → ((k : ℕ) → Fine (io k))
    → length file + length pcr < fuel
    → (file ≡ []) ⊎ (buffer_size < length file)
    → length pcr ≡ pcr_length
    → (pairs : List (Bytes × Bytes)) × (stream_dual_buffers fuel answers 0 file pcr
        ≡ some (ok tt, pairs))
      × ((receive_measurements io none description (length file) pairs none p).0.0 ≡ err panic)
unfolding stream_dual_buffers buffer_size
measurements_panic zero answers io description file pcr p h fine enough bad twenty =
    absurd (omega arith)
measurements_panic (suc fuel) answers io description [] [] p h fine enough bad twenty =
    absurd (omega arith)
measurements_panic (suc fuel) answers io description [] (b ∷ bs) p h fine enough bad twenty =
    let pcr = b ∷ bs in
    let whole = take_all buffer_size pcr (omega arith) in
    let (pairs, sent) =
      dual_total fuel answers 1 [] (drop buffer_size pcr) h
        (omega (arith, length-drop buffer_size pcr)) in
    (([], pcr) ∷ pairs, rw (h 0, sent, whole) refl, empty_panics io description pcr pairs p twenty)
measurements_panic (suc fuel) answers io description (a ∷ l) pcr p h fine enough bad twenty =
    let long : buffer_size < length (a ∷ l) = elim bad [
      | inl e ↦ absurd (ground arith)
      | inr b ↦ b
    ] in
    let left = drop buffer_size (a ∷ l) in
    let whole = take_all buffer_size pcr (omega arith) in
    let no_pcr = drop_all buffer_size pcr (omega arith) in
    let taken = length-take buffer_size (a ∷ l) in
    let dropped = length-drop buffer_size (a ∷ l) in
    let (pairs, sent) =
      second_round fuel answers 1 left h (omega (arith, dropped, long))
        (omega (arith, dropped, enough)) in
    (
      (take buffer_size (a ∷ l), pcr) ∷ (take buffer_size left, []) ∷ pairs,
      rw (h 0, no_pcr, sent, whole) refl,
      second_pcr_panics io description (length (a ∷ l)) (take buffer_size (a ∷ l))
          (take buffer_size left) pcr pairs p (fine 0) (omega (arith, taken)) (omega (arith, taken))
          twenty,
    )
