-- ===== src/Stream/Sending.antt =====
-- agent/api/grpc/server.go: streamFileData. `answers i` is what the stream answers to its send `i`.
-- Each round takes a byte at least, so that fuel above the file's length is enough.
use cocos.Common.{
  ℕ, zero, suc, ◌+◌, ◌<◌, ◌≤◌, ◌≡◌, refl, ap, ◌∙◌, ◌⊎◌, inl, inr, Option, none, some, List, [], ◌∷◌,
  ◌++◌, append_assoc, String, Bytes, All, concat, take, drop, length, length-take, length-drop,
  take-append-drop, arith, Option-cases,
}
use cocos.Common.Exec.{Result, ok, err}

-- status.Error(codes.Internal, text)
pub data GrpcError : Type 0 where
  internal : String → GrpcError

unfoldable pub buffer_size : ℕ
buffer_size = 1048576

-- What was sent, and how the loop ended.
abbrev pub Sent : Type 0
Sent = Result GrpcError (Unit {0}) × List Bytes

abbrev pub after_send : Option String → Bytes → Option Sent → Option Sent
after_send (some e) chunk rest = some (err (internal e), [])
after_send none chunk none = none
after_send none chunk (some (r, chunks)) = some (r, chunk ∷ chunks)

unfoldable pub stream_file_data : ℕ → (ℕ → Option String) → ℕ → Bytes → Option Sent
stream_file_data zero answers i buffer = none
stream_file_data (suc fuel) answers i [] = some (ok tt, [])
stream_file_data (suc fuel) answers i (b ∷ bs) =
    after_send (answers i) (take buffer_size (b ∷ bs))
      (stream_file_data fuel answers (suc i) (drop buffer_size (b ∷ bs)))

abbrev pub IsChunk : Bytes → Type 0
IsChunk c = (0 < length c) × (length c ≤ buffer_size)

-- How a stream may end: with the whole file sent, or at a send that is answered with an error, each
-- chunk before it having been sent without one.
pub record Delivery (answers : ℕ → Option String) (i : ℕ) (buffer : Bytes) (sent : Option Sent)
    : Type 0 where
  pub outcome : Result GrpcError (Unit {0})
  pub chunks : List Bytes
  pub rest : Bytes
  pub ends : sent ≡ some (outcome, chunks)
  pub sizes : All IsChunk chunks
  pub prefix : concat chunks ++ rest ≡ buffer
  pub answered : (k : ℕ) → k < length chunks → answers (i + k) ≡ none
  pub reason :
      ((outcome ≡ ok tt) × (rest ≡ []))
      ⊎ ((e : String) × (outcome ≡ err (internal e)) × (answers (i + length chunks) ≡ some e))

buffer_size_pos : 0 < buffer_size
unfolding buffer_size
buffer_size_pos = omega arith

take-IsChunk : (b : ℕ) (bs : Bytes) → IsChunk (take buffer_size (b ∷ bs))
take-IsChunk b bs = (
  omega (arith, length-take buffer_size (b ∷ bs), buffer_size_pos),
  omega (arith, length-take buffer_size (b ∷ bs)),
)

refused :
    (answers : ℕ → Option String) (i : ℕ) (buffer chunk : Bytes) (e : String) (later : Option Sent)
    → answers i ≡ some e
    → Delivery answers i buffer (after_send (answers i) chunk later)
refused answers i buffer chunk e later h =
    let at_once : i + 0 ≡ i = omega arith in
    record {
      outcome = err (internal e);
      chunks = [];
      rest = buffer;
      ends = rw h refl;
      sizes = tt;
      prefix = refl;
      answered = λ k below. absurd (omega arith);
      reason = inr (e, refl, rw at_once h);
    }

answered_before :
    (answers : ℕ → Option String) (i n : ℕ)
    → answers i ≡ none
    → ((k : ℕ) → k < n → answers (suc i + k) ≡ none)
    → (k : ℕ) → k < suc n
    → answers (i + k) ≡ none
answered_before answers i n h later zero below =
    let at_once : i + 0 ≡ i = omega arith in rw at_once h
answered_before answers i n h later (suc k) below =
    let one_more : i + suc k ≡ suc i + k = omega arith in rw one_more (later k (omega arith))

accepted :
    (answers : ℕ → Option String) (i : ℕ) (buffer chunk left : Bytes) (later : Option Sent)
    → answers i ≡ none
    → IsChunk chunk
    → chunk ++ left ≡ buffer
    → Delivery answers (suc i) left later
    → Delivery answers i buffer (after_send (answers i) chunk later)
accepted answers i buffer chunk left later h c p d =
    let one_more : i + suc (length d.chunks) ≡ suc i + length d.chunks = omega arith in
    record {
      outcome = d.outcome;
      chunks = chunk ∷ d.chunks;
      rest = d.rest;
      ends = rw (h, d.ends) refl;
      sizes = (c, d.sizes);
      prefix =
          append_assoc chunk (concat d.chunks) d.rest ∙ ap (λ (l : Bytes). chunk ++ l) d.prefix ∙ p;
      answered = answered_before answers i (length d.chunks) h d.answered;
      reason = rw one_more d.reason;
    }

-- With fuel above the file's length streamFileData ends: it has sent a prefix of the file in chunks
-- of one to bufferSize bytes, each answered without an error. That is the whole file where it
-- returns no error; otherwise the next send is answered with the error that it returns, and nothing
-- is sent after it.
pub stream_file_data-Delivery :
    (fuel : ℕ) (answers : ℕ → Option String) (i : ℕ) (buffer : Bytes)
    → length buffer < fuel
    → Delivery answers i buffer (stream_file_data fuel answers i buffer)
unfolding stream_file_data
stream_file_data-Delivery zero answers i buffer h = absurd (omega arith)
stream_file_data-Delivery (suc fuel) answers i [] h = record {
  outcome = ok tt;
  chunks = [];
  rest = [];
  ends = refl;
  sizes = tt;
  prefix = refl;
  answered = λ k below. absurd (omega arith);
  reason = inl (refl, refl);
}
stream_file_data-Delivery (suc fuel) answers i (b ∷ bs) h = elim (Option-cases (answers i)) [
  | inr (e, bad) ↦ refused answers i (b ∷ bs) _ e _ bad
  | inl good ↦
      accepted answers i (b ∷ bs) (take buffer_size (b ∷ bs)) (drop buffer_size (b ∷ bs)) _ good
        (take-IsChunk b bs) (take-append-drop buffer_size (b ∷ bs))
        (stream_file_data-Delivery fuel answers (suc i) (drop buffer_size (b ∷ bs))
          (omega (arith, length-drop buffer_size (b ∷ bs), buffer_size_pos)))
]
