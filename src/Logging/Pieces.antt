-- ===== src/Logging/Pieces.antt =====
-- internal/logger/protohandler.go: the loop of Handle over the pieces of a message.
use cocos.Common.{
  ℕ, zero, suc, ◌+◌, ◌-◌, ◌*◌, ◌/◌, ◌<◌, ◌≤◌, ◌≡◌, refl, sym, ap, ◌∙◌, Option, none, some, String,
  List, [], ◌∷◌, ◌++◌, Bytes, arith, All, concat, take, drop, length, length-take, length-drop,
  drop_all, min,
}

abbrev pub chunk_size : ℕ
chunk_size = 500

-- (len(message) + chunkSize - 1) / chunkSize
abbrev pub num_chunks : Bytes → ℕ
num_chunks message = (length message + chunk_size - 1) / chunk_size

-- message[start:end]
abbrev pub slice : ℕ → ℕ → Bytes → Bytes
slice start end message = take (end - start) (drop start message)

abbrev pub chunk_at : ℕ → Bytes → Bytes
chunk_at i message =
    slice (i * chunk_size) (min (i * chunk_size + chunk_size) (length message)) message

-- The rounds from `i` on, of which there are `count`.
unfoldable pub chunks_from : ℕ → ℕ → Bytes → List Bytes
chunks_from zero i message = []
chunks_from (suc count) i message = chunk_at i message ∷ chunks_from count (suc i) message

unfoldable pub chunks : Bytes → List Bytes
unfolding chunks_from
chunks message = chunks_from (num_chunks message) 0 message

-- The loop: a piece is put on the queue and then written; the error of round `i`, of its
-- marshalling or of its writes, is `answers i` and ends the loop. The error is returned, beside
-- what was queued.
unfoldable pub send_pieces : (ℕ → Option String) → ℕ → List Bytes → Option String × List Bytes
send_pieces answers i [] = (none, [])
send_pieces answers i (c ∷ cs) =
    let later = send_pieces answers (suc i) cs in
    elim (answers i) [ none ↦ (later.0, c ∷ later.1) | some e ↦ (some e, c ∷ []) ]

unfoldable pub handle : (ℕ → Option String) → Bytes → Option String × List Bytes
unfolding send_pieces chunks
handle answers message = send_pieces answers 0 (chunks message)

drop-drop : (a b : ℕ) (xs : Bytes) → drop b (drop a xs) ≡ drop (a + b) xs
drop-drop zero b xs = ap (λ n. drop n xs) (let p : b ≡ 0 + b = omega arith in p)
drop-drop (suc a) zero [] = ap (λ n. drop n []) (let p : suc a ≡ suc a + 0 = omega arith in p)
drop-drop (suc a) (suc b) [] = let p : suc a + suc b ≡ suc (a + suc b) = omega arith in rw p refl
drop-drop (suc a) b (x ∷ xs) =
    let p : suc a + b ≡ suc (a + b) = omega arith in rw p (drop-drop a b xs)

take-drop-min : (n : ℕ) (xs : Bytes) → take (min n (length xs)) xs ++ drop n xs ≡ xs
take-drop-min zero xs = let p : min 0 (length xs) ≡ 0 = omega arith in rw p refl
take-drop-min (suc n) [] = let p : min (suc n) 0 ≡ 0 = omega arith in rw p refl
take-drop-min (suc n) (x ∷ xs) =
    let p : min (suc n) (suc (length xs)) ≡ suc (min n (length xs)) = omega arith in
    rw p (ap (◌∷◌ x) (take-drop-min n xs))

chunk_at-append :
    (i : ℕ) (message : Bytes)
    → i * chunk_size ≤ length message
    → chunk_at i message ++ drop (suc i * chunk_size) message ≡ drop (i * chunk_size) message
chunk_at-append i message h =
    let p : min (i * 500 + 500) (length message) - i * 500
        ≡ min 500 (length (drop (i * 500) message)) =
      omega (arith, length-drop (i * 500) message) in
    let q : suc i * 500 ≡ i * 500 + 500 = omega arith in
    rw (p, q, ← drop-drop (i * 500) 500 message) (take-drop-min 500 (drop (i * 500) message))

chunks_from-concat :
    (count i : ℕ) (message : Bytes)
    → i + count ≡ num_chunks message
    → concat (chunks_from count i message) ≡ drop (i * chunk_size) message
unfolding chunks_from
chunks_from-concat zero i message h = sym (drop_all (i * 500) message (omega arith))
chunks_from-concat (suc count) i message h =
    ap (λ (l : Bytes). chunk_at i message ++ l)
      (chunks_from-concat count (suc i) message (omega arith))
    ∙ chunk_at-append i message (omega arith)

chunks_from-All :
    (count i : ℕ) (message : Bytes)
    → i + count ≡ num_chunks message
    → All (λ c. (0 < length c) × (length c ≤ chunk_size)) (chunks_from count i message)
unfolding chunks_from
chunks_from-All zero i message h = tt
chunks_from-All (suc count) i message h = (
  (
    omega (
      arith,
      length-take (min (i * 500 + 500) (length message) - i * 500) (drop (i * 500) message),
      length-drop (i * 500) message,
    ),
    omega (
      arith,
      length-take (min (i * 500 + 500) (length message) - i * 500) (drop (i * 500) message),
    ),
  ),
  chunks_from-All count (suc i) message (omega arith),
)

chunks-concat :
    (message : Bytes)
    → (concat (chunks message) ≡ message)
      × All (λ c. (0 < length c) × (length c ≤ chunk_size)) (chunks message)
unfolding chunks
chunks-concat message = (
  chunks_from-concat (num_chunks message) 0 message (omega arith),
  chunks_from-All (num_chunks message) 0 message (omega arith),
)

send_pieces_lem :
    (answers : ℕ → Option String) (i : ℕ) (cs : List Bytes)
    → ((k : ℕ) → answers k ≡ none)
    → send_pieces answers i cs ≡ (none, cs)
unfolding send_pieces
send_pieces_lem answers i [] h = refl
send_pieces_lem answers i (c ∷ cs) h = ground (arith, h i, send_pieces_lem answers (suc i) cs h)

-- Where every piece can be marshalled, which one that is cut inside a character of several bytes
-- cannot, and every write succeeds, Handle returns no error and has queued pieces of one to 500
-- bytes that make up the message, in its order.
pub handle_lem :
    (answers : ℕ → Option String) (message : Bytes)
    → ((k : ℕ) → answers k ≡ none)
    → ((handle answers message).0 ≡ none)
      × (concat (handle answers message).1 ≡ message)
      × All (λ c. (0 < length c) × (length c ≤ chunk_size)) (handle answers message).1
unfolding handle
handle_lem answers message h =
    rw (send_pieces_lem answers 0 (chunks message) h)
      (refl, (chunks-concat message).0, (chunks-concat message).1)
