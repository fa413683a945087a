-- ===== src/Cvms/Arrival.antt =====
-- agent/cvms/api/grpc: the chunks of a manifest come together in the client among those of others.
use cocos.Common.{
  ℕ, sym, subst, zero, suc, ◌<◌, ◌≡◌, refl, ap, ◌∙◌, Bool, true, false, Option, none, some, List,
  [], ◌∷◌, ◌++◌, append_assoc, append-nil, String, Bytes, concat, take, drop, length, length-drop,
  take-append-drop, arith, ◌==◌, string_comparable, if◌then◌else◌, Bool-cases, inl, inr, lookup,
  insert, delete, lookup-insert, lookup-delete,
}
use cocos.Cvms.RunRequests.{
  Chunk, RunRequest, Requests, add_chunk, extended, request_of, new_run_request_manager, arrive,
  arrive-Timely, fire_timers, ids_of, due_of, Before, Timely,
}
use cocos.Cvms.Manifests.{buffer_size, send_chunks, send_run_req_in_chunks}

-- The pieces of a manifest, each without the mark, and the empty one with it.
abbrev pub marked : List Bytes → List (Bytes × Bool)
marked [] = ([], true) ∷ []
marked (p ∷ ps) = (p, false) ∷ marked ps

send_chunks_all :
    (fuel : ℕ) (answers : ℕ → Option String) (i : ℕ) (buffer : Bytes)
    → ((k : ℕ) → answers k ≡ none)
    → length buffer < fuel
    → (pieces : List Bytes) × (send_chunks fuel answers i buffer ≡ some (none, marked pieces))
      × (concat pieces ≡ buffer)
unfolding send_chunks
send_chunks_all zero answers i buffer h l = absurd (omega arith)
send_chunks_all (suc fuel) answers i [] h l = ([], rw (h i) refl, refl)
send_chunks_all (suc fuel) answers i (b ∷ bs) h l =
    let (pieces, sent, whole) =
      send_chunks_all fuel answers (suc i) (drop buffer_size (b ∷ bs)) h
        (omega (arith, length-drop buffer_size (b ∷ bs))) in
    (
      take buffer_size (b ∷ bs) ∷ pieces,
      rw (h i, sent) refl,
      ap (λ (l : Bytes). take buffer_size (b ∷ bs) ++ l) whole
          ∙ take-append-drop buffer_size (b ∷ bs),
    )

-- The chunks of one manifest among those that arrive.
abbrev pub chunks_of : String → List Chunk → List (Bytes × Bool)
chunks_of id [] = []
chunks_of id (c ∷ cs) =
    let rest = chunks_of id cs in if c.id == id then (c.content, c.is_last) ∷ rest else rest

-- The manifests that addChunk completes, one after another.
unfoldable pub completed : List Chunk → Requests → List (String × Bytes)
completed [] m = []
completed (c ∷ cs) m =
    let rest = completed cs (arrive c m).1 in
    if (arrive c m).0.1 then (c.id, (arrive c m).0.0) ∷ rest else rest

abbrev pub completed_as : String → List (String × Bytes) → List Bytes
completed_as id [] = []
completed_as id ((j, b) ∷ l) = let rest = completed_as id l in if j == id then b ∷ rest else rest

abbrev pending : Option RunRequest → Bytes
pending none = []
pending (some r) = r.buffer

request_of-pending : (now : ℕ) (o : Option RunRequest) → (request_of now o).buffer ≡ pending o
request_of-pending now none = refl
request_of-pending now (some r) = refl

-- One chunk: of another manifest, one in the middle, or the last.
module _ (id : String) (c : Chunk) (cs : List Chunk) (m : Requests) where
  other_chunk :
      Before c.time (due_of (lookup id m))
      → (c.id == id) ≡ false
      → (lookup id (arrive c m).1 ≡ lookup id m)
        × (completed_as id (completed (c ∷ cs) m) ≡ completed_as id (completed cs (arrive c m).1))
  unfolding arrive add_chunk completed
  other_chunk t h =
      let kept : lookup id (fire_timers c.time (ids_of m) m) ≡ lookup id m =
        (arrive-Timely id c m t).0 in
      elim (Bool-cases c.is_last) [
        | inl last ↦ (
          rw last (lookup-delete c.id id _ ∙ rw h (lookup-insert c.id id _ _ ∙ rw h kept)),
          rw (last, h) refl,
        )
        | inr more ↦ (rw more (lookup-insert c.id id _ _ ∙ rw h kept), rw more refl)
      ]

  prior_buffer :
      Before c.time (due_of (lookup id m))
      → (c.id == id) ≡ true
      → (request_of c.time (lookup c.id (fire_timers c.time (ids_of m) m))).buffer
        ≡ pending (lookup id m)
  prior_buffer t h =
      let same : c.id ≡ id = (string_comparable.equal_iff c.id id).0 h in
      request_of-pending c.time (lookup c.id (fire_timers c.time (ids_of m) m))
      ∙ ap (λ j. pending (lookup j (fire_timers c.time (ids_of m) m))) same
      ∙ ap pending (arrive-Timely id c m t).0

  more_chunk :
      Before c.time (due_of (lookup id m))
      → (c.id == id) ≡ true
      → c.is_last ≡ false
      → (pending (lookup id (arrive c m).1) ≡ pending (lookup id m) ++ c.content)
        × (completed_as id (completed (c ∷ cs) m) ≡ completed_as id (completed cs (arrive c m).1))
  unfolding arrive add_chunk completed
  more_chunk t h more = (
    rw more (
        ap pending (lookup-insert c.id id _ _)
        ∙ rw h (ap (λ (l : Bytes). l ++ c.content) (prior_buffer t h))),
    rw more refl,
  )

  last_chunk :
      Before c.time (due_of (lookup id m))
      → (c.id == id) ≡ true
      → c.is_last ≡ true
      → completed_as id (completed (c ∷ cs) m)
        ≡ (pending (lookup id m) ++ c.content) ∷ completed_as id (completed cs (arrive c m).1)
  unfolding arrive add_chunk completed
  last_chunk t h last =
      rw (last, h)
        (ap
          (λ (l : Bytes).
            (l ++ c.content)
            ∷ completed_as id (
                completed cs (
                  delete c.id (
                    insert c.id
                      (extended c.time c.content
                        (request_of c.time (lookup c.id (fire_timers c.time (ids_of m) m))))
                      (fire_timers c.time (ids_of m) m)))))
          (prior_buffer t h))

  later :
      Timely id (due_of (lookup id m)) (c ∷ cs) → Timely id (due_of (lookup id (arrive c m).1)) cs
  later t = subst (λ d. Timely id d cs) (sym (arrive-Timely id c m t.0).1) t.1

no_chunks :
    (id : String) (cs : List Chunk) (m : Requests)
    → Timely id (due_of (lookup id m)) cs
    → chunks_of id cs ≡ []
    → completed_as id (completed cs m) ≡ []
unfolding completed
no_chunks id [] m t h = refl
no_chunks id (c ∷ cs) m t h = elim (Bool-cases (c.id == id)) [
  | inl same ↦
      absurd
        (let bad : (c.content, c.is_last) ∷ chunks_of id cs ≡ [] = rw same at h in ground arith)
  | inr other ↦
      (other_chunk id c cs m t.0 other).1 ∙ no_chunks id cs _ (later id c cs m t) (rw other at h)
]

chunks-completed :
    (id : String) (ps : List Bytes) (cs : List Chunk) (m : Requests)
    → Timely id (due_of (lookup id m)) cs
    → chunks_of id cs ≡ marked ps
    → completed_as id (completed cs m) ≡ (pending (lookup id m) ++ concat ps) ∷ []
chunks-completed id [] [] m t h = absurd (ground arith)
chunks-completed id (p ∷ ps) [] m t h = absurd (ground arith)
chunks-completed id [] (c ∷ cs) m t h = elim (Bool-cases (c.id == id)) [
  | inr other ↦
      let (kept, passed) = other_chunk id c cs m t.0 other in
      passed
      ∙ chunks-completed id [] cs _ (later id c cs m t) (rw other at h)
      ∙ ap (λ o. (pending o ++ []) ∷ []) kept
  | inl same ↦
      let here : (c.content, c.is_last) ∷ chunks_of id cs ≡ ([], true) ∷ [] = rw same at h in
      let content : c.content ≡ [] = ground arith in
      let last : c.is_last ≡ true = ground arith in
      let none_left : chunks_of id cs ≡ [] = ground arith in
      last_chunk id c cs m t.0 same last
      ∙ rw (no_chunks id cs (arrive c m).1 (later id c cs m t) none_left) (rw content refl)
]
chunks-completed id (p ∷ ps) (c ∷ cs) m t h = elim (Bool-cases (c.id == id)) [
  | inr other ↦
      let (kept, passed) = other_chunk id c cs m t.0 other in
      passed
      ∙ chunks-completed id (p ∷ ps) cs _ (later id c cs m t) (rw other at h)
      ∙ ap (λ o. (pending o ++ concat (p ∷ ps)) ∷ []) kept
  | inl same ↦
      let here : (c.content, c.is_last) ∷ chunks_of id cs ≡ (p, false) ∷ marked ps = rw same at h in
      let content : c.content ≡ p = ground arith in
      let more : c.is_last ≡ false = ground arith in
      let left : chunks_of id cs ≡ marked ps = ground arith in
      let (grown, passed) = more_chunk id c cs m t.0 same more in
      passed
      ∙ chunks-completed id ps cs _ (later id c cs m t) left
      ∙ ap (λ (l : Bytes). (l ++ concat ps) ∷ [])
          (grown ∙ ap (λ (l : Bytes). pending (lookup id m) ++ l) content)
      ∙ ap (λ (l : Bytes). l ∷ []) (append_assoc (pending (lookup id m)) p (concat ps))
]

-- What was sent, as the client gets it, the chunk `i` at time `at i`.
abbrev pub as_chunks : String → (ℕ → ℕ) → ℕ → List (Bytes × Bool) → List Chunk
as_chunks id at i [] = []
as_chunks id at i ((piece, is_last) ∷ sent) =
    record { time = at i; id = id; content = piece; is_last = is_last }
    ∷ as_chunks id at (suc i) sent

-- Two sequences in an order that takes of the first at `true` and of the second at `false`.
abbrev pub interleave : {A : Type 0} → List Bool → List A → List A → List A
interleave order [] ys = ys
interleave order (x ∷ xs) [] = x ∷ xs
interleave [] (x ∷ xs) (y ∷ ys) = (x ∷ xs) ++ y ∷ ys
interleave (true ∷ order) (x ∷ xs) (y ∷ ys) = x ∷ interleave order xs (y ∷ ys)
interleave (false ∷ order) (x ∷ xs) (y ∷ ys) = y ∷ interleave order (x ∷ xs) ys

chunks_of-as_chunks :
    (id : String) (at : ℕ → ℕ) (i : ℕ) (sent : List (Bytes × Bool))
    → chunks_of id (as_chunks id at i sent) ≡ sent
chunks_of-as_chunks id at i [] = refl
chunks_of-as_chunks id at i ((piece, is_last) ∷ sent) =
    let same : (id == id) ≡ true = (string_comparable.equal_iff id id).1 refl in
    rw (same, chunks_of-as_chunks id at (suc i) sent) refl

chunks_of-append :
    (id : String) (xs ys : List Chunk)
    → chunks_of id (xs ++ ys) ≡ chunks_of id xs ++ chunks_of id ys
chunks_of-append id [] ys = refl
chunks_of-append id (x ∷ xs) ys = elim (Bool-cases (x.id == id)) [
  | inl same ↦ rw (same, chunks_of-append id xs ys) refl
  | inr other ↦ rw (other, chunks_of-append id xs ys) refl
]

skipped :
    (id : String) (y : Chunk) (ys : List Chunk)
    → chunks_of id (y ∷ ys) ≡ []
    → ((y.id == id) ≡ false) × (chunks_of id ys ≡ [])
skipped id y ys h = elim (Bool-cases (y.id == id)) [
  | inl same ↦
      absurd
        (let bad : (y.content, y.is_last) ∷ chunks_of id ys ≡ [] = rw same at h in ground arith)
  | inr other ↦ (other, rw other at h)
]

chunks_of-interleave :
    (id : String) (order : List Bool) (xs ys : List Chunk)
    → chunks_of id ys ≡ []
    → chunks_of id (interleave order xs ys) ≡ chunks_of id xs
chunks_of-interleave id order [] ys h = h
chunks_of-interleave id order (x ∷ xs) [] h = refl
chunks_of-interleave id [] (x ∷ xs) (y ∷ ys) h =
    chunks_of-append id (x ∷ xs) (y ∷ ys)
    ∙ ap (λ (l : List (Bytes × Bool)). chunks_of id (x ∷ xs) ++ l) h
    ∙ append-nil (chunks_of id (x ∷ xs))
chunks_of-interleave id (true ∷ order) (x ∷ xs) (y ∷ ys) h =
    rw (chunks_of-interleave id order xs (y ∷ ys) h) refl
chunks_of-interleave id (false ∷ order) (x ∷ xs) (y ∷ ys) h =
    let (other, left) = skipped id y ys h in
    rw other (chunks_of-interleave id order (x ∷ xs) ys left)

-- The messages that a loop which ended has sent.
abbrev pub messages_of : {E A : Type 0} → Option (E × List A) → List A
messages_of none = []
messages_of (some (outcome, sent)) = sent

-- A manifest that sendRunReqInChunks sends on a stream which takes every message, with fuel above
-- its length: the loop ends, and in whatever order chunks of other manifests come in between, if
-- from its first chunk to its last none of those that come in is 30 seconds or more after the
-- manifest's chunk before it, the client's addChunk completes the manifest once, with the bytes
-- that were sent.
pub manifest_arrives :
    (id : String) (bytes : Bytes) (fuel : ℕ) (answers : ℕ → Option String) (at : ℕ → ℕ)
    (order : List Bool) (others : List Chunk)
    → ((k : ℕ) → answers k ≡ none)
    → length bytes < fuel
    → chunks_of id others ≡ []
    → let sent = messages_of (send_run_req_in_chunks fuel answers (some bytes)) in
      let arriving = interleave order (as_chunks id at 0 sent) others in
      Timely id none arriving
      → (send_run_req_in_chunks fuel answers (some bytes) ≡ some (none, sent))
        × (completed_as id (completed arriving new_run_request_manager) ≡ bytes ∷ [])
unfolding send_run_req_in_chunks new_run_request_manager lookup
manifest_arrives id bytes fuel answers at order others h l o t =
    let (pieces, sent, whole) = send_chunks_all fuel answers 0 bytes h l in
    let arrived = chunks_of-interleave id order (as_chunks id at 0 (marked pieces)) others o in
    let timely : Timely id none (interleave order (as_chunks id at 0 (marked pieces)) others) =
      rw sent at t in
    rw sent (
      refl,
      chunks-completed id pieces _ [] timely (arrived ∙ chunks_of-as_chunks id at 0 (marked pieces))
          ∙ ap (λ (b : Bytes). b ∷ []) whole,
    )
