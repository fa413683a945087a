-- ===== src/Cvms/RunRequests.antt =====
-- agent/cvms/api/grpc/client.go: runRequestManager, which puts a manifest together from the chunks
-- that it arrives in. Time is an argument, in seconds; a request's timer is the time it fires at.
use cocos.Common.{
  ℕ, ◌+◌, ◌<◌, leb, subst, Bool-cases, inl, inr, ◌≡◌, refl, sym, ap, ◌∙◌, Bool, true, false, ◌&&◌,
  Option, none, some, List, [], ◌∷◌, ◌++◌, append_assoc, append-nil, String, Bytes, arith, ◌==◌,
  string_comparable, Assoc, lookup, insert, delete, lookup-insert, lookup-delete, All,
  if◌then◌else◌, equal_self,
}

pub record RunRequest : Type 0 where
  pub buffer : Bytes
  pub last_chunk : ℕ
  pub timer : ℕ

abbrev pub Requests : Type 0
Requests = Assoc String RunRequest

abbrev pub run_req_timeout : ℕ
run_req_timeout = 30

unfoldable pub new_run_request_manager : Requests
new_run_request_manager = []

-- The request, made when it is missing.
abbrev pub request_of : ℕ → Option RunRequest → RunRequest
request_of now none = record { buffer = []; last_chunk = now; timer = now + run_req_timeout }
request_of now (some r) = r

abbrev pub extended : ℕ → Bytes → RunRequest → RunRequest
extended now chunk r = record {
  buffer = r.buffer ++ chunk;
  last_chunk = now;
  timer = now + run_req_timeout;
}

unfoldable pub add_chunk : ℕ → String → Bytes → Bool → Requests → (Bytes × Bool) × Requests
add_chunk now id chunk is_last m =
    let req = extended now chunk (request_of now (lookup id m)) in
    let m' = insert id req m in
    if is_last then ((req.buffer, true), delete id m') else (([], false), m')

-- timeoutRequest, which the timer of a request calls.
unfoldable pub timeout_request : String → Requests → Requests
timeout_request id m = delete id m

-- Whether a request's timer has fired by now.
abbrev pub expired : ℕ → Option RunRequest → Bool
expired now none = false
expired now (some r) = leb r.timer now

-- The timers of these requests that have fired by now.
unfoldable pub fire_timers : ℕ → List String → Requests → Requests
fire_timers now [] m = m
fire_timers now (id ∷ ids) m =
    fire_timers now ids (if expired now (lookup id m) then timeout_request id m else m)

abbrev pub ids_of : Requests → List String
ids_of [] = []
ids_of ((id, r) ∷ m) = id ∷ ids_of m

pub record Chunk : Type 0 where
  pub time : ℕ
  pub id : String
  pub content : Bytes
  pub is_last : Bool

-- A chunk comes in: every timer that fires before it has removed its request.
unfoldable pub arrive : Chunk → Requests → (Bytes × Bool) × Requests
arrive c m = add_chunk c.time c.id c.content c.is_last (fire_timers c.time (ids_of m) m)

-- The map after a sequence of chunks.
unfoldable pub feed : List Chunk → Requests → Requests
feed [] m = m
feed (c ∷ cs) m = feed cs (arrive c m).1

-- The time that a request is removed at, unless a chunk of it comes in before.
abbrev pub due_of : Option RunRequest → Option ℕ
due_of none = none
due_of (some r) = some r.timer

abbrev pub next_due : String → Chunk → Option ℕ → Option ℕ
next_due id c due =
    if c.id == id then (if c.is_last then none else some (c.time + run_req_timeout)) else due

abbrev pub Before : ℕ → Option ℕ → Type 0
Before now none = Unit {0}
Before now (some due) = now < due

-- From the first chunk of `id` to its last no chunk comes 30 seconds or more after the one of `id`
-- before it.
abbrev pub Timely : String → Option ℕ → List Chunk → Type 0
Timely id due [] = Unit {0}
Timely id due (c ∷ cs) = Before c.time due × Timely id (next_due id c due) cs

-- What was sent under an identifier.
abbrev pub sent_as : String → List Chunk → Bytes
sent_as id [] = []
sent_as id (c ∷ cs) = (if c.id == id then c.content else []) ++ sent_as id cs

buffered : Option RunRequest → Bytes
buffered none = []
buffered (some r) = r.buffer

buffered_of : (now : ℕ) (o : Option RunRequest) → (request_of now o).buffer ≡ buffered o
unfolding buffered
buffered_of now none = refl
buffered_of now (some r) = refl

-- A chunk that is not the last of `id` adds what it sends as `id`.
add_chunk-buffered :
    (id : String) (c : Chunk) (m : Requests)
    → (c.id == id && c.is_last) ≡ false
    → buffered (lookup id (add_chunk c.time c.id c.content c.is_last m).1)
      ≡ buffered (lookup id m) ++ (if c.id == id then c.content else [])
unfolding add_chunk buffered
add_chunk-buffered id c m h = ground (
  arith,
  lookup-insert c.id id (extended c.time c.content (request_of c.time (lookup c.id m))) m,
  lookup-delete c.id id
      (insert c.id (extended c.time c.content (request_of c.time (lookup c.id m))) m),
  string_comparable.equal_iff c.id id,
  append-nil (buffered (lookup id m)),
)

Before-expired : (now : ℕ) (o : Option RunRequest) → Before now (due_of o) → expired now o ≡ false
Before-expired now none h = refl
Before-expired now (some r) h = ground arith

-- A timer that fires leaves the other requests as they were.
timeout-kept :
    (now : ℕ) (id j : String) (m : Requests)
    → expired now (lookup id m) ≡ false
    → lookup id (if expired now (lookup j m) then timeout_request j m else m) ≡ lookup id m
unfolding timeout_request
timeout-kept now id j m h = elim (Bool-cases (expired now (lookup j m))) [
  | inr alive ↦ rw alive refl
  | inl fired ↦ rw fired (lookup-delete j id m ∙ other (j == id) refl fired)
]
  where
    other :
        (b : Bool)
        → (j == id) ≡ b
        → expired now (lookup j m) ≡ true
        → (if b then none else lookup id m) ≡ lookup id m
    other false e fired = refl
    other true e fired =
        let same : j ≡ id = (string_comparable.equal_iff j id).0 e in
        absurd (let bad = ap (λ k. expired now (lookup k m)) same in ground arith)

fire_timers-kept :
    (now : ℕ) (id : String) (ids : List String) (m : Requests)
    → expired now (lookup id m) ≡ false
    → lookup id (fire_timers now ids m) ≡ lookup id m
unfolding fire_timers
fire_timers-kept now id [] m h = refl
fire_timers-kept now id (j ∷ js) m h =
    let kept = timeout-kept now id j m h in
    fire_timers-kept now id js _ (ap (expired now) kept ∙ h) ∙ kept

add_chunk-due :
    (id : String) (c : Chunk) (m : Requests)
    → due_of (lookup id (add_chunk c.time c.id c.content c.is_last m).1)
      ≡ next_due id c (due_of (lookup id m))
unfolding add_chunk
add_chunk-due id c m = ground (
  arith,
  lookup-insert c.id id (extended c.time c.content (request_of c.time (lookup c.id m))) m,
  lookup-delete c.id id
      (insert c.id (extended c.time c.content (request_of c.time (lookup c.id m))) m),
)

-- A chunk that comes in time: the timers leave the request, and this is when its own fires next.
pub arrive-Timely :
    (id : String) (c : Chunk) (m : Requests)
    → Before c.time (due_of (lookup id m))
    → (lookup id (fire_timers c.time (ids_of m) m) ≡ lookup id m)
      × (due_of (lookup id (arrive c m).1) ≡ next_due id c (due_of (lookup id m)))
unfolding arrive
arrive-Timely id c m h =
    let kept = fire_timers-kept c.time id (ids_of m) m (Before-expired c.time (lookup id m) h) in
    (kept, add_chunk-due id c _ ∙ ap (λ o. next_due id c (due_of o)) kept)

feed-buffered :
    (id : String) (cs : List Chunk) (last : Chunk) (m : Requests)
    → All (λ c. (c.id == id && c.is_last) ≡ false) cs
    → Timely id (due_of (lookup id m)) (cs ++ last ∷ [])
    → (buffered (lookup id (feed cs m)) ≡ buffered (lookup id m) ++ sent_as id cs)
      × Before last.time (due_of (lookup id (feed cs m)))
unfolding feed arrive
feed-buffered id [] last m h t = (sym (append-nil _), t.0)
feed-buffered id (c ∷ cs) last m h t =
    let (kept, due) = arrive-Timely id c m t.0 in
    let (grown, before) =
      feed-buffered id cs last (arrive c m).1 h.1
        (subst (λ d. Timely id d (cs ++ last ∷ [])) (sym due) t.1) in
    (
      grown
          ∙ ap (λ (l : Bytes). l ++ sent_as id cs)
              (add_chunk-buffered id c _ h.0
                ∙ ap (λ o. buffered o ++ (if c.id == id then c.content else [])) kept)
          ∙ append_assoc (buffered (lookup id m)) _ _,
      before,
    )

-- The last chunk of a manifest completes it, unless a timer removes the request before: whatever
-- chunks of other manifests came in between, if from its first chunk on none of those that come in
-- is 30 seconds or more after the manifest's chunk before it, the bytes handed on are those sent
-- under its identifier, in their order, and the request is forgotten.
pub last_chunk_completes :
    (id : String) (cs : List Chunk) (now : ℕ) (chunk : Bytes)
    → All (λ c. (c.id == id && c.is_last) ≡ false) cs
    → let last : Chunk = record { time = now; id = id; content = chunk; is_last = true } in
      Timely id none (cs ++ last ∷ [])
      → let r = arrive last (feed cs new_run_request_manager) in
        (r.0 ≡ (sent_as id cs ++ chunk, true)) × (lookup id r.1 ≡ none)
unfolding add_chunk arrive new_run_request_manager lookup buffered
last_chunk_completes id cs now chunk h t =
    let last : Chunk = record { time = now; id = id; content = chunk; is_last = true } in
    let (grown, before) = feed-buffered id cs last [] h t in
    let (kept, due) = arrive-Timely id last (feed cs []) before in
    (
      rw
          (
            buffered_of now (lookup id (fire_timers now (ids_of (feed cs [])) (feed cs []))),
            kept,
            grown,
          )
          refl,
      lookup-delete id id _ ∙ rw (equal_self string_comparable id),
    )
