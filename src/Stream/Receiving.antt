-- ===== src/Stream/Receiving.antt =====
-- agent/api/grpc/server.go: receiveStreamingData, receiveAlgoData and validateNonce. What Recv
-- returns is the list of the chunks, and the error after them, `none` for io.EOF.
use cocos.Common.{
  ℕ, zero, suc, ◌-◌, ◌<◌, ◌≤◌, ◌≡◌, refl, ap, ◌∙◌, ◌⊎◌, inl, inr, Option, none, some, List, [], ◌∷◌,
  ◌++◌, append_assoc, append-nil, String, Bytes, concat, map, take, length, length-append, arith,
  ◌==◌, string_comparable, if◌then◌else◌, ltb, eqb, Bool-cases,
}
use cocos.Common.Exec.{Result, ok, err}
use cocos.Stream.Sending.{GrpcError, internal}

abbrev pub received : {A : Type 0} → Option String → A → Result GrpcError A
received none a = ok a
received (some e) a = err (internal e)

-- The loop of receiveStreamingData, with `data` and `filename`.
unfoldable pub receive_from :
    Bytes → String → List (Bytes × String) → Option String → Result GrpcError (Bytes × String)
receive_from data' filename [] end = received end (data', filename)
receive_from data' filename ((chunk, name) ∷ cs) end =
    receive_from (data' ++ chunk) (if name == "" then filename else name) cs end

unfoldable pub receive_streaming_data :
    List (Bytes × String) → Option String → Result GrpcError (Bytes × String)
unfolding receive_from
receive_streaming_data cs end = receive_from [] "" cs end

-- The loop of receiveAlgoData, with `algoFile` and `reqFile`.
unfoldable pub receive_algo_from :
    Bytes → Bytes → List (Bytes × Bytes) → Option String → Result GrpcError (Bytes × Bytes)
receive_algo_from algo req [] end = received end (algo, req)
receive_algo_from algo req ((a, r) ∷ cs) end = receive_algo_from (algo ++ a) (req ++ r) cs end

unfoldable pub receive_algo_data :
    List (Bytes × Bytes) → Option String → Result GrpcError (Bytes × Bytes)
unfolding receive_algo_from
receive_algo_data cs end = receive_algo_from [] [] cs end

-- The last name that is not empty, or the one given.
abbrev pub last_name : String → List String → String
last_name name [] = name
last_name name (n ∷ ns) = last_name (if n == "" then name else n) ns

abbrev pub firsts : {A B : Type 0} → List (A × B) → List A
firsts = map (λ c. c.0)

abbrev pub seconds : {A B : Type 0} → List (A × B) → List B
seconds = map (λ c. c.1)

receive_from_lem :
    (soFar : Bytes) (filename : String) (cs : List (Bytes × String)) (end : Option String)
    → receive_from soFar filename cs end
      ≡ received end (soFar ++ concat (firsts cs), last_name filename (seconds cs))
unfolding receive_from
receive_from_lem soFar filename [] end = rw (append-nil soFar) refl
receive_from_lem soFar filename ((chunk, name) ∷ cs) end =
    receive_from_lem (soFar ++ chunk) _ cs end
    ∙ ap
        (λ (l : Bytes).
          received end (l, last_name (if name == "" then filename else name) (seconds cs)))
        (append_assoc soFar chunk (concat (firsts cs)))

-- receiveStreamingData returns the chunks' bytes one after another with the last name that is not
-- empty, or the error that ended the stream.
pub receive_streaming_data_lem :
    (cs : List (Bytes × String)) (end : Option String)
    → receive_streaming_data cs end ≡ received end (concat (firsts cs), last_name "" (seconds cs))
unfolding receive_streaming_data
receive_streaming_data_lem cs end = receive_from_lem [] "" cs end

receive_algo_from_lem :
    (algo req : Bytes) (cs : List (Bytes × Bytes)) (end : Option String)
    → receive_algo_from algo req cs end
      ≡ received end (algo ++ concat (firsts cs), req ++ concat (seconds cs))
unfolding receive_algo_from
receive_algo_from_lem algo req [] end = rw (append-nil algo, append-nil req) refl
receive_algo_from_lem algo req ((a, r) ∷ cs) end =
    rw (receive_algo_from_lem (algo ++ a) (req ++ r) cs end)
      (rw (append_assoc algo a (concat (firsts cs)), append_assoc req r (concat (seconds cs))) refl)

-- receiveAlgoData keeps the algorithm's bytes and the requirements' bytes apart, each in their
-- order, however the client spreads them over its messages.
pub receive_algo_data_lem :
    (cs : List (Bytes × Bytes)) (end : Option String)
    → receive_algo_data cs end ≡ received end (concat (firsts cs), concat (seconds cs))
unfolding receive_algo_data
receive_algo_data_lem cs end = receive_algo_from_lem [] [] cs end

pub data NonceError : Type 0 where
  tee_nonce_length vtpm_nonce_length token_nonce_length : NonceError

abbrev pub tee_nonce : ℕ
tee_nonce = 64

abbrev pub vtpm_nonce : ℕ
vtpm_nonce = 32

abbrev pub zeros : ℕ → Bytes
zeros zero = []
zeros (suc n) = 0 ∷ zeros n

-- The switch on the maximal length.
unfoldable pub nonce_error : ℕ → NonceError
nonce_error max =
    if eqb max tee_nonce
    then tee_nonce_length
    else if eqb max vtpm_nonce
    then vtpm_nonce_length
    else token_nonce_length

-- validateNonce for an array of `max` bytes, which is zero before.
unfoldable pub validate_nonce : Bytes → ℕ → Result NonceError Bytes
unfolding nonce_error
validate_nonce nonce max =
    if ltb max (length nonce)
    then err (nonce_error max)
    else ok (nonce ++ zeros (max - length nonce))

length-zeros : (n : ℕ) → length (zeros n) ≡ n
length-zeros zero = refl
length-zeros (suc n) = ap suc (length-zeros n)

take_prefix : (xs ys : Bytes) → take (length xs) (xs ++ ys) ≡ xs
take_prefix [] ys = refl
take_prefix (x ∷ xs) ys = ap (◌∷◌ x) (take_prefix xs ys)

-- A nonce is refused exactly when it is longer than the array; otherwise the array has its own
-- length and begins with the nonce.
pub validate_nonce_lem :
    (nonce : Bytes) (max : ℕ)
    → ((max < length nonce) × (validate_nonce nonce max ≡ err (nonce_error max)))
      ⊎ ((length nonce ≤ max)
          × ((array : Bytes) × (validate_nonce nonce max ≡ ok array)
              × (length array ≡ max)
              × (take (length nonce) array ≡ nonce)))
unfolding validate_nonce
validate_nonce_lem nonce max = elim (Bool-cases (ltb max (length nonce))) [
  | inl long ↦ inl (ground arith, rw long refl)
  | inr fits ↦
      let pad = zeros (max - length nonce) in
      let short : length nonce ≤ max = ground arith in
      inr (
        short,
        (
          nonce ++ pad,
          rw fits refl,
          omega (arith, length-append nonce pad, length-zeros (max - length nonce), short),
          take_prefix nonce pad,
        ),
      )
]
