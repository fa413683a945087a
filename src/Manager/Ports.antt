-- ===== src/Manager/Ports.antt =====
-- manager/service.go: decodeRange, and getFreePort over a host where each port is free or not.
use cocos.Common.{
  ℕ, zero, suc, ◌+◌, ◌-◌, ◌<◌, ◌↔◌, ◌≤◌, ◌≡◌, ◌⊎◌, inl, inr, refl, sym, ap, ◌∙◌, Bool, true, false,
  ◌||◌, Option, none, some, List, [], ◌∷◌, All, leb, ltb, eqb, ◌^◌, if◌then◌else◌, arith,
  Bool-cases,
}
use cocos.Common.Exec.{Result, ok, err}
use cocos.Common.Results.{◌>>=◌, ◌>>◌, guard, or_fail, >>=-eq-ok, guard-eq-ok, ok-injective}
use cocos.Attestation.Hex.{Text, within, digits}

pub data RangeError : Type 0 where
  invalid_input_format not_a_number invalid_range : RangeError
  -- no port of the range is free
  no_free_port : ℕ → ℕ → RangeError

-- The digits that a text begins with, and the rest.
abbrev pub after_digit : ℕ → Bool → Text × Text → Text → Text × Text
after_digit c true (ds, rest) whole = (c ∷ ds, rest)
after_digit c false r whole = ([], whole)

abbrev pub span_digits : Text → Text × Text
span_digits [] = ([], [])
span_digits (c ∷ cs) = after_digit c (within 48 57 c) (span_digits cs) (c ∷ cs)

abbrev pub second_number : Text → Text × Text → Option (Text × Text)
second_number first ([], rest) = none
second_number first (d ∷ ds, rest) = some (first, d ∷ ds)

abbrev pub after_first : Text → Text → Option (Text × Text)
after_first first [] = none
after_first first (c ∷ cs) =
    let second = second_number first (span_digits cs) in if eqb c 45 then second else none

-- (\d+)-(\d+) at the beginning of a text
abbrev pub match_here : Text × Text → Option (Text × Text)
match_here ([], rest) = none
match_here (d ∷ ds, rest) = after_first (d ∷ ds) rest

abbrev pub or_later : Option (Text × Text) → Option (Text × Text) → Option (Text × Text)
or_later none later = later
or_later (some m) later = some m

-- FindStringSubmatch: the leftmost match, anywhere in the text
unfoldable pub find_submatch : Text → Option (Text × Text)
find_submatch [] = none
find_submatch (c ∷ cs) = or_later (match_here (span_digits (c ∷ cs))) (find_submatch cs)

-- strconv.Atoi of digits, into 64 bits
abbrev pub in_int : Option ℕ → Result RangeError ℕ
in_int none = err not_a_number
in_int (some n) = if ltb n (2 ^ 63) then ok n else err not_a_number

unfoldable pub decode_range : Text → Result RangeError (ℕ × ℕ)
unfolding find_submatch
decode_range input = do
  found ← or_fail invalid_input_format (find_submatch input)
  start ← in_int (digits 0 found.0)
  end ← in_int (digits 0 found.1)
  guard (leb start end) invalid_range
  ok (start, end)

-- The first port whose check succeeds, of those that are checked in this order.
abbrev pub first_free : (ℕ → Bool) → List ℕ → Option ℕ
first_free free [] = none
first_free free (p ∷ ps) = let later = first_free free ps in if free p then some p else later

-- for port := minPort; port <= maxPort; port++, where `rounds` is above the number of its rounds
abbrev pub ports_from : ℕ → ℕ → ℕ → List ℕ
ports_from zero port max_port = []
ports_from (suc rounds) port max_port =
    let later = ports_from rounds (suc port) max_port in
    if leb port max_port then port ∷ later else []

-- The loop starts a goroutine for each port; these check their ports in an order that `arrange`
-- gives, and the first free port is received.
unfoldable pub get_free_port : (ℕ → Bool) → (List ℕ → List ℕ) → ℕ → ℕ → Result RangeError ℕ
get_free_port free arrange min_port max_port =
    if free min_port
    then ok min_port
    else or_fail (no_free_port min_port max_port)
        (first_free free (arrange (ports_from (suc (max_port - min_port)) min_port max_port)))

abbrev pub has : ℕ → List ℕ → Bool
has p [] = false
has p (q ∷ qs) = eqb q p || has p qs

-- Every goroutine checks its port at some time, and no other port is checked.
abbrev pub Arranges : (List ℕ → List ℕ) → Type 0
Arranges arrange = (l : List ℕ) (p : ℕ) → has p (arrange l) ≡ has p l

first_free-lem :
    (free : ℕ → Bool) (ps : List ℕ)
    → ((p : ℕ) × (first_free free ps ≡ some p) × (free p ≡ true) × (has p ps ≡ true))
      ⊎ ((first_free free ps ≡ none) × All (λ p. free p ≡ false) ps)
first_free-lem free [] = inr (refl, tt)
first_free-lem free (p ∷ ps) = elim (Bool-cases (free p)) [
  | inl vacant ↦ inl (p, rw vacant refl, vacant, ground arith)
  | inr busy ↦ elim (first_free-lem free ps) [
    | inl (q, found, vacant, there) ↦ inl (q, rw busy found, vacant, ground (arith, there))
    | inr (missing, rest) ↦ inr (rw busy missing, (busy, rest))
  ]
]

-- The ports that the loop comes to are those between its bounds.
ports_from-has :
    (rounds port high p : ℕ)
    → high < port + rounds
    → (has p (ports_from rounds port high) ≡ true) ↔ ((port ≤ p) × (p ≤ high))
ports_from-has zero port high p h =
    (λ e. absurd (ground arith), λ (above, below). absurd (omega arith))
ports_from-has (suc rounds) port high p h =
    let (found, back) = ports_from-has rounds (suc port) high p (omega arith) in
    elim (Bool-cases (leb port high)) [
      | inr out ↦ (
        λ e. absurd (let bad : false ≡ true = rw out at e in ground arith),
        λ (above, below). absurd (ground arith),
      )
      | inl in_range ↦ elim (Bool-cases (eqb port p)) [
        | inl same ↦ (λ e. (ground arith, ground arith), λ bounds. rw (in_range, same) refl)
        | inr other ↦ (
          λ e.
              let (above, below) = found (rw (in_range, other) at e) in
              (omega (arith, above), below),
          λ (above, below). rw (in_range, other) (back (ground arith, below)),
        )
      ]
    ]

All-has :
    (free : ℕ → Bool) (p : ℕ) (ps : List ℕ)
    → All (λ q. free q ≡ false) ps
    → has p ps ≡ true
    → free p ≡ false
All-has free p [] h e = absurd (ground arith)
All-has free p (q ∷ qs) (h, hs) e = elim (Bool-cases (eqb q p)) [
  | inl same ↦ let equal : q ≡ p = ground arith in ap free (sym equal) ∙ h
  | inr differs ↦ All-has free p qs hs (rw differs at e)
]

-- What is decoded is a range, with its bounds in their order and below 2 ^ 63.
decode_range-ordered :
    (input : Text) (low high : ℕ) → decode_range input ≡ ok (low, high) → low ≤ high
unfolding decode_range
decode_range-ordered input low high h =
    let (found, matched, h1) = >>=-eq-ok (or_fail invalid_input_format (find_submatch input)) _ h in
    let (start, first, h2) = >>=-eq-ok (in_int (digits 0 found.0)) _ h1 in
    let (end, second, h3) = >>=-eq-ok (in_int (digits 0 found.1)) _ h2 in
    let (u, ordered, h4) = >>=-eq-ok (guard (leb start end) invalid_range) _ h3 in
    let fine = guard-eq-ok (leb start end) invalid_range ordered in
    let same : ◌≡◌ {A = ℕ × ℕ} (start, end) (low, high) = ok-injective _ _ h4 in
    let first_same : start ≡ low = ap (λ (r : ℕ × ℕ). r.0) same in
    let second_same : end ≡ high = ap (λ (r : ℕ × ℕ). r.1) same in
    ground (arith, fine, first_same, second_same)

-- With a range that was decoded, whose upper bound is below 2 ^ 63 - 1, after which the loop's
-- counter would wrap, and the loop's goroutines in any order: getFreePort returns a free port of
-- the range, or no port of the range is free and it returns an error.
pub get_free_port_in_range :
    (input : Text) (low high : ℕ) (free : ℕ → Bool) (arrange : List ℕ → List ℕ)
    → decode_range input ≡ ok (low, high)
    → high + 1 < 2 ^ 63
    → Arranges arrange
    → ((p : ℕ) × (get_free_port free arrange low high ≡ ok p)
        × (free p ≡ true)
        × (low ≤ p)
        × (p ≤ high))
      ⊎ ((get_free_port free arrange low high ≡ err (no_free_port low high))
          × ((p : ℕ) → low ≤ p → p ≤ high → free p ≡ false))
unfolding get_free_port
get_free_port_in_range input low high free arrange decoded fits arranges =
    let ordered = decode_range-ordered input low high decoded in
    let loop = ports_from (suc (high - low)) low high in
    let bounds = λ (p : ℕ). ports_from-has (suc (high - low)) low high p (omega arith) in
    elim (Bool-cases (free low)) [
      | inl vacant ↦ inl (low, rw vacant refl, vacant, omega arith, ordered)
      | inr busy ↦ elim (first_free-lem free (arrange loop)) [
        | inl (p, found, vacant, there) ↦
            let (above, below) = (bounds p).0 (sym (arranges loop p) ∙ there) in
            inl (p, rw (busy, found) refl, vacant, above, below)
        | inr (missing, none_free) ↦ inr (
          rw (busy, missing) refl,
          λ p above below.
              All-has free p (arrange loop) none_free
                (arranges loop p ∙ (bounds p).1 (above, below)),
        )
      ]
    ]
