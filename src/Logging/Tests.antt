-- ===== src/Logging/Tests.antt =====
-- A witness on a message of three bytes, which is one piece.
use cocos.Common.{ℕ, ◌≡◌, refl, ◌<◌, ◌≤◌, Option, none, String, [], ◌∷◌, All, concat, length}
use cocos.Logging.Pieces.{chunk_size, handle, handle_lem}

abbrev well : ℕ → Option String
well i = none

handle_lem_example :
    ((handle well (1 ∷ 2 ∷ 3 ∷ [])).0 ≡ none)
    × (concat (handle well (1 ∷ 2 ∷ 3 ∷ [])).1 ≡ 1 ∷ 2 ∷ 3 ∷ [])
    × All (λ c. (0 < length c) × (length c ≤ chunk_size)) (handle well (1 ∷ 2 ∷ 3 ∷ [])).1
handle_lem_example = handle_lem well (1 ∷ 2 ∷ 3 ∷ []) (λ k. refl)
