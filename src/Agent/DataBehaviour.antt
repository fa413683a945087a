-- ===== src/Agent/DataBehaviour.antt =====
-- What Data does with an upload: the manifest entry that it meets, and an upload that is lost.
use cocos.Common.{
  ◌≡◌, ◌↔◌, refl, ap, ◌∙◌, ◌⊎◌, inl, inr, not, false, ◌&&◌, some, List, [], ◌∷◌, ◌++◌, String,
  Bytes, arith, Bool-cases, ◌==◌, equal_self, string_comparable, bytes_comparable, nat_comparable,
  All, if◌then◌else◌,
}
use cocos.Common.Exec.{err}
use cocos.Agent.Types.{
  receiving_data, Dataset, Context, all_manifest_items_received, wrapped, state_comparable,
  event_comparable,
}
use cocos.Agent.State.{Agent}
use cocos.Agent.Manifest.{state}
use cocos.Agent.Inputs.{
  DataIo, add_dataset, accept_dataset, store_dataset, match_dataset, keep_dataset, Match,
  undeclared, misnamed, declared, decompress_from_context,
}

keep_dataset-declared :
    (d : Dataset) (m : Match) (left : List Dataset)
    → keep_dataset d m ≡ declared left
    → (l : List Dataset) × (m ≡ declared l) × (left ≡ d ∷ l)
keep_dataset-declared d undeclared left e = absurd (ground arith)
keep_dataset-declared d misnamed left e = absurd (ground arith)
keep_dataset-declared d (declared l) left e = (l, refl, ground arith)

-- The entry with the digest has no name, or the upload's.
named :
    (d : Dataset) (name : String) (ds left : List Dataset)
    → (if not (d.filename == "") && not (d.filename == name) then misnamed else declared ds)
      ≡ declared left
    → (left ≡ ds) × ((d.filename ≡ "") ⊎ (d.filename ≡ name))
named d name ds left e =
    ground (
      arith,
      string_comparable.equal_iff d.filename "",
      string_comparable.equal_iff d.filename name,
    )

-- What an upload takes out of the manifest: the first entry with its digest, which has its name or
-- none, and nothing else.
abbrev pub Takes : Bytes → String → List Dataset → List Dataset → Type 0
Takes hash name ds left =
    (before after : List Dataset) × (d : Dataset) × (ds ≡ before ++ d ∷ after)
    × (left ≡ before ++ after)
    × All (λ b. (hash == b.hash) ≡ false) before
    × (hash ≡ d.hash)
    × ((d.filename ≡ "") ⊎ (d.filename ≡ name))

match_dataset-Takes :
    (hash : Bytes) (name : String) (ds left : List Dataset)
    → match_dataset hash name ds ≡ declared left
    → Takes hash name ds left
unfolding match_dataset
match_dataset-Takes hash name [] left e = absurd (ground arith)
match_dataset-Takes hash name (d ∷ ds) left e = elim (Bool-cases (hash == d.hash)) [
  | inl hit ↦
      let (kept, fits) = named d name ds left (rw hit at e) in
      ([], ds, d, refl, kept, tt, (bytes_comparable.equal_iff hash d.hash).0 hit, fits)
  | inr miss ↦
      let (l, found, kept) =
        keep_dataset-declared d (match_dataset hash name ds) left (rw miss at e) in
      let (before, after, x, split, rest, others, same, fits) =
        match_dataset-Takes hash name ds l found in
      (d ∷ before, after, x, ap (◌∷◌ d) split, kept ∙ ap (◌∷◌ d) rest, (miss, others), same, fits)
]

entry_declared :
    (name : String) (before after : List Dataset) (d : Dataset)
    → All (λ b. (d.hash == b.hash) ≡ false) before
    → (d.filename ≡ "") ⊎ (d.filename ≡ name)
    → match_dataset d.hash name (before ++ d ∷ after) ≡ declared (before ++ after)
unfolding match_dataset
entry_declared name [] after d others fits = rw (equal_self bytes_comparable d.hash) (
    ground (
      arith,
      string_comparable.equal_iff d.filename "",
      string_comparable.equal_iff d.filename name,
    ))
entry_declared name (b ∷ before) after d (other, others) fits =
    rw (other, entry_declared name before after d others fits) refl

-- An upload is declared, with these entries left, exactly when it meets the first manifest entry
-- with its digest, that entry has its name or none, and the entries left are the others in their
-- order.
pub match_dataset_declared :
    (hash : Bytes) (name : String) (ds left : List Dataset)
    → (match_dataset hash name ds ≡ declared left) ↔ Takes hash name ds left
match_dataset_declared hash name ds left = (
  match_dataset-Takes hash name ds left,
  λ (before, after, d, split, rest, others, same, fits).
      rw (split, rest, same) (entry_declared name before after d (rw same at others) fits),
)

module _ (sha3 : Bytes → Bytes) where
  match_only :
      {content : Bytes} (d : Dataset) (name : String)
      → (d.filename ≡ "") ⊎ (d.filename ≡ name)
      → sha3 content ≡ d.hash
      → match_dataset (sha3 content) name (d ∷ []) ≡ declared []
  unfolding match_dataset
  match_only {content} d name f h =
      rw (h, equal_self bytes_comparable d.hash)
        (ground (
          arith,
          string_comparable.equal_iff d.filename "",
          string_comparable.equal_iff d.filename name,
        ))

  -- The last declared dataset, sent uncompressed, when its file cannot be created: the upload
  -- fails, its manifest entry is gone, DataReceived is not sent, and every later upload is refused
  -- as superfluous.
  pub add_dataset_lost :
      (io later : DataIo) (ctx other : Context) (content again : Bytes)
      (name name' failure : String) (d : Dataset) (a : Agent)
      → a.sm.current_state ≡ receiving_data
      → a.computation.datasets ≡ d ∷ []
      → sha3 content ≡ d.hash
      → (d.filename ≡ "") ⊎ (d.filename ≡ name)
      → decompress_from_context ctx ≡ false
      → io.create ≡ some failure
      → let b = (add_dataset sha3 io ctx content name a).1 in
        ((add_dataset sha3 io ctx content name a).0
          ≡ err (wrapped "error creating dataset file" failure))
        × (b.sm.current_state ≡ receiving_data)
        × (b.computation.datasets ≡ [])
        × (b.loop ≡ a.loop)
        × (add_dataset sha3 later other again name' b ≡ (err all_manifest_items_received, b))
  unfolding add_dataset accept_dataset store_dataset state
  add_dataset_lost io later ctx other content again name name' failure d a s e h f z c =
      rw (s, e, match_only d name f h, z, c) (refl, refl, refl, refl, refl)
