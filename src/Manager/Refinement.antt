-- ===== src/Manager/Refinement.antt =====
-- manager/qemu/persistence.go: the directory as an implementation of a map from identifiers to
-- states.
use mathlib.Core.Option
use cocos.Common.{
  ℕ, ◌≡◌, refl, sym, ap, ◌∙◌, inl, inr, Bool, true, false, ◌&&◌, ◌||◌, Option, none, some, List, [],
  ◌∷◌, ◌++◌, Bytes, length, length-append, eqb, arith, lookup, insert, delete, ◌==◌,
  bytes_comparable, if◌then◌else◌, Bool-cases,
}
use cocos.Common.Exec.{ok}
use cocos.Manager.Persistence.{
  SavedState, StateCodec, Dir, json_ext, file_name, has_ext, SaveIo, LoadIo, save_vm, load_files,
  load_vms, delete_vm, removed,
}

-- Calls of SaveVM and DeleteVM.
pub data Call (I : Type 0) : Type 0 where
  saves : SavedState I → Call I
  removes : Bytes → Call I

-- The specification: a map from identifiers to states.
abbrev pub States : Type 0 → Type 0
States I = Bytes → Option (SavedState I)

abbrev pub apply : {I : Type 0} → Call I → States I → States I
apply (saves s) f id = if s.id == id then some s else f id
apply (removes k) f id = if k == id then none else f id

abbrev pub apply_all : {I : Type 0} → List (Call I) → States I → States I
apply_all [] f = f
apply_all (x ∷ xs) f = apply_all xs (apply x f)

-- The state with an identifier among those that were loaded.
abbrev pub find : {I : Type 0} → Bytes → List (SavedState I) → Option (SavedState I)
find id [] = none
find id (s ∷ l) = if s.id == id then some s else find id l

abbrev pub with_info : {I : Type 0} → (I → I) → SavedState I → SavedState I
with_info kept s = record s { info = kept s.info }

abbrev pub all_kept : {I : Type 0} → (I → I) → List (SavedState I) → List (SavedState I)
all_kept kept [] = []
all_kept kept (s ∷ l) = with_info kept s ∷ all_kept kept l

abbrev pub saves_well : SaveIo
saves_well = record { write = none }

abbrev pub loads_well : LoadIo
loads_well = record { read_dir = none; read_file = λ name. none }

longer_differs : (y : ℕ) (ys e : Bytes) → (e ≡ (y ∷ ys) ++ e) → ⊥
longer_differs y ys e h = absurd (omega (arith, ap length h, length-append ys e))

equal-append : (e k j : Bytes) → (k ++ e == j ++ e) ≡ (k == j)
equal-append e [] [] = (bytes_comparable.equal_iff e e).1 refl
equal-append e [] (y ∷ ys) = elim (Bool-cases (e == (y ∷ ys) ++ e)) [
  | inl same ↦
      absurd (longer_differs y ys e ((bytes_comparable.equal_iff e ((y ∷ ys) ++ e)).0 same))
  | inr other ↦ other
]
equal-append e (x ∷ xs) [] = elim (Bool-cases ((x ∷ xs) ++ e == e)) [
  | inl same ↦
      absurd (longer_differs x xs e (sym ((bytes_comparable.equal_iff ((x ∷ xs) ++ e) e).0 same)))
  | inr other ↦ other
]
equal-append e (x ∷ xs) (y ∷ ys) = ap (λ b. eqb x y && b) (equal-append e xs ys)

has_ext-file_name : (id : Bytes) → has_ext (file_name id) ≡ true
has_ext-file_name [] = refl
has_ext-file_name (x ∷ xs) = rw (has_ext-file_name xs) (or_true ((x ∷ file_name xs) == json_ext))
  where
    or_true : (b : Bool) → (b || true) ≡ true
    or_true true = refl
    or_true false = refl

module _ {I : Type 0} (c : StateCodec I) where
  -- What is encoded is decoded up to the fields that encoding/json keeps; of a configuration it
  -- ignores those of embedded structs that share a name.
  abbrev pub Decodes : (I → I) → Type 0
  Decodes kept =
      (s : SavedState I)
      → (b : Bytes) × (c.marshal s ≡ some b)
        × (c.unmarshal b ≡ some (record s { info = kept s.info }))

  abbrev pub perform : Call I → Dir → Dir
  perform (saves s) dir = (save_vm c saves_well s dir).1
  perform (removes k) dir = (delete_vm none k dir).1

  abbrev pub perform_all : List (Call I) → Dir → Dir
  perform_all [] dir = dir
  perform_all (x ∷ xs) dir = perform_all xs (perform x dir)

  module _ (kept : I → I) (decodes : Decodes kept) where
    -- The directory with one file for each state.
    files : List (SavedState I) → Dir
    files [] = []
    files (s ∷ l) = (file_name s.id, (decodes s).0) ∷ files l

    inserted :
        (s : SavedState I) (l : List (SavedState I))
        → (l' : List (SavedState I)) × (insert (file_name s.id) (decodes s).0 (files l) ≡ files l')
          × ((id : Bytes) → find id l' ≡ (if s.id == id then some s else find id l))
    unfolding insert files
    inserted s [] = (s ∷ [], refl, λ id. refl)
    inserted s (x ∷ l) =
        let (l', e, f) = inserted s l in
        elim (Bool-cases (x.id == s.id)) [
          | inl hit ↦ (
            s ∷ l,
            rw (equal-append json_ext x.id s.id, hit) refl,
            λ id. ground (
              arith,
              hit,
              bytes_comparable.equal_iff x.id s.id,
              bytes_comparable.equal_iff x.id id,
              bytes_comparable.equal_iff s.id id,
            ),
          )
          | inr miss ↦ (
            x ∷ l',
            rw (equal-append json_ext x.id s.id, miss, e) refl,
            λ id. ground (
              arith,
              miss,
              f id,
              bytes_comparable.equal_iff x.id s.id,
              bytes_comparable.equal_iff x.id id,
              bytes_comparable.equal_iff s.id id,
            ),
          )
        ]

    load_files-files :
        (l : List (SavedState I)) → load_files c loads_well (files l) ≡ ok (all_kept kept l)
    unfolding files
    load_files-files [] = refl
    load_files-files (s ∷ l) = rw (has_ext-file_name s.id, (decodes s).2, load_files-files l) refl

    find-all_kept :
        (id : Bytes) (l : List (SavedState I))
        → find id (all_kept kept l) ≡ Option.map (with_info kept) (find id l)
    find-all_kept id [] = refl
    find-all_kept id (s ∷ l) = elim (Bool-cases (s.id == id)) [
      | inl hit ↦ rw hit refl
      | inr miss ↦ rw miss (find-all_kept id l)
    ]

    deleted :
        (k : Bytes) (l : List (SavedState I))
        → (l' : List (SavedState I)) × (delete (file_name k) (files l) ≡ files l')
          × ((id : Bytes) → find id l' ≡ (if k == id then none else find id l))
    unfolding delete files
    deleted k [] = ([], refl, λ id. ground arith)
    deleted k (x ∷ l) =
        let (l', e, f) = deleted k l in
        elim (Bool-cases (x.id == k)) [
          | inl hit ↦ (
            l',
            rw (equal-append json_ext x.id k, hit, e) refl,
            λ id. ground (
              arith,
              hit,
              f id,
              bytes_comparable.equal_iff x.id k,
              bytes_comparable.equal_iff x.id id,
              bytes_comparable.equal_iff k id,
            ),
          )
          | inr miss ↦ (
            x ∷ l',
            rw (equal-append json_ext x.id k, miss, e) refl,
            λ id. ground (
              arith,
              miss,
              f id,
              bytes_comparable.equal_iff x.id k,
              bytes_comparable.equal_iff x.id id,
              bytes_comparable.equal_iff k id,
            ),
          )
        ]

    absent :
        (k : Bytes) (l : List (SavedState I))
        → lookup (file_name k) (files l) ≡ none
        → find k l ≡ none
    unfolding lookup files
    absent k [] h = refl
    absent k (x ∷ l) h = elim (Bool-cases (x.id == k)) [
      | inl hit ↦ absurd (
          let found : some (decodes x).0 ≡ none = rw (equal-append json_ext x.id k, hit) at h in
          ground arith)
      | inr miss ↦ rw miss (absent k l (rw (equal-append json_ext x.id k, miss) at h))
    ]

    performed :
        (x : Call I) (l : List (SavedState I))
        → (l' : List (SavedState I)) × (perform x (files l) ≡ files l')
          × ((id : Bytes) → find id l' ≡ apply x (λ j. find j l) id)
    unfolding save_vm delete_vm
    performed (saves s) l = let (l', e, f) = inserted s l in (l', rw (perform, (decodes s).1) e, f)
    performed (removes k) l = found (lookup (file_name k) (files l)) refl
      where
        found :
            (o : Option Bytes)
            → lookup (file_name k) (files l) ≡ o
            → (l' : List (SavedState I)) × ((removed none (file_name k) o (files l)).1 ≡ files l')
              × ((id : Bytes) → find id l' ≡ apply (removes k) (λ j. find j l) id)
        found (some content) e = deleted k l
        found none e = (
          l,
          refl,
          λ id. elim (Bool-cases (k == id)) [
            | inr other ↦ rw other refl
            | inl same ↦
                let equal = (bytes_comparable.equal_iff k id).0 same in
                rw same (ap (λ j. find j l) (sym equal) ∙ absent k l e)
          ],
        )

    performed_all :
        (xs : List (Call I)) (l : List (SavedState I)) (f : States I)
        → ((id : Bytes) → find id l ≡ f id)
        → (l' : List (SavedState I)) × (perform_all xs (files l) ≡ files l')
          × ((id : Bytes) → find id l' ≡ apply_all xs f id)
    performed_all [] l f same = (l, refl, same)
    performed_all (x ∷ xs) l f same =
        let (m, e, g) = performed x l in
        let (l', e', g') = performed_all xs m (apply x f) (λ id. g id ∙ pointwise x id) in
        (l', ap (perform_all xs) e ∙ e', g')
      where
        pointwise : (x : Call I) (id : Bytes) → apply x (λ j. find j l) id ≡ apply x f id
        pointwise (saves s) id = ap (λ o. if s.id == id then some s else o) (same id)
        pointwise (removes k) id = ap (λ o. if k == id then none else o) (same id)

  -- A sequence of SaveVM and DeleteVM in an empty directory, where what is encoded is decoded up to
  -- the information that encoding/json keeps and the file system does what it is asked: LoadVMs
  -- then succeeds, and its states are those of the map that the same calls make, each with its
  -- identifier and process and what is kept of its information.
  pub load_vms-apply_all :
      (xs : List (Call I)) (kept : I → I)
      → Decodes kept
      → (states : List (SavedState I)) × (load_vms c loads_well (perform_all xs []) ≡ ok states)
        × ((id : Bytes)
            → find id states ≡ Option.map (with_info kept) (apply_all xs (λ j. none) id))
  unfolding load_vms files
  load_vms-apply_all xs kept decodes =
      let (l, e, f) = performed_all kept decodes xs [] (λ j. none) (λ id. refl) in
      let whole : perform_all xs [] ≡ files kept decodes l = e in
      (
        all_kept kept l,
        rw whole (load_files-files kept decodes l),
        λ id. find-all_kept kept decodes id l ∙ ap (Option.map (with_info kept)) (f id),
      )
