-- ===== src/Manager/Persistence.antt =====
-- manager/qemu/persistence.go: the states of the machines, a file of JSON for each. A file's name
-- is its bytes, and an identifier has no separators of paths. A directory is the list of its files;
-- the order in which it is read is left out. `I` is what a state holds of the machine's
-- configuration.
use cocos.Common.{
  ℕ, Bool, false, ◌||◌, Option, none, some, String, List, [], ◌∷◌, ◌++◌, Bytes, Assoc, lookup,
  insert, delete, ◌==◌, bytes_comparable, if◌then◌else◌,
}
use cocos.Common.Exec.{Result, ok, err}

pub record SavedState (I : Type 0) : Type 0 where
  pub id : Bytes
  pub info : I
  pub pid : ℕ

-- encoding/json on a state
pub record StateCodec (I : Type 0) : Type 0 where
  pub marshal : SavedState I → Option Bytes
  pub unmarshal : Bytes → Option (SavedState I)

pub data PersistenceError : Type 0 where
  marshal_failed unmarshal_failed no_such_file : PersistenceError
  failed : String → PersistenceError

abbrev pub Dir : Type 0
Dir = Assoc Bytes Bytes

-- ".json"
abbrev pub json_ext : Bytes
json_ext = 46 ∷ 106 ∷ 115 ∷ 111 ∷ 110 ∷ []

abbrev pub file_name : Bytes → Bytes
file_name id = id ++ json_ext

-- filepath.Ext(name) == jsonExt: the name ends so.
abbrev pub has_ext : Bytes → Bool
has_ext [] = false
has_ext (c ∷ cs) = (c ∷ cs == json_ext) || has_ext cs

-- What a directory and its files answer; a write that fails leaves some content.
pub record SaveIo : Type 0 where
  pub write : Option (String × Bytes)

pub record LoadIo : Type 0 where
  pub read_dir : Option String
  pub read_file : Bytes → Option String

module _ {I : Type 0} (c : StateCodec I) where
  abbrev pub write_state : SaveIo → Bytes → Option Bytes → Dir → Option PersistenceError × Dir
  write_state io name none dir = (some marshal_failed, dir)
  write_state io name (some b) dir = elim io.write [
    | none ↦ (none, insert name b dir)
    | some (e, left) ↦ (some (failed e), insert name left dir)
  ]

  unfoldable pub save_vm : SaveIo → SavedState I → Dir → Option PersistenceError × Dir
  save_vm io s dir = write_state io (file_name s.id) (c.marshal s) dir

  abbrev pub add_state :
      Option (SavedState I)
      → Result PersistenceError (List (SavedState I))
      → Result PersistenceError (List (SavedState I))
  add_state none later = err unmarshal_failed
  add_state (some s) (err e) = err e
  add_state (some s) (ok l) = ok (s ∷ l)

  abbrev pub load_file :
      Option String
      → Bytes
      → Result PersistenceError (List (SavedState I))
      → Result PersistenceError (List (SavedState I))
  load_file (some e) content later = err (failed e)
  load_file none content later = add_state (c.unmarshal content) later

  abbrev pub load_files : LoadIo → Dir → Result PersistenceError (List (SavedState I))
  load_files io [] = ok []
  load_files io ((name, content) ∷ files) =
      let later = load_files io files in
      if has_ext name then load_file (io.read_file name) content later else later

  unfoldable pub load_vms : LoadIo → Dir → Result PersistenceError (List (SavedState I))
  load_vms io dir = elim io.read_dir [ some e ↦ err (failed e) | none ↦ load_files io dir ]

abbrev pub removed : Option String → Bytes → Option Bytes → Dir → Option PersistenceError × Dir
removed (some e) name found dir = (some (failed e), dir)
removed none name none dir = (some no_such_file, dir)
removed none name (some content) dir = (none, delete name dir)

unfoldable pub delete_vm : Option String → Bytes → Dir → Option PersistenceError × Dir
delete_vm io id dir = removed io (file_name id) (lookup (file_name id) dir) dir
