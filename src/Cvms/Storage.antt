-- ===== src/Cvms/Storage.antt =====
-- agent/cvms/api/grpc/storage/storage.go: messages kept in memory and in a file. `Codec` is
-- encoding/json, of which nothing is assumed; the file system's answers are arguments.
use cocos.Common.{ℕ, Option, none, some, List, [], ◌∷◌, ◌++◌, Bytes}
use cocos.Common.Exec.{Result, ok, err}

pub record Codec (M : Type 0) : Type 0 where
  pub marshal : List M → Option Bytes
  pub unmarshal : Bytes → Option (List M)

pub record Message (A : Type 0) : Type 0 where
  pub message : A
  pub time : ℕ

pub data StorageError : Type 0 where
  marshal_failed unmarshal_failed : StorageError
  read_failed write_failed : StorageError

-- `file` is the content of the file, where it exists.
pub record FileStorage (A : Type 0) : Type 0 where
  pub msgs : List (Message A)
  pub file : Option Bytes

-- What a read finds: no such file, an error, or bytes.
pub data ReadFile : Type 0 where
  missing unreadable : ReadFile
  bytes : Bytes → ReadFile

-- The answer of os.WriteFile: `none` when the content was written.
abbrev pub write_file :
    {A : Type 0} → Option StorageError → Bytes → FileStorage A → Option StorageError × FileStorage A
write_file none content s = (none, record s { file = some content })
write_file (some e) content s = (some e, s)

-- `[]`
abbrev pub empty_array : Bytes
empty_array = 91 ∷ 93 ∷ []

module _ {A : Type 0} (json : Codec (Message A)) where
  open json use {marshal, unmarshal}

  abbrev pub write_marshalled :
      Option StorageError → Option Bytes → FileStorage A → Option StorageError × FileStorage A
  write_marshalled w none s = (some marshal_failed, s)
  write_marshalled w (some b) s = write_file w b s

  abbrev pub load_bytes :
      Option (List (Message A))
      → FileStorage A
      → Result StorageError (List (Message A)) × FileStorage A
  load_bytes none s = (err unmarshal_failed, s)
  load_bytes (some ms) s = (ok ms, record s { msgs = ms })

  unfoldable pub load :
      ReadFile → FileStorage A → Result StorageError (List (Message A)) × FileStorage A
  load missing s = (ok [], s)
  load unreadable s = (err read_failed, s)
  load (bytes b) s = load_bytes (unmarshal b) s

  unfoldable pub save :
      Option StorageError → List (Message A) → FileStorage A → Option StorageError × FileStorage A
  save w ms s = write_marshalled w (marshal ms) (record s { msgs = ms })

  unfoldable pub add :
      Option StorageError → A → ℕ → FileStorage A → Option StorageError × FileStorage A
  add w msg now s =
      let ms = s.msgs ++ record { message = msg; time = now } ∷ [] in
      write_marshalled w (marshal ms) (record s { msgs = ms })

unfoldable pub new_file_storage : {A : Type 0} → Option Bytes → FileStorage A
new_file_storage file = record { msgs = []; file = file }

unfoldable pub clear :
    {A : Type 0} → Option StorageError → FileStorage A → Option StorageError × FileStorage A
clear w s = write_file w empty_array (record s { msgs = [] })
