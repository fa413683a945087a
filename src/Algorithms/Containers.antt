-- ===== src/Algorithms/Containers.antt =====
-- agent/algorithm/docker/docker.go: an algorithm that is a container. What Docker has is the state:
-- its images and its containers by name; what it answers to a call otherwise is an argument. What
-- Docker makes of a file, and the order in which it lists its images, are arguments.
use cocos.Common.{
  ◌≡◌, refl, ◌∙◌, Bool, true, false, not, Option, none, some, List, [], ◌∷◌, ◌++◌, String, All,
  ◌==◌, string_comparable, if◌then◌else◌, is_some, Assoc, lookup, insert, delete, lookup-insert,
  equal_self,
}
use cocos.Common.Exec.{Exec, Result, ok, err, ◌>>=◌, ◌>>◌, pure, throw, gets, modify, check, guard}

-- image.Summary
pub record Image : Type 0 where
  pub id : String
  pub repo_tags : List String

-- A container: the image that it was made of, and whether it was started.
pub record Container : Type 0 where
  pub image : String
  pub started : Bool

pub record Docker : Type 0 where
  pub images : List Image
  pub containers : Assoc String Container

pub data DockerError : Type 0 where
  no_client no_file not_loaded not_listed not_created not_started no_stdout not_waited :
      String → DockerError
  no_image_id : DockerError
  -- a nil reader of the container's errors is closed
  panic : DockerError

pub record DockerIo : Type 0 where
  pub client : Option String
  pub open_file : Option String
  -- ImageLoad of the file: Docker's images after it
  pub load : List Image → Result String (List Image)
  -- ImageList: Docker's images in the order of the answer
  pub list : List Image → Result String (List Image)
  pub create : Option String
  pub start : Option String
  pub stdout : Option String
  pub stderr : Option String
  pub wait : Option String
  pub remove_container : Option String
  pub remove_image : Option String

abbrev pub Act : Type 0 → Type 0
Act = Exec Docker DockerError

abbrev pub container_name : String
container_name = "agent_container"

-- What one image does to the identifier and the name: its first tag, if it has one.
abbrev pub take_image : String × String → Image → List String → String × String
take_image found i [] = found
take_image found i (tag ∷ tags) = (i.id, tag)

-- The loop over the images.
unfoldable pub find_image : String × String → List Image → String × String
find_image found [] = found
find_image found (i ∷ is) = find_image (take_image found i i.repo_tags) is

abbrev pub loaded : Result String (List Image) → Act (Unit {0})
loaded (err e) = throw (not_loaded e)
loaded (ok images) = modify λ d. record d { images = images }

abbrev pub listed : Result String (List Image) → Act (List Image)
listed (err e) = throw (not_listed e)
listed (ok images) = pure images

-- ContainerCreate, which fails when the name is in use.
abbrev pub create_container : Option String → String → Act (Unit {0})
create_container answer image = do
  check answer not_created
  used ← gets λ d. is_some (lookup container_name d.containers)
  guard (not used) (not_created "Conflict. The container name is already in use")
  modify λ d. record d {
    containers = insert container_name (record { image = image; started = false }) d.containers;
  }

abbrev pub set_started : Option Container → Assoc String Container → Assoc String Container
set_started none cs = cs
set_started (some c) cs = insert container_name (record c { started = true }) cs

abbrev pub without : String → List Image → List Image
without id [] = []
without id (i ∷ is) = let rest = without id is in if i.id == id then rest else i ∷ rest

-- The deferred removals, whose errors are only logged.
abbrev pub remove_container : Option String → Docker → Docker
remove_container none d = record d { containers = delete container_name d.containers }
remove_container (some e) d = d

abbrev pub remove_image : Option String → String → Docker → Docker
remove_image none id d = record d { images = without id d.images }
remove_image (some e) id d = d

-- Run up to the start of the container.
unfoldable pub start_container : DockerIo → Act (String × String)
unfolding find_image
start_container io = do
  check io.client no_client
  check io.open_file no_file
  present ← gets λ d. d.images
  loaded (io.load present)
  now ← gets λ d. d.images
  images ← listed (io.list now)
  let found = find_image ("", "") images
  guard (not (found.0 == "")) no_image_id
  create_container io.create found.1
  check io.start not_started
  modify
      λ d. record d { containers = set_started (lookup container_name d.containers) d.containers }
  pure found

-- An error of the second ContainerLogs is logged, and the reader that it did not return is closed.
unfoldable pub run : DockerIo → Act (Unit {0})
unfolding start_container
run io = do
  found ← start_container io
  check io.stdout no_stdout
  check io.stderr (λ e. panic)
  check io.wait not_waited
  modify λ d. remove_image io.remove_image found.0 (remove_container io.remove_container d)

-- Stop
unfoldable pub stop : Docker → Option DockerError × Docker
stop d = (none, d)

find_image-append :
    (found : String × String) (is js : List Image)
    → find_image found (is ++ js) ≡ find_image (find_image found is) js
unfolding find_image
find_image-append found [] js = refl
find_image-append found (i ∷ is) js = find_image-append (take_image found i i.repo_tags) is js

find_image-untagged :
    (found : String × String) (is : List Image)
    → All (λ i. i.repo_tags ≡ []) is
    → find_image found is ≡ found
unfolding find_image
find_image-untagged found [] h = refl
find_image-untagged found (i ∷ is) (h, hs) = rw h (find_image-untagged found is hs)

lookup_inserted :
    {V : Type 0} (name : String) (v : V) (m : Assoc String V)
    → lookup name (insert name v m) ≡ some v
lookup_inserted name v m = rw (lookup-insert name name v m, equal_self string_comparable name)

-- The image that is found is the last one with a tag.
pub find_image-last :
    (found : String × String) (before after : List Image) (i : Image) (tag : String)
    (tags : List String)
    → i.repo_tags ≡ tag ∷ tags
    → All (λ i. i.repo_tags ≡ []) after
    → find_image found (before ++ i ∷ after) ≡ (i.id, tag)
unfolding find_image
find_image-last found before after i tag tags h untagged =
    find_image-append found before (i ∷ after)
    ∙ rw h (find_image-untagged (i.id, tag) after untagged)

-- Whatever image the algorithm's file holds, and whatever Docker makes of the file: the image that
-- runs is the last one with a tag in the order in which Docker then lists its images, by the first
-- of its tags, where this image has an identifier, the container's name is free and the calls
-- succeed up to the start.
pub last_tagged_image_started :
    (io : DockerIo) (images before after : List Image) (i : Image) (tag : String)
    (tags : List String) (d : Docker)
    → io.client ≡ none
    → io.open_file ≡ none
    → io.load d.images ≡ ok images
    → io.list images ≡ ok (before ++ i ∷ after)
    → io.create ≡ none
    → io.start ≡ none
    → i.repo_tags ≡ tag ∷ tags
    → (i.id == "") ≡ false
    → All (λ i. i.repo_tags ≡ []) after
    → lookup container_name d.containers ≡ none
    → let (answer, d') = start_container io d in
      (answer ≡ ok (i.id, tag))
      × (lookup container_name d'.containers ≡ some (record { image = tag; started = true }))
unfolding start_container
last_tagged_image_started io images before after i tag tags d c o l list cr st tagged named untagged
      free =
    let all = find_image-last ("", "") before after i tag tags tagged untagged in
    let new = insert container_name (record { image = tag; started = false }) d.containers in
    let made : lookup container_name new ≡ some (record { image = tag; started = false }) =
      lookup_inserted container_name _ d.containers in
    rw (c, o, l, list, cr, st, all, named, free, made) (refl, lookup_inserted container_name _ new)
