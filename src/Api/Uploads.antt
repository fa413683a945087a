-- ===== src/Api/Uploads.antt =====
-- From a client's file to the agent's: SendData of pkg/progressbar, the method Data of the gRPC
-- server, and the agent's Data.
use cocos.Common.{
  ℕ, ◌<◌, ◌≡◌, ◌≢◌, refl, ap, ◌∙◌, false, true, none, some, List, [], ◌∷◌, String, Bytes, length,
  lookup, insert, lookup-insert, string_comparable, ◌==◌, equal_self, if◌then◌else◌, arith,
}
use cocos.Common.Exec.{ok}
use cocos.Agent.Types.{receiving_data, Dataset, Context, state_comparable}
use cocos.Agent.State.{Agent, send}
use cocos.Agent.Manifest.{state}
use cocos.Agent.Inputs.{
  DataIo, add_dataset, accept_dataset, store_dataset, match_dataset, declared,
  decompress_from_context, send_if_all, null,
}
use cocos.Stream.Progress.{ProgressBar}
use cocos.Stream.Upload.{RoundIo, CloseIo, send_data}
use cocos.Stream.RoundTrip.{Fine, ClosesWell, upload_data}
use cocos.Api.Endpoints.{validate_data, data_endpoint}
use cocos.Api.Server.{Kit, Lawful, new_server, data_upload}

-- The agent after a dataset with content was stored: it has the file, and the entries that are
-- left.
pub record Stored (a b : Agent) (name : String) (content : Bytes) (left : List Dataset)
    : Type 0 where
  pub file : lookup name b.datasets_dir ≡ some content
  pub others :
      (other : String)
      → (name == other) ≡ false
      → lookup other b.datasets_dir ≡ lookup other a.datasets_dir
  pub entries : b.computation.datasets ≡ left
  pub algorithm_kept : b.algorithm ≡ a.algorithm

abbrev pub StoresWell : DataIo → Type 0
StoresWell io = (io.create ≡ none) × (io.write ≡ none) × (io.close ≡ none)

abbrev with_file : Agent → String → Bytes → List Dataset → Agent
with_file a name content left = record a {
  computation = record (a.computation) { datasets = left };
  datasets_dir = insert name content (insert name [] a.datasets_dir);
}

with_file-Stored :
    (a : Agent) (name : String) (content : Bytes) (left : List Dataset)
    → Stored a (send_if_all left (with_file a name content left)) name content left
unfolding send
with_file-Stored a name content left = by_left left
  where
    same : (name == name) ≡ true
    same = equal_self string_comparable name

    kept : (l : List Dataset) → Stored a (with_file a name content l) name content l
    kept l = record {
      file =
          lookup-insert name name content (insert name [] a.datasets_dir)
          ∙ ap (λ b. if b then some content else lookup name (insert name [] a.datasets_dir)) same;
      others = λ other ne.
          lookup-insert name other content (insert name [] a.datasets_dir)
          ∙ ap (λ b. if b then some content else lookup other (insert name [] a.datasets_dir)) ne
          ∙ lookup-insert name other [] a.datasets_dir
          ∙ ap (λ b. if b then some [] else lookup other a.datasets_dir) ne;
      entries = refl;
      algorithm_kept = refl;
    }

    by_left :
        (l : List Dataset) → Stored a (send_if_all l (with_file a name content l)) name content l
    by_left [] =
        let k = kept [] in
        record {
          file = k.file;
          others = k.others;
          entries = k.entries;
          algorithm_kept = k.algorithm_kept;
        }
    by_left (d ∷ l) = kept (d ∷ l)

declared-nonempty :
    (hash : Bytes) (name : String) (ds left : List Dataset)
    → match_dataset hash name ds ≡ declared left
    → null ds ≡ false
unfolding match_dataset
declared-nonempty hash name [] left h = absurd (ground arith)
declared-nonempty hash name (d ∷ ds) left h = refl

add_dataset_stores :
    (sha3 : Bytes → Bytes) (io : DataIo) (ctx : Context) (content : Bytes) (name : String)
    (a : Agent) (left : List Dataset)
    → state a ≡ receiving_data
    → match_dataset (sha3 content) name a.computation.datasets ≡ declared left
    → decompress_from_context ctx ≡ false
    → StoresWell io
    → add_dataset sha3 io ctx content name a
      ≡ (ok tt, send_if_all left (with_file a name content left))
unfolding add_dataset accept_dataset store_dataset
add_dataset_stores sha3 io ctx content name a left ready found plain (c, w, l) =
    rw
      (
        ready,
        declared-nonempty (sha3 content) name a.computation.datasets left found,
        found,
        plain,
        c,
        w,
        l,
      )
      refl

pub dataset_uploaded :
    (kit : Kit) (sha3 : Bytes → Bytes) (io : DataIo) (ctx : Context) (fuel : ℕ) (end : CloseIo)
    (rounds : ℕ → RoundIo) (description filename : String) (content : Bytes) (p : ProgressBar)
    (a : Agent) (left : List Dataset)
    → Lawful kit
    → content ≢ []
    → ClosesWell end
    → ((k : ℕ) → Fine (rounds k))
    → length content < fuel
    → state a ≡ receiving_data
    → match_dataset (sha3 content) filename a.computation.datasets ≡ declared left
    → decompress_from_context ctx ≡ false
    → StoresWell io
    → (requests : List (Bytes × String)) × (b : Agent) × (send_data fuel end rounds description
          filename content p
        ≡ some (ok tt, requests))
      × (data_upload (new_server kit sha3) io ctx requests none none a ≡ (ok tt, b))
      × Stored a b filename content left
unfolding data_upload new_server data_endpoint validate_data
dataset_uploaded kit sha3 io ctx fuel end rounds description filename [] p a left lawful full closes
      fine enough ready found plain stores =
    absurd (full refl)
dataset_uploaded kit sha3 io ctx fuel end rounds description filename (c ∷ cs) p a left lawful full
      closes fine enough ready found plain stores =
    let (requests, sent, got) =
      upload_data fuel end rounds description filename (c ∷ cs) p closes fine enough in
    let stored = add_dataset_stores sha3 io ctx (c ∷ cs) filename a left ready found plain stores in
    let b = send_if_all left (with_file a filename (c ∷ cs) left) in
    (
      requests,
      b,
      sent,
      rw (got, lawful _ _ _ _ _ _ _ _ a, stored) refl,
      with_file-Stored a filename (c ∷ cs) left,
    )
