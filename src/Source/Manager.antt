-- ===== src/Source/Manager.antt =====
-- SourceManager of src/include/source.h and src/source.c. The linked list from `first` to `last` is the
-- list `files`; the arena that holds its nodes is left to the module Arena. `none` is a failed
-- `assert`.
pub mod Identity
use coglet.Prelude.{
  ℕ, ◌+◌, ◌%◌, ◌^◌, Bytes, length, List, [], ◌∷◌, ◌++◌, Option, none, some, ◌==◌, if◌then◌else◌,
}
use coglet.Source.Span.{SourceFileId, source_file_id_invalid}

pub record SourceFile : Type 0 where
  pub id : SourceFileId
  pub filename : Bytes
  pub source : Bytes
  pub length : ℕ

pub record SourceManager : Type 0 where
  pub files : List SourceFile
  pub count : ℕ
  pub next_id : SourceFileId

unfoldable pub source_manager_init : SourceManager
source_manager_init = record { files = []; count = 0; next_id = 0 }

abbrev pub new_file : SourceManager → Bytes → Bytes → SourceFile
new_file manager filename source = record {
  id = manager.next_id;
  filename = filename;
  source = source;
  length = length source;
}

unfoldable pub source_manager_add :
    SourceManager → Bytes → Bytes → Option (SourceFileId × SourceManager)
source_manager_add manager filename source =
    if manager.next_id == source_file_id_invalid
    then none
    else some (
      manager.next_id,
      record {
        files = manager.files ++ (new_file manager filename source ∷ []);
        count = (manager.count + 1) % 2 ^ 64;
        next_id = (manager.next_id + 1) % 2 ^ 32;
      },
    )

unfoldable pub find_file : List SourceFile → SourceFileId → Option SourceFile
find_file [] id = none
find_file (file ∷ files) id = if file.id == id then some file else find_file files id

unfoldable pub source_manager_get : SourceManager → SourceFileId → Option SourceFile
source_manager_get manager id =
    if id == source_file_id_invalid then none else find_file manager.files id
