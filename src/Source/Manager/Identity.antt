-- ===== src/Source/Manager/Identity.antt =====
-- File ids are stable: each names one file, from its registration on.
use coglet.Prelude.{
  ℕ, suc, ◌+◌, ◌%◌, ◌^◌, ◌≤◌, ◌<◌, ◌≢◌, Bytes, length, length-append, List, [], ◌∷◌, ◌++◌, none,
  some, ◌≡◌, ◌⊎◌, inl, inr, refl, ◌==◌, if◌then◌else◌, Bool-cases, arith,
}
use coglet.Source.Span.{SourceFileId, source_file_id_invalid}
use coglet.Source.Manager.{
  SourceFile, SourceManager, new_file, source_manager_init, source_manager_add, find_file,
  source_manager_get,
}

-- The files from id `n` on have ids that count up.
abbrev pub Numbered : ℕ → List SourceFile → Type 0
Numbered n [] = Unit
Numbered n (file ∷ files) =
    (file.id ≡ n) × (file.length ≡ length file.source) × Numbered (suc n) files

pub record IsManager (m : SourceManager) : Type 0 where
  pub numbered : Numbered 0 m.files
  pub count_is : m.count ≡ length m.files
  pub next_is : m.next_id ≡ length m.files
  pub small : m.next_id ≤ source_file_id_invalid

pub source_manager_init-IsManager : IsManager source_manager_init
unfolding source_manager_init
source_manager_init-IsManager = omega arith

Numbered-append :
    (n : ℕ) (files : List SourceFile) (file : SourceFile)
    → Numbered n files
    → file.id ≡ n + length files
    → file.length ≡ length file.source
    → Numbered n (files ++ (file ∷ []))
Numbered-append n [] file h e l = (omega arith, l, tt)
Numbered-append n (f ∷ files) file h e l =
    (h.0, h.1, Numbered-append (suc n) files file h.2 (omega arith) l)

find_file-below :
    (n id : ℕ) (files : List SourceFile) → Numbered n files → id < n → find_file files id ≡ none
unfolding find_file
find_file-below n id [] h lt = refl
find_file-below n id (f ∷ files) h lt = ground (arith, find_file-below (suc n) id files)

find_file-above :
    (n id : ℕ) (files : List SourceFile)
    → Numbered n files
    → n + length files ≤ id
    → find_file files id ≡ none
unfolding find_file
find_file-above n id [] h le = refl
find_file-above n id (f ∷ files) h le = ground (arith, find_file-above (suc n) id files h.2)

find_file-append :
    (files : List SourceFile) (file : SourceFile) (id : ℕ)
    → find_file (files ++ (file ∷ [])) id ≡ elim (find_file files id) [
      | some f ↦ some f
      | none ↦ if file.id == id then some file else none
    ]
unfolding find_file
find_file-append [] file id = refl
find_file-append (f ∷ files) file id = ground (arith, find_file-append files file id)

-- What registering a file as `id` makes of the manager.
pub record Registers (m : SourceManager) (filename source : Bytes) (m' : SourceManager)
    : Type 0 where
  pub manager : IsManager m'
  pub fresh : source_manager_get m m.next_id ≡ none
  pub found :
      (id : SourceFileId)
      → source_manager_get m' id
        ≡ (if id == m.next_id then some (new_file m filename source) else source_manager_get m id)

abbrev added : SourceManager → Bytes → Bytes → SourceManager
added m filename source = record {
  files = m.files ++ (new_file m filename source ∷ []);
  count = (m.count + 1) % 2 ^ 64;
  next_id = (m.next_id + 1) % 2 ^ 32;
}

module _ (m : SourceManager) (filename source : Bytes) (v : IsManager m)
    (room : m.next_id ≢ source_file_id_invalid) where
  added-IsManager : IsManager (added m filename source)
  added-IsManager =
      let n = length-append m.files (new_file m filename source ∷ []) in
      record {
        numbered =
            Numbered-append 0 m.files (new_file m filename source) v.numbered
              (omega (arith, v.next_is)) refl;
        count_is = omega (arith, n, v.next_is, v.count_is, v.small);
        next_is = omega (arith, n, v.next_is, v.small);
        small = omega (arith, v.small);
      }

  get-fresh : source_manager_get m m.next_id ≡ none
  unfolding source_manager_get
  get-fresh =
      ground (arith, find_file-above 0 m.next_id m.files v.numbered (omega (arith, v.next_is)))

  get-found :
      (id : SourceFileId)
      → source_manager_get (added m filename source) id
        ≡ (if id == m.next_id then some (new_file m filename source) else source_manager_get m id)
  unfolding source_manager_get
  get-found id = ground (
    arith,
    find_file-above 0 m.next_id m.files v.numbered (omega (arith, v.next_is)),
    find_file-append m.files (new_file m filename source) id,
  )

-- Registering a file fails only when all the ids are used up. Otherwise it returns the next id, which
-- named no file before and names the new one from now on, keeps the manager well formed, and leaves
-- every other look-up as it was.
pub source_manager_add-Registers :
    (m : SourceManager) (filename source : Bytes)
    → IsManager m
    → (m.next_id ≡ source_file_id_invalid) × (source_manager_add m filename source ≡ none)
      ⊎ ((m' : SourceManager) × (source_manager_add m filename source ≡ some (m.next_id, m'))
          × Registers m filename source m')
unfolding source_manager_add
source_manager_add-Registers m filename source v =
    elim (Bool-cases (m.next_id == source_file_id_invalid)) [
      | inl full ↦ inl (ground arith, rw full)
      | inr room ↦
          let ne : m.next_id ≢ source_file_id_invalid = ground arith in
          inr (
            added m filename source,
            rw room,
            record {
              manager = added-IsManager m filename source v ne;
              fresh = get-fresh m filename source v ne;
              found = get-found m filename source v ne;
            },
          )
    ]
