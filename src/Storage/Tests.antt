-- ===== src/Storage/Tests.antt =====
-- A file system of one list of files, and the theorem on paths at a run.
use fastapi_infra.Common.{string_eq, String, false, List, [], ◌∷◌, ◌≡◌, ◌⊎◌, refl}
use fastapi_infra.Common.Dict.{lookup, insert}
use fastapi_infra.Common.Result.{Result, ok, err}
use fastapi_infra.Common.Text.{split, drop_prefix}
use fastapi_infra.Storage.{
  FileSystem, FilePath, StorageError, escapes_root, no_file, file_error, walk, resolve, rest_below,
  path_for, prefix_path_for, at, put_object,
}
use fastapi_infra.Storage.Inside.{IsInside}
use fastapi_infra.Storage.Inside

-- The files that were written, the last one first
abbrev World : Type 0
World = List (FilePath × String)

abbrev fs : FileSystem World String
fs = record {
  write = λ path contents w. (ok tt, (path, contents) ∷ w);
  read = λ _ w. (err (file_error "missing"), w);
  exists = λ _ _. false;
  unlink = λ _ w. (ok tt, w);
  files = λ _ _. [];
}

program : Unit {0}
unfolding string_eq lookup insert split drop_prefix walk resolve rest_below path_for prefix_path_for
    at put_object
program = tt

abbrev root : FilePath
root = "srv" ∷ "data" ∷ []

escaping : path_for root "a/../../data2/x" ≡ err escapes_root
unfolding program
escaping = refl

absolute : path_for root "/etc/passwd" ≡ err escapes_root
unfolding program
absolute = refl

itself : path_for root "a/.." ≡ err no_file
unfolding program
itself = refl

written :
    put_object fs root "a//./b.txt" "hi" []
    ≡ (ok tt, ("srv" ∷ "data" ∷ "a" ∷ "b.txt" ∷ [], "hi") ∷ [])
unfolding program
written = refl

abbrev write : FilePath → World → Result StorageError (Unit {0}) × World
write path = fs.write path "hi"

at-IsInside_example :
    ((e : StorageError) × (at fs root "a/b.txt" write [] ≡ (err e, [])))
    ⊎ ((path : FilePath) × IsInside root path × (at fs root "a/b.txt" write [] ≡ write path []))
at-IsInside_example = Inside.at-IsInside fs root "a/b.txt" write []
