-- ===== src/Storage.antt =====
-- `LocalStorage` of infra/plugins/storage/local.py and the registry of registry.py beside it. A path
-- is the list of its parts from the root of the file system; symbolic links are left aside. The file
-- system is an argument.
use fastapi_infra.Common.{
  string_eq, String, Bool, true, false, not, ◌||◌, Option, none, some, List, [], ◌∷◌, if◌then◌else◌,
  ◌==◌, reverse, is_some, keep_if,
}
use fastapi_infra.Common.Dict.{Dict, lookup, insert}
use fastapi_infra.Common.Result.{Result, ok, err}
use fastapi_infra.Common.Text.{is_blank, split, drop_prefix}
pub mod Inside
mod Tests

pub data StorageError : Type 0 where
  escapes_root no_file : StorageError
  unknown_provider file_error : String → StorageError

abbrev pub FilePath : Type 0
FilePath = List String

-- `D` is the type of contents.
pub record FileSystem (W D : Type 0) : Type 0 where
  -- `path.parent.mkdir(parents=True, exist_ok=True)` and `write_bytes`
  pub write : FilePath → D → W → Result StorageError (Unit {0}) × W
  pub read : FilePath → W → Result StorageError D × W
  pub exists : FilePath → W → Bool
  pub unlink : FilePath → W → Result StorageError (Unit {0}) × W
  -- `rglob` below a path, the files only, as keys
  pub files : FilePath → W → List String

abbrev pop : FilePath → FilePath
pop [] = []
pop (part ∷ above) = above

-- One part of a key, on the path so far with its last part first
abbrev pub step : String → FilePath → FilePath
step part above =
    if is_blank part || part == "."
    then above
    else (if part == ".." then pop above else part ∷ above)

unfoldable pub walk : List String → FilePath → FilePath
walk [] above = above
walk (part ∷ parts) above = walk parts (step part above)

-- `(root / key).resolve()`: an absolute key takes the place of the root.
unfoldable pub resolve : FilePath → String → FilePath
unfolding walk drop_prefix split
resolve root key =
    reverse (walk (split 47 key) (if is_some (drop_prefix "/" key) then [] else reverse root))

-- What a path has below another, if it stands there: `path == root` leaves nothing, and
-- `root in path.parents` something.
unfoldable pub rest_below : FilePath → FilePath → Option FilePath
rest_below [] path = some path
rest_below (a ∷ root) [] = none
rest_below (a ∷ root) (b ∷ path) = let rest = rest_below root path in if a == b then rest else none

unfoldable pub path_for : FilePath → String → Result StorageError FilePath
unfolding resolve rest_below
path_for root key = elim (rest_below root (resolve root key)) [
  | none ↦ err escapes_root
  | some [] ↦ err no_file
  | some (part ∷ rest) ↦ ok (resolve root key)
]

unfoldable pub prefix_path_for : FilePath → String → Result StorageError FilePath
unfolding resolve rest_below
prefix_path_for root prefix = elim (rest_below root (resolve root prefix)) [
  | none ↦ err escapes_root
  | some rest ↦ ok (resolve root prefix)
]

module _ {W D : Type 0} (fs : FileSystem W D) (root : FilePath) where
  unfoldable pub at :
      {A : Type 0}
      → String
      → (FilePath → W → Result StorageError A × W)
      → W
      → Result StorageError A × W
  unfolding path_for
  at key command w = elim (path_for root key) [ err e ↦ (err e, w) | ok path ↦ command path w ]

  unfoldable pub put_object : String → D → W → Result StorageError (Unit {0}) × W
  unfolding at
  put_object key contents = at key λ path. fs.write path contents

  unfoldable pub get_object : String → W → Result StorageError D × W
  unfolding at
  get_object key = at key fs.read

  unfoldable pub exists : String → W → Result StorageError Bool × W
  unfolding at
  exists key = at key λ path w. (ok (fs.exists path w), w)

  unfoldable pub delete_object : String → W → Result StorageError (Unit {0}) × W
  unfolding at
  delete_object key =
      at key λ path w. elim (fs.exists path w) [ false ↦ (ok tt, w) | true ↦ fs.unlink path w ]

  -- `sorted` is Python's.
  unfoldable pub list_objects :
      (List String → List String) → String → W → Result StorageError (List String)
  unfolding prefix_path_for drop_prefix
  list_objects sorted prefix w = elim (prefix_path_for root prefix) [
    | err e ↦ err e
    | ok _ ↦ ok (sorted (keep_if (λ key. is_some (drop_prefix prefix key)) (fs.files root w)))
  ]

-- `StorageProviderRegistry`
pub record Registry (P : Type 0) : Type 0 where
  pub default_provider : String
  pub providers : Dict String P

module _ {P : Type 0} where
  unfoldable pub register : String → P → Bool → Registry P → Registry P
  register name provider default r = record {
    default_provider = if default then name else r.default_provider;
    providers = insert name provider r.providers;
  }

  abbrev pub chosen : Option String → Registry P → String
  chosen none r = r.default_provider
  chosen (some name) r = if is_blank name then r.default_provider else name

  unfoldable pub get : Option String → Registry P → Result StorageError P
  get name r = elim (lookup (chosen name r) r.providers) [
    | none ↦ err (unknown_provider (chosen name r))
    | some provider ↦ ok provider
  ]
