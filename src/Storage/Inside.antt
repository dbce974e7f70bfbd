-- ===== src/Storage/Inside.antt =====
-- The paths that the local storage of infra/plugins/storage/local.py touches.
use fastapi_infra.Common.{
  string_eq, String, some, [], ◌∷◌, ◌++◌, ◌≡◌, ◌⊎◌, refl, arith, Option-cases, List-cases, inl, inr,
}
use fastapi_infra.Common.Result.{Result, ok, err, Result-cases}
use fastapi_infra.Storage.{FileSystem, FilePath, StorageError, rest_below, resolve, path_for, at}

rest_below-append :
    (root path : FilePath) {rest : FilePath}
    → rest_below root path ≡ some rest
    → path ≡ root ++ rest
unfolding rest_below
rest_below-append [] path h = ground arith
rest_below-append (a ∷ root) [] h = absurd (ground arith)
rest_below-append (a ∷ root) (b ∷ path) {rest} h = elim (string_eq.dec a b) [
  | yes same ↦
      let found : rest_below root path ≡ some rest = ground (arith, h, same) in
      let below = rest_below-append root path found in rw (same, below) refl
  | no other ↦ absurd (ground arith)
]

abbrev pub IsInside : FilePath → FilePath → Type 0
IsInside root path = (part : String) × (rest : FilePath) × (path ≡ root ++ part ∷ rest)

path_for-IsInside :
    (root : FilePath) (key : String) (path : FilePath)
    → path_for root key ≡ ok path
    → IsInside root path
unfolding path_for
path_for-IsInside root key path h = elim (Option-cases (rest_below root (resolve root key))) [
  | inl out ↦ absurd (ground (arith, out))
  | inr (rest, below) ↦ elim (List-cases rest) [
    | inl same ↦ absurd (ground (arith, below, same))
    | inr (part, more, longer) ↦
        let found : rest_below root (resolve root key) ≡ some (part ∷ more) = rw longer at below in
        let is_path : resolve root key ≡ path = ground (arith, found, h) in
        let there = rest_below-append root (resolve root key) found in
        (part, more, rw is_path at there)
  ]
]

-- Whatever the key is, a command of the storage is refused with nothing done, or it goes to a path
-- that stands below the root and is not the root itself.
pub at-IsInside :
    {W D A : Type 0} (fs : FileSystem W D) (root : FilePath) (key : String)
    (command : FilePath → W → Result StorageError A × W) (w : W)
    → ((e : StorageError) × (at fs root key command w ≡ (err e, w)))
      ⊎ ((path : FilePath) × IsInside root path × (at fs root key command w ≡ command path w))
unfolding at
at-IsInside fs root key command w = elim (Result-cases (path_for root key)) [
  | inr (e, refused) ↦ inl (e, ground (arith, refused))
  | inl (path, found) ↦ inr (path, path_for-IsInside root key path found, ground (arith, found))
]
