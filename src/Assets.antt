-- ===== src/Assets.antt =====
-- crates/assets/src: the manifest of content-hashed static files and the `asset()` helper. The
-- `sha2` crate is a parameter. A hash map is an association list, the latest insertion first.
pub mod RoundTrip
pub mod Names
use todo_rust.Prelude.{
  Bool, List, Option, [], if◌then◌else◌, ltb, map_option, none, some, unwrap_or, ℕ, ◌%◌, ◌++◌, ◌+◌,
  ◌-◌, ◌/◌, ◌||◌, ◌∷◌,
}
use todo_rust.FileTree.{
  Entries, IoError, Node, broken, dir, end, entry, io_error, locked, path_join, regular, rel_join,
  special, unreadable,
}
use todo_rust.Prelude.Exec.{Result, err, ok}
use todo_rust.Text.{Text, codes, ends_with, replace, rsplit_once, text_eq}

-- `Sha256::new`, `update` and `finalize`.
pub record Hasher (H : Type 0) : Type 0 where
  pub new : H
  pub update : H → List ℕ → H
  pub finalize : H → List ℕ

abbrev pub Manifest : Type 0
Manifest = List (Text × Text)

pub data Assets : Type 0 where
  hashed : Text → Manifest → Assets
  passthrough : Text → Assets

pub data AssetsError : Type 0 where
  read : IoError → AssetsError

unfoldable pub map_get : Text → Manifest → Option Text
map_get key [] = none
map_get key ((k, v) ∷ m) = let rest = map_get key m in if text_eq k key then some v else rest

unfoldable pub map_remove : Text → Manifest → Manifest
map_remove key [] = []
map_remove key ((k, v) ∷ m) =
    let rest = map_remove key m in if text_eq k key then rest else (k, v) ∷ rest

unfoldable pub map_insert : Text → Text → Manifest → Manifest
unfolding map_remove
map_insert key value m = (key, value) ∷ map_remove key m

unfoldable pub hex_digit : ℕ → ℕ
hex_digit n = if ltb n 10 then b'0' + n else b'a' + (n - 10)

-- `{b:02x}`
unfoldable pub hex_byte : ℕ → Text
unfolding hex_digit
hex_byte b = hex_digit (b / 16) ∷ hex_digit (b % 16) ∷ []

-- The hex digits of the first four bytes; slicing fewer is a panic.
unfoldable pub hex_short : List ℕ → Option Text
unfolding hex_byte
hex_short (a ∷ b ∷ c ∷ d ∷ rest) = some (hex_byte a ++ (hex_byte b ++ (hex_byte c ++ hex_byte d)))
hex_short _ = none

-- "css/app.css" with "abcd1234" is "css/app.abcd1234.css".
unfoldable pub inject_hash : Text → Text → Text
inject_hash logical hash = elim (rsplit_once logical b'.') [
  | some (stem, ext) ↦ stem ++ (b'.' ∷ hash ++ (b'.' ∷ ext))
  | none ↦ logical ++ (b'.' ∷ hash)
]

unfoldable pub is_precompressed : Text → Bool
is_precompressed name = ends_with name (codes ".gz") || ends_with name (codes ".br")

module _ {H : Type 0} (x : Hasher H) where
  -- The loop of `hash_file`: it ends at the first read that returns no byte.
  unfoldable pub hash_reads : H → List (List ℕ) → H
  hash_reads h [] = h
  hash_reads h ([] ∷ reads) = h
  hash_reads h ((b ∷ bytes) ∷ reads) = hash_reads (x.update h (b ∷ bytes)) reads

  unfoldable pub hash_file : Node → Result IoError Text
  unfolding hash_reads
  hash_file (regular body) = elim (hex_short (x.finalize (hash_reads x.new body.reads))) [
    | some hash ↦ ok hash
    | none ↦ err (io_error (codes "short digest"))
  ]
  hash_file (unreadable e) = err (io_error e)
  hash_file _ = err (io_error (codes "not a file"))

  -- The rest of the round for an entry that is not a directory.
  unfoldable pub walk_file : Text → Text → Node → Manifest → Result IoError Manifest
  walk_file rel name node manifest =
      if is_precompressed name
      then ok manifest
      else let logical = replace (rel_join rel name) 92 b'/' in
        elim (hash_file node) [
          | ok hash ↦ ok (map_insert logical (inject_hash logical hash) manifest)
          | err e ↦ err e
        ]

  abbrev then_walk :
      Result IoError Manifest → (Manifest → Result IoError Manifest) → Result IoError Manifest
  then_walk (ok m) k = k m
  then_walk (err e) k = err e

  -- `rel` is the path of the directory below the root.
  unfoldable mutual
    pub walk_node : Node → Text → Text → Manifest → Result IoError Manifest
    walk_node (dir entries) rel name manifest = walk_files entries (rel_join rel name) manifest
    walk_node (locked e) rel name manifest = err (io_error e)
    walk_node (regular body) rel name manifest = walk_file rel name (regular body) manifest
    walk_node (unreadable e) rel name manifest = walk_file rel name (unreadable e) manifest
    walk_node special rel name manifest = walk_file rel name special manifest

    pub walk_files : Entries → Text → Manifest → Result IoError Manifest
    walk_files end rel manifest = ok manifest
    walk_files (broken e entries) rel manifest = err (io_error e)
    walk_files (entry name node entries) rel manifest =
        then_walk (walk_node node rel name manifest) (walk_files entries rel)

  -- `read_dir` on the root, and the walk.
  unfoldable pub walk_root : Node → Result IoError Manifest
  walk_root (dir entries) = walk_files entries [] []
  walk_root (locked e) = err (io_error e)
  walk_root _ = err (io_error (codes "not a directory"))

  unfoldable pub production : Text → Node → Result AssetsError Assets
  unfolding walk_root
  production root node = elim (walk_root node) [
    | ok manifest ↦ ok (hashed root manifest)
    | err e ↦ err (read e)
  ]

unfoldable pub dev : Text → Assets
dev root = passthrough root

unfoldable pub root : Assets → Text
root (hashed r manifest) = r
root (passthrough r) = r

unfoldable pub resolve : Assets → Text → Text
resolve (hashed r manifest) logical = unwrap_or (map_get logical manifest) logical
resolve (passthrough r) logical = logical

unfoldable pub find_unhashed : Text → Manifest → Option Text
find_unhashed url [] = none
find_unhashed url ((k, v) ∷ m) =
    let rest = find_unhashed url m in if text_eq v url then some k else rest

unfoldable pub resolve_hashed_request : Assets → Text → Option Text
unfolding find_unhashed
resolve_hashed_request (hashed r manifest) url_path =
    map_option (λ unhashed. path_join r unhashed) (find_unhashed url_path manifest)
resolve_hashed_request (passthrough r) url_path = none

-- The global `asset` of the templates.
unfoldable pub asset_helper : Assets → Text → Text
asset_helper assets logical = codes "/static/" ++ resolve assets logical
