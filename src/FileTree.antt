-- ===== src/FileTree.antt =====
-- The part of the file system that the program walks: `std::fs::read_dir`, `is_dir`, `is_file` and
-- the content of a file. Names are UTF-8; what cannot be read carries the text of its error.
use todo_rust.Prelude.{List, [], if◌then◌else◌, ℕ, ◌++◌, ◌||◌, ◌∷◌}
use todo_rust.Text.{Text, codes, ends_with, is_empty, starts_with}

pub record FileBody : Type 0 where
  -- What each call of `read` returns, up to the first empty one.
  pub reads : List (List ℕ)

mutual
  pub data Node : Type 0 where
    regular : FileBody → Node
    unreadable : Text → Node
    dir : Entries → Node
    locked : Text → Node
    special : Node

  -- A `broken` entry is one that `read_dir` yields an error for.
  pub data Entries : Type 0 where
    end : Entries
    entry : Text → Node → Entries → Entries
    broken : Text → Entries → Entries

pub data IoError : Type 0 where
  io_error : Text → IoError

-- `base.join(rel)`
unfoldable pub path_join : Text → Text → Text
path_join base rel =
    if starts_with rel (codes "/")
    then rel
    else if ends_with base (codes "/") || is_empty base
    then base ++ rel
    else base ++ (codes "/" ++ rel)

-- The path of an entry below the root of a walk; the root itself is the empty path.
unfoldable pub rel_join : Text → Text → Text
rel_join [] name = name
rel_join (c ∷ s) name = (c ∷ s) ++ (b'/' ∷ name)
