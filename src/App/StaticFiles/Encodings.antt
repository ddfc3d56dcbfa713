-- ===== src/App/StaticFiles/Encodings.antt =====
-- Which variant of a static file is sent.
use todo_rust.Prelude.{Option, arith, none, some, true, ◌≡◌, ◌⊎◌}
use todo_rust.App.StaticFiles.{Files, accepts, pick_precompressed}
use todo_rust.Text.{Text}

module _ (fs : Files) where
  -- The variant that is sent is the plain file, or one that is there and whose encoding the client
  -- accepts.
  pub pick_precompressed_sound :
      (path : Text) (accept : Option Text)
      → (pick_precompressed fs path accept ≡ (path, none))
        ⊎ ((enc : Text) × ((pick_precompressed fs path accept).1 ≡ some enc)
            × (accepts accept enc ≡ true)
            × (fs.is_file (pick_precompressed fs path accept).0 ≡ true))
  unfolding pick_precompressed
  pick_precompressed_sound path accept = ground arith
