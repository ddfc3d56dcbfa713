-- ===== src/App/StaticFiles.antt =====
-- crates/app/src/routes/assets.rs and the static service of router.rs. What is a file and what can
-- be opened is a parameter, and so are the guess of a type and `ServeDir`.
pub mod Encodings
use todo_rust.Prelude.{
  Bool, List, Option, [], and_then, any, false, if◌then◌else◌, map_option, none, some, unwrap_or,
  ◌&&◌, ◌++◌, ◌∷◌,
}
use todo_rust.App.Http.{Headers, Response, empty_response, get_header, insert_header}
use todo_rust.Assets.{Assets, resolve_hashed_request}
use todo_rust.Text.{Text, codes, split, text_eq, trim, trim_start_matches}

pub record Files : Type 0 where
  pub is_file : Text → Bool
  pub open_file : Text → Option Text
  pub mime : Text → Option Text

abbrev before_semicolon : List Text → Text
before_semicolon [] = []
before_semicolon (t ∷ rest) = t

-- The closure `accepts`.
unfoldable pub accepts : Option Text → Text → Bool
accepts none needle = false
accepts (some header) needle =
    any (λ t. text_eq (before_semicolon (split (trim t) b';')) needle) (split header b',')

unfoldable pub with_extra_ext : Text → Text → Text
with_extra_ext path ext = path ++ (b'.' ∷ ext)

abbrev encoding_header : Option Text → Headers
encoding_header none = []
encoding_header (some enc) = (codes "content-encoding", enc) ∷ []

unfoldable pub not_found_response : Response
not_found_response = empty_response 404

module _ (fs : Files) where
  -- The path to open, and its encoding.
  unfoldable pub pick_precompressed : Text → Option Text → Text × Option Text
  unfolding with_extra_ext
  pick_precompressed path accept_encoding =
      if accepts accept_encoding (codes "br") && fs.is_file (with_extra_ext path (codes "br"))
      then (with_extra_ext path (codes "br"), some (codes "br"))
      else if accepts accept_encoding (codes "gzip")
          && fs.is_file (with_extra_ext path (codes "gz"))
      then (with_extra_ext path (codes "gz"), some (codes "gzip"))
      else (path, none)

  unfoldable pub serve_immutable_file : Text → Option Text → Option Response
  serve_immutable_file path accept_encoding =
      let mime = unwrap_or (fs.mime path) (codes "application/octet-stream") in
      let (open_path, encoding) = pick_precompressed path accept_encoding in
      map_option
        (λ body. record {
          status = 200;
          headers =
              (codes "content-type", mime)
              ∷ (codes "cache-control", codes "public, max-age=31536000, immutable")
              ∷ (codes "vary", codes "Accept-Encoding")
              ∷ encoding_header encoding;
          body = body;
        })
        (fs.open_file open_path)

  -- `static_service` of router.rs: the manifest first, `ServeDir` behind it. The path has lost its
  -- "/static/".
  unfoldable pub static_service :
      Assets → (Text → Option Text) → (Text → Response) → Text → Headers → Response
  static_service assets to_str serve_dir uri_path headers =
      elim (resolve_hashed_request assets (trim_start_matches uri_path b'/')) [
        | some on_disk ↦
            unwrap_or
              (serve_immutable_file on_disk
                (and_then (get_header (codes "accept-encoding") headers) to_str))
              not_found_response
        | none ↦
            (let answer : Response = serve_dir uri_path in
              record answer {
                headers =
                    insert_header (codes "cache-control") (codes "public, max-age=300")
                      answer.headers;
              })
      ]
