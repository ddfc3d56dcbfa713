-- ===== src/Assets/RoundTrip.antt =====
-- The URLs that a page is given, and the requests for them.
use todo_rust.Prelude.{
  All, Bool-cases, Option-cases, [], arith, inl, inr, refl, some, subst, sym, ◌∙◌, ◌∷◌, ◌≡◌,
}
use todo_rust.Assets.{
  Hasher, Manifest, find_unhashed, hash_file, hash_reads, hashed, hex_short, inject_hash,
  is_precompressed, map_get, map_insert, map_remove, production, resolve, resolve_hashed_request,
  root, walk_file, walk_files, walk_node, walk_root,
}
use todo_rust.Assets.Names.{AllBytes, hex_short-Avoids, inject_hash_inj}
use todo_rust.FileTree.{
  Entries, Node, broken, dir, end, entry, locked, path_join, regular, rel_join, special, unreadable,
}
use todo_rust.Prelude.Exec.{Result-cases, ok}
use todo_rust.Text.{Text, replace, text_eq}
use todo_rust.Text.Laws.{Avoids, text_eq_iff}

-- The name of every entry is made from its file and a hash without a dot.
abbrev pub IsNamed : Text × Text → Type 0
IsNamed (logical, url) = (hash : Text) × Avoids b'.' hash × (url ≡ inject_hash logical hash)

abbrev pub AllNamed : Manifest → Type 0
AllNamed = All IsNamed

-- The hash function gives bytes.
pub record GivesBytes {H : Type 0} (x : Hasher H) : Type 0 where
  pub bytes : (h : H) → AllBytes (x.finalize h)

map_remove-AllNamed : (key : Text) (m : Manifest) → AllNamed m → AllNamed (map_remove key m)
unfolding map_remove
map_remove-AllNamed key [] h = tt
map_remove-AllNamed key ((k, v) ∷ m) (p, h) =
    let rest = map_remove-AllNamed key m h in
    elim (Bool-cases (text_eq k key)) [
      | inl e ↦ rw (map_remove, e) rest
      | inr e ↦ rw (map_remove, e) (p, rest)
    ]

map_insert-AllNamed :
    (key value : Text) (m : Manifest)
    → IsNamed (key, value)
    → AllNamed m
    → AllNamed (map_insert key value m)
unfolding map_insert
map_insert-AllNamed key value m h k = (h, map_remove-AllNamed key m k)

IsNamed-of_map_get :
    (logical url : Text) (m : Manifest)
    → AllNamed m
    → map_get logical m ≡ some url
    → IsNamed (logical, url)
IsNamed-of_map_get logical url [] h k = unfold map_get in cc
IsNamed-of_map_get logical url ((key, v) ∷ m) (p, h) k = elim (Bool-cases (text_eq key logical)) [
  | inl e ↦
      let same : v ≡ url = unfold map_get in ground arith in
      let name = (text_eq_iff key logical).0 e in
      subst (λ u. IsNamed (logical, u)) same (subst (λ l. IsNamed (l, v)) name p)
  | inr e ↦ IsNamed-of_map_get logical url m h (unfold map_get in ground arith)
]

-- Two entries of one name are of one file.
same_file : (a b url : Text) → IsNamed (a, url) → IsNamed (b, url) → a ≡ b
same_file a b url (h, ch, p) (k, ck, q) = inject_hash_inj a b h k ch ck (sym p ∙ q)

find_unhashed-map_get :
    (logical url : Text) (m : Manifest)
    → AllNamed m
    → map_get logical m ≡ some url
    → find_unhashed url m ≡ some logical
unfolding find_unhashed map_get
find_unhashed-map_get logical url [] h k = cc
find_unhashed-map_get logical url ((key, v) ∷ m) (p, h) k =
    elim (Bool-cases (text_eq key logical)) [
      | inl e ↦ ground (arith, text_eq_iff key logical, text_eq_iff v url)
      | inr e ↦
          let later : map_get logical m ≡ some url = ground arith in
          elim (Bool-cases (text_eq v url)) [
            | inr d ↦ ground (arith, find_unhashed-map_get logical url m h later)
            | inl d ↦
                let named = subst (λ u. IsNamed (key, u)) ((text_eq_iff v url).0 d) p in
                ground (
                  arith,
                  same_file key logical url named (IsNamed-of_map_get logical url m h later),
                )
          ]
    ]

module _ {H : Type 0} (x : Hasher H) (laws : GivesBytes x) where
  hash_file-Avoids : (node : Node) (hash : Text) → hash_file x node ≡ ok hash → Avoids b'.' hash
  unfolding hash_file
  hash_file-Avoids (regular body) hash h =
      elim (Option-cases (hex_short (x.finalize (hash_reads x x.new body.reads)))) [
        | inl e ↦ absurd (ground arith)
        | inr (found, e) ↦
            let same : found ≡ hash = ground arith in
            hex_short-Avoids (x.finalize (hash_reads x x.new body.reads)) hash
              (laws.bytes (hash_reads x x.new body.reads)) (rw same at e)
      ]
  hash_file-Avoids (unreadable e) hash h = cc
  hash_file-Avoids (dir entries) hash h = cc
  hash_file-Avoids (locked e) hash h = cc
  hash_file-Avoids special hash h = cc

  walk_file-AllNamed :
      (rel name : Text) (node : Node) (m n : Manifest)
      → AllNamed m
      → walk_file x rel name node m ≡ ok n
      → AllNamed n
  walk_file-AllNamed rel name node m n h k = elim (Bool-cases (is_precompressed name)) [
    | inl e ↦ let same : m ≡ n = unfold walk_file in ground arith in subst AllNamed same h
    | inr e ↦
        let logical = replace (rel_join rel name) 92 b'/' in
        elim (Result-cases (hash_file x node)) [
          | inr (failure, f) ↦ absurd (unfold walk_file in ground arith)
          | inl (hash, f) ↦
              let same : map_insert logical (inject_hash logical hash) m ≡ n =
                unfold walk_file in ground arith in
              subst AllNamed same (
                map_insert-AllNamed logical (inject_hash logical hash) m
                  (hash, hash_file-Avoids node hash f, refl) h)
        ]
  ]

  mutual
    unfolding walk_node walk_files

    walk_node-AllNamed :
        (node : Node) (rel name : Text) (m n : Manifest)
        → AllNamed m
        → walk_node x node rel name m ≡ ok n
        → AllNamed n
    walk_node-AllNamed (dir entries) rel name m n h k =
        walk_files-AllNamed entries (rel_join rel name) m n h k
    walk_node-AllNamed (locked e) rel name m n h k = cc
    walk_node-AllNamed (regular body) rel name m n h k =
        walk_file-AllNamed rel name (regular body) m n h k
    walk_node-AllNamed (unreadable e) rel name m n h k =
        walk_file-AllNamed rel name (unreadable e) m n h k
    walk_node-AllNamed special rel name m n h k = walk_file-AllNamed rel name special m n h k

    walk_files-AllNamed :
        (entries : Entries) (rel : Text) (m n : Manifest)
        → AllNamed m
        → walk_files x entries rel m ≡ ok n
        → AllNamed n
    walk_files-AllNamed end rel m n h k = let same : m ≡ n = ground arith in subst AllNamed same h
    walk_files-AllNamed (broken e entries) rel m n h k = cc
    walk_files-AllNamed (entry name node entries) rel m n h k =
        elim (Result-cases (walk_node x node rel name m)) [
          | inr (e, failed) ↦ absurd (ground arith)
          | inl (mid, walked) ↦
              walk_files-AllNamed entries rel mid n
                (walk_node-AllNamed node rel name m mid h walked) (rw walked at k)
        ]

  production-AllNamed :
      (root : Text) (node : Node) (m : Manifest)
      → production x root node ≡ ok (hashed root m)
      → AllNamed m
  unfolding production
  production-AllNamed root (dir entries) m h = elim (Result-cases (walk_files x entries [] [])) [
    | inr (e, failed) ↦ absurd (unfold walk_root in ground arith)
    | inl (n, walked) ↦
        let same : n ≡ m = unfold walk_root in ground arith in
        subst AllNamed same (walk_files-AllNamed entries [] [] n tt walked)
  ]
  production-AllNamed root (locked e) m h = unfold walk_root in ground arith
  production-AllNamed root (regular body) m h = unfold walk_root in ground arith
  production-AllNamed root (unreadable e) m h = unfold walk_root in ground arith
  production-AllNamed root special m h = unfold walk_root in ground arith

  -- If a digest is bytes, then for a file in a manifest that `production` made, the URL that
  -- `resolve` gives is found again by `resolve_hashed_request`, with the path of that file.
  pub resolve_hashed_request-resolve :
      (root : Text) (node : Node) (m : Manifest) (logical url : Text)
      → production x root node ≡ ok (hashed root m)
      → map_get logical m ≡ some url
      → (resolve (hashed root m) logical ≡ url)
        × (resolve_hashed_request (hashed root m) url ≡ some (path_join root logical))
  resolve_hashed_request-resolve root node m logical url h k = (
    unfold resolve in ground arith,
    unfold resolve_hashed_request in
        rw (find_unhashed-map_get logical url m (production-AllNamed root node m h) k) refl,
  )
