-- ===== src/Assets/Names.antt =====
-- The names that carry a hash (crates/assets/src/manifest.rs).
use todo_rust.Prelude.{
  All, List, Option-cases, [], ap, arith, inl, inr, refl, some, some_inj, subst, sym, ℕ, ◌%◌, ◌++◌,
  ◌/◌, ◌<◌, ◌∙◌, ◌∷◌, ◌≡◌, ◌≢◌,
}
use todo_rust.Assets.{hex_byte, hex_digit, hex_short, inject_hash}
use todo_rust.Text.{Text, rsplit_once}
use todo_rust.Text.Laws.{
  Avoids, Avoids-append, Avoids-of_rsplit_once, rsplit_once-append, rsplit_once_sound,
}

-- A hash has no dot.
hex_digit-ne : (n : ℕ) → n < 16 → hex_digit n ≢ b'.'
unfolding hex_digit
hex_digit-ne n h = ground arith

hex_byte-Avoids : (b : ℕ) → b < 256 → Avoids b'.' (hex_byte b)
unfolding hex_byte
hex_byte-Avoids b h =
    (hex_digit-ne (b / 16) (omega arith), (hex_digit-ne (b % 16) (omega arith), tt))

-- A digest of the hash function is bytes.
abbrev pub AllBytes : List ℕ → Type 0
AllBytes = All (λ b. b < 256)

hex_digits-Avoids :
    (a b c d : ℕ)
    → a < 256
    → b < 256
    → c < 256
    → d < 256
    → Avoids b'.' (hex_byte a ++ (hex_byte b ++ (hex_byte c ++ hex_byte d)))
hex_digits-Avoids a b c d p q r s =
    Avoids-append b'.' (hex_byte a) (hex_byte b ++ (hex_byte c ++ hex_byte d)) (hex_byte-Avoids a p)
      (Avoids-append b'.' (hex_byte b) (hex_byte c ++ hex_byte d) (hex_byte-Avoids b q)
        (Avoids-append b'.' (hex_byte c) (hex_byte d) (hex_byte-Avoids c r) (hex_byte-Avoids d s)))

pub hex_short-Avoids :
    (digest : List ℕ) (hash : Text)
    → AllBytes digest
    → hex_short digest ≡ some hash
    → Avoids b'.' hash
unfolding hex_short
hex_short-Avoids (a ∷ b ∷ c ∷ d ∷ rest) hash (p, (q, (r, (s, h)))) k =
    subst (Avoids b'.') (some_inj k) (hex_digits-Avoids a b c d p q r s)
hex_short-Avoids _ hash h k = cc

-- What `inject_hash` makes of a name with a dot, and of one without.
data NameCase (logical hash : Text) : Type 0 where
  dotted :
      (stem ext : Text)
      → logical ≡ stem ++ (b'.' ∷ ext)
      → Avoids b'.' ext
      → inject_hash logical hash ≡ stem ++ (b'.' ∷ hash ++ (b'.' ∷ ext))
      → NameCase logical hash
  bare_name :
      Avoids b'.' logical
      → inject_hash logical hash ≡ logical ++ (b'.' ∷ hash)
      → NameCase logical hash

name_case : (logical hash : Text) → NameCase logical hash
name_case logical hash = elim (Option-cases (rsplit_once logical b'.')) [
  | inl e ↦
      bare_name (Avoids-of_rsplit_once logical b'.' e)
        (unfold inject_hash in rw (inject_hash, e) refl)
  | inr ((stem, ext), e) ↦
      let (whole, clear) = rsplit_once_sound logical b'.' stem ext e in
      dotted stem ext whole clear (unfold inject_hash in rw (inject_hash, e) refl)
]

-- The last dot of a text parts it in one way.
last_dot :
    (a b c d : Text)
    → Avoids b'.' b
    → Avoids b'.' d
    → a ++ (b'.' ∷ b) ≡ c ++ (b'.' ∷ d)
    → (a ≡ c) × (b ≡ d)
last_dot a b c d h k e =
    let same = some_inj (
      sym (rsplit_once-append a b b'.' h)
      ∙ (ap (λ s. rsplit_once s b'.') e ∙ rsplit_once-append c d b'.' k)) in
    (ap (λ p. p.0) same, ap (λ p. p.1) same)

append-Avoids : (c : ℕ) (s t : Text) → Avoids c (s ++ t) → Avoids c s
append-Avoids c [] t h = tt
append-Avoids c (d ∷ s) t (p, h) = (p, append-Avoids c s t h)

Avoids-absurd : (c : ℕ) (s t : Text) → Avoids c (s ++ (c ∷ t)) → ⊥
Avoids-absurd c [] t (p, h) = p refl
Avoids-absurd c (d ∷ s) t (p, h) = Avoids-absurd c s t h

append-assoc-dot :
    (stem hash ext : Text)
    → stem ++ (b'.' ∷ hash ++ (b'.' ∷ ext)) ≡ (stem ++ (b'.' ∷ hash)) ++ (b'.' ∷ ext)
append-assoc-dot [] hash ext = refl
append-assoc-dot (c ∷ stem) hash ext = ap (λ s. c ∷ s) (append-assoc-dot stem hash ext)

-- Two names with a dot.
dotted_inj :
    (p q h k e f : Text)
    → Avoids b'.' h
    → Avoids b'.' k
    → Avoids b'.' e
    → Avoids b'.' f
    → p ++ (b'.' ∷ h ++ (b'.' ∷ e)) ≡ q ++ (b'.' ∷ k ++ (b'.' ∷ f))
    → (p ≡ q) × (e ≡ f)
dotted_inj p q h k e f ch ck ce cf same =
    let (front, back) =
      last_dot (p ++ (b'.' ∷ h)) e (q ++ (b'.' ∷ k)) f ce cf
        (sym (append-assoc-dot p h e) ∙ (same ∙ append-assoc-dot q k f)) in
    ((last_dot p h q k ch ck front).0, back)

-- A name with a dot and one without.
dotted_bare :
    (p q h k e : Text)
    → Avoids b'.' e
    → Avoids b'.' q
    → Avoids b'.' k
    → p ++ (b'.' ∷ h ++ (b'.' ∷ e)) ≡ q ++ (b'.' ∷ k)
    → ⊥
dotted_bare p q h k e ce cq ck same =
    let (front, _) = last_dot (p ++ (b'.' ∷ h)) e q k ce ck (sym (append-assoc-dot p h e) ∙ same) in
    Avoids-absurd b'.' p h (subst (Avoids b'.') (sym front) cq)

-- Two files get the same name from hashes without a dot only if they are one.
pub inject_hash_inj :
    (a b h k : Text) → Avoids b'.' h → Avoids b'.' k → inject_hash a h ≡ inject_hash b k → a ≡ b
inject_hash_inj a b h k ch ck same = elim (name_case a h) [
  | dotted p e whole ce made ↦ elim (name_case b k) [
    | dotted q f whole' cf made' ↦
        let (stem, ext) = dotted_inj p q h k e f ch ck ce cf (sym made ∙ (same ∙ made')) in
        rw (whole, whole', stem, ext)
    | bare_name cb made' ↦ absurd (dotted_bare p b h k e ce cb ck (sym made ∙ (same ∙ made')))
  ]
  | bare_name ca made ↦ elim (name_case b k) [
    | dotted q f whole' cf made' ↦
        absurd (dotted_bare q a k h f cf ca ch (sym made' ∙ (sym same ∙ made)))
    | bare_name cb made' ↦ (last_dot a h b k ch ck (sym made ∙ (same ∙ made'))).0
  ]
]
