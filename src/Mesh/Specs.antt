-- ===== src/Mesh/Specs.antt =====
-- src/verifier/cmd/he-witness/main.go: what a `--peer` flag says, apart from how it is taken apart.
use open_opticon.Common.{
  ℕ, suc, ◌≡◌, ◌≢◌, refl, sym, ap, ◌∙◌, arith, true, false, not, ◌&&◌, Bool-cases, inl, inr, List,
  [], ◌∷◌, ◌++◌, length, replicate, ◌==◌, All,
}
use open_opticon.Common.Bytes.{Bytes}
use open_opticon.Common.Results.{
  ok, >>=-eq-ok, guard, guard-eq-ok, wrap, wrap-eq-ok, empty_peer_name, duplicate_peer, bad_pub_x,
  bad_pub_y,
}
use open_opticon.Hex.{hex_decode}
use open_opticon.Checkpoint.{onto_first}
use open_opticon.Mesh.{Peer}
use open_opticon.Mesh.Commands.{split_on, trim_slashes, is_seen, parse_spec}

-- No byte of the field is a comma.
abbrev pub IsField : Bytes → Type 0
IsField l = All (λ (b : ℕ). b ≢ 0x2c) l

abbrev pub commas : List Bytes → Bytes
commas [] = []
commas (a ∷ []) = a
commas (a ∷ b ∷ rest) = a ++ 0x2c ∷ commas (b ∷ rest)

-- `s` is `t` and slashes, and `t` does not end with a slash.
pub record IsTrimmed (s t : Bytes) : Type 0 where
  pub count : ℕ
  pub is : s ≡ t ++ replicate count 0x2f
  pub ends : (front : Bytes) → t ≢ front ++ 0x2f ∷ []

-- The flag is `name,url,x,y` for this peer.
pub record IsSpecOf (spec : Bytes) (p : Peer) : Type 0 where
  pub url : Bytes
  pub x : Bytes
  pub y : Bytes
  pub written : spec ≡ p.name ++ 0x2c ∷ (url ++ 0x2c ∷ (x ++ 0x2c ∷ y))
  pub fields : All IsField (p.name ∷ url ∷ x ∷ y ∷ [])
  pub not_empty : length p.name ≢ 0
  pub trimmed : IsTrimmed url p.url
  pub x_decoded : hex_decode x ≡ ok p.pub_x
  pub y_decoded : hex_decode y ≡ ok p.pub_y

-- The peers are those of the flags, in their order.
pub data AreSpecsOf : List Bytes → List Peer → Type 0 where
  nil : AreSpecsOf [] []
  cons :
      {s : Bytes} {p : Peer} {specs : List Bytes} {peers : List Peer}
      → IsSpecOf s p
      → AreSpecsOf specs peers
      → AreSpecsOf (s ∷ specs) (p ∷ peers)

commas-onto_first : (b : ℕ) (parts : List Bytes) → commas (onto_first b parts) ≡ b ∷ commas parts
unfolding onto_first
commas-onto_first b [] = refl
commas-onto_first b (a ∷ []) = refl
commas-onto_first b (a ∷ c ∷ rest) = refl

fields-onto_first :
    (b : ℕ) (parts : List Bytes) → b ≢ 0x2c → All IsField parts → All IsField (onto_first b parts)
unfolding onto_first
fields-onto_first b [] n a = ((n, tt), tt)
fields-onto_first b (p ∷ parts) n (f, a) = ((n, f), a)

split_on-full : (s : Bytes) → length (split_on 0x2c s) ≢ 0
unfolding split_on onto_first
split_on-full [] = λ e. omega (arith, e)
split_on-full (b ∷ s) = ground arith

commas-first : (parts : List Bytes) → length parts ≢ 0 → commas ([] ∷ parts) ≡ 0x2c ∷ commas parts
commas-first [] h = absurd (h refl)
commas-first (a ∷ rest) h = refl

-- The fields are without commas, and with commas between them they are the string.
commas-split_on : (s : Bytes) → (s ≡ commas (split_on 0x2c s)) × All IsField (split_on 0x2c s)
unfolding split_on
commas-split_on [] = (refl, (tt, tt))
commas-split_on (b ∷ s) =
    let (e, a) = commas-split_on s in
    elim (Bool-cases (b == 0x2c)) [
      | inl y ↦
          let is : b ≡ 0x2c = ground arith in
          let f = commas-first (split_on 0x2c s) (split_on-full s) in
          rw y (ap (λ r. b ∷ r) e ∙ ap (λ x. x ∷ commas (split_on 0x2c s)) is ∙ sym f, (tt, a))
      | inr n ↦
          let is : b ≢ 0x2c = λ q. ground arith in
          rw n (
            ap (λ r. b ∷ r) e ∙ sym (commas-onto_first b (split_on 0x2c s)),
            fields-onto_first b (split_on 0x2c s) is a,
          )
    ]

empty : (t : Bytes) → (length t == 0) ≡ true → t ≡ []
empty [] h = refl
empty (x ∷ t) h = ground arith

no_slash : (front : Bytes) → [] ≢ front ++ 0x2f ∷ []
no_slash [] e = cc
no_slash (x ∷ front) e = cc

ends-cons :
    (b : ℕ) (t : Bytes)
    → (b == 0x2f && length t == 0) ≡ false
    → ((front : Bytes) → t ≢ front ++ 0x2f ∷ [])
    → (front : Bytes) → b ∷ t ≢ front ++ 0x2f ∷ []
ends-cons b [] n h [] e = ground arith
ends-cons b (a ∷ t) n h [] e = cc
ends-cons b t n h (x ∷ front) e = h front (cc)

trim_slashes-IsTrimmed : (s : Bytes) → IsTrimmed s (trim_slashes s)
unfolding trim_slashes
trim_slashes-IsTrimmed [] = record { count = 0; is = refl; ends = no_slash }
trim_slashes-IsTrimmed (b ∷ s) =
    let ih = trim_slashes-IsTrimmed s in
    elim (Bool-cases (b == 0x2f && length (trim_slashes s) == 0)) [
      | inl y ↦
          let slash : b ≡ 0x2f = ground arith in
          let none_left : trim_slashes s ≡ [] = empty (trim_slashes s) (ground arith) in
          rw y (record {
            count = suc ih.count;
            is = cc (slash, ih.is, ap (λ t. t ++ replicate ih.count 0x2f) none_left);
            ends = no_slash;
          })
      | inr n ↦ rw n (record {
        count = ih.count;
        is = ap (λ r. b ∷ r) ih.is;
        ends = ends-cons b (trim_slashes s) n ih.ends;
      })
    ]

four_fields :
    (spec name url x y : Bytes)
    → split_on 0x2c spec ≡ name ∷ url ∷ x ∷ y ∷ []
    → (spec ≡ name ++ 0x2c ∷ (url ++ 0x2c ∷ (x ++ 0x2c ∷ y)))
      × All IsField (name ∷ url ∷ x ∷ y ∷ [])
four_fields spec name url x y e = rw e at (commas-split_on spec)

pub parse_spec-IsSpecOf :
    (seen : List Peer) (spec : Bytes) (parts : List Bytes) (p : Peer)
    → split_on 0x2c spec ≡ parts
    → parse_spec seen parts ≡ ok p
    → IsSpecOf spec p × (is_seen p.name seen ≡ false)
unfolding parse_spec
parse_spec-IsSpecOf seen spec [] p s h = cc
parse_spec-IsSpecOf seen spec (a ∷ []) p s h = cc
parse_spec-IsSpecOf seen spec (a ∷ b ∷ []) p s h = cc
parse_spec-IsSpecOf seen spec (a ∷ b ∷ x ∷ []) p s h = cc
parse_spec-IsSpecOf seen spec (a ∷ b ∷ x ∷ y ∷ z ∷ rest) p s h = cc
parse_spec-IsSpecOf seen spec (a ∷ b ∷ x ∷ y ∷ []) p s h =
    let (u, g, h1) = >>=-eq-ok (guard (not (length a == 0)) empty_peer_name) _ h in
    let (v, k, h2) = >>=-eq-ok (guard (not (is_seen a seen)) duplicate_peer) _ h1 in
    let (px, ex, h3) = >>=-eq-ok (wrap bad_pub_x (hex_decode x)) _ h2 in
    let (py, ey, h4) = >>=-eq-ok (wrap bad_pub_y (hex_decode y)) _ h3 in
    let is : record { name = a; url = trim_slashes b; pub_x = px; pub_y = py } ≡ p = ground arith in
    let full = guard-eq-ok _ empty_peer_name g in
    let new = guard-eq-ok _ duplicate_peer k in
    let (written, fields) = four_fields spec a b x y s in
    rw (← is) (
      record {
        url = b;
        x = x;
        y = y;
        written = written;
        fields = fields;
        not_empty = ground arith;
        trimmed = trim_slashes-IsTrimmed b;
        x_decoded = wrap-eq-ok bad_pub_x (hex_decode x) ex;
        y_decoded = wrap-eq-ok bad_pub_y (hex_decode y) ey;
      },
      ground arith,
    )
