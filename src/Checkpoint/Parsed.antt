-- ===== src/Checkpoint/Parsed.antt =====
-- src/verifier/transparency.go: the root that `ParseCheckpoint` returns.
use open_opticon.Common.{
  ◌≡◌, arith, inl, inr, Bool-cases, none, some, Option-cases, List, [], ◌∷◌, length, ◌==◌, All,
}
use open_opticon.Common.Bytes.{Bytes, IsByte}
use open_opticon.Common.Results.{ok, >>=-eq-ok}
use open_opticon.Checkpoint.{Text, Checkpoint, checkpoint_size, checkpoint_root, parse_lines}

-- The base64 decoder gives bytes.
abbrev pub DecodesBytes : Text → Type 0
DecodesBytes t = (s bs : Bytes) → t.base64 s ≡ some bs → All IsByte bs

checkpoint_root-eq-ok :
    (t : Text)
    → DecodesBytes t
    → (s r : Bytes) → checkpoint_root (t.base64 s) ≡ ok r
    → All IsByte r × (length r ≡ 32)
unfolding checkpoint_root
checkpoint_root-eq-ok t bytes s r h = elim (Option-cases (t.base64 s)) [
  | inl n ↦ let h' : checkpoint_root none ≡ ok r = rw n at h in cc
  | inr (raw, e) ↦
      let h' : checkpoint_root (some raw) ≡ ok r = rw e at h in
      elim (Bool-cases (length raw == 32)) [
        | inr n ↦ let h'' = rw n at h' in cc
        | inl y ↦
            let h'' = rw y at h' in
            let same : raw ≡ r = ground arith in rw (← same) (bytes s raw e, ground arith)
      ]
]

pub parse_lines-root :
    (t : Text)
    → DecodesBytes t
    → (lines : List Bytes) (cp : Checkpoint) → parse_lines t lines ≡ ok cp
    → All IsByte cp.root × (length cp.root ≡ 32)
unfolding parse_lines
parse_lines-root t bytes [] cp h = cc
parse_lines-root t bytes (x ∷ []) cp h = cc
parse_lines-root t bytes (x ∷ y ∷ []) cp h = cc
parse_lines-root t bytes (x ∷ y ∷ z ∷ []) cp h =
    let (size, es, h1) = >>=-eq-ok (checkpoint_size (t.atoi y)) _ h in
    let (root, er, h2) = >>=-eq-ok (checkpoint_root (t.base64 z)) _ h1 in
    let e : root ≡ cp.root = ground arith in rw (← e) (checkpoint_root-eq-ok t bytes z root er)
parse_lines-root t bytes (x ∷ y ∷ z ∷ u ∷ rest) cp h = cc
