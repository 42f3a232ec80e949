-- ===== src/Checkpoint/Lines.antt =====
-- src/verifier/transparency.go: lines of text, as `bytes.TrimRight` and `bytes.Split` take them apart.
use open_opticon.Common.{
  ℕ, ◌≡◌, ◌≢◌, refl, arith, false, Bool-cases, inl, inr, [], ◌∷◌, ◌++◌, length, ◌==◌, All,
}
use open_opticon.Common.Bytes.{Bytes}
use open_opticon.Checkpoint.{trim_right, split_lines, onto_first, line}

-- No byte of the line ends it.
abbrev pub IsLine : Bytes → Type 0
IsLine l = All (λ (b : ℕ). b ≢ 0x0a) l

-- A newline at the end of a line is trimmed.
pub trim_right-line : (l : Bytes) → IsLine l → trim_right (line l []) ≡ l
unfolding trim_right
trim_right-line [] a = refl
trim_right-line (b ∷ l) (n, a) =
    let ih = trim_right-line l a in
    let other : (b == 0x0a) ≡ false = ground arith in rw (ih, other) refl

not_empty : (x z : Bytes) → length z ≢ 0 → (length (x ++ z) == 0) ≡ false
not_empty [] z full = ground arith
not_empty (b ∷ x) z full = ground arith

-- Trimming goes no further than what is left of the rest.
pub trim_right-append :
    (x y z : Bytes) → trim_right y ≡ z → length z ≢ 0 → trim_right (x ++ y) ≡ x ++ z
unfolding trim_right
trim_right-append [] y z h full = h
trim_right-append (b ∷ x) y z h full =
    let ih = trim_right-append x y z h full in
    let left : (length (x ++ z) == 0) ≡ false = not_empty x z full in
    elim (Bool-cases (b == 0x0a)) [ inl e ↦ rw (ih, e, left) refl | inr n ↦ rw (ih, n) refl ]

-- A line in front of a body whose trimmed text is not empty.
pub trim_right-before :
    (l rest z : Bytes) → trim_right rest ≡ z → length z ≢ 0 → trim_right (line l rest) ≡ line l z
trim_right-before l rest z h full =
    trim_right-append l (0x0a ∷ rest) (0x0a ∷ z) (trim_right-append (0x0a ∷ []) rest z h full)
      (λ e. ground arith)

pub split_lines-line :
    (l rest : Bytes) → IsLine l → split_lines (line l rest) ≡ l ∷ split_lines rest
unfolding split_lines onto_first
split_lines-line [] rest a = refl
split_lines-line (b ∷ l) rest (n, a) =
    let ih = split_lines-line l rest a in
    let other : (b == 0x0a) ≡ false = ground arith in rw (ih, other) refl

pub split_lines-last : (l : Bytes) → IsLine l → split_lines l ≡ l ∷ []
unfolding split_lines onto_first
split_lines-last [] a = refl
split_lines-last (b ∷ l) (n, a) =
    let ih = split_lines-last l a in
    let other : (b == 0x0a) ≡ false = ground arith in rw (ih, other) refl
