-- ===== src/Checkpoint/RoundTrip.antt =====
-- src/verifier/transparency.go: `ParseCheckpoint` on what `CheckpointBody` prints.
use open_opticon.Common.{
  ℕ, ◌≡◌, ◌≢◌, ◌<◌, ◌^◌, refl, ◌∙◌, ap, arith, true, false, some, [], ◌∷◌, length, length-append,
  ◌==◌, All,
}
use open_opticon.Common.Bytes.{Bytes, IsByte}
use open_opticon.Common.Results.{ok}
use open_opticon.Checkpoint.{
  Text, Format, Checkpoint, line, checkpoint_body, parse_checkpoint, parse_lines, checkpoint_size,
  checkpoint_root, split_lines, trim_right,
}
use open_opticon.Checkpoint.Lines.{
  IsLine, trim_right-line, trim_right-before, split_lines-line, split_lines-last,
}

-- `strconv.Atoi` reads what `%d` prints of an int, base64 is decoded as it is encoded, and neither
-- prints a newline.
pub record IsInverse (t : Text) (f : Format) : Type 0 where
  pub number : (n : ℕ) → n < 2 ^ 63 → t.atoi (f.itoa n) ≡ some (false, n)
  pub number_line : (n : ℕ) → IsLine (f.itoa n)
  pub bytes : (b : Bytes) → All IsByte b → t.base64 (f.encode64 b) ≡ some b
  pub bytes_line : (b : Bytes) → IsLine (f.encode64 b)
  pub not_empty : (b : Bytes) → length b ≢ 0 → length (f.encode64 b) ≢ 0

-- A checkpoint that can be printed: the origin is one line, the size an int and the root 32 bytes.
pub record IsPrintable (cp : Checkpoint) : Type 0 where
  pub origin : IsLine cp.origin
  pub size : cp.size < 2 ^ 63
  pub root_bytes : All IsByte cp.root
  pub root_length : length cp.root ≡ 32

module _ (t : Text) (f : Format) (inverse : IsInverse t f) where
  body_lines :
      (cp : Checkpoint)
      → IsPrintable cp
      → split_lines (trim_right (checkpoint_body f cp))
        ≡ cp.origin ∷ f.itoa cp.size ∷ f.encode64 cp.root ∷ []
  unfolding checkpoint_body
  body_lines cp p =
      let l = p.root_length in
      let e : Bytes = f.encode64 cp.root in
      let s : Bytes = f.itoa cp.size in
      let full : length e ≢ 0 = inverse.not_empty cp.root (omega arith) in
      let last = trim_right-line e (inverse.bytes_line cp.root) in
      let two = trim_right-before s (line e []) e last full in
      let three =
        trim_right-before cp.origin (line s (line e [])) (line s e) two
          (λ h. omega (arith, h, length-append s (0x0a ∷ e))) in
      ap split_lines three
      ∙ split_lines-line cp.origin (line s e) p.origin
      ∙ ap (λ r. cp.origin ∷ r) (split_lines-line s e (inverse.number_line cp.size))
      ∙ ap (λ r. cp.origin ∷ s ∷ r) (split_lines-last e (inverse.bytes_line cp.root))

  -- The checkpoint that is printed is parsed back.
  pub parse_checkpoint-checkpoint_body :
      (cp : Checkpoint) → IsPrintable cp → parse_checkpoint t (checkpoint_body f cp) ≡ ok cp
  unfolding parse_checkpoint parse_lines checkpoint_size checkpoint_root
  parse_checkpoint-checkpoint_body cp p =
      let lines = body_lines cp p in
      let n = inverse.number cp.size p.size in
      let r = inverse.bytes cp.root p.root_bytes in
      let l = p.root_length in
      let y : (length cp.root == 32) ≡ true = ground arith in rw (lines, n, r, y) refl
