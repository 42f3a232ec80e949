-- ===== src/Bundle/Stream.antt =====
-- src/verifier/bound.go: the stream of one device, followed by `NextDigest` and `Counter`.
use open_opticon.Common.{
  ◌<◌, ◌≡◌, ◌≢◌, ◌⊎◌, inl, inr, sym, ap, subst, ◌∙◌, true, some, arith, Bool-cases,
}
use open_opticon.Common.Bytes.{Bytes, bytes_eq, bytes_eq_iff}
use open_opticon.Common.Results.{ok}
use open_opticon.Hex.{hex_decode, hex_decode-IsByte}
use open_opticon.Payload.{Predicate, decode_payload}
use open_opticon.Payload.Encode.{encode_payload}
use open_opticon.Payload.Accepted.{decode_payload-eq_encode}
use open_opticon.Crypto.{Crypto}
use open_opticon.Bundle.{VerifyResult, Options, Bundle, verify_bundle}
use open_opticon.Bundle.Gates.{ChainsOnto}
use open_opticon.Bundle.Accept.{IsGenuine, verify_bundle_iff, verify_bundle-genuine}

-- Two different inputs with one digest.
abbrev pub Collides : Crypto → Bytes → Bytes → Type 0
Collides c x y = (x ≢ y) × (c.sha256 x ≡ c.sha256 y)

-- Equal digests come from equal inputs or show a collision.
pub same_digest : (c : Crypto) (x y : Bytes) → c.sha256 x ≡ c.sha256 y → (x ≡ y) ⊎ Collides c x y
same_digest c x y h = elim (Bool-cases (bytes_eq x y)) [
  | inl e ↦ inl ((bytes_eq_iff x y).0 e)
  | inr e ↦ inr (λ q. ground (arith, (bytes_eq_iff x y).1 q), h)
]

module _ (c : Crypto) (b : Bundle) (opt : Options)
    (accepted : (verify_bundle c b opt).is_ok ≡ true) where
  abbrev found : IsGenuine c b opt
  found = (verify_bundle_iff c b opt).0 accepted

  -- A verifier that expects the digest of `last` accepts no bundle whose payload was made to follow
  -- another payload `skipped`, unless the two payloads are a collision of SHA-256.
  pub suppressed_window :
      (last skipped payload : Bytes) (p : Predicate)
      → opt.expected_prev_digest ≡ some (c.sha256 last)
      → hex_decode b.payload ≡ ok payload
      → decode_payload payload ≡ ok p
      → p.prev_digest ≡ c.sha256 skipped
      → (last ≡ skipped) ⊎ Collides c last skipped
  suppressed_window last skipped payload p expected hex dec made =
      let g = found in
      let same : g.payload ≡ payload = ground (arith, g.payload_decoded) in
      let p_same : g.predicate ≡ p = ground (arith, g.admits.decoded, ap decode_payload same) in
      let link = subst (ChainsOnto g.predicate.prev_digest) expected g.admits.chained in
      same_digest c last skipped (sym link ∙ ap (λ (x : Predicate). x.prev_digest) p_same ∙ made)

  -- The payload of an accepted bundle is the deterministic encoding of the predicate returned, and
  -- the digest handed on is that of this encoding.
  pub verify_bundle-encode :
      (p : Predicate)
      → (verify_bundle c b opt).predicate ≡ some p
      → (hex_decode b.payload ≡ ok (encode_payload p))
        × ((verify_bundle c b opt).next_digest ≡ some (c.sha256 (encode_payload p)))
        × (opt.last_counter < p.counter)
  verify_bundle-encode p h =
      let g = found in
      let r = verify_bundle-genuine c b opt g in
      let p_same : g.predicate ≡ p = ground (arith, r, h) in
      let e =
        decode_payload-eq_encode g.payload g.predicate
          (hex_decode-IsByte b.payload g.payload g.payload_decoded) g.admits.decoded in
      let q : g.payload ≡ encode_payload p = e.0 ∙ ap encode_payload p_same in
      (
        g.payload_decoded ∙ ap ok q,
        ap (λ (x : VerifyResult). x.next_digest) r ∙ ap (λ (x : Bytes). some (c.sha256 x)) q,
        rw (← p_same) g.admits.advances,
      )
