-- ===== src/Mesh/Spread.antt =====
-- src/verifier/cmd/he-witness/main.go: where the flood of a proof arrives.
use open_opticon.Common.{
  ℕ, zero, suc, ◌≡◌, ◌≢◌, ◌⊎◌, refl, sym, ap, subst, ◌∙◌, arith, true, Bool-cases, inl, inr, Option,
  none, some, List, [], ◌∷◌, ◌++◌, map, get_elem?,
}
use open_opticon.Common.Bytes.{Bytes}
use open_opticon.Crypto.{Crypto}
use open_opticon.Checkpoint.{Text}
use open_opticon.Mesh.{Peer, EquivProof}
use open_opticon.Mesh.Daemon.{
  Daemon, Pushes, push_all, pinned_key, holding, alarmed, judge_proof, latch, try_adopt,
}
use open_opticon.Mesh.Frame.{Keeps, record_proof_frame, Keeps-refl, Keeps-try_adopt}
use open_opticon.Mesh.Evidence.{IsEvidence}
use open_opticon.Mesh.Adopt.{alarm-latch, try_adopt_lem}
use open_opticon.Mesh.Flood.{Network, receive, posts, deliver, Deliveries, quiet, delivery}

abbrev pub Has : {A : Type 0} → A → List A → Type 0
Has x [] = ⊥
Has x (y ∷ l) = (x ≡ y) ⊎ Has x l

module _ {A : Type 0} (x : A) where
  Has-left : (xs ys : List A) → Has x xs → Has x (xs ++ ys)
  Has-left [] ys h = absurd h
  Has-left (y ∷ xs) ys (inl e) = inl e
  Has-left (y ∷ xs) ys (inr h) = inr (Has-left xs ys h)

  Has-right : (xs ys : List A) → Has x ys → Has x (xs ++ ys)
  Has-right [] ys h = h
  Has-right (y ∷ xs) ys h = inr (Has-right xs ys h)

  -- What is taken from the middle, or is left.
  Has-taken : (y : A) (xs ys : List A) → Has x (xs ++ y ∷ ys) → (x ≡ y) ⊎ Has x (xs ++ ys)
  Has-taken y [] ys h = h
  Has-taken y (z ∷ xs) ys (inl e) = inr (inl e)
  Has-taken y (z ∷ xs) ys (inr h) = elim (Has-taken y xs ys h) [
    | inl e ↦ inl e
    | inr k ↦ inr (inr k)
  ]

  Has-map : {B : Type 0} (f : A → B) (xs : List A) → Has x xs → Has (f x) (map f xs)
  Has-map f [] h = absurd h
  Has-map f (y ∷ xs) (inl e) = inl (ap f e)
  Has-map f (y ∷ xs) (inr h) = inr (Has-map f xs h)

module _ (c : Crypto) (t : Text) where
  -- The daemon has raised the alarm if the proof is evidence for it.
  abbrev pub Convinced : Daemon → EquivProof → Type 0
  Convinced e p = IsEvidence c t e p → e.equivocation ≡ true

  pinned_key-Keeps :
      {e f : Daemon} → Keeps e f → (name : Bytes) → pinned_key f name ≡ pinned_key e name
  unfolding pinned_key
  pinned_key-Keeps k name = rw (k.cfg, k.peers) refl

  -- What is evidence for a daemon does not change with its state.
  IsEvidence-Keeps :
      {e f : Daemon} {p : EquivProof} → Keeps e f → IsEvidence c t f p → IsEvidence c t e p
  IsEvidence-Keeps {e} {f} {p} k v = record {
    signed_a = v.signed_a;
    signed_b = v.signed_b;
    pinned_a = record {
      body = v.pinned_a.body;
      sig = v.pinned_a.sig;
      key = sym (pinned_key-Keeps k p.a.witness) ∙ v.pinned_a.key;
    };
    pinned_b = record {
      body = v.pinned_b.body;
      sig = v.pinned_b.sig;
      key = sym (pinned_key-Keeps k p.b.witness) ∙ v.pinned_b.key;
    };
    equivocation = v.equivocation;
    watched = v.watched ∙ ap (λ g. g.origin) k.cfg;
  }

  Convinced-Keeps : {e f : Daemon} {p : EquivProof} → Keeps e f → Convinced e p → Convinced f p
  Convinced-Keeps k h v = k.alarm (h (IsEvidence-Keeps k v))

  Convinced-try_adopt : (p : EquivProof) (d : Daemon) → Convinced (try_adopt c t p d).1.0 p
  unfolding try_adopt
  Convinced-try_adopt p d v =
      let y = (try_adopt_lem c t d p).0.1 (IsEvidence-Keeps (Keeps-try_adopt c t p d) v) in
      rw y (alarm-latch c p d.proof d)

  -- A daemon that holds a proof held it before, or has just pushed it to its peers.
  latch_holds :
      (p : EquivProof) (had : Option EquivProof) (d : Daemon) (q : EquivProof)
      → d.proof ≡ had
      → (latch c p had d).0.proof ≡ some q
      → (d.proof ≡ some q) ⊎ ((latch c p had d).1 ≡ push_all d.peers q)
  unfolding latch
  latch_holds p none d q h e =
      let f = record_proof_frame c p (holding p (alarmed d)) in
      let s : p ≡ q = ground (arith, f.proof, e) in inr (ap (push_all d.peers) s)
  latch_holds p (some r) d q h e = inl (sym (record_proof_frame c p (alarmed d)).proof ∙ e)

  try_adopt_holds :
      (p : EquivProof) (d : Daemon) (q : EquivProof)
      → (try_adopt c t p d).1.0.proof ≡ some q
      → (d.proof ≡ some q) ⊎ ((try_adopt c t p d).1.1 ≡ push_all d.peers q)
  unfolding try_adopt
  try_adopt_holds p d q e = elim (Bool-cases (judge_proof c t d p).0) [
    | inl y ↦ rw y (let e' = rw y at e in latch_holds p d.proof d q refl e')
    | inr n ↦ inl (rw n at e)
  ]

  -- A daemon behind a delivery: the one at the place has tried the proof, the others are as before.
  data Behind (j : ℕ) (p : EquivProof) (i : ℕ) (d : Daemon) (sent : Pushes) : Daemon → Type 0 where
    same : i ≢ j → Behind j p i d sent d
    tried : i ≡ j → sent ≡ (try_adopt c t p d).1.1 → Behind j p i d sent (try_adopt c t p d).1.0

  Behind-suc :
      {j : ℕ} {p : EquivProof} {i : ℕ} {d f : Daemon} {sent : Pushes}
      → Behind j p i d sent f
      → Behind (suc j) p (suc i) d sent f
  Behind-suc (same n) = same (λ e. n (omega (arith, e)))
  Behind-suc (tried e s) = tried (ap suc e) s

  Behind-receive :
      (j : ℕ) (p : EquivProof) (nodes : List Daemon) (i : ℕ) (f : Daemon)
      → get_elem? (receive c t j p nodes).0 i ≡ some f
      → (d : Daemon) × (get_elem? nodes i ≡ some d) × Behind j p i d (receive c t j p nodes).1 f
  unfolding receive
  Behind-receive j p [] i f h = cc
  Behind-receive zero p (d ∷ nodes) zero f h =
      let e : (try_adopt c t p d).1.0 ≡ f = ground arith in
      (d, refl, subst (Behind zero p zero d (try_adopt c t p d).1.1) e (tried refl refl))
  Behind-receive zero p (d ∷ nodes) (suc i) f h = (f, h, same (λ e. omega (arith, e)))
  Behind-receive (suc j) p (d ∷ nodes) zero f h =
      let e : d ≡ f = ground arith in
      (
        d,
        refl,
        subst (Behind (suc j) p zero d (receive c t j p nodes).1) e (same (λ z. omega (arith, z))),
      )
  Behind-receive (suc j) p (d ∷ nodes) (suc i) f h =
      let (g, at, b) = Behind-receive j p nodes i f h in (g, at, Behind-suc b)

  Keeps-Behind :
      {j : ℕ} {p : EquivProof} {i : ℕ} {d f : Daemon} {sent : Pushes}
      → Behind j p i d sent f
      → Keeps d f
  Keeps-Behind {d = d} (same n) = Keeps-refl d
  Keeps-Behind {p = p} {d = d} (tried e s) = Keeps-try_adopt c t p d

  -- The proof of a daemon behind a delivery was there, or is among what was just pushed.
  Behind-holds :
      {j : ℕ} {p : EquivProof} {i : ℕ} {d f : Daemon} {sent : Pushes} (q : EquivProof)
      → Behind j p i d sent f
      → f.proof ≡ some q
      → (d.proof ≡ some q) ⊎ (sent ≡ push_all d.peers q)
  Behind-holds q (same n) e = inl e
  Behind-holds {p = p} {d = d} q (tried at s) e = elim (try_adopt_holds p d q e) [
    | inl h ↦ inl h
    | inr h ↦ inr (s ∙ h)
  ]

  -- The daemon at the place of the delivery has judged the proof.
  Convinced-Behind :
      {j : ℕ} {p : EquivProof} {i : ℕ} {d f : Daemon} {sent : Pushes}
      → Behind j p i d sent f
      → i ≡ j
      → Convinced f p
  Convinced-Behind (same n) e = absurd (n e)
  Convinced-Behind {p = p} {d = d} (tried at s) e = Convinced-try_adopt p d

  module _ (address : Peer → ℕ) where
    -- What a daemon holds has convinced each of its peers that pins the keys, or is on the way there.
    abbrev pub Spreads : Network → Type 0
    Spreads n =
        (i : ℕ) (d : Daemon) (p : EquivProof) (q : Peer) (e : Daemon)
        → get_elem? n.nodes i ≡ some d
        → d.proof ≡ some p
        → Has q d.peers
        → get_elem? n.nodes (address q) ≡ some e
        → Convinced e p ⊎ Has (address q, p) n.wire

    Spreads-deliver :
        (nodes : List Daemon) (before after : List (ℕ × EquivProof)) (m : ℕ × EquivProof)
        → Spreads (record { nodes = nodes; wire = before ++ m ∷ after })
        → Spreads (deliver c t address nodes m (before ++ after))
    unfolding deliver
    Spreads-deliver nodes before after m spreads i d' p q e' at' held mine ae' =
        let sent = (receive c t m.0 m.1 nodes).1 in
        let (d, at, b) = Behind-receive m.0 m.1 nodes i d' at' in
        let (e, ae, be) = Behind-receive m.0 m.1 nodes (address q) e' ae' in
        let mine' : Has q d.peers = subst (Has q) (Keeps-Behind b).peers mine in
        elim (Behind-holds p b held) [
          | inr s ↦
              let on_wire =
                Has-map (q, p) (λ x. (address x.0, x.1)) (push_all d.peers p)
                  (Has-map q (λ x. (x, p)) d.peers mine') in
              inr (
                Has-right (address q, p) (before ++ after) (posts address sent)
                  (subst (λ x. Has (address q, p) (posts address x)) (sym s) on_wire))
          | inl h ↦ elim (spreads i d p q e at h mine' ae) [
            | inl conv ↦ inl (Convinced-Keeps (Keeps-Behind be) conv)
            | inr has ↦ elim (Has-taken (address q, p) m before after has) [
              | inr k ↦ inr (Has-left (address q, p) (before ++ after) (posts address sent) k)
              | inl x ↦ inl (
                  subst (Convinced e') (sym (ap (λ z. z.1) x))
                    (Convinced-Behind be (ap (λ z. z.0) x)))
            ]
          ]
        ]

    Spreads-Deliveries :
        {n e : Network} {k : ℕ} → Spreads n → Deliveries c t address n k e → Spreads e
    Spreads-Deliveries s quiet = s
    Spreads-Deliveries s (delivery nodes before after m r) =
        Spreads-deliver nodes before after m (Spreads-Deliveries s r)

    -- When a network starts with the pushes of every proof that is held on the wire, and deliveries
    -- have emptied the wire, then each peer of a daemon that holds a proof has raised the alarm, if the
    -- proof is evidence under the keys that the peer pins.
    pub flood_convinces_peers :
        {n e : Network} {k : ℕ}
        → Spreads n
        → Deliveries c t address n k e
        → e.wire ≡ []
        → (i : ℕ) (d : Daemon) (p : EquivProof) (q : Peer) (f : Daemon)
        → get_elem? e.nodes i ≡ some d
        → d.proof ≡ some p
        → Has q d.peers
        → get_elem? e.nodes (address q) ≡ some f
        → IsEvidence c t f p
        → f.equivocation ≡ true
    flood_convinces_peers s r empty i d p q f at held mine af v =
        elim (Spreads-Deliveries s r i d p q f at held mine af) [
          | inl conv ↦ conv v
          | inr has ↦ absurd (subst (Has (address q, p)) empty has)
        ]
