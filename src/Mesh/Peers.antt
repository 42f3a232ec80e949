-- ===== src/Mesh/Peers.antt =====
-- src/verifier/cmd/he-witness/main.go: the peers that the flags pin.
use open_opticon.Common.{List, map}
use open_opticon.Common.Bytes.{Bytes}
use open_opticon.Mesh.{Peer}

abbrev names : List Peer → List Bytes
names peers = map (λ p. p.name) peers
