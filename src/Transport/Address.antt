-- ===== src/Transport/Address.antt =====
-- `std::net::SocketAddr`, the key by which BasisRustServer/crates/basis-transport/src/lib.rs finds
-- the peer of a datagram.
use basis_rust_server.Common.{ℕ, ℕ_discrete}
use basis_rust_server.Common.Maps.{Key}
use basis_rust_server.Common.Words.{Bytes}

-- The octets of an address, first one first.
pub data IpAddr : Type 0 where
  v4 v6 : Bytes → IpAddr

pub data SocketAddr : Type 0 where
  socket_addr : IpAddr → ℕ → SocketAddr

pub SocketAddr-discrete : Discrete SocketAddr
SocketAddr-discrete = hlevel ℕ_discrete

instance abbrev pub socket_addr_key : Key SocketAddr
socket_addr_key = record { same = SocketAddr-discrete }
