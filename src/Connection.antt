-- ===== src/Connection.antt =====
-- `SetConnection` (src/bittorrentsession.cpp): the range of ports to listen on.
use bitswash.Prelude.{
  ℕ, ◌+◌, ◌≤◌, ltb, ◌||◌, ◌≡◌, refl, ◌⊎◌, inl, inr, arith, if◌then◌else◌, Bool-cases,
}

-- `m_portmin` and `m_portmax` are `unsigned int`, so that the tests for `< 0` never hold where
-- `long` is wider than that.
pub record Ports : Type 0 where
  pub port_min : ℕ
  pub port_max : ℕ

abbrev lower : Ports → ℕ
lower p = if ltb 65_535 p.port_min then 6_881 else p.port_min

unfoldable pub set_connection : Ports → Ports
set_connection p = record {
  port_min = lower p;
  port_max = if ltb 65_535 p.port_max || ltb p.port_max (lower p) then lower p + 8 else p.port_max;
}

-- A range of ports, which may end beyond the last port only where it was completed.
pub record IsRange (p : Ports) : Type 0 where
  pub low : p.port_min ≤ 65_535
  pub ordered : p.port_min ≤ p.port_max
  pub high : (p.port_max ≤ 65_535) ⊎ (p.port_max ≡ p.port_min + 8)

-- Whatever ports the configuration has, the range that `SetConnection` leaves is not empty,
-- starts at a port, and ends at a port or 8 above its start.
pub set_connection-IsRange : (p : Ports) → IsRange (set_connection p)
unfolding set_connection
set_connection-IsRange p = record {
  low = ground arith;
  ordered = ground arith;
  high = elim (Bool-cases (ltb 65_535 p.port_max || ltb p.port_max (lower p))) [
    | inl e ↦ inr (rw e refl)
    | inr e ↦ inl (ground (arith, e))
  ];
}

-- If the lower port is at most 65527, a second `SetConnection` changes nothing.
pub set_connection-idempotent :
    (p : Ports) → p.port_min ≤ 65_527 → set_connection (set_connection p) ≡ set_connection p
unfolding set_connection
set_connection-idempotent p h = ground arith
