-- ===== src/RateLimit/Totals.antt =====
-- Connection counts of internal/validation/ratelimit.go under insertion and clean-up.
use frontend_router_mcp.Base.{
  ℕ, ◌+◌, ◌≡◌, refl, arith, String, if◌then◌else◌, [], ◌∷◌, Option, none, some, Dict, lookup,
  insert, str_eq,
}
use frontend_router_mcp.RateLimit.{
  ClientRateLimit, get_total_connections, count_connections_for_ip, remove_expired,
}

module _ {L : Type 0} where
  -- The connections of a client that may be missing, all of them or those under one address.
  abbrev pub count_of : Option (ClientRateLimit L) → ℕ
  count_of none = 0
  count_of (some c) = c.connection_count

  abbrev pub count_at : String → Option (ClientRateLimit L) → ℕ
  count_at ip none = 0
  count_at ip (some c) = if str_eq c.ip ip then c.connection_count else 0

  pub get_total_connections-insert :
      (k : String) (c : ClientRateLimit L) (m : Dict (ClientRateLimit L))
      → get_total_connections (insert k c m) + count_of (lookup k m)
        ≡ get_total_connections m + c.connection_count
  unfolding get_total_connections insert lookup
  get_total_connections-insert k c [] = omega arith
  get_total_connections-insert k c ((j, d) ∷ m) = ground (arith, get_total_connections-insert k c m)

  pub count_connections_for_ip-insert :
      (ip k : String) (c : ClientRateLimit L) (m : Dict (ClientRateLimit L))
      → count_connections_for_ip ip (insert k c m) + count_at ip (lookup k m)
        ≡ count_connections_for_ip ip m + count_at ip (some c)
  unfolding count_connections_for_ip insert lookup
  count_connections_for_ip-insert ip k c [] = omega arith
  count_connections_for_ip-insert ip k c ((j, d) ∷ m) =
      ground (arith, count_connections_for_ip-insert ip k c m)

  pub get_total_connections-remove_expired :
      (expiry now : ℕ) (m : Dict (ClientRateLimit L))
      → get_total_connections (remove_expired expiry now m) ≡ get_total_connections m
  unfolding get_total_connections remove_expired
  get_total_connections-remove_expired expiry now [] = refl
  get_total_connections-remove_expired expiry now ((k, c) ∷ m) =
      ground (arith, get_total_connections-remove_expired expiry now m)
