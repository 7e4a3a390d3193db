-- ===== src/Tacacs/Connections.antt =====
-- The connection limits of naco/tacacs/server.py: `TacacsServer._handle` at the opening and at the
-- end of a connection.
use naco.Base.{
  Bool, Dict, Option, String, ap, arith, false, get, get-pop, get-put, if◌then◌else◌, leb, none,
  or_else, pop, put, refl, some, str_eq, subst, true, ℕ, ◌+◌, ◌-◌, ◌==◌, ◌||◌, ◌≡◌, ◌≤◌,
}

pub record TacacsServer : Type 0 where
  pub max_connections : ℕ
  pub max_per_client : ℕ
  pub total : ℕ
  pub per_client : Dict ℕ

unfoldable pub connections : TacacsServer → String → ℕ
connections s ip = or_else (get s.per_client ip) 0

-- the connection is counted, or refused at a limit
pub open_connection : TacacsServer → String → Option TacacsServer
unfolding connections
open_connection s ip =
    if leb s.max_connections s.total || leb s.max_per_client (connections s ip)
    then none
    else some
        (record s { total = s.total + 1; per_client = put s.per_client ip (connections s ip + 1) })

-- the `finally` block
pub close_connection : TacacsServer → String → TacacsServer
unfolding connections
close_connection s ip = record s {
  total = s.total - 1;
  per_client =
      if connections s ip - 1 == 0
      then pop s.per_client ip
      else put s.per_client ip (connections s ip - 1);
}

-- each client within its limit, and all together
unfoldable pub IsWithin : TacacsServer → Type 0
IsWithin s = (s.total ≤ s.max_connections) × ((ip : String) → connections s ip ≤ s.max_per_client)

connections-put :
    (d : Dict ℕ) (ip other : String) (n : ℕ)
    → or_else (get (put d ip n) other) 0 ≡ (if str_eq ip other then n else or_else (get d other) 0)
connections-put d ip other n = ground (arith, get-put d ip other n)

connections-pop :
    (d : Dict ℕ) (ip other : String)
    → or_else (get (pop d ip) other) 0 ≡ (if str_eq ip other then 0 else or_else (get d other) 0)
connections-pop d ip other = ground (arith, get-pop d ip other)

admitted-eq :
    (b : Bool) (x t : TacacsServer)
    → (let o : Option TacacsServer = if b then none else some x in o) ≡ some t
    → (b ≡ false) × (x ≡ t)
admitted-eq true x t h = ground arith
admitted-eq false x t h = (refl, ap (λ o. or_else o x) {x = some x} {y = some t} h)

open_connection-IsWithin :
    (s t : TacacsServer) (ip : String) → IsWithin s → open_connection s ip ≡ some t → IsWithin t
unfolding IsWithin open_connection connections
open_connection-IsWithin s t ip h e =
    let n = connections s ip in
    let x : TacacsServer = record s {
      total = s.total + 1;
      per_client = put s.per_client ip (n + 1);
    } in
    let (g, k) = admitted-eq (leb s.max_connections s.total || leb s.max_per_client n) x t e in
    subst IsWithin k (
      ground (arith, g),
      λ other. rw (connections-put s.per_client ip other (n + 1)) (ground (arith, g, h.1 other)),
    )

close_connection-IsWithin :
    (s : TacacsServer) (ip : String) → IsWithin s → IsWithin (close_connection s ip)
unfolding IsWithin close_connection connections
close_connection-IsWithin s ip h = (
  omega (arith, h.0),
  λ other. ground (
    arith,
    connections-put s.per_client ip other (connections s ip - 1),
    connections-pop s.per_client ip other,
    h.1 ip,
    h.1 other,
  ),
)

-- The limits hold at all times: opening a connection, when it is not refused, and closing one keep
-- the total within its limit and every client within its own.
pub connection-IsWithin :
    (s : TacacsServer) (ip : String)
    → IsWithin s
    → ((t : TacacsServer) → open_connection s ip ≡ some t → IsWithin t)
      × IsWithin (close_connection s ip)
connection-IsWithin s ip h =
    (λ t. open_connection-IsWithin s t ip h, close_connection-IsWithin s ip h)
