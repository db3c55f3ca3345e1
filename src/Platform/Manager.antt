-- ===== src/Platform/Manager.antt =====
-- `ConnectionManager` of platform/src/ws/manager.py. A WebSocket is a number; `fails` tells on which
-- of them `send_json` raises. `broadcast_event` is `broadcast`.
use Prim.Native.String.{String}
use rose_esp.Prelude.{ℕ, Bool, Option, List, [], ◌∷◌, length, map, if◌then◌else◌}
use rose_esp.Prelude.Eq.{nat_eq}
use rose_esp.Prelude.Dict.{Dict, get, put, remove}

-- `_clients`, and what was sent to whom, the last first.
pub record ConnectionManager (M : Type 0) : Type 0 where
  pub clients : Dict ℕ String
  pub sent : List (ℕ × M)

module _ {M : Type 0} where
  abbrev pub new : ConnectionManager M
  new = record { clients = []; sent = [] }

  unfoldable pub active_count : ConnectionManager M → ℕ
  active_count m = length m.clients

  unfoldable pub connect : ℕ → String → ConnectionManager M → ConnectionManager M
  connect ws role m = record m { clients = put m.clients ws role }

  unfoldable pub disconnect : ℕ → ConnectionManager M → ConnectionManager M
  disconnect ws m = record m { clients = remove m.clients ws }

  unfoldable pub role_of : ℕ → ConnectionManager M → Option String
  role_of ws m = get m.clients ws

  module _ (fails : ℕ → Bool) where
    -- The loop over the snapshot.
    unfoldable pub send_to : List ℕ → M → ConnectionManager M → ConnectionManager M
    send_to [] d m = m
    send_to (ws ∷ rest) d m =
        send_to rest d (if fails ws then disconnect ws m else record m { sent = (ws, d) ∷ m.sent })

    unfoldable pub broadcast : M → ConnectionManager M → ConnectionManager M
    broadcast d m = send_to (map (λ c. c.0) m.clients) d m
