-- ===== src/Api/Hub.antt =====
-- internal/ws/server.go: the hub of WebSocket clients, their channels, and the goroutines of a
-- connection as steps. A client is a number, the count of the clients made before it; a message is what
-- json.Marshal makes of it.
pub mod Keys
pub mod Kept
pub mod Order
pub mod Limit
use raku_sika_hub.Prelude.{
  ℕ, zero, suc, ◌<◌, ◌≤◌, ◌≡◌, ◌+◌, Bool, true, false, ◌||◌, List, [], ◌∷◌, ◌++◌, ltb, max, ◌==◌,
  if◌then◌else◌, length,
}

-- make(chan []byte, 32).
abbrev pub channel_size : ℕ
channel_size = 32

unfoldable pub has_client : ℕ → List ℕ → Bool
has_client c [] = false
has_client c (d ∷ ds) = d == c || has_client c ds

-- delete(h.clients, c), and an assignment to the key.
unfoldable pub delete_client : ℕ → List ℕ → List ℕ
delete_client c [] = []
delete_client c (d ∷ ds) = let rest = delete_client c ds in if d == c then rest else d ∷ rest

unfoldable pub add_client : ℕ → List ℕ → List ℕ
unfolding has_client
add_client c ds = if has_client c ds then ds else c ∷ ds

abbrev pub put_at {ℓ} : {A : Type ℓ} → ℕ → A → (ℕ → A) → ℕ → A
put_at c a f d = if d == c then a else f d

-- The keys of the hub's map, the channel of each client, what conn.Write took for each, the requests
-- between the check of the limit and Register, and the clients made so far.
pub record Server (M : Type 0) : Type 0 where
  pub clients : List ℕ
  pub channels : ℕ → List M
  pub written : ℕ → List M
  pub accepting : ℕ
  pub made : ℕ

-- What was offered to each client, oldest first, and the most requests that were ever between the
-- check and Register.
pub record History (M : Type 0) : Type 0 where
  pub offered : ℕ → List M
  pub peak : ℕ

module _ {M : Type 0} where
  abbrev pub new_server : Server M
  new_server = record {
    clients = [];
    channels = λ c. [];
    written = λ c. [];
    accepting = 0;
    made = 0;
  }

  abbrev pub client_count : Server M → ℕ
  client_count s = length s.clients

  unfoldable pub register : ℕ → Server M → Server M
  unfolding add_client
  register c s = record s { clients = add_client c s.clients }

  unfoldable pub unregister : ℕ → Server M → Server M
  unfolding delete_client
  unregister c s = record s { clients = delete_client c s.clients }

  -- The select of Send and Broadcast: a message for a channel that is full is dropped.
  unfoldable pub offer : M → List M → List M
  offer m channel = if ltb (length channel) channel_size then channel ++ m ∷ [] else channel

  unfoldable pub send : M → ℕ → Server M → Server M
  unfolding offer
  send m c s = record s { channels = put_at c (offer m (s.channels c)) s.channels }

  -- Broadcast: each client of the map in turn.
  unfoldable pub send_each : M → List ℕ → Server M → Server M
  unfolding send
  send_each m [] s = s
  send_each m (c ∷ cs) s = send_each m cs (send m c s)

  unfoldable pub broadcast : M → Server M → Server M
  unfolding send_each
  broadcast m s = send_each m s.clients s

  abbrev pub nothing_yet : History M
  nothing_yet = record { offered = λ c. []; peak = 0 }

  abbrev pub offered_each : M → List ℕ → (ℕ → List M) → ℕ → List M
  offered_each m clients offered c = if has_client c clients then offered c ++ m ∷ [] else offered c

  -- The steps of handleWS, of the write pump, and of those that send. A step of a connection's write
  -- pump is taken while the client is registered: it unregisters when it ends.
  pub data Step (max_clients : ℕ) : History M → Server M → History M → Server M → Type 0 where
    check :
        {h : History M} {s : Server M}
        → client_count s < max_clients
        → Step max_clients h s
            (record h { peak = max h.peak (suc s.accepting) })
            (record s { accepting = suc s.accepting })
    reject :
        {h : History M} {s : Server M} → max_clients ≤ client_count s → Step max_clients h s h s
    accept_fails :
        {h : History M} {s : Server M} (n : ℕ)
        → s.accepting ≡ suc n
        → Step max_clients h s h (record s { accepting = n })
    connect :
        {h : History M} {s : Server M} (n : ℕ)
        → s.accepting ≡ suc n
        → Step max_clients h s h (register s.made (record s { accepting = n; made = suc s.made }))
    reply :
        {h : History M} {s : Server M} (m : M) (c : ℕ)
        → c < s.made
        → Step max_clients h s
            (record h { offered = put_at c (h.offered c ++ m ∷ []) h.offered })
            (send m c s)
    publish :
        {h : History M} {s : Server M} (m : M)
        → Step max_clients h s
            (record h { offered = offered_each m s.clients h.offered })
            (broadcast m s)
    pump :
        {h : History M} {s : Server M} (m : M) (rest : List M) (c : ℕ)
        → has_client c s.clients ≡ true
        → s.channels c ≡ m ∷ rest
        → Step max_clients h s h (record s {
          channels = put_at c rest s.channels;
          written = put_at c (s.written c ++ m ∷ []) s.written;
        })
    pump_fails :
        {h : History M} {s : Server M} (m : M) (rest : List M) (c : ℕ)
        → has_client c s.clients ≡ true
        → s.channels c ≡ m ∷ rest
        → Step max_clients h s h (unregister c (record s { channels = put_at c rest s.channels }))
    leave : {h : History M} {s : Server M} (c : ℕ) → Step max_clients h s h (unregister c s)

  pub data Reachable (max_clients : ℕ) : History M → Server M → Type 0 where
    start : Reachable max_clients nothing_yet new_server
    next :
        {h h' : History M} {s s' : Server M}
        → Reachable max_clients h s
        → Step max_clients h s h' s'
        → Reachable max_clients h' s'
