-- ===== src/Admin/Mirror.antt =====
-- The lists of the administration (src/AdminHTTPServer.cpp) beside those of the list of servers
-- (src/ServerList.cpp), while the same messages change both.
use relb.Prelude.{ℕ, suc, ◌-◌, ◌≡◌, refl, ap, Bool-cases, inl, inr, List, [], ◌∷◌, ◌==◌, Zip}
use relb.Address.{IpAddress}
use relb.Status.{connection_failed, peer_disconnected, has}
use relb.ServerList.State.{ServerInfo, PeerInfo, ServerList}
use relb.ServerList.Messages.{
  server_at, other_connected, note_failure, leave, keep_count, establish,
}
use relb.Admin.State.{AdminServer}

-- The copy of a connection.
pub record IsTwin (p q : PeerInfo) : Type 0 where
  pub src : p.src_ip ≡ q.src_ip
  pub dst : p.dst_ip ≡ q.dst_ip
  pub dst_port : p.dst_port ≡ q.dst_port
  pub status : p.status ≡ q.status

-- A server with the same counters.
pub record IsAlike (s t : ServerInfo) : Type 0 where
  pub ip : s.ip ≡ t.ip
  pub port : s.port ≡ t.port
  pub connecting : s.connecting ≡ t.connecting
  pub connected : s.connected ≡ t.connected
  pub finished : s.finished ≡ t.finished
  pub disconnected : s.disconnected ≡ t.disconnected
  pub failed : s.last_connection_failed ≡ t.last_connection_failed

pub record Mirrors (sl : ServerList) (a : AdminServer) : Type 0 where
  pub peers : Zip IsTwin sl.peers a.peers
  pub servers : Zip IsAlike sl.servers a.servers

pub server_at-Zip :
    (ip : IpAddress) (port i : ℕ) (ss ts : List ServerInfo)
    → Zip IsAlike ss ts
    → server_at ip port i ss ≡ server_at ip port i ts
unfolding server_at
server_at-Zip ip port i [] [] z = refl
server_at-Zip ip port i [] (t ∷ ts) z = absurd z
server_at-Zip ip port i (s ∷ ss) [] z = absurd z
server_at-Zip ip port i (s ∷ ss) (t ∷ ts) z =
    rw (z.0.ip, z.0.port, server_at-Zip ip port (suc i) ss ts z.1) refl

pub other_connected-Zip :
    (ip : IpAddress) (skip i : ℕ) (ps qs : List PeerInfo)
    → Zip IsTwin ps qs
    → other_connected ip skip i ps ≡ other_connected ip skip i qs
unfolding other_connected
other_connected-Zip ip skip i [] [] z = refl
other_connected-Zip ip skip i [] (q ∷ qs) z = absurd z
other_connected-Zip ip skip i (p ∷ ps) [] z = absurd z
other_connected-Zip ip skip i (p ∷ ps) (q ∷ qs) z =
    rw (z.0.status, z.0.src, other_connected-Zip ip skip (suc i) ps qs z.1) refl

pub note_failure-IsAlike :
    (id now now' : ℕ) (s t : ServerInfo)
    → IsAlike s t
    → IsAlike (note_failure id now s) (note_failure id now' t)
note_failure-IsAlike id now now' s t v = elim (Bool-cases (id == connection_failed)) [
  | inl e ↦ rw e (record {
    ip = v.ip;
    port = v.port;
    connecting = v.connecting;
    connected = v.connected;
    finished = v.finished;
    disconnected = v.disconnected;
    failed = refl;
  })
  | inr e ↦ rw e v
]

pub leave-IsAlike : (id : ℕ) (s t : ServerInfo) → IsAlike s t → IsAlike (leave id s) (leave id t)
leave-IsAlike id s t v = elim (Bool-cases (has id connection_failed)) [
  | inl e ↦ rw e (record {
    ip = v.ip;
    port = v.port;
    connecting = ap (λ n. n - 1) v.connecting;
    connected = v.connected;
    finished = v.finished;
    disconnected = v.disconnected;
    failed = v.failed;
  })
  | inr e ↦ rw e (record {
    ip = v.ip;
    port = v.port;
    connecting = v.connecting;
    connected = ap (λ n. n - 1) v.connected;
    finished = v.finished;
    disconnected = v.disconnected;
    failed = v.failed;
  })
]

pub keep_count-IsAlike :
    (id : ℕ) (s t : ServerInfo) → IsAlike s t → IsAlike (keep_count id s) (keep_count id t)
keep_count-IsAlike id s t v = elim (Bool-cases (has id peer_disconnected)) [
  | inl e ↦ rw e (record {
    ip = v.ip;
    port = v.port;
    connecting = v.connecting;
    connected = v.connected;
    finished = v.finished;
    disconnected = ap suc v.disconnected;
    failed = v.failed;
  })
  | inr e ↦ rw e (record {
    ip = v.ip;
    port = v.port;
    connecting = v.connecting;
    connected = v.connected;
    finished = ap suc v.finished;
    disconnected = v.disconnected;
    failed = v.failed;
  })
]

pub establish-IsAlike :
    (now now' : ℕ) (s t : ServerInfo) → IsAlike s t → IsAlike (establish now s) (establish now' t)
establish-IsAlike now now' s t v = record {
  ip = v.ip;
  port = v.port;
  connecting = ap (λ n. n - 1) v.connecting;
  connected = ap suc v.connected;
  finished = v.finished;
  disconnected = v.disconnected;
  failed = refl;
}
