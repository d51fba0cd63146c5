-- ===== src/ServerList/Searched.antt =====
-- The search of `ServerList::getServer` for a session reads no server beyond the list, and the server of the
-- session that it finds is one of the list (src/ServerList.cpp).
use relb.Prelude.{
  ℕ, zero, suc, ◌≤◌, ◌<◌, ◌≡◌, refl, not, ◌&&◌, Bool-cases, inl, inr, Option, none, some, List, [],
  ◌∷◌, length, get_elem?-lt, ltb, ◌+◌, ◌==◌, arith,
}
use relb.Address.{IpAddress, same_ip}
use relb.Status.{connection_failed}
use relb.ServerList.State.{ServerInfo, PeerInfo, ServerList}
use relb.ServerList.Sessions.{
  Lost, Session, same_port, to_session, find_server, discard_failed, session_server, prefer,
  find_session,
}
use relb.ServerList.Persistence.{Names, NamesBest, prefer-NamesBest}

-- An index below `n`, if there is one.
abbrev Below : ℕ → Option ℕ → Type 0
Below n none = Unit
Below n (some j) = j < n

Below-mono : (m n : ℕ) (o : Option ℕ) → m ≤ n → Below m o → Below n o
Below-mono m n none h v = tt
Below-mono m n (some j) h v = omega (arith, h, v)

find_server-Below :
    (servers : List ServerInfo) (ip : IpAddress) (n : ℕ)
    → n ≤ length servers
    → (o : Option ℕ) × (find_server servers ip n ≡ some o) × Below n o
unfolding find_server
find_server-Below servers ip zero h = (none, refl, tt)
find_server-Below servers ip (suc n) h =
    let (s, at) = get_elem?-lt servers n (omega (arith, h)) in
    let (o, e, v) = find_server-Below servers ip n (omega (arith, h)) in
    elim (Bool-cases (same_ip s.ip ip)) [
      | inl b ↦ (some n, rw (find_server, at, b) refl, omega arith)
      | inr b ↦ (o, rw (find_server, at, b) e, Below-mono n (suc n) o (omega arith) v)
    ]

discard_failed-Below :
    (sl : ServerList) (now : ℕ) (o : Option ℕ)
    → Below (length sl.servers) o
    → (q : Option ℕ) × (discard_failed sl now o ≡ some q) × Below (length sl.servers) q
unfolding discard_failed
discard_failed-Below sl now none v = (none, refl, tt)
discard_failed-Below sl now (some j) v =
    let (s, at) = get_elem?-lt sl.servers j v in
    elim (Bool-cases (
      s.last_connection_failed
      && ltb now (s.last_connection_attempt + sl.server_retry_milliseconds))) [
        | inl b ↦ (none, rw (discard_failed, at, b) refl, tt)
        | inr b ↦ (some j, rw (discard_failed, at, b) refl, v)
      ]

session_server-Below :
    (sl : ServerList) (client : IpAddress) (now : ℕ) (p : PeerInfo)
    → (q : Option ℕ) × (session_server sl client now p ≡ some q) × Below (length sl.servers) q
unfolding session_server
session_server-Below sl client now p =
    elim (Bool-cases (same_ip p.src_ip client && not (p.status == connection_failed))) [
      | inl b ↦
          let (o, e, v) = find_server-Below sl.servers p.dst_ip (length sl.servers) (omega arith) in
          let (q, f, w) = discard_failed-Below sl now o v in (q, rw (b, e) f, w)
      | inr b ↦ (none, rw b refl, tt)
    ]

-- The server of a session.
abbrev pub Listed : ServerList → ℕ → ℕ → PeerInfo → Type 0
Listed sl i j p = j < length sl.servers

to_session-Names :
    (P : ℕ → ℕ → PeerInfo → Type 0) (best : Option Lost)
    → NamesBest P best
    → Names P (to_session best)
to_session-Names P none v = tt
to_session-Names P (some l) v = v

pub find_session-Listed :
    (sl : ServerList) (client : IpAddress) (port : ℕ) (clock : ℕ → ℕ) (i : ℕ) (best : Option Lost)
    (ps : List PeerInfo)
    → NamesBest (Listed sl) best
    → (x : Session) × (find_session sl client port clock i best ps ≡ some x) × Names (Listed sl) x
unfolding find_session
find_session-Listed sl client port clock i best [] v =
    (to_session best, refl, to_session-Names (Listed sl) best v)
find_session-Listed sl client port clock i best (p ∷ ps) v =
    let (o, e, w) = session_server-Below sl client (clock i) p in
    elim o
        as (λ o.
          (session_server sl client (clock i) p ≡ some o)
          → Below (length sl.servers) o
          → (x : Session) × (find_session sl client port clock i best (p ∷ ps) ≡ some x)
            × Names (Listed sl) x) [
              | none ↦ λ e w.
                  let (x, f, u) = find_session-Listed sl client port clock (suc i) best ps v in
                  (x, rw e f, u)
              | some j ↦ λ e w. elim (Bool-cases (p.src_port == port)) [
                | inl b ↦ (same_port i j p, rw (e, b) refl, w)
                | inr b ↦
                    let (x, f, u) =
                      find_session-Listed sl client port clock (suc i) (prefer i j p best) ps
                        (prefer-NamesBest (Listed sl) i j p best w v) in
                    (x, rw (e, b) f, u)
              ]
            ]
      e w
