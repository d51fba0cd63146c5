-- ===== src/ServerList/Persistence.antt =====
-- Which earlier session `ServerList::getServer` takes a client back to.
use relb.Prelude.{
  ℕ, suc, ◌≤◌, ◌≡◌, ◌≢◌, ◌⊎◌, refl, inl, inr, true, not, ◌&&◌, ◌||◌, Option, none, some, List, [],
  ◌∷◌, get_elem?, ◌==◌, ltb, if_cases, ◌+◌, Option-cases, Bool-cases, arith,
}
use mathlib.Core.Path.{subst}
use native.Mathlib.Nat.{suc-add, add-suc, add-zero}
use relb.Address.{IpAddress, same_ip}
use relb.Status.{connection_failed}
use relb.ServerList.State.{PeerInfo, ServerList}
use relb.ServerList.Sessions.{
  Lost, Session, same_port, lost, no_session, session_server, prefer, find_session,
}

-- None of the client's connections that it may be taken back to changed later than `bound`.
abbrev pub NoneLater : ServerList → IpAddress → (ℕ → ℕ) → ℕ → ℕ → List PeerInfo → Type 0
NoneLater sl client clock bound i [] = Unit {0}
NoneLater sl client clock bound i (p ∷ ps) =
    ((session_server sl client (clock i) p ≡ some none) ⊎ (p.modified ≤ bound))
    × NoneLater sl client clock bound (suc i) ps

pub session_server_status :
    (sl : ServerList) (client : IpAddress) (now : ℕ) (p : PeerInfo) (j : ℕ)
    → session_server sl client now p ≡ some (some j)
    → (p.status ≢ connection_failed) × (same_ip p.src_ip client ≡ true)
unfolding session_server
session_server_status sl client now p j e = ground arith

-- What is preferred so far has not failed.
abbrev Sound : Option Lost → Type 0
Sound none = Unit {0}
Sound (some l) = l.peer.status ≢ connection_failed

abbrev NotAfter : Option Lost → ℕ → Type 0
NotAfter none bound = Unit {0}
NotAfter (some l) bound = l.peer.modified ≤ bound

prefer-Sound :
    (i j : ℕ) (p : PeerInfo) (best : Option Lost)
    → p.status ≢ connection_failed
    → Sound best
    → Sound (prefer i j p best)
unfolding prefer
prefer-Sound i j p none h s = h
prefer-Sound i j p (some l) h s = ground arith

prefer-NotAfter :
    (i j bound : ℕ) (p : PeerInfo) (best : Option Lost)
    → Sound best
    → NotAfter (prefer i j p best) bound
    → NotAfter best bound × (p.modified ≤ bound)
unfolding prefer
prefer-NotAfter i j bound p none s h = (tt, h)
prefer-NotAfter i j bound p (some l) s h = ground arith

module _ (sl : ServerList) (client : IpAddress) (port : ℕ) (clock : ℕ → ℕ) where
  find_session-latest_from :
      (i : ℕ) (best : Option Lost) (ps : List PeerInfo) (l : Lost)
      → Sound best
      → find_session sl client port clock i best ps ≡ some (lost l)
      → NotAfter best l.peer.modified × NoneLater sl client clock l.peer.modified i ps
  unfolding find_session
  find_session-latest_from i none [] l s e = cc
  find_session-latest_from i (some b) [] l s e = ground arith
  find_session-latest_from i best (p ∷ ps) l s e =
      elim (Option-cases (session_server sl client (clock i) p)) [
        | inl n ↦ ground (arith, n, e)
        | inr (none, n) ↦
            let (a, b) = find_session-latest_from (suc i) best ps l s (ground (arith, n)) in
            (a, (inl n, b))
        | inr (some j, f) ↦
            let (ok, _) = session_server_status sl client (clock i) p j f in
            let (a, b) =
              find_session-latest_from (suc i) (prefer i j p best) ps l
                (prefer-Sound i j p best ok s) (ground (arith, f)) in
            let (c, d) = prefer-NotAfter i j l.peer.modified p best s a in (c, (inr d, b))
      ]

  -- When the search for a session of a client ends with one from another port, no connection of the
  -- list that the client may be taken back to (its own, not failed, with a listed server that may
  -- be tried) changed later than that one.
  pub find_session-latest :
      (ps : List PeerInfo) (l : Lost)
      → find_session sl client port clock 0 none ps ≡ some (lost l)
      → NoneLater sl client clock l.peer.modified 0 ps
  find_session-latest ps l e = (find_session-latest_from 0 none ps l tt e).1

-- `P` holds of the index, the server and the connection that a session names.
abbrev pub Names : (ℕ → ℕ → PeerInfo → Type 0) → Session → Type 0
Names P (same_port i j p) = P i j p
Names P (lost l) = P l.index l.server l.peer
Names P no_session = Unit {0}

-- The same of a search that may end in a fault.
abbrev pub NamesIf : (ℕ → ℕ → PeerInfo → Type 0) → Option Session → Type 0
NamesIf P none = Unit {0}
NamesIf P (some x) = Names P x

abbrev pub NamesBest : (ℕ → ℕ → PeerInfo → Type 0) → Option Lost → Type 0
NamesBest P none = Unit {0}
NamesBest P (some l) = P l.index l.server l.peer

pub prefer-NamesBest :
    (P : ℕ → ℕ → PeerInfo → Type 0) (i j : ℕ) (p : PeerInfo) (best : Option Lost)
    → P i j p
    → NamesBest P best
    → NamesBest P (prefer i j p best)
unfolding prefer
prefer-NamesBest P i j p none h b = h
prefer-NamesBest P i j p (some l) h b =
    if_cases (NamesBest P)
      ((ltb l.peer.modified p.modified && not (l.peer.status == connection_failed))
        || l.peer.status == connection_failed)
      {x = some (record { index = i; server = j; peer = p })} {y = some l} h b

module _ (sl : ServerList) (client : IpAddress) (port : ℕ) (clock : ℕ → ℕ)
    (P : ℕ → ℕ → PeerInfo → Type 0) where
  -- What holds of every connection that the client may be taken back to holds of the session found.
  pub find_session-Names :
      (i : ℕ) (best : Option Lost) (ps : List PeerInfo)
      → ((k j : ℕ) (p : PeerInfo)
          → get_elem? ps k ≡ some p
          → session_server sl client (clock (i + k)) p ≡ some (some j)
          → P (i + k) j p)
      → NamesBest P best
      → NamesIf P (find_session sl client port clock i best ps)
  unfolding find_session
  find_session-Names i none [] h b = tt
  find_session-Names i (some l) [] h b = b
  find_session-Names i best (p ∷ ps) h b =
      elim (Option-cases (session_server sl client (clock i) p)) [
        | inl n ↦ simp (find_session, n) tt
        | inr (none, n) ↦
            subst (NamesIf P) {x = find_session sl client port clock (suc i) best ps}
              (ground (arith, n)) (find_session-Names (suc i) best ps rest b)
        | inr (some j, f) ↦ elim (Bool-cases (p.src_port == port)) [
          | inl same ↦
              subst (NamesIf P) {x = some (same_port i j p)} (ground (arith, f, same)) (first j f)
          | inr other ↦
              subst (NamesIf P)
                {x = find_session sl client port clock (suc i) (prefer i j p best) ps}
                (ground (arith, f, other))
                (find_session-Names (suc i) (prefer i j p best) ps rest
                  (prefer-NamesBest P i j p best (first j f) b))
        ]
      ]
    where
      rest :
          (k j : ℕ) (q : PeerInfo)
          → get_elem? ps k ≡ some q
          → session_server sl client (clock (suc i + k)) q ≡ some (some j)
          → P (suc i + k) j q
      rest k j q at e =
          rw (suc-add, ← add-suc i k) (h (suc k) j q at (rw (suc-add, ← add-suc i k) at e))

      first : (j : ℕ) → session_server sl client (clock i) p ≡ some (some j) → P i j p
      first j e = rw add-zero at (h 0 j p refl (rw add-zero e))
