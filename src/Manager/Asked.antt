-- ===== src/Manager/Asked.antt =====
-- That `select` is asked about every socket with a reason (`execute` of src/ThreadedConnectionManager.cpp).
use relb.Prelude.{
  All, All-map, ◌≡◌, refl, Bool, true, false, ◌⊎◌, inl, inr, Option, some, none, List, [], ◌∷◌,
  if_cases,
}
use relb.Prelude.Int.{ℤ, pos, ltb_ℤ}
use relb.Socket.{Socket, descriptor}
use relb.Socket
use relb.ControlSocket.{ControlSocket}
use relb.ControlSocket
use relb.Connection.Peer.{Peer}
use relb.Connection.Interest.{add_to_fdset_r, add_to_fdset_w, add_to_fdset_c}
use relb.Manager.Rounds.{Manager}
use relb.Manager.Watch.{
  Sets, put, reading, watch, watch_connecting, watch_all, watched, Covers, watched-Covers,
}

-- A descriptor of a set.
abbrev pub Has : ℤ → List ℤ → Type 0
Has fd [] = ⊥
Has fd (x ∷ xs) = (x ≡ fd) ⊎ Has fd xs

-- A socket, if there is one and a reason to watch it.
abbrev pub Asked : Bool → Option Socket → List ℤ → Type 0
Asked true (some s) set = Has (descriptor s) set
Asked _ _ set = Unit

abbrev Within : List ℤ → List ℤ → Type 0
Within xs ys = (fd : ℤ) → Has fd xs → Has fd ys

Asked-Within :
    (b : Bool) (s : Option Socket) (xs ys : List ℤ) → Within xs ys → Asked b s xs → Asked b s ys
Asked-Within true (some s) xs ys w v = w (descriptor s) v
Asked-Within true none xs ys w v = tt
Asked-Within false s xs ys w v = tt

put-Within : (b : Bool) (s : Option Socket) (t : List ℤ × ℤ) → Within t.0 (put b s t).0
unfolding Socket.add_to_fdset
put-Within true (some s) t fd h = inr h
put-Within true none t fd h = h
put-Within false s t fd h = h

put-Asked : (b : Bool) (s : Option Socket) (t : List ℤ × ℤ) → Asked b s (put b s t).0
unfolding Socket.add_to_fdset
put-Asked true (some s) t = inl refl
put-Asked true none t = tt
put-Asked false s t = tt

control-Within :
    (c : ControlSocket) (t : List ℤ × ℤ) → Within t.0 (ControlSocket.add_to_fdset c t).0
unfolding ControlSocket.add_to_fdset
control-Within c t fd h =
    if_cases (λ (r : List ℤ × ℤ). Has fd r.0) (ltb_ℤ (pos 0) c.read_end) (inr h) h

control-Has :
    (c : ControlSocket) (t : List ℤ × ℤ)
    → ltb_ℤ (pos 0) c.read_end ≡ true
    → Has c.read_end (ControlSocket.add_to_fdset c t).0
unfolding ControlSocket.add_to_fdset
control-Has c t e = simp (ControlSocket.add_to_fdset, e) (inl refl)

-- Sets that have at least the same.
record Extends (s t : Sets) : Type 0 where
  readable : Within s.readable t.readable
  writable : Within s.writable t.writable

-- What `addToFDSETR` and `addToFDSETW` ask for.
pub record Asks (p : Peer) (s : Sets) : Type 0 where
  pub client_reads : Asked (add_to_fdset_r p).0 p.client s.readable
  pub server_reads : Asked (add_to_fdset_r p).1 p.server s.readable
  pub client_writes : Asked (add_to_fdset_w p).0 p.client s.writable
  pub server_writes : Asked (add_to_fdset_w p).1 p.server s.writable

-- What `addToFDSETC` asks for.
pub record AsksConnecting (p : Peer) (s : Sets) : Type 0 where
  pub client_reads : Asked (add_to_fdset_c p).0 p.client s.readable
  pub server_writes : Asked (add_to_fdset_c p).1 p.server s.writable

watch-Extends : (p : Peer) (s : Sets) → Extends s (watch p s)
unfolding watch
watch-Extends p s =
    let r = add_to_fdset_r p in
    let w = add_to_fdset_w p in
    record {
      readable = λ fd h.
          put-Within r.1 p.server (put r.0 p.client (s.readable, s.max_fd)) fd
            (put-Within r.0 p.client (s.readable, s.max_fd) fd h);
      writable = λ fd h. put-Within w.1 p.server _ fd (put-Within w.0 p.client _ fd h);
    }

watch-Asks : (p : Peer) (s : Sets) → Asks p (watch p s)
unfolding watch
watch-Asks p s =
    let r = add_to_fdset_r p in
    let w = add_to_fdset_w p in
    record {
      client_reads =
          Asked-Within r.0 p.client _ _ (put-Within r.1 p.server _) (put-Asked r.0 p.client _);
      server_reads = put-Asked r.1 p.server _;
      client_writes =
          Asked-Within w.0 p.client _ _ (put-Within w.1 p.server _) (put-Asked w.0 p.client _);
      server_writes = put-Asked w.1 p.server _;
    }

watch_connecting-Extends : (p : Peer) (s : Sets) → Extends s (watch_connecting p s)
unfolding watch_connecting
watch_connecting-Extends p s = record {
  readable = put-Within (add_to_fdset_c p).0 p.client _;
  writable = put-Within (add_to_fdset_c p).1 p.server _;
}

watch_connecting-AsksConnecting : (p : Peer) (s : Sets) → AsksConnecting p (watch_connecting p s)
unfolding watch_connecting
watch_connecting-AsksConnecting p s = record {
  client_reads = put-Asked (add_to_fdset_c p).0 p.client _;
  server_writes = put-Asked (add_to_fdset_c p).1 p.server _;
}

then-Extends : (a b c : Sets) → Extends a b → Extends b c → Extends a c
then-Extends a b c v w = record {
  readable = λ fd h. w.readable fd (v.readable fd h);
  writable = λ fd h. w.writable fd (v.writable fd h);
}

Asks-Extends : (p : Peer) (s t : Sets) → Extends s t → Asks p s → Asks p t
Asks-Extends p s t e v = record {
  client_reads = Asked-Within _ p.client _ _ e.readable v.client_reads;
  server_reads = Asked-Within _ p.server _ _ e.readable v.server_reads;
  client_writes = Asked-Within _ p.client _ _ e.writable v.client_writes;
  server_writes = Asked-Within _ p.server _ _ e.writable v.server_writes;
}

AsksConnecting-Extends :
    (p : Peer) (s t : Sets) → Extends s t → AsksConnecting p s → AsksConnecting p t
AsksConnecting-Extends p s t e v = record {
  client_reads = Asked-Within _ p.client _ _ e.readable v.client_reads;
  server_writes = Asked-Within _ p.server _ _ e.writable v.server_writes;
}

module _ (f : Peer → Sets → Sets) (P : Peer → Sets → Type 0)
    (grows : (p : Peer) (s : Sets) → Extends s (f p s)) (asks : (p : Peer) (s : Sets) → P p (f p s))
    (stays : (p : Peer) (s t : Sets) → Extends s t → P p s → P p t) where
  watch_all-Extends : (ps : List Peer) (s : Sets) → Extends s (watch_all f ps s)
  unfolding watch_all
  watch_all-Extends [] s = record { readable = λ fd h. h; writable = λ fd h. h }
  watch_all-Extends (p ∷ ps) s =
      then-Extends s (f p s) (watch_all f ps (f p s)) (grows p s) (watch_all-Extends ps (f p s))

  watch_all-All : (ps : List Peer) (s : Sets) → All (λ p. P p (watch_all f ps s)) ps
  unfolding watch_all
  watch_all-All [] s = tt
  watch_all-All (p ∷ ps) s = (
    stays p (f p s) (watch_all f ps (f p s)) (watch_all-Extends ps (f p s)) (asks p s),
    watch_all-All ps (f p s),
  )

control-Extends :
    (c : ControlSocket) (s : Sets) → Extends s (reading (ControlSocket.add_to_fdset c) s)
control-Extends c s = record { readable = control-Within c _; writable = λ fd h. h }

-- `select` is asked about the descriptors up to the highest: none of the two sets is above it,
-- whatever connections the manager has. The sets have every socket with a reason: each side of a
-- connection that `addToFDSETR` or `addToFDSETW` asks for, each of a connection that is being made
-- that `addToFDSETC` asks for, and the control socket if its descriptor is above 0.
pub watched_complete :
    (c : ControlSocket) (m : Manager)
    → Covers (watched c m)
      × All (λ p. Asks p (watched c m)) m.peers
      × All (λ p. AsksConnecting p (watched c m)) m.connecting
      × (ltb_ℤ (pos 0) c.read_end ≡ true → Has c.read_end (watched c m).readable)
unfolding watched
watched_complete c m =
    let start : Sets = record { readable = []; writable = []; max_fd = pos 0 } in
    let first = watch_all watch m.peers start in
    let second = watch_all watch_connecting m.connecting first in
    let last = reading (ControlSocket.add_to_fdset c) second in
    let end = control-Extends c second in
    (
      watched-Covers c m,
      All-map _ _ m.peers
          (λ p. Asks-Extends p first last (
            then-Extends first second last
              (watch_all-Extends watch_connecting AsksConnecting watch_connecting-Extends
                watch_connecting-AsksConnecting AsksConnecting-Extends m.connecting first)
              end))
          (watch_all-All watch Asks watch-Extends watch-Asks Asks-Extends m.peers start),
      All-map _ _ m.connecting (λ p. AsksConnecting-Extends p second last end)
          (watch_all-All watch_connecting AsksConnecting watch_connecting-Extends
            watch_connecting-AsksConnecting AsksConnecting-Extends m.connecting first),
      λ e. control-Has c (second.readable, second.max_fd) e,
    )
