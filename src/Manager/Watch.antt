-- ===== src/Manager/Watch.antt =====
-- The sets that a manager's thread gives to `select` (`execute` of src/ThreadedConnectionManager.cpp, with
-- ENABLE_SELECT_NFDS_CALC, which src/utiles.h defines).
use relb.Prelude.{
  All, All-map, ◌≡◌, Bool, true, false, inl, inr, Bool-cases, Option, none, some, List, [], ◌∷◌,
  if◌then◌else◌, arith,
}
use relb.Prelude.Int.{ℤ, pos, ltb_ℤ, leb_ℤ}
use relb.Socket.{Socket, descriptor}
use relb.Socket
use relb.ControlSocket.{ControlSocket}
use relb.ControlSocket
use relb.Connection.Peer.{Peer}
use relb.Connection.Interest.{add_to_fdset_r, add_to_fdset_w, add_to_fdset_c}
use relb.Manager.Rounds.{Manager}

-- `setr`, `setw` and `max_fd`.
pub record Sets : Type 0 where
  pub readable : List ℤ
  pub writable : List ℤ
  pub max_fd : ℤ

abbrev pub put : Bool → Option Socket → List ℤ × ℤ → List ℤ × ℤ
put true (some s) t = Socket.add_to_fdset s t
put _ _ t = t

abbrev pub both : Bool × Bool → Peer → List ℤ × ℤ → List ℤ × ℤ
both (client, server) p t = put server p.server (put client p.client t)

abbrev pub reading : (List ℤ × ℤ → List ℤ × ℤ) → Sets → Sets
reading f s = let (set, max) = f (s.readable, s.max_fd) in record s { readable = set; max_fd = max }

abbrev pub writing : (List ℤ × ℤ → List ℤ × ℤ) → Sets → Sets
writing f s = let (set, max) = f (s.writable, s.max_fd) in record s { writable = set; max_fd = max }

-- The sockets of a connection, by `addToFDSETR` and `addToFDSETW`.
unfoldable pub watch : Peer → Sets → Sets
unfolding add_to_fdset_r add_to_fdset_w Socket.add_to_fdset
watch p s = writing (both (add_to_fdset_w p) p) (reading (both (add_to_fdset_r p) p) s)

-- By `addToFDSETC`.
unfoldable pub watch_connecting : Peer → Sets → Sets
unfolding add_to_fdset_c Socket.add_to_fdset
watch_connecting p s =
    writing (put (add_to_fdset_c p).1 p.server) (reading (put (add_to_fdset_c p).0 p.client) s)

unfoldable pub watch_all : (Peer → Sets → Sets) → List Peer → Sets → Sets
watch_all f [] s = s
watch_all f (p ∷ ps) s = watch_all f ps (f p s)

-- What is given to `select`, after the connections without a side are gone.
unfoldable pub watched : ControlSocket → Manager → Sets
unfolding watch watch_connecting watch_all ControlSocket.add_to_fdset
watched c m = reading (ControlSocket.add_to_fdset c) (
    watch_all watch_connecting m.connecting
      (watch_all watch m.peers (record { readable = []; writable = []; max_fd = pos 0 })))

-- No descriptor of a set is above the highest.
abbrev pub Below : ℤ → List ℤ → Type 0
Below max = All (λ fd. leb_ℤ fd max ≡ true)

pub record Covers (s : Sets) : Type 0 where
  pub readable : Below s.max_fd s.readable
  pub writable : Below s.max_fd s.writable

Below-le : (a b : ℤ) (set : List ℤ) → leb_ℤ a b ≡ true → Below a set → Below b set
Below-le a b set h =
    All-map (λ fd. leb_ℤ fd a ≡ true) (λ fd. leb_ℤ fd b ≡ true) set (λ fd l. ground arith)

-- A step that puts descriptors into one set.
pub record Grows (f : List ℤ × ℤ → List ℤ × ℤ) : Type 0 where
  pub higher : (t : List ℤ × ℤ) → leb_ℤ t.1 (f t).1 ≡ true
  pub below : (t : List ℤ × ℤ) → Below t.1 t.0 → Below (f t).1 (f t).0

keep-Grows : Grows (λ t. t)
keep-Grows = record { higher = λ t. ground arith; below = λ t v. v }

then-Grows : (f g : List ℤ × ℤ → List ℤ × ℤ) → Grows f → Grows g → Grows (λ t. g (f t))
then-Grows f g v w = record {
  higher = λ t. let a = v.higher t in let b = w.higher (f t) in ground arith;
  below = λ t l. w.below (f t) (v.below t l);
}

-- One descriptor more.
highest-le :
    (max fd : ℤ)
    → (leb_ℤ max (if ltb_ℤ max fd then fd else max) ≡ true)
      × (leb_ℤ fd (if ltb_ℤ max fd then fd else max) ≡ true)
highest-le max fd = (ground arith, ground arith)

socket-Grows : (s : Socket) → Grows (Socket.add_to_fdset s)
unfolding Socket.add_to_fdset
socket-Grows s = record {
  higher = λ t. (highest-le t.1 (descriptor s)).0;
  below = λ t l.
      let (old, fresh) = highest-le t.1 (descriptor s) in
      (fresh, Below-le t.1 (if ltb_ℤ t.1 (descriptor s) then descriptor s else t.1) t.0 old l);
}

control-Grows : (c : ControlSocket) → Grows (ControlSocket.add_to_fdset c)
control-Grows c = elim (Bool-cases (ltb_ℤ (pos 0) c.read_end)) [
  | inl e ↦ record {
    higher = λ t. unfold ControlSocket.add_to_fdset in rw e (highest-le t.1 c.read_end).0;
    below = λ t l.
        let (old, fresh) = highest-le t.1 c.read_end in
        unfold ControlSocket.add_to_fdset in
        rw e (fresh, Below-le t.1 (if ltb_ℤ t.1 c.read_end then c.read_end else t.1) t.0 old l);
  }
  | inr e ↦ record {
    higher = λ t. unfold ControlSocket.add_to_fdset in rw e (keep-Grows.higher t);
    below = λ t l. unfold ControlSocket.add_to_fdset in rw e l;
  }
]

put-Grows : (b : Bool) (s : Option Socket) → Grows (put b s)
put-Grows true (some s) = socket-Grows s
put-Grows true none = keep-Grows
put-Grows false s = keep-Grows

both-Grows : (b : Bool × Bool) (p : Peer) → Grows (both b p)
both-Grows b p =
    then-Grows (put b.0 p.client) (put b.1 p.server) (put-Grows b.0 p.client)
      (put-Grows b.1 p.server)

reading-Covers :
    (f : List ℤ × ℤ → List ℤ × ℤ) (s : Sets) → Grows f → Covers s → Covers (reading f s)
reading-Covers f s g v = record {
  readable = g.below (s.readable, s.max_fd) v.readable;
  writable =
      Below-le s.max_fd (f (s.readable, s.max_fd)).1 s.writable (g.higher (s.readable, s.max_fd))
        v.writable;
}

writing-Covers :
    (f : List ℤ × ℤ → List ℤ × ℤ) (s : Sets) → Grows f → Covers s → Covers (writing f s)
writing-Covers f s g v = record {
  readable =
      Below-le s.max_fd (f (s.writable, s.max_fd)).1 s.readable (g.higher (s.writable, s.max_fd))
        v.readable;
  writable = g.below (s.writable, s.max_fd) v.writable;
}

watch-Covers : (p : Peer) (s : Sets) → Covers s → Covers (watch p s)
unfolding watch
watch-Covers p s v =
    writing-Covers (both (add_to_fdset_w p) p) _ (both-Grows (add_to_fdset_w p) p)
      (reading-Covers (both (add_to_fdset_r p) p) s (both-Grows (add_to_fdset_r p) p) v)

watch_connecting-Covers : (p : Peer) (s : Sets) → Covers s → Covers (watch_connecting p s)
unfolding watch_connecting
watch_connecting-Covers p s v =
    writing-Covers (put (add_to_fdset_c p).1 p.server) _ (put-Grows (add_to_fdset_c p).1 p.server) (
      reading-Covers (put (add_to_fdset_c p).0 p.client) s (put-Grows (add_to_fdset_c p).0 p.client)
        v)

watch_all-Covers :
    (f : Peer → Sets → Sets)
    → ((p : Peer) (s : Sets) → Covers s → Covers (f p s))
    → (ps : List Peer) (s : Sets) → Covers s
    → Covers (watch_all f ps s)
unfolding watch_all
watch_all-Covers f g [] s v = v
watch_all-Covers f g (p ∷ ps) s v = watch_all-Covers f g ps (f p s) (g p s v)

pub watched-Covers : (c : ControlSocket) (m : Manager) → Covers (watched c m)
unfolding watched
watched-Covers c m = reading-Covers (ControlSocket.add_to_fdset c) _ (control-Grows c) (
    watch_all-Covers watch_connecting watch_connecting-Covers m.connecting _ (
      watch_all-Covers watch watch-Covers m.peers
        (record { readable = []; writable = []; max_fd = pos 0 })
        (record { readable = tt; writable = tt })))
