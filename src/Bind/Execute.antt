-- ===== src/Bind/Execute.antt =====
-- The thread of `Bind`: `execute` (src/Bind.cpp). What the system calls answer is an argument.
use relb.Prelude.{given, ℕ, suc, Bool, true, Option, some, List, [], ◌∷◌, if◌then◌else◌}
use relb.Prelude.Int.{ℤ, pos, pos_part, ltb_ℤ}
use relb.Address.{IpAddress}
use relb.Config.State.{BindAddress}
use relb.Bind.State.{Services, Bind}

-- What `accept` gives: the descriptor, and the client's address.
pub record Client : Type 0 where
  pub fd : ℤ
  pub ip : IpAddress
  pub port : ℕ

-- One round of the main loop: the result of `select`, the set that it leaves, and what the i-th call
-- of `accept` gives.
pub record Round : Type 0 where
  pub selected : ℤ
  pub set : ℤ → Bool
  pub accept : ℕ → Client

-- The sockets of the addresses. `listening` is what the calls `socket`, `bind` and `listen` make of the
-- i-th address; if one fails, the descriptor is kept nevertheless.
unfoldable pub open_sockets : (ℕ → BindAddress → ℤ) → ℕ → List BindAddress → List ℤ
open_sockets listening i [] = []
open_sockets listening i (a ∷ rest) = listening i a ∷ open_sockets listening (suc i) rest

-- The highest descriptor, or 0, for `select`.
unfoldable pub highest : ℤ → List ℤ → ℤ
highest nfds [] = nfds
highest nfds (s ∷ ss) = highest (if ltb_ℤ nfds s then s else nfds) ss

pub record Listened (S A : Type 0) : Type 0 where
  pub bind : Bind S A
  pub closed : List ℤ

module _ {S A : Type 0} (o : Services S A) where
  unfoldable pub accept_client : Client → S → Option S
  accept_client c s =
      if ltb_ℤ (pos 0) c.fd then o.set_server (pos_part c.fd) c.ip c.port s else some s

  -- The sockets from the i-th on.
  unfoldable pub accept_loop : Round → ℕ → List ℤ → S → Option S
  unfolding accept_client
  accept_loop r i [] s = some s
  accept_loop r i (fd ∷ fds) s =
      given (if r.set fd then accept_client (r.accept i) s else some s) (accept_loop r (suc i) fds)

  unfoldable pub serve_round : Round → List ℤ → S → Option S
  unfolding accept_loop
  serve_round r fds s = if ltb_ℤ (pos 0) r.selected then accept_loop r 0 fds s else some s

  -- The rounds until `finish` is set.
  unfoldable pub serve_rounds : List Round → List ℤ → S → Option S
  unfolding serve_round
  serve_rounds [] fds s = some s
  serve_rounds (r ∷ rs) fds s = given (serve_round r fds s) (serve_rounds rs fds)

  unfoldable pub enable_admin : Bind S A → Bind S A
  enable_admin b =
      if b.admin_enabled
      then record b {
        admin = o.start_http_admin b.admin_port b.admin_ip (o.admin_set_parallel_list b.admin);
        slist = o.set_parallel_list b.slist;
      }
      else b

  unfoldable pub execute : (ℕ → BindAddress → ℤ) → List Round → Bind S A → Option (Listened S A)
  unfolding open_sockets serve_rounds enable_admin
  execute listening rs b =
      let fds = open_sockets listening 0 b.addresses in
      let ready = enable_admin b in
      given (serve_rounds rs fds ready.slist) λ s. some (record {
        bind = record ready { slist = s; admin = o.stop_http_admin ready.admin; finish = true };
        closed = fds;
      })

unfoldable pub stop_listening : {S A : Type 0} → Bind S A → Bind S A
stop_listening b = record b { finish = true }
