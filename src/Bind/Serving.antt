-- ===== src/Bind/Serving.antt =====
-- The main loop of `Bind` (src/Bind.cpp) goes on while `setServer` does.
use relb.Prelude.{
  given, ℕ, suc, Bool, true, false, Option, none, some, List, [], ◌∷◌, if◌then◌else◌,
}
use relb.Prelude.Int.{ℤ, pos, pos_part, ltb_ℤ}
use relb.Address.{IpAddress}
use relb.Config.State.{BindAddress}
use relb.Bind.State.{Services, Bind}
use relb.Bind.Execute.{
  Client, Round, Listened, open_sockets, accept_client, accept_loop, serve_round, serve_rounds,
  enable_admin, execute,
}

-- There is a result, with this property.
abbrev pub Ends : {S : Type 0} → (S → Type 0) → Option S → Type 0
Ends P none = ⊥
Ends P (some s) = P s

given-Ends :
    {S T : Type 0} (P : S → Type 0) (R : T → Type 0) (m : Option S) (f : S → Option T)
    → Ends P m
    → ((s : S) → P s → Ends R (f s))
    → Ends R (given m f)
given-Ends P R none f e k = absurd e
given-Ends P R (some s) f e k = k s e

if-Ends :
    {S : Type 0} (P : S → Type 0) (b : Bool) (x y : Option S)
    → Ends P x
    → Ends P y
    → Ends P (if b then x else y)
if-Ends P true x y p q = p
if-Ends P false x y p q = q

module _ {S A : Type 0} (o : Services S A) (P : S → Type 0)
    (keeps : (fd : ℕ) (ip : IpAddress) (port : ℕ) (s : S)
      → P s
      → Ends P (o.set_server fd ip port s)) where
  accept_client-Ends : (c : Client) (s : S) → P s → Ends P (accept_client o c s)
  unfolding accept_client
  accept_client-Ends c s p =
      if-Ends P (ltb_ℤ (pos 0) c.fd) _ (some s) (keeps (pos_part c.fd) c.ip c.port s p) p

  accept_loop-Ends :
      (r : Round) (i : ℕ) (fds : List ℤ) (s : S) → P s → Ends P (accept_loop o r i fds s)
  unfolding accept_loop
  accept_loop-Ends r i [] s p = p
  accept_loop-Ends r i (fd ∷ fds) s p =
      given-Ends P P (if r.set fd then accept_client o (r.accept i) s else some s)
        (accept_loop o r (suc i) fds)
        (if-Ends P (r.set fd) _ (some s) (accept_client-Ends (r.accept i) s p) p)
        (accept_loop-Ends r (suc i) fds)

  serve_round-Ends : (r : Round) (fds : List ℤ) (s : S) → P s → Ends P (serve_round o r fds s)
  unfolding serve_round
  serve_round-Ends r fds s p =
      if-Ends P (ltb_ℤ (pos 0) r.selected) _ (some s) (accept_loop-Ends r 0 fds s p) p

  serve_rounds-Ends :
      (rs : List Round) (fds : List ℤ) (s : S) → P s → Ends P (serve_rounds o rs fds s)
  unfolding serve_rounds
  serve_rounds-Ends [] fds s p = p
  serve_rounds-Ends (r ∷ rs) fds s p =
      given-Ends P P (serve_round o r fds s) (serve_rounds o rs fds) (serve_round-Ends r fds s p)
        (serve_rounds-Ends rs fds)

  pub execute-Ends :
      (listening : ℕ → BindAddress → ℤ) (rs : List Round) (b : Bind S A)
      → P (enable_admin o b).slist
      → Ends (λ (e : Listened S A). P e.bind.slist) (execute o listening rs b)
  unfolding execute
  execute-Ends listening rs b p =
      given-Ends P (λ (e : Listened S A). P e.bind.slist)
        (serve_rounds o rs (open_sockets listening 0 b.addresses) (enable_admin o b).slist) _
        (serve_rounds-Ends rs (open_sockets listening 0 b.addresses) (enable_admin o b).slist p)
        (λ s q. q)
