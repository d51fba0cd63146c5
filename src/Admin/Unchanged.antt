-- ===== src/Admin/Unchanged.antt =====
-- What a client of the administration can change (`execute` of src/AdminHTTPServer.cpp): only what is
-- posted to the list of servers.
use mathlib.Core.Path.{subst}
use relb.Prelude.{
  ℕ, ◌≡◌, refl, sym, ap, ◌∙◌, Bool, true, false, Option, none, some, List, [], ◌∷◌, ◌++◌,
  append_assoc, append-nil, ◌==◌, ◌&&◌, if◌then◌else◌, Option-cases, inl, inr, codes, starts,
  same_text, drop, All, given, if_cases, ◌⊎◌, arith,
}
use relb.Prelude.Int.{ℤ}
use relb.Address.{IpAddress, same_ip}
use relb.ServerList.State.{PeerInfo}
use relb.Admin.State.{AdminServer, twin_of, post_twin, command, kick, ban, ban_all}
use relb.Admin.Request.{split, list_page}
use relb.Admin.Pages.{named_client, unnamed, run_command, is_command, command_page}
use relb.Admin.Serve.{
  Visit, page_of, serve_list, serve_command, serve_servers, serve_redirect, serve_page, serve_line,
  serve_lines,
}

-- The twin of a connection of the list.
abbrev pub IsTwinOf : List PeerInfo → ℕ → Type 0
IsTwinOf [] twin = ⊥
IsTwinOf (p ∷ ps) twin = (p.parallel ≡ some twin) ⊎ IsTwinOf ps twin

pub record Reads (a b : AdminServer) : Type 0 where
  pub peers : b.peers ≡ a.peers
  pub servers : b.servers ≡ a.servers
  pub finish : b.finish ≡ a.finish
  pub more : List (ℕ × ℕ)
  pub posted : b.posted ≡ a.posted ++ more
  pub twins : All (λ m. IsTwinOf a.peers m.1) more

pub keep-Reads : (a : AdminServer) → Reads a a
keep-Reads a = record {
  peers = refl;
  servers = refl;
  finish = refl;
  more = [];
  posted = sym (append-nil a.posted);
  twins = tt;
}

All-append : (P : ℕ × ℕ → Type 0) (xs ys : List (ℕ × ℕ)) → All P xs → All P ys → All P (xs ++ ys)
All-append P [] ys v w = w
All-append P (x ∷ xs) ys v w = (v.0, All-append P xs ys v.1 w)

then-Reads : (a b c : AdminServer) → Reads a b → Reads b c → Reads a c
then-Reads a b c v w = record {
  peers = w.peers ∙ v.peers;
  servers = w.servers ∙ v.servers;
  finish = w.finish ∙ v.finish;
  more = v.more ++ w.more;
  posted = w.posted ∙ ap (λ l. l ++ w.more) v.posted ∙ append_assoc a.posted v.more w.more;
  twins = All-append _ v.more w.more v.twins (rw⁻¹ v.peers w.twins);
}

found :
    (b : Bool) (o more : Option ℕ) (twin : ℕ)
    → (if b then elim o [ none ↦ more | some t ↦ some t ] else more) ≡ some twin
    → (o ≡ some twin) ⊎ (more ≡ some twin)
found true none more twin h = inr h
found true (some t) more twin h = inl h
found false o more twin h = inr h

twin_of-IsTwinOf :
    (ip : IpAddress) (port : ℕ) (ps : List PeerInfo) (twin : ℕ)
    → twin_of ip port ps ≡ some twin
    → IsTwinOf ps twin
unfolding twin_of
twin_of-IsTwinOf ip port [] twin h = cc h
twin_of-IsTwinOf ip port (p ∷ ps) twin h =
    elim (found (same_ip p.src_ip ip && p.src_port == port) p.parallel (twin_of ip port ps) twin
      h) [ inl e ↦ inl e | inr e ↦ inr (twin_of-IsTwinOf ip port ps twin e) ]

post_twin-Reads :
    (id : ℕ) (o : Option ℕ) (a : AdminServer)
    → ((t : ℕ) → o ≡ some t → IsTwinOf a.peers t)
    → Reads a (post_twin id o a).0
post_twin-Reads id none a h = keep-Reads a
post_twin-Reads id (some t) a h = record {
  peers = refl;
  servers = refl;
  finish = refl;
  more = (id, t) ∷ [];
  posted = refl;
  twins = (h t refl, tt);
}

command-Reads :
    (id : ℕ) (ip : IpAddress) (port : ℕ) (a : AdminServer) → Reads a (command id ip port a).0
unfolding command
command-Reads id ip port a =
    if_cases (λ (r : AdminServer × Bool). Reads a r.0) a.parallel_list
      (post_twin-Reads id (twin_of ip port a.peers) a (twin_of-IsTwinOf ip port a.peers))
      (keep-Reads a)

-- What holds of the result, if there is one.
abbrev pub Each : {A : Type 0} → (A → Type 0) → Option A → Type 0
Each P none = Unit
Each P (some x) = P x

given-Each :
    {A B : Type 0} (P : A → Type 0) (Q : B → Type 0) (o : Option A) (f : A → Option B)
    → Each P o
    → ((x : A) → P x → Each Q (f x))
    → Each Q (given o f)
given-Each P Q none f v g = tt
given-Each P Q (some x) f v g = g x v

Each-map :
    {A : Type 0} (P Q : A → Type 0) (o : Option A) → ((x : A) → P x → Q x) → Each P o → Each Q o
Each-map P Q none g v = tt
Each-map P Q (some x) g v = g x v

module _ (byte : ℤ → ℕ) (ip_none : IpAddress) where
  run_command-Reads :
      (f : IpAddress → ℕ → AdminServer → AdminServer × Bool) (ip p : Option (List ℕ))
      (a : AdminServer)
      → ((i : IpAddress) (port : ℕ) → Reads a (f i port a).0)
      → Each (λ r. Reads a r.0) (run_command byte ip_none f ip p a)
  unfolding run_command
  run_command-Reads f ip none a h = tt
  run_command-Reads f ip (some t) a h = h _ _

  command_page-Reads :
      (parts : List (List ℕ)) (a : AdminServer)
      → Each (λ (r : AdminServer × Bool). Reads a r.0) (command_page byte ip_none parts a)
  unfolding command_page kick ban ban_all
  command_page-Reads [] a = keep-Reads a
  command_page-Reads (page ∷ ss) a =
      let c = named_client ss unnamed in
      let runs = λ (id : ℕ).
        run_command-Reads (command id) c.src_ip c.src_port a
          (λ i port. command-Reads id i port a) in
      let P =
        λ (o : Option (AdminServer × Bool)). Each (λ (r : AdminServer × Bool). Reads a r.0) o in
      if_cases P (same_text page (codes "ban")) (runs _) (
        if_cases P (same_text page (codes "kick")) (runs _)
          (if_cases P (same_text page (codes "ban_all")) (runs _) (keep-Reads a)))

  serve_list-server :
      (parts : List (List ℕ)) (v : Visit) → (serve_list byte ip_none parts v).server ≡ v.server
  unfolding serve_list
  serve_list-server parts v = elim (Option-cases (list_page byte ip_none parts)) [
    | inl e ↦ rw (serve_list, e) refl
    | inr (r, e) ↦ rw (serve_list, e) refl
  ]

  rest-server :
      (parts : List (List ℕ)) (v : Visit)
      → (serve_redirect (serve_servers parts v)).server ≡ v.server
  unfolding serve_servers serve_redirect
  rest-server parts v = ground arith

  serve_command-Reads :
      (parts : List (List ℕ)) (v : Visit)
      → Each (λ (w : Visit). Reads v.server w.server) (serve_command byte ip_none parts v)
  unfolding serve_command
  serve_command-Reads parts v =
      let P = λ (w : Visit). Reads v.server w.server in
      if_cases (Each P) (is_command (page_of parts))
        (given-Each (λ (r : AdminServer × Bool). Reads v.server r.0) P _ _
          (command_page-Reads parts v.server) (λ r w. w))
        (keep-Reads v.server)

  serve_page-Reads :
      (parts : List (List ℕ)) (v : Visit)
      → Each (λ (w : Visit). Reads v.server w.server) (serve_page byte ip_none parts v)
  unfolding serve_page
  serve_page-Reads parts v =
      let shown = serve_list byte ip_none parts v in
      let same = serve_list-server parts v in
      given-Each (λ (w : Visit). Reads shown.server w.server)
        (λ (w : Visit). Reads v.server w.server) (serve_command byte ip_none parts shown) _
        (serve_command-Reads parts shown)
        (λ w u. rw (rest-server parts w) (subst (λ a. Reads a w.server) same u))

  serve_line-Reads :
      (line : List ℕ) (v : Visit)
      → Each (λ (w : Visit). Reads v.server w.server) (serve_line byte ip_none line v)
  unfolding serve_line
  serve_line-Reads line v =
      if_cases (Each (λ (w : Visit). Reads v.server w.server)) (starts (codes "GET ") line)
        (serve_page-Reads (split (drop 5 line)) v) (keep-Reads v.server)

  -- Whatever a client sends, if it is served to the end, the lists of connections and of servers stay,
  -- and what is posted names twins of connections of the list.
  pub serve_lines-Reads :
      (lines : List (List ℕ)) (v : Visit)
      → Each (λ (w : Visit). Reads v.server w.server) (serve_lines byte ip_none lines v)
  unfolding serve_lines
  serve_lines-Reads [] v = keep-Reads v.server
  serve_lines-Reads ([] ∷ ls) v = keep-Reads v.server
  serve_lines-Reads ((c ∷ cs) ∷ ls) v =
      let P = λ (w : Visit). Reads v.server w.server in
      given-Each P P (serve_line byte ip_none (c ∷ cs) v) _ (serve_line-Reads (c ∷ cs) v) (λ w u.
        Each-map (λ (x : Visit). Reads w.server x.server) P _
          (λ x. then-Reads v.server w.server x.server u) (serve_lines-Reads ls w))
