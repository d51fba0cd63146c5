-- ===== src/Admin/Answers.antt =====
-- Each request is answered with one page (`execute` of src/AdminHTTPServer.cpp).
use relb.Prelude.{
  ℕ, ◌+◌, ◌≡◌, refl, Bool, true, false, not, ◌&&◌, ◌||◌, some, Option-cases, List, [], ◌∷◌, ◌++◌,
  ◌==◌, ==_iff, if◌then◌else◌, Bool-cases, inl, inr, codes, starts, same_text, drop, length,
  length-append, arith,
}
use relb.Prelude.Int.{ℤ}
use relb.Address.{IpAddress}
use relb.Admin.Listing.{Request, listing}
use relb.Admin.State.{AdminServer}
use relb.Admin.Request.{split, list_page}
use relb.Admin.Pages.{is_command, command_page}
use relb.Admin.Unnamed.{is_complete, command_page_complete}
use relb.Admin.Serve.{
  Visit, Answer, carried_out, listed, counted, redirected, server_rows, answer, page_of, serve_list,
  serve_command, serve_servers, serve_redirect, serve_page, serve_line,
}

-- The five names.
abbrev pub is_page : List ℕ → Bool
is_page page =
    is_command page || (same_text page (codes "list") || same_text page (codes "servers"))

-- What one request adds for its client.
abbrev pub OnePage : Bool → Visit → Visit → Type 0
OnePage known v w =
    (w.redirects ≡ v.redirects && not known)
    × (length w.answers ≡ length v.answers + (if known || v.redirects then 1 else 0))

same_text-eq : (s t : List ℕ) → same_text s t ≡ true → s ≡ t
same_text-eq [] [] h = refl
same_text-eq [] (y ∷ t) h = cc h
same_text-eq (x ∷ s) [] h = cc h
same_text-eq (x ∷ s) (y ∷ t) h = elim (Bool-cases (x == y)) [
  | inl e ↦
      let rest : same_text s t ≡ true = cc (h, e) in
      rw ((==_iff x y).0 e, same_text-eq s t rest) refl
  | inr e ↦ absurd (cc (h, e))
]

one_more : (x : Answer) (xs : List Answer) → length (xs ++ x ∷ []) ≡ length xs + 1
one_more x xs = length-append xs (x ∷ [])

and_false : (b : Bool) → false ≡ b && false
and_false true = refl
and_false false = refl

redirect_once : (v : Visit) → OnePage false v (serve_redirect v)
unfolding serve_redirect
redirect_once v = elim (Bool-cases v.redirects) [
  | inl e ↦ rw (serve_redirect, e) (refl, one_more _ v.answers)
  | inr e ↦ rw (serve_redirect, e) (refl, ground arith)
]

redirected_lem :
    (v : Visit)
    → ((serve_redirect v).server ≡ v.server)
      × ((serve_redirect v).answers
          ≡ (if v.redirects then v.answers ++ redirected ∷ [] else v.answers))
unfolding serve_redirect
redirected_lem v = elim (Bool-cases v.redirects) [
  | inl e ↦ rw (serve_redirect, e) (refl, refl)
  | inr e ↦ rw (serve_redirect, e) (refl, refl)
]

answer_once : (x : Answer) (v : Visit) → OnePage true v (serve_redirect (answer x v))
unfolding serve_redirect
answer_once x v = (and_false v.redirects, one_more x v.answers)

module _ (byte : ℤ → ℕ) (ip_none : IpAddress) where
  -- What a request shows: the rows that it asks for, the counters of all servers, or whether its command
  -- was carried out; else the page that leads to the default page, while the client is led there.
  pub data Reply (parts : List (List ℕ)) (v w : Visit) : Type 0 where
    shows_list :
        (r : Request)
        → list_page byte ip_none parts ≡ some r
        → w.server ≡ v.server
        → w.answers ≡ v.answers ++ listed (listing ip_none r v.server.peers) ∷ []
        → Reply parts v w
    shows_servers :
        same_text (page_of parts) (codes "servers") ≡ true
        → w.server ≡ v.server
        → w.answers ≡ v.answers ++ counted (server_rows v.server.servers) ∷ []
        → Reply parts v w
    runs_command :
        (ok : Bool)
        → is_command (page_of parts) ≡ true
        → command_page byte ip_none parts v.server ≡ some (w.server, ok)
        → w.answers ≡ v.answers ++ carried_out ok ∷ []
        → Reply parts v w
    leads_back :
        is_page (page_of parts) ≡ false
        → w.server ≡ v.server
        → w.answers ≡ (if v.redirects then v.answers ++ redirected ∷ [] else v.answers)
        → Reply parts v w

  -- One page, if it is this one.
  abbrev Once : Bool → List (List ℕ) → Visit → Type 0
  Once known parts v =
      (w : Visit) × (serve_page byte ip_none parts v ≡ some w) × OnePage known v w × Reply parts v w

  list-Once : (ss : List (List ℕ)) (v : Visit) → Once true (codes "list" ∷ ss) v
  unfolding serve_page serve_list serve_command serve_servers
  list-Once ss v = (_, refl, answer_once _ v, shows_list _ refl refl refl)

  servers-Once : (ss : List (List ℕ)) (v : Visit) → Once true (codes "servers" ∷ ss) v
  unfolding serve_page serve_list serve_command serve_servers
  servers-Once ss v = (_, refl, answer_once _ v, shows_servers refl refl refl)

  command-Once :
      (page : List ℕ) (ss : List (List ℕ)) (v : Visit) (r : AdminServer × Bool)
      → is_command page ≡ true
      → same_text page (codes "list") ≡ false
      → same_text page (codes "servers") ≡ false
      → command_page byte ip_none (page ∷ ss) v.server ≡ some r
      → Once true (page ∷ ss) v
  unfolding serve_page serve_list serve_command serve_servers
  command-Once page ss v r c l s e =
      rw (serve_page, serve_list, l, serve_command, c, e, serve_servers, s)
        (
          record v { server = r.0; redirects = false; answers = v.answers ++ carried_out r.1 ∷ [] },
          refl,
          answer_once (carried_out r.1) (record v { server = r.0 }),
          runs_command r.1 c e refl,
        )

  other-Once :
      (page : List ℕ) (ss : List (List ℕ)) (v : Visit)
      → is_command page ≡ false
      → same_text page (codes "list") ≡ false
      → same_text page (codes "servers") ≡ false
      → Once false (page ∷ ss) v
  unfolding serve_page serve_list serve_command serve_servers
  other-Once page ss v c l s =
      rw (serve_page, serve_list, l, serve_command, c, serve_servers, s)
        (
          serve_redirect v,
          refl,
          redirect_once v,
          leads_back (ground (arith, c, l, s)) (redirected_lem v).0 (redirected_lem v).1,
        )

  page-Once :
      (page : List ℕ) (ss : List (List ℕ)) (v : Visit)
      → is_complete (page ∷ ss) ≡ true
      → Once (is_page page) (page ∷ ss) v
  page-Once page ss v h = elim (Bool-cases (same_text page (codes "list"))) [
    | inl l ↦ rw (same_text-eq page (codes "list") l) (list-Once ss v)
    | inr l ↦ elim (Bool-cases (same_text page (codes "servers"))) [
      | inl s ↦ rw (same_text-eq page (codes "servers") s) (servers-Once ss v)
      | inr s ↦ elim (Bool-cases (is_command page)) [
        | inl c ↦ elim (Option-cases (command_page byte ip_none (page ∷ ss) v.server)) [
          | inl e ↦ absurd (cc (e, h, command_page_complete byte ip_none (page ∷ ss) v.server))
          | inr (r, e) ↦ rw c (command-Once page ss v r c l s e)
        ]
        | inr c ↦ rw (c, l, s) (other-Once page ss v c l s)
      ]
    ]
  ]

  parts-Once :
      (parts : List (List ℕ)) (v : Visit)
      → is_complete parts ≡ true
      → Once (is_page (page_of parts)) parts v
  unfolding serve_page serve_list serve_command serve_servers
  parts-Once [] v h = (
    serve_redirect v,
    refl,
    redirect_once v,
    leads_back refl (redirected_lem v).0 (redirected_lem v).1,
  )
  parts-Once (page ∷ ss) v h = page-Once page ss v h

  -- A request that names what it has to name is answered. For `list`: with exactly one page, that
  -- shows the rows which the request asks for. For `servers`: with one that shows the counters of
  -- all servers. For one of the three commands: with one that tells whether it was carried out, and
  -- the state is the one that the command leaves. For any other: with the one that leads to the
  -- default page, if no request of this client was for one of the five before, and else with none.
  -- The client is led there no more exactly once it has asked for one of the five. No request but a
  -- command changes the state.
  pub serve_line_once :
      (line : List ℕ) (v : Visit)
      → starts (codes "GET ") line ≡ true
      → is_complete (split (drop 5 line)) ≡ true
      → (w : Visit) × (serve_line byte ip_none line v ≡ some w)
        × OnePage (is_page (page_of (split (drop 5 line)))) v w
        × Reply (split (drop 5 line)) v w
  unfolding serve_line
  serve_line_once line v g h = rw g (parts-Once (split (drop 5 line)) v h)
