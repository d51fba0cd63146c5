-- ===== src/ServerList/Assigned.antt =====
-- The path of `ServerList::getServer` on which a server is chosen.
use relb.Prelude.{
  get_elem?_lt_length, ℕ, ◌≡◌, ◌≢◌, refl, sym, ap, ◌∙◌, inl, inr, true, some, length, get_elem?,
  leb, if◌then◌else◌, Option-cases, arith,
}
use relb.Address.{IpAddress}
use relb.Filters.{is_server_allowed}
use relb.ServerList.State.{ServerInfo, PeerInfo, ServerList, set_parallel}
use relb.ServerList.Select.{Candidate, choose}
use relb.ServerList.Choice.{choose-allowed, allowed_at}
use relb.ServerList.Sessions.{announce}
use relb.ServerList.GetServer.{Clock, first_index, place, assign, assign_new}
use relb.ServerList.Answer.{first_index_lt}

-- An assignment is the placement at an index that a candidate names.
pub record IsPlaced (sl : ServerList) (client : IpAddress) (port manager now : ℕ) (c : Candidate)
    (t : ServerList) (q : PeerInfo) : Type 0 where
  pub last : ℕ
  pub info : ServerInfo
  pub chosen : c.assigned ≡ true
  pub at_last : last ≡ (if leb (length sl.servers) c.server then 0 else c.server)
  pub found : get_elem? sl.servers last ≡ some info
  pub placed : place sl client port manager now last info ≡ (t, some q)

assign-IsPlaced :
    (sl t : ServerList) (client : IpAddress) (port manager now : ℕ) (c : Candidate) (q : PeerInfo)
    → assign sl client port manager now c ≡ some (t, some q)
    → IsPlaced sl client port manager now c t q
unfolding assign
assign-IsPlaced sl t client port manager now c q e =
    let last = (if leb (length sl.servers) c.server then 0 else c.server) in
    elim (Option-cases (get_elem? sl.servers last)) [
      | inl n ↦ absurd (ground (arith, n))
      | inr (s, f) ↦ record {
        last = last;
        info = s;
        chosen = ground (arith, f);
        at_last = refl;
        found = f;
        placed = ground (arith, f);
      }
    ]

abbrev pub started : ServerList → ServerList
started sl = record sl { last_server_assigned = first_index sl }

module _ (ratio : ℕ → ℕ → ℕ) (sl t : ServerList) (client : IpAddress) (port manager : ℕ)
    (clock : Clock) (q : PeerInfo) where
  pub assign_new-IsPlaced :
      assign_new ratio sl client port manager clock ≡ some (t, some q)
      → (c : Candidate) × (choose ratio (started sl) client clock.server (first_index sl) ≡ some c)
        × IsPlaced (started sl) client port manager clock.made c t q
  unfolding assign_new
  assign_new-IsPlaced e =
      elim (Option-cases (choose ratio (started sl) client clock.server (first_index sl))) [
        | inl n ↦ absurd (ground (arith, n))
        | inr (c, f) ↦ (
          c,
          f,
          assign-IsPlaced (started sl) t client port manager clock.made c q (ground (arith, f)),
        )
      ]

  allowed_found :
      (i : ℕ)
      → allowed_at ratio (started sl) client i ≡ true
      → (u : ServerInfo) × (get_elem? sl.servers i ≡ some u)
        × (is_server_allowed sl.filters u.ip client ≡ true)
  allowed_found i a = elim (Option-cases (get_elem? sl.servers i)) [
    | inl n ↦ absurd (ground (arith, n))
    | inr (u, at) ↦ (u, at, ground (arith, at))
  ]

  place-dst_ip :
      (last : ℕ) (s : ServerInfo)
      → place (started sl) client port manager clock.made last s ≡ (t, some q)
      → q.dst_ip ≡ s.ip
  unfolding place announce set_parallel
  place-dst_ip last s e = ground arith

  -- With at least one server in the list, a client without a session that gets a connection gets
  -- one to a server that the filters allow it.
  pub assign_new-allowed :
      length sl.servers ≢ 0
      → assign_new ratio sl client port manager clock ≡ some (t, some q)
      → is_server_allowed sl.filters q.dst_ip client ≡ true
  assign_new-allowed h e =
      let (c, f, p) = assign_new-IsPlaced e in
      let (u, at, ok) = allowed_found c.server (
        choose-allowed ratio (started sl) client clock.server (first_index sl) c
          (first_index_lt sl h) f p.chosen) in
      let here : p.last ≡ c.server =
        ground (arith, p.at_last, get_elem?_lt_length sl.servers c.server at) in
      let same : some p.info ≡ some u = sym p.found ∙ ap (get_elem? sl.servers) here ∙ at in
      ground (arith, same, ok, place-dst_ip p.last p.info p.placed)
