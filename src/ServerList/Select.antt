-- ===== src/ServerList/Select.antt =====
-- How `ServerList::getServer` (src/ServerList.cpp) chooses a server for a client without a session.
-- `ratio load weight` is the float `load / float( weight )`, given by its bit pattern: on floats that
-- are not negative, the order of the values is the order of the patterns, and 0 is the pattern 0.
use relb.Prelude.{
  ℕ, zero, suc, ◌+◌, ◌*◌, Bool, true, false, not, ◌&&◌, ◌||◌, Option, none, some, length, get_elem?,
  ◌==◌, ltb, leb, if◌then◌else◌,
}
use relb.Prelude.Int.{ℤ, pos, pos_part, ltb_ℤ, leb_ℤ}
use relb.Address.{IpAddress}
use relb.Filters.{is_server_allowed}
use relb.ServerList.State.{ServerInfo, ServerList}

-- `MAX( 1, weight )`.
unfoldable pub divisor : ℤ → ℕ
divisor w = if ltb_ℤ w (pos 1) then 1 else pos_part w

-- The load of the server that the search starts with.
unfoldable pub default_load : ServerList → ServerInfo → ℕ
default_load sl s =
    s.connecting
    + s.connected
    + s.finished * sl.finished_weight
    + s.disconnected * sl.disconnected_weight

-- The load of every other server: `finished` stands where the other has `connecting`.
unfoldable pub load : ServerList → ServerInfo → ℕ
load sl s =
    s.finished
    + s.connected
    + s.finished * sl.finished_weight
    + s.disconnected * sl.disconnected_weight

-- Full, or failed too short a time ago. `now - attempt < retry` on integers of any sign.
unfoldable pub not_available : ServerList → ServerInfo → ℕ → Bool
not_available sl s now =
    (not (leb_ℤ s.max_connections (pos 0) && leb_ℤ (pos 0) s.max_connections)
      && leb_ℤ s.max_connections (pos s.connected))
    || (s.last_connection_failed
        && ltb now (s.last_connection_attempt + sl.server_retry_milliseconds))

-- The variables nextserver, nextserver_weight, nextserver_index, nextserver_notavailable and
-- assigned_server.
pub record Candidate : Type 0 where
  pub server : ℕ
  pub weight : ℤ
  pub index : ℕ
  pub not_available : Bool
  pub assigned : Bool

-- `current++`, and back to 0 at the end of the list.
unfoldable pub next_index : ServerList → ℕ → ℕ
next_index sl current = if leb (length sl.servers) (current + 1) then 0 else current + 1

module _ (ratio : ℕ → ℕ → ℕ) (sl : ServerList) (client : IpAddress) where
  -- The tests of one server against the candidate, for the given availability.
  unfoldable pub weigh : ℕ → ServerInfo → Bool → Candidate → Candidate
  unfolding load divisor
  weigh current s unavailable c =
      let index = ratio (load sl s) (divisor s.weight) in
      let better =
        (if index == 0 && c.index == 0
          then not c.assigned || ltb_ℤ c.weight s.weight
          else not c.assigned || ltb index c.index) in
      if is_server_allowed sl.filters s.ip client
        && (better && (not unavailable || (unavailable && c.not_available)))
      then record {
        server = current;
        weight = s.weight;
        index = index;
        not_available = unavailable;
        assigned = true;
      }
      else c

  -- The server after the last one assigned, with what the clock shows.
  unfoldable pub default_candidate : ℕ → ServerInfo → ℕ → Candidate
  unfolding default_load divisor not_available
  default_candidate current s now = record {
    server = current;
    weight = s.weight;
    index = ratio (default_load sl s) (divisor s.weight);
    not_available = not_available sl s now;
    assigned = is_server_allowed sl.filters s.ip client;
  }

  -- The loop `while( currentserver != last_server_assigned )`. `judge` gives the availability of the
  -- server that is looked at. `none`: out of fuel, or a read beyond the list.
  unfoldable pub scan : (ℕ → ServerInfo → Bool) → ℕ → ℕ → ℕ → Candidate → Option (ℕ × Candidate)
  unfolding next_index
  scan judge zero current last c = none
  scan judge (suc fuel) current last c =
      let step = λ (s : ServerInfo).
        scan judge fuel (next_index sl current) last (weigh current s (judge current s) c) in
      if current == last
      then some (current, c)
      else elim (get_elem? sl.servers current) [ none ↦ none | some s ↦ step s ]

  -- The last attempt, "including non-assignable servers": it goes on where the first loop stopped.
  unfoldable pub last_attempt : ℕ → ℕ × Candidate → Option (ℕ × Candidate)
  unfolding scan
  last_attempt last (current, c) =
      let again = scan (λ i s. false) (suc (length sl.servers)) current last c in
      if c.assigned then some (current, c) else again

  -- The whole choice, from the index `last` that the search starts with. `clock i` is the time at
  -- which the server `i` is looked at.
  unfoldable pub choose : (ℕ → ℕ) → ℕ → Option Candidate
  unfolding default_candidate scan last_attempt next_index not_available
  choose clock last = elim (get_elem? sl.servers last) [
    | none ↦ none
    | some s ↦
        elim (scan (λ i t. not_available sl t (clock i)) (suc (length sl.servers))
          (next_index sl last) last (default_candidate last s (clock last))) [
            | none ↦ none
            | some r ↦ elim (last_attempt last r) [ none ↦ none | some (i, c) ↦ some c ]
          ]
  ]
