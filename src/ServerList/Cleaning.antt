-- ===== src/ServerList/Cleaning.antt =====
-- `cleanConnections`, `purgeConnections` and the functions that empty the lists
-- (src/ServerList.cpp).
use relb.Prelude.{ℕ, ◌-◌, not, ◌&&◌, some, List, [], ◌∷◌, ◌==◌, if◌then◌else◌}
use relb.Address.{same_ip}
use relb.ServerList.State.{ServerInfo, PeerInfo, ServerList, post_parallel, request_close}
use relb.Status.{peer_disconnected, peer_not_connected, peer_connection_deleted, has}

-- The first server with the connection's address, whatever its port, counts one less.
abbrev pub uncount : ℕ → ServerInfo → ServerInfo
uncount status s =
    if has status peer_disconnected && not (s.disconnected == 0)
    then record s { disconnected = s.disconnected - 1 }
    else record s { finished = s.finished - 1 }

unfoldable pub uncount_first : PeerInfo → List ServerInfo → List ServerInfo
uncount_first p [] = []
uncount_first p (s ∷ ss) =
    if same_ip s.ip p.dst_ip then uncount p.status s ∷ ss else s ∷ uncount_first p ss

-- One round of the loop of `cleanConnections`, for a connection that is over.
unfoldable pub forget_peer : PeerInfo → ServerList → ServerList
unfolding uncount_first post_parallel
forget_peer p sl =
    post_parallel peer_connection_deleted p.parallel
      (record sl { servers = uncount_first p sl.servers })

-- The connections that are kept, and the list after the rounds for those that are not.
unfoldable pub clean_loop : List PeerInfo → ServerList → List PeerInfo × ServerList
unfolding forget_peer
clean_loop [] sl = ([], sl)
clean_loop (p ∷ ps) sl =
    let over = has p.status peer_not_connected in
    let rest = clean_loop ps (if over then forget_peer p sl else sl) in
    (if over then rest.0 else p ∷ rest.0, rest.1)

unfoldable pub clean_connections : ServerList → ServerList
unfolding clean_loop
clean_connections sl = let (ps, t) = clean_loop sl.peers sl in record t { peers = ps }

-- Every connection is asked to close, through its manager.
unfoldable pub close_all : List PeerInfo → ServerList → ServerList
unfolding request_close
close_all [] sl = sl
close_all (p ∷ ps) sl = close_all ps (request_close p.manager (some p.address) sl)

unfoldable pub purge_connections : ℕ → ServerList → ServerList
unfolding close_all
purge_connections now sl = record (close_all sl.peers sl) { last_connections_cleanup = now }

unfoldable pub clean_list : ServerList → ServerList
clean_list sl = record sl { servers = [] }

unfoldable pub clean_peer_list : ServerList → ServerList
clean_peer_list sl = record sl { peers = [] }

unfoldable pub clean_task_list : ServerList → ServerList
clean_task_list sl = record sl { tasks = [] }
