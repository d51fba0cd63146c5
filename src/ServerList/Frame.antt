-- ===== src/ServerList/Frame.antt =====
-- What a task does leaves alone all that its parts leave alone (`cleanConnections` and `purgeConnections`
-- of src/ServerList.cpp).
use relb.Prelude.{ℕ, ◌≡◌, refl, ◌∙◌, Option, some, List, [], ◌∷◌, Bool-cases, inl, inr, arith}
use relb.ServerList.State.{PeerInfo, TaskInfo, ServerList, request_close}
use relb.ServerList.Cleaning.{
  forget_peer, clean_loop, clean_connections, close_all, purge_connections,
}
use relb.ServerList.Tasks.{TaskClock, perform, run_task}
use relb.Status.{has, peer_not_connected}

-- Something of the state that no part of a task changes.
pub record IsKept {A : Type 0} (g : ServerList → A) : Type 0 where
  pub forgotten : (p : PeerInfo) (sl : ServerList) → g (forget_peer p sl) ≡ g sl
  pub closed :
      (manager : Option ℕ) (pointer : Option ℕ) (sl : ServerList)
      → g (request_close manager pointer sl) ≡ g sl
  pub listed : (ps : List PeerInfo) (sl : ServerList) → g (record sl { peers = ps }) ≡ g sl
  pub purged : (now : ℕ) (sl : ServerList) → g (record sl { last_connections_cleanup = now }) ≡ g sl

module _ {A : Type 0} (g : ServerList → A) (v : IsKept g) where
  clean_loop-kept : (ps : List PeerInfo) (sl : ServerList) → g (clean_loop ps sl).1 ≡ g sl
  unfolding clean_loop
  clean_loop-kept [] sl = refl
  clean_loop-kept (p ∷ ps) sl = elim (Bool-cases (has p.status peer_not_connected)) [
    | inl over ↦ rw over (clean_loop-kept ps (forget_peer p sl) ∙ v.forgotten p sl)
    | inr on ↦ rw on (clean_loop-kept ps sl)
  ]

  clean_connections-kept : (sl : ServerList) → g (clean_connections sl) ≡ g sl
  unfolding clean_connections
  clean_connections-kept sl =
      v.listed (clean_loop sl.peers sl).0 (clean_loop sl.peers sl).1 ∙ clean_loop-kept sl.peers sl

  close_all-kept : (ps : List PeerInfo) (sl : ServerList) → g (close_all ps sl) ≡ g sl
  unfolding close_all
  close_all-kept [] sl = refl
  close_all-kept (p ∷ ps) sl =
      close_all-kept ps (request_close p.manager (some p.address) sl)
      ∙ v.closed p.manager (some p.address) sl

  purge_connections-kept : (now : ℕ) (sl : ServerList) → g (purge_connections now sl) ≡ g sl
  unfolding purge_connections
  purge_connections-kept now sl = v.purged now (close_all sl.peers sl) ∙ close_all-kept sl.peers sl

  perform-kept : (k : TaskClock) (t : TaskInfo) (sl : ServerList) → g (perform k t sl) ≡ g sl
  unfolding perform
  perform-kept k t sl = ground (
    arith,
    clean_connections-kept sl,
    purge_connections-kept k.purged sl,
    purge_connections-kept k.purged (clean_connections sl),
  )

  pub run_task-kept :
      (k : TaskClock) (t : TaskInfo) (sl : ServerList) → g (run_task k t sl).1 ≡ g sl
  unfolding run_task
  run_task-kept k t sl = ground (arith, perform-kept k t sl)
