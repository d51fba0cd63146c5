-- ===== src/Manager/Pool.antt =====
-- `ThreadedConnectionManagerList` (src/ThreadedConnectionManagerList.cpp).
use relb.Prelude.{
  ℕ, suc, Option, none, some, List, [], ◌∷◌, ◌++◌, length, ◌==◌, ltb, if◌then◌else◌, ◌&&◌,
}
use relb.Manager.Rounds.{Manager, new, get_free_connections, get_active_connections}

-- `max_peers` is MAX_PEERS_PER_FDSET, which the system headers give.
pub record Pool : Type 0 where
  pub managers : List Manager
  pub peers_per_thread : ℕ
  pub max_peers : ℕ

unfoldable pub set_peers_per_thread : ℕ → Pool → Pool
set_peers_per_thread n l = if ltb 0 n then record l { peers_per_thread = n } else l

unfoldable pub clean_list : Pool → Pool
clean_list l = record l { managers = [] }

-- Managers without connections are deleted.
unfoldable pub keep_busy : List Manager → List Manager
unfolding get_active_connections
keep_busy [] = []
keep_busy (m ∷ ms) =
    let rest = keep_busy ms in if get_active_connections m == 0 then rest else m ∷ rest

unfoldable pub purify_list : Pool → Pool
unfolding keep_busy
purify_list l = record l { managers = keep_busy l.managers }

-- The index of the new manager, the last, comes with the list.
unfoldable pub add_new : Pool → Pool × ℕ
unfolding new
add_new l = (
  record l { managers = l.managers ++ new l.max_peers l.peers_per_thread ∷ [] },
  length l.managers,
)

-- `pcm` and `freeconections`: an index with its number of free places; `none` is NULL and -1.
pub record Best : Type 0 where
  pub index : ℕ
  pub free : ℕ

unfoldable pub better : ℕ → ℕ → Option Best → Option Best
better i current none = if ltb 0 current then some (record { index = i; free = current }) else none
better i current (some b) =
    if ltb b.free current && ltb 0 current
    then some (record { index = i; free = current })
    else some b

unfoldable pub find_best : ℕ → Option Best → List Manager → Option Best
unfolding better get_free_connections
find_best i best [] = best
find_best i best (m ∷ ms) = find_best (suc i) (better i (get_free_connections m) best) ms

-- The search begins at the index 1.
abbrev pub candidates : List Manager → List Manager
candidates [] = []
candidates (m ∷ ms) = ms

unfoldable pub get_free_manager : Pool → Pool × ℕ
unfolding add_new find_best
get_free_manager l = elim (find_best 1 none (candidates l.managers)) [
  | none ↦ add_new l
  | some b ↦ if ltb b.free 1 then add_new l else (l, b.index)
]
