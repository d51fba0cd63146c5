-- ===== src/ServerList/Finish.antt =====
-- Messages and tasks leave `finish` alone (src/ServerList.cpp).
use relb.Prelude.{ℕ, suc, ◌≡◌, refl, ◌∙◌, Bool, false, List, [], ◌∷◌, arith}
use relb.ServerList.State.{PeerInfo, TaskInfo, ServerList, post_parallel, request_close}
use relb.ServerList.Messages.{
  record_status, end_connection, establish_connection, account, process_message,
}
use relb.ServerList.Cleaning.{forget_peer}
use relb.ServerList.Frame.{IsKept, run_task-kept}
use relb.ServerList.Tasks.{TaskClock, task_loop, run_tasks}

record_status-finish :
    (id now i : ℕ) (p : PeerInfo) (sl : ServerList)
    → (record_status id now i p sl).finish ≡ sl.finish
unfolding record_status post_parallel request_close
record_status-finish id now i p sl = ground arith

end_connection-finish :
    (id now i : ℕ) (p : PeerInfo) (sl : ServerList)
    → (end_connection id now i p sl).finish ≡ sl.finish
unfolding end_connection
end_connection-finish id now i p sl = ground arith

account-finish :
    (id now i : ℕ) (p : PeerInfo) (sl : ServerList) → (account id now i p sl).finish ≡ sl.finish
unfolding account establish_connection
account-finish id now i p sl = ground (arith, end_connection-finish id now i p sl)

pub process_message-finish :
    (id address noted now : ℕ) (sl : ServerList)
    → (process_message id address noted now sl).finish ≡ sl.finish
unfolding process_message
process_message-finish id address noted now sl = grind (arith, account-finish, record_status-finish)

finish-IsKept : IsKept (λ sl. sl.finish)
unfolding forget_peer post_parallel request_close
finish-IsKept = record {
  forgotten = λ p sl. ground arith;
  closed = λ manager pointer sl. ground arith;
  listed = λ ps sl. refl;
  purged = λ now sl. refl;
}

task_loop-finish :
    (clock : ℕ → TaskClock) (i : ℕ) (kept : Bool) (ts : List TaskInfo) (sl : ServerList)
    → (task_loop clock i kept ts sl).1.finish ≡ sl.finish
unfolding task_loop
task_loop-finish clock i kept [] sl = refl
task_loop-finish clock i kept (t ∷ ts) sl =
    task_loop-finish clock (suc i) _ ts _
    ∙ run_task-kept (λ l. l.finish) finish-IsKept (clock i) t sl

pub run_tasks-finish :
    (now : ℕ) (clock : ℕ → TaskClock) (sl : ServerList)
    → (run_tasks now clock sl).finish ≡ sl.finish
unfolding run_tasks
run_tasks-finish now clock sl = ground (arith, task_loop-finish clock 0 false sl.tasks sl)
