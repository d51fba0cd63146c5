-- ===== src/Config/Tasks.antt =====
-- The tag task: of `processConfigLine` (src/AppConfig.cpp).
use relb.Prelude.{
  ℕ, ◌+◌, ◌-◌, ◌*◌, ◌/◌, Bool, true, false, ◌&&◌, List, [], ◌∷◌, ◌++◌, ◌==◌, if◌then◌else◌,
  skip_while, after_word, past, starts, codes, is_blank, is_space,
}
use relb.Prelude.Int.{ℤ, pos, pos_part, ltb_ℤ, ◌+ℤ◌, ◌-ℤ◌}
use relb.Parse.{atoi}
use relb.Config.State.{TaskConf, AppConfig, Calendar, on_last}

-- The last tag that fits, `clean` if none does.
unfoldable pub task_type_of : List ℕ → ℕ
task_type_of text =
    if starts (codes "purge") text
    then 3
    else if starts (codes "clean") text
    then 2
    else if starts (codes "update") text
    then 1
    else 2

abbrev pub is_colon : ℕ → Bool
is_colon c = c == b':'

abbrev pub is_slash : ℕ → Bool
is_slash c = c == b'/'

-- HH:mm:ss; a part that is not there is 0.
unfoldable pub time_of : Calendar → List ℕ → ℤ
unfolding atoi
time_of k text =
    let minutes = past (after_word is_colon text) in
    let seconds = past (after_word is_colon minutes) in
    k.encode_time (atoi text) (atoi minutes) (atoi seconds)

-- An hour alone means today; a number of five digits or more is YYYYMMDD; else YYYY/MM/DD. A time may
-- follow a date.
unfoldable pub first_run_of : Calendar → List ℕ → ℤ
unfolding time_of atoi
first_run_of k text =
    let n = atoi text in
    let date = pos_part n in
    let month = past (after_word is_slash text) in
    let day = past (after_word is_slash month) in
    let compact =
      k.encode_date (pos (date / 10000)) (pos ((date - date / 10000 * 10000) / 100))
        (pos (date - date / 10000 * 10000 - (date - date / 10000 * 10000) / 100 * 100)) in
    let parted = k.encode_date n (atoi month) (atoi day) in
    let behind = λ (s : List ℕ). time_of k (skip_while is_space (after_word is_space s)) in
    if ltb_ℤ n (pos 24)
    then k.encode_date k.year k.month k.day +ℤ time_of k text -ℤ k.offset
    else if ltb_ℤ (pos 9999) n
    then compact -ℤ k.offset +ℤ behind text
    else parted -ℤ k.offset +ℤ behind day

-- The first of the times that lies behind the present, for a positive interval.
unfoldable pub next_run : Calendar → ℤ → ℤ → ℤ
next_run k interval first =
    let period = 1000 * pos_part interval in
    first +ℤ pos ((pos_part (k.again -ℤ first) / period + 1) * period)

-- What stands behind the interval. The task, and whether it is valid: without a first run the
-- interval is added as milliseconds; with one, that the interval is positive is only asked when the
-- first run is past.
unfoldable pub task_starting : Calendar → ℕ → ℤ → List ℕ → TaskConf × Bool
unfolding first_run_of next_run
task_starting k type interval [] = (
  record {
    task_type = type;
    fixed_time = false;
    run_interval_seconds = interval;
    next_run_time = k.unset +ℤ interval;
  },
  ltb_ℤ (pos 0) interval,
)
task_starting k type interval (c ∷ cs) =
    let first = first_run_of k (c ∷ cs) in
    let past_run = k.is_valid first && ltb_ℤ first k.compared in
    let repeats = ltb_ℤ (pos 0) interval in
    (
      record {
        task_type = type;
        fixed_time = true;
        run_interval_seconds = interval;
        next_run_time = (if past_run && repeats then next_run k interval first else first);
      },
      (if past_run then repeats else k.is_valid first),
    )

unfoldable pub task_of : Calendar → List ℕ → TaskConf × Bool
unfolding task_type_of task_starting atoi
task_of k line =
    let text = skip_while is_blank line in
    let number = skip_while is_space (after_word is_space text) in
    let start = skip_while is_space (after_word is_space number) in
    task_starting k (task_type_of text) (atoi number) start

unfoldable pub task_line : Calendar → List ℕ → AppConfig → AppConfig
unfolding task_of on_last
task_line k text c =
    let (t, valid) = task_of k text in
    if valid
    then record c { bind = on_last (λ b. record b { tasks = b.tasks ++ t ∷ [] }) c.bind }
    else c
