-- ===== src/Config/Cursor.antt =====
-- The positions of `AppConfig` and what its getters return there (src/AppConfig.cpp).
use relb.Prelude.{ℕ, ◌+◌, Bool, false, Option, none, some, List, length, get_elem?, ltb}
use relb.Prelude.Int.{ℤ, pos, negsuc, ltb_ℤ, ◌+ℤ◌}
use relb.Filters.{FilterInfo}
use relb.Config.State.{BindAddress, DstConf, TaskConf, BindConf, AppConfig}

-- `bind[ currentBind ]`, if there is one.
abbrev pub selected : AppConfig → Option BindConf
selected c = get_elem? c.bind c.current_bind

-- A value of what is there, or the one that stands for nothing.
abbrev pub value_of : {A B : Type 0} → (A → B) → B → Option A → B
value_of f void none = void
value_of f void (some x) = f x

-- A position that may be -1: below the length too, but nothing is there to be read. `none` is this
-- fault.
abbrev pub value_at : {A B : Type 0} → List A → (A → B) → B → ℤ → Option B
value_at xs f void (pos i) = some (value_of f void (get_elem? xs i))
value_at xs f void (negsuc i) = none

abbrev pub of_address : {B : Type 0} → (BindAddress → B) → B → AppConfig → B
of_address f void c =
    value_of (λ b. value_of f void (get_elem? b.address c.current_address)) void (selected c)

abbrev pub of_server : {B : Type 0} → (DstConf → B) → B → AppConfig → B
of_server f void c =
    value_of (λ b. value_of f void (get_elem? b.dst c.current_server)) void (selected c)

abbrev pub of_task : {B : Type 0} → (TaskConf → B) → B → AppConfig → Option B
of_task f void c = value_of (λ b. value_at b.tasks f void c.current_task) (some void) (selected c)

abbrev pub of_filter : {B : Type 0} → (FilterInfo → B) → B → AppConfig → Option B
of_filter f void c =
    value_of (λ b. value_at b.filter f void c.current_filter) (some void) (selected c)

-- Is the position within the part's list?
abbrev pub within : {A : Type 0} → (BindConf → List A) → ℕ → AppConfig → Bool
within f i c = value_of (λ b. ltb i (length (f b))) false (selected c)

abbrev pub within_at : {A : Type 0} → (BindConf → List A) → ℤ → AppConfig → Bool
within_at f i c = value_of (λ b. ltb_ℤ i (pos (length (f b)))) false (selected c)

abbrev pub count : {A : Type 0} → (BindConf → List A) → AppConfig → ℕ
count f c = value_of (λ b. length (f b)) 0 (selected c)

unfoldable pub get_first_bind : AppConfig → AppConfig × Bool
get_first_bind c = (record c { current_bind = 0 }, ltb 0 (length c.bind))

unfoldable pub get_next_bind : AppConfig → AppConfig × Bool
get_next_bind c =
    let next = c.current_bind + 1 in (record c { current_bind = next }, ltb next (length c.bind))

unfoldable pub get_first_server : AppConfig → AppConfig × Bool
get_first_server c = (record c { current_server = 0 }, within (λ b. b.dst) 0 c)

unfoldable pub get_next_server : AppConfig → AppConfig × Bool
get_next_server c =
    let next = c.current_server + 1 in
    (record c { current_server = next }, within (λ b. b.dst) next c)

unfoldable pub get_next_address : AppConfig → AppConfig × Bool
get_next_address c =
    let next = c.current_address + 1 in
    (record c { current_address = next }, within (λ b. b.address) next c)

unfoldable pub get_tasks_count : AppConfig → AppConfig × ℕ
get_tasks_count c = (record c { current_task = negsuc 0 }, count (λ b. b.tasks) c)

unfoldable pub get_next_task : AppConfig → AppConfig × Bool
get_next_task c =
    let next = c.current_task +ℤ pos 1 in
    (record c { current_task = next }, within_at (λ b. b.tasks) next c)

unfoldable pub get_filter_count : AppConfig → AppConfig × ℕ
get_filter_count c = (record c { current_filter = negsuc 0 }, count (λ b. b.filter) c)

unfoldable pub get_next_filter : AppConfig → AppConfig × Bool
get_next_filter c =
    let next = c.current_filter +ℤ pos 1 in
    (record c { current_filter = next }, within_at (λ b. b.filter) next c)
