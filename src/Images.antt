-- ===== src/Images.antt =====
-- threadpool+connpool: images that the threads of a pool write to a database, each with a connection of
-- a second pool. What is done under a lock is one step, and a schedule says which thread goes next. The
-- list of tasks is changed at its head only, by LIST_INSERT and LIST_REMOVE, and stands as a sequence.
pub mod Slots
pub mod Tasks
pub mod Turns
pub mod Runs
mod Examples
use voice.Prelude.{
  ℕ, zero, suc, Bool, true, false, Option, none, some, List, [], ◌∷◌, ◌++◌, map, ◌==◌, leb,
  if◌then◌else◌, get_elem?, set,
}
use voice.Prelude.Int.{ℤ, pos, negsuc}
use voice.Prelude.Run.{Run, ok, fault, ◌>>=◌}

abbrev pub connection_pool_size : ℕ
connection_pool_size = 10

abbrev pub file_image_length : ℕ
file_image_length = 262144

-- A connection is the address of its handle, 0 for NULL.
pub record ConnSlot : Type 0 where
  pub conn : ℕ
  pub used : Bool

-- What mysql_init gives for the i-th slot, and whether mysql_real_connect succeeds on it.
unfoldable pub init_slots : ℕ → ℕ → (ℕ → ℕ × Bool) → List ConnSlot
init_slots zero i answers = []
init_slots (suc n) i answers =
    let (handle, is_connected) = answers i in
    record { conn = if is_connected then handle else 0; used = false }
    ∷ init_slots n (suc i) answers

unfoldable pub init_conn_pool : (ℕ → ℕ × Bool) → List ConnSlot
unfolding init_slots
init_conn_pool = init_slots connection_pool_size 0

-- The first slot that is not used, whatever it holds.
unfoldable pub get_conn : List ConnSlot → ℕ × List ConnSlot
get_conn [] = (0, [])
get_conn (s ∷ slots) =
    let (conn, rest) = get_conn slots in
    if s.used then (conn, s ∷ rest) else (s.conn, record s { used = true } ∷ slots)

unfoldable pub release_conn : ℕ → List ConnSlot → List ConnSlot
release_conn conn [] = []
release_conn conn (s ∷ slots) =
    let rest = release_conn conn slots in
    if s.conn == conn then record s { used = false } ∷ slots else s ∷ rest

-- The length of the file, or none if it cannot be opened; fread takes as many bytes as that.
unfoldable pub read_image : Option ℕ → Run ℤ
read_image none = ok (negsuc 0)
read_image (some length) = if leb length file_image_length then ok (pos length) else fault

-- Where a thread is: before the lock of the loop, with a task, in task_entry with a connection, or over.
pub data Doing : Type 0 where
  looping over : Doing
  fetched : ℕ → Doing
  connected : (task : ℕ) (conn : ℕ) → Doing

pub record ImageWorker : Type 0 where
  pub terminate : Bool
  pub doing : Doing

-- `pushed` are the tasks that main has pushed, `written` the calls of mysql_write_image and `dropped` the
-- tasks that stood in the list when it was destroyed; the last comes first.
pub record Images : Type 0 where
  pub tasks : List ℕ
  pub workers : List ImageWorker
  pub slots : List ConnSlot
  pub pushed : List ℕ
  pub written : List (ℕ × ℕ)
  pub dropped : List ℕ

abbrev pub now : ℕ → ImageWorker → Doing → Images → Images
now k w doing s = record s { workers = set s.workers k (record w { doing = doing }) }

-- A worker that has the lock: it waits, ends, or takes the first task.
unfoldable pub take_task : ℕ → ImageWorker → List ℕ → Images → Images
take_task k w [] s = if w.terminate then now k w over s else s
take_task k w (t ∷ tasks) s =
    if w.terminate then now k w over s else now k w (fetched t) (record s { tasks = tasks })

-- mysql_write_image, where the client library's calls succeed: a handle that is NULL is dereferenced, and a
-- length of -1 is the largest number of bytes to send.
unfoldable pub mysql_write_image : ℕ → ℤ → Run ℕ
mysql_write_image conn (negsuc n) = fault
mysql_write_image conn (pos length) = if conn == 0 then fault else ok 0

-- task_entry up to release_conn; another thread sees of it the slots. It goes on to mysql_write_image without an
-- image and without a connection.
unfoldable pub enter_task : Option ℕ → ℕ → ImageWorker → ℕ → Images → Run Images
unfolding read_image mysql_write_image
enter_task file k w t s = read_image file >>= λ img_len.
    let (conn, slots) = get_conn s.slots in
    mysql_write_image conn img_len >>= λ _.
    ok (now k w (connected t conn) (record s { slots = slots }))

unfoldable pub image_turn : (ℕ → Option ℕ) → ℕ → ImageWorker → Doing → Images → Run Images
unfolding take_task enter_task
image_turn files k w looping s = ok (take_task k w s.tasks s)
image_turn files k w over s = ok s
image_turn files k w (fetched t) s = enter_task (files t) k w t s
image_turn files k w (connected t conn) s = ok (
    now k w looping
      (record s { slots = release_conn conn s.slots; written = (t, conn) ∷ s.written }))

pub data ImageMove : Type 0 where
  pushes : ℕ → ImageMove
  turn_of : ℕ → ImageMove
  destroys : ImageMove

-- A step of main, or of the k-th worker.
unfoldable pub image_move : (ℕ → Option ℕ) → ImageMove → Images → Run Images
unfolding image_turn
image_move files (pushes t) s = ok (record s { tasks = t ∷ s.tasks; pushed = t ∷ s.pushed })
image_move files (turn_of k) s = elim (get_elem? s.workers k) [
  | none ↦ ok s
  | some w ↦ image_turn files k w w.doing s
]
image_move files destroys s = ok (record s {
  tasks = [];
  dropped = s.tasks ++ s.dropped;
  workers = map (λ (w : ImageWorker). record w { terminate = true }) s.workers;
})

unfoldable pub image_run : (ℕ → Option ℕ) → List ImageMove → Images → Run Images
unfolding image_move
image_run files [] s = ok s
image_run files (m ∷ moves) s = image_move files m s >>= λ s'. image_run files moves s'

-- nThreadPoolCreate leaves `terminate` of a worker as malloc gave it.
unfoldable pub image_start : List Bool → (ℕ → ℕ × Bool) → Images
unfolding init_conn_pool
image_start terminates answers = record {
  tasks = [];
  workers = map (λ (b : Bool). record { terminate = b; doing = looping }) terminates;
  slots = init_conn_pool answers;
  pushed = [];
  written = [];
  dropped = [];
}
