-- ===== src/Pool.antt =====
-- mysql_conn_pool.c: the pool of database connections. A connection is the address of its handle, and
-- `conns[i]` with `used[i]` is a slot. Each operation holds the lock, so it is one step.
pub mod Leases
mod Examples
use voice.Prelude.{ℕ, zero, suc, Bool, true, false, not, ◌&&◌, List, [], ◌∷◌, ◌==◌, if◌then◌else◌}

abbrev pub null : ℕ
null = 0

abbrev pub max_connection : ℕ
max_connection = 10

pub record Slot : Type 0 where
  pub conn : ℕ
  pub used : Bool

abbrev pub MysqlPool : Type 0
MysqlPool = List Slot

-- What mysql_init returns for the i-th slot, and whether mysql_real_connect succeeds on it.
abbrev pub Answers : Type 0
Answers = ℕ → ℕ × Bool

unfoldable pub init_from : ℕ → ℕ → Answers → MysqlPool
init_from zero i answers = []
init_from (suc n) i answers =
    let (conn, connected) = answers i in
    record { conn = if connected then conn else null; used = false } ∷ init_from n (suc i) answers

unfoldable pub mysql_pool_init : Answers → MysqlPool
unfolding init_from
mysql_pool_init = init_from max_connection 0

-- The connection, or NULL, and the pool.
unfoldable pub mysql_pool_get : MysqlPool → ℕ × MysqlPool
mysql_pool_get [] = (null, [])
mysql_pool_get (s ∷ pool) =
    let (conn, rest) = mysql_pool_get pool in
    if not s.used && not (s.conn == null)
    then (s.conn, record s { used = true } ∷ pool)
    else (conn, s ∷ rest)

unfoldable pub mysql_pool_release : ℕ → MysqlPool → MysqlPool
mysql_pool_release conn [] = []
mysql_pool_release conn (s ∷ pool) =
    let rest = mysql_pool_release conn pool in
    if s.conn == conn then record s { used = false } ∷ pool else s ∷ rest

-- The connections that are closed, and the pool.
unfoldable pub mysql_pool_destroy : MysqlPool → List ℕ × MysqlPool
mysql_pool_destroy [] = ([], [])
mysql_pool_destroy (s ∷ pool) =
    let (closed, rest) = mysql_pool_destroy pool in
    if s.conn == null
    then (closed, s ∷ rest)
    else (s.conn ∷ closed, record s { conn = null } ∷ rest)
