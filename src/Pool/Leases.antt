-- ===== src/Pool/Leases.antt =====
-- Who holds which connection of the pool.
use voice.Prelude.{
  ℕ, suc, ◌+◌, ◌≤◌, ◌≡◌, ◌≢◌, ◌↔◌, refl, ap, false, not, ◌&&◌, List, [], ◌∷◌, arith, ◌==◌,
  if◌then◌else◌, All, Bool-cases, inl, inr, map,
}
use voice.Pool.{
  null, Slot, MysqlPool, Answers, mysql_pool_init, mysql_pool_get, mysql_pool_release,
  mysql_pool_destroy,
}

-- How often `c` occurs.
abbrev pub count : ℕ → List ℕ → ℕ
count c [] = 0
count c (d ∷ ds) = if d == c then suc (count c ds) else count c ds

-- Without its first occurrence.
abbrev pub remove : ℕ → List ℕ → List ℕ
remove c [] = []
remove c (d ∷ ds) = if d == c then ds else d ∷ remove c ds

abbrev conn_of : Slot → ℕ
conn_of s = s.conn

abbrev pub conns : MysqlPool → List ℕ
conns = map conn_of

-- The connections that the pool takes for given away.
abbrev pub leased : MysqlPool → List ℕ
leased [] = []
leased (s ∷ pool) = if s.used then s.conn ∷ leased pool else leased pool

-- What the clients do: ask for a connection, or give one back.
pub data Action : Type 0 where
  get_conn : Action
  give_back : ℕ → Action

-- The pool, and the connections that the clients hold. They give back what they hold.
abbrev pub State : Type 0
State = MysqlPool × List ℕ

abbrev pub act : Action → State → State
act get_conn (pool, held) =
    let (conn, pool') = mysql_pool_get pool in (pool', if conn == null then held else conn ∷ held)
act (give_back conn) (pool, held) =
    if count conn held == 0 then (pool, held) else (mysql_pool_release conn pool, remove conn held)

abbrev pub acts : List Action → State → State
acts [] s = s
acts (a ∷ more) s = acts more (act a s)

-- Every connection is in one slot, and the pool's marks agree with what is held.
pub record IsState (s : State) : Type 0 where
  pub distinct : (c : ℕ) → c ≢ null → count c (conns s.0) ≤ 1
  pub agree : (c : ℕ) → c ≢ null → count c s.1 ≡ count c (leased s.0)
  pub no_null : count null s.1 ≡ 0

conns-get : (pool : MysqlPool) → conns (mysql_pool_get pool).1 ≡ conns pool
unfolding mysql_pool_get
conns-get [] = refl
conns-get (s ∷ pool) = elim (Bool-cases (not s.used && not (s.conn == null))) [
  | inl e ↦ rw (e) refl
  | inr e ↦ rw (e, conns-get pool) refl
]

conns-release : (conn : ℕ) (pool : MysqlPool) → conns (mysql_pool_release conn pool) ≡ conns pool
unfolding mysql_pool_release
conns-release conn [] = refl
conns-release conn (s ∷ pool) = elim (Bool-cases (s.conn == conn)) [
  | inl e ↦ rw (e) refl
  | inr e ↦ rw (e, conns-release conn pool) refl
]

-- A connection that is handed out was free and is marked.
leased-get :
    (c : ℕ) (pool : MysqlPool)
    → c ≢ null
    → count c (leased (mysql_pool_get pool).1)
      ≡ count c (leased pool) + (if (mysql_pool_get pool).0 == c then 1 else 0)
unfolding mysql_pool_get
leased-get c [] ne = ground arith
leased-get c (s ∷ pool) ne = ground (arith, leased-get c pool ne)

leased_le : (c : ℕ) (pool : MysqlPool) → count c (leased pool) ≤ count c (conns pool)
leased_le c [] = omega arith
leased_le c (s ∷ pool) = ground (arith, leased_le c pool)

-- A connection that is given back is free.
leased-release :
    (c conn : ℕ) (pool : MysqlPool)
    → count conn (conns pool) ≤ 1
    → count conn (leased pool) ≡ 1
    → count c (leased pool)
      ≡ count c (leased (mysql_pool_release conn pool)) + (if conn == c then 1 else 0)
unfolding mysql_pool_release
leased-release c conn [] one l = absurd (omega arith)
leased-release c conn (s ∷ pool) one l =
    ground (arith, leased-release c conn pool, leased_le conn pool)

count-remove :
    (c conn : ℕ) (held : List ℕ)
    → count conn held ≢ 0
    → count c held ≡ count c (remove conn held) + (if conn == c then 1 else 0)
count-remove c conn [] h = absurd (h refl)
count-remove c conn (d ∷ held) h = ground (arith, count-remove c conn held)

get-IsState :
    (pool : MysqlPool) (held : List ℕ) → IsState (pool, held) → IsState (act get_conn (pool, held))
get-IsState pool held v = record {
  distinct = λ c ne. rw (conns-get pool) (v.distinct c ne);
  agree = λ c ne. ground (arith, v.agree c ne, leased-get c pool ne);
  no_null = ground (arith, v.no_null);
}

release-IsState :
    (conn : ℕ) (pool : MysqlPool) (held : List ℕ)
    → IsState (pool, held)
    → IsState (act (give_back conn) (pool, held))
release-IsState conn pool held v = elim (Bool-cases (count conn held == 0)) [
  | inl e ↦ rw (e) v
  | inr e ↦
      let some_held : count conn held ≢ 0 = ground (arith, e) in
      let real : conn ≢ null = λ q. some_held (rw (q) (v.no_null)) in
      let one = v.distinct conn real in
      let marked : count conn (leased pool) ≡ 1 =
        omega (arith, some_held, v.agree conn real, leased_le conn pool, one) in
      rw (e) (record {
        distinct = λ c ne. rw (conns-release conn pool) (v.distinct c ne);
        agree = λ c ne. omega (
          arith,
          v.agree c ne,
          leased-release c conn pool one marked,
          count-remove c conn held some_held,
        );
        no_null = omega (arith, v.no_null, count-remove null conn held some_held);
      })
]

-- Whatever the clients ask for and give back, the marks of the pool agree with what they hold.
pub acts-IsState : (actions : List Action) (s : State) → IsState s → IsState (acts actions s)
acts-IsState [] s v = v
acts-IsState (get_conn ∷ more) (pool, held) v = acts-IsState more _ (get-IsState pool held v)
acts-IsState (give_back conn ∷ more) (pool, held) v =
    acts-IsState more _ (release-IsState conn pool held v)

pub init-IsState :
    (answers : Answers)
    → ((d : ℕ) → d ≢ null → count d (conns (mysql_pool_init answers)) ≤ 1)
    → IsState (mysql_pool_init answers, [])
unfolding mysql_pool_init
init-IsState answers distinct = record { distinct = distinct; agree = λ c ne. refl; no_null = refl }

-- From a pool that is initialised with handles that differ, no connection is ever held twice.
pub acts-exclusive :
    (answers : Answers) (actions : List Action) (c : ℕ)
    → ((d : ℕ) → d ≢ null → count d (conns (mysql_pool_init answers)) ≤ 1)
    → count c (acts actions (mysql_pool_init answers, [])).1 ≤ 1
acts-exclusive answers actions c distinct = elim (Bool-cases (c == null)) [
  | inl e ↦ ground (arith, e, final.no_null)
  | inr e ↦
      let ne : c ≢ null = ground (arith, e) in
      omega (
        arith,
        final.agree c ne,
        leased_le c (acts actions (mysql_pool_init answers, [])).0,
        final.distinct c ne,
      )
]
  where
    final : IsState (acts actions (mysql_pool_init answers, []))
    final = acts-IsState actions _ (init-IsState answers distinct)

-- The pool answers NULL exactly when every slot is marked or has no connection.
pub mysql_pool_get-null :
    (pool : MysqlPool)
    → ((mysql_pool_get pool).0 ≡ null)
      ↔ All (λ s. (not s.used && not (s.conn == null)) ≡ false) pool
unfolding mysql_pool_get
mysql_pool_get-null [] = (λ e. tt, λ a. refl)
mysql_pool_get-null (s ∷ pool) = ground (arith, mysql_pool_get-null pool)

-- When all are given back, every connected slot is free: no connection is lost.
pub acts-returned :
    (actions : List Action) (s : State) (c : ℕ)
    → IsState s
    → c ≢ null
    → (acts actions s).1 ≡ []
    → count c (leased (acts actions s).0) ≡ 0
acts-returned actions s c v ne e =
    ground (arith, (acts-IsState actions s v).agree c ne, ap (count c) e)

-- mysql_pool_destroy closes every connection as often as it stands in the pool, and leaves none there.
pub mysql_pool_destroy-closes :
    (pool : MysqlPool) (c : ℕ)
    → c ≢ null
    → (count c (mysql_pool_destroy pool).0 ≡ count c (conns pool))
      × (count c (conns (mysql_pool_destroy pool).1) ≡ 0)
unfolding mysql_pool_destroy
mysql_pool_destroy-closes [] c ne = (refl, refl)
mysql_pool_destroy-closes (s ∷ pool) c ne = ground (arith, mysql_pool_destroy-closes pool c ne)
