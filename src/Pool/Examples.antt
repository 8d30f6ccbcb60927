-- ===== src/Pool/Examples.antt =====
-- A pool in which two handles connect.
use voice.Prelude.{ℕ, suc, ◌≤◌, ◌≢◌, [], ◌∷◌, arith, ltb}
use voice.Pool.{null, Answers, mysql_pool_init}
use voice.Pool.Leases.{count, conns, get_conn, give_back, acts, acts-exclusive}

abbrev answers : Answers
answers i = (suc i, ltb i 2)

answers-distinct : (d : ℕ) → d ≢ null → count d (conns (mysql_pool_init answers)) ≤ 1
unfolding mysql_pool_init
answers-distinct d ne = ground arith

exclusive_example :
    count 1
      (acts (get_conn ∷ give_back 1 ∷ get_conn ∷ get_conn ∷ []) (mysql_pool_init answers, [])).1
    ≤ 1
exclusive_example =
    acts-exclusive answers (get_conn ∷ give_back 1 ∷ get_conn ∷ get_conn ∷ []) 1 answers-distinct
