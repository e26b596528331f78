-- ===== src/Kernel.antt =====
-- Zephyr's message queue, which is not part of the repository: its operations as a record, with
-- what the documentation of `k_msgq_put`, `k_msgq_purge` and `k_msgq_num_used_get` promises.
use g_sierra.Common.{
  ℕ, ◌≤◌, ◌<◌, ◌≡◌, refl, true, List, [], ◌∷◌, ◌++◌, ltb, if◌then◌else◌, length, arith,
}
use g_sierra.Common.Int.{ℤ, pos, negsuc, is_nonzero}

-- A message is a list of bytes. `put` is `k_msgq_put` with `K_NO_WAIT`: its return value, and the
-- queue afterwards.
pub record Msgq : Type 1 where
  pub Queue : Type 0
  pub contents : Queue → List (List ℕ)
  pub max_msgs : ℕ
  pub put : List ℕ → Queue → ℤ × Queue
  pub purge : Queue → Queue
  pub put_room_result :
      (m : List ℕ) (q : Queue) → length (contents q) < max_msgs → (put m q).0 ≡ pos 0
  pub put_room :
      (m : List ℕ) (q : Queue)
      → length (contents q) < max_msgs
      → contents (put m q).1 ≡ contents q ++ m ∷ []
  pub put_full_result :
      (m : List ℕ) (q : Queue) → max_msgs ≤ length (contents q) → is_nonzero (put m q).0 ≡ true
  pub put_full :
      (m : List ℕ) (q : Queue) → max_msgs ≤ length (contents q) → contents (put m q).1 ≡ contents q
  pub contents-purge : (q : Queue) → contents (purge q) ≡ []

-- A queue that is the list of its messages meets these promises.
module _ (max : ℕ) where
  abbrev pub list_put : List ℕ → List (List ℕ) → ℤ × List (List ℕ)
  list_put m q = if ltb (length q) max then (pos 0, q ++ m ∷ []) else (negsuc 34, q)

  pub list_put_room_result :
      (m : List ℕ) (q : List (List ℕ)) → length q < max → (list_put m q).0 ≡ pos 0
  list_put_room_result m q h = ground arith

  pub list_put_room :
      (m : List ℕ) (q : List (List ℕ)) → length q < max → (list_put m q).1 ≡ q ++ m ∷ []
  list_put_room m q h = ground arith

  pub list_put_full_result :
      (m : List ℕ) (q : List (List ℕ)) → max ≤ length q → is_nonzero (list_put m q).0 ≡ true
  list_put_full_result m q h = ground arith

  pub list_put_full : (m : List ℕ) (q : List (List ℕ)) → max ≤ length q → (list_put m q).1 ≡ q
  list_put_full m q h = ground arith

  abbrev pub list_msgq : Msgq
  list_msgq = record {
    Queue = List (List ℕ);
    contents = λ q. q;
    max_msgs = max;
    put = list_put;
    purge = λ q. [];
    put_room_result = list_put_room_result;
    put_room = list_put_room;
    put_full_result = list_put_full_result;
    put_full = list_put_full;
    contents-purge = λ q. refl;
  }
