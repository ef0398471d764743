-- ===== src/Locks/Requests.antt =====
-- lock_repository.go: the requests of several editors, one after the other.
use terraform_state_manager.Prelude.{ℕ, List, [], ◌∷◌, Bytes, Result, ok, err}
use terraform_state_manager.Locks.Table.{Lock, Held, acquire, renew, release, force_release}

-- The requests of the editors, each at its time and with the id that a new row gets.
pub data Request : Type 0 where
  takes : ℕ → Bytes → Bytes → Bytes → Bytes → Request
  renews : ℕ → Bytes → Bytes → Bytes → Request
  releases : Bytes → Bytes → Bytes → Request
  forces : Bytes → Bytes → Request

unfoldable pub taken : Result Held (List Lock) → List Lock → List Lock
taken (ok next) locks = next
taken (err why) locks = locks

unfoldable pub answer : Request → List Lock → List Lock
unfolding acquire renew release force_release taken
answer (takes now id s k actor) locks = taken (acquire now id s k actor locks) locks
answer (renews now s k id) locks = (renew now s k id locks).0
answer (releases s k id) locks = release s k id locks
answer (forces s k) locks = (force_release s k locks).0

unfoldable pub answer_all : List Request → List Lock → List Lock
unfolding answer
answer_all [] locks = locks
answer_all (r ∷ rs) locks = answer_all rs (answer r locks)
