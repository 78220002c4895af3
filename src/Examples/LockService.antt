-- ===== src/Examples/LockService.antt =====
-- examples/lock_service_1/server.cpp: the callback of a lock server that keeps its locks in memory.
pub mod Balance
use libpaxos_cpp.Base.{
  Bool, Bytes, List, Outcome, [], false, fault, if◌then◌else◌, not, ok, thrown, ℤ, ◌>>=◌, ◌||◌, ◌∷◌,
}
use libpaxos_cpp.Strategy.Leader.{same_bytes}

-- "lock", "unlock", "success" and "fail"
abbrev pub lock : Bytes
lock = 108 ∷ 111 ∷ 99 ∷ 107 ∷ []

abbrev pub unlock : Bytes
unlock = 117 ∷ 110 ∷ 108 ∷ 111 ∷ 99 ∷ 107 ∷ []

abbrev pub success : Bytes
success = 115 ∷ 117 ∷ 99 ∷ 99 ∷ 101 ∷ 115 ∷ 115 ∷ []

abbrev pub fail : Bytes
fail = 102 ∷ 97 ∷ 105 ∷ 108 ∷ []

-- `tokens.at (0)` and `tokens.at (1)` throw where there is no such token.
abbrev pub first_token : List Bytes → Outcome Bytes
first_token [] = fault thrown
first_token (t ∷ tokens) = ok t

abbrev pub second_token : List Bytes → Outcome Bytes
second_token (t ∷ u ∷ tokens) = ok u
second_token _ = fault thrown

-- `std::set <std::string>`, of which the order is never seen.
abbrev pub Locks : Type 0
Locks = List Bytes

-- `locks.find (lock_id) != locks.end ()`
abbrev pub is_locked : Bytes → Locks → Bool
is_locked lock_id [] = false
is_locked lock_id (l ∷ locks) = same_bytes lock_id l || is_locked lock_id locks

-- `locks.insert (lock_id)`
abbrev pub insert_lock : Bytes → Locks → Locks
insert_lock lock_id locks = if is_locked lock_id locks then locks else lock_id ∷ locks

-- `locks.erase (lock_id)`
abbrev pub erase_lock : Bytes → Locks → Locks
erase_lock lock_id [] = []
erase_lock lock_id (l ∷ locks) =
    let rest = erase_lock lock_id locks in if same_bytes lock_id l then rest else l ∷ rest

-- `split` is boost::split at the spaces.
module _ (split : Bytes → List Bytes) where
  unfoldable pub callback : ℤ → Bytes → Locks → Outcome (Bytes × Locks)
  callback proposal_id command locks = do
    type_ ← first_token (split command)
    lock_id ← second_token (split command)
    if same_bytes type_ lock
        then (if not (is_locked lock_id locks)
            then ok (success, insert_lock lock_id locks)
            else ok (fail, locks))
        else if same_bytes type_ unlock
        then (if is_locked lock_id locks
            then ok (success, erase_lock lock_id locks)
            else ok (fail, locks))
        else ok (fail, locks)
