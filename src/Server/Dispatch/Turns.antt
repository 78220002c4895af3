-- ===== src/Server/Dispatch/Turns.antt =====
-- The turns that `push` and `release` give to `process` are enough.
use libpaxos_cpp.Base.{
  Bool, Bytes, List, Option, Outcome-cases, [], arith, false, inl, inr, length, none, ok, refl,
  some, subst, suc, true, zero, ℕ, ℤ, ◌<◌, ◌∷◌, ◌≡◌, ◌≤◌,
}
use libpaxos_cpp.Queue.{Queue, start_request_locked, pop_locked}
use libpaxos_cpp.Strategy.Interface.{Strategy}
use libpaxos_cpp.Server.Dispatch.{Pending, Server, request_of, process}

-- A request that is processed is in the queue.
abbrev pub IsQueued : Option Pending → Queue Pending → Type 0
IsQueued none q = Unit {0}
IsQueued (some p) q = 0 < length q.queue

Shrinks : Queue Pending → Queue Pending × Option Pending → Type 0
Shrinks q n = (suc (length n.0.queue) ≡ length q.queue) × IsQueued n.1 n.0

pop_locked-Shrinks :
    (busy : Bool) (waiting : List Pending) (n : Queue Pending × Option Pending)
    → pop_locked (record { request_being_processed = busy; queue = waiting }) ≡ ok n
    → Shrinks (record { request_being_processed = busy; queue = waiting }) n
unfolding pop_locked start_request_locked Shrinks
pop_locked-Shrinks busy [] n h = cc
pop_locked-Shrinks false (p ∷ waiting) n h = cc
pop_locked-Shrinks true (p ∷ []) n h =
    let e : (record { request_being_processed = false; queue = [] }, none) ≡ n = cc in
    subst (Shrinks (record { request_being_processed = true; queue = p ∷ [] })) e (refl, tt)
pop_locked-Shrinks true (p ∷ next ∷ waiting) n h =
    let e : (record { request_being_processed = true; queue = next ∷ waiting }, some next) ≡ n =
      cc in
    subst (Shrinks (record { request_being_processed = true; queue = p ∷ next ∷ waiting })) e
      (refl, omega arith)

module _ {S P D : Type 0} (x : Strategy S P D) (processor : ℤ → Bytes → P → Bytes × P) where
  -- As many turns as the queue holds requests are enough: more change nothing.
  pub process_enough :
      (rounds total now : ℕ) (p : Option Pending) (s : Server S P D)
      → IsQueued p s.request_queue
      → length s.request_queue.queue ≤ rounds
      → length s.request_queue.queue ≤ total
      → process x processor total now p s ≡ process x processor rounds now p s
  unfolding process Shrinks
  process_enough rounds total now none s h few enough = refl
  process_enough zero total now (some p) s h few enough = absurd (omega (arith, h))
  process_enough (suc rounds) zero now (some p) s h few enough = absurd (omega (arith, h))
  process_enough (suc rounds) (suc total) now (some p) s h few enough =
      elim (Outcome-cases (x.initiate (request_of p) now s.node)) [
        | inr (e, failed) ↦ rw (failed, process) refl
        | inl ((n, some r, es), started) ↦ rw (started, process) refl
        | inl ((n, none, es), started) ↦ elim (Outcome-cases (pop_locked s.request_queue)) [
          | inr (e, failed) ↦ rw (started, process, failed) refl
          | inl (next, popped) ↦
              let (fewer, queued) =
                pop_locked-Shrinks s.request_queue.request_being_processed s.request_queue.queue
                  next popped in
              let rest =
                process_enough rounds total now next.1
                  (record s { node = n; request_queue = next.0 }) queued (omega (arith, fewer, few))
                  (omega (arith, fewer, enough)) in
              rw (started, process, popped, rest) refl
        ]
      ]
