-- ===== src/Tests/Client/Requests.antt =====
-- Two requests, of which the first is refused once and sent again behind the second.
use libpaxos_cpp.Base.{List, [], arith, inl, inr, none, ok, refl, some, ℕ, ℕ_order, ◌∷◌, ◌≡◌}
use libpaxos_cpp.Client.Requests.{Pending, Client, Writes}
use libpaxos_cpp.Client.Requests.Owed.{count, account}
use libpaxos_cpp.Client.Requests.Events.{Event, sends, answers, expires, run, AllValid, IsNamed}
use libpaxos_cpp.Client.Requests.Turns.{IsTurn}
use libpaxos_cpp.Client.Requests.Accounted.{client_of, run-Accounted}
use libpaxos_cpp.Tests.Client.{server, three, says}

abbrev request : ℕ → Pending
request k = record { promise = k; byte_array = k ∷ []; retries = 1 }

abbrev events : List Event
events =
    sends 5 (request 1)
    ∷ sends 5 (request 2)
    ∷ answers 6 none (says 1).1
    ∷ answers 6 none (says 2).1
    ∷ expires 7
    ∷ answers 8 none (says 2).1
    ∷ []

valid : AllValid three.servers events
valid = (
  tt,
  (
    tt,
    (
      (1, 9, server 1 (some 11), refl, refl, refl, inr (refl, λ e. cc)),
      (
        (2, 2, server 2 (some 12), refl, refl, refl, inl refl),
        (tt, ((2, 2, server 2 (some 12), refl, refl, refl, inl refl), tt)),
      ),
    ),
  ),
)

named : IsNamed three.servers
named e s h = ground arith

run-Accounted_example :
    (s : Client) × (writes : Writes) × (run events (client_of three.servers) ≡ ok (s, writes))
    × IsTurn s
    × ((k : ℕ) → account k s ≡ count k (1 ∷ 2 ∷ []))
run-Accounted_example =
    run-Accounted three.servers events
      ((omega arith, (omega arith, tt)), ((omega arith, tt), (tt, tt))) named valid
