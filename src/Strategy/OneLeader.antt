-- ===== src/Strategy/OneLeader.antt =====
-- Followers of strategy.cpp that see the same quorum promise the same leader.
use libpaxos_cpp.Base.{
  Ascending, Bytes, In, List, Option, Outcome, [], ap, arith, inl, inr, length, none, ok, pos, some,
  subst, sym, ℕ, ℤ, ≤ℤ_antisym, ◌∙◌, ◌∷◌, ◌≡◌, ◌≤ℤ◌, ◌≤◌,
}
use libpaxos_cpp.Command.{Command, type_request_promise}
use libpaxos_cpp.Storage.Log.{Log}
use libpaxos_cpp.Storage.Backend.{Backend, IsBackend}
use libpaxos_cpp.Quorum.Server.{Server}
use libpaxos_cpp.Quorum.View.{View}
use libpaxos_cpp.Quorum.View.Live.{live}
use libpaxos_cpp.Quorum.ServerView.Entries.{IsCandidate}
use libpaxos_cpp.Quorum.ServerView.Sorting.{IsElectable}
use libpaxos_cpp.Quorum.ServerView.Election.{IsLeader, Elects}
use libpaxos_cpp.Strategy.Node.{Node, Effect, write, process_remote_host_information}
use libpaxos_cpp.Strategy.Follower.{prepare}
use libpaxos_cpp.Strategy.Follower.CatchUp.{Replica}
use libpaxos_cpp.Strategy.Verdict.{IsVerdict, prepare-IsVerdict}

-- A live server with an id stands in the other view too, live, with the same id and proposal id.
abbrev pub Sees : View → View → Type 0
Sees v w =
    (e : ℕ) (s : Server)
    → In e (live v)
    → IsCandidate v e s
    → (t : Server) × In e (live w)
      × IsCandidate w e t
      × (t.id ≡ s.id)
      × (t.highest_proposal_id ≡ s.highest_proposal_id)

leaders_agree :
    (v w : View) (e f : ℕ)
    → IsElectable v
    → Sees v w
    → Sees w v
    → IsLeader v (live v) e
    → IsLeader w (live w) f
    → e ≡ f
leaders_agree v w e f k there back l m =
    let (t, at, c, id, high) = there e l.server l.chosen l.candidate in
    let (s, at', c', id', high') = back f m.server m.chosen m.candidate in
    let upper : l.server.highest_proposal_id ≤ℤ m.server.highest_proposal_id =
      subst (λ i. i ≤ℤ m.server.highest_proposal_id) high (m.highest e t at c) in
    let lower : m.server.highest_proposal_id ≤ℤ l.server.highest_proposal_id =
      subst (λ i. i ≤ℤ l.server.highest_proposal_id) high' (l.highest f s at' c') in
    let level : l.server.highest_proposal_id ≡ m.server.highest_proposal_id =
      ≤ℤ_antisym l.server.highest_proposal_id m.server.highest_proposal_id upper lower in
    let first : m.server.id ≤ t.id = m.first e t at c (high ∙ level) in
    let second : l.server.id ≤ s.id = l.first f s at' c' (high' ∙ sym level) in
    k.unique e f l.server s l.candidate c' (omega (arith, first, second, id, id'))

promised :
    (leader : Option ℕ) (host : ℕ) (next ours : ℤ) (response : Command)
    → response.type_ ≡ type_request_promise
    → IsVerdict leader host next ours response
    → leader ≡ some host
promised leader host next ours response h (inl (ours_is, _, _)) = ours_is
promised leader host next ours response h (inr (inl (_, _, fail, _))) = cc
promised leader host next ours response h (inr (inr (_, fail, _))) = cc

Elects-agree :
    (v w : View) (o p : Option ℕ) (e f : ℕ)
    → IsElectable v
    → Sees v w
    → Sees w v
    → Elects v (live v) o
    → Elects w (live w) p
    → o ≡ some e
    → p ≡ some f
    → e ≡ f
Elects-agree v w none p e f k there back l m at at' = cc
Elects-agree v w (some o) none e f k there back l m at at' = cc
Elects-agree v w (some o) (some p) e f k there back l m at at' =
    let one : o ≡ e = ground arith in
    let two : p ≡ f = ground arith in sym one ∙ leaders_agree v w o p k there back l m ∙ two

written :
    {A : Type 0} (k : ℕ) (m n : A) (x y : Command)
    → ◌≡◌ {A = Outcome (A × List Effect)} (ok (m, write k x ∷ [])) (ok (n, write k y ∷ []))
    → x ≡ y
written k m n x y h = cc

-- What a server needs to answer the prepare of a host.
pub record Asked {S P D : Type 0} {b : Backend S} {Holds : S → Log → Type 0}
    (laws : IsBackend b Holds) (processor : ℤ → Bytes → P → Bytes × P) (start : P)
    (n m : Node S P D) (c : Command) (host : ℕ) : Type 0 where
  pub heard : process_remote_host_information c n ≡ ok m
  pub from : c.host_endpoint ≡ some host
  pub ascending : Ascending m.quorum.servers
  pub electable : IsElectable m.quorum.servers
  pub history : List Bytes
  pub replica : Replica laws processor start m history

module _ {S T P D E : Type 0} {b : Backend S} {c : Backend T} {Holds : S → Log → Type 0}
    {Keeps : T → Log → Type 0} (laws : IsBackend b Holds) (their_laws : IsBackend c Keeps)
    (processor : ℤ → Bytes → P → Bytes × P) (start : P) where
  -- Take two servers, each over a storage that fulfils IsBackend, that have noted the host
  -- information of a prepare each, which names its host, and of which each has then stored and
  -- applied a history under a positive history size, lists itself, and has a view in order with
  -- one server for each uuid and no proposal id below -1. Where the views list the same live
  -- servers with the same uuids and proposal ids, and both servers answer with a promise, they
  -- promise the same host.
  pub promises_one_leader :
      (connection now host connection' now' host' : ℕ) (asked asked' promise promise' : Command)
      (n m after : Node S P D) (n' m' after' : Node T P E)
      → Asked laws processor start n m asked host
      → Asked their_laws processor start n' m' asked' host'
      → Sees m.quorum.servers m'.quorum.servers
      → Sees m'.quorum.servers m.quorum.servers
      → prepare b connection asked now n ≡ ok (after, write connection promise ∷ [])
      → prepare c connection' asked' now' n' ≡ ok (after', write connection' promise' ∷ [])
      → promise.type_ ≡ type_request_promise
      → promise'.type_ ≡ type_request_promise
      → asked.host_endpoint ≡ asked'.host_endpoint
  promises_one_leader connection now host connection' now' host' asked asked' promise promise' n m
        after n' m' after' k k' there back done done' is is' =
      let (x, r, o, says, _, elects, verdict) =
        prepare-IsVerdict laws processor start connection now host asked n k.heard k.from
          k.ascending k.electable k.replica in
      let (x', r', o', says', _, elects', verdict') =
        prepare-IsVerdict their_laws processor start connection' now' host' asked' n' k'.heard
          k'.from k'.ascending k'.electable k'.replica in
      let same : promise ≡ r = written connection after x promise r (sym done ∙ says) in
      let same' : promise' ≡ r' = written connection' after' x' promise' r' (sym done' ∙ says') in
      k.from
      ∙ ap some (
          Elects-agree m.quorum.servers m'.quorum.servers o o' host host' k.electable there back
            elects elects'
            (promised o host asked.next_proposal_id (pos (length k.history)) r
              (ap (λ c. c.type_) (sym same) ∙ is) verdict)
            (promised o' host' asked'.next_proposal_id (pos (length k'.history)) r'
              (ap (λ c. c.type_) (sym same') ∙ is') verdict'))
      ∙ sym k'.from
