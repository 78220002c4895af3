-- ===== src/Strategy/Replay.antt =====
-- The specification of the replicated state machine: what the user's callback does with a history.
use libpaxos_cpp.Base.{
  Bytes, List, [], ap, ap₂, arith, drop, get_last?, get_last?-append, length, length-drop,
  length-take, pos, refl, some, suc, sym, take, take-append-drop, ℕ, ℤ, ◌++◌, ◌+◌, ◌∙◌, ◌∷◌, ◌≡◌,
  ◌≤◌,
}
use libpaxos_cpp.Storage.Log.{enumerate, enumerate-append}

module _ {P : Type 0} (processor : ℤ → Bytes → P → Bytes × P) where
  -- The state of the user's callback after a history that follows `n` older values.
  unfoldable pub replay : ℕ → List Bytes → P → P
  replay n [] s = s
  replay n (v ∷ vs) s = replay (suc n) vs (processor (pos (suc n)) v s).1

  -- What the callback answers on the way.
  unfoldable pub answers : ℕ → List Bytes → P → List Bytes
  answers n [] s = []
  answers n (v ∷ vs) s =
      (processor (pos (suc n)) v s).0 ∷ answers (suc n) vs (processor (pos (suc n)) v s).1

  pub replay-append :
      (n : ℕ) (vs ws : List Bytes) (s : P)
      → replay n (vs ++ ws) s ≡ replay (n + length vs) ws (replay n vs s)
  unfolding replay
  replay-append n [] ws s = ap (λ k. replay k ws s) (omega arith)
  replay-append n (v ∷ vs) ws s =
      replay-append (suc n) vs ws (processor (pos (suc n)) v s).1
      ∙ ap (λ k. replay k ws (replay (suc n) vs (processor (pos (suc n)) v s).1)) (omega arith)

  pub replay-snoc :
      (vs : List Bytes) (v : Bytes) (s : P)
      → replay 0 (vs ++ v ∷ []) s ≡ (processor (pos (suc (length vs))) v (replay 0 vs s)).1
  unfolding replay
  replay-snoc vs v s =
      replay-append 0 vs (v ∷ []) s
      ∙ ap (λ k. replay k (v ∷ []) (replay 0 vs s)) {y = length vs} (omega arith)

  -- Replaying a history in two parts.
  pub replay-split :
      (p : ℕ) (history : List Bytes) (s : P)
      → p ≤ length history
      → replay p (drop p history) (replay 0 (take p history) s) ≡ replay 0 history s
  replay-split p history s h =
      ap (λ k. replay k (drop p history) (replay 0 (take p history) s))
        {y = 0 + length (take p history)} (omega (arith, length-take p history h))
      ∙ sym (replay-append 0 (take p history) (drop p history) s)
      ∙ ap (λ l. replay 0 l s) (take-append-drop p history)

  pub length-answers : (n : ℕ) (vs : List Bytes) (s : P) → length (answers n vs s) ≡ length vs
  unfolding answers
  length-answers n [] s = refl
  length-answers n (v ∷ vs) s =
      omega (arith, length-answers (suc n) vs (processor (pos (suc n)) v s).1)

  answers-snoc :
      (n : ℕ) (vs : List Bytes) (v : Bytes) (s : P)
      → answers n (vs ++ v ∷ []) s
        ≡ answers n vs s ++ (processor (pos (suc (n + length vs))) v (replay n vs s)).0 ∷ []
  unfolding answers replay
  answers-snoc n [] v s = ap (λ k. (processor (pos (suc k)) v s).0 ∷ []) (omega arith)
  answers-snoc n (w ∷ vs) v s =
      let s' : P = (processor (pos (suc n)) w s).1 in
      ap (λ l. (processor (pos (suc n)) w s).0 ∷ l)
        (answers-snoc (suc n) vs v s'
          ∙ ap
              (λ k.
                answers (suc n) vs s' ++ (processor (pos (suc k)) v (replay (suc n) vs s')).0 ∷ [])
              (omega arith))

  -- The last answer does not depend on how much was missing.
  pub last_answer :
      (p : ℕ) (history : List Bytes) (v : Bytes) (start : P)
      → p ≤ length history
      → get_last? (
          enumerate
            (suc p)
            (answers p (drop p history ++ v ∷ []) (replay 0 (take p history) start)))
        ≡ some (
          pos (suc (length history)),
          (processor (pos (suc (length history))) v (replay 0 history start)).0,
        )
  last_answer p history v start h =
      let s : P = replay 0 (take p history) start in
      let missing : List Bytes = drop p history in
      let said : List Bytes = answers p missing s in
      let at : p + length missing ≡ length history = omega (arith, length-drop p history) in
      let a : Bytes = (processor (pos (suc (p + length missing))) v (replay p missing s)).0 in
      ap (λ l. get_last? (enumerate (suc p) l)) (answers-snoc p missing v s)
      ∙ ap get_last? (enumerate-append (suc p) said (a ∷ []))
      ∙ get_last?-append (enumerate (suc p) said) (pos (suc p + length said), a)
      ∙ ap₂ (λ k l. some (pos k, l)) {y = suc (length history)}
          (omega (arith, length-answers p missing s))
          (ap₂ (λ k t. (processor (pos (suc k)) v t).0) at (replay-split p history start h))
