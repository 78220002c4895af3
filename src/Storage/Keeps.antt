-- ===== src/Storage/Keeps.antt =====
-- A storage forgets the oldest values of a history, and keeps the newest.
use libpaxos_cpp.Base.{
  Bytes, List, [], ap, arith, drop, drop-append_le, drop-drop, length, length-append, length-drop,
  sym, ℕ, ◌++◌, ◌-◌, ◌<◌, ◌∙◌, ◌∷◌, ◌≡◌, ◌≤◌,
}
use libpaxos_cpp.Storage.Log.{Log, highest, append, trim, above, highest-append}
use libpaxos_cpp.Storage.Accept.{Forgets}

-- A log that holds the newest values of a history.
pub record Keeps (l : Log) (history : List Bytes) : Type 0 where
  pub within : l.base ≤ length history
  pub newest : l.values ≡ drop l.base history

pub Keeps-highest : {l : Log} {history : List Bytes} → Keeps l history → highest l ≡ length history
Keeps-highest {l} {history} k =
    omega (arith, ap length k.newest, length-drop l.base history, k.within)

pub Keeps-trim :
    {l : Log} {history : List Bytes} (v : Bytes) (size q n : ℕ)
    → Keeps l history
    → 0 < size
    → Forgets (append l v) size q n
    → Keeps (trim n (append l v)) (history ++ v ∷ [])
Keeps-trim {l} {history} v size q n k h f = record {
  within =
      omega
        (arith, length-append history (v ∷ []), highest-append l v, Keeps-highest k, k.within, f);
  newest =
      ap (drop n)
        (ap (λ vs. vs ++ v ∷ []) k.newest ∙ sym (drop-append_le l.base history (v ∷ []) k.within))
      ∙ drop-drop l.base n (history ++ v ∷ []);
}

pub above-Keeps :
    (p : ℕ) {l : Log} {history : List Bytes}
    → Keeps l history
    → l.base ≤ p
    → above p l ≡ drop p history
above-Keeps p {l} {history} k h =
    ap (drop (p - l.base)) k.newest
    ∙ drop-drop l.base (p - l.base) history
    ∙ ap (λ n. drop n history) {y = p} (omega arith)
