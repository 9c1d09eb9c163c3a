-- ===== src/Search/Threads/Laws.antt =====
-- The threads of a search: nobody alive is left silently.
use mathlib.Core.Path.{subst}
use opencode_optimised_tooli.Prelude.{
  All, Bool, List, [], ap, arith, false, inl, inr, length, refl, suc, sym, true, ℕ, ◌+◌, ◌≡◌, ◌⊎◌,
  list_eq, nat_eq, pair_eq, string_eq,
}
use opencode_optimised_tooli.Results.Container.{Env}
use opencode_optimised_tooli.Search.Suspended.{BanTimes}
use opencode_optimised_tooli.Search.Processor.{Container}
use opencode_optimised_tooli.Search.Threads.{
  Phase, ended, Thread, is_alive, Running, Moves, fails, answers, puts, Among, here, there, Step,
  waited_moves, joined_moves, join_ended, join_late, Run, stay, next,
}

abbrev alive_in : Phase → Bool
alive_in ph = elim ph [ ended ↦ false | _ ↦ true ]

module _ (env : Env) (times : BanTimes) where
  Among-length :
      {ths ths' : List Thread} {c c' : Container env times}
      → Among env times ths c ths' c'
      → length ths' ≡ length ths
  Among-length (here rest m) = refl
  Among-length (there th m) = ap suc (Among-length m)

  -- What the main thread has seen of a thread.
  abbrev pub IsSettled : Thread → Type 0
  IsSettled th = (is_alive th ≡ false) ⊎ (th.timed_out ≡ true)

  Moves-IsSettled :
      {th th' : Thread} {c c' : Container env times}
      → Moves env times th c th' c'
      → IsSettled th
      → IsSettled th'
  Moves-IsSettled (fails th c now problem suspends e) h = inl refl
  Moves-IsSettled (answers th c e) (inl dead) = absurd (ground (arith, ap (λ p. alive_in p) e))
  Moves-IsSettled (answers th c e) (inr flagged) = inr flagged
  Moves-IsSettled (puts th c now saw total load results problem suspends e) h = inl refl

  Among-IsSettled :
      {ths ths' : List Thread} {c c' : Container env times}
      → Among env times ths c ths' c'
      → All IsSettled ths
      → All IsSettled ths'
  Among-IsSettled (here rest m) (h, hs) = (Moves-IsSettled m h, hs)
  Among-IsSettled (there th m) (h, hs) = (h, Among-IsSettled m hs)

  -- The joined threads are settled, and so many threads are there.
  abbrev IsTracked : ℕ → Running env times → Type 0
  IsTracked n s = All IsSettled s.joined × (length s.waiting + length s.joined ≡ n)

  Step-IsTracked :
      {n : ℕ} {s t : Running env times} → Step env times s t → IsTracked n s → IsTracked n t
  Step-IsTracked (waited_moves joined m) (h, e) = (h, omega (arith, Among-length m))
  Step-IsTracked (joined_moves waiting m) (h, e) =
      (Among-IsSettled m h, omega (arith, Among-length m))
  Step-IsTracked (join_ended c th rest joined dead) (h, e) = ((inl dead, h), omega arith)
  Step-IsTracked (join_late c c' th rest joined alive e') (h, e) = ((inr refl, h), omega arith)

  Run-IsTracked :
      {n k : ℕ} {s t : Running env times} → Run env times n s t → IsTracked k s → IsTracked k t
  Run-IsTracked (stay s) h = h
  Run-IsTracked (next first rest) h = Run-IsTracked rest (Step-IsTracked first h)

  -- When no thread is waited for any more, each of those that were started has ended or is marked
  -- as timed out.
  pub search_multiple_requests_settles :
      (n : ℕ) (s t : Running env times)
      → s.joined ≡ []
      → Run env times n s t
      → t.waiting ≡ []
      → All IsSettled t.joined × (length t.joined ≡ length s.waiting)
  search_multiple_requests_settles n s t new run over =
      let start : IsTracked (length s.waiting) s =
        (subst (All IsSettled) (sym new) tt, rw new (omega arith)) in
      let (settled, all) = Run-IsTracked run start in (settled, omega (arith, ap length over))
