-- ===== src/Updates/Drain.antt =====
-- Properties of `work` of cmd/user/telegram_dispatch.go: a goroutine that is left alone ends, after
-- it handled everything.
use agent_mart.Prelude.{
  ℕ, zero, suc, ◌+◌, ◌*◌, ◌≤◌, ◌<◌, false, List, [], ◌∷◌, ◌++◌, ◌≡◌, refl, sym, ◌∙◌, inl, inr,
  arith,
}
use mathlib.Core.Path.{subst}
use agent_mart.Updates.Lane.{
  Phase, selecting, handling, retiring, Worker, Lane, count, step_at, work, Reaches,
}
use agent_mart.Updates.Order.{Orderly, only, none_goes_on, work-Orderly, Reaches-Orderly}

module _ {M : Type 0} where
  -- A bound on the steps that a goroutine has before it.
  abbrev ahead : Phase M → List M → ℕ
  ahead selecting q = count q * 5 + 2
  ahead (handling m) q = count q * 5 + 3
  ahead retiring [] = 1
  ahead retiring (m ∷ q) = count (m ∷ q) * 5 + 3

  abbrev pub remaining_of : List (Worker M) → ℕ
  remaining_of [] = 0
  remaining_of (w ∷ ws) = ahead w.phase w.queue + remaining_of ws

  -- The steps that a lane's goroutines have before them, at most.
  unfoldable pub remaining : Lane M → ℕ
  remaining l = remaining_of l.workers

  -- Each step of the only goroutine leaves fewer.
  step_at_shortens :
      (l : Lane M) (p : Phase M) (q : List M) → remaining (step_at p q [] [] l) < ahead p q
  unfolding remaining
  step_at_shortens l selecting [] = omega arith
  step_at_shortens l selecting (m ∷ ms) = omega arith
  step_at_shortens l (handling m) ms = omega arith
  step_at_shortens l retiring [] = omega arith
  step_at_shortens l retiring (m ∷ ms) = omega arith

  shortens_alone :
      (l : Lane M) (w : Worker M)
      → remaining_of (step_at w.phase w.queue [] [] l).workers < ahead w.phase w.queue + 0
  unfolding remaining
  shortens_alone l w = omega (arith, step_at_shortens l w.phase w.queue)

  -- Every step that a goroutine of a reachable lane takes brings the bound on its steps down, so
  -- between two messages the goroutines take finitely many.
  pub work_shortens :
      (l : Lane M) (pre : List (Worker M)) (w : Worker M) (post : List (Worker M))
      → Reaches l
      → l.workers ≡ pre ++ (w ∷ post)
      → remaining (work pre w post l) < remaining l
  unfolding work remaining
  work_shortens l pre w post r h = elim (Reaches-Orderly l r) [
    | inl f ↦ absurd (none_goes_on pre w post (sym f.alone ∙ h))
    | inr b ↦
        let e = only pre b.worker w post (sym b.alone ∙ h) in
        simp (e.0, e.1, e.2, b.alone) (shortens_alone l b.worker)
  ]

  -- One step of the first goroutine, if there is one.
  abbrev pub go_on : List (Worker M) → Lane M → Lane M
  go_on [] l = l
  go_on (w ∷ ws) l = work [] w ws l

  -- As many steps as the fuel allows.
  unfoldable pub drain : ℕ → Lane M → Lane M
  drain zero l = l
  drain (suc n) l = drain n (go_on l.workers l)

  drain_free : (n : ℕ) (l : Lane M) → l.workers ≡ [] → drain n l ≡ l
  unfolding drain
  drain_free zero l h = refl
  drain_free (suc n) l h = simp h (drain_free n l h)

  -- Everything that the lane accepted was handled, and no goroutine is left.
  pub record Drained (l k : Lane M) : Type 0 where
    pub no_worker : k.workers ≡ []
    pub unregistered : k.registered ≡ false
    pub handled_all : k.handled ≡ l.accepted

  ahead_positive : (p : Phase M) (q : List M) → 1 ≤ ahead p q
  ahead_positive selecting q = omega arith
  ahead_positive (handling m) q = omega arith
  ahead_positive retiring [] = omega arith
  ahead_positive retiring (m ∷ q) = omega arith

  step_at-accepted :
      (p : Phase M) (q : List M) (l : Lane M) → (step_at p q [] [] l).accepted ≡ l.accepted
  step_at-accepted selecting [] l = refl
  step_at-accepted selecting (m ∷ ms) l = refl
  step_at-accepted (handling m) ms l = refl
  step_at-accepted retiring [] l = refl
  step_at-accepted retiring (m ∷ ms) l = refl

  drain-Drained : (n : ℕ) (l : Lane M) → Orderly l → remaining l ≤ n → Drained l (drain n l)
  unfolding drain remaining work
  drain-Drained n l (inl f) h =
      simp (drain_free n l f.alone) (record {
        no_worker = f.alone;
        unregistered = f.unregistered;
        handled_all = sym f.in_order;
      })
  drain-Drained zero l (inr b) h = absurd (
      let k = subst (λ ws. remaining_of ws ≤ 0) b.alone h in
      let a = ahead_positive b.worker.phase b.worker.queue in omega arith)
  drain-Drained (suc n) l (inr b) h =
      let k = subst (λ ws. remaining_of ws ≤ suc n) b.alone h in
      let s = shortens_alone l b.worker in
      let r =
        drain-Drained n (work [] b.worker [] l) (work-Orderly l [] b.worker [] b.alone (inr b))
          (omega arith) in
      simp b.alone (record {
        no_worker = r.no_worker;
        unregistered = r.unregistered;
        handled_all = r.handled_all ∙ step_at-accepted b.worker.phase b.worker.queue l;
      })

  -- A goroutine that is left alone with a reachable lane handles every message that was accepted,
  -- in the order of their arrival, and retires, within the bound on its steps.
  pub drain_handles_all : (l : Lane M) → Reaches l → Drained l (drain (remaining l) l)
  drain_handles_all l r = drain-Drained (remaining l) l (Reaches-Orderly l r) (omega arith)
