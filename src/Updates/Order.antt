-- ===== src/Updates/Order.antt =====
-- Properties of `personWorkers` of cmd/user/telegram_dispatch.go: order, loss and bounds.
use agent_mart.Prelude.{
  suc, ◌≤◌, true, false, List, [], ◌∷◌, ◌++◌, ◌≡◌, refl, sym, ap, ◌∙◌, ◌⊎◌, inl, inr, arith, ltb,
  ◌≢◌, Bool-cases,
}
use mathlib.Core.List.{append_assoc, append-nil}
use agent_mart.Updates.Lane.{
  Phase, selecting, handling, retiring, Worker, Lane, count, person_queue_depth, offer, dispatch,
  step_at, work, Step, arrives, works, Reaches, begins, goes_on,
}

module _ {M : Type 0} where
  -- The message in the handler, if any.
  abbrev pub in_flight : Phase M → List M
  in_flight (handling m) = m ∷ []
  in_flight selecting = []
  in_flight retiring = []

  -- One goroutine, with a full queue at most, and everything that was accepted in its order:
  -- handled, in the handler, and waiting.
  pub record Busy (l : Lane M) : Type 0 where
    pub worker : Worker M
    pub alone : l.workers ≡ worker ∷ []
    pub registered : l.registered ≡ true
    pub in_order : l.accepted ≡ l.handled ++ (in_flight worker.phase ++ worker.queue)
    pub bounded : count worker.queue ≤ person_queue_depth

  -- No goroutine, no channel, and everything was handled.
  pub record Free (l : Lane M) : Type 0 where
    pub alone : l.workers ≡ []
    pub unregistered : l.registered ≡ false
    pub in_order : l.accepted ≡ l.handled

  abbrev pub Orderly : Lane M → Type 0
  Orderly l = Free l ⊎ Busy l

  count-snoc : (ms : List M) (m : M) → count (ms ++ (m ∷ [])) ≡ suc (count ms)
  count-snoc [] m = refl
  count-snoc (n ∷ ms) m = ap suc (count-snoc ms m)

  step_at-Orderly :
      (l : Lane M) (p : Phase M) (q : List M)
      → l.workers ≡ record { queue = q; phase = p } ∷ []
      → l.registered ≡ true
      → l.accepted ≡ l.handled ++ (in_flight p ++ q)
      → count q ≤ person_queue_depth
      → Orderly (step_at p q [] [] l)
  step_at-Orderly l selecting [] w r o b = inr (record {
    worker = record { queue = []; phase = retiring };
    alone = refl;
    registered = r;
    in_order = o;
    bounded = b;
  })
  step_at-Orderly l selecting (m ∷ ms) w r o b = inr (record {
    worker = record { queue = ms; phase = handling m };
    alone = refl;
    registered = r;
    in_order = o;
    bounded = omega arith;
  })
  step_at-Orderly l (handling m) ms w r o b = inr (record {
    worker = record { queue = ms; phase = selecting };
    alone = refl;
    registered = r;
    in_order = o ∙ sym (append_assoc l.handled (m ∷ []) ms);
    bounded = b;
  })
  step_at-Orderly l retiring [] w r o b =
      inl (record { alone = refl; unregistered = refl; in_order = o ∙ append-nil l.handled })
  step_at-Orderly l retiring (m ∷ ms) w r o b = inr (record {
    worker = record { queue = m ∷ ms; phase = selecting };
    alone = refl;
    registered = r;
    in_order = o;
    bounded = b;
  })

  -- The goroutine of a busy lane is the only one that can go on.
  pub only :
      (pre : List (Worker M)) (w x : Worker M) (post : List (Worker M))
      → w ∷ [] ≡ pre ++ (x ∷ post)
      → (pre ≡ []) × (x ≡ w) × (post ≡ [])
  only [] w x post h = (refl, ground arith, ground arith)
  only (y ∷ []) w x post h = absurd (ground arith)
  only (y ∷ z ∷ ys) w x post h = absurd (ground arith)

  pub none_goes_on :
      (pre : List (Worker M)) (x : Worker M) (post : List (Worker M)) → [] ≢ pre ++ (x ∷ post)
  none_goes_on [] x post h = ground arith
  none_goes_on (y ∷ ys) x post h = ground arith

  pub work-Orderly :
      (l : Lane M) (pre : List (Worker M)) (w : Worker M) (post : List (Worker M))
      → l.workers ≡ pre ++ (w ∷ post)
      → Orderly l
      → Orderly (work pre w post l)
  unfolding work
  work-Orderly l pre w post h (inl f) = absurd (none_goes_on pre w post (sym f.alone ∙ h))
  work-Orderly l pre w post h (inr b) =
      let e = only pre b.worker w post (sym b.alone ∙ h) in
      rw (e.0, e.1, e.2)
        (step_at-Orderly l b.worker.phase b.worker.queue b.alone b.registered b.in_order b.bounded)

  -- A send to the only goroutine.
  offer-Orderly :
      (l : Lane M) (m : M) (w : Worker M)
      → l.accepted ≡ l.handled ++ (in_flight w.phase ++ w.queue)
      → Orderly l
      → Orderly (offer m (w ∷ []) l).1
  offer-Orderly l m w o s = elim (Bool-cases (ltb (count w.queue) person_queue_depth)) [
    | inr b ↦ rw b s
    | inl b ↦ rw b (
        inr (record {
          worker = record w { queue = w.queue ++ (m ∷ []) };
          alone = refl;
          registered = refl;
          in_order =
              ap (λ x. x ++ (m ∷ [])) o
              ∙ append_assoc l.handled (in_flight w.phase ++ w.queue) (m ∷ [])
              ∙ ap (λ x. l.handled ++ x) (append_assoc (in_flight w.phase) w.queue (m ∷ []));
          bounded = let k = count-snoc w.queue m in ground arith;
        }))
  ]

  dispatch-Orderly : (l : Lane M) (m : M) → Orderly l → Orderly (dispatch m l).1
  unfolding dispatch
  dispatch-Orderly l m (inl f) =
      simp (f.unregistered, f.alone)
        (offer-Orderly l m (record { queue = []; phase = selecting })
          (f.in_order ∙ sym (append-nil l.handled)) (inl f))
  dispatch-Orderly l m (inr b) =
      simp (b.registered, b.alone) (offer-Orderly l m b.worker b.in_order (inr b))

  Step-Orderly : (l l' : Lane M) → Step l l' → Orderly l → Orderly l'
  Step-Orderly l _ (arrives m) h = dispatch-Orderly l m h
  Step-Orderly l _ (works pre w post e) h = work-Orderly l pre w post e h

  -- Whatever the interleaving, a person has one goroutine at most, exactly if the map has their
  -- channel; the accepted messages are the handled ones, then the one in the handler, then those
  -- that wait, in the order of their arrival; and at most eight wait. Without a goroutine all
  -- accepted messages were handled.
  pub Reaches-Orderly : (l : Lane M) → Reaches l → Orderly l
  Reaches-Orderly _ begins = inl (record { alone = refl; unregistered = refl; in_order = refl })
  Reaches-Orderly l (goes_on k _ r s) = Step-Orderly k l s (Reaches-Orderly k r)
