-- ===== src/Updates/Lane.antt =====
-- cmd/user/telegram_dispatch.go: `personWorkers`, as far as one person is concerned. A lane is the
-- person's entry of the map and the goroutines started for it. Goroutines and the dispatcher
-- interleave; what the lock covers is one step.
use agent_mart.Prelude.{ℕ, suc, Bool, true, false, List, [], ◌∷◌, ◌++◌, ◌≡◌, ltb, if◌then◌else◌}

abbrev pub count : {M : Type 0} → List M → ℕ
count [] = 0
count (_ ∷ ms) = suc (count ms)

-- `personQueueDepth`
abbrev pub person_queue_depth : ℕ
person_queue_depth = 8

module _ (M : Type 0) where
  -- Where a goroutine stands: before its select, in the handler, or after a select that found no
  -- message and before it has the lock.
  pub data Phase : Type 0 where
    selecting : Phase
    handling : M → Phase
    retiring : Phase

  -- A goroutine and its channel.
  pub record Worker : Type 0 where
    pub queue : List M
    pub phase : Phase

  -- The map has a channel, that of the goroutine started last. The messages that were accepted and
  -- those that were handled, in order.
  pub record Lane : Type 0 where
    pub registered : Bool
    pub workers : List Worker
    pub accepted : List M
    pub handled : List M

abbrev pub idle : {M : Type 0} → Lane M
idle = record { registered = false; workers = []; accepted = []; handled = [] }

module _ {M : Type 0} where
  -- A send that does not block, on the channel that the map has.
  abbrev pub offer : M → List (Worker M) → Lane M → Bool × Lane M
  offer m [] l = (false, l)
  offer m (w ∷ ws) l =
      if ltb (count w.queue) person_queue_depth
      then (
        true,
        record l {
          registered = true;
          workers = record w { queue = w.queue ++ (m ∷ []) } ∷ ws;
          accepted = l.accepted ++ (m ∷ []);
        },
      )
      else (false, l)

  -- `dispatch`
  unfoldable pub dispatch : M → Lane M → Bool × Lane M
  dispatch m l =
      if l.registered
      then offer m l.workers l
      else offer m (record { queue = []; phase = selecting } ∷ l.workers) l

  abbrev pub with_worker : Lane M → List (Worker M) → Worker M → List (Worker M) → Lane M
  with_worker l pre w post = record l { workers = pre ++ (w ∷ post) }

  abbrev pub step_at : Phase M → List M → List (Worker M) → List (Worker M) → Lane M → Lane M
  step_at selecting [] pre post l = with_worker l pre (record { queue = []; phase = retiring }) post
  step_at selecting (m ∷ ms) pre post l =
      with_worker l pre (record { queue = ms; phase = handling m }) post
  step_at (handling m) ms pre post l =
      record (with_worker l pre (record { queue = ms; phase = selecting }) post) {
        handled = l.handled ++ (m ∷ []);
      }
  step_at retiring [] pre post l = record l { registered = false; workers = pre ++ post }
  step_at retiring (m ∷ ms) pre post l =
      with_worker l pre (record { queue = m ∷ ms; phase = selecting }) post

  -- One step of `work`, by the goroutine between the others.
  unfoldable pub work : List (Worker M) → Worker M → List (Worker M) → Lane M → Lane M
  work pre w post l = step_at w.phase w.queue pre post l

  -- A message is dispatched, or any goroutine goes on.
  pub data Step (l : Lane M) : Lane M → Type 0 where
    arrives : (m : M) → Step l (dispatch m l).1
    works :
        (pre : List (Worker M)) (w : Worker M) (post : List (Worker M))
        → l.workers ≡ pre ++ (w ∷ post)
        → Step l (work pre w post l)

  -- What a lane can come to.
  pub data Reaches : Lane M → Type 0 where
    begins : Reaches idle
    goes_on : (l l' : Lane M) → Reaches l → Step l l' → Reaches l'
