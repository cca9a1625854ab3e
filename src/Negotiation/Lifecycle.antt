-- ===== src/Negotiation/Lifecycle.antt =====
-- The lives of a session of internal/negotiation/negotiation.go.
use agent_mart.Prelude.{ℕ, suc, ◌+◌, ◌≤◌, ◌≡◌, ◌⊎◌, refl, false, arith, [], ◌∷◌, ◌++◌, ◌∙◌}
use agent_mart.Prelude.Int.{ℤ, pos, negsuc, ◌≤ℤ◌, ◌<ℤ◌, pos_part}
use agent_mart.Prelude.Int64.{◌+64◌, +64-pos}
use agent_mart.Prelude.Text.{Text, is_empty, trim_space}
use agent_mart.Prelude.Result.{Result, ok, err}
use mathlib.Core.Path.{subst}
use agent_mart.Gate.Defs.{Time}
use agent_mart.Negotiation.Session.{
  Status, proposed, countered, accepted, declined, Proposal, Counter, Turn, Session, session_floor,
  new, offered, recountered, accepted_as, declined_as, after_check, validate_counter, counter_offer,
  renegotiate, accept, decline, record_buyer,
}

-- One call of a method that succeeds.
pub data Step (s : Session) (s' : Session) : Type 0 where
  offers : (c : Counter) (now : Time) → counter_offer s c now ≡ ok s' → Step s s'
  renegotiates : (c : Counter) (now : Time) → renegotiate s c now ≡ ok s' → Step s s'
  accepts : (now : Time) → accept s now ≡ ok s' → Step s s'
  declines : (reason : Text) (now : Time) → decline s reason now ≡ ok s' → Step s s'

-- A run with n such calls. Between them the buyer's turns are recorded, and a buyer's counter
-- comes as the counter handler makes it: the floor is written anew, the buyer's turn is recorded,
-- and the session is renegotiated.
pub data Run (s : Session) : ℕ → Session → Type 0 where
  start : Run s 0 s
  then : {n : ℕ} {t u : Session} → Run s n t → Step t u → Run s (suc n) u
  records :
      {n : ℕ} {t u : Session} (message : Text) (now : Time)
      → Run s n t
      → record_buyer message now t ≡ u
      → Run s n u
  haggles :
      {n : ℕ} {t u : Session} (message : Text) (heard : Time) (floor : ℤ) (c : Counter) (now : Time)
      → Run s n t
      → renegotiate (record_buyer message heard (record t { floor_paise = floor })) c now ≡ ok u
      → Run s (suc n) u

-- The number of calls that a session of this status and round may have seen, at least.
abbrev pub used : Status → ℤ → ℕ
used proposed r = 0
used countered r = pos_part r
used accepted r = suc (pos_part r)
used declined r = suc (pos_part r)

abbrev pub RoundFits : Status → ℤ → Type 0
RoundFits proposed r = r ≡ pos 0
RoundFits _ r = (pos 1 ≤ℤ r) × (r ≤ℤ pos 3)

-- What holds of a session between two calls.
pub record IsValid (s : Session) : Type 0 where
  pub round_fits : RoundFits s.status s.round
  pub above_floor : (s.status ≡ proposed) ⊎ (session_floor s ≤ℤ s.counter.final_amount_paise)
  pub explained : (s.status ≡ proposed) ⊎ (is_empty (trim_space s.counter.reason) ≡ false)

-- What a call leaves alone.
pub record Keeps (s s' : Session) : Type 0 where
  pub proposal : s'.proposal ≡ s.proposal
  pub floor : s'.floor_paise ≡ s.floor_paise
  pub bundled : s'.bundled_paise ≡ s.bundled_paise
  pub buyer : s'.buyer_account_id ≡ s.buyer_account_id
  pub transcript : (t : Turn) × (s'.transcript ≡ s.transcript ++ (t ∷ []))

validate_counter-ok :
    (s : Session) (c : Counter)
    → validate_counter s c ≡ ok tt
    → (session_floor s ≤ℤ c.final_amount_paise) × (is_empty (trim_space c.reason) ≡ false)
unfolding validate_counter
validate_counter-ok s c h = ground arith

after_check-ok :
    (r : Result (Unit {0})) (s s' : Session) → after_check r s ≡ ok s' → (r ≡ ok tt) × (s ≡ s')
after_check-ok (ok tt) s s' h = (refl, cc)
after_check-ok (err e) s s' h = cc

-- What a successful call has passed, and the session that it leaves.
offered_from :
    (s s' : Session) (c : Counter) (now : Time)
    → counter_offer s c now ≡ ok s'
    → (s.status ≡ proposed) × (validate_counter s c ≡ ok tt) × (offered s c now ≡ s')
unfolding counter_offer
offered_from s s' c now h =
    ground (arith, after_check-ok (validate_counter s c) (offered s c now) s')

pub renegotiated_from :
    (s s' : Session) (c : Counter) (now : Time)
    → renegotiate s c now ≡ ok s'
    → (s.status ≡ countered)
      × (s.round <ℤ pos 3)
      × (validate_counter s c ≡ ok tt)
      × (recountered s c now ≡ s')
unfolding renegotiate
renegotiated_from s s' c now h =
    ground (arith, after_check-ok (validate_counter s c) (recountered s c now) s')

pub accepted_from :
    (s s' : Session) (now : Time)
    → accept s now ≡ ok s'
    → (s.status ≡ countered) × (accepted_as s now ≡ s')
unfolding accept
accepted_from s s' now h = ground arith

pub declined_from :
    (s s' : Session) (reason : Text) (now : Time)
    → decline s reason now ≡ ok s'
    → (s.status ≡ countered) × (declined_as s reason now ≡ s')
unfolding decline
declined_from s s' reason now h = ground arith

offered-IsValid :
    (s : Session) (c : Counter) (now : Time)
    → validate_counter s c ≡ ok tt
    → IsValid (offered s c now)
offered-IsValid s c now h = let ok_counter = validate_counter-ok s c h in ground arith

next_round :
    (r : ℤ)
    → pos 1 ≤ℤ r
    → r <ℤ pos 3
    → (pos 1 ≤ℤ r +64 pos 1) × (r +64 pos 1 ≤ℤ pos 3) × (pos_part (r +64 pos 1) ≡ suc (pos_part r))
next_round (pos r) low high = rw (+64-pos r 1 (omega arith)) (omega arith, omega arith, omega arith)
next_round (negsuc r) low high = absurd (omega arith)

recountered-IsValid :
    (s : Session) (c : Counter) (now : Time)
    → validate_counter s c ≡ ok tt
    → s.status ≡ countered
    → s.round <ℤ pos 3
    → RoundFits s.status s.round
    → IsValid (recountered s c now)
recountered-IsValid s c now h e r v =
    let ok_counter = validate_counter-ok s c h in ground (arith, next_round s.round)

-- Every call that succeeds keeps a session valid.
pub Step-IsValid : {s s' : Session} → Step s s' → IsValid s → IsValid s'
Step-IsValid {s} {s'} (offers c now e) v =
    let (_, h, same) = offered_from s s' c now e in subst IsValid same (offered-IsValid s c now h)
Step-IsValid {s} {s'} (renegotiates c now e) v =
    let (st, r, h, same) = renegotiated_from s s' c now e in
    subst IsValid same (recountered-IsValid s c now h st r v.round_fits)
Step-IsValid {s} {s'} (accepts now e) v =
    let (st, same) = accepted_from s s' now e in subst IsValid same (ground arith)
Step-IsValid {s} {s'} (declines reason now e) v =
    let (st, same) = declined_from s s' reason now e in subst IsValid same (ground arith)

-- A call that moves status, counter and round, and adds a turn.
turn_Keeps :
    (s : Session) (st : Status) (c : Counter) (r : ℤ) (t : Turn)
    → Keeps s
        (record s { status = st; counter = c; round = r; transcript = s.transcript ++ (t ∷ []) })
turn_Keeps s st c r t = record {
  proposal = refl;
  floor = refl;
  bundled = refl;
  buyer = refl;
  transcript = (t, refl);
}

pub Step-Keeps : {s s' : Session} → Step s s' → Keeps s s'
Step-Keeps {s} {s'} (offers c now e) =
    let (_, h, same) = offered_from s s' c now e in subst (Keeps s) same (turn_Keeps s _ _ _ _)
Step-Keeps {s} {s'} (renegotiates c now e) =
    let (st, r, h, same) = renegotiated_from s s' c now e in
    subst (Keeps s) same (turn_Keeps s _ _ _ _)
Step-Keeps {s} {s'} (accepts now e) =
    let (st, same) = accepted_from s s' now e in subst (Keeps s) same (turn_Keeps s _ _ _ _)
Step-Keeps {s} {s'} (declines reason now e) =
    let (st, same) = declined_from s s' reason now e in subst (Keeps s) same (turn_Keeps s _ _ _ _)

-- Each call uses up one of the calls that a session has.
Step-used :
    {s s' : Session} → Step s s' → IsValid s → used s'.status s'.round ≡ suc (used s.status s.round)
Step-used {s} {s'} (offers c now e) v =
    let (st, h, same) = offered_from s s' c now e in
    subst (λ x. used x.status x.round ≡ suc (used s.status s.round)) same (ground arith)
Step-used {s} {s'} (renegotiates c now e) v =
    let (st, r, h, same) = renegotiated_from s s' c now e in
    subst (λ x. used x.status x.round ≡ suc (used s.status s.round)) same
      (ground (arith, next_round s.round))
Step-used {s} {s'} (accepts now e) v =
    let (st, same) = accepted_from s s' now e in
    subst (λ x. used x.status x.round ≡ suc (used s.status s.round)) same (ground arith)
Step-used {s} {s'} (declines reason now e) v =
    let (st, same) = declined_from s s' reason now e in
    subst (λ x. used x.status x.round ≡ suc (used s.status s.round)) same (ground arith)

new-IsValid :
    (p : Proposal) {s : Session}
    → new p ≡ ok s
    → IsValid s × (used s.status s.round ≡ 0) × (s.proposal ≡ p)
unfolding new
new-IsValid p h = ground arith

recorded-IsValid :
    (message : Text) (now : Time) (s : Session) → IsValid s → IsValid (record_buyer message now s)
recorded-IsValid message now s v = record {
  round_fits = v.round_fits;
  above_floor = v.above_floor;
  explained = v.explained;
}

-- A renegotiation needs only that the round fits, whatever the floor was before it.
renegotiated-IsValid :
    (s s' : Session) (c : Counter) (now : Time)
    → renegotiate s c now ≡ ok s'
    → RoundFits s.status s.round
    → IsValid s'
      × (used s'.status s'.round ≡ suc (used s.status s.round))
      × (s'.proposal ≡ s.proposal)
renegotiated-IsValid s s' c now e fits =
    let (st, r, h, same) = renegotiated_from s s' c now e in
    subst
      (λ x.
        IsValid x
        × (used x.status x.round ≡ suc (used s.status s.round))
        × (x.proposal ≡ s.proposal))
      same (recountered-IsValid s c now h st r fits, ground (arith, next_round s.round), refl)

used-le : (s : Session) → IsValid s → used s.status s.round ≤ 4
used-le s v = ground arith

Run-used :
    {s t : Session} {n : ℕ}
    → Run s n t
    → IsValid s
    → IsValid t × (used t.status t.round ≡ used s.status s.round + n) × (t.proposal ≡ s.proposal)
Run-used start v = (v, omega arith, refl)
Run-used (then r st) v =
    let (valid, e, same) = Run-used r v in
    (Step-IsValid st valid, omega (arith, Step-used st valid, e), (Step-Keeps st).proposal ∙ same)
Run-used {s} (records {n = n} {t = t} message now r k) v =
    let (valid, e, same) = Run-used r v in
    subst
      (λ x.
        IsValid x × (used x.status x.round ≡ used s.status s.round + n) × (x.proposal ≡ s.proposal))
      k (recorded-IsValid message now t valid, e, same)
Run-used (haggles {t = t} message heard floor c now r k) v =
    let (valid, e, same) = Run-used r v in
    let (after, f, kept) = renegotiated-IsValid _ _ c now k valid.round_fits in
    (after, omega (arith, e, f), kept ∙ same)

-- From a new session every run of successful calls leaves a valid session with the proposal it
-- began with, and has exactly as many calls as its status and round account for: four at most.
-- Recordings of the buyer's turns are not counted; a buyer's counter, with the floor written anew
-- and the turn recorded before it, counts as its one renegotiation.
pub Run-bounded :
    (p : Proposal) {s t : Session} {n : ℕ}
    → new p ≡ ok s
    → Run s n t
    → IsValid t × (t.proposal ≡ p) × (n ≡ used t.status t.round) × (n ≤ 4)
Run-bounded p {t = t} h r =
    let (valid, none, same) = new-IsValid p h in
    let (v, e, kept) = Run-used r valid in
    (v, kept ∙ same, omega (arith, e, none), omega (arith, e, none, used-le t v))

-- A session that is accepted or declined stays so: no call succeeds on it.
pub closed_absorbs :
    {s s' : Session} → (s.status ≡ accepted) ⊎ (s.status ≡ declined) → ¬ (Step s s')
closed_absorbs {s} {s'} closed (offers c now e) =
    let st = (offered_from s s' c now e).0 in ground arith
closed_absorbs {s} {s'} closed (renegotiates c now e) =
    let st = (renegotiated_from s s' c now e).0 in ground arith
closed_absorbs {s} {s'} closed (accepts now e) =
    let st = (accepted_from s s' now e).0 in ground arith
closed_absorbs {s} {s'} closed (declines reason now e) =
    let st = (declined_from s s' reason now e).0 in ground arith
