-- ===== src/Updates/Resume.antt =====
-- Properties of cmd/user/update_processing.go, `route` and the offset store: what a second delivery
-- and a restart find.
use agent_mart.Prelude.{
  true, Option, none, some, List, [], ◌∷◌, ◌++◌, ◌≡◌, ◌≢◌, refl, inl, inr, arith, Bool-cases,
}
use agent_mart.Prelude.Int.{ℤ, pos, ◌≤ℤ◌, ◌<ℤ◌, ltb_ℤ, ◌+ℤ◌}
use agent_mart.Prelude.Int64.{◌+64◌, InRange, +64-eq, max_int64}
use agent_mart.Prelude.Text.{Text, bytes}
use agent_mart.Prelude.Result.{Result, ok, err}
use agent_mart.Updates.Intake.{
  Update, Acts, Store, saved, saves, handled, message_from, process_updates, Router, route, routes,
}

-- The next offset is above the update, short of the largest int.
next_above : (n : ℤ) → InRange n → n <ℤ max_int64 → n <ℤ (n +64 pos 1)
unfolding ◌+ℤ◌
next_above n r h =
    let e : n +64 pos 1 ≡ n +ℤ pos 1 = +64-eq n (pos 1) (ground arith, ground arith) in
    rw e (ground arith)

-- The ids that Telegram gives, short of the largest int.
abbrev pub Identified : Update → Type 0
Identified u = InRange u.update_id × (u.update_id <ℤ max_int64)

abbrev pub AllIdentified : List Update → Type 0
AllIdentified [] = Unit {0}
AllIdentified (u ∷ us) = Identified u × AllIdentified us

abbrev AllBelow : List Update → ℤ → Type 0
AllBelow [] n = Unit {0}
AllBelow (u ∷ us) n = (u.update_id <ℤ n) × AllBelow us n

route_seen : (u : Update) (r : Router) → u.update_id <ℤ r.offset → route u r ≡ r
unfolding route
route_seen u r h = ground arith

route_past : (u : Update) (r : Router) → Identified u → u.update_id <ℤ (route u r).offset
unfolding route
route_past u r h = let k = next_above u.update_id h.0 h.1 in ground arith

route_advances : (u : Update) (r : Router) → Identified u → r.offset ≤ℤ (route u r).offset
unfolding route
route_advances u r h = let k = next_above u.update_id h.0 h.1 in ground arith

routes_advance :
    (us : List Update) (r : Router) → AllIdentified us → r.offset ≤ℤ (routes us r).offset
unfolding routes
routes_advance [] r h = omega arith
routes_advance (u ∷ us) r h =
    let a = route_advances u r h.0 in let b = routes_advance us (route u r) h.1 in omega arith

-- A second delivery of an update, after any others, changes nothing: neither the offset nor what
-- was dispatched. The ids are those of an int below its largest.
pub route_again :
    (u : Update) (us : List Update) (r : Router)
    → Identified u
    → AllIdentified us
    → route u (routes us (route u r)) ≡ routes us (route u r)
route_again u us r h k =
    let a = route_past u r h in
    let b = routes_advance us (route u r) k in route_seen u (routes us (route u r)) (omega arith)

-- Updates below the offset are passed over.
seen_all :
    (store : Store) (us : List Update) (offset : ℤ) (t : Acts)
    → AllBelow us offset
    → process_updates store us offset t ≡ ((offset, none), t)
unfolding process_updates
seen_all store [] offset t h = refl
seen_all store (u ∷ us) offset t h =
    let b : ltb_ℤ u.update_id offset ≡ true = ground arith in rw b (seen_all store us offset t h.1)

-- Where a pass without an error ends: past every update, and not before its start.
abbrev Ends : List Update → ℤ → (ℤ × Option Text) × Acts → Type 0
Ends us offset r = r.0.1 ≡ none → AllBelow us r.0.0 × (offset ≤ℤ r.0.0)

saved-Ends :
    (u : Update) (us : List Update) (offset next : ℤ) (answer : Result (Unit {0}))
    (rest : (ℤ × Option Text) × Acts) (failed : Text → (ℤ × Option Text) × Acts)
    → u.update_id <ℤ next
    → offset ≤ℤ u.update_id
    → Ends us next rest
    → ((e : Text) → (failed e).0.1 ≢ none)
    → Ends (u ∷ us) offset (saved answer rest failed)
saved-Ends u us offset next (ok a) rest failed h k r f n =
    let x = r n in ((omega arith, x.0), omega arith)
saved-Ends u us offset next (err e) rest failed h k r f n = absurd (f e n)

process_updates-Ends :
    (store : Store) (us : List Update) (offset : ℤ) (t : Acts)
    → AllIdentified us
    → Ends us offset (process_updates store us offset t)
unfolding process_updates
process_updates-Ends store [] offset t h = λ n. (tt, omega arith)
process_updates-Ends store (u ∷ us) offset t h =
    let next = u.update_id +64 pos 1 in
    let above = next_above u.update_id h.0.0 h.0.1 in
    elim (Bool-cases (ltb_ℤ u.update_id offset)) [
      | inl b ↦
          rw b (λ n.
            let x = process_updates-Ends store us offset t h.1 n in ((ground arith, x.0), x.1))
      | inr b ↦ rw b (
          saved-Ends u us offset next _ _
            (λ e. (
              (offset, some (bytes "save update offset: " ++ e)),
              saves next ∷ handled (message_from u) t,
            ))
            above (ground arith) (process_updates-Ends store us next _ h.1) (λ e k. ground arith))
    ]

-- A pass over updates that ends without an error leaves an offset from which a second pass over the
-- same updates, with any store, handles no message, saves nothing and keeps the offset. The ids
-- are those of an int below its largest.
pub process_updates_again :
    (store store' : Store) (us : List Update) (offset : ℤ) (t t' : Acts)
    → AllIdentified us
    → (process_updates store us offset t).0.1 ≡ none
    → process_updates store' us (process_updates store us offset t).0.0 t'
      ≡ (((process_updates store us offset t).0.0, none), t')
process_updates_again store store' us offset t t' h n =
    seen_all store' us (process_updates store us offset t).0.0 t'
      (process_updates-Ends store us offset t h n).0
