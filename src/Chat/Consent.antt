-- ===== src/Chat/Consent.antt =====
-- Properties of `conversationalBuy` of cmd/user/main.go: what words can make the process do.
use agent_mart.Prelude.{
  ◌≡◌, refl, ◌∙◌, inl, inr, false, not, Option, none, some, List, [], ◌∷◌, arith,
}
use agent_mart.Prelude.Int.{ℤ}
use agent_mart.Prelude.Text.{Text, text_eq, bytes}
use agent_mart.Prelude.Result.{Result, ok, err, Exec}
use agent_mart.Prelude.Ensures.{
  Outcome, Ensures, Ensures-bind, Ensures-if, Ensures-known, Ensures-from, Ensures-to, Ensures-pure,
  Outcome-of,
}
use agent_mart.Catalog.{Product}
use agent_mart.Negotiation.Session.{Turn}
use agent_mart.Buyer.World.{Account}
use agent_mart.Buyer.Purchase.{PurchaseRequest, PurchaseResult}
use agent_mart.Shopping.World.{Settled}
use agent_mart.Shopping.Route.{ask_human, declined}
use agent_mart.Chat.Words.{PendingApproval}
use agent_mart.Chat.World.{
  pays, records_run, Message, Trail, AccountAnswer, linked, not_linked, unreadable, World, Services,
  call,
}
use agent_mart.Chat.Talk.{
  acknowledged, explained, agent_request, open_name, ask_again, report, ask_person, buy_settled,
  offered, execute, evidence, send_evidence, record_run, finished, shop_with, shop_as,
  start_shopping, unless_open, conversational_buy,
}
use agent_mart.Chat.Money.{
  purchases, answers, Still, Ready, Done, Ran, AnyDone, Still-Stable, Ready-Stable, Done-Stable,
  quiet_observe, quiet_observed, quiet_call, quiet_reply, quiet_remember, quiet_recall,
}

module _ (ps : List PurchaseRequest) (qs : List (ℤ × Text × Text)) (sv : Services) (m : Message)
    (w : World) where
  abbrev Held : Trail → Type 0
  Held = Still ps qs

  abbrev Told : Settled → Trail → Type 0
  Told = Ready ps qs sv m w

  abbrev End : Trail → Type 0
  End = Done ps qs sv m w

  abbrev Failed : Text → Trail → Type 0
  Failed = AnyDone ps qs sv m w

  report_ensures :
      (r : Settled) (p : PurchaseResult) → Ensures End (report w sv m r p) (λ _. End) Failed
  unfolding report
  report_ensures r p =
      let st = Done-Stable ps qs sv m w in
      Ensures-if p.approval_required _ _ (λ _. quiet_reply ps qs sv m w End st w _ _)
        (λ _.
          Ensures-if (not p.fulfilled) _ _ (λ _. quiet_reply ps qs sv m w End st w _ _)
            (λ _.
              Ensures-bind _ _ _ (quiet_remember ps qs sv m w End st _)
                (λ _. quiet_reply ps qs sv m w End st w _ _)))

  ask_person_ensures :
      (r : Settled) (p : Product) → Ensures (Told r) (ask_person w sv m r p) (λ _. End) Failed
  unfolding ask_person
  ask_person_ensures r p =
      Ensures-bind _ _ _
        (quiet_call ps qs sv m w (Told r) (Ready-Stable ps qs sv m w r) _ _ (refl, refl))
        (λ _.
          Ensures-from (λ t k. inl k.0)
            (quiet_reply ps qs sv m w End (Done-Stable ps qs sv m w) w _ _))

  pays_ensures :
      (r : Settled) (p : Product) (f : Trail → Result PurchaseResult)
      → text_eq r.action ask_human ≡ false
      → text_eq r.action declined ≡ false
      → (before : Trail) × (w.product before r.product_id ≡ ok p)
      → Ensures (Told r) (call (pays (agent_request m p r)) f) (λ _. End) Failed
  unfolding call purchases answers
  pays_ensures r p f a d found = record {
    at = λ t k.
        let h : End (pays (agent_request m p r) ∷ t) =
          inr (p, r, k.2, found, rw k.0.0 refl, k.0.1, a, d, λ x. inr (k.1 x)) in
        Outcome-of (λ _. End) Failed (f t) _ (λ _ _. h) (λ _ _. h);
  }

  offered_ensures :
      (r : Settled) (found : Result Product)
      → text_eq r.action declined ≡ false
      → (before : Trail) × (w.product before r.product_id ≡ found)
      → Ensures (Told r) (offered w sv m r found) (λ _. End) Failed
  unfolding buy_settled
  offered_ensures r (err e) d found =
      Ensures-from (λ t k. inl k.0) (quiet_reply ps qs sv m w End (Done-Stable ps qs sv m w) w _ _)
  offered_ensures r (ok p) d found =
      Ensures-if (text_eq r.action ask_human) _ _ (λ _. ask_person_ensures r p)
        (λ a. Ensures-bind _ _ _ (pays_ensures r p _ a d found) (λ b. report_ensures r b))

  execute_ensures : (r : Settled) → Ensures (Told r) (execute w sv m r) (λ _. End) Failed
  unfolding execute
  execute_ensures r =
      Ensures-if (text_eq r.action declined) _ _
        (λ _.
          Ensures-from (λ t k. inl k.0)
            (quiet_reply ps qs sv m w End (Done-Stable ps qs sv m w) w _ _))
        (λ d.
          Ensures-bind _ _ _
            (quiet_observed ps qs sv m w (Told r) (Ready-Stable ps qs sv m w r) _ _ (refl, refl))
            (λ found. Ensures-known (λ t p. p) (λ known. offered_ensures r found d known)))

  evidence_ensures :
      (r : Settled) (turns : List Turn)
      → Ensures (Told r) (evidence w sv m r turns) (λ _. Told r) Failed
  evidence_ensures r [] = Ensures-pure tt (λ t k. k)
  evidence_ensures r (x ∷ xs) =
      quiet_observe ps qs sv m w (Told r) (Ready-Stable ps qs sv m w r) _ _ (refl, refl)

  record_run_ensures :
      (r : Settled) → Ran ps qs sv m w r → Ensures Held (record_run w sv m r) (λ _. Told r) Failed
  unfolding record_run call purchases answers
  record_run_ensures r ran =
      Ensures-if sv.has_audit _ _
        (λ _. record {
          at = λ t k.
              let h : Told r (records_run m.from_id m.text r ∷ t) = (k, (λ _. inl refl), ran) in
              Outcome-of (λ _. Told r) Failed
                (explained (bytes "audit agent run: ") (w.recorded t m.from_id m.text r))
                (records_run m.from_id m.text r ∷ t) (λ _ _. h) (λ _ _. inl k);
        })
        (λ n. Ensures-pure tt (λ t k. (k, (λ a. absurd (ground arith)), ran)))

  finished_ensures :
      (done : Settled × Option Text)
      → ((r : Settled) → done ≡ (r, none) → Ran ps qs sv m w r)
      → Ensures Held (finished w sv m done) (λ _. End) Failed
  unfolding send_evidence
  finished_ensures (r, some e) ran =
      Ensures-from (λ t k. inl k) (quiet_reply ps qs sv m w End (Done-Stable ps qs sv m w) w _ _)
  finished_ensures (r, none) ran =
      Ensures-bind _ _ _
        (Ensures-bind _ _ _ (record_run_ensures r (ran r refl))
          (λ _. evidence_ensures r r.transcript))
        (λ _. execute_ensures r)

  explained_ends :
      (r : Result (Unit {0})) (t : Trail)
      → Outcome (λ _. Held) Failed r t
      → Outcome (λ _. Held) Failed (explained (bytes "send agent ack failed: ") r) t
  explained_ends (ok a) t h = h
  explained_ends (err e) t h = h

  acknowledged_ensures :
      (send : Exec Trail (Unit {0}))
      → Ensures Held send (λ _. Held) Failed
      → Ensures Held (acknowledged send) (λ _. Held) Failed
  unfolding acknowledged
  acknowledged_ensures send h = record {
    at = λ t k. explained_ends (send t).0 (send t).1 (h.at t k);
  }

  shop_with_ensures :
      (account : Account)
      → (t : Trail) × (w.account t m.from_id ≡ linked account)
      → Ensures Held (shop_with w sv m account) (λ _. End) Failed
  unfolding shop_with
  shop_with_ensures account known =
      let st = Still-Stable ps qs sv m w in
      Ensures-bind _ _ _ (acknowledged_ensures _ (quiet_reply ps qs sv m w Held st w _ _)) (λ _.
        Ensures-bind _ _ _ (quiet_recall ps qs sv m w Held st w) (λ prior.
          Ensures-bind _ _ _ (quiet_observed ps qs sv m w Held st _ _ (refl, refl)) (λ done.
            Ensures-known (λ t p. p)
              (λ gave. Ensures-bind _ _ _ (quiet_remember ps qs sv m w Held st _) (λ _.
                finished_ensures done (λ r e. record {
                  account = account;
                  linked_to = known;
                  prior = prior;
                  given = (gave.0, gave.1 ∙ e);
                }))))))

  shop_as_ensures :
      (a : AccountAnswer)
      → (t : Trail) × (w.account t m.from_id ≡ a)
      → Ensures Held (shop_as w sv m a) (λ _. End) Failed
  shop_as_ensures not_linked known =
      Ensures-from (λ t k. inl k) (quiet_reply ps qs sv m w End (Done-Stable ps qs sv m w) w _ _)
  shop_as_ensures (unreadable e) known =
      Ensures-from (λ t k. inl k) (quiet_reply ps qs sv m w End (Done-Stable ps qs sv m w) w _ _)
  shop_as_ensures (linked account) known = shop_with_ensures account known

  start_shopping_ensures : Ensures Held (start_shopping w sv m) (λ _. End) Failed
  unfolding start_shopping
  start_shopping_ensures =
      Ensures-bind _ _ _
        (quiet_observed ps qs sv m w Held (Still-Stable ps qs sv m w) _ _ (refl, refl))
        (λ a. Ensures-known (λ t p. p) (λ known. shop_as_ensures a known))

  unless_open_ensures :
      (answer : Result (Option PendingApproval))
      → Ensures Held (unless_open w sv m answer) (λ _. End) Failed
  unfolding ask_again open_name
  unless_open_ensures (ok (some p)) =
      let st = Still-Stable ps qs sv m w in
      Ensures-to (λ _ t k. inl k) (λ _ t k. k)
        (Ensures-bind _ _ _ (quiet_observe ps qs sv m w Held st _ _ (refl, refl))
          (λ name. quiet_reply ps qs sv m w Held st w _ _))
  unless_open_ensures (ok none) = start_shopping_ensures
  unless_open_ensures (err e) = start_shopping_ensures

  pub conversational_buy_ensures : Ensures Held (conversational_buy w sv m) (λ _. End) Failed
  unfolding conversational_buy
  conversational_buy_ensures =
      Ensures-if (not sv.has_shopping) _ _
        (λ _.
          Ensures-from (λ t k. inl k)
            (quiet_reply ps qs sv m w End (Done-Stable ps qs sv m w) w _ _))
        (λ _.
          Ensures-if sv.has_approvals _ _
            (λ _.
              Ensures-bind _ _ _
                (quiet_observe ps qs sv m w Held (Still-Stable ps qs sv m w) _ _ (refl, refl))
                (λ answer. unless_open_ensures answer))
            (λ _. start_shopping_ensures))

-- The postcondition of a computation that has the same one for results and errors.
pub Outcome-same :
    {A : Type 0} (Q : Trail → Type 0) (r : Result A) (t : Trail)
    → Outcome (λ _. Q) (λ _. Q) r t
    → Q t
Outcome-same Q (ok a) t h = h
Outcome-same Q (err e) t h = h

-- Words that are read as a request answer no approval and ask for one purchase at most. If they ask
-- for one, it is for this person and under the key of this message, without a person's approval,
-- with the product, the quantity and the amounts of a result that the shopping graph gave, without
-- an error, for these words and the wallet of the account that the person is linked to; its action
-- was neither to ask nor to decline, its base amount is the catalog's price, and with an audit
-- store it was given to that before the answer ended.
pub conversational_buy-Done :
    (w : World) (sv : Services) (m : Message) (t : Trail)
    → Done (purchases t) (answers t) sv m w (conversational_buy w sv m t).1
conversational_buy-Done w sv m t =
    Outcome-same (Done (purchases t) (answers t) sv m w) (conversational_buy w sv m t).0
      (conversational_buy w sv m t).1
      ((conversational_buy_ensures (purchases t) (answers t) sv m w).at t (refl, refl))
