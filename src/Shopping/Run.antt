-- ===== src/Shopping/Run.antt =====
-- `ContinueWithProgress` of internal/shopgraph/builder.go: the graph from its first node to its
-- last, and what becomes of a run that ends early. The runtime hands on one event for each node's
-- output and stops at the first error, in which it keeps the sentinel. The bounds on events and time
-- are left to the runtime.
use agent_mart.Prelude.{Option, none, some, false, [], ◌++◌}
use agent_mart.Prelude.Int.{pos}
use agent_mart.Prelude.Text.{Text, bytes, text_eq}
use agent_mart.Prelude.Result.{Result, ok, err, Exec, ◌>>=◌, ◌>>◌, pure}
use agent_mart.Shopping.World.{Wallet, Conversation, Settled, Outcome, Shop}
use agent_mart.Shopping.Route.{ask_human, declined, normalized, escalate}
use agent_mart.Shopping.State.{
  Sentinel, nothing_to_show, nothing_worth_buying, Last, nothing, other, offered, reached, Run,
  begin, note_to,
}
use agent_mart.Shopping.Nodes.{ask_shop, choose_option, fetch_offer, decide_offer}
use agent_mart.Shopping.Settle.{settle_by, finalize, settled_goods, settled_amount, quoted_at}

-- The result of a run that bought nothing.
abbrev pub nothing_bought : Text → Settled
nothing_bought why = record {
  action = declined;
  product_id = [];
  product_name = [];
  quantity = pos 1;
  final_paise = pos 0;
  rationale = why;
  steps = [];
  session_id = [];
  transcript = [];
  accepted = false;
  needs_approval = false;
  bundled_paise = pos 0;
  quoted_at = pos 0;
  shown = [];
}

abbrev from_outcome : Run → Outcome → Settled
from_outcome s o = record {
  action = o.action;
  product_id = (settled_goods s o).product_id;
  product_name = o.product_name;
  quantity = (settled_goods s o).quantity;
  final_paise = settled_amount s o;
  rationale = o.rationale;
  steps = o.steps;
  session_id = o.session_id;
  transcript = o.transcript;
  accepted = o.accepted;
  needs_approval = text_eq o.action ask_human;
  bundled_paise = (settled_goods s o).bundled_paise;
  quoted_at = quoted_at o (settled_goods s o);
  shown = [];
}

-- `resultFrom`
unfoldable pub result_from : Shop → Option Settled → Last → Exec Run Settled
result_from shop (some r) l s = (ok (normalized shop r), s)
result_from shop none (reached o) s = (ok (normalized shop (from_outcome s o)), s)
result_from shop none (offered offer) s =
    (do
      _ ← note_to (bytes "The negotiation did not settle, so this offer goes to you.")
      pure (escalate shop offer (bytes "the negotiation did not settle, so it goes to you")))
      s
result_from shop none other s =
    (err (bytes "graph finished without a result (last output of another stage)"), s)
result_from shop none nothing s =
    (err (bytes "graph finished without a result (last output <nil>)"), s)

-- What a run that met an error still gives.
abbrev pub given_up : Shop → Option Sentinel → Last → Text → Exec Run Settled
given_up shop (some nothing_to_show) l e =
    note_to (bytes "The shop had nothing within the budget, so nothing was bought.")
    >> pure (nothing_bought e)
given_up shop (some nothing_worth_buying) l e =
    note_to (bytes "Nothing the shop showed was worth buying, so nothing was bought.")
    >> pure (nothing_bought e)
given_up shop none (offered offer) e =
    note_to (bytes "The run could not finish, so this offer goes to you.")
    >> pure (escalate shop offer (bytes "the run could not finish: " ++ shop.explain e))
given_up shop none l e = λ s.
    (err (bytes "graph run failed after " ++ (shop.events s.trail ++ (bytes " events: " ++ e))), s)

-- What the loop over the events makes of the nodes' answer.
abbrev pub ended : Shop → Result Settled → Run → Result Settled × Run
ended shop (ok r) s = result_from shop (some r) s.last s
ended shop (err e) s = given_up shop s.refusal s.last (shop.raised e) s

-- `result.Shown` is attached on every path. Beside an error it is the state's.
abbrev pub with_shown : Result Settled × Run → Result Settled × Run
with_shown (ok r, s) = (ok (record r { shown = s.shown }), s)
with_shown (err e, s) = (err e, s)

module _ (shop : Shop) (wallet : Wallet) (prior : Conversation) where
  -- The graph, edge by edge.
  unfoldable pub graph : Text → Exec Run Settled
  graph request = do
    shortlist ← ask_shop shop wallet prior request
    pick ← choose_option shop wallet prior shortlist
    view ← fetch_offer shop wallet prior pick
    d ← decide_offer shop wallet prior view
    outcome ← settle_by shop d.0 d.1
    finalize shop outcome

  -- `ContinueWithProgress`
  unfoldable pub continue_with_progress : Text → Result Settled × Run
  continue_with_progress request =
      let done = graph request begin in with_shown (ended shop done.0 done.1)
