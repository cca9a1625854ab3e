-- ===== src/Lib.antt =====
-- The core of AgentMart: a buyer agent that spends a person's allowance, and a merchant that
-- bargains with it.
--
-- A purchase starts in internal/buyer/purchase.go. It reads the account and the product, prices the
-- request, asks the gate (internal/gate/gate.go), and settles what the gate authorised: an order at
-- the payment gateway (internal/razorpay/orders.go), then the database function behind
-- internal/wallet/wallet.go that takes the money. Above the person's limit it stores a request for
-- approval (internal/buyer/approval.go), which a later message resolves. internal/buyer/refund.go
-- credits a cancelled order and records it at the gateway. The price comes from
-- internal/negotiation: an opening offer whose uplift the shop can justify, a session of at most
-- three rounds, and an orchestrator that answers each counter of the buyer.
-- Before a purchase of a message in plain words, the shopping graph of internal/shopgraph browses,
-- chooses, asks for a price, judges the offer and settles it; cmd/user/main.go turns messages into
-- these runs, purchases, answers to approvals and replies.
-- The merchant graph of internal/marketgraph is the negotiator that the server may ask for wording
-- and amounts; a guard clamps what its strategist proposes.
--
-- Files, and the code that they model:
--   Prelude      shared names; Int64 is Go's int and int64 with wrap-around, Text is a byte string,
--                Decimal is fmt's %d and %.2f, Float is a float64 product that is truncated, Result
--                and Ensures are calls that fail and their postconditions
--   Gate         internal/gate/gate.go: Defs (rejectionReason, New, Evaluate), Policy, Audit
--   Catalog      the Product of internal/catalog/catalog.go
--   Wallet       internal/wallet/wallet.go: the requests and their checks
--   Buyer        internal/buyer: World is everything outside (database, gateway, clock, random
--                source) as arbitrary functions of the calls made so far; Settlement, Approval,
--                Purchase and Refund are the files of that name; Trail, Settling, Spending,
--                Resumption, Refusals, Credit, Reversal and Owing are their properties
--   Negotiation  internal/negotiation: Conditions (conditions.go), Offer (policy.go), Session
--                (negotiation.go), Orchestrator (orchestrator.go), Server and Handlers (http.go),
--                Browse (browse.go); Uplift, Quote, Floor, Lifecycle, Concession, Rails, Writes and
--                Shelf are their properties
--   Merchant     internal/marketgraph: Graph (graph.go and nodes.go), Guard its properties
--   Shopping     internal/shopgraph: World (graph.go and the shop's answers), Words and Route (the pure
--                decisions of builder.go), State, Nodes, Settle and Run (its nodes and
--                ContinueWithProgress); Meanings, Choices, Steps, Basket,
--                Ends and Results are their properties
--   Chat         cmd/user/main.go: Words (texts and buttons), World, Talk (conversationalBuy),
--                Commands (responseForCommandWithServices, handleMessage); Money, Consent, Acts and
--                Buttons are their properties
--   Updates      cmd/user: Lane (telegram_dispatch.go, for one person), Intake (update_processing.go, the
--                router of telegram_dispatch.go, the Redis half of offset_store.go); Order, Drain,
--                Resume and Offset are their properties
--   Trading      internal/razorpay/sales.go: Sales; internal/trading/trading.go and
--                internal/campaigns/campaigns.go: Facts; Totals and Reads are their properties
--   Failure      internal/failure/failure.go: Hints (the layers) and Explain; Named and Layers its properties
--
-- State: a session is a value that each method returns anew; the buyer's state is the trail of the
-- calls that it made, the latest first, and so is the chat's; a run of the shopping graph carries
-- its recorded basket and amount, its notes, its trail and its latest output; the
-- goroutines of one person interleave with the dispatcher as steps of a relation, in which what the
-- lock covers is one step; the handlers run over the state of an abstract store.
--
-- Bounds: an amount that passes through float64 is bounded by 2 ^ 53, below which a float64 holds
-- every integer; an amount that is multiplied by a rate in basis points is bounded so that the
-- product stays within int64. `decimal` prints at most twenty digits, which hold every 64-bit
-- number. A time is a number of nanoseconds, 0 for the zero time; one request of the negotiation
-- reads the clock once.
--
-- Not modelled: the database functions and the HTTP, JSON, Redis and Telegram boundaries, whose
-- answers are arbitrary in the models; the chat models, whose answers are arbitrary too; the
-- runtime of the graphs, which is taken to hand on one output per node and to stop at the first
-- error, with its bounds on events and time; the markup of a reply; the shop front and
-- linking. Error values are their
-- messages. A nil dependency of the buyer's services is a flag of the service.
pub mod Prelude
pub mod Gate
pub mod Catalog
pub mod Wallet
pub mod Buyer
pub mod Negotiation
pub mod Merchant
pub mod Shopping
pub mod Chat
pub mod Updates
pub mod Trading
pub mod Failure
