-- ===== src/Shopping/Choices.antt =====
-- Properties of the routes and of the closed set of actions.
use agent_mart.Prelude.{
  ◌≡◌, ◌≢◌, refl, sym, ◌∙◌, ◌↔◌, ◌⊎◌, inl, inr, true, Option, none, some, arith, Bool-cases,
  if◌then◌else◌,
}
use agent_mart.Prelude.Int.{pos, ◌≤ℤ◌, ◌<ℤ◌, leb_ℤ}
use agent_mart.Prelude.Text.{Text, text_eq, is_empty, eq_of_text_eq}
use agent_mart.Shopping.World.{Wallet, Assessment, Offer, Settled, Shop}
use agent_mart.Shopping.Meanings.{
  Says, acceptance, bargaining, refusal, means_accept, means_negotiate, means_decline,
}
use agent_mart.Shopping.Route.{
  accept_route, ask_human_route, negotiate_route, decline_route, Route, named_route, within_money,
  routed, route_for, normalized, buy, ask_human, declined, known_action, asks_person,
}

-- The word means acceptance and the money is there, within what the person allowed: within the
-- budget if a positive one is stated, and else within the spend limit if that is positive.
pub record Affordable (a : Assessment) (offer : Offer) (w : Wallet) : Type 0 where
  pub accepts : Says a.decision acceptance
  pub in_balance : offer.final_paise ≤ℤ w.balance_paise
  pub in_budget : pos 0 <ℤ w.budget_paise → offer.final_paise ≤ℤ w.budget_paise
  pub in_limit :
      w.budget_paise ≤ℤ pos 0
      → pos 0 <ℤ w.spend_limit_paise
      → offer.final_paise ≤ℤ w.spend_limit_paise

-- The money guard lets exactly the affordable offers through.
within_money-Affordable :
    (a : Assessment) (offer : Offer) (w : Wallet)
    → Says a.decision acceptance
    → ((within_money offer w).0 ≡ accept_route) ↔ Affordable a offer w
within_money-Affordable a offer w says = (
  λ h. record {
    accepts = says;
    in_balance = ground arith;
    in_budget = λ k. ground arith;
    in_limit = λ k l. ground arith;
  },
  λ h. let b = h.in_balance in let c = h.in_budget in let d = h.in_limit in ground arith,
)

within_money_asks :
    (offer : Offer) (w : Wallet)
    → ((within_money offer w).0 ≢ negotiate_route) × ((within_money offer w).0 ≢ decline_route)
within_money_asks offer w = (λ h. ground arith, λ h. ground arith)

-- What the route is, by what the decision means.
abbrev pub Routed : Assessment → Offer → Wallet → Route → Type 0
Routed a offer w route =
    ((route ≡ accept_route) ↔ Affordable a offer w)
    × ((route ≡ negotiate_route) ↔ Says a.decision bargaining)
    × ((route ≡ decline_route) ↔ Says a.decision refusal)

routed-Affordable :
    (shop : Shop) (a : Assessment) (offer : Offer) (w : Wallet) (means : Option Route)
    → named_route a.decision ≡ means
    → Routed a offer w (routed shop a.decision means offer w).0
routed-Affordable shop a offer w none k = (
  (
    λ h. absurd (ground arith),
    λ h. absurd (let e = sym k ∙ (means_accept a.decision).1 h.accepts in ground arith),
  ),
  (
    λ h. absurd (ground arith),
    λ s. absurd (let e = sym k ∙ (means_negotiate a.decision).1 s in ground arith),
  ),
  (
    λ h. absurd (ground arith),
    λ s. absurd (let e = sym k ∙ (means_decline a.decision).1 s in ground arith),
  ),
)
routed-Affordable shop a offer w (some accept_route) k = (
  within_money-Affordable a offer w ((means_accept a.decision).0 k),
  (
    λ h. absurd ((within_money_asks offer w).0 h),
    λ s. absurd (let e = sym k ∙ (means_negotiate a.decision).1 s in ground arith),
  ),
  (
    λ h. absurd ((within_money_asks offer w).1 h),
    λ s. absurd (let e = sym k ∙ (means_decline a.decision).1 s in ground arith),
  ),
)
routed-Affordable shop a offer w (some negotiate_route) k = (
  (
    λ h. absurd (ground arith),
    λ h. absurd (let e = sym k ∙ (means_accept a.decision).1 h.accepts in ground arith),
  ),
  (λ h. (means_negotiate a.decision).0 k, λ s. refl),
  (
    λ h. absurd (ground arith),
    λ s. absurd (let e = sym k ∙ (means_decline a.decision).1 s in ground arith),
  ),
)
routed-Affordable shop a offer w (some ask_human_route) k = (
  (
    λ h. absurd (ground arith),
    λ h. absurd (let e = sym k ∙ (means_accept a.decision).1 h.accepts in ground arith),
  ),
  (
    λ h. absurd (ground arith),
    λ s. absurd (let e = sym k ∙ (means_negotiate a.decision).1 s in ground arith),
  ),
  (
    λ h. absurd (ground arith),
    λ s. absurd (let e = sym k ∙ (means_decline a.decision).1 s in ground arith),
  ),
)
routed-Affordable shop a offer w (some decline_route) k = (
  (
    λ h. absurd (ground arith),
    λ h. absurd (let e = sym k ∙ (means_accept a.decision).1 h.accepts in ground arith),
  ),
  (
    λ h. absurd (ground arith),
    λ s. absurd (let e = sym k ∙ (means_negotiate a.decision).1 s in ground arith),
  ),
  (λ h. (means_decline a.decision).0 k, λ s. refl),
)

-- A judgement is carried out as an acceptance exactly if its word means acceptance and the offer is
-- within the balance and, where the stated budget is positive, within that, or else, where the
-- spend limit is positive, within that. It is carried out as a negotiation, or a refusal, exactly
-- if its word means that; the person decides in all other cases.
pub route_for-Affordable :
    (shop : Shop) (a : Assessment) (offer : Offer) (w : Wallet)
    → Routed a offer w (route_for shop a offer w).0
unfolding route_for
route_for-Affordable shop a offer w = routed-Affordable shop a offer w (named_route a.decision) refl

-- What a caller may rely on, of a result made from `r`.
pub record Closed (r n : Settled) : Type 0 where
  pub known : (n.action ≡ buy) ⊎ ((n.action ≡ ask_human) ⊎ (n.action ≡ declined))
  pub buys_only_if_asked : n.action ≡ buy → (r.action ≡ buy) ⊎ (is_empty r.action ≡ true)
  pub asks_need_approval : n.action ≡ ask_human → n.needs_approval ≡ true
  pub approval_kept : r.needs_approval ≡ true → n.needs_approval ≡ true
  pub positive : pos 1 ≤ℤ n.quantity
  pub same_money : n.final_paise ≡ r.final_paise

known_action-cases :
    (a : Text) → known_action a ≡ true → (a ≡ buy) ⊎ ((a ≡ ask_human) ⊎ (a ≡ declined))
known_action-cases a h = elim (Bool-cases (text_eq a buy)) [
  | inl b ↦ inl (eq_of_text_eq a buy b)
  | inr b ↦ inr (elim (Bool-cases (text_eq a ask_human)) [
    | inl c ↦ inl (eq_of_text_eq a ask_human c)
    | inr c ↦ inr (eq_of_text_eq a declined (ground arith))
  ])
]

-- Asking the person is the only thing the last step changes.
asks_person-Closed :
    (r n : Settled)
    → (n.action ≡ buy) ⊎ ((n.action ≡ ask_human) ⊎ (n.action ≡ declined))
    → (n.action ≡ buy → (r.action ≡ buy) ⊎ (is_empty r.action ≡ true))
    → (r.needs_approval ≡ true → n.needs_approval ≡ true)
    → pos 1 ≤ℤ n.quantity
    → n.final_paise ≡ r.final_paise
    → Closed r (asks_person n)
asks_person-Closed r n k b a q m = elim (Bool-cases (text_eq n.action ask_human)) [
  | inl c ↦ rw c (record {
    known = k;
    buys_only_if_asked = b;
    asks_need_approval = λ _. refl;
    approval_kept = λ _. refl;
    positive = q;
    same_money = m;
  })
  | inr c ↦ rw c (record {
    known = k;
    buys_only_if_asked = b;
    asks_need_approval = λ e. absurd (ground arith);
    approval_kept = a;
    positive = q;
    same_money = m;
  })
]

-- A result that is made normal has one of the three actions, buys only if it was to buy or had no
-- action, needs approval if it asks or needed it before, counts at least one item, and has the
-- amount that it had.
pub normalized-Closed : (shop : Shop) (r : Settled) → Closed r (normalized shop r)
unfolding normalized
normalized-Closed shop r =
    let q : pos 1 ≤ℤ (if leb_ℤ r.quantity (pos 0) then pos 1 else r.quantity) = ground arith in
    elim (Bool-cases (known_action r.action)) [
      | inl k ↦
          rw k (asks_person-Closed r _ (known_action-cases r.action k) (λ e. inl e) (λ e. e) q refl)
      | inr k ↦ rw k (elim (Bool-cases (is_empty r.action)) [
        | inl e ↦ rw e (asks_person-Closed r _ (inl refl) (λ _. inr e) (λ a. a) q refl)
        | inr e ↦
            rw e
              (asks_person-Closed r _ (inr (inl refl)) (λ b. absurd (ground arith)) (λ a. a) q refl)
      ])
    ]
