-- ===== src/Shopping/Words.antt =====
-- The words that internal/shopgraph/builder.go joins, cuts and compares.
use agent_mart.Prelude.{
  Bool, true, false, not, ◌&&◌, ◌++◌, ◌+◌, List, [], ◌∷◌, map, if◌then◌else◌, leb, ◌==◌,
}
use agent_mart.Prelude.Text.{Text, bytes, is_empty, trim_space, text_eq}
use agent_mart.Prelude.Decimal.{rupees}
use agent_mart.Wallet.{is_blank}
use agent_mart.Shopping.World.{PriorOption, Conversation, Shop}

-- `strings.ToLower` as far as a comparison with an ASCII word sees it: the Kelvin sign and the
-- dotted I become ASCII letters, and no other letter above ASCII does.
unfoldable pub to_lower : Text → Text
to_lower [] = []
to_lower (a ∷ []) = (if leb 65 a && leb a 90 then a + 32 else a) ∷ []
to_lower (a ∷ b ∷ []) =
    let rest = to_lower (b ∷ []) in
    if (a == 0xc4) && (b == 0xb0)
    then 105 ∷ []
    else (if leb 65 a && leb a 90 then a + 32 else a) ∷ rest
to_lower (a ∷ b ∷ c ∷ s) =
    let rest1 = to_lower (b ∷ c ∷ s) in
    let rest2 = to_lower (c ∷ s) in
    let rest3 = to_lower s in
    if (a == 0xc4) && (b == 0xb0)
    then 105 ∷ rest2
    else if (a == 0xe2) && ((b == 0x84) && (c == 0xaa))
    then 107 ∷ rest3
    else (if leb 65 a && leb a 90 then a + 32 else a) ∷ rest1

-- `strings.Join`
unfoldable pub join : Text → List Text → Text
join sep [] = []
join sep (s ∷ []) = s
join sep (s ∷ t ∷ rest) = s ++ (sep ++ join sep (t ∷ rest))

kept : List Text → List Text
kept [] = []
kept (part ∷ parts) =
    let rest = kept parts in if is_blank part then rest else trim_space part ∷ rest

-- `joinReason`
unfoldable pub join_reason : List Text → Text
unfolding kept
join_reason parts = join (bytes "; ") (kept parts)

before_newline : Text → Text
before_newline [] = []
before_newline (c ∷ s) = let rest = before_newline s in if c == 10 then [] else c ∷ rest

-- `firstLine`
unfoldable pub first_line : Text → Text
unfolding before_newline
first_line s = trim_space (before_newline s)

abbrev no_options : List PriorOption → Bool
no_options [] = true
no_options (_ ∷ _) = false

-- `Conversation.Empty`
unfoldable pub is_empty_conversation : Conversation → Bool
is_empty_conversation c = is_blank c.brief && no_options c.options

abbrev pub priced_name : PriorOption → Text
priced_name o = o.name ++ (bytes " at INR " ++ rupees o.price_paise)

-- `briefWithHistory`
unfoldable pub brief_with_history : Shop → Text → Conversation → Text
brief_with_history shop brief prior =
    let original = trim_space prior.brief in
    let asked =
      if not (is_empty original) && not (text_eq original brief)
      then brief ++ (bytes ". This follows on from " ++ shop.quoted original)
      else brief in
    let shown = join (bytes "; ") (map priced_name prior.options) in
    if is_empty_conversation prior
    then brief
    else if no_options prior.options
    then asked
    else asked ++ (bytes ", after being shown " ++ shown)
