-- ===== src/Tools/Shipping/Quotes.antt =====
-- app/tools/shipping_tools.py: the delivery quotes, the cheapest, the fastest and all in order. What
-- Topship answers is an argument; the weight and the countries only go into the request.
use ekaette.Prelude.{
  ℕ, String, Bool, ◌&&◌, ◌||◌, Option, none, some, List, [], ◌∷◌, str_eq, ltb, leb, ◌==◌,
  if◌then◌else◌, strip,
}
use ekaette.Agents.Messages.{Json, dict, list, Items, nil, cons, Fields, get}
use ekaette.Tools.Shipping.Records.{or_text}
use ekaette.Tools.Shipping.Rates.{Python, Quote, map_rate_to_quote}

-- The request raises, or is answered with a status code and a body: JSON, or else its text.
pub data RateAnswer : Type 0 where
  raised : RateAnswer
  answered : ℕ → Json → RateAnswer

pub data QuoteCode : Type 0 where
  topship_not_configured : QuoteCode
  topship_invalid_route : QuoteCode
  topship_request_failed : QuoteCode
  topship_api_error : QuoteCode
  topship_no_quotes : QuoteCode

pub record Offer : Type 0 where
  pub sender_city : String
  pub receiver_city : String
  pub recommended : Quote
  pub cheapest : Quote
  pub fastest : Quote
  pub quotes : List Quote

-- `crashed` is an exception, of a text of digits that `int` refuses.
pub data Quoted : Type 0 where
  failed : QuoteCode → Quoted
  quoted : Offer → Quoted
  crashed : Quoted

-- the dicts of a list
unfoldable dicts_of : Items → List Fields
dicts_of nil = []
dicts_of (cons (dict fields) items) = fields ∷ dicts_of items
dicts_of (cons _ items) = dicts_of items

abbrev dicts_in : Option Json → List Fields
dicts_in (some (list items)) = dicts_of items
dicts_in _ = []

unfoldable pub extract_rate_items : Json → List Fields
unfolding dicts_of get
extract_rate_items (list items) = dicts_of items
extract_rate_items (dict payload) = dicts_in (get "data" payload)
extract_rate_items _ = []

abbrev pub cons_if_priced : Quote → List Quote → List Quote
cons_if_priced q quotes = if ltb 0 q.total_kobo then q ∷ quotes else quotes

abbrev pub with_quote : Option Quote → Option (List Quote) → Option (List Quote)
with_quote none quotes = none
with_quote (some q) none = none
with_quote (some q) (some quotes) = some (cons_if_priced q quotes)

-- The quotes of the rates, those with a price; none where one of them raises.
unfoldable pub priced_quotes : Python → List Fields → Option (List Quote)
unfolding map_rate_to_quote
priced_quotes py [] = some []
priced_quotes py (rate ∷ rates) =
    let quotes = priced_quotes py rates in with_quote (map_rate_to_quote py rate) quotes

-- the order of pairs
abbrev pub lt_key : ℕ × ℕ → ℕ × ℕ → Bool
lt_key (a, b) (c, d) = ltb a c || (a == c && ltb b d)

abbrev pub by_total : Quote → ℕ × ℕ
by_total q = (q.total_kobo, q.estimated_days)

abbrev pub by_days : Quote → ℕ × ℕ
by_days q = (q.estimated_days, q.total_kobo)

module _ (key : Quote → ℕ × ℕ) where
  abbrev pub lower_of : Quote → Quote → Quote
  lower_of r q = if lt_key (key r) (key q) then r else q

  -- `min(quotes, key=key)`: the first of the lowest
  unfoldable pub min_of : Quote → List Quote → Quote
  min_of q [] = q
  min_of q (r ∷ rs) = min_of (lower_of r q) rs

  -- `sorted(quotes, key=key)`, which keeps the order of equal keys
  unfoldable pub insert_quote : Quote → List Quote → List Quote
  insert_quote q [] = q ∷ []
  insert_quote q (r ∷ rs) =
      let rest = insert_quote q rs in if lt_key (key r) (key q) then r ∷ rest else q ∷ r ∷ rs

  unfoldable pub sort_quotes : List Quote → List Quote
  unfolding insert_quote
  sort_quotes [] = []
  sort_quotes (q ∷ qs) = insert_quote q (sort_quotes qs)

module _ (py : Python) where
  abbrev pub offer_of : String → String → String → Quote → List Quote → Offer
  offer_of sender receiver prefer q qs =
      let cheapest = min_of by_total q qs in
      let fastest = min_of by_days q qs in
      record {
        sender_city = sender;
        receiver_city = receiver;
        recommended =
            if str_eq (py.lower (strip (or_text prefer "cheapest"))) "fastest"
            then fastest
            else cheapest;
        cheapest = cheapest;
        fastest = fastest;
        quotes = sort_quotes by_total (q ∷ qs);
      }

  abbrev pub offer_if_any : String → String → String → Option (List Quote) → Quoted
  offer_if_any sender receiver prefer none = crashed
  offer_if_any sender receiver prefer (some []) = failed topship_no_quotes
  offer_if_any sender receiver prefer (some (q ∷ qs)) =
      quoted (offer_of sender receiver prefer q qs)

  abbrev pub quote_answer : String → String → String → RateAnswer → Quoted
  quote_answer sender receiver prefer raised = failed topship_request_failed
  quote_answer sender receiver prefer (answered status_code payload) =
      if leb 400 status_code
      then failed topship_api_error
      else offer_if_any sender receiver prefer (priced_quotes py (extract_rate_items payload))

  unfoldable pub get_topship_delivery_quote :
      String → String → String → String → RateAnswer → Quoted
  unfolding priced_quotes extract_rate_items min_of sort_quotes
  get_topship_delivery_quote api_key sender_city receiver_city prefer answer =
      let sender = strip sender_city in
      let receiver = strip receiver_city in
      if str_eq api_key ""
      then failed topship_not_configured
      else if str_eq sender "" || str_eq receiver ""
      then failed topship_invalid_route
      else quote_answer sender receiver prefer answer
