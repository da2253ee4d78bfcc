-- ===== src/Tools/Shipping/Offers.antt =====
-- The offer of app/tools/shipping_tools.py: what is recommended among the delivery quotes.
use ekaette.Prelude.{
  ◌≤◌, ◌<◌, String, ◌≡◌, ◌⊎◌, Bool, true, false, ◌||◌, Option, none, some, List, [], ◌∷◌, arith,
  str_eq, leb, if◌then◌else◌, get_elem?, All, strip,
}
use ekaette.Tools.Shipping.Rates.{Python, Quote, map_rate_to_quote}
use mathlib.Core.Path.{subst}
use ekaette.Tools.Shipping.Lowest.{
  Among, Lowest, sort_quotes-head, min_of-Lowest, sort_quotes-All, sort_quotes-Among, min_of-Among,
}
use ekaette.Agents.Messages.{Fields}
use ekaette.Tools.Shipping.Quotes.{
  raised, answered, failed, crashed, topship_api_error, topship_not_configured,
  topship_invalid_route, get_topship_delivery_quote, priced_quotes, extract_rate_items,
  quote_answer, offer_if_any, offer_of, with_quote, cons_if_priced, RateAnswer, Offer, Quoted,
  quoted, lt_key, by_total, by_days, min_of, sort_quotes, priced_quotes,
}

-- What the customer is told: the quotes begin with the cheapest, none is cheaper, none is faster
-- than the fastest, which is one of them, each has a price, and one of the two is recommended.
pub record IsFair (o : Offer) : Type 0 where
  pub cheapest_first : get_elem? o.quotes 0 ≡ some o.cheapest
  pub none_cheaper : All (λ q. o.cheapest.total_kobo ≤ q.total_kobo) o.quotes
  pub none_faster : All (λ q. o.fastest.estimated_days ≤ q.estimated_days) o.quotes
  pub fastest_offered : Among o.fastest o.quotes
  pub priced : All (λ q. 0 < q.total_kobo) o.quotes
  pub one_of_both : (o.recommended ≡ o.cheapest) ⊎ (o.recommended ≡ o.fastest)

All-weaken :
    (P Q : Quote → Type 0) → ((q : Quote) → P q → Q q) → (qs : List Quote) → All P qs → All Q qs
All-weaken P Q f [] h = tt
All-weaken P Q f (q ∷ qs) (h, all) = (f q h, All-weaken P Q f qs all)

abbrev IsPriced : Quote → Type 0
IsPriced q = 0 < q.total_kobo

abbrev IsPricedIf : Option (List Quote) → Type 0
IsPricedIf none = Unit
IsPricedIf (some qs) = All IsPriced qs

cons_if_priced-All :
    (q : Quote) (qs : List Quote) → All IsPriced qs → All IsPriced (cons_if_priced q qs)
cons_if_priced-All q qs h = ground (arith, h)

with_quote-All :
    (o : Option Quote) (qs : Option (List Quote)) → IsPricedIf qs → IsPricedIf (with_quote o qs)
with_quote-All none qs h = tt
with_quote-All (some q) none h = tt
with_quote-All (some q) (some qs) h = cons_if_priced-All q qs h

priced_quotes-All : (py : Python) (rates : List Fields) → IsPricedIf (priced_quotes py rates)
unfolding priced_quotes
priced_quotes-All py [] = tt
priced_quotes-All py (rate ∷ rates) =
    with_quote-All (map_rate_to_quote py rate) (priced_quotes py rates) (priced_quotes-All py rates)

IsLowest-total :
    (m q : Quote) → lt_key (by_total q) (by_total m) ≡ false → m.total_kobo ≤ q.total_kobo
IsLowest-total m q h = ground (arith, h)

IsLowest-days :
    (m q : Quote) → lt_key (by_days q) (by_days m) ≡ false → m.estimated_days ≤ q.estimated_days
IsLowest-days m q h = ground (arith, h)

module _ (py : Python) (sender receiver prefer : String) where
  offer_of-IsFair :
      (q : Quote) (qs : List Quote)
      → All IsPriced (q ∷ qs)
      → IsFair (offer_of py sender receiver prefer q qs)
  offer_of-IsFair q qs priced =
      let sorted = sort_quotes by_total (q ∷ qs) in
      let m = min_of by_total q qs in
      let f = min_of by_days q qs in
      record {
        cheapest_first = sort_quotes-head by_total q qs;
        none_cheaper =
            All-weaken (Lowest by_total m) (λ x. m.total_kobo ≤ x.total_kobo) (IsLowest-total m)
              sorted
              (sort_quotes-All by_total (Lowest by_total m) (q ∷ qs) (min_of-Lowest by_total q qs));
        none_faster =
            All-weaken (Lowest by_days f) (λ x. f.estimated_days ≤ x.estimated_days)
              (IsLowest-days f) sorted
              (sort_quotes-All by_total (Lowest by_days f) (q ∷ qs) (min_of-Lowest by_days q qs));
        fastest_offered = sort_quotes-Among by_total f (q ∷ qs) (min_of-Among by_days q qs);
        priced = sort_quotes-All by_total IsPriced (q ∷ qs) priced;
        one_of_both = ground arith;
      }

-- An answer that is an offer is a fair one.
abbrev IsFairIf : Quoted → Type 0
IsFairIf (failed code) = Unit
IsFairIf (quoted o) = IsFair o
IsFairIf crashed = Unit

module _ (py : Python) where
  offer_if_any-IsFairIf :
      (sender receiver prefer : String) (quotes : Option (List Quote))
      → IsPricedIf quotes
      → IsFairIf (offer_if_any py sender receiver prefer quotes)
  offer_if_any-IsFairIf sender receiver prefer none h = tt
  offer_if_any-IsFairIf sender receiver prefer (some []) h = tt
  offer_if_any-IsFairIf sender receiver prefer (some (q ∷ qs)) h =
      offer_of-IsFair py sender receiver prefer q qs h

  IsFairIf-if : (b : Bool) (x y : Quoted) → IsFairIf x → IsFairIf y → IsFairIf (if b then x else y)
  IsFairIf-if true x y h k = h
  IsFairIf-if false x y h k = k

  quote_answer-IsFairIf :
      (sender receiver prefer : String) (answer : RateAnswer)
      → IsFairIf (quote_answer py sender receiver prefer answer)
  quote_answer-IsFairIf sender receiver prefer raised = tt
  quote_answer-IsFairIf sender receiver prefer (answered status_code payload) =
      let quotes = priced_quotes py (extract_rate_items payload) in
      IsFairIf-if (leb 400 status_code) (failed topship_api_error)
        (offer_if_any py sender receiver prefer quotes) tt
        (offer_if_any-IsFairIf sender receiver prefer quotes
          (priced_quotes-All py (extract_rate_items payload)))

  -- Every offer of `get_topship_delivery_quote` is fair: the quotes begin with the cheapest, none is
  -- cheaper, none is faster than the fastest, which is one of them, each has a price, and the
  -- cheapest or the fastest is recommended.
  pub get_topship_delivery_quote-IsFair :
      (api_key sender_city receiver_city prefer : String) (answer : RateAnswer) (o : Offer)
      → get_topship_delivery_quote py api_key sender_city receiver_city prefer answer ≡ quoted o
      → IsFair o
  unfolding get_topship_delivery_quote
  get_topship_delivery_quote-IsFair api_key sender_city receiver_city prefer answer o h =
      let sender = strip sender_city in
      let receiver = strip receiver_city in
      let got = quote_answer py sender receiver prefer answer in
      subst IsFairIf h (
        IsFairIf-if (str_eq api_key "") (failed topship_not_configured)
          (if str_eq sender "" || str_eq receiver "" then failed topship_invalid_route else got) tt
          (IsFairIf-if (str_eq sender "" || str_eq receiver "") (failed topship_invalid_route) got
            tt (quote_answer-IsFairIf sender receiver prefer answer)))
