-- ===== src/At/CampaignAnalytics/Directory.antt =====
-- list_known_contacts of app/api/v1/at/campaign_analytics.py: the phones of a tenant's company, from
-- the index of last campaigns and the recipients of the campaigns.
use Prim.Native.Char.{code}
use ekaette.Prelude.{
  String, Bool, true, false, ◌&&◌, Option, none, some, List, [], ◌∷◌, str_eq, ltb, ◌==◌,
  if◌then◌else◌,
}
use ekaette.Dict.{Dict, lookup, insert}
use ekaette.At.CampaignAnalytics.{Channel, CampaignState, Contact, Analytics}

pub record KnownContact : Type 0 where
  pub phone : String
  pub last_campaign_id : String
  pub last_campaign_name : String
  pub channel : Channel

abbrev pub known_contact : String → String → CampaignState → KnownContact
known_contact phone id state = record {
  phone = phone;
  last_campaign_id = id;
  last_campaign_name = state.campaign_name;
  channel = state.channel;
}

-- the first loop's body, with what `_campaigns.get` gives
unfoldable pub add_indexed :
    String → String → Contact → Option CampaignState → Dict KnownContact → Dict KnownContact
add_indexed tenant company d none found = found
add_indexed tenant company d (some state) found =
    if str_eq d.tenant_id tenant && str_eq d.company_id company
    then insert d.recipient (known_contact d.recipient d.campaign_id state) found
    else found

unfoldable pub index_contacts :
    String → String → Dict CampaignState → List Contact → Dict KnownContact → Dict KnownContact
unfolding add_indexed
index_contacts tenant company campaigns [] found = found
index_contacts tenant company campaigns (d ∷ ds) found =
    index_contacts tenant company campaigns ds
      (add_indexed tenant company d (lookup d.campaign_id campaigns) found)

unfoldable pub add_recipient :
    CampaignState → String → Option KnownContact → Dict KnownContact → Dict KnownContact
add_recipient state phone none found =
    insert phone (known_contact phone state.campaign_id state) found
add_recipient state phone (some known) found = found

unfoldable pub add_recipients : CampaignState → List String → Dict KnownContact → Dict KnownContact
unfolding add_recipient
add_recipients state [] found = found
add_recipients state (phone ∷ phones) found =
    add_recipients state phones (add_recipient state phone (lookup phone found) found)

-- a campaign of the tenant and the company
abbrev pub is_of : String → String → CampaignState → Bool
is_of tenant company state = str_eq state.tenant_id tenant && str_eq state.company_id company

unfoldable pub campaign_contacts :
    String → String → Dict CampaignState → Dict KnownContact → Dict KnownContact
unfolding add_recipients
campaign_contacts tenant company [] found = found
campaign_contacts tenant company ((id, state) ∷ campaigns) found =
    campaign_contacts tenant company campaigns
      (if is_of tenant company state then add_recipients state state.recipients found else found)

-- the order of texts, by code points
unfoldable pub text_le : String → String → Bool
text_le String.[] t = true
text_le (String.◌∷◌ c s) String.[] = false
text_le (String.◌∷◌ c s) (String.◌∷◌ d t) =
    let rest = text_le s t in if code c == code d then rest else ltb (code c) (code d)

unfoldable pub insert_by_phone : KnownContact → List KnownContact → List KnownContact
unfolding text_le
insert_by_phone k [] = k ∷ []
insert_by_phone k (l ∷ ls) =
    if text_le k.phone l.phone then k ∷ l ∷ ls else l ∷ insert_by_phone k ls

-- `sorted(contacts.values(), key=lambda c: c["phone"])`
unfoldable pub sorted_values : Dict KnownContact → List KnownContact
unfolding insert_by_phone
sorted_values [] = []
sorted_values ((phone, k) ∷ found) = insert_by_phone k (sorted_values found)

unfoldable pub list_known_contacts : String → String → Analytics → List KnownContact
unfolding index_contacts campaign_contacts sorted_values
list_known_contacts tenant company s = sorted_values (
    campaign_contacts tenant company s.campaigns
      (index_contacts tenant company s.campaigns s.contacts []))
