-- ===== src/At/CampaignAnalytics/Once.antt =====
-- An event id of app/api/v1/at/campaign_analytics.py counts once.
use ekaette.Prelude.{
  ℕ, suc, ◌+◌, ◌≤◌, ◌<◌, String, ◌≡◌, refl, sym, inl, inr, true, false, Option, none, some, List,
  [], ◌∷◌, arith, str_eq, eq_iff, eq_refl, Bool-cases, length,
}
use ekaette.Prelude.Int.{ℤ}
use ekaette.Dict.{Dict, lookup, lookup-insert}
use ekaette.Dict.Size.{length-insert-le}
use ekaette.At.CampaignAnalytics.{
  Analytics, Caller, or_empty, note_event_id, evict_seen, event_deduped,
}
use ekaette.At.CampaignAnalytics.Operations.{record_change, record_event}

-- A call of `record_event`.
pub record Report : Type 0 where
  pub event_type : String
  pub recipient : Option String
  pub amount_kobo : Option ℤ
  pub event_id : Option String
  pub caller : Caller

unfoldable pub report : Report → Analytics → Analytics
report r s = (record_event r.event_type r.recipient r.amount_kobo r.event_id r.caller s).1

unfoldable pub report_all : List Report → Analytics → Analytics
unfolding report
report_all [] s = s
report_all (r ∷ rs) s = report_all rs (report r s)

note_event_id-keeps :
    (k : String) (now : ℕ) (o : Option ℕ) (seen : Dict ℕ) (id : String) (t : ℕ)
    → lookup k seen ≡ o
    → lookup id seen ≡ some t
    → length seen < 10000
    → (lookup id (note_event_id k now o seen).1 ≡ some t)
      × (length (note_event_id k now o seen).1 ≤ suc (length seen))
unfolding note_event_id evict_seen
note_event_id-keeps k now none seen id t e there room =
    ground (arith, lookup-insert k id now seen, length-insert-le k now seen, eq_iff k id)
note_event_id-keeps k now (some u) seen id t e there room = (there, omega arith)

event_deduped-keeps :
    (event_id : Option String) (now : ℕ) (seen : Dict ℕ) (id : String) (t : ℕ)
    → lookup id seen ≡ some t
    → length seen < 10000
    → (lookup id (event_deduped event_id now seen).1 ≡ some t)
      × (length (event_deduped event_id now seen).1 ≤ suc (length seen))
unfolding event_deduped
event_deduped-keeps event_id now seen id t there room =
    elim (Bool-cases (str_eq (or_empty event_id) "")) [
      | inl anonymous ↦ rw anonymous (there, omega arith)
      | inr named ↦ rw named (
          note_event_id-keeps (or_empty event_id) now (lookup (or_empty event_id) seen) seen id t
            refl there room)
    ]

note_event_id-same :
    (k : String) (now : ℕ) (o : Option ℕ) (seen : Dict ℕ)
    → (note_event_id k now o seen).0 ≡ true
    → (note_event_id k now o seen).1 ≡ seen
unfolding note_event_id
note_event_id-same k now none seen h = cc
note_event_id-same k now (some u) seen h = refl

event_deduped-same :
    (event_id : Option String) (now : ℕ) (seen : Dict ℕ)
    → (event_deduped event_id now seen).0 ≡ true
    → (event_deduped event_id now seen).1 ≡ seen
unfolding event_deduped
event_deduped-same event_id now seen h = elim (Bool-cases (str_eq (or_empty event_id) "")) [
  | inl anonymous ↦ rw anonymous refl
  | inr named ↦ rw named (
      note_event_id-same (or_empty event_id) now (lookup (or_empty event_id) seen) seen
        (rw named at h))
]

report_seen :
    (r : Report) (s : Analytics)
    → (report r s).seen_event_ids ≡ (event_deduped r.event_id r.caller.now s.seen_event_ids).1
unfolding report record_event record_change
report_seen r s = elim (Bool-cases (event_deduped r.event_id r.caller.now s.seen_event_ids).0) [
  | inl duplicate ↦
      rw (report, record_event, duplicate)
        (sym (event_deduped-same r.event_id r.caller.now s.seen_event_ids duplicate))
  | inr fresh ↦ rw (report, record_event, fresh) refl
]

report_all-keeps :
    (rs : List Report) (s : Analytics) (id : String) (t : ℕ)
    → lookup id s.seen_event_ids ≡ some t
    → length s.seen_event_ids + length rs ≤ 10000
    → lookup id (report_all rs s).seen_event_ids ≡ some t
unfolding report_all
report_all-keeps [] s id t there room = there
report_all-keeps (r ∷ rs) s id t there room =
    let (still, size) =
      event_deduped-keeps r.event_id r.caller.now s.seen_event_ids id t there (omega arith) in
    let e = report_seen r s in
    let grown : length (report r s).seen_event_ids ≤ suc (length s.seen_event_ids) = rw e size in
    report_all-keeps rs (report r s) id t (rw e still) (omega arith)

note_event_id-notes :
    (id : String) (now : ℕ) (o : Option ℕ) (seen : Dict ℕ)
    → lookup id seen ≡ o
    → length seen < 10000
    → (t : ℕ) × (lookup id (note_event_id id now o seen).1 ≡ some t)
      × (length (note_event_id id now o seen).1 ≤ suc (length seen))
unfolding note_event_id evict_seen
note_event_id-notes id now none seen e room = (
  now,
  ground (arith, lookup-insert id id now seen, length-insert-le id now seen, eq_refl id),
  ground (arith, length-insert-le id now seen),
)
note_event_id-notes id now (some t) seen e room = (t, e, omega arith)

event_deduped_named :
    (event_id : Option String) (id : String) (now : ℕ) (seen : Dict ℕ)
    → event_id ≡ some id
    → str_eq id "" ≡ false
    → event_deduped event_id now seen ≡ note_event_id id now (lookup id seen) seen
unfolding event_deduped
event_deduped_named event_id id now seen e named = rw (e, event_deduped, named) refl

report_again :
    (r : Report) (s : Analytics) (id : String) (t : ℕ)
    → r.event_id ≡ some id
    → str_eq id "" ≡ false
    → lookup id s.seen_event_ids ≡ some t
    → report r s ≡ s
unfolding report record_event note_event_id
report_again r s id t e named there =
    let known = event_deduped_named r.event_id id r.caller.now s.seen_event_ids e named in
    rw (report, record_event, known, there, note_event_id) refl

-- After an event with an id, whatever events come next, the same id again changes nothing at all: no
-- counter, no revenue, no contact and no log entry; as long as the ids seen and the events in
-- between are at most 10000, so that no id is evicted.
pub event_counts_once :
    (first again : Report) (between : List Report) (s : Analytics) (id : String)
    → first.event_id ≡ some id
    → again.event_id ≡ some id
    → str_eq id "" ≡ false
    → length s.seen_event_ids + length between < 10000
    → report again (report_all between (report first s)) ≡ report_all between (report first s)
event_counts_once first again between s id e e' named room =
    let (t, there, size) =
      note_event_id-notes id first.caller.now (lookup id s.seen_event_ids) s.seen_event_ids refl
        (omega arith) in
    let known = event_deduped_named first.event_id id first.caller.now s.seen_event_ids e named in
    let seen = report_seen first s in
    let there' : lookup id (report first s).seen_event_ids ≡ some t = rw (seen, known) there in
    let size' : length (report first s).seen_event_ids ≤ suc (length s.seen_event_ids) =
      rw (seen, known) size in
    report_again again (report_all between (report first s)) id t e' named
      (report_all-keeps between (report first s) id t there' (omega arith))
