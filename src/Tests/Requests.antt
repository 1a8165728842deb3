-- ===== src/Tests/Requests.antt =====
-- The theorems on internal/api at concrete inputs.
use ridewatch.Base.{
  ◌*◌, ◌^◌, ◌≤◌, ℤ, pos, codes, ◌≡◌, refl, false, none, some, List, [], ◌∷◌, ok, err, not_found,
  failed, ◌≤ℤ◌, Err, ◌≢◌, arith, length, In, here, ◌⊎◌,
}
use ridewatch.Store.Subscriptions.{PushTables}
use ridewatch.Api.Subscribe.{
  decoded, too_large, SubscribeRequest, Server, handle_subscribe, handle_unsubscribe, subscribe,
  decode_strict, is_https, valid_direction, direction_of, at_stop, error_status, save, saved,
  attempt,
}
use ridewatch.Store.Subscriptions.{save_subscription}
use ridewatch.Api.Watches.{
  AllWatchable, post, serve_all, handle_subscribe_refused, serve_all-AllWatchable,
  unsubscribe-subscribe,
}
use ridewatch.Api.Sentences.{
  DepartureStat, eligible, worse, shown_departures, reliability_sentences, format_clock_12,
  departure_sentence, rem_ℤ, pad_ℤ, time_of_day_bucket, route_display_name, pct, float64_of_32,
  float64_of_int, mul64, round64, round_to, nearest_even, bit_length, day_phrase,
}
use ridewatch.Api.Shown.{NoWorse, shown_departures-NoWorse, length-reliability_sentences}
use ridewatch.Tests.Opened.{opened}

abbrev server : Server
server = record {
  parse_url = λ e. ok (record { scheme = codes "https"; host = codes "push.example" });
  stop = λ s. ok tt;
  now = pos 1000;
  save_error = none;
  delete_error = none;
}

-- The same server, with a database that refuses the DELETE.
abbrev broken : Server
broken = record server { delete_error = some failed }

-- A server whose stops are all unknown.
abbrev elsewhere : Server
elsewhere = record server { stop = λ s. err not_found }

abbrev request : SubscribeRequest
request = record {
  endpoint = codes "https://push.example/1";
  p256dh = codes "k";
  auth = codes "a";
  stop_id = codes "s";
  route_id = [];
  direction_id = none;
  threshold_secs = some (pos 7200);
}

abbrev no_tables : PushTables
no_tables = record { rows = []; next_id = pos 1; sent = [] }

abbrev after_post : PushTables
after_post = (handle_subscribe server (decoded request false) no_tables).1

created : (handle_subscribe server (decoded request false) no_tables).0.status ≡ 201
unfolding opened handle_subscribe subscribe decode_strict is_https valid_direction direction_of
    at_stop save saved attempt save_subscription
created = refl

unknown_stop : (handle_subscribe elsewhere (decoded request false) no_tables).0.status ≡ 404
unfolding opened handle_subscribe subscribe decode_strict is_https valid_direction direction_of
    at_stop error_status
unknown_stop = refl

handle_subscribe_refused_example :
    (handle_subscribe elsewhere (decoded request false) no_tables).1 ≡ no_tables
unfolding opened handle_subscribe subscribe decode_strict is_https valid_direction direction_of
    at_stop error_status
handle_subscribe_refused_example =
    handle_subscribe_refused elsewhere (decoded request false) no_tables (λ h. omega (arith, h))

serve_all-AllWatchable_example :
    AllWatchable
      (serve_all (post server (decoded request false) ∷ post elsewhere too_large ∷ []) no_tables)
serve_all-AllWatchable_example =
    serve_all-AllWatchable (post server (decoded request false) ∷ post elsewhere too_large ∷ [])
      no_tables tt

unsubscribe-subscribe_example :
    (broken.delete_error ≡ none
      → ((handle_unsubscribe broken (decoded request.endpoint false) after_post).0.status ≡ 204)
        × ((handle_unsubscribe broken (decoded request.endpoint false) after_post).1.rows ≡ []))
    × ((e : Err)
        → broken.delete_error ≡ some e
        → ((handle_unsubscribe broken (decoded request.endpoint false) after_post).0.status ≢ 204)
          × ((handle_unsubscribe broken (decoded request.endpoint false) after_post).1
              ≡ after_post))
unsubscribe-subscribe_example =
    unsubscribe-subscribe server broken request no_tables refl refl created

deleted_watch :
    (handle_unsubscribe server (decoded request.endpoint false) after_post).0.status ≡ 204
deleted_watch = ((unsubscribe-subscribe server server request no_tables refl refl created).0 refl).0

-- A departure at ten past eight whose share is 3/8.
abbrev departure : ℤ → DepartureStat
departure n = record {
  route_id = codes "1";
  stop_id = codes "s";
  direction_id = pos 0;
  scheduled_secs = pos 29400;
  day_class = codes "weekday";
  n = n;
  p50_delay_secs = none;
  p90_delay_secs = none;
  late5_pct = 3 * 2 ^ 146;
}

spoken :
    departure_sentence [] (departure (pos 12))
    ≡ codes "The 8:10 AM Route 1 departure is 5+ minutes late on 38% of weekday mornings."
unfolding opened departure_sentence format_clock_12 rem_ℤ pad_ℤ time_of_day_bucket
    route_display_name pct float64_of_32 float64_of_int mul64 round64 round_to nearest_even
    bit_length day_phrase
spoken = refl

-- Six departures which are as late as each other, and one with too few observations.
abbrev departures : List DepartureStat
departures =
    departure (pos 12)
    ∷ departure (pos 9)
    ∷ departure (pos 17)
    ∷ departure (pos 11)
    ∷ departure (pos 14)
    ∷ departure (pos 13)
    ∷ departure (pos 16)
    ∷ []

shown_departures-NoWorse_example :
    In (departure (pos 17)) departures
    × (pos 10 ≤ℤ pos 17)
    × ((e : DepartureStat)
        → In e departures
        → pos 10 ≤ℤ e.n
        → In e (shown_departures departures) ⊎ NoWorse e (departure (pos 17)))
unfolding opened shown_departures eligible worse
shown_departures-NoWorse_example =
    shown_departures-NoWorse departures (departure (pos 17)) (here refl)

length-reliability_sentences_example :
    length (reliability_sentences [] (departure (pos 12) ∷ []) []) ≤ 6
length-reliability_sentences_example = length-reliability_sentences [] (departure (pos 12) ∷ []) []
