-- ===== src/Reconcile/Mirror.antt =====
-- How the live events take in batches: for each key the map holds the newest observation, so
-- an old batch never hides a newer one.
use ridewatch.Base.{
  ◌≤◌, ◌≡◌, refl, sym, ◌∙◌, ap, Option, none, some, List, [], ◌∷◌, arith, if◌then◌else◌, ltb,
}
use ridewatch.GoMap.{GoMap, get, get-put}
use ridewatch.Domain.Types.{EventKey, StopEvent, key, key_eq, key_equality, key_eq_iff}
use ridewatch.Reconcile.Live.{mirror_event, mirror}

-- The newer of two observations of one key, the second where they are equally new.
unfoldable pub newest : Option StopEvent → Option StopEvent → Option StopEvent
newest none o = o
newest (some a) none = some a
newest (some a) (some b) = if ltb b.feed_timestamp a.feed_timestamp then some a else some b

-- What a batch says of a key.
abbrev said : EventKey → StopEvent → Option StopEvent
said k ev = if key_eq (key ev) k then some ev else none

unfoldable pub batch_newest : EventKey → List StopEvent → Option StopEvent
unfolding newest
batch_newest k [] = none
batch_newest k (ev ∷ evs) = newest (said k ev) (batch_newest k evs)

newest_assoc : (a b c : Option StopEvent) → newest (newest a b) c ≡ newest a (newest b c)
unfolding newest
newest_assoc a b c = ground arith

newest-none : (a : Option StopEvent) → newest a none ≡ a
unfolding newest
newest-none none = refl
newest-none (some a) = refl

get-mirror_event :
    (k : EventKey) (m : GoMap EventKey StopEvent) (ev : StopEvent)
    → get k (mirror_event m ev) ≡ newest (get k m) (said k ev)
unfolding mirror_event newest
get-mirror_event k m ev = ground (arith, get-put (key ev) k ev m, key_eq_iff (key ev) k)

-- After a batch, what the live state holds for a key is the newer of what it held and of the
-- newest observation that the batch makes of the key.
pub get-mirror :
    (k : EventKey) (m : GoMap EventKey StopEvent) (evs : List StopEvent)
    → get k (mirror m evs) ≡ newest (get k m) (batch_newest k evs)
unfolding mirror batch_newest
get-mirror k m [] = sym (newest-none (get k m))
get-mirror k m (ev ∷ evs) =
    get-mirror k (mirror_event m ev) evs
    ∙ ap (λ o. newest o (batch_newest k evs)) (get-mirror_event k m ev)
    ∙ newest_assoc (get k m) (said k ev) (batch_newest k evs)

newest-le :
    (a : StopEvent) (o : Option StopEvent) (b : StopEvent)
    → newest (some a) o ≡ some b
    → a.feed_timestamp ≤ b.feed_timestamp
unfolding newest
newest-le a o b h = ground arith

newest-some :
    (a : StopEvent) (o : Option StopEvent) → (b : StopEvent) × (newest (some a) o ≡ some b)
unfolding newest
newest-some a none = (a, refl)
newest-some a (some b) = (if ltb b.feed_timestamp a.feed_timestamp then a else b, ground arith)

-- No batch, late or out of order, takes away an event that the live state holds or puts one with
-- an older feed timestamp in its place.
pub mirror_never_regresses :
    (k : EventKey) (m : GoMap EventKey StopEvent) (evs : List StopEvent) (a : StopEvent)
    → get k m ≡ some a
    → (b : StopEvent) × (get k (mirror m evs) ≡ some b) × (a.feed_timestamp ≤ b.feed_timestamp)
mirror_never_regresses k m evs a held =
    let (b, e) = newest-some a (batch_newest k evs) in
    (
      b,
      get-mirror k m evs ∙ ap (λ o. newest o (batch_newest k evs)) held ∙ e,
      newest-le a (batch_newest k evs) b e,
    )
