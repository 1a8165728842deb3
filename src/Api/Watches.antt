-- ===== src/Api/Watches.antt =====
-- What the handlers of internal/api/handlers.go let into push_subscriptions, and that a refused
-- request changes nothing there.
use ridewatch.Base.{
  ap, ◌∙◌, ℤ, pos, negsuc, eqb_ℤ, eqb_ℤ_iff, Bool-cases, ◌⊎◌, inl, inr, ◌≤ℤ◌, ◌≡◌, ◌≢◌, refl, Bool,
  true, false, not, ◌||◌, Option, none, some, List, [], ◌∷◌, ◌++◌, map, keep, some_entry, All,
  All-append, Text, text_eq_refl, is_empty, arith, if◌then◌else◌, Outcome, ok, err, Err, not_found,
  canceled, failed, if-elim, if-split,
}
use ridewatch.Domain.Types.{Time, Subscription}
use ridewatch.Store.Subscriptions.{
  SubRow, PushTables, save_subscription, delete_subscription, delete_where, has_endpoint, rewatch,
}
use ridewatch.Api.Subscribe.{
  Body, decoded, too_large, malformed, SubscribeRequest, Server, answer, decode_strict, is_https,
  direction_of, valid_direction, threshold_of, error_status, watch_of, save, saved, attempt,
  at_stop, Response, subscribe, handle_subscribe, handle_unsubscribe, unsubscribe, answered,
  deleted,
}

-- What the evaluator relies on: keys to encrypt with, a stop, a direction it knows and a
-- threshold between a minute and an hour.
pub record IsWatchable (s : Subscription) : Type 0 where
  pub has_p256dh : is_empty s.p256dh ≡ false
  pub has_auth : is_empty s.auth ≡ false
  pub has_stop : is_empty s.stop_id ≡ false
  pub direction :
      (s.direction_id ≡ negsuc 0) ⊎ ((s.direction_id ≡ pos 0) ⊎ (s.direction_id ≡ pos 1))
  pub at_least : pos 60 ≤ℤ s.threshold_secs
  pub at_most : s.threshold_secs ≤ℤ pos 3600

abbrev pub AllWatchable : PushTables → Type 0
AllWatchable t = All (λ (r : SubRow). IsWatchable r.sub) t.rows

threshold-ge : (t : Option ℤ) → pos 60 ≤ℤ threshold_of t
unfolding threshold_of
threshold-ge none = omega arith
threshold-ge (some t) = ground arith

threshold-le : (t : Option ℤ) → threshold_of t ≤ℤ pos 3600
unfolding threshold_of
threshold-le none = omega arith
threshold-le (some t) = ground arith

module _ (sub : Subscription) (good : IsWatchable sub) where
  rewatch-IsWatchable : (r : SubRow) → IsWatchable (rewatch sub r).sub
  unfolding rewatch
  rewatch-IsWatchable r = record {
    has_p256dh = good.has_p256dh;
    has_auth = good.has_auth;
    has_stop = good.has_stop;
    direction = good.direction;
    at_least = good.at_least;
    at_most = good.at_most;
  }

  All-rewatch :
      (p : SubRow → Bool) (rows : List SubRow)
      → All (λ (r : SubRow). IsWatchable r.sub) rows
      → All (λ (r : SubRow). IsWatchable r.sub) (map (λ r. if p r then rewatch sub r else r) rows)
  All-rewatch p [] h = tt
  All-rewatch p (r ∷ rows) h = (
    if-elim (λ (x : SubRow). IsWatchable x.sub) (p r) (rewatch sub r) r (rewatch-IsWatchable r) h.0,
    All-rewatch p rows h.1,
  )

  new-AllWatchable :
      (t : PushTables) (now : Time) → AllWatchable t → AllWatchable (save_subscription now sub t).1
  unfolding save_subscription
  new-AllWatchable t now h =
      if-elim (λ (o : Outcome ℤ × PushTables). AllWatchable o.1)
        (some_entry (has_endpoint sub.endpoint) t.rows) _ _
        (All-rewatch (has_endpoint sub.endpoint) t.rows h)
        (All-append (λ (r : SubRow). IsWatchable r.sub) t.rows _ h
          (
            record {
              has_p256dh = good.has_p256dh;
              has_auth = good.has_auth;
              has_stop = good.has_stop;
              direction = good.direction;
              at_least = good.at_least;
              at_most = good.at_most;
            },
            tt,
          ))

  attempt-AllWatchable :
      (e : Option Err) (r : Outcome ℤ × PushTables) (t : PushTables)
      → AllWatchable t
      → AllWatchable r.1
      → AllWatchable (saved (attempt e r t)).1
  unfolding saved attempt
  attempt-AllWatchable none (ok id, t') t h k = k
  attempt-AllWatchable none (err e, t') t h k = k
  attempt-AllWatchable (some e) r t h k = h

  save-AllWatchable : (w : Server) (t : PushTables) → AllWatchable t → AllWatchable (save w sub t).1
  unfolding save
  save-AllWatchable w t h =
      attempt-AllWatchable w.save_error (save_subscription w.now sub t) t h
        (new-AllWatchable t w.now h)

-- A request that passes the guards of the handler.
IsAccepted : SubscribeRequest → Type 0
IsAccepted req =
    (is_empty req.p256dh ≡ false)
    × (is_empty req.auth ≡ false)
    × (is_empty req.stop_id ≡ false)
    × (valid_direction (direction_of req.direction_id) ≡ true)

valid_direction→ : (d : ℤ) → valid_direction d ≡ true → (d ≡ negsuc 0) ⊎ ((d ≡ pos 0) ⊎ (d ≡ pos 1))
unfolding valid_direction
valid_direction→ d h = elim (Bool-cases (eqb_ℤ d (negsuc 0))) [
  | inl e ↦ inl ((eqb_ℤ_iff d (negsuc 0)).0 e)
  | inr e ↦ elim (Bool-cases (eqb_ℤ d (pos 0))) [
    | inl f ↦ inr (inl ((eqb_ℤ_iff d (pos 0)).0 f))
    | inr f ↦ inr (inr ((eqb_ℤ_iff d (pos 1)).0 (ground (arith, e, f, h))))
  ]
]

watch_of-IsWatchable : (req : SubscribeRequest) → IsAccepted req → IsWatchable (watch_of req)
unfolding watch_of IsAccepted
watch_of-IsWatchable req (p, a, s, d) = record {
  has_p256dh = p;
  has_auth = a;
  has_stop = s;
  direction = valid_direction→ (direction_of req.direction_id) d;
  at_least = threshold-ge req.threshold_secs;
  at_most = threshold-le req.threshold_secs;
}

-- How `subscribe` ends: refused with the tables as they were, or with `save` of an accepted
-- request.
data Ends (w : Server) (req : SubscribeRequest) (t : PushTables)
    : Response × PushTables → Type 0 where
  refused : (r : Response) → r.status ≢ 201 → Ends w req t (r, t)
  stored : IsAccepted req → Ends w req t (save w (watch_of req) t)

not_created : (e : Err) → error_status e ≢ 201
unfolding error_status
not_created not_found h = omega (arith, h)
not_created canceled h = omega (arith, h)
not_created failed h = omega (arith, h)

Ends-at_stop :
    (w : Server) (req : SubscribeRequest) (t : PushTables) (o : Outcome (Unit {0}))
    → IsAccepted req
    → Ends w req t (at_stop o w req t)
unfolding at_stop
Ends-at_stop w req t (ok u) a = stored a
Ends-at_stop w req t (err e) a = refused _ (not_created e)

bad_request : (w : Server) (req : SubscribeRequest) (t : PushTables) → Ends w req t (answer 400, t)
bad_request w req t = refused (answer 400) (λ h. omega (arith, h))

Ends-subscribe :
    (w : Server) (req : SubscribeRequest) (t : PushTables) → Ends w req t (subscribe w req t)
unfolding subscribe IsAccepted
Ends-subscribe w req t =
    let no = bad_request w req t in
    if-split (Ends w req t) (not (is_https (w.parse_url req.endpoint))) _ _ (λ h. no)
      (λ u.
        if-split (Ends w req t) (is_empty req.p256dh || is_empty req.auth) _ _ (λ h. no)
          (λ k.
            if-split (Ends w req t) (is_empty req.stop_id) _ _ (λ h. no)
              (λ s.
                if-split (Ends w req t) (not (valid_direction (direction_of req.direction_id))) _ _
                  (λ h. no)
                  (λ d.
                    Ends-at_stop w req t (w.stop req.stop_id)
                      (ground (arith, k), ground (arith, k), s, ground (arith, d))))))

-- A refusal is no change of the tables.
Refusal : PushTables → Response × PushTables → Type 0
Refusal t (r, t') = r.status ≢ 201 → t' ≡ t

attempt-Refusal :
    (e : Option Err) (id : ℤ) (t t' : PushTables) → Refusal t (saved (attempt e (ok id, t') t))
unfolding saved attempt Refusal
attempt-Refusal none id t t' h = elim (h refl) [ ]
attempt-Refusal (some e) id t t' h = refl

save-Refusal : (w : Server) (sub : Subscription) (t : PushTables) → Refusal t (save w sub t)
unfolding save save_subscription
save-Refusal w sub t =
    if-elim (λ r. Refusal t (saved (attempt w.save_error r t)))
      (some_entry (has_endpoint sub.endpoint) t.rows) _ _ (attempt-Refusal w.save_error _ t _)
      (attempt-Refusal w.save_error _ t _)

Ends-Refusal :
    (w : Server) (req : SubscribeRequest) (t : PushTables) (o : Response × PushTables)
    → Ends w req t o
    → Refusal t o
unfolding Refusal
Ends-Refusal w req t o (refused r n) h = refl
Ends-Refusal w req t o (stored a) h = save-Refusal w (watch_of req) t h

Ends-AllWatchable :
    (w : Server) (req : SubscribeRequest) (t : PushTables) (o : Response × PushTables)
    → AllWatchable t
    → Ends w req t o
    → AllWatchable o.1
Ends-AllWatchable w req t o h (refused r n) = h
Ends-AllWatchable w req t o h (stored a) =
    save-AllWatchable (watch_of req) (watch_of-IsWatchable req a) w t h

-- An answer to a subscription other than 201 leaves the subscriptions and the claims as they
-- were, whatever the body, the server and the database's answer are.
pub handle_subscribe_refused :
    (w : Server) (body : Body SubscribeRequest) (t : PushTables)
    → (handle_subscribe w body t).0.status ≢ 201
    → (handle_subscribe w body t).1 ≡ t
unfolding handle_subscribe answered decode_strict Refusal
handle_subscribe_refused w too_large t h = refl
handle_subscribe_refused w malformed t h = refl
handle_subscribe_refused w (decoded req true) t h = refl
handle_subscribe_refused w (decoded req false) t h =
    Ends-Refusal w req t (subscribe w req t) (Ends-subscribe w req t) h

All-keep :
    (p : SubRow → Bool) (rows : List SubRow)
    → All (λ (r : SubRow). IsWatchable r.sub) rows
    → All (λ (r : SubRow). IsWatchable r.sub) (keep p rows)
All-keep p [] h = tt
All-keep p (r ∷ rows) h =
    if-elim (All (λ (x : SubRow). IsWatchable x.sub)) (p r) _ _ (h.0, All-keep p rows h.1)
      (All-keep p rows h.1)

-- A request to either endpoint.
pub data Call : Type 0 where
  post : Server → Body SubscribeRequest → Call
  delete : Server → Body Text → Call

abbrev pub serve : Call → PushTables → Response × PushTables
serve (post w body) t = handle_subscribe w body t
serve (delete w body) t = handle_unsubscribe w body t

abbrev pub serve_all : List Call → PushTables → PushTables
serve_all [] t = t
serve_all (c ∷ cs) t = serve_all cs (serve c t).1

serve-AllWatchable : (c : Call) (t : PushTables) → AllWatchable t → AllWatchable (serve c t).1
unfolding handle_subscribe handle_unsubscribe unsubscribe deleted answered decode_strict
    delete_subscription delete_where
serve-AllWatchable (post w too_large) t h = h
serve-AllWatchable (post w malformed) t h = h
serve-AllWatchable (post w (decoded req true)) t h = h
serve-AllWatchable (post w (decoded req false)) t h =
    Ends-AllWatchable w req t (subscribe w req t) h (Ends-subscribe w req t)
serve-AllWatchable (delete w too_large) t h = h
serve-AllWatchable (delete w malformed) t h = h
serve-AllWatchable (delete w (decoded endpoint true)) t h = h
serve-AllWatchable (delete w (decoded endpoint false)) t h =
    if-elim (λ (o : Response × PushTables). AllWatchable o.1) (is_empty endpoint) _ _ h
      (attempted w.delete_error)
  where
    attempted : (e : Option Err) → AllWatchable (deleted (delete_subscription e endpoint t)).1
    attempted (some e) = h
    attempted none =
        if-elim (λ (o : Outcome (Unit {0}) × PushTables). AllWatchable (deleted o).1)
          (some_entry (has_endpoint endpoint) t.rows) _ _
          (All-keep (λ r. not (has_endpoint endpoint r)) t.rows h) h

-- Whatever requests arrive at the two endpoints, in whatever order, every stored subscription
-- has keys and a stop, a direction of -1, 0 or 1, and a threshold from 60 to 3600 seconds, where
-- this held of the subscriptions before.
pub serve_all-AllWatchable :
    (cs : List Call) (t : PushTables) → AllWatchable t → AllWatchable (serve_all cs t)
serve_all-AllWatchable [] t h = h
serve_all-AllWatchable (c ∷ cs) t h =
    serve_all-AllWatchable cs (serve c t).1 (serve-AllWatchable c t h)

-- Deleting what was not there before its INSERT.
keep-all :
    (endpoint : Text) (rows : List SubRow)
    → some_entry (has_endpoint endpoint) rows ≡ false
    → keep (λ r. not (has_endpoint endpoint r)) rows ≡ rows
keep-all endpoint [] h = refl
keep-all endpoint (r ∷ rows) h = ground (arith, keep-all endpoint rows)

keep-new :
    (endpoint : Text) (rows : List SubRow) (r : SubRow)
    → some_entry (has_endpoint endpoint) rows ≡ false
    → has_endpoint endpoint r ≡ true
    → keep (λ r. not (has_endpoint endpoint r)) (rows ++ (r ∷ [])) ≡ rows
keep-new endpoint [] r h k = ground (arith, k)
keep-new endpoint (x ∷ rows) r h k = ground (arith, keep-new endpoint rows r, k)

some-new :
    (endpoint : Text) (rows : List SubRow) (r : SubRow)
    → has_endpoint endpoint r ≡ true
    → some_entry (has_endpoint endpoint) (rows ++ (r ∷ [])) ≡ true
some-new endpoint [] r k = ground (arith, k)
some-new endpoint (x ∷ rows) r k = ground (arith, some-new endpoint rows r k)

-- What an unsubscription makes of the tables t', which hold one row more than t.
record Undone (w : Server) (endpoint : Text) (t t' : PushTables) : Type 0 where
  gone :
      w.delete_error ≡ none
      → ((unsubscribe w endpoint t').0.status ≡ 204) × ((unsubscribe w endpoint t').1.rows ≡ t.rows)
  kept :
      (e : Err)
      → w.delete_error ≡ some e
      → ((unsubscribe w endpoint t').0.status ≢ 204) × ((unsubscribe w endpoint t').1 ≡ t')

not_deleted : (e : Err) → error_status e ≢ 204
unfolding error_status
not_deleted not_found h = omega (arith, h)
not_deleted canceled h = omega (arith, h)
not_deleted failed h = omega (arith, h)

new-Undone :
    (w : Server) (endpoint : Text) (t t' : PushTables) (r : SubRow)
    → is_empty endpoint ≡ false
    → some_entry (has_endpoint endpoint) t.rows ≡ false
    → t'.rows ≡ t.rows ++ (r ∷ [])
    → has_endpoint endpoint r ≡ true
    → Undone w endpoint t t'
unfolding unsubscribe deleted delete_subscription delete_where
new-Undone w endpoint t t' r n f e k = record {
  gone = λ ok_error.
      let found = ap (some_entry (has_endpoint endpoint)) e ∙ some-new endpoint t.rows r k in
      rw (n, ok_error, found)
        (refl, ap (keep (λ r. not (has_endpoint endpoint r))) e ∙ keep-new endpoint t.rows r f k);
  kept = λ x bad. rw (n, bad) (not_deleted x, refl);
}

save-Undone :
    (w w' : Server) (sub : Subscription) (t : PushTables)
    → is_empty sub.endpoint ≡ false
    → some_entry (has_endpoint sub.endpoint) t.rows ≡ false
    → (e : Option Err) → (saved (attempt e (save_subscription w.now sub t) t)).0.status ≡ 201
    → Undone w' sub.endpoint t (saved (attempt e (save_subscription w.now sub t) t)).1
unfolding saved attempt save_subscription has_endpoint error_status
save-Undone w w' sub t n f (some e) h = elim (not_created failed h) [ ]
save-Undone w w' sub t n f none h =
    rw f (new-Undone w' sub.endpoint t _ _ n f refl (text_eq_refl sub.endpoint))

Ends-Undone :
    (w w' : Server) (req : SubscribeRequest) (t : PushTables) (o : Response × PushTables)
    → is_empty req.endpoint ≡ false
    → some_entry (has_endpoint req.endpoint) t.rows ≡ false
    → Ends w req t o
    → o.0.status ≡ 201
    → Undone w' req.endpoint t o.1
unfolding save watch_of
Ends-Undone w w' req t o n f (refused r c) h = elim (c h) [ ]
Ends-Undone w w' req t o n f (stored a) h = save-Undone w w' (watch_of req) t n f w.save_error h

-- A browser subscribes with an endpoint which is not empty and not yet stored, gets a 201, and then
-- unsubscribes. Where the DELETE succeeds it gets a 204, and the subscriptions are those from
-- before; where the DELETE fails it gets another status, and the tables are those the subscription
-- left.
pub unsubscribe-subscribe :
    (w w' : Server) (req : SubscribeRequest) (t : PushTables)
    → is_empty req.endpoint ≡ false
    → some_entry (has_endpoint req.endpoint) t.rows ≡ false
    → (handle_subscribe w (decoded req false) t).0.status ≡ 201
    → (w'.delete_error ≡ none
        → ((handle_unsubscribe w'
              (decoded req.endpoint false)
              (handle_subscribe w (decoded req false) t).1).0.status
            ≡ 204)
          × ((handle_unsubscribe w'
                (decoded req.endpoint false)
                (handle_subscribe w (decoded req false) t).1).1.rows
              ≡ t.rows))
      × ((e : Err)
          → w'.delete_error ≡ some e
          → ((handle_unsubscribe w'
                (decoded req.endpoint false)
                (handle_subscribe w (decoded req false) t).1).0.status
              ≢ 204)
            × ((handle_unsubscribe w'
                  (decoded req.endpoint false)
                  (handle_subscribe w (decoded req false) t).1).1
                ≡ (handle_subscribe w (decoded req false) t).1))
unfolding handle_subscribe handle_unsubscribe answered decode_strict
unsubscribe-subscribe w w' req t n f h =
    let undone = Ends-Undone w w' req t (subscribe w req t) n f (Ends-subscribe w req t) h in
    (undone.gone, undone.kept)
