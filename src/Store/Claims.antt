-- ===== src/Store/Claims.antt =====
-- The claims that stand in push_sent (internal/store/subscriptions.go): no statement of a pass
-- loses one, but with its subscription, whose id is never used again.
use mathlib.Core.Path.{subst}
use ridewatch.Base.{
  ℤ, pos_part, neg_part, ◌+◌, ◌<◌, eqb_ℤ, eqb_ℤ_iff, ◌≡◌, refl, ◌∙◌, ap, ◌⊎◌, inl, inr, Bool, true,
  false, not, List, [], ◌∷◌, map, keep, some_entry, All, arith, if◌then◌else◌, Outcome, ok, err,
  failed, Bool-cases, if-elim,
}
use ridewatch.Domain.Types.{Time}
use ridewatch.Store.Rows.{RowKey, row_key_eq_iff}
use ridewatch.Store.Subscriptions.{
  SubRow, Sent, PushTables, has_id, insert_sent, sent_eq, delete_where, record_push_result,
}

abbrev pub known : ℤ → PushTables → Bool
known id t = some_entry (has_id id) t.rows

abbrev pub claimed : Sent → PushTables → Bool
claimed s t = some_entry (sent_eq s) t.sent

-- No row has the id, and none will.
abbrev pub Retired : ℤ → PushTables → Type 0
Retired id t =
    (known id t ≡ false) × (pos_part id + neg_part t.next_id < pos_part t.next_id + neg_part id)

abbrev pub RowsBelow : PushTables → Type 0
RowsBelow t =
    All
      (λ (r : SubRow).
        pos_part r.sub.id + neg_part t.next_id < pos_part t.next_id + neg_part r.sub.id)
      t.rows

-- The claim stands in push_sent, or its subscription is gone for good.
abbrev pub Kept : Sent → PushTables → Type 0
Kept s t = (claimed s t ≡ true) ⊎ Retired s.0 t

-- The tables moved on without losing a claim.
pub record Keeps (t t' : PushTables) : Type 0 where
  pub kept : RowsBelow t → (s : Sent) → Kept s t → Kept s t'
  pub rows_below : RowsBelow t → RowsBelow t'

-- An update of rows that leaves the ids alone.
module _ (f : SubRow → SubRow) (same_id : (r : SubRow) → (f r).sub.id ≡ r.sub.id)
    (p : SubRow → Bool) where
  known-update :
      (id : ℤ) (rows : List SubRow)
      → some_entry (has_id id) (map (λ r. if p r then f r else r) rows)
        ≡ some_entry (has_id id) rows
  unfolding has_id
  known-update id [] = refl
  known-update id (r ∷ rows) = ground (arith, known-update id rows, same_id r)

  below-update :
      (t : PushTables) (rows : List SubRow)
      → RowsBelow (record t { rows = rows })
      → RowsBelow (record t { rows = map (λ r. if p r then f r else r) rows })
  below-update t [] h = tt
  below-update t (r ∷ rows) h = (ground (arith, same_id r, h.0), below-update t rows h.1)

  Keeps-update :
      (t : PushTables) → Keeps t (record t { rows = map (λ r. if p r then f r else r) t.rows })
  Keeps-update t = record { kept = λ b s h. kept_again s h; rows_below = below-update t t.rows }
    where
      kept_again :
          (s : Sent)
          → Kept s t
          → Kept s (record t { rows = map (λ r. if p r then f r else r) t.rows })
      kept_again s (inl c) = inl c
      kept_again s (inr (u, l)) = inr (known-update s.0 t.rows ∙ u, l)

sent_eq→ : (s s' : Sent) → sent_eq s s' ≡ true → s ≡ s'
unfolding sent_eq
sent_eq→ (i, k) (j, l) h = ground (arith, row_key_eq_iff k l, eqb_ℤ_iff i j)

sent_eq_refl : (s : Sent) → sent_eq s s ≡ true
unfolding sent_eq
sent_eq_refl (i, k) = ground (arith, row_key_eq_iff k k, eqb_ℤ_iff i i)

gone-other :
    (i j : ℤ) (rows : List SubRow)
    → eqb_ℤ i j ≡ false
    → some_entry (has_id j) (keep (has_id i) rows) ≡ false
unfolding has_id
gone-other i j [] h = refl
gone-other i j (r ∷ rows) h = ground (arith, gone-other i j rows)

kept-none :
    (i : ℤ) (rows : List SubRow) → some_entry (has_id i) (keep (λ r. not (has_id i r)) rows) ≡ false
unfolding has_id
kept-none i [] = refl
kept-none i (r ∷ rows) = ground (arith, kept-none i rows)

kept-unknown :
    (q : SubRow → Bool) (i : ℤ) (rows : List SubRow)
    → some_entry (has_id i) rows ≡ false
    → some_entry (has_id i) (keep q rows) ≡ false
kept-unknown q i [] h = refl
kept-unknown q i (r ∷ rows) h = ground (arith, kept-unknown q i rows)

gone-none :
    (i : ℤ) (rows : List SubRow) → some_entry (has_id i) rows ≡ false → keep (has_id i) rows ≡ []
gone-none i [] h = refl
gone-none i (r ∷ rows) h = ground (arith, gone-none i rows)

claimed-keep :
    (q : Sent → Bool) (s : Sent) (sent : List Sent)
    → q s ≡ true
    → some_entry (sent_eq s) sent ≡ true
    → some_entry (sent_eq s) (keep q sent) ≡ true
claimed-keep q s [] hq h = h
claimed-keep q s (x ∷ sent) hq h = elim (Bool-cases (sent_eq s x)) [
  | inl e ↦ rw (← sent_eq→ s x e) (rw hq (ground (arith, sent_eq_refl s)))
  | inr e ↦ ground (arith, claimed-keep q s sent hq)
]

below-known :
    (t : PushTables) (i : ℤ) (rows : List SubRow)
    → RowsBelow (record t { rows = rows })
    → some_entry (has_id i) rows ≡ true
    → pos_part i + neg_part t.next_id < pos_part t.next_id + neg_part i
unfolding has_id
below-known t i [] h k = cc
below-known t i (r ∷ rows) h k = ground (arith, below-known t i rows h.1, eqb_ℤ_iff r.sub.id i, h.0)

below-keep :
    (q : SubRow → Bool) (t : PushTables) (rows : List SubRow)
    → RowsBelow (record t { rows = rows })
    → RowsBelow (record t { rows = keep q rows })
below-keep q t [] h = tt
below-keep q t (r ∷ rows) h =
    if-elim (λ (l : List SubRow). RowsBelow (record t { rows = l })) (q r) (r ∷ keep q rows)
      (keep q rows) (h.0, below-keep q t rows h.1) (below-keep q t rows h.1)

module _ (i : ℤ) (t : PushTables) (below : RowsBelow t) (s : Sent) where
  claimed_other :
      some_entry (has_id s.0) (keep (has_id i) t.rows) ≡ false
      → claimed s t ≡ true
      → claimed s (delete_where (has_id i) t) ≡ true
  unfolding delete_where
  claimed_other other c =
      claimed-keep (λ (id, k). not (some_entry (has_id id) (keep (has_id i) t.rows))) s t.sent
        (ap not other) c

  Kept-delete : Kept s t → Kept s (delete_where (has_id i) t)
  unfolding delete_where
  Kept-delete (inr (u, l)) = inr (kept-unknown (λ r. not (has_id i r)) s.0 t.rows u, l)
  Kept-delete (inl c) = elim (Bool-cases (known i t)) [
    | inr unknown ↦ inl (claimed_other (rw (gone-none i t.rows unknown)) c)
    | inl there_is ↦ elim (Bool-cases (eqb_ℤ i s.0)) [
      | inr other ↦ inl (claimed_other (gone-other i s.0 t.rows other) c)
      | inl same ↦ inr (
          subst (λ j. Retired j (delete_where (has_id i) t)) ((eqb_ℤ_iff i s.0).0 same)
            (kept-none i t.rows, below-known t i t.rows below there_is))
    ]
  ]

Keeps-delete : (i : ℤ) (t : PushTables) → Keeps t (delete_where (has_id i) t)
unfolding delete_where
Keeps-delete i t = record {
  kept = λ below s. Kept-delete i t below s;
  rows_below = below-keep (λ r. not (has_id i r)) t t.rows;
}

pub Keeps-result :
    (now : Time) (i : ℤ) (is_ok gone : Bool) (t : PushTables)
    → Keeps t (record_push_result now i is_ok gone t)
unfolding record_push_result
Keeps-result now i is_ok true t = Keeps-delete i t
Keeps-result now i true false t = Keeps-update _ (λ r. refl) (has_id i) t
Keeps-result now i false false t = Keeps-update _ (λ r. refl) (has_id i) t

Kept-claim : (s s' : Sent) (t : PushTables) → Kept s t → Kept s (record t { sent = s' ∷ t.sent })
Kept-claim s s' t (inl c) = inl (ground arith)
Kept-claim s s' t (inr r) = inr r

Keeps-refl : (t : PushTables) → Keeps t t
Keeps-refl t = record { kept = λ b s h. h; rows_below = λ b. b }

pub Keeps-trans : {t u v : PushTables} → Keeps t u → Keeps u v → Keeps t v
Keeps-trans f g = record {
  kept = λ b s h. g.kept (f.rows_below b) s (f.kept b s h);
  rows_below = λ b. g.rows_below (f.rows_below b);
}

pub Keeps-insert : (i : ℤ) (k : RowKey) (t : PushTables) → Keeps t (insert_sent i k t).1
unfolding insert_sent
Keeps-insert i k t =
    if-elim (λ (r : Outcome Bool × PushTables). Keeps t r.1) (some_entry (has_id i) t.rows)
      (if some_entry (sent_eq (i, k)) t.sent
        then (ok false, t)
        else (ok true, record t { sent = (i, k) ∷ t.sent }))
      (err failed, t)
      (if-elim (λ (r : Outcome Bool × PushTables). Keeps t r.1) (some_entry (sent_eq (i, k)) t.sent)
        (ok false, t) (ok true, record t { sent = (i, k) ∷ t.sent }) (Keeps-refl t)
        (record { kept = λ b s. Kept-claim s (i, k) t; rows_below = λ b. b }))
      (Keeps-refl t)

fresh_insert :
    (is_known is_claimed : Bool) (t t1 t' : PushTables)
    → ◌≡◌ {A = Outcome Bool × PushTables}
        (if is_known then if is_claimed then (ok false, t) else (ok true, t1) else (err failed, t))
        (ok true, t')
    → (is_known ≡ true) × (is_claimed ≡ false) × (t1 ≡ t')
fresh_insert true true t t1 t' e = cc (ap (λ (p : Outcome Bool × PushTables). p.0) e)
fresh_insert true false t t1 t' e = (refl, refl, ap (λ (p : Outcome Bool × PushTables). p.1) e)
fresh_insert false b t t1 t' e = cc (ap (λ (p : Outcome Bool × PushTables). p.0) e)

-- A fresh claim was nobody's: neither standing nor of a retired subscription; now it stands.
pub fresh_claim :
    (i : ℤ) (k : RowKey) (t t' : PushTables)
    → insert_sent i k t ≡ (ok true, t')
    → (¬ Kept (i, k) t) × Kept (i, k) t'
unfolding insert_sent
fresh_claim i k t t' e =
    let t1 = record t { sent = (i, k) ∷ t.sent } in
    let (k1, k2, k3) =
      fresh_insert (some_entry (has_id i) t.rows) (some_entry (sent_eq (i, k)) t.sent) t t1 t' e in
    (not_kept k1 k2, subst (Kept (i, k)) k3 (inl (ground (arith, sent_eq_refl (i, k)))))
  where
    not_kept : known i t ≡ true → claimed (i, k) t ≡ false → ¬ Kept (i, k) t
    not_kept a b (inl c) = cc
    not_kept a b (inr r) = cc (r.0)
