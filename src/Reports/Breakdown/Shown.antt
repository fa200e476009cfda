-- ===== src/Reports/Breakdown/Shown.antt =====
-- The answers of the handler that counts events by a dimension.
use api_test.Prelude.{
  ℕ, ◌≡◌, refl, sym, ap, ◌∙◌, List, [], ◌∷◌, Option, none, some, length, take, All, arith,
}
use api_test.Prelude.Result.{Result, ok, err}
use mathlib.Core.List.{Permᴰ}
use api_test.Std.Text.{Text}
use api_test.Std.Sort.{All-sort_by}
use api_test.Std.Float.{Float64}
use api_test.Std.Http.{Table, Response, json, failure, raw, nothing}
use api_test.Audit.Event.{Event}
use api_test.Reports.Filter.{AuditLog, Window, parse_query_filter, window_of}
use api_test.Reports.Aggregate.{Counts, no_counts, select, failed, add_all, add_all_counts}
use api_test.Reports.Breakdown.{
  ranks_before, rank, group_by, breakdown_key_fn, dimension_of, top_of, Group, Breakdown,
  groups_out, breakdown_of, breakdown_by, audit_breakdown,
}
use api_test.Reports.Breakdown.Grouped.{
  Distinct-counted, group_by-Distinct, counted, group_events, in_group,
}
use api_test.Reports.Breakdown.Ranked.{rank-perm}
use api_test.Reports.Breakdown.Ordered.{IsRanking, groups_out-IsRanking, take-groups_out}

-- Go visits the entries of a map in some order.
abbrev pub Shuffles : (Table Counts → Table Counts) → Type 0
Shuffles visit = (m : Table Counts) → Permᴰ m (visit m)

abbrev in_order : Table Counts → Table Counts
in_order m = m

entries_counted :
    (key_of : Event → Text) (events : List Event) (m : Table Counts)
    → All (λ (g : Text × Counts). counted g.0 (group_by key_of events []) ≡ g.1) m
    → All (λ (g : Text × Counts). add_all (select (in_group key_of g.0) events) no_counts ≡ g.1) m
entries_counted key_of events [] h = tt
entries_counted key_of events ((k, a) ∷ m) (h, hs) =
    (sym (group_events key_of k events) ∙ h, entries_counted key_of events m hs)

module _ (F : Float64) where
  breakdown_of-visit :
      (visit : Table Counts → Table Counts) (w : Window) (dimension : Text) (key_of : Event → Text)
      (top : ℕ) (found : Result Text (List Event))
      → Shuffles visit
      → breakdown_of F visit w dimension key_of top found
        ≡ breakdown_of F in_order w dimension key_of top found
  unfolding breakdown_of
  breakdown_of-visit visit w dimension key_of top (err e) shuffles = refl
  breakdown_of-visit visit w dimension key_of top (ok events) shuffles =
      let distinct = group_by-Distinct key_of events [] tt in
      rw (rank-perm (group_by key_of events []) distinct (shuffles (group_by key_of events [])))
        refl

  -- What one group shows is counted of the events with its key.
  abbrev pub IsExact : (Event → Text) → List Event → Group F → Type 0
  IsExact key_of events g =
      (g.count ≡ length (select (in_group key_of g.key) events))
      × (g.errors ≡ length (failed (select (in_group key_of g.key) events)))

  groups_out-IsExact :
      (key_of : Event → Text) (events : List Event) (m : Table Counts)
      → All (λ (g : Text × Counts). add_all (select (in_group key_of g.0) events) no_counts ≡ g.1) m
      → All (IsExact key_of events) (groups_out F m)
  unfolding groups_out
  groups_out-IsExact key_of events [] h = tt
  groups_out-IsExact key_of events ((k, a) ∷ m) (h, hs) =
      let mine = select (in_group key_of k) events in
      let (counts, errors) = add_all_counts mine no_counts in
      (
        (
          ap (λ (c : Counts). c.count) (sym h) ∙ omega (arith, counts),
          ap (λ (c : Counts). c.errors) (sym h) ∙ omega (arith, errors),
        ),
        groups_out-IsExact key_of events m hs,
      )

  -- The groups of an answer.
  unfoldable pub shown : Response (Breakdown F) → List (Group F)
  shown r = elim (r.body) [ json t ↦ t.groups | failure e ↦ [] | raw e ↦ [] | nothing ↦ [] ]

  ranked_counted :
      (key_of : Event → Text) (events : List Event)
      → All
          (λ (g : Text × Counts). add_all (select (in_group key_of g.0) events) no_counts ≡ g.1)
          (rank (group_by key_of events []))
  unfolding rank
  ranked_counted key_of events = All-sort_by ranks_before _ (group_by key_of events []) (
      entries_counted key_of events (group_by key_of events [])
        (Distinct-counted (group_by key_of events []) (group_by-Distinct key_of events [] tt)))

  breakdown_of-IsExact :
      (w : Window) (dimension : Text) (key_of : Event → Text) (top : ℕ) (events : List Event)
      → ((breakdown_of F in_order w dimension key_of top (ok events)).status ≡ 200)
        × (ranking : List (Group F)) × IsRanking F events ranking
        × All (IsExact key_of events) ranking
        × (shown (breakdown_of F in_order w dimension key_of top (ok events)) ≡ take top ranking)
  unfolding breakdown_of shown
  breakdown_of-IsExact w dimension key_of top events =
      let m = rank (group_by key_of events []) in
      (
        refl,
        groups_out F m,
        groups_out-IsRanking F key_of events,
        groups_out-IsExact key_of events m (ranked_counted key_of events),
        take-groups_out F top m,
      )

  module _ (parse_time : Text → Option ℕ) (quote : Text → Text) (log : AuditLog) (now : ℕ)
      (q : Table (List Text)) where
    abbrev window : Window
    window = window_of now (parse_query_filter parse_time q)

    dispatched :
        (visit : Table Counts → Table Counts)
        → audit_breakdown F parse_time quote visit log now q
          ≡ breakdown_by F parse_time quote visit log now q (breakdown_key_fn (dimension_of q))
    unfolding audit_breakdown
    dispatched visit = refl

    known_dimension :
        (visit : Table Counts → Table Counts) (key_of : Event → Text)
        → breakdown_by F parse_time quote visit log now q (some key_of)
          ≡ breakdown_of F visit window
              (dimension_of q)
              key_of
              (top_of q)
              (log.run_query window.filter)
    unfolding breakdown_by
    known_dimension visit key_of = refl

    breakdown_by-visit :
        (visit : Table Counts → Table Counts) (found : Option (Event → Text))
        → Shuffles visit
        → breakdown_by F parse_time quote visit log now q found
          ≡ breakdown_by F parse_time quote in_order log now q found
    breakdown_by-visit visit none shuffles = unfold breakdown_by in refl
    breakdown_by-visit visit (some key_of) shuffles =
        rw (known_dimension visit key_of, known_dimension in_order key_of)
          (breakdown_of-visit visit window (dimension_of q) key_of (top_of q) _ shuffles)

    -- The answer is the same in whatever order Go visits the map of groups.
    pub breakdown_order :
        (visit : Table Counts → Table Counts)
        → Shuffles visit
        → audit_breakdown F parse_time quote visit log now q
          ≡ audit_breakdown F parse_time quote in_order log now q
    breakdown_order visit shuffles =
        rw (dispatched visit, dispatched in_order)
          (breakdown_by-visit visit (breakdown_key_fn (dimension_of q)) shuffles)

    -- For a dimension of the five and a query that succeeds the answer is 200. It shows the first groups,
    -- as many as asked for, of a ranking of the events that the query returned: each group of the
    -- ranking has the number of the events with its key and the number of failures among them, no key
    -- stands twice, the groups count all the events, those with more events come first, and among those
    -- with as many no key comes before a smaller one.
    pub breakdown-IsExact :
        (visit : Table Counts → Table Counts) (key_of : Event → Text) (events : List Event)
        → Shuffles visit
        → breakdown_key_fn (dimension_of q) ≡ some key_of
        → log.run_query window.filter ≡ ok events
        → ((audit_breakdown F parse_time quote visit log now q).status ≡ 200)
          × (ranking : List (Group F)) × IsRanking F events ranking
          × All (IsExact key_of events) ranking
          × (shown (audit_breakdown F parse_time quote visit log now q) ≡ take (top_of q) ranking)
    breakdown-IsExact visit key_of events shuffles known found =
        rw
          (
            breakdown_order visit shuffles,
            dispatched in_order,
            known,
            known_dimension in_order key_of,
            found,
          )
          (breakdown_of-IsExact window (dimension_of q) key_of (top_of q) events)
