-- ===== src/Reports/Breakdown/Grouped.antt =====
-- Which events a group counts.
use api_test.Prelude.{
  ℕ, ◌+◌, ◌≡◌, refl, ap, ◌∙◌, Bool, false, List, [], ◌∷◌, if◌then◌else◌, length, All, arith,
  Bool-cases, inl, inr,
}
use api_test.Std.Text.{Text, str_eq, str_eq_refl, eq_of_str_eq}
use api_test.Std.Http.{Table, lookup, insert, lookup-insert}
use api_test.Audit.Event.{Event}
use api_test.Reports.Aggregate.{Counts, no_counts, bump, select, add_all}
use api_test.Reports.Breakdown.{counts_or_none, tally, group_by}

-- What a table counts for a key, with nothing for a key that it lacks.
unfoldable pub counted : Text → Table Counts → Counts
unfolding counts_or_none lookup
counted k groups = counts_or_none (lookup k groups)

counted-tally :
    (j k : Text) (ev : Event) (groups : Table Counts)
    → counted k (tally j ev groups)
      ≡ (if str_eq j k then bump ev (counted k groups) else counted k groups)
unfolding tally counted
counted-tally j k ev groups = elim (Bool-cases (str_eq j k)) [
  | inl same ↦ rw (lookup-insert j k _ groups, same, eq_of_str_eq j k same) refl
  | inr other ↦ rw (lookup-insert j k _ groups, other) refl
]

module _ (key_of : Event → Text) where
  -- The event is in the group of the key.
  abbrev pub in_group : Text → Event → Bool
  in_group k ev = str_eq (key_of ev) k

  counted-group_by :
      (k : Text) (events : List Event) (groups : Table Counts)
      → counted k (group_by key_of events groups)
        ≡ add_all (select (in_group k) events) (counted k groups)
  unfolding group_by select add_all
  counted-group_by k [] groups = refl
  counted-group_by k (ev ∷ events) groups =
      counted-group_by k events (tally (key_of ev) ev groups)
      ∙ (rw (counted-tally (key_of ev) k ev groups) (elim (Bool-cases (str_eq (key_of ev) k)) [
        | inl here ↦ rw here refl
        | inr other ↦ rw other refl
      ]))

  counted-nil : (k : Text) → counted k [] ≡ no_counts
  unfolding counted
  counted-nil k = refl

  -- Each group holds the count, the errors and the durations of exactly the events with its key.
  pub group_events :
      (k : Text) (events : List Event)
      → counted k (group_by key_of events []) ≡ add_all (select (in_group k) events) no_counts
  group_events k events =
      counted-group_by k events [] ∙ ap (add_all (select (in_group k) events)) (counted-nil k)

-- The sum of what the groups count.
unfoldable pub sum_groups : Table Counts → ℕ
sum_groups [] = 0
sum_groups ((k, a) ∷ groups) = a.count + sum_groups groups

sum_groups-insert :
    (k : Text) (v : Counts) (m : Table Counts)
    → sum_groups (insert k v m) + (counted k m).count ≡ sum_groups m + v.count
unfolding sum_groups insert counted
sum_groups-insert k v [] = omega arith
sum_groups-insert k v ((j, a) ∷ m) = elim (Bool-cases (str_eq j k)) [
  | inl here ↦ rw here (omega arith)
  | inr other ↦ rw other (omega (arith, sum_groups-insert k v m))
]

sum_groups-tally :
    (k : Text) (ev : Event) (m : Table Counts) → sum_groups (tally k ev m) ≡ sum_groups m + 1
unfolding tally bump
sum_groups-tally k ev m =
    unfold counted in omega (arith, sum_groups-insert k (bump ev (counted k m)) m)

pub sum_groups-group_by :
    (key_of : Event → Text) (events : List Event) (m : Table Counts)
    → sum_groups (group_by key_of events m) ≡ sum_groups m + length events
unfolding group_by
sum_groups-group_by key_of [] m = omega arith
sum_groups-group_by key_of (ev ∷ events) m = omega (
  arith,
  sum_groups-group_by key_of events (tally (key_of ev) ev m),
  sum_groups-tally (key_of ev) ev m,
)

-- No key stands twice.
abbrev pub Distinct : Table Counts → Type 0
Distinct [] = Unit
Distinct ((k, a) ∷ m) = All (λ (g : Text × Counts). str_eq k g.0 ≡ false) m × Distinct m

All-insert {κ} :
    (P : Text × Counts → Type κ) (k : Text) (v : Counts) (m : Table Counts)
    → P (k, v)
    → All P m
    → All P (insert k v m)
unfolding insert
All-insert P k v [] p ps = (p, tt)
All-insert P k v ((j, a) ∷ m) p (q, ps) = elim (Bool-cases (str_eq j k)) [
  | inl here ↦ rw here (p, ps)
  | inr other ↦ rw other (q, All-insert P k v m p ps)
]

insert-Distinct : (k : Text) (v : Counts) (m : Table Counts) → Distinct m → Distinct (insert k v m)
unfolding insert
insert-Distinct k v [] h = (tt, tt)
insert-Distinct k v ((j, a) ∷ m) (new, h) = elim (Bool-cases (str_eq j k)) [
  | inl here ↦ let same : j ≡ k = eq_of_str_eq j k here in rw here (rw same at new, h)
  | inr other ↦ rw other (
    All-insert (λ (g : Text × Counts). str_eq j g.0 ≡ false) k v m other new,
    insert-Distinct k v m h,
  )
]

pub group_by-Distinct :
    (key_of : Event → Text) (events : List Event) (m : Table Counts)
    → Distinct m
    → Distinct (group_by key_of events m)
unfolding group_by tally
group_by-Distinct key_of [] m h = h
group_by-Distinct key_of (ev ∷ events) m h =
    group_by-Distinct key_of events (tally (key_of ev) ev m)
      (insert-Distinct (key_of ev) (bump ev (counts_or_none (lookup (key_of ev) m))) m h)

counted_here : (k : Text) (a : Counts) (m : Table Counts) → counted k ((k, a) ∷ m) ≡ a
unfolding counted
counted_here k a m = rw (str_eq_refl k) refl

counted_behind :
    (k j : Text) (a : Counts) (m : Table Counts)
    → str_eq k j ≡ false
    → counted j ((k, a) ∷ m) ≡ counted j m
unfolding counted
counted_behind k j a m other = rw other refl

All-counted :
    (k : Text) (a : Counts) (m rest : Table Counts)
    → All (λ (g : Text × Counts). str_eq k g.0 ≡ false) rest
    → All (λ (g : Text × Counts). counted g.0 m ≡ g.1) rest
    → All (λ (g : Text × Counts). counted g.0 ((k, a) ∷ m) ≡ g.1) rest
All-counted k a m [] _ _ = tt
All-counted k a m ((j, b) ∷ rest) (new, news) (h, hs) =
    (counted_behind k j a m new ∙ h, All-counted k a m rest news hs)

-- An entry holds what the table counts for its key.
pub Distinct-counted :
    (m : Table Counts) → Distinct m → All (λ (g : Text × Counts). counted g.0 m ≡ g.1) m
Distinct-counted [] h = tt
Distinct-counted ((k, a) ∷ m) (new, h) =
    (counted_here k a m, All-counted k a m m new (Distinct-counted m h))
