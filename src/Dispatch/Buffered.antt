-- ===== src/Dispatch/Buffered.antt =====
-- What the buffering writer has of a response.
use api_test.Prelude.{
  ℕ, ◌-◌, ◌≤◌, ◌<◌, ◌≡◌, refl, ap, sym, ◌∙◌, true, false, List, [], ◌∷◌, ◌++◌, ltb, leb, length,
  take, length-append, length-take, take-append_le, take-append_ge, take_all, ltb→lt, arith,
  Bool-cases, ◌⊎◌, inl, inr,
}
use mathlib.Core.List.{append-nil, append_assoc}
use api_test.Std.Text.{Text}
use api_test.Audit.Capture.{Call, write_header, write}
use api_test.Dispatch.Captured.{
  CapResponse, new_cap_response, cap_header, cap_body, cap_call, cap_run,
}

-- The bytes that are written.
unfoldable pub sent_bytes : List Call → Text
sent_bytes [] = []
sent_bytes (write_header status ∷ calls) = sent_bytes calls
sent_bytes (write p ∷ calls) = p ++ sent_bytes calls

-- The first status, with 200 where bytes are written before one.
unfoldable pub sent_status : List Call → ℕ
sent_status [] = 200
sent_status (write_header status ∷ calls) = status
sent_status (write p ∷ calls) = 200

-- The writer after the bytes `seen`.
record Holds (c : CapResponse) (max : ℕ) (seen : Text) : Type 0 where
  bounded : c.max_bytes ≡ max
  prefix : c.body ≡ take max seen
  cut : max < length seen → c.truncated ≡ true
  full : c.truncated ≡ true → max ≤ length seen

take-append_room :
    (max : ℕ) (seen p : Text)
    → take max seen ++ take (max - length (take max seen)) p ≡ take max (seen ++ p)
take-append_room max seen p = elim (Bool-cases (leb (length seen) max)) [
  | inl fits ↦
      rw (take_all max seen (ground arith)) (sym (take-append_ge max seen p (ground arith)))
  | inr over ↦
      let none_left : max - length (take max seen) ≡ 0 = ground (arith, length-take max seen) in
      rw none_left (append-nil (take max seen) ∙ sym (take-append_le max seen p (ground arith)))
]

module _ (p : Text) (c : CapResponse) (max : ℕ) (seen : Text) (h : Holds c max seen) where
  next_body : c.body ++ take (c.max_bytes - length c.body) p ≡ take max (seen ++ p)
  next_body = rw (h.prefix, h.bounded) (take-append_room max seen p)

  room_left : c.max_bytes - length c.body ≡ max - length seen
  room_left = rw (h.prefix, h.bounded) (omega (arith, length-take max seen))

  cap_body_none :
      leb (c.max_bytes - length c.body) 0 ≡ true
      → Holds (record c { truncated = true }) max (seen ++ p)
  cap_body_none full = record {
    bounded = h.bounded;
    prefix = same_body;
    cut = λ over. refl;
    full = λ flag. omega (arith, room_left, length-append seen p, no_room);
  }
    where
      no_room : c.max_bytes - length c.body ≡ 0
      no_room = ground arith

      same_body : c.body ≡ take max (seen ++ p)
      same_body =
          sym (append-nil (c.body)) ∙ (ap (λ (n : ℕ). c.body ++ take n p) (sym no_room) ∙ next_body)

  cap_body_part :
      ltb (c.max_bytes - length c.body) (length p) ≡ true
      → Holds
          (record c { body = c.body ++ take (c.max_bytes - length c.body) p; truncated = true })
          max
          (seen ++ p)
  cap_body_part over = record {
    bounded = h.bounded;
    prefix = next_body;
    cut = λ long. refl;
    full = λ flag. omega (arith, room_left, length-append seen p, ltb→lt _ _ over);
  }

  cap_body_whole :
      leb (c.max_bytes - length c.body) 0 ≡ false
      → ltb (c.max_bytes - length c.body) (length p) ≡ false
      → Holds (record c { body = c.body ++ p }) max (seen ++ p)
  cap_body_whole some_room fits = record {
    bounded = h.bounded;
    prefix =
        ap (λ r. c.body ++ r) (sym (take_all (c.max_bytes - length c.body) p (ground arith)))
        ∙ next_body;
    cut = λ long. absurd (too_long long);
    full = λ flag. omega (arith, h.full flag, length-append seen p);
  }
    where
      too_long : max < length (seen ++ p) → ⊥
      too_long long = ground (arith, room_left, length-append seen p)

  cap_body-Holds : Holds (cap_body p c) max (seen ++ p)
  unfolding cap_body
  cap_body-Holds = elim (Bool-cases (leb (c.max_bytes - length c.body) 0)) [
    | inl full ↦ rw full (cap_body_none full)
    | inr some_room ↦
        rw some_room (elim (Bool-cases (ltb (c.max_bytes - length c.body) (length p))) [
          | inl over ↦ rw over (cap_body_part over)
          | inr fits ↦ rw fits (cap_body_whole some_room fits)
        ])
  ]

cap_header-Holds :
    (status : ℕ) (c : CapResponse) (max : ℕ) (seen : Text)
    → Holds c max seen
    → Holds (cap_header status c) max seen
unfolding cap_header
cap_header-Holds status c max seen h = elim (Bool-cases (c.wrote_hdr)) [
  | inl set ↦ rw set (record { bounded = h.bounded; prefix = h.prefix; cut = h.cut; full = h.full })
  | inr unset ↦
      rw unset (record { bounded = h.bounded; prefix = h.prefix; cut = h.cut; full = h.full })
]

cap_run-Holds :
    (calls : List Call) (c : CapResponse) (max : ℕ) (seen : Text)
    → Holds c max seen
    → Holds (cap_run calls c) max (seen ++ sent_bytes calls)
unfolding cap_run cap_call sent_bytes
cap_run-Holds [] c max seen h = rw (append-nil seen) h
cap_run-Holds (write_header status ∷ calls) c max seen h =
    cap_run-Holds calls (cap_header status c) max seen (cap_header-Holds status c max seen h)
cap_run-Holds (write p ∷ calls) c max seen h = rw (← append_assoc seen p (sent_bytes calls)) (
    cap_run-Holds calls (cap_body p (cap_header 200 c)) max (seen ++ p)
      (cap_body-Holds p (cap_header 200 c) max seen (cap_header-Holds 200 c max seen h)))

-- Once the status is set it stays.
status_kept :
    (calls : List Call) (c : CapResponse) → c.wrote_hdr ≡ true → (cap_run calls c).status ≡ c.status
unfolding cap_run cap_call
status_kept [] c set = refl
status_kept (write_header status ∷ calls) c set =
    status_kept calls (cap_header status c) (unfold cap_header in (ground arith))
    ∙ (unfold cap_header in (ground arith))
status_kept (write p ∷ calls) c set =
    status_kept calls (cap_body p (cap_header 200 c))
      (unfold cap_header in (unfold cap_body in (ground arith)))
    ∙ (unfold cap_header in (unfold cap_body in (ground arith)))

status_first :
    (calls : List Call) (c : CapResponse)
    → c.wrote_hdr ≡ false
    → c.status ≡ 200
    → (cap_run calls c).status ≡ sent_status calls
unfolding cap_run cap_call sent_status
status_first [] c unset ok = ok
status_first (write_header status ∷ calls) c unset ok =
    status_kept calls (cap_header status c) (unfold cap_header in (ground arith))
    ∙ (unfold cap_header in (ground arith))
status_first (write p ∷ calls) c unset ok =
    status_kept calls (cap_body p (cap_header 200 c))
      (unfold cap_header in (unfold cap_body in (ground arith)))
    ∙ (unfold cap_header in (unfold cap_body in (ground arith)))

new-Holds : (max : ℕ) → Holds (new_cap_response max) max []
unfolding new_cap_response
new-Holds max = record {
  bounded = refl;
  prefix = sym (take_all max [] (omega arith));
  cut = λ over. absurd (omega arith);
  full = λ flag. cc;
}

flag-cut :
    (c : CapResponse) (max : ℕ) (seen : Text)
    → Holds c max seen
    → ((c.truncated ≡ true) × (max ≤ length seen)) ⊎ ((c.truncated ≡ false) × (length seen ≤ max))
flag-cut c max seen h = elim (Bool-cases (c.truncated)) [
  | inl flag ↦ inl (flag, h.full flag)
  | inr unset ↦ elim (Bool-cases (ltb max (length seen))) [
    | inl over ↦ absurd (clash (sym unset ∙ h.cut (ltb→lt max (length seen) over)))
    | inr fits ↦ inr (unset, ground arith)
  ]
]
  where
    clash : false ≡ true → ⊥
    clash e = cc

-- Whatever a handler writes, the buffer has its first status and its first bytes up to the cap. The
-- flag tells at the cap or above it from at the cap or below it, and is set where bytes are left out.
pub cap_run_lem :
    (max : ℕ) (calls : List Call)
    → ((cap_run calls (new_cap_response max)).status ≡ sent_status calls)
      × ((cap_run calls (new_cap_response max)).body ≡ take max (sent_bytes calls))
      × (((cap_run calls (new_cap_response max)).truncated ≡ true)
            × (max ≤ length (sent_bytes calls))
          ⊎ ((cap_run calls (new_cap_response max)).truncated ≡ false)
            × (length (sent_bytes calls) ≤ max))
cap_run_lem max calls =
    let h = cap_run-Holds calls (new_cap_response max) max [] (new-Holds max) in
    (
      status_first calls (new_cap_response max) (unfold new_cap_response in refl)
          (unfold new_cap_response in refl),
      h.prefix,
      flag-cut (cap_run calls (new_cap_response max)) max (sent_bytes calls) h,
    )
