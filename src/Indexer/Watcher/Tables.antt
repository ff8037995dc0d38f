-- ===== src/Indexer/Watcher/Tables.antt =====
-- What a poll persists (`tick` of packages/indexer/src/watcher.ts).
use stellax.Base.{
  ℕ, zero, suc, ◌≡◌, refl, sym, ap, ◌∙◌, true, false, Option, none, some, List, [], ◌∷◌, ◌++◌, ◌==◌,
  if◌then◌else◌, length, append_assoc, append-nil, Bool-cases, Option-cases, inl, inr,
}
use stellax.Indexer.Rows.{Text}
use stellax.Indexer.Store.{Store}
use stellax.Indexer.Watcher.{
  DecodedEvent, persist, Event, Answer, page, failure, Scan, scan_event, scan_events,
  recover_cursor, poll, resolve_start_ledger, tick,
}
use stellax.Indexer.Watcher.Replay.{replay}

-- the events of the pages that the loop reads
abbrev pub scanned : ℕ → List Answer → List Event
scanned limit [] = []
scanned limit (failure m ∷ rest) = []
scanned limit (page [] cursor latest ∷ rest) = []
scanned limit (page (ev ∷ evs) none latest ∷ rest) = ev ∷ evs
scanned limit (page (ev ∷ evs) (some c) latest ∷ rest) =
    let more = scanned limit rest in
    if length (ev ∷ evs) == limit then (ev ∷ evs) ++ more else ev ∷ evs

-- the events of a page that decode
abbrev pub decoded_of : List Event → List DecodedEvent
decoded_of [] = []
decoded_of (ev ∷ evs) = elim ev.decoded [ none ↦ decoded_of evs | some d ↦ d ∷ decoded_of evs ]

pub scan_events-store :
    (evs : List Event) (s : Scan) → (scan_events evs s).store ≡ replay (decoded_of evs) s.store
unfolding scan_events replay
scan_events-store [] s = refl
scan_events-store (ev ∷ evs) s = elim (Option-cases ev.decoded) [
  | inl e ↦ scan_events-store evs (scan_event ev s) ∙ rw e refl
  | inr (d, e) ↦ scan_events-store evs (scan_event ev s) ∙ rw e refl
]

pub scan_events-emitted :
    (evs : List Event) (s : Scan) → (scan_events evs s).emitted ≡ s.emitted ++ decoded_of evs
unfolding scan_events
scan_events-emitted [] s = sym (append-nil s.emitted)
scan_events-emitted (ev ∷ evs) s = elim (Option-cases ev.decoded) [
  | inl e ↦ scan_events-emitted evs (scan_event ev s) ∙ rw e refl
  | inr (d, e) ↦
      scan_events-emitted evs (scan_event ev s)
      ∙ rw e (append_assoc s.emitted (d ∷ []) (decoded_of evs))
]

replay-append :
    (xs ys : List DecodedEvent) (s : Store) → replay (xs ++ ys) s ≡ replay ys (replay xs s)
unfolding replay
replay-append [] ys s = refl
replay-append (x ∷ xs) ys s = replay-append xs ys (persist x s)

-- a store without its cursor
abbrev pub tables : Store → Store
tables s = record s { cursor = none }

abbrev Faithful : Store → Scan → Type 0
Faithful start s = s.store ≡ replay s.emitted start

scan-Faithful :
    (start : Store) (evs : List Event) (s : Scan)
    → Faithful start s
    → Faithful start (scan_events evs s)
scan-Faithful start evs s h =
    scan_events-store evs s
    ∙ ap (replay (decoded_of evs)) h
    ∙ sym (replay-append s.emitted (decoded_of evs) start)
    ∙ ap (λ e. replay e start) (sym (scan_events-emitted evs s))

recover_cursor-tables : (m : Option ℕ) (s : Store) → tables (recover_cursor m s) ≡ tables s
recover_cursor-tables none s = refl
recover_cursor-tables (some zero) s = refl
recover_cursor-tables (some (suc n)) s = refl

-- the two parts of a result
pub store_of : {a b : Store × List DecodedEvent} → some a ≡ some b → (a.0 ≡ b.0) × (a.1 ≡ b.1)
store_of e = (cc, cc)

module _ (limit : ℕ) (ev : Event) (evs : List Event) (c : Text) (latest : ℕ) (rest : List Answer)
    (s : Scan) where
  pub poll-full :
      (length (ev ∷ evs) == limit) ≡ true
      → poll limit (page (ev ∷ evs) (some c) latest ∷ rest) s
        ≡ poll limit rest (scan_events (ev ∷ evs) s)
  unfolding poll
  poll-full h = rw (h, poll) refl

  pub poll-short :
      (length (ev ∷ evs) == limit) ≡ false
      → poll limit (page (ev ∷ evs) (some c) latest ∷ rest) s
        ≡ poll limit (page (ev ∷ evs) none latest ∷ rest) s
  unfolding poll
  poll-short h = rw (h, poll) refl

last_page :
    (limit : ℕ) (start : Store) (ev : Event) (evs : List Event) (latest : ℕ) (rest : List Answer)
    (s : Scan) {s' : Store} {emitted : List DecodedEvent}
    → Faithful start s
    → poll limit (page (ev ∷ evs) none latest ∷ rest) s ≡ some (s', emitted)
    → tables s' ≡ tables (replay emitted start)
unfolding poll
last_page limit start ev evs latest rest s h e =
    let (es, ee) = store_of e in
    ap tables (sym es)
    ∙ ap tables (scan-Faithful start (ev ∷ evs) s h)
    ∙ ap (λ em. tables (replay em start)) ee

unplayed : (s : Store) → s ≡ replay [] s
unfolding replay
unplayed s = refl

poll-tables :
    (limit : ℕ) (start : Store) (answers : List Answer) (s : Scan) {s' : Store}
    {emitted : List DecodedEvent}
    → Faithful start s
    → poll limit answers s ≡ some (s', emitted)
    → tables s' ≡ tables (replay emitted start)
unfolding poll
poll-tables limit start [] s h e = cc
poll-tables limit start (failure m ∷ rest) s h e =
    let (es, ee) = store_of e in
    ap tables (sym es)
    ∙ recover_cursor-tables m s.store
    ∙ ap tables h
    ∙ ap (λ em. tables (replay em start)) ee
poll-tables limit start (page [] cursor latest ∷ rest) s h e =
    let (es, ee) = store_of e in
    ap tables (sym es) ∙ ap tables h ∙ ap (λ em. tables (replay em start)) ee
poll-tables limit start (page (ev ∷ evs) none latest ∷ rest) s h e =
    last_page limit start ev evs latest rest s h e
poll-tables limit start (page (ev ∷ evs) (some c) latest ∷ rest) s h e =
    elim (Bool-cases (length (ev ∷ evs) == limit)) [
      | inl full ↦
          poll-tables limit start rest (scan_events (ev ∷ evs) s)
            (scan-Faithful start (ev ∷ evs) s h)
            (sym (poll-full limit ev evs c latest rest s full) ∙ e)
      | inr short ↦
          last_page limit start ev evs latest rest s h
            (sym (poll-short limit ev evs c latest rest s short) ∙ e)
    ]

decoded_of-append : (xs ys : List Event) → decoded_of (xs ++ ys) ≡ decoded_of xs ++ decoded_of ys
decoded_of-append [] ys = refl
decoded_of-append (x ∷ xs) ys = elim (Option-cases x.decoded) [
  | inl e ↦ rw e (decoded_of-append xs ys)
  | inr (d, e) ↦ rw e (ap (d ∷◌) (decoded_of-append xs ys))
]

poll-emitted :
    (limit : ℕ) (answers : List Answer) (s : Scan) {s' : Store} {emitted : List DecodedEvent}
    → poll limit answers s ≡ some (s', emitted)
    → emitted ≡ s.emitted ++ decoded_of (scanned limit answers)
unfolding poll
poll-emitted limit [] s e = cc
poll-emitted limit (failure m ∷ rest) s e = sym (store_of e).1 ∙ sym (append-nil s.emitted)
poll-emitted limit (page [] cursor latest ∷ rest) s e =
    sym (store_of e).1 ∙ sym (append-nil s.emitted)
poll-emitted limit (page (ev ∷ evs) none latest ∷ rest) s e =
    sym (store_of e).1 ∙ scan_events-emitted (ev ∷ evs) s
poll-emitted limit (page (ev ∷ evs) (some c) latest ∷ rest) s e =
    elim (Bool-cases (length (ev ∷ evs) == limit)) [
      | inl full ↦
          let more =
            poll-emitted limit rest (scan_events (ev ∷ evs) s)
              (sym (poll-full limit ev evs c latest rest s full) ∙ e) in
          rw full (
            more
            ∙ ap (λ xs. xs ++ decoded_of (scanned limit rest)) (scan_events-emitted (ev ∷ evs) s)
            ∙ append_assoc s.emitted (decoded_of (ev ∷ evs)) (decoded_of (scanned limit rest))
            ∙ ap (λ xs. s.emitted ++ xs) (sym (decoded_of-append (ev ∷ evs) (scanned limit rest))))
      | inr short ↦ rw short (
          sym (store_of (sym (poll-short limit ev evs c latest rest s short) ∙ e)).1
          ∙ scan_events-emitted (ev ∷ evs) s)
    ]

-- Whatever the server answers, a poll that ends has emitted to the subscribers exactly the events of the
-- pages it read that decode, in their order, and has persisted these: without the cursor, the tables
-- after it are those before it with these events replayed on them.
pub tick-tables :
    (limit lookback latest : ℕ) (answers : List Answer) (s : Store) {s' : Store}
    {emitted : List DecodedEvent}
    → tick limit lookback latest answers s ≡ some (s', emitted)
    → (emitted ≡ decoded_of (scanned limit answers))
      × (tables s' ≡ tables (replay emitted (resolve_start_ledger limit lookback latest s).1))
unfolding tick
tick-tables limit lookback latest answers s e =
    let start = (resolve_start_ledger limit lookback latest s).1 in
    let scan : Scan = record {
      store = start;
      emitted = [];
      last_ledger = (resolve_start_ledger limit lookback latest s).0;
    } in
    (poll-emitted limit answers scan e, poll-tables limit start answers scan (unplayed start) e)
