-- ===== src/Indexer/Watcher/Cursor.antt =====
-- Where the next poll starts (`tick` of packages/indexer/src/watcher.ts).
use stellax.Base.{
  ℕ, ◌+◌, ◌-◌, ◌≤◌, ◌<◌, ◌≡◌, refl, sym, ap, ◌∙◌, true, Option, none, some, List, [], ◌∷◌, ◌++◌,
  ◌==◌, leb, length, max, All, All-append, All-mono, arith, Bool-cases, Option-cases, inl, inr,
}
use stellax.Indexer.Rows.{Text}
use stellax.Indexer.Store.{Store}
use stellax.Indexer.Watcher.{
  DecodedEvent, Event, Answer, page, failure, Scan, scan_event, scan_events, finish, poll,
  resolve_start_ledger, tick,
}
use stellax.Indexer.Watcher.Replay.{trades_of, trades-replay, cursor-replay}
use stellax.Indexer.Watcher.Tables.{
  scanned, decoded_of, scan_events-store, scan_events-emitted, store_of, poll-full, poll-short,
}

abbrev pub IsPage : Answer → Type 0
IsPage (page events cursor latest) = Unit
IsPage (failure m) = ⊥

scan_event-last :
    (ev : Event) (s : Scan) → (scan_event ev s).last_ledger ≡ max s.last_ledger ev.ledger
scan_event-last ev s = elim (Option-cases ev.decoded) [ inl e ↦ rw e refl | inr (d, e) ↦ rw e refl ]

scan_events-last :
    (evs : List Event) (s : Scan)
    → (s.last_ledger ≤ (scan_events evs s).last_ledger)
      × All (λ (ev : Event). ev.ledger ≤ (scan_events evs s).last_ledger) evs
unfolding scan_events
scan_events-last [] s = (omega arith, tt)
scan_events-last (ev ∷ evs) s =
    let rest = scan_events-last evs (scan_event ev s) in
    let here = scan_event-last ev s in
    (omega (arith, rest.0, here), (omega (arith, rest.0, here), rest.1))

-- The cursor after a poll: past the ledger it started at and past every event that it read.
record Advanced (start : ℕ) (events : List Event) (s' : Store) : Type 0 where
  next : ℕ
  stored : s'.cursor ≡ some next
  after_start : start < next
  after_events : All (λ (ev : Event). ev.ledger < next) events

abbrev closed : ℕ → Scan → Option (Store × List DecodedEvent)
closed latest r = some (finish (max r.last_ledger latest) r, r.emitted)

finished :
    (evs : List Event) (latest : ℕ) (s : Scan) {s' : Store} {emitted : List DecodedEvent}
    → closed latest (scan_events evs s) ≡ some (s', emitted)
    → Advanced s.last_ledger evs s'
finished evs latest s e =
    let last = scan_events-last evs s in
    let r = scan_events evs s in
    record {
      next = max r.last_ledger latest + 1;
      stored = ap (λ (t : Store). t.cursor) (sym (store_of e).0);
      after_start = omega (arith, last.0);
      after_events =
          All-mono (λ (ev : Event). ev.ledger ≤ r.last_ledger)
            (λ (ev : Event). ev.ledger < max r.last_ledger latest + 1) evs (λ ev h. omega arith)
            last.1;
    }

poll-Advanced :
    (limit : ℕ) (answers : List Answer) (s : Scan) {s' : Store} {emitted : List DecodedEvent}
    → All IsPage answers
    → poll limit answers s ≡ some (s', emitted)
    → Advanced s.last_ledger (scanned limit answers) s'
unfolding poll scan_events
poll-Advanced limit [] s h e = cc
poll-Advanced limit (failure m ∷ rest) s h e = absurd h.0
poll-Advanced limit (page [] cursor latest ∷ rest) s h e = finished [] latest s e
poll-Advanced limit (page (ev ∷ evs) none latest ∷ rest) s h e = finished (ev ∷ evs) latest s e
poll-Advanced limit (page (ev ∷ evs) (some c) latest ∷ rest) s h e =
    elim (Bool-cases (length (ev ∷ evs) == limit)) [
      | inl full ↦
          let here = scan_events-last (ev ∷ evs) s in
          let more =
            poll-Advanced limit rest (scan_events (ev ∷ evs) s) h.1
              (sym (poll-full limit ev evs c latest rest s full) ∙ e) in
          rw full (record {
            next = more.next;
            stored = more.stored;
            after_start = omega (arith, here.0, more.after_start);
            after_events =
                All-append (λ (x : Event). x.ledger < more.next) (ev ∷ evs) (scanned limit rest)
                  (All-mono (λ (x : Event). x.ledger ≤ (scan_events (ev ∷ evs) s).last_ledger)
                    (λ (x : Event). x.ledger < more.next) (ev ∷ evs)
                    (λ x k. omega (arith, more.after_start)) here.1)
                  more.after_events;
          })
      | inr short ↦
          rw short
            (finished (ev ∷ evs) latest s (sym (poll-short limit ev evs c latest rest s short) ∙ e))
    ]

-- the next poll starts at the cursor or, if the window has moved past it, behind it
resumes :
    (limit lookback latest next : ℕ) (s : Store)
    → s.cursor ≡ some next
    → next ≤ (resolve_start_ledger limit lookback latest s).0
unfolding resolve_start_ledger
resumes limit lookback latest next s e = rw e (ground arith)

-- A poll that meets no failure leaves a cursor behind the ledger that it started at and behind every event
-- that it read, and the next poll, whatever the latest ledger is then, starts at the cursor or later, so
-- it does not ask for these events again.
pub tick-advances :
    (limit lookback latest later : ℕ) (answers : List Answer) (s : Store) {s' : Store}
    {emitted : List DecodedEvent}
    → All IsPage answers
    → tick limit lookback latest answers s ≡ some (s', emitted)
    → (next : ℕ) × (s'.cursor ≡ some next)
      × ((resolve_start_ledger limit lookback latest s).0 < next)
      × All (λ (ev : Event). ev.ledger < next) (scanned limit answers)
      × (next ≤ (resolve_start_ledger limit lookback later s').0)
unfolding tick
tick-advances limit lookback latest later answers s {s'} h e =
    let start : Scan = record {
      store = (resolve_start_ledger limit lookback latest s).1;
      emitted = [];
      last_ledger = (resolve_start_ledger limit lookback latest s).0;
    } in
    let r = poll-Advanced limit answers start h e in
    (
      r.next,
      r.stored,
      r.after_start,
      r.after_events,
      resumes limit lookback later r.next s' r.stored,
    )

resolve-kept :
    (limit lookback latest ledger : ℕ) (s : Store)
    → s.cursor ≡ some ledger
    → max 1 (latest - lookback) ≤ ledger
    → resolve_start_ledger limit lookback latest s ≡ (ledger, s)
unfolding resolve_start_ledger
resolve-kept limit lookback latest ledger s h w =
    let inside : leb (max 1 (latest - lookback)) ledger ≡ true = ground arith in ground arith

-- A failure on the second page loses the place of the first: the full page's events are persisted, the
-- trades among them too, but the cursor stays. So the next poll starts at the same ledger, as long as the
-- lookback window has not moved past it; where it is given the page again and then ends normally, it
-- emits the same events a second time and adds their trades to the table once more.
pub tick-counts_twice :
    (limit lookback latest latest' later later' later'' ledger : ℕ) (ev : Event) (evs : List Event)
    (c : Text) (c' : Option Text) (s : Store)
    → length (ev ∷ evs) ≡ limit
    → s.cursor ≡ some ledger
    → max 1 (latest - lookback) ≤ ledger
    → max 1 (later - lookback) ≤ ledger
    → let first = page (ev ∷ evs) (some c) latest' ∷ failure none ∷ [] in
      let second = page (ev ∷ evs) (some c) later' ∷ page [] c' later'' ∷ [] in
      let events = decoded_of (ev ∷ evs) in
      (s' : Store) × (s'' : Store) × (tick limit lookback latest first s ≡ some (s', events))
      × (s'.cursor ≡ some ledger)
      × (tick limit lookback later second s' ≡ some (s'', events))
      × (s''.trades ≡ (s.trades ++ trades_of events) ++ trades_of events)
unfolding tick poll
tick-counts_twice limit lookback latest latest' later later' later'' ledger ev evs c c' s size
      stored window window' =
    let events = decoded_of (ev ∷ evs) in
    let start : Scan = record { store = s; emitted = []; last_ledger = ledger } in
    let r = scan_events (ev ∷ evs) start in
    let again : Scan = record { store = r.store; emitted = []; last_ledger = ledger } in
    let r' = scan_events (ev ∷ evs) again in
    let full : (length (ev ∷ evs) == limit) ≡ true = ground arith in
    let kept = scan_events-store (ev ∷ evs) start in
    let kept' = scan_events-store (ev ∷ evs) again in
    let s'' = finish (max r'.last_ledger later'') r' in
    let stays : r.store.cursor ≡ some ledger =
      ap (λ (t : Store). t.cursor) kept ∙ cursor-replay events s ∙ stored in
    (
      r.store,
      s'',
      rw (resolve-kept limit lookback latest ledger s stored window)
          (rw (full, poll) (ap (λ em. some (r.store, em)) (scan_events-emitted (ev ∷ evs) start))),
      stays,
      rw (resolve-kept limit lookback later ledger r.store stays window')
          (rw (full, poll) (ap (λ em. some (s'', em)) (scan_events-emitted (ev ∷ evs) again))),
      ap (λ (t : Store). t.trades) kept'
          ∙ trades-replay events r.store
          ∙ ap (λ ts. ts ++ trades_of events)
              (ap (λ (t : Store). t.trades) kept ∙ trades-replay events s),
    )
